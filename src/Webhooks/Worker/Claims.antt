-- ===== src/Webhooks/Worker/Claims.antt =====
-- Workers that claim rows at the same time (internal/webhooks/worker.go, `Tick`).

use atara_pay.Base.{ℕ, ◌≡◌, refl, ap, true, false, Option, none, some, Text, zero, suc}
use atara_pay.Webhooks.Store.{
  WebhookEvent, Database, delivering, get_event, is_open, mark_delivering, update_event,
}
use atara_pay.Webhooks.Store.Rows.{get_event-update_event}

-- Claims of one row, one after the other, and how many of them succeed.
abbrev wins : Option WebhookEvent → ℕ → ℕ
wins none n = n
wins (some e) n = suc n

unfoldable pub claims : ℕ → Text → Database → ℕ
claims zero id db = 0
claims (suc n) id db = let (won, after) = mark_delivering id db in wins won (claims n id after)

claims-closed :
    (n : ℕ) (id : Text) (db : Database) (e : WebhookEvent)
    → get_event id db.events ≡ some e
    → is_open e.status ≡ false
    → claims n id db ≡ 0
unfolding claims mark_delivering
claims-closed zero id db e h closed = refl
claims-closed (suc n) id db e h closed =
    rw (h, claims, mark_delivering) (rw closed (claims-closed n id db e h closed))

-- Of any number of workers that claim one open row, one after the other, one wins.
pub claims-open :
    (n : ℕ) (id : Text) (db : Database) (e : WebhookEvent)
    → get_event id db.events ≡ some e
    → is_open e.status ≡ true
    → claims (suc n) id db ≡ 1
unfolding claims mark_delivering
claims-open n id db e h ready =
    rw (h, claims, mark_delivering)
      (rw ready (
        ap suc (
          claims-closed n id
            (record db {
              events = update_event id (λ x. record x { status = delivering }) db.events;
            })
            (record e { status = delivering }) (simp (get_event-update_event, h) refl) refl)))
