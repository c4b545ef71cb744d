-- ===== src/Webhooks/Worker/Exhaustion.antt =====
-- Events whose endpoint is paused or deleted (internal/webhooks/worker.go, `deliverOne`), and a
-- rotation of the secret while an event is queued (internal/server/handlers/webhooks.go).
use mathlib.Core.Option
use atara_pay.Base.{
  ◌*◌, ◌≤◌, ◌&&◌, List, ◌∷◌, if◌then◌else◌, ℕ, ◌≡◌, refl, ◌+◌, Bool, true, false, not, [], Option,
  none, some, Text,
}
use atara_pay.Limits.Amount.{print_nat}
use atara_pay.Limits.Calendar.{Time}
use atara_pay.Webhooks.Store.{
  WebhookEvent, WebhookEndpoint, Database, get_event, get_endpoint, is_active, is_open, is_due,
  delivering, update_event, rotate_secret,
}
use atara_pay.Webhooks.Store.Rows.{get_endpoint-update_endpoint}
use atara_pay.Webhooks.Worker.{
  Config, Net, signed_request, Statement, claim, deliver_claimed, no_stats, second,
}

-- The endpoint cannot be found, or is not active.
abbrev pub is_off : Option WebhookEndpoint → Bool
is_off none = true
is_off (some e) = not (is_active e.status)

-- The database takes every statement.
abbrev pub IsUp : Net → Type 0
IsUp net = (statement : Statement) (id : Text) (db : Database) → net.fails statement id db ≡ false

-- The longest backoff.
abbrev pub one_day : ℕ
one_day = 24 * 3600 * second

-- Ticks from a time on, the later a day or more after the earlier.
abbrev pub IsSpaced : Time → List Net → Type 0
IsSpaced t [] = Unit {0}
IsSpaced t (net ∷ nets) = (t ≤ net.now) × IsSpaced (net.now + one_day) nets

module _ (config : Config) where
  -- The part of a tick on one event, among the rows that the tick reaches: it is claimed and
  -- delivered where it is listed as due.
  abbrev on_row : Net → Text → Option WebhookEvent → Database → Database
  on_row net id none db = db
  on_row net id (some evt) db =
      if is_open evt.status && is_due net.now evt.next_attempt_at
      then (deliver_claimed config net (claim config net id db) no_stats).0
      else db

  -- The ticks, on one event.
  unfoldable pub rounds : List Net → Text → Database → Database
  rounds [] id db = db
  rounds (net ∷ nets) id db = rounds nets id (on_row net id (get_event id db.events) db)

  module _ (net : Net) (up : IsUp net) where
    -- The store after the claim of an event.
    abbrev claimed_store : Text → Database → Database
    claimed_store id db = record db {
      events = update_event id (λ x. record x { status = delivering }) db.events;
    }

module _ (config : Config) (net : Net) where
  -- A rotation of the secret while an event is queued: the request is signed with the new
  -- secret, and its version header is still the number of the secret that the event was
  -- published under.
  pub signed_request-rotate_secret :
      (evt : WebhookEvent) (e : WebhookEndpoint) (id secret : Text) (version : ℕ) (db : Database)
      → get_endpoint id db.endpoints ≡ some e
      → evt.signature_version ≡ some version
      → (now : WebhookEndpoint) × (get_endpoint id (rotate_secret id secret db).endpoints
          ≡ some now)
        × ((signed_request config net evt now).signature ≡ net.sign secret evt.event_data)
        × ((signed_request config net evt now).version ≡ some (print_nat version))
        × (now.secret_version ≡ e.secret_version + 1)
  unfolding signed_request rotate_secret
  signed_request-rotate_secret evt e id secret version db h v = (
    record e { secret = secret; secret_version = e.secret_version + 1 },
    simp (get_endpoint-update_endpoint, h) refl,
    refl,
    simp v refl,
    refl,
  )
