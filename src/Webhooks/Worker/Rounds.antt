-- ===== src/Webhooks/Worker/Rounds.antt =====
-- Any number of runs of `Tick` (internal/webhooks/worker.go), one after the other.
use mathlib.Core.Option.{some-injective}
use atara_pay.Base.{
  ℕ, ◌+◌, ◌≡◌, refl, sym, ap, ◌∙◌, true, false, Option, none, some, List, [], ◌∷◌, Text, text_eq,
  text_eq→eq, codes, leb, ltb, ◌&&◌, Bool-cases, Option-cases, inl, inr,
}
use atara_pay.Limits.Calendar.{Time}
use atara_pay.Webhooks.Store.{
  dead, failed, delivered, WebhookEvent, WebhookEndpoint, Database, get_event, is_open, is_active,
  delivering, mark_delivering, mark_delivered, mark_failed, mark_dead, touch_success,
}
use atara_pay.Webhooks.Store.Rows.{get_event-update_event_ne}
use atara_pay.Webhooks.Worker.{
  Config, Net, HttpAnswer, transport_error, response, TickStats, Statement, on_list, on_claim,
  on_success, written, schedule_retry, settle_answer, attempt, deliver_one, signed_request, claim,
  backoff_for, code_column, pgx_text, deliver_claimed, deliver_all, tick,
}
use atara_pay.Webhooks.Worker.Delivery.{events-bump_failure}

get_event-id :
    (id : Text) (rows : List WebhookEvent) (e : WebhookEvent)
    → get_event id rows ≡ some e
    → e.id ≡ id
unfolding get_event
get_event-id id [] e h = absurd (cc)
get_event-id id (x ∷ rows) e h = elim (Bool-cases (text_eq x.id id)) [
  | inl this ↦
      let same : x ≡ e = some-injective x e (simp this at h) in
      ap (λ y. y.id) (sym same) ∙ text_eq→eq x.id id this
  | inr other ↦ get_event-id id rows e (simp other at h)
]

module _ (config : Config) where
  -- `Tick`, again and again.
  unfoldable pub ticks : List Net → Database → Database
  ticks [] db = db
  ticks (net ∷ nets) db = ticks nets (tick config net db).0

  module _ (id : Text) (e : WebhookEvent) where
    -- The row is still there, as it was.
    abbrev Keeps : Database → Type 0
    Keeps db = get_event id db.events ≡ some e

    module _ (net : Net) where
      written-Keeps :
          (statement : Statement) (key : Text) (f : Database → Database) (db : Database)
          → Keeps db
          → Keeps (f db)
          → Keeps (written config net statement key f db)
      written-Keeps statement key f db h k = elim (Bool-cases (net.fails statement key db)) [
        | inl lost ↦ rw lost h
        | inr fine ↦ rw fine k
      ]

      mark_dead-Keeps :
          (key : Text) (db : Database)
          → text_eq key id ≡ false
          → Keeps db
          → Keeps (mark_dead key db)
      unfolding mark_dead
      mark_dead-Keeps key db other h =
          simp
            (get_event-update_event_ne id key (λ x. record x { status = dead }) db.events
              (λ x. refl) other)
            h

      mark_failed-Keeps :
          (key : Text) (next : Time) (code : Option ℕ) (body error : Option Text) (db : Database)
          → text_eq key id ≡ false
          → Keeps db
          → Keeps (mark_failed key next code body error db)
      unfolding mark_failed
      mark_failed-Keeps key next code body error db other h =
          rw
            (get_event-update_event_ne id key
              (λ x. record x {
                status = failed;
                attempts = x.attempts + 1;
                next_attempt_at = some next;
                last_response_code = code;
                last_response_body = body;
                last_error = error;
              })
              db.events (λ x. refl) other)
            h

      mark_delivered-Keeps :
          (key : Text) (code : ℕ) (db : Database)
          → text_eq key id ≡ false
          → Keeps db
          → Keeps (mark_delivered key code net.now db)
      unfolding mark_delivered
      mark_delivered-Keeps key code db other h =
          rw
            (get_event-update_event_ne id key
              (λ x. record x {
                status = delivered;
                last_response_code = some code;
                delivered_at = some net.now;
              })
              db.events (λ x. refl) other)
            h

      schedule_retry-Keeps :
          (evt : WebhookEvent) (error body : Text) (code : ℕ) (db : Database)
          → text_eq evt.id id ≡ false
          → Keeps db
          → Keeps (schedule_retry config net evt error body code db)
      unfolding schedule_retry
      schedule_retry-Keeps evt error body code db other h =
          elim (Bool-cases (leb config.max_attempts (evt.attempts + 1))) [
            | inl last ↦
                rw last (
                  written-Keeps _ evt.id (mark_dead evt.id) db h
                    (mark_dead-Keeps evt.id db other h))
            | inr more ↦ rw more (
                written-Keeps _ evt.id
                  (mark_failed evt.id (net.now + backoff_for (evt.attempts + 1)) (code_column code)
                    (pgx_text body) (pgx_text error))
                  db h (mark_failed-Keeps evt.id _ _ _ _ db other h))
          ]

      settle_answer-Keeps :
          (evt : WebhookEvent) (endpoint : WebhookEndpoint) (answer : HttpAnswer) (db : Database)
          (stats : TickStats)
          → text_eq evt.id id ≡ false
          → Keeps db
          → Keeps (settle_answer config net evt endpoint answer db stats).0
      unfolding settle_answer touch_success
      settle_answer-Keeps evt endpoint (transport_error x) db stats other h =
          rw (events-bump_failure config net endpoint.id (schedule_retry config net evt x [] 0 db))
            (schedule_retry-Keeps evt x [] 0 db other h)
      settle_answer-Keeps evt endpoint (response code body) db stats other h =
          elim (Bool-cases (leb 200 code && ltb code 300)) [
            | inl good ↦ rw good (
                let settled =
                  written-Keeps _ evt.id (mark_delivered evt.id code net.now) db h
                    (mark_delivered-Keeps evt.id code db other h) in
                written-Keeps on_success endpoint.id (touch_success endpoint.id net.now) _ settled
                  settled)
            | inr bad ↦ rw bad (
                rw (events-bump_failure config net endpoint.id _)
                  (schedule_retry-Keeps evt (codes "non-2xx response") _ code db other h))
          ]

      attempt-Keeps :
          (evt : WebhookEvent) (found : Option WebhookEndpoint) (db : Database) (stats : TickStats)
          → text_eq evt.id id ≡ false
          → Keeps db
          → Keeps (attempt config net evt found db stats).0
      unfolding attempt
      attempt-Keeps evt none db stats other h = schedule_retry-Keeps evt _ [] 0 db other h
      attempt-Keeps evt (some endpoint) db stats other h =
          elim (Bool-cases (is_active endpoint.status)) [
            | inl on ↦ elim (Option-cases (net.url_error endpoint.url)) [
              | inl fine ↦
                  simp (on, fine)
                    (settle_answer-Keeps evt endpoint
                      (net.send (signed_request config net evt endpoint)) db stats other h)
              | inr (x, bad) ↦ simp (on, bad) (schedule_retry-Keeps evt x [] 0 db other h)
            ]
            | inr off ↦
                simp off (schedule_retry-Keeps evt (codes "endpoint not active") [] 0 db other h)
          ]

      deliver_one-Keeps :
          (evt : WebhookEvent) (db : Database) (stats : TickStats)
          → text_eq evt.id id ≡ false
          → Keeps db
          → Keeps (deliver_one config net evt db stats).0
      unfolding deliver_one
      deliver_one-Keeps evt db stats other h = elim (Option-cases evt.endpoint_id) [
        | inl gone ↦
            simp (gone, deliver_one)
              (written-Keeps _ evt.id (mark_dead evt.id) db h (mark_dead-Keeps evt.id db other h))
        | inr (key, aimed) ↦ simp (aimed, deliver_one) (attempt-Keeps evt _ db stats other h)
      ]

      module _ (closed : is_open e.status ≡ false) where
        -- An open row is not this one.
        other_key :
            (key : Text) (x : WebhookEvent) (db : Database)
            → Keeps db
            → get_event key db.events ≡ some x
            → is_open x.status ≡ true
            → text_eq key id ≡ false
        other_key key x db h found ready = elim (Bool-cases (text_eq key id)) [
          | inr other ↦ other
          | inl this ↦
              let same : some x ≡ some e =
                sym found ∙ ap (λ k. get_event k db.events) (text_eq→eq key id this) ∙ h in
              let shut : is_open x.status ≡ false =
                ap (λ y. is_open y.status) (some-injective x e same) ∙ closed in
              absurd (cc)
        ]

        round-Keeps :
            (key : Text) (db : Database) (stats : TickStats)
            → Keeps db
            → Keeps (deliver_claimed config net (claim config net key db) stats).0
        unfolding claim deliver_claimed mark_delivering
        round-Keeps key db stats h = elim (Bool-cases (net.fails on_claim key db)) [
          | inl lost ↦ simp (lost, claim, deliver_claimed) h
          | inr fine ↦ elim (Option-cases (get_event key db.events)) [
            | inl gone ↦ simp (fine, gone, claim, mark_delivering, deliver_claimed) h
            | inr (x, found) ↦ elim (Bool-cases (is_open x.status)) [
              | inr shut ↦ simp (fine, found, shut, claim, mark_delivering, deliver_claimed) h
              | inl ready ↦
                  let other : text_eq key id ≡ false = other_key key x db h found ready in
                  simp (fine, found, ready, claim, mark_delivering, deliver_claimed)
                    (deliver_one-Keeps (record x { status = delivering }) _ _
                      (ap (λ k. text_eq k id) (get_event-id key db.events x found) ∙ other)
                      (get_event-update_event_ne id key (λ y. record y { status = delivering })
                          db.events (λ y. refl) other
                        ∙ h))
            ]
          ]
        ]

        deliver_all-Keeps :
            (due : List WebhookEvent) (db : Database) (stats : TickStats)
            → Keeps db
            → Keeps (deliver_all config net due (db, stats)).0
        unfolding deliver_all
        deliver_all-Keeps [] db stats h = h
        deliver_all-Keeps (x ∷ due) db stats h =
            deliver_all-Keeps due _ _ (round-Keeps x.id db stats h)

        tick-Keeps : (db : Database) → Keeps db → Keeps (tick config net db).0
        unfolding tick
        tick-Keeps db h = elim (Bool-cases (net.fails on_list [] db)) [
          | inl lost ↦ rw lost h
          | inr fine ↦ rw fine (deliver_all-Keeps _ db _ h)
        ]

  -- A row that is delivered, dead, or being delivered is the same after any number of ticks: none
  -- of them delivers it again, and none puts a row back that was left in delivering.
  pub ticks-closed :
      (nets : List Net) (id : Text) (e : WebhookEvent) (db : Database)
      → get_event id db.events ≡ some e
      → is_open e.status ≡ false
      → get_event id (ticks nets db).events ≡ some e
  unfolding ticks
  ticks-closed [] id e db h closed = h
  ticks-closed (net ∷ nets) id e db h closed =
      ticks-closed nets id e (tick config net db).0 (tick-Keeps id e net closed db h) closed
