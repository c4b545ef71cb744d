-- ===== src/Webhooks/Worker/Delivery.antt =====
-- What one delivery does to the queue (internal/webhooks/worker.go, `deliverOne`).

use atara_pay.Base.{
  Bool, ◌∙◌, ℕ, ◌≡◌, refl, ◌+◌, true, false, Option, none, some, [], Text, leb, ltb, arith,
  Bool-cases, Option-cases, ◌⊎◌, inl, inr, ◌&&◌, codes, take,
}
use atara_pay.Webhooks.Store.{
  delivered, failed, dead, WebhookEvent, WebhookEndpoint, Database, get_event, is_active,
  mark_delivered, mark_failed, mark_dead, touch_success, touch_failure, pause_endpoint,
}
use atara_pay.Webhooks.Store.Rows.{get_event-update_event}
use atara_pay.Webhooks.Worker.{
  Config, Net, HttpAnswer, transport_error, response, TickStats, backoff_for, schedule_retry,
  pause_if_broken, bump_failure, settle_answer, attempt, deliver_one, signed_request, written,
  Statement, on_delivered, on_failed, on_dead, on_success, on_failure,
}

-- The writes that settle a row.
abbrev pub is_settling : Statement → Bool
is_settling on_delivered = true
is_settling on_failed = true
is_settling on_dead = true
is_settling statement = false

module _ (config : Config) (net : Net) where
  -- The row after a delivery attempt: delivered, dead, or failed with one attempt more, fewer
  -- than the limit, and due after the backoff of that attempt; or as it was, where the database
  -- has failed the write.
  pub data IsSettled (evt : WebhookEvent) (db : Database) (row : Option WebhookEvent) : Type 0 where
    was_delivered :
        (e : WebhookEvent)
        → row ≡ some e
        → e.status ≡ delivered
        → e.attempts ≡ evt.attempts
        → e.delivered_at ≡ some net.now
        → IsSettled evt db row
    gave_up :
        (e : WebhookEvent)
        → row ≡ some e
        → e.status ≡ dead
        → (evt.endpoint_id ≡ none) ⊎ (leb config.max_attempts (evt.attempts + 1) ≡ true)
        → IsSettled evt db row
    was_put_back :
        (e : WebhookEvent)
        → row ≡ some e
        → e.status ≡ failed
        → e.attempts ≡ evt.attempts + 1
        → leb config.max_attempts (evt.attempts + 1) ≡ false
        → e.next_attempt_at ≡ some (net.now + backoff_for (evt.attempts + 1))
        → IsSettled evt db row
    was_lost :
        (statement : Statement)
        → is_settling statement ≡ true
        → net.fails statement evt.id db ≡ true
        → row ≡ some evt
        → IsSettled evt db row

  events-pause_if_broken :
      (id : Text) (found : Option ℕ × Database)
      → (pause_if_broken config net id found).events ≡ found.1.events
  unfolding pause_if_broken pause_endpoint
  events-pause_if_broken id (none, db) = refl
  events-pause_if_broken id (some n, db) = ground arith

  events-touch_failure :
      (id : Text) (db : Database) → (touch_failure id net.now db).1.events ≡ db.events
  unfolding touch_failure
  events-touch_failure id db = ground arith

  pub events-bump_failure :
      (id : Text) (db : Database) → (bump_failure config net id db).events ≡ db.events
  unfolding bump_failure
  events-bump_failure id db = elim (Bool-cases (net.fails on_failure id db)) [
    | inl lost ↦ rw lost refl
    | inr fine ↦
        rw fine
          (events-pause_if_broken id (touch_failure id net.now db) ∙ events-touch_failure id db)
  ]

  schedule_retry-IsSettled :
      (evt : WebhookEvent) (error body : Text) (code : ℕ) (db : Database)
      → get_event evt.id db.events ≡ some evt
      → IsSettled evt db
          (get_event evt.id (schedule_retry config net evt error body code db).events)
  unfolding schedule_retry mark_dead mark_failed
  schedule_retry-IsSettled evt error body code db h =
      elim (Bool-cases (leb config.max_attempts (evt.attempts + 1))) [
        | inl last ↦ elim (Bool-cases (net.fails on_dead evt.id db)) [
          | inl lost ↦ simp (last, lost) (was_lost on_dead refl lost h)
          | inr fine ↦ simp (last, fine, get_event-update_event, h) (gave_up _ refl refl (inr last))
        ]
        | inr more ↦ elim (Bool-cases (net.fails on_failed evt.id db)) [
          | inl lost ↦ simp (more, lost) (was_lost on_failed refl lost h)
          | inr fine ↦
              simp (more, fine, get_event-update_event, h) (was_put_back _ refl refl refl more refl)
        ]
      ]

  events-written_success :
      (id : Text) (db : Database)
      → (written config net on_success id (touch_success id net.now) db).events ≡ db.events
  unfolding touch_success
  events-written_success id db = ground arith

  settle_answer-IsSettled :
      (evt : WebhookEvent) (endpoint : WebhookEndpoint) (answer : HttpAnswer) (db : Database)
      (stats : TickStats)
      → get_event evt.id db.events ≡ some evt
      → IsSettled evt db
          (get_event evt.id (settle_answer config net evt endpoint answer db stats).0.events)
  unfolding settle_answer touch_success mark_delivered
  settle_answer-IsSettled evt endpoint (transport_error e) db stats h =
      rw (events-bump_failure endpoint.id (schedule_retry config net evt e [] 0 db))
        (schedule_retry-IsSettled evt e [] 0 db h)
  settle_answer-IsSettled evt endpoint (response code body) db stats h =
      elim (Bool-cases (leb 200 code && ltb code 300)) [
        | inl good ↦ rw good (
            rw
              (events-written_success endpoint.id
                (written config net on_delivered evt.id (mark_delivered evt.id code net.now) db))
              (elim (Bool-cases (net.fails on_delivered evt.id db)) [
                | inl lost ↦ simp lost (was_lost on_delivered refl lost h)
                | inr fine ↦
                    simp (fine, get_event-update_event, h) (was_delivered _ refl refl refl refl)
              ]))
        | inr bad ↦ rw (bad) (
            simp (events-bump_failure)
              (schedule_retry-IsSettled evt (codes "non-2xx response") (take 2048 body) code db h))
      ]

  attempt-IsSettled :
      (evt : WebhookEvent) (found : Option WebhookEndpoint) (db : Database) (stats : TickStats)
      → get_event evt.id db.events ≡ some evt
      → IsSettled evt db (get_event evt.id (attempt config net evt found db stats).0.events)
  unfolding attempt
  attempt-IsSettled evt none db stats h =
      schedule_retry-IsSettled evt (codes "endpoint not active") [] 0 db h
  attempt-IsSettled evt (some endpoint) db stats h = elim (Bool-cases (is_active endpoint.status)) [
    | inl on ↦ elim (Option-cases (net.url_error endpoint.url)) [
      | inl fine ↦
          simp (on, fine)
            (settle_answer-IsSettled evt endpoint
              (net.send (signed_request config net evt endpoint)) db stats h)
      | inr (e, bad) ↦ simp (on, bad) (schedule_retry-IsSettled evt e [] 0 db h)
    ]
    | inr off ↦ simp off (schedule_retry-IsSettled evt (codes "endpoint not active") [] 0 db h)
  ]

  -- After a delivery of a row of the queue the row is delivered, with its attempts as they were; or
  -- dead, where it has no endpoint or this was the last attempt; or failed with one attempt more,
  -- below the limit, and due again after the backoff of that attempt; or it is as it was before,
  -- and the database has failed the write that was to settle it.
  pub deliver_one-IsSettled :
      (evt : WebhookEvent) (db : Database) (stats : TickStats)
      → get_event evt.id db.events ≡ some evt
      → IsSettled evt db (get_event evt.id (deliver_one config net evt db stats).0.events)
  unfolding deliver_one mark_dead
  deliver_one-IsSettled evt db stats h = elim (Option-cases evt.endpoint_id) [
    | inl gone ↦ elim (Bool-cases (net.fails on_dead evt.id db)) [
      | inl lost ↦ simp (gone, deliver_one, lost) (was_lost on_dead refl lost h)
      | inr fine ↦
          simp (gone, deliver_one, fine, get_event-update_event, h) (gave_up _ refl refl (inl gone))
    ]
    | inr (id, e) ↦ simp (e, deliver_one) (attempt-IsSettled evt _ db stats h)
  ]
