-- ===== src/Webhooks/Publisher.antt =====
-- The fan-out of an event (internal/webhooks/publisher.go, internal/webhooks/limits_emitter.go).
pub mod Subscribers
use atara_pay.Base.{
  ℕ, ◌+◌, Bool, true, false, ◌&&◌, ◌||◌, Option, none, some, List, [], ◌∷◌, ◌++◌, Text, codes,
  text_eq, is_nil, any, Result, ok, err, if◌then◌else◌,
}
use atara_pay.Limits.Calendar.{Time}
use atara_pay.Webhooks.Store.{
  pending, ResourceRefs, WebhookEvent, WebhookEndpoint, Database, is_active,
}
use atara_pay.Webhooks.Worker.{pgx_text}

pub data PublishError : Type 0 where
  marshal_failed list_failed : PublishError

-- `json.Unmarshal` into a list of strings, `json.Marshal` of an object with text fields, whether the list query fails, whether an insert
-- fails, the id of a new row by the number of rows before it, and the clock.
pub record Outside : Type 0 where
  pub json_strings : Text → Option (List Text)
  pub list_fails : Bool
  pub insert_fails : WebhookEvent → Bool
  pub marshal_fields : List (Text × Text) → Option Text
  pub new_id : ℕ → Text
  pub now : Time

module _ (out : Outside) where
  -- `endpointSubscribed`
  unfoldable pub endpoint_subscribed : WebhookEndpoint → Text → Bool
  endpoint_subscribed ep event_type =
      if is_nil ep.subscribed_events || text_eq ep.subscribed_events (codes "[]")
      then true
      else elim (out.json_strings ep.subscribed_events) [
        | none ↦ false
        | some names ↦ any (λ s. text_eq s event_type) names
      ]

  -- `ListActiveEndpointsForTenant`
  unfoldable pub active_endpoints : Text → List WebhookEndpoint → List WebhookEndpoint
  active_endpoints tenant [] = []
  active_endpoints tenant (e ∷ rows) =
      let rest = active_endpoints tenant rows in
      if text_eq e.tenant_id tenant && is_active e.status then e ∷ rest else rest

  -- The row that `Publish` inserts for one subscriber.
  unfoldable pub event_row : Text → Text → Text → ResourceRefs → ℕ → WebhookEndpoint → WebhookEvent
  event_row tenant event_type body refs n ep = record {
    id = out.new_id n;
    tenant_id = tenant;
    endpoint_id = pgx_text ep.id;
    event_type = event_type;
    event_data = body;
    related = refs;
    status = pending;
    attempts = 0;
    next_attempt_at = some out.now;
    last_response_code = none;
    last_response_body = none;
    last_error = none;
    delivered_at = none;
    signature_version = some ep.secret_version;
  }

  -- The loop of `Publish`: the rows inserted, in order, and their number.
  unfoldable pub fan_out :
      Text → Text → Text → ResourceRefs → List WebhookEndpoint → ℕ → List WebhookEvent × ℕ
  fan_out tenant event_type body refs [] n = ([], 0)
  fan_out tenant event_type body refs (ep ∷ rest) n =
      let (rows, count) = fan_out tenant event_type body refs rest (n + 1) in
      let row = event_row tenant event_type body refs n ep in
      if endpoint_subscribed ep event_type
      then if out.insert_fails row then (rows, count) else (row ∷ rows, count + 1)
      else (rows, count)

  -- `Publish`, on the JSON of its data where that can be made.
  unfoldable pub publish :
      Text → Text → Option Text → ResourceRefs → Database → Result PublishError ℕ × Database
  publish tenant event_type none refs db = (err marshal_failed, db)
  publish tenant event_type (some body) refs db =
      if out.list_fails
      then (err list_failed, db)
      else let (rows, count) =
          fan_out tenant event_type body refs (active_endpoints tenant db.endpoints) 0 in
        (ok count, record db { events = db.events ++ rows })

  -- `EmitLimitExceeded`, on an emitter that has a publisher: what `Publish` answers is dropped.
  unfoldable pub emit_limit_exceeded :
      Text → Text → Text → Text → Text → Text → Text → Text → Database → Database
  emit_limit_exceeded tenant policy violation wallet session_key amount asset recipient db =
      let payload =
        (codes "policy_id", policy)
        ∷ (codes "violation_type", violation)
        ∷ (codes "wallet_id", wallet)
        ∷ (codes "session_key_id", session_key)
        ∷ (codes "attempted_amount", amount)
        ∷ (codes "asset", asset)
        ∷ (codes "attempted_recipient", recipient)
        ∷ [] in
      let refs : ResourceRefs = record {
        wallet_id = wallet;
        group_id = [];
        transaction_id = [];
        onramp_order_id = [];
        session_key_id = session_key;
      } in
      (publish tenant (codes "limit.exceeded") (out.marshal_fields payload) refs db).1
