-- ===== src/Webhooks/Store.antt =====
-- The tables of the delivery queue and the statements on them (internal/db/sqlcgen/models.go,
-- webhook_events.sql.go, webhook_endpoints.sql.go). A row is found by its primary key.
pub mod Rows
use atara_pay.Base.{
  ℕ, ◌+◌, Bool, true, false, ◌&&◌, Option, none, some, List, [], ◌∷◌, ◌++◌, map, Text, text_eq, leb,
  if◌then◌else◌,
}
use atara_pay.Limits.Calendar.{Time}

pub data EventStatus : Type 0 where
  pending delivering delivered failed dead : EventStatus

pub data EndpointStatus : Type 0 where
  active paused deleted : EndpointStatus

-- `ResourceRefs`: the rows that an event is about; an empty text is none.
pub record ResourceRefs : Type 0 where
  pub wallet_id : Text
  pub group_id : Text
  pub transaction_id : Text
  pub onramp_order_id : Text
  pub session_key_id : Text

pub record WebhookEvent : Type 0 where
  pub id : Text
  pub tenant_id : Text
  pub endpoint_id : Option Text
  pub event_type : Text
  pub event_data : Text
  pub related : ResourceRefs
  pub status : EventStatus
  pub attempts : ℕ
  pub next_attempt_at : Option Time
  pub last_response_code : Option ℕ
  pub last_response_body : Option Text
  pub last_error : Option Text
  pub delivered_at : Option Time
  pub signature_version : Option ℕ

pub record WebhookEndpoint : Type 0 where
  pub id : Text
  pub tenant_id : Text
  pub url : Text
  pub secret : Text
  pub secret_version : ℕ
  pub subscribed_events : Text
  pub status : EndpointStatus
  pub description : Option Text
  pub consecutive_failures : ℕ
  pub last_success_at : Option Time
  pub last_failure_at : Option Time

pub record Database : Type 0 where
  pub events : List WebhookEvent
  pub endpoints : List WebhookEndpoint

-- `UPDATE … WHERE id = $1`, on events and on endpoints.
unfoldable pub update_event :
    Text → (WebhookEvent → WebhookEvent) → List WebhookEvent → List WebhookEvent
update_event id f [] = []
update_event id f (e ∷ rows) = (if text_eq e.id id then f e else e) ∷ update_event id f rows

unfoldable pub update_endpoint :
    Text → (WebhookEndpoint → WebhookEndpoint) → List WebhookEndpoint → List WebhookEndpoint
update_endpoint id f [] = []
update_endpoint id f (e ∷ rows) = (if text_eq e.id id then f e else e) ∷ update_endpoint id f rows

-- `GetWebhookEventByID` and `GetWebhookEndpointByID`
unfoldable pub get_event : Text → List WebhookEvent → Option WebhookEvent
get_event id [] = none
get_event id (e ∷ rows) = if text_eq e.id id then some e else get_event id rows

unfoldable pub get_endpoint : Text → List WebhookEndpoint → Option WebhookEndpoint
get_endpoint id [] = none
get_endpoint id (e ∷ rows) = if text_eq e.id id then some e else get_endpoint id rows

-- `status IN ('pending', 'failed')`
abbrev pub is_open : EventStatus → Bool
is_open pending = true
is_open failed = true
is_open s = false

abbrev pub is_active : EndpointStatus → Bool
is_active active = true
is_active s = false

abbrev pub is_due : Time → Option Time → Bool
is_due now none = false
is_due now (some t) = leb t now

-- `ListDueWebhookEvents`, before the sort by `next_attempt_at` and the limit.
unfoldable pub due_events : Time → List WebhookEvent → List WebhookEvent
due_events now [] = []
due_events now (e ∷ rows) =
    let rest = due_events now rows in
    if is_open e.status && is_due now e.next_attempt_at then e ∷ rest else rest

-- `MarkWebhookEventDelivering`: the claimed row, where it was still open.
unfoldable pub mark_delivering : Text → Database → Option WebhookEvent × Database
mark_delivering id db = elim (get_event id db.events) [
  | none ↦ (none, db)
  | some e ↦
      if is_open e.status
      then (
        some (record e { status = delivering }),
        record db { events = update_event id (λ x. record x { status = delivering }) db.events },
      )
      else (none, db)
]

-- `MarkWebhookEventDelivered`
unfoldable pub mark_delivered : Text → ℕ → Time → Database → Database
mark_delivered id code now db = record db {
  events =
      update_event id
        (λ x. record x {
          status = delivered;
          last_response_code = some code;
          delivered_at = some now;
        })
        db.events;
}

-- `MarkWebhookEventFailed`: it counts the attempt.
unfoldable pub mark_failed :
    Text → Time → Option ℕ → Option Text → Option Text → Database → Database
mark_failed id next code body error db = record db {
  events =
      update_event id
        (λ x. record x {
          status = failed;
          attempts = x.attempts + 1;
          next_attempt_at = some next;
          last_response_code = code;
          last_response_body = body;
          last_error = error;
        })
        db.events;
}

-- `MarkWebhookEventDead`
unfoldable pub mark_dead : Text → Database → Database
mark_dead id db = record db { events = update_event id (λ x. record x { status = dead }) db.events }

-- `TouchWebhookEndpointSuccess`
unfoldable pub touch_success : Text → Time → Database → Database
touch_success id now db = record db {
  endpoints =
      update_endpoint id (λ x. record x { consecutive_failures = 0; last_success_at = some now })
        db.endpoints;
}

-- `TouchWebhookEndpointFailure`, which returns the new count.
unfoldable pub touch_failure : Text → Time → Database → Option ℕ × Database
touch_failure id now db = elim (get_endpoint id db.endpoints) [
  | none ↦ (none, db)
  | some e ↦ (
    some (e.consecutive_failures + 1),
    record db {
      endpoints =
          update_endpoint id
            (λ x. record x {
              consecutive_failures = x.consecutive_failures + 1;
              last_failure_at = some now;
            })
            db.endpoints;
    },
  )
]

-- `PauseWebhookEndpoint`
unfoldable pub pause_endpoint : Text → Database → Database
pause_endpoint id db = record db {
  endpoints =
      update_endpoint id (λ x. if is_active x.status then record x { status = paused } else x)
        db.endpoints;
}

-- `RotateWebhookEndpointSecret`
unfoldable pub rotate_secret : Text → Text → Database → Database
rotate_secret id secret db = record db {
  endpoints =
      update_endpoint id (λ x. record x { secret = secret; secret_version = x.secret_version + 1 })
        db.endpoints;
}
