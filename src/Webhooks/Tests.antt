-- ===== src/Webhooks/Tests.antt =====
-- Concrete runs of internal/webhooks.
use mathlib.Core.Option
use atara_pay.Base.{
  ℕ, ◌*◌, ◌≡◌, refl, false, none, some, List, [], ◌∷◌, ◌++◌, map, codes, length, All, ok,
}
use atara_pay.Webhooks.Store.{
  pending, active, paused, ResourceRefs, WebhookEvent, WebhookEndpoint, Database, get_event,
}
use atara_pay.Webhooks.Publisher.{Outside, endpoint_subscribed, publish}
use atara_pay.Webhooks.Publisher.Subscribers.{IsQueued, publish-subscribers}
use atara_pay.Webhooks.Worker.{default_config, Net, response, no_stats, deliver_one}
use atara_pay.Webhooks.Worker.Delivery.{IsSettled, deliver_one-IsSettled}
use atara_pay.Webhooks.Worker.Rounds.{ticks, ticks-closed}
use atara_pay.Webhooks.Store.{delivering}
use atara_pay.Webhooks.Worker.Claims.{claims, claims-open}
use atara_pay.Webhooks.Worker.Exhaustion.{one_day}

abbrev no_refs : ResourceRefs
no_refs = record {
  wallet_id = [];
  group_id = [];
  transaction_id = [];
  onramp_order_id = [];
  session_key_id = [];
}

-- A receiver that always answers 500.
abbrev broken : Net
broken = record {
  sign = λ secret body. secret ++ body;
  url_error = λ url. none;
  send = λ req. response 500 [];
  sort_due = λ rows. rows;
  now = 1_000;
  fails = λ statement id db. false;
}

abbrev queued : WebhookEvent
queued = record {
  id = codes "we_1";
  tenant_id = codes "t_1";
  endpoint_id = some (codes "ep_1");
  event_type = codes "limit.exceeded";
  event_data = codes "{}";
  related = no_refs;
  status = pending;
  attempts = 0;
  next_attempt_at = some 0;
  last_response_code = none;
  last_response_body = none;
  last_error = none;
  delivered_at = none;
  signature_version = some 1;
}

abbrev receiver : WebhookEndpoint
receiver = record {
  id = codes "ep_1";
  tenant_id = codes "t_1";
  url = codes "https://example.com";
  secret = codes "s1";
  secret_version = 1;
  subscribed_events = [];
  status = active;
  description = none;
  consecutive_failures = 29;
  last_success_at = none;
  last_failure_at = none;
}

abbrev queue : Database
queue = record { events = queued ∷ []; endpoints = receiver ∷ [] }

abbrev paused_queue : Database
paused_queue = record { events = queued ∷ []; endpoints = record receiver { status = paused } ∷ [] }

abbrev outside : Outside
outside = record {
  json_strings = λ s. none;
  list_fails = false;
  insert_fails = λ row. false;
  marshal_fields = λ fields. some [];
  new_id = λ n. codes "we_2";
  now = 1_000;
}

publish-subscribers_example :
    (rows : List WebhookEvent) × (publish outside
        (codes "t_1")
        (codes "limit.exceeded")
        (some [])
        no_refs
        queue
      ≡ (ok (length rows), record queue { events = queue.events ++ rows }))
    × (map (λ e. e.endpoint_id) rows ≡ some (codes "ep_1") ∷ [])
    × All (IsQueued outside (codes "t_1") (codes "limit.exceeded") []) rows
unfolding endpoint_subscribed
publish-subscribers_example =
    publish-subscribers outside (codes "t_1") (codes "limit.exceeded") [] no_refs (λ row. refl)
      queue refl

deliver_one-IsSettled_example :
    IsSettled default_config broken queued queue
      (get_event queued.id (deliver_one default_config broken queued queue no_stats).0.events)
unfolding get_event
deliver_one-IsSettled_example =
    deliver_one-IsSettled default_config broken queued queue no_stats refl

claims-open_example : claims 3 (codes "we_1") queue ≡ 1
unfolding get_event
claims-open_example = claims-open 2 (codes "we_1") queue queued refl refl

-- Eight ticks, a day apart.
abbrev on_day : ℕ → Net
on_day n = record broken { now = n * one_day }

abbrev seven_days : List Net
seven_days = on_day 1 ∷ on_day 2 ∷ on_day 3 ∷ on_day 4 ∷ on_day 5 ∷ on_day 6 ∷ on_day 7 ∷ []

-- A row that was claimed, and whose delivery was never written down.
abbrev claimed : WebhookEvent
claimed = record queued { status = delivering }

ticks-closed_example :
    get_event
      (codes "we_1")
      (ticks default_config seven_days (record queue { events = claimed ∷ [] })).events
    ≡ some claimed
unfolding get_event
ticks-closed_example =
    ticks-closed default_config seven_days (codes "we_1") claimed
      (record queue { events = claimed ∷ [] }) refl refl
