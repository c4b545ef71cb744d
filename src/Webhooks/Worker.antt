-- ===== src/Webhooks/Worker.antt =====
-- The delivery loop (internal/webhooks/worker.go, internal/webhooks/signing.go). The database may
-- fail any statement; most of their errors are ignored.
pub mod Delivery
pub mod Rounds
pub mod Exhaustion
pub mod Endpoints
pub mod Claims
use atara_pay.Base.{
  ℕ, zero, suc, ◌+◌, ◌*◌, Bool, true, false, ◌&&◌, Option, none, some, List, [], ◌∷◌, Text, codes,
  is_nil, leb, ltb, take, Result, ok, err, if◌then◌else◌,
}
use atara_pay.Limits.Amount.{print_nat}
use atara_pay.Limits.Calendar.{Time}
use atara_pay.Webhooks.Store.{
  WebhookEvent, WebhookEndpoint, Database, is_active, get_endpoint, due_events, mark_delivering,
  mark_delivered, mark_failed, mark_dead, touch_success, touch_failure, pause_endpoint,
}

-- The fields of `Worker` that decide.
pub record Config : Type 0 where
  pub batch : ℕ
  pub max_attempts : ℕ
  pub pause_after_consecutive : ℕ

-- `NewWorker`
abbrev pub default_config : Config
default_config = record { batch = 200; max_attempts = 8; pause_after_consecutive = 30 }

pub record TickStats : Type 0 where
  pub claimed : ℕ
  pub delivered_count : ℕ
  pub failed_count : ℕ
  pub dead_count : ℕ

pub record HttpRequest : Type 0 where
  pub url : Text
  pub body : Text
  pub event_id : Text
  pub event_type : Text
  pub signature : Text
  pub version : Option Text

-- The outcome of `http.Client.Do`: an error text, or a status code and the body.
pub data HttpAnswer : Type 0 where
  transport_error : Text → HttpAnswer
  response : ℕ → Text → HttpAnswer

-- The statements of the worker.
pub data Statement : Type 0 where
  on_list on_claim on_read on_delivered on_failed on_dead on_success on_failure on_pause : Statement

-- HMAC-SHA256 in hex, the parsing in `NewRequestWithContext`, the network, the order of a
-- sorted query, the clock, and whether the database fails a statement on a row, by what it holds
-- at the time; a statement that fails changes nothing.
pub record Net : Type 0 where
  pub sign : Text → Text → Text
  pub url_error : Text → Option Text
  pub send : HttpRequest → HttpAnswer
  pub sort_due : List WebhookEvent → List WebhookEvent
  pub now : Time
  pub fails : Statement → Text → Database → Bool

abbrev pub second : ℕ
second = 1_000_000_000

-- `backoffFor`
unfoldable pub backoff_for : ℕ → ℕ
backoff_for (suc zero) = 30 * second
backoff_for (suc (suc zero)) = 2 * 60 * second
backoff_for (suc (suc (suc zero))) = 10 * 60 * second
backoff_for (suc (suc (suc (suc zero)))) = 3600 * second
backoff_for (suc (suc (suc (suc (suc zero))))) = 6 * 3600 * second
backoff_for attempt = 24 * 3600 * second

-- `pgxText`
abbrev pub pgx_text : Text → Option Text
pgx_text s = if is_nil s then none else some s

abbrev pub code_column : ℕ → Option ℕ
code_column code = if ltb 0 code then some code else none

abbrev pub count_failed : TickStats → TickStats
count_failed stats = record stats { failed_count = stats.failed_count + 1 }

-- `readTruncated` keeps 2048 of the body.
abbrev pub max_body : ℕ
max_body = 2048

abbrev pub no_stats : TickStats
no_stats = record { claimed = 0; delivered_count = 0; failed_count = 0; dead_count = 0 }

module _ (config : Config) (net : Net) where
  open net use {sign, url_error, send, sort_due, now, fails}

  -- A write whose error is ignored.
  abbrev pub written : Statement → Text → (Database → Database) → Database → Database
  written statement id f db = if fails statement id db then db else f db

  -- `scheduleRetry`: its `httpStatus` argument is not read.
  unfoldable pub schedule_retry : WebhookEvent → Text → Text → ℕ → Database → Database
  schedule_retry evt error body code db =
      let next = evt.attempts + 1 in
      if leb config.max_attempts next
      then written on_dead evt.id (mark_dead evt.id) db
      else written on_failed evt.id
          (mark_failed evt.id (now + backoff_for next) (code_column code) (pgx_text body)
            (pgx_text error))
          db

  -- The pause at the end of `bumpFailure`.
  unfoldable pub pause_if_broken : Text → Option ℕ × Database → Database
  pause_if_broken id (none, db) = db
  pause_if_broken id (some count, db) =
      if leb config.pause_after_consecutive count
      then written on_pause id (pause_endpoint id) db
      else db

  -- `bumpFailure`
  unfoldable pub bump_failure : Text → Database → Database
  unfolding pause_if_broken
  bump_failure id db =
      if fails on_failure id db then db else pause_if_broken id (touch_failure id now db)

  -- The request that `deliverOne` signs and sends.
  unfoldable pub signed_request : WebhookEvent → WebhookEndpoint → HttpRequest
  signed_request evt endpoint = record {
    url = endpoint.url;
    body = evt.event_data;
    event_id = evt.id;
    event_type = evt.event_type;
    signature = sign endpoint.secret evt.event_data;
    version = elim evt.signature_version [ none ↦ none | some v ↦ some (print_nat v) ];
  }

  -- What `deliverOne` does with the answer.
  unfoldable pub settle_answer :
      WebhookEvent → WebhookEndpoint → HttpAnswer → Database → TickStats → Database × TickStats
  settle_answer evt endpoint (transport_error e) db stats =
      (bump_failure endpoint.id (schedule_retry evt e [] 0 db), count_failed stats)
  settle_answer evt endpoint (response code body) db stats =
      if leb 200 code && ltb code 300
      then (
        written on_success endpoint.id (touch_success endpoint.id now)
            (written on_delivered evt.id (mark_delivered evt.id code now) db),
        record stats { delivered_count = stats.delivered_count + 1 },
      )
      else (
        bump_failure endpoint.id
            (schedule_retry evt (codes "non-2xx response") (take max_body body) code db),
        count_failed stats,
      )

  -- `deliverOne`, once the endpoint is read.
  unfoldable pub attempt :
      WebhookEvent → Option WebhookEndpoint → Database → TickStats → Database × TickStats
  attempt evt none db stats =
      (schedule_retry evt (codes "endpoint not active") [] 0 db, count_failed stats)
  attempt evt (some endpoint) db stats =
      if is_active endpoint.status
      then elim (url_error endpoint.url) [
        | some e ↦ (schedule_retry evt e [] 0 db, count_failed stats)
        | none ↦ settle_answer evt endpoint (send (signed_request evt endpoint)) db stats
      ]
      else (schedule_retry evt (codes "endpoint not active") [] 0 db, count_failed stats)

  -- `deliverOne`
  unfoldable pub deliver_one : WebhookEvent → Database → TickStats → Database × TickStats
  deliver_one evt db stats = elim evt.endpoint_id [
    | none ↦ (
      written on_dead evt.id (mark_dead evt.id) db,
      record stats { dead_count = stats.dead_count + 1 },
    )
    | some id ↦
        attempt evt (if fails on_read id db then none else get_endpoint id db.endpoints) db stats
  ]

  -- The claim of a row; an error of it is taken for a row that is not open.
  unfoldable pub claim : Text → Database → Option WebhookEvent × Database
  claim id db = if fails on_claim id db then (none, db) else mark_delivering id db

  -- One round of the loop of `Tick`: a row that cannot be claimed is skipped.
  unfoldable pub deliver_claimed : Option WebhookEvent × Database → TickStats → Database × TickStats
  deliver_claimed (none, db) stats = (db, stats)
  deliver_claimed (some evt, db) stats =
      deliver_one evt db (record stats { claimed = stats.claimed + 1 })

  unfoldable pub deliver_all : List WebhookEvent → Database × TickStats → Database × TickStats
  deliver_all [] (db, stats) = (db, stats)
  deliver_all (e ∷ due) (db, stats) = deliver_all due (deliver_claimed (claim e.id db) stats)

  -- `Tick`
  unfoldable pub tick : Database → Database × TickStats
  tick db =
      if fails on_list [] db
      then (db, no_stats)
      else deliver_all (take config.batch (sort_due (due_events now db.events))) (db, no_stats)
