-- ===== src/Webhooks/Worker/Endpoints.antt =====
-- The health of an endpoint (internal/webhooks/worker.go, `bumpFailure`), and the backoff.
use mathlib.Core.Option
use atara_pay.Base.{
  ℕ, zero, suc, ◌≡◌, ◌≤◌, ◌*◌, refl, ◌+◌, ◌&&◌, some, Text, false, leb, arith, Bool-cases, inl, inr,
  if◌then◌else◌,
}
use atara_pay.Limits.Calendar.{Time}
use atara_pay.Webhooks.Store.{
  WebhookEndpoint, EndpointStatus, paused, Database, get_endpoint, is_active, touch_failure,
  pause_endpoint,
}
use atara_pay.Webhooks.Store.Rows.{get_endpoint-update_endpoint}
use atara_pay.Webhooks.Worker.{
  Config, Net, Statement, on_failure, on_pause, backoff_for, second, pause_if_broken, bump_failure,
}

-- The status of an endpoint after its failure number `count`.
abbrev pub status_after : ℕ → ℕ → EndpointStatus → EndpointStatus
status_after limit count status = if leb limit count && is_active status then paused else status

pause_endpoint-effect :
    (id : Text) (db : Database)
    → get_endpoint id (pause_endpoint id db).endpoints
      ≡ Option.map
          (λ x. if is_active x.status then record x { status = paused } else x)
          (get_endpoint id db.endpoints)
unfolding pause_endpoint
pause_endpoint-effect id db =
    get_endpoint-update_endpoint id
      (λ x. if is_active x.status then record x { status = paused } else x) db.endpoints
      (λ e. ground arith)

-- The row of an endpoint after one more failure.
abbrev pub with_failure : Time → WebhookEndpoint → WebhookEndpoint
with_failure now e = record e {
  consecutive_failures = e.consecutive_failures + 1;
  last_failure_at = some now;
}

touch_failure-effect :
    (id : Text) (now : Time) (db : Database) (e : WebhookEndpoint)
    → get_endpoint id db.endpoints ≡ some e
    → ((touch_failure id now db).0 ≡ some (e.consecutive_failures + 1))
      × (get_endpoint id (touch_failure id now db).1.endpoints ≡ some (with_failure now e))
unfolding touch_failure
touch_failure-effect id now db e h =
    rw (h, touch_failure)
      (
        refl,
        simp (get_endpoint-update_endpoint id (with_failure now) db.endpoints (λ x. refl), h) refl,
      )

pause_if_broken-effect :
    (config : Config) (net : Net) (id : Text) (count : ℕ) (db : Database) (e : WebhookEndpoint)
    → get_endpoint id db.endpoints ≡ some e
    → net.fails on_pause id db ≡ false
    → get_endpoint id (pause_if_broken config net id (some count, db)).endpoints
      ≡ some (record e { status = status_after config.pause_after_consecutive count e.status })
unfolding pause_if_broken
pause_if_broken-effect config net id count db e h up =
    elim (Bool-cases (leb config.pause_after_consecutive count)) [
      | inl broken ↦ elim (Bool-cases (is_active e.status)) [
        | inl on ↦ simp (broken, up, pause_endpoint-effect, h, on) refl
        | inr off ↦ simp (broken, up, pause_endpoint-effect, h, off) refl
      ]
      | inr fine ↦ simp (fine) h
    ]

module _ (config : Config) (net : Net) where
  -- A failed delivery adds one to the consecutive failures of its endpoint, dates the failure, and
  -- pauses the endpoint, where it is active, from the limit on, where the database takes both
  -- writes. Nothing else of it changes.
  pub bump_failure-effect :
      (id : Text) (db : Database) (e : WebhookEndpoint)
      → get_endpoint id db.endpoints ≡ some e
      → ((s : Statement) (d : Database) → net.fails s id d ≡ false)
      → get_endpoint id (bump_failure config net id db).endpoints
        ≡ some (record e {
          consecutive_failures = e.consecutive_failures + 1;
          last_failure_at = some net.now;
          status =
              status_after config.pause_after_consecutive (e.consecutive_failures + 1) e.status;
        })
  unfolding bump_failure
  bump_failure-effect id db e h up =
      let (counted, row) = touch_failure-effect id net.now db e h in
      let found : touch_failure id net.now db
          ≡ (some (e.consecutive_failures + 1), (touch_failure id net.now db).1) =
        λ i. (counted i, (touch_failure id net.now db).1) in
      rw (up on_failure db) (
        rw found (
          pause_if_broken-effect config net id (e.consecutive_failures + 1)
            (touch_failure id net.now db).1 (with_failure net.now e) row (up on_pause _)))

backoff_for_step : (n : ℕ) → backoff_for (suc n) ≤ backoff_for (suc (suc n))
unfolding backoff_for
backoff_for_step zero = omega arith
backoff_for_step (suc zero) = omega arith
backoff_for_step (suc (suc zero)) = omega arith
backoff_for_step (suc (suc (suc zero))) = omega arith
backoff_for_step (suc (suc (suc (suc zero)))) = omega arith
backoff_for_step (suc (suc (suc (suc (suc n))))) = omega arith

backoff_for_mono : (n k : ℕ) → backoff_for (suc n) ≤ backoff_for (suc (k + n))
backoff_for_mono n zero = let same : suc (zero + n) ≡ suc n = omega arith in rw same (omega arith)
backoff_for_mono n (suc k) =
    let next : suc (suc k + n) ≡ suc (suc (k + n)) = omega arith in
    rw next (omega (arith, backoff_for_mono n k, backoff_for_step (k + n)))

pub backoff_for_bound : (n : ℕ) → backoff_for n ≤ 24 * 3600 * second
unfolding backoff_for
backoff_for_bound zero = omega arith
backoff_for_bound (suc zero) = omega arith
backoff_for_bound (suc (suc zero)) = omega arith
backoff_for_bound (suc (suc (suc zero))) = omega arith
backoff_for_bound (suc (suc (suc (suc zero)))) = omega arith
backoff_for_bound (suc (suc (suc (suc (suc zero))))) = omega arith
backoff_for_bound (suc (suc (suc (suc (suc (suc n)))))) = omega arith

-- From the first attempt on, a later attempt never waits less than an earlier one, and none waits
-- longer than a day.
pub backoff_for-schedule :
    (n k : ℕ)
    → (backoff_for (suc n) ≤ backoff_for (suc (k + n)))
      × (backoff_for (suc (k + n)) ≤ 24 * 3600 * second)
backoff_for-schedule n k = (backoff_for_mono n k, backoff_for_bound (suc (k + n)))
