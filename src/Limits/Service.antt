-- ===== src/Limits/Service.antt =====
-- The decision of internal/limits/service.go: `Check`, `checkPeriods` and `reject`.
pub mod Decision
pub mod Recording
pub mod Accounting
use atara_pay.Base.{
  ℕ, Bool, true, false, Option, none, some, List, [], ◌∷◌, ◌++◌, Text, Result, ok, err,
  if◌then◌else◌,
}
use atara_pay.Base.Int.{ℤ}
use atara_pay.Limits.Amount.{scale_to_micros, numeric_to_micros, micros_to_decimal}
use atara_pay.Limits.Calendar.{Time, Zone}
use atara_pay.Limits.Period.{Period, daily, weekly, monthly, load_timezone}
use atara_pay.Limits.Counter.{Redis, Verdict, all_within, failed, over, charge_budgets}
use atara_pay.Limits.Policy.{
  LimitPolicy, Querier, CheckRequest, resolve_policy, Std, ViolationType, policy_expired,
  per_tx_exceeded, period_exceeded, CheckError, redis_failed, bad_amount, has_expired,
  exceeds_numeric, recipient_gate,
}

-- The texts that `Check` formats, by what goes into them.
pub data Message : Type 0 where
  expired_at : Text → Message
  over_per_tx : Text → Text → Message
  recipient_rejected : Text → Message
  over_period : Period → Text → Message

pub record Violation : Type 0 where
  pub type : ViolationType
  pub limit_value : Text
  pub current_used : Text
  pub message : Message

pub record CheckResult : Type 0 where
  pub allowed : Bool
  pub policy_id : Text
  pub violation : Option Violation

-- The writes of a check beside the counters, in order: the row in `limit_violations` and the
-- limit.exceeded event. Their errors are ignored.
pub data Effect : Type 0 where
  create_limit_violation : CheckRequest → Text → ViolationType → Effect
  emit_limit_exceeded : CheckRequest → Text → ViolationType → Effect

-- The parts of `Service` that may be nil.
pub record Wiring : Type 0 where
  pub redis_wired : Bool
  pub emitter_wired : Bool

-- The two readings of the clock in one check.
pub record Clock : Type 0 where
  pub at_expiry : Time
  pub at_periods : Time

abbrev pub allow : Text → CheckResult
allow policy = record { allowed = true; policy_id = policy; violation = none }

-- The three budgets of `checkPeriods`, in the order of the loop.
abbrev pub budget_plan : LimitPolicy → List (Period × ℤ)
budget_plan pol =
    (daily, numeric_to_micros pol.daily_amount)
    ∷ (weekly, numeric_to_micros pol.weekly_amount)
    ∷ (monthly, numeric_to_micros pol.monthly_amount)
    ∷ []

module _ (std : Std) (r : Redis) where
  open std use {find_zone, utc, rfc3339}

  -- The counters, and the writes so far.
  pub record World : Type 0 where
    pub counters : r.State
    pub effects : List Effect

  abbrev pub Action : Type 0
  Action = World → Result CheckError CheckResult × World

  abbrev pub finish : CheckResult → Action
  finish result w = (ok result, w)

  abbrev pub fail : CheckError → Action
  fail e w = (err e, w)

  -- `reject`
  unfoldable pub reject :
      Wiring → CheckRequest → LimitPolicy → ViolationType → Text → Text → Message → Action
  reject wiring req pol type limit_value used message w =
      let row = create_limit_violation req pol.id type in
      let event = emit_limit_exceeded req pol.id type in
      let written = if wiring.emitter_wired then row ∷ event ∷ [] else row ∷ [] in
      (
        ok (record {
          allowed = false;
          policy_id = pol.id;
          violation = some (record {
            type = type;
            limit_value = limit_value;
            current_used = used;
            message = message;
          });
        }),
        record w { effects = w.effects ++ written },
      )

  -- The answer to what the budget loop found, on the counters that it left.
  unfoldable pub after_periods : Wiring → CheckRequest → LimitPolicy → Verdict × r.State → Action
  after_periods wiring req pol (all_within, s) w = finish (allow pol.id) (record w { counters = s })
  after_periods wiring req pol (failed, s) w = fail redis_failed (record w { counters = s })
  after_periods wiring req pol (over p cap, s) w =
      reject wiring req pol (period_exceeded p) (micros_to_decimal cap) []
        (over_period p (micros_to_decimal cap)) (record w { counters = s })

  -- `checkPeriods`, and the final `Allowed: true` of `Check` where it finds nothing.
  unfoldable pub check_periods : Wiring → CheckRequest → LimitPolicy → Time → Action
  check_periods wiring req pol now w = elim (scale_to_micros req.amount) [
    | err e ↦ fail (bad_amount e) w
    | ok delta ↦
        after_periods wiring req pol
          (charge_budgets r pol.id delta now (load_timezone find_zone utc pol.timezone)
            (budget_plan pol) [] w.counters)
          w
  ]

  -- Gates 4 to 6.
  unfoldable pub period_gates : Wiring → CheckRequest → LimitPolicy → Time → Action
  period_gates wiring req pol now w =
      if wiring.redis_wired then check_periods wiring req pol now w else finish (allow pol.id) w

  -- Gate 3.
  unfoldable pub recipient_gates : Wiring → CheckRequest → LimitPolicy → Time → Action
  recipient_gates wiring req pol now w = elim (recipient_gate std req.recipient pol) [
    | some type ↦ reject wiring req pol type [] [] (recipient_rejected req.recipient) w
    | none ↦ period_gates wiring req pol now w
  ]

  -- Gate 2, where `PerTxAmount` is not NULL.
  unfoldable pub per_tx_gates : Wiring → CheckRequest → LimitPolicy → Time → Action
  per_tx_gates wiring req pol now w = elim pol.per_tx_amount [
    | none ↦ recipient_gates wiring req pol now w
    | some cap ↦ elim (exceeds_numeric std (some cap) req.amount) [
      | err e ↦ fail e w
      | ok (above, cap_text) ↦
          if above
          then reject wiring req pol per_tx_exceeded cap_text req.amount
              (over_per_tx req.amount cap_text) w
          else recipient_gates wiring req pol now w
    ]
  ]

  abbrev pub expiry_text : Option Time → Text
  expiry_text none = []
  expiry_text (some t) = rfc3339 t

  -- `Check`, once a policy is found.
  unfoldable pub enforce : Wiring → CheckRequest → Clock → LimitPolicy → Action
  enforce wiring req clock pol w =
      if pol.enabled
      then if has_expired pol.expires_at clock.at_expiry
        then reject wiring req pol policy_expired (expiry_text pol.expires_at) []
            (expired_at (expiry_text pol.expires_at)) w
        else per_tx_gates wiring req pol clock.at_periods w
      else finish (allow []) w

  -- `Check`
  unfoldable pub check : Querier → Wiring → CheckRequest → Clock → Action
  check q wiring req clock w = elim (resolve_policy q req) [
    | none ↦ finish (allow []) w
    | some pol ↦ enforce wiring req clock pol w
  ]
