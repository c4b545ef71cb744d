-- ===== src/Limits/Service/Recording.antt =====
-- What a check writes beside the counters.
use atara_pay.Base.{
  ◌≡◌, refl, true, false, Option, none, some, List, [], ◌∷◌, ◌++◌, Text, Result, ok, err,
  if◌then◌else◌, inl, inr, Bool-cases, Option-cases, Result-cases,
}
use atara_pay.Limits.Amount.{scale_to_micros}
use atara_pay.Limits.Calendar.{Time}
use atara_pay.Limits.Counter.{Redis, Verdict, all_within, failed, over}
use atara_pay.Limits.Policy.{
  LimitPolicy, Querier, CheckRequest, resolve_policy, Std, ViolationType, CheckError, has_expired,
  exceeds_numeric, recipient_gate,
}
use atara_pay.Limits.Service.{
  World, CheckResult, Wiring, Clock, check, enforce, per_tx_gates, recipient_gates, period_gates,
  check_periods, after_periods, reject, Effect, Violation, create_limit_violation,
  emit_limit_exceeded,
}

module _ (std : Std) (r : Redis) where
  -- The writes of a denial: the violation row, then the event if an emitter is wired.
  abbrev pub denial : Wiring → CheckRequest → Text → ViolationType → List Effect
  denial wiring req policy type =
      if wiring.emitter_wired
      then create_limit_violation req policy type ∷ emit_limit_exceeded req policy type ∷ []
      else create_limit_violation req policy type ∷ []

  abbrev pub RecordedAs :
      Wiring → CheckRequest → CheckResult → List Effect → List Effect → Option Violation → Type 0
  RecordedAs wiring req result before after none = (result.allowed ≡ true) × (after ≡ before)
  RecordedAs wiring req result before after (some v) =
      (result.allowed ≡ false) × (after ≡ before ++ denial wiring req result.policy_id v.type)

  -- How a decision is recorded.
  abbrev pub Recorded :
      Wiring → CheckRequest → List Effect → Result CheckError CheckResult × World std r → Type 0
  Recorded wiring req before (err e, w) = w.effects ≡ before
  Recorded wiring req before (ok result, w) =
      RecordedAs wiring req result before w.effects result.violation

  after_periods-Recorded :
      (wiring : Wiring) (req : CheckRequest) (pol : LimitPolicy) (found : Verdict × r.State)
      (w : World std r)
      → Recorded wiring req w.effects (after_periods std r wiring req pol found w)
  unfolding after_periods reject
  after_periods-Recorded wiring req pol (all_within, s) w = (refl, refl)
  after_periods-Recorded wiring req pol (failed, s) w = refl
  after_periods-Recorded wiring req pol (over p cap, s) w = (refl, refl)

  check_periods-Recorded :
      (wiring : Wiring) (req : CheckRequest) (pol : LimitPolicy) (now : Time) (w : World std r)
      → Recorded wiring req w.effects (check_periods std r wiring req pol now w)
  unfolding check_periods
  check_periods-Recorded wiring req pol now w = elim (Result-cases (scale_to_micros req.amount)) [
    | inl (delta, e) ↦ rw (e, check_periods) (after_periods-Recorded wiring req pol _ w)
    | inr (e, h) ↦ rw (h, check_periods) refl
  ]

  period_gates-Recorded :
      (wiring : Wiring) (req : CheckRequest) (pol : LimitPolicy) (now : Time) (w : World std r)
      → Recorded wiring req w.effects (period_gates std r wiring req pol now w)
  unfolding period_gates
  period_gates-Recorded wiring req pol now w = elim (Bool-cases wiring.redis_wired) [
    | inl on ↦ simp on (check_periods-Recorded wiring req pol now w)
    | inr off ↦ simp off (refl, refl)
  ]

  recipient_gates-Recorded :
      (wiring : Wiring) (req : CheckRequest) (pol : LimitPolicy) (now : Time) (w : World std r)
      → Recorded wiring req w.effects (recipient_gates std r wiring req pol now w)
  unfolding recipient_gates reject
  recipient_gates-Recorded wiring req pol now w =
      elim (Option-cases (recipient_gate std req.recipient pol)) [
        | inl e ↦ rw (e, recipient_gates) (period_gates-Recorded wiring req pol now w)
        | inr (type, e) ↦ rw (e, recipient_gates) (refl, refl)
      ]

  per_tx_gates-Recorded :
      (wiring : Wiring) (req : CheckRequest) (pol : LimitPolicy) (now : Time) (w : World std r)
      → Recorded wiring req w.effects (per_tx_gates std r wiring req pol now w)
  unfolding per_tx_gates reject
  per_tx_gates-Recorded wiring req pol now w = elim (Option-cases pol.per_tx_amount) [
    | inl e ↦ simp (e, per_tx_gates) (recipient_gates-Recorded wiring req pol now w)
    | inr (limit, e) ↦ elim (Result-cases (exceeds_numeric std (some limit) req.amount)) [
      | inl ((true, shown), h) ↦ simp (e, h, per_tx_gates) (refl, refl)
      | inl ((false, shown), h) ↦
          simp (e, h, per_tx_gates) (recipient_gates-Recorded wiring req pol now w)
      | inr (x, h) ↦ simp (e, h, per_tx_gates) refl
    ]
  ]

  enforce-Recorded :
      (wiring : Wiring) (req : CheckRequest) (clock : Clock) (pol : LimitPolicy) (w : World std r)
      → Recorded wiring req w.effects (enforce std r wiring req clock pol w)
  unfolding enforce reject
  enforce-Recorded wiring req clock pol w = elim (Bool-cases pol.enabled) [
    | inl on ↦ elim (Bool-cases (has_expired pol.expires_at clock.at_expiry)) [
      | inl gone ↦ simp (on, gone) (refl, refl)
      | inr fresh ↦ simp (on, fresh) (per_tx_gates-Recorded wiring req pol clock.at_periods w)
    ]
    | inr off ↦ simp off (refl, refl)
  ]

  -- An allowed request carries no violation and writes nothing, and neither does one that ends
  -- in an error. A denied one carries its violation and has written its row to the audit table
  -- and then, where an emitter is wired, the limit.exceeded event, both with the policy and the
  -- violation's type.
  pub check-Recorded :
      (q : Querier) (wiring : Wiring) (req : CheckRequest) (clock : Clock) (w : World std r)
      → Recorded wiring req w.effects (check std r q wiring req clock w)
  unfolding check
  check-Recorded q wiring req clock w = elim (Option-cases (resolve_policy q req)) [
    | inl e ↦ rw (e, check) (refl, refl)
    | inr (pol, e) ↦ rw (e, check) (enforce-Recorded wiring req clock pol w)
  ]
