-- ===== src/Limits/Service/Accounting.antt =====
-- What a check does to the counters.
use atara_pay.Base.{
  ◌≡◌, refl, true, false, some, [], ◌∷◌, Text, Result, ok, err, inl, inr, Bool-cases, Option-cases,
  Result-cases,
}
use atara_pay.Base.Int.{ℤ, +ℤ_zero}
use atara_pay.Limits.Amount.{scale_to_micros, numeric_to_micros}
use atara_pay.Limits.Calendar.{Time, Zone}
use atara_pay.Limits.Counter.{Redis, Verdict, all_within, failed, over, charge_budgets}
use atara_pay.Limits.Policy.{
  LimitPolicy, Querier, CheckRequest, resolve_policy, Std, CheckError, has_expired, exceeds_numeric,
  recipient_gate,
}
use atara_pay.Limits.Service.{
  World, CheckResult, Wiring, Clock, check, enforce, per_tx_gates, recipient_gates, period_gates,
  check_periods, after_periods, reject,
}
use atara_pay.Limits.Counter.{IsReliable}
use atara_pay.Limits.Counter.Charges.{Keeps, Grows, charged, LoopEffect, charge_budgets-effect}
use atara_pay.Limits.Counter.Caps.{IsWithinCaps, Below-IsWithinCaps, IsApart}
use atara_pay.Limits.Period.{daily, weekly, monthly, period_key, load_timezone}
use atara_pay.Limits.Service.{budget_plan}

-- The three periods have different keys, whatever the caps.
apart :
    (policy : Text) (now : Time) (tz : Zone) (c d e : ℤ)
    → IsApart policy now tz ((daily, c) ∷ (weekly, d) ∷ (monthly, e) ∷ [])
unfolding period_key
apart policy now tz c d e = ((λ h. cc, (λ h. cc, tt)), ((λ h. cc, tt), (tt, tt)))

module _ (std : Std) (r : Redis) (reliable : IsReliable r) where
  abbrev zone_of : LimitPolicy → Zone
  zone_of pol = load_timezone std.find_zone std.utc pol.timezone

  -- The amount is on the counter of each period that the policy caps, no other counter has
  -- changed, and each of those counters is within its cap.
  pub record IsCharged (pol : LimitPolicy) (req : CheckRequest) (now : Time) (w w' : World std r)
      : Type 0 where
    pub delta : ℤ
    pub scaled : scale_to_micros req.amount ≡ ok delta
    pub grown :
        Grows r reliable
          (charged pol.id delta now (zone_of pol) (budget_plan pol))
          w.counters
          w'.counters
    pub within_caps : IsWithinCaps r pol.id now (zone_of pol) (budget_plan pol) w'.counters

  -- A denial or an error leaves every counter as it was; where Redis is wired, a request that
  -- is allowed has been charged.
  abbrev pub IsAccounted :
      Wiring
      → LimitPolicy
      → CheckRequest
      → Time
      → World std r
      → Result CheckError CheckResult × World std r
      → Type 0
  IsAccounted wiring pol req now w (err e, w') = Keeps r reliable w.counters w'.counters
  IsAccounted wiring pol req now w (ok result, w') =
      (result.allowed ≡ false → Keeps r reliable w.counters w'.counters)
      × (result.allowed ≡ true → wiring.redis_wired ≡ true → IsCharged pol req now w w')

  after_periods-IsAccounted :
      (wiring : Wiring) (pol : LimitPolicy) (req : CheckRequest) (now : Time) (w : World std r)
      (delta : ℤ) (found : Verdict × r.State)
      → scale_to_micros req.amount ≡ ok delta
      → LoopEffect r reliable pol.id delta now (zone_of pol) (budget_plan pol) [] w.counters found
      → IsAccounted wiring pol req now w (after_periods std r wiring req pol found w)
  unfolding after_periods reject
  after_periods-IsAccounted wiring pol req now w delta (all_within, s) e h = (
    λ denied. cc,
    λ allowed wired. record {
      delta = delta;
      scaled = e;
      grown = h.0;
      within_caps =
          Below-IsWithinCaps r reliable pol.id delta now (zone_of pol) (budget_plan pol) s
            (apart pol.id now (zone_of pol) (numeric_to_micros pol.daily_amount)
              (numeric_to_micros pol.weekly_amount) (numeric_to_micros pol.monthly_amount))
            h.1;
    },
  )
  after_periods-IsAccounted wiring pol req now w delta (failed, s) e h = h
  after_periods-IsAccounted wiring pol req now w delta (over p limit, s) e h =
      (λ denied. h, λ allowed. cc)

  unchanged : (w : World std r) → Keeps r reliable w.counters w.counters
  unchanged w j = refl

  check_periods-IsAccounted :
      (wiring : Wiring) (pol : LimitPolicy) (req : CheckRequest) (now : Time) (w : World std r)
      → IsAccounted wiring pol req now w (check_periods std r wiring req pol now w)
  unfolding check_periods
  check_periods-IsAccounted wiring pol req now w =
      elim (Result-cases (scale_to_micros req.amount)) [
        | inl (delta, e) ↦
            rw (e, check_periods)
              (after_periods-IsAccounted wiring pol req now w delta
                (charge_budgets r pol.id delta now (zone_of pol) (budget_plan pol) [] w.counters) e
                (charge_budgets-effect r reliable pol.id delta now (zone_of pol) (budget_plan pol)
                  [] w.counters w.counters (λ j. +ℤ_zero _)))
        | inr (x, h) ↦ rw (h, check_periods) (unchanged w)
      ]

  period_gates-IsAccounted :
      (wiring : Wiring) (pol : LimitPolicy) (req : CheckRequest) (now : Time) (w : World std r)
      → IsAccounted wiring pol req now w (period_gates std r wiring req pol now w)
  unfolding period_gates
  period_gates-IsAccounted wiring pol req now w = elim (Bool-cases wiring.redis_wired) [
    | inl on ↦ simp on (check_periods-IsAccounted wiring pol req now w)
    | inr off ↦ simp off (λ denied. unchanged w, λ allowed on. absurd (cc))
  ]

  recipient_gates-IsAccounted :
      (wiring : Wiring) (pol : LimitPolicy) (req : CheckRequest) (now : Time) (w : World std r)
      → IsAccounted wiring pol req now w (recipient_gates std r wiring req pol now w)
  unfolding recipient_gates reject
  recipient_gates-IsAccounted wiring pol req now w =
      elim (Option-cases (recipient_gate std req.recipient pol)) [
        | inl e ↦ rw (e, recipient_gates) (period_gates-IsAccounted wiring pol req now w)
        | inr (type, e) ↦ rw (e, recipient_gates) (λ denied. unchanged w, λ allowed. cc)
      ]

  per_tx_gates-IsAccounted :
      (wiring : Wiring) (pol : LimitPolicy) (req : CheckRequest) (now : Time) (w : World std r)
      → IsAccounted wiring pol req now w (per_tx_gates std r wiring req pol now w)
  unfolding per_tx_gates reject
  per_tx_gates-IsAccounted wiring pol req now w = elim (Option-cases pol.per_tx_amount) [
    | inl e ↦ simp (e, per_tx_gates) (recipient_gates-IsAccounted wiring pol req now w)
    | inr (limit, e) ↦ elim (Result-cases (exceeds_numeric std (some limit) req.amount)) [
      | inl ((true, shown), h) ↦ simp (e, h, per_tx_gates) (λ denied. unchanged w, λ allowed. cc)
      | inl ((false, shown), h) ↦
          simp (e, h, per_tx_gates) (recipient_gates-IsAccounted wiring pol req now w)
      | inr (x, h) ↦ simp (e, h, per_tx_gates) (unchanged w)
    ]
  ]

  pub check-IsAccounted :
      (q : Querier) (wiring : Wiring) (req : CheckRequest) (clock : Clock) (w : World std r)
      (pol : LimitPolicy)
      → resolve_policy q req ≡ some pol
      → pol.enabled ≡ true
      → IsAccounted wiring pol req clock.at_periods w (check std r q wiring req clock w)
  unfolding check enforce reject
  check-IsAccounted q wiring req clock w pol e on =
      elim (Bool-cases (has_expired pol.expires_at clock.at_expiry)) [
        | inl gone ↦ rw (e, check) (simp (on, gone) (λ denied. unchanged w, λ allowed. cc))
        | inr fresh ↦
            rw (e, check)
              (simp (on, fresh) (per_tx_gates-IsAccounted wiring pol req clock.at_periods w))
      ]
