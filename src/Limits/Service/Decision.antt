-- ===== src/Limits/Service/Decision.antt =====
-- What a decision of `Check` means, on each of its branches.
use atara_pay.Base.{
  ◌≡◌, refl, Bool, true, false, none, some, [], Text, Result, ok, err, inl, inr, arith, Bool-cases,
  Option-cases,
}
use atara_pay.Limits.Calendar.{Time}
use atara_pay.Limits.Counter.{Redis}
use atara_pay.Limits.Policy.{
  LimitPolicy, Querier, CheckRequest, resolve_policy, Std, CheckError, has_expired, exceeds_numeric,
  recipient_gate,
}
use atara_pay.Limits.Policy.Resolution.{IsDown, resolve_policy-IsDown}
use atara_pay.Limits.Service.{
  World, CheckResult, Wiring, Clock, allow, check, enforce, per_tx_gates, recipient_gates, reject,
}

-- The amount and the cap are numbers, and the amount is not above the cap.
abbrev pub is_within : Result CheckError (Bool × Text) → Bool
is_within (ok (false, shown)) = true
is_within (ok (true, shown)) = false
is_within (err e) = false

module _ (std : Std) (r : Redis) where
  -- The policy's gates that need no counter let the request through.
  pub record Permits (pol : LimitPolicy) (req : CheckRequest) (clock : Clock) : Type 0 where
    pub unexpired : has_expired pol.expires_at clock.at_expiry ≡ false
    pub per_tx :
        (cap : Text)
        → pol.per_tx_amount ≡ some cap
        → is_within (exceeds_numeric std (some cap) req.amount) ≡ true
    pub recipient : recipient_gate std req.recipient pol ≡ none

  recipient_passes :
      (wiring : Wiring) (req : CheckRequest) (pol : LimitPolicy) (now : Time) (w : World std r)
      (result : CheckResult)
      → (recipient_gates std r wiring req pol now w).0 ≡ ok result
      → result.allowed ≡ true
      → recipient_gate std req.recipient pol ≡ none
  unfolding recipient_gates reject
  recipient_passes wiring req pol now w result h a = ground arith

  per_tx_passes :
      (wiring : Wiring) (req : CheckRequest) (pol : LimitPolicy) (now : Time) (w : World std r)
      (result : CheckResult) (cap : Text)
      → (per_tx_gates std r wiring req pol now w).0 ≡ ok result
      → result.allowed ≡ true
      → pol.per_tx_amount ≡ some cap
      → is_within (exceeds_numeric std (some cap) req.amount) ≡ true
  unfolding per_tx_gates reject
  per_tx_passes wiring req pol now w result cap h a c = ground arith

  per_tx_to_recipient :
      (wiring : Wiring) (req : CheckRequest) (pol : LimitPolicy) (now : Time) (w : World std r)
      (result : CheckResult)
      → (per_tx_gates std r wiring req pol now w).0 ≡ ok result
      → result.allowed ≡ true
      → per_tx_gates std r wiring req pol now w ≡ recipient_gates std r wiring req pol now w
  unfolding per_tx_gates reject
  per_tx_to_recipient wiring req pol now w result h a = ground arith

  enforce_to_per_tx :
      (wiring : Wiring) (req : CheckRequest) (clock : Clock) (pol : LimitPolicy) (w : World std r)
      (result : CheckResult)
      → (enforce std r wiring req clock pol w).0 ≡ ok result
      → result.allowed ≡ true
      → pol.enabled ≡ true
      → (has_expired pol.expires_at clock.at_expiry ≡ false)
        × (enforce std r wiring req clock pol w
            ≡ per_tx_gates std r wiring req pol clock.at_periods w)
  unfolding enforce reject
  enforce_to_per_tx wiring req clock pol w result h a e = ground arith

  enforce-Permits :
      (wiring : Wiring) (req : CheckRequest) (clock : Clock) (pol : LimitPolicy) (w : World std r)
      (result : CheckResult)
      → (enforce std r wiring req clock pol w).0 ≡ ok result
      → result.allowed ≡ true
      → pol.enabled ≡ true
      → Permits pol req clock
  enforce-Permits wiring req clock pol w result h a e =
      let (fresh, step) = enforce_to_per_tx wiring req clock pol w result h a e in
      let now = clock.at_periods in
      let h' : (per_tx_gates std r wiring req pol now w).0 ≡ ok result = rw step at h in
      record {
        unexpired = fresh;
        per_tx = λ cap c. per_tx_passes wiring req pol now w result cap h' a c;
        recipient =
            recipient_passes wiring req pol now w result
              (rw (per_tx_to_recipient wiring req pol now w result h' a) at h') a;
      }

  -- Why a request was let through: there is no policy, the one that governs it is disabled, or
  -- its gates permit the request.
  pub data Grounds (q : Querier) (req : CheckRequest) (clock : Clock) : Type 0 where
    no_policy : resolve_policy q req ≡ none → Grounds q req clock
    disabled :
        (pol : LimitPolicy)
        → resolve_policy q req ≡ some pol
        → pol.enabled ≡ false
        → Grounds q req clock
    permitted :
        (pol : LimitPolicy)
        → resolve_policy q req ≡ some pol
        → pol.enabled ≡ true
        → Permits pol req clock
        → Grounds q req clock

  -- A request is allowed only where no enabled policy governs it, or where the policy that
  -- does has not expired, its per-transaction cap is not exceeded and its recipient lists let
  -- the recipient through.
  pub check_sound :
      (q : Querier) (wiring : Wiring) (req : CheckRequest) (clock : Clock) (w : World std r)
      (result : CheckResult)
      → (check std r q wiring req clock w).0 ≡ ok result
      → result.allowed ≡ true
      → Grounds q req clock
  unfolding check
  check_sound q wiring req clock w result h a = elim (Option-cases (resolve_policy q req)) [
    | inl e ↦ no_policy e
    | inr (pol, e) ↦ elim (Bool-cases pol.enabled) [
      | inl on ↦
          permitted pol e on
            (enforce-Permits wiring req clock pol w result (rw (e, check) at h) a on)
      | inr off ↦ disabled pol e off
    ]
  ]

  -- While every query fails, no policy is enforced: each request is allowed with no policy id,
  -- whatever the policies say, and nothing is written or counted.
  pub check-IsDown :
      (q : Querier) (wiring : Wiring) (req : CheckRequest) (clock : Clock) (w : World std r)
      → IsDown q
      → check std r q wiring req clock w ≡ (ok (allow []), w)
  unfolding check
  check-IsDown q wiring req clock w down = rw (resolve_policy-IsDown q req down, check) refl
