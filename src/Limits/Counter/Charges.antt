-- ===== src/Limits/Counter/Charges.antt =====
-- What a run of the budget loop leaves in the counters.
use mathlib.Core.Logic.{if_pos}
use mathlib.Core.List.{append_assoc, append-nil}
use atara_pay.Base.{
  ◌≡◌, refl, true, false, Option, none, some, List, [], ◌∷◌, ◌++◌, Text, Bool-cases, inl, inr,
  arith, if◌then◌else◌,
}
use atara_pay.Base.Int.{ℤ, pos, ◌+ℤ◌, ◌-ℤ◌, ◌≤ℤ◌, leb_ℤ, ltb_ℤ, int_laws}
use atara_pay.Limits.Calendar.{Time, Zone}
use atara_pay.Limits.Period.{Period, period_key, next_reset}
use atara_pay.Limits.Counter.{
  Key, Key-discrete, Redis, IsReliable, at_key, Budget, cap_missing, redis_error, exceeded, within,
  Rollback, Verdict, all_within, failed, over, settle, period_budget_check, rollback_budgets,
  next_budget, charge_budgets,
}

-- What a list of increments adds to a key.
abbrev pub total : List Rollback → Key → ℤ
total [] j = pos 0
total ((k, d) ∷ list) j = at_key k d j +ℤ total list j

total-snoc :
    (list : List Rollback) (k : Key) (d : ℤ) (j : Key)
    → total (list ++ ((k, d) ∷ [])) j ≡ total list j +ℤ at_key k d j
total-snoc [] k d j = omega int_laws
total-snoc ((i, e) ∷ list) k d j = rw (total-snoc list k d j) (omega int_laws)

ltb_ℤ→≤ℤ : (a b : ℤ) → ltb_ℤ a b ≡ false → b ≤ℤ a
ltb_ℤ→≤ℤ a b h = ground arith

at_key_self : (k : Key) (d : ℤ) → at_key k d k ≡ d
at_key_self k d = if_pos (Key-discrete k k) refl d (pos 0)

-- The increments that a plan makes if no cap is passed: one for each period with a cap.
abbrev pub charged : Text → ℤ → Time → Zone → List (Period × ℤ) → List Rollback
charged policy delta now tz [] = []
charged policy delta now tz ((p, cap) ∷ plan) =
    let rest = charged policy delta now tz plan in
    if leb_ℤ cap (pos 0)
    then rest
    else (record { policy = policy; bucket = period_key p now tz }, delta) ∷ rest

total-append : (xs ys : List Rollback) (j : Key) → total (xs ++ ys) j ≡ total xs j +ℤ total ys j
total-append [] ys j = omega int_laws
total-append ((k, d) ∷ xs) ys j = rw (total-append xs ys j) (omega int_laws)

module _ (r : Redis) (reliable : IsReliable r) where
  open r use {State, incr_by, decr_by, count}

  -- Every counter is as before.
  abbrev pub Keeps : State → State → Type 0
  Keeps s s' = (j : Key) → count s' j ≡ count s j

  -- Every counter has grown by the amounts in the list.
  abbrev pub Grows : List Rollback → State → State → Type 0
  Grows list s s' = (j : Key) → count s' j ≡ count s j +ℤ total list j

  rollback_count :
      (list : List Rollback) (s : State) (j : Key)
      → count (rollback_budgets r list s) j ≡ count s j -ℤ total list j
  unfolding rollback_budgets
  rollback_count [] s j = omega int_laws
  rollback_count ((k, d) ∷ list) s j =
      rw (rollback_count list (decr_by k d s).1 j, reliable.decr_count k d s j) (omega int_laws)

  rollback-Keeps :
      (list : List Rollback) (s s' : State) → Grows list s s' → Keeps s (rollback_budgets r list s')
  rollback-Keeps list s s' h j = rw (rollback_count list s' j, h j) (omega int_laws)

  -- What `periodBudgetCheck` does for each of its answers.
  abbrev BudgetEffect : Key → ℤ → ℤ → State → Budget × State → Type 0
  BudgetEffect key cap delta s (cap_missing, s') = (leb_ℤ cap (pos 0) ≡ true) × Keeps s s'
  BudgetEffect key cap delta s (redis_error, s') = Keeps s s'
  BudgetEffect key cap delta s (exceeded used, s') = Keeps s s'
  BudgetEffect key cap delta s (within used, s') =
      (leb_ℤ cap (pos 0) ≡ false)
      × ((j : Key) → count s' j ≡ count s j +ℤ at_key key delta j)
      × (count s' key ≤ℤ cap)

  settle_effect :
      (key : Key) (cap delta : ℤ) (s s' : State) (answer : Option ℤ)
      → ((j : Key) → answer ≡ none → count s' j ≡ count s j)
      → ((v : ℤ) → answer ≡ some v → v ≡ count s key +ℤ delta)
      → ((v : ℤ) (j : Key) → answer ≡ some v → count s' j ≡ count s j +ℤ at_key key delta j)
      → leb_ℤ cap (pos 0) ≡ false
      → BudgetEffect key cap delta s (settle r key cap delta (answer, s'))
  unfolding settle
  settle_effect key cap delta s s' none error sum grown capped = λ j. error j refl
  settle_effect key cap delta s s' (some v) error sum grown capped =
      elim (Bool-cases (ltb_ℤ cap v)) [
        | inl above ↦
            rw above (λ j. rw (reliable.decr_count key delta s' j, grown v j refl) (omega int_laws))
        | inr fits ↦ rw fits (
          capped,
          λ j. grown v j refl,
          rw (grown v key refl, at_key_self key delta, ← sum v refl) (ltb_ℤ→≤ℤ cap v fits),
        )
      ]

  budget_effect :
      (policy : Text) (p : Period) (cap delta : ℤ) (now : Time) (tz : Zone) (s : State)
      → BudgetEffect
          (record { policy = policy; bucket = period_key p now tz })
          cap
          delta
          s
          (period_budget_check r policy p cap delta now tz s)
  unfolding period_budget_check
  budget_effect policy p cap delta now tz s = elim (Bool-cases (leb_ℤ cap (pos 0))) [
    | inl free ↦ rw free (free, λ j. refl)
    | inr capped ↦
        let key : Key = record { policy = policy; bucket = period_key p now tz } in
        let t = next_reset p now tz in
        rw capped (
          settle_effect key cap delta s (incr_by key delta t s).1 (incr_by key delta t s).0
            (λ j. reliable.incr_error key delta t s j) (λ v. reliable.incr_total key delta t s v)
            (λ v j. reliable.incr_count key delta t s v j) capped)
  ]

  module _ (policy : Text) (delta : ℤ) (now : Time) (tz : Zone) where
    -- Each capped counter is at most its cap, and what later periods add to the same key.
    abbrev pub Below : List (Period × ℤ) → State → Type 0
    Below [] s = Unit
    Below ((p, cap) ∷ plan) s =
        (leb_ℤ cap (pos 0) ≡ false
          → count s (record { policy = policy; bucket = period_key p now tz })
            ≤ℤ cap
              +ℤ total (charged policy delta now tz plan)
                  (record { policy = policy; bucket = period_key p now tz }))
        × Below plan s

    -- All increments or none, by the verdict.
    abbrev pub LoopEffect : List (Period × ℤ) → List Rollback → State → Verdict × State → Type 0
    LoopEffect plan done s (all_within, s') =
        Grows (done ++ charged policy delta now tz plan) s s' × Below plan s'
    LoopEffect plan done s (failed, s') = Keeps s s'
    LoopEffect plan done s (over p cap, s') = Keeps s s'

    Keeps-Grows :
        (list : List Rollback) (s0 s s' : State) → Grows list s0 s → Keeps s s' → Grows list s0 s'
    Keeps-Grows list s0 s s' h k j = rw (k j) (h j)

    skip_effect :
        (p : Period) (cap : ℤ) (plan : List (Period × ℤ)) (done : List Rollback) (s0 : State)
        (result : Verdict × State)
        → leb_ℤ cap (pos 0) ≡ true
        → LoopEffect plan done s0 result
        → LoopEffect ((p, cap) ∷ plan) done s0 result
    skip_effect p cap plan done s0 (all_within, s') free e = rw free (e.0, (λ capped. cc, e.1))
    skip_effect p cap plan done s0 (failed, s') free e = e
    skip_effect p cap plan done s0 (over q c, s') free e = e

    -- What a counter came to when it was compared with its cap, and what came later.
    below_later :
        (k : Key) (cap : ℤ) (first later : List Rollback) (s0 s s' : State)
        → Grows first s0 s
        → count s k ≤ℤ cap
        → Grows (first ++ later) s0 s'
        → count s' k ≤ℤ cap +ℤ total later k
    below_later k cap first later s0 s s' h fits grown =
        let bound : count s0 k +ℤ total first k ≤ℤ cap = rw (h k) at fits in
        rw (grown k, total-append first later k) (omega int_laws)

    charge_effect :
        (p : Period) (cap : ℤ) (plan : List (Period × ℤ)) (done : List Rollback) (s0 s : State)
        (result : Verdict × State)
        → leb_ℤ cap (pos 0) ≡ false
        → Grows
            (done ++ ((record { policy = policy; bucket = period_key p now tz }, delta) ∷ []))
            s0
            s
        → count s (record { policy = policy; bucket = period_key p now tz }) ≤ℤ cap
        → LoopEffect plan
            (done ++ ((record { policy = policy; bucket = period_key p now tz }, delta) ∷ []))
            s0
            result
        → LoopEffect ((p, cap) ∷ plan) done s0 result
    charge_effect p cap plan done s0 s (all_within, s') capped h fits e =
        let k : Key = record { policy = policy; bucket = period_key p now tz } in
        rw (capped, ← append_assoc done ((k, delta) ∷ []) (charged policy delta now tz plan))
          (
            e.0,
            (
              λ again.
                  below_later k cap (done ++ ((k, delta) ∷ [])) (charged policy delta now tz plan)
                    s0 s s' h fits e.0,
              e.1,
            ),
          )
    charge_effect p cap plan done s0 s (failed, s') capped h fits e = e
    charge_effect p cap plan done s0 s (over q c, s') capped h fits e = e

    next_effect :
        (p : Period) (cap : ℤ) (plan : List (Period × ℤ)) (done : List Rollback) (s0 s : State)
        → Grows done s0 s
        → ((list : List Rollback) (s' : State)
            → Grows list s0 s'
            → LoopEffect plan list s0 (charge_budgets r policy delta now tz plan list s'))
        → (answer : Budget × State)
        → BudgetEffect (record { policy = policy; bucket = period_key p now tz }) cap delta s answer
        → LoopEffect ((p, cap) ∷ plan) done s0 (
            next_budget r
              (charge_budgets r policy delta now tz plan)
              p
              cap
              (record { policy = policy; bucket = period_key p now tz })
              delta
              done
              answer)
    unfolding next_budget
    next_effect p cap plan done s0 s h rest (cap_missing, s') e =
        skip_effect p cap plan done s0 (charge_budgets r policy delta now tz plan done s') e.0
          (rest done s' (Keeps-Grows done s0 s s' h e.1))
    next_effect p cap plan done s0 s h rest (redis_error, s') e =
        rollback-Keeps done s0 s' (Keeps-Grows done s0 s s' h e)
    next_effect p cap plan done s0 s h rest (exceeded used, s') e =
        rollback-Keeps done s0 s' (Keeps-Grows done s0 s s' h e)
    next_effect p cap plan done s0 s h rest (within used, s') e =
        let k : Key = record { policy = policy; bucket = period_key p now tz } in
        let list : List Rollback = done ++ ((k, delta) ∷ []) in
        let grown : Grows list s0 s' =
          λ j. rw (e.1 j, h j, total-snoc done k delta j) (omega int_laws) in
        charge_effect p cap plan done s0 s' (charge_budgets r policy delta now tz plan list s') e.0
          grown e.2 (rest list s' grown)

    -- The budget loop increments every capped period's counter, and leaves each at most its
    -- cap, or it reports a violation or an error and leaves every counter as it was.
    pub charge_budgets-effect :
        (plan : List (Period × ℤ)) (done : List Rollback) (s0 s : State)
        → Grows done s0 s
        → LoopEffect plan done s0 (charge_budgets r policy delta now tz plan done s)
    unfolding charge_budgets
    charge_budgets-effect [] done s0 s h = (rw append-nil h, tt)
    charge_budgets-effect ((p, cap) ∷ plan) done s0 s h =
        next_effect p cap plan done s0 s h (λ list s'. charge_budgets-effect plan list s0 s')
          (period_budget_check r policy p cap delta now tz s)
          (budget_effect policy p cap delta now tz s)
