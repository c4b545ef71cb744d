-- ===== src/Limits/Counter.antt =====
-- Usage counters in Redis (internal/limits/counter.go) and the loop over the three periods
-- (`checkPeriods` and `rollbackBudgets` in internal/limits/service.go).
pub mod Charges
pub mod Caps
use native.Mathlib.Decide.{ℕ_discrete}
use mathlib.Core.Logic.{ite}
use atara_pay.Base.{ℕ, Bool, Option, none, some, List, [], ◌∷◌, ◌++◌, ◌≡◌, Text, if◌then◌else◌}
use atara_pay.Base.Int.{ℤ, pos, ◌+ℤ◌, ◌-ℤ◌, leb_ℤ, ltb_ℤ}
use atara_pay.Limits.Amount.{micros_to_decimal}
use atara_pay.Limits.Calendar.{Time, Zone}
use atara_pay.Limits.Period.{Period, Bucket, Bucket-discrete, period_key, next_reset}

-- "usage:<policy>:<bucket>"
pub record Key : Type 0 where
  pub policy : Text
  pub bucket : Bucket

pub Key-discrete : Discrete Key
Key-discrete = hlevel (ℕ_discrete, Bucket-discrete)

-- The Redis client: the transaction of INCRBY and EXPIREAT, and DECRBY. `none` and `false` are
-- errors. `count` is the value of a key, 0 where there is none.
pub record Redis : Type 1 where
  pub State : Type 0
  pub incr_by : Key → ℤ → Time → State → Option ℤ × State
  pub decr_by : Key → ℤ → State → Bool × State
  pub count : State → Key → ℤ

-- What is added to key j when d is added to key k.
abbrev pub at_key : Key → ℤ → Key → ℤ
at_key k d j = ite (Key-discrete k j) d (pos 0)

-- A server that does what it is asked: INCRBY adds and returns the sum or fails with no effect,
-- DECRBY subtracts, and no key but the named one changes.
pub record IsReliable (r : Redis) : Type 0 where
  pub incr_total :
      (k : Key) (d : ℤ) (t : Time) (s : r.State) (v : ℤ)
      → (r.incr_by k d t s).0 ≡ some v
      → v ≡ r.count s k +ℤ d
  pub incr_count :
      (k : Key) (d : ℤ) (t : Time) (s : r.State) (v : ℤ) (j : Key)
      → (r.incr_by k d t s).0 ≡ some v
      → r.count (r.incr_by k d t s).1 j ≡ r.count s j +ℤ at_key k d j
  pub incr_error :
      (k : Key) (d : ℤ) (t : Time) (s : r.State) (j : Key)
      → (r.incr_by k d t s).0 ≡ none
      → r.count (r.incr_by k d t s).1 j ≡ r.count s j
  pub decr_count :
      (k : Key) (d : ℤ) (s : r.State) (j : Key)
      → r.count (r.decr_by k d s).1 j ≡ r.count s j -ℤ at_key k d j

-- The answers of `periodBudgetCheck`: `errCapMissing`, a Redis error, the violation with what was
-- used before, and the new total.
pub data Budget : Type 0 where
  cap_missing redis_error : Budget
  exceeded within : Text → Budget

-- `rollbackBudget`
abbrev pub Rollback : Type 0
Rollback = Key × ℤ

-- What `checkPeriods` found: nothing, an error, or the period whose cap was passed.
pub data Verdict : Type 0 where
  all_within failed : Verdict
  over : Period → ℤ → Verdict

-- The comparison of a new total with the cap.
abbrev pub passes_cap : ℤ → ℤ → Bool
passes_cap cap total = ltb_ℤ cap total

module _ (r : Redis) where
  open r use {State, incr_by, decr_by}

  -- After the transaction: the total is compared with the cap, and taken back if it is above.
  unfoldable pub settle : Key → ℤ → ℤ → Option ℤ × State → Budget × State
  settle key cap delta (none, s) = (redis_error, s)
  settle key cap delta (some total, s) =
      if passes_cap cap total
      then (exceeded (micros_to_decimal (total -ℤ delta)), (decr_by key delta s).1)
      else (within (micros_to_decimal total), s)

  -- `periodBudgetCheck`
  unfoldable pub period_budget_check : Text → Period → ℤ → ℤ → Time → Zone → State → Budget × State
  period_budget_check policy p cap delta now tz s =
      let key : Key = record { policy = policy; bucket = period_key p now tz } in
      if leb_ℤ cap (pos 0)
      then (cap_missing, s)
      else settle key cap delta (incr_by key delta (next_reset p now tz) s)

  -- `rollbackBudgets`: the outcome of each DECRBY is ignored.
  unfoldable pub rollback_budgets : List Rollback → State → State
  rollback_budgets [] s = s
  rollback_budgets ((key, delta) ∷ list) s = rollback_budgets list (decr_by key delta s).1

  -- One round of the loop of `checkPeriods`, given the rest of the loop.
  unfoldable pub next_budget :
      (List Rollback → State → Verdict × State)
      → Period
      → ℤ
      → Key
      → ℤ
      → List Rollback
      → Budget × State
      → Verdict × State
  next_budget rest p cap key delta done (cap_missing, s) = rest done s
  next_budget rest p cap key delta done (redis_error, s) = (failed, rollback_budgets done s)
  next_budget rest p cap key delta done (exceeded used, s) = (over p cap, rollback_budgets done s)
  next_budget rest p cap key delta done (within used, s) = rest (done ++ ((key, delta) ∷ [])) s

  -- The loop of `checkPeriods` over the plan, with the increments made so far.
  unfoldable pub charge_budgets :
      Text → ℤ → Time → Zone → List (Period × ℤ) → List Rollback → State → Verdict × State
  charge_budgets policy delta now tz [] done s = (all_within, s)
  charge_budgets policy delta now tz ((p, cap) ∷ plan) done s =
      next_budget (charge_budgets policy delta now tz plan) p cap
        (record { policy = policy; bucket = period_key p now tz }) delta done
        (period_budget_check policy p cap delta now tz s)
