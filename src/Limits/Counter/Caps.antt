-- ===== src/Limits/Counter/Caps.antt =====
-- Counters with keys of their own stay within their caps.
use mathlib.Core.Logic.{if_neg}
use atara_pay.Base.{◌≡◌, ◌≢◌, refl, ap, Bool-cases, false, List, [], ◌∷◌, Text, All, inl, inr}
use atara_pay.Base.Int.{ℤ, pos, ◌≤ℤ◌, leb_ℤ, int_laws, +ℤ_zero}
use atara_pay.Limits.Calendar.{Time, Zone}
use atara_pay.Limits.Period.{Period, period_key}
use atara_pay.Limits.Counter.{Key, Key-discrete, Redis, IsReliable, at_key}
use atara_pay.Limits.Counter.Charges.{total, charged, Below}

module _ (policy : Text) (now : Time) (tz : Zone) where
  -- No two periods of the plan have one key.
  abbrev pub IsApart : List (Period × ℤ) → Type 0
  IsApart [] = Unit
  IsApart ((p, c) ∷ plan) =
      All (λ (entry : Period × ℤ). period_key entry.0 now tz ≢ period_key p now tz) plan
      × IsApart plan

  at_key_ne : (k j : Key) (d : ℤ) → k ≢ j → at_key k d j ≡ pos 0
  at_key_ne k j d h = if_neg (Key-discrete k j) h d (pos 0)

  total-charged_ne :
      (delta : ℤ) (p : Period) (plan : List (Period × ℤ))
      → All (λ (entry : Period × ℤ). period_key entry.0 now tz ≢ period_key p now tz) plan
      → total
          (charged policy delta now tz plan)
          (record { policy = policy; bucket = period_key p now tz })
        ≡ pos 0
  total-charged_ne delta p [] h = refl
  total-charged_ne delta p ((q, c) ∷ plan) h = elim (Bool-cases (leb_ℤ c (pos 0))) [
    | inl free ↦ rw free (total-charged_ne delta p plan h.1)
    | inr capped ↦
        rw (capped, total-charged_ne delta p plan h.1)
          (rw
            (at_key_ne (record { policy = policy; bucket = period_key q now tz })
              (record { policy = policy; bucket = period_key p now tz }) delta
              (λ e. h.0 (ap (λ (k : Key). k.bucket) e)))
            (omega int_laws))
  ]

module _ (r : Redis) (policy : Text) (now : Time) (tz : Zone) where
  -- Each capped counter is at most its cap.
  abbrev pub IsWithinCaps : List (Period × ℤ) → r.State → Type 0
  IsWithinCaps [] s = Unit
  IsWithinCaps ((p, c) ∷ plan) s =
      (leb_ℤ c (pos 0) ≡ false
        → r.count s (record { policy = policy; bucket = period_key p now tz }) ≤ℤ c)
      × IsWithinCaps plan s

module _ (r : Redis) (reliable : IsReliable r) (policy : Text) (delta : ℤ) (now : Time)
    (tz : Zone) where
  pub Below-IsWithinCaps :
      (plan : List (Period × ℤ)) (s : r.State)
      → IsApart policy now tz plan
      → Below r reliable policy delta now tz plan s
      → IsWithinCaps r policy now tz plan s
  Below-IsWithinCaps [] s a b = tt
  Below-IsWithinCaps ((p, c) ∷ plan) s a b = (
    λ capped. rw (total-charged_ne policy now tz delta p plan a.0, ← +ℤ_zero c) at (b.0 capped),
    Below-IsWithinCaps plan s a.1 b.1,
  )
