-- ===== src/Limits/Period/Resets.antt =====
-- A counter's expiry is the end of its bucket.
use native.Mathlib.Decide.{dec_lt}
use atara_pay.Base.{ℕ, ◌+◌, ◌*◌, ◌/◌, ◌≤◌, ◌<◌, ◌≡◌, ◌↔◌, ap, arith}
use atara_pay.Limits.Calendar.{Time, Zone, IsRegular, weekday, iso_week, date_of}
use atara_pay.Limits.Calendar.Years.{date_of-injective, iso_week-eq_iff}
use atara_pay.Limits.Period.{daily, weekly, week_bucket, period_key, next_reset, days_until_monday}

-- The next Monday, seven days ahead on a Monday.
days_until_monday_lem : (d : ℕ) → d + days_until_monday (weekday d) ≡ (d / 7 + 1) * 7
unfolding days_until_monday
days_until_monday_lem d = ground arith

module _ (tz : Zone) (regular : IsRegular tz) (now t : Time) where
  local_day_mono : now ≤ t → tz.local_day now ≤ tz.local_day t
  local_day_mono h = elim (dec_lt (tz.local_day t) (tz.local_day now)) [
    | yes p ↦
        let earlier : t < tz.midnight (tz.local_day now) =
          (regular.before_midnight t (tz.local_day now)).0 p in
        absurd (omega (arith, (regular.before_midnight now (tz.local_day now)).1 (omega arith)))
    | no p ↦ omega arith
  ]

  weekly_reset :
      now ≤ t → (period_key weekly t tz ≡ period_key weekly now tz) ↔ (t < next_reset weekly now tz)
  unfolding period_key next_reset
  weekly_reset h =
      rw (days_until_monday_lem (tz.local_day now), next_reset)
        (
          λ e.
              let weeks : iso_week (tz.local_day t) ≡ iso_week (tz.local_day now) = cc in
              (regular.before_midnight t ((tz.local_day now / 7 + 1) * 7)).0
                (omega (arith, (iso_week-eq_iff (tz.local_day t) (tz.local_day now)).0 weeks)),
          λ e. ap week_bucket (
              (iso_week-eq_iff (tz.local_day t) (tz.local_day now)).1 (
                omega (
                  arith,
                  local_day_mono h,
                  (regular.before_midnight t ((tz.local_day now / 7 + 1) * 7)).1 e,
                ))),
        )

  daily_reset :
      now ≤ t → (period_key daily t tz ≡ period_key daily now tz) ↔ (t < next_reset daily now tz)
  unfolding period_key next_reset
  daily_reset h = (
    λ e.
        let dates : date_of (tz.local_day t) ≡ date_of (tz.local_day now) = cc in
        (regular.before_midnight t (tz.local_day now + 1)).0
          (omega (arith, date_of-injective (tz.local_day t) (tz.local_day now) dates)),
    λ e.
        let same : tz.local_day t ≡ tz.local_day now =
          omega (arith, local_day_mono h, (regular.before_midnight t (tz.local_day now + 1)).1 e) in
        rw same,
  )

  -- In a regular zone, from now on a daily and a weekly counter each keep their key exactly until
  -- the expiry that is set on them.
  pub counter_resets :
      now ≤ t
      → ((period_key daily t tz ≡ period_key daily now tz) ↔ (t < next_reset daily now tz))
        × ((period_key weekly t tz ≡ period_key weekly now tz) ↔ (t < next_reset weekly now tz))
  counter_resets h = (daily_reset h, weekly_reset h)
