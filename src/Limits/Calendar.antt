-- ===== src/Limits/Calendar.antt =====
-- What internal/limits/period.go uses of package time: civil dates, ISO weeks and local days.
-- Days are counted from Monday, January 1 of year 1, where Go's zero time stands.
pub mod Years
use Prim.Native.Nat.{min}
use atara_pay.Base.{
  ℕ, suc, ◌+◌, ◌-◌, ◌*◌, ◌/◌, ◌%◌, ◌<◌, ◌↔◌, Bool, ◌&&◌, ◌||◌, not, List, [], ◌∷◌, ltb, ◌==◌, take,
  if◌then◌else◌,
}

-- An instant, in nanoseconds since Go's zero time.
abbrev pub Time : Type 0
Time = ℕ

-- `t.IsZero()` and `t.After(u)`
abbrev pub is_zero_time : Time → Bool
is_zero_time t = t == 0

abbrev pub after : Time → Time → Bool
after t u = ltb u t

-- Years in the four cycles of the Gregorian calendar: the year, and the day in it from 0.
abbrev pub cycle_100 : ℕ → ℕ
cycle_100 r = min 3 (r / 36524)

abbrev pub cycle_1 : ℕ → ℕ
cycle_1 r = min 3 (r / 365)

unfoldable pub year_and_day : ℕ → ℕ × ℕ
year_and_day d =
    let r400 = d % 146097 in
    let r100 = r400 - cycle_100 r400 * 36524 in
    let r4 = r100 % 1461 in
    (
      400 * (d / 146097) + 100 * cycle_100 r400 + 4 * (r100 / 1461) + cycle_1 r4 + 1,
      r4 - cycle_1 r4 * 365,
    )

abbrev pub is_leap : ℕ → Bool
is_leap y = y % 4 == 0 && (not (y % 100 == 0) || y % 400 == 0)

abbrev pub month_lengths : ℕ → List ℕ
month_lengths y =
    31 ∷ (if is_leap y then 29 else 28) ∷ 31 ∷ 30 ∷ 31 ∷ 30 ∷ 31 ∷ 31 ∷ 30 ∷ 31 ∷ 30 ∷ 31 ∷ []

-- The month and the day in it, both from 1, of the k-th day after the start of month m.
unfoldable pub month_and_day : List ℕ → ℕ → ℕ → ℕ × ℕ
month_and_day [] k m = (m, k + 1)
month_and_day (len ∷ lens) k m =
    let later = month_and_day lens (k - len) (m + 1) in if ltb k len then (m, k + 1) else later

pub record Date : Type 0 where
  pub year : ℕ
  pub month : ℕ
  pub day : ℕ

unfoldable pub date_of : ℕ → Date
date_of d =
    let (y, k) = year_and_day d in
    let (m, n) = month_and_day (month_lengths y) k 1 in record { year = y; month = m; day = n }

-- `time.Weekday`: Sunday is 0.
abbrev pub weekday : ℕ → ℕ
weekday d = (d + 1) % 7

-- `ISOWeek`: the year of the week's Thursday, and the number of that Thursday in the year.
unfoldable pub iso_week : ℕ → ℕ × ℕ
iso_week d = let (y, k) = year_and_day (d - d % 7 + 3) in (y, k / 7 + 1)

abbrev sum : List ℕ → ℕ
sum [] = 0
sum (n ∷ ns) = n + sum ns

abbrev pub year_start : ℕ → ℕ
year_start y = 365 * (y - 1) + (y - 1) / 4 - (y - 1) / 100 + (y - 1) / 400

-- `time.Date(y, m, 1, …)`, where month 13 is January of the next year.
unfoldable pub month_start : ℕ → ℕ → ℕ
month_start y m =
    if ltb 12 m then year_start (y + 1) else year_start y + sum (take (m - 1) (month_lengths y))

-- A `*time.Location`, by the local day of an instant and the instant of a local midnight.
pub record Zone : Type 0 where
  pub local_day : Time → ℕ
  pub midnight : ℕ → Time

-- The local day is below d exactly before d's midnight: no midnight is skipped or repeated.
pub record IsRegular (z : Zone) : Type 0 where
  pub before_midnight : (t : Time) (d : ℕ) → (z.local_day t < d) ↔ (t < z.midnight d)
