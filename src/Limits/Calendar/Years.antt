-- ===== src/Limits/Calendar/Years.antt =====
-- The year and the day in it determine the day.
use atara_pay.Base.{ℕ, ◌+◌, ◌-◌, ◌*◌, ◌/◌, ◌%◌, ◌≤◌, ◌↔◌, ◌≡◌, sym, ap, ◌∙◌, List, [], ◌∷◌, arith}
use atara_pay.Limits.Calendar.{
  year_and_day, cycle_1, cycle_100, year_start, month_and_day, month_lengths, date_of, iso_week,
  Date,
}

year_start_of :
    (a b c e : ℕ)
    → b ≤ 3
    → c ≤ 24
    → e ≤ 3
    → year_start (400 * a + 100 * b + 4 * c + e + 1) ≡ 146097 * a + 36524 * b + 1461 * c + 365 * e
year_start_of a b c e hb hc he = omega arith

year_start-year_and_day : (d : ℕ) → year_start (year_and_day d).0 + (year_and_day d).1 ≡ d
unfolding year_and_day
year_start-year_and_day d =
    let r400 = d % 146097 in
    let r100 = r400 - cycle_100 r400 * 36524 in
    let r4 = r100 % 1461 in
    rw
      (year_start_of (d / 146097) (cycle_100 r400) (r100 / 1461) (cycle_1 r4) (omega arith)
        (omega arith) (omega arith))
      (omega arith)

-- Days of one year with one day number are one day.
year_and_day-injective : (c d : ℕ) → year_and_day c ≡ year_and_day d → c ≡ d
year_and_day-injective c d h =
    sym (year_start-year_and_day c)
    ∙ ap (λ (p : ℕ × ℕ). year_start p.0 + p.1) h
    ∙ year_start-year_and_day d

month_and_day-le : (lens : List ℕ) (k m : ℕ) → m ≤ (month_and_day lens k m).0
unfolding month_and_day
month_and_day-le [] k m = omega arith
month_and_day-le (len ∷ lens) k m = ground (arith, month_and_day-le lens (k - len) (m + 1))

-- The month and the day in it determine the day of the year.
month_and_day-injective :
    (lens : List ℕ) (j k m : ℕ) → month_and_day lens j m ≡ month_and_day lens k m → j ≡ k
unfolding month_and_day
month_and_day-injective [] j k m h = ground arith
month_and_day-injective (len ∷ lens) j k m h = ground (
  arith,
  month_and_day-injective lens (j - len) (k - len) (m + 1),
  month_and_day-le lens (j - len) (m + 1),
  month_and_day-le lens (k - len) (m + 1),
)

-- A date determines its year and the day in it.
day_of_date :
    (c d : ℕ × ℕ)
    → c.0 ≡ d.0
    → month_and_day (month_lengths c.0) c.1 1 ≡ month_and_day (month_lengths d.0) d.1 1
    → c ≡ d
day_of_date (y, j) (z, k) e h =
    let same : month_and_day (month_lengths z) j 1 ≡ month_and_day (month_lengths z) k 1 =
      rw e at h in
    cc (month_and_day-injective (month_lengths z) j k 1 same)

-- Different days have different dates.
pub date_of-injective : (c d : ℕ) → date_of c ≡ date_of d → c ≡ d
unfolding date_of
date_of-injective c d h = year_and_day-injective c d (
    day_of_date (year_and_day c) (year_and_day d) (ap (λ (x : Date). x.year) h)
      (ap (λ (x : Date). (x.month, x.day)) h))

same_week :
    (s j k c d : ℕ) → s + j ≡ c - c % 7 + 3 → s + k ≡ d - d % 7 + 3 → j / 7 ≡ k / 7 → c / 7 ≡ d / 7
same_week s j k c d hc hd h = omega arith

-- ISO weeks are the weeks from Monday to Sunday.
pub iso_week-eq_iff : (c d : ℕ) → (iso_week c ≡ iso_week d) ↔ (c / 7 ≡ d / 7)
unfolding iso_week
iso_week-eq_iff c d = (
  λ h.
      let years : year_start (year_and_day (d - d % 7 + 3)).0
          ≡ year_start (year_and_day (c - c % 7 + 3)).0 =
        sym (ap (λ (p : ℕ × ℕ). year_start p.0) h) in
      same_week (year_start (year_and_day (c - c % 7 + 3)).0) (year_and_day (c - c % 7 + 3)).1
        (year_and_day (d - d % 7 + 3)).1 c d (year_start-year_and_day (c - c % 7 + 3))
        ((rw years at (year_start-year_and_day (d - d % 7 + 3))))
        (omega (arith, ap (λ (p : ℕ × ℕ). p.1) h)),
  λ h. let monday : c - c % 7 ≡ d - d % 7 = omega arith in rw monday,
)
