-- ===== src/Limits/Period.antt =====
-- Period buckets (internal/limits/period.go): the key of a counter and the instant it resets.
pub mod Resets
use native.Mathlib.Decide.{ℕ_discrete}
use atara_pay.Base.{ℕ, ◌+◌, ◌-◌, ◌%◌, ◌==◌, Option, none, some, is_nil, if◌then◌else◌, Text}
use atara_pay.Limits.Calendar.{Time, Zone, Date, date_of, iso_week, weekday, month_start}

-- `period` is a string type with three constants; `other` is any further string.
pub data Period : Type 0 where
  daily weekly monthly : Period
  other : Text → Period

-- What `periodKey` prints: the period's name, and the date, the ISO week or the month.
pub data Bucket : Type 0 where
  day_bucket : Date → Bucket
  week_bucket : ℕ × ℕ → Bucket
  month_bucket : ℕ → ℕ → Bucket
  invalid_bucket : Text → Bucket

pub Bucket-discrete : Discrete Bucket
Bucket-discrete = hlevel ℕ_discrete

unfoldable pub period_key : Period → Time → Zone → Bucket
period_key daily now tz = day_bucket (date_of (tz.local_day now))
period_key weekly now tz = week_bucket (iso_week (tz.local_day now))
period_key monthly now tz =
    let date = date_of (tz.local_day now) in month_bucket date.year date.month
period_key (other name) now tz = invalid_bucket name

-- `daysUntilMonday`: Go's remainder of a difference that is never negative here.
unfoldable pub days_until_monday : ℕ → ℕ
days_until_monday w = let d = (1 + 7 - w) % 7 in if w == 1 then 7 else if d == 0 then 7 else d

abbrev pub hour : ℕ
hour = 3_600_000_000_000

unfoldable pub next_reset : Period → Time → Zone → Time
unfolding days_until_monday
next_reset daily now tz = tz.midnight (tz.local_day now + 1)
next_reset weekly now tz =
    let day = tz.local_day now in tz.midnight (day + days_until_monday (weekday day))
next_reset monthly now tz =
    let date = date_of (tz.local_day now) in tz.midnight (month_start date.year (date.month + 1))
next_reset (other name) now tz = now + hour

-- `loadTimezone`, over the zone database's lookup.
unfoldable pub load_timezone : (Text → Option Zone) → Zone → Text → Zone
load_timezone find utc name =
    if is_nil name then utc else elim (find name) [ none ↦ utc | some zone ↦ zone ]
