-- ===== src/Limits/Tests.antt =====
-- Concrete runs of internal/limits.
use native.Mathlib.Omega.{arith}
use atara_pay.Base.{
  ℕ, ◌*◌, ◌/◌, ◌<◌, ◌≡◌, ◌↔◌, refl, true, false, Option, none, some, [], codes, Result, ok, err,
}
use atara_pay.Base.Int.{ℤ, pos, ◌+ℤ◌, ◌-ℤ◌, ltb_ℤ}
use atara_pay.Limits.Amount.{
  cut_point, trim_left_zeros, parse_int, AmountError, scale_to_micros, micros_to_decimal,
}
use atara_pay.Limits.Amount.Digits.{value}
use atara_pay.Limits.Amount.Scaled.{scale_to_micros-written}
use atara_pay.Limits.Amount.Printed.{scale_to_micros-micros_to_decimal}
use atara_pay.Limits.Calendar.{Zone, IsRegular}
use atara_pay.Limits.Period.{daily, weekly, period_key, next_reset}
use atara_pay.Limits.Period.Resets.{counter_resets}
use atara_pay.Limits.Counter.{Key, Redis, IsReliable, at_key}
use atara_pay.Limits.Policy.{
  exceeds_numeric, recipient_gate, parse_json_string_list, LimitPolicy, Querier, CheckRequest,
  no_rows, resolve_policy, Std,
}
use atara_pay.Limits.Policy.Resolution.{resolve_policy-first_present, first_present, tiers}
use atara_pay.Limits.Service.{
  enforce, per_tx_gates, recipient_gates, period_gates, World, CheckResult, Wiring, Clock, allow,
  check,
}
use atara_pay.Limits.Service.Decision.{Grounds, check_sound}
use atara_pay.Limits.Service.Recording.{Recorded, check-Recorded}

-- UTC: local days are the days of the instants.
abbrev day_length : ℕ
day_length = 86_400_000_000_000

abbrev pub utc_zone : Zone
utc_zone = record { local_day = λ t. t / day_length; midnight = λ d. d * day_length }

utc_zone-IsRegular : IsRegular utc_zone
utc_zone-IsRegular = record { before_midnight = λ t d. (λ h. omega arith, λ h. omega arith) }

-- A server that never fails, its keys as a function.
abbrev pub memory : Redis
memory = record {
  State = Key → ℤ;
  incr_by = λ k d t s. (some (s k +ℤ d), λ j. s j +ℤ at_key k d j);
  decr_by = λ k d s. (true, λ j. s j -ℤ at_key k d j);
  count = λ s k. s k;
}

pub memory-IsReliable : IsReliable memory
memory-IsReliable = record {
  incr_total = λ k d t s v h. cc;
  incr_count = λ k d t s v j h. refl;
  incr_error = λ k d t s j h. cc;
  decr_count = λ k d s j. refl;
}

-- Numbers as their microunits, no JSON list and no zone but UTC.
abbrev pub as_number : Result AmountError ℤ → Option ℤ
as_number (ok n) = some n
as_number (err e) = none

abbrev pub plain : Std
plain = record {
  to_lower = λ s. s;
  json_strings = λ s. none;
  Float = ℤ;
  parse_float = λ s. as_number (scale_to_micros s);
  greater = λ a b. ltb_ℤ b a;
  find_zone = λ s. none;
  utc = utc_zone;
  rfc3339 = λ t. [];
}

abbrev pub capped : LimitPolicy
capped = record {
  id = codes "lp_1";
  per_tx_amount = some (codes "100");
  daily_amount = some (codes "250.5");
  weekly_amount = none;
  monthly_amount = some (codes "1000");
  timezone = [];
  allowed_recipients = [];
  denied_recipients = [];
  expires_at = none;
  enabled = true;
}

abbrev pub one_policy : Querier
one_policy = record {
  get_tenant_default_policy = λ t. ok capped;
  get_policy_for_scope = λ t k x. err no_rows;
  get_wallet_group = λ w. err no_rows;
}

abbrev request : CheckRequest
request = record {
  tenant_id = codes "t_1";
  wallet_id = codes "w_1";
  session_key_id = [];
  amount = codes "60.25";
  asset = codes "USDC";
  recipient = codes "0xabc";
  transaction_id = codes "tx_1";
}

abbrev pub wired : Wiring
wired = record { redis_wired = true; emitter_wired = true }

abbrev pub noon : Clock
noon = record { at_expiry = 12 * 3_600_000_000_000; at_periods = 12 * 3_600_000_000_000 }

abbrev pub unused : World plain memory
unused = record { counters = λ k. pos 0; effects = [] }

scale_to_micros-written_example : scale_to_micros (codes "12.34") ≡ ok (pos 12_340_000)
unfolding value
scale_to_micros-written_example =
    scale_to_micros-written (codes "12") (some (codes "34")) (refl, (refl, tt)) (refl, (refl, tt))
      (omega arith) refl

scale_to_micros-micros_to_decimal_example :
    scale_to_micros (micros_to_decimal (pos 250_500_000)) ≡ ok (pos 250_500_000)
scale_to_micros-micros_to_decimal_example =
    scale_to_micros-micros_to_decimal 250_500_000 (omega arith)

-- From Monday, January 1 of year 1 at noon to the Friday after.
counter_resets_example :
    ((period_key daily (4 * day_length) utc_zone ≡ period_key daily 43_200_000_000_000 utc_zone)
      ↔ (4 * day_length < next_reset daily 43_200_000_000_000 utc_zone))
    × ((period_key weekly (4 * day_length) utc_zone ≡ period_key weekly 43_200_000_000_000 utc_zone)
        ↔ (4 * day_length < next_reset weekly 43_200_000_000_000 utc_zone))
counter_resets_example =
    counter_resets utc_zone utc_zone-IsRegular 43_200_000_000_000 (4 * day_length) (omega arith)

resolve_policy-first_present_example :
    resolve_policy one_policy request ≡ first_present (tiers one_policy request)
resolve_policy-first_present_example = resolve_policy-first_present one_policy request

-- 60.25 is below the cap of 100 for one transaction. Without Redis no period is checked.
abbrev no_redis : Wiring
no_redis = record { redis_wired = false; emitter_wired = false }

abbrev allowed : CheckResult
allowed = allow (codes "lp_1")

check_sound_example : Grounds plain memory one_policy request noon
unfolding check resolve_policy enforce per_tx_gates exceeds_numeric scale_to_micros cut_point
    trim_left_zeros parse_int recipient_gates recipient_gate parse_json_string_list period_gates
check_sound_example =
    check_sound plain memory one_policy no_redis request noon unused allowed refl refl

check-Recorded_example :
    Recorded plain memory wired request [] (check plain memory one_policy wired request noon unused)
check-Recorded_example = check-Recorded plain memory one_policy wired request noon unused
