-- ===== src/SessionKeys/Mint/Caps.antt =====
-- The caps of a minted key, in its policy and on chain.
use atara_pay.Base.{
  ℕ, ◌*◌, ◌%◌, ◌^◌, ltb, ◌<◌, ◌≡◌, refl, ap, true, false, some, [], ◌∷◌, Text, codes, is_nil, ok,
  arith,
}
use atara_pay.Base.Int.{pos}
use atara_pay.Limits.Amount.{numeric_to_micros, print_nat, decimal_digits, cap_or_zero}
use atara_pay.Limits.Amount.Printed.{print_nat-nonempty, read_whole}
use atara_pay.Limits.Policy.{LimitPolicy, CheckRequest, Std, per_tx_exceeded, exceeds_numeric}
use atara_pay.Limits.Calendar.{Time}
use atara_pay.Limits.Counter.{Redis}
use atara_pay.Limits.Service.{World, Wiring, Clock, over_per_tx, enforce, per_tx_gates, reject}
use atara_pay.SessionKeys.Rows.{pgx_int_usd}
use atara_pay.SessionKeys.Input.{MintInput, Ports, daily_limits, signed_64}
use atara_pay.SessionKeys.Mint.{policy_row}

not_negative : (m : ℕ) → cap_or_zero (ok (pos m)) ≡ pos m
not_negative m = ground arith

-- Whole dollars are read back from the policy as that many dollars in microunits.
numeric_to_micros-pgx_int_usd :
    (n : ℕ)
    → n * 1_000_000 < 0x8000_0000_0000_0000
    → numeric_to_micros (pgx_int_usd (pos n)) ≡ pos (n * 1_000_000)
unfolding numeric_to_micros
numeric_to_micros-pgx_int_usd n h =
    rw (print_nat-nonempty n) (rw (read_whole n h) (not_negative (n * 1_000_000)))

no_wrap : (m : ℕ) → m < 0x8000_0000_0000_0000 → signed_64 (m % 2 ^ 64) ≡ pos m
no_wrap m h = let same : m % 2 ^ 64 ≡ m = omega arith in rw same (ground arith)

-- A daily cap of a positive number of dollars that fits int64 in microunits is enforced on chain
-- as the number of microunits that the gateway reads from the policy.
pub daily_limits-numeric_to_micros :
    (n : ℕ)
    → 0 < n
    → n * 1_000_000 < 0x8000_0000_0000_0000
    → daily_limits (pos n) ≡ numeric_to_micros (pgx_int_usd (pos n)) ∷ []
unfolding daily_limits
daily_limits-numeric_to_micros n some_cap h =
    let capped : ltb 0 n ≡ true = ground arith in
    rw (numeric_to_micros-pgx_int_usd n h, capped, no_wrap (n * 1_000_000) h)

per_tx_gates-over :
    (std : Std) (r : Redis) (wiring : Wiring) (req : CheckRequest) (now : Time) (w : World std r)
    (pol : LimitPolicy) (limit : Text)
    → pol.per_tx_amount ≡ some limit
    → exceeds_numeric std (some limit) req.amount ≡ ok (true, limit)
    → per_tx_gates std r wiring req pol now w
      ≡ reject std r wiring req pol per_tx_exceeded limit req.amount
          (over_per_tx req.amount limit)
          w
unfolding per_tx_gates
per_tx_gates-over std r wiring req now w pol limit e h = simp (e, h, per_tx_gates) refl

exceeds_numeric-above :
    (std : Std) (limit amount : Text) (c a : std.Float)
    → is_nil limit ≡ false
    → std.parse_float limit ≡ some c
    → std.parse_float amount ≡ some a
    → std.greater a c ≡ true
    → exceeds_numeric std (some limit) amount ≡ ok (true, limit)
unfolding exceeds_numeric
exceeds_numeric-above std limit amount c a some_text z h above = simp (some_text, z, h, above) refl

-- A key that is minted with a per-transaction cap of 0, which is also how a missing cap arrives,
-- has a policy that denies each amount above zero.
pub enforce-zero_cap :
    (std : Std) (r : Redis) (ports : Ports) (input : MintInput) (wiring : Wiring)
    (req : CheckRequest) (clock : Clock) (w : World std r) (zero amount : std.Float)
    → input.limits.per_tx_usd ≡ pos 0
    → std.parse_float (codes "0") ≡ some zero
    → std.parse_float req.amount ≡ some amount
    → std.greater amount zero ≡ true
    → (enforce std r wiring req clock (policy_row ports input).policy w).0
      ≡ ok (record {
        allowed = false;
        policy_id = ports.policy_id;
        violation = some (record {
          type = per_tx_exceeded;
          limit_value = codes "0";
          current_used = req.amount;
          message = over_per_tx req.amount (codes "0");
        });
      })
unfolding enforce reject policy_row print_nat decimal_digits
enforce-zero_cap std r ports input wiring req clock w zero amount none_given z a above =
    let cap_text : pgx_int_usd input.limits.per_tx_usd ≡ some (codes "0") =
      ap pgx_int_usd none_given in
    rw
      (per_tx_gates-over std r wiring req clock.at_periods w (policy_row ports input).policy
        (codes "0") cap_text
        (exceeds_numeric-above std (codes "0") req.amount zero amount refl z a above))
      refl
