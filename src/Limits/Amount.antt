-- ===== src/Limits/Amount.antt =====
-- Decimal amounts and int64 microunits (internal/limits/counter.go, internal/limits/helpers.go).
pub mod Digits
pub mod Scaled
pub mod Printed
pub mod Malformed
use atara_pay.Base.{
  ℕ, zero, suc, ◌+◌, ◌-◌, ◌*◌, ◌/◌, ◌%◌, Bool, ◌&&◌, Option, none, some, List, [], ◌∷◌, ◌++◌, ltb,
  leb, ◌==◌, if◌then◌else◌, Text, codes, byte_length, trim_space, has_prefix, is_nil, replicate,
  length, Result, ok, err,
}
use mathlib.Core.List.{reverse}
use atara_pay.Base.Int.{ℤ, pos, negsuc, sub_ℕ, ltb_ℤ, is_int64}

pub data AmountError : Type 0 where
  empty_amount negative_amount too_many_digits not_numeric overflows : AmountError

abbrev pub is_digit : ℕ → Bool
is_digit c = leb b'0' c && leb c b'9'

-- `strings.Cut(s, ".")`: what stands before and after the first point.
unfoldable pub cut_point : Text → Text × Text
cut_point [] = ([], [])
cut_point (c ∷ s) =
    let (before, after) = cut_point s in if c == b'.' then ([], s) else (c ∷ before, after)

-- The digits of `big.Int.SetString(s, 10)`, most significant first.
unfoldable pub digits_value : ℕ → Text → Option ℕ
digits_value acc [] = some acc
digits_value acc (c ∷ s) =
    let rest = digits_value (acc * 10 + (c - b'0')) s in if is_digit c then rest else none

-- An unsigned literal has a digit.
unfoldable pub parse_nat : Text → Option ℕ
unfolding digits_value
parse_nat [] = none
parse_nat (c ∷ s) = digits_value 0 (c ∷ s)

abbrev pub negate : ℕ → ℤ
negate n = sub_ℕ 0 n

abbrev pub with_sign : (ℕ → ℤ) → Option ℕ → Option ℤ
with_sign f none = none
with_sign f (some n) = some (f n)

-- `new(big.Int).SetString(s, 10)`: an optional sign, then digits only.
unfoldable pub parse_int : Text → Option ℤ
unfolding parse_nat
parse_int [] = none
parse_int (c ∷ s) =
    if c == b'-'
    then with_sign negate (parse_nat s)
    else if c == b'+'
    then with_sign pos (parse_nat s)
    else with_sign pos (parse_nat (c ∷ s))

-- `strings.TrimLeft(s, "0")`
unfoldable pub trim_left_zeros : Text → Text
trim_left_zeros [] = []
trim_left_zeros (c ∷ s) = let rest = trim_left_zeros s in if c == b'0' then rest else c ∷ s

abbrev pub to_int64 : Option ℤ → Result AmountError ℤ
to_int64 none = err not_numeric
to_int64 (some n) = if is_int64 n then ok n else err overflows

abbrev pub combined_micros : Text → Result AmountError ℤ
combined_micros [] = ok (pos 0)
combined_micros (c ∷ s) = to_int64 (parse_int (c ∷ s))

-- What is left of `scaleToMicros` once the text is trimmed and neither empty nor negative.
unfoldable pub scale_trimmed : Text → Result AmountError ℤ
scale_trimmed s =
    let (int_part, frac_part) = cut_point s in
    if ltb 6 (byte_length frac_part)
    then err too_many_digits
    else combined_micros
        (trim_left_zeros (int_part ++ (frac_part ++ replicate (6 - byte_length frac_part) b'0')))

-- `scaleToMicros`
unfoldable pub scale_to_micros : Text → Result AmountError ℤ
unfolding trim_space scale_trimmed
scale_to_micros decimal =
    let s = trim_space decimal in
    if is_nil s
    then err empty_amount
    else if has_prefix s (codes "-")
    then err negative_amount
    else scale_trimmed s

-- A nullable NUMERIC column as `numericToString` reads it: SQL NULL is the empty string, and
-- the text of a value is what the driver's MarshalJSON gives, without its quotes.
abbrev pub Numeric : Type 0
Numeric = Option Text

abbrev pub numeric_to_string : Numeric → Text
numeric_to_string none = []
numeric_to_string (some s) = s

abbrev pub cap_or_zero : Result AmountError ℤ → ℤ
cap_or_zero (err e) = pos 0
cap_or_zero (ok m) = if ltb_ℤ m (pos 0) then pos 0 else m

-- `numericToMicros`
unfoldable pub numeric_to_micros : Numeric → ℤ
unfolding scale_to_micros
numeric_to_micros v =
    if is_nil (numeric_to_string v)
    then pos 0
    else cap_or_zero (scale_to_micros (numeric_to_string v))

-- `%d`: the decimal digits of a number, most significant first. The fuel bounds the digits.
unfoldable pub decimal_digits : ℕ → ℕ → Text
decimal_digits zero n = []
decimal_digits (suc fuel) n =
    let shorter = decimal_digits fuel (n / 10) in
    if ltb n 10 then (b'0' + n) ∷ [] else shorter ++ ((b'0' + n % 10) ∷ [])

-- A number has at most as many digits as it has units, and at least one.
unfoldable pub print_nat : ℕ → Text
unfolding decimal_digits
print_nat n = decimal_digits (suc n) n

abbrev pub print_signed : ℕ → Text
print_signed zero = print_nat 0
print_signed (suc n) = b'-' ∷ print_nat (suc n)

-- `%06d`: zeros on the left up to the width.
abbrev pub pad_zeros : ℕ → Text → Text
pad_zeros width s = replicate (width - length s) b'0' ++ s

-- `strings.TrimRight(s, "0")`
unfoldable pub trim_right_zeros : Text → Text
unfolding trim_left_zeros
trim_right_zeros s = reverse (trim_left_zeros (reverse s))

-- `microScale`
abbrev pub micro_scale : ℕ
micro_scale = 1_000_000

-- `microsToDecimal`: Go's division and remainder round towards zero.
unfoldable pub micros_to_decimal : ℤ → Text
unfolding print_nat trim_right_zeros
micros_to_decimal (pos zero) = codes "0"
micros_to_decimal (pos (suc m)) =
    let n : ℕ = suc m in
    if n % micro_scale == 0
    then print_nat (n / micro_scale)
    else trim_right_zeros
        (print_nat (n / micro_scale) ++ (b'.' ∷ pad_zeros 6 (print_nat (n % micro_scale))))
micros_to_decimal (negsuc m) =
    let n : ℕ = suc m in
    if n % micro_scale == 0
    then print_signed (n / micro_scale)
    else trim_right_zeros (
        print_signed (n / micro_scale) ++ (b'.' ∷ b'-' ∷ pad_zeros 5 (print_nat (n % micro_scale))))
