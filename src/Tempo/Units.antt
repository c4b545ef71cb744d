-- ===== src/Tempo/Units.antt =====
-- Decimal amounts in token units (internal/adapters/tempo/adapter.go, `parseUnits`).
pub mod Agreement
use atara_pay.Base.{
  ℕ, ◌-◌, Option, none, some, List, [], ◌∷◌, ◌++◌, Text, codes, byte_length, trim_space, has_prefix,
  is_nil, ltb, replicate, Result, ok, err, if◌then◌else◌,
}
use atara_pay.Base.Int.{ℤ}
use atara_pay.Limits.Amount.{
  AmountError, empty_amount, negative_amount, too_many_digits, not_numeric, cut_point,
  trim_left_zeros, parse_int,
}

abbrev pub or_zero_digit : Text → Text
or_zero_digit [] = b'0' ∷ []
or_zero_digit (c ∷ s) = c ∷ s

abbrev pub big_number : Option ℤ → Result AmountError ℤ
big_number none = err not_numeric
big_number (some n) = ok n

-- What is left of `parseUnits` once the text is trimmed and neither empty nor negative.
unfoldable pub parse_trimmed : Text → ℕ → Result AmountError ℤ
parse_trimmed s decimals =
    let (int_part, frac_part) = cut_point s in
    if ltb decimals (byte_length frac_part)
    then err too_many_digits
    else big_number (
        parse_int (
          or_zero_digit (
            trim_left_zeros
              (int_part ++ (frac_part ++ replicate (decimals - byte_length frac_part) b'0')))))

-- `parseUnits`
unfoldable pub parse_units : Text → ℕ → Result AmountError ℤ
unfolding trim_space parse_trimmed
parse_units amount decimals =
    let s = trim_space amount in
    if is_nil s
    then err empty_amount
    else if has_prefix s (codes "-")
    then err negative_amount
    else parse_trimmed s decimals
