-- ===== src/Tempo/Units/Agreement.antt =====
-- The units of the rail and the microunits of the limits.
use atara_pay.Base.{
  ◌≡◌, refl, Bool-cases, Option-cases, inl, inr, some, [], ◌∷◌, Text, codes, byte_length,
  trim_space, has_prefix, is_nil, ltb, Result, ◌>>=◌,
}
use atara_pay.Base.Int.{ℤ}
use atara_pay.Limits.Amount.{
  AmountError, cut_point, parse_int, parse_nat, digits_value, to_int64, combined_micros,
  scale_trimmed, scale_to_micros,
}
use atara_pay.Tempo.Units.{or_zero_digit, big_number, parse_trimmed, parse_units}

abbrev as_int64 : ℤ → Result AmountError ℤ
as_int64 n = to_int64 (some n)

combined : (s : Text) → combined_micros s ≡ (big_number (parse_int (or_zero_digit s)) >>= as_int64)
unfolding parse_int parse_nat digits_value
combined [] = refl
combined (c ∷ s) = elim (Option-cases (parse_int (c ∷ s))) [
  | inl none_read ↦ simp none_read refl
  | inr (n, read) ↦ simp read refl
]

trimmed : (s : Text) → scale_trimmed s ≡ (parse_trimmed s 6 >>= as_int64)
unfolding scale_trimmed parse_trimmed
trimmed s = elim (Bool-cases (ltb 6 (byte_length (cut_point s).1))) [
  | inl long ↦ simp long refl
  | inr short ↦ simp short (combined _)
]

-- The limits and the rail read an amount alike: for each text, scaleToMicros answers what
-- parseUnits answers at six decimals, errors included, save that a number outside int64 is an
-- overflow error.
pub scale_to_micros-parse_units :
    (s : Text) → scale_to_micros s ≡ (parse_units s 6 >>= λ n. to_int64 (some n))
unfolding scale_to_micros parse_units
scale_to_micros-parse_units s = elim (Bool-cases (is_nil (trim_space s))) [
  | inl empty ↦ rw empty refl
  | inr full ↦ elim (Bool-cases (has_prefix (trim_space s) (codes "-"))) [
    | inl minus ↦ rw full (rw minus refl)
    | inr plus ↦ rw full (rw plus (trimmed (trim_space s)))
  ]
]
