-- ===== src/Limits/Amount/Scaled.antt =====
-- What `scaleToMicros` computes: the value of the decimal, in millionths.
use mathlib.Core.List.{reverse, reverse-append, reverse-reverse}
use atara_pay.Base.{
  ℕ, ◌-◌, ◌*◌, ◌^◌, ◌≤◌, ◌≡◌, refl, true, false, Option, none, some, [], ◌∷◌, ◌++◌, ltb,
  if◌then◌else◌, Text, codes, replicate, length, All, arith, is_space, drop_while, trim_space,
  Result, ok, err, has_prefix, is_nil,
}
use atara_pay.Base.Int.{ℤ, pos, is_int64}
use atara_pay.Limits.Amount.{
  AmountError, overflows, is_digit, cut_point, parse_nat, parse_int, trim_left_zeros,
  combined_micros, scale_trimmed, scale_to_micros,
}
use atara_pay.Limits.Amount.Digits.{
  AllDigits, value, digits_value-eq-value, value-append, value-zeros, value-trim_left_zeros,
  trim_left_zeros-AllDigits, AllDigits-append, AllDigits-zeros, byte_length-digits,
}

-- A decimal as it is written: digits, and a fraction after a point if there is one.
abbrev pub written : Text → Option Text → Text
written i none = i
written i (some f) = i ++ (b'.' ∷ f)

abbrev pub fraction : Option Text → Text
fraction none = []
fraction (some f) = f

-- The decimal in millionths: its digits read as one number, times ten for each digit that the
-- fraction has below six.
abbrev pub micros : Text → Option Text → ℕ
micros i f = value 0 (i ++ fraction f) * 10 ^ (6 - length (fraction f))

-- A value that fits int64, or the error of one that does not.
abbrev pub in_int64 : ℕ → Result AmountError ℤ
in_int64 n = if is_int64 (pos n) then ok (pos n) else err overflows

-- Trimming.
abbrev pub NoSpaces : Text → Type 0
NoSpaces = All (λ c. is_space c ≡ false)

drop_while-NoSpaces : (s : Text) → NoSpaces s → drop_while is_space s ≡ s
drop_while-NoSpaces [] h = refl
drop_while-NoSpaces (c ∷ s) h = rw h.0

pub NoSpaces-append : (s t : Text) → NoSpaces s → NoSpaces t → NoSpaces (s ++ t)
NoSpaces-append [] t h k = k
NoSpaces-append (c ∷ s) t h k = (h.0, NoSpaces-append s t h.1 k)

NoSpaces-reverse : (s : Text) → NoSpaces s → NoSpaces (reverse s)
NoSpaces-reverse [] h = tt
NoSpaces-reverse (c ∷ s) h =
    rw (reverse-append (c ∷ []) s)
      (NoSpaces-append (reverse s) (c ∷ []) (NoSpaces-reverse s h.1) (h.0, tt))

pub trim_space-NoSpaces : (s : Text) → NoSpaces s → trim_space s ≡ s
unfolding trim_space
trim_space-NoSpaces s h = rw (
  drop_while-NoSpaces s h,
  drop_while-NoSpaces (reverse s) (NoSpaces-reverse s h),
  reverse-reverse,
)

digit-not-space : (c : ℕ) → is_digit c ≡ true → is_space c ≡ false
digit-not-space c h = ground arith

pub AllDigits-NoSpaces : (s : Text) → AllDigits s → NoSpaces s
AllDigits-NoSpaces [] h = tt
AllDigits-NoSpaces (c ∷ s) h = (digit-not-space c h.0, AllDigits-NoSpaces s h.1)

pub written-NoSpaces :
    (i : Text) (f : Option Text) → AllDigits i → AllDigits (fraction f) → NoSpaces (written i f)
written-NoSpaces i none h k = AllDigits-NoSpaces i h
written-NoSpaces i (some f) h k =
    NoSpaces-append i (b'.' ∷ f) (AllDigits-NoSpaces i h) (refl, AllDigits-NoSpaces f k)

-- Cutting at the point.
cut_point-digits : (i : Text) → AllDigits i → cut_point i ≡ (i, [])
unfolding cut_point
cut_point-digits [] h = refl
cut_point-digits (c ∷ i) h = rw (cut_point-digits i h.1) (ground arith)

pub cut_point-point : (i f : Text) → AllDigits i → cut_point (i ++ (b'.' ∷ f)) ≡ (i, f)
unfolding cut_point
cut_point-point [] f h = refl
cut_point-point (c ∷ i) f h = rw (cut_point-point i f h.1) (ground arith)

cut_point-written :
    (i : Text) (f : Option Text) → AllDigits i → cut_point (written i f) ≡ (i, fraction f)
cut_point-written i none h = cut_point-digits i h
cut_point-written i (some f) h = cut_point-point i f h

parse_nat-digits :
    (c : ℕ) (s : Text) → AllDigits (c ∷ s) → parse_nat (c ∷ s) ≡ some (value 0 (c ∷ s))
unfolding parse_nat
parse_nat-digits c s h = digits_value-eq-value 0 (c ∷ s) h

parse_int-digits :
    (c : ℕ) (s : Text) → AllDigits (c ∷ s) → parse_int (c ∷ s) ≡ some (pos (value 0 (c ∷ s)))
unfolding parse_int
parse_int-digits c s h = ground (arith, parse_nat-digits c s h)

combined_micros-digits : (s : Text) → AllDigits s → combined_micros s ≡ in_int64 (value 0 s)
combined_micros-digits [] h = unfold value in refl
combined_micros-digits (c ∷ s) h = rw (parse_int-digits c s h)

-- The number that the code composes, with the zeros that it appends.
value-combined :
    (i f : Text) (n : ℕ)
    → value 0 (trim_left_zeros (i ++ (f ++ replicate n b'0'))) ≡ value 0 (i ++ f) * 10 ^ n
value-combined i f n = rw (
  value-trim_left_zeros,
  value-append 0 i _,
  value-append _ f _,
  value-zeros,
  ← value-append 0 i f,
)

pub six_at_most : (n : ℕ) → n ≤ 6 → ltb 6 n ≡ false
six_at_most n h = ground arith

combined-AllDigits :
    (i f : Text) (n : ℕ)
    → AllDigits i
    → AllDigits f
    → AllDigits (trim_left_zeros (i ++ (f ++ replicate n b'0')))
combined-AllDigits i f n h k =
    trim_left_zeros-AllDigits _
      (AllDigits-append i _ h (AllDigits-append f _ k (AllDigits-zeros n)))

scale_trimmed-written :
    (i : Text) (f : Option Text)
    → AllDigits i
    → AllDigits (fraction f)
    → length (fraction f) ≤ 6
    → scale_trimmed (written i f) ≡ in_int64 (micros i f)
unfolding scale_trimmed
scale_trimmed-written i f h k l = rw (cut_point-written i f h) (
    rw (byte_length-digits (fraction f) k) (
      rw (six_at_most (length (fraction f)) l) (
        rw
          (combined_micros-digits _
            (combined-AllDigits i (fraction f) (6 - length (fraction f)) h k))
          (rw (value-combined i (fraction f) (6 - length (fraction f)))))))

pub written-not_negative :
    (i : Text) (f : Option Text) → AllDigits i → has_prefix (written i f) (codes "-") ≡ false
written-not_negative [] none h = refl
written-not_negative [] (some f) h = refl
written-not_negative (c ∷ i) none h = ground arith
written-not_negative (c ∷ i) (some f) h = ground arith

-- A decimal of digits with at most six behind the point is its value in millionths, or the
-- overflow error if that passes int64. A missing whole part or fraction counts as nothing.
pub scale_to_micros-written :
    (i : Text) (f : Option Text)
    → AllDigits i
    → AllDigits (fraction f)
    → length (fraction f) ≤ 6
    → is_nil (written i f) ≡ false
    → scale_to_micros (written i f) ≡ in_int64 (micros i f)
unfolding scale_to_micros
scale_to_micros-written i f h k l n =
    rw (trim_space-NoSpaces (written i f) (written-NoSpaces i f h k))
      (rw (n, written-not_negative i f h) (scale_trimmed-written i f h k l))
