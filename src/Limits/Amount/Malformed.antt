-- ===== src/Limits/Amount/Malformed.antt =====
-- Amounts that `scaleToMicros` and `numericToMicros` should not let through, and what it keeps to.
use native.Mathlib.Nat.{pow-suc}
use atara_pay.Base.{
  ℕ, zero, suc, ◌+◌, ◌-◌, ◌*◌, ◌^◌, ◌≤◌, ◌<◌, ◌≡◌, refl, true, false, some, [], ◌∷◌, ◌++◌, ltb,
  Text, codes, byte_length, replicate, length, arith, trim_space, ok, err, has_prefix, is_nil,
}
use atara_pay.Limits.Amount.Scaled.{
  NoSpaces, NoSpaces-append, trim_space-NoSpaces, AllDigits-NoSpaces, cut_point-point, six_at_most,
  written-NoSpaces, written-not_negative,
}
use atara_pay.Limits.Amount.Printed.{value-cons, point-nonempty}
use atara_pay.Base.Int.{ℤ, pos, is_int64}
use atara_pay.Limits.Amount.{
  too_many_digits, is_digit, cut_point, parse_nat, parse_int, trim_left_zeros, to_int64,
  combined_micros, scale_trimmed, scale_to_micros, negate, numeric_to_micros,
}
use atara_pay.Limits.Amount.Digits.{
  AllDigits, value, digits_value-eq-value, value-append, value-zeros, AllDigits-append,
  byte_length-digits,
}

combined_micros-int64 : (s : Text) (m : ℤ) → combined_micros s ≡ ok m → is_int64 m ≡ true
combined_micros-int64 [] m h = ground arith
combined_micros-int64 (c ∷ s) m h = ground arith

scale_trimmed-int64 : (s : Text) (m : ℤ) → scale_trimmed s ≡ ok m → is_int64 m ≡ true
unfolding scale_trimmed
scale_trimmed-int64 s m h = ground (
  arith,
  combined_micros-int64
      (trim_left_zeros
        ((cut_point s).0 ++ ((cut_point s).1 ++ replicate (6 - byte_length (cut_point s).1) b'0')))
      m,
)

-- Whatever the text, an accepted amount fits int64.
pub scale_to_micros-int64 : (s : Text) (m : ℤ) → scale_to_micros s ≡ ok m → is_int64 m ≡ true
unfolding scale_to_micros
scale_to_micros-int64 s m h = ground (arith, scale_trimmed-int64 (trim_space s) m)

more_than_six : (n : ℕ) → 6 < n → ltb 6 n ≡ true
more_than_six n h = ground arith

-- A decimal with more than six digits behind the point is refused.
pub scale_to_micros-too_many :
    (i f : Text)
    → AllDigits i
    → AllDigits f
    → 6 < length f
    → scale_to_micros (i ++ (b'.' ∷ f)) ≡ err too_many_digits
unfolding scale_to_micros scale_trimmed
scale_to_micros-too_many i f h k l =
    rw (trim_space-NoSpaces (i ++ (b'.' ∷ f)) (written-NoSpaces i (some f) h k)) (
      rw (point-nonempty i f, written-not_negative i (some f) h)
        (rw (cut_point-point i f h)
          (rw (byte_length-digits f k) (rw (more_than_six (length f) l)))))

-- So a cap written with more than six digits behind the point counts as no cap, whatever it says.
pub numeric_to_micros-too_many :
    (i f : Text)
    → AllDigits i
    → AllDigits f
    → 6 < length f
    → numeric_to_micros (some (i ++ (b'.' ∷ f))) ≡ pos 0
unfolding numeric_to_micros
numeric_to_micros-too_many i f h k l =
    rw (point-nonempty i f) (rw (scale_to_micros-too_many i f h k l))

lt_step : (acc d p v : ℕ) → d ≤ 9 → v < (acc * 10 + d + 1) * p → v < (acc + 1) * (p * 10)
lt_step acc d p v h l = grind arith

digit-le : (c : ℕ) → is_digit c ≡ true → c - b'0' ≤ 9
digit-le c h = ground arith

value-lt : (acc : ℕ) (s : Text) → AllDigits s → value acc s < (acc + 1) * 10 ^ length s
value-lt acc [] h = unfold value in omega arith
value-lt acc (c ∷ s) h = rw (pow-suc 10 (length s)) (
    lt_step acc (c - b'0') (10 ^ length s) (value acc (c ∷ s)) (digit-le c h.0)
      (rw (value-cons acc c s) (value-lt (acc * 10 + (c - b'0')) s h.1)))

trim_zeros-minus : (z : ℕ) (s : Text) → trim_left_zeros (replicate z b'0' ++ (b'-' ∷ s)) ≡ b'-' ∷ s
unfolding trim_left_zeros
trim_zeros-minus zero s = refl
trim_zeros-minus (suc z) s = trim_zeros-minus z s

pow_bound : (v k : ℕ) → k ≤ 5 → v < 10 ^ k → v * 10 ^ (5 - k) < 100_000
pow_bound v zero h l = omega arith
pow_bound v (suc zero) h l = omega arith
pow_bound v (suc (suc zero)) h l = omega arith
pow_bound v (suc (suc (suc zero))) h l = omega arith
pow_bound v (suc (suc (suc (suc zero)))) h l = omega arith
pow_bound v (suc (suc (suc (suc (suc zero))))) h l = omega arith
pow_bound v (suc (suc (suc (suc (suc (suc k)))))) h l = absurd (omega arith)

small_fits : (n : ℕ) → n < 100_000 → to_int64 (some (negate n)) ≡ ok (negate n)
small_fits n h = ground arith

zeros-AllDigits : (z : ℕ) → AllDigits (replicate z b'0')
zeros-AllDigits zero = tt
zeros-AllDigits (suc z) = (refl, zeros-AllDigits z)

minus-NoSpaces : (z : ℕ) (d : Text) → AllDigits d → NoSpaces (replicate z b'0' ++ (b'.' ∷ b'-' ∷ d))
minus-NoSpaces z d h =
    NoSpaces-append (replicate z b'0') (b'.' ∷ b'-' ∷ d) (AllDigits-NoSpaces _ (zeros-AllDigits z))
      (refl, (refl, AllDigits-NoSpaces d h))

minus-not_negative :
    (z : ℕ) (d : Text) → has_prefix (replicate z b'0' ++ (b'.' ∷ b'-' ∷ d)) (codes "-") ≡ false
minus-not_negative zero d = refl
minus-not_negative (suc z) d = refl

combined_micros-minus :
    (d : Text) (n : ℕ)
    → AllDigits d
    → is_nil d ≡ false
    → combined_micros (b'-' ∷ (d ++ replicate n b'0'))
      ≡ to_int64 (some (negate (value 0 d * 10 ^ n)))
unfolding parse_int parse_nat
combined_micros-minus [] n h e = cc
combined_micros-minus (c ∷ d) n h e =
    rw
      (digits_value-eq-value 0 (c ∷ (d ++ replicate n b'0'))
        (AllDigits-append (c ∷ d) (replicate n b'0') h (zeros-AllDigits n)))
      (rw (value-append 0 (c ∷ d) (replicate n b'0'), value-zeros))

minus_value :
    (z : ℕ) (d : Text)
    → AllDigits d
    → is_nil d ≡ false
    → length d ≤ 5
    → combined_micros
        (trim_left_zeros (replicate z b'0' ++ (b'-' ∷ (d ++ replicate (6 - (1 + length d)) b'0'))))
      ≡ ok (negate (value 0 d * 10 ^ (5 - length d)))
minus_value z d h e l =
    let left : 6 - (1 + length d) ≡ 5 - length d = omega arith in
    rw (trim_zeros-minus z, left)
      (rw (combined_micros-minus d (5 - length d) h e)
        (small_fits _ (pow_bound (value 0 d) (length d) l (omega (arith, value-lt 0 d h)))))

-- A minus sign behind the point passes the test for negative amounts: "0.-d" is read as minus
-- d millionths, scaled by ten for each digit that d has below five.
pub scale_to_micros-minus :
    (z : ℕ) (d : Text)
    → AllDigits d
    → is_nil d ≡ false
    → length d ≤ 5
    → scale_to_micros (replicate z b'0' ++ (b'.' ∷ b'-' ∷ d))
      ≡ ok (negate (value 0 d * 10 ^ (5 - length d)))
unfolding scale_to_micros scale_trimmed
scale_to_micros-minus z d h e l =
    rw (trim_space-NoSpaces (replicate z b'0' ++ (b'.' ∷ b'-' ∷ d)) (minus-NoSpaces z d h)) (
      rw (point-nonempty (replicate z b'0') (b'-' ∷ d), minus-not_negative z d)
        (rw (cut_point-point (replicate z b'0') (b'-' ∷ d) (zeros-AllDigits z)) (
          rw (byte_length-digits d h)
            (rw (six_at_most (1 + length d) (omega arith)) (minus_value z d h e l)))))
