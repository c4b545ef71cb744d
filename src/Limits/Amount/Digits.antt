-- ===== src/Limits/Amount/Digits.antt =====
-- Texts of digits and the numbers that they write.
use native.Mathlib.Nat.{pow-suc}
use atara_pay.Base.{
  ℕ, zero, suc, ◌+◌, ◌-◌, ◌*◌, ◌/◌, ◌^◌, ◌≤◌, ◌<◌, ◌≡◌, refl, true, some, [], ◌∷◌, ◌++◌, ltb, Text,
  byte_length, replicate, length, All, arith, Bool-cases, inl, inr, length-append,
}
use atara_pay.Limits.Amount.{is_digit, digits_value, trim_left_zeros, decimal_digits, print_nat}

abbrev pub AllDigits : Text → Type 0
AllDigits = All (λ c. is_digit c ≡ true)

-- The number that a text of digits continues, from the value of what stands before it.
unfoldable pub value : ℕ → Text → ℕ
value acc [] = acc
value acc (c ∷ s) = value (acc * 10 + (c - b'0')) s

pub digits_value-eq-value :
    (acc : ℕ) (s : Text) → AllDigits s → digits_value acc s ≡ some (value acc s)
unfolding digits_value value
digits_value-eq-value acc [] h = refl
digits_value-eq-value acc (c ∷ s) h =
    ground (arith, digits_value-eq-value (acc * 10 + (c - b'0')) s h.1)

pub value-append : (acc : ℕ) (s t : Text) → value acc (s ++ t) ≡ value (value acc s) t
unfolding value
value-append acc [] t = refl
value-append acc (c ∷ s) t = value-append (acc * 10 + (c - b'0')) s t

pub value-zeros : (acc n : ℕ) → value acc (replicate n b'0') ≡ acc * 10 ^ n
unfolding value
value-zeros acc zero = omega arith
value-zeros acc (suc n) = rw (pow-suc, value-zeros (acc * 10 + 0) n) (grind arith)

pub value-trim_left_zeros : (s : Text) → value 0 (trim_left_zeros s) ≡ value 0 s
unfolding value trim_left_zeros
value-trim_left_zeros [] = refl
value-trim_left_zeros (c ∷ s) = ground (arith, value-trim_left_zeros s)

pub trim_left_zeros-AllDigits : (s : Text) → AllDigits s → AllDigits (trim_left_zeros s)
unfolding trim_left_zeros
trim_left_zeros-AllDigits [] h = tt
trim_left_zeros-AllDigits (c ∷ s) h = ground (arith, trim_left_zeros-AllDigits s h.1)

pub AllDigits-append : (s t : Text) → AllDigits s → AllDigits t → AllDigits (s ++ t)
AllDigits-append [] t h k = k
AllDigits-append (c ∷ s) t h k = (h.0, AllDigits-append s t h.1 k)

pub AllDigits-zeros : (n : ℕ) → AllDigits (replicate n b'0')
AllDigits-zeros zero = tt
AllDigits-zeros (suc n) = (refl, AllDigits-zeros n)

-- Digits take one byte each.
pub byte_length-digits : (s : Text) → AllDigits s → byte_length s ≡ length s
byte_length-digits [] h = refl
byte_length-digits (c ∷ s) h = ground (arith, byte_length-digits s h.1)

-- Printing: digits only, and they write the number.
pub decimal_digits-AllDigits : (fuel n : ℕ) → AllDigits (decimal_digits fuel n)
unfolding decimal_digits
decimal_digits-AllDigits zero n = tt
decimal_digits-AllDigits (suc fuel) n = elim (Bool-cases (ltb n 10)) [
  | inl small ↦ rw small (ground arith, tt)
  | inr large ↦ rw large (
      AllDigits-append (decimal_digits fuel (n / 10)) _ (decimal_digits-AllDigits fuel (n / 10))
        (ground arith, tt))
]

pub value-decimal_digits : (fuel n : ℕ) → n < fuel → value 0 (decimal_digits fuel n) ≡ n
unfolding decimal_digits
value-decimal_digits zero n h = absurd (omega arith)
value-decimal_digits (suc fuel) n h = elim (Bool-cases (ltb n 10)) [
  | inl small ↦ rw small (unfold value in ground arith)
  | inr large ↦
      rw (large, value-append)
        (rw (value-decimal_digits fuel (n / 10) (ground arith)) (unfold value in omega arith))
]

quotient_bound : (n k : ℕ) → n < 10 ^ suc (suc k) → n / 10 < 10 ^ suc k
quotient_bound n k h = omega (arith, pow-suc 10 (suc k))

-- A number below 10 ^ k is printed in at most k digits.
pub length-decimal_digits : (fuel n k : ℕ) → n < 10 ^ suc k → length (decimal_digits fuel n) ≤ suc k
unfolding decimal_digits
length-decimal_digits zero n k h = omega arith
length-decimal_digits (suc fuel) n zero h = ground (arith)
length-decimal_digits (suc fuel) n (suc k) h = elim (Bool-cases (ltb n 10)) [
  | inl small ↦ rw small (omega arith)
  | inr large ↦
      rw (large, length-append)
        (omega (arith, length-decimal_digits fuel (n / 10) k (quotient_bound n k h)))
]

pub print_nat-AllDigits : (n : ℕ) → AllDigits (print_nat n)
unfolding print_nat
print_nat-AllDigits n = decimal_digits-AllDigits (suc n) n

pub value-print_nat : (n : ℕ) → value 0 (print_nat n) ≡ n
unfolding print_nat
value-print_nat n = value-decimal_digits (suc n) n (omega arith)
