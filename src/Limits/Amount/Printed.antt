-- ===== src/Limits/Amount/Printed.antt =====
-- Printing microunits and reading them back.
use native.Mathlib.Nat.{pow-suc}
use mathlib.Core.List.{reverse, reverse-append, reverse-reverse, append_assoc, append-nil}
use atara_pay.Base.{
  ℕ, zero, suc, ◌+◌, ◌-◌, ◌*◌, ◌/◌, ◌%◌, ◌^◌, ◌≤◌, ◌<◌, ◌≡◌, refl, ap, ◌∙◌, false, Option, none,
  some, [], ◌∷◌, ◌++◌, ltb, ◌==◌, Text, replicate, length, arith, Bool-cases, inl, inr,
  length-append, ok, is_nil,
}
use atara_pay.Base.Int.{pos}
use atara_pay.Limits.Amount.{
  trim_left_zeros, trim_right_zeros, scale_to_micros, micros_to_decimal, print_nat, decimal_digits,
  pad_zeros, micro_scale,
}
use atara_pay.Limits.Amount.Digits.{
  AllDigits, value, value-append, value-zeros, length-decimal_digits, trim_left_zeros-AllDigits,
  AllDigits-append, AllDigits-zeros, print_nat-AllDigits, value-print_nat,
}
use atara_pay.Limits.Amount.Scaled.{written, fraction, micros, in_int64, scale_to_micros-written}

length-reverse : (s : Text) → length (reverse s) ≡ length s
length-reverse [] = refl
length-reverse (c ∷ s) =
    rw (reverse-append (c ∷ []) s) (rw length-append (omega (arith, length-reverse s)))

length-replicate : (n c : ℕ) → length (replicate n c) ≡ n
length-replicate zero c = refl
length-replicate (suc n) c = ap suc (length-replicate n c)

AllDigits-reverse : (s : Text) → AllDigits s → AllDigits (reverse s)
AllDigits-reverse [] h = tt
AllDigits-reverse (c ∷ s) h =
    rw (reverse-append (c ∷ []) s)
      (AllDigits-append (reverse s) (c ∷ []) (AllDigits-reverse s h.1) (h.0, tt))

length-trim_left_zeros : (s : Text) → length (trim_left_zeros s) ≤ length s
unfolding trim_left_zeros
length-trim_left_zeros [] = omega arith
length-trim_left_zeros (c ∷ s) = ground (arith, length-trim_left_zeros s)

-- Trimming stops at the point.
trim_left_zeros-point :
    (s t : Text) → trim_left_zeros (s ++ (b'.' ∷ t)) ≡ trim_left_zeros s ++ (b'.' ∷ t)
unfolding trim_left_zeros
trim_left_zeros-point [] t = refl
trim_left_zeros-point (c ∷ s) t = ground (arith, trim_left_zeros-point s t)

reverse-point : (s t : Text) → reverse (s ++ (b'.' ∷ t)) ≡ reverse t ++ (b'.' ∷ reverse s)
reverse-point s t =
    rw (reverse-append s (b'.' ∷ t))
      (rw (reverse-append (b'.' ∷ []) t) (append_assoc (reverse t) (b'.' ∷ []) (reverse s)))

trim_right_zeros-point :
    (i p : Text) → trim_right_zeros (i ++ (b'.' ∷ p)) ≡ i ++ (b'.' ∷ trim_right_zeros p)
unfolding trim_right_zeros
trim_right_zeros-point i p = rw (reverse-point i p) (
    rw (trim_left_zeros-point (reverse p) (reverse i))
      (rw (reverse-point (trim_left_zeros (reverse p)) (reverse i)) (rw (reverse-reverse i))))

value-snoc :
    (acc : ℕ) (s : Text) (c : ℕ) → value acc (s ++ (c ∷ [])) ≡ value acc s * 10 + (c - b'0')
value-snoc acc s c = rw (value-append acc s (c ∷ [])) (unfold value in refl)

trim_zero_step :
    (x y l t d : ℕ) → t ≤ l → x * 10 ^ (l - t) ≡ y → d ≡ 0 → x * 10 ^ (suc l - t) ≡ y * 10 + d
trim_zero_step x y l t d h e z =
    let longer : suc l - t ≡ suc (l - t) = omega arith in
    rw longer (rw (pow-suc 10 (l - t)) (omega arith))

-- What trimming takes off is a factor.
value-reverse-trim :
    (acc : ℕ) (s : Text)
    → value acc (reverse (trim_left_zeros s)) * 10 ^ (length s - length (trim_left_zeros s))
      ≡ value acc (reverse s)
unfolding trim_left_zeros
value-reverse-trim acc [] = unfold value in omega arith
value-reverse-trim acc (c ∷ s) = elim (Bool-cases (c == b'0')) [
  | inl e ↦ rw e (
      rw (reverse-append (c ∷ []) s) (
        rw (value-snoc acc (reverse s) c) (
          trim_zero_step (value acc (reverse (trim_left_zeros s))) (value acc (reverse s))
            (length s) (length (trim_left_zeros s)) (c - b'0') (length-trim_left_zeros s)
            (value-reverse-trim acc s) (ground arith))))
  | inr e ↦ rw e (
      let none_off : suc (length s) - suc (length s) ≡ 0 = omega arith in rw none_off (omega arith))
]

pub value-cons : (acc c : ℕ) (s : Text) → value acc (c ∷ s) ≡ value (acc * 10 + (c - b'0')) s
unfolding value
value-cons acc c s = refl

shift_step :
    (acc d p v w x : ℕ)
    → v ≡ (acc * 10 + d) * p + x
    → w ≡ (0 * 10 + d) * p + x
    → v ≡ acc * (p * 10) + w
shift_step acc d p v w x h k = omega arith

value-shift : (acc : ℕ) (s : Text) → value acc s ≡ acc * 10 ^ length s + value 0 s
value-shift acc [] = unfold value in omega arith
value-shift acc (c ∷ s) = rw (pow-suc 10 (length s)) (
    shift_step acc (c - b'0') (10 ^ length s) (value acc (c ∷ s)) (value 0 (c ∷ s)) (value 0 s)
      (value-cons acc c s ∙ value-shift (acc * 10 + (c - b'0')) s)
      (value-cons 0 c s ∙ value-shift (0 * 10 + (c - b'0')) s))

-- A fraction below a million is padded to six digits, which write it.
length-pad : (r : ℕ) → r < micro_scale → length (pad_zeros 6 (print_nat r)) ≡ 6
unfolding print_nat
length-pad r h =
    rw (length-append, length-replicate) (omega (arith, length-decimal_digits (suc r) r 5 h))

value-pad : (r : ℕ) → value 0 (pad_zeros 6 (print_nat r)) ≡ r
value-pad r =
    let nothing : 0 * 10 ^ (6 - length (print_nat r)) ≡ 0 = omega arith in
    rw (value-append, value-zeros, nothing) (value-print_nat r)

pad-AllDigits : (r : ℕ) → AllDigits (pad_zeros 6 (print_nat r))
pad-AllDigits r =
    AllDigits-append _ (print_nat r) (AllDigits-zeros (6 - length (print_nat r)))
      (print_nat-AllDigits r)

trim_right_zeros-AllDigits : (p : Text) → AllDigits p → AllDigits (trim_right_zeros p)
unfolding trim_right_zeros
trim_right_zeros-AllDigits p h =
    AllDigits-reverse _ (trim_left_zeros-AllDigits (reverse p) (AllDigits-reverse p h))

length-trim_right_zeros : (p : Text) → length (trim_right_zeros p) ≤ length p
unfolding trim_right_zeros
length-trim_right_zeros p =
    rw length-reverse (omega (arith, length-trim_left_zeros (reverse p), length-reverse p))

value-trim_right_zeros :
    (acc : ℕ) (p : Text)
    → value acc (trim_right_zeros p) * 10 ^ (length p - length (trim_right_zeros p)) ≡ value acc p
unfolding trim_right_zeros
value-trim_right_zeros acc p =
    let e : value acc (reverse (trim_left_zeros (reverse p)))
          * 10 ^ (length (reverse p) - length (trim_left_zeros (reverse p)))
        ≡ value acc (reverse (reverse p)) =
      value-reverse-trim acc (reverse p) in
    rw length-reverse (rw (reverse-reverse, length-reverse) at e)

-- What `microsToDecimal` prints for a number that is not 0 is a decimal of the shape that
-- `scaleToMicros` reads.
whole_micros : (q : ℕ) → micros (print_nat q) none ≡ q * micro_scale
whole_micros q = rw (append-nil (print_nat q), value-print_nat q)

fraction_micros :
    (q r : ℕ)
    → r < micro_scale
    → micros (print_nat q) (some (trim_right_zeros (pad_zeros 6 (print_nat r))))
      ≡ q * micro_scale + r
fraction_micros q r h =
    let p : Text = pad_zeros 6 (print_nat r) in
    let trimmed : value q (trim_right_zeros p) * 10 ^ (length p - length (trim_right_zeros p))
        ≡ value q p =
      value-trim_right_zeros q p in
    rw (value-append 0 (print_nat q) (trim_right_zeros p), value-print_nat q)
      ((rw (length-pad r h) at trimmed) ∙ value-shift q p ∙ (rw (length-pad r h, value-pad r)))

snoc-nonempty : (s : Text) (c : ℕ) → is_nil (s ++ (c ∷ [])) ≡ false
snoc-nonempty [] c = refl
snoc-nonempty (d ∷ s) c = refl

digits-nonempty : (fuel n : ℕ) → is_nil (decimal_digits (suc fuel) n) ≡ false
unfolding decimal_digits
digits-nonempty zero n = ground arith
digits-nonempty (suc fuel) n = elim (Bool-cases (ltb n 10)) [
  | inl small ↦ rw small
  | inr large ↦ rw large (snoc-nonempty (decimal_digits (suc fuel) (n / 10)) _)
]

pub print_nat-nonempty : (n : ℕ) → is_nil (print_nat n) ≡ false
unfolding print_nat
print_nat-nonempty n = digits-nonempty n n

pub point-nonempty : (i f : Text) → is_nil (i ++ (b'.' ∷ f)) ≡ false
point-nonempty [] f = refl
point-nonempty (c ∷ i) f = refl

fits : (n : ℕ) → n < 0x8000_0000_0000_0000 → in_int64 n ≡ ok (pos n)
fits n h = ground arith

read_back :
    (i : Text) (f : Option Text) (n : ℕ)
    → AllDigits i
    → AllDigits (fraction f)
    → length (fraction f) ≤ 6
    → is_nil (written i f) ≡ false
    → micros i f ≡ n
    → n < 0x8000_0000_0000_0000
    → scale_to_micros (written i f) ≡ ok (pos n)
read_back i f n hi hf short some_text e h =
    scale_to_micros-written i f hi hf short some_text ∙ (rw e (fits n h))

pub read_whole :
    (q : ℕ)
    → q * micro_scale < 0x8000_0000_0000_0000
    → scale_to_micros (print_nat q) ≡ ok (pos (q * micro_scale))
read_whole q h =
    read_back (print_nat q) none (q * micro_scale) (print_nat-AllDigits q) tt (omega arith)
      (print_nat-nonempty q) (whole_micros q) h

read_fraction :
    (q r : ℕ)
    → r < micro_scale
    → q * micro_scale + r < 0x8000_0000_0000_0000
    → scale_to_micros (trim_right_zeros (print_nat q ++ (b'.' ∷ pad_zeros 6 (print_nat r))))
      ≡ ok (pos (q * micro_scale + r))
read_fraction q r small h =
    let p : Text = pad_zeros 6 (print_nat r) in
    rw (trim_right_zeros-point (print_nat q) p) (
      read_back (print_nat q) (some (trim_right_zeros p)) (q * micro_scale + r)
        (print_nat-AllDigits q) (trim_right_zeros-AllDigits p (pad-AllDigits r))
        (omega (arith, length-trim_right_zeros p, length-pad r small))
        (point-nonempty (print_nat q) (trim_right_zeros p)) (fraction_micros q r small) h)

-- Printing a count of microunits that fits int64 and reading the text back gives the count.
pub scale_to_micros-micros_to_decimal :
    (n : ℕ) → n < 0x8000_0000_0000_0000 → scale_to_micros (micros_to_decimal (pos n)) ≡ ok (pos n)
unfolding micros_to_decimal
scale_to_micros-micros_to_decimal zero h =
    read_back (b'0' ∷ []) none 0 (refl, tt) tt (omega arith) refl (unfold value in refl)
      (omega arith)
scale_to_micros-micros_to_decimal (suc m) h = elim (Bool-cases (suc m % micro_scale == 0)) [
  | inl whole ↦
      rw whole
        (read_whole (suc m / micro_scale) (omega arith) ∙ ap (λ (k : ℕ). ok (pos k)) (ground arith))
  | inr part ↦ rw part (
      read_fraction (suc m / micro_scale) (suc m % micro_scale) (omega arith) (omega arith)
      ∙ ap (λ (k : ℕ). ok (pos k)) (omega arith))
]
