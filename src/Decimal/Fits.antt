-- ===== src/Decimal/Fits.antt =====
-- What `fitsIn` and `decimalPlaces` say of the units of a decimal.
use native.Mathlib.Nat.{pow-suc, mul-le-mul_right, pow-le-pow_right}
use facturacion_sifen.Prelude.{
  ℕ, suc, ◌+◌, ◌-◌, ◌*◌, ◌/◌, ◌%◌, ◌^◌, ◌≤◌, ◌<◌, ◌≡◌, ◌↔◌, refl, sym, ap, ◌∙◌, arith, true, [],
  ◌∷◌, Text, all, is_digit, digit, number, number_from, show, length, length-append,
  length-replicate, replicate, pad_start, number-pad_start, append-nil,
}
use facturacion_sifen.Decimal.{
  Decimal, factor, absolute, fits_in, decimal_places, integer_digits, fraction, strip_end,
}
use facturacion_sifen.Decimal.Numerals.{
  number_from-shift, show-all, number-show, length-show, length-strip_end, strip_end-restored,
  show_zero, restored,
}

number-bound : (s : Text) → all is_digit s ≡ true → number s < 10 ^ length s
unfolding number number_from
number-bound [] h = omega arith
number-bound (c ∷ cs) h = rw (pow-suc 10 (length cs)) (
    omega (
      arith,
      number-bound cs (ground arith),
      number_from-shift (0 * 10 + digit c) cs,
      mul-le-mul_right {m = digit c} {n = 9} (10 ^ length cs) (ground arith),
    ))

length-padded : (m : ℕ) → length (pad_start 8 b'0' (show (m % factor))) ≡ 8
length-padded m = omega (
  arith,
  length-show (m % factor) 7 (omega arith),
  length-append (replicate (8 - length (show (m % factor))) b'0') (show (m % factor)),
  length-replicate {A = ℕ} (8 - length (show (m % factor))) b'0',
)

-- No decimal has more than eight decimals.
decimal_places-bound : (d : Decimal) → decimal_places d ≤ 8
unfolding decimal_places fraction
decimal_places-bound d = omega (
  arith,
  length-strip_end (pad_start 8 b'0' (show (absolute d.units % factor))),
  length-padded (absolute d.units),
)

show-digits : (k n : ℕ) → (length (show k) ≤ suc n) ↔ (k < 10 ^ suc n)
show-digits k n = (
  λ h.
      let back : number (show k) < 10 ^ length (show k) = number-bound (show k) (show-all k) in
      omega (
        arith,
        number-show k,
        pow-le-pow_right {n = 10} (omega arith) {i = length (show k)} {j = suc n} h,
      ),
  λ h. length-show k n h,
)

integer_digits_iff : (d : Decimal) → (integer_digits d ≤ 15) ↔ (absolute d.units / factor < 10 ^ 15)
unfolding integer_digits
integer_digits_iff d = (
  λ h. ground (arith, show-digits (absolute d.units / factor) 14),
  λ h. ground (arith, show-digits (absolute d.units / factor) 14),
)

-- An amount is within 15 integer digits and 8 decimals when its units have at most 23 digits.
pub fits_amount_iff :
    (d : Decimal) → (fits_in d 15 8 ≡ true) ↔ (absolute d.units < 100000000000000000000000)
unfolding fits_in
fits_amount_iff d = (
  λ h. ground (arith, integer_digits_iff d),
  λ h. ground (arith, integer_digits_iff d, decimal_places-bound d),
)

length-nil : (s : Text) → length s ≡ 0 → s ≡ []
length-nil [] h = refl
length-nil (c ∷ cs) h = absurd (omega arith)

-- A text of which nothing is left is one of zeros.
no_digits : (s : Text) → length (strip_end s) ≡ 0 → replicate (length s - 0) b'0' ≡ s
no_digits s h = of_nil (strip_end s) (length-nil (strip_end s) h) (strip_end-restored s)
  where
    of_nil : (r : Text) → r ≡ [] → restored (length s) r ≡ s → replicate (length s - 0) b'0' ≡ s
    of_nil r e k = sym (ap (restored (length s)) e) ∙ k

number_zeros : (n : ℕ) → number (replicate (n - 0) b'0') ≡ 0
unfolding number number_from
number_zeros n = ap number (sym (append-nil (replicate (n - 0) b'0'))) ∙ number-pad_start n []

-- A decimal is an integer when it has no decimals.
pub decimal_places_zero : (d : Decimal) → (decimal_places d ≡ 0) ↔ (absolute d.units % factor ≡ 0)
unfolding decimal_places fraction
decimal_places_zero d = (
  λ h. omega (
    arith,
    number-show (absolute d.units % factor),
    number-pad_start 8 (show (absolute d.units % factor)),
    number_zeros (length (pad_start 8 b'0' (show (absolute d.units % factor)))),
    ap number (no_digits (pad_start 8 b'0' (show (absolute d.units % factor))) h),
  ),
  λ h. rw (h, show_zero) refl,
)
