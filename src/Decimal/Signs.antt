-- ===== src/Decimal/Signs.antt =====
-- The sign that `Decimal.parse` reads.
use facturacion_sifen.Prelude.{
  ℕ, ◌≡◌, refl, sym, ap, ◌∙◌, arith, Bool, true, false, some, ok, err, [], ◌∷◌, ◌++◌, Text, ◌==◌,
  if◌then◌else◌, ltb, number, length, inl, inr, Bool-cases, Option-cases, ok-injective,
}
use facturacion_sifen.Prelude.Int.{pos}
use facturacion_sifen.Decimal.{
  Decimal, DecimalParseFailure, decimal, too_many_integer_digits, too_many_decimals,
  too_many_significant_digits, is_nil, scale, max_integer_digits, strip_start, strip_end,
  strip_leading, pad_end, DecimalParseResult, not_a_decimal, max_significant_digits_from_number,
}
use facturacion_sifen.Decimal.Parse.{
  Scanned, span_digits, scan_fraction, scan_unsigned, scan, read_plain, parse_plain, parse,
  number_text, plain_of, plain_with, expand_exponent, split_point, significant_digits,
}

abbrev pub starts_minus : Text → Bool
starts_minus [] = false
starts_minus (c ∷ cs) = c == b'-'

abbrev IsNatural : Decimal → Type 0
IsNatural d = (n : ℕ) × (d ≡ decimal (pos n))

-- What is scanned of a text without a sign.
record IsUnsigned (s : Scanned) : Type 0 where
  not_negative : s.negative ≡ false
  not_nil : is_nil s.int ≡ false
  unsigned : starts_minus s.int ≡ false

ok_err : (f : DecimalParseFailure) (d : Decimal) → ¬ (err f ≡ ok d)
ok_err f d h = cc

-- A check that did not fail.
passed :
    (b : Bool) (f : DecimalParseFailure) (r : DecimalParseResult) (d : Decimal)
    → (if b then err f else r) ≡ ok d
    → (b ≡ false) × (r ≡ ok d)
passed true f r d h = cc
passed false f r d h = (refl, h)

passed_then :
    (b : Bool) (r : DecimalParseResult) (f : DecimalParseFailure) (d : Decimal)
    → (if b then r else err f) ≡ ok d
    → (b ≡ true) × (r ≡ ok d)
passed_then true r f d h = (refl, h)
passed_then false r f d h = cc

span-unsigned : (t : Text) → starts_minus (span_digits t).0 ≡ false
unfolding span_digits
span-unsigned [] = refl
span-unsigned (c ∷ cs) = ground arith

scan_fraction-parts :
    (n : Bool) (int cs : Text)
    → ((scan_fraction n int cs).negative ≡ n) × ((scan_fraction n int cs).int ≡ int)
unfolding scan_fraction
scan_fraction-parts n int [] = (refl, refl)
scan_fraction-parts n int (c ∷ cs) = (ground arith, ground arith)

scan_unsigned-IsUnsigned : (t : Text) (s : Scanned) → scan_unsigned false t ≡ some s → IsUnsigned s
unfolding scan_unsigned
scan_unsigned-IsUnsigned t s e = elim (Bool-cases (is_nil int)) [
  | inl nothing ↦ cc
  | inr digits ↦
      let (sign, whole) = scan_fraction-parts false int (span_digits t).1 in
      let same : scan_fraction false int (span_digits t).1 ≡ s = cc in
      record {
        not_negative = sym (ap (λ (s : Scanned). s.negative) same) ∙ sign;
        not_nil = ap is_nil (sym (ap (λ (s : Scanned). s.int) same) ∙ whole) ∙ digits;
        unsigned =
            ap starts_minus (sym (ap (λ (s : Scanned). s.int) same) ∙ whole) ∙ span-unsigned t;
      }
]
  where
    int : Text
    int = (span_digits t).0

scan-IsUnsigned : (t : Text) (s : Scanned) → starts_minus t ≡ false → scan t ≡ some s → IsUnsigned s
unfolding scan
scan-IsUnsigned [] s h e = cc
scan-IsUnsigned (c ∷ cs) s h e = scan_unsigned-IsUnsigned (c ∷ cs) s (sym (rw h refl) ∙ e)

append-unsigned :
    (xs ys : Text) → is_nil xs ≡ false → starts_minus xs ≡ false → starts_minus (xs ++ ys) ≡ false
append-unsigned [] ys n h = cc
append-unsigned (x ∷ xs) ys n h = h

append-not_nil : (xs ys : Text) → is_nil xs ≡ false → is_nil (xs ++ ys) ≡ false
append-not_nil [] ys n = cc
append-not_nil (x ∷ xs) ys n = refl

expand_exponent-unsigned :
    (s : Scanned) (negative : Bool) (exponent : ℕ)
    → IsUnsigned s
    → starts_minus (expand_exponent s negative exponent) ≡ false
unfolding expand_exponent
expand_exponent-unsigned s true exponent h = rw h.not_negative refl
expand_exponent-unsigned s false exponent h = rw h.not_negative (
    append-unsigned (s.int ++ s.frac) _ (append-not_nil s.int s.frac h.not_nil)
      (append-unsigned s.int s.frac h.not_nil h.unsigned))

plain_with-unsigned :
    (t : Text) (s : Scanned) (rest : Text)
    → starts_minus t ≡ false
    → IsUnsigned s
    → starts_minus (plain_with t s rest) ≡ false
unfolding plain_with
plain_with-unsigned t s [] h u = h
plain_with-unsigned t s (e ∷ []) h u = h
plain_with-unsigned t s (e ∷ c ∷ power) h u =
    either _ (expand_exponent s (c == b'-') (number (span_digits power).0)) t
      (expand_exponent-unsigned s (c == b'-') (number (span_digits power).0) u) h
  where
    either :
        (b : Bool) (x y : Text)
        → starts_minus x ≡ false
        → starts_minus y ≡ false
        → starts_minus (if b then x else y) ≡ false
    either true x y h k = h
    either false x y h k = k

plain_of-unsigned : (t : Text) → starts_minus t ≡ false → starts_minus (plain_of t) ≡ false
unfolding plain_of
plain_of-unsigned t h = elim (Option-cases (scan t)) [
  | inl e ↦ rw (e, plain_of) h
  | inr (s, e) ↦ rw (e, plain_of) (plain_with-unsigned t s s.rest h (scan-IsUnsigned t s h e))
]

read_plain-IsNatural :
    (int frac : Text) (d : Decimal) → read_plain false int frac ≡ ok d → IsNatural d
unfolding read_plain
read_plain-IsNatural int frac d h =
    let (_, h1) =
      passed (ltb max_integer_digits (length (strip_start (strip_leading int))))
        too_many_integer_digits _ d h in
    let (_, h2) = passed (ltb scale (length (strip_end frac))) too_many_decimals _ d h1 in
    (number (strip_leading int ++ pad_end scale (strip_end frac)), sym (ok-injective h2))

parse_plain-IsNatural :
    (t : Text) (d : Decimal) → starts_minus t ≡ false → parse_plain t ≡ ok d → IsNatural d
unfolding parse_plain
parse_plain-IsNatural t d h e = elim (Option-cases (scan t)) [
  | inl k ↦ absurd (ok_err not_a_decimal d (sym (rw (k, parse_plain) refl) ∙ e))
  | inr (s, k) ↦
      let (_, e1) =
        passed_then (is_nil s.rest) (read_plain s.negative s.int s.frac) not_a_decimal d
          (sym (rw (k, parse_plain) refl) ∙ e) in
      let sign : s.negative ≡ false = (scan-IsUnsigned t s h k).not_negative in
      read_plain-IsNatural s.int s.frac d (ap (λ n. read_plain n s.int s.frac) (sym sign) ∙ e1)
]

-- A number that is not negative is read as one.
pub parse-IsNatural :
    (t : Text) (d : Decimal)
    → starts_minus t ≡ false
    → parse (number_text (some t)) ≡ ok d
    → IsNatural d
unfolding parse
parse-IsNatural t d h e =
    let (_, e1) =
      passed
        (ltb max_significant_digits_from_number
          (significant_digits (split_point (plain_of t)).0 (split_point (plain_of t)).1))
        too_many_significant_digits _ d e in
    parse_plain-IsNatural (plain_of t) d (plain_of-unsigned t h) e1
