-- ===== src/Cdc/Detection.antt =====
-- Wrong CDCs near one that `parseCdc` accepts.
use facturacion_sifen.Prelude.{
  ℕ, ◌%◌, ◌≡◌, ◌≢◌, sym, ap, ◌∙◌, [], ◌∷◌, ◌++◌, arith, Text, true, ok, subst, all, all-append,
  all-middle, is_digit, digits_between-all, digits_between-length, number, length, length-append,
  slice, take, take-append, drop-append,
}
use facturacion_sifen.Ruc.{check_digit_of}
use facturacion_sifen.Ruc.Checksum.{sum_of, check_digit-single, check_digit-swap, check_digit-blind}
use facturacion_sifen.Cdc.{CdcParts, parse_cdc, compute_cdc_check_digit}
use facturacion_sifen.Cdc.RoundTrip.{parse_cdc-IsParsed}

-- A CDC with 43 digits before its check digit `d`, as `parseCdc` reads it.
accepted :
    (s : Text) (d : ℕ) (p : CdcParts)
    → parse_cdc (s ++ d ∷ []) ≡ ok p
    → (number (d ∷ []) ≡ check_digit_of (sum_of s)) × (all is_digit s ≡ true) × (length s ≡ 43)
accepted s d p h =
    let i = parse_cdc-IsParsed _ p h in
    let long : length s ≡ 43 =
      omega
        (arith, length-append s (d ∷ []), digits_between-length 44 (s ++ d ∷ []) i.all_digits) in
    let base_is = take-append 43 s (d ∷ []) long in
    let last_is : slice (s ++ d ∷ []) 43 44 ≡ d ∷ [] =
      ap (take 1) (drop-append 43 s (d ∷ []) long) in
    (
      ap number (sym last_is) ∙ i.dv_is ∙ ap (λ t. check_digit_of (sum_of t)) base_is,
      subst (λ t. all is_digit t ≡ true) base_is
          (digits_between-all 43 43 (slice (s ++ d ∷ []) 0 43) i.base_digits),
      long,
    )

-- A CDC with one of its first 43 digits mistyped is refused, unless its check digit is 0 or the digit
-- has the weight 11 (nine, nineteen, … digits stand between it and the check digit).
pub parse_cdc-mistyped :
    (pre post : Text) (x y d : ℕ) (p p' : CdcParts)
    → parse_cdc ((pre ++ x ∷ post) ++ d ∷ []) ≡ ok p
    → x ≢ y
    → length post % 10 ≢ 9
    → number (d ∷ []) ≢ 0
    → parse_cdc ((pre ++ y ∷ post) ++ d ∷ []) ≢ ok p'
parse_cdc-mistyped pre post x y d p p' h ne w nz h' =
    let (dv_is, all_digits, _) = accepted _ d p h in
    let (dv_is', all_digits', _) = accepted _ d p' h' in
    nz (
      dv_is
      ∙ check_digit-single pre post x y (all-middle is_digit pre post x all_digits)
          (all-middle is_digit pre post y all_digits') ne w (sym dv_is ∙ dv_is'))

-- A CDC with two neighbouring different digits of its first 43 exchanged is refused, unless its check
-- digit is 0.
pub parse_cdc-exchanged :
    (pre post : Text) (x y d : ℕ) (p p' : CdcParts)
    → parse_cdc ((pre ++ x ∷ y ∷ post) ++ d ∷ []) ≡ ok p
    → x ≢ y
    → number (d ∷ []) ≢ 0
    → parse_cdc ((pre ++ y ∷ x ∷ post) ++ d ∷ []) ≢ ok p'
parse_cdc-exchanged pre post x y d p p' h ne nz h' =
    let (dv_is, all_digits, _) = accepted _ d p h in
    let (dv_is', all_digits', _) = accepted _ d p' h' in
    nz (
      dv_is
      ∙ check_digit-swap pre post x y (all-middle is_digit pre (y ∷ post) x all_digits)
          (all-middle is_digit pre (x ∷ post) y all_digits') ne (sym dv_is ∙ dv_is'))

-- The check digit of a CDC base does not depend on a digit that nine, nineteen, … digits follow.
pub compute_cdc_check_digit-blind :
    (pre post : Text) (x y dv : ℕ)
    → length post % 10 ≡ 9
    → is_digit y ≡ true
    → compute_cdc_check_digit (pre ++ x ∷ post) ≡ ok dv
    → compute_cdc_check_digit (pre ++ y ∷ post) ≡ ok dv
unfolding compute_cdc_check_digit
compute_cdc_check_digit-blind pre post x y dv w hy h = ground (
  arith,
  check_digit-blind pre post x y w,
  all-append is_digit pre (x ∷ post),
  all-append is_digit pre (y ∷ post),
  length-append pre (x ∷ post),
  length-append pre (y ∷ post),
)
