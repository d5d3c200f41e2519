-- ===== src/Ruc/Detection.antt =====
-- A RUC that `createRuc` accepts, and the wrong ones near it.
use facturacion_sifen.Prelude.{
  ℕ, ◌≡◌, ◌≢◌, ◌∷◌, ◌++◌, arith, ok, Text, is_digit, true, digits_between, length, length-append,
  all-middle, inl, inr, Bool-cases, ◌∙◌, sym, ◌≤◌,
}
use facturacion_sifen.Ruc.{Ruc, compute_ruc_check_digit, create_ruc, check_digit_of}
use facturacion_sifen.Ruc.Checksum.{sum_of, check_digit-single, check_digit-swap}

pub compute_ruc_check_digit-eq-ok :
    (base : Text) (dv : ℕ)
    → compute_ruc_check_digit base ≡ ok dv
    → (digits_between 3 8 base ≡ true) × (dv ≡ check_digit_of (sum_of base))
unfolding compute_ruc_check_digit
compute_ruc_check_digit-eq-ok base dv h = elim (Bool-cases (digits_between 3 8 base)) [
  | inl good ↦ (good, ground arith)
  | inr bad ↦ absurd (ground arith)
]

-- What `createRuc` accepts.
pub create_ruc-eq-ok :
    (base : Text) (dv : ℕ) (r : Ruc)
    → create_ruc base dv ≡ ok r
    → (digits_between 3 8 base ≡ true)
      × (dv ≡ check_digit_of (sum_of base))
      × (r.base ≡ base)
      × (r.dv ≡ dv)
unfolding create_ruc compute_ruc_check_digit
create_ruc-eq-ok base dv r h = elim (Bool-cases (digits_between 3 8 base)) [
  | inl good ↦ (good, ground arith, ground arith, ground arith)
  | inr bad ↦ absurd (ground arith)
]

-- And it accepts every base of 3 to 8 digits with its check digit.
pub create_ruc_complete :
    (base : Text) (dv : ℕ)
    → digits_between 3 8 base ≡ true
    → dv ≡ check_digit_of (sum_of base)
    → create_ruc base dv ≡ ok (record { base = base; dv = dv })
unfolding create_ruc compute_ruc_check_digit
create_ruc_complete base dv h e = ground arith

middle-short :
    (pre post : Text) (x : ℕ) → digits_between 3 8 (pre ++ x ∷ post) ≡ true → length post ≤ 7
middle-short pre post x h = ground (arith, length-append pre (x ∷ post))

middle-digit :
    (pre post : Text) (x : ℕ) → digits_between 3 8 (pre ++ x ∷ post) ≡ true → is_digit x ≡ true
middle-digit pre post x h = all-middle is_digit pre post x (ground arith)

-- A RUC with one character mistyped is refused, unless its check digit is 0.
pub create_ruc-mistyped :
    (pre post : Text) (x y dv : ℕ) (r r' : Ruc)
    → create_ruc (pre ++ x ∷ post) dv ≡ ok r
    → x ≢ y
    → dv ≢ 0
    → create_ruc (pre ++ y ∷ post) dv ≢ ok r'
create_ruc-mistyped pre post x y dv r r' h ne nz h' =
    let (good, dv_is, _, _) = create_ruc-eq-ok _ _ _ h in
    let (good', dv_is', _, _) = create_ruc-eq-ok _ _ _ h' in
    let short = middle-short pre post x good in
    nz (
      dv_is
      ∙ check_digit-single pre post x y (middle-digit pre post x good)
          (middle-digit pre post y good') ne (omega arith) (sym dv_is ∙ dv_is'))

-- A RUC with two neighbouring digits exchanged is refused, unless its check digit is 0.
pub create_ruc-exchanged :
    (pre post : Text) (x y dv : ℕ) (r r' : Ruc)
    → create_ruc (pre ++ x ∷ y ∷ post) dv ≡ ok r
    → x ≢ y
    → dv ≢ 0
    → create_ruc (pre ++ y ∷ x ∷ post) dv ≢ ok r'
create_ruc-exchanged pre post x y dv r r' h ne nz h' =
    let (good, dv_is, _, _) = create_ruc-eq-ok _ _ _ h in
    let (good', dv_is', _, _) = create_ruc-eq-ok _ _ _ h' in
    nz (
      dv_is
      ∙ check_digit-swap pre post x y (middle-digit pre (y ∷ post) x good)
          (middle-digit pre (x ∷ post) y good') ne (sym dv_is ∙ dv_is'))
