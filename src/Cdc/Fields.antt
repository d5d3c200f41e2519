-- ===== src/Cdc/Fields.antt =====
-- The validation of one field, and of all of them.
use facturacion_sifen.Prelude.{
  subst, ok-injective, ==_false, ℕ, ◌-◌, ◌≤◌, ◌≡◌, ◌≢◌, refl, ap, ◌∙◌, inl, inr, [], ◌∷◌, ◌++◌,
  arith, Text, true, Bool-cases, ok, err, Result, >>=-eq-ok, map_err, all, is_digit, digits_between,
  number, length, length-append, length-replicate, replicate, all_zeros, number-pad_start,
  pad_start, all-append, ◌==◌, not, guard,
}
use facturacion_sifen.Ruc.{Ruc, create_ruc}
use facturacion_sifen.Cdc.{
  CdcField, CdcParts, digits, one_of, compact_date, check_parts, document_type, ruc_base, ruc_dv,
  establishment, point, document_number, taxpayer_type, emission_type, security_code, invalid,
  dv_mismatch, equals_document_number,
}

-- A field that is accepted, and what comes of it.
pub record IsField (value : Text) (lo hi width : ℕ) (r : Text) : Type 0 where
  pub is_digits : digits_between 1 width value ≡ true
  pub above : lo ≤ number value
  pub below : number value ≤ hi
  pub padded : r ≡ pad_start width b'0' value

pub digits-IsField :
    (f : CdcField) (value : Text) (lo hi width : ℕ) (r : Text)
    → digits f value lo hi width ≡ ok r
    → IsField value lo hi width r
unfolding digits
digits-IsField f value lo hi width r h = elim (Bool-cases (digits_between 1 width value)) [
  | inl good ↦ record {
    is_digits = good;
    above = ground arith;
    below = ground arith;
    padded = ground arith;
  }
  | inr bad ↦ absurd (ground arith)
]

pub IsField-digits :
    (f : CdcField) (value : Text) (lo hi width : ℕ) (r : Text)
    → IsField value lo hi width r
    → digits f value lo hi width ≡ ok r
unfolding digits
IsField-digits f value lo hi width r h = ground (arith, h.padded)

module _ {value : Text} {lo hi width : ℕ} {r : Text} (h : IsField value lo hi width r) where
  pub IsField-length : length r ≡ width
  IsField-length = rw h.padded (
      ground (
        arith,
        h.is_digits,
        length-append (replicate (width - length value) b'0') value,
        length-replicate {A = ℕ} (width - length value) b'0',
      ))

  pub IsField-all : all is_digit r ≡ true
  IsField-all = rw h.padded (
      ground (
        arith,
        h.is_digits,
        all-append is_digit (replicate (width - length value) b'0') value,
        all_zeros (width - length value),
      ))

  pub IsField-number : number r ≡ number value
  IsField-number = ap number h.padded ∙ number-pad_start width value

  -- A padded value is accepted as it is.
  pub IsField-again : IsField r lo hi width r
  IsField-again = record {
    is_digits = ground (arith, IsField-all, IsField-length, h.is_digits);
    above = omega (arith, IsField-number, h.above);
    below = omega (arith, IsField-number, h.below);
    padded =
        ap (λ k. replicate k b'0' ++ r)
          (let e : 0 ≡ width - length r = omega (arith, IsField-length) in e);
  }

  -- A value of full width is left alone.
  pub IsField-same : length value ≡ width → r ≡ value
  IsField-same l =
      h.padded
      ∙ ap (λ k. replicate k b'0' ++ value) (let e : width - length value ≡ 0 = omega arith in e)

-- All that `buildCdc` has checked before it joins the parts, and the parts that it joins.
pub record IsChecked (parts f : CdcParts) : Type 0 where
  pub type_in : IsField parts.document_type 1 8 2 f.document_type
  pub base_in : IsField parts.ruc_base 0 99999999 8 f.ruc_base
  pub ruc : Ruc
  pub ruc_made : create_ruc f.ruc_base parts.ruc_dv ≡ ok ruc
  pub dv_same : f.ruc_dv ≡ parts.ruc_dv
  pub establishment_in : IsField parts.establishment 1 999 3 f.establishment
  pub point_in : IsField parts.point 1 999 3 f.point
  pub number_in : IsField parts.document_number 1 9999999 7 f.document_number
  pub taxpayer_in : one_of taxpayer_type parts.taxpayer_type (1 ∷ 2 ∷ []) ≡ ok f.taxpayer_type
  pub date_in : compact_date parts.issue_date ≡ ok f.issue_date
  pub emission_in : one_of emission_type parts.emission_type (1 ∷ 2 ∷ []) ≡ ok f.emission_type
  pub code_in : IsField parts.security_code 1 999999999 9 f.security_code
  pub code_differs : number f.security_code ≢ number f.document_number

map_err-eq-ok :
    {E F A : Type 0} (g : E → F) (r : Result E A) {a : A} → map_err g r ≡ ok a → r ≡ ok a
map_err-eq-ok g (ok x) h = cc
map_err-eq-ok g (err e) h = cc

abbrev parts_from : (dt rb : Text) → ℕ → (es pt dn : Text) → ℕ → Text → ℕ → Text → CdcParts
parts_from dt rb dv es pt dn tx da et sc = record {
  document_type = dt;
  ruc_base = rb;
  ruc_dv = dv;
  establishment = es;
  point = pt;
  document_number = dn;
  taxpayer_type = tx;
  issue_date = da;
  emission_type = et;
  security_code = sc;
}

pub check_parts-IsChecked : (parts f : CdcParts) → check_parts parts ≡ ok f → IsChecked parts f
unfolding check_parts
check_parts-IsChecked parts f h0 =
    let (dt, e1, h1) = >>=-eq-ok (digits document_type parts.document_type 1 8 2) _ h0 in
    let (rb, e2, h2) = >>=-eq-ok (digits ruc_base parts.ruc_base 0 99999999 8) _ h1 in
    let (r, e3, h3) =
      >>=-eq-ok (map_err (λ _. invalid ruc_dv dv_mismatch) (create_ruc rb parts.ruc_dv)) _ h2 in
    let (es, e4, h4) = >>=-eq-ok (digits establishment parts.establishment 1 999 3) _ h3 in
    let (pt, e5, h5) = >>=-eq-ok (digits point parts.point 1 999 3) _ h4 in
    let (dn, e6, h6) = >>=-eq-ok (digits document_number parts.document_number 1 9999999 7) _ h5 in
    let (tx, e7, h7) = >>=-eq-ok (one_of taxpayer_type parts.taxpayer_type (1 ∷ 2 ∷ [])) _ h6 in
    let (da, e8, h8) = >>=-eq-ok (compact_date parts.issue_date) _ h7 in
    let (et, e9, h9) = >>=-eq-ok (one_of emission_type parts.emission_type (1 ∷ 2 ∷ [])) _ h8 in
    let (sc, e10, h10) = >>=-eq-ok (digits security_code parts.security_code 1 999999999 9) _ h9 in
    let (_, e11, h11) =
      >>=-eq-ok
        (guard (not (number sc == number dn)) (invalid security_code equals_document_number)) _
        h10 in
    let checked : IsChecked parts (parts_from dt rb parts.ruc_dv es pt dn tx da et sc) = record {
      type_in = digits-IsField _ _ _ _ _ _ e1;
      base_in = digits-IsField _ _ _ _ _ _ e2;
      ruc = r;
      ruc_made = map_err-eq-ok _ _ e3;
      dv_same = refl;
      establishment_in = digits-IsField _ _ _ _ _ _ e4;
      point_in = digits-IsField _ _ _ _ _ _ e5;
      number_in = digits-IsField _ _ _ _ _ _ e6;
      taxpayer_in = e7;
      date_in = e8;
      emission_in = e9;
      code_in = digits-IsField _ _ _ _ _ _ e10;
      code_differs = ground arith;
    } in
    subst (IsChecked parts) (ok-injective h11) checked

pub IsChecked-check_parts : (parts f : CdcParts) → IsChecked parts f → check_parts parts ≡ ok f
unfolding check_parts
IsChecked-check_parts parts f c = rw (
  IsField-digits document_type _ _ _ _ _ c.type_in,
  IsField-digits ruc_base _ _ _ _ _ c.base_in,
  c.ruc_made,
  IsField-digits establishment _ _ _ _ _ c.establishment_in,
  IsField-digits point _ _ _ _ _ c.point_in,
  IsField-digits document_number _ _ _ _ _ c.number_in,
  c.taxpayer_in,
  c.date_in,
  c.emission_in,
  IsField-digits security_code _ _ _ _ _ c.code_in,
  ==_false _ _ c.code_differs,
  ← c.dv_same,
)
