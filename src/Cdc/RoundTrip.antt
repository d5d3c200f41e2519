-- ===== src/Cdc/RoundTrip.antt =====
-- `buildCdc` on the parts that `parseCdc` returns.
use facturacion_sifen.Prelude.{
  ℕ, ◌+◌, ◌-◌, ◌*◌, ◌≤◌, ◌≡◌, sym, ap, ap₂, ◌∙◌, ◌≡⟨◌⟩◌, ◌∎, List, [], ◌∷◌, ◌++◌, arith, Text, true,
  ok, >>=-eq-ok, ok-injective, guard, guard-eq-ok, all, is_digit, digit, digits_between, number,
  show, show_digit, length, digits_between-all, digits_between-length, slice, slice-append,
  length-slice, all-slice, take-all, ◌==◌, ==_iff, Bool-cases, inl, inr,
}
use facturacion_sifen.Ruc.Checksum.{sum_of}
use facturacion_sifen.Ruc.{check_digit_of}
use facturacion_sifen.Cdc.{
  CdcField, CdcParts, one_of, check_parts, join_parts, compute_cdc_check_digit, build_cdc, parts_of,
  parse_cdc, cdc, invalid, expected_44_digits, check_digit_mismatch,
}
use facturacion_sifen.Cdc.Fields.{IsField-same, IsChecked, check_parts-IsChecked}
use facturacion_sifen.Cdc.Dates.{compact_date-dashed}

-- A CDC that `buildCdc` returns, taken apart.
pub record IsBuilt (p : CdcParts) (s : Text) : Type 0 where
  pub fields : CdcParts
  pub checked : IsChecked p fields
  pub base_digits : digits_between 43 43 (join_parts fields) ≡ true
  pub dv : ℕ
  pub dv_is : dv ≡ check_digit_of (sum_of (join_parts fields))
  pub joined : s ≡ join_parts fields ++ show dv

compute_cdc_check_digit-eq-ok :
    (s : Text) (dv : ℕ)
    → compute_cdc_check_digit s ≡ ok dv
    → (digits_between 43 43 s ≡ true) × (dv ≡ check_digit_of (sum_of s))
unfolding compute_cdc_check_digit
compute_cdc_check_digit-eq-ok s dv h = elim (Bool-cases (digits_between 43 43 s)) [
  | inl good ↦ (good, ground arith)
  | inr bad ↦ absurd (ground arith)
]

pub compute_cdc_check_digit_complete :
    (s : Text)
    → digits_between 43 43 s ≡ true
    → compute_cdc_check_digit s ≡ ok (check_digit_of (sum_of s))
unfolding compute_cdc_check_digit
compute_cdc_check_digit_complete s h = rw h

pub build_cdc-IsBuilt : (p : CdcParts) (s : Text) → build_cdc p ≡ ok s → IsBuilt p s
unfolding build_cdc
build_cdc-IsBuilt p s h0 =
    let (f, e1, h1) = >>=-eq-ok (check_parts p) _ h0 in
    let (dv, e2, h2) = >>=-eq-ok (compute_cdc_check_digit (join_parts f)) _ h1 in
    let (good, dv_is) = compute_cdc_check_digit-eq-ok _ dv e2 in
    record {
      fields = f;
      checked = check_parts-IsChecked p f e1;
      base_digits = good;
      dv = dv;
      dv_is = dv_is;
      joined = sym (ok-injective h2);
    }

-- What `parseCdc` has checked.
pub record IsParsed (s : Text) (p : CdcParts) : Type 0 where
  pub all_digits : digits_between 44 44 s ≡ true
  pub base_digits : digits_between 43 43 (slice s 0 43) ≡ true
  pub dv_is : number (slice s 43 44) ≡ check_digit_of (sum_of (slice s 0 43))
  pub rebuilt : Text
  pub built : build_cdc (parts_of s) ≡ ok rebuilt
  pub parts : p ≡ parts_of s

pub parse_cdc-IsParsed : (s : Text) (p : CdcParts) → parse_cdc s ≡ ok p → IsParsed s p
unfolding parse_cdc
parse_cdc-IsParsed s p h0 =
    let (_, e1, h1) =
      >>=-eq-ok (guard (digits_between 44 44 s) (invalid cdc expected_44_digits)) _ h0 in
    let (dv, e2, h2) = >>=-eq-ok (compute_cdc_check_digit (slice s 0 43)) _ h1 in
    let (_, e3, h3) =
      >>=-eq-ok (guard (dv == number (slice s 43 44)) (invalid cdc check_digit_mismatch)) _ h2 in
    let (b, e4, h4) = >>=-eq-ok (build_cdc (parts_of s)) _ h3 in
    let (good, dv_is) = compute_cdc_check_digit-eq-ok _ dv e2 in
    record {
      all_digits = guard-eq-ok _ _ e1;
      base_digits = good;
      dv_is = sym ((==_iff _ _).0 (guard-eq-ok _ _ e3)) ∙ dv_is;
      rebuilt = b;
      built = e4;
      parts = sym (ok-injective h4);
    }

pub one_of-same : (f : CdcField) (v : ℕ) (l : List ℕ) (r : ℕ) → one_of f v l ≡ ok r → r ≡ v
unfolding one_of
one_of-same f v l r h = ground arith

-- A text of one digit is the text of its number.
pub show-number_digit : (t : Text) → length t ≡ 1 → all is_digit t ≡ true → show (number t) ≡ t
unfolding number
show-number_digit [] l h = absurd (omega arith)
show-number_digit (c ∷ []) l h =
    show_digit (0 * 10 + digit c) (ground arith) ∙ ap (λ (n : ℕ). n ∷ []) (ground arith)
show-number_digit (c ∷ d ∷ t) l h = absurd (omega arith)

-- The slices of `parts_of`, put together.
slices_join :
    (s : Text)
    → slice s 0 2
        ++ (slice s 2 10
            ++ (slice s 10 11
                ++ (slice s 11 14
                    ++ (slice s 14 17
                        ++ (slice s 17 24
                            ++ (slice s 24 25
                                ++ ((slice s 25 29 ++ (slice s 29 31 ++ slice s 31 33))
                                    ++ (slice s 33 34 ++ slice s 34 43))))))))
      ≡ slice s 0 43
slices_join s = rw (
  slice-append s 33 34 43 (omega arith) (omega arith),
  slice-append s 29 31 33 (omega arith) (omega arith),
  slice-append s 25 29 33 (omega arith) (omega arith),
  slice-append s 25 33 43 (omega arith) (omega arith),
  slice-append s 24 25 43 (omega arith) (omega arith),
  slice-append s 17 24 43 (omega arith) (omega arith),
  slice-append s 14 17 43 (omega arith) (omega arith),
  slice-append s 11 14 43 (omega arith) (omega arith),
  slice-append s 10 11 43 (omega arith) (omega arith),
  slice-append s 2 10 43 (omega arith) (omega arith),
  slice-append s 0 2 43 (omega arith) (omega arith),
)

module _ (s : Text) (long : digits_between 44 44 s ≡ true) where
  slice_digits : (a b : ℕ) → all is_digit (slice s a b) ≡ true
  slice_digits a b = all-slice is_digit s a b (digits_between-all 44 44 s long)

  cut_size : (a b : ℕ) → a ≤ b → b ≤ 44 → length (slice s a b) ≡ b - a
  cut_size a b h k = length-slice s a b h (omega (arith, digits_between-length 44 s long))

  -- Of the slices of a CDC, `buildCdc` makes its first 43 digits.
  join_parts-parts_of : (f : CdcParts) → IsChecked (parts_of s) f → join_parts f ≡ slice s 0 43
  unfolding join_parts parts_of
  join_parts-parts_of f c =
      rw
        (
          IsField-same c.type_in (cut_size 0 2 (omega arith) (omega arith)),
          IsField-same c.base_in (cut_size 2 10 (omega arith) (omega arith)),
          c.dv_same,
          show-number_digit (slice s 10 11) (cut_size 10 11 (omega arith) (omega arith))
              (slice_digits 10 11),
          IsField-same c.establishment_in (cut_size 11 14 (omega arith) (omega arith)),
          IsField-same c.point_in (cut_size 14 17 (omega arith) (omega arith)),
          IsField-same c.number_in (cut_size 17 24 (omega arith) (omega arith)),
          one_of-same _ _ _ _ c.taxpayer_in,
          show-number_digit (slice s 24 25) (cut_size 24 25 (omega arith) (omega arith))
              (slice_digits 24 25),
          compact_date-dashed (slice s 25 29) (slice s 29 31) (slice s 31 33) f.issue_date
              (cut_size 25 29 (omega arith) (omega arith))
              (cut_size 29 31 (omega arith) (omega arith))
              (cut_size 31 33 (omega arith) (omega arith)) (slice_digits 25 29) (slice_digits 29 31)
              (slice_digits 31 33) c.date_in,
          one_of-same _ _ _ _ c.emission_in,
          show-number_digit (slice s 33 34) (cut_size 33 34 (omega arith) (omega arith))
              (slice_digits 33 34),
          IsField-same c.code_in (cut_size 34 43 (omega arith) (omega arith)),
        )
        (slices_join s)

-- A CDC that `parseCdc` accepts is built again from the parts that it returns.
pub build_cdc-parse_cdc : (s : Text) (p : CdcParts) → parse_cdc s ≡ ok p → build_cdc p ≡ ok s
build_cdc-parse_cdc s p h =
    let i = parse_cdc-IsParsed s p h in
    let b = build_cdc-IsBuilt (parts_of s) i.rebuilt i.built in
    let base_is = join_parts-parts_of s i.all_digits b.fields b.checked in
    let dv_same : b.dv ≡ number (slice s 43 44) =
      b.dv_is ∙ ap (λ t. check_digit_of (sum_of t)) base_is ∙ sym i.dv_is in
    let long = digits_between-length 44 s i.all_digits in
    build_cdc p
    ≡⟨ ap build_cdc i.parts ∙ i.built ⟩ ok i.rebuilt
    ≡⟨ ap ok b.joined ⟩ ok (join_parts b.fields ++ show b.dv)
    ≡⟨ ap₂ (λ t n. ok (t ++ show n)) base_is dv_same ⟩
      ok (slice s 0 43 ++ show (number (slice s 43 44)))
    ≡⟨ ap (λ t. ok (slice s 0 43 ++ t))
        (show-number_digit (slice s 43 44)
          (cut_size s i.all_digits 43 44 (omega arith) (omega arith))
          (slice_digits s i.all_digits 43 44)) ⟩
      ok (slice s 0 43 ++ slice s 43 44)
    ≡⟨ ap ok (slice-append s 0 43 44 (omega arith) (omega arith) ∙ take-all 44 s long) ⟩ ok s ∎
