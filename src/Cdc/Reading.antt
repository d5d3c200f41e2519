-- ===== src/Cdc/Reading.antt =====
-- `parseCdc` on what `buildCdc` has written.
use facturacion_sifen.Prelude.{
  ℕ, ◌+◌, ◌<◌, ◌≡◌, refl, sym, ap, ◌∙◌, [], ◌∷◌, ◌++◌, arith, Text, true, ok, ok-injective, all,
  all-append, is_digit, digits_between, digits_between-all, digits_between-length,
  digits_between-intro, number, show, show_digit, length, length-append, slice, take, take-append,
  ==_refl, append_assoc,
}
use facturacion_sifen.Ruc.{check_digit_of, create_ruc}
use facturacion_sifen.Ruc.Checksum.{sum_of, check_digit_of-lt}
use facturacion_sifen.Ruc.Detection.{create_ruc-eq-ok}
use facturacion_sifen.Cdc.{
  CdcField, CdcParts, one_of, check_parts, join_parts, build_cdc, parts_of, parse_cdc,
  taxpayer_type, emission_type,
}
use facturacion_sifen.Cdc.Fields.{IsField-length, IsField-again, IsChecked, IsChecked-check_parts}
use facturacion_sifen.Cdc.Dates.{IsDate, compact_date-IsDate}
use facturacion_sifen.Cdc.RoundTrip.{
  IsBuilt, build_cdc-IsBuilt, compute_cdc_check_digit_complete, one_of-same,
}
use facturacion_sifen.Cdc.Cuts

number-show_digit : (n : ℕ) → n < 10 → number (show n) ≡ n
unfolding number
number-show_digit n h = ap number (show_digit n h) ∙ number_of n
  where
    number_of : (k : ℕ) → number ((b'0' + k) ∷ []) ≡ k
    number_of k = omega arith

length-show_digit : (n : ℕ) → n < 10 → length (show n) ≡ 1
length-show_digit n h = ap length (show_digit n h)

one_of-two : (f : CdcField) (v r : ℕ) → one_of f v (1 ∷ 2 ∷ []) ≡ ok r → r < 10
unfolding one_of
one_of-two f v r h = ground arith

-- The parts that come back: padded, but for the date, which keeps its dashes.
abbrev pub padded : CdcParts → CdcParts → CdcParts
padded p f = record f { issue_date = p.issue_date }

padded-IsChecked : (p f : CdcParts) → IsChecked p f → IsChecked (padded p f) f
padded-IsChecked p f c = record {
  type_in = IsField-again c.type_in;
  base_in = IsField-again c.base_in;
  ruc = c.ruc;
  ruc_made = ap (λ n. create_ruc f.ruc_base n) c.dv_same ∙ c.ruc_made;
  dv_same = refl;
  establishment_in = IsField-again c.establishment_in;
  point_in = IsField-again c.point_in;
  number_in = IsField-again c.number_in;
  taxpayer_in = again taxpayer_type _ _ c.taxpayer_in;
  date_in = c.date_in;
  emission_in = again emission_type _ _ c.emission_in;
  code_in = IsField-again c.code_in;
  code_differs = c.code_differs;
}
  where
    again :
        (g : CdcField) (v r : ℕ) → one_of g v (1 ∷ 2 ∷ []) ≡ ok r → one_of g r (1 ∷ 2 ∷ []) ≡ ok r
    again g v r h = ap (λ n. one_of g n (1 ∷ 2 ∷ [])) (one_of-same g v _ r h) ∙ h

module _ (p : CdcParts) (s : Text) (b : IsBuilt p s) where
  date : IsDate p.issue_date b.fields.issue_date
  date = compact_date-IsDate p.issue_date b.fields.issue_date b.checked.date_in

  dv_lt : b.dv < 10
  dv_lt = omega (arith, b.dv_is, check_digit_of-lt (sum_of (join_parts b.fields)))

  ruc_dv_lt : b.fields.ruc_dv < 10
  ruc_dv_lt = omega (
    arith,
    b.checked.dv_same,
    (create_ruc-eq-ok _ _ _ b.checked.ruc_made).1,
    check_digit_of-lt (sum_of b.fields.ruc_base),
  )

  abbrev pieces : Cuts.Pieces
  pieces = record {
    dt = b.fields.document_type;
    rb = b.fields.ruc_base;
    dv = show b.fields.ruc_dv;
    es = b.fields.establishment;
    pt = b.fields.point;
    dn = b.fields.document_number;
    tx = show b.fields.taxpayer_type;
    y = date.year;
    m = date.month;
    d = date.day;
    et = show b.fields.emission_type;
    sc = b.fields.security_code;
    cd = show b.dv;
    dt_width = IsField-length b.checked.type_in;
    rb_width = IsField-length b.checked.base_in;
    dv_width = length-show_digit _ ruc_dv_lt;
    es_width = IsField-length b.checked.establishment_in;
    pt_width = IsField-length b.checked.point_in;
    dn_width = IsField-length b.checked.number_in;
    tx_width = length-show_digit _ (one_of-two _ _ _ b.checked.taxpayer_in);
    y_width = date.split.lengths.0;
    m_width = date.split.lengths.1;
    d_width = date.split.lengths.2;
    et_width = length-show_digit _ (one_of-two _ _ _ b.checked.emission_in);
    sc_width = IsField-length b.checked.code_in;
    cd_width = length-show_digit _ dv_lt;
  }

  whole-pieces : s ≡ Cuts.whole pieces
  unfolding join_parts
  whole-pieces = b.joined ∙ rw date.compacted (simp append_assoc)

  parts_of-built : parts_of s ≡ padded p b.fields
  unfolding parts_of
  parts_of-built = rw (
    whole-pieces,
    Cuts.slice-dt pieces,
    Cuts.slice-rb pieces,
    Cuts.slice-dv pieces,
    Cuts.slice-es pieces,
    Cuts.slice-pt pieces,
    Cuts.slice-dn pieces,
    Cuts.slice-tx pieces,
    Cuts.slice-y pieces,
    Cuts.slice-m pieces,
    Cuts.slice-d pieces,
    Cuts.slice-et pieces,
    Cuts.slice-sc pieces,
    number-show_digit _ ruc_dv_lt,
    number-show_digit _ (one_of-two _ _ _ b.checked.taxpayer_in),
    number-show_digit _ (one_of-two _ _ _ b.checked.emission_in),
    ← date.split.value_is,
  )

  slice-base : slice s 0 43 ≡ join_parts b.fields
  slice-base =
      ap (take 43) b.joined
      ∙ take-append 43 (join_parts b.fields) (show b.dv) (digits_between-length 43 _ b.base_digits)

  slice-dv : slice s 43 44 ≡ show b.dv
  slice-dv = ap (λ t. slice t 43 44) whole-pieces ∙ Cuts.slice-cd pieces

  all_digits : digits_between 44 44 s ≡ true
  all_digits = digits_between-intro 44 s (rw b.joined digits_too) (rw b.joined long)
    where
      long : length (join_parts b.fields ++ show b.dv) ≡ 44
      long = omega (
        arith,
        length-append (join_parts b.fields) (show b.dv),
        digits_between-length 43 (join_parts b.fields) b.base_digits,
        length-show_digit b.dv dv_lt,
      )

      show_digits : all is_digit (show b.dv) ≡ true
      show_digits = rw (show_digit b.dv dv_lt) (let small = dv_lt in ground arith)

      digits_too : all is_digit (join_parts b.fields ++ show b.dv) ≡ true
      digits_too = rw (
        all-append is_digit (join_parts b.fields) (show b.dv),
        digits_between-all 43 43 (join_parts b.fields) b.base_digits,
        show_digits,
      )

  built-again : build_cdc (parts_of s) ≡ ok s
  unfolding build_cdc
  built-again = rw (
    parts_of-built,
    IsChecked-check_parts _ _ (padded-IsChecked p b.fields b.checked),
    compute_cdc_check_digit_complete _ b.base_digits,
    ← b.dv_is,
    ← b.joined,
  )

  -- The CDC that is built is accepted, and gives the padded parts back.
  pub parse_cdc_of_IsBuilt : parse_cdc s ≡ ok (padded p b.fields)
  unfolding parse_cdc
  parse_cdc_of_IsBuilt = rw (
    all_digits,
    slice-base,
    compute_cdc_check_digit_complete _ b.base_digits,
    slice-dv,
    ==_refl (check_digit_of (sum_of (join_parts b.fields))) (number (show b.dv))
        (sym b.dv_is ∙ sym (number-show_digit _ dv_lt)),
    built-again,
    parts_of-built,
  )

-- Every CDC that `buildCdc` returns is accepted by `parseCdc`, which gives back the parts: the digit
-- fields padded with zeros to their widths, all else as it was given.
pub parse_cdc-build_cdc :
    (p f : CdcParts) (s : Text)
    → check_parts p ≡ ok f
    → build_cdc p ≡ ok s
    → parse_cdc s ≡ ok (padded p f)
parse_cdc-build_cdc p f s e h =
    let b = build_cdc-IsBuilt p s h in
    let same : b.fields ≡ f = ok-injective (sym (IsChecked-check_parts p b.fields b.checked) ∙ e) in
    parse_cdc_of_IsBuilt p s b ∙ ap (λ g. ok (padded p g)) same
