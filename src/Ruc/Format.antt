-- ===== src/Ruc/Format.antt =====
-- Parsing and formatting a RUC, in either order.
use facturacion_sifen.Prelude.{
  ℕ, ◌+◌, ◌-◌, ◌<◌, ◌≡◌, sym, ap, ◌∙◌, ap₂, ◌≡⟨◌⟩◌, ◌∎, [], ◌∷◌, ◌++◌, some, arith, ok, Text,
  is_digit, digit, true, all, number, show_digit, inl, inr, Bool-cases, Option-cases,
  digits_between,
}
use facturacion_sifen.Ruc.{Ruc, create_ruc, parse_ruc, format_ruc, split_ruc, joined}
use facturacion_sifen.Ruc.Checksum.{sum_of, check_digit_of-lt}
use facturacion_sifen.Ruc.Detection.{create_ruc-eq-ok}

split_ruc-joined :
    (base : Text) (d : ℕ)
    → all is_digit base ≡ true
    → is_digit d ≡ true
    → split_ruc (base ++ b'-' ∷ d ∷ []) ≡ some (base, d ∷ [])
unfolding split_ruc
split_ruc-joined [] d h hd = ground arith
split_ruc-joined (c ∷ []) d h hd = ground arith
split_ruc-joined (c ∷ e ∷ cs) d h hd = ground (arith, split_ruc-joined (e ∷ cs) d)

-- What a text that matches is made of.
record IsSplit (raw base dv : Text) : Type 0 where
  last : ℕ
  dv_is : dv ≡ last ∷ []
  raw_is : raw ≡ base ++ b'-' ∷ last ∷ []
  last_digit : is_digit last ≡ true
  base_digits : all is_digit base ≡ true

split_ruc-IsSplit : (raw base dv : Text) → split_ruc raw ≡ some (base, dv) → IsSplit raw base dv
unfolding split_ruc
split_ruc-IsSplit [] base dv h = absurd (ground arith)
split_ruc-IsSplit (c ∷ []) base dv h = absurd (ground arith)
split_ruc-IsSplit (c ∷ d ∷ []) base dv h = record {
  last = d;
  dv_is = ground arith;
  raw_is = ground arith;
  last_digit = ground arith;
  base_digits = ground arith;
}
split_ruc-IsSplit (c ∷ d ∷ e ∷ cs) base dv h = elim (Option-cases (split_ruc (d ∷ e ∷ cs))) [
  | inl missed ↦ absurd (ground arith)
  | inr ((base', dv'), found) ↦
      let s = split_ruc-IsSplit (d ∷ e ∷ cs) base' dv' found in
      record {
        last = s.last;
        dv_is = ground (arith, s.dv_is);
        raw_is = ground (arith, s.raw_is);
        last_digit = s.last_digit;
        base_digits = ground (arith, s.base_digits);
      }
]

number_of_digit : (d : ℕ) → number (d ∷ []) ≡ digit d
unfolding number
number_of_digit d = omega arith

parse_ruc_of_split :
    (raw base : Text) (d : ℕ)
    → split_ruc raw ≡ some (base, d ∷ [])
    → digits_between 3 8 base ≡ true
    → parse_ruc raw ≡ create_ruc base (digit d)
unfolding parse_ruc
parse_ruc_of_split raw base d h good = ground (arith, number_of_digit d)

-- A RUC that `createRuc` accepts is read back from its text.
pub parse_ruc-format_ruc :
    (base : Text) (dv : ℕ) (r : Ruc) → create_ruc base dv ≡ ok r → parse_ruc (format_ruc r) ≡ ok r
unfolding format_ruc
parse_ruc-format_ruc base dv r h =
    let (good, dv_is, base_same, dv_same) = create_ruc-eq-ok base dv r h in
    let small : dv < 10 = omega (arith, check_digit_of-lt (sum_of base)) in
    let split = split_ruc-joined base (b'0' + dv) (ground arith) (ground arith) in
    parse_ruc (joined r.base r.dv)
    ≡⟨ ap₂ (λ b d. parse_ruc (joined b d)) base_same dv_same ⟩ parse_ruc (joined base dv)
    ≡⟨ ap (λ t. parse_ruc (base ++ b'-' ∷ t)) (show_digit dv small) ⟩
      parse_ruc (base ++ b'-' ∷ (b'0' + dv) ∷ [])
    ≡⟨ parse_ruc_of_split _ base (b'0' + dv) split good ⟩ create_ruc base (b'0' + dv - b'0')
    ≡⟨ ap (create_ruc base) (omega arith) ⟩ create_ruc base dv
    ≡⟨ h ⟩ ok r ∎

-- A text that `parseRuc` accepts is the text of its result.
pub format_ruc-parse_ruc : (raw : Text) (r : Ruc) → parse_ruc raw ≡ ok r → format_ruc r ≡ raw
unfolding format_ruc
format_ruc-parse_ruc raw r h = elim (Option-cases (split_ruc raw)) [
  | inl missed ↦ absurd (unfold parse_ruc in ground arith)
  | inr ((base, dv), found) ↦ same base dv found (split_ruc-IsSplit raw base dv found)
]
  where
    same :
        (base dv : Text)
        → split_ruc raw ≡ some (base, dv)
        → IsSplit raw base dv
        → joined r.base r.dv ≡ raw
    same base dv found s =
        let split : split_ruc raw ≡ some (base, s.last ∷ []) = rw (found, s.dv_is) in
        elim (Bool-cases (digits_between 3 8 base)) [
          | inl good ↦
              let (_, dv_is, base_same, dv_same) =
                create_ruc-eq-ok base (digit s.last) r
                  (sym (parse_ruc_of_split raw base s.last split good) ∙ h) in
              let small : digit s.last < 10 = ground (arith, s.last_digit) in
              joined r.base r.dv
              ≡⟨ ap₂ joined base_same dv_same ⟩ joined base (digit s.last)
              ≡⟨ ap (λ t. base ++ b'-' ∷ t) (show_digit (digit s.last) small) ⟩
                base ++ b'-' ∷ (b'0' + digit s.last) ∷ []
              ≡⟨ ap (λ (d : ℕ). base ++ b'-' ∷ d ∷ []) (ground (arith, s.last_digit)) ⟩
                base ++ b'-' ∷ s.last ∷ []
              ≡⟨ sym s.raw_is ⟩ raw ∎
          | inr bad ↦ absurd (unfold parse_ruc in ground (arith, s.base_digits))
        ]
