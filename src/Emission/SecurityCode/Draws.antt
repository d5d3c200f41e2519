-- ===== src/Emission/SecurityCode/Draws.antt =====
-- Which draws become a code, and which code.
use facturacion_sifen.Prelude.{
  ℕ, zero, suc, ◌+◌, ◌-◌, ◌*◌, ◌/◌, ◌%◌, ◌≤◌, ◌<◌, ◌≡◌, ◌≢◌, ◌⊎◌, ◌↔◌, inl, inr, sym, subst,
  ==_false, ltb-false, ◌∙◌, arith, true, false, some, ok, leb, ◌==◌, Text, is_digit, digits_between,
  digits_between-intro, number, number-pad_start, show, pad_start, length, length-append,
  length-replicate, replicate, all-append, all_zeros, Bool-cases,
}
use facturacion_sifen.Decimal.Numerals.{show-all, number-show, length-show}
use facturacion_sifen.Emission.SecurityCode.{
  code_space, accept_below, parse_document_number, draw_code, generate_security_code,
}

-- A draw that the loop does not reject.
abbrev pub Accepts : (forbidden draw : ℕ) → Type 0
Accepts forbidden draw = (draw < 4000000000) × (draw % 1000000000 ≢ forbidden)

-- Each code comes from exactly four of the draws that are accepted, so all are equally likely.
pub accepted_draws :
    (code draw : ℕ)
    → code < code_space
    → ((draw < accept_below) × (draw % code_space ≡ code)) ↔ (
        (draw ≡ code)
        ⊎ ((draw ≡ code + 1000000000) ⊎ ((draw ≡ code + 2000000000) ⊎ (draw ≡ code + 3000000000))))
accepted_draws code draw h =
    (λ (lo, e). four (draw / 1000000000) (omega arith) (omega arith), λ c. ground arith)
  where
    four :
        (q : ℕ)
        → q < 4
        → draw ≡ q * 1000000000 + code
        → ((draw ≡ code)
            ⊎ ((draw ≡ code + 1000000000)
                ⊎ ((draw ≡ code + 2000000000) ⊎ (draw ≡ code + 3000000000))))
    four q l e = ground arith

-- Nine digits, with the value of the draw.
code_digits : (n : ℕ) → n < 1000000000 → digits_between 9 9 (pad_start 9 b'0' (show n)) ≡ true
code_digits n h =
    digits_between-intro 9 (pad_start 9 b'0' (show n))
      (rw (
        all-append is_digit (replicate (9 - length (show n)) b'0') (show n),
        all_zeros (9 - length (show n)),
        show-all n,
      ))
      (let zero_code : ℕ = b'0' in
        omega (
          arith,
          length-append (replicate (9 - length (show n)) zero_code) (show n),
          length-replicate (9 - length (show n)) zero_code,
          length-show n 8 h,
        ))

draw_code_found :
    (draws : ℕ → ℕ) (forbidden fuel i j : ℕ)
    → j < fuel
    → Accepts forbidden (draws (i + j))
    → (code : Text) × (draw_code draws forbidden fuel i ≡ some code)
unfolding draw_code
draw_code_found draws forbidden zero i j h a = absurd (omega arith)
draw_code_found draws forbidden (suc fuel) i zero h a =
    let at_i : Accepts forbidden (draws i) =
      subst (λ n. Accepts forbidden (draws n)) (let e : i + 0 ≡ i = omega arith in e) a in
    (
      pad_start 9 b'0' (show (draws i % code_space)),
      rw (small at_i, ==_false (draws i % code_space) forbidden at_i.1),
    )
  where
    small : Accepts forbidden (draws i) → leb accept_below (draws i) ≡ false
    small k = ground arith
draw_code_found draws forbidden (suc fuel) i (suc j) h a =
    let later = draw_code_found draws forbidden fuel (i + 1) j (omega arith) (
      subst (λ n. Accepts forbidden (draws n)) (let e : i + suc j ≡ i + 1 + j = omega arith in e)
        a) in
    elim (Bool-cases (leb accept_below (draws i))) [
      | inl big ↦ rw big later
      | inr small ↦ elim (Bool-cases (draws i % code_space == forbidden)) [
        | inl same ↦ rw (small, same) later
        | inr other ↦ (pad_start 9 b'0' (show (draws i % code_space)), rw (small, other))
      ]
    ]

draw_code_of :
    (draws : ℕ → ℕ) (forbidden fuel i : ℕ) (code : Text)
    → draw_code draws forbidden fuel i ≡ some code
    → (digits_between 9 9 code ≡ true) × (number code ≢ forbidden)
unfolding draw_code
draw_code_of draws forbidden zero i code h = cc
draw_code_of draws forbidden (suc fuel) i code h =
    let later = draw_code_of draws forbidden fuel (i + 1) code in
    elim (Bool-cases (leb accept_below (draws i))) [
      | inl big ↦ later (rw big at h)
      | inr small ↦ elim (Bool-cases (draws i % code_space == forbidden)) [
        | inl same ↦ later (rw (small, same) at h)
        | inr other ↦
            subst (λ c. (digits_between 9 9 c ≡ true) × (number c ≢ forbidden))
              (some_eq _ _ (rw (small, other) at h))
              (
                code_digits (draws i % code_space) (omega arith),
                differs (draws i % code_space) other,
              )
      ]
    ]
  where
    some_eq : (a b : Text) → some a ≡ some b → a ≡ b
    some_eq a b e = cc

    differs : (n : ℕ) → (n == forbidden) ≡ false → number (pad_start 9 b'0' (show n)) ≢ forbidden
    differs n e f =
        let same : n ≡ forbidden = sym (number-show n) ∙ sym (number-pad_start 9 (show n)) ∙ f in
        ground arith

-- For a document number of 1 to 7 digits that is not zero, once a draw is accepted, with enough fuel
-- to come to it, the function gives a code; it has nine digits and is not the number of the document.
pub generate_security_code-different :
    (text : Text) (draws : ℕ → ℕ) (fuel j : ℕ)
    → digits_between 1 7 text ≡ true
    → 1 ≤ number text
    → j < fuel
    → Accepts (number text) (draws j)
    → (code : Text) × (generate_security_code text draws fuel ≡ ok (some code))
      × (digits_between 9 9 code ≡ true)
      × (number code ≢ number text)
unfolding generate_security_code parse_document_number
generate_security_code-different text draws fuel j h lo enough a =
    let (code, found) =
      draw_code_found draws (number text) fuel 0 j enough
        (subst (λ n. Accepts (number text) (draws n)) (let e : j ≡ 0 + j = omega arith in e) a) in
    let (nine, other) = draw_code_of draws (number text) fuel 0 code found in
    (code, rw (h, ltb-false (number text) 1 lo, found), nine, other)
