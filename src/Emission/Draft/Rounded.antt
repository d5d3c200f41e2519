-- ===== src/Emission/Draft/Rounded.antt =====
-- `isValidRounding`: the rounding that takes a total down to a multiple of 50 Gs.
use facturacion_sifen.Prelude.{
  ℕ, ◌+◌, ◌-◌, ◌*◌, ◌%◌, ◌≤◌, ◌<◌, ◌≡◌, ◌↔◌, refl, sym, ap, ◌∙◌, arith, Bool, true, false, not,
  some, ◌&&◌, ◌||◌, ◌==◌, if◌then◌else◌, ==_iff, &&-true,
}
use facturacion_sifen.Prelude.Int.{ℤ, pos, negsuc, ◌*ℤ◌, ◌-ℤ◌}
use facturacion_sifen.Decimal.{
  Decimal, decimal, factor, absolute, fits_in, decimal_places, is_negative, compare, subtract,
  multiply, divide, divide_rounded, equals, eq_ℤ, truncate,
}
use facturacion_sifen.Decimal.Modes.{divide_rounded_directed}
use facturacion_sifen.Decimal.Rounding.{round_magnitude, divide_rounded-pos}
use facturacion_sifen.Decimal.Fits.{decimal_places_zero}
use facturacion_sifen.Emission.Draft.{is_valid_rounding, rounding_step, is_less}

-- The quotient by the step, and its product by the step.
abbrev quotient : ℤ → Decimal
quotient n = decimal (divide_rounded ((n *ℤ pos factor) *ℤ pos 1) 5000000000 truncate)

abbrev product : ℤ → Decimal
product n = multiply (quotient n) rounding_step truncate

absolute-*ℤ : (a : ℤ) (n : ℕ) → absolute (a *ℤ pos n) ≡ absolute a * n
unfolding absolute ◌*ℤ◌
absolute-*ℤ (pos m) n = ground arith
absolute-*ℤ (negsuc m) n = ground arith

absolute-quotient :
    (n : ℤ)
    → (absolute (quotient n).units * 5000000000 ≤ absolute n * 100000000)
      × (absolute n * 100000000 < absolute (quotient n).units * 5000000000 + 5000000000)
absolute-quotient n = omega (
  arith,
  divide_rounded_directed ((n *ℤ pos factor) *ℤ pos 1) 5000000000 (omega arith),
  absolute-*ℤ (n *ℤ pos factor) 1,
  absolute-*ℤ n factor,
)

absolute-product :
    (n : ℤ)
    → (absolute (product n).units * 100000000 ≤ absolute (quotient n).units * 5000000000)
      × (absolute (quotient n).units * 5000000000
          < absolute (product n).units * 100000000 + 100000000)
unfolding multiply
absolute-product n = omega (
  arith,
  divide_rounded_directed ((quotient n).units *ℤ pos 5000000000) 100000000 (omega arith),
  absolute-*ℤ (quotient n).units 5000000000,
)

-- A quotient without decimals that multiplies back.
abbrev multiplies_back : ℤ → Bool
multiplies_back n = (decimal_places (quotient n) == 0) && equals (product n) (decimal n)

equals-units : (a b : Decimal) → (equals a b ≡ true) ↔ (a.units ≡ b.units)
unfolding equals
equals-units a b = of_units a.units b.units
  where
    of_units : (m n : ℤ) → (eq_ℤ m n ≡ true) ↔ (m ≡ n)
    of_units (pos m) (pos n) = (λ h. ground arith, λ h. ground arith)
    of_units (pos m) (negsuc n) = (λ h. ground arith, λ h. ground arith)
    of_units (negsuc m) (pos n) = (λ h. ground arith, λ h. ground arith)
    of_units (negsuc m) (negsuc n) = (λ h. ground arith, λ h. ground arith)

whole_iff : (d : Decimal) → ((decimal_places d == 0) ≡ true) ↔ (absolute d.units % factor ≡ 0)
whole_iff d = (
  λ h. (decimal_places_zero d).0 ((==_iff (decimal_places d) 0).0 h),
  λ h. (==_iff (decimal_places d) 0).1 ((decimal_places_zero d).1 h),
)

multiplies_back-multiple : (n : ℤ) → multiplies_back n ≡ true → absolute n % 5000000000 ≡ 0
multiplies_back-multiple n h =
    let (w, e) = &&-true (decimal_places (quotient n) == 0) (equals (product n) (decimal n)) h in
    omega (
      arith,
      (whole_iff (quotient n)).0 w,
      ap absolute ((equals-units (product n) (decimal n)).0 e),
      absolute-product n,
    )

times-natural : (u : ℤ) (m n : ℕ) → u ≡ pos m → u *ℤ pos n ≡ pos (m * n)
unfolding ◌*ℤ◌
times-natural (pos k) m n e = ground arith
times-natural (negsuc k) m n e = cc

divide_rounded-natural :
    (u : ℤ) (m d : ℕ) → u ≡ pos m → (k : ℕ) × (divide_rounded u d truncate ≡ pos k)
divide_rounded-natural u m d e = (
  round_magnitude false m d truncate,
  ap (λ u. divide_rounded u d truncate) e ∙ divide_rounded-pos m d truncate,
)

product-pos : (m : ℕ) → (k : ℕ) × ((product (pos m)).units ≡ pos k)
unfolding multiply
product-pos m =
    let (q, e) =
      divide_rounded-natural ((pos m *ℤ pos factor) *ℤ pos 1) ((m * factor) * 1) 5000000000 (
        times-natural (pos m *ℤ pos factor) (m * factor) 1 (times-natural (pos m) m factor refl)) in
    divide_rounded-natural ((quotient (pos m)).units *ℤ pos 5000000000) (q * 5000000000) 100000000
      (times-natural (quotient (pos m)).units q 5000000000 e)

multiple-multiplies_back : (m : ℕ) → m % 5000000000 ≡ 0 → multiplies_back (pos m) ≡ true
unfolding absolute
multiple-multiplies_back m h =
    let (k, e) = product-pos m in
    let even : absolute (quotient (pos m)).units % factor ≡ 0 =
      omega (arith, absolute-quotient (pos m)) in
    let same : k ≡ m =
      omega (arith, ap absolute e, absolute-product (pos m), absolute-quotient (pos m)) in
    rw
      (
        (whole_iff (quotient (pos m))).1 even,
        (equals-units (product (pos m)) (decimal (pos m))).1 (e ∙ ap pos same),
      )
      refl

gate :
    (negative less fits back : Bool)
    → ((if negative || not less then false else if not fits then false else back) ≡ true)
      ↔ (negative ≡ false) × (less ≡ true) × (fits ≡ true) × (back ≡ true)
gate true l f b = (λ h. cc, λ h. cc)
gate false false f b = (λ h. cc, λ h. cc)
gate false true false b = (λ h. cc, λ h. cc)
gate false true true b = (λ h. (refl, refl, refl, h), λ h. h.3)

below_step :
    (rounding : Decimal)
    → (is_negative rounding ≡ false) × (is_less (compare rounding rounding_step) ≡ true)
      ↔ ((r : ℕ) × (rounding.units ≡ pos r) × (r < 5000000000))
unfolding is_negative compare
below_step rounding = of_units rounding.units
  where
    of_units :
        (u : ℤ)
        → (is_negative (decimal u) ≡ false) × (is_less (compare (decimal u) rounding_step) ≡ true)
          ↔ ((r : ℕ) × (u ≡ pos r) × (r < 5000000000))
    of_units (pos r) = (λ h. (r, refl, ground arith), λ h. ground arith)
    of_units (negsuc r) = (λ h. absurd (ground arith), λ h. cc)

rest_of :
    (t r : ℕ) → r < 5000000000 → absolute (pos t -ℤ pos r) % 5000000000 ≡ 0 → r ≡ t % 5000000000
unfolding absolute ◌-ℤ◌
rest_of t r h e = ground arith

pub rest-pos : (t : ℕ) → pos t -ℤ pos (t % 5000000000) ≡ pos (t - t % 5000000000)
unfolding ◌-ℤ◌
rest-pos t = ground arith

-- A rounding is valid exactly when it is what the total exceeds the last multiple of 50 Gs by, and is
-- within its digits.
pub is_valid_rounding_iff :
    (t : ℕ) (rounding : Decimal) (decimals : ℕ)
    → (is_valid_rounding (decimal (pos t)) (some rounding) decimals ≡ true)
      ↔ (rounding.units ≡ pos (t % 5000000000)) × (fits_in rounding 2 decimals ≡ true)
unfolding is_valid_rounding divide subtract
is_valid_rounding_iff t rounding decimals = (
  λ h.
      let (n, l, f, b) = tests.0 h in
      let (r, e, small) = (below_step rounding).0 (n, l) in
      let back : multiplies_back (pos t -ℤ pos r) ≡ true =
        ap (λ u. multiplies_back (pos t -ℤ u)) (sym e) ∙ b in
      (e ∙ ap pos (rest_of t r small (multiplies_back-multiple (pos t -ℤ pos r) back)), f),
  λ h.
      let (n, l) = (below_step rounding).1 (t % 5000000000, h.0, omega arith) in
      tests.1 (
        n,
        l,
        h.1,
        ap (λ u. multiplies_back (pos t -ℤ u)) h.0
            ∙ ap multiplies_back (rest-pos t)
            ∙ multiple-multiplies_back (t - t % 5000000000) (omega arith),
      ),
)
  where
    tests :
        (is_valid_rounding (decimal (pos t)) (some rounding) decimals ≡ true)
        ↔ (is_negative rounding ≡ false)
          × (is_less (compare rounding rounding_step) ≡ true)
          × (fits_in rounding 2 decimals ≡ true)
          × (multiplies_back (pos t -ℤ rounding.units) ≡ true)
    tests =
        gate (is_negative rounding) (is_less (compare rounding rounding_step))
          (fits_in rounding 2 decimals) (multiplies_back (pos t -ℤ rounding.units))
