-- ===== src/Decimal/Arithmetic.antt =====
-- Products and roundings of decimals.
use native.Mathlib.Nat.{pow-suc}
use facturacion_sifen.Prelude.{
  ℕ, zero, suc, ◌-◌, ◌^◌, ◌≤◌, ◌<◌, ◌≡◌, ◌↔◌, sym, ap, ◌∙◌, arith, true, false, some, ok,
  ok-injective, ltb, Bool-cases, inl, inr,
}
use facturacion_sifen.Prelude.Int.{ℤ, pos, negsuc, ◌*ℤ◌}
use facturacion_sifen.Decimal.{
  Decimal, decimal, RoundingMode, factor, divide_rounded, quotient_of, remainder_of, is_zero_ℤ,
  multiply_exact, round_to, scale,
}
use facturacion_sifen.Decimal.Rounding.{IsNear, IsNearest, divide_rounded-IsNear}
use facturacion_sifen.Decimal.Modes.{RoundsHalf, divide_rounded-IsNearest}

exact_units :
    (raw c : ℤ)
    → (is_zero_ℤ (remainder_of raw factor) ≡ true) × (quotient_of raw factor ≡ c)
      ↔ (c *ℤ pos factor ≡ raw)
unfolding remainder_of quotient_of ◌*ℤ◌
exact_units (pos n) (pos m) = (λ h. ground arith, λ e. ground arith)
exact_units (pos n) (negsuc m) = (λ h. ground arith, λ e. ground arith)
exact_units (negsuc n) (pos m) = (λ h. ground arith, λ e. ground arith)
exact_units (negsuc n) (negsuc m) = (λ h. ground arith, λ e. ground arith)

units_of_some : (n : ℤ) (c : Decimal) → some (decimal n) ≡ some c → n ≡ c.units
units_of_some n c h = cc

-- `multiplyExact` gives the product exactly when a decimal is it.
pub multiply_exact_iff :
    (a b c : Decimal) → (multiply_exact a b ≡ some c) ↔ (c.units *ℤ pos factor ≡ a.units *ℤ b.units)
unfolding multiply_exact
multiply_exact_iff a b c = elim (Bool-cases (is_zero_ℤ (remainder_of raw factor))) [
  | inl e ↦ (
    rw e (λ h. (exact_units raw c.units).0 (e, units_of_some _ _ h)),
    λ h. rw e (ap (λ n. some (decimal n)) ((exact_units raw c.units).1 h).1),
  )
  | inr e ↦ (rw e (λ h. cc), λ h. absurd (ground (arith, (exact_units raw c.units).1 h)))
]
  where
    raw : ℤ
    raw = a.units *ℤ b.units

pow_pos : (n : ℕ) → 0 < 10 ^ n
pow_pos zero = omega arith
pow_pos (suc n) = rw (pow-suc 10 n) (omega (arith, pow_pos n))

round_to_of_lt :
    (a : Decimal) (decimals : ℕ) (mode : RoundingMode)
    → ltb scale decimals ≡ false
    → round_to a decimals mode
      ≡ ok (
          decimal (
            divide_rounded a.units (10 ^ (scale - decimals)) mode *ℤ pos (10 ^ (scale - decimals))))
unfolding round_to
round_to_of_lt a decimals mode e = rw e

-- `roundTo` gives a multiple of the step of its decimals, less than a step away, and at most half a
-- step away under `half-up` and `half-even`.
pub round_to_bounds :
    (a r : Decimal) (decimals : ℕ) (mode : RoundingMode)
    → round_to a decimals mode ≡ ok r
    → (decimals ≤ scale)
      × ((q : ℤ) × (r.units ≡ q *ℤ pos (10 ^ (scale - decimals)))
          × IsNear a.units (10 ^ (scale - decimals)) q
          × (RoundsHalf mode → IsNearest a.units (10 ^ (scale - decimals)) q))
round_to_bounds a r decimals mode h = elim (Bool-cases (ltb scale decimals)) [
  | inl e ↦ absurd (unfold round_to in ground arith)
  | inr e ↦
      let rounded = sym (ok-injective (sym (round_to_of_lt a decimals mode e) ∙ h)) in
      (
        ground arith,
        (
          divide_rounded a.units (10 ^ (scale - decimals)) mode,
          ap (λ (d : Decimal). d.units) rounded,
          divide_rounded-IsNear _ _ mode (pow_pos (scale - decimals)),
          λ m. divide_rounded-IsNearest _ _ mode m (pow_pos (scale - decimals)),
        ),
      )
]
