-- ===== src/Decimal/Rounding.antt =====
-- Division with a rounding mode: `divideRounded`.
use native.Mathlib.Nat.{div-add-mod, mod-lt}
use facturacion_sifen.Prelude.{
  ℕ, zero, suc, ◌+◌, ◌*◌, ◌/◌, ◌%◌, ◌≤◌, ◌<◌, ◌≡◌, ◌≢◌, ◌⊎◌, refl, arith, Bool, true, false, ltb,
  leb, ◌==◌, ◌&&◌, not, if◌then◌else◌, inl, inr,
}
use facturacion_sifen.Prelude.Int.{ℤ, pos, negsuc, pos_part, neg_part}
use facturacion_sifen.Decimal.{
  RoundingMode, truncate, floor, half_up, half_even, minus, absolute, divide_rounded,
}

-- The rounding of a magnitude; `up` says whether `floor` goes away from zero.
pub round_magnitude : Bool → ℕ → ℕ → RoundingMode → ℕ
round_magnitude up n d mode = if n % d == 0 then n / d else elim mode [
  | truncate ↦ n / d
  | floor ↦ if up then n / d + 1 else n / d
  | half_up ↦ if leb d (n % d * 2) then n / d + 1 else n / d
  | half_even ↦
      if ltb d (n % d * 2)
      then n / d + 1
      else if (n % d * 2 == d) && not (n / d % 2 == 0)
      then n / d + 1
      else n / d
]

pub minus_parts :
    (n : ℕ) → (pos_part (minus n) ≡ 0) × (neg_part (minus n) ≡ n) × (absolute (minus n) ≡ n)
unfolding absolute
minus_parts zero = (refl, refl, refl)
minus_parts (suc n) = (refl, refl, refl)

pub divide_rounded-pos :
    (n d : ℕ) (mode : RoundingMode)
    → divide_rounded (pos n) d mode ≡ pos (round_magnitude false n d mode)
unfolding divide_rounded round_magnitude
divide_rounded-pos n d truncate = ground arith
divide_rounded-pos n d floor = ground arith
divide_rounded-pos n d half_up = ground arith
divide_rounded-pos n d half_even = ground arith

pub divide_rounded-negsuc :
    (n d : ℕ) (mode : RoundingMode)
    → divide_rounded (negsuc n) d mode ≡ minus (round_magnitude true (suc n) d mode)
unfolding divide_rounded round_magnitude
divide_rounded-negsuc n d truncate = ground arith
divide_rounded-negsuc n d floor = ground arith
divide_rounded-negsuc n d half_up = ground arith
divide_rounded-negsuc n d half_even = ground arith

-- What `q` times `d` lacks of `n`, and what it has above it, as two numbers with that difference.
abbrev pub over : ℤ → ℕ → ℤ → ℕ
over n d q = pos_part n + neg_part q * d

abbrev pub under : ℤ → ℕ → ℤ → ℕ
under n d q = neg_part n + pos_part q * d

-- |n - q * d| < d
abbrev pub IsNear : ℤ → ℕ → ℤ → Type 0
IsNear n d q = (over n d q < under n d q + d) × (under n d q < over n d q + d)

-- 2 * |n - q * d| ≤ d
abbrev pub IsNearest : ℤ → ℕ → ℤ → Type 0
IsNearest n d q = (2 * over n d q ≤ 2 * under n d q + d) × (2 * under n d q ≤ 2 * over n d q + d)

-- 2 * |n - q * d| ≡ d
abbrev pub IsTie : ℤ → ℕ → ℤ → Type 0
IsTie n d q = (2 * over n d q ≡ 2 * under n d q + d) ⊎ (2 * under n d q ≡ 2 * over n d q + d)

-- What the proofs below use of the quotient and the remainder.
parts : (n d : ℕ) → 0 < d → (n / d * d + n % d ≡ n) × (n % d < d)
parts n d h = (omega (arith, div-add-mod n d), mod-lt n h)

-- Which of the two quotients each mode takes.
module _ (n d : ℕ) (h : 0 < d) (up : Bool) where
  near_choice :
      (mode : RoundingMode)
      → (round_magnitude up n d mode ≡ n / d)
        ⊎ ((round_magnitude up n d mode ≡ n / d + 1) × (0 < n % d))
  unfolding round_magnitude
  near_choice truncate = ground arith
  near_choice floor = ground arith
  near_choice half_up = ground arith
  near_choice half_even = ground arith

  half_up_choice :
      ((round_magnitude up n d half_up ≡ n / d) × (2 * (n % d) < d))
      ⊎ ((round_magnitude up n d half_up ≡ n / d + 1) × (d ≤ 2 * (n % d)))
  unfolding round_magnitude
  half_up_choice = ground arith

  half_even_choice :
      ((round_magnitude up n d half_even ≡ n / d) × (2 * (n % d) < d))
      ⊎ ((round_magnitude up n d half_even ≡ n / d) × (2 * (n % d) ≡ d) × (n / d % 2 ≡ 0))
      ⊎ ((round_magnitude up n d half_even ≡ n / d + 1) × (d < 2 * (n % d)))
      ⊎ ((round_magnitude up n d half_even ≡ n / d + 1) × (2 * (n % d) ≡ d) × (n / d % 2 ≡ 1))
  unfolding round_magnitude
  half_even_choice = ground arith

  pub near_magnitude :
      (mode : RoundingMode)
      → (round_magnitude up n d mode * d < n + d) × (n < round_magnitude up n d mode * d + d)
  near_magnitude mode = elim (near_choice mode) [
    | inl e ↦ rw e (omega (arith, parts n d h))
    | inr (e, r) ↦ rw e (omega (arith, parts n d h))
  ]

  pub half_up_magnitude :
      (2 * (round_magnitude up n d half_up * d) ≤ 2 * n + d)
      × (2 * n < 2 * (round_magnitude up n d half_up * d) + d)
  half_up_magnitude = elim half_up_choice [
    | inl (e, r) ↦ rw e (omega (arith, parts n d h))
    | inr (e, r) ↦ rw e (omega (arith, parts n d h))
  ]

  pub half_even_magnitude :
      (2 * (round_magnitude up n d half_even * d) ≤ 2 * n + d)
      × (2 * n ≤ 2 * (round_magnitude up n d half_even * d) + d)
  half_even_magnitude = elim half_even_choice [
    | inl (e, r) ↦ rw e (omega (arith, parts n d h))
    | inr (inl (e, r, _)) ↦ rw e (omega (arith, parts n d h))
    | inr (inr (inl (e, r))) ↦ rw e (omega (arith, parts n d h))
    | inr (inr (inr (e, r, _))) ↦ rw e (omega (arith, parts n d h))
  ]

  -- In a tie the quotient is even.
  pub half_even_tie :
      ((2 * (round_magnitude up n d half_even * d) ≡ 2 * n + d)
        ⊎ (2 * n ≡ 2 * (round_magnitude up n d half_even * d) + d))
      → round_magnitude up n d half_even % 2 ≡ 0
  half_even_tie = elim half_even_choice [
    | inl (e, r) ↦ rw e (λ t. absurd (omega (arith, parts n d h)))
    | inr (inl (e, r, even)) ↦ rw e (λ t. even)
    | inr (inr (inl (e, r))) ↦ rw e (λ t. absurd (omega (arith, parts n d h)))
    | inr (inr (inr (e, r, odd))) ↦ rw e (λ t. omega arith)
  ]

module _ (n d : ℕ) (h : 0 < d) where
  pub floor_down : round_magnitude false n d floor * d ≤ n
  floor_down =
      let e : round_magnitude false n d floor ≡ n / d = unfold round_magnitude in ground arith in
      rw e (omega (arith, parts n d h))

  pub floor_up : n ≤ round_magnitude true n d floor * d
  floor_up = elim floor_choice [
    | inl (e, r) ↦ rw e (omega (arith, parts n d h))
    | inr e ↦ rw e (omega (arith, parts n d h))
  ]
    where
      floor_choice :
          ((round_magnitude true n d floor ≡ n / d) × (n % d ≡ 0))
          ⊎ (round_magnitude true n d floor ≡ n / d + 1)
      floor_choice = unfold round_magnitude in ground arith

  pub truncate_down : (up : Bool) → round_magnitude up n d truncate * d ≤ n
  truncate_down up =
      let e : round_magnitude up n d truncate ≡ n / d = unfold round_magnitude in ground arith in
      rw e (omega (arith, parts n d h))

pub magnitude_same :
    (n d : ℕ) (mode : RoundingMode)
    → mode ≢ floor
    → round_magnitude true n d mode ≡ round_magnitude false n d mode
unfolding round_magnitude
magnitude_same n d truncate h = refl
magnitude_same n d floor h = absurd (h refl)
magnitude_same n d half_up h = refl
magnitude_same n d half_even h = refl

pub zero_magnitude : (d : ℕ) (mode : RoundingMode) → 0 < d → round_magnitude false 0 d mode ≡ 0
zero_magnitude d mode h = omega (arith, near_choice 0 d h false mode, parts 0 d h)

-- From magnitudes to integers.
pub minus-over :
    (n d r : ℕ) → (over (negsuc n) d (minus r) ≡ r * d) × (under (negsuc n) d (minus r) ≡ suc n)
minus-over n d zero = (omega arith, omega arith)
minus-over n d (suc r) = (omega arith, omega arith)

-- Whatever the mode, the quotient is off by less than one.
pub divide_rounded-IsNear :
    (n : ℤ) (d : ℕ) (mode : RoundingMode) → 0 < d → IsNear n d (divide_rounded n d mode)
divide_rounded-IsNear (pos n) d mode h =
    rw (divide_rounded-pos n d mode) (omega (arith, near_magnitude n d h false mode))
divide_rounded-IsNear (negsuc n) d mode h =
    rw
      (
        divide_rounded-negsuc n d mode,
        (minus-over n d (round_magnitude true (suc n) d mode)).0,
        (minus-over n d (round_magnitude true (suc n) d mode)).1,
      )
      (omega (arith, near_magnitude (suc n) d h true mode))
