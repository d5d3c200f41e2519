-- ===== src/Decimal/Modes.antt =====
-- The quotient that each rounding mode of `divideRounded` chooses.
use facturacion_sifen.Prelude.{
  ℕ, zero, suc, ◌+◌, ◌*◌, ◌%◌, ◌≤◌, ◌<◌, ◌≡◌, ◌≢◌, ◌⊎◌, refl, sym, ap, ◌∙◌, arith, Bool, true,
  false, inl, inr,
}
use facturacion_sifen.Prelude.Int.{ℤ, pos, negsuc}
use facturacion_sifen.Decimal.{
  RoundingMode, truncate, floor, half_up, half_even, minus, neg_ℤ, absolute, divide_rounded,
}
use facturacion_sifen.Decimal.Rounding.{
  round_magnitude, minus_parts, divide_rounded-pos, divide_rounded-negsuc, over, under, IsNearest,
  IsTie, minus-over, magnitude_same, zero_magnitude, near_magnitude, half_up_magnitude,
  half_even_magnitude, half_even_tie, floor_down, floor_up, truncate_down,
}

abbrev pub RoundsHalf : RoundingMode → Type 0
RoundsHalf mode = (mode ≡ half_up) ⊎ (mode ≡ half_even)

half_magnitude :
    (n d : ℕ) (up : Bool) (mode : RoundingMode)
    → RoundsHalf mode
    → 0 < d
    → (2 * (round_magnitude up n d mode * d) ≤ 2 * n + d)
      × (2 * n ≤ 2 * (round_magnitude up n d mode * d) + d)
half_magnitude n d up mode (inl e) h = rw e (omega (arith, half_up_magnitude n d h up))
half_magnitude n d up mode (inr e) h = rw e (half_even_magnitude n d h up)

-- `half-up` and `half-even` give a nearest quotient: it is off by at most a half.
pub divide_rounded-IsNearest :
    (n : ℤ) (d : ℕ) (mode : RoundingMode)
    → RoundsHalf mode
    → 0 < d
    → IsNearest n d (divide_rounded n d mode)
divide_rounded-IsNearest (pos n) d mode m h =
    rw (divide_rounded-pos n d mode) (omega (arith, half_magnitude n d false mode m h))
divide_rounded-IsNearest (negsuc n) d mode m h =
    let (o, u) = minus-over n d (round_magnitude true (suc n) d mode) in
    rw (divide_rounded-negsuc n d mode, o, u)
      (omega (arith, half_magnitude (suc n) d true mode m h))

-- Where two quotients are equally near, `half-even` takes the even one, and `half-up` the one away
-- from zero.
pub divide_rounded-IsTie :
    (n : ℤ) (d : ℕ)
    → 0 < d
    → (IsTie n d (divide_rounded n d half_even) → absolute (divide_rounded n d half_even) % 2 ≡ 0)
      × (IsTie n d (divide_rounded n d half_up)
          → 2 * (absolute (divide_rounded n d half_up) * d) ≡ 2 * absolute n + d)
unfolding absolute
divide_rounded-IsTie (pos n) d h = (
  rw (divide_rounded-pos n d half_even) (λ t. half_even_tie n d h false (flip t)),
  rw (divide_rounded-pos n d half_up) (λ t. omega (arith, half_up_magnitude n d h false)),
)
  where
    flip :
        IsTie (pos n) d (pos (round_magnitude false n d half_even))
        → (2 * (round_magnitude false n d half_even * d) ≡ 2 * n + d)
          ⊎ (2 * n ≡ 2 * (round_magnitude false n d half_even * d) + d)
    flip (inl e) = inr (omega arith)
    flip (inr e) = inl (omega arith)
divide_rounded-IsTie (negsuc n) d h = (
  rw (divide_rounded-negsuc n d half_even) (
      let r = round_magnitude true (suc n) d half_even in
      rw ((minus-over n d r).0, (minus-over n d r).1, (minus_parts r).2)
        (λ t. half_even_tie (suc n) d h true t)),
  rw (divide_rounded-negsuc n d half_up) (
      let r = round_magnitude true (suc n) d half_up in
      rw ((minus-over n d r).0, (minus-over n d r).1, (minus_parts r).2)
        (λ t. omega (arith, half_up_magnitude (suc n) d h true))),
)

-- `floor` gives the greatest integer that is not above the quotient; `truncate` goes toward zero.
pub divide_rounded_directed :
    (n : ℤ) (d : ℕ)
    → 0 < d
    → (under n d (divide_rounded n d floor) ≤ over n d (divide_rounded n d floor))
      × (over n d (divide_rounded n d floor) < under n d (divide_rounded n d floor) + d)
      × (absolute (divide_rounded n d truncate) * d ≤ absolute n)
      × (absolute n < absolute (divide_rounded n d truncate) * d + d)
unfolding absolute
divide_rounded_directed (pos n) d h =
    rw (divide_rounded-pos n d floor, divide_rounded-pos n d truncate)
      (omega (
        arith,
        floor_down n d h,
        truncate_down n d h false,
        near_magnitude n d h false floor,
        near_magnitude n d h false truncate,
      ))
divide_rounded_directed (negsuc n) d h =
    let r = round_magnitude true (suc n) d floor in
    let t = round_magnitude true (suc n) d truncate in
    rw
      (
        divide_rounded-negsuc n d floor,
        divide_rounded-negsuc n d truncate,
        (minus-over n d r).0,
        (minus-over n d r).1,
        (minus_parts t).2,
      )
      (omega (
        arith,
        floor_up (suc n) d h,
        truncate_down (suc n) d h true,
        near_magnitude (suc n) d h true floor,
        near_magnitude (suc n) d h true truncate,
      ))

neg_minus : (n : ℕ) → neg_ℤ (minus n) ≡ pos n
neg_minus zero = refl
neg_minus (suc n) = refl

-- Every mode but `floor` treats a number and its opposite alike.
pub divide_rounded-neg_ℤ :
    (n : ℤ) (d : ℕ) (mode : RoundingMode)
    → 0 < d
    → mode ≢ floor
    → divide_rounded (neg_ℤ n) d mode ≡ neg_ℤ (divide_rounded n d mode)
divide_rounded-neg_ℤ (pos zero) d mode p h =
    divide_rounded-pos 0 d mode
    ∙ ap pos (zero_magnitude d mode p)
    ∙ ap neg_ℤ (ap pos (sym (zero_magnitude d mode p)) ∙ sym (divide_rounded-pos 0 d mode))
divide_rounded-neg_ℤ (pos (suc n)) d mode p h =
    divide_rounded-negsuc n d mode
    ∙ ap minus (magnitude_same (suc n) d mode h)
    ∙ ap neg_ℤ (sym (divide_rounded-pos (suc n) d mode))
divide_rounded-neg_ℤ (negsuc n) d mode p h =
    divide_rounded-pos (suc n) d mode
    ∙ ap pos (sym (magnitude_same (suc n) d mode h))
    ∙ sym (neg_minus _)
    ∙ ap neg_ℤ (sym (divide_rounded-negsuc n d mode))
