-- ===== src/Ruc/Checksum.antt =====
-- What the modulo-11 check digit detects: the loop `weighted_sum` and `check_digit_of`, which the RUC
-- and the CDC share.
use mathlib.Core.List.{reverse-append, reverse-cons}
use native.Mathlib.Decide.{ℕ_discrete}
use facturacion_sifen.Prelude.{
  ℕ, zero, suc, ◌+◌, ◌*◌, ◌%◌, ◌<◌, ◌≡◌, ◌≢◌, ap, ◌∙◌, List, [], ◌∷◌, ◌++◌, reverse, append_assoc,
  arith, Text, is_digit, digit, length, true, ◌≡⟨◌⟩◌, ◌∎, length-reverse,
}
use facturacion_sifen.Ruc.{weighted_sum, check_digit_of}

-- The weight of the digit that `n` digits follow.
abbrev pub weight : ℕ → ℕ
weight n = 2 + n % 10

weighted_sum-acc : (cs : List ℕ) (p s : ℕ) → weighted_sum cs p s ≡ s + weighted_sum cs p 0
unfolding weighted_sum
weighted_sum-acc [] p s = omega arith
weighted_sum-acc (c ∷ cs) p s = omega (
  arith,
  weighted_sum-acc cs (p + 1) (s + digit c * (2 + p % 10)),
  weighted_sum-acc cs (p + 1) (0 + digit c * (2 + p % 10)),
)

weighted_sum-append :
    (xs ys : List ℕ) (p s : ℕ)
    → weighted_sum (xs ++ ys) p s ≡ weighted_sum ys (length xs + p) (weighted_sum xs p s)
unfolding weighted_sum
weighted_sum-append [] ys p s = ap (λ q. weighted_sum ys q s) (omega arith)
weighted_sum-append (x ∷ xs) ys p s =
    weighted_sum-append xs ys (p + 1) (s + digit x * (2 + p % 10))
    ∙ ap (λ q. weighted_sum ys q (weighted_sum xs (p + 1) (s + digit x * (2 + p % 10))))
        (omega arith)

-- The sum over a base, read from its end, of which one digit is named.
abbrev pub sum_of : Text → ℕ
sum_of base = weighted_sum (reverse base) 0 0

pub rest_of : Text → Text → ℕ
rest_of pre post = weighted_sum (reverse post) 0 0 + weighted_sum (reverse pre) (length post + 1) 0

reverse-split :
    (pre post : Text) (x : ℕ) → reverse (pre ++ x ∷ post) ≡ reverse post ++ x ∷ reverse pre
reverse-split pre post x =
    reverse (pre ++ x ∷ post)
    ≡⟨ reverse-append pre (x ∷ post) ⟩ reverse (x ∷ post) ++ reverse pre
    ≡⟨ rw (reverse-cons x post) (append_assoc (reverse post) (x ∷ []) (reverse pre)) ⟩
      reverse post ++ x ∷ reverse pre ∎

sum_of-split :
    (pre post : Text) (x : ℕ)
    → sum_of (pre ++ x ∷ post) ≡ rest_of pre post + digit x * weight (length post)
unfolding weighted_sum rest_of
sum_of-split pre post x =
    weighted_sum (reverse (pre ++ x ∷ post)) 0 0
    ≡⟨ ap (λ l. weighted_sum l 0 0) (reverse-split pre post x) ⟩
      weighted_sum (reverse post ++ x ∷ reverse pre) 0 0
    ≡⟨ weighted_sum-append (reverse post) (x ∷ reverse pre) 0 0 ⟩
      weighted_sum (x ∷ reverse pre) (length (reverse post) + 0) (weighted_sum (reverse post) 0 0)
    ≡⟨ ap (λ q. weighted_sum (x ∷ reverse pre) q (weighted_sum (reverse post) 0 0))
        (omega (arith, length-reverse post)) ⟩
      weighted_sum (x ∷ reverse pre) (length post) (weighted_sum (reverse post) 0 0)
    ≡⟨ weighted_sum-acc (reverse pre) (length post + 1)
        (weighted_sum (reverse post) 0 0 + digit x * (2 + length post % 10)) ⟩
      weighted_sum (reverse post) 0 0
      + digit x * (2 + length post % 10)
      + weighted_sum (reverse pre) (length post + 1) 0
    ≡⟨ omega arith ⟩ rest_of pre post + digit x * weight (length post) ∎

-- A weight other than 11 tells the digits apart.
mod_step :
    (k s x y : ℕ)
    → k < 9
    → x < 10
    → y < 10
    → (s + x * (2 + k)) % 11 ≡ (s + y * (2 + k)) % 11
    → x ≡ y
mod_step zero s x y h hx hy e = omega arith
mod_step (suc zero) s x y h hx hy e = omega arith
mod_step (suc (suc zero)) s x y h hx hy e = omega arith
mod_step (suc (suc (suc zero))) s x y h hx hy e = omega arith
mod_step (suc (suc (suc (suc zero)))) s x y h hx hy e = omega arith
mod_step (suc (suc (suc (suc (suc zero))))) s x y h hx hy e = omega arith
mod_step (suc (suc (suc (suc (suc (suc zero)))))) s x y h hx hy e = omega arith
mod_step (suc (suc (suc (suc (suc (suc (suc zero))))))) s x y h hx hy e = omega arith
mod_step (suc (suc (suc (suc (suc (suc (suc (suc zero)))))))) s x y h hx hy e = omega arith
mod_step (suc (suc (suc (suc (suc (suc (suc (suc (suc k))))))))) s x y h hx hy e =
    absurd (omega arith)

-- The check digit is a decimal digit.
pub check_digit_of-lt : (sum : ℕ) → check_digit_of sum < 10
unfolding check_digit_of
check_digit_of-lt sum = ground arith

-- A check digit other than 0 gives the remainder away.
check_digit_of-inj :
    (a b : ℕ) → check_digit_of a ≡ check_digit_of b → check_digit_of a ≢ 0 → a % 11 ≡ b % 11
unfolding check_digit_of
check_digit_of-inj a b e h = ground arith

-- Replacing one digit of a base changes its check digit, unless both are 0 or the digit has the
-- weight 11 (nine digits follow it, or nineteen, …).
pub check_digit-single :
    (pre post : Text) (x y : ℕ)
    → is_digit x ≡ true
    → is_digit y ≡ true
    → x ≢ y
    → length post % 10 ≢ 9
    → check_digit_of (sum_of (pre ++ x ∷ post)) ≡ check_digit_of (sum_of (pre ++ y ∷ post))
    → check_digit_of (sum_of (pre ++ x ∷ post)) ≡ 0
check_digit-single pre post x y hx hy ne w e =
    elim (ℕ_discrete (check_digit_of (sum_of (pre ++ x ∷ post))) 0) [
      | yes z ↦ z
      | no nz ↦ absurd (ne (ground (arith, same_digit nz)))
    ]
  where
    same_digit : check_digit_of (sum_of (pre ++ x ∷ post)) ≢ 0 → digit x ≡ digit y
    same_digit nz =
        mod_step (length post % 10) (rest_of pre post) (digit x) (digit y) (omega arith)
          (ground arith) (ground arith)
          (rw (← sum_of-split pre post x, ← sum_of-split pre post y) (check_digit_of-inj _ _ e nz))

-- The check digit does not depend on a digit whose weight is 11.
pub check_digit-blind :
    (pre post : Text) (x y : ℕ)
    → length post % 10 ≡ 9
    → check_digit_of (sum_of (pre ++ x ∷ post)) ≡ check_digit_of (sum_of (pre ++ y ∷ post))
unfolding check_digit_of
check_digit-blind pre post x y w = ground (
  arith,
  sum_of-split pre post x,
  sum_of-split pre post y,
  ap (λ (k : ℕ). digit x * k) w,
  ap (λ (k : ℕ). digit y * k) w,
)

pub rest_of_two : Text → Text → ℕ
rest_of_two pre post =
    weighted_sum (reverse post) 0 0 + weighted_sum (reverse pre) (length post + 2) 0

sum_of-split_two :
    (pre post : Text) (x y : ℕ)
    → sum_of (pre ++ x ∷ y ∷ post)
      ≡ rest_of_two pre post + digit y * weight (length post) + digit x * weight (length post + 1)
unfolding rest_of rest_of_two weighted_sum
sum_of-split_two pre post x y =
    sum_of (pre ++ x ∷ y ∷ post)
    ≡⟨ sum_of-split pre (y ∷ post) x ⟩ rest_of pre (y ∷ post) + digit x * weight (suc (length post))
    ≡⟨ ap
        (λ (s : ℕ).
          s
          + weighted_sum (reverse pre) (suc (length post) + 1) 0
          + digit x * weight (suc (length post)))
        (sum_of-split [] post y) ⟩
      rest_of [] post
      + digit y * weight (length post)
      + weighted_sum (reverse pre) (suc (length post) + 1) 0
      + digit x * weight (suc (length post))
    ≡⟨ ap
        (λ (n : ℕ).
          rest_of [] post
          + digit y * weight (length post)
          + weighted_sum (reverse pre) (n + 1) 0
          + digit x * weight n)
        (omega arith) ⟩
      rest_of [] post
      + digit y * weight (length post)
      + weighted_sum (reverse pre) (length post + 1 + 1) 0
      + digit x * weight (length post + 1)
    ≡⟨ ap
        (λ (n : ℕ).
          rest_of [] post
          + digit y * weight (length post)
          + weighted_sum (reverse pre) n 0
          + digit x * weight (length post + 1))
        (omega arith) ⟩
      rest_of [] post
      + digit y * weight (length post)
      + weighted_sum (reverse pre) (length post + 2) 0
      + digit x * weight (length post + 1)
    ≡⟨ omega arith ⟩
      rest_of_two pre post + digit y * weight (length post) + digit x * weight (length post + 1) ∎

-- Neighbouring weights differ by 1, or by 9 at the wrap: they tell the order of two digits.
mod_swap :
    (k s x y : ℕ)
    → k < 10
    → x < 10
    → y < 10
    → (s + y * (2 + k) + x * (2 + (k + 1) % 10)) % 11
      ≡ (s + x * (2 + k) + y * (2 + (k + 1) % 10)) % 11
    → x ≡ y
mod_swap zero s x y h hx hy e = omega arith
mod_swap (suc zero) s x y h hx hy e = omega arith
mod_swap (suc (suc zero)) s x y h hx hy e = omega arith
mod_swap (suc (suc (suc zero))) s x y h hx hy e = omega arith
mod_swap (suc (suc (suc (suc zero)))) s x y h hx hy e = omega arith
mod_swap (suc (suc (suc (suc (suc zero))))) s x y h hx hy e = omega arith
mod_swap (suc (suc (suc (suc (suc (suc zero)))))) s x y h hx hy e = omega arith
mod_swap (suc (suc (suc (suc (suc (suc (suc zero))))))) s x y h hx hy e = omega arith
mod_swap (suc (suc (suc (suc (suc (suc (suc (suc zero)))))))) s x y h hx hy e = omega arith
mod_swap (suc (suc (suc (suc (suc (suc (suc (suc (suc zero))))))))) s x y h hx hy e = omega arith
mod_swap (suc (suc (suc (suc (suc (suc (suc (suc (suc (suc k)))))))))) s x y h hx hy e =
    absurd (omega arith)

next_weight : (n : ℕ) → weight (n + 1) ≡ 2 + (n % 10 + 1) % 10
next_weight n = omega arith

-- Exchanging two different neighbouring digits of a base changes its check digit, unless both are 0.
pub check_digit-swap :
    (pre post : Text) (x y : ℕ)
    → is_digit x ≡ true
    → is_digit y ≡ true
    → x ≢ y
    → check_digit_of (sum_of (pre ++ x ∷ y ∷ post)) ≡ check_digit_of (sum_of (pre ++ y ∷ x ∷ post))
    → check_digit_of (sum_of (pre ++ x ∷ y ∷ post)) ≡ 0
check_digit-swap pre post x y hx hy ne e =
    elim (ℕ_discrete (check_digit_of (sum_of (pre ++ x ∷ y ∷ post))) 0) [
      | yes z ↦ z
      | no nz ↦ absurd (ne (ground (arith, same_digit nz)))
    ]
  where
    same_digit : check_digit_of (sum_of (pre ++ x ∷ y ∷ post)) ≢ 0 → digit x ≡ digit y
    same_digit nz =
        mod_swap (length post % 10) (rest_of_two pre post) (digit x) (digit y) (omega arith)
          (ground arith) (ground arith)
          (rw
            (
              ← next_weight (length post),
              ← sum_of-split_two pre post x y,
              ← sum_of-split_two pre post y x,
            )
            (check_digit_of-inj _ _ e nz))
