-- ===== src/Prelude/Slices.antt =====
-- Slices of a list: neighbours join, and a list that is joined of parts is cut into them again.
use mathlib.Core.List.{List, [], ◌∷◌, ◌++◌}
use mathlib.Core.Path.{◌≡◌, refl, sym, ap, ◌∙◌, ◌≡⟨◌⟩◌, ◌∎}
use mathlib.Core.Bool.{Bool, true}
use Prim.Native.Nat.{ℕ, zero, suc, ◌+◌, ◌-◌, ◌≤◌}
use native.Mathlib.Omega.{arith}
use facturacion_sifen.Prelude.Lists.{length, take, drop, length-drop, length-take}
use facturacion_sifen.Prelude.Texts.{Text, slice, all}

module _ {ℓ} {A : Type ℓ} where
  pub drop-nil : (n : ℕ) → drop {A = A} n [] ≡ []
  drop-nil zero = refl
  drop-nil (suc n) = refl

  pub take-nil : (n : ℕ) → take {A = A} n [] ≡ []
  take-nil zero = refl
  take-nil (suc n) = refl

  pub drop-drop : (n m : ℕ) (xs : List A) → drop m (drop n xs) ≡ drop (n + m) xs
  drop-drop zero m xs = ap (λ k. drop k xs) (omega arith)
  drop-drop (suc n) m [] = drop-nil m ∙ sym (drop-nil (suc n + m))
  drop-drop (suc n) m (x ∷ xs) =
      drop-drop n m xs
      ∙ ap (λ k. drop k (x ∷ xs)) (let e : suc (n + m) ≡ suc n + m = omega arith in e)

  pub take-append : (n : ℕ) (xs ys : List A) → length xs ≡ n → take n (xs ++ ys) ≡ xs
  take-append zero [] ys h = refl
  take-append zero (x ∷ xs) ys h = absurd (omega arith)
  take-append (suc n) [] ys h = absurd (omega arith)
  take-append (suc n) (x ∷ xs) ys h = ap (λ l. x ∷ l) (take-append n xs ys (omega arith))

  pub drop-append : (n : ℕ) (xs ys : List A) → length xs ≡ n → drop n (xs ++ ys) ≡ ys
  drop-append zero [] ys h = refl
  drop-append zero (x ∷ xs) ys h = absurd (omega arith)
  drop-append (suc n) [] ys h = absurd (omega arith)
  drop-append (suc n) (x ∷ xs) ys h = drop-append n xs ys (omega arith)

  pub take-all : (n : ℕ) (xs : List A) → length xs ≡ n → take n xs ≡ xs
  take-all zero [] h = refl
  take-all zero (x ∷ xs) h = absurd (omega arith)
  take-all (suc n) [] h = absurd (omega arith)
  take-all (suc n) (x ∷ xs) h = ap (λ l. x ∷ l) (take-all n xs (omega arith))

  pub take-take-drop : (n m : ℕ) (xs : List A) → take n xs ++ take m (drop n xs) ≡ take (n + m) xs
  take-take-drop zero m xs = ap (λ k. take k xs) (omega arith)
  take-take-drop (suc n) m [] = take-nil m ∙ sym (take-nil (suc n + m))
  take-take-drop (suc n) m (x ∷ xs) =
      ap (λ l. x ∷ l) (take-take-drop n m xs)
      ∙ ap (λ k. take k (x ∷ xs)) (let e : suc (n + m) ≡ suc n + m = omega arith in e)

  -- The next part of a list cut at `n`, of width `w`.
  pub cut_next :
      (n w m : ℕ) (s x rest : List A)
      → n + w ≡ m
      → drop n s ≡ x ++ rest
      → length x ≡ w
      → drop m s ≡ rest
  cut_next n w m s x rest e h l =
      drop m s
      ≡⟨ ap (λ k. drop k s) (sym e) ⟩ drop (n + w) s
      ≡⟨ sym (drop-drop n w s) ⟩ drop w (drop n s)
      ≡⟨ ap (drop w) h ⟩ drop w (x ++ rest)
      ≡⟨ drop-append w x rest l ⟩ rest ∎

pub length-slice : (s : Text) (a b : ℕ) → a ≤ b → b ≤ length s → length (slice s a b) ≡ b - a
length-slice s a b h k = omega (arith, length-take (b - a) (drop a s), length-drop a s)

pub slice-append : (s : Text) (a b d : ℕ) → a ≤ b → b ≤ d → slice s a b ++ slice s b d ≡ slice s a d
slice-append s a b d h k =
    take (b - a) (drop a s) ++ take (d - b) (drop b s)
    ≡⟨ ap (λ l. take (b - a) (drop a s) ++ take (d - b) l)
        (sym (drop-drop a (b - a) s ∙ ap (λ n. drop n s) (omega arith))) ⟩
      take (b - a) (drop a s) ++ take (d - b) (drop (b - a) (drop a s))
    ≡⟨ take-take-drop (b - a) (d - b) (drop a s) ⟩ take (b - a + (d - b)) (drop a s)
    ≡⟨ ap (λ n. take n (drop a s)) (omega arith) ⟩ take (d - a) (drop a s) ∎

pub all-take : (p : ℕ → Bool) (n : ℕ) (s : Text) → all p s ≡ true → all p (take n s) ≡ true
all-take p zero s h = refl
all-take p (suc n) [] h = refl
all-take p (suc n) (x ∷ xs) h = ground (arith, all-take p n xs)

pub all-drop : (p : ℕ → Bool) (n : ℕ) (s : Text) → all p s ≡ true → all p (drop n s) ≡ true
all-drop p zero s h = h
all-drop p (suc n) [] h = refl
all-drop p (suc n) (x ∷ xs) h = all-drop p n xs (ground arith)

pub all-slice : (p : ℕ → Bool) (s : Text) (a b : ℕ) → all p s ≡ true → all p (slice s a b) ≡ true
all-slice p s a b h = all-take p (b - a) (drop a s) (all-drop p a s h)
