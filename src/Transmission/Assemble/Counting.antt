-- ===== src/Transmission/Assemble/Counting.antt =====
-- How often a CDC occurs among the records of a run of `assemble` in assemble-lotes.ts.
use facturacion_sifen.Prelude.{
  ℕ, ◌+◌, ◌≡◌, refl, arith, List, [], ◌∷◌, ◌++◌, map, if◌then◌else◌, Text, text_eq,
}
use facturacion_sifen.Prelude.Interleaving.{Interleaves, both_empty, on_left, on_right}

abbrev pub hit : Text → Text → ℕ
hit x cdc = if text_eq cdc x then 1 else 0

abbrev pub tally : {A : Type 0} → (A → Text) → Text → List A → ℕ
tally f x [] = 0
tally f x (a ∷ rest) = hit x (f a) + tally f x rest

pub tally-append :
    {A : Type 0} (f : A → Text) (x : Text) (xs ys : List A)
    → tally f x (xs ++ ys) ≡ tally f x xs + tally f x ys
tally-append f x [] ys = omega arith
tally-append f x (a ∷ xs) ys = omega (arith, tally-append f x xs ys)

pub tally-map :
    {A B : Type 0} (f : B → Text) (g : A → B) (x : Text) (xs : List A)
    → tally f x (map g xs) ≡ tally (λ a. f (g a)) x xs
tally-map f g x [] = refl
tally-map f g x (a ∷ xs) = omega (arith, tally-map f g x xs)

pub tally-Interleaves :
    {A : Type 0} (f : A → Text) (x : Text) (xs ys zs : List A)
    → Interleaves xs ys zs
    → tally f x zs ≡ tally f x xs + tally f x ys
tally-Interleaves f x _ _ _ both_empty = omega arith
tally-Interleaves f x _ _ _ (on_left a xs ys zs i) = omega (arith, tally-Interleaves f x xs ys zs i)
tally-Interleaves f x _ _ _ (on_right b xs ys zs i) =
    omega (arith, tally-Interleaves f x xs ys zs i)
