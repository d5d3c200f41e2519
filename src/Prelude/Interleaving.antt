-- ===== src/Prelude/Interleaving.antt =====
-- A list that is divided into two, each in its order; and a property of all elements.
use facturacion_sifen.Prelude.{List, [], ◌∷◌, ◌++◌}

-- The first two lists, each in its order, make up the third.
pub data Interleaves {ℓ} {A : Type ℓ} : List A → List A → List A → Type ℓ where
  both_empty : Interleaves [] [] []
  on_left : (x : A) (xs ys zs : List A) → Interleaves xs ys zs → Interleaves (x ∷ xs) ys (x ∷ zs)
  on_right : (y : A) (xs ys zs : List A) → Interleaves xs ys zs → Interleaves xs (y ∷ ys) (y ∷ zs)

abbrev pub AllOf {ℓ κ} : {A : Type ℓ} → (A → Type κ) → List A → Type κ
AllOf P [] = Unit
AllOf P (x ∷ xs) = P x × AllOf P xs

module _ {ℓ} {A : Type ℓ} where
  pub left_snoc :
      (xs ys zs : List A) (x : A)
      → Interleaves xs ys zs
      → Interleaves (xs ++ x ∷ []) ys (zs ++ x ∷ [])
  left_snoc _ _ _ x both_empty = on_left x [] [] [] both_empty
  left_snoc _ _ _ x (on_left a bs cs ds i) = on_left a _ _ _ (left_snoc bs cs ds x i)
  left_snoc _ _ _ x (on_right a bs cs ds i) = on_right a _ _ _ (left_snoc bs cs ds x i)

  pub right_snoc :
      (xs ys zs : List A) (y : A)
      → Interleaves xs ys zs
      → Interleaves xs (ys ++ y ∷ []) (zs ++ y ∷ [])
  right_snoc _ _ _ y both_empty = on_right y [] [] [] both_empty
  right_snoc _ _ _ y (on_left a bs cs ds i) = on_left a _ _ _ (right_snoc bs cs ds y i)
  right_snoc _ _ _ y (on_right a bs cs ds i) = on_right a _ _ _ (right_snoc bs cs ds y i)

pub all_append {ℓ κ} :
    {A : Type ℓ} (P : A → Type κ) (xs ys : List A) → AllOf P xs → AllOf P ys → AllOf P (xs ++ ys)
all_append P [] ys p q = q
all_append P (x ∷ xs) ys (p, ps) q = (p, all_append P xs ys ps q)
