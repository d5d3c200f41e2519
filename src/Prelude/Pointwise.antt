-- ===== src/Prelude/Pointwise.antt =====
-- Two lists that a relation joins element by element.
use facturacion_sifen.Prelude.{List, [], ◌∷◌, map}

pub data Pointwise {A : Type 0} (R : A → A → Type 0) : List A → List A → Type 0 where
  none_joined : Pointwise R [] []
  one_by_one :
      (a b : A) (xs ys : List A) → R a b → Pointwise R xs ys → Pointwise R (a ∷ xs) (b ∷ ys)

module _ {A : Type 0} where
  pub all_same : (R : A → A → Type 0) (xs : List A) → ((a : A) → R a a) → Pointwise R xs xs
  all_same R [] same = none_joined
  all_same R (a ∷ xs) same = one_by_one a a xs xs (same a) (all_same R xs same)

  pub map-Pointwise :
      (R : A → A → Type 0) (f : A → A) (xs : List A)
      → ((a : A) → R a (f a))
      → Pointwise R xs (map f xs)
  map-Pointwise R f [] step = none_joined
  map-Pointwise R f (a ∷ xs) step =
      one_by_one a (f a) xs (map f xs) (step a) (map-Pointwise R f xs step)

  pub join :
      (R S T : A → A → Type 0) (xs ys zs : List A)
      → ((a b c : A) → R a b → S b c → T a c)
      → Pointwise R xs ys
      → Pointwise S ys zs
      → Pointwise T xs zs
  join R S T [] [] [] compose none_joined none_joined = none_joined
  join R S T [] [] (z ∷ zs) compose p q = elim q [ ]
  join R S T [] (y ∷ ys) zs compose p q = elim p [ ]
  join R S T (x ∷ xs) [] zs compose p q = elim p [ ]
  join R S T (x ∷ xs) (y ∷ ys) [] compose p q = elim q [ ]
  join R S T (x ∷ xs) (y ∷ ys) (z ∷ zs) compose (one_by_one _ _ _ _ r p) (one_by_one _ _ _ _ s q) =
      one_by_one x z xs zs (compose x y z r s) (join R S T xs ys zs compose p q)
