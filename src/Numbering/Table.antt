-- ===== src/Numbering/Table.antt =====
-- What SQL says of the two statements on the table of sequences.
use facturacion_sifen.Prelude.{
  ℕ, ◌≡◌, ◌≢◌, inl, inr, sym, ap, ap₂, ◌∙◌, Bool, true, false, Option, none, some, Text, text_eq,
  text_eq_iff, Bool-cases, Option-cases,
}
use facturacion_sifen.Numbering.{DocumentSequenceKey, Row, TenantTx}
use facturacion_sifen.Numbering.Series.{leb_text, leb_text-antisym}

-- `lookup` is the table: the last number of a key and a series. The texts are ordered by their code
-- units, which for the empty text and two capitals every collation agrees with.
pub record TableLaws (S : Type 0) (tx : TenantTx S) : Type 0 where
  pub lookup : S → DocumentSequenceKey → Text → Option ℕ
  pub newest_none :
      (s : S) (k : DocumentSequenceKey) (t : Text) → tx.newest s k ≡ none → lookup s k t ≡ none
  pub newest_some :
      (s : S) (k : DocumentSequenceKey) (row : Row)
      → tx.newest s k ≡ some row
      → lookup s k row.series ≡ some row.last_number
  pub newest_max :
      (s : S) (k : DocumentSequenceKey) (row : Row) (t : Text) (n : ℕ)
      → tx.newest s k ≡ some row
      → lookup s k t ≡ some n
      → leb_text t row.series ≡ true
  pub upsert_new :
      (s : S) (k : DocumentSequenceKey) (t : Text) (n : ℕ) (f : ℕ → ℕ) (p : ℕ → Bool)
      → lookup s k t ≡ none
      → ((tx.upsert s k t n f p).0 ≡ some (record { series = t; last_number = n }))
        × (lookup (tx.upsert s k t n f p).1 k t ≡ some n)
  pub upsert_old :
      (s : S) (k : DocumentSequenceKey) (t : Text) (n m : ℕ) (f : ℕ → ℕ) (p : ℕ → Bool)
      → lookup s k t ≡ some m
      → p m ≡ true
      → ((tx.upsert s k t n f p).0 ≡ some (record { series = t; last_number = f m }))
        × (lookup (tx.upsert s k t n f p).1 k t ≡ some (f m))
  pub upsert_other :
      (s : S) (k l : DocumentSequenceKey) (t u : Text) (n : ℕ) (f : ℕ → ℕ) (p : ℕ → Bool)
      → ¬ ((l ≡ k) × (u ≡ t))
      → lookup (tx.upsert s k t n f p).1 l u ≡ lookup s l u

-- A series that is not before any of its key is the newest once it was written.
pub newest_after :
    (S : Type 0) (tx : TenantTx S) (laws : TableLaws S tx) (s : S) (k : DocumentSequenceKey)
    (t : Text) (n m : ℕ) (f : ℕ → ℕ) (p : ℕ → Bool)
    → ((u : Text) (j : ℕ) → laws.lookup s k u ≡ some j → leb_text u t ≡ true)
    → laws.lookup (tx.upsert s k t n f p).1 k t ≡ some m
    → tx.newest (tx.upsert s k t n f p).1 k ≡ some (record { series = t; last_number = m })
newest_after S tx laws s k t n m f p top written = elim (Option-cases (tx.newest next k)) [
  | inl nothing ↦ let gone = laws.newest_none next k t nothing in cc
  | inr (row, found) ↦
      let held = laws.newest_some next k row found in
      let above = laws.newest_max next k row t m found written in
      let same : row.series ≡ t = elim (Bool-cases (text_eq row.series t)) [
        | inl e ↦ (text_eq_iff row.series t).0 e
        | inr e ↦
            let other : laws.lookup next k row.series ≡ laws.lookup s k row.series =
              laws.upsert_other s k k t row.series n f p (λ (_, d). differ row.series t e d) in
            leb_text-antisym row.series t (top row.series row.last_number (sym other ∙ held)) above
      ] in
      found ∙ ap some (row_eq row same held)
]
  where
    next : S
    next = (tx.upsert s k t n f p).1

    differ : (a b : Text) → text_eq a b ≡ false → a ≢ b
    differ a b e d = let same = (text_eq_iff a b).1 d in cc

    some_eq : (a b : ℕ) → some a ≡ some b → a ≡ b
    some_eq a b h = cc

    row_eq :
        (row : Row)
        → row.series ≡ t
        → laws.lookup next k row.series ≡ some row.last_number
        → row ≡ record { series = t; last_number = m }
    row_eq row same held =
        ap₂ (λ u j. record { series = u; last_number = j }) same
          (some_eq _ _ (sym (rw same at held) ∙ written))
