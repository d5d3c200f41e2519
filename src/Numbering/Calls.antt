-- ===== src/Numbering/Calls.antt =====
-- What any number of calls of `nextDocumentNumber` on one key gives.
use facturacion_sifen.Prelude.{
  ℕ, zero, suc, ◌-◌, ◌≤◌, ◌≡◌, inl, inr, sym, ap, ◌∙◌, arith, min, Result, ok, err, none, List, [],
  ◌∷◌, ltb, Bool-cases,
}
use facturacion_sifen.Numbering.{
  NumberingError, series_exhausted, DocumentSequenceKey, DocumentNumber, TenantTx,
  next_document_number,
}
use facturacion_sifen.Numbering.Table.{TableLaws}
use facturacion_sifen.Numbering.Sequence.{
  number_at, newest_at, capacity, next_document_number-number_at, next_document_number-full,
}

-- The numbers of a sequence from a place on.
abbrev pub places : (from count : ℕ) → List DocumentNumber
places from zero = []
places from (suc count) = number_at from ∷ places (suc from) count

-- A call gives its number and goes on, or it refuses and leaves the table, which a thrown error rolls
-- back.
abbrev pub called :
    {S : Type 0}
    → (S → List DocumentNumber)
    → S
    → Result NumberingError (DocumentNumber × S)
    → List DocumentNumber
called later s (err e) = later s
called later s (ok (number, next)) = number ∷ later next

-- The numbers that so many calls give, one after the other.
abbrev pub given_by : {S : Type 0} → TenantTx S → DocumentSequenceKey → ℕ → S → List DocumentNumber
given_by tx k zero s = []
given_by tx k (suc calls) s = called (given_by tx k calls) s (next_document_number tx s k)

module _ (S : Type 0) (tx : TenantTx S) (laws : TableLaws S tx) (k : DocumentSequenceKey)
    (lo : 1 ≤ k.document_type) (hi : k.document_type ≤ 8) where
  given_by-places_from :
      (calls c : ℕ) (s : S)
      → c ≤ capacity
      → tx.newest s k ≡ newest_at c
      → given_by tx k calls s ≡ places c (min calls (capacity - c))
  given_by-places_from zero c s h now =
      ap (places c) (let e : 0 ≡ min 0 (capacity - c) = omega arith in e)
  given_by-places_from (suc calls) c s h now = elim (Bool-cases (ltb c capacity)) [
    | inl room ↦
        let (next, done, newest) =
          next_document_number-number_at S tx laws s k c lo hi (ground arith) now in
        let one : min (suc calls) (capacity - c) ≡ suc (min calls (capacity - suc c)) =
          ground arith in
        rw (done, one, called)
          (ap (λ l. number_at c ∷ l)
            (given_by-places_from calls (suc c) next (ground arith) newest))
    | inr full ↦
        let end : c ≡ capacity = ground arith in
        let refused : next_document_number tx s k ≡ err series_exhausted =
          next_document_number-full S tx laws s k lo hi (now ∙ ap newest_at end) in
        let none_more : (n : ℕ) → min n (capacity - c) ≡ 0 = λ n. omega (arith, end) in
        rw (refused, called)
          (given_by-places_from calls c s h now
            ∙ ap (places c) (none_more calls ∙ sym (none_more (suc calls))))
  ]

-- Of any number of calls on a new key, the first 677 * 9999999 give the numbers of the sequence in their
-- order, without a gap and through the series from none to ZZ, and all that follow are refused.
pub given_by-places :
    (S : Type 0) (tx : TenantTx S) (laws : TableLaws S tx) (s : S) (k : DocumentSequenceKey)
    (calls : ℕ)
    → 1 ≤ k.document_type
    → k.document_type ≤ 8
    → tx.newest s k ≡ none
    → given_by tx k calls s ≡ places 0 (min calls capacity)
given_by-places S tx laws s k calls lo hi now =
    given_by-places_from S tx laws k lo hi calls 0 s (omega arith) now
    ∙ ap (places 0) (let e : min calls (capacity - 0) ≡ min calls capacity = omega arith in e)
