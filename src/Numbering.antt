-- ===== src/Numbering.antt =====
-- packages/db/src/series.ts and document-number.ts: the numbers of the documents, in sequence without
-- gaps, and the series that follow when a sequence runs out. The table of sequences is the database's:
-- `TenantTx` has the two statements that are run on it, and `TableLaws` (in Numbering/Table) what SQL
-- says of them. The lock that the first statement takes makes the calls on one key a sequence of steps.
pub mod Series
pub mod Table
pub mod Sequence
pub mod Calls
pub mod Memory
mod Tests
use facturacion_sifen.Prelude.{
  ℕ, suc, ◌+◌, Bool, true, false, not, Option, none, some, List, [], ◌∷◌, Result, ok, err, ◌>>=◌,
  ◌>>◌, guard, ltb, leb, ◌==◌, ◌&&◌, if◌then◌else◌, Text, text_eq, all, is_upper, length,
}

pub data NumberingError : Type 0 where
  invalid_document_type invalid_series series_exhausted number_exhausted : NumberingError

abbrev pub is_valid_series : Text → Bool
is_valid_series s = all is_upper s && (length s == 2)

-- After the tests on `current`, which has two letters.
abbrev following : Text → Text
following (first ∷ (second ∷ [])) =
    if second == b'Z' then suc first ∷ b'A' ∷ [] else first ∷ suc second ∷ []
following s = []

unfoldable pub next_series : Option Text → Result NumberingError Text
next_series none = ok (b'A' ∷ b'A' ∷ [])
next_series (some current) = do
  guard (is_valid_series current) invalid_series
  guard (not (text_eq current (b'Z' ∷ b'Z' ∷ []))) series_exhausted
  ok (following current)

abbrev pub max_document_number : ℕ
max_document_number = 9999999

pub record DocumentSequenceKey : Type 0 where
  pub tenant_id : Text
  pub environment : Text
  pub timbrado_id : Text
  pub establishment_id : Text
  pub expedition_point_id : Text
  pub document_type : ℕ

pub record DocumentNumber : Type 0 where
  pub series : Option Text
  pub number : ℕ

-- A row of the table, less its key.
pub record Row : Type 0 where
  pub series : Text
  pub last_number : ℕ

-- The two statements, on the states `S` of the table: the row of the key with the greatest series, and
-- the insertion of a row that updates the one that is there where a condition holds, and returns it.
pub record TenantTx (S : Type 0) : Type 1 where
  pub newest : S → DocumentSequenceKey → Option Row
  pub upsert :
      S
      → DocumentSequenceKey
      → (series : Text) (initial : ℕ) (set : ℕ → ℕ) (set_where : ℕ → Bool) → Option Row × S

abbrev exhausted : Option Row → Bool
exhausted none = false
exhausted (some row) = row.last_number == max_document_number

-- `series === '' ? null : series`
abbrev pub null_if_empty : Text → Option Text
null_if_empty [] = none
null_if_empty (c ∷ cs) = some (c ∷ cs)

-- `current?.series ?? ''`
abbrev pub series_of : Option Row → Text
series_of none = []
series_of (some row) = row.series

unfoldable pub series_to_use : Option Row → Result NumberingError Text
series_to_use current =
    if exhausted current
    then next_series (null_if_empty (series_of current))
    else ok (series_of current)

abbrev pub issued : {S : Type 0} → Option Row × S → Result NumberingError (DocumentNumber × S)
issued (none, table) = err number_exhausted
issued (some row, table) =
    ok (record { series = null_if_empty row.series; number = row.last_number }, table)

unfoldable pub next_document_number :
    {S : Type 0} → TenantTx S → S → DocumentSequenceKey → Result NumberingError (DocumentNumber × S)
next_document_number tx table key = do
  guard (leb 1 key.document_type && leb key.document_type 8) invalid_document_type
  series ← series_to_use (tx.newest table key)
  issued (tx.upsert table key series 1 (λ n. n + 1) (λ n. ltb n max_document_number))
