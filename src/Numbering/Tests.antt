-- ===== src/Numbering/Tests.antt =====
-- Numbers issued on a table in memory, and the theorems at concrete values.
use facturacion_sifen.Prelude.{min, ℕ, ◌≡◌, refl, arith, some, ok, err, List, [], ◌∷◌, codes, Text}
use facturacion_sifen.Numbering.{
  DocumentSequenceKey, next_series, series_to_use, next_document_number, series_exhausted,
  invalid_series, invalid_document_type,
}
use facturacion_sifen.Numbering.Sequence.{
  number_at, newest_at, capacity, next_document_number-number_at,
}
use facturacion_sifen.Numbering.Calls.{places, given_by, given_by-places}
use facturacion_sifen.Numbering.Memory.{Entry, memory, memory-TableLaws}

operations : Unit {0}
unfolding next_series series_to_use next_document_number
operations = tt

abbrev invoices : DocumentSequenceKey
invoices = record {
  tenant_id = codes "t";
  environment = codes "test";
  timbrado_id = codes "12345678";
  establishment_id = codes "001";
  expedition_point_id = codes "001";
  document_type = 1;
}

abbrev holding : Text → ℕ → List Entry
holding series n = record { key = invoices; row = record { series = series; last_number = n } } ∷ []

series_runs :
    (next_series (some (codes "AZ")) ≡ ok (codes "BA"))
    × (next_series (some (codes "ZZ")) ≡ err series_exhausted)
    × (next_series (some (codes "A1")) ≡ err invalid_series)
unfolding operations
series_runs = (refl, refl, refl)

rollover_run :
    next_document_number memory (holding (codes "AB") 9999999) invoices
    ≡ ok (
      record { series = some (codes "AC"); number = 1 },
      record { key = invoices; row = record { series = codes "AC"; last_number = 1 } }
          ∷ holding (codes "AB") 9999999,
    )
unfolding operations
rollover_run = refl

no_type_run :
    next_document_number memory [] (record invoices { document_type = 9 })
    ≡ err invalid_document_type
unfolding operations
no_type_run = refl

-- The third number of a key.
next_document_number-number_at_example :
    (next : List Entry) × (next_document_number memory (holding [] 2) invoices
      ≡ ok (number_at 2, next))
    × (memory.newest next invoices ≡ newest_at 3)
next_document_number-number_at_example =
    next_document_number-number_at (List Entry) memory memory-TableLaws (holding [] 2) invoices 2
      (omega arith) (omega arith) (omega arith) refl

given_by-places_example : given_by memory invoices 3 [] ≡ places 0 (min 3 capacity)
given_by-places_example =
    given_by-places (List Entry) memory memory-TableLaws [] invoices 3 (omega arith) (omega arith)
      refl
