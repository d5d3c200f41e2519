-- ===== src/Transmission/Lote/Tests.antt =====
-- A lote of one document, and the theorems at it.
use facturacion_sifen.Prelude.{
  ◌≡◌, ◌⊎◌, refl, true, false, some, ok, err, [], ◌∷◌, codes, show, number,
}
use facturacion_sifen.Ruc.{create_ruc}
use facturacion_sifen.Cdc.{
  CdcParts, digits, one_of, compact_date, check_parts, join_parts, compute_cdc_check_digit,
  parts_of, build_cdc, parse_cdc,
}
use facturacion_sifen.Transmission.Lote.{
  LoteDocument, LoteBuilderDeps, LoteBuilder, Lote, empty_builder, rejection, accepted, rejected,
  LoteRejection, duplicate_cdc, cdc_in_process, size_exceeded, identity_of, pushed, add, build,
}
use facturacion_sifen.Transmission.Lote.Limits.{IsSendable, IsValid, empty_builder-IsValid}
use facturacion_sifen.Transmission.Lote.Adding.{add-IsValid, add_decides}

operations : Unit {0}
unfolding create_ruc digits one_of compact_date check_parts join_parts compute_cdc_check_digit
    parts_of build_cdc parse_cdc show number rejection pushed add build
operations = tt

abbrev quiet : LoteBuilderDeps
quiet = record { is_in_process = λ cdc. false; measure_message = λ xmls. 2000 }

abbrev document : LoteDocument
document = record {
  cdc = codes "01444444017001001001452822017012515873260988";
  xml = codes "<rDE/>";
}

abbrev parts : CdcParts
parts = record {
  document_type = codes "01";
  ruc_base = codes "44444401";
  ruc_dv = 7;
  establishment = codes "001";
  point = codes "001";
  document_number = codes "0014528";
  taxpayer_type = 2;
  issue_date = codes "2017-01-25";
  emission_type = 1;
  security_code = codes "587326098";
}

abbrev one : LoteBuilder
one = record {
  documents = document ∷ [];
  cdcs = document.cdc ∷ [];
  identity = some (identity_of parts);
}

parsed : parse_cdc document.cdc ≡ ok parts
unfolding operations
parsed = refl

added : add quiet empty_builder document ≡ ok (accepted, one)
unfolding operations
added = refl

lote_runs :
    (add quiet one document ≡ ok (rejected duplicate_cdc, one))
    × (add (record quiet { is_in_process = λ cdc. true }) empty_builder document
        ≡ ok (rejected cdc_in_process, empty_builder))
    × (add (record quiet { measure_message = λ xmls. 1000001 }) empty_builder document
        ≡ ok (rejected size_exceeded, empty_builder))
    × (build empty_builder ≡ err tt)
unfolding operations
lote_runs = (refl, refl, refl, refl)

one-IsValid : IsValid quiet one
one-IsValid =
    add-IsValid quiet empty_builder document accepted one (empty_builder-IsValid quiet) added

abbrev lote : Lote
lote = record { identity = identity_of parts; documents = document ∷ [] }

built : build one ≡ ok lote
unfolding operations
built = refl

add_decides_example :
    ((add quiet one document ≡ ok (accepted, pushed one document parts))
      × IsSendable quiet (identity_of parts) (document ∷ document ∷ []))
    ⊎ ((reason : LoteRejection) × (add quiet one document ≡ ok (rejected reason, one))
        × (¬ IsSendable quiet (identity_of parts) (document ∷ document ∷ [])))
add_decides_example = add_decides quiet one document parts one-IsValid parsed
