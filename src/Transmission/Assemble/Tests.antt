-- ===== src/Transmission/Assemble/Tests.antt =====
-- Documents that are assembled, and the theorems at them.
use facturacion_sifen.Prelude.{
  ◌≡◌, refl, true, false, none, some, [], ◌∷◌, map, ok, codes, show, number, length,
}
use facturacion_sifen.Prelude.Int.{pos, ◌+ℤ◌}
use facturacion_sifen.Ruc.{create_ruc}
use facturacion_sifen.Cdc.{
  CdcParts, digits, one_of, compact_date, check_parts, join_parts, compute_cdc_check_digit,
  parts_of, build_cdc, parse_cdc,
}
use facturacion_sifen.Transmission.Lote.{LoteBuilderDeps, rejection, pushed, add, build}
use facturacion_sifen.Transmission.Assemble.{
  ReadyDocument, ResendVerdict, send, wait, invalid_cdc, Fill, flush, fill_one, fill_from, fill,
  valid_documents, group_by, group_by_ruc_and_type, fill_groups,
}
use facturacion_sifen.Transmission.Assemble.Creating.{
  AssembleLotesResult, AssembleDeps, in_process, one_space, describe_error, create_all,
  assemble_cleared,
}
use facturacion_sifen.Transmission.Assemble.Clearing.{
  ClearDeps, IsCleared, wait_for, clear_resent, clear_resent-IsCleared,
}
use facturacion_sifen.Transmission.Assemble.Partition.{IsPartition, fill-IsPartition}
use facturacion_sifen.Transmission.Assemble.Accounts.{AccountsFor, assemble_cleared-accounts}

operations : Unit {0}
unfolding create_ruc digits one_of compact_date check_parts join_parts compute_cdc_check_digit
    parts_of build_cdc parse_cdc show number rejection pushed add build flush fill_one fill_from
    fill valid_documents group_by group_by_ruc_and_type fill_groups one_space describe_error
    create_all assemble_cleared wait_for clear_resent ◌+ℤ◌
operations = tt

abbrev document : ReadyDocument
document = record {
  document_id = codes "d1";
  cdc = codes "01444444017001001001452822017012515873260988";
  xml = codes "<rDE/>";
  resent = false;
  resent_at = none;
}

abbrev unreadable : ReadyDocument
unreadable = record document { document_id = codes "d2"; cdc = codes "0" }

abbrev sent_before : ReadyDocument
sent_before = record document {
  document_id = codes "d3";
  resent = true;
  resent_at = some (pos 1000);
}

abbrev parts : CdcParts
parts = record {
  document_type = codes "01";
  ruc_base = codes "44444401";
  ruc_dv = 7;
  establishment = codes "001";
  point = codes "001";
  document_number = codes "0014528";
  taxpayer_type = 2;
  issue_date = codes "2017-01-25";
  emission_type = 1;
  security_code = codes "587326098";
}

parsed : parse_cdc document.cdc ≡ ok parts
unfolding operations
parsed = refl

abbrev quiet : LoteBuilderDeps
quiet = record { is_in_process = λ cdc. false; measure_message = λ xmls. 2000 }

fill-IsPartition_example :
    (f : Fill) × (fill quiet [] (document ∷ []) ≡ ok f) × IsPartition quiet [] (document ∷ []) f
fill-IsPartition_example = fill-IsPartition quiet [] (document ∷ []) ((parts, parsed), tt)

abbrev deps : AssembleDeps
deps = record {
  cdcs_in_process = λ cdcs. ok [];
  measure_message = λ xmls. 2000;
  create_lote = λ planned. ok (some (codes "L"));
}

-- The unreadable document is reported, the other one has its lote.
one_lote :
    (r : AssembleLotesResult) × (assemble_cleared deps [] (unreadable ∷ document ∷ []) ≡ ok r)
    × (map (λ l. l.cdcs) r.lotes ≡ (document.cdc ∷ []) ∷ [])
    × (map (λ s. s.reason) r.skipped ≡ invalid_cdc ∷ [])
unfolding operations
one_lote = (_, refl, refl, refl)

looked_up : in_process deps (valid_documents (unreadable ∷ document ∷ [])).0 ≡ ok []
unfolding operations
looked_up = refl

assemble_cleared-accounts_example :
    (r : AssembleLotesResult) × (assemble_cleared deps [] (unreadable ∷ document ∷ []) ≡ ok r)
    × AccountsFor deps [] (unreadable ∷ document ∷ []) r
assemble_cleared-accounts_example =
    assemble_cleared-accounts deps [] (unreadable ∷ document ∷ []) [] looked_up

abbrev asks_sifen : ResendVerdict → ClearDeps
asks_sifen verdict = record {
  verify = some (λ d. verdict);
  max_resend_checks = 1;
  now = pos 30000000;
  hold_succeeds = λ d. true;
  aborted = λ d. false;
}

-- The second one is over the cap; the first, which could not be verified for six hours, is held.
cleared :
    (length (clear_resent (asks_sifen send) 0 (sent_before ∷ sent_before ∷ [])).kept ≡ 1)
    × (length (clear_resent (asks_sifen wait) 0 (sent_before ∷ sent_before ∷ [])).writes ≡ 1)
unfolding operations
cleared = (refl, refl)

clear_resent-IsCleared_example :
    IsCleared
      (asks_sifen send)
      0
      (document ∷ sent_before ∷ sent_before ∷ [])
      (clear_resent (asks_sifen send) 0 (document ∷ sent_before ∷ sent_before ∷ []))
clear_resent-IsCleared_example =
    clear_resent-IsCleared (asks_sifen send) 0 (document ∷ sent_before ∷ sent_before ∷ [])
