-- ===== src/Transmission/Poll/Tests.antt =====
-- Queries of a lote of two documents, and the theorems at them.
use facturacion_sifen.Prelude.{
  ◌+◌, ◌≡◌, refl, true, false, none, some, [], ◌∷◌, ok, leb, ◌&&◌, if◌then◌else◌, Text, codes, trim,
  show,
}
use facturacion_sifen.Prelude.Int.{ℤ, pos, ◌+ℤ◌, ◌≤ℤ◌}
use facturacion_sifen.Transmission.Row.{LoteStatus, DocumentStatus, DocumentRow, LoteRow, is_sent}
use facturacion_sifen.Transmission.Poll.{
  ResolutionStatus, pending, outcome, stale, Unicode, LoteResult, SifenLoteResult, Query,
  document_status_of, collect, resolve, interpret, decide,
}
use facturacion_sifen.Transmission.Poll.Store.{
  resolutions_of, settle_document, settle_all, record_poll, same_instant, execute,
}
use facturacion_sifen.Transmission.Poll.Resolving.{status_in, needs_recovery_of}
use facturacion_sifen.Transmission.Poll.Outcome.{resolve-verdict}
use facturacion_sifen.Transmission.Poll.Pacing.{IsQuiet, is_outcome, execute-IsQuiet, execute_once}

operations : Unit {0}
unfolding document_status_of collect resolve interpret decide settle_document settle_all record_poll
    execute trim show ◌+ℤ◌
operations = tt

-- The tables for texts without accents.
abbrev lower : Text → Text
lower [] = []
lower (c ∷ cs) = (if leb b'A' c && leb c b'Z' then c + 32 else c) ∷ lower cs

abbrev plain : Unicode
plain = record { strip_diacritics = λ t. t; strip_marks = λ t. t; to_lower_case = lower }

abbrev first : Text
first = codes "A"

abbrev second : Text
second = codes "B"

abbrev result : Text → Text → LoteResult
result cdc status = record { cdc = cdc; d_est_res = status; mensajes = [] }

-- SIFEN has approved the first document, and disagrees with itself on the second.
abbrev answer : SifenLoteResult
answer = record {
  d_cod_res = codes "0362";
  d_msg_res = [];
  resultados =
      result first (codes "Aprobado")
      ∷ result second (codes "Aprobado")
      ∷ result second (codes "Rechazado")
      ∷ result first (codes " APROBADO")
      ∷ [];
}

resolved :
    (status_in (resolutions_of (resolve plain answer (first ∷ second ∷ []))) first
      ≡ some ResolutionStatus.approved)
    × (needs_recovery_of (resolve plain answer (first ∷ second ∷ [])) ≡ second ∷ [])
unfolding operations
resolved = (refl, refl)

resolve-verdict_example :
    status_in (resolutions_of (resolve plain answer (first ∷ second ∷ []))) second ≡ none
unfolding document_status_of trim
resolve-verdict_example = resolve-verdict plain answer (first ∷ second ∷ []) second

abbrev document : Text → DocumentRow
document cdc = record {
  cdc = cdc;
  status = DocumentStatus.submitted;
  transmission_attempts = 0;
  next_transmission_at = none;
  transmission_hold = none;
  resent_at = none;
  resent_after_seq = none;
  latest_seq = 7;
  sifen_messages = [];
}

abbrev lote : LoteRow
lote = record {
  seq = 7;
  created_at = pos 0;
  status = LoteStatus.sent;
  sifen_protocol = some (codes "4500123");
  response_code = none;
  response_message = none;
  send_attempted_at = some (pos 1000);
  sent_at = some (pos 2000);
  next_poll_at = some (pos 602000);
  poll_deadline_at = some (pos 172802000);
  last_polled_at = none;
  last_poll_message = none;
  documents = document first ∷ document second ∷ [];
}

abbrev still_processing : Query
still_processing protocol =
    ok (record { d_cod_res = codes "0361"; d_msg_res = []; resultados = [] })

abbrev concluded : Query
concluded protocol = ok answer

-- After an answer that SIFEN goes on with the lote.
abbrev waiting : LoteRow
waiting = record lote {
  next_poll_at = some (pos 1300000);
  last_polled_at = some (pos 700100);
  last_poll_message = some (codes "0361: ");
}

waits :
    execute plain still_processing (pos 700000) (pos 700100) lote lote
    ≡ ok (outcome (pending (pos 1300000) (codes "0361: ")), waiting)
unfolding operations
waits = refl

too_late : execute plain concluded (pos 700050) (pos 700200) lote waiting ≡ ok (stale, waiting)
unfolding operations
too_late = refl

execute-IsQuiet_example :
    (at : ℤ) × (is_sent lote.status ≡ true)
    × (lote.next_poll_at ≡ some at)
    × (at ≤ℤ pos 700000)
    × (same_instant lote.next_poll_at at ≡ true)
    × IsQuiet (pos 700000) waiting
execute-IsQuiet_example =
    execute-IsQuiet plain still_processing (pos 700000) (pos 700100) lote lote waiting
      (pending (pos 1300000) (codes "0361: ")) waits

execute_once_example : (is_outcome stale ≡ false) × (waiting ≡ waiting)
execute_once_example =
    execute_once plain still_processing concluded (pos 700000) (pos 700100) (pos 700050)
      (pos 700200) lote lote waiting waiting (pending (pos 1300000) (codes "0361: ")) stale waits
      too_late
