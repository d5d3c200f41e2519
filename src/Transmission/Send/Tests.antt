-- ===== src/Transmission/Send/Tests.antt =====
-- Sends of a lote of one document, and the theorems at them.
use facturacion_sifen.Prelude.{
  ◌+◌, ◌≤◌, ◌≡◌, refl, true, false, none, some, [], ◌∷◌, ok, err, leb, ◌&&◌, if◌then◌else◌, Text,
  codes, trim, length,
}
use facturacion_sifen.Prelude.Int.{pos, ◌+ℤ◌}
use facturacion_sifen.Transmission.Lote.{Lote}
use facturacion_sifen.Transmission.Row.{LoteStatus, DocumentStatus, DocumentRow, LoteRow}
use facturacion_sifen.Transmission.Poll.{ResolutionStatus, Unicode, document_status_of}
use facturacion_sifen.Transmission.Poll.Store.{settle_document}
use facturacion_sifen.Transmission.Send.{
  SendGateway, Receipt, not_sent, failed, sent, rejected, unknown, recorded, deferred,
  has_word_after, is_ruc_block_message, interpret, dispatch, dispatch_sync, attempt,
}
use facturacion_sifen.Transmission.Send.Store.{
  default_dispatch_config, claim, release, sweep, backed_off, record_outcome, record_settled,
}
use facturacion_sifen.Transmission.Send.Worker.{
  StoreFailures, ends, processed, store_failed, record_call, store_attempt, execute,
}
use facturacion_sifen.Transmission.Send.Recorded.{EndsRecorded, execute-EndsRecorded}
use facturacion_sifen.Transmission.Send.Machine.{
  claimed, called, System, Steps, done, more, claims, calls, releases, slot,
}
use facturacion_sifen.Transmission.Send.Once.{sent_once}
use facturacion_sifen.Transmission.Send.Backoff.{AfterRefusal, record_rejected-AfterRefusal}
use facturacion_sifen.Prelude.Pointwise.{Pointwise}

operations : Unit {0}
unfolding has_word_after is_ruc_block_message interpret dispatch dispatch_sync attempt claim release
    sweep backed_off record_outcome record_settled record_call store_attempt execute
    document_status_of settle_document trim ◌+ℤ◌
operations = tt

abbrev lower : Text → Text
lower [] = []
lower (c ∷ cs) = (if leb b'A' c && leb c b'Z' then c + 32 else c) ∷ lower cs

abbrev plain : Unicode
plain = record { strip_diacritics = λ t. t; strip_marks = λ t. t; to_lower_case = lower }

abbrev lote : Lote
lote = record {
  identity = record { ruc_base = codes "44444401"; ruc_dv = 7; document_type = codes "01" };
  documents = record { cdc = codes "A"; xml = codes "<rDE/>" } ∷ [];
}

abbrev queued_document : DocumentRow
queued_document = record {
  cdc = codes "A";
  status = DocumentStatus.queued;
  transmission_attempts = 0;
  next_transmission_at = none;
  transmission_hold = none;
  resent_at = none;
  resent_after_seq = none;
  latest_seq = 7;
  sifen_messages = [];
}

abbrev pending_row : LoteRow
pending_row = record {
  seq = 7;
  created_at = pos 0;
  status = LoteStatus.pending;
  sifen_protocol = none;
  response_code = none;
  response_message = none;
  send_attempted_at = none;
  sent_at = none;
  next_poll_at = none;
  poll_deadline_at = none;
  last_polled_at = none;
  last_poll_message = none;
  documents = queued_document ∷ [];
}

-- The batch is accepted; the synchronous service answers 1264 or approves.
abbrev receipt : Receipt
receipt = record { d_cod_res = codes "0300"; d_msg_res = []; d_prot_cons_lote = some (codes "45") }

abbrev batch_only : SendGateway
batch_only = record {
  enviar_lote = λ d_id xmls. ok receipt;
  enviar_de_sincronico =
      λ d_id xml. ok (record { d_cod_res = codes "1264"; d_msg_res = []; d_est_res = none });
}

abbrev synchronous : SendGateway
synchronous = record {
  enviar_lote = λ d_id xmls. err (not_sent (pos 9));
  enviar_de_sincronico = λ d_id xml.
      ok (record { d_cod_res = codes "0260"; d_msg_res = []; d_est_res = some (codes "Aprobado") });
}

abbrev open_circuit : SendGateway
open_circuit = record {
  enviar_lote = λ d_id xmls. err (not_sent (pos 9));
  enviar_de_sincronico = λ d_id xml. err (failed (codes "timeout"));
}

abbrev no_failures : StoreFailures
no_failures = record {
  claim_fails = none;
  release_fails = none;
  record_fails = none;
  settle_fails = none;
}

falls_back : attempt plain batch_only 1 true lote ≡ recorded (sent (codes "45"))
unfolding operations
falls_back = refl

settles_at_once :
    (next : LoteRow) × (execute default_dispatch_config no_failures plain synchronous
        (pos 5)
        none
        (some (ok true))
        1
        (codes "L")
        lote
        pending_row
      ≡ ends
          (ok (
            processed (record {
              cdc = codes "A";
              status = ResolutionStatus.approved;
              messages = record { code = codes "0260"; message = [] } ∷ [];
            })))
          next
          none)
    × (next.status ≡ LoteStatus.processed)
unfolding operations
settles_at_once = (_, refl, refl)

-- The record of an accepted lote fails: the error propagates, and the lote stays sending.
stays_sending :
    (next : LoteRow) × (execute default_dispatch_config
        (record no_failures { record_fails = some (codes "timeout") })
        plain
        batch_only
        (pos 5)
        none
        none
        1
        (codes "L")
        lote
        pending_row
      ≡ ends (err (store_failed (codes "timeout"))) next none)
    × (next.status ≡ LoteStatus.sending)
unfolding operations
stays_sending = (_, refl, refl)

timed_out : attempt plain open_circuit 1 true lote ≡ recorded (unknown (codes "timeout"))
unfolding operations
timed_out = refl

blocked : is_ruc_block_message plain (codes "RUC Emisor Bloqueado por envio duplicado") ≡ true
unfolding operations
blocked = refl

not_blocked : is_ruc_block_message plain (codes "RUC desbloqueado") ≡ false
unfolding operations
not_blocked = refl

execute-EndsRecorded_example :
    EndsRecorded default_dispatch_config no_failures
      (some (ok true))
      (pos 5)
      lote.documents
      pending_row
      (execute default_dispatch_config no_failures plain synchronous
        (pos 5)
        none
        (some (ok true))
        1
        (codes "L")
        lote
        pending_row)
execute-EndsRecorded_example =
    execute-EndsRecorded default_dispatch_config no_failures plain synchronous (pos 5) none
      (some (ok true)) 1 (codes "L") lote pending_row
      (record { cdc = codes "A"; xml = codes "<rDE/>" }) [] refl

abbrev sending_row : LoteRow
sending_row = record pending_row { status = LoteStatus.sending }

abbrev refused_row : LoteRow
refused_row = record sending_row {
  status = LoteStatus.rejected;
  response_code = some (codes "0301");
  response_message = some (codes "Lote no encolado");
  documents =
      record queued_document { transmission_attempts = 1; next_transmission_at = some (pos 300005) }
      ∷ [];
}

refused_run :
    record_outcome default_dispatch_config
      (pos 5)
      (rejected (codes "0301") (codes "Lote no encolado") false)
      sending_row
    ≡ ok (refused_row, none)
unfolding operations
refused_run = refl

record_rejected-AfterRefusal_example :
    Pointwise
      (AfterRefusal default_dispatch_config (pos 5) false)
      sending_row.documents
      refused_row.documents
record_rejected-AfterRefusal_example =
    record_rejected-AfterRefusal default_dispatch_config (pos 5) sending_row refused_row
      (codes "0301") (codes "Lote no encolado") false none refused_run

-- A worker whose send was refused on this side gives the lote back, and another one sends it.
abbrev claimed_row : LoteRow
claimed_row = record pending_row { status = LoteStatus.sending; send_attempted_at = some (pos 5) }

abbrev at_start : System
at_start = record { row = pending_row; workers = []; reached = 0 }

abbrev with_claim : System
with_claim = record { row = claimed_row; workers = claimed ∷ []; reached = 0 }

abbrev refused : System
refused = record { row = claimed_row; workers = called (deferred (pos 9)) ∷ []; reached = 0 }

abbrev accepted : System
accepted = record {
  row = claimed_row;
  workers = called (recorded (sent (codes "45"))) ∷ [];
  reached = 1;
}

two_sends : Steps at_start accepted
unfolding operations
two_sends =
    let one = more at_start at_start with_claim (done at_start) (claims (pos 5) at_start refl) in
    let two =
      more at_start with_claim refused one
        (calls plain open_circuit 1 false lote with_claim [] [] refl) in
    let three = more at_start refused at_start two (releases (pos 9) refused [] [] refl) in
    let four = more at_start at_start with_claim three (claims (pos 5) at_start refl) in
    more at_start with_claim accepted four
      (calls plain batch_only 1 false lote with_claim [] [] refl)

sent_once_example :
    (accepted.reached + slot accepted.row.status ≤ 1)
    × (length accepted.workers + slot accepted.row.status ≤ 1)
sent_once_example = sent_once pending_row accepted refl two_sends
