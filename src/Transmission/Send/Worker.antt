-- ===== src/Transmission/Send/Worker.antt =====
-- `SendLote.execute` of send-lote.ts over the row of the lote: the claim, the calls, and what is stored.
-- The calls of the store are transactions, which may fail as such (`StoreFailures`): one that does leaves
-- the row as it was.
use facturacion_sifen.Prelude.{
  ℕ, Bool, true, false, Option, none, some, List, [], ◌∷◌, ◌++◌, Result, ok, err, Text, codes,
}
use facturacion_sifen.Prelude.Int.{ℤ}
use facturacion_sifen.Transmission.Lote.{LoteDocument, Lote}
use facturacion_sifen.Transmission.Row.{LoteRow, document_status_name}
use facturacion_sifen.Transmission.Poll.{DocumentResolution, Unicode}
use facturacion_sifen.Transmission.Poll.Store.{not_part_of_lote, not_submitted}
use facturacion_sifen.Transmission.Send.{
  SendGateway, RecordedOutcome, unknown, Attempt, recorded, settles, deferred, attempt,
}
use facturacion_sifen.Transmission.Send.Store.{
  DispatchConfig, RucBlock, RecordError, not_in_sending_or_unknown, not_in_sending, not_settled,
  claim, release, record_outcome, record_settled,
}

pub data SendError : Type 0 where
  empty_lote : SendError
  not_recorded : RecordError → SendError
  store_failed : (message : Text) → SendError

pub data SendResult : Type 0 where
  dispatched : RecordedOutcome → SendResult
  processed : DocumentResolution → SendResult
  deferred_until : (retry_at : ℤ) → SendResult
  already_claimed : SendResult

-- The message of the failure of each call of the store, where it fails in this run.
pub record StoreFailures : Type 0 where
  pub claim_fails : Option Text
  pub release_fails : Option Text
  pub record_fails : Option Text
  pub settle_fails : Option Text

-- The result or the error, the row that is left and the pause that was stored with it.
pub record Sent : Type 0 where
  pub result : Result SendError SendResult
  pub row : LoteRow
  pub block : Option RucBlock

abbrev pub ends : Result SendError SendResult → LoteRow → Option RucBlock → Sent
ends result row block = record { result = result; row = row; block = block }

-- A call of the store: an error of it propagates.
abbrev pub unless_fails : Option Text → LoteRow → Sent → Sent
unless_fails none row next = next
unless_fails (some message) row next = ends (err (store_failed message)) row none

-- The message of the error, which becomes the reason of `unknown`.
abbrev pub message_of : (lote_id : Text) → RecordError → Text
message_of lote_id not_in_sending_or_unknown =
    codes "Lote " ++ lote_id ++ codes " is not in sending or unknown state"
message_of lote_id not_in_sending = codes "Lote " ++ lote_id ++ codes " is not in sending state"
message_of lote_id (not_settled (not_part_of_lote cdc)) =
    codes "Document " ++ cdc ++ codes " is not part of lote " ++ lote_id
message_of lote_id (not_settled (not_submitted cdc status)) =
    codes "Document "
    ++ cdc
    ++ codes " is "
    ++ document_status_name status
    ++ codes ", expected submitted"

abbrev pub recorded_as :
    RecordedOutcome → LoteRow → Result RecordError (LoteRow × Option RucBlock) → Sent
recorded_as o row (ok (next, block)) = ends (ok (dispatched o)) next block
recorded_as o row (err e) = ends (err (not_recorded e)) row none

-- `await this.deps.store.record(command.loteId, outcome)`
unfoldable pub record_call : DispatchConfig → StoreFailures → ℤ → RecordedOutcome → LoteRow → Sent
record_call config failures now o row =
    unless_fails failures.record_fails row (recorded_as o row (record_outcome config now o row))

-- A settlement that cannot be stored makes the outcome unknown: SIFEN has the document.
abbrev pub settled_as :
    DispatchConfig
    → StoreFailures
    → ℤ
    → Text
    → DocumentResolution
    → LoteRow
    → Result RecordError LoteRow
    → Sent
settled_as config failures now lote_id resolution row (ok next) =
    ends (ok (processed resolution)) next none
settled_as config failures now lote_id resolution row (err e) =
    record_call config failures now (unknown (message_of lote_id e)) row

-- `await sync.recordSettled(loteId, resolution)`, inside the `try`.
abbrev pub settle_call :
    DispatchConfig → StoreFailures → ℤ → Text → DocumentResolution → LoteRow → Option Text → Sent
settle_call config failures now lote_id resolution row none =
    settled_as config failures now lote_id resolution row (record_settled now resolution row)
settle_call config failures now lote_id resolution row (some message) =
    record_call config failures now (unknown message) row

-- What follows the calls of the gateway.
unfoldable pub store_attempt : DispatchConfig → StoreFailures → ℤ → Text → Attempt → LoteRow → Sent
unfolding record_call
store_attempt config failures now lote_id (recorded o) row = record_call config failures now o row
store_attempt config failures now lote_id (settles resolution) row =
    settle_call config failures now lote_id resolution row failures.settle_fails
store_attempt config failures now lote_id (deferred retry_at) row =
    unless_fails failures.release_fails row (ends (ok (deferred_until retry_at)) (release row) none)

abbrev pub claimed : Bool × LoteRow → (LoteRow → Sent) → Sent
claimed (true, row) next = next row
claimed (false, row) next = ends (ok already_claimed) row none

-- `sync.isEnabled()` is asked for a lote of one document only; `none` where no `sync` is wired.
abbrev pub with_sync :
    List LoteDocument → Option (Result Text Bool) → LoteRow → (Bool → Sent) → Sent
with_sync (d ∷ []) (some (ok enabled)) row next = next enabled
with_sync (d ∷ []) (some (err message)) row next = ends (err (store_failed message)) row none
with_sync _ _ row next = next false

abbrev pub unless_paused : Option ℤ → LoteRow → Sent → Sent
unless_paused (some retry_at) row next = ends (ok (deferred_until retry_at)) row none
unless_paused none row next = next

abbrev pub unless_empty : List LoteDocument → LoteRow → Sent → Sent
unless_empty [] row next = ends (err empty_lote) row none
unless_empty (d ∷ ds) row next = next

unfoldable pub execute :
    DispatchConfig
    → StoreFailures
    → Unicode
    → SendGateway
    → (now : ℤ) → (paused_until : Option ℤ) → (is_enabled : Option (Result Text Bool)) → (d_id : ℕ)
    → (lote_id : Text) → Lote
    → LoteRow
    → Sent
unfolding store_attempt
execute config failures u gateway now paused_until is_enabled d_id lote_id lote row =
    unless_empty lote.documents row (
      unless_paused paused_until row (
        unless_fails failures.claim_fails row (
          claimed (claim now row) (λ held. with_sync lote.documents is_enabled held (λ enabled.
            store_attempt config failures now lote_id (attempt u gateway d_id enabled lote)
              held)))))
