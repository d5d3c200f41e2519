-- ===== src/Transmission/Send.antt =====
-- apps/api/src/modules/transmission/application/send-lote.ts and ruc-block.ts: the send of a lote.
-- `Store` has the transactions on its row, `Machine` the workers that send it at the same time.
-- The gateway is a parameter; an error that it throws is `not_sent`, where it refused on this side (an
-- open circuit, a tenant that is not available), or `failed` with its message.
pub mod Store
pub mod Worker
pub mod Settled
pub mod Recorded
pub mod Machine
pub mod Once
pub mod Backoff
mod Tests
use facturacion_sifen.Prelude.{
  ℕ, Bool, true, false, not, Option, none, some, List, [], ◌∷◌, ◌++◌, map, Result, ok, err, leb,
  ◌==◌, ◌&&◌, ◌||◌, if◌then◌else◌, Text, text_eq, codes, is_digit, is_upper,
}
use facturacion_sifen.Prelude.Int.{ℤ}
use facturacion_sifen.Transmission.Lote.{LoteDocument, Lote}
use facturacion_sifen.Transmission.Row.{SifenMessage}
use facturacion_sifen.Transmission.Poll.{
  ResolutionStatus, DocumentResolution, Unicode, document_status_of,
}

-- `\w`
abbrev pub is_word : ℕ → Bool
is_word c = is_digit c || is_upper c || (leb b'a' c && leb c b'z') || (c == b'_')

-- Whether the text stands at the start, up to the end of a word.
abbrev pub word_here : (word text : Text) → Bool
word_here [] [] = true
word_here [] (c ∷ cs) = not (is_word c)
word_here (w ∷ ws) [] = false
word_here (w ∷ ws) (c ∷ cs) = (w == c) && word_here ws cs

-- `/\bword\b/.test(text)`, after a character that is of a word or not.
unfoldable pub has_word_after : Bool → (word text : Text) → Bool
has_word_after inside word [] = false
has_word_after inside word (c ∷ cs) =
    (not inside && word_here word (c ∷ cs)) || has_word_after (is_word c) word cs

unfoldable pub is_ruc_block_message : Unicode → Text → Bool
unfolding has_word_after
is_ruc_block_message u message =
    let text = u.to_lower_case (u.strip_marks message) in
    (has_word_after false (codes "bloqueado") text
      || has_word_after false (codes "bloqueada") text
      || has_word_after false (codes "bloqueo") text)
    && (has_word_after false (codes "ruc") text
        || has_word_after false (codes "emisor") text
        || has_word_after false (codes "contribuyente") text
        || has_word_after false (codes "duplicado") text)

pub data Thrown : Type 0 where
  not_sent : (retry_at : ℤ) → Thrown
  failed : (reason : Text) → Thrown

-- The answer of `enviarLote`.
pub record Receipt : Type 0 where
  pub d_cod_res : Text
  pub d_msg_res : Text
  pub d_prot_cons_lote : Option Text

-- The answer of `enviarDESincronico`.
pub record SyncAnswer : Type 0 where
  pub d_cod_res : Text
  pub d_msg_res : Text
  pub d_est_res : Option Text

pub record SendGateway : Type 0 where
  pub enviar_lote : (d_id : ℕ) → List Text → Result Thrown Receipt
  pub enviar_de_sincronico : (d_id : ℕ) → Text → Result Thrown SyncAnswer

-- `RecordedOutcome`
pub data RecordedOutcome : Type 0 where
  sent : (d_prot_cons_lote : Text) → RecordedOutcome
  rejected : (code reason : Text) (ruc_blocked : Bool) → RecordedOutcome
  unknown : (reason : Text) → RecordedOutcome

-- What the calls of the gateway led to: an outcome to record, the settlement of a synchronous answer to
-- store, or nothing sent before `retry_at`.
pub data Attempt : Type 0 where
  recorded : RecordedOutcome → Attempt
  settles : DocumentResolution → Attempt
  deferred : (retry_at : ℤ) → Attempt

abbrev not_accepted : Unicode → Receipt → RecordedOutcome
not_accepted u receipt =
    if text_eq receipt.d_cod_res (codes "0301")
    then rejected receipt.d_cod_res receipt.d_msg_res (is_ruc_block_message u receipt.d_msg_res)
    else unknown (
        codes "Unexpected siRecepLoteDE response "
        ++ receipt.d_cod_res
        ++ codes ": "
        ++ receipt.d_msg_res)

-- An empty protocol is falsy.
abbrev pub accepted_as : Unicode → Receipt → Option Text → RecordedOutcome
accepted_as u receipt (some (c ∷ cs)) =
    if text_eq receipt.d_cod_res (codes "0300") then sent (c ∷ cs) else not_accepted u receipt
accepted_as u receipt _ = not_accepted u receipt

unfoldable pub interpret : Unicode → Receipt → RecordedOutcome
interpret u receipt = accepted_as u receipt receipt.d_prot_cons_lote

abbrev thrown : Thrown → Attempt
thrown (not_sent retry_at) = deferred retry_at
thrown (failed reason) = recorded (unknown reason)

abbrev dispatched : Unicode → Result Thrown Receipt → Attempt
dispatched u (ok receipt) = recorded (interpret u receipt)
dispatched u (err e) = thrown e

unfoldable pub dispatch : Unicode → SendGateway → ℕ → Lote → Attempt
dispatch u gateway d_id lote =
    dispatched u (gateway.enviar_lote d_id (map (λ d. d.xml) lote.documents))

abbrev text_or_empty : Option Text → Text
text_or_empty none = []
text_or_empty (some t) = t

abbrev resolved_as : LoteDocument → SyncAnswer → Option ResolutionStatus → Attempt
resolved_as document answer none = recorded (
    unknown (
      codes "Unexpected siRecepDE response " ++ answer.d_cod_res ++ codes ": " ++ answer.d_msg_res))
resolved_as document answer (some status) = settles (record {
  cdc = document.cdc;
  status = status;
  messages = record { code = answer.d_cod_res; message = answer.d_msg_res } ∷ [];
})

-- `none` where the batch must run instead. The flag that 1264 clears is not the lote's.
abbrev sync_answered : Unicode → LoteDocument → Result Thrown SyncAnswer → Option Attempt
sync_answered u document (err e) = some (thrown e)
sync_answered u document (ok answer) =
    if text_eq answer.d_cod_res (codes "1264")
    then none
    else some (resolved_as document answer (document_status_of u (text_or_empty answer.d_est_res)))

-- `sync_enabled`: the tenant has opted in (`sync` is wired and `isEnabled` says so).
abbrev sync_of :
    Unicode → SendGateway → ℕ → (sync_enabled : Bool) → List LoteDocument → Option Attempt
sync_of u gateway d_id true (document ∷ []) =
    sync_answered u document (gateway.enviar_de_sincronico d_id document.xml)
sync_of u gateway d_id _ _ = none

unfoldable pub dispatch_sync :
    Unicode → SendGateway → ℕ → (sync_enabled : Bool) → Lote → Option Attempt
dispatch_sync u gateway d_id sync_enabled lote = sync_of u gateway d_id sync_enabled lote.documents

abbrev synchronous_or : Option Attempt → Attempt → Attempt
synchronous_or none batch = batch
synchronous_or (some synchronous) batch = synchronous

-- `synchronous ?? (await this.dispatch(command))`
unfoldable pub attempt : Unicode → SendGateway → ℕ → (sync_enabled : Bool) → Lote → Attempt
unfolding dispatch dispatch_sync
attempt u gateway d_id sync_enabled lote =
    synchronous_or (dispatch_sync u gateway d_id sync_enabled lote) (dispatch u gateway d_id lote)
