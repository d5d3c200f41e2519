-- ===== src/Transmission/Poll/Store.antt =====
-- apps/api/src/modules/transmission/infrastructure/drizzle-lote-poll-store.ts, the transaction that
-- stores the outcome of a query, with settle-document.ts; and `execute` of poll-lote-result.ts over it.
-- A transaction that throws leaves the row as it was.
use facturacion_sifen.Prelude.{
  Bool, false, Option, none, some, List, [], ◌∷◌, ◌++◌, map, Result, ok, err, ◌>>=◌, ◌&&◌, ◌==◌,
  if◌then◌else◌, Text, codes, show, length,
}
use facturacion_sifen.Prelude.Int.{ℤ, eqb_ℤ}
use facturacion_sifen.Transmission.Row.{
  DocumentStatus, LoteStatus, DocumentRow, LoteRow, is_sent, is_submitted, rank, document_with,
  update_document,
}
use facturacion_sifen.Transmission.Poll.{
  ResolutionStatus, DocumentResolution, LotePollOutcome, pending, processed, recovery,
  LotePollState, PollResult, outcome, stale, Unicode, Query, Decision, answers, settles, decide,
}

pub data SettleError : Type 0 where
  not_part_of_lote : Text → SettleError
  not_submitted : Text → DocumentStatus → SettleError

abbrev pub status_of : ResolutionStatus → DocumentStatus
status_of ResolutionStatus.approved = DocumentStatus.approved
status_of ResolutionStatus.approved_with_observations = DocumentStatus.approved_with_observations
status_of ResolutionStatus.rejected = DocumentStatus.rejected

-- The `UPDATE` of one document that is `submitted`.
abbrev pub settled : DocumentResolution → DocumentRow → DocumentRow
settled resolution d = record d {
  status = status_of resolution.status;
  sifen_messages = resolution.messages;
}

abbrev pub settle_found :
    List DocumentRow
    → DocumentResolution
    → Option DocumentRow
    → Result SettleError (List DocumentRow)
settle_found documents resolution none = err (not_part_of_lote resolution.cdc)
settle_found documents resolution (some doc) =
    if rank doc.status == rank (status_of resolution.status)
    then ok documents
    else if is_submitted doc.status
    then ok (update_document resolution.cdc (settled resolution) documents)
    else err (not_submitted resolution.cdc doc.status)

unfoldable pub settle_document :
    List DocumentRow → DocumentResolution → Result SettleError (List DocumentRow)
settle_document documents resolution =
    settle_found documents resolution (document_with resolution.cdc documents)

unfoldable pub settle_all :
    List DocumentRow → List DocumentResolution → Result SettleError (List DocumentRow)
settle_all documents [] = ok documents
settle_all documents (r ∷ rs) = settle_document documents r >>= λ next. settle_all next rs

abbrev recovery_note : List Text → Option Text
recovery_note [] = none
recovery_note (c ∷ cs) = some (show (length (c ∷ cs)) ++ codes " document(s) need recovery")

-- `columnsFor`
abbrev pub columns_for : LotePollOutcome → ℤ → LoteRow → LoteRow
columns_for (pending at reason) polled_at row = record row {
  next_poll_at = some at;
  last_polled_at = some polled_at;
  last_poll_message = some reason;
}
columns_for (processed resolutions needs_recovery) polled_at row = record row {
  status = LoteStatus.processed;
  next_poll_at = none;
  last_polled_at = some polled_at;
  last_poll_message = recovery_note needs_recovery;
}
columns_for (recovery reason) polled_at row = record row {
  status = LoteStatus.recovery;
  next_poll_at = none;
  last_polled_at = some polled_at;
  last_poll_message = some reason;
}

abbrev pub same_instant : Option ℤ → ℤ → Bool
same_instant none at = false
same_instant (some b) at = eqb_ℤ b at

abbrev pub resolutions_of : LotePollOutcome → List DocumentResolution
resolutions_of (processed resolutions needs_recovery) = resolutions
resolutions_of _ = []

-- `none` where the row has moved on: nothing is written.
unfoldable pub record_poll :
    LoteRow
    → LotePollOutcome
    → (expected_next_poll_at polled_at : ℤ) → Result SettleError (Option LoteRow)
record_poll row o expected polled_at =
    if is_sent row.status && same_instant row.next_poll_at expected
    then (settle_all row.documents (resolutions_of o) >>= λ documents.
        ok (some (record (columns_for o polled_at row) { documents = documents })))
    else ok none

-- `load`
abbrev pub poll_state : LoteRow → LotePollState
poll_state row = record {
  status = row.status;
  d_prot_cons_lote = row.sifen_protocol;
  next_poll_at = row.next_poll_at;
  poll_deadline_at = row.poll_deadline_at;
  cdcs = map (λ d. d.cdc) row.documents;
}

abbrev pub loaded : Option LoteRow → Option LotePollState
loaded none = none
loaded (some row) = some (poll_state row)

-- `settle`
abbrev pub answered : LoteRow → LotePollOutcome → Option LoteRow → PollResult × LoteRow
answered row o none = (stale, row)
answered row o (some next) = (outcome o, next)

abbrev pub carry_out :
    LoteRow → (polled_at : ℤ) → Decision → Result SettleError (PollResult × LoteRow)
carry_out row polled_at (answers result) = ok (result, row)
carry_out row polled_at (settles expected o) =
    record_poll row o expected polled_at >>= λ written. ok (answered row o written)

-- `row` is the lote when it is loaded, `later` the lote when the outcome is stored: another worker may
-- have written in between.
unfoldable pub execute :
    Unicode
    → Query
    → (now polled_at : ℤ) → (row later : LoteRow) → Result SettleError (PollResult × LoteRow)
execute u query now polled_at row later =
    carry_out later polled_at (decide u query now (some (poll_state row)))
