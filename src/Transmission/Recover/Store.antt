-- ===== src/Transmission/Recover/Store.antt =====
-- apps/api/src/modules/transmission/infrastructure/drizzle-lote-recovery-store.ts with
-- recoverable-in-lote.ts: what a pass of the recovery stores; and `execute` of recover-lote-by-cdc.ts
-- over it. The note in `last_poll_message` is left out. `stamp` is the clock of the database, and the
-- watermark of a resend is the one that the trigger of packages/db/migrations/0070_lote_seq.sql sets.
pub mod Requeued
pub mod Settling
pub mod Resends
use facturacion_sifen.Prelude.{
  ℕ, ◌+◌, Bool, true, false, not, Option, none, some, List, [], ◌∷◌, map, Result, ok, err, ◌>>=◌,
  ltb, leb, ◌==◌, ◌&&◌, ◌||◌, if◌then◌else◌, Text, codes,
}
use facturacion_sifen.Prelude.Int.{ℤ, pos, ◌+ℤ◌, ltb_ℤ, eqb_ℤ}
use facturacion_sifen.Transmission.Row.{
  LoteStatus, DocumentStatus, DocumentRow, LoteRow, is_unknown, is_queued, is_submitted, lote_rank,
  update_document,
}
use facturacion_sifen.Transmission.Poll.{DocumentResolution}
use facturacion_sifen.Transmission.Poll.Store.{SettleError, settle_document}
use facturacion_sifen.Transmission.Recover.{
  UnresolvedCdc, LoteRecoveryOutcome, LoteRecoveryState, DeAnswer, ask, cap_of, is_processed,
  RecoverResult, recovered, incomplete, stale, refuses,
}

abbrev pub is_none {ℓ} : {A : Type ℓ} → Option A → Bool
is_none none = true
is_none (some a) = false

abbrev pub is_below : Option ℕ → ℕ → Bool
is_below none seq = true
is_below (some n) seq = ltb n seq

-- `recoverableInLote`: no later lote carries the document, and no resend has left the lote behind.
abbrev pub owned : ℕ → DocumentRow → Bool
owned seq d = leb d.latest_seq seq && is_below d.resent_after_seq seq

-- The documents that still wait for an answer of SIFEN.
abbrev pub waits : ℕ → DocumentRow → Bool
waits seq d =
    (is_queued d.status || is_submitted d.status) && is_none d.transmission_hold && owned seq d

-- `load`, in the order of the rows of the documents: the source sorts by `updated_at`.
abbrev pub asked_in : LoteStatus → ℕ → DocumentRow → Bool
asked_in status seq d =
    is_none d.transmission_hold
    && (if is_unknown status then is_queued d.status else is_submitted d.status)
    && owned seq d

abbrev pub cdcs_where : (DocumentRow → Bool) → List DocumentRow → List Text
cdcs_where test [] = []
cdcs_where test (d ∷ ds) = let rest = cdcs_where test ds in if test d then d.cdc ∷ rest else rest

abbrev pub recovery_state : LoteRow → LoteRecoveryState
recovery_state row = record {
  status = row.status;
  last_polled_at = row.last_polled_at;
  cdcs = cdcs_where (asked_in row.status row.seq) row.documents;
}

abbrev pub unresolved_hold : Text
unresolved_hold = codes "recovery:0420-unresolved"

abbrev pub after_resend_hold : Text
after_resend_hold = codes "recovery:0420-after-resend"

abbrev pub attempts_exhausted_hold : Text
attempts_exhausted_hold = codes "recovery:attempts-exhausted"

abbrev pub resent_row : (at stamp : ℤ) → DocumentRow → DocumentRow
resent_row at stamp d = record d {
  status = DocumentStatus.queued;
  resent_at = some stamp;
  resent_after_seq = some d.latest_seq;
  transmission_attempts = d.transmission_attempts + 1;
  next_transmission_at = some (at +ℤ pos 600000);
}

abbrev pub held_row : (can_resend : Bool) → DocumentRow → DocumentRow
held_row can_resend d = record d {
  transmission_hold = some (
      if not can_resend
      then unresolved_hold
      else if not (is_none d.resent_at)
      then after_resend_hold
      else attempts_exhausted_hold);
}

-- `holdOrResend`, on the document with the CDC.
unfoldable pub hold_or_resend :
    (at stamp : ℤ) → (can_resend : Bool) → (seq : ℕ) → DocumentRow → DocumentRow
hold_or_resend at stamp can_resend seq d =
    if waits seq d
    then (if can_resend && is_none d.resent_at && ltb (d.transmission_attempts + 1) 5
        then resent_row at stamp d
        else held_row can_resend d)
    else d

-- The loop over the absent CDCs.
unfoldable pub act_on :
    (at stamp : ℤ)
    → (can_resend : Bool) → (seq : ℕ) → List UnresolvedCdc
    → List DocumentRow
    → List DocumentRow
act_on at stamp can_resend seq [] ds = ds
act_on at stamp can_resend seq (e ∷ es) ds =
    act_on at stamp can_resend seq es
      (if e.absent then update_document e.cdc (hold_or_resend at stamp can_resend seq) ds else ds)

-- `confirmSubmitted`, on the document with the CDC.
abbrev pub confirmed : DocumentRow → DocumentRow
confirmed d = if is_queued d.status then record d { status = DocumentStatus.submitted } else d

-- The loop over the resolutions.
unfoldable pub settle_resolved :
    (unanswered_send : Bool)
    → List DocumentResolution
    → List DocumentRow
    → Result SettleError (List DocumentRow)
settle_resolved unanswered_send [] ds = ok ds
settle_resolved unanswered_send (r ∷ rs) ds =
    settle_document (if unanswered_send then update_document r.cdc confirmed ds else ds) r
    >>= settle_resolved unanswered_send rs

abbrev pub first_known : Option ℤ → Option ℤ → Option ℤ
first_known (some a) b = some a
first_known none b = b

abbrev pub or_created : Option ℤ → ℤ → ℤ
or_created (some a) created = a
or_created none created = created

-- `sendAttemptedAt ?? sentAt`
abbrev pub sent_since : LoteRow → Option ℤ
sent_since row = first_known row.send_attempted_at row.sent_at

-- 48 hours have passed since the send was attempted.
abbrev pub is_eligible : ℤ → LoteRow → Bool
is_eligible at row = not (ltb_ℤ at (or_created (sent_since row) row.created_at +ℤ pos 172800000))

abbrev pub same_time : Option ℤ → Option ℤ → Bool
same_time none none = true
same_time (some a) (some b) = eqb_ℤ a b
same_time _ _ = false

abbrev pub any_waits : ℕ → List DocumentRow → Bool
any_waits seq [] = false
any_waits seq (d ∷ ds) = waits seq d || any_waits seq ds

abbrev pub none_left {ℓ} : {A : Type ℓ} → List A → Bool
none_left [] = true
none_left (a ∷ rest) = false

-- The status of the lote once its documents are `ds`.
abbrev pub status_after : LoteRow → List UnresolvedCdc → List DocumentRow → LoteStatus
status_after row unresolved ds =
    if none_left unresolved
    then LoteStatus.processed
    else if not (is_processed row.status) && not (any_waits row.seq ds)
    then LoteStatus.processed
    else row.status

abbrev pub acted : ℤ → ℤ → LoteRow → List UnresolvedCdc → List DocumentRow → List DocumentRow
acted at stamp row unresolved ds =
    if is_eligible at row
    then act_on at stamp (not (is_none (sent_since row))) row.seq unresolved ds
    else ds

abbrev pub recovered_row : ℤ → LoteRow → List UnresolvedCdc → List DocumentRow → LoteRow
recovered_row at row unresolved ds = record row {
  status = status_after row unresolved ds;
  last_polled_at = some at;
  documents = ds;
}

abbrev pub recovered_with :
    ℤ → ℤ → LoteRow → LoteRecoveryOutcome → List DocumentRow → Result SettleError (Option LoteRow)
recovered_with at stamp row o ds =
    ok (some (recovered_row at row o.unresolved (acted at stamp row o.unresolved ds)))

-- `record`: `none` where the row has moved on.
unfoldable pub record_recovery :
    (expected_status : LoteStatus)
    → (expected_last_polled_at : Option ℤ) → (recovered_at stamp : ℤ) → LoteRow
    → LoteRecoveryOutcome
    → Result SettleError (Option LoteRow)
record_recovery expected_status expected_last_polled_at recovered_at stamp row o =
    if (lote_rank row.status == lote_rank expected_status)
      && same_time row.last_polled_at expected_last_polled_at
    then (settle_resolved (is_unknown expected_status) o.resolutions row.documents
        >>= recovered_with recovered_at stamp row o)
    else ok none

abbrev pub result_of : LoteRecoveryOutcome → RecoverResult
result_of o = if none_left o.unresolved then recovered o else incomplete o

abbrev pub written : LoteRow → LoteRecoveryOutcome → Option LoteRow → RecoverResult × LoteRow
written row o none = (stale, row)
written row o (some next) = (result_of o, next)

abbrev pub unless_refused :
    {R : Type 0}
    → LoteRow
    → Option RecoverResult
    → (R → Result SettleError (RecoverResult × LoteRow))
    → R
    → Result SettleError (RecoverResult × LoteRow)
unless_refused row (some r) next x = ok (r, row)
unless_refused row none next x = next x

-- `execute`: `row` is the lote when it is loaded, `later` the lote when the pass is stored.
unfoldable pub execute :
    (max_queries : Option ℕ)
    → (aborted : Bool) → (aborted_at : ℕ → Bool) → (answer : ℕ → Text → Result Text DeAnswer)
    → (now recovered_at stamp : ℤ) → (row later : LoteRow)
    → Result SettleError (RecoverResult × LoteRow)
execute max_queries aborted aborted_at answer now recovered_at stamp row later =
    unless_refused later (refuses aborted now (some (recovery_state row)))
      (λ o. record_recovery row.status row.last_polled_at recovered_at stamp later o >>= λ w.
        ok (written later o w))
      (ask (cap_of max_queries) aborted_at answer 0 (recovery_state row).cdcs)
