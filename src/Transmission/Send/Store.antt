-- ===== src/Transmission/Send/Store.antt =====
-- apps/api/src/modules/transmission/infrastructure: the transactions of drizzle-lote-dispatch-store.ts
-- on the row of a lote, with `recordSettled` of drizzle-sync-dispatch.ts and `sweepStaleSending` of
-- drizzle-transmission-cycle-store.ts. `now` is one reading of the clock for a transaction, and one that
-- throws leaves the row as it was. The tenant of the lote exists.
use facturacion_sifen.Prelude.{
  ℕ, ◌+◌, ◌-◌, ◌*◌, ◌^◌, min, Bool, true, false, Option, none, some, List, map, Result, ok, err,
  ◌>>=◌, leb, ◌&&◌, ◌||◌, if◌then◌else◌, Text, text_eq, codes, take,
}
use facturacion_sifen.Prelude.Int.{ℤ, pos, ◌+ℤ◌, ltb_ℤ}
use facturacion_sifen.Transmission.Row.{
  DocumentStatus, LoteStatus, DocumentRow, LoteRow, is_pending, is_sending, is_unknown, is_queued,
}
use facturacion_sifen.Transmission.Poll.{DocumentResolution}
use facturacion_sifen.Transmission.Poll.Store.{SettleError, settle_document}
use facturacion_sifen.Transmission.Send.{RecordedOutcome, sent, rejected, unknown}

-- `claim`: only the caller that moves the row from `pending` to `sending` wins.
unfoldable pub claim : ℤ → LoteRow → Bool × LoteRow
claim now row =
    if is_pending row.status
    then (true, record row { status = LoteStatus.sending; send_attempted_at = some now })
    else (false, row)

unfoldable pub release : LoteRow → LoteRow
release row =
    if is_sending row.status
    then record row { status = LoteStatus.pending; send_attempted_at = none }
    else row

-- `sweepStaleSending`, for a lote that it picks.
unfoldable pub sweep : LoteRow → LoteRow
sweep row =
    if is_sending row.status
    then record row {
      status = LoteStatus.unknown;
      response_message = some (codes "Send interrupted: no outcome was recorded");
    }
    else row

pub record DispatchConfig : Type 0 where
  pub max_transmission_attempts : ℕ
  pub ruc_block_ms : ℕ

abbrev pub default_dispatch_config : DispatchConfig
default_dispatch_config = record { max_transmission_attempts = 5; ruc_block_ms = 1800000 }

-- A row of `ruc_blocks`.
pub record RucBlock : Type 0 where
  pub blocked_at : ℤ
  pub blocked_until : ℤ
  pub reason : Text

abbrev pub is_unresolved_hold : Option Text → Bool
is_unresolved_hold none = false
is_unresolved_hold (some hold) = text_eq hold (codes "recovery:0420-unresolved")

-- `releaseRecoveryHolds`, on one document.
abbrev pub released_hold : DocumentRow → DocumentRow
released_hold d =
    if is_queued d.status && is_unresolved_hold d.transmission_hold
    then record d { transmission_hold = none }
    else d

-- `queued -> submitted`
abbrev pub submitted : DocumentRow → DocumentRow
submitted d = if is_queued d.status then record d { status = DocumentStatus.submitted } else d

abbrev pub waits_less : Option ℤ → ℤ → Bool
waits_less none until = true
waits_less (some at) until = ltb_ℤ at until

-- The documents of `pauseTenant`, one by one.
abbrev pub paused : ℤ → DocumentRow → DocumentRow
paused until d =
    if is_queued d.status && waits_less d.next_transmission_at until
    then record d { next_transmission_at = some until }
    else d

-- `Math.min(BASE_BACKOFF_MS * 2 ** (attempts - 1), MAX_BACKOFF_MS)`: from 2^1024 on the power is
-- infinite, and the minimum is the same.
abbrev pub backoff_ms : ℕ → ℕ
backoff_ms attempts = min (300000 * 2 ^ (attempts - 1)) 7200000

abbrev pub exhausted_hold : Text
exhausted_hold = codes "transmission:attempts-exhausted"

-- The documents of `backOff`, one by one.
unfoldable pub backed_off : DispatchConfig → ℤ → DocumentRow → DocumentRow
backed_off config now d =
    if is_queued d.status
    then (let attempts = d.transmission_attempts + 1 in
        if leb config.max_transmission_attempts attempts
        then record d {
          transmission_attempts = attempts;
          next_transmission_at = none;
          transmission_hold = some exhausted_hold;
        }
        else record d {
          transmission_attempts = attempts;
          next_transmission_at = some (now +ℤ pos (backoff_ms attempts));
        })
    else d

-- `columnsFor`
abbrev pub columns_for : RecordedOutcome → ℤ → LoteRow → LoteRow
columns_for (sent protocol) at row = record row {
  status = LoteStatus.sent;
  sifen_protocol = some protocol;
  sent_at = some at;
  next_poll_at = some (at +ℤ pos 600000);
  poll_deadline_at = some (at +ℤ pos 172800000);
}
columns_for (rejected code reason ruc_blocked) at row = record row {
  status = LoteStatus.rejected;
  response_code = some code;
  response_message = some reason;
}
columns_for (unknown reason) at row = record row {
  status = LoteStatus.unknown;
  response_message = some reason;
}

abbrev pub documents_after :
    DispatchConfig → ℤ → RecordedOutcome → List DocumentRow → List DocumentRow
documents_after config now (sent protocol) ds = map submitted (map released_hold ds)
documents_after config now (rejected code reason true) ds =
    map (paused (now +ℤ pos config.ruc_block_ms)) ds
documents_after config now (rejected code reason false) ds = map (backed_off config now) ds
documents_after config now (unknown reason) ds = ds

abbrev pub block_after : DispatchConfig → ℤ → RecordedOutcome → Option RucBlock
block_after config now (rejected code reason true) = some (record {
  blocked_at = now;
  blocked_until = now +ℤ pos config.ruc_block_ms;
  reason = take 500 reason;
})
block_after config now _ = none

pub data RecordError : Type 0 where
  not_in_sending_or_unknown not_in_sending : RecordError
  not_settled : SettleError → RecordError

unfoldable pub record_outcome :
    DispatchConfig → ℤ → RecordedOutcome → LoteRow → Result RecordError (LoteRow × Option RucBlock)
record_outcome config now o row =
    if is_sending row.status || is_unknown row.status
    then ok (
      record (columns_for o now row) { documents = documents_after config now o row.documents },
      block_after config now o,
    )
    else err not_in_sending_or_unknown

abbrev pub as_record_error :
    Result SettleError (List DocumentRow) → Result RecordError (List DocumentRow)
as_record_error (ok ds) = ok ds
as_record_error (err e) = err (not_settled e)

abbrev pub settled_row : ℤ → LoteRow → List DocumentRow → Result RecordError LoteRow
settled_row now row ds =
    ok (record row { status = LoteStatus.processed; sent_at = some now; documents = ds })

unfoldable pub record_settled : ℤ → DocumentResolution → LoteRow → Result RecordError LoteRow
record_settled now resolution row =
    if is_sending row.status
    then (as_record_error (settle_document (map submitted row.documents) resolution)
        >>= settled_row now row)
    else err not_in_sending
