-- ===== src/Transmission/Send/Machine.antt =====
-- The workers that send one lote at the same time, with the crash of a worker at any point, the sweep of
-- stale sends and the poll: send-lote.ts with its transactions as the steps of a machine.
use facturacion_sifen.Prelude.{
  ℕ, ◌+◌, ◌≡◌, Bool, true, Option, some, List, ◌∷◌, ◌++◌, ok, err, Text,
}
use facturacion_sifen.Prelude.Int.{ℤ}
use facturacion_sifen.Transmission.Lote.{Lote}
use facturacion_sifen.Transmission.Row.{LoteStatus, LoteRow}
use facturacion_sifen.Transmission.Poll.{DocumentResolution, LotePollOutcome, Unicode}
use facturacion_sifen.Transmission.Poll.Store.{record_poll}
use facturacion_sifen.Transmission.Send.{
  SendGateway, RecordedOutcome, unknown, Attempt, recorded, settles, deferred, attempt,
}
use facturacion_sifen.Transmission.Send.Store.{
  DispatchConfig, RucBlock, RecordError, claim, release, sweep, record_outcome, record_settled,
}
use facturacion_sifen.Transmission.Send.Worker.{message_of}

-- A worker that holds the claim, before and after the calls of the gateway.
pub data Stage : Type 0 where
  claimed : Stage
  called : Attempt → Stage

-- `reached` counts the workers whose calls may have given the lote to SIFEN for processing: all but
-- those that end deferred. The synchronous call that 1264 answers is followed by the batch in the same
-- count.
pub record System : Type 0 where
  pub row : LoteRow
  pub workers : List Stage
  pub reached : ℕ

abbrev pub reaches : Attempt → ℕ
reaches (recorded o) = 1
reaches (settles resolution) = 1
reaches (deferred retry_at) = 0

pub data Step : System → System → Type 0 where
  claims :
      (now : ℤ) (s : System)
      → (claim now s.row).0 ≡ true
      → Step s (record s { row = (claim now s.row).1; workers = claimed ∷ s.workers })
  calls :
      (u : Unicode) (gateway : SendGateway) (d_id : ℕ) (sync_enabled : Bool) (lote : Lote)
      (s : System) (xs ys : List Stage)
      → s.workers ≡ xs ++ claimed ∷ ys
      → Step s (record s {
        workers = xs ++ called (attempt u gateway d_id sync_enabled lote) ∷ ys;
        reached = s.reached + reaches (attempt u gateway d_id sync_enabled lote);
      })
  releases :
      (retry_at : ℤ) (s : System) (xs ys : List Stage)
      → s.workers ≡ xs ++ called (deferred retry_at) ∷ ys
      → Step s (record s { row = release s.row; workers = xs ++ ys })
  records :
      (config : DispatchConfig) (now : ℤ) (o : RecordedOutcome) (s : System) (xs ys : List Stage)
      (next : LoteRow) (block : Option RucBlock)
      → s.workers ≡ xs ++ called (recorded o) ∷ ys
      → record_outcome config now o s.row ≡ ok (next, block)
      → Step s (record s { row = next; workers = xs ++ ys })
  stores_settlement :
      (now : ℤ) (resolution : DocumentResolution) (s : System) (xs ys : List Stage) (next : LoteRow)
      → s.workers ≡ xs ++ called (settles resolution) ∷ ys
      → record_settled now resolution s.row ≡ ok next
      → Step s (record s { row = next; workers = xs ++ ys })
  misses_settlement :
      (now : ℤ) (lote_id : Text) (resolution : DocumentResolution) (s : System) (xs ys : List Stage)
      (e : RecordError)
      → s.workers ≡ xs ++ called (settles resolution) ∷ ys
      → record_settled now resolution s.row ≡ err e
      → Step s
          (record s { workers = xs ++ called (recorded (unknown (message_of lote_id e))) ∷ ys })
  crashes :
      (w : Stage) (s : System) (xs ys : List Stage)
      → s.workers ≡ xs ++ w ∷ ys
      → Step s (record s { workers = xs ++ ys })
  sweeps : (s : System) → Step s (record s { row = sweep s.row })
  polls :
      (o : LotePollOutcome) (expected polled_at : ℤ) (s : System) (next : LoteRow)
      → record_poll s.row o expected polled_at ≡ ok (some next)
      → Step s (record s { row = next })

-- Any number of steps.
pub data Steps : System → System → Type 0 where
  done : (s : System) → Steps s s
  more : (s t r : System) → Steps s t → Step t r → Steps s r

-- One place for a worker to come, while the lote is `pending`.
abbrev pub slot : LoteStatus → ℕ
slot LoteStatus.pending = 1
slot _ = 0
