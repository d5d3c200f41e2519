-- ===== src/Transmission/Cycle.antt =====
-- apps/api/src/modules/transmission/application/transmission-cycle.ts: one run of the cycle of a tenant. The
-- collaborators are parameters, which answer a value or the name of an error; `aborted` says at which
-- unit of work, by its number in the run, the signal has aborted. The logger is left out.
pub mod Steps
pub mod Sending
pub mod Parking
mod Tests
use facturacion_sifen.Prelude.{
  ℕ, suc, ◌+◌, Bool, true, false, not, Option, none, some, List, [], ◌∷◌, ◌++◌, Result, ok, err,
  ltb, ◌&&◌, ◌||◌, if◌then◌else◌, Text, text_eq, codes,
}
use facturacion_sifen.Prelude.Int.{ℤ}
use facturacion_sifen.Transmission.Lote.{Lote}
use facturacion_sifen.Transmission.Send.{rejected}
use facturacion_sifen.Transmission.Send.Worker.{
  SendResult, dispatched, processed, deferred_until, already_claimed,
}

pub data CycleStep : Type 0 where
  sign assemble send poll recover sign_event send_event resolve_event : CycleStep

pub record CycleFailure : Type 0 where
  pub step : CycleStep
  pub id : Option Text
  pub error : Text

-- A `pending` lote with the signed documents that it carries.
pub record PendingLote : Type 0 where
  pub lote_id : Text
  pub lote : Lote

-- What the run writes and calls, in order.
pub data Call : Type 0 where
  signs sends polls recovers signs_event : (id : Text) → Call
  defers_pending holds_document holds_event : (id : Text) → Call

-- The state of a run: its failures, the units of work so far, and the calls made.
pub record Run : Type 0 where
  pub failures : List CycleFailure
  pub units : ℕ
  pub calls : List Call

abbrev pub start : Run
start = record { failures = []; units = 0; calls = [] }

abbrev pub called : Option Call → List Call → List Call
called none calls = calls
called (some c) calls = calls ++ c ∷ []

abbrev pub worked {ℓ} :
    {A : Type ℓ} → CycleStep → Option Text → Option Call → Result Text A → Run → Option A × Run
worked step id call (ok a) run =
    (some a, record run { units = run.units + 1; calls = called call run.calls })
worked step id call (err error) run = (
  none,
  record run {
    units = run.units + 1;
    calls = called call run.calls;
    failures = run.failures ++ record { step = step; id = id; error = error } ∷ [];
  },
)

-- `guard`: runs one unit of work; a failure is recorded and yields nothing.
unfoldable pub guard_work {ℓ} :
    {A : Type ℓ}
    → (aborted : ℕ → Bool) → CycleStep
    → Option Text
    → Option Call
    → Result Text A
    → Run
    → Option A × Run
guard_work aborted step id call work run =
    if aborted run.units
    then (none, record run { units = run.units + 1 })
    else worked step id call work run

-- `ids ?? []`
abbrev pub or_none {ℓ} : {A : Type ℓ} → Option (List A) → List A
or_none none = []
or_none (some l) = l

-- The counters of `sendPending`.
pub record Sends : Type 0 where
  pub sent : List (Text × SendResult)
  pub send_skipped : ℕ
  pub send_deferred : ℕ
  pub ruc_blocks : ℕ

abbrev pub no_sends : Sends
no_sends = record { sent = []; send_skipped = 0; send_deferred = 0; ruc_blocks = 0 }

-- The branches on `result.status`.
abbrev pub counted : Text → SendResult → Sends → Sends
counted lote_id already_claimed s = record s { send_skipped = s.send_skipped + 1 }
counted lote_id (deferred_until retry_at) s = record s { send_deferred = s.send_deferred + 1 }
counted lote_id (dispatched (rejected code reason true)) s = record s {
  ruc_blocks = s.ruc_blocks + 1;
}
counted lote_id result s = record s { sent = s.sent ++ (lote_id, result) ∷ [] }

-- The answer of a collaborator goes by the step and by what it works on.
pub record CycleDeps : Type 0 where
  pub aborted : ℕ → Bool
  pub ruc_blocked_until : (later : Bool) → Result Text (Option ℤ)
  pub pending_lotes : Result Text (List PendingLote)
  pub next_request_id : CycleStep → (lote_id : Text) → Result Text ℕ
  pub send : PendingLote → (d_id : ℕ) → Result Text SendResult
  pub defer_pending : PendingLote → Result Text (Unit {0})
  pub due_lotes : Result Text (List Text)
  pub poll : Text → (d_id : ℕ) → Result Text Text
  pub recoverable_lotes : Result Text (List Text)
  pub recover : Text → Result Text Text
  pub accepted_documents : Result Text (List Text)
  pub sign : Text → Result Text Bool
  pub assemble : Result Text ℕ
  pub sweep_stale_sending : Result Text ℕ
  pub held_documents : Result Text (List Text)
  pub pending_older_than : Result Text ℕ
  pub hold_document : (id : Text) → (error : Text) → Result Text (Unit {0})

-- The call that takes a request id: it is made where the id could be reserved.
abbrev pub if_reserved : Result Text ℕ → Call → Option Call
if_reserved (ok d_id) call = some call
if_reserved (err error) call = none

-- `const dId = await this.deps.store.nextRequestId(); return …execute({ …, dId })`
abbrev pub with_request_id {ℓ} : {A : Type ℓ} → Result Text ℕ → (ℕ → Result Text A) → Result Text A
with_request_id (ok d_id) execute = execute d_id
with_request_id (err error) execute = err error

-- The unit of work of one lote in `sendPending`.
abbrev pub send_call : CycleDeps → PendingLote → Option Call
send_call deps p = if_reserved (deps.next_request_id send p.lote_id) (sends p.lote_id)

abbrev pub send_work : CycleDeps → PendingLote → Result Text SendResult
send_work deps p = with_request_id (deps.next_request_id send p.lote_id) (deps.send p)

-- A result, or the lote that failed to send goes behind the others.
abbrev pub after_send : CycleDeps → PendingLote → Sends → Option SendResult × Run → Sends × Run
after_send deps p s (some result, run) = (counted p.lote_id result s, run)
after_send deps p s (none, run) = (
  s,
  (guard_work deps.aborted send (some p.lote_id) (some (defers_pending p.lote_id))
      (deps.defer_pending p) run).1,
)

-- The body of the loop: a lote after one that was deferred is only counted, and after a block it is
-- passed over.
abbrev pub next_send :
    CycleDeps → PendingLote → Sends → Run → (deferred_before blocked_before : Bool) → Sends × Run
next_send deps p s run true blocked_before = (record s { send_deferred = s.send_deferred + 1 }, run)
next_send deps p s run false true = (s, run)
next_send deps p s run false false =
    after_send deps p s
      (guard_work deps.aborted send (some p.lote_id) (send_call deps p) (send_work deps p) run)

unfoldable pub send_loop : CycleDeps → List PendingLote → Sends → Run → Sends × Run
unfolding guard_work
send_loop deps [] s run = (s, run)
send_loop deps (p ∷ ps) s run =
    let next = next_send deps p s run (ltb 0 s.send_deferred) (ltb 0 s.ruc_blocks) in
    send_loop deps ps next.0 next.1

-- `blockedUntil`: nothing where it could not be read, then the end of the pause or null.
pub record SendReport : Type 0 where
  pub sends : Sends
  pub send_paused_until : Option ℤ

abbrev pub not_sent : Option (Option ℤ) → SendReport
not_sent none = record { sends = no_sends; send_paused_until = none }
not_sent (some until) = record { sends = no_sends; send_paused_until = until }

abbrev pub joined {ℓ} : {A : Type ℓ} → Option (Option A) → Option A
joined none = none
joined (some o) = o

-- The second reading of the pause, once the loop has met a block.
abbrev pub send_reported : CycleDeps → Sends × Run → SendReport × Run
send_reported deps (s, run) =
    if ltb 0 s.ruc_blocks
    then (let (until, next) =
          guard_work deps.aborted send none none (deps.ruc_blocked_until true) run in
        (record { sends = s; send_paused_until = joined until }, next))
    else (record { sends = s; send_paused_until = none }, run)

-- Fail closed: without a reading that says that there is no pause, nothing is sent.
abbrev pub unless_blocked : CycleDeps → Option (Option ℤ) × Run → SendReport × Run
unless_blocked deps (some none, run) =
    let (pending, next) = guard_work deps.aborted send none none deps.pending_lotes run in
    send_reported deps (send_loop deps (or_none pending) no_sends next)
unless_blocked deps (blocked, run) = (not_sent blocked, run)

unfoldable pub send_pending : CycleDeps → Run → SendReport × Run
unfolding guard_work send_loop
send_pending deps run =
    unless_blocked deps (guard_work deps.aborted send none none (deps.ruc_blocked_until false) run)
