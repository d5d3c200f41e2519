-- ===== src/Transmission/Cycle/Tests.antt =====
-- A run of the cycle over a few lotes and documents, and the theorems at it.
use facturacion_sifen.Prelude.{
  ℕ, ◌≡◌, refl, Bool, false, Option, none, List, [], ◌∷◌, Result, ok, err, Text, text_eq, codes,
  if◌then◌else◌,
}
use facturacion_sifen.Prelude.Int.{ℤ, pos}
use facturacion_sifen.Transmission.Send.{sent}
use facturacion_sifen.Transmission.Send.Worker.{SendResult, dispatched, deferred_until}
use facturacion_sifen.Transmission.Cycle.{
  CycleStep, PendingLote, sends, defers_pending, signs, holds_document, start, guard_work,
  CycleDeps, send_loop, send_pending,
}
use facturacion_sifen.Transmission.Cycle.Sending.{send_pending-calls}
use facturacion_sifen.Transmission.Cycle.Parking.{sign_accepted-calls}
use facturacion_sifen.Transmission.Cycle.Steps.{
  park_if_deterministic, sign_loop, sign_accepted, poll_loop, poll_due, recover_loop, recover_due,
  run_cycle,
}

operations : Unit {0}
unfolding guard_work send_loop send_pending park_if_deterministic sign_loop sign_accepted poll_loop
    poll_due recover_loop recover_due run_cycle
operations = tt

abbrev lote : Text → PendingLote
lote id = record {
  lote_id = id;
  lote = record {
    identity = record { ruc_base = codes "44444401"; ruc_dv = 7; document_type = codes "01" };
    documents = [];
  };
}

-- A fails, E has no request id, B is sent, C is deferred, so D is not tried.
abbrev sent_as : PendingLote → Result Text SendResult
sent_as p =
    if text_eq p.lote_id (codes "A")
    then err (codes "TypeError")
    else if text_eq p.lote_id (codes "C")
    then ok (deferred_until (pos 9))
    else ok (dispatched (sent (codes "45")))

-- The id of a request cannot be reserved for E.
abbrev reserved_for : CycleStep → Text → Result Text ℕ
reserved_for step id = if text_eq id (codes "E") then err (codes "Error") else ok 1

abbrev signed_as : Text → Result Text Bool
signed_as id =
    if text_eq id (codes "x")
    then err (codes "CertificateNotFoundError")
    else err (codes "FetchError")

abbrev lotes : List PendingLote
lotes =
    lote (codes "A")
    ∷ lote (codes "E")
    ∷ lote (codes "B")
    ∷ lote (codes "C")
    ∷ lote (codes "D")
    ∷ []

abbrev deps : Result Text (Option ℤ) → CycleDeps
deps pause = record {
  aborted = λ n. false;
  ruc_blocked_until = λ later. pause;
  pending_lotes = ok lotes;
  next_request_id = reserved_for;
  send = λ p d_id. sent_as p;
  defer_pending = λ p. ok tt;
  due_lotes = ok [];
  poll = λ id d_id. ok (codes "pending");
  recoverable_lotes = ok [];
  recover = λ id. ok (codes "recovered");
  accepted_documents = ok (codes "x" ∷ codes "y" ∷ []);
  sign = signed_as;
  assemble = ok 0;
  sweep_stale_sending = ok 0;
  held_documents = ok [];
  pending_older_than = ok 0;
  hold_document = λ id error. ok tt;
}

send_pending-calls_example :
    (send_pending (deps (ok none)) start).1.calls
    ≡ sends (codes "A")
      ∷ defers_pending (codes "A")
      ∷ defers_pending (codes "E")
      ∷ sends (codes "B")
      ∷ sends (codes "C")
      ∷ []
send_pending-calls_example = send_pending-calls (deps (ok none)) start lotes (λ n. refl) refl refl

sign_accepted-calls_example :
    (sign_accepted (deps (ok none)) start).1.calls
    ≡ signs (codes "x") ∷ holds_document (codes "x") ∷ signs (codes "y") ∷ []
sign_accepted-calls_example =
    sign_accepted-calls (deps (ok none)) start (codes "x" ∷ codes "y" ∷ []) (λ n. refl) refl

whole_run :
    (run_cycle (deps (ok none))).1.calls
    ≡ signs (codes "x")
      ∷ holds_document (codes "x")
      ∷ signs (codes "y")
      ∷ sends (codes "A")
      ∷ defers_pending (codes "A")
      ∷ defers_pending (codes "E")
      ∷ sends (codes "B")
      ∷ sends (codes "C")
      ∷ []
unfolding operations
whole_run = refl
