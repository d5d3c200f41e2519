-- ===== src/Transmission/Cycle/Steps.antt =====
-- The other steps of transmission-cycle.ts: signing, polling, recovering, and the order of a run. The
-- steps of the issuer's events repeat those of the documents and are left out.
use facturacion_sifen.Prelude.{
  ℕ, ◌+◌, Bool, true, false, Option, none, some, List, [], ◌∷◌, ◌++◌, ◌&&◌, ◌||◌, if◌then◌else◌,
  Text, text_eq, codes,
}
use facturacion_sifen.Transmission.Cycle.{
  sign, assemble, send, poll, recover, CycleFailure, signs, polls, recovers, holds_document, Run,
  start, guard_work, or_none, CycleDeps, if_reserved, with_request_id, SendReport, send_pending,
}

-- `DETERMINISTIC_SIGNING_ERRORS`
abbrev pub deterministic_signing_errors : List Text
deterministic_signing_errors =
    codes "SigningDataIncompleteError"
    ∷ codes "DocumentTypeNotSignableError"
    ∷ codes "EstablishmentContactMissingError"
    ∷ codes "CscNotConfiguredError"
    ∷ codes "DocumentEnvironmentMismatchError"
    ∷ codes "CertificateNotFoundError"
    ∷ codes "CertificateValidityError"
    ∷ codes "SecretDecryptionError"
    ∷ codes "InvoiceXmlError"
    ∷ codes "InvoiceQrError"
    ∷ codes "SigningMismatchError"
    ∷ []

abbrev pub is_one_of : List Text → Text → Bool
is_one_of [] t = false
is_one_of (s ∷ ss) t = text_eq s t || is_one_of ss t

-- `this.failures.at(-1)`
abbrev pub last_failure : List CycleFailure → Option CycleFailure
last_failure [] = none
last_failure (f ∷ fs) = elim (last_failure fs) [ none ↦ some f | some l ↦ some l ]

abbrev pub is_for : Option Text → Text → Bool
is_for none id = false
is_for (some other) id = text_eq other id

abbrev pub parked : CycleDeps → Text → Option CycleFailure → Run → Run
parked deps id none run = run
parked deps id (some last) run =
    if is_for last.id id && is_one_of deterministic_signing_errors last.error
    then (guard_work deps.aborted sign (some id) (some (holds_document id))
        (deps.hold_document id (codes "signing:" ++ last.error)) run).1
    else run

-- `parkIfDeterministic`
unfoldable pub park_if_deterministic : CycleDeps → Text → Run → Run
unfolding guard_work
park_if_deterministic deps id run = parked deps id (last_failure run.failures) run

pub record Signing : Type 0 where
  pub signed : ℕ
  pub sign_skipped : ℕ

abbrev pub after_sign : CycleDeps → Text → Signing → Option Bool × Run → Signing × Run
after_sign deps id s (none, run) = (s, park_if_deterministic deps id run)
after_sign deps id s (some true, run) = (record s { signed = s.signed + 1 }, run)
after_sign deps id s (some false, run) = (record s { sign_skipped = s.sign_skipped + 1 }, run)

unfoldable pub sign_loop : CycleDeps → List Text → Signing → Run → Signing × Run
unfolding guard_work park_if_deterministic
sign_loop deps [] s run = (s, run)
sign_loop deps (id ∷ ids) s run =
    let next =
      after_sign deps id s
        (guard_work deps.aborted sign (some id) (some (signs id)) (deps.sign id) run) in
    sign_loop deps ids next.0 next.1

unfoldable pub sign_accepted : CycleDeps → Run → Signing × Run
unfolding guard_work sign_loop
sign_accepted deps run =
    let listed = guard_work deps.aborted sign none none deps.accepted_documents run in
    sign_loop deps (or_none listed.0) (record { signed = 0; sign_skipped = 0 }) listed.1

-- One status for each lote whose unit of work ended.
abbrev pub with_status : Text → Option Text → List (Text × Text) → List (Text × Text)
with_status id none l = l
with_status id (some status) l = l ++ (id, status) ∷ []

unfoldable pub poll_loop :
    CycleDeps → List Text → List (Text × Text) → Run → List (Text × Text) × Run
unfolding guard_work
poll_loop deps [] polled run = (polled, run)
poll_loop deps (id ∷ ids) polled run =
    let reserved = deps.next_request_id poll id in
    let next =
      guard_work deps.aborted poll (some id) (if_reserved reserved (polls id))
        (with_request_id reserved (deps.poll id)) run in
    poll_loop deps ids (with_status id next.0 polled) next.1

unfoldable pub poll_due : CycleDeps → Run → List (Text × Text) × Run
unfolding guard_work poll_loop
poll_due deps run =
    let listed = guard_work deps.aborted poll none none deps.due_lotes run in
    poll_loop deps (or_none listed.0) [] listed.1

unfoldable pub recover_loop :
    CycleDeps → List Text → List (Text × Text) → Run → List (Text × Text) × Run
unfolding guard_work
recover_loop deps [] done run = (done, run)
recover_loop deps (id ∷ ids) done run =
    let next =
      guard_work deps.aborted recover (some id) (some (recovers id)) (deps.recover id) run in
    recover_loop deps ids (with_status id next.0 done) next.1

unfoldable pub recover_due : CycleDeps → Run → List (Text × Text) × Run
unfolding guard_work recover_loop
recover_due deps run =
    let listed = guard_work deps.aborted recover none none deps.recoverable_lotes run in
    recover_loop deps (or_none listed.0) [] listed.1

pub record CycleReport : Type 0 where
  pub signing : Signing
  pub assembled : ℕ
  pub swept_sending : ℕ
  pub sending : SendReport
  pub polled : List (Text × Text)
  pub recovered : List (Text × Text)
  pub held : List Text
  pub stale_pending : ℕ
  pub failures : List CycleFailure

abbrev pub or_zero : Option ℕ → ℕ
or_zero none = 0
or_zero (some n) = n

-- `run`: the steps in their order, each whatever the others came to.
unfoldable pub run_cycle : CycleDeps → CycleReport × Run
unfolding guard_work sign_accepted send_pending poll_due recover_due
run_cycle deps =
    let (signing, after_signing) = sign_accepted deps start in
    let (lotes, after_assembly) =
      guard_work deps.aborted assemble none none deps.assemble after_signing in
    let (swept, after_sweep) =
      guard_work deps.aborted send none none deps.sweep_stale_sending after_assembly in
    let (sending, after_sending) = send_pending deps after_sweep in
    let (polled, after_poll) = poll_due deps after_sending in
    let (recovered, after_recovery) = recover_due deps after_poll in
    let (held, after_held) =
      guard_work deps.aborted sign none none deps.held_documents after_recovery in
    let (stale, last) = guard_work deps.aborted send none none deps.pending_older_than after_held in
    (
      record {
        signing = signing;
        assembled = or_zero lotes;
        swept_sending = or_zero swept;
        sending = sending;
        polled = polled;
        recovered = recovered;
        held = or_none held;
        stale_pending = or_zero stale;
        failures = last.failures;
      },
      last,
    )
