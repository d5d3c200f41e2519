-- ===== src/Transmission/Cycle/Parking.antt =====
-- Which documents a run signs and parks: `signAccepted` with `parkIfDeterministic` of
-- transmission-cycle.ts.
use facturacion_sifen.Prelude.{
  ℕ, ◌+◌, ◌≡◌, refl, sym, ap, ◌∙◌, Bool, true, false, Option, none, some, List, [], ◌∷◌, ◌++◌,
  append_assoc, append-nil, Result, ok, err, if◌then◌else◌, Text, text_eq_refl, codes,
}
use facturacion_sifen.Transmission.Cycle.{
  sign, CycleFailure, Call, signs, holds_document, Run, worked, guard_work, CycleDeps,
}
use facturacion_sifen.Transmission.Cycle.Sending.{guard_work-worked}
use facturacion_sifen.Transmission.Cycle.Steps.{
  deterministic_signing_errors, is_one_of, last_failure, parked, park_if_deterministic, Signing,
  after_sign, sign_loop, sign_accepted,
}

-- The calls for one document: it is parked where its error repeats until data change.
abbrev pub signing_calls_for : Text → Result Text Bool → List Call
signing_calls_for id (ok signed) = signs id ∷ []
signing_calls_for id (err e) =
    signs id ∷ (if is_one_of deterministic_signing_errors e then holds_document id ∷ [] else [])

abbrev pub signing_calls : (Text → Result Text Bool) → List Text → List Call
signing_calls signed_as [] = []
signing_calls signed_as (id ∷ ids) =
    signing_calls_for id (signed_as id) ++ signing_calls signed_as ids

last_failure-snoc :
    (fs : List CycleFailure) (f : CycleFailure) → last_failure (fs ++ f ∷ []) ≡ some f
last_failure-snoc [] f = refl
last_failure-snoc (g ∷ gs) f = rw (last_failure-snoc gs f) refl

module _ (deps : CycleDeps) (running : (n : ℕ) → deps.aborted n ≡ false) where
  parked-calls :
      (id e : Text) (run : Run)
      → (parked deps id (some (record { step = sign; id = some id; error = e })) run).calls
        ≡ run.calls
          ++ (if is_one_of deterministic_signing_errors e then holds_document id ∷ [] else [])
  parked-calls id e run = rw (text_eq_refl id) (pick (is_one_of deterministic_signing_errors e))
    where
      held : Option (Unit {0}) × Run
      held =
          guard_work deps.aborted sign (some id) (some (holds_document id))
            (deps.hold_document id (codes "signing:" ++ e)) run

      answered :
          (w : Result Text (Unit {0}))
          → (worked {A = Unit {0}} sign (some id) (some (holds_document id)) w run).1.calls
            ≡ run.calls ++ holds_document id ∷ []
      answered (ok u) = refl
      answered (err f) = refl

      pick :
          (b : Bool)
          → (if b then held.1 else run).calls
            ≡ run.calls ++ (if b then holds_document id ∷ [] else [])
      pick false = sym (append-nil run.calls)
      pick true =
          ap (λ x. x.1.calls)
            (guard_work-worked deps running sign (some id) (some (holds_document id))
              (deps.hold_document id (codes "signing:" ++ e)) run)
          ∙ answered (deps.hold_document id (codes "signing:" ++ e))

  after_sign-calls :
      (id : Text) (s : Signing) (r : Result Text Bool) (run : Run)
      → (after_sign deps id s (worked sign (some id) (some (signs id)) r run)).1.calls
        ≡ run.calls ++ signing_calls_for id r
  unfolding park_if_deterministic
  after_sign-calls id s (ok true) run = refl
  after_sign-calls id s (ok false) run = refl
  after_sign-calls id s (err e) run =
      let next : Run = (worked {A = Bool} sign (some id) (some (signs id)) (err e) run).1 in
      ap (λ o. (parked deps id o next).calls)
        (last_failure-snoc run.failures (record { step = sign; id = some id; error = e }))
      ∙ parked-calls id e next
      ∙ append_assoc run.calls (signs id ∷ [])
          (if is_one_of deterministic_signing_errors e then holds_document id ∷ [] else [])

  sign_loop-calls :
      (ids : List Text) (s : Signing) (run : Run)
      → (sign_loop deps ids s run).1.calls ≡ run.calls ++ signing_calls deps.sign ids
  unfolding sign_loop
  sign_loop-calls [] s run = sym (append-nil run.calls)
  sign_loop-calls (id ∷ ids) s run =
      let next =
        after_sign deps id s
          (guard_work deps.aborted sign (some id) (some (signs id)) (deps.sign id) run) in
      sign_loop-calls ids next.0 next.1
      ∙ ap (λ l. l ++ signing_calls deps.sign ids)
          (ap (λ x. (after_sign deps id s x).1.calls)
              (guard_work-worked deps running sign (some id) (some (signs id)) (deps.sign id) run)
            ∙ after_sign-calls id s (deps.sign id) run)
      ∙ append_assoc run.calls (signing_calls_for id (deps.sign id)) (signing_calls deps.sign ids)

-- While the run keeps its lock, it signs each accepted document once, in their order, and parks a document
-- exactly where its signing failed with an error that repeats until data change.
pub sign_accepted-calls :
    (deps : CycleDeps) (run : Run) (ids : List Text)
    → ((n : ℕ) → deps.aborted n ≡ false)
    → deps.accepted_documents ≡ ok ids
    → (sign_accepted deps run).1.calls ≡ run.calls ++ signing_calls deps.sign ids
unfolding sign_accepted
sign_accepted-calls deps run ids running listed =
    rw (guard_work-worked deps running sign none none deps.accepted_documents run, listed)
      (sign_loop-calls deps running ids (record { signed = 0; sign_skipped = 0 })
        (record run { units = run.units + 1 }))
