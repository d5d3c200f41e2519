-- ===== src/Transmission/Cycle/Sending.antt =====
-- Which lotes a run of `sendPending` in transmission-cycle.ts sends: none while the pause of the tenant is
-- not known to be over, and none after the first that was deferred or met a block of the RUC.
use facturacion_sifen.Prelude.{
  ℕ, ◌+◌, ◌<◌, ◌≡◌, ◌⊎◌, inl, inr, refl, sym, ap, ◌∙◌, arith, Bool, true, false, Option, none, some,
  List, [], ◌∷◌, ◌++◌, append_assoc, append-nil, Result, ok, err, ltb, lt→ltb, ltb-false,
  if◌then◌else◌, Text,
}
use facturacion_sifen.Prelude.Int.{ℤ}
use facturacion_sifen.Transmission.Send.{sent, rejected, unknown}
use facturacion_sifen.Transmission.Send.Worker.{
  SendResult, dispatched, processed, deferred_until, already_claimed,
}
use facturacion_sifen.Transmission.Cycle.{
  CycleStep, send, PendingLote, Call, defers_pending, Run, worked, guard_work, Sends, no_sends,
  counted, CycleDeps, called, send_call, send_work, after_send, send_loop, SendReport,
  send_reported, unless_blocked, send_pending, joined,
}

-- Nothing further is sent in the run after such a result.
abbrev pub stops : Result Text SendResult → Bool
stops (ok (deferred_until retry_at)) = true
stops (ok (dispatched (rejected code reason ruc_blocked))) = ruc_blocked
stops _ = false

abbrev pub made : Option Call → List Call
made none = []
made (some c) = c ∷ []

-- The calls for one lote: the sender, once the id of the request is reserved; and where either fails,
-- the lote is put behind the others.
abbrev pub calls_for : Text → Option Call → Result Text SendResult → List Call
calls_for id call (ok r) = made call
calls_for id call (err e) = made call ++ defers_pending id ∷ []

-- The calls for the lotes, up to the first that stops the run.
abbrev pub calls_until_stop : CycleDeps → List PendingLote → List Call
calls_until_stop deps [] = []
calls_until_stop deps (p ∷ ps) =
    let rest = calls_until_stop deps ps in
    calls_for p.lote_id (send_call deps p) (send_work deps p)
    ++ (if stops (send_work deps p) then [] else rest)

called-made : (c : Option Call) (cs : List Call) → called c cs ≡ cs ++ made c
called-made none cs = sym (append-nil cs)
called-made (some c) cs = refl

two_calls :
    (c : Option Call) (cs ds : List Call) (b : Call) (rest : List Call)
    → ds ≡ called c cs
    → (ds ++ b ∷ []) ++ rest ≡ cs ++ ((made c ++ b ∷ []) ++ rest)
two_calls c cs ds b rest e =
    ap (λ l. (l ++ b ∷ []) ++ rest) (e ∙ called-made c cs)
    ∙ ap (λ l. l ++ rest) (append_assoc cs (made c) (b ∷ []))
    ∙ append_assoc cs (made c ++ b ∷ []) rest

stop_tail :
    (c : Option Call) (cs rest : List Call) (b : Bool)
    → b ≡ true
    → called c cs ≡ cs ++ (made c ++ (if b then [] else rest))
stop_tail c cs rest true e = called-made c cs ∙ ap (λ l. cs ++ l) (sym (append-nil (made c)))
stop_tail c cs rest false e = cc

-- A lote was deferred, or a block was met.
abbrev HasStopped : Sends → Type 0
HasStopped s = (0 < s.send_deferred) ⊎ ((s.send_deferred ≡ 0) × (0 < s.ruc_blocks))

-- The counters after a result: they stop the run exactly where the result does.
counted-stops :
    (id : Text) (r : SendResult) (s : Sends)
    → s.send_deferred ≡ 0
    → s.ruc_blocks ≡ 0
    → ((stops (ok r) ≡ true) × HasStopped (counted id r s))
      ⊎ ((stops (ok r) ≡ false)
          × ((counted id r s).send_deferred ≡ 0)
          × ((counted id r s).ruc_blocks ≡ 0))
counted-stops id already_claimed s d b = inr (refl, d, b)
counted-stops id (deferred_until at) s d b = inl (refl, inl (omega arith))
counted-stops id (dispatched (rejected code reason true)) s d b = inl (refl, inr (d, omega arith))
counted-stops id (dispatched (rejected code reason false)) s d b = inr (refl, d, b)
counted-stops id (dispatched (sent protocol)) s d b = inr (refl, d, b)
counted-stops id (dispatched (unknown reason)) s d b = inr (refl, d, b)
counted-stops id (processed resolution) s d b = inr (refl, d, b)

module _ (deps : CycleDeps) where
  -- Once one has stopped the run, the rest is only counted.
  stopped_loop :
      (ps : List PendingLote) (s : Sends) (run : Run)
      → HasStopped s
      → (send_loop deps ps s run).1.calls ≡ run.calls
  unfolding send_loop
  stopped_loop [] s run h = refl
  stopped_loop (p ∷ ps) s run (inl more) =
      rw (send_loop, lt→ltb 0 s.send_deferred more)
        (stopped_loop ps (record s { send_deferred = s.send_deferred + 1 }) run
          (inl (omega (arith, more))))
  stopped_loop (p ∷ ps) s run (inr (none_yet, more)) =
      rw
        (
          send_loop,
          ltb-false 0 s.send_deferred (omega (arith, none_yet)),
          lt→ltb 0 s.ruc_blocks more,
        )
        (stopped_loop ps s run (inr (none_yet, more)))

module _ (deps : CycleDeps) (running : (n : ℕ) → deps.aborted n ≡ false) where
  pub guard_work-worked :
      {A : Type 0} (step : CycleStep) (id : Option Text) (call : Option Call) (work : Result Text A)
      (run : Run)
      → guard_work deps.aborted step id call work run ≡ worked step id call work run
  unfolding guard_work
  guard_work-worked step id call work run = rw (running run.units) refl

  open_loop :
      (ps : List PendingLote) (s : Sends) (run : Run)
      → s.send_deferred ≡ 0
      → s.ruc_blocks ≡ 0
      → (send_loop deps ps s run).1.calls ≡ run.calls ++ calls_until_stop deps ps
  unfolding send_loop
  open_loop [] s run d b = sym (append-nil run.calls)
  open_loop (p ∷ ps) s run d b =
      rw
        (
          send_loop,
          ltb-false 0 s.send_deferred (omega (arith, d)),
          ltb-false 0 s.ruc_blocks (omega (arith, b)),
          guard_work-worked send (some p.lote_id) (send_call deps p) (send_work deps p) run,
        )
        (after (send_call deps p) (send_work deps p) (λ t next dt bt. open_loop ps t next dt bt))
    where
      rest : List Call
      rest = calls_until_stop deps ps

      after :
          (c : Option Call) (r : Result Text SendResult)
          → ((t : Sends) (next : Run)
              → t.send_deferred ≡ 0
              → t.ruc_blocks ≡ 0
              → (send_loop deps ps t next).1.calls ≡ next.calls ++ rest)
          → (let next : Sends × Run = after_send deps p s (worked send (some p.lote_id) c r run) in
              (send_loop deps ps next.0 next.1).1.calls
              ≡ run.calls ++ (calls_for p.lote_id c r ++ (if stops r then [] else rest)))
      after c (ok r) again =
          let next : Run = record run { units = run.units + 1; calls = called c run.calls } in
          elim (counted-stops p.lote_id r s d b) [
            | inl (stop, halted) ↦
                stopped_loop deps ps (counted p.lote_id r s) next halted
                ∙ stop_tail c run.calls rest (stops (ok r)) stop
            | inr (go, dt, bt) ↦ rw go (
                again (counted p.lote_id r s) next dt bt
                ∙ ap (λ l. l ++ rest) (called-made c run.calls)
                ∙ append_assoc run.calls (made c) rest)
          ]
      after c (err e) again =
          let failed : Run = (worked {A = SendResult} send (some p.lote_id) c (err e) run).1 in
          rw
            (guard_work-worked send (some p.lote_id) (some (defers_pending p.lote_id))
              (deps.defer_pending p) failed)
            (again s _ d b ∙ both (deps.defer_pending p) failed refl)
        where
          both :
              (w : Result Text (Unit {0})) (failed : Run)
              → failed.calls ≡ called c run.calls
              → (worked send (some p.lote_id) (some (defers_pending p.lote_id)) w failed).1.calls
                  ++ rest
                ≡ run.calls ++ (calls_for p.lote_id c (err e) ++ rest)
          both (ok u) failed calls =
              two_calls c run.calls failed.calls (defers_pending p.lote_id) rest calls
          both (err f) failed calls =
              two_calls c run.calls failed.calls (defers_pending p.lote_id) rest calls

-- While the run keeps its lock, the pause can be read and is over, and the pending lotes can be listed, a
-- run takes up the lotes one by one up to the first that is deferred or that meets a block of the RUC,
-- and none after it. It hands a lote to the sender once the id of its request is reserved, and never
-- where that fails; a lote for which either of the two fails is put behind the others, once.
pub send_pending-calls :
    (deps : CycleDeps) (run : Run) (ps : List PendingLote)
    → ((n : ℕ) → deps.aborted n ≡ false)
    → deps.ruc_blocked_until false ≡ ok none
    → deps.pending_lotes ≡ ok ps
    → (send_pending deps run).1.calls ≡ run.calls ++ calls_until_stop deps ps
unfolding send_pending
send_pending-calls deps run ps running clear listed =
    rw
      (
        guard_work-worked deps running send none none (deps.ruc_blocked_until false) run,
        clear,
        unless_blocked,
      )
      (rw
        (
          guard_work-worked deps running send none none deps.pending_lotes
              (record run { units = run.units + 1 }),
          listed,
        )
        (reported (send_loop deps ps no_sends (record run { units = run.units + 1 + 1 }))
          ∙ open_loop deps running ps no_sends _ refl refl))
  where
    reported : (x : Sends × Run) → (send_reported deps x).1.calls ≡ x.1.calls
    reported (s, r) = read (ltb 0 s.ruc_blocks)
      where
        until : Option (Option ℤ) × Run
        until = guard_work deps.aborted send none none (deps.ruc_blocked_until true) r

        read :
            (b : Bool)
            → (let y : SendReport × Run =
                  if b
                  then (record { sends = s; send_paused_until = joined until.0 }, until.1)
                  else (record { sends = s; send_paused_until = none }, r) in
                y.1.calls)
              ≡ r.calls
        read true =
            ap (λ y. y.1.calls)
              (guard_work-worked deps running send none none (deps.ruc_blocked_until true) r)
            ∙ answered (deps.ruc_blocked_until true)
          where
            answered :
                (w : Result Text (Option ℤ))
                → (worked {A = Option ℤ} send none none w r).1.calls ≡ r.calls
            answered (ok o) = refl
            answered (err e) = refl
        read false = refl

-- The reading that there is no pause.
abbrev pub says_clear : Result Text (Option ℤ) → Bool
says_clear (ok none) = true
says_clear _ = false

-- Without a reading that says that there is no pause, the run sends nothing.
pub send_pending-fails_closed :
    (deps : CycleDeps) (run : Run) (r : Result Text (Option ℤ))
    → deps.ruc_blocked_until false ≡ r
    → says_clear r ≡ false
    → ((send_pending deps run).1.calls ≡ run.calls) × ((send_pending deps run).0.sends ≡ no_sends)
unfolding send_pending guard_work
send_pending-fails_closed deps run r e closed = rw e (pick (deps.aborted run.units) r closed)
  where
    pick :
        (b : Bool) (r : Result Text (Option ℤ))
        → says_clear r ≡ false
        → (let x : SendReport × Run = unless_blocked deps (
              if b
              then (none, record run { units = run.units + 1 })
              else worked send none none r run) in
            (x.1.calls ≡ run.calls) × (x.0.sends ≡ no_sends))
    pick true r h = (refl, refl)
    pick false (err f) h = (refl, refl)
    pick false (ok (some until)) h = (refl, refl)
    pick false (ok none) h = cc
