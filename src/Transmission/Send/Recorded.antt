-- ===== src/Transmission/Send/Recorded.antt =====
-- What one call of `SendLote.execute` leaves in the row of the lote, on every branch.
use facturacion_sifen.Prelude.{
  ℕ, ◌≡◌, ◌⊎◌, inl, inr, refl, sym, ◌∙◌, subst, arith, Bool, true, false, Option, none, some, List,
  [], ◌∷◌, map, Result, ok, err, if◌then◌else◌, Text, Result-cases, take, ◌&&◌, if_both,
}
use facturacion_sifen.Prelude.Int.{ℤ, pos, ◌+ℤ◌}
use facturacion_sifen.Prelude.Pointwise.{Pointwise, map-Pointwise, join}
use facturacion_sifen.Transmission.Lote.{LoteDocument, Lote}
use facturacion_sifen.Transmission.Row.{
  DocumentStatus, LoteStatus, DocumentRow, LoteRow, is_pending, is_queued,
}
use facturacion_sifen.Transmission.Poll.{DocumentResolution, Unicode}
use facturacion_sifen.Transmission.Send.{
  SendGateway, RecordedOutcome, sent, rejected, unknown, Attempt, recorded, settles, deferred,
  attempt,
}
use facturacion_sifen.Transmission.Send.Store.{
  DispatchConfig, RucBlock, claim, release, record_outcome, record_settled, submitted,
  released_hold, is_unresolved_hold, block_after,
}
use facturacion_sifen.Transmission.Send.Backoff.{AfterRefusal, record_rejected-AfterRefusal}
use facturacion_sifen.Transmission.Send.Settled.{
  Submits, submitted-Submits, IsSettled, record_settled-IsSettled, IsOnly, ForOnly, attempt-ForOnly,
}
use facturacion_sifen.Transmission.Send.Worker.{
  SendError, empty_lote, not_recorded, store_failed, SendResult, dispatched, processed,
  deferred_until, already_claimed, StoreFailures, Sent, ends, unless_fails, message_of, record_call,
  recorded_as, settle_call, store_attempt, claimed, with_sync, unless_paused, unless_empty, execute,
}

-- The pause of the tenant that a refusal stores.
abbrev pub IsPause : DispatchConfig → ℤ → Text → (ruc_blocked : Bool) → Option RucBlock → Type 0
IsPause config now reason false block = block ≡ none
IsPause config now reason true block =
    (b : RucBlock) × (block ≡ some b)
    × (b.blocked_at ≡ now)
    × (b.blocked_until ≡ now +ℤ pos config.ruc_block_ms)
    × (b.reason ≡ take 500 reason)

-- Where a call of the store failed after the claim.
abbrev pub FailsLater : StoreFailures → Option (Result Text Bool) → Text → Type 0
FailsLater failures is_enabled message =
    (is_enabled ≡ some (err message))
    ⊎ ((failures.record_fails ≡ some message) ⊎ (failures.release_fails ≡ some message))

-- The row and the pause that a result or an error leaves, for a lote with documents.
abbrev pub IsRecorded :
    DispatchConfig
    → StoreFailures
    → Option (Result Text Bool)
    → ℤ
    → List LoteDocument
    → Result SendError SendResult
    → LoteRow
    → LoteRow
    → Option RucBlock
    → Type 0
IsRecorded config failures enabled now documents (ok (dispatched (sent protocol))) row next block =
    (row.status ≡ LoteStatus.pending)
    × (next.status ≡ LoteStatus.sent)
    × (next.sifen_protocol ≡ some protocol)
    × (next.send_attempted_at ≡ some now)
    × (next.next_poll_at ≡ some (now +ℤ pos 600000))
    × (next.poll_deadline_at ≡ some (now +ℤ pos 172800000))
    × Pointwise Submits row.documents next.documents
    × (block ≡ none)
IsRecorded config failures enabled now documents
      (ok (dispatched (rejected code reason ruc_blocked))) row next block =
    (row.status ≡ LoteStatus.pending)
    × (next.status ≡ LoteStatus.rejected)
    × (next.response_code ≡ some code)
    × (next.response_message ≡ some reason)
    × Pointwise (AfterRefusal config now ruc_blocked) row.documents next.documents
    × IsPause config now reason ruc_blocked block
IsRecorded config failures enabled now documents (ok (dispatched (unknown reason))) row next block =
    (row.status ≡ LoteStatus.pending)
    × (next.status ≡ LoteStatus.unknown)
    × (next.response_message ≡ some reason)
    × (next.documents ≡ row.documents)
    × (block ≡ none)
IsRecorded config failures enabled now documents (ok (processed resolution)) row next block =
    (row.status ≡ LoteStatus.pending)
    × (next.status ≡ LoteStatus.processed)
    × (next.sent_at ≡ some now)
    × IsOnly documents resolution
    × IsSettled resolution row.documents next.documents
    × (block ≡ none)
IsRecorded config failures enabled now documents (ok (deferred_until retry_at)) row next block =
    (next.status ≡ row.status) × (next.documents ≡ row.documents) × (block ≡ none)
IsRecorded config failures enabled now documents (ok already_claimed) row next block =
    (is_pending row.status ≡ false) × (next ≡ row) × (block ≡ none)
IsRecorded config failures enabled now documents (err (store_failed message)) row next block =
    (next.documents ≡ row.documents)
    × (block ≡ none)
    × (((failures.claim_fails ≡ some message) × (next ≡ row))
        ⊎ ((row.status ≡ LoteStatus.pending)
            × (next.status ≡ LoteStatus.sending)
            × FailsLater failures enabled message))
IsRecorded config failures enabled now documents (err (not_recorded e)) row next block = ⊥
IsRecorded config failures enabled now documents (err empty_lote) row next block = ⊥

-- What `execute` ends with.
abbrev pub EndsRecorded :
    DispatchConfig
    → StoreFailures
    → Option (Result Text Bool)
    → ℤ
    → List LoteDocument
    → LoteRow
    → Sent
    → Type 0
EndsRecorded config failures enabled now documents row s =
    IsRecorded config failures enabled now documents s.result row s.row s.block

-- The release of the holds leaves the CDC and the status.
abbrev Alike : DocumentRow → DocumentRow → Type 0
Alike d m = (m.cdc ≡ d.cdc) × (m.status ≡ d.status)

released_hold-Alike : (d : DocumentRow) → Alike d (released_hold d)
released_hold-Alike d =
    if_both (Alike d) (is_queued d.status && is_unresolved_hold d.transmission_hold) _ _
      (refl, refl) (refl, refl)

module _ (config : DispatchConfig) (failures : StoreFailures) (enabled : Option (Result Text Bool))
    (now : ℤ) (documents : List LoteDocument) (row : LoteRow)
    (free : row.status ≡ LoteStatus.pending) where
  -- The row once it is claimed.
  abbrev sending_row : LoteRow
  sending_row = record row { status = LoteStatus.sending; send_attempted_at = some now }

  abbrev Ends : Sent → Type 0
  Ends = EndsRecorded config failures enabled now documents row

  kept_sending :
      (message : Text)
      → FailsLater failures enabled message
      → Ends (ends (err (store_failed message)) sending_row none)
  kept_sending message why = (refl, refl, inr (free, refl, why))

  record_outcome-Ends :
      (o : RecordedOutcome)
      → Ends (recorded_as o sending_row (record_outcome config now o sending_row))
  unfolding record_outcome
  record_outcome-Ends (sent protocol) = (
    free,
    refl,
    refl,
    refl,
    refl,
    refl,
    join Alike Submits Submits row.documents (map released_hold row.documents) _
        (λ d m e a s. (
          s.0 ∙ a.0,
          subst
              (λ x.
                ((is_queued x ≡ true) × (e.status ≡ DocumentStatus.submitted))
                ⊎ ((is_queued x ≡ false) × (e.status ≡ x)))
              a.1 s.1,
        ))
        (map-Pointwise Alike released_hold row.documents released_hold-Alike)
        (map-Pointwise Submits submitted (map released_hold row.documents) submitted-Submits),
    refl,
  )
  record_outcome-Ends (rejected code reason ruc_blocked) = (
    free,
    refl,
    refl,
    refl,
    record_rejected-AfterRefusal config now sending_row _ code reason ruc_blocked _ refl,
    is_pause ruc_blocked,
  )
    where
      is_pause :
          (b : Bool) → IsPause config now reason b (block_after config now (rejected code reason b))
      is_pause true = (_, refl, refl, refl, refl)
      is_pause false = refl
  record_outcome-Ends (unknown reason) = (free, refl, refl, refl, refl)

  record_call-Ends : (o : RecordedOutcome) → Ends (record_call config failures now o sending_row)
  unfolding record_call
  record_call-Ends o = pick failures.record_fails refl
    where
      pick :
          (f : Option Text)
          → failures.record_fails ≡ f
          → Ends (
              unless_fails f sending_row
                (recorded_as o sending_row (record_outcome config now o sending_row)))
      pick none e = record_outcome-Ends o
      pick (some message) e = kept_sending message (inr (inl e))

  settle_call-Ends :
      (resolution : DocumentResolution) (lote_id : Text) (f : Option Text)
      → IsOnly documents resolution
      → Ends (settle_call config failures now lote_id resolution sending_row f)
  settle_call-Ends resolution lote_id (some message) only = record_call-Ends (unknown message)
  settle_call-Ends resolution lote_id none only =
      elim (Result-cases (record_settled now resolution sending_row)) [
        | inl (next, done) ↦
            let (status, at, settled) =
              record_settled-IsSettled now resolution sending_row next refl done in
            rw done (free, status, at, only, settled, refl)
        | inr (e, failed) ↦ rw failed (record_call-Ends (unknown (message_of lote_id e)))
      ]

  store_attempt-Ends :
      (a : Attempt) (lote_id : Text)
      → ForOnly documents a
      → Ends (store_attempt config failures now lote_id a sending_row)
  unfolding store_attempt release
  store_attempt-Ends (recorded o) lote_id u = record_call-Ends o
  store_attempt-Ends (settles resolution) lote_id only =
      settle_call-Ends resolution lote_id failures.settle_fails only
  store_attempt-Ends (deferred retry_at) lote_id u = pick failures.release_fails refl
    where
      pick :
          (f : Option Text)
          → failures.release_fails ≡ f
          → Ends (
              unless_fails f sending_row
                (ends (ok (deferred_until retry_at)) (release sending_row) none))
      pick none e = (sym free, refl, refl)
      pick (some message) e = kept_sending message (inr (inr e))

  with_sync-Ends :
      (ds : List LoteDocument) (e : Option (Result Text Bool)) (next : Bool → Sent)
      → enabled ≡ e
      → ((b : Bool) → Ends (next b))
      → Ends (with_sync ds e sending_row next)
  with_sync-Ends [] e next same all = all false
  with_sync-Ends (d ∷ []) none next same all = all false
  with_sync-Ends (d ∷ []) (some (ok b)) next same all = all b
  with_sync-Ends (d ∷ []) (some (err message)) next same all = kept_sending message (inl same)
  with_sync-Ends (d ∷ e' ∷ ds) e next same all = all false

-- The send of a lote that has documents, on every branch. An outcome is reported only of a lote that was
-- pending, and the row then has it: the protocol, the schedule of the queries and the documents submitted;
-- the code of the refusal with what it does to the documents, and the pause where it names a block of the
-- RUC; the unknown outcome with the documents untouched; or the answer of the synchronous service, with
-- the one document of the lote in the status that it gave. A deferred lote keeps its status and its
-- documents, and a lote that is not pending is left as it is. An error is always a failure of the store:
-- of the claim, and the lote is as it was, or of a later call, and it stays sending with its documents
-- untouched.
pub execute-EndsRecorded :
    (config : DispatchConfig) (failures : StoreFailures) (u : Unicode) (gateway : SendGateway)
    (now : ℤ) (paused_until : Option ℤ) (enabled : Option (Result Text Bool)) (d_id : ℕ)
    (lote_id : Text) (lote : Lote) (row : LoteRow) (d : LoteDocument) (ds : List LoteDocument)
    → lote.documents ≡ d ∷ ds
    → EndsRecorded config failures enabled now lote.documents row
        (execute config failures u gateway now paused_until enabled d_id lote_id lote row)
unfolding execute claim
execute-EndsRecorded config failures u gateway now paused_until enabled d_id lote_id lote row d ds
      h =
    with_documents lote.documents _ h
      (at paused_until failures.claim_fails (is_pending row.status) refl refl)
  where
    with_documents :
        (documents : List LoteDocument) (next : Sent)
        → documents ≡ d ∷ ds
        → EndsRecorded config failures enabled now lote.documents row next
        → EndsRecorded config failures enabled now lote.documents row
            (unless_empty documents row next)
    with_documents [] next e p = cc
    with_documents (x ∷ xs) next e p = p

    sends : LoteRow → Sent
    sends held =
        with_sync lote.documents enabled held
          (λ b. store_attempt config failures now lote_id (attempt u gateway d_id b lote) held)

    pending_status : (s : LoteStatus) → is_pending s ≡ true → s ≡ LoteStatus.pending
    pending_status s e = ground arith

    at :
        (p : Option ℤ) (f : Option Text) (b : Bool)
        → failures.claim_fails ≡ f
        → is_pending row.status ≡ b
        → EndsRecorded config failures enabled now lote.documents row (
            unless_paused p row (
              unless_fails f row (
                claimed
                  (if b
                    then (
                      true,
                      record row { status = LoteStatus.sending; send_attempted_at = some now },
                    )
                    else (false, row))
                  sends)))
    at (some retry_at) f b c e = (refl, refl, refl)
    at none (some message) b c e = (refl, refl, inl (c, refl))
    at none none false c e = (e, refl, refl)
    at none none true c e =
        with_sync-Ends config failures enabled now lote.documents row (pending_status row.status e)
          lote.documents enabled _ refl
          (λ b.
            store_attempt-Ends config failures enabled now lote.documents row
              (pending_status row.status e) (attempt u gateway d_id b lote) lote_id
              (attempt-ForOnly u gateway d_id b lote))
