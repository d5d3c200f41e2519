-- ===== src/Transmission/Send/Settled.antt =====
-- The documents of a lote once they are submitted, and once a synchronous answer is settled:
-- `recordSettled` of drizzle-sync-dispatch.ts.
use facturacion_sifen.Prelude.{
  ℕ, ◌≡◌, ◌⊎◌, inl, inr, refl, sym, ap, ◌∙◌, subst, arith, Bool, true, false, Option, none, some,
  List, [], ◌∷◌, map, Result, ok, err, ok-injective, if◌then◌else◌, Text, text_eq, >>=-eq-ok, ◌==◌,
  ==_iff, if_both, codes,
}
use facturacion_sifen.Prelude.Int.{ℤ}
use facturacion_sifen.Prelude.Pointwise.{Pointwise, all_same, map-Pointwise, join}
use facturacion_sifen.Transmission.Row.{
  DocumentStatus, LoteStatus, DocumentRow, LoteRow, is_queued, is_submitted, rank, document_with,
  update_document, update_document-Pointwise,
}
use facturacion_sifen.Transmission.Lote.{LoteDocument, Lote}
use facturacion_sifen.Transmission.Poll.{
  ResolutionStatus, DocumentResolution, Unicode, document_status_of,
}
use facturacion_sifen.Transmission.Send.{
  SendGateway, Receipt, SyncAnswer, Thrown, not_sent, failed, Attempt, settles, dispatched,
  dispatch, dispatch_sync, attempt, synchronous_or, sync_of, sync_answered, resolved_as,
  text_or_empty,
}
use facturacion_sifen.Transmission.Poll.Store.{
  SettleError, not_submitted, status_of, settled, settle_found, settle_document,
}
use facturacion_sifen.Transmission.Send.Store.{
  submitted, as_record_error, settled_row, record_settled,
}

-- A queued document is submitted, and any other keeps its status.
abbrev pub Submits : DocumentRow → DocumentRow → Type 0
Submits d e =
    (e.cdc ≡ d.cdc)
    × (((is_queued d.status ≡ true) × (e.status ≡ DocumentStatus.submitted))
        ⊎ ((is_queued d.status ≡ false) × (e.status ≡ d.status)))

pub submitted-Submits : (d : DocumentRow) → Submits d (submitted d)
submitted-Submits d = pick (is_queued d.status) refl
  where
    pick :
        (b : Bool)
        → is_queued d.status ≡ b
        → Submits d (if b then record d { status = DocumentStatus.submitted } else d)
    pick true e = (refl, inl (e, refl))
    pick false e = (refl, inr (e, refl))

-- The document of the CDC has the status of the answer; every other one is submitted if it was queued.
pub record IsSettled (r : DocumentResolution) (ds es : List DocumentRow) : Type 0 where
  pub document : DocumentRow
  pub is_there : document_with r.cdc es ≡ some document
  pub status_is : document.status ≡ status_of r.status
  pub others_are : Pointwise (λ d e. (text_eq d.cdc r.cdc ≡ true) ⊎ Submits d e) ds es

rank-injective : (a b : DocumentStatus) → rank a ≡ rank b → a ≡ b
rank-injective a b h = ground arith

document_with-update :
    (cdc : Text) (r : DocumentResolution) (ds : List DocumentRow) (d : DocumentRow)
    → document_with cdc ds ≡ some d
    → document_with cdc (update_document cdc (settled r) ds) ≡ some (settled r d)
document_with-update cdc r [] d h = cc
document_with-update cdc r (e ∷ es) d h =
    pick (text_eq e.cdc cdc) refl h (document_with-update cdc r es d)
  where
    rest : List DocumentRow
    rest = update_document cdc (settled r) es

    pick :
        (b : Bool)
        → text_eq e.cdc cdc ≡ b
        → (if b then some e else document_with cdc es) ≡ some d
        → (document_with cdc es ≡ some d → document_with cdc rest ≡ some (settled r d))
        → document_with cdc (if b then settled r e ∷ rest else e ∷ rest) ≡ some (settled r d)
    pick true m h later = rw m (ap (settled_found) h)
      where
        settled_found : Option DocumentRow → Option DocumentRow
        settled_found none = none
        settled_found (some x) = some (settled r x)
    pick false m h later = rw m (later h)

module _ (r : DocumentResolution) where
  abbrev Others : DocumentRow → DocumentRow → Type 0
  Others d e = (text_eq d.cdc r.cdc ≡ true) ⊎ Submits d e

  update-Others :
      (ds es : List DocumentRow)
      → Pointwise Submits ds es
      → Pointwise Others ds (update_document r.cdc (settled r) es)
  update-Others ds es p =
      join Submits Touched Others ds es _
        (λ d e f s t. elim t [
          | inl here ↦ inl (ap (λ c. text_eq c r.cdc) (sym s.0) ∙ here)
          | inr same ↦ inr (subst (Submits d) (sym same) s)
        ])
        p (update_document-Pointwise Touched r.cdc (settled r) es (λ d e. inl e) (λ d e. inr refl))
    where
      Touched : DocumentRow → DocumentRow → Type 0
      Touched e f = (text_eq e.cdc r.cdc ≡ true) ⊎ (f ≡ e)

  settle_found-IsSettled :
      (ds es next : List DocumentRow) (o : Option DocumentRow)
      → Pointwise Submits ds es
      → document_with r.cdc es ≡ o
      → settle_found es r o ≡ ok next
      → IsSettled r ds next
  settle_found-IsSettled ds es next none p at h = cc
  settle_found-IsSettled ds es next (some doc) p at h =
      pick (rank doc.status == rank (status_of r.status)) (is_submitted doc.status) refl h
    where
      pick :
          (a b : Bool)
          → (rank doc.status == rank (status_of r.status)) ≡ a
          → (if a
              then ok es
              else if b
              then ok (update_document r.cdc (settled r) es)
              else err (not_submitted r.cdc doc.status))
            ≡ ok next
          → IsSettled r ds next
      pick true b e h = subst (IsSettled r ds) (ok-injective h) (record {
        document = doc;
        is_there = at;
        status_is =
            rank-injective doc.status (status_of r.status)
              ((==_iff (rank doc.status) (rank (status_of r.status))).0 e);
        others_are =
            join Submits (λ a b. b ≡ a) Others ds es es
              (λ d e f s same. inr (subst (Submits d) (sym same) s)) p
              (all_same (λ a b. b ≡ a) es (λ a. refl));
      })
      pick false true e h = subst (IsSettled r ds) (ok-injective h) (record {
        document = settled r doc;
        is_there = document_with-update r.cdc r es doc at;
        status_is = refl;
        others_are = update-Others ds es p;
      })
      pick false false e h = cc

pub record_settled-IsSettled :
    (now : ℤ) (r : DocumentResolution) (row next : LoteRow)
    → row.status ≡ LoteStatus.sending
    → record_settled now r row ≡ ok next
    → (next.status ≡ LoteStatus.processed)
      × (next.sent_at ≡ some now)
      × IsSettled r row.documents next.documents
unfolding record_settled settle_document
record_settled-IsSettled now r row next sending h =
    let (ds, found, last) =
      >>=-eq-ok (as_record_error (settle_document (map submitted row.documents) r))
        (settled_row now row) (sym (rw sending refl) ∙ h) in
    let same : record row { status = LoteStatus.processed; sent_at = some now; documents = ds }
        ≡ next =
      ok-injective last in
    (
      ap (λ (n : LoteRow). n.status) (sym same),
      ap (λ (n : LoteRow). n.sent_at) (sym same),
      subst (λ (n : LoteRow). IsSettled r row.documents n.documents) same
          (settle_found-IsSettled r row.documents (map submitted row.documents) ds
            (document_with r.cdc (map submitted row.documents))
            (map-Pointwise Submits submitted row.documents submitted-Submits) refl
            (as_settled (settle_document (map submitted row.documents) r) ds found)),
    )
  where
    as_settled :
        (x : Result SettleError (List DocumentRow)) (ds : List DocumentRow)
        → as_record_error x ≡ ok ds
        → x ≡ ok ds
    as_settled (ok es) ds h = ap ok (ok-injective h)
    as_settled (err e) ds h = cc

-- The answer that is settled is for the one document of the lote.
abbrev pub IsOnly : List LoteDocument → DocumentResolution → Type 0
IsOnly documents r = (d : LoteDocument) × (documents ≡ d ∷ []) × (r.cdc ≡ d.cdc)

abbrev pub ForOnly : List LoteDocument → Attempt → Type 0
ForOnly documents (settles r) = IsOnly documents r
ForOnly documents _ = Unit

dispatch-ForOnly :
    (u : Unicode) (gateway : SendGateway) (d_id : ℕ) (lote : Lote) (documents : List LoteDocument)
    → ForOnly documents (dispatch u gateway d_id lote)
unfolding dispatch
dispatch-ForOnly u gateway d_id lote documents =
    of_answer (gateway.enviar_lote d_id (map (λ d. d.xml) lote.documents))
  where
    of_answer : (r : Result Thrown Receipt) → ForOnly documents (dispatched u r)
    of_answer (ok receipt) = tt
    of_answer (err (not_sent retry_at)) = tt
    of_answer (err (failed reason)) = tt

pub attempt-ForOnly :
    (u : Unicode) (gateway : SendGateway) (d_id : ℕ) (enabled : Bool) (lote : Lote)
    → ForOnly lote.documents (attempt u gateway d_id enabled lote)
unfolding attempt dispatch_sync
attempt-ForOnly u gateway d_id enabled lote =
    of_documents lote.documents enabled (dispatch u gateway d_id lote)
      (dispatch-ForOnly u gateway d_id lote)
  where
    of_documents :
        (ds : List LoteDocument) (b : Bool) (batch : Attempt)
        → ((es : List LoteDocument) → ForOnly es batch)
        → ForOnly ds (synchronous_or (sync_of u gateway d_id b ds) batch)
    of_documents [] true batch all = all []
    of_documents [] false batch all = all []
    of_documents (d ∷ []) false batch all = all (d ∷ [])
    of_documents (d ∷ e ∷ ds) true batch all = all (d ∷ e ∷ ds)
    of_documents (d ∷ e ∷ ds) false batch all = all (d ∷ e ∷ ds)
    of_documents (d ∷ []) true batch all = of_answer (gateway.enviar_de_sincronico d_id d.xml)
      where
        of_answer :
            (r : Result Thrown SyncAnswer)
            → ForOnly (d ∷ []) (synchronous_or (sync_answered u d r) batch)
        of_answer (err (not_sent retry_at)) = tt
        of_answer (err (failed reason)) = tt
        of_answer (ok answer) =
            if_both (λ a. ForOnly (d ∷ []) (synchronous_or a batch))
              (text_eq answer.d_cod_res (codes "1264")) _ _ (all (d ∷ []))
              (of_status (document_status_of u (text_or_empty answer.d_est_res)))
          where
            of_status : (s : Option ResolutionStatus) → ForOnly (d ∷ []) (resolved_as d answer s)
            of_status none = tt
            of_status (some status) = (d, refl, refl)
