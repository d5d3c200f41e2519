-- ===== src/Transmission/Recover/Store/Settling.antt =====
-- The settlement of the documents that a pass of the recovery resolves, and what it leaves alone.
use facturacion_sifen.Prelude.{
  ◌≡◌, ◌⊎◌, inl, inr, refl, sym, ap, ◌∙◌, arith, Bool, true, false, ◌||◌, Option, none, some, List,
  [], ◌∷◌, ok, err, >>=-eq-ok, ok-injective, ◌==◌, if◌then◌else◌, Text, text_eq, text_eq_iff, subst,
  if_both,
}
use facturacion_sifen.Prelude.Pointwise.{Pointwise, all_same, join}
use facturacion_sifen.Transmission.Row.{
  DocumentRow, is_queued, is_submitted, rank, document_with, update_document,
  update_document-Pointwise,
}
use facturacion_sifen.Transmission.Poll.{DocumentResolution}
use facturacion_sifen.Transmission.Poll.Store.{
  not_submitted, status_of, settled, settle_found, settle_document,
}
use facturacion_sifen.Transmission.Recover.Store.{confirmed, settle_resolved}
use facturacion_sifen.Transmission.Recover.Store.Requeued.{
  is_resolved, Same, NotQueuedAnew, Same-refl, Same-trans, not_queued_trans,
}

-- What the settlement makes of a document: it touches only the CDCs that the pass resolves.
abbrev pub Settles : (Text → Bool) → DocumentRow → DocumentRow → Type 0
Settles named d e = Same d e × NotQueuedAnew d e × ((e ≡ d) ⊎ (named d.cdc ≡ true))

module _ (named : Text → Bool) where
  settles_refl : (d : DocumentRow) → Settles named d d
  settles_refl d = (Same-refl d, inl refl, inl refl)

  settles_trans : (d e f : DocumentRow) → Settles named d e → Settles named e f → Settles named d f
  settles_trans d e f (s, n, r) (t, m, q) =
      (Same-trans d e f s t, not_queued_trans d e f n m, both r q)
    where
      both :
          (e ≡ d) ⊎ (named d.cdc ≡ true)
          → (f ≡ e) ⊎ (named e.cdc ≡ true)
          → (f ≡ d) ⊎ (named d.cdc ≡ true)
      both (inr k) q = inr k
      both (inl h) (inl k) = inl (k ∙ h)
      both (inl h) (inr k) = inr (sym (ap named s.cdc_is) ∙ k)

  untouched : (ds : List DocumentRow) → Pointwise (Settles named) ds ds
  untouched ds = all_same (Settles named) ds settles_refl

  after :
      (ds es fs : List DocumentRow)
      → Pointwise (Settles named) ds es
      → Pointwise (Settles named) es fs
      → Pointwise (Settles named) ds fs
  after ds es fs = join (Settles named) (Settles named) (Settles named) ds es fs settles_trans

  -- An update of a CDC that is named, which leaves what is about the sending.
  update-Settles :
      (cdc : Text) (f : DocumentRow → DocumentRow) (ds : List DocumentRow)
      → named cdc ≡ true
      → ((d : DocumentRow) → Same d (f d) × NotQueuedAnew d (f d))
      → Pointwise (Settles named) ds (update_document cdc f ds)
  update-Settles cdc f ds is keeps =
      update_document-Pointwise (Settles named) cdc f ds
        (λ d e. ((keeps d).0, (keeps d).1, inr (ap named ((text_eq_iff d.cdc cdc).0 e) ∙ is)))
        (λ d e. settles_refl d)

  settled_status : (r : DocumentResolution) → is_queued (status_of r.status) ≡ false
  settled_status r = ground arith

  settle_found-Settles :
      (ds : List DocumentRow) (r : DocumentResolution) (o : Option DocumentRow)
      (es : List DocumentRow)
      → named r.cdc ≡ true
      → settle_found ds r o ≡ ok es
      → Pointwise (Settles named) ds es
  settle_found-Settles ds r none es is h = cc
  settle_found-Settles ds r (some doc) es is h =
      pick (rank doc.status == rank (status_of r.status)) (is_submitted doc.status) h
    where
      pick :
          (a b : Bool)
          → (if a
              then ok ds
              else if b
              then ok (update_document r.cdc (settled r) ds)
              else err (not_submitted r.cdc doc.status))
            ≡ ok es
          → Pointwise (Settles named) ds es
      pick true b h = subst (Pointwise (Settles named) ds) (ok-injective h) (untouched ds)
      pick false true h =
          subst (Pointwise (Settles named) ds) (ok-injective h)
            (update-Settles r.cdc (settled r) ds is (λ d. (same_fields d, inr (settled_status r))))
        where
          same_fields : (d : DocumentRow) → Same d (settled r d)
          same_fields d = record {
            cdc_is = refl;
            attempts_are = refl;
            next_is = refl;
            resent_is = refl;
            resent_after_is = refl;
            latest_is = refl;
          }
      pick false false h = cc

  confirmed-keeps : (d : DocumentRow) → Same d (confirmed d) × NotQueuedAnew d (confirmed d)
  confirmed-keeps d =
      if_both (λ e. Same d e × NotQueuedAnew d e) (is_queued d.status) _ _
        (
          record {
            cdc_is = refl;
            attempts_are = refl;
            next_is = refl;
            resent_is = refl;
            resent_after_is = refl;
            latest_is = refl;
          },
          inr refl,
        )
        (Same-refl d, inl refl)

  confirm-Settles :
      (b : Bool) (cdc : Text) (ds : List DocumentRow)
      → named cdc ≡ true
      → Pointwise (Settles named) ds (if b then update_document cdc confirmed ds else ds)
  confirm-Settles false cdc ds is = untouched ds
  confirm-Settles true cdc ds is = update-Settles cdc confirmed ds is confirmed-keeps

  pub settle_resolved-Settles :
      (b : Bool) (rs : List DocumentResolution) (ds es : List DocumentRow)
      → ((cdc : Text) → is_resolved rs cdc ≡ true → named cdc ≡ true)
      → settle_resolved b rs ds ≡ ok es
      → Pointwise (Settles named) ds es
  unfolding settle_resolved settle_document
  settle_resolved-Settles b [] ds es all h =
      subst (Pointwise (Settles named) ds) (ok-injective h) (untouched ds)
  settle_resolved-Settles b (r ∷ rs) ds es all h =
      let first = if b then update_document r.cdc confirmed ds else ds in
      let (next, one, rest) =
        >>=-eq-ok (settle_found first r (document_with r.cdc first)) (settle_resolved b rs) h in
      let is = all r.cdc (rw ((text_eq_iff r.cdc r.cdc).1 refl) refl) in
      after ds first es (confirm-Settles b r.cdc ds is) (
        after first next es (settle_found-Settles first r (document_with r.cdc first) next is one) (
          settle_resolved-Settles b rs next es
            (λ cdc k. all cdc (either_way (text_eq cdc r.cdc) (is_resolved rs cdc) k)) rest))
    where
      either_way : (a b : Bool) → b ≡ true → a || b ≡ true
      either_way true b h = refl
      either_way false b h = h
