-- ===== src/Transmission/Recover/Store/Requeued.antt =====
-- What a pass of the recovery may make of a document: it is queued again, or it is not.
use facturacion_sifen.Prelude.{
  ℕ, ◌+◌, ◌<◌, ◌≡◌, ◌⊎◌, inl, inr, refl, ap, ◌∙◌, Bool, true, false, ◌&&◌, ◌||◌, none, some, List,
  [], ◌∷◌, ltb, Text, text_eq,
}
use facturacion_sifen.Prelude.Int.{ℤ, pos, ◌+ℤ◌}
use facturacion_sifen.Transmission.Row.{DocumentStatus, DocumentRow, is_queued}
use facturacion_sifen.Transmission.Poll.{DocumentResolution}
use facturacion_sifen.Transmission.Recover.{UnresolvedCdc, LoteRecoveryOutcome}
use facturacion_sifen.Transmission.Recover.Store.{is_none, waits}

-- The pass settles the CDC; it reports that SIFEN does not hold the document.
abbrev pub is_resolved : List DocumentResolution → Text → Bool
is_resolved [] cdc = false
is_resolved (r ∷ rs) cdc = text_eq cdc r.cdc || is_resolved rs cdc

abbrev pub is_absent : List UnresolvedCdc → Text → Bool
is_absent [] cdc = false
is_absent (e ∷ es) cdc = (e.absent && text_eq cdc e.cdc) || is_absent es cdc

-- The document still waits for an answer, was not sent again before, and has room under the limit.
abbrev pub can_go : (may : Bool) → (seq : ℕ) → DocumentRow → Bool
can_go may seq d =
    waits seq d && (may && is_none d.resent_at && ltb (d.transmission_attempts + 1) 5)

abbrev pub is_due : (may : Bool) → (seq : ℕ) → List UnresolvedCdc → DocumentRow → Bool
is_due may seq es d = is_absent es d.cdc && can_go may seq d

-- What is about the sending of a document.
pub record Same (d e : DocumentRow) : Type 0 where
  pub cdc_is : e.cdc ≡ d.cdc
  pub attempts_are : e.transmission_attempts ≡ d.transmission_attempts
  pub next_is : e.next_transmission_at ≡ d.next_transmission_at
  pub resent_is : e.resent_at ≡ d.resent_at
  pub resent_after_is : e.resent_after_seq ≡ d.resent_after_seq
  pub latest_is : e.latest_seq ≡ d.latest_seq

-- The document is queued again: for the first time, counted, with its watermark and a wait.
pub record Requeued (at stamp : ℤ) (d e : DocumentRow) : Type 0 where
  pub cdc_is : e.cdc ≡ d.cdc
  pub is_first : d.resent_at ≡ none
  pub is_queued_again : e.status ≡ DocumentStatus.queued
  pub is_stamped : e.resent_at ≡ some stamp
  pub is_marked : e.resent_after_seq ≡ some d.latest_seq
  pub is_counted : e.transmission_attempts ≡ d.transmission_attempts + 1
  pub has_room : e.transmission_attempts < 5
  pub waits_until : e.next_transmission_at ≡ some (at +ℤ pos 600000)

-- The status is the same, or is another than queued.
abbrev pub NotQueuedAnew : DocumentRow → DocumentRow → Type 0
NotQueuedAnew d e = (e.status ≡ d.status) ⊎ (is_queued e.status ≡ false)

-- What a pass may make of a document. It is left out of the queue as it was where it is not due, or where
-- the pass settles its CDC; and it is queued again only where the pass reports it absent and the lote is
-- past its window.
abbrev pub KeepsResend :
    (may : Bool)
    → (at stamp : ℤ) → (seq : ℕ) → LoteRecoveryOutcome
    → DocumentRow
    → DocumentRow
    → Type 0
KeepsResend may at stamp seq o d e =
    (Same d e
      × NotQueuedAnew d e
      × ((is_due may seq o.unresolved d ≡ false) ⊎ (is_resolved o.resolutions d.cdc ≡ true)))
    ⊎ ((may ≡ true) × (is_absent o.unresolved d.cdc ≡ true) × Requeued at stamp d e)

pub Same-refl : (d : DocumentRow) → Same d d
Same-refl d = record {
  cdc_is = refl;
  attempts_are = refl;
  next_is = refl;
  resent_is = refl;
  resent_after_is = refl;
  latest_is = refl;
}

pub Same-trans : (d e f : DocumentRow) → Same d e → Same e f → Same d f
Same-trans d e f p q = record {
  cdc_is = q.cdc_is ∙ p.cdc_is;
  attempts_are = q.attempts_are ∙ p.attempts_are;
  next_is = q.next_is ∙ p.next_is;
  resent_is = q.resent_is ∙ p.resent_is;
  resent_after_is = q.resent_after_is ∙ p.resent_after_is;
  latest_is = q.latest_is ∙ p.latest_is;
}

pub not_queued_trans :
    (d e f : DocumentRow) → NotQueuedAnew d e → NotQueuedAnew e f → NotQueuedAnew d f
not_queued_trans d e f p (inr k) = inr k
not_queued_trans d e f (inl h) (inl k) = inl (k ∙ h)
not_queued_trans d e f (inr h) (inl k) = inr (ap is_queued k ∙ h)
