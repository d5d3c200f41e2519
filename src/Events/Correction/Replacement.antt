-- ===== src/Events/Correction/Replacement.antt =====
-- What a correction that goes ahead replaces, and by what.
use facturacion_sifen.Prelude.{
  ℕ, ◌*◌, ◌≡◌, ◌≢◌, ◌⊎◌, inl, inr, refl, subst, Bool, true, false, not, Option, none, some, List,
  if_refuses, text_eq, text_eq_iff, codes,
}
use facturacion_sifen.Prelude.Int.{ℤ, pos, ◌+ℤ◌, ◌-ℤ◌, ◌≤ℤ◌, ltb_ℤ_false, int_laws}
use facturacion_sifen.Events.Receiver.{
  ReceiverEventKind, conformity, disconformity, unawareness, receipt_notice, ReceiverEventConfig,
  ReceiverEventRequest, PriorReceiverEvent, ReceiverEventRefusal, kind_of, kind_eq, opposite, has,
  is_after,
}
use facturacion_sifen.Events.Receiver.History.{after_unawareness}
use facturacion_sifen.Events.Correction.{
  CorrectableEvent, as_correction, correction_deadline, validate_correction,
}

-- The kinds that a correction may swap.
abbrev pub Swaps : ReceiverEventKind → ReceiverEventKind → Type 0
Swaps original replacement =
    ((original ≡ conformity) × ((replacement ≡ disconformity) ⊎ (replacement ≡ unawareness)))
    ⊎ ((original ≡ disconformity) × ((replacement ≡ conformity) ⊎ (replacement ≡ unawareness)))

-- The days to correct an event that SIFEN registered, the margin taken off, are not over.
abbrev pub InTime : Option ℤ → ℤ → ReceiverEventConfig → Type 0
InTime none at config = Unit {0}
InTime (some responded) at config =
    at +ℤ pos (config.safety_margin_minutes * 60000)
    ≤ℤ responded +ℤ pos (config.correction_days * 86400000)

pub record IsCorrectable (original : CorrectableEvent) (replacement : ReceiverEventRequest) (at : ℤ)
    (config : ReceiverEventConfig) : Type 0 where
  pub approved : original.status ≡ codes "approved"
  pub swaps : Swaps original.kind (kind_of replacement.asked)
  pub first : (original.is_correction ≡ false) × (original.already_corrected ≡ false)
  pub latest : original.is_latest_conclusive ≡ true
  pub in_time : InTime original.responded_at at config

InTime-intro :
    (original : CorrectableEvent) (at : ℤ) (config : ReceiverEventConfig)
    → is_after at (correction_deadline original config) ≡ false
    → InTime original.responded_at at config
unfolding correction_deadline
InTime-intro original at config = go original.responded_at
  where
    days : ℕ
    days = config.correction_days * 86400000

    margin : ℕ
    margin = config.safety_margin_minutes * 60000

    go :
        (o : Option ℤ)
        → is_after at (
            let d : Option ℤ = elim o [
              | none ↦ none
              | some responded ↦ some ((responded +ℤ pos days) -ℤ pos margin)
            ] in
            d)
          ≡ false
        → InTime o at config
    go none h = tt
    go (some responded) h = omega (int_laws, ltb_ℤ_false (responded +ℤ pos days -ℤ pos margin) at h)

-- The kinds of an accepted correction, when the original was not an unawareness.
Swaps-intro :
    (original replacement : ReceiverEventKind)
    → original ≢ unawareness
    → opposite original replacement ≡ true
    → Swaps original replacement
Swaps-intro conformity disconformity u o = inl (refl, inl refl)
Swaps-intro conformity unawareness u o = inl (refl, inr refl)
Swaps-intro disconformity conformity u o = inr (refl, inl refl)
Swaps-intro disconformity unawareness u o = inr (refl, inr refl)
Swaps-intro unawareness r u o = absurd (u refl)
Swaps-intro conformity conformity u o = cc
Swaps-intro conformity receipt_notice u o = cc
Swaps-intro disconformity disconformity u o = cc
Swaps-intro disconformity receipt_notice u o = cc
Swaps-intro receipt_notice r u o = cc

not-false : (b : Bool) → not b ≡ false → b ≡ true
not-false true e = refl
not-false false e = cc

-- A correction of an event that is in the history goes ahead only when SIFEN approved the event, it is
-- the latest that stands, it is no correction and was never corrected, its days are not over, and it
-- swaps a conformity or a disconformity for another conclusive event. So an unawareness is never
-- corrected, although its kind is listed among those that have an opposite.
pub validate_correction-IsCorrectable :
    (original : CorrectableEvent) (replacement : ReceiverEventRequest)
    (history : List PriorReceiverEvent) (at : ℤ) (config : ReceiverEventConfig)
    → has history original.kind ≡ true
    → validate_correction original replacement history at config ≡ none
    → IsCorrectable original replacement at config
unfolding validate_correction
validate_correction-IsCorrectable original replacement history at config there h =
    let replaces = kind_of replacement.asked in
    let (approved, h1) = if_refuses (not (text_eq original.status (codes "approved"))) _ _ h in
    let (_, h2) = if_refuses (kind_eq original.kind receipt_notice) _ _ h1 in
    let (no_chain, h3) = if_refuses original.is_correction _ _ h2 in
    let (once, h4) = if_refuses original.already_corrected _ _ h3 in
    let (latest, h5) = if_refuses (not original.is_latest_conclusive) _ _ h4 in
    let (_, h6) = if_refuses (kind_eq original.kind replaces) _ _ h5 in
    let (against, h7) = if_refuses (not (opposite original.kind replaces)) _ _ h6 in
    let (in_time, h8) = if_refuses (is_after at (correction_deadline original config)) _ _ h7 in
    record {
      approved = (text_eq_iff original.status (codes "approved")).0 (not-false _ approved);
      swaps =
          Swaps-intro original.kind replaces
            (λ u.
              after_unawareness replacement history at config true
                (subst (λ k. has history k ≡ true) u there) (as_correction-none _ h8))
            (not-false _ against);
      first = (no_chain, once);
      latest = not-false _ latest;
      in_time = InTime-intro original at config in_time;
    }
  where
    as_correction-none : (r : Option ReceiverEventRefusal) → as_correction r ≡ none → r ≡ none
    as_correction-none none e = refl
    as_correction-none (some r) e = cc
