-- ===== src/Events/Nominate.antt =====
-- apps/api/src/modules/issuer-events/domain/nominate-rules.ts: naming the receiver of an invoice that
-- was issued to nobody in particular.
use facturacion_sifen.Prelude.{
  ℕ, ◌≡◌, ◌⊎◌, ◌↔◌, refl, Bool, true, false, not, Option, none, some, ◌==◌, arith, if◌then◌else◌,
  if_refuses, Text, codes,
}
use facturacion_sifen.Events.Cancel.{fe, is_approved}
use facturacion_sifen.Events.Cancel.Window.{is_approved_iff}

pub data ReceiverKind : Type 0 where
  unnamed named : ReceiverKind

pub record NominationCandidate : Type 0 where
  pub document_type : ℕ
  pub status : Text
  pub receiver_kind : Option ReceiverKind

pub data NominationRefusal : Type 0 where
  nominate_requires_fe document_not_approved nominate_receiver_named : NominationRefusal

abbrev is_unnamed : Option ReceiverKind → Bool
is_unnamed (some unnamed) = true
is_unnamed _ = false

-- The SIFEN codes of the three refusals are 4454, 4002 and 4469.
abbrev pub sifen_code : NominationRefusal → ℕ
sifen_code nominate_requires_fe = 4454
sifen_code document_not_approved = 4002
sifen_code nominate_receiver_named = 4469

unfoldable pub validate_nomination : NominationCandidate → Option NominationRefusal
validate_nomination candidate =
    if not (candidate.document_type == fe)
    then some nominate_requires_fe
    else if not (is_approved candidate.status)
    then some document_not_approved
    else if not (is_unnamed candidate.receiver_kind)
    then some nominate_receiver_named
    else none

-- A nomination is refused by no rule exactly when the document is an invoice (type 1), SIFEN approved
-- it, with observations or without, and its stored request names no receiver; a request that does not
-- say is refused.
pub validate_nomination_iff :
    (c : NominationCandidate)
    → (validate_nomination c ≡ none) ↔ (
        (c.document_type ≡ 1)
        × ((c.status ≡ codes "approved") ⊎ (c.status ≡ codes "approved_with_observations"))
        × (c.receiver_kind ≡ some unnamed))
unfolding validate_nomination
validate_nomination_iff c = (
  λ h.
      let (typed, h1) = if_refuses (not (c.document_type == fe)) _ _ h in
      let (approved, h2) = if_refuses (not (is_approved c.status)) _ _ h1 in
      let (nobody, _) = if_refuses (not (is_unnamed c.receiver_kind)) _ _ h2 in
      (ground arith, (is_approved_iff c.status).0 (ground arith), is_some c.receiver_kind nobody),
  λ (typed, approved, nobody). rw (typed, (is_approved_iff c.status).1 approved, nobody),
)
  where
    is_some : (o : Option ReceiverKind) → not (is_unnamed o) ≡ false → o ≡ some unnamed
    is_some (some unnamed) e = refl
    is_some (some named) e = cc
    is_some none e = cc
