-- ===== src/Events/Cancel.antt =====
-- apps/api/src/modules/issuer-events/domain/cancel-rules.ts: cancelling an approved document.
pub mod Window
mod Tests
use facturacion_sifen.Prelude.{
  ℕ, ◌+◌, ◌*◌, Bool, true, false, not, Option, none, some, List, [], ◌∷◌, Result, ok, err, ltb, leb,
  ◌==◌, ◌&&◌, ◌||◌, if◌then◌else◌, Text, codes, text_eq, trim, length,
}
use facturacion_sifen.Prelude.Int.{ℤ, pos, ◌+ℤ◌, ◌-ℤ◌, ltb_ℤ}

pub record CancelWindowConfig : Type 0 where
  pub fe_hours : ℕ
  pub other_hours : ℕ
  pub safety_margin_minutes : ℕ

abbrev pub default_cancel_window : CancelWindowConfig
default_cancel_window = record { fe_hours = 48; other_hours = 168; safety_margin_minutes = 15 }

pub record CancelCandidate : Type 0 where
  pub document_type : ℕ
  pub status : Text
  pub approved_at : Option ℤ
  pub signed_at : Option ℤ
  pub live_associated_cdcs : List Text

pub data CancelRefusal : Type 0 where
  document_not_approved cancel_document_type_unsupported approval_instant_unknown : CancelRefusal
  has_live_associated_documents : List Text → CancelRefusal
  cancel_window_expired : (sifen_code : ℕ) (deadline : ℤ) → CancelRefusal

abbrev pub includes_text : List Text → Text → Bool
includes_text [] s = false
includes_text (t ∷ ts) s = text_eq t s || includes_text ts s

abbrev pub includes : List ℕ → ℕ → Bool
includes [] n = false
includes (m ∷ ms) n = (m == n) || includes ms n

abbrev pub approved_statuses : List Text
approved_statuses = codes "approved" ∷ codes "approved_with_observations" ∷ []

abbrev pub is_approved : Text → Bool
is_approved status = includes_text approved_statuses status

abbrev pub fe : ℕ
fe = 1

abbrev pub other_with_window : List ℕ
other_with_window = 4 ∷ 5 ∷ 6 ∷ 7 ∷ []

-- A `reason` that is not a string is `none`.
unfoldable pub validate_cancel_reason : Option Text → Result (Unit {0}) Text
validate_cancel_reason none = err tt
validate_cancel_reason (some reason) =
    let value = trim reason in
    if leb 5 (length value) && leb (length value) 500 then ok value else err tt

unfoldable pub deadline_of : ℤ → ℕ → ℕ → ℤ
deadline_of approved_at hours margin =
    (approved_at +ℤ pos (hours * 3600000)) -ℤ pos (margin * 60000)

unfoldable pub cancel_deadline : ℕ → ℤ → CancelWindowConfig → Option ℤ
cancel_deadline document_type approved_at config =
    if document_type == fe
    then some (deadline_of approved_at config.fe_hours config.safety_margin_minutes)
    else if includes other_with_window document_type
    then some (deadline_of approved_at config.other_hours config.safety_margin_minutes)
    else none

-- `a ?? b`
abbrev pub or_else {ℓ} : {A : Type ℓ} → Option A → Option A → Option A
or_else none b = b
or_else (some a) b = some a

abbrev pub is_empty {ℓ} : {A : Type ℓ} → List A → Bool
is_empty [] = true
is_empty (x ∷ xs) = false

-- The last rule: the window.
unfoldable pub check_window : CancelCandidate → ℤ → ℤ → CancelWindowConfig → Option CancelRefusal
check_window c instant at config = elim (cancel_deadline c.document_type instant config) [
  | none ↦ none
  | some deadline ↦
      if ltb_ℤ deadline at
      then some (cancel_window_expired (if c.document_type == fe then 4009 else 4010) deadline)
      else none
]

unfoldable pub validate_cancellation :
    CancelCandidate → ℤ → CancelWindowConfig → Option CancelRefusal
validate_cancellation c at config =
    if not (is_approved c.status)
    then some document_not_approved
    else if not (c.document_type == fe) && not (includes other_with_window c.document_type)
    then some cancel_document_type_unsupported
    else if not (is_empty c.live_associated_cdcs)
    then some (has_live_associated_documents c.live_associated_cdcs)
    else elim (or_else c.approved_at c.signed_at) [
      | none ↦ some approval_instant_unknown
      | some instant ↦ check_window c instant at config
    ]
