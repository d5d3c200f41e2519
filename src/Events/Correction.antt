-- ===== src/Events/Correction.antt =====
-- apps/api/src/modules/issuer-events/domain/receiver-correction-rules.ts: replacing an event of the
-- receiver by another.
pub mod Replacement
mod Tests
use facturacion_sifen.Prelude.{
  ℕ, ◌*◌, Bool, true, false, not, Option, none, some, List, [], ◌∷◌, Result, ok, err, leb, ◌&&◌,
  ◌||◌, if◌then◌else◌, Text, codes, text_eq, trim, length,
}
use facturacion_sifen.Prelude.Int.{ℤ, pos, ◌+ℤ◌, ◌-ℤ◌, ltb_ℤ}
use facturacion_sifen.Events.Receiver.{
  ReceiverEventKind, receipt_notice, ConformityType, ReceiverEventConfig, ReceiverEventRequest,
  PriorReceiverEvent, ReceiverEventRefusal, kind_of, kind_eq, opposite, is_after,
  validate_receiver_event,
}

pub record CorrectableEvent : Type 0 where
  pub kind : ReceiverEventKind
  pub conformity_type : Option ConformityType
  pub status : Text
  pub responded_at : Option ℤ
  pub is_correction : Bool
  pub already_corrected : Bool
  pub is_latest_conclusive : Bool

pub data CorrectionRefusal : Type 0 where
  original_not_approved kind_unsupported of_correction already_requested : CorrectionRefusal
  original_superseded kind_not_opposite : CorrectionRefusal
  correction_window_expired : (deadline : Option ℤ) → CorrectionRefusal
  refused_event : ReceiverEventRefusal → CorrectionRefusal

unfoldable pub validate_correction_reason : Option Text → Result (Unit {0}) Text
validate_correction_reason none = err tt
validate_correction_reason (some reason) =
    let value = trim reason in
    if leb 5 (length value) && leb (length value) 500 then ok value else err tt

-- `none` while SIFEN has not answered: no window is then counted.
unfoldable pub correction_deadline : CorrectableEvent → ReceiverEventConfig → Option ℤ
correction_deadline original config = elim original.responded_at [
  | none ↦ none
  | some responded ↦ some (
      (responded +ℤ pos (config.correction_days * 86400000))
      -ℤ pos (config.safety_margin_minutes * 60000))
]

abbrev pub as_correction : Option ReceiverEventRefusal → Option CorrectionRefusal
as_correction none = none
as_correction (some refusal) = some (refused_event refusal)

unfoldable pub validate_correction :
    CorrectableEvent
    → ReceiverEventRequest
    → List PriorReceiverEvent
    → ℤ
    → ReceiverEventConfig
    → Option CorrectionRefusal
validate_correction original replacement history at config =
    if not (text_eq original.status (codes "approved"))
    then some original_not_approved
    else if kind_eq original.kind receipt_notice
    then some kind_unsupported
    else if original.is_correction
    then some of_correction
    else if original.already_corrected
    then some already_requested
    else if not original.is_latest_conclusive
    then some original_superseded
    else if kind_eq original.kind (kind_of replacement.asked)
    then some kind_not_opposite
    else if not (opposite original.kind (kind_of replacement.asked))
    then some kind_not_opposite
    else if is_after at (correction_deadline original config)
    then some (correction_window_expired (correction_deadline original config))
    else as_correction (validate_receiver_event replacement history at config true)
