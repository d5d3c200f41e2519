-- ===== src/Events/Correction/Tests.antt =====
-- Runs of the rules of a correction, and the theorem at a concrete one.
use facturacion_sifen.Prelude.{◌≡◌, refl, true, false, some, none, List, [], ◌∷◌, codes}
use facturacion_sifen.Prelude.Int.{pos, ◌+ℤ◌, ◌-ℤ◌}
use facturacion_sifen.Events.Receiver.{
  ReceiverEventRequest, PriorReceiverEvent, default_receiver_event_config, asks_disconformity,
  conformity, unawareness, total, compatibility, last_conclusive, receiver_event_deadline,
  validate_receiver_event, incongruent,
}
use facturacion_sifen.Events.Correction.{
  CorrectableEvent, correction_deadline, validate_correction, refused_event,
}
use facturacion_sifen.Events.Correction.Replacement.{
  IsCorrectable, validate_correction-IsCorrectable,
}

operations : Unit {0}
unfolding compatibility last_conclusive receiver_event_deadline validate_receiver_event
    correction_deadline validate_correction ◌+ℤ◌ ◌-ℤ◌
operations = tt

abbrev original : CorrectableEvent
original = record {
  kind = conformity;
  conformity_type = some total;
  status = codes "approved";
  responded_at = some (pos 1000);
  is_correction = false;
  already_corrected = false;
  is_latest_conclusive = true;
}

abbrev replacement : ReceiverEventRequest
replacement = record { issued_at = some (pos 0); approved_at = none; asked = asks_disconformity }

abbrev history : List PriorReceiverEvent
history = record { kind = conformity; conformity_type = some total; registered_at = pos 1000 } ∷ []

goes_ahead :
    validate_correction original replacement history (pos 2000) default_receiver_event_config ≡ none
unfolding operations
goes_ahead = refl

-- An unawareness that SIFEN approved is not corrected, not even on the same day.
unawareness_stays :
    validate_correction
      (record original { kind = unawareness; conformity_type = none })
      replacement
      (record { kind = unawareness; conformity_type = none; registered_at = pos 1000 } ∷ [])
      (pos 2000)
      default_receiver_event_config
    ≡ some (refused_event (incongruent 4205))
unfolding operations
unawareness_stays = refl

validate_correction-IsCorrectable_example :
    IsCorrectable original replacement (pos 2000) default_receiver_event_config
validate_correction-IsCorrectable_example =
    validate_correction-IsCorrectable original replacement history (pos 2000)
      default_receiver_event_config refl goes_ahead
