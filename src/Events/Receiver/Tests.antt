-- ===== src/Events/Receiver/Tests.antt =====
-- Runs of the rules of the receiver's events, and the theorems at a concrete history.
use facturacion_sifen.Prelude.{◌≡◌, refl, false, some, none, List, [], ◌∷◌}
use facturacion_sifen.Prelude.Int.{pos, ◌+ℤ◌, ◌-ℤ◌}
use facturacion_sifen.Events.Receiver.{
  ReceiverEventKind, ReceiverEventRequest, PriorReceiverEvent, default_receiver_event_config,
  asks_conformity, asks_disconformity, total, partial, compatibility, last_conclusive,
  receiver_event_deadline, validate_receiver_event, needs_correction, window_expired,
  already_registered,
}
use facturacion_sifen.Events.Receiver.History.{
  Registered, nothing, register, recorded, IsConsistent, Registered-IsConsistent,
}
use facturacion_sifen.Events.Receiver.Agreement.{AgreesOn, Registered-AgreesOn}

operations : Unit {0}
unfolding compatibility last_conclusive receiver_event_deadline validate_receiver_event ◌+ℤ◌ ◌-ℤ◌
operations = tt

abbrev partly : ReceiverEventRequest
partly = record { issued_at = some (pos 0); approved_at = none; asked = asks_conformity partial }

abbrev wholly : ReceiverEventRequest
wholly = record partly { asked = asks_conformity total }

abbrev one_event : List PriorReceiverEvent
one_event = recorded (asks_conformity partial) (pos 1000) ∷ []

abbrev two_events : List PriorReceiverEvent
two_events = recorded (asks_conformity total) (pos 2000) ∷ one_event

event_runs :
    (validate_receiver_event wholly two_events (pos 3000) default_receiver_event_config false
      ≡ some (already_registered 4150))
    × (validate_receiver_event
          (record partly { asked = asks_disconformity })
          two_events
          (pos 3000)
          default_receiver_event_config
          false
        ≡ some needs_correction)
    × (validate_receiver_event wholly one_event (pos 3887100001) default_receiver_event_config false
        ≡ some (window_expired 4157 (some (pos 3887100000))))
unfolding operations
event_runs = (refl, refl, refl)

first_fits : validate_receiver_event partly [] (pos 1000) default_receiver_event_config false ≡ none
unfolding operations
first_fits = refl

second_fits :
    validate_receiver_event wholly one_event (pos 2000) default_receiver_event_config false ≡ none
unfolding operations
second_fits = refl

two-Registered : Registered default_receiver_event_config false two_events
two-Registered =
    register wholly (pos 2000) (pos 2000) false
      (register partly (pos 1000) (pos 1000) false nothing first_fits) second_fits

Registered-IsConsistent_example : IsConsistent two_events
Registered-IsConsistent_example = Registered-IsConsistent two-Registered

Registered-AgreesOn_example : (k : ReceiverEventKind) × AgreesOn k two_events
Registered-AgreesOn_example = Registered-AgreesOn two-Registered
