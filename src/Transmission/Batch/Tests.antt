-- ===== src/Transmission/Batch/Tests.antt =====
-- Runs of the selection of events, and the theorem at a concrete batch.
use facturacion_sifen.Prelude.{◌≡◌, refl, ok, err, List, [], ◌∷◌, codes}
use facturacion_sifen.Transmission.Batch.{
  SignedEvent, duplicate_event_id, check_batch, select_event_batch,
}

operations : Unit {0}
unfolding check_batch select_event_batch
operations = tt

abbrev event : SignedEvent
event = record { id = codes "a"; event_id = 7; signed_xml = codes "<rEve/>" }

abbrev events : List SignedEvent
events = event ∷ record event { event_id = 8 } ∷ []

batch_runs :
    (select_event_batch events ≡ ok events)
    × (select_event_batch (event ∷ events) ≡ err (duplicate_event_id 7))
unfolding operations
batch_runs = (refl, refl)
