-- ===== src/Transmission/Batch.antt =====
-- apps/api/src/modules/transmission/domain/event-batch.ts: the events of one call.
pub mod Selection
mod Tests
use facturacion_sifen.Prelude.{
  ℕ, Bool, true, false, List, [], ◌∷◌, Result, ok, err, ◌>>=◌, ◌==◌, ◌||◌, if◌then◌else◌, Text,
  take,
}

abbrev pub max_events_per_batch : ℕ
max_events_per_batch = 15

pub record SignedEvent : Type 0 where
  pub id : Text
  pub event_id : ℕ
  pub signed_xml : Text

pub data DuplicateEventId : Type 0 where
  duplicate_event_id : ℕ → DuplicateEventId

abbrev pub seen : List ℕ → ℕ → Bool
seen [] n = false
seen (m ∷ ms) n = (m == n) || seen ms n

-- The loop over the batch, with the ids that it has met.
unfoldable pub check_batch : List ℕ → List SignedEvent → Result DuplicateEventId (Unit {0})
check_batch ids [] = ok tt
check_batch ids (event ∷ events) =
    let rest = check_batch (event.event_id ∷ ids) events in
    if seen ids event.event_id then err (duplicate_event_id event.event_id) else rest

unfoldable pub select_event_batch : List SignedEvent → Result DuplicateEventId (List SignedEvent)
select_event_batch events = do
  u ← check_batch [] (take max_events_per_batch events)
  ok (take max_events_per_batch events)
