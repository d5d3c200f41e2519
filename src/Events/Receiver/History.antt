-- ===== src/Events/Receiver/History.antt =====
-- What the histories of a document's receiver events look like, one registration at a time.
use facturacion_sifen.Prelude.{
  ℕ, ◌+◌, ◌≤◌, ◌≡◌, ◌≢◌, refl, arith, Bool, true, false, not, Option, none, some, List, [], ◌∷◌,
  ◌&&◌, ◌||◌, if◌then◌else◌, if_refuses,
}
use facturacion_sifen.Prelude.Int.{ℤ}
use facturacion_sifen.Events.Receiver.{
  ReceiverEventKind, conformity, disconformity, unawareness, receipt_notice, ConformityType, total,
  partial, ReceiverEventConfig, Asked, asks_conformity, asks_disconformity, asks_unawareness,
  asks_receipt_notice, ReceiverEventRequest, PriorReceiverEvent, kind_of, kind_eq,
  receiver_event_deadline, any, has, has_total, is_total, compatibility, last_conclusive,
  contradicts_last, is_after, validate_receiver_event,
}
use facturacion_sifen.Events.Cancel.{or_else}

abbrev type_of : Asked → Option ConformityType
type_of (asks_conformity t) = some t
type_of _ = none

-- The record of a request that was registered at an instant.
abbrev pub recorded : Asked → ℤ → PriorReceiverEvent
recorded asked at = record {
  kind = kind_of asked;
  conformity_type = type_of asked;
  registered_at = at;
}

-- The histories, newest event first, in which the platform let every event be registered when it
-- came, some as corrections of an earlier one where `may_correct` allows it.
pub data Registered (config : ReceiverEventConfig) (may_correct : Bool)
    : List PriorReceiverEvent → Type 0 where
  nothing : Registered config may_correct []
  register :
      {history : List PriorReceiverEvent} (request : ReceiverEventRequest) (at registered_at : ℤ)
      (correction : Bool)
      → Registered config may_correct history
      → validate_receiver_event request history at config (may_correct && correction) ≡ none
      → Registered config may_correct (recorded request.asked registered_at ∷ history)

-- A request that may be registered breaks none of the three rules.
pub accepted :
    (request : ReceiverEventRequest) (history : List PriorReceiverEvent) (at : ℤ)
    (config : ReceiverEventConfig) (correction : Bool)
    → validate_receiver_event request history at config correction ≡ none
    → (compatibility request history ≡ none)
      × ((not correction && contradicts_last (last_conclusive history) (kind_of request.asked))
          ≡ false)
      × (is_after at (receiver_event_deadline request config) ≡ false)
unfolding validate_receiver_event
accepted request history at config correction h =
    let (compatible, h1) = or_else-none (compatibility request history) _ h in
    let (agrees, h2) =
      if_refuses
        (not correction && contradicts_last (last_conclusive history) (kind_of request.asked)) _ _
        h1 in
    let (in_time, h3) = if_refuses (is_after at (receiver_event_deadline request config)) _ _ h2 in
    (compatible, agrees, in_time)
  where
    or_else-none : {A : Type 0} (a b : Option A) → or_else a b ≡ none → (a ≡ none) × (b ≡ none)
    or_else-none none b h = (refl, h)
    or_else-none (some a) b h = cc

-- How many events of a history pass a test.
abbrev pub count : (PriorReceiverEvent → Bool) → List PriorReceiverEvent → ℕ
count test [] = 0
count test (e ∷ es) = if test e then 1 + count test es else count test es

abbrev pub is_kind : ReceiverEventKind → PriorReceiverEvent → Bool
is_kind kind e = kind_eq e.kind kind

abbrev pub is_conformity : ConformityType → PriorReceiverEvent → Bool
is_conformity total e = kind_eq e.kind conformity && is_total e.conformity_type
is_conformity partial e = kind_eq e.kind conformity && not (is_total e.conformity_type)

-- A history with no event of a kind twice: a conformity in part and one in full count apart.
pub record IsConsistent (history : List PriorReceiverEvent) : Type 0 where
  pub receipts : count (is_kind receipt_notice) history ≤ 1
  pub disconformities : count (is_kind disconformity) history ≤ 1
  pub unawarenesses : count (is_kind unawareness) history ≤ 1
  pub totals : count (is_conformity total) history ≤ 1
  pub partials : count (is_conformity partial) history ≤ 1

any-count :
    (test : PriorReceiverEvent → Bool) (history : List PriorReceiverEvent)
    → any test history ≡ false
    → count test history ≡ 0
any-count test [] h = refl
any-count test (e ∷ es) h = ground (arith, any-count test es)

-- No conformity at all, so none in part.
no_partial :
    (history : List PriorReceiverEvent)
    → has history conformity ≡ false
    → count (is_conformity partial) history ≡ 0
no_partial [] h = refl
no_partial (e ∷ es) h = ground (arith, no_partial es)

-- What the rules of each kind ask of the history.
abbrev pub Admits : Asked → List PriorReceiverEvent → Type 0
Admits asks_receipt_notice history = has history receipt_notice ≡ false
Admits (asks_conformity total) history = has_total history ≡ false
Admits (asks_conformity partial) history = has history conformity ≡ false
Admits asks_disconformity history = has history disconformity ≡ false
Admits asks_unawareness history = Unit {0}

pub compatible_history :
    (request : ReceiverEventRequest) (history : List PriorReceiverEvent)
    → compatibility request history ≡ none
    → (has history unawareness ≡ false) × Admits request.asked history
unfolding compatibility
compatible_history request history = go request.asked
  where
    go :
        (a : Asked)
        → compatibility
            (record { issued_at = request.issued_at; approved_at = request.approved_at; asked = a })
            history
          ≡ none
        → (has history unawareness ≡ false) × Admits a history
    go asks_receipt_notice h =
        let (e, h1) = if_refuses (has history receipt_notice) _ _ h in
        ((if_refuses (has history unawareness) _ _ h1).0, e)
    go (asks_conformity total) h =
        let (e, h1) = if_refuses (has history unawareness) _ _ h in
        let (f, _) = if_refuses (has_total history || false) _ _ h1 in (e, ground arith)
    go (asks_conformity partial) h =
        let (e, h1) = if_refuses (has history unawareness) _ _ h in
        let (f, _) = if_refuses (has_total history || has history conformity) _ _ h1 in
        (e, ground arith)
    go asks_disconformity h =
        let (e, h1) = if_refuses (has history unawareness) _ _ h in
        (e, (if_refuses (has history disconformity) _ _ h1).0)
    go asks_unawareness h = ((if_refuses (has history unawareness) _ _ h).0, tt)

-- One more event.
step-IsConsistent :
    (asked : Asked) (at : ℤ) (history : List PriorReceiverEvent)
    → has history unawareness ≡ false
    → Admits asked history
    → IsConsistent history
    → IsConsistent (recorded asked at ∷ history)
step-IsConsistent asks_receipt_notice at history u h c = record {
  receipts = omega (arith, any-count (is_kind receipt_notice) history h);
  disconformities = c.disconformities;
  unawarenesses = c.unawarenesses;
  totals = c.totals;
  partials = c.partials;
}
step-IsConsistent (asks_conformity total) at history u h c = record {
  receipts = c.receipts;
  disconformities = c.disconformities;
  unawarenesses = c.unawarenesses;
  totals = omega (arith, any-count (is_conformity total) history h);
  partials = c.partials;
}
step-IsConsistent (asks_conformity partial) at history u h c = record {
  receipts = c.receipts;
  disconformities = c.disconformities;
  unawarenesses = c.unawarenesses;
  totals = c.totals;
  partials = omega (arith, no_partial history h);
}
step-IsConsistent asks_disconformity at history u h c = record {
  receipts = c.receipts;
  disconformities = omega (arith, any-count (is_kind disconformity) history h);
  unawarenesses = c.unawarenesses;
  totals = c.totals;
  partials = c.partials;
}
step-IsConsistent asks_unawareness at history u h c = record {
  receipts = c.receipts;
  disconformities = c.disconformities;
  unawarenesses = omega (arith, any-count (is_kind unawareness) history u);
  totals = c.totals;
  partials = c.partials;
}

-- An unawareness closes the history of its document: no event is registered after it, be it a
-- correction or not.
pub after_unawareness :
    (request : ReceiverEventRequest) (history : List PriorReceiverEvent) (at : ℤ)
    (config : ReceiverEventConfig) (correction : Bool)
    → has history unawareness ≡ true
    → validate_receiver_event request history at config correction ≢ none
after_unawareness request history at config correction h e =
    let (u, _) =
      compatible_history request history (accepted request history at config correction e).0 in
    cc

-- However the events of the receiver come and whichever are corrections, a document ends with at most
-- one receipt notice, one disconformity, one unawareness, one conformity in part and one in full.
pub Registered-IsConsistent :
    {config : ReceiverEventConfig} {may_correct : Bool} {history : List PriorReceiverEvent}
    → Registered config may_correct history
    → IsConsistent history
Registered-IsConsistent nothing = ground arith
Registered-IsConsistent (register {history = h} request at registered_at correction r e) =
    let (u, admitted) = compatible_history request h (accepted request h at _ _ e).0 in
    step-IsConsistent request.asked registered_at h u admitted (Registered-IsConsistent r)
