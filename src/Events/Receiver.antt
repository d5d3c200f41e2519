-- ===== src/Events/Receiver.antt =====
-- apps/api/src/modules/issuer-events/domain/receiver-event-rules.ts: the events that the receiver of a
-- document registers on it. The reading of the request's body (`parseReceiverEventRequest`) is left
-- out: a request here is one that it accepted. Its texts play no part in the rules; `issued_at` is the
-- instant of the wall clock in Asunción, `none` where the text is no date.
pub mod History
pub mod Agreement
mod Tests
use facturacion_sifen.Prelude.{
  ℕ, ◌*◌, Bool, true, false, not, Option, none, some, List, [], ◌∷◌, ◌&&◌, ◌||◌, if◌then◌else◌,
}
use facturacion_sifen.Prelude.Int.{ℤ, pos, ◌+ℤ◌, ◌-ℤ◌, ltb_ℤ}
use facturacion_sifen.Events.Cancel.{or_else}

pub data ReceiverEventKind : Type 0 where
  conformity disconformity unawareness receipt_notice : ReceiverEventKind

pub data ConformityType : Type 0 where
  total partial : ConformityType

pub record ReceiverEventConfig : Type 0 where
  pub window_days : ℕ
  pub correction_days : ℕ
  pub safety_margin_minutes : ℕ

abbrev pub default_receiver_event_config : ReceiverEventConfig
default_receiver_event_config = record {
  window_days = 45;
  correction_days = 15;
  safety_margin_minutes = 15;
}

-- What a request says of its kind: the type belongs to a conformity alone.
pub data Asked : Type 0 where
  asks_conformity : ConformityType → Asked
  asks_disconformity asks_unawareness asks_receipt_notice : Asked

pub record ReceiverEventRequest : Type 0 where
  pub issued_at : Option ℤ
  pub approved_at : Option ℤ
  pub asked : Asked

pub record PriorReceiverEvent : Type 0 where
  pub kind : ReceiverEventKind
  pub conformity_type : Option ConformityType
  pub registered_at : ℤ

-- The number is the SIFEN code.
pub data ReceiverEventRefusal : Type 0 where
  already_registered incongruent : ℕ → ReceiverEventRefusal
  needs_correction : ReceiverEventRefusal
  window_expired : (sifen_code : ℕ) (deadline : Option ℤ) → ReceiverEventRefusal

abbrev pub kind_of : Asked → ReceiverEventKind
kind_of (asks_conformity t) = conformity
kind_of asks_disconformity = disconformity
kind_of asks_unawareness = unawareness
kind_of asks_receipt_notice = receipt_notice

abbrev pub kind_eq : ReceiverEventKind → ReceiverEventKind → Bool
kind_eq conformity conformity = true
kind_eq disconformity disconformity = true
kind_eq unawareness unawareness = true
kind_eq receipt_notice receipt_notice = true
kind_eq _ _ = false

abbrev pub is_some {ℓ} : {A : Type ℓ} → Option A → Bool
is_some none = false
is_some (some a) = true

-- `EXPIRED_CODE`, of a DE and of a DTE.
abbrev pub expired_code : ReceiverEventKind → Bool → ℕ
expired_code conformity dte = 4157
expired_code disconformity dte = 4206
expired_code unawareness dte = if dte then 4263 else 4253
expired_code receipt_notice dte = if dte then 4114 else 4103

-- `none` is the invalid date.
unfoldable pub receiver_event_deadline : ReceiverEventRequest → ReceiverEventConfig → Option ℤ
receiver_event_deadline request config = elim (or_else request.approved_at request.issued_at) [
  | none ↦ none
  | some start ↦
      some (
        (start +ℤ pos (config.window_days * 86400000))
        -ℤ pos (config.safety_margin_minutes * 60000))
]

-- `OPPOSITE[last]?.includes(kind)`
abbrev pub opposite : ReceiverEventKind → ReceiverEventKind → Bool
opposite conformity disconformity = true
opposite conformity unawareness = true
opposite disconformity conformity = true
opposite disconformity unawareness = true
opposite unawareness conformity = true
opposite unawareness disconformity = true
opposite _ _ = false

abbrev pub is_conclusive : ReceiverEventKind → Bool
is_conclusive receipt_notice = false
is_conclusive _ = true

-- `history.some(test)`
abbrev pub any : (PriorReceiverEvent → Bool) → List PriorReceiverEvent → Bool
any test [] = false
any test (e ∷ es) = test e || any test es

abbrev pub has : List PriorReceiverEvent → ReceiverEventKind → Bool
has history kind = any (λ e. kind_eq e.kind kind) history

abbrev is_total : Option ConformityType → Bool
is_total (some total) = true
is_total _ = false

-- A conformity in full, among the conformities of the history.
abbrev pub has_total : List PriorReceiverEvent → Bool
has_total history = any (λ e. kind_eq e.kind conformity && is_total e.conformity_type) history

unfoldable pub compatibility :
    ReceiverEventRequest → List PriorReceiverEvent → Option ReceiverEventRefusal
compatibility request history = elim request.asked [
  | asks_receipt_notice ↦
      if has history receipt_notice
      then some (already_registered 4101)
      else if has history unawareness
      then some (incongruent 4113)
      else if is_some request.approved_at && (has history conformity || has history disconformity)
      then some (incongruent 4113)
      else none
  | asks_conformity t ↦
      if has history unawareness
      then some (incongruent 4156)
      else if has_total history || (not (is_total (some t)) && has history conformity)
      then some (already_registered 4150)
      else none
  | asks_disconformity ↦
      if has history unawareness
      then some (incongruent 4205)
      else if has history disconformity
      then some (already_registered 4200)
      else none
  | asks_unawareness ↦ if has history unawareness then some (already_registered 4251) else none
]

-- The kind of the conclusive event that was registered last: the first of the greatest
-- `registered_at`, since the source sorts by it, latest first, and the sort keeps the order of equals.
abbrev later : PriorReceiverEvent → Option PriorReceiverEvent → Option PriorReceiverEvent
later e none = some e
later e (some l) = if ltb_ℤ e.registered_at l.registered_at then some l else some e

unfoldable pub last_conclusive : List PriorReceiverEvent → Option PriorReceiverEvent
last_conclusive [] = none
last_conclusive (e ∷ es) =
    let rest = last_conclusive es in if is_conclusive e.kind then later e rest else rest

abbrev pub contradicts_last : Option PriorReceiverEvent → ReceiverEventKind → Bool
contradicts_last none kind = false
contradicts_last (some l) kind = opposite l.kind kind

-- `at > deadline`, which is false of the invalid date.
abbrev pub is_after : ℤ → Option ℤ → Bool
is_after at none = false
is_after at (some deadline) = ltb_ℤ deadline at

unfoldable pub validate_receiver_event :
    ReceiverEventRequest
    → List PriorReceiverEvent
    → ℤ
    → ReceiverEventConfig
    → (correction : Bool) → Option ReceiverEventRefusal
validate_receiver_event request history at config correction =
    or_else (compatibility request history) (
      if not correction && contradicts_last (last_conclusive history) (kind_of request.asked)
      then some needs_correction
      else if is_after at (receiver_event_deadline request config)
      then some (
          window_expired (expired_code (kind_of request.asked) (is_some request.approved_at))
            (receiver_event_deadline request config))
      else none)
