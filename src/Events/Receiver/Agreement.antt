-- ===== src/Events/Receiver/Agreement.antt =====
-- What the history of a document says when nobody corrected anything.
use facturacion_sifen.Prelude.{
  ◌≡◌, ◌⊎◌, inl, inr, refl, ◌∙◌, arith, Bool, true, false, Option, none, some, List, [], ◌∷◌,
  if◌then◌else◌, ◌≢◌,
}
use facturacion_sifen.Prelude.Int.{ltb_ℤ}
use facturacion_sifen.Events.Receiver.{
  ReceiverEventKind, conformity, ReceiverEventConfig, PriorReceiverEvent, kind_of, opposite,
  is_conclusive, later, last_conclusive, contradicts_last,
}
use facturacion_sifen.Events.Receiver.History.{Registered, nothing, register, recorded, accepted}

-- Every conformity, disconformity and unawareness of the history is of this kind.
abbrev pub AgreesOn : ReceiverEventKind → List PriorReceiverEvent → Type 0
AgreesOn k [] = Unit {0}
AgreesOn k (e ∷ es) = (is_conclusive e.kind ≡ true → e.kind ≡ k) × AgreesOn k es

option_eq : (a b : PriorReceiverEvent) → some a ≡ some b → b ≡ a
option_eq a b h = cc

later_cases :
    (e : PriorReceiverEvent) (o : Option PriorReceiverEvent) (l : PriorReceiverEvent)
    → later e o ≡ some l
    → (l ≡ e) ⊎ (o ≡ some l)
later_cases e none l h = inl (cc)
later_cases e (some m) l h = pick (ltb_ℤ e.registered_at m.registered_at) h
  where
    pick :
        (b : Bool)
        → (if b then some m else some e) ≡ some l
        → (l ≡ e) ⊎ ((let r : Option PriorReceiverEvent = some m in r) ≡ some l)
    pick true h = inr h
    pick false h = inl (option_eq e l h)

later_some : (e : PriorReceiverEvent) (o : Option PriorReceiverEvent) → later e o ≢ none
later_some e none h = cc
later_some e (some m) h = pick (ltb_ℤ e.registered_at m.registered_at) h
  where
    pick : (b : Bool) → (if b then some m else some e) ≢ none
    pick true h = cc
    pick false h = cc

last_of :
    (k : ReceiverEventKind) (history : List PriorReceiverEvent) (l : PriorReceiverEvent)
    → AgreesOn k history
    → last_conclusive history ≡ some l
    → (is_conclusive l.kind ≡ true) × (l.kind ≡ k)
unfolding last_conclusive
last_of k [] l a h = cc
last_of k (e ∷ es) l (a, as_) h = pick (is_conclusive e.kind) refl h (last_of k es l as_)
  where
    pick :
        (b : Bool)
        → is_conclusive e.kind ≡ b
        → (if b then later e (last_conclusive es) else last_conclusive es) ≡ some l
        → (last_conclusive es ≡ some l → (is_conclusive l.kind ≡ true) × (l.kind ≡ k))
        → (is_conclusive l.kind ≡ true) × (l.kind ≡ k)
    pick false c h earlier = earlier h
    pick true c h earlier = elim (later_cases e (last_conclusive es) l h) [
      | inl i ↦ rw i (c, a c)
      | inr i ↦ earlier i
    ]

none_of :
    (k : ReceiverEventKind) (history : List PriorReceiverEvent)
    → last_conclusive history ≡ none
    → AgreesOn k history
unfolding last_conclusive
none_of k [] h = tt
none_of k (e ∷ es) h = pick (is_conclusive e.kind) refl h (none_of k es)
  where
    pick :
        (b : Bool)
        → is_conclusive e.kind ≡ b
        → (if b then later e (last_conclusive es) else last_conclusive es) ≡ none
        → (last_conclusive es ≡ none → AgreesOn k es)
        → AgreesOn k (e ∷ es)
    pick false c h earlier = (λ d. cc, earlier h)
    pick true c h earlier = absurd (later_some e (last_conclusive es) h)

not_opposite :
    (k l : ReceiverEventKind)
    → is_conclusive k ≡ true
    → is_conclusive l ≡ true
    → opposite k l ≡ false
    → l ≡ k
not_opposite k l h i o = ground arith

-- As long as no event is registered as a correction, all the conformities, disconformities and
-- unawarenesses of a document are of one kind: its receiver never says two things.
pub Registered-AgreesOn :
    {config : ReceiverEventConfig} {history : List PriorReceiverEvent}
    → Registered config false history
    → (k : ReceiverEventKind) × AgreesOn k history
Registered-AgreesOn nothing = (conformity, tt)
Registered-AgreesOn (register {history = h} request at registered_at correction r e) =
    let (k, agrees) = Registered-AgreesOn r in
    let fits = (accepted request h at _ false e).1 in
    pick (is_conclusive (kind_of request.asked)) (last_conclusive h) refl refl fits k agrees
  where
    asked : ReceiverEventKind
    asked = kind_of request.asked

    pick :
        (b : Bool) (o : Option PriorReceiverEvent)
        → is_conclusive asked ≡ b
        → last_conclusive h ≡ o
        → contradicts_last o asked ≡ false
        → (k : ReceiverEventKind) → AgreesOn k h
        → (k : ReceiverEventKind) × AgreesOn k (recorded request.asked registered_at ∷ h)
    pick false o c l f k a = (k, (λ d. cc, a))
    pick true none c l f k a = (asked, (λ d. refl, none_of asked h l))
    pick true (some m) c l f k a =
        let (conclusive, m_kind) = last_of k h m a l in
        (k, (λ d. not_opposite m.kind asked conclusive c f ∙ m_kind, a))
