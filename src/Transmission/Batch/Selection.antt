-- ===== src/Transmission/Batch/Selection.antt =====
-- Which events one call takes.
use facturacion_sifen.Prelude.{
  ℕ, ◌≡◌, ◌≢◌, ◌↔◌, refl, sym, arith, false, List, [], ◌∷◌, Result, ok, err, ◌>>=◌, take, >>=-eq-ok,
  ok-injective, Bool-cases, inl, inr,
}
use facturacion_sifen.Transmission.Batch.{
  SignedEvent, DuplicateEventId, seen, check_batch, select_event_batch,
}

-- No event has one of the given ids.
abbrev pub NoneOf : List ℕ → List SignedEvent → Type 0
NoneOf ids [] = Unit {0}
NoneOf ids (e ∷ es) = (seen ids e.event_id ≡ false) × NoneOf ids es

-- No two events have the same id.
abbrev pub DistinctIds : List SignedEvent → Type 0
DistinctIds [] = Unit {0}
DistinctIds (e ∷ es) = NoneOf (e.event_id ∷ []) es × DistinctIds es

NoneOf-two :
    (n : ℕ) (ids : List ℕ) (es : List SignedEvent)
    → NoneOf (n ∷ ids) es ↔ (NoneOf (n ∷ []) es × NoneOf ids es)
NoneOf-two n ids [] = (λ _. (tt, tt), λ _. tt)
NoneOf-two n ids (e ∷ es) = (
  λ (h, t). let (a, b) = (NoneOf-two n ids es).0 t in ((ground arith, a), (ground arith, b)),
  λ ((h, a), (k, b)). (ground arith, (NoneOf-two n ids es).1 (a, b)),
)

check_batch_iff :
    (ids : List ℕ) (events : List SignedEvent)
    → (check_batch ids events ≡ ok tt) ↔ (NoneOf ids events × DistinctIds events)
unfolding check_batch
check_batch_iff ids [] = (λ _. (tt, tt), λ _. refl)
check_batch_iff ids (e ∷ es) =
    let later = check_batch_iff (e.event_id ∷ ids) es in
    let two = NoneOf-two e.event_id ids es in
    elim (Bool-cases (seen ids e.event_id)) [
      | inl again ↦ (λ h. absurd (err_ok _ (rw again at h)), λ ((fresh, _), _). cc)
      | inr fresh ↦ (
        λ h.
            let (rest, distinct) = later.0 (rw fresh at h) in
            let (own, others) = two.0 rest in ((fresh, others), (own, distinct)),
        λ ((_, others), (own, distinct)). rw fresh (later.1 (two.1 (own, others), distinct)),
      )
    ]
  where
    err_ok :
        (d : DuplicateEventId) → (let r : Result DuplicateEventId (Unit {0}) = err d in r) ≢ ok tt
    err_ok d h = cc

-- The events of a send are the first 15, and they are sent exactly when no two of them share an id.
pub select_event_batch_iff :
    (events batch : List SignedEvent)
    → (select_event_batch events ≡ ok batch)
      ↔ ((batch ≡ take 15 events) × DistinctIds (take 15 events))
unfolding select_event_batch
select_event_batch_iff events batch = (
  λ h.
      let (u, checked, same) = >>=-eq-ok (check_batch [] (take 15 events)) _ h in
      (sym (ok-injective same), ((check_batch_iff [] (take 15 events)).0 checked).1),
  λ (same, distinct). rw (
    (check_batch_iff [] (take 15 events)).1 (nothing_seen (take 15 events), distinct),
    same,
    ◌>>=◌,
  ),
)
  where
    nothing_seen : (es : List SignedEvent) → NoneOf [] es
    nothing_seen [] = tt
    nothing_seen (e ∷ es) = (refl, nothing_seen es)
