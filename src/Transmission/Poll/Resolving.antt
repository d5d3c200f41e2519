-- ===== src/Transmission/Poll/Resolving.antt =====
-- What the answer of SIFEN settles: `resolve` of poll-lote-result.ts against the verdict on one CDC.
use facturacion_sifen.Prelude.{
  ◌≡◌, inl, inr, refl, sym, ap, ◌∙◌, Bool, true, false, ◌&&◌, Option, none, some, List, [], ◌∷◌,
  if◌then◌else◌, Text, text_eq, text_eq_iff, text_eq_refl, Bool-cases,
}
use facturacion_sifen.Transmission.Lote.{has_cdc}
use facturacion_sifen.Transmission.Poll.{
  ResolutionStatus, DocumentResolution, LotePollOutcome, processed, Unicode, document_status_of,
  LoteResult, is_status, Entry, lookup, put, resolution_of, merge, collect,
}

-- The statuses that the answer gives one CDC, in order; `none` is a `dEstRes` that says nothing.
abbrev pub statuses_of : Unicode → Text → List LoteResult → List (Option ResolutionStatus)
statuses_of u cdc [] = []
statuses_of u cdc (r ∷ rs) =
    let rest = statuses_of u cdc rs in
    if text_eq r.cdc cdc then document_status_of u r.d_est_res ∷ rest else rest

abbrev pub all_are : ResolutionStatus → List (Option ResolutionStatus) → Bool
all_are s [] = true
all_are s (t ∷ ts) = is_status s t && all_are s ts

-- The status on which all of them agree, where there is one.
abbrev pub verdict : List (Option ResolutionStatus) → Option ResolutionStatus
verdict [] = none
verdict (none ∷ ts) = none
verdict (some s ∷ ts) = if all_are s ts then some s else none

-- The status that a list of resolutions gives a CDC.
abbrev pub status_in : List DocumentResolution → Text → Option ResolutionStatus
status_in [] cdc = none
status_in (r ∷ rs) cdc = if text_eq r.cdc cdc then some r.status else status_in rs cdc

-- The CDCs on which there is no verdict.
abbrev pub without_verdict : Unicode → List LoteResult → List Text → List Text
without_verdict u results [] = []
without_verdict u results (cdc ∷ cdcs) =
    let rest = without_verdict u results cdcs in
    elim (verdict (statuses_of u cdc results)) [ none ↦ cdc ∷ rest | some s ↦ rest ]

abbrev pub needs_recovery_of : LotePollOutcome → List Text
needs_recovery_of (processed resolutions needs_recovery) = needs_recovery
needs_recovery_of _ = []

lookup-put_self :
    (es : List Entry) (k : Text) (v : Option DocumentResolution) → lookup (put es k v) k ≡ some v
lookup-put_self [] k v = rw (text_eq_refl k)
lookup-put_self ((k', w) ∷ es) k v = elim (Bool-cases (text_eq k' k)) [
  | inl e ↦ rw (e, e)
  | inr e ↦ rw (e, e) (lookup-put_self es k v)
]

lookup-put_other :
    (es : List Entry) (k c : Text) (v : Option DocumentResolution)
    → text_eq k c ≡ false
    → lookup (put es k v) c ≡ lookup es c
lookup-put_other [] k c v h = rw h
lookup-put_other ((k', w) ∷ es) k c v h = elim (Bool-cases (text_eq k' k)) [
  | inl e ↦ other k' ((text_eq_iff k' k).0 e)
  | inr e ↦ rw e (onward (text_eq k' c) (lookup-put_other es k c v h))
]
  where
    onward :
        (b : Bool)
        → lookup (put es k v) c ≡ lookup es c
        → (if b then some w else lookup (put es k v) c) ≡ (if b then some w else lookup es c)
    onward true same = refl
    onward false same = same

    other : (k' : Text) → k' ≡ k → lookup (put ((k', w) ∷ es) k v) c ≡ lookup ((k', w) ∷ es) c
    other k' same = rw (same, text_eq_refl k, h)

-- What one more result for a CDC makes of its entry.
abbrev pub next_entry :
    LoteResult
    → Option ResolutionStatus
    → Option (Option DocumentResolution)
    → Option DocumentResolution
next_entry r s none = resolution_of r s
next_entry r s (some none) = none
next_entry r s (some (some p)) = if is_status p.status s then some p else none

-- What the results of one CDC make of its entry.
abbrev pub entry_of :
    Unicode
    → Text
    → List LoteResult
    → Option (Option DocumentResolution)
    → Option (Option DocumentResolution)
entry_of u cdc [] o = o
entry_of u cdc (r ∷ rs) o =
    entry_of u cdc rs
      (if text_eq r.cdc cdc then some (next_entry r (document_status_of u r.d_est_res) o) else o)

lookup-merge :
    (es : List Entry) (r : LoteResult) (s : Option ResolutionStatus)
    → lookup (merge es r s (lookup es r.cdc)) r.cdc ≡ some (next_entry r s (lookup es r.cdc))
lookup-merge es r s = at (lookup es r.cdc) refl
  where
    at :
        (o : Option (Option DocumentResolution))
        → lookup es r.cdc ≡ o
        → lookup (merge es r s o) r.cdc ≡ some (next_entry r s o)
    at none e = lookup-put_self es r.cdc (resolution_of r s)
    at (some none) e = lookup-put_self es r.cdc none
    at (some (some p)) e = kept (is_status p.status s)
      where
        kept :
            (b : Bool)
            → lookup (if b then es else put es r.cdc none) r.cdc ≡ some (if b then some p else none)
        kept true = e
        kept false = lookup-put_self es r.cdc none

lookup-merge_other :
    (es : List Entry) (r : LoteResult) (s : Option ResolutionStatus)
    (o : Option (Option DocumentResolution)) (c : Text)
    → text_eq r.cdc c ≡ false
    → lookup (merge es r s o) c ≡ lookup es c
lookup-merge_other es r s none c h = lookup-put_other es r.cdc c (resolution_of r s) h
lookup-merge_other es r s (some none) c h = lookup-put_other es r.cdc c none h
lookup-merge_other es r s (some (some p)) c h = kept (is_status p.status s)
  where
    kept : (b : Bool) → lookup (if b then es else put es r.cdc none) c ≡ lookup es c
    kept true = refl
    kept false = lookup-put_other es r.cdc c none h

lookup_step :
    (cdcs : List Text) (es : List Entry) (r : LoteResult) (s : Option ResolutionStatus) (c : Text)
    → has_cdc cdcs c ≡ true
    → lookup (if has_cdc cdcs r.cdc then merge es r s (lookup es r.cdc) else es) c
      ≡ (if text_eq r.cdc c then some (next_entry r s (lookup es c)) else lookup es c)
lookup_step cdcs es r s c expected = elim (Bool-cases (text_eq r.cdc c)) [
  | inl e ↦ same c (sym ((text_eq_iff r.cdc c).0 e)) expected
  | inr e ↦ rw e (other (has_cdc cdcs r.cdc) e)
]
  where
    same :
        (c : Text)
        → c ≡ r.cdc
        → has_cdc cdcs c ≡ true
        → lookup (if has_cdc cdcs r.cdc then merge es r s (lookup es r.cdc) else es) c
          ≡ (if text_eq r.cdc c then some (next_entry r s (lookup es c)) else lookup es c)
    same c at h = rw (at, text_eq_refl r.cdc, sym (ap (has_cdc cdcs) at) ∙ h) (lookup-merge es r s)

    other :
        (b : Bool)
        → text_eq r.cdc c ≡ false
        → lookup (if b then merge es r s (lookup es r.cdc) else es) c ≡ lookup es c
    other true e = lookup-merge_other es r s (lookup es r.cdc) c e
    other false e = refl

pub lookup-collect :
    (u : Unicode) (cdcs : List Text) (rs : List LoteResult) (es : List Entry) (c : Text)
    → has_cdc cdcs c ≡ true
    → lookup (collect u cdcs rs es) c ≡ entry_of u c rs (lookup es c)
unfolding collect
lookup-collect u cdcs [] es c h = refl
lookup-collect u cdcs (r ∷ rs) es c h =
    let s = document_status_of u r.d_est_res in
    lookup-collect u cdcs rs (if has_cdc cdcs r.cdc then merge es r s (lookup es r.cdc) else es) c h
    ∙ ap (entry_of u c rs) (lookup_step cdcs es r s c h)

pub lookup-collect_other :
    (u : Unicode) (cdcs : List Text) (rs : List LoteResult) (es : List Entry) (c : Text)
    → has_cdc cdcs c ≡ false
    → lookup (collect u cdcs rs es) c ≡ lookup es c
unfolding collect
lookup-collect_other u cdcs [] es c h = refl
lookup-collect_other u cdcs (r ∷ rs) es c h =
    lookup-collect_other u cdcs rs
      (if has_cdc cdcs r.cdc
        then merge es r (document_status_of u r.d_est_res) (lookup es r.cdc)
        else es)
      c h
    ∙ kept (has_cdc cdcs r.cdc) refl
  where
    kept :
        (b : Bool)
        → has_cdc cdcs r.cdc ≡ b
        → lookup
            (if b then merge es r (document_status_of u r.d_est_res) (lookup es r.cdc) else es)
            c
          ≡ lookup es c
    kept false e = refl
    kept true e = elim (Bool-cases (text_eq r.cdc c)) [
      | inl same ↦ clash ((text_eq_iff r.cdc c).0 same)
      | inr differs ↦
          lookup-merge_other es r (document_status_of u r.d_est_res) (lookup es r.cdc) c differs
    ]
      where
        clash :
            r.cdc ≡ c
            → lookup (merge es r (document_status_of u r.d_est_res) (lookup es r.cdc)) c
              ≡ lookup es c
        clash at = let both : true ≡ false = sym e ∙ ap (has_cdc cdcs) at ∙ h in cc

-- The status of an entry, where it has one.
abbrev pub status_of_entry : Option (Option DocumentResolution) → Option ResolutionStatus
status_of_entry (some (some p)) = some p.status
status_of_entry _ = none

entry_of_unsettled :
    (u : Unicode) (c : Text) (rs : List LoteResult)
    → status_of_entry (entry_of u c rs (some none)) ≡ none
entry_of_unsettled u c [] = refl
entry_of_unsettled u c (r ∷ rs) = at (text_eq r.cdc c) (entry_of_unsettled u c rs)
  where
    at :
        (b : Bool)
        → status_of_entry (entry_of u c rs (some none)) ≡ none
        → status_of_entry (entry_of u c rs (if b then some none else some none)) ≡ none
    at true e = e
    at false e = e

entry_of_settled :
    (u : Unicode) (c : Text) (rs : List LoteResult) (p : DocumentResolution)
    → status_of_entry (entry_of u c rs (some (some p)))
      ≡ (if all_are p.status (statuses_of u c rs) then some p.status else none)
entry_of_settled u c [] p = refl
entry_of_settled u c (r ∷ rs) p =
    at (text_eq r.cdc c) (document_status_of u r.d_est_res) (entry_of_settled u c rs p)
      (entry_of_unsettled u c rs)
  where
    at :
        (b : Bool) (s : Option ResolutionStatus)
        → status_of_entry (entry_of u c rs (some (some p)))
          ≡ (if all_are p.status (statuses_of u c rs) then some p.status else none)
        → status_of_entry (entry_of u c rs (some none)) ≡ none
        → status_of_entry
            (entry_of u c rs (if b then some (next_entry r s (some (some p))) else some (some p)))
          ≡ (if all_are p.status (if b then s ∷ statuses_of u c rs else statuses_of u c rs)
              then some p.status
              else none)
    at false s h lost = h
    at true s h lost = agree (is_status p.status s)
      where
        agree :
            (a : Bool)
            → status_of_entry (entry_of u c rs (some (if a then some p else none)))
              ≡ (if a && all_are p.status (statuses_of u c rs) then some p.status else none)
        agree true = h
        agree false = lost

pub entry_of-verdict :
    (u : Unicode) (c : Text) (rs : List LoteResult)
    → status_of_entry (entry_of u c rs none) ≡ verdict (statuses_of u c rs)
entry_of-verdict u c [] = refl
entry_of-verdict u c (r ∷ rs) =
    at (text_eq r.cdc c) (document_status_of u r.d_est_res) (entry_of-verdict u c rs)
  where
    at :
        (b : Bool) (s : Option ResolutionStatus)
        → status_of_entry (entry_of u c rs none) ≡ verdict (statuses_of u c rs)
        → status_of_entry (entry_of u c rs (if b then some (resolution_of r s) else none))
          ≡ verdict (if b then s ∷ statuses_of u c rs else statuses_of u c rs)
    at false s h = h
    at true none h = entry_of_unsettled u c rs
    at true (some s) h =
        entry_of_settled u c rs (record { cdc = r.cdc; status = s; messages = r.mensajes })
