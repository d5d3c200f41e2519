-- ===== src/Transmission/Poll/Outcome.antt =====
-- The outcome of a query of a lote as a whole: every CDC of the lote is settled by the verdict of the
-- answer or left to the recovery.
use facturacion_sifen.Prelude.{
  ◌≡◌, inl, inr, refl, sym, ap, ◌∙◌, subst, Bool, true, false, ◌||◌, Option, none, some, List, [],
  ◌∷◌, map, if◌then◌else◌, Text, text_eq, text_eq_iff, text_eq_refl, Bool-cases,
}
use facturacion_sifen.Transmission.Lote.{has_cdc}
use facturacion_sifen.Transmission.Poll.{
  ResolutionStatus, DocumentResolution, Unicode, document_status_of, LoteResult, SifenLoteResult,
  is_status, Entry, lookup, put, resolution_of, merge, collect, settled_values, unsettled, resolve,
}
use facturacion_sifen.Transmission.Poll.Store.{resolutions_of}
use facturacion_sifen.Transmission.Poll.Resolving.{
  statuses_of, verdict, status_in, without_verdict, needs_recovery_of, status_of_entry,
  lookup-collect, lookup-collect_other, entry_of-verdict,
}

-- The value of an entry has the CDC of its key.
abbrev IsOf : Text → Option DocumentResolution → Type 0
IsOf k none = Unit {0}
IsOf k (some r) = r.cdc ≡ k

abbrev keys : List Entry → List Text
keys es = map (λ e. e.0) es

-- No text stands twice in the list.
abbrev pub AllDistinct : List Text → Type 0
AllDistinct [] = Unit {0}
AllDistinct (t ∷ ts) = (has_cdc ts t ≡ false) × AllDistinct ts

abbrev IsTable : List Entry → Type 0
IsTable [] = Unit {0}
IsTable ((k, v) ∷ es) = IsOf k v × (has_cdc (keys es) k ≡ false) × IsTable es

has-put :
    (es : List Entry) (k c : Text) (v : Option DocumentResolution)
    → has_cdc (keys (put es k v)) c ≡ (has_cdc (keys es) c || text_eq k c)
has-put [] k c v = or_false (text_eq k c)
  where
    or_false : (b : Bool) → (b || false) ≡ (false || b)
    or_false true = refl
    or_false false = refl
has-put ((k', w) ∷ es) k c v = elim (Bool-cases (text_eq k' k)) [
  | inl e ↦ rw e (rw ((text_eq_iff k' k).0 e) (twice (text_eq k c) (has_cdc (keys es) c)))
  | inr e ↦ rw e (rw (has-put es k c v) (assoc (text_eq k' c) (has_cdc (keys es) c) (text_eq k c)))
]
  where
    twice : (a b : Bool) → (a || b) ≡ ((a || b) || a)
    twice true b = refl
    twice false true = refl
    twice false false = refl

    assoc : (a b d : Bool) → (a || (b || d)) ≡ ((a || b) || d)
    assoc true b d = refl
    assoc false b d = refl

put-IsTable :
    (es : List Entry) (k : Text) (v : Option DocumentResolution)
    → IsOf k v
    → IsTable es
    → IsTable (put es k v)
put-IsTable [] k v o t = (o, refl, tt)
put-IsTable ((k', w) ∷ es) k v o (p, d, t) = at (text_eq k' k) refl (put-IsTable es k v o t)
  where
    at :
        (b : Bool)
        → text_eq k' k ≡ b
        → IsTable (put es k v)
        → IsTable (if b then (k', v) ∷ es else (k', w) ∷ put es k v)
    at true e rest = (subst (λ x. IsOf x v) (sym ((text_eq_iff k' k).0 e)) o, d, t)
    at false e rest = (p, has-put es k k' v ∙ apart, rest)
      where
        apart : (has_cdc (keys es) k' || text_eq k k') ≡ false
        apart = rw d (elim (Bool-cases (text_eq k k')) [
          | inr miss ↦ miss
          | inl hit ↦ swapped ((text_eq_iff k k').0 hit)
        ])
          where
            swapped : k ≡ k' → text_eq k k' ≡ false
            swapped same = ap (λ t. text_eq t k') same ∙ sym (ap (λ t. text_eq k' t) same) ∙ e

resolution_of-IsOf : (r : LoteResult) (s : Option ResolutionStatus) → IsOf r.cdc (resolution_of r s)
resolution_of-IsOf r none = tt
resolution_of-IsOf r (some s) = refl

merge-IsTable :
    (es : List Entry) (r : LoteResult) (s : Option ResolutionStatus)
    (o : Option (Option DocumentResolution))
    → IsTable es
    → IsTable (merge es r s o)
merge-IsTable es r s none t = put-IsTable es r.cdc (resolution_of r s) (resolution_of-IsOf r s) t
merge-IsTable es r s (some none) t = put-IsTable es r.cdc none tt t
merge-IsTable es r s (some (some p)) t = at (is_status p.status s)
  where
    at : (b : Bool) → IsTable (if b then es else put es r.cdc none)
    at true = t
    at false = put-IsTable es r.cdc none tt t

collect-IsTable :
    (u : Unicode) (cdcs : List Text) (rs : List LoteResult) (es : List Entry)
    → IsTable es
    → IsTable (collect u cdcs rs es)
unfolding collect
collect-IsTable u cdcs [] es t = t
collect-IsTable u cdcs (r ∷ rs) es t =
    collect-IsTable u cdcs rs
      (if has_cdc cdcs r.cdc
        then merge es r (document_status_of u r.d_est_res) (lookup es r.cdc)
        else es)
      (at (has_cdc cdcs r.cdc))
  where
    at :
        (b : Bool)
        → IsTable
            (if b then merge es r (document_status_of u r.d_est_res) (lookup es r.cdc) else es)
    at true = merge-IsTable es r (document_status_of u r.d_est_res) (lookup es r.cdc) t
    at false = t

-- A key that is absent has no value.
absent :
    (es : List Entry) (c : Text)
    → IsTable es
    → has_cdc (keys es) c ≡ false
    → status_in (settled_values es) c ≡ none
absent [] c t h = refl
absent ((k, none) ∷ es) c (p, d, t) h = at (text_eq k c) h (absent es c t)
  where
    at :
        (b : Bool)
        → (b || has_cdc (keys es) c) ≡ false
        → (has_cdc (keys es) c ≡ false → status_in (settled_values es) c ≡ none)
        → status_in (settled_values es) c ≡ none
    at true h rest = cc
    at false h rest = rest h
absent ((k, some r) ∷ es) c (p, d, t) h = rw p (at (text_eq k c) h (absent es c t))
  where
    at :
        (b : Bool)
        → (b || has_cdc (keys es) c) ≡ false
        → (has_cdc (keys es) c ≡ false → status_in (settled_values es) c ≡ none)
        → (if b then some r.status else status_in (settled_values es) c) ≡ none
    at true h rest = cc
    at false h rest = rest h

status_in-settled_values :
    (es : List Entry) (c : Text)
    → IsTable es
    → status_in (settled_values es) c ≡ status_of_entry (lookup es c)
status_in-settled_values [] c t = refl
status_in-settled_values ((k, none) ∷ es) c (p, d, t) = elim (Bool-cases (text_eq k c)) [
  | inl e ↦ rw e (absent es c t (sym (ap (has_cdc (keys es)) ((text_eq_iff k c).0 e)) ∙ d))
  | inr e ↦ rw e (status_in-settled_values es c t)
]
status_in-settled_values ((k, some r) ∷ es) c (p, d, t) =
    at (text_eq r.cdc c) (text_eq k c) (ap (λ x. text_eq x c) p)
      ((absent es c t, λ e. sym (ap (has_cdc (keys es)) ((text_eq_iff k c).0 e)) ∙ d))
      (status_in-settled_values es c t)
  where
    at :
        (b b' : Bool)
        → b ≡ b'
        → ((has_cdc (keys es) c ≡ false → status_in (settled_values es) c ≡ none)
            × (text_eq k c ≡ true → has_cdc (keys es) c ≡ false))
        → status_in (settled_values es) c ≡ status_of_entry (lookup es c)
        → (if b then some r.status else status_in (settled_values es) c)
          ≡ status_of_entry (if b' then some (some r) else lookup es c)
    at true true e a h = refl
    at false false e a h = h
    at true false e a h = cc
    at false true e a h = cc

distinct_values :
    (es : List Entry) → IsTable es → AllDistinct (map (λ r. r.cdc) (settled_values es))
distinct_values [] t = tt
distinct_values ((k, none) ∷ es) (p, d, t) = distinct_values es t
distinct_values ((k, some r) ∷ es) (p, d, t) =
    (fresh es r.cdc (ap (has_cdc (keys es)) p ∙ d) t, distinct_values es t)
  where
    fresh :
        (es : List Entry) (c : Text)
        → has_cdc (keys es) c ≡ false
        → IsTable es
        → has_cdc (map (λ r. r.cdc) (settled_values es)) c ≡ false
    fresh [] c h t = refl
    fresh ((k', none) ∷ es) c h (p, d, t) =
        fresh es c (right (text_eq k' c) (has_cdc (keys es) c) h) t
      where
        right : (a b : Bool) → (a || b) ≡ false → b ≡ false
        right true b h = cc
        right false b h = h
    fresh ((k', some q) ∷ es) c h (p, d, t) =
        both (text_eq k' c) (has_cdc (keys es) c) (text_eq q.cdc c) (ap (λ x. text_eq x c) p) h
          (λ g. fresh es c g t)
      where
        both :
            (a b q' : Bool)
            → q' ≡ a
            → (a || b) ≡ false
            → (b ≡ false → has_cdc (map (λ r. r.cdc) (settled_values es)) c ≡ false)
            → (q' || has_cdc (map (λ r. r.cdc) (settled_values es)) c) ≡ false
        both true b q' e h f = cc
        both false b true e h f = cc
        both false b false e h f = f h

-- The table of the answer.
abbrev table : Unicode → SifenLoteResult → List Text → List Entry
table u answer cdcs = collect u cdcs answer.resultados []

table-IsTable :
    (u : Unicode) (answer : SifenLoteResult) (cdcs : List Text) → IsTable (table u answer cdcs)
table-IsTable u answer cdcs = collect-IsTable u cdcs answer.resultados [] tt

-- `settled` holds a CDC where a resolution has it.
has-status_in :
    (rs : List DocumentResolution) (c : Text)
    → has_cdc (map (λ r. r.cdc) rs) c ≡ elim (status_in rs c) [ none ↦ false | some s ↦ true ]
has-status_in [] c = refl
has-status_in (r ∷ rs) c = at (text_eq r.cdc c) (has-status_in rs c)
  where
    at :
        (b : Bool)
        → has_cdc (map (λ r. r.cdc) rs) c ≡ elim (status_in rs c) [ none ↦ false | some s ↦ true ]
        → (b || has_cdc (map (λ r. r.cdc) rs) c)
          ≡ elim (if b then some r.status else status_in rs c) [ none ↦ false | some s ↦ true ]
    at true h = refl
    at false h = h

-- In the outcome of a concluded lote, a CDC of the lote has the status on which all the results of the
-- answer for it agree, and no status where it has no result, where one says nothing or where two
-- differ; a CDC that is not of the lote has none.
pub resolve-verdict :
    (u : Unicode) (answer : SifenLoteResult) (cdcs : List Text) (c : Text)
    → status_in (resolutions_of (resolve u answer cdcs)) c
      ≡ (if has_cdc cdcs c then verdict (statuses_of u c answer.resultados) else none)
unfolding resolve
resolve-verdict u answer cdcs c =
    status_in-settled_values (table u answer cdcs) c (table-IsTable u answer cdcs)
    ∙ at (has_cdc cdcs c) refl
  where
    at :
        (b : Bool)
        → has_cdc cdcs c ≡ b
        → status_of_entry (lookup (table u answer cdcs) c)
          ≡ (if b then verdict (statuses_of u c answer.resultados) else none)
    at true h =
        ap status_of_entry (lookup-collect u cdcs answer.resultados [] c h)
        ∙ entry_of-verdict u c answer.resultados
    at false h = ap status_of_entry (lookup-collect_other u cdcs answer.resultados [] c h)

-- What the outcome of a concluded lote leaves to the recovery are the CDCs of the lote without such a
-- status, in their order; and no CDC is settled twice.
pub resolve-recovers :
    (u : Unicode) (answer : SifenLoteResult) (cdcs : List Text)
    → (needs_recovery_of (resolve u answer cdcs) ≡ without_verdict u answer.resultados cdcs)
      × AllDistinct (map (λ r. r.cdc) (resolutions_of (resolve u answer cdcs)))
unfolding resolve
resolve-recovers u answer cdcs = (
  left cdcs (λ c h. resolve-verdict u answer cdcs c ∙ rw h refl) (λ c h. h),
  distinct_values (table u answer cdcs) (table-IsTable u answer cdcs),
)
  where
    rs : List DocumentResolution
    rs = settled_values (table u answer cdcs)

    left :
        (cs : List Text)
        → ((c : Text)
            → has_cdc cdcs c ≡ true
            → status_in rs c ≡ verdict (statuses_of u c answer.resultados))
        → ((c : Text) → has_cdc cs c ≡ true → has_cdc cdcs c ≡ true)
        → unsettled (map (λ r. r.cdc) rs) cs ≡ without_verdict u answer.resultados cs
    left [] settles within = refl
    left (c ∷ cs) settles within =
        rw (has-status_in rs c, settles c (within c (ap (λ b. b || has_cdc cs c) (text_eq_refl c))))
          (at (verdict (statuses_of u c answer.resultados))
            (left cs settles (λ d h. within d (right (text_eq c d) h))))
      where
        right : (a : Bool) {b : Bool} → b ≡ true → (a || b) ≡ true
        right true h = refl
        right false h = h

        at :
            (v : Option ResolutionStatus)
            → unsettled (map (λ r. r.cdc) rs) cs ≡ without_verdict u answer.resultados cs
            → (if elim v [ none ↦ false | some s ↦ true ]
                then unsettled (map (λ r. r.cdc) rs) cs
                else c ∷ unsettled (map (λ r. r.cdc) rs) cs)
              ≡ elim v [
                | none ↦ c ∷ without_verdict u answer.resultados cs
                | some s ↦ without_verdict u answer.resultados cs
              ]
        at none h = ap (λ x. c ∷ x) h
        at (some s) h = h
