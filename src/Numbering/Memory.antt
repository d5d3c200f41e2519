-- ===== src/Numbering/Memory.antt =====
-- A table of sequences held in memory, which follows the laws that are asked of the database's.
use facturacion_sifen.Prelude.{
  ℕ, ◌≡◌, ◌≢◌, inl, inr, refl, sym, ap, ◌∙◌, arith, Bool, true, false, Option, none, some, List, [],
  ◌∷◌, ◌==◌, ◌&&◌, if◌then◌else◌, Text, text_eq, text_eq_iff, text_eq_refl, Bool-cases,
  Option-cases, subst, ==_iff, ==_refl,
}
use facturacion_sifen.Numbering.{DocumentSequenceKey, Row, TenantTx}
use facturacion_sifen.Numbering.Series.{leb_text, leb_text_trans}
use facturacion_sifen.Numbering.Table.{TableLaws}

pub record Entry : Type 0 where
  pub key : DocumentSequenceKey
  pub row : Row

abbrev key_eq : DocumentSequenceKey → DocumentSequenceKey → Bool
key_eq k l =
    text_eq k.tenant_id l.tenant_id
    && (text_eq k.environment l.environment
        && (text_eq k.timbrado_id l.timbrado_id
            && (text_eq k.establishment_id l.establishment_id
                && (text_eq k.expedition_point_id l.expedition_point_id
                    && (k.document_type == l.document_type)))))

both : (p q : Bool) → (p && q) ≡ true → (p ≡ true) × (q ≡ true)
both true q h = (refl, h)
both false q h = cc

text_eq_sound : (s t : Text) → text_eq s t ≡ true → s ≡ t
text_eq_sound s t = (text_eq_iff s t).0

key_eq_sound : (k l : DocumentSequenceKey) → key_eq k l ≡ true → k ≡ l
key_eq_sound k l h =
    let (a, h1) = both (text_eq k.tenant_id l.tenant_id) _ h in
    let (b, h2) = both (text_eq k.environment l.environment) _ h1 in
    let (c, h3) = both (text_eq k.timbrado_id l.timbrado_id) _ h2 in
    let (d, h4) = both (text_eq k.establishment_id l.establishment_id) _ h3 in
    let (e, f) = both (text_eq k.expedition_point_id l.expedition_point_id) _ h4 in
    λ i. record {
      tenant_id = text_eq_sound k.tenant_id l.tenant_id a i;
      environment = text_eq_sound k.environment l.environment b i;
      timbrado_id = text_eq_sound k.timbrado_id l.timbrado_id c i;
      establishment_id = text_eq_sound k.establishment_id l.establishment_id d i;
      expedition_point_id = text_eq_sound k.expedition_point_id l.expedition_point_id e i;
      document_type = (==_iff k.document_type l.document_type).0 f i;
    }

key_eq_refl : (k : DocumentSequenceKey) → key_eq k k ≡ true
key_eq_refl k = rw (
  text_eq_refl k.tenant_id,
  text_eq_refl k.environment,
  text_eq_refl k.timbrado_id,
  text_eq_refl k.establishment_id,
  text_eq_refl k.expedition_point_id,
  ==_refl k.document_type k.document_type refl,
)

abbrev is_at : DocumentSequenceKey → Text → Entry → Bool
is_at k t e = key_eq e.key k && text_eq e.row.series t

-- The first entry counts: a newer one hides the older.
abbrev pub find : List Entry → DocumentSequenceKey → Text → Option ℕ
find [] k t = none
find (e ∷ es) k t = let rest = find es k t in if is_at k t e then some e.row.last_number else rest

abbrev greater : Text → Option Text → Text
greater s none = s
greater s (some t) = if leb_text s t then t else s

abbrev pub greatest : List Entry → DocumentSequenceKey → Option Text
greatest [] k = none
greatest (e ∷ es) k =
    let rest = greatest es k in if key_eq e.key k then some (greater e.row.series rest) else rest

abbrev row_of : Text → Option ℕ → Option Row
row_of t none = none
row_of t (some n) = some (record { series = t; last_number = n })

abbrev newest_of : List Entry → DocumentSequenceKey → Option Text → Option Row
newest_of es k none = none
newest_of es k (some t) = row_of t (find es k t)

abbrev put :
    List Entry
    → DocumentSequenceKey
    → Text
    → (initial : ℕ) → (ℕ → ℕ)
    → (ℕ → Bool)
    → Option ℕ
    → Option Row × List Entry
put es k t n f p none =
    let row : Row = record { series = t; last_number = n } in
    (some row, record { key = k; row = row } ∷ es)
put es k t n f p (some m) =
    let row : Row = record { series = t; last_number = f m } in
    if p m then (some row, record { key = k; row = row } ∷ es) else (none, es)

abbrev pub memory : TenantTx (List Entry)
memory = record {
  newest = λ es k. newest_of es k (greatest es k);
  upsert = λ es k t n f p. put es k t n f p (find es k t);
}

leb_text_refl : (s : Text) → leb_text s s ≡ true
leb_text_refl [] = refl
leb_text_refl (c ∷ cs) = ground (arith, leb_text_refl cs)

leb_text-total : (s t : Text) → leb_text s t ≡ false → leb_text t s ≡ true
leb_text-total [] t h = cc
leb_text-total (c ∷ cs) [] h = refl
leb_text-total (c ∷ cs) (d ∷ ds) h = ground (arith, leb_text-total cs ds)

greater-above : (s t : Text) → leb_text t (greater s (some t)) ≡ true
greater-above s t = elim (Bool-cases (leb_text s t)) [
  | inl h ↦ rw h (leb_text_refl t)
  | inr h ↦ rw h (leb_text-total s t h)
]

greater_self : (s : Text) (o : Option Text) → leb_text s (greater s o) ≡ true
greater_self s none = leb_text_refl s
greater_self s (some t) = elim (Bool-cases (leb_text s t)) [
  | inl h ↦ rw h (h)
  | inr h ↦ rw h (leb_text_refl s)
]

-- The greatest series of a key has a number.
greatest-found :
    (es : List Entry) (k : DocumentSequenceKey) (t : Text)
    → greatest es k ≡ some t
    → (n : ℕ) × (find es k t ≡ some n)
greatest-found [] k t h = cc
greatest-found (e ∷ es) k t h =
    pick (key_eq e.key k) (greatest es k) refl refl h (λ g. greatest-found es k g)
  where
    here : (k_ : key_eq e.key k ≡ true) → e.row.series ≡ t → (n : ℕ) × (find (e ∷ es) k t ≡ some n)
    here b s = (e.row.last_number, rw (b, s, text_eq_refl t))

    there : (n : ℕ) → find es k t ≡ some n → (m : ℕ) × (find (e ∷ es) k t ≡ some m)
    there n f = elim (Bool-cases (is_at k t e)) [
      | inl a ↦ (e.row.last_number, rw a)
      | inr a ↦ (n, rw a f)
    ]

    some_eq : (a b : Text) → some a ≡ some b → a ≡ b
    some_eq a b q = cc

    pick :
        (b : Bool) (o : Option Text)
        → key_eq e.key k ≡ b
        → greatest es k ≡ o
        → (if b then some (greater e.row.series o) else o) ≡ some t
        → ((g : Text) → greatest es k ≡ some g → (n : ℕ) × (find es k g ≡ some n))
        → (n : ℕ) × (find (e ∷ es) k t ≡ some n)
    pick false o b g h ih = let (n, f) = ih t (g ∙ h) in there n f
    pick true none b g h ih = here b (some_eq e.row.series t h)
    pick true (some u) b g h ih = elim (Bool-cases (leb_text e.row.series u)) [
      | inl l ↦ let same : some u ≡ some t = rw l at h in let (n, f) = ih t (g ∙ same) in there n f
      | inr l ↦
          let same : some e.row.series ≡ some t = rw l at h in here b (some_eq e.row.series t same)
    ]

-- And no series of the key is greater.
found-greatest :
    (es : List Entry) (k : DocumentSequenceKey) (t : Text) (n : ℕ)
    → find es k t ≡ some n
    → (g : Text) × (greatest es k ≡ some g) × (leb_text t g ≡ true)
found-greatest [] k t n h = cc
found-greatest (e ∷ es) k t n h =
    pick (key_eq e.key k) (text_eq e.row.series t) refl refl h (found-greatest es k t n)
  where
    pick :
        (b c : Bool)
        → key_eq e.key k ≡ b
        → text_eq e.row.series t ≡ c
        → (if b && c then some e.row.last_number else find es k t) ≡ some n
        → (find es k t ≡ some n → (g : Text) × (greatest es k ≡ some g) × (leb_text t g ≡ true))
        → (g : Text) × (greatest (e ∷ es) k ≡ some g) × (leb_text t g ≡ true)
    pick false c b same h ih = let (g, top, above) = ih h in (g, rw b top, above)
    pick true true b same h ih = (
      greater e.row.series (greatest es k),
      rw b,
      rw (sym (text_eq_sound e.row.series t same)) (greater_self e.row.series (greatest es k)),
    )
    pick true false b same h ih =
        let (g, top, above) = ih h in
        (
          greater e.row.series (some g),
          rw (b, top),
          leb_text_trans t g (greater e.row.series (some g)) above (greater-above e.row.series g),
        )

newest_cases :
    (es : List Entry) (k : DocumentSequenceKey) (row : Row) (o : Option Text)
    → newest_of es k o ≡ some row
    → (o ≡ some row.series) × (find es k row.series ≡ some row.last_number)
newest_cases es k row none h = cc
newest_cases es k row (some t) h = pick (find es k t) refl h
  where
    row_eq : (a b : Row) → some a ≡ some b → a ≡ b
    row_eq a b q = cc

    pick :
        (o : Option ℕ)
        → find es k t ≡ o
        → row_of t o ≡ some row
        → (some t ≡ some row.series) × (find es k row.series ≡ some row.last_number)
    pick none f q = cc
    pick (some n) f q =
        let same = row_eq (record { series = t; last_number = n }) row q in
        (
          ap (λ r. some r.series) same,
          ap (λ r. find es k r.series) (sym same) ∙ f ∙ ap (λ r. some r.last_number) same,
        )

find_put_here :
    (es : List Entry) (k : DocumentSequenceKey) (row : Row)
    → find (record { key = k; row = row } ∷ es) k row.series ≡ some row.last_number
find_put_here es k row = rw (key_eq_refl k, text_eq_refl row.series)

find_put_other :
    (es : List Entry) (k l : DocumentSequenceKey) (row : Row) (u : Text)
    → ¬ ((l ≡ k) × (u ≡ row.series))
    → find (record { key = k; row = row } ∷ es) l u ≡ find es l u
find_put_other es k l row u other = elim (Bool-cases (is_at l u (record { key = k; row = row }))) [
  | inl a ↦
      let (keys, texts) = both (key_eq k l) _ a in
      absurd (other (sym (key_eq_sound k l keys), sym (text_eq_sound row.series u texts)))
  | inr a ↦ rw a
]

newest-none :
    (es : List Entry) (k : DocumentSequenceKey) (t : Text)
    → newest_of es k (greatest es k) ≡ none
    → find es k t ≡ none
newest-none es k t h = elim (Option-cases (find es k t)) [
  | inl e ↦ e
  | inr (n, e) ↦
      let (g, top, _) = found-greatest es k t n e in
      let (m, held) = greatest-found es k g top in
      absurd (some_none (record { series = g; last_number = m }) (sym (rw (top, held)) ∙ h))
]
  where
    some_none : (r : Row) → some r ≢ none
    some_none r q = cc

newest-max :
    (es : List Entry) (k : DocumentSequenceKey) (row : Row) (t : Text) (n : ℕ)
    → newest_of es k (greatest es k) ≡ some row
    → find es k t ≡ some n
    → leb_text t row.series ≡ true
newest-max es k row t n h f =
    let (g, top, above) = found-greatest es k t n f in
    let (greatest_is, _) = newest_cases es k row (greatest es k) h in
    subst (λ u. leb_text t u ≡ true) (some_eq g row.series (sym top ∙ greatest_is)) above
  where
    some_eq : (a b : Text) → some a ≡ some b → a ≡ b
    some_eq a b q = cc

pub memory-TableLaws : TableLaws (List Entry) memory
memory-TableLaws = record {
  lookup = find;
  newest_none = λ es k t h. newest-none es k t h;
  newest_some = λ es k row h. (newest_cases es k row (greatest es k) h).1;
  newest_max = λ es k row t n h f. newest-max es k row t n h f;
  upsert_new = λ es k t n f p free.
      rw free (refl, find_put_here es k (record { series = t; last_number = n }));
  upsert_old = λ es k t n m f p held allowed.
      rw (held, allowed) (refl, find_put_here es k (record { series = t; last_number = f m }));
  upsert_other = λ es k l t u n f p other. put_other es k l t u n f p other (find es k t);
}
  where
    put_other :
        (es : List Entry) (k l : DocumentSequenceKey) (t u : Text) (n : ℕ) (f : ℕ → ℕ)
        (p : ℕ → Bool)
        → ¬ ((l ≡ k) × (u ≡ t))
        → (o : Option ℕ) → find (put es k t n f p o).1 l u ≡ find es l u
    put_other es k l t u n f p other none =
        find_put_other es k l (record { series = t; last_number = n }) u other
    put_other es k l t u n f p other (some m) = elim (Bool-cases (p m)) [
      | inl a ↦ rw a (find_put_other es k l (record { series = t; last_number = f m }) u other)
      | inr a ↦ rw a
    ]
