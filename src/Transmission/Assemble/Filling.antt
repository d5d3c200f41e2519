-- ===== src/Transmission/Assemble/Filling.antt =====
-- What the loop of `fill` keeps, one document after the other: every document is in one lote or skipped.
use facturacion_sifen.Prelude.{
  ◌≤◌, ◌≡◌, ◌⊎◌, inl, inr, refl, sym, subst, ap, ap₂, ◌∙◌, arith, false, some, List, [], ◌∷◌, ◌++◌,
  map, append_assoc, append-nil, Result, ok, Text, length,
}
use facturacion_sifen.Prelude.Interleaving.{
  Interleaves, both_empty, left_snoc, right_snoc, AllOf, all_append,
}
use facturacion_sifen.Cdc.{CdcParts, parse_cdc}
use facturacion_sifen.Transmission.Lote.{
  LoteDocument, LoteBuilderDeps, LoteRejection, Lote, Identity, LoteBuilder, empty_builder,
  accepted, rejected, pushed, add, build,
}
use facturacion_sifen.Transmission.Lote.Limits.{IsSendable, IsValid, empty_builder-IsValid}
use facturacion_sifen.Transmission.Lote.Adding.{add-IsValid, add_decides}
use facturacion_sifen.Transmission.Assemble.{
  ReadyDocument, SkippedDocument, Planned, FillError, not_added, Fill, lote_document, is_nil, flush,
  note, start,
}

map-append : {A B : Type 0} (f : A → B) (xs ys : List A) → map f (xs ++ ys) ≡ map f xs ++ map f ys
map-append f [] ys = refl
map-append f (x ∷ xs) ys = ap (λ l. f x ∷ l) (map-append f xs ys)

-- All the texts of the ids, and all the documents, of the planned lotes in their order.
abbrev pub planned_ids : List Planned → List Text
planned_ids [] = []
planned_ids (p ∷ ps) = p.ids ++ planned_ids ps

abbrev pub planned_documents : List Planned → List LoteDocument
planned_documents [] = []
planned_documents (p ∷ ps) = p.lote.documents ++ planned_documents ps

planned_ids-snoc :
    (ps : List Planned) (p : Planned) → planned_ids (ps ++ p ∷ []) ≡ planned_ids ps ++ p.ids
planned_ids-snoc [] p = append-nil p.ids
planned_ids-snoc (q ∷ ps) p =
    ap (λ l. q.ids ++ l) (planned_ids-snoc ps p) ∙ sym (append_assoc q.ids (planned_ids ps) p.ids)

planned_documents-snoc :
    (ps : List Planned) (p : Planned)
    → planned_documents (ps ++ p ∷ []) ≡ planned_documents ps ++ p.lote.documents
planned_documents-snoc [] p = append-nil p.lote.documents
planned_documents-snoc (q ∷ ps) p =
    ap (λ l. q.lote.documents ++ l) (planned_documents-snoc ps p)
    ∙ sym (append_assoc q.lote.documents (planned_documents ps) p.lote.documents)

map_snoc :
    {A B : Type 0} (f : A → B) (xs : List A) (x : A) → map f (xs ++ x ∷ []) ≡ map f xs ++ f x ∷ []
map_snoc f [] x = refl
map_snoc f (y ∷ ys) x = ap (λ l. f y ∷ l) (map_snoc f ys x)

abbrev pub id_of : ReadyDocument → Text
id_of d = d.document_id

abbrev pub cdc_of : ReadyDocument → Text
cdc_of d = d.cdc

-- A planned lote may be sent.
abbrev pub IsPlanned : LoteBuilderDeps → Planned → Type 0
IsPlanned deps p = IsSendable deps p.lote.identity p.lote.documents

-- The state of the loop after `seen`: `before` are the documents of the planned lotes, `current` those
-- of the builder, and `out` those that were skipped, after the `old` ones.
pub record Keeps (deps : LoteBuilderDeps) (old : List SkippedDocument) (seen : List ReadyDocument)
    (f : Fill) : Type 0 where
  pub before : List ReadyDocument
  pub current : List ReadyDocument
  pub out : List ReadyDocument
  pub notes : List SkippedDocument
  pub parts : Interleaves (before ++ current) out seen
  pub ids_before : planned_ids f.planned ≡ map id_of before
  pub documents_before : planned_documents f.planned ≡ map lote_document before
  pub ids_current : f.ids ≡ map id_of current
  pub documents_current : f.builder.documents ≡ map lote_document current
  pub notes_out : map (λ n. n.cdc) notes ≡ map cdc_of out
  pub skipped_are : f.skipped ≡ old ++ notes
  pub valid : IsValid deps f.builder
  pub sendable : AllOf (IsPlanned deps) f.planned

module _ (deps : LoteBuilderDeps) (old : List SkippedDocument) where
  pub start-Keeps : Keeps deps old [] (start old)
  start-Keeps = record {
    before = [];
    current = [];
    out = [];
    notes = [];
    parts = both_empty;
    ids_before = refl;
    documents_before = refl;
    ids_current = refl;
    documents_current = refl;
    notes_out = refl;
    skipped_are = sym (append-nil old);
    valid = empty_builder-IsValid deps;
    sendable = tt;
  }

  accept-Keeps :
      (seen : List ReadyDocument) (f : Fill) (d : ReadyDocument) (b : LoteBuilder)
      → Keeps deps old seen f
      → b.documents ≡ f.builder.documents ++ lote_document d ∷ []
      → IsValid deps b
      → Keeps deps old (seen ++ d ∷ []) (note f d (accepted, b))
  accept-Keeps seen f d b k with_it v = record {
    before = k.before;
    current = k.current ++ d ∷ [];
    out = k.out;
    notes = k.notes;
    parts =
        subst (λ l. Interleaves l k.out (seen ++ d ∷ [])) (append_assoc k.before k.current (d ∷ []))
          (left_snoc (k.before ++ k.current) k.out seen d k.parts);
    ids_before = k.ids_before;
    documents_before = k.documents_before;
    ids_current =
        ap (λ l. l ++ d.document_id ∷ []) k.ids_current ∙ sym (map_snoc id_of k.current d);
    documents_current =
        with_it
        ∙ ap (λ l. l ++ lote_document d ∷ []) k.documents_current
        ∙ sym (map_snoc lote_document k.current d);
    notes_out = k.notes_out;
    skipped_are = k.skipped_are;
    valid = v;
    sendable = k.sendable;
  }

  pub reject-Keeps :
      (seen : List ReadyDocument) (f : Fill) (d : ReadyDocument) (reason : LoteRejection)
      → Keeps deps old seen f
      → Keeps deps old (seen ++ d ∷ []) (note f d (rejected reason, f.builder))
  reject-Keeps seen f d reason k =
      let n : SkippedDocument = record { cdc = d.cdc; reason = not_added reason } in
      record {
        before = k.before;
        current = k.current;
        out = k.out ++ d ∷ [];
        notes = k.notes ++ n ∷ [];
        parts = right_snoc (k.before ++ k.current) k.out seen d k.parts;
        ids_before = k.ids_before;
        documents_before = k.documents_before;
        ids_current = k.ids_current;
        documents_current = k.documents_current;
        notes_out =
            map_snoc (λ m. m.cdc) k.notes n
            ∙ ap (λ l. l ++ d.cdc ∷ []) k.notes_out
            ∙ sym (map_snoc cdc_of k.out d);
        skipped_are = ap (λ l. l ++ n ∷ []) k.skipped_are ∙ append_assoc old k.notes (n ∷ []);
        valid = k.valid;
        sendable = k.sendable;
      }

  -- The state once the lote in the builder is planned.
  pub record Flushes (seen : List ReadyDocument) (f : Fill) : Type 0 where
    pub next : Fill
    pub flush_is : flush f ≡ ok next
    pub keeps : Keeps deps old seen next
    pub fresh : next.builder ≡ empty_builder

  flush_nothing :
      (seen : List ReadyDocument) (f : Fill)
      → Keeps deps old seen f
      → f.builder.documents ≡ []
      → Flushes seen f
  unfolding flush
  flush_nothing seen f k e = record {
    next = record f { builder = empty_builder; ids = [] };
    flush_is = rw e refl;
    keeps = record {
      before = k.before;
      current = [];
      out = k.out;
      notes = k.notes;
      parts = subst (λ l. Interleaves (k.before ++ l) k.out seen) no_current k.parts;
      ids_before = k.ids_before;
      documents_before = k.documents_before;
      ids_current = refl;
      documents_current = refl;
      notes_out = k.notes_out;
      skipped_are = k.skipped_are;
      valid = empty_builder-IsValid deps;
      sendable = k.sendable;
    };
    fresh = refl;
  }
    where
      nil_map : (ds : List ReadyDocument) → map lote_document ds ≡ [] → ds ≡ []
      nil_map [] h = refl
      nil_map (d ∷ ds) h = cc

      no_current : k.current ≡ []
      no_current = nil_map k.current (sym k.documents_current ∙ e)

  flush_lote :
      (seen : List ReadyDocument) (f : Fill) (identity : Identity)
      → Keeps deps old seen f
      → f.builder.identity ≡ some identity
      → IsSendable deps identity f.builder.documents
      → is_nil f.builder.documents ≡ false
      → Flushes seen f
  unfolding flush build
  flush_lote seen f identity k known s some_there =
      let lote : Lote = record { identity = identity; documents = f.builder.documents } in
      let p : Planned = record { lote = lote; ids = f.ids } in
      record {
        next = record f { planned = f.planned ++ p ∷ []; builder = empty_builder; ids = [] };
        flush_is = rw (some_there, known) refl;
        keeps = record {
          before = k.before ++ k.current;
          current = [];
          out = k.out;
          notes = k.notes;
          parts =
              subst (λ l. Interleaves l k.out seen) (sym (append-nil (k.before ++ k.current)))
                k.parts;
          ids_before =
              planned_ids-snoc f.planned p
              ∙ ap₂ (λ a b. a ++ b) k.ids_before k.ids_current
              ∙ sym (map-append id_of k.before k.current);
          documents_before =
              planned_documents-snoc f.planned p
              ∙ ap₂ (λ a b. a ++ b) k.documents_before k.documents_current
              ∙ sym (map-append lote_document k.before k.current);
          ids_current = refl;
          documents_current = refl;
          notes_out = k.notes_out;
          skipped_are = k.skipped_are;
          valid = empty_builder-IsValid deps;
          sendable = all_append (IsPlanned deps) f.planned (p ∷ []) k.sendable (s, tt);
        };
        fresh = refl;
      }

  pub flush-Flushes :
      (seen : List ReadyDocument) (f : Fill) → Keeps deps old seen f → Flushes seen f
  flush-Flushes seen f k = elim k.valid.state [
    | inl (unknown, empty) ↦ flush_nothing seen f k empty
    | inr (identity, known, s) ↦
        flush_lote seen f identity k known s (filled f.builder.documents s.some_documents)
  ]
    where
      filled : (ds : List LoteDocument) → 1 ≤ length ds → is_nil ds ≡ false
      filled [] h = absurd (omega (arith, h))
      filled (d ∷ ds) h = refl

  -- The state after one more document.
  pub record Fills (seen : List ReadyDocument) (d : ReadyDocument) (r : Result FillError Fill)
      : Type 0 where
    pub next : Fill
    pub result_is : r ≡ ok next
    pub keeps : Keeps deps old (seen ++ d ∷ []) next

  -- The call of `add` on a builder, and what is noted of it.
  pub note-Fills :
      (seen : List ReadyDocument) (f : Fill) (d : ReadyDocument) (parts : CdcParts)
      → Keeps deps old seen f
      → parse_cdc d.cdc ≡ ok parts
      → ((add deps f.builder (lote_document d)
            ≡ ok (accepted, pushed f.builder (lote_document d) parts))
          × Keeps deps old
              (seen ++ d ∷ [])
              (note f d (accepted, pushed f.builder (lote_document d) parts)))
        ⊎ ((reason : LoteRejection) × (add deps f.builder (lote_document d)
              ≡ ok (rejected reason, f.builder)))
  unfolding pushed
  note-Fills seen f d parts k parsed =
      elim (add_decides deps f.builder (lote_document d) parts k.valid parsed) [
        | inl (taken, s) ↦ inl (
          taken,
          accept-Keeps seen f d (pushed f.builder (lote_document d) parts) k refl
              (add-IsValid deps f.builder (lote_document d) accepted _ k.valid taken),
        )
        | inr (reason, refused, n) ↦ inr (reason, refused)
      ]
