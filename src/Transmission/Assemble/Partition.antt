-- ===== src/Transmission/Assemble/Partition.antt =====
-- The result of `fill` in assemble-lotes.ts: a partition of the group in lotes that may be sent, and
-- documents that are reported.
use facturacion_sifen.Prelude.{
  ◌≡◌, inl, inr, refl, sym, subst, ap, ◌∙◌, Bool, true, false, List, [], ◌∷◌, ◌++◌, map,
  append_assoc, append-nil, ok, ◌>>=◌, if◌then◌else◌,
}
use facturacion_sifen.Prelude.Interleaving.{Interleaves, AllOf}
use facturacion_sifen.Cdc.{CdcParts, parse_cdc}
use facturacion_sifen.Transmission.Lote.{LoteBuilderDeps, LoteRejection, rejected}
use facturacion_sifen.Transmission.Assemble.{
  ReadyDocument, SkippedDocument, Fill, lote_document, or_bad_cdc, is_nil, flush, note, is_full,
  retried, added, fill_one, fill_from, start, fill,
}
use facturacion_sifen.Transmission.Assemble.Filling.{
  planned_ids, planned_documents, id_of, cdc_of, IsPlanned, Keeps, start-Keeps, reject-Keeps,
  flush-Flushes, Fills, note-Fills,
}

-- Every document has a CDC that can be read.
abbrev pub AllParse : List ReadyDocument → Type 0
AllParse ds = AllOf (λ d. (parts : CdcParts) × (parse_cdc d.cdc ≡ ok parts)) ds

-- What filling a group comes to: `taken` are the documents of the lotes and `out` those that are
-- reported, both in their order, and each document is in one of them.
pub record IsPartition (deps : LoteBuilderDeps) (old : List SkippedDocument)
    (group : List ReadyDocument) (f : Fill) : Type 0 where
  pub taken : List ReadyDocument
  pub out : List ReadyDocument
  pub notes : List SkippedDocument
  pub parts : Interleaves taken out group
  pub ids_are : planned_ids f.planned ≡ map id_of taken
  pub documents_are : planned_documents f.planned ≡ map lote_document taken
  pub notes_are : map (λ n. n.cdc) notes ≡ map cdc_of out
  pub skipped_are : f.skipped ≡ old ++ notes
  pub sendable : AllOf (IsPlanned deps) f.planned

module _ (deps : LoteBuilderDeps) (old : List SkippedDocument) where
  retry-Fills :
      (seen : List ReadyDocument) (g : Fill) (d : ReadyDocument) (parts : CdcParts)
      (reason : LoteRejection) (was_empty : Bool)
      → Keeps deps old seen g
      → parse_cdc d.cdc ≡ ok parts
      → Fills deps old seen d (retried deps d was_empty (rejected reason) g)
  retry-Fills seen g d parts reason true k parsed = record {
    next = _;
    result_is = refl;
    keeps = reject-Keeps deps old seen g d reason k;
  }
  retry-Fills seen g d parts reason false k parsed =
      elim (note-Fills deps old seen g d parts k parsed) [
        | inl (taken, keeps) ↦ record { next = _; result_is = rw taken refl; keeps = keeps }
        | inr (again, refused) ↦ record {
          next = _;
          result_is = rw refused refl;
          keeps = reject-Keeps deps old seen g d again k;
        }
      ]

  refused-Fills :
      (seen : List ReadyDocument) (f : Fill) (d : ReadyDocument) (parts : CdcParts)
      (reason : LoteRejection)
      → Keeps deps old seen f
      → parse_cdc d.cdc ≡ ok parts
      → Fills deps old seen d (added deps f d (rejected reason, f.builder))
  refused-Fills seen f d parts reason k parsed = pick (is_full (rejected reason))
    where
      pick :
          (b : Bool)
          → Fills deps old seen d (
              if b
              then flush f >>= retried deps d (is_nil f.builder.documents) (rejected reason)
              else ok (note f d (rejected reason, f.builder)))
      pick false = record {
        next = _;
        result_is = refl;
        keeps = reject-Keeps deps old seen f d reason k;
      }
      pick true =
          let g = flush-Flushes deps old seen f k in
          subst
            (λ r.
              Fills deps old seen d
                (r >>= retried deps d (is_nil f.builder.documents) (rejected reason)))
            (sym g.flush_is)
            (retry-Fills seen g.next d parts reason (is_nil f.builder.documents) g.keeps parsed)

  fill_one-Fills :
      (seen : List ReadyDocument) (f : Fill) (d : ReadyDocument) (parts : CdcParts)
      → Keeps deps old seen f
      → parse_cdc d.cdc ≡ ok parts
      → Fills deps old seen d (fill_one deps f d)
  unfolding fill_one
  fill_one-Fills seen f d parts k parsed = elim (note-Fills deps old seen f d parts k parsed) [
    | inl (taken, keeps) ↦ record { next = _; result_is = rw taken refl; keeps = keeps }
    | inr (reason, refused) ↦
        subst (λ r. Fills deps old seen d (or_bad_cdc r >>= added deps f d)) (sym refused)
          (refused-Fills seen f d parts reason k parsed)
  ]

  flush-IsPartition :
      (seen : List ReadyDocument) (f : Fill)
      → Keeps deps old seen f
      → (g : Fill) × (flush f ≡ ok g) × IsPartition deps old seen g
  flush-IsPartition seen f k =
      let g = flush-Flushes deps old seen f k in
      (g.next, g.flush_is, ended g.next g.keeps (ap (λ b. b.documents) g.fresh))
    where
      nil_map : (ds : List ReadyDocument) → [] ≡ map lote_document ds → ds ≡ []
      nil_map [] h = refl
      nil_map (d ∷ ds) h = cc

      ended :
          (g : Fill)
          → Keeps deps old seen g
          → g.builder.documents ≡ []
          → IsPartition deps old seen g
      ended g k empty =
          let none_current : k.current ≡ [] = nil_map k.current (sym empty ∙ k.documents_current) in
          record {
            taken = k.before;
            out = k.out;
            notes = k.notes;
            parts =
                subst (λ l. Interleaves l k.out seen)
                  (ap (λ c. k.before ++ c) none_current ∙ append-nil k.before) k.parts;
            ids_are = k.ids_before;
            documents_are = k.documents_before;
            notes_are = k.notes_out;
            skipped_are = k.skipped_are;
            sendable = k.sendable;
          }

  fill_from-IsPartition :
      (seen : List ReadyDocument) (f : Fill) (ds : List ReadyDocument)
      → Keeps deps old seen f
      → AllParse ds
      → (g : Fill) × (fill_from deps f ds ≡ ok g) × IsPartition deps old (seen ++ ds) g
  unfolding fill_from
  fill_from-IsPartition seen f [] k parse =
      subst (λ l. (g : Fill) × (flush f ≡ ok g) × IsPartition deps old l g) (sym (append-nil seen))
        (flush-IsPartition seen f k)
  fill_from-IsPartition seen f (d ∷ ds) k ((parts, parsed), parse) =
      let one = fill_one-Fills seen f d parts k parsed in
      let (g, done, partition) =
        fill_from-IsPartition (seen ++ d ∷ []) one.next ds one.keeps parse in
      (
        g,
        ap (λ r. r >>= λ next. fill_from deps next ds) one.result_is ∙ done,
        subst (λ l. IsPartition deps old l g) (append_assoc seen (d ∷ []) ds) partition,
      )

-- The documents of a group whose CDCs can be read are filled into lotes without an error: each of them is
-- in one lote or is reported as skipped, in their order, ids and documents side by side; every lote may
-- be sent, and what was skipped before stays reported.
pub fill-IsPartition :
    (deps : LoteBuilderDeps) (old : List SkippedDocument) (group : List ReadyDocument)
    → AllParse group
    → (f : Fill) × (fill deps old group ≡ ok f) × IsPartition deps old group f
unfolding fill
fill-IsPartition deps old group parse =
    fill_from-IsPartition deps old [] (start old) group (start-Keeps deps old) parse
