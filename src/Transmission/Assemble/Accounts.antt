-- ===== src/Transmission/Assemble/Accounts.antt =====
-- A whole run of `assemble` in assemble-lotes.ts, after the last look at SIFEN: it always ends, and loses
-- no document.
use facturacion_sifen.Prelude.{
  sym, subst, ◌∙◌, ok-injective, ℕ, ◌+◌, ◌≤◌, ◌≡◌, refl, ap, arith, Bool, true, false, ◌&&◌, Option,
  none, some, List, [], ◌∷◌, ◌++◌, map, Result, ok, err, ◌>>=◌, if◌then◌else◌, Text, text_eq,
  length, length-map,
}
use facturacion_sifen.Prelude.Interleaving.{AllOf, all_append}
use facturacion_sifen.Cdc.{CdcError, CdcParts, parse_cdc}
use facturacion_sifen.Transmission.Lote.{LoteBuilderDeps, LoteDocument}
use facturacion_sifen.Transmission.Assemble.{
  ReadyDocument, invalid_cdc, SkippedDocument, Planned, Fill, lote_document, or_bad_cdc, is_ok,
  valid_documents, Group, into, group_by, group_by_ruc_and_type, fill_groups,
}
use facturacion_sifen.Transmission.Assemble.Creating.{
  AssembledLote, ConflictedDocument, describe_error, AssembleLotesResult, CreateError, AssembleDeps,
  in_process, or_not_filled, cdcs_of, created, create_all, builder_deps, assemble_cleared,
}
use facturacion_sifen.Transmission.Assemble.Counting.{
  hit, tally, tally-append, tally-map, tally-Interleaves,
}
use facturacion_sifen.Transmission.Assemble.Filling.{planned_documents, cdc_of, IsPlanned}
use facturacion_sifen.Transmission.Assemble.Partition.{AllParse, IsPartition, fill-IsPartition}

abbrev GroupsParse : List Group → Type 0
GroupsParse gs = AllOf (λ g. AllParse g.2) gs

-- The CDC of each kind of record.
abbrev pub skipped_cdc : SkippedDocument → Text
skipped_cdc n = n.cdc

abbrev pub lote_cdc : LoteDocument → Text
lote_cdc d = d.cdc

abbrev pub conflicted_cdc : ConflictedDocument → Text
conflicted_cdc c = c.cdc

module _ (x : Text) where
  valid_documents-AllParse :
      (ds : List ReadyDocument)
      → AllParse (valid_documents ds).0
        × (tally cdc_of x (valid_documents ds).0 + tally skipped_cdc x (valid_documents ds).1
            ≡ tally cdc_of x ds)
  unfolding valid_documents
  valid_documents-AllParse [] = (tt, omega arith)
  valid_documents-AllParse (d ∷ ds) = pick (parse_cdc d.cdc) refl (valid_documents-AllParse ds)
    where
      rest : List ReadyDocument × List SkippedDocument
      rest = valid_documents ds

      pick :
          (r : Result CdcError CdcParts)
          → parse_cdc d.cdc ≡ r
          → AllParse rest.0
            × (tally cdc_of x rest.0 + tally skipped_cdc x rest.1 ≡ tally cdc_of x ds)
          → (let out : List ReadyDocument × List SkippedDocument =
                if is_ok r
                then (d ∷ rest.0, rest.1)
                else (rest.0, record { cdc = d.cdc; reason = invalid_cdc } ∷ rest.1) in
              AllParse out.0
              × (tally cdc_of x out.0 + tally skipped_cdc x out.1 ≡ tally cdc_of x (d ∷ ds)))
      pick (ok parts) e (all, count) = (((parts, e), all), omega (arith, count))
      pick (err y) e (all, count) = (all, omega (arith, count))

  -- The documents of all groups.
  abbrev in_groups : List Group → ℕ
  in_groups [] = 0
  in_groups ((r, t, ds) ∷ gs) = tally cdc_of x ds + in_groups gs

  into-GroupsParse :
      (gs : List Group) (ruc type : Text) (d : ReadyDocument)
      → ((parts : CdcParts) × (parse_cdc d.cdc ≡ ok parts))
      → GroupsParse gs
      → GroupsParse (into gs ruc type d)
        × (in_groups (into gs ruc type d) ≡ in_groups gs + hit x d.cdc)
  into-GroupsParse [] ruc type d p u = (((p, tt), tt), omega arith)
  into-GroupsParse ((r, t, ds) ∷ gs) ruc type d p (q, qs) =
      pick (text_eq r ruc && text_eq t type) (into-GroupsParse gs ruc type d p qs)
    where
      Both : List Group → Type 0
      Both out = GroupsParse out × (in_groups out ≡ in_groups ((r, t, ds) ∷ gs) + hit x d.cdc)

      pick :
          (b : Bool)
          → GroupsParse (into gs ruc type d)
            × (in_groups (into gs ruc type d) ≡ in_groups gs + hit x d.cdc)
          → Both (if b then (r, t, ds ++ d ∷ []) ∷ gs else (r, t, ds) ∷ into gs ruc type d)
      pick true rest = (
        (all_append _ ds (d ∷ []) q (p, tt), qs),
        omega (arith, tally-append cdc_of x ds (d ∷ [])),
      )
      pick false (all, count) = ((q, all), omega (arith, count))

  group_by-GroupsParse :
      (gs : List Group) (ds : List ReadyDocument)
      → GroupsParse gs
      → AllParse ds
      → (out : List Group) × (group_by gs ds ≡ ok out)
        × GroupsParse out
        × (in_groups out ≡ in_groups gs + tally cdc_of x ds)
  unfolding group_by
  group_by-GroupsParse gs [] all u = (gs, refl, all, omega arith)
  group_by-GroupsParse gs (d ∷ ds) all ((parts, parsed), parse) =
      let (one, count) =
        into-GroupsParse gs parts.ruc_base parts.document_type d (parts, parsed) all in
      let (out, done, every, total) =
        group_by-GroupsParse (into gs parts.ruc_base parts.document_type d) ds one parse in
      (out, rw (parsed, ◌>>=◌) done, every, omega (arith, count, total))

  abbrev planned_count : List Planned → ℕ
  planned_count [] = 0
  planned_count (p ∷ ps) = tally lote_cdc x p.lote.documents + planned_count ps

  tally-planned_documents :
      (ps : List Planned) → tally lote_cdc x (planned_documents ps) ≡ planned_count ps
  tally-planned_documents [] = refl
  tally-planned_documents (p ∷ ps) = omega (
    arith,
    tally-append lote_cdc x p.lote.documents (planned_documents ps),
    tally-planned_documents ps,
  )

  planned_count-append :
      (ps qs : List Planned) → planned_count (ps ++ qs) ≡ planned_count ps + planned_count qs
  planned_count-append [] qs = omega arith
  planned_count-append (p ∷ ps) qs = omega (arith, planned_count-append ps qs)

  IsPartition-count :
      (deps : LoteBuilderDeps) (old : List SkippedDocument) (group : List ReadyDocument) (f : Fill)
      → IsPartition deps old group f
      → planned_count f.planned + tally skipped_cdc x f.skipped
        ≡ tally skipped_cdc x old + tally cdc_of x group
  IsPartition-count deps old group f p = omega (
    arith,
    tally-planned_documents f.planned,
    ap (tally lote_cdc x) p.documents_are,
    tally-map lote_cdc lote_document x p.taken,
    ap (tally skipped_cdc x) p.skipped_are,
    tally-append skipped_cdc x old p.notes,
    ap (tally (λ t. t) x) p.notes_are,
    tally-map (λ t. t) skipped_cdc x p.notes,
    tally-map (λ t. t) cdc_of x p.out,
    tally-Interleaves cdc_of x p.taken p.out group p.parts,
  )

  -- What filling all groups comes to.
  fill_groups-counts :
      (deps : LoteBuilderDeps) (planned : List Planned) (skipped : List SkippedDocument)
      (gs : List Group)
      → AllOf (IsPlanned deps) planned
      → GroupsParse gs
      → (ps : List Planned) × (ss : List SkippedDocument) × (fill_groups deps planned skipped gs
          ≡ ok (ps, ss))
        × AllOf (IsPlanned deps) ps
        × (planned_count ps + tally skipped_cdc x ss
            ≡ planned_count planned + tally skipped_cdc x skipped + in_groups gs)
  unfolding fill_groups
  fill_groups-counts deps planned skipped [] sendable u =
      (planned, skipped, refl, sendable, omega arith)
  fill_groups-counts deps planned skipped ((r, t, ds) ∷ gs) sendable (parse, rest) =
      let (f, filled, partition) = fill-IsPartition deps skipped ds parse in
      let (ps, ss, done, all, count) =
        fill_groups-counts deps (planned ++ f.planned) f.skipped gs
          (all_append (IsPlanned deps) planned f.planned sendable partition.sendable) rest in
      (
        ps,
        ss,
        rw (filled, ◌>>=◌) done,
        all,
        omega (
          arith,
          count,
          planned_count-append planned f.planned,
          IsPartition-count deps skipped ds f partition,
        ),
      )

  abbrev pub in_lotes : List AssembledLote → ℕ
  in_lotes [] = 0
  in_lotes (l ∷ ls) = tally (λ t. t) x l.cdcs + in_lotes ls

  create_all-counts :
      (create : Planned → Result CreateError (Option Text)) (ss : List SkippedDocument)
      (ps : List Planned)
      → (let r = create_all create ss ps in
          in_lotes r.lotes + tally conflicted_cdc x r.conflicted ≡ planned_count ps)
  unfolding create_all
  create_all-counts create ss [] = omega arith
  create_all-counts create ss (p ∷ ps) = pick (create p) (create_all-counts create ss ps)
    where
      rest : AssembleLotesResult
      rest = create_all create ss ps

      conflicted_count :
          (error : Option Text)
          → tally conflicted_cdc x
              (map (λ c. record { cdc = c; error = error }) (cdcs_of p) ++ rest.conflicted)
            ≡ tally lote_cdc x p.lote.documents + tally conflicted_cdc x rest.conflicted
      conflicted_count error =
          let f : Text → ConflictedDocument = λ c. record { cdc = c; error = error } in
          omega (
            arith,
            tally-append conflicted_cdc x (map f (cdcs_of p)) rest.conflicted,
            tally-map conflicted_cdc f x (cdcs_of p),
            tally-map (λ t. t) lote_cdc x p.lote.documents,
          )

      pick :
          (c : Result CreateError (Option Text))
          → in_lotes rest.lotes + tally conflicted_cdc x rest.conflicted ≡ planned_count ps
          → in_lotes (created p c rest).lotes + tally conflicted_cdc x (created p c rest).conflicted
            ≡ planned_count (p ∷ ps)
      pick (ok (some lote_id)) count =
          omega (arith, count, tally-map (λ t. t) lote_cdc x p.lote.documents)
      pick (ok none) count = omega (arith, count, conflicted_count none)
      pick (err e) count = omega (arith, count, conflicted_count (some (describe_error e)))

-- One to fifty documents, in a lote that the store has created for them.
pub record IsCreated (create : Planned → Result CreateError (Option Text)) (l : AssembledLote)
    : Type 0 where
  pub plan : Planned
  pub stored : create plan ≡ ok (some l.lote_id)
  pub carries : l.cdcs ≡ cdcs_of plan
  pub some_documents : 1 ≤ length l.cdcs
  pub few_documents : length l.cdcs ≤ 50

create_all-IsCreated :
    (deps : LoteBuilderDeps) (create : Planned → Result CreateError (Option Text))
    (ss : List SkippedDocument) (ps : List Planned)
    → AllOf (IsPlanned deps) ps
    → ((create_all create ss ps).skipped ≡ ss)
      × AllOf (IsCreated create) (create_all create ss ps).lotes
unfolding create_all
create_all-IsCreated deps create ss [] u = (refl, tt)
create_all-IsCreated deps create ss (p ∷ ps) (s, all) =
    pick (create p) refl (create_all-IsCreated deps create ss ps all)
  where
    rest : AssembleLotesResult
    rest = create_all create ss ps

    Both : AssembleLotesResult → Type 0
    Both r = (r.skipped ≡ ss) × AllOf (IsCreated create) r.lotes

    pick :
        (c : Result CreateError (Option Text)) → create p ≡ c → Both rest → Both (created p c rest)
    pick (ok (some lote_id)) e (same, every) = (
      same,
      (
        record {
          plan = p;
          stored = e;
          carries = refl;
          some_documents =
              omega (arith, length-map p.lote.documents (λ d. d.cdc), s.some_documents);
          few_documents = omega (arith, length-map p.lote.documents (λ d. d.cdc), s.few_documents);
        },
        every,
      ),
    )
    pick (ok none) e both = both
    pick (err y) e both = both

-- A CDC is reported as often as it occurs among the documents that passed the last look and those that
-- were skipped before.
abbrev pub Accounted :
    Text → List SkippedDocument → List ReadyDocument → AssembleLotesResult → Type 0
Accounted x skipped cleared r =
    in_lotes x r.lotes + tally conflicted_cdc x r.conflicted + tally skipped_cdc x r.skipped
    ≡ tally skipped_cdc x skipped + tally cdc_of x cleared

-- What a run reports, of every CDC.
abbrev pub AccountsFor :
    AssembleDeps → List SkippedDocument → List ReadyDocument → AssembleLotesResult → Type 0
AccountsFor deps skipped cleared r =
    ((x : Text) → Accounted x skipped cleared r) × AllOf (IsCreated deps.create_lote) r.lotes

account-once :
    (deps : AssembleDeps) (skipped : List SkippedDocument) (cleared : List ReadyDocument)
    (cdcs : List Text) (x : Text)
    → in_process deps (valid_documents cleared).0 ≡ ok cdcs
    → (r : AssembleLotesResult) × (assemble_cleared deps skipped cleared ≡ ok r)
      × Accounted x skipped cleared r
      × AllOf (IsCreated deps.create_lote) r.lotes
unfolding assemble_cleared group_by_ruc_and_type
account-once deps skipped cleared cdcs x looked_up =
    let ready = (valid_documents cleared).0 in
    let invalid = (valid_documents cleared).1 in
    let (parse, split) = valid_documents-AllParse x cleared in
    let (groups, grouped, all, total) = group_by-GroupsParse x [] ready tt parse in
    let bd = builder_deps deps cdcs in
    let (ps, ss, filled, sendable, count) =
      fill_groups-counts x bd [] (skipped ++ invalid) groups tt all in
    let (same, every) = create_all-IsCreated bd deps.create_lote ss ps sendable in
    (
      create_all deps.create_lote ss ps,
      rw (looked_up, grouped, or_bad_cdc, or_not_filled, ◌>>=◌, filled) refl,
      omega (
        arith,
        split,
        total,
        count,
        create_all-counts x deps.create_lote ss ps,
        ap (tally skipped_cdc x) same,
        tally-append skipped_cdc x skipped invalid,
      ),
      every,
    )

-- Where the store can say which CDCs are in process, a run ends with a result, whatever the documents
-- and whatever the creations of lotes answer or throw. Every CDC is reported exactly as often as it
-- occurs among the documents, counted over the lotes that were created, the conflicted documents and the
-- skipped ones; and a lote is reported as created only with the id that the store gave it, and has 1 to
-- 50 documents.
pub assemble_cleared-accounts :
    (deps : AssembleDeps) (skipped : List SkippedDocument) (cleared : List ReadyDocument)
    (cdcs : List Text)
    → in_process deps (valid_documents cleared).0 ≡ ok cdcs
    → (r : AssembleLotesResult) × (assemble_cleared deps skipped cleared ≡ ok r)
      × AccountsFor deps skipped cleared r
assemble_cleared-accounts deps skipped cleared cdcs looked_up =
    let (r, done, _, every) = account-once deps skipped cleared cdcs [] looked_up in
    (
      r,
      done,
      (
        λ x.
            let (other, again, count, _) = account-once deps skipped cleared cdcs x looked_up in
            subst (Accounted x skipped cleared) (ok-injective (sym again ∙ done)) count,
        every,
      ),
    )
