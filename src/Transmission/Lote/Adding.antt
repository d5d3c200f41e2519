-- ===== src/Transmission/Lote/Adding.antt =====
-- What taking or refusing a document does to a lote.
use facturacion_sifen.Prelude.{
  ◌≤◌, ◌<◌, ◌≡◌, ◌⊎◌, inl, inr, refl, sym, ap, subst, arith, false, not, Option, none, some, List,
  [], ◌∷◌, ◌++◌, map, ok, ltb, leb, if_refuses, Text, text_eq, text_eq_iff, text_eq_refl, length,
  length-append, >>=-eq-ok, Option-cases, ok-injective, ltb-false, ◌∙◌, ◌>>=◌,
}
use facturacion_sifen.Cdc.{CdcParts, parse_cdc}
use facturacion_sifen.Transmission.Lote.{
  LoteDocument, LoteBuilderDeps, LoteRejection, Identity, LoteBuilder, has_cdc, identity_or,
  other_ruc, other_type, xmls, rejection, AddResult, accepted, rejected, identity_of, pushed,
  add_parsed, add,
}
use facturacion_sifen.Transmission.Lote.Limits.{
  Belongs, IsSendable, IsValid, all_snoc, not_in, distinct_snoc, all_unsnoc, distinct_unsnoc,
}

-- The conditions that a document passes when it is taken.
record Passes (deps : LoteBuilderDeps) (builder : LoteBuilder) (document : LoteDocument)
    (parts : CdcParts) : Type 0 where
  same_ruc : other_ruc builder.identity parts.ruc_base ≡ false
  same_type : other_type builder.identity parts.document_type ≡ false
  room : length builder.documents < 50
  fresh : has_cdc builder.cdcs document.cdc ≡ false
  idle : deps.is_in_process document.cdc ≡ false
  size : deps.measure_message (xmls builder.documents ++ document.xml ∷ []) ≤ 1000000

passes :
    (deps : LoteBuilderDeps) (builder : LoteBuilder) (document : LoteDocument) (parts : CdcParts)
    → rejection deps builder document parts.ruc_base parts.document_type ≡ none
    → Passes deps builder document parts
unfolding rejection
passes deps builder document parts h =
    let (same_ruc, h1) = if_refuses (other_ruc builder.identity parts.ruc_base) _ _ h in
    let (same_type, h2) = if_refuses (other_type builder.identity parts.document_type) _ _ h1 in
    let (room, h3) = if_refuses (leb 50 (length builder.documents)) _ _ h2 in
    let (fresh, h4) = if_refuses (has_cdc builder.cdcs document.cdc) _ _ h3 in
    let (idle, h5) = if_refuses (deps.is_in_process document.cdc) _ _ h4 in
    let (size, _) =
      if_refuses (ltb 1000000 (deps.measure_message (xmls builder.documents ++ document.xml ∷ [])))
        _ _ h5 in
    record {
      same_ruc = same_ruc;
      same_type = same_type;
      room = ground arith;
      fresh = fresh;
      idle = idle;
      size = ground arith;
    }

map-snoc :
    {B : Type 0} (f : LoteDocument → B) (ds : List LoteDocument) (d : LoteDocument)
    → map f (ds ++ d ∷ []) ≡ map f ds ++ f d ∷ []
map-snoc f [] d = refl
map-snoc f (e ∷ es) d = rw (map-snoc f es d)

same_text : (a b : Text) → not (text_eq a b) ≡ false → b ≡ a
same_text a b h = sym ((text_eq_iff a b).0 (ground arith))

-- The document that is taken belongs to the lote it joins.
pushed-IsSendable :
    (deps : LoteBuilderDeps) (identity : Identity) (builder : LoteBuilder) (document : LoteDocument)
    (parts : CdcParts)
    → parse_cdc document.cdc ≡ ok parts
    → builder.cdcs ≡ map (λ d. d.cdc) builder.documents
    → builder.identity ≡ some identity
    → Passes deps builder document parts
    → IsSendable deps identity builder.documents
    → IsSendable deps identity (builder.documents ++ document ∷ [])
pushed-IsSendable deps identity builder document parts parsed cdcs_are known p s = record {
  some_documents = omega (arith, length-append builder.documents (document ∷ []));
  few_documents = omega (arith, length-append builder.documents (document ∷ []), p.room);
  belong = all_snoc (Belongs identity) builder.documents document s.belong (
    parts,
    parsed,
    same_text _ _ (rw known at p.same_ruc),
    same_text _ _ (rw known at p.same_type),
  );
  distinct =
      distinct_snoc builder.documents document s.distinct
        (not_in builder.documents document.cdc (rw cdcs_are at p.fresh));
  idle = all_snoc (λ d. deps.is_in_process d.cdc ≡ false) builder.documents document s.idle p.idle;
  size = rw (map-snoc (λ d. d.xml) builder.documents document) p.size;
}

first-IsSendable :
    (deps : LoteBuilderDeps) (builder : LoteBuilder) (document : LoteDocument) (parts : CdcParts)
    → parse_cdc document.cdc ≡ ok parts
    → builder.documents ≡ []
    → Passes deps builder document parts
    → IsSendable deps (identity_of parts) (builder.documents ++ document ∷ [])
first-IsSendable deps builder document parts parsed empty p = rw empty (record {
  some_documents = omega arith;
  few_documents = omega arith;
  belong = ((parts, parsed, refl, refl), tt);
  distinct = (tt, tt);
  idle = (p.idle, tt);
  size = rw empty at p.size;
})

pushed-IsValid :
    (deps : LoteBuilderDeps) (builder : LoteBuilder) (document : LoteDocument) (parts : CdcParts)
    → parse_cdc document.cdc ≡ ok parts
    → Passes deps builder document parts
    → IsValid deps builder
    → IsValid deps (pushed builder document parts)
unfolding pushed
pushed-IsValid deps builder document parts parsed p v = record {
  cdcs_are =
      rw (p.fresh, map-snoc (λ d. d.cdc) builder.documents document)
        (ap (λ l. l ++ document.cdc ∷ []) v.cdcs_are);
  state = elim v.state [
    | inl (unknown, empty) ↦
        inr (
          identity_of parts,
          rw unknown,
          first-IsSendable deps builder document parts parsed empty p,
        )
    | inr (identity, known, s) ↦ inr (
      identity,
      rw known,
      pushed-IsSendable deps identity builder document parts parsed v.cdcs_are known p s,
    )
  ];
}

-- Adding a document, taken or rejected, keeps the lote within what SIFEN accepts: 1 to 50 documents
-- once it has any, all of one issuer and one type, no CDC twice, none that SIFEN still processes, and a
-- message of at most 1000000 bytes.
pub add-IsValid :
    (deps : LoteBuilderDeps) (builder : LoteBuilder) (document : LoteDocument) (r : AddResult)
    (next : LoteBuilder)
    → IsValid deps builder
    → add deps builder document ≡ ok (r, next)
    → IsValid deps next
unfolding add
add-IsValid deps builder document r next v h =
    let (parts, parsed, e) = >>=-eq-ok (parse_cdc document.cdc) _ h in
    go parts parsed (rejection deps builder document parts.ruc_base parts.document_type) refl
      (ok-injective e)
  where
    go :
        (parts : CdcParts)
        → parse_cdc document.cdc ≡ ok parts
        → (o : Option LoteRejection)
        → rejection deps builder document parts.ruc_base parts.document_type ≡ o
        → (let p : AddResult × LoteBuilder = elim o [
          | some reason ↦ (rejected reason, builder)
          | none ↦ (accepted, pushed builder document parts)
        ] in
            p)
          ≡ (r, next)
        → IsValid deps next
    go parts parsed (some reason) refused e = subst (IsValid deps) (ap (λ p. p.1) e) v
    go parts parsed none taken e = subst (IsValid deps) (ap (λ p. p.1) e) (
        pushed-IsValid deps builder document parts parsed (passes deps builder document parts taken)
          v)

-- A document that belongs to the lote has its issuer and its type.
own :
    (o : Option Identity) (document : LoteDocument) (parts : CdcParts)
    → parse_cdc document.cdc ≡ ok parts
    → Belongs (identity_or o (identity_of parts)) document
    → (other_ruc o parts.ruc_base ≡ false) × (other_type o parts.document_type ≡ false)
own none document parts parsed b = (refl, refl)
own (some identity) document parts parsed (found, parsed_too, ruc, type) =
    let same : found ≡ parts = ok-injective (sym parsed_too ∙ parsed) in
    (
      equal_text _ _ (sym ruc ∙ ap (λ f. f.ruc_base) same),
      equal_text _ _ (sym type ∙ ap (λ f. f.document_type) same),
    )
  where
    equal_text : (a b : Text) → a ≡ b → not (text_eq a b) ≡ false
    equal_text a b e = rw (e, text_eq_refl b)

-- A document that makes a sendable lote is refused by no rule.
no_rejection :
    (deps : LoteBuilderDeps) (builder : LoteBuilder) (document : LoteDocument) (parts : CdcParts)
    → builder.cdcs ≡ map (λ d. d.cdc) builder.documents
    → parse_cdc document.cdc ≡ ok parts
    → IsSendable deps
        (identity_or builder.identity (identity_of parts))
        (builder.documents ++ document ∷ [])
    → rejection deps builder document parts.ruc_base parts.document_type ≡ none
unfolding rejection
no_rejection deps builder document parts cdcs_are parsed s =
    let ds = builder.documents in
    let (ruc, type) =
      own builder.identity document parts parsed (all_unsnoc _ ds document s.belong) in
    rw (
      ruc,
      type,
      room,
      cdcs_are,
      distinct_unsnoc ds document s.distinct,
      all_unsnoc (λ d. deps.is_in_process d.cdc ≡ false) ds document s.idle,
      ltb-false 1000000 (deps.measure_message (xmls ds ++ document.xml ∷ []))
          (rw (sym (map-snoc (λ d. d.xml) ds document)) s.size),
    )
  where
    room : leb 50 (length builder.documents) ≡ false
    room =
        let n = length-append builder.documents (document ∷ []) in
        let few = s.few_documents in ground arith

-- Adding a document decides exactly whether the lote with it could be sent: either it can, and the
-- document is taken, or it cannot, and the builder stays as it was, with a reason.
pub add_decides :
    (deps : LoteBuilderDeps) (builder : LoteBuilder) (document : LoteDocument) (parts : CdcParts)
    → IsValid deps builder
    → parse_cdc document.cdc ≡ ok parts
    → (let with_it : Type 0 =
          IsSendable deps
            (identity_or builder.identity (identity_of parts))
            (builder.documents ++ document ∷ []) in
        ((add deps builder document ≡ ok (accepted, pushed builder document parts)) × with_it)
        ⊎ ((reason : LoteRejection) × (add deps builder document ≡ ok (rejected reason, builder))
            × (¬ with_it)))
unfolding add
add_decides deps builder document parts v parsed =
    elim (Option-cases (rejection deps builder document parts.ruc_base parts.document_type)) [
      | inl taken ↦ inl (
        rw (parsed, ◌>>=◌, add_parsed, taken),
        sendable v.state (passes deps builder document parts taken),
      )
      | inr (reason, refused) ↦ inr (
        reason,
        rw (parsed, ◌>>=◌, add_parsed, refused),
        λ s. let taken = no_rejection deps builder document parts v.cdcs_are parsed s in cc,
      )
    ]
  where
    sendable :
        ((builder.identity ≡ none) × (builder.documents ≡ []))
          ⊎ ((identity : Identity) × (builder.identity ≡ some identity)
              × IsSendable deps identity builder.documents)
        → Passes deps builder document parts
        → IsSendable deps
            (identity_or builder.identity (identity_of parts))
            (builder.documents ++ document ∷ [])
    sendable (inl (unknown, empty)) p =
        rw unknown (first-IsSendable deps builder document parts parsed empty p)
    sendable (inr (identity, known, s)) p =
        rw known
          (pushed-IsSendable deps identity builder document parts parsed v.cdcs_are known p s)
