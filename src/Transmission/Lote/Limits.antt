-- ===== src/Transmission/Lote/Limits.antt =====
-- What holds of a lote while it is built, and of the lote that is sent.
use facturacion_sifen.Prelude.{
  ◌≤◌, ◌≡◌, ◌≢◌, ◌⊎◌, inl, inr, refl, sym, arith, false, none, some, List, [], ◌∷◌, ◌++◌, map,
  Result, ok, err, Text, text_eq, text_eq_iff, length, Bool-cases, ok-injective,
}
use facturacion_sifen.Cdc.{CdcParts, parse_cdc}
use facturacion_sifen.Transmission.Lote.{
  LoteDocument, LoteBuilderDeps, Identity, Lote, LoteBuilder, empty_builder, has_cdc, xmls, build,
}

-- A CDC whose issuer and type are those of the lote.
abbrev pub Belongs : Identity → LoteDocument → Type 0
Belongs identity d =
    (parts : CdcParts) × (parse_cdc d.cdc ≡ ok parts)
    × (parts.ruc_base ≡ identity.ruc_base)
    × (parts.document_type ≡ identity.document_type)

abbrev pub AllDocuments : (LoteDocument → Type 0) → List LoteDocument → Type 0
AllDocuments P [] = Unit {0}
AllDocuments P (d ∷ ds) = P d × AllDocuments P ds

-- No document has the CDC of an earlier one.
abbrev pub DistinctCdcs : List LoteDocument → Type 0
DistinctCdcs [] = Unit {0}
DistinctCdcs (d ∷ ds) = AllDocuments (λ e. d.cdc ≢ e.cdc) ds × DistinctCdcs ds

-- What SIFEN asks of the documents of a lote.
pub record IsSendable (deps : LoteBuilderDeps) (identity : Identity) (documents : List LoteDocument)
    : Type 0 where
  pub some_documents : 1 ≤ length documents
  pub few_documents : length documents ≤ 50
  pub belong : AllDocuments (Belongs identity) documents
  pub distinct : DistinctCdcs documents
  pub idle : AllDocuments (λ d. deps.is_in_process d.cdc ≡ false) documents
  pub size : deps.measure_message (xmls documents) ≤ 1000000

-- A builder has no document and no identity, or documents that may be sent.
pub record IsValid (deps : LoteBuilderDeps) (builder : LoteBuilder) : Type 0 where
  pub cdcs_are : builder.cdcs ≡ map (λ d. d.cdc) builder.documents
  pub state :
      ((builder.identity ≡ none) × (builder.documents ≡ []))
      ⊎ ((identity : Identity) × (builder.identity ≡ some identity)
          × IsSendable deps identity builder.documents)

pub empty_builder-IsValid : (deps : LoteBuilderDeps) → IsValid deps empty_builder
empty_builder-IsValid deps = record { cdcs_are = refl; state = inl (refl, refl) }

pub all_snoc :
    (P : LoteDocument → Type 0) (ds : List LoteDocument) (d : LoteDocument)
    → AllDocuments P ds
    → P d
    → AllDocuments P (ds ++ d ∷ [])
all_snoc P [] d a p = (p, tt)
all_snoc P (e ∷ es) d (q, a) p = (q, all_snoc P es d a p)

pub not_in :
    (ds : List LoteDocument) (cdc : Text)
    → has_cdc (map (λ d. d.cdc) ds) cdc ≡ false
    → AllDocuments (λ e. e.cdc ≢ cdc) ds
not_in [] cdc h = tt
not_in (d ∷ ds) cdc h =
    ((λ e. let t = (text_eq_iff d.cdc cdc).1 e in ground arith), not_in ds cdc (ground arith))

pub distinct_snoc :
    (ds : List LoteDocument) (d : LoteDocument)
    → DistinctCdcs ds
    → AllDocuments (λ e. e.cdc ≢ d.cdc) ds
    → DistinctCdcs (ds ++ d ∷ [])
distinct_snoc [] d u a = (tt, tt)
distinct_snoc (e ∷ es) d (n, u) (p, a) =
    (all_snoc (λ f. e.cdc ≢ f.cdc) es d n p, distinct_snoc es d u a)

pub all_unsnoc :
    (P : LoteDocument → Type 0) (ds : List LoteDocument) (d : LoteDocument)
    → AllDocuments P (ds ++ d ∷ [])
    → P d
all_unsnoc P [] d (p, _) = p
all_unsnoc P (e ∷ es) d (_, a) = all_unsnoc P es d a

pub distinct_unsnoc :
    (ds : List LoteDocument) (d : LoteDocument)
    → DistinctCdcs (ds ++ d ∷ [])
    → has_cdc (map (λ e. e.cdc) ds) d.cdc ≡ false
distinct_unsnoc [] d u = refl
distinct_unsnoc (e ∷ es) d (n, u) =
    rw (different e.cdc d.cdc (all_unsnoc (λ f. e.cdc ≢ f.cdc) es d n), distinct_unsnoc es d u)
  where
    different : (a b : Text) → a ≢ b → text_eq a b ≡ false
    different a b n = elim (Bool-cases (text_eq a b)) [
      | inl h ↦ absurd (n ((text_eq_iff a b).0 h))
      | inr h ↦ h
    ]

-- The documents of a lote that was built may be sent.
pub build-IsSendable :
    (deps : LoteBuilderDeps) (builder : LoteBuilder) (lote : Lote)
    → IsValid deps builder
    → build builder ≡ ok lote
    → IsSendable deps lote.identity lote.documents
unfolding build
build-IsSendable deps builder lote v h = elim v.state [
  | inl (unknown, _) ↦ absurd (err_ok _ _ (rw unknown at h))
  | inr (identity, known, s) ↦ rw (sym (ok-injective (rw known at h))) s
]
  where
    err_ok : {A E : Type 0} (e : E) (a : A) → (let r : Result E A = err e in r) ≢ ok a
    err_ok e a h = cc
