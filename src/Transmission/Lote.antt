-- ===== src/Transmission/Lote.antt =====
-- apps/api/src/modules/transmission/domain/lote-builder.ts: the documents that travel in one message.
-- The two callbacks are parameters: whether a CDC is in a lote that SIFEN still processes, and the size
-- of the message in bytes. The set of CDCs is a list in the order of insertion.
pub mod Limits
pub mod Adding
mod Tests
use facturacion_sifen.Prelude.{
  ℕ, ◌+◌, Bool, true, false, not, Option, none, some, List, [], ◌∷◌, ◌++◌, map, Result, ok, err,
  ◌>>=◌, ltb, leb, ◌&&◌, ◌||◌, if◌then◌else◌, Text, text_eq, length,
}
use facturacion_sifen.Cdc.{CdcError, CdcParts, parse_cdc}

abbrev max_lote_documents : ℕ
max_lote_documents = 50

abbrev max_lote_message_bytes : ℕ
max_lote_message_bytes = 1000000

pub record LoteDocument : Type 0 where
  pub cdc : Text
  pub xml : Text

pub record LoteBuilderDeps : Type 0 where
  pub is_in_process : Text → Bool
  pub measure_message : List Text → ℕ

pub data LoteRejection : Type 0 where
  ruc_mismatch type_mismatch lote_full duplicate_cdc cdc_in_process size_exceeded : LoteRejection

pub record Identity : Type 0 where
  pub ruc_base : Text
  pub ruc_dv : ℕ
  pub document_type : Text

pub record Lote : Type 0 where
  pub identity : Identity
  pub documents : List LoteDocument

pub record LoteBuilder : Type 0 where
  pub documents : List LoteDocument
  pub cdcs : List Text
  pub identity : Option Identity

abbrev pub empty_builder : LoteBuilder
empty_builder = record { documents = []; cdcs = []; identity = none }

-- `cdcs.has(cdc)`
abbrev pub has_cdc : List Text → Text → Bool
has_cdc [] cdc = false
has_cdc (c ∷ cs) cdc = text_eq c cdc || has_cdc cs cdc

-- `cdcs.add(cdc)`
abbrev pub add_cdc : List Text → Text → List Text
add_cdc cdcs cdc = if has_cdc cdcs cdc then cdcs else cdcs ++ cdc ∷ []

-- `identity ??= given`
abbrev pub identity_or : Option Identity → Identity → Identity
identity_or none given = given
identity_or (some identity) given = identity

abbrev pub other_ruc : Option Identity → Text → Bool
other_ruc none ruc_base = false
other_ruc (some identity) ruc_base = not (text_eq identity.ruc_base ruc_base)

abbrev pub other_type : Option Identity → Text → Bool
other_type none document_type = false
other_type (some identity) document_type = not (text_eq identity.document_type document_type)

abbrev pub xmls : List LoteDocument → List Text
xmls documents = map (λ d. d.xml) documents

unfoldable pub rejection :
    LoteBuilderDeps
    → LoteBuilder
    → LoteDocument
    → (ruc_base document_type : Text) → Option LoteRejection
rejection deps builder document ruc_base document_type =
    if other_ruc builder.identity ruc_base
    then some ruc_mismatch
    else if other_type builder.identity document_type
    then some type_mismatch
    else if leb max_lote_documents (length builder.documents)
    then some lote_full
    else if has_cdc builder.cdcs document.cdc
    then some duplicate_cdc
    else if deps.is_in_process document.cdc
    then some cdc_in_process
    else if ltb max_lote_message_bytes
        (deps.measure_message (xmls builder.documents ++ document.xml ∷ []))
    then some size_exceeded
    else none

pub data AddResult : Type 0 where
  accepted : AddResult
  rejected : LoteRejection → AddResult

abbrev pub identity_of : CdcParts → Identity
identity_of parts = record {
  ruc_base = parts.ruc_base;
  ruc_dv = parts.ruc_dv;
  document_type = parts.document_type;
}

-- The builder once the document is in.
unfoldable pub pushed : LoteBuilder → LoteDocument → CdcParts → LoteBuilder
pushed builder document parts = record {
  documents = builder.documents ++ document ∷ [];
  cdcs = add_cdc builder.cdcs document.cdc;
  identity = some (identity_or builder.identity (identity_of parts));
}

abbrev pub add_parsed :
    LoteBuilderDeps → LoteBuilder → LoteDocument → CdcParts → AddResult × LoteBuilder
add_parsed deps builder document parts =
    elim (rejection deps builder document parts.ruc_base parts.document_type) [
      | some reason ↦ (rejected reason, builder)
      | none ↦ (accepted, pushed builder document parts)
    ]

unfoldable pub add :
    LoteBuilderDeps → LoteBuilder → LoteDocument → Result CdcError (AddResult × LoteBuilder)
add deps builder document = do
  parts ← parse_cdc document.cdc
  ok (add_parsed deps builder document parts)

-- The error is `EmptyLoteError`.
unfoldable pub build : LoteBuilder → Result (Unit {0}) Lote
build builder = elim builder.identity [
  | none ↦ err tt
  | some identity ↦ ok (record { identity = identity; documents = builder.documents })
]
