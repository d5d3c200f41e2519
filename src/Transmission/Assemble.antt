-- ===== src/Transmission/Assemble.antt =====
-- apps/api/src/modules/transmission/application/assemble-lotes.ts: the documents that are ready become
-- lotes. The store and the last look at SIFEN are parameters: the CDCs in process, what `verify`,
-- `deferDocument`, `holdResend` and `createLote` answer; the calls of the last three are listed.
pub mod Filling
pub mod Partition
pub mod Clearing
pub mod Creating
pub mod Counting
pub mod Accounts
mod Tests
use facturacion_sifen.Prelude.{
  ℕ, suc, ◌+◌, Bool, true, false, not, Option, none, some, List, [], ◌∷◌, ◌++◌, map, Result, ok,
  err, ◌>>=◌, ltb, ◌&&◌, ◌||◌, if◌then◌else◌, Text, text_eq, codes, take, is_space,
}
use facturacion_sifen.Prelude.Int.{ℤ, pos, ◌+ℤ◌, ltb_ℤ}
use facturacion_sifen.Cdc.{CdcError, CdcParts, parse_cdc}
use facturacion_sifen.Transmission.Lote.{
  LoteDocument, LoteBuilderDeps, LoteRejection, lote_full, size_exceeded, Lote, LoteBuilder,
  empty_builder, has_cdc, AddResult, accepted, rejected, add, build,
}

pub record ReadyDocument : Type 0 where
  pub document_id : Text
  pub cdc : Text
  pub xml : Text
  pub resent : Bool
  pub resent_at : Option ℤ

pub data ResendVerdict : Type 0 where
  send approved wait : ResendVerdict

pub data SkipReason : Type 0 where
  invalid_cdc resend_aborted resend_already_approved resend_held resend_unverified : SkipReason
  not_added : LoteRejection → SkipReason

pub record SkippedDocument : Type 0 where
  pub cdc : Text
  pub reason : SkipReason

pub record Planned : Type 0 where
  pub lote : Lote
  pub ids : List Text

pub data FillError : Type 0 where
  bad_cdc : CdcError → FillError
  empty_lote : FillError

-- The variables of `fill`.
pub record Fill : Type 0 where
  pub planned : List Planned
  pub builder : LoteBuilder
  pub ids : List Text
  pub skipped : List SkippedDocument

abbrev pub lote_document : ReadyDocument → LoteDocument
lote_document d = record { cdc = d.cdc; xml = d.xml }

abbrev pub or_bad_cdc {ℓ} : {A : Type ℓ} → Result CdcError A → Result FillError A
or_bad_cdc (ok a) = ok a
or_bad_cdc (err e) = err (bad_cdc e)

abbrev pub flushed : Fill → Result (Unit {0}) Lote → Result FillError Fill
flushed f (err u) = err empty_lote
flushed f (ok lote) = ok (record f {
  planned = f.planned ++ record { lote = lote; ids = f.ids } ∷ [];
  builder = empty_builder;
  ids = [];
})

abbrev pub is_nil {ℓ} : {A : Type ℓ} → List A → Bool
is_nil [] = true
is_nil (a ∷ rest) = false

-- `flush`
unfoldable pub flush : Fill → Result FillError Fill
flush f =
    if is_nil f.builder.documents
    then ok (record f { builder = empty_builder; ids = [] })
    else flushed f (build f.builder)

-- What the loop notes of a document, with the builder after the call of `add`.
abbrev pub note : Fill → ReadyDocument → AddResult × LoteBuilder → Fill
note f document (accepted, builder) = record f {
  builder = builder;
  ids = f.ids ++ document.document_id ∷ [];
}
note f document (rejected reason, builder) = record f {
  builder = builder;
  skipped = f.skipped ++ record { cdc = document.cdc; reason = not_added reason } ∷ [];
}

abbrev pub is_full : AddResult → Bool
is_full (rejected lote_full) = true
is_full (rejected size_exceeded) = true
is_full _ = false

-- The document once the full lote is flushed.
abbrev pub retried :
    LoteBuilderDeps → ReadyDocument → (was_empty : Bool) → AddResult → Fill → Result FillError Fill
retried deps document true result f = ok (note f document (result, f.builder))
retried deps document false result f =
    or_bad_cdc (add deps f.builder (lote_document document)) >>= λ r. ok (note f document r)

abbrev pub added :
    LoteBuilderDeps → Fill → ReadyDocument → AddResult × LoteBuilder → Result FillError Fill
added deps f document (result, builder) =
    if is_full result
    then flush f >>= retried deps document (is_nil f.builder.documents) result
    else ok (note f document (result, builder))

-- The body of the loop. `add` leaves the builder as it was where it rejects.
unfoldable pub fill_one : LoteBuilderDeps → Fill → ReadyDocument → Result FillError Fill
fill_one deps f document =
    or_bad_cdc (add deps f.builder (lote_document document)) >>= added deps f document

unfoldable pub fill_from : LoteBuilderDeps → Fill → List ReadyDocument → Result FillError Fill
fill_from deps f [] = flush f
fill_from deps f (d ∷ ds) = fill_one deps f d >>= λ next. fill_from deps next ds

abbrev pub start : List SkippedDocument → Fill
start skipped = record { planned = []; builder = empty_builder; ids = []; skipped = skipped }

unfoldable pub fill :
    LoteBuilderDeps → List SkippedDocument → List ReadyDocument → Result FillError Fill
fill deps skipped group = fill_from deps (start skipped) group

-- `isValidCdc`
abbrev pub is_ok {ℓ κ} : {E : Type ℓ} {A : Type κ} → Result E A → Bool
is_ok (ok a) = true
is_ok (err e) = false

abbrev pub is_valid_cdc : Text → Bool
is_valid_cdc cdc = is_ok (parse_cdc cdc)

-- The filter on the CDCs: the documents that it keeps, and what it notes of the others.
unfoldable pub valid_documents : List ReadyDocument → List ReadyDocument × List SkippedDocument
valid_documents [] = ([], [])
valid_documents (d ∷ ds) =
    let rest = valid_documents ds in
    if is_valid_cdc d.cdc
    then (d ∷ rest.0, rest.1)
    else (rest.0, record { cdc = d.cdc; reason = invalid_cdc } ∷ rest.1)

-- The key of a group is `rucBase:documentType`, two texts of fixed width.
abbrev pub Group : Type 0
Group = Text × Text × List ReadyDocument

abbrev pub into : List Group → Text → Text → ReadyDocument → List Group
into [] ruc type d = (ruc, type, d ∷ []) ∷ []
into ((r, t, ds) ∷ gs) ruc type d =
    if text_eq r ruc && text_eq t type
    then (r, t, ds ++ d ∷ []) ∷ gs
    else (r, t, ds) ∷ into gs ruc type d

unfoldable pub group_by : List Group → List ReadyDocument → Result CdcError (List Group)
group_by groups [] = ok groups
group_by groups (d ∷ ds) =
    parse_cdc d.cdc >>= λ p. group_by (into groups p.ruc_base p.document_type d) ds

unfoldable pub group_by_ruc_and_type : List ReadyDocument → Result CdcError (List Group)
group_by_ruc_and_type ds = group_by [] ds

-- The groups one after the other, with what is planned and skipped so far.
unfoldable pub fill_groups :
    LoteBuilderDeps
    → List Planned
    → List SkippedDocument
    → List Group
    → Result FillError (List Planned × List SkippedDocument)
fill_groups deps planned skipped [] = ok (planned, skipped)
fill_groups deps planned skipped ((r, t, ds) ∷ gs) =
    fill deps skipped ds >>= λ f. fill_groups deps (planned ++ f.planned) f.skipped gs
