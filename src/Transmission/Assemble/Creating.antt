-- ===== src/Transmission/Assemble/Creating.antt =====
-- The end of `assemble` in assemble-lotes.ts: from the documents that passed the last look at SIFEN to the
-- lotes that the store creates.
use facturacion_sifen.Prelude.{
  ℕ, Bool, false, Option, none, some, List, [], ◌∷◌, ◌++◌, map, Result, ok, err, ◌>>=◌,
  if◌then◌else◌, Text, codes, take, is_space,
}
use facturacion_sifen.Transmission.Lote.{LoteBuilderDeps, has_cdc}
use facturacion_sifen.Transmission.Assemble.{
  ReadyDocument, SkippedDocument, Planned, FillError, or_bad_cdc, valid_documents,
  group_by_ruc_and_type, fill_groups,
}

-- What `createLote` throws.
pub record CreateError : Type 0 where
  pub name : Text
  pub message : Text

-- `.replace(/\s+/g, ' ')`, after a space or not.
unfoldable pub one_space : (after_space : Bool) → Text → Text
one_space after [] = []
one_space after (c ∷ cs) =
    let rest = one_space (is_space c) cs in
    if is_space c then (if after then rest else b' ' ∷ rest) else c ∷ rest

unfoldable pub describe_error : CreateError → Text
unfolding one_space
describe_error e = take 200 (one_space false (e.name ++ codes ": " ++ e.message))

pub record AssembledLote : Type 0 where
  pub lote_id : Text
  pub document_type : Text
  pub cdcs : List Text

pub record ConflictedDocument : Type 0 where
  pub cdc : Text
  pub error : Option Text

pub record AssembleLotesResult : Type 0 where
  pub lotes : List AssembledLote
  pub skipped : List SkippedDocument
  pub conflicted : List ConflictedDocument

abbrev pub cdcs_of : Planned → List Text
cdcs_of p = map (λ d. d.cdc) p.lote.documents

abbrev pub conflicts : Planned → Option Text → AssembleLotesResult → AssembleLotesResult
conflicts p error r = record r {
  conflicted = map (λ c. record { cdc = c; error = error }) (cdcs_of p) ++ r.conflicted;
}

abbrev pub created :
    Planned → Result CreateError (Option Text) → AssembleLotesResult → AssembleLotesResult
created p (err e) r = conflicts p (some (describe_error e)) r
created p (ok none) r = conflicts p none r
created p (ok (some lote_id)) r = record r {
  lotes =
      record { lote_id = lote_id; document_type = p.lote.identity.document_type; cdcs = cdcs_of p }
      ∷ r.lotes;
}

-- The loop over the planned lotes; `create` is `createLote`.
unfoldable pub create_all :
    (Planned → Result CreateError (Option Text))
    → List SkippedDocument
    → List Planned
    → AssembleLotesResult
unfolding describe_error
create_all create skipped [] = record { lotes = []; skipped = skipped; conflicted = [] }
create_all create skipped (p ∷ ps) = created p (create p) (create_all create skipped ps)

-- The two calls of the store: `cdcs_in_process` answers the CDCs or the message of what it throws.
pub record AssembleDeps : Type 0 where
  pub cdcs_in_process : List Text → Result Text (List Text)
  pub measure_message : List Text → ℕ
  pub create_lote : Planned → Result CreateError (Option Text)

pub data AssembleError : Type 0 where
  not_filled : FillError → AssembleError
  not_looked_up : (message : Text) → AssembleError

abbrev pub or_not_filled {ℓ} : {A : Type ℓ} → Result FillError A → Result AssembleError A
or_not_filled (ok a) = ok a
or_not_filled (err e) = err (not_filled e)

abbrev pub or_not_looked_up : Result Text (List Text) → Result AssembleError (List Text)
or_not_looked_up (ok cdcs) = ok cdcs
or_not_looked_up (err message) = err (not_looked_up message)

-- `inProcess`: the store is not asked where no document is left.
abbrev pub in_process : AssembleDeps → List ReadyDocument → Result AssembleError (List Text)
in_process deps [] = ok []
in_process deps (d ∷ ds) = or_not_looked_up (deps.cdcs_in_process (map (λ d. d.cdc) (d ∷ ds)))

abbrev pub builder_deps : AssembleDeps → (in_process : List Text) → LoteBuilderDeps
builder_deps deps cdcs = record {
  is_in_process = has_cdc cdcs;
  measure_message = deps.measure_message;
}

-- From the documents that `clearResent` has kept; `skipped` is what it noted.
unfoldable pub assemble_cleared :
    AssembleDeps
    → List SkippedDocument
    → List ReadyDocument
    → Result AssembleError AssembleLotesResult
assemble_cleared deps skipped cleared = do
  cdcs ← in_process deps (valid_documents cleared).0
  groups ← or_not_filled (or_bad_cdc (group_by_ruc_and_type (valid_documents cleared).0))
  filled ←
      or_not_filled
        (fill_groups (builder_deps deps cdcs) [] (skipped ++ (valid_documents cleared).1) groups)
  ok (create_all deps.create_lote filled.1 filled.0)
