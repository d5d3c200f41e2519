-- ===== src/Transmission/Recover.antt =====
-- apps/api/src/modules/transmission/application/recover-lote-by-cdc.ts: a lote whose outcome SIFEN never
-- confirmed is asked for document by document. The query of one CDC is a parameter that answers the
-- position and the CDC; `aborted` says at which positions the run has lost its lock.
pub mod Store
pub mod Passes
mod Tests
use facturacion_sifen.Prelude.{
  ℕ, suc, ◌+◌, Bool, true, false, not, Option, none, some, List, [], ◌∷◌, ◌++◌, Result, ok, err,
  ltb, leb, ◌==◌, ◌&&◌, ◌||◌, if◌then◌else◌, Text, text_eq, codes, drop,
}
use facturacion_sifen.Prelude.Int.{ℤ, pos, ◌+ℤ◌, ltb_ℤ}
use facturacion_sifen.Transmission.Row.{LoteStatus, SifenMessage}
use facturacion_sifen.Transmission.Poll.{ResolutionStatus, DocumentResolution, capped}
use facturacion_sifen.Transmission.Send.{is_word}

-- `QUERY_INTERVAL_MS`
abbrev pub query_interval : ℕ
query_interval = 600000

abbrev pub default_max_queries : ℕ
default_max_queries = 20

-- `RECOVERABLE_STATUSES`
abbrev pub recoverable_status : LoteStatus → Bool
recoverable_status LoteStatus.recovery = true
recoverable_status LoteStatus.unknown = true
recoverable_status LoteStatus.processed = true
recoverable_status _ = false

abbrev pub is_processed : LoteStatus → Bool
is_processed LoteStatus.processed = true
is_processed _ = false

pub record LoteRecoveryState : Type 0 where
  pub status : LoteStatus
  pub last_polled_at : Option ℤ
  pub cdcs : List Text

pub record UnresolvedCdc : Type 0 where
  pub cdc : Text
  pub reason : Text
  pub absent : Bool
  pub skipped : Bool

pub record LoteRecoveryOutcome : Type 0 where
  pub resolutions : List DocumentResolution
  pub unresolved : List UnresolvedCdc

-- The answer of `consultarDE`.
pub record DeAnswer : Type 0 where
  pub d_cod_res : Text
  pub d_msg_res : Text
  pub xml_de : Option Text

abbrev pub starts : (prefix text : Text) → Bool
starts [] text = true
starts (p ∷ ps) [] = false
starts (p ∷ ps) (c ∷ cs) = (p == c) && starts ps cs

abbrev pub is_empty : List Text → Bool
is_empty [] = true
is_empty (c ∷ cs) = false

-- `[^"]*"`: the text before the next quote, where there is one.
abbrev pub until_quote : Text → Option Text
until_quote [] = none
until_quote (c ∷ cs) =
    let rest = until_quote cs in
    if c == b'"' then some [] else elim rest [ none ↦ none | some more ↦ some (c ∷ more) ]

-- `[^>]*\bId="([^"]*)"`: the last `Id="` before the next `>` that a quote closes, since the star is
-- greedy; `before` is the character in front, which must not be of a word.
abbrev pub attribute_id : (before : ℕ) → Text → Option Text
attribute_id before [] = none
attribute_id before (c ∷ cs) =
    let here =
      if not (is_word before) && starts (codes "Id=\"") (c ∷ cs)
      then until_quote (drop 4 (c ∷ cs))
      else none in
    let rest = if c == b'>' then none else attribute_id c cs in
    elim rest [ none ↦ here | some id ↦ some id ]

-- `<DE\b`
abbrev pub opens_de : Text → Bool
opens_de (l ∷ d ∷ e ∷ []) = (l == b'<') && (d == b'D') && (e == b'E')
opens_de (l ∷ d ∷ e ∷ c ∷ cs) = (l == b'<') && (d == b'D') && (e == b'E') && not (is_word c)
opens_de _ = false

-- `deIdOf`: the first `<DE` from which the rest of the expression matches.
unfoldable pub de_id_of : Text → Option Text
de_id_of [] = none
de_id_of (c ∷ cs) =
    let rest = de_id_of cs in
    if opens_de (c ∷ cs)
    then elim (attribute_id b'E' (drop 3 (c ∷ cs))) [ none ↦ rest | some id ↦ some id ]
    else rest

-- `xmlDE !== null && deIdOf(xmlDE) === cdc`
abbrev pub is_text : Option Text → Text → Bool
is_text none cdc = false
is_text (some id) cdc = text_eq id cdc

abbrev pub is_de_of : Option Text → Text → Bool
is_de_of none cdc = false
is_de_of (some xml) cdc = is_text (de_id_of xml) cdc

pub data Queried : Type 0 where
  resolved : DocumentResolution → Queried
  still_open : (reason : Text) (absent : Bool) → Queried

-- `query`, on the answer; the error carries the name of its class.
unfoldable pub query : Text → Result Text DeAnswer → Queried
query cdc (err kind) = still_open (codes "Query failed (" ++ kind ++ codes ")") false
query cdc (ok answer) =
    if text_eq answer.d_cod_res (codes "0422") && is_de_of answer.xml_de cdc
    then resolved (record {
      cdc = cdc;
      status = ResolutionStatus.approved;
      messages = record { code = answer.d_cod_res; message = capped answer.d_msg_res } ∷ [];
    })
    else still_open (answer.d_cod_res ++ codes ": " ++ capped answer.d_msg_res)
        (text_eq answer.d_cod_res (codes "0420"))

abbrev pub no_outcome : LoteRecoveryOutcome
no_outcome = record { resolutions = []; unresolved = [] }

abbrev pub with_answer : Text → Queried → LoteRecoveryOutcome → LoteRecoveryOutcome
with_answer cdc (resolved r) o = record o { resolutions = r ∷ o.resolutions }
with_answer cdc (still_open reason absent) o = record o {
  unresolved =
      record { cdc = cdc; reason = reason; absent = absent; skipped = false } ∷ o.unresolved;
}

abbrev pub with_skipped : Text → LoteRecoveryOutcome → LoteRecoveryOutcome
with_skipped cdc o = record o {
  unresolved =
      record {
        cdc = cdc;
        reason = codes "Not queried in this pass";
        absent = false;
        skipped = true;
      }
      ∷ o.unresolved;
}

-- The loop over `lote.cdcs.entries()`, from the index on.
unfoldable pub ask :
    (cap : ℕ)
    → (aborted : ℕ → Bool) → (answer : ℕ → Text → Result Text DeAnswer) → (index : ℕ) → List Text
    → LoteRecoveryOutcome
unfolding query
ask cap aborted answer index [] = no_outcome
ask cap aborted answer index (cdc ∷ cdcs) =
    let rest = ask cap aborted answer (index + 1) cdcs in
    if leb cap index || aborted index
    then with_skipped cdc rest
    else with_answer cdc (query cdc (answer index cdc)) rest

pub data RecoverResult : Type 0 where
  recovered incomplete : LoteRecoveryOutcome → RecoverResult
  not_found not_recoverable not_due stale run_aborted : RecoverResult

abbrev pub is_early : ℤ → Option ℤ → Bool
is_early now none = false
is_early now (some at) = ltb_ℤ now (at +ℤ pos query_interval)

-- What `execute` answers before it asks, where it does not ask.
unfoldable pub refuses : (aborted : Bool) → ℤ → Option LoteRecoveryState → Option RecoverResult
refuses true now lote = some run_aborted
refuses false now none = some not_found
refuses false now (some lote) =
    if not (recoverable_status lote.status)
    then some not_recoverable
    else if is_processed lote.status && is_empty lote.cdcs
    then some not_recoverable
    else if is_early now lote.last_polled_at
    then some not_due
    else none

-- `assertMaxQueries`, for a whole number.
unfoldable pub assert_max_queries : Option ℕ → Bool
assert_max_queries none = true
assert_max_queries (some n) = not (ltb n 1)

abbrev pub cap_of : Option ℕ → ℕ
cap_of none = default_max_queries
cap_of (some n) = n
