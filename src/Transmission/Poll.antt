-- ===== src/Transmission/Poll.antt =====
-- apps/api/src/modules/transmission/application/poll-lote-result.ts: one query for the result of a lote,
-- and what its answer settles. The tables of Unicode (the marks that `normalize('NFD')` splits off, the
-- lower case) are parameters; instants are milliseconds, and a reading of the clock is an argument.
pub mod Store
pub mod Resolving
pub mod Outcome
pub mod Pacing
mod Tests
use facturacion_sifen.Prelude.{
  ℕ, Bool, true, false, not, Option, none, some, List, [], ◌∷◌, ◌++◌, map, Result, ok, err, ◌&&◌,
  if◌then◌else◌, Text, text_eq, codes, trim, take,
}
use facturacion_sifen.Prelude.Int.{ℤ, pos, ◌+ℤ◌, ltb_ℤ}
use facturacion_sifen.Transmission.Lote.{has_cdc}
use facturacion_sifen.Transmission.Row.{LoteStatus, SifenMessage, is_sent}

-- `POLL_INTERVAL_MS`
abbrev pub poll_interval : ℕ
poll_interval = 600000

-- `capped`
abbrev pub capped : Text → Text
capped message = take 500 message

pub data ResolutionStatus : Type 0 where
  approved approved_with_observations rejected : ResolutionStatus

pub record DocumentResolution : Type 0 where
  pub cdc : Text
  pub status : ResolutionStatus
  pub messages : List SifenMessage

-- What the tables of Unicode give: the decomposed text without its characters of the class
-- `\p{Diacritic}`, or of the class `\p{M}`, and the text in lower case.
pub record Unicode : Type 0 where
  pub strip_diacritics : Text → Text
  pub strip_marks : Text → Text
  pub to_lower_case : Text → Text

unfoldable pub document_status_of : Unicode → Text → Option ResolutionStatus
document_status_of u d_est_res =
    let normalized = u.to_lower_case (trim (u.strip_diacritics d_est_res)) in
    if text_eq normalized (codes "aprobado")
    then some approved
    else if text_eq normalized (codes "aprobado con observacion")
    then some approved_with_observations
    else if text_eq normalized (codes "rechazado")
    then some rejected
    else none

-- One document of the answer of `consultarLote`.
pub record LoteResult : Type 0 where
  pub cdc : Text
  pub d_est_res : Text
  pub mensajes : List SifenMessage

pub record SifenLoteResult : Type 0 where
  pub d_cod_res : Text
  pub d_msg_res : Text
  pub resultados : List LoteResult

abbrev pub status_eq : ResolutionStatus → ResolutionStatus → Bool
status_eq approved approved = true
status_eq approved_with_observations approved_with_observations = true
status_eq rejected rejected = true
status_eq _ _ = false

-- `previous.status === status`, where `status` may be null.
abbrev pub is_status : ResolutionStatus → Option ResolutionStatus → Bool
is_status s none = false
is_status s (some t) = status_eq s t

-- A `Map` from CDCs, in the order of insertion; `none` is the stored null.
abbrev pub Entry : Type 0
Entry = Text × Option DocumentResolution

-- `byCdc.get(cdc)`: the outer `none` is undefined.
abbrev pub lookup : List Entry → Text → Option (Option DocumentResolution)
lookup [] cdc = none
lookup ((k, v) ∷ es) cdc = if text_eq k cdc then some v else lookup es cdc

-- `byCdc.set(cdc, value)`
abbrev pub put : List Entry → Text → Option DocumentResolution → List Entry
put [] cdc v = (cdc, v) ∷ []
put ((k, w) ∷ es) cdc v = if text_eq k cdc then (k, v) ∷ es else (k, w) ∷ put es cdc v

-- `status && { cdc, status, messages }`
abbrev pub resolution_of : LoteResult → Option ResolutionStatus → Option DocumentResolution
resolution_of result none = none
resolution_of result (some status) =
    some (record { cdc = result.cdc; status = status; messages = result.mensajes })

-- The body of the loop, for a result that the lote has.
abbrev pub merge :
    List Entry
    → LoteResult
    → Option ResolutionStatus
    → (previous : Option (Option DocumentResolution)) → List Entry
merge by_cdc result status none = put by_cdc result.cdc (resolution_of result status)
merge by_cdc result status (some none) = put by_cdc result.cdc none
merge by_cdc result status (some (some previous)) =
    if is_status previous.status status then by_cdc else put by_cdc result.cdc none

unfoldable pub collect : Unicode → List Text → List LoteResult → List Entry → List Entry
collect u cdcs [] by_cdc = by_cdc
collect u cdcs (result ∷ results) by_cdc = collect u cdcs results (
    if has_cdc cdcs result.cdc
    then merge by_cdc result (document_status_of u result.d_est_res) (lookup by_cdc result.cdc)
    else by_cdc)

-- `[...byCdc.values()].filter((r) => r !== null)`
abbrev pub settled_values : List Entry → List DocumentResolution
settled_values [] = []
settled_values ((k, none) ∷ es) = settled_values es
settled_values ((k, some r) ∷ es) = r ∷ settled_values es

-- `cdcs.filter((cdc) => !settled.has(cdc))`
abbrev pub unsettled : List Text → List Text → List Text
unsettled settled [] = []
unsettled settled (cdc ∷ cdcs) =
    let rest = unsettled settled cdcs in if has_cdc settled cdc then rest else cdc ∷ rest

pub data LotePollOutcome : Type 0 where
  pending : (next_poll_at : ℤ) (reason : Text) → LotePollOutcome
  processed : (resolutions : List DocumentResolution) (needs_recovery : List Text) → LotePollOutcome
  recovery : (reason : Text) → LotePollOutcome

unfoldable pub resolve : Unicode → SifenLoteResult → List Text → LotePollOutcome
resolve u answer cdcs =
    let resolutions = settled_values (collect u cdcs answer.resultados []) in
    processed resolutions (unsettled (map (λ r. r.cdc) resolutions) cdcs)

-- `this.pending`
abbrev pub pending_at : ℤ → Text → LotePollOutcome
pending_at now reason = pending (now +ℤ pos poll_interval) reason

-- `${code}: ${capped(message)}`
abbrev answer_text : SifenLoteResult → Text
answer_text answer = answer.d_cod_res ++ codes ": " ++ capped answer.d_msg_res

unfoldable pub interpret : Unicode → SifenLoteResult → List Text → ℤ → LotePollOutcome
interpret u answer cdcs now =
    if text_eq answer.d_cod_res (codes "0361")
    then pending_at now (answer_text answer)
    else if text_eq answer.d_cod_res (codes "0362")
    then resolve u answer cdcs
    else if text_eq answer.d_cod_res (codes "0364")
    then recovery (answer_text answer)
    else if text_eq answer.d_cod_res (codes "0360")
    then recovery (answer_text answer)
    else pending_at now (codes "Unexpected siResultLoteDE " ++ answer_text answer)

pub record LotePollState : Type 0 where
  pub status : LoteStatus
  pub d_prot_cons_lote : Option Text
  pub next_poll_at : Option ℤ
  pub poll_deadline_at : Option ℤ
  pub cdcs : List Text

pub data PollResult : Type 0 where
  outcome : LotePollOutcome → PollResult
  not_found not_pollable not_due stale : PollResult

-- The query: the error carries the name of its class.
abbrev pub Query : Type 0
Query = Text → Result Text SifenLoteResult

-- `now > lote.pollDeadlineAt`, where there is a deadline.
abbrev pub is_past : ℤ → Option ℤ → Bool
is_past now none = false
is_past now (some deadline) = ltb_ℤ deadline now

abbrev pub asked : Unicode → List Text → ℤ → Result Text SifenLoteResult → LotePollOutcome
asked u cdcs now (ok answer) = interpret u answer cdcs now
asked u cdcs now (err kind) = pending_at now (codes "Lote query failed (" ++ kind ++ codes ")")

-- What `execute` does with the lote that it loaded: an early answer, or the outcome that it stores
-- together with the schedule that the write expects. An empty protocol is falsy.
pub data Decision : Type 0 where
  answers : PollResult → Decision
  settles : (expected_next_poll_at : ℤ) → LotePollOutcome → Decision

abbrev pub due : Unicode → Query → ℤ → List Text → Text → ℤ → Option ℤ → Decision
due u query now cdcs protocol next_poll_at deadline =
    if ltb_ℤ now next_poll_at
    then answers not_due
    else if is_past now deadline
    then settles next_poll_at
        (recovery (codes "The 48 h lote query window elapsed; query each CDC (0364 would follow)"))
    else settles next_poll_at (asked u cdcs now (query protocol))

-- `!lote.dProtConsLote || !lote.nextPollAt`: an empty protocol is falsy.
abbrev pub pollable : Option Text → Option ℤ → Option (Text × ℤ)
pollable (some (c ∷ cs)) (some at) = some (c ∷ cs, at)
pollable _ _ = none

unfoldable pub decide : Unicode → Query → ℤ → Option LotePollState → Decision
decide u query now none = answers not_found
decide u query now (some lote) =
    if not (is_sent lote.status)
    then answers not_pollable
    else elim (pollable lote.d_prot_cons_lote lote.next_poll_at) [
      | none ↦ answers not_pollable
      | some (protocol, at) ↦ due u query now lote.cdcs protocol at lote.poll_deadline_at
    ]
