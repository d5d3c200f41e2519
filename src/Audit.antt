-- ===== src/Audit.antt =====
-- packages/db/src/audit-chain.ts: the check of a tenant's audit log, a chain of hashes. The log of the
-- tenant is a list of rows in the order of `seq`; the database's `audit_log_compute_hash` is a parameter,
-- a function of a row. The loop over the pages runs on fuel. The checks of the tenant's id and of the
-- session's rights come before and are left out.
pub mod Scan
pub mod Evidence
mod Tests
use facturacion_sifen.Prelude.{
  ℕ, zero, suc, ◌+◌, ◌-◌, Bool, true, false, not, Option, none, some, List, [], ◌∷◌, Result, ok,
  err, ltb, ◌==◌, ◌&&◌, ◌||◌, if◌then◌else◌, Text, text_eq, take, length, replicate,
}

pub data BreakReason : Type 0 where
  hash_mismatch broken_link checkpoint_mismatch : BreakReason

pub record AuditChainBreak : Type 0 where
  pub id : Text
  pub seq : ℕ
  pub reason : BreakReason

pub data AuditChainResult : Type 0 where
  intact : (rows head_seq : ℕ) (head_hash : Text) → AuditChainResult
  broken : (rows : ℕ) (broken_at : AuditChainBreak) → AuditChainResult

pub record AuditChainCheckpoint : Type 0 where
  pub seq : ℕ
  pub hash : Text

-- `content` is what the hash covers besides `id`, `seq` and `prev_hash`.
pub record ChainRow : Type 0 where
  pub id : Text
  pub seq : ℕ
  pub content : Text
  pub prev_hash : Text
  pub hash : Text

abbrev pub genesis_hash : Text
genesis_hash = replicate 64 b'0'

abbrev pub default_batch_size : ℕ
default_batch_size = 1000

-- `where seq > last`
unfoldable pub rows_after : ℕ → List ChainRow → List ChainRow
rows_after last [] = []
rows_after last (r ∷ rs) =
    let rest = rows_after last rs in if ltb last r.seq then r ∷ rest else rest

abbrev pub count_rows : List ChainRow → ℕ → ℕ
count_rows log last = length (rows_after last log)

-- `where seq = …`, the first row.
abbrev pub row_with : ℕ → List ChainRow → Option ChainRow
row_with seq [] = none
row_with seq (r ∷ rs) = let rest = row_with seq rs in if r.seq == seq then some r else rest

abbrev pub is_linked : ChainRow → Text → ℕ → Bool
is_linked row expected_prev last_seq =
    text_eq row.prev_hash expected_prev && (row.seq == last_seq + 1)

abbrev pub break_of : ChainRow → Bool → AuditChainBreak
break_of row linked = record {
  id = row.id;
  seq = row.seq;
  reason = if linked then hash_mismatch else broken_link;
}

-- The loop over the rows of a page, from the hash and the number expected before it.
unfoldable pub scan_page :
    (ChainRow → Text) → List ChainRow → Text → ℕ → Result AuditChainBreak (Text × ℕ)
scan_page compute [] expected_prev last_seq = ok (expected_prev, last_seq)
scan_page compute (row ∷ rows) expected_prev last_seq =
    let rest = scan_page compute rows row.hash row.seq in
    let linked = is_linked row expected_prev last_seq in
    if not linked || not (text_eq row.hash (compute row)) then err (break_of row linked) else rest

abbrev pub page : ℕ → ℕ → List ChainRow → List ChainRow
page batch_size last_seq log = take batch_size (rows_after last_seq log)

-- The loop over the pages; `none` when the fuel is used up.
unfoldable pub scan_pages :
    (ChainRow → Text)
    → List ChainRow
    → (batch_size first fuel : ℕ) → Text
    → ℕ
    → Option AuditChainResult
scan_pages compute log batch_size first zero expected_prev last_seq = none
scan_pages compute log batch_size first (suc fuel) expected_prev last_seq =
    elim (scan_page compute (page batch_size last_seq log) expected_prev last_seq) [
      | err broken_at ↦ some (broken (count_rows log first) broken_at)
      | ok (prev, last) ↦ elim (ltb (length (page batch_size last_seq log)) batch_size) [
        | true ↦ some (intact (last - first) last prev)
        | false ↦ scan_pages compute log batch_size first fuel prev last
      ]
    ]

-- The row of a checkpoint, when the log holds it and it has another hash.
abbrev pub mismatch : AuditChainCheckpoint → Option ChainRow → Option AuditChainBreak
mismatch checkpoint none = none
mismatch checkpoint (some row) =
    if text_eq row.hash checkpoint.hash
    then none
    else some (record { id = row.id; seq = checkpoint.seq; reason = checkpoint_mismatch })

unfoldable pub verify_audit_chain :
    (ChainRow → Text)
    → List ChainRow
    → Option AuditChainCheckpoint
    → (batch_size fuel : ℕ) → Option AuditChainResult
verify_audit_chain compute log none batch_size fuel =
    scan_pages compute log batch_size 0 fuel genesis_hash 0
verify_audit_chain compute log (some checkpoint) batch_size fuel =
    elim (mismatch checkpoint (row_with checkpoint.seq log)) [
      | some broken_at ↦ some (broken (count_rows log checkpoint.seq) broken_at)
      | none ↦ scan_pages compute log batch_size checkpoint.seq fuel checkpoint.hash checkpoint.seq
    ]
