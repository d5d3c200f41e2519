-- ===== src/Transmission/Row.antt =====
-- packages/db/src/schema.ts: the row of a lote with the rows of the documents that it carries, in the
-- columns that the transmission reads and writes. Instants are milliseconds; `updated_at` and the audit
-- rows are left out, and so are the webhooks that a change of status leaves in the outbox.
use facturacion_sifen.Prelude.{
  ℕ, Bool, true, false, Option, none, some, List, [], ◌∷◌, if◌then◌else◌, Text, text_eq, codes, ◌≡◌,
  refl,
}
use facturacion_sifen.Prelude.Pointwise.{Pointwise, none_joined, one_by_one}
use facturacion_sifen.Prelude.Int.{ℤ}

pub data LoteStatus : Type 0 where
  pending sending sent rejected unknown processed recovery : LoteStatus

pub data DocumentStatus : Type 0 where
  accepted signed queued submitted approved approved_with_observations : DocumentStatus
  rejected corrected number_voided cancelled : DocumentStatus

-- One pair of `sifen_messages`.
pub record SifenMessage : Type 0 where
  pub code : Text
  pub message : Text

pub record DocumentRow : Type 0 where
  pub cdc : Text
  pub status : DocumentStatus
  pub transmission_attempts : ℕ
  pub next_transmission_at : Option ℤ
  pub transmission_hold : Option Text
  pub resent_at : Option ℤ
  pub resent_after_seq : Option ℕ
  pub latest_seq : ℕ  -- the greatest `seq` of the lotes that carry the document
  pub sifen_messages : List SifenMessage

pub record LoteRow : Type 0 where
  pub seq : ℕ
  pub created_at : ℤ
  pub status : LoteStatus
  pub sifen_protocol : Option Text
  pub response_code : Option Text
  pub response_message : Option Text
  pub send_attempted_at : Option ℤ
  pub sent_at : Option ℤ
  pub next_poll_at : Option ℤ
  pub poll_deadline_at : Option ℤ
  pub last_polled_at : Option ℤ
  pub last_poll_message : Option Text
  pub documents : List DocumentRow

abbrev pub is_pending : LoteStatus → Bool
is_pending LoteStatus.pending = true
is_pending _ = false

abbrev pub is_sending : LoteStatus → Bool
is_sending LoteStatus.sending = true
is_sending _ = false

abbrev pub is_sent : LoteStatus → Bool
is_sent LoteStatus.sent = true
is_sent _ = false

abbrev pub is_unknown : LoteStatus → Bool
is_unknown LoteStatus.unknown = true
is_unknown _ = false

-- The statuses of a lote are compared by a number of each.
abbrev pub lote_rank : LoteStatus → ℕ
lote_rank LoteStatus.pending = 0
lote_rank LoteStatus.sending = 1
lote_rank LoteStatus.sent = 2
lote_rank LoteStatus.rejected = 3
lote_rank LoteStatus.unknown = 4
lote_rank LoteStatus.processed = 5
lote_rank LoteStatus.recovery = 6

abbrev pub is_queued : DocumentStatus → Bool
is_queued DocumentStatus.queued = true
is_queued _ = false

abbrev pub is_submitted : DocumentStatus → Bool
is_submitted DocumentStatus.submitted = true
is_submitted _ = false

-- The statuses of a document are compared by a number of each.
abbrev pub rank : DocumentStatus → ℕ
rank DocumentStatus.accepted = 0
rank DocumentStatus.signed = 1
rank DocumentStatus.queued = 2
rank DocumentStatus.submitted = 3
rank DocumentStatus.approved = 4
rank DocumentStatus.approved_with_observations = 5
rank DocumentStatus.rejected = 6
rank DocumentStatus.corrected = 7
rank DocumentStatus.number_voided = 8
rank DocumentStatus.cancelled = 9

abbrev pub document_status_name : DocumentStatus → Text
document_status_name DocumentStatus.accepted = codes "accepted"
document_status_name DocumentStatus.signed = codes "signed"
document_status_name DocumentStatus.queued = codes "queued"
document_status_name DocumentStatus.submitted = codes "submitted"
document_status_name DocumentStatus.approved = codes "approved"
document_status_name DocumentStatus.approved_with_observations = codes "approved_with_observations"
document_status_name DocumentStatus.rejected = codes "rejected"
document_status_name DocumentStatus.corrected = codes "corrected"
document_status_name DocumentStatus.number_voided = codes "number_voided"
document_status_name DocumentStatus.cancelled = codes "cancelled"

-- The document of the lote with this CDC; the rows of one tenant have distinct CDCs.
abbrev pub document_with : Text → List DocumentRow → Option DocumentRow
document_with cdc [] = none
document_with cdc (d ∷ ds) =
    let rest = document_with cdc ds in if text_eq d.cdc cdc then some d else rest

-- `UPDATE … WHERE cdc = …`
abbrev pub update_document :
    Text → (DocumentRow → DocumentRow) → List DocumentRow → List DocumentRow
update_document cdc f [] = []
update_document cdc f (d ∷ ds) =
    let rest = update_document cdc f ds in if text_eq d.cdc cdc then f d ∷ rest else d ∷ rest

-- An update by CDC, where it touches and where it does not.
pub update_document-Pointwise :
    (R : DocumentRow → DocumentRow → Type 0) (cdc : Text) (f : DocumentRow → DocumentRow)
    (ds : List DocumentRow)
    → ((d : DocumentRow) → text_eq d.cdc cdc ≡ true → R d (f d))
    → ((d : DocumentRow) → text_eq d.cdc cdc ≡ false → R d d)
    → Pointwise R ds (update_document cdc f ds)
update_document-Pointwise R cdc f [] touched other = none_joined
update_document-Pointwise R cdc f (d ∷ ds) touched other =
    pick (text_eq d.cdc cdc) refl (update_document-Pointwise R cdc f ds touched other)
  where
    rest : List DocumentRow
    rest = update_document cdc f ds

    pick :
        (b : Bool)
        → text_eq d.cdc cdc ≡ b
        → Pointwise R ds rest
        → Pointwise R (d ∷ ds) (if b then f d ∷ rest else d ∷ rest)
    pick true e p = one_by_one d (f d) ds rest (touched d e) p
    pick false e p = one_by_one d d ds rest (other d e) p
