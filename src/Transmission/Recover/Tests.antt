-- ===== src/Transmission/Recover/Tests.antt =====
-- A pass over a lote of three documents, and the theorems at it.
use facturacion_sifen.Prelude.{
  leb, ℕ, ◌+◌, ◌≤◌, ◌≡◌, refl, Bool, true, false, none, some, List, [], ◌∷◌, map, Result, ok, Text,
  text_eq, codes, length, if◌then◌else◌,
}
use facturacion_sifen.Prelude.Interleaving.{Interleaves, AllOf}
use facturacion_sifen.Prelude.Int.{pos, ◌+ℤ◌}
use facturacion_sifen.Transmission.Row.{LoteStatus, DocumentStatus, DocumentRow, LoteRow}
use facturacion_sifen.Transmission.Poll.Store.{settle_document}
use facturacion_sifen.Transmission.Recover.{
  DeAnswer, LoteRecoveryOutcome, de_id_of, query, ask, refuses, assert_max_queries,
}
use facturacion_sifen.Transmission.Recover.Passes.{
  IsConfirmed, asked, ask-IsAccounted, AsksFirst, ask-AsksFirst,
}
use facturacion_sifen.Transmission.Recover.Store.{
  hold_or_resend, act_on, settle_resolved, record_recovery, execute, resent_row,
}
use facturacion_sifen.Prelude.Pointwise.{Pointwise}

operations : Unit {0}
unfolding de_id_of query ask refuses assert_max_queries hold_or_resend act_on settle_resolved
    record_recovery execute settle_document ◌+ℤ◌
operations = tt

own_id :
    de_id_of (codes "<rDE><dVerFor>150</dVerFor><DE Id=\"A\"><gTimb/></DE></rDE>")
    ≡ some (codes "A")
unfolding operations
own_id = refl

-- The last attribute of the element that is called `Id`, and no attribute whose name ends so.
other_ids : de_id_of (codes "<DEx Id=\"Z\"/><DE xId=\"C\" Id=\"B\">") ≡ some (codes "B")
unfolding operations
other_ids = refl

-- SIFEN holds A, has no approved DE for B, and is not asked about C.
abbrev answers : ℕ → Text → Result Text DeAnswer
answers index cdc =
    if text_eq cdc (codes "A")
    then ok
        (record { d_cod_res = codes "0422"; d_msg_res = []; xml_de = some (codes "<DE Id=\"A\">") })
    else ok (record { d_cod_res = codes "0420"; d_msg_res = []; xml_de = none })

abbrev never : ℕ → Bool
never index = false

abbrev three : List Text
three = codes "A" ∷ codes "B" ∷ codes "C" ∷ []

counts :
    (length (ask 2 never answers 0 three).resolutions ≡ 1)
    × (map (λ e. e.absent) (ask 2 never answers 0 three).unresolved ≡ true ∷ false ∷ [])
unfolding operations
counts = (refl, refl)

ask-IsAccounted_example :
    (let o = ask 2 never answers 0 three in
      Interleaves (map (λ r. r.cdc) o.resolutions) (map (λ e. e.cdc) o.unresolved) three
      × AllOf (IsConfirmed 2 never answers) o.resolutions
      × (length o.resolutions + asked o.unresolved ≤ 2))
ask-IsAccounted_example = ask-IsAccounted 2 never answers three

valid_cap : assert_max_queries (some 2) ≡ true
unfolding operations
valid_cap = refl

-- The lock is lost before the third document.
ask-AsksFirst_example : AsksFirst 2 three (ask 5 (λ n. leb 2 n) answers 0 three)
ask-AsksFirst_example = ask-AsksFirst 5 2 (λ n. leb 2 n) answers three (λ n. refl)

abbrev document : Text → DocumentRow
document cdc = record {
  cdc = cdc;
  status = DocumentStatus.submitted;
  transmission_attempts = 0;
  next_transmission_at = none;
  transmission_hold = none;
  resent_at = none;
  resent_after_seq = none;
  latest_seq = 7;
  sifen_messages = [];
}

abbrev lapsed : LoteRow
lapsed = record {
  seq = 7;
  created_at = pos 0;
  status = LoteStatus.recovery;
  sifen_protocol = some (codes "4500123");
  response_code = none;
  response_message = none;
  send_attempted_at = some (pos 1000);
  sent_at = some (pos 2000);
  next_poll_at = none;
  poll_deadline_at = some (pos 172802000);
  last_polled_at = none;
  last_poll_message = none;
  documents = document (codes "B") ∷ [];
}

abbrev absent_b : LoteRecoveryOutcome
absent_b = record {
  resolutions = [];
  unresolved =
      record { cdc = codes "B"; reason = codes "0420: "; absent = true; skipped = false } ∷ [];
}

-- Past the window the document is queued again, and the lote has nothing left to ask.
abbrev resent : LoteRow
resent = record lapsed {
  status = LoteStatus.processed;
  last_polled_at = some (pos 200000000);
  documents = resent_row (pos 200000000) (pos 200000001) (document (codes "B")) ∷ [];
}
