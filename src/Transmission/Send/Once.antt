-- ===== src/Transmission/Send/Once.antt =====
-- The workers that send one lote at the same time give it to SIFEN at most once.
use facturacion_sifen.Prelude.{
  ℕ, ◌+◌, ◌≤◌, ◌≡◌, refl, sym, ap, arith, Bool, true, false, Option, List, [], ◌∷◌, ◌++◌, Result,
  ok, err, ◌||◌, length, length-append, if◌then◌else◌, ◌∙◌, ◌>>=◌, >>=-eq-ok, ok-injective, map,
}
use facturacion_sifen.Prelude.Int.{ℤ}
use facturacion_sifen.Transmission.Row.{LoteStatus, LoteRow, is_pending, is_sending, is_unknown}
use facturacion_sifen.Transmission.Poll.{DocumentResolution}
use facturacion_sifen.Transmission.Poll.Store.{settle_document}
use facturacion_sifen.Transmission.Poll.Pacing.{record_poll-not_pending}
use facturacion_sifen.Transmission.Send.{
  RecordedOutcome, sent, rejected, unknown, Attempt, recorded, settles, deferred, attempt,
}
use facturacion_sifen.Transmission.Send.Store.{
  DispatchConfig, RucBlock, not_in_sending_or_unknown, not_in_sending, RecordError, claim, release,
  sweep, record_outcome, record_settled, columns_for, documents_after, block_after, as_record_error,
  settled_row, submitted,
}
use facturacion_sifen.Transmission.Send.Worker.{message_of}
use facturacion_sifen.Transmission.Send.Machine.{
  Stage, claimed, called, System, reaches, Step, claims, calls, releases, records,
  stores_settlement, misses_settlement, crashes, sweeps, polls, Steps, done, more, slot,
}

-- A worker that may still give the lote to SIFEN, or return its place.
abbrev weight : Stage → ℕ
weight claimed = 1
weight (called (deferred retry_at)) = 1
weight (called _) = 0

abbrev weights : List Stage → ℕ
weights [] = 0
weights (w ∷ ws) = weight w + weights ws

weights-append : (xs ys : List Stage) → weights (xs ++ ys) ≡ weights xs + weights ys
weights-append [] ys = omega arith
weights-append (x ∷ xs) ys = omega (arith, weights-append xs ys)

record IsSafe (s : System) : Type 0 where
  few : length s.workers + slot s.row.status ≤ 1
  once : s.reached + weights s.workers + slot s.row.status ≤ 1

one_of :
    (xs ys : List Stage) (w : Stage)
    → (length (xs ++ w ∷ ys) ≡ length (xs ++ ys) + 1)
      × (weights (xs ++ w ∷ ys) ≡ weights (xs ++ ys) + weight w)
one_of xs ys w = (
  omega (arith, length-append xs (w ∷ ys), length-append xs ys),
  omega (arith, weights-append xs (w ∷ ys), weights-append xs ys),
)

weight-called : (a : Attempt) → reaches a + weight (called a) ≡ 1
weight-called (recorded o) = refl
weight-called (settles resolution) = refl
weight-called (deferred retry_at) = refl

slot-false : (status : LoteStatus) → is_pending status ≡ false → slot status ≡ 0
slot-false status h = ground arith

record_outcome-slot :
    (config : DispatchConfig) (now : ℤ) (o : RecordedOutcome) (row next : LoteRow)
    (block : Option RucBlock)
    → record_outcome config now o row ≡ ok (next, block)
    → slot next.status ≡ 0
unfolding record_outcome
record_outcome-slot config now o row next block =
    pick (is_sending row.status || is_unknown row.status)
  where
    written : LoteRow
    written = record (columns_for o now row) {
      documents = documents_after config now o row.documents;
    }

    stored : Result RecordError (LoteRow × Option RucBlock)
    stored = ok (written, block_after config now o)

    of_outcome : (o : RecordedOutcome) → slot (columns_for o now row).status ≡ 0
    of_outcome (sent p) = refl
    of_outcome (rejected c r b) = refl
    of_outcome (unknown r) = refl

    pick :
        (b : Bool)
        → (if b then stored else err not_in_sending_or_unknown) ≡ ok (next, block)
        → slot next.status ≡ 0
    pick false h = cc
    pick true h =
        let same : written ≡ next = cc in ap (λ x. slot x.status) (sym same) ∙ of_outcome o

record_settled-slot :
    (now : ℤ) (resolution : DocumentResolution) (row next : LoteRow)
    → record_settled now resolution row ≡ ok next
    → slot next.status ≡ 0
unfolding record_settled
record_settled-slot now resolution row next = pick (is_sending row.status)
  where
    pick :
        (b : Bool)
        → (if b
            then as_record_error (settle_document (map submitted row.documents) resolution)
              >>= settled_row now row
            else err not_in_sending)
          ≡ ok next
        → slot next.status ≡ 0
    pick false h = cc
    pick true h =
        let (ds, settled, last) =
          >>=-eq-ok (as_record_error (settle_document (map submitted row.documents) resolution))
            (settled_row now row) h in
        ap (λ x. slot x.status) (sym (ok-injective last))

claim-slot :
    (now : ℤ) (row : LoteRow)
    → (claim now row).0 ≡ true
    → (slot row.status ≡ 1) × (slot (claim now row).1.status ≡ 0)
unfolding claim
claim-slot now row h = ground arith

release-slot : (row : LoteRow) → slot (release row).status ≤ 1
unfolding release
release-slot row = ground arith

sweep-slot : (row : LoteRow) → slot (sweep row).status ≤ slot row.status
unfolding sweep
sweep-slot row = ground arith

Step-IsSafe : {s t : System} → Step s t → IsSafe s → IsSafe t
Step-IsSafe (claims now s won) safe = record {
  few = omega (arith, claim-slot now s.row won, safe.few);
  once = omega (arith, claim-slot now s.row won, safe.once);
}
Step-IsSafe (calls u gateway d_id sync_enabled lote s xs ys w) safe =
    let a = attempt u gateway d_id sync_enabled lote in
    record {
      few = omega (arith, one_of xs ys claimed, one_of xs ys (called a), ap length w, safe.few);
      once = omega (
        arith,
        one_of xs ys claimed,
        one_of xs ys (called a),
        ap weights w,
        weight-called a,
        safe.once,
      );
    }
Step-IsSafe (releases retry_at s xs ys w) safe = record {
  few =
      omega (
        arith,
        one_of xs ys (called (deferred retry_at)),
        ap length w,
        safe.few,
        release-slot s.row,
      );
  once = omega (
    arith,
    one_of xs ys (called (deferred retry_at)),
    ap weights w,
    safe.once,
    release-slot s.row,
  );
}
Step-IsSafe (records config now o s xs ys next block w h) safe = record {
  few = omega (
    arith,
    one_of xs ys (called (recorded o)),
    ap length w,
    safe.few,
    record_outcome-slot config now o s.row next block h,
  );
  once = omega (
    arith,
    one_of xs ys (called (recorded o)),
    ap weights w,
    safe.once,
    record_outcome-slot config now o s.row next block h,
  );
}
Step-IsSafe (stores_settlement now resolution s xs ys next w h) safe = record {
  few = omega (
    arith,
    one_of xs ys (called (settles resolution)),
    ap length w,
    safe.few,
    record_settled-slot now resolution s.row next h,
  );
  once = omega (
    arith,
    one_of xs ys (called (settles resolution)),
    ap weights w,
    safe.once,
    record_settled-slot now resolution s.row next h,
  );
}
Step-IsSafe (misses_settlement now lote_id resolution s xs ys e w h) safe =
    let later = called (recorded (unknown (message_of lote_id e))) in
    record {
      few = omega (
        arith,
        one_of xs ys (called (settles resolution)),
        one_of xs ys later,
        ap length w,
        safe.few,
      );
      once = omega (
        arith,
        one_of xs ys (called (settles resolution)),
        one_of xs ys later,
        ap weights w,
        safe.once,
      );
    }
Step-IsSafe (crashes w s xs ys e) safe = record {
  few = omega (arith, one_of xs ys w, ap length e, safe.few);
  once = omega (arith, one_of xs ys w, ap weights e, safe.once);
}
Step-IsSafe (sweeps s) safe = record {
  few = omega (arith, sweep-slot s.row, safe.few);
  once = omega (arith, sweep-slot s.row, safe.once);
}
Step-IsSafe (polls o expected polled_at s next h) safe =
    let gone = slot-false next.status (record_poll-not_pending s.row o expected polled_at next h) in
    record { few = omega (arith, gone, safe.few); once = omega (arith, gone, safe.once) }

Steps-IsSafe : {s t : System} → Steps s t → IsSafe s → IsSafe t
Steps-IsSafe (done s) safe = safe
Steps-IsSafe (more s t r before last) safe = Step-IsSafe last (Steps-IsSafe before safe)

-- However many workers claim, call, crash and store in whatever order, with the sweep and the poll among
-- them, a lote that starts `pending` is given to SIFEN by one call of `execute` at most, and by none as
-- long as it is `pending`, also after a release; and never are two workers under way with it.
pub sent_once :
    (row : LoteRow) (t : System)
    → row.status ≡ LoteStatus.pending
    → Steps (record { row = row; workers = []; reached = 0 }) t
    → (t.reached + slot t.row.status ≤ 1) × (length t.workers + slot t.row.status ≤ 1)
sent_once row t free steps =
    let start : IsSafe (record { row = row; workers = []; reached = 0 }) = record {
      few = omega (arith, ap slot free);
      once = omega (arith, ap slot free);
    } in
    let safe = Steps-IsSafe steps start in (omega (arith, safe.once), omega (arith, safe.few))
