-- ===== src/Transmission/Poll/Pacing.antt =====
-- The queries of one lote in time: `execute` of poll-lote-result.ts with the write that it guards.
use facturacion_sifen.Prelude.{
  ◌+◌, ◌≡◌, ◌⊎◌, inl, inr, refl, sym, ap, ◌∙◌, subst, arith, Bool, true, false, not, ◌&&◌, Option,
  none, some, List, [], ◌∷◌, if_both, Result, ok, err, ◌>>=◌, >>=-eq-ok, ok-injective,
  if◌then◌else◌, Text, text_eq, codes, Bool-cases,
}
use facturacion_sifen.Prelude.Int.{
  ℤ, pos, ◌+ℤ◌, ◌≤ℤ◌, ltb_ℤ, eqb_ℤ, int_laws, ltb_ℤ_false, pos_part, neg_part,
}
use facturacion_sifen.Transmission.Row.{LoteStatus, DocumentRow, LoteRow, is_pending, is_sent}
use facturacion_sifen.Transmission.Poll.{
  LotePollOutcome, pending, processed, recovery, LotePollState, PollResult, outcome, not_pollable,
  not_due, Unicode, SifenLoteResult, Query, Decision, answers, settles, poll_interval, interpret,
  resolve, is_past, asked, pollable, due, decide,
}
use facturacion_sifen.Transmission.Poll.Store.{
  SettleError, columns_for, same_instant, resolutions_of, settle_all, record_poll, poll_state,
  answered, carry_out, execute,
}

-- A lote that goes on being queried is queried again ten minutes after `now`.
abbrev pub IsPaced : ℤ → LotePollOutcome → Type 0
IsPaced now (pending at reason) = at ≡ now +ℤ pos poll_interval
IsPaced now _ = Unit {0}

interpret-IsPaced :
    (u : Unicode) (answer : SifenLoteResult) (cdcs : List Text) (now : ℤ)
    → IsPaced now (interpret u answer cdcs now)
unfolding interpret resolve
interpret-IsPaced u answer cdcs now =
    if_both (IsPaced now) (text_eq answer.d_cod_res (codes "0361")) _ _ refl (
      if_both (IsPaced now) (text_eq answer.d_cod_res (codes "0362")) _ _ tt (
        if_both (IsPaced now) (text_eq answer.d_cod_res (codes "0364")) _ _ tt
          (if_both (IsPaced now) (text_eq answer.d_cod_res (codes "0360")) _ _ tt refl)))

asked-IsPaced :
    (u : Unicode) (cdcs : List Text) (now : ℤ) (r : Result Text SifenLoteResult)
    → IsPaced now (asked u cdcs now r)
asked-IsPaced u cdcs now (ok answer) = interpret-IsPaced u answer cdcs now
asked-IsPaced u cdcs now (err kind) = refl

-- What is known of a lote whose query has an outcome.
record Settles (lote : LotePollState) (now expected : ℤ) (o : LotePollOutcome) : Type 0 where
  is_sent_lote : is_sent lote.status ≡ true
  scheduled : lote.next_poll_at ≡ some expected
  is_due : expected ≤ℤ now
  paced : IsPaced now o

settles-injective :
    {a b : ℤ} {o p : LotePollOutcome} → settles a o ≡ settles b p → (a ≡ b) × (o ≡ p)
settles-injective h = (cc, cc)

due-settles :
    (u : Unicode) (query : Query) (now : ℤ) (cdcs : List Text) (protocol : Text) (at : ℤ)
    (deadline : Option ℤ) (expected : ℤ) (o : LotePollOutcome)
    → due u query now cdcs protocol at deadline ≡ settles expected o
    → (at ≡ expected) × (at ≤ℤ now) × IsPaced now o
due-settles u query now cdcs protocol at deadline expected o =
    pick (ltb_ℤ now at) (is_past now deadline) refl
  where
    lapsed : Text
    lapsed = codes "The 48 h lote query window elapsed; query each CDC (0364 would follow)"

    with_outcome :
        (x : LotePollOutcome)
        → IsPaced now x
        → ltb_ℤ now at ≡ false
        → settles at x ≡ settles expected o
        → (at ≡ expected) × (at ≤ℤ now) × IsPaced now o
    with_outcome x p e h = (
      (settles-injective h).0,
      ltb_ℤ_false now at e,
      subst (IsPaced now) ((settles-injective h).1) p,
    )

    pick :
        (b past : Bool)
        → ltb_ℤ now at ≡ b
        → (if b
            then answers not_due
            else if past
            then settles at (recovery lapsed)
            else settles at (asked u cdcs now (query protocol)))
          ≡ settles expected o
        → (at ≡ expected) × (at ≤ℤ now) × IsPaced now o
    pick true past e h = cc
    pick false true e h = with_outcome (recovery lapsed) tt e h
    pick false false e h =
        with_outcome (asked u cdcs now (query protocol)) (asked-IsPaced u cdcs now (query protocol))
          e h

pollable-some :
    (protocol : Option Text) (next_poll_at : Option ℤ) {t : Text} {at : ℤ}
    → pollable protocol next_poll_at ≡ some (t, at)
    → next_poll_at ≡ some at
pollable-some (some (c ∷ cs)) (some b) h = cc
pollable-some (some []) (some b) h = cc
pollable-some (some []) none h = cc
pollable-some (some (c ∷ cs)) none h = cc
pollable-some none (some b) h = cc
pollable-some none none h = cc

decide-Settles :
    (u : Unicode) (query : Query) (now : ℤ) (lote : LotePollState) (expected : ℤ)
    (o : LotePollOutcome)
    → decide u query now (some lote) ≡ settles expected o
    → Settles lote now expected o
unfolding decide
decide-Settles u query now lote expected o =
    pick (is_sent lote.status) (pollable lote.d_prot_cons_lote lote.next_poll_at) refl refl
  where
    pick :
        (b : Bool) (p : Option (Text × ℤ))
        → is_sent lote.status ≡ b
        → pollable lote.d_prot_cons_lote lote.next_poll_at ≡ p
        → (if not b then answers not_pollable else elim p [
          | none ↦ answers not_pollable
          | some (protocol, at) ↦ due u query now lote.cdcs protocol at lote.poll_deadline_at
        ])
          ≡ settles expected o
        → Settles lote now expected o
    pick false p s e h = cc
    pick true none s e h = cc
    pick true (some (protocol, at)) s e h =
        let (same, early, paced) =
          due-settles u query now lote.cdcs protocol at lote.poll_deadline_at expected o h in
        record {
          is_sent_lote = s;
          scheduled = pollable-some lote.d_prot_cons_lote lote.next_poll_at e ∙ ap some same;
          is_due = subst (λ x. x ≤ℤ now) same early;
          paced = paced;
        }

-- What a write of an outcome needs and leaves.
record Writes (row : LoteRow) (o : LotePollOutcome) (expected polled_at : ℤ) (next : LoteRow)
    : Type 0 where
  still_sent : is_sent row.status ≡ true
  unmoved : same_instant row.next_poll_at expected ≡ true
  documents : List DocumentRow
  written : next ≡ record (columns_for o polled_at row) { documents = documents }

record_poll-Writes :
    (row : LoteRow) (o : LotePollOutcome) (expected polled_at : ℤ) (next : LoteRow)
    → record_poll row o expected polled_at ≡ ok (some next)
    → Writes row o expected polled_at next
unfolding record_poll
record_poll-Writes row o expected polled_at next =
    pick (is_sent row.status) (same_instant row.next_poll_at expected) refl refl
  where
    write : List DocumentRow → Result SettleError (Option LoteRow)
    write documents = ok (some (record (columns_for o polled_at row) { documents = documents }))

    pick :
        (b c : Bool)
        → is_sent row.status ≡ b
        → same_instant row.next_poll_at expected ≡ c
        → (if b && c then settle_all row.documents (resolutions_of o) >>= write else ok none)
          ≡ ok (some next)
        → Writes row o expected polled_at next
    pick false c s m h = cc
    pick true false s m h = cc
    pick true true s m h =
        let (documents, done, last) =
          >>=-eq-ok (settle_all row.documents (resolutions_of o)) write h in
        record { still_sent = s; unmoved = m; documents = documents; written = cc }

-- No outcome: the row that another worker may have written stays.
abbrev pub is_outcome : PollResult → Bool
is_outcome (outcome o) = true
is_outcome _ = false

answered_cases :
    (row : LoteRow) (o : LotePollOutcome) (w : Option LoteRow) {r : PollResult} {next : LoteRow}
    → answered row o w ≡ (r, next)
    → ((is_outcome r ≡ false) × (next ≡ row)) ⊎ ((r ≡ outcome o) × (w ≡ some next))
answered_cases row o none h = inl (ap (λ x. is_outcome x.0) (sym h), ap (λ x. x.1) (sym h))
answered_cases row o (some n) h = inr (ap (λ x. x.0) (sym h), ap some (ap (λ x. x.1) h))

early_answer :
    (u : Unicode) (query : Query) (now : ℤ) (lote : LotePollState) (r : PollResult)
    → decide u query now (some lote) ≡ answers r
    → is_outcome r ≡ false
unfolding decide
early_answer u query now lote r h = ground arith

-- What a query that ends did: nothing, or the write of an outcome.
record Ends (u : Unicode) (query : Query) (now polled_at : ℤ) (row later next : LoteRow)
    (o : LotePollOutcome) : Type 0 where
  expected : ℤ
  settled : Settles (poll_state row) now expected o
  wrote : Writes later o expected polled_at next

execute_cases :
    (u : Unicode) (query : Query) (now polled_at : ℤ) (row later : LoteRow) {r : PollResult}
    {next : LoteRow}
    → execute u query now polled_at row later ≡ ok (r, next)
    → ((is_outcome r ≡ false) × (next ≡ later))
      ⊎ ((o : LotePollOutcome) × (r ≡ outcome o) × Ends u query now polled_at row later next o)
unfolding execute
execute_cases u query now polled_at row later {r = r} {next = next} =
    pick (decide u query now (some (poll_state row))) refl
  where
    pick :
        (d : Decision)
        → decide u query now (some (poll_state row)) ≡ d
        → carry_out later polled_at d ≡ ok (r, next)
        → ((is_outcome r ≡ false) × (next ≡ later))
          ⊎ ((o : LotePollOutcome) × (r ≡ outcome o) × Ends u query now polled_at row later next o)
    pick (answers x) e h =
        let same = ok-injective h in
        inl (
          subst (λ y. is_outcome y ≡ false) (ap (λ y. y.0) same)
              (early_answer u query now (poll_state row) x e),
          ap (λ y. y.1) (sym same),
        )
    pick (settles at o) e h =
        let (w, written, last) =
          >>=-eq-ok (record_poll later o at polled_at) (λ w. ok (answered later o w)) h in
        elim (answered_cases later o w (ok-injective last)) [
          | inl nothing ↦ inl nothing
          | inr (is, wrote) ↦ inr (
            o,
            is,
            record {
              expected = at;
              settled = decide-Settles u query now (poll_state row) at o e;
              wrote = record_poll-Writes later o at polled_at next (written ∙ ap ok wrote);
            },
          )
        ]

-- The row that an outcome leaves is not due before ten minutes have passed.
abbrev pub IsQuiet : ℤ → LoteRow → Type 0
IsQuiet now row =
    ((is_sent row.status ≡ false) × (row.next_poll_at ≡ none))
    ⊎ (row.next_poll_at ≡ some (now +ℤ pos poll_interval))

columns_for-IsQuiet :
    (o : LotePollOutcome) (row : LoteRow) (ds : List DocumentRow) (now polled_at : ℤ)
    → IsPaced now o
    → IsQuiet now (record (columns_for o polled_at row) { documents = ds })
columns_for-IsQuiet (pending at reason) row ds now polled_at p = inr (ap some p)
columns_for-IsQuiet (processed rs needs) row ds now polled_at p = inl (refl, refl)
columns_for-IsQuiet (recovery reason) row ds now polled_at p = inl (refl, refl)

-- A query that ends with an outcome was asked of a lote that was `sent` and due, whose schedule no
-- other worker had moved when the outcome was stored; and it leaves the lote out of the polling or
-- with its next query ten minutes later.
pub execute-IsQuiet :
    (u : Unicode) (query : Query) (now polled_at : ℤ) (row later next : LoteRow)
    (o : LotePollOutcome)
    → execute u query now polled_at row later ≡ ok (outcome o, next)
    → (at : ℤ) × (is_sent row.status ≡ true)
      × (row.next_poll_at ≡ some at)
      × (at ≤ℤ now)
      × (same_instant later.next_poll_at at ≡ true)
      × IsQuiet now next
execute-IsQuiet u query now polled_at row later next o done =
    elim (execute_cases u query now polled_at row later done) [
      | inl (not_one, same) ↦ cc
      | inr (p, is, e) ↦ (
        e.expected,
        e.settled.is_sent_lote,
        e.settled.scheduled,
        e.settled.is_due,
        e.wrote.unmoved,
        subst (IsQuiet now) (sym e.wrote.written)
            (columns_for-IsQuiet p later e.wrote.documents now polled_at e.settled.paced),
      )
    ]

later_instant : (now at : ℤ) → at ≤ℤ now → same_instant (some (now +ℤ pos poll_interval)) at ≡ false
later_instant now at early = elim (Bool-cases (eqb_ℤ (now +ℤ pos poll_interval) at)) [
  | inr differs ↦ differs
  | inl equal ↦ absurd (clash (parts equal))
]
  where
    parts :
        eqb_ℤ (now +ℤ pos poll_interval) at ≡ true
        → pos_part (now +ℤ pos poll_interval) + neg_part at
          ≡ pos_part at + neg_part (now +ℤ pos poll_interval)
    parts h = ground arith

    clash : ¬ (
        pos_part (now +ℤ pos poll_interval) + neg_part at
        ≡ pos_part at + neg_part (now +ℤ pos poll_interval))
    clash h = omega (int_laws)

-- Two workers that loaded the same lote: once one of them has stored its outcome, the query of the
-- other stores nothing and reports none.
pub execute_once :
    (u : Unicode) (query query' : Query) (now polled_at now' polled_at' : ℤ)
    (row later next last : LoteRow) (o : LotePollOutcome) (r : PollResult)
    → execute u query now polled_at row later ≡ ok (outcome o, next)
    → execute u query' now' polled_at' row next ≡ ok (r, last)
    → (is_outcome r ≡ false) × (last ≡ next)
execute_once u query query' now polled_at now' polled_at' row later next last o r first second =
    elim (execute_cases u query' now' polled_at' row next second) [
      | inl nothing ↦ nothing
      | inr (p, is, e) ↦
          let (at, sent_row, scheduled, early, same, quiet) =
            execute-IsQuiet u query now polled_at row later next o first in
          elim quiet [
            | inl (gone, none_left) ↦ cc (gone, e.wrote.still_sent)
            | inr moved ↦
                let unmoved : same_instant (some (now +ℤ pos poll_interval)) e.expected ≡ true =
                  subst (λ x. same_instant x e.expected ≡ true) moved e.wrote.unmoved in
                let expected : some at ≡ some e.expected = sym scheduled ∙ e.settled.scheduled in
                let clash = later_instant now at early in cc (unmoved, expected, clash)
          ]
    ]

-- A stored outcome leaves a lote that is not to be sent.
pub record_poll-not_pending :
    (row : LoteRow) (o : LotePollOutcome) (expected polled_at : ℤ) (next : LoteRow)
    → record_poll row o expected polled_at ≡ ok (some next)
    → is_pending next.status ≡ false
record_poll-not_pending row o expected polled_at next h =
    let w = record_poll-Writes row o expected polled_at next h in
    at o w.still_sent w.documents w.written
  where
    sent_not_pending : (status : LoteStatus) → is_sent status ≡ true → is_pending status ≡ false
    sent_not_pending status e = ground arith

    at :
        (o : LotePollOutcome)
        → is_sent row.status ≡ true
        → (ds : List DocumentRow) → next ≡ record (columns_for o polled_at row) { documents = ds }
        → is_pending next.status ≡ false
    at (pending b reason) s ds e = ap (λ x. is_pending x.status) e ∙ sent_not_pending row.status s
    at (processed rs needs) s ds e = ap (λ x. is_pending x.status) e
    at (recovery reason) s ds e = ap (λ x. is_pending x.status) e
