-- ===== src/Numbering/Sequence.antt =====
-- Which numbers the calls on one key give, one after the other.
use facturacion_sifen.Prelude.{
  ℕ, zero, suc, ◌+◌, ◌*◌, ◌/◌, ◌%◌, ◌≤◌, ◌<◌, ◌≡◌, ◌≢◌, inl, inr, refl, ap, arith, Bool, true,
  false, Option, none, some, ok, err, ◌>>=◌, ltb, leb, ◌==◌, ◌&&◌, Text, [], Option-cases,
  Bool-cases, ==_false, lt→ltb, ==_iff,
}
use facturacion_sifen.Numbering.{
  series_exhausted, DocumentSequenceKey, DocumentNumber, Row, TenantTx, null_if_empty,
  series_to_use, next_series, issued, next_document_number, max_document_number,
}
use facturacion_sifen.Numbering.Series.{
  series_at, leb_text, next_series-series_at, series_at_lt, series_at_le, leb_text_trans,
}
use facturacion_sifen.Numbering.Table.{TableLaws, newest_after}

-- The row of the number with the given place, counted from 0, in the whole sequence of a key: 9999999
-- numbers without a series, then as many of each series.
abbrev pub row_at : ℕ → Row
row_at c = record { series = series_at (c / 9999999); last_number = c % 9999999 + 1 }

abbrev pub number_at : ℕ → DocumentNumber
number_at c = record { series = null_if_empty (series_at (c / 9999999)); number = c % 9999999 + 1 }

-- The newest row of a key of which so many numbers were issued.
abbrev pub newest_at : ℕ → Option Row
newest_at zero = none
newest_at (suc c) = some (row_at c)

-- The numbers of a key: without a series, and of AA to ZZ.
abbrev pub capacity : ℕ
capacity = 677 * 9999999

series_to_use_next :
    (c : ℕ)
    → suc c < capacity
    → series_to_use (newest_at (suc c)) ≡ ok (series_at (suc c / 9999999))
unfolding series_to_use
series_to_use_next c h = elim (Bool-cases (c % 9999999 + 1 == 9999999)) [
  | inl full ↦
      rw
        (
          full,
          next_series-series_at (c / 9999999) (omega arith),
          ==_false (c / 9999999) 676 (λ e. let f = eq_of _ _ full in omega arith),
        )
        (ap (λ i. ok (series_at i)) (let f = eq_of _ _ full in omega arith))
  | inr room ↦ rw room (ap (λ i. ok (series_at i)) (let f = ne_of _ _ room in omega arith))
]
  where
    eq_of : (a b : ℕ) → (a == b) ≡ true → a ≡ b
    eq_of a b h = ground arith

    ne_of : (a b : ℕ) → (a == b) ≡ false → a ≢ b
    ne_of a b h = ground arith

first_series : series_to_use none ≡ ok []
unfolding series_to_use
first_series = refl

next_of :
    {S : Type 0} (tx : TenantTx S) (s : S) (k : DocumentSequenceKey) (t : Text) (row : Row)
    → 1 ≤ k.document_type
    → k.document_type ≤ 8
    → series_to_use (tx.newest s k) ≡ ok t
    → (tx.upsert s k t 1 (λ n. n + 1) (λ n. ltb n max_document_number)).0 ≡ some row
    → next_document_number tx s k
      ≡ ok (
        record { series = null_if_empty row.series; number = row.last_number },
        (tx.upsert s k t 1 (λ n. n + 1) (λ n. ltb n max_document_number)).1,
      )
unfolding next_document_number
next_of tx s k t row lo hi chosen written =
    rw (typed, chosen, ◌>>=◌)
      (issued_of (tx.upsert s k t 1 (λ n. n + 1) (λ n. ltb n max_document_number)) written)
  where
    typed : (leb 1 k.document_type && leb k.document_type 8) ≡ true
    typed = ground arith

    issued_of :
        {S : Type 0} (out : Option Row × S)
        → out.0 ≡ some row
        → issued out
          ≡ ok (record { series = null_if_empty row.series; number = row.last_number }, out.1)
    issued_of (o, next) e = rw e

module _ (S : Type 0) (tx : TenantTx S) (laws : TableLaws S tx) (s : S)
    (k : DocumentSequenceKey) where
  abbrev increment : ℕ → ℕ
  increment n = n + 1

  abbrev below_max : ℕ → Bool
  below_max n = ltb n max_document_number

  abbrev after : Text → S
  after t = (tx.upsert s k t 1 increment below_max).1

  -- The statement wrote this row, and it is the newest.
  abbrev Writes : Row → Type 0
  Writes row =
      ((tx.upsert s k row.series 1 increment below_max).0 ≡ some row)
      × (tx.newest (after row.series) k ≡ some row)

  write_first :
      (t : Text)
      → laws.lookup s k t ≡ none
      → ((u : Text) (j : ℕ) → laws.lookup s k u ≡ some j → leb_text u t ≡ true)
      → Writes (record { series = t; last_number = 1 })
  write_first t free top =
      let (row, held) = laws.upsert_new s k t 1 increment below_max free in
      (row, newest_after S tx laws s k t 1 1 increment below_max top held)

  write_next :
      (t : Text) (m : ℕ)
      → tx.newest s k ≡ some (record { series = t; last_number = m })
      → m < 9999999
      → Writes (record { series = t; last_number = m + 1 })
  write_next t m now room =
      let before = laws.newest_some s k (record { series = t; last_number = m }) now in
      let (row, held) =
        laws.upsert_old s k t 1 m increment below_max before (lt→ltb m 9999999 room) in
      (
        row,
        newest_after S tx laws s k t 1 (m + 1) increment below_max
            (λ u j e. laws.newest_max s k (record { series = t; last_number = m }) u j now e) held,
      )

  -- The next series is not in the table, and comes after all that are.
  write_series :
      (i m : ℕ)
      → i < 676
      → tx.newest s k ≡ some (record { series = series_at i; last_number = m })
      → Writes (record { series = series_at (i + 1); last_number = 1 })
  write_series i m h now = write_first (series_at (i + 1)) free top
    where
      older : (u : Text) (j : ℕ) → laws.lookup s k u ≡ some j → leb_text u (series_at i) ≡ true
      older u j e = laws.newest_max s k (record { series = series_at i; last_number = m }) u j now e

      top : (u : Text) (j : ℕ) → laws.lookup s k u ≡ some j → leb_text u (series_at (i + 1)) ≡ true
      top u j e =
          leb_text_trans u (series_at i) (series_at (i + 1)) (older u j e) (series_at_le i h)

      free : laws.lookup s k (series_at (i + 1)) ≡ none
      free = elim (Option-cases (laws.lookup s k (series_at (i + 1)))) [
        | inl e ↦ e
        | inr (j, e) ↦
            let earlier = older (series_at (i + 1)) j e in let later = series_at_lt i h in cc
      ]

  -- The statement that writes the number at the place c.
  written_at : (c : ℕ) → c < capacity → tx.newest s k ≡ newest_at c → Writes (row_at c)
  written_at zero h now =
      write_first [] (laws.newest_none s k [] now)
        (λ u j e. let gone = laws.newest_none s k u now in cc)
  written_at (suc c) h now = elim (Bool-cases (c % 9999999 + 1 == 9999999)) [
    | inl full ↦
        let e : c % 9999999 + 1 ≡ 9999999 = (==_iff (c % 9999999 + 1) 9999999).0 full in
        let quotient : suc c / 9999999 ≡ c / 9999999 + 1 = omega arith in
        let rest : suc c % 9999999 ≡ 0 = omega arith in
        rw (quotient, rest) (write_series (c / 9999999) (c % 9999999 + 1) (omega arith) now)
    | inr room ↦
        let e : c % 9999999 + 1 ≢ 9999999 =
          λ f. let g = (==_iff (c % 9999999 + 1) 9999999).1 f in cc in
        let quotient : suc c / 9999999 ≡ c / 9999999 = omega arith in
        let rest : suc c % 9999999 ≡ c % 9999999 + 1 = omega arith in
        rw (quotient, rest)
          (write_next (series_at (c / 9999999)) (c % 9999999 + 1) now (omega arith))
  ]

  -- While fewer numbers than the sequence holds were issued on a key, the call gives the number that
  -- comes next, without a gap, through the series in their order, and the key counts one more. The
  -- table is only asked to follow `TableLaws`.
  pub next_document_number-number_at :
      (c : ℕ)
      → 1 ≤ k.document_type
      → k.document_type ≤ 8
      → c < capacity
      → tx.newest s k ≡ newest_at c
      → (next : S) × (next_document_number tx s k ≡ ok (number_at c, next))
        × (tx.newest next k ≡ newest_at (suc c))
  next_document_number-number_at c lo hi h now =
      let (written, newest) = written_at c h now in
      (
        after (series_at (c / 9999999)),
        next_of tx s k (series_at (c / 9999999)) (row_at c) lo hi (rw now (chosen c h)) written,
        newest,
      )
    where
      chosen : (c : ℕ) → c < capacity → series_to_use (newest_at c) ≡ ok (series_at (c / 9999999))
      chosen zero h = first_series
      chosen (suc c) h = series_to_use_next c h

  -- Once 9999999 numbers of every series were issued, the call refuses.
  pub next_document_number-full :
      1 ≤ k.document_type
      → k.document_type ≤ 8
      → tx.newest s k ≡ newest_at capacity
      → next_document_number tx s k ≡ err series_exhausted
  unfolding next_document_number series_to_use next_series
  next_document_number-full lo hi now = rw (typed, now) refl
    where
      typed : (leb 1 k.document_type && leb k.document_type 8) ≡ true
      typed = ground arith

-- No two places of the sequence have one number.
pub number_at-injective :
    (c d : ℕ) → c < capacity → d < capacity → number_at c ≡ number_at d → c ≡ d
number_at-injective c d h k e =
    let places = series_at-injective (c / 9999999) (d / 9999999) (ap (λ n. n.series) e) in
    let numbers : c % 9999999 + 1 ≡ d % 9999999 + 1 = ap (λ n. n.number) e in omega arith
  where
    series_at-injective :
        (i j : ℕ) → null_if_empty (series_at i) ≡ null_if_empty (series_at j) → i ≡ j
    series_at-injective i j e = ground arith
