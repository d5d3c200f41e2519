-- ===== src/Audit/Scan.antt =====
-- The scan of the pages, and the scan of the whole log.
use facturacion_sifen.Prelude.{
  ℕ, zero, suc, ◌+◌, ◌-◌, ◌≤◌, ◌<◌, ◌≡◌, ◌≢◌, inl, inr, refl, sym, ap, subst, ◌∙◌, arith, min, Bool,
  true, false, not, Option, some, List, [], ◌∷◌, ◌++◌, Result, ok, err, ◌>>=◌, ltb, ◌==◌, ◌&&◌,
  ◌||◌, Text, text_eq, take, drop, length, length-take, length-drop, take-append-drop, Bool-cases,
  ltb-false, lt→ltb, ltb→lt, ok-injective,
}
use facturacion_sifen.Audit.{
  AuditChainBreak, AuditChainResult, intact, broken, ChainRow, rows_after, count_rows, is_linked,
  scan_page, page, scan_pages,
}

ltb-false→le : (a b : ℕ) → ltb a b ≡ false → b ≤ a
ltb-false→le a b h = ground arith

-- The rows are in the order of `seq`, all after the given one.
abbrev pub InOrder : ℕ → List ChainRow → Type 0
InOrder last [] = Unit {0}
InOrder last (r ∷ rs) = (last < r.seq) × InOrder r.seq rs

abbrev pub result_of : List ChainRow → ℕ → Result AuditChainBreak (Text × ℕ) → AuditChainResult
result_of log first (err broken_at) = broken (count_rows log first) broken_at
result_of log first (ok (prev, last)) = intact (last - first) last prev

module _ (compute : ChainRow → Text) where
  scan_page-append :
      (xs ys : List ChainRow) (prev : Text) (last : ℕ)
      → scan_page compute (xs ++ ys) prev last
        ≡ (scan_page compute xs prev last >>= λ p. scan_page compute ys p.0 p.1)
  unfolding scan_page
  scan_page-append [] ys prev last = refl
  scan_page-append (x ∷ xs) ys prev last =
      elim (Bool-cases (not (is_linked x prev last) || not (text_eq x.hash (compute x)))) [
        | inl bad ↦ rw bad
        | inr good ↦ rw good (scan_page-append xs ys x.hash x.seq)
      ]

  -- A page that is in order counts on from the last number.
  scan_page-seq :
      (xs : List ChainRow) (prev : Text) (last : ℕ) (prev' : Text) (last' : ℕ)
      → scan_page compute xs prev last ≡ ok (prev', last')
      → last' ≡ last + length xs
  unfolding scan_page
  scan_page-seq [] prev last prev' last' h =
      let same : last ≡ last' = ap (λ p. p.1) (ok-injective h) in omega (arith, same)
  scan_page-seq (x ∷ xs) prev last prev' last' h =
      let later = scan_page-seq xs x.hash x.seq prev' last' in
      elim (Bool-cases (not (is_linked x prev last) || not (text_eq x.hash (compute x)))) [
        | inl bad ↦ absurd (err_ok _ _ (rw bad at h))
        | inr good ↦
            let counted = later (rw good at h) in
            let next : x.seq ≡ last + 1 =
              seq_of (text_eq x.prev_hash prev) (text_eq x.hash (compute x)) good in
            omega (arith, counted, next)
      ]
    where
      err_ok :
          (e : AuditChainBreak) (a : Text × ℕ)
          → (let r : Result AuditChainBreak (Text × ℕ) = err e in r) ≢ ok a
      err_ok e a q = cc

      seq_of : (b c : Bool) → (not (b && (x.seq == last + 1)) || not c) ≡ false → x.seq ≡ last + 1
      seq_of b c q = ground arith

-- The rows after the last of a page are those that the page left.
pub rows_after-InOrder : (last : ℕ) (rs : List ChainRow) → InOrder last rs → rows_after last rs ≡ rs
unfolding rows_after
rows_after-InOrder last [] o = refl
rows_after-InOrder last (r ∷ rs) (lo, o) =
    rw (lt→ltb last r.seq lo) (ap (λ l. r ∷ l) (rows_after-InOrder last rs (weaken rs o)))
  where
    weaken : (rs : List ChainRow) → InOrder r.seq rs → InOrder last rs
    weaken [] o = tt
    weaken (s ∷ ss) (l, o) = (omega (arith, lo, l), o)

InOrder-rows_after :
    (first last : ℕ) (rs : List ChainRow) → InOrder first rs → InOrder last (rows_after last rs)
unfolding rows_after
InOrder-rows_after first last [] o = tt
InOrder-rows_after first last (r ∷ rs) (lo, o) = elim (Bool-cases (ltb last r.seq)) [
  | inl above ↦
      rw (above, rows_after-InOrder last rs (weaken rs (ltb→lt last r.seq above) o))
        (ltb→lt last r.seq above, o)
  | inr below ↦ rw below (InOrder-rows_after r.seq last rs o)
]
  where
    weaken : (rs : List ChainRow) → last < r.seq → InOrder r.seq rs → InOrder last rs
    weaken [] h o = tt
    weaken (s ∷ ss) h (l, o) = (omega (arith, h, l), o)

rows_after_twice :
    (last next : ℕ) (rs : List ChainRow)
    → last ≤ next
    → rows_after next (rows_after last rs) ≡ rows_after next rs
unfolding rows_after
rows_after_twice last next [] h = refl
rows_after_twice last next (r ∷ rs) h =
    let rest = rows_after_twice last next rs h in
    elim (Bool-cases (ltb last r.seq)) [
      | inl above ↦ elim (Bool-cases (ltb next r.seq)) [
        | inl more ↦ rw (above, more, rest)
        | inr less ↦ rw (above, less, rest)
      ]
      | inr below ↦ rw (below, ltb-false next r.seq (not_above below)) rest
    ]
  where
    not_above : ltb last r.seq ≡ false → r.seq ≤ next
    not_above q = ground arith

module _ (compute : ChainRow → Text) where
  rest_of_page :
      (xs ys : List ChainRow) (prev : Text) (last : ℕ) (prev' : Text) (last' : ℕ)
      → InOrder last (xs ++ ys)
      → scan_page compute xs prev last ≡ ok (prev', last')
      → rows_after last' (xs ++ ys) ≡ ys
  unfolding scan_page rows_after
  rest_of_page [] ys prev last prev' last' o h =
      let same : last ≡ last' = ap (λ p. p.1) (ok-injective h) in
      rw (sym same) (rows_after-InOrder last ys o)
  rest_of_page (x ∷ xs) ys prev last prev' last' (lo, o) h =
      let rest = rest_of_page xs ys x.hash x.seq prev' last' o in
      elim (Bool-cases (not (is_linked x prev last) || not (text_eq x.hash (compute x)))) [
        | inl bad ↦ absurd (err_ok _ _ (rw bad at h))
        | inr good ↦
            let scanned : scan_page compute xs x.hash x.seq ≡ ok (prev', last') = rw good at h in
            let counted = scan_page-seq compute xs x.hash x.seq prev' last' scanned in
            rw (ltb-false last' x.seq (omega (arith, counted))) (rest scanned)
      ]
    where
      err_ok :
          (e : AuditChainBreak) (a : Text × ℕ)
          → (let r : Result AuditChainBreak (Text × ℕ) = err e in r) ≢ ok a
      err_ok e a q = cc

  -- With pages of at least one row and more fuel than rows are left, the loop over the pages gives what
  -- one scan of all the rows gives.
  pub scan_pages-scan_page :
      (log : List ChainRow) (batch first fuel : ℕ) (prev : Text) (last : ℕ)
      → InOrder 0 log
      → 1 ≤ batch
      → length (rows_after last log) < fuel
      → scan_pages compute log batch first fuel prev last
        ≡ some (result_of log first (scan_page compute (rows_after last log) prev last))
  unfolding scan_pages scan_page
  scan_pages-scan_page log batch first zero prev last o b h = absurd (omega arith)
  scan_pages-scan_page log batch first (suc fuel) prev last o b h =
      go (scan_page compute (page batch last log) prev last) refl
        (λ p l. scan_pages-scan_page log batch first fuel p l o b)
    where
      rows : List ChainRow
      rows = rows_after last log

      whole : take batch rows ++ drop batch rows ≡ rows
      whole = take-append-drop batch rows

      split : scan_page compute rows prev last ≡ (
          scan_page compute (take batch rows) prev last >>= λ p.
          scan_page compute (drop batch rows) p.0 p.1)
      split =
          ap (λ rs. scan_page compute rs prev last) (sym whole)
          ∙ scan_page-append compute (take batch rows) (drop batch rows) prev last

      sizes :
          (length (take batch rows) ≡ min batch (length rows))
          × (length (drop batch rows) ≡ length rows - batch)
      sizes = (length-take batch rows, length-drop batch rows)

      empty : (rs : List ChainRow) → length rs ≡ 0 → rs ≡ []
      empty [] q = refl
      empty (r ∷ rs) q = absurd (omega (arith, q))

      nothing_left : length (take batch rows) < batch → drop batch rows ≡ []
      nothing_left q = empty (drop batch rows) (omega (arith, sizes.0, sizes.1, q))

      -- What the page leaves.
      left :
          (p : Text) (l : ℕ)
          → scan_page compute (take batch rows) prev last ≡ ok (p, l)
          → rows_after l log ≡ drop batch rows
      left p l s =
          let counted = scan_page-seq compute (take batch rows) prev last p l s in
          sym (rows_after_twice last l log (omega (arith, counted)))
          ∙ ap (rows_after l) (sym whole)
          ∙ rest_of_page (take batch rows) (drop batch rows) prev last p l
              (subst (InOrder last) (sym whole) (InOrder-rows_after 0 last log o)) s

      fewer :
          (l : ℕ)
          → rows_after l log ≡ drop batch rows
          → ltb (length (take batch rows)) batch ≡ false
          → length (rows_after l log) < fuel
      fewer l q full =
          let counted : length (rows_after l log) ≡ length (drop batch rows) = ap length q in
          omega (
            arith,
            counted,
            sizes.0,
            sizes.1,
            ltb-false→le (length (take batch rows)) batch full,
            h,
            b,
          )

      go :
          (r : Result AuditChainBreak (Text × ℕ))
          → scan_page compute (page batch last log) prev last ≡ r
          → ((p : Text) (l : ℕ)
              → length (rows_after l log) < fuel
              → scan_pages compute log batch first fuel p l
                ≡ some (result_of log first (scan_page compute (rows_after l log) p l)))
          → (let out : Option AuditChainResult = elim r [
            | err broken_at ↦ some (broken (count_rows log first) broken_at)
            | ok (p, l) ↦ elim (ltb (length (page batch last log)) batch) [
              | true ↦ some (intact (l - first) l p)
              | false ↦ scan_pages compute log batch first fuel p l
            ]
          ] in
              out)
            ≡ some (result_of log first (scan_page compute rows prev last))
      go (err e) s ih = rw (split, s, ◌>>=◌)
      go (ok (p, l)) s ih = elim (Bool-cases (ltb (length (page batch last log)) batch)) [
        | inl short ↦ rw (
          short,
          split,
          s,
          ◌>>=◌,
          nothing_left (ltb→lt (length (take batch rows)) batch short),
          scan_page,
        )
        | inr full ↦
            rw full (ih p l (fewer l (left p l s) full))
            ∙ ap (λ r. some (result_of log first r))
                (ap (λ rs. scan_page compute rs p l) (left p l s) ∙ sym (rw (split, s, ◌>>=◌)))
      ]
