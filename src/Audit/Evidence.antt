-- ===== src/Audit/Evidence.antt =====
-- A log that is found intact, and its head.
use facturacion_sifen.Prelude.{
  ℕ, ◌+◌, ◌-◌, ◌≤◌, ◌<◌, ◌≡◌, ◌≢◌, ◌↔◌, inl, inr, refl, sym, ap, ap₂, subst, ◌∙◌, arith, Bool, true,
  false, not, none, some, List, [], ◌∷◌, Result, ok, err, ◌==◌, ◌&&◌, ◌||◌, Text, text_eq,
  text_eq_iff, length, Bool-cases, ok-injective,
}
use facturacion_sifen.Audit.{
  AuditChainBreak, AuditChainResult, intact, ChainRow, is_linked, scan_page, verify_audit_chain,
  genesis_hash,
}
use facturacion_sifen.Audit.Scan.{InOrder, result_of, rows_after-InOrder, scan_pages-scan_page}

-- The rows are a chain from a hash and a number to a head: each has the next number, the hash of its
-- predecessor and the hash of its own content.
abbrev pub IsChain :
    (ChainRow → Text)
    → List ChainRow
    → (prev : Text) (last : ℕ) (head_hash : Text) (head_seq : ℕ) → Type 0
IsChain compute [] prev last head_hash head_seq = (head_hash ≡ prev) × (head_seq ≡ last)
IsChain compute (r ∷ rs) prev last head_hash head_seq =
    (r.prev_hash ≡ prev)
    × (r.seq ≡ last + 1)
    × (r.hash ≡ compute r)
    × IsChain compute rs r.hash r.seq head_hash head_seq

module _ (compute : ChainRow → Text) where
  scan_page-IsChain :
      (rs : List ChainRow) (prev : Text) (last : ℕ) (head_hash : Text) (head_seq : ℕ)
      → (scan_page compute rs prev last ≡ ok (head_hash, head_seq))
        ↔ IsChain compute rs prev last head_hash head_seq
  unfolding scan_page
  scan_page-IsChain [] prev last head_hash head_seq = (
    λ h. let same = ok-injective h in (sym (ap (λ p. p.0) same), sym (ap (λ p. p.1) same)),
    λ (e, f). rw (e, f),
  )
  scan_page-IsChain (r ∷ rs) prev last head_hash head_seq =
      let later = scan_page-IsChain rs r.hash r.seq head_hash head_seq in
      elim (Bool-cases (not (is_linked r prev last) || not (text_eq r.hash (compute r)))) [
        | inl bad ↦ (
          λ h. absurd (err_ok _ _ (rw bad at h)),
          λ (p, n, c, _). absurd (clash _ bad (fine p n c)),
        )
        | inr good ↦ (
          λ h.
              let (linked, own) =
                parts (text_eq r.prev_hash prev) (text_eq r.hash (compute r)) good in
              (
                (text_eq_iff r.prev_hash prev).0 linked.0,
                linked.1,
                (text_eq_iff r.hash (compute r)).0 own,
                later.0 (rw good at h),
              ),
          λ (p, n, c, chain). rw good (later.1 chain),
        )
      ]
    where
      err_ok :
          (e : AuditChainBreak) (a : Text × ℕ)
          → (let o : Result AuditChainBreak (Text × ℕ) = err e in o) ≢ ok a
      err_ok e a q = cc

      clash : (b : Bool) → b ≡ true → b ≢ false
      clash b q t = cc

      fine :
          r.prev_hash ≡ prev
          → r.seq ≡ last + 1
          → r.hash ≡ compute r
          → (not (is_linked r prev last) || not (text_eq r.hash (compute r))) ≡ false
      fine p n c =
          let a = (text_eq_iff r.prev_hash prev).1 p in
          let d = (text_eq_iff r.hash (compute r)).1 c in ground arith

      parts :
          (b c : Bool)
          → (not (b && (r.seq == last + 1)) || not c) ≡ false
          → ((b ≡ true) × (r.seq ≡ last + 1)) × (c ≡ true)
      parts b c q = ground arith

  -- The check from the start, as one scan.
  verify_audit_chain-scan_page :
      (log : List ChainRow) (batch fuel : ℕ)
      → InOrder 0 log
      → 1 ≤ batch
      → length log < fuel
      → verify_audit_chain compute log none batch fuel
        ≡ some (result_of log 0 (scan_page compute log genesis_hash 0))
  unfolding verify_audit_chain
  verify_audit_chain-scan_page log batch fuel o b enough =
      let all_rows = rows_after-InOrder 0 log o in
      scan_pages-scan_page compute log batch 0 fuel genesis_hash 0 o b
        (subst (λ rs. length rs < fuel) (sym all_rows) enough)
      ∙ ap (λ rs. some (result_of log 0 (scan_page compute rs genesis_hash 0))) all_rows

  -- With pages of at least one row and more fuel than the log has rows, the check of a log from its
  -- start finds it intact exactly when its rows are a chain from the genesis hash to the head that it
  -- reports; the rows of the log are given in the order of their numbers, from 1 or later.
  pub verify_audit_chain-IsChain :
      (log : List ChainRow) (batch fuel : ℕ) (head_hash : Text) (head_seq : ℕ)
      → InOrder 0 log
      → 1 ≤ batch
      → length log < fuel
      → (verify_audit_chain compute log none batch fuel ≡ some (intact head_seq head_seq head_hash))
        ↔ IsChain compute log genesis_hash 0 head_hash head_seq
  verify_audit_chain-IsChain log batch fuel head_hash head_seq o b enough = (
    λ h.
        (scan_page-IsChain log genesis_hash 0 head_hash head_seq).0
          (ok_of (scan_page compute log genesis_hash 0) (some_eq _ _ (sym checked ∙ h))),
    λ chain.
        checked
        ∙ ap (λ r. some (result_of log 0 r))
            ((scan_page-IsChain log genesis_hash 0 head_hash head_seq).1 chain)
        ∙ ap (λ n. some (intact n head_seq head_hash))
            (let e : head_seq - 0 ≡ head_seq = omega arith in e),
  )
    where
      checked :
          verify_audit_chain compute log none batch fuel
          ≡ some (result_of log 0 (scan_page compute log genesis_hash 0))
      checked = verify_audit_chain-scan_page log batch fuel o b enough

      some_eq : (x y : AuditChainResult) → some x ≡ some y → x ≡ y
      some_eq x y q = cc

      intact_eq :
          (n l : ℕ) (p : Text)
          → intact n l p ≡ intact head_seq head_seq head_hash
          → (let r : Result AuditChainBreak (Text × ℕ) = ok (p, l) in r) ≡ ok (head_hash, head_seq)
      intact_eq n l p q = cc

      ok_of :
          (r : Result AuditChainBreak (Text × ℕ))
          → result_of log 0 r ≡ intact head_seq head_seq head_hash
          → r ≡ ok (head_hash, head_seq)
      ok_of (err e) q = cc
      ok_of (ok (p, l)) q = intact_eq (l - 0) l p q

  -- Two chains from any start to one head are the same rows, when the hash tells apart what it covers.
  chains_agree :
      ((r s : ChainRow)
        → compute r ≡ compute s
        → (r.id ≡ s.id) × (r.seq ≡ s.seq) × (r.content ≡ s.content) × (r.prev_hash ≡ s.prev_hash))
      → (rs ss : List ChainRow) (prev prev' : Text) (last last' : ℕ) (head_hash : Text)
        (head_seq : ℕ)
      → length rs ≡ length ss
      → IsChain compute rs prev last head_hash head_seq
      → IsChain compute ss prev' last' head_hash head_seq
      → (rs ≡ ss) × (prev ≡ prev')
  chains_agree inj [] [] prev prev' last last' hh hs l (e, _) (f, _) = (refl, sym e ∙ f)
  chains_agree inj [] (s ∷ ss) prev prev' last last' hh hs l c d = absurd (omega (arith, l))
  chains_agree inj (r ∷ rs) [] prev prev' last last' hh hs l c d = absurd (omega (arith, l))
  chains_agree inj (r ∷ rs) (s ∷ ss) prev prev' last last' hh hs l (p, n, h, c) (q, m, k, d) =
      let (rest, hashes) =
        chains_agree inj rs ss r.hash s.hash r.seq s.seq hh hs (omega (arith, l)) c d in
      let (ids, seqs, contents, prevs) = inj r s (sym h ∙ hashes ∙ k) in
      let rows : r ≡ s = λ i. record {
        id = ids i;
        seq = seqs i;
        content = contents i;
        prev_hash = prevs i;
        hash = hashes i;
      } in
      (ap₂ (λ x xs. x ∷ xs) rows rest, sym p ∙ prevs ∙ q)

  IsChain-seq :
      (rs : List ChainRow) (prev : Text) (last : ℕ) (head_hash : Text) (head_seq : ℕ)
      → IsChain compute rs prev last head_hash head_seq
      → head_seq ≡ last + length rs
  IsChain-seq [] prev last hh hs (_, e) = omega (arith, e)
  IsChain-seq (r ∷ rs) prev last hh hs (_, n, _, c) =
      let counted = IsChain-seq rs r.hash r.seq hh hs c in omega (arith, n, counted)

  -- When the hash tells apart the rows by what it covers, two logs that the check finds intact with one
  -- head are the same: nothing in a log can be changed, added or taken out under a head that is kept
  -- elsewhere. The conditions on pages, fuel and order are those of the check.
  pub same_head-same_log :
      ((r s : ChainRow)
        → compute r ≡ compute s
        → (r.id ≡ s.id) × (r.seq ≡ s.seq) × (r.content ≡ s.content) × (r.prev_hash ≡ s.prev_hash))
      → (log other : List ChainRow) (batch fuel : ℕ) (head_hash : Text) (head_seq : ℕ)
      → InOrder 0 log
      → InOrder 0 other
      → 1 ≤ batch
      → length log < fuel
      → length other < fuel
      → verify_audit_chain compute log none batch fuel ≡ some (intact head_seq head_seq head_hash)
      → verify_audit_chain compute other none batch fuel ≡ some (intact head_seq head_seq head_hash)
      → log ≡ other
  same_head-same_log inj log other batch fuel hh hs o q b f g v w =
      let c = (verify_audit_chain-IsChain log batch fuel hh hs o b f).0 v in
      let d = (verify_audit_chain-IsChain other batch fuel hh hs q b g).0 w in
      let m = IsChain-seq log genesis_hash 0 hh hs c in
      let n = IsChain-seq other genesis_hash 0 hh hs d in
      (chains_agree inj log other genesis_hash genesis_hash 0 0 hh hs (omega (arith, m, n)) c d).0
