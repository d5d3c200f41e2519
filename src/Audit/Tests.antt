-- ===== src/Audit/Tests.antt =====
-- A log of two rows, with a hash that is the text of what it covers, and the theorems at it.
use facturacion_sifen.Prelude.{
  ℕ, ◌≡◌, ◌↔◌, refl, arith, some, none, List, [], ◌∷◌, ◌++◌, codes, Text, length,
}
use facturacion_sifen.Audit.{
  ChainRow, intact, broken, hash_mismatch, broken_link, checkpoint_mismatch, rows_after, scan_page,
  scan_pages, verify_audit_chain, genesis_hash,
}
use facturacion_sifen.Audit.Evidence.{IsChain, verify_audit_chain-IsChain, same_head-same_log}

operations : Unit {0}
unfolding rows_after scan_page scan_pages verify_audit_chain
operations = tt

abbrev encode : ChainRow → Text
encode r = length r.id ∷ (r.id ++ r.seq ∷ (length r.content ∷ (r.content ++ r.prev_hash)))

head_of : (x y : ℕ) (xs ys : Text) → x ∷ xs ≡ y ∷ ys → (x ≡ y) × (xs ≡ ys)
head_of x y xs ys h = (cc, cc)

cut : (a b xs ys : Text) → length a ≡ length b → a ++ xs ≡ b ++ ys → (a ≡ b) × (xs ≡ ys)
cut [] [] xs ys l h = (refl, h)
cut [] (c ∷ b) xs ys l h = absurd (omega (arith, l))
cut (c ∷ a) [] xs ys l h = absurd (omega (arith, l))
cut (c ∷ a) (d ∷ b) xs ys l h =
    let (heads, tails) = head_of c d _ _ h in
    let (rest, ends) = cut a b xs ys (omega (arith, l)) tails in (cc, ends)

encode-injective :
    (r s : ChainRow)
    → encode r ≡ encode s
    → (r.id ≡ s.id) × (r.seq ≡ s.seq) × (r.content ≡ s.content) × (r.prev_hash ≡ s.prev_hash)
encode-injective r s h =
    let (l, h1) = head_of (length r.id) (length s.id) _ _ h in
    let (ids, h2) = cut r.id s.id _ _ l h1 in
    let (seqs, h3) = head_of r.seq s.seq _ _ h2 in
    let (m, h4) = head_of (length r.content) (length s.content) _ _ h3 in
    let (contents, prevs) = cut r.content s.content _ _ m h4 in (ids, seqs, contents, prevs)

abbrev sealed : Text → ℕ → Text → Text → ChainRow
sealed id seq content prev =
    let hash = length id ∷ (id ++ seq ∷ (length content ∷ (content ++ prev))) in
    record { id = id; seq = seq; content = content; prev_hash = prev; hash = hash }

abbrev first : ChainRow
first = sealed (codes "a") 1 (codes "created") genesis_hash

abbrev second : ChainRow
second = sealed (codes "b") 2 (codes "signed") first.hash

abbrev log : List ChainRow
log = first ∷ second ∷ []

intact_run : verify_audit_chain encode log none 1 3 ≡ some (intact 2 2 second.hash)
unfolding operations
intact_run = refl

audit_runs :
    (verify_audit_chain encode (record first { content = codes "erased" } ∷ second ∷ []) none 1000 3
      ≡ some (broken 2 (record { id = codes "a"; seq = 1; reason = hash_mismatch })))
    × (verify_audit_chain encode (second ∷ []) none 1000 3
        ≡ some (broken 1 (record { id = codes "b"; seq = 2; reason = broken_link })))
    × (verify_audit_chain encode log (some (record { seq = 1; hash = codes "x" })) 1000 3
        ≡ some (broken 1 (record { id = codes "a"; seq = 1; reason = checkpoint_mismatch })))
    × (verify_audit_chain encode log (some (record { seq = 1; hash = first.hash })) 1000 3
        ≡ some (intact 1 2 second.hash))
unfolding operations
audit_runs = (refl, refl, refl, refl)

verify_audit_chain-IsChain_example :
    (verify_audit_chain encode log none 1 3 ≡ some (intact 2 2 second.hash))
    ↔ IsChain encode log genesis_hash 0 second.hash 2
verify_audit_chain-IsChain_example =
    verify_audit_chain-IsChain encode log 1 3 second.hash 2 (omega arith, (omega arith, tt))
      (omega arith) (omega arith)

same_head-same_log_example : log ≡ first ∷ second ∷ []
same_head-same_log_example =
    same_head-same_log encode encode-injective log (first ∷ second ∷ []) 1 3 second.hash 2
      (omega arith, (omega arith, tt)) (omega arith, (omega arith, tt)) (omega arith) (omega arith)
      (omega arith) intact_run intact_run
