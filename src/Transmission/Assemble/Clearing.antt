-- ===== src/Transmission/Assemble/Clearing.antt =====
-- `clearResent` and `wait` of assemble-lotes.ts: the last look at SIFEN before a document is sent again.
use facturacion_sifen.Prelude.{
  ℕ, suc, ◌-◌, ◌≤◌, ◌≡◌, refl, arith, Bool, true, false, not, Option, none, some, List, [], ◌∷◌,
  map, length, ltb, ltb→lt, if◌then◌else◌, Text, ◌⊎◌, inl, inr, ap, if_both,
}
use facturacion_sifen.Prelude.Interleaving.{Interleaves, both_empty, on_left, on_right, AllOf}
use facturacion_sifen.Prelude.Int.{ℤ, pos, ◌+ℤ◌, ltb_ℤ}
use facturacion_sifen.Transmission.Assemble.{
  ReadyDocument, ResendVerdict, send, approved, wait, SkipReason, resend_aborted,
  resend_already_approved, resend_held, resend_unverified, SkippedDocument,
}

abbrev pub default_max_resend_checks : ℕ
default_max_resend_checks = 20

-- What `clearResent` uses: the check, where it is wired (its errors count as `wait`), the clock, and
-- whether the writes of `holdResend` succeed.
pub record ClearDeps : Type 0 where
  pub verify : Option (ReadyDocument → ResendVerdict)
  pub max_resend_checks : ℕ
  pub now : ℤ
  pub hold_succeeds : ReadyDocument → Bool
  pub aborted : ReadyDocument → Bool

-- The writes that a check may lead to.
pub data Write : Type 0 where
  defers : (document_id : Text) (until : ℤ) → Write
  holds : (document_id : Text) → Write

pub record Cleared : Type 0 where
  pub kept : List ReadyDocument
  pub skipped : List SkippedDocument
  pub checked : List ReadyDocument
  pub writes : List Write

-- `document.resentAt && now - document.resentAt >= RESEND_GIVE_UP_MS`: six hours.
abbrev pub gives_up : ℤ → Option ℤ → Bool
gives_up now none = false
gives_up now (some at) = not (ltb_ℤ now (at +ℤ pos 21600000))

abbrev pub keeping : ReadyDocument → Cleared → Cleared
keeping d c = record c { kept = d ∷ c.kept }

abbrev pub skipping : ReadyDocument → SkipReason → Cleared → Cleared
skipping d reason c = record c { skipped = record { cdc = d.cdc; reason = reason } ∷ c.skipped }

abbrev pub checking : ReadyDocument → Cleared → Cleared
checking d c = record c { checked = d ∷ c.checked }

abbrev pub writing : Write → Cleared → Cleared
writing w c = record c { writes = w ∷ c.writes }

-- `wait`, for a document that was asked about.
unfoldable pub wait_for : ClearDeps → ReadyDocument → Cleared → Cleared
wait_for deps d c =
    if gives_up deps.now d.resent_at
    then writing (holds d.document_id)
        (skipping d (if deps.hold_succeeds d then resend_held else resend_unverified) c)
    else writing (defers d.document_id (deps.now +ℤ pos 600000)) (skipping d resend_unverified c)

abbrev pub verdict_on : ClearDeps → ReadyDocument → ResendVerdict → Cleared → Cleared
verdict_on deps d send c = checking d (keeping d c)
verdict_on deps d approved c = checking d (skipping d resend_already_approved c)
verdict_on deps d wait c = checking d (wait_for deps d c)

abbrev pub empty_cleared : Cleared
empty_cleared = record { kept = []; skipped = []; checked = []; writes = [] }

-- Whether SIFEN is asked about the document: it was sent before, the run goes on, the check is wired, and
-- its cap is not reached.
abbrev pub asks :
    (resent aborted : Bool) → Option (ReadyDocument → ResendVerdict) → (under_cap : Bool) → Bool
asks true false (some verify) under_cap = under_cap
asks _ _ _ _ = false

-- The body of the loop, in front of what the rest comes to.
abbrev pub cleared_one :
    ClearDeps
    → ReadyDocument
    → (resent aborted : Bool) → Option (ReadyDocument → ResendVerdict)
    → (under_cap : Bool) → Cleared
    → Cleared
cleared_one deps d false aborted verify under_cap rest = keeping d rest
cleared_one deps d true true verify under_cap rest = skipping d resend_aborted rest
cleared_one deps d true false none under_cap rest = skipping d resend_unverified rest
cleared_one deps d true false (some verify) false rest = skipping d resend_unverified rest
cleared_one deps d true false (some verify) true rest = verdict_on deps d (verify d) rest

-- The loop, with the checks made so far.
unfoldable pub clear_resent : ClearDeps → (checks : ℕ) → List ReadyDocument → Cleared
unfolding wait_for
clear_resent deps checks [] = empty_cleared
clear_resent deps checks (d ∷ ds) =
    let under_cap = ltb checks deps.max_resend_checks in
    let rest =
      clear_resent deps
        (if asks d.resent (deps.aborted d) deps.verify under_cap then suc checks else checks) ds in
    cleared_one deps d d.resent (deps.aborted d) deps.verify under_cap rest

-- A document that may join a lote: it was not sent before, or SIFEN was asked about it just now and does
-- not hold it.
abbrev pub MayBeSent : ClearDeps → ReadyDocument → Type 0
MayBeSent deps d =
    (d.resent ≡ false)
    ⊎ ((deps.aborted d ≡ false)
        × (verify : ReadyDocument → ResendVerdict) × (deps.verify ≡ some verify)
        × (verify d ≡ send))

pub record IsCleared (deps : ClearDeps) (checks : ℕ) (ds : List ReadyDocument) (c : Cleared)
    : Type 0 where
  pub out : List ReadyDocument
  pub parts : Interleaves c.kept out ds
  pub skipped_are : map (λ s. s.cdc) c.skipped ≡ map (λ d. d.cdc) out
  pub may_be_sent : AllOf (MayBeSent deps) c.kept
  pub few_checks : length c.checked ≤ deps.max_resend_checks - checks

module _ (deps : ClearDeps) where
  keeping-IsCleared :
      (checks : ℕ) (d : ReadyDocument) (ds : List ReadyDocument) (c : Cleared)
      → MayBeSent deps d
      → IsCleared deps checks ds c
      → IsCleared deps checks (d ∷ ds) (keeping d c)
  keeping-IsCleared checks d ds c may i = record {
    out = i.out;
    parts = on_left d _ _ _ i.parts;
    skipped_are = i.skipped_are;
    may_be_sent = (may, i.may_be_sent);
    few_checks = i.few_checks;
  }

  skipping-IsCleared :
      (checks : ℕ) (d : ReadyDocument) (ds : List ReadyDocument) (reason : SkipReason) (c : Cleared)
      → IsCleared deps checks ds c
      → IsCleared deps checks (d ∷ ds) (skipping d reason c)
  skipping-IsCleared checks d ds reason c i = record {
    out = d ∷ i.out;
    parts = on_right d _ _ _ i.parts;
    skipped_are = ap (λ l. d.cdc ∷ l) i.skipped_are;
    may_be_sent = i.may_be_sent;
    few_checks = i.few_checks;
  }

  checking-IsCleared :
      (checks : ℕ) (d : ReadyDocument) (ds : List ReadyDocument) (c : Cleared)
      → ltb checks deps.max_resend_checks ≡ true
      → IsCleared deps (suc checks) ds c
      → IsCleared deps checks ds (checking d c)
  checking-IsCleared checks d ds c under i = record {
    out = i.out;
    parts = i.parts;
    skipped_are = i.skipped_are;
    may_be_sent = i.may_be_sent;
    few_checks = omega (arith, ltb→lt checks deps.max_resend_checks under, i.few_checks);
  }

  writing-IsCleared :
      (checks : ℕ) (ds : List ReadyDocument) (w : Write) (c : Cleared)
      → IsCleared deps checks ds c
      → IsCleared deps checks ds (writing w c)
  writing-IsCleared checks ds w c i = record {
    out = i.out;
    parts = i.parts;
    skipped_are = i.skipped_are;
    may_be_sent = i.may_be_sent;
    few_checks = i.few_checks;
  }

  verdict_on-IsCleared :
      (checks : ℕ) (d : ReadyDocument) (ds : List ReadyDocument) (c : Cleared)
      (verify : ReadyDocument → ResendVerdict) (v : ResendVerdict)
      → ltb checks deps.max_resend_checks ≡ true
      → deps.aborted d ≡ false
      → deps.verify ≡ some verify
      → verify d ≡ v
      → IsCleared deps (suc checks) ds c
      → IsCleared deps checks (d ∷ ds) (verdict_on deps d v c)
  unfolding wait_for
  verdict_on-IsCleared checks d ds c verify send under running wired v i =
      checking-IsCleared checks d (d ∷ ds) (keeping d c) under
        (keeping-IsCleared (suc checks) d ds c (inr (running, verify, wired, v)) i)
  verdict_on-IsCleared checks d ds c verify approved under running wired v i =
      checking-IsCleared checks d (d ∷ ds) (skipping d resend_already_approved c) under
        (skipping-IsCleared (suc checks) d ds resend_already_approved c i)
  verdict_on-IsCleared checks d ds c verify wait under running wired v i =
      checking-IsCleared checks d (d ∷ ds) _ under (
        if_both (IsCleared deps (suc checks) (d ∷ ds)) (gives_up deps.now d.resent_at) _ _
          (writing-IsCleared (suc checks) (d ∷ ds) (holds d.document_id) _
            (skipping-IsCleared (suc checks) d ds _ c i))
          (writing-IsCleared (suc checks) (d ∷ ds) (defers d.document_id (deps.now +ℤ pos 600000)) _
            (skipping-IsCleared (suc checks) d ds resend_unverified c i)))

-- The last look at SIFEN keeps or reports every document, in their order; it keeps a document that was
-- sent before only where SIFEN, asked in this run, does not hold it and the run has not lost its lock;
-- and it asks `max_resend_checks` times at most.
pub clear_resent-IsCleared :
    (deps : ClearDeps) (checks : ℕ) (ds : List ReadyDocument)
    → IsCleared deps checks ds (clear_resent deps checks ds)
unfolding clear_resent
clear_resent-IsCleared deps checks [] = record {
  out = [];
  parts = both_empty;
  skipped_are = refl;
  may_be_sent = tt;
  few_checks = omega arith;
}
clear_resent-IsCleared deps checks (d ∷ ds) =
    pick d.resent (deps.aborted d) deps.verify (ltb checks deps.max_resend_checks) refl refl refl
      refl (λ n. clear_resent-IsCleared deps n ds)
  where
    pick :
        (r a : Bool) (v : Option (ReadyDocument → ResendVerdict)) (u : Bool)
        → d.resent ≡ r
        → deps.aborted d ≡ a
        → deps.verify ≡ v
        → ltb checks deps.max_resend_checks ≡ u
        → ((n : ℕ) → IsCleared deps n ds (clear_resent deps n ds))
        → IsCleared deps checks (d ∷ ds) (
            cleared_one deps d r a v u
              (clear_resent deps (if asks r a v u then suc checks else checks) ds))
    pick false true none u e f w l rest = keeping-IsCleared deps checks d ds _ (inl e) (rest checks)
    pick false true (some verify) u e f w l rest =
        keeping-IsCleared deps checks d ds _ (inl e) (rest checks)
    pick false false none u e f w l rest =
        keeping-IsCleared deps checks d ds _ (inl e) (rest checks)
    pick false false (some verify) u e f w l rest =
        keeping-IsCleared deps checks d ds _ (inl e) (rest checks)
    pick true true none u e f w l rest =
        skipping-IsCleared deps checks d ds resend_aborted _ (rest checks)
    pick true true (some verify) u e f w l rest =
        skipping-IsCleared deps checks d ds resend_aborted _ (rest checks)
    pick true false none u e f w l rest =
        skipping-IsCleared deps checks d ds resend_unverified _ (rest checks)
    pick true false (some verify) false e f w l rest =
        skipping-IsCleared deps checks d ds resend_unverified _ (rest checks)
    pick true false (some verify) true e f w l rest =
        verdict_on-IsCleared deps checks d ds _ verify (verify d) l f w refl (rest (suc checks))
