-- ===== src/Transmission/Send/Backoff.antt =====
-- What a refusal of a lote does to its documents: `backOff` and `pauseTenant` of
-- drizzle-lote-dispatch-store.ts, through `record`.
use facturacion_sifen.Prelude.{
  ℕ, zero, suc, ◌+◌, ◌-◌, ◌*◌, ◌^◌, ◌≤◌, ◌<◌, ◌≡◌, ◌⊎◌, inl, inr, refl, ap, ◌∙◌, arith, Bool, true,
  false, none, some, Option, Result, ok, err, ok-injective, leb, leb→le, min, if◌then◌else◌, ◌&&◌,
  Text, subst, ◌||◌,
}
use native.Mathlib.Nat.{pow-suc}
use facturacion_sifen.Prelude.Int.{ℤ, pos, ◌+ℤ◌, ◌≤ℤ◌, ltb_ℤ_false}
use facturacion_sifen.Prelude.Pointwise.{Pointwise, map-Pointwise}
use facturacion_sifen.Transmission.Row.{DocumentRow, LoteRow, is_queued, is_sending, is_unknown}
use facturacion_sifen.Transmission.Send.{rejected}
use facturacion_sifen.Transmission.Send.Store.{
  DispatchConfig, RucBlock, RecordError, backoff_ms, exhausted_hold, backed_off, paused, waits_less,
  record_outcome, columns_for, documents_after, block_after, not_in_sending_or_unknown,
}

-- The wait after so many refusals: five minutes after the first, then each time twice as long, and two
-- hours at most.
abbrev pub wait_after : ℕ → ℕ
wait_after zero = 300000
wait_after (suc refusals) = min (2 * wait_after refusals) 7200000

backoff_ms-wait_after : (n : ℕ) → backoff_ms (suc n) ≡ wait_after n
backoff_ms-wait_after zero = refl
backoff_ms-wait_after (suc n) =
    let p : 2 ^ (suc (suc n) - 1) ≡ 2 ^ n * 2 =
      ap (λ k. 2 ^ k) (let e : suc (suc n) - 1 ≡ suc n = omega arith in e) ∙ pow-suc 2 n in
    let q : 2 ^ (suc n - 1) ≡ 2 ^ n = ap (λ k. 2 ^ k) (let e : suc n - 1 ≡ n = omega arith in e) in
    omega (arith, backoff_ms-wait_after n, p, q)

-- Not queued: left alone.
abbrev Untouched : DocumentRow → DocumentRow → Type 0
Untouched d e = (is_queued d.status ≡ false) × (e ≡ d)

-- A refusal that is the documents' own: it is counted, and the document waits or, at the limit, is held
-- for an operator.
abbrev pub Refused : DispatchConfig → ℤ → DocumentRow → DocumentRow → Type 0
Refused config now d e =
    (e.status ≡ d.status)
    × (e.transmission_attempts ≡ d.transmission_attempts + 1)
    × (((e.transmission_attempts < config.max_transmission_attempts)
          × (e.next_transmission_at ≡ some (now +ℤ pos (wait_after d.transmission_attempts)))
          × (e.transmission_hold ≡ d.transmission_hold))
        ⊎ ((config.max_transmission_attempts ≤ e.transmission_attempts)
            × (e.next_transmission_at ≡ none)
            × (e.transmission_hold ≡ some exhausted_hold)))

-- A block of the RUC: nothing is counted or held, and the document waits for the end of the pause or for
-- the later instant that it had.
abbrev pub Paused : ℤ → DocumentRow → DocumentRow → Type 0
Paused until d e =
    (e.status ≡ d.status)
    × (e.transmission_attempts ≡ d.transmission_attempts)
    × (e.transmission_hold ≡ d.transmission_hold)
    × ((at : ℤ) × (e.next_transmission_at ≡ some at)
        × (until ≤ℤ at)
        × ((at ≡ until) ⊎ (d.next_transmission_at ≡ some at)))

-- What a refused lote makes of a document.
abbrev pub AfterRefusal :
    DispatchConfig → ℤ → (ruc_blocked : Bool) → DocumentRow → DocumentRow → Type 0
AfterRefusal config now ruc_blocked d e =
    Untouched d e
    ⊎ ((is_queued d.status ≡ true)
        × (if ruc_blocked
            then Paused (now +ℤ pos config.ruc_block_ms) d e
            else Refused config now d e))

leb-false_lt : (a b : ℕ) → leb a b ≡ false → b < a
leb-false_lt a b h = ground arith

backed_off-AfterRefusal :
    (config : DispatchConfig) (now : ℤ) (d : DocumentRow)
    → AfterRefusal config now false d (backed_off config now d)
unfolding backed_off
backed_off-AfterRefusal config now d =
    pick (is_queued d.status) (leb config.max_transmission_attempts n) refl refl
  where
    n : ℕ
    n = d.transmission_attempts + 1

    held : DocumentRow
    held = record d {
      transmission_attempts = n;
      next_transmission_at = none;
      transmission_hold = some exhausted_hold;
    }

    waiting : DocumentRow
    waiting = record d {
      transmission_attempts = n;
      next_transmission_at = some (now +ℤ pos (backoff_ms n));
    }

    doubled : backoff_ms n ≡ wait_after d.transmission_attempts
    doubled =
        ap backoff_ms (let e : n ≡ suc d.transmission_attempts = omega arith in e)
        ∙ backoff_ms-wait_after d.transmission_attempts

    pick :
        (b c : Bool)
        → is_queued d.status ≡ b
        → leb config.max_transmission_attempts n ≡ c
        → AfterRefusal config now false d (if b then (if c then held else waiting) else d)
    pick false c q e = inl (q, refl)
    pick true true q e =
        inr (q, (refl, refl, inr (leb→le config.max_transmission_attempts n e, refl, refl)))
    pick true false q e = inr (
      q,
      (
        refl,
        refl,
        inl (
          leb-false_lt config.max_transmission_attempts n e,
          ap (λ w. some (now +ℤ pos w)) doubled,
          refl,
        ),
      ),
    )

paused-AfterRefusal :
    (config : DispatchConfig) (now : ℤ) (d : DocumentRow)
    → AfterRefusal config now true d (paused (now +ℤ pos config.ruc_block_ms) d)
paused-AfterRefusal config now d =
    pick (is_queued d.status) (waits_less d.next_transmission_at until) refl refl
  where
    until : ℤ
    until = now +ℤ pos config.ruc_block_ms

    waits_longer :
        (o : Option ℤ)
        → waits_less o until ≡ false
        → (at : ℤ) × (o ≡ some at) × (until ≤ℤ at) × ((at ≡ until) ⊎ (o ≡ some at))
    waits_longer none h = cc
    waits_longer (some at) h = (at, refl, ltb_ℤ_false at until h, inr refl)

    pick :
        (b c : Bool)
        → is_queued d.status ≡ b
        → waits_less d.next_transmission_at until ≡ c
        → AfterRefusal config now true d
            (if b && c then record d { next_transmission_at = some until } else d)
    pick false c q e = inl (q, refl)
    pick true false q e = inr (q, (refl, refl, refl, waits_longer d.next_transmission_at e))
    pick true true q e = inr (q, (refl, refl, refl, (until, refl, omega arith, inl refl)))

-- A refusal that is recorded goes through the documents of the lote one by one. Each stays as queued as it
-- was. One that is queued counts one refusal more and waits five minutes after its first, then each time
-- twice as long up to two hours, or is held for an operator once its refusals reach the limit. After a
-- block of the RUC nothing is counted or held: it waits for the end of the pause, or longer where it did.
-- A document that is not queued is left alone.
pub record_rejected-AfterRefusal :
    (config : DispatchConfig) (now : ℤ) (row next : LoteRow) (code reason : Text)
    (ruc_blocked : Bool) (block : Option RucBlock)
    → record_outcome config now (rejected code reason ruc_blocked) row ≡ ok (next, block)
    → Pointwise (AfterRefusal config now ruc_blocked) row.documents next.documents
unfolding record_outcome
record_rejected-AfterRefusal config now row next code reason ruc_blocked block h =
    pick (is_sending row.status || is_unknown row.status) ruc_blocked h
  where
    recorded_row : Bool → LoteRow
    recorded_row b = record (columns_for (rejected code reason b) now row) {
      documents = documents_after config now (rejected code reason b) row.documents;
    }

    stored :
        (b : Bool) → Pointwise (AfterRefusal config now b) row.documents (recorded_row b).documents
    stored true =
        map-Pointwise _ (paused (now +ℤ pos config.ruc_block_ms)) row.documents
          (paused-AfterRefusal config now)
    stored false =
        map-Pointwise _ (backed_off config now) row.documents (backed_off-AfterRefusal config now)

    pick :
        (a b : Bool)
        → (let r : Result RecordError (LoteRow × Option RucBlock) =
              if a
              then ok (recorded_row b, block_after config now (rejected code reason b))
              else err not_in_sending_or_unknown in
            r ≡ ok (next, block))
        → Pointwise (AfterRefusal config now b) row.documents next.documents
    pick false b h = cc
    pick true b h =
        let same : recorded_row b ≡ next = ap (λ x. x.0) (ok-injective h) in
        subst (λ r. Pointwise (AfterRefusal config now b) row.documents r.documents) same (stored b)
