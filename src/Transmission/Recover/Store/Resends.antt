-- ===== src/Transmission/Recover/Store/Resends.antt =====
-- When the recovery queues a document again: where SIFEN says that it does not hold it, at most once, and
-- not before the window of its lote has passed.
use facturacion_sifen.Prelude.{ℕ, ◌≡◌, ◌⊎◌, Bool, true, false, not, ◌&&◌, List}
use facturacion_sifen.Prelude.Int.{ℤ}
use facturacion_sifen.Prelude.Pointwise.{Pointwise}
use facturacion_sifen.Transmission.Row.{DocumentRow, LoteRow}
use facturacion_sifen.Transmission.Recover.{UnresolvedCdc}
use facturacion_sifen.Transmission.Recover.Store.{is_none, sent_since, is_eligible}
use facturacion_sifen.Transmission.Recover.Store.Requeued.{
  is_absent, can_go, is_due, Same, Requeued,
}

module _ (may : Bool) (at stamp : ℤ) (seq : ℕ) where
  -- What the loop over the absent CDCs makes of a document.
  abbrev Acts : List UnresolvedCdc → DocumentRow → DocumentRow → Type 0
  Acts es d e =
      (Same d e × (e.status ≡ d.status) × (is_due may seq es d ≡ false))
      ⊎ ((may ≡ true) × (is_absent es d.cdc ≡ true) × Requeued at stamp d e)

  -- What it makes of one that it reaches.
  abbrev Reaches : DocumentRow → DocumentRow → Type 0
  Reaches d e =
      (Same d e × (e.status ≡ d.status) × (can_go may seq d ≡ false))
      ⊎ ((may ≡ true) × Requeued at stamp d e)

-- The window of the lote is over, and the instant of its send is known.
abbrev pub may_resend : ℤ → LoteRow → Bool
may_resend at row = is_eligible at row && not (is_none (sent_since row))
