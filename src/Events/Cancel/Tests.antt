-- ===== src/Events/Cancel/Tests.antt =====
-- Runs of the rules of a cancellation, and the theorem at a concrete document.
use facturacion_sifen.Prelude.{◌≡◌, ◌↔◌, refl, some, none, [], codes}
use facturacion_sifen.Prelude.Int.{pos, ◌+ℤ◌, ◌-ℤ◌}
use facturacion_sifen.Events.Cancel.{
  CancelCandidate, default_cancel_window, cancel_deadline, check_window, deadline_of,
  validate_cancellation, cancel_window_expired, cancel_document_type_unsupported,
}
use facturacion_sifen.Events.Cancel.Window.{IsCancellable, validate_cancellation_iff}

operations : Unit {0}
unfolding cancel_deadline check_window deadline_of validate_cancellation ◌+ℤ◌ ◌-ℤ◌
operations = tt

abbrev invoice : CancelCandidate
invoice = record {
  document_type = 1;
  status = codes "approved";
  approved_at = some (pos 1000000000);
  signed_at = none;
  live_associated_cdcs = [];
}

cancel_runs :
    (validate_cancellation invoice (pos 1171900000) default_cancel_window ≡ none)
    × (validate_cancellation invoice (pos 1171900001) default_cancel_window
        ≡ some (cancel_window_expired 4009 (pos 1171900000)))
    × (validate_cancellation (record invoice { document_type = 8 }) (pos 0) default_cancel_window
        ≡ some cancel_document_type_unsupported)
unfolding operations
cancel_runs = (refl, refl, refl)

validate_cancellation_iff_example :
    (validate_cancellation invoice (pos 1171900000) default_cancel_window ≡ none)
    ↔ IsCancellable invoice (pos 1171900000) default_cancel_window
validate_cancellation_iff_example =
    validate_cancellation_iff invoice (pos 1171900000) default_cancel_window
