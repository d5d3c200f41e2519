-- ===== src/Ruc/Tests.antt =====
-- Runs of the RUC operations, and the theorems at concrete values.
use facturacion_sifen.Prelude.{◌≢◌, ◌++◌, ◌∷◌, arith}
use facturacion_sifen.Ruc.{Ruc, create_ruc}
use facturacion_sifen.Ruc.Detection.{create_ruc-mistyped}
use facturacion_sifen.Ruc.Format.{parse_ruc-format_ruc}
use facturacion_sifen.Prelude.{◌≡◌, refl, ok, err, codes, show, number}
use facturacion_sifen.Ruc.{
  compute_ruc_check_digit, parse_ruc, format_ruc, bad_format, bad_check_digit,
}

known_digit : compute_ruc_check_digit (codes "4490207") ≡ ok 7
unfolding compute_ruc_check_digit
known_digit = refl

known_ruc : parse_ruc (codes "4490207-7") ≡ ok (record { base = codes "4490207"; dv = 7 })
unfolding parse_ruc number
known_ruc = refl

wrong_digit : parse_ruc (codes "4490207-6") ≡ err (bad_check_digit 7 6 (codes "4490207-6"))
unfolding parse_ruc number show
wrong_digit = refl

no_dash : parse_ruc (codes "44902077") ≡ err (bad_format (codes "44902077"))
unfolding parse_ruc
no_dash = refl

abbrev known : Ruc
known = record { base = codes "4490207"; dv = 7 }

known_created : create_ruc (codes "4490207") 7 ≡ ok known
unfolding create_ruc
known_created = refl

create_ruc-mistyped_example : create_ruc (codes "449" ++ b'1' ∷ codes "207") 7 ≢ ok known
create_ruc-mistyped_example =
    create_ruc-mistyped (codes "449") (codes "207") b'0' b'1' 7 known known known_created
      (omega arith) (omega arith)

parse_ruc-format_ruc_example : parse_ruc (format_ruc known) ≡ ok known
parse_ruc-format_ruc_example = parse_ruc-format_ruc (codes "4490207") 7 known known_created
