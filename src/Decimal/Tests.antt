-- ===== src/Decimal/Tests.antt =====
-- Runs of the decimal operations, and the theorems at concrete values.
use facturacion_sifen.Prelude.{◌≤◌, inr, arith}
use facturacion_sifen.Prelude.Int.{◌*ℤ◌}
use facturacion_sifen.Decimal.{divide_rounded, round_to, integer_digits}
use facturacion_sifen.Decimal.Rounding.{IsNearest}
use facturacion_sifen.Decimal.Modes.{divide_rounded-IsNearest}
use facturacion_sifen.Decimal.RoundTrip.{parse-to_string}
use facturacion_sifen.Prelude.{◌≡◌, refl, ok, err, codes, show, number, some}
use facturacion_sifen.Prelude.Int.{pos, negsuc}
use facturacion_sifen.Decimal.{
  decimal, to_string, multiply, half_even, half_up, too_many_decimals, too_many_significant_digits,
}
use facturacion_sifen.Decimal.Parse.{parse, text, number_text}

parse_runs :
    (parse (text (codes "-12.50")) ≡ ok (decimal (negsuc 1249999999)))
    × (parse (number_text (some (codes "1.5e-7"))) ≡ ok (decimal (pos 15)))
    × (parse (text (codes "0.123456789")) ≡ err too_many_decimals)
    × (parse (number_text (some (codes "12345678.12345678"))) ≡ err too_many_significant_digits)
unfolding parse number
parse_runs = (refl, refl, refl, refl)

print_runs :
    (to_string (decimal (negsuc 1249999999)) ≡ codes "-12.5")
    × (to_string (decimal (pos 300000000)) ≡ codes "3")
    × (to_string (decimal (negsuc 0)) ≡ codes "-0.00000001")
unfolding to_string show
print_runs = (refl, refl, refl)

-- 0.00000005 * 0.5 is a tie between 2 and 3 units.
tie_runs :
    (multiply (decimal (pos 5)) (decimal (pos 50000000)) half_even ≡ decimal (pos 2))
    × (multiply (decimal (pos 5)) (decimal (pos 50000000)) half_up ≡ decimal (pos 3))
unfolding multiply
tie_runs = (refl, refl)

short : integer_digits (decimal (negsuc 1249999999)) ≤ 15
unfolding integer_digits show
short = omega arith

parse-to_string_example :
    parse (text (to_string (decimal (negsuc 1249999999)))) ≡ ok (decimal (negsuc 1249999999))
parse-to_string_example = parse-to_string (decimal (negsuc 1249999999)) short

divide_rounded-IsNearest_example : IsNearest (pos 7) 2 (divide_rounded (pos 7) 2 half_even)
divide_rounded-IsNearest_example =
    divide_rounded-IsNearest (pos 7) 2 half_even (inr refl) (omega arith)

rounded_run : round_to (decimal (pos 125000000)) 1 half_even ≡ ok (decimal (pos 120000000))
unfolding round_to divide_rounded ◌*ℤ◌
rounded_run = refl
