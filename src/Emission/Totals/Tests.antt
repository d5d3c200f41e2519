-- ===== src/Emission/Totals/Tests.antt =====
-- Totals of a draft, and the theorem at it.
use facturacion_sifen.Prelude.{◌≡◌, refl, true, some, ok, [], ◌∷◌, codes, number, show}
use facturacion_sifen.Prelude.Int.{pos, ◌+ℤ◌, ◌*ℤ◌}
use facturacion_sifen.Decimal.{
  Decimal, decimal, add, subtract, multiply_exact, remainder_of, quotient_of, fits_in,
}
use facturacion_sifen.Decimal.Parse.{parse, number_text}
use facturacion_sifen.Emission.Totals.{
  DraftLike, parse_amount, fits_amount, line_total, gross_from, invoice_totals,
}
use facturacion_sifen.Emission.Totals.Sums.{AreWorth, invoice_totals-AreWorth}

operations : Unit {0}
unfolding parse number show add subtract multiply_exact ◌*ℤ◌ remainder_of quotient_of fits_in
    parse_amount line_total gross_from invoice_totals
operations = tt

-- Three and a half at 1000.5 and one at 200, less 1.75.
abbrev draft : DraftLike
draft = record {
  items =
      record {
        quantity = number_text (some (codes "3.5"));
        unit_price = number_text (some (codes "1000.5"));
      }
      ∷ record {
        quantity = number_text (some (codes "1"));
        unit_price = number_text (some (codes "200"));
      }
      ∷ [];
  rounding_pyg = number_text (some (codes "1.75"));
}

totals_run : invoice_totals draft ≡ ok (decimal (pos 370175000000), decimal (pos 370000000000))
unfolding operations
totals_run = refl

invoice_totals-AreWorth_example :
    AreWorth draft.items (pos 370175000000)
    × ((rounding : Decimal) × (parse draft.rounding_pyg ≡ ok rounding)
        × (pos 370000000000 +ℤ rounding.units ≡ pos 370175000000)
        × (fits_amount (decimal (pos 370000000000)) ≡ true))
invoice_totals-AreWorth_example =
    invoice_totals-AreWorth draft (decimal (pos 370175000000)) (decimal (pos 370000000000))
      totals_run
