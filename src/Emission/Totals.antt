-- ===== src/Emission/Totals.antt =====
-- apps/api/src/modules/emission/domain/invoice-totals.ts: the amounts of the lines of an invoice, and
-- their totals. What the source throws for a draft that was not validated is one error.
pub mod Sums
mod Tests
use facturacion_sifen.Prelude.{
  Bool, true, false, Option, none, some, List, [], ◌∷◌, Result, ok, err, ◌>>=◌, if◌then◌else◌, Text,
}
use facturacion_sifen.Decimal.{Decimal, zero_decimal, add, subtract, multiply_exact, fits_in}
use facturacion_sifen.Decimal.Parse.{Input, text, parse}

-- The numbers of a line and of a draft, as `Decimal.parse` takes them.
pub record LineLike : Type 0 where
  pub quantity : Input
  pub unit_price : Input

pub record DraftLike : Type 0 where
  pub items : List LineLike
  pub rounding_pyg : Input

pub data NotValidated : Type 0 where
  not_validated : NotValidated

unfoldable pub parse_amount : Input → Option Decimal
parse_amount value = elim (parse value) [ ok d ↦ some d | err e ↦ none ]

-- A constant of the source; `none` is what it throws for one that is malformed.
unfoldable pub amount : Text → Option Decimal
amount constant = elim (parse (text constant)) [ ok d ↦ some d | err e ↦ none ]

abbrev pub fits_amount : Decimal → Bool
fits_amount value = fits_in value 15 8

-- `product && fitsAmount(product) ? product : undefined`
abbrev pub if_fits : Option Decimal → Option Decimal
if_fits none = none
if_fits (some d) = if fits_amount d then some d else none

-- `quantity && unitPrice ? quantity.multiplyExact(unitPrice) : undefined`
abbrev pub product_of : Option Decimal → Option Decimal → Option Decimal
product_of (some quantity) (some unit_price) = multiply_exact quantity unit_price
product_of _ _ = none

unfoldable pub line_total : LineLike → Option Decimal
line_total item = if_fits (product_of (parse_amount item.quantity) (parse_amount item.unit_price))

abbrev pub required : Option Decimal → Result NotValidated Decimal
required none = err not_validated
required (some d) = ok d

-- The loop over the lines, from the gross total so far.
unfoldable pub gross_from : Decimal → List LineLike → Result NotValidated Decimal
gross_from gross [] = ok gross
gross_from gross (item ∷ items) = do
  line ← required (line_total item)
  sum ← required (if_fits (some (add gross line)))
  gross_from sum items

unfoldable pub invoice_totals : DraftLike → Result NotValidated (Decimal × Decimal)
invoice_totals draft = do
  gross ← gross_from zero_decimal draft.items
  rounding ← required (parse_amount draft.rounding_pyg)
  net ← required (if_fits (some (subtract gross rounding)))
  ok (gross, net)
