-- ===== src/Emission/Draft/Checking.antt =====
-- The lines of a draft in `validateInvoiceDraft`: the numbers of the request, the violations of a line,
-- and the loop, which carries the running total and the flag of a price beyond the column.
use facturacion_sifen.Prelude.{
  ℕ, suc, Bool, true, false, not, Option, none, some, List, [], ◌∷◌, ◌++◌, ◌&&◌, ◌||◌, leb, ltb,
  ◌==◌, Text, text_eq, if◌then◌else◌, number,
}
use facturacion_sifen.Decimal.{Decimal, add, decimal_places, fits_in}
use facturacion_sifen.Decimal.Parse.{Input, number_text, plain_of, split_point}
use facturacion_sifen.Decimal.Signs.{starts_minus}
use facturacion_sifen.Emission.Totals.{parse_amount, fits_amount, product_of}
use facturacion_sifen.Emission.Draft.Errors.{
  Number, nan, infinite, finite, DraftItem, ValidationError, violation, push_if, in_quantity,
  in_unit_price, in_line_total, in_vat_rate, quantity_positive, quantity_precision,
  unit_price_non_negative, unit_price_precision, amount_range, vat_rate_rule, pyg_integer,
  line_total_precision,
}

-- What `Decimal.parse` reads of a number.
abbrev pub written : Number → Input
written nan = number_text none
written (infinite negative) = number_text none
written (finite t) = number_text (some t)

-- Some digit before the exponent is not zero.
unfoldable pub has_digit : Text → Bool
has_digit [] = false
has_digit (c ∷ cs) =
    let rest = has_digit cs in if c == b'e' then false else (leb b'1' c && leb c b'9') || rest

-- `x > 0` and `x >= 0`
unfoldable pub is_positive : Number → Bool
unfolding has_digit
is_positive nan = false
is_positive (infinite negative) = not negative
is_positive (finite t) = not (starts_minus t) && has_digit t

unfoldable pub is_non_negative : Number → Bool
is_non_negative nan = false
is_non_negative (infinite negative) = not negative
is_non_negative (finite t) = not (starts_minus t)

abbrev pub max_amount_pyg : ℕ
max_amount_pyg = 999999999999999

-- `Math.abs(x) > MAX_AMOUNT_PYG`
unfoldable pub is_beyond : Number → Bool
unfolding has_digit
is_beyond nan = false
is_beyond (infinite negative) = true
is_beyond (finite t) =
    let (int, frac) = split_point (plain_of t) in
    ltb max_amount_pyg (number int) || ((number int == max_amount_pyg) && has_digit frac)

-- `[0, 5, 10].includes(x)`
unfoldable pub is_vat_rate : Number → Bool
is_vat_rate (finite t) =
    text_eq t (b'0' ∷ []) || text_eq t (b'5' ∷ []) || text_eq t (b'1' ∷ b'0' ∷ [])
is_vat_rate _ = false

abbrev pub fits : Option Decimal → ℕ → ℕ → Bool
fits none integers decimals = false
fits (some d) integers decimals = fits_in d integers decimals

-- The violations of one line before its product is known.
unfoldable pub item_errors : ℕ → DraftItem → List ValidationError
unfolding is_positive is_non_negative is_beyond is_vat_rate parse_amount
item_errors i item =
    (if not (is_positive item.quantity)
      then violation (in_quantity i) quantity_positive ∷ []
      else push_if (not (fits (parse_amount (written item.quantity)) 10 8))
          (violation (in_quantity i) quantity_precision))
    ++ (if not (is_non_negative item.unit_price)
        then violation (in_unit_price i) unit_price_non_negative ∷ []
        else if not (fits (parse_amount (written item.unit_price)) 15 8)
        then violation (in_unit_price i) unit_price_precision
          ∷ push_if (is_beyond item.unit_price) (violation (in_line_total i) amount_range)
        else [])
    ++ push_if (not (is_vat_rate item.vat_rate)) (violation (in_vat_rate i) vat_rate_rule)

-- `state.priceOverflow = true`
unfoldable pub overflows : DraftItem → Bool
unfolding is_non_negative is_beyond parse_amount
overflows item =
    is_non_negative item.unit_price
    && not (fits (parse_amount (written item.unit_price)) 15 8)
    && is_beyond item.unit_price

-- The line counts: its quantity and its price can be read and are within their digits.
unfoldable pub is_read : DraftItem → Bool
unfolding is_positive is_non_negative parse_amount
is_read item =
    is_positive item.quantity
    && is_non_negative item.unit_price
    && fits (parse_amount (written item.quantity)) 10 8
    && fits (parse_amount (written item.unit_price)) 15 8

abbrev pub line_product : DraftItem → Option Decimal
line_product item =
    if is_read item
    then product_of (parse_amount (written item.quantity)) (parse_amount (written item.unit_price))
    else none

abbrev pub has_decimals : Option Decimal → Bool
has_decimals none = false
has_decimals (some d) = ltb 0 (decimal_places d)

-- The violations of the product of a line that counts.
unfoldable pub product_errors : Bool → ℕ → Option Decimal → Option Decimal → List ValidationError
unfolding fits_in decimal_places
product_errors allow i unit_price product =
    push_if (not allow && has_decimals unit_price) (violation (in_unit_price i) pyg_integer)
    ++ (elim product [
      | none ↦ violation (in_line_total i) line_total_precision ∷ []
      | some d ↦
          if not allow && has_decimals (some d)
          then violation (in_line_total i) pyg_integer ∷ []
          else push_if (not (fits_amount d)) (violation (in_line_total i) amount_range)
    ])

unfoldable pub line_errors : Bool → ℕ → DraftItem → List ValidationError
unfolding item_errors is_read product_errors
line_errors allow i item =
    item_errors i item
    ++ (if is_read item
        then product_errors allow i (parse_amount (written item.unit_price)) (line_product item)
        else [])

-- What the loop over the lines leaves.
pub record Lines : Type 0 where
  pub errors : List ValidationError
  pub total : Decimal
  pub price_overflow : Bool

-- `if (product) total = total.add(product)`
abbrev pub add_product : Decimal → Option Decimal → Decimal
add_product total none = total
add_product total (some d) = add total d

unfoldable pub check_lines : Bool → ℕ → List DraftItem → Lines → Lines
unfolding line_errors overflows add
check_lines allow i [] s = s
check_lines allow i (item ∷ items) s = check_lines allow (suc i) items (record {
  errors = s.errors ++ line_errors allow i item;
  total = add_product s.total (line_product item);
  price_overflow = s.price_overflow || overflows item;
})
