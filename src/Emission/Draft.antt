-- ===== src/Emission/Draft.antt =====
-- apps/api/src/modules/emission/domain/invoice-draft.ts: `validateInvoiceDraft`, which collects every
-- violation of a draft. Draft/Checking has the loop over the lines.
pub mod Errors
pub mod Address
pub mod Checking
pub mod Invoiceable
pub mod Rounded
pub mod Receivers
pub mod Checked
mod Tests
use facturacion_sifen.Prelude.{
  ℕ, suc, Bool, true, false, not, Option, none, some, List, [], ◌∷◌, ◌++◌, ◌&&◌, ◌||◌, leb, ltb,
  ◌==◌, Text, text_eq, if◌then◌else◌, number, ok, err, all, length,
}
use facturacion_sifen.Prelude.Int.{pos}
use facturacion_sifen.Decimal.{
  Decimal, decimal, zero_decimal, Comparison, less, same, more, compare, is_negative, add, subtract,
  multiply, multiply_exact, divide, equals, decimal_places, fits_in, truncate, is_nil,
}
use facturacion_sifen.Decimal.Parse.{Input, number_text, plain_of, split_point}
use facturacion_sifen.Decimal.Signs.{starts_minus}
use facturacion_sifen.Emission.Totals.{LineLike, DraftLike, parse_amount, fits_amount, product_of}
use facturacion_sifen.Emission.Draft.Errors.*
use facturacion_sifen.Emission.Draft.Address.{
  AddressBlockInput, GeoCatalog, Unicode, validate_address_block, validate_geography,
}
use facturacion_sifen.Emission.Draft.Checking.{
  written, has_digit, is_positive, is_non_negative, max_amount_pyg, is_beyond, is_vat_rate, fits,
  item_errors, overflows, is_read, line_product, has_decimals, product_errors, line_errors, Lines,
  add_product, check_lines,
}

-- `amount('50')` and `amount('7000000')`
abbrev pub rounding_step : Decimal
rounding_step = decimal (pos 5000000000)

abbrev pub default_threshold_amount : Decimal
default_threshold_amount = decimal (pos 700000000000000)

pub record ValidationConfig : Type 0 where
  pub unnamed_threshold_pyg : Option Number
  pub allow_decimals : Bool
  pub geo_catalog : Option GeoCatalog
  pub validate_geo : Bool

abbrev pub is_less : Comparison → Bool
is_less less = true
is_less _ = false

-- The step is not zero, so that `divide` does not throw.
unfoldable pub is_valid_rounding : Decimal → Option Decimal → ℕ → Bool
is_valid_rounding total none decimals = false
is_valid_rounding total (some rounding) decimals =
    if is_negative rounding || not (is_less (compare rounding rounding_step))
    then false
    else if not (fits_in rounding 2 decimals)
    then false
    else let net = subtract total rounding in
      elim (divide net rounding_step truncate) [
        | err e ↦ false
        | ok quotient ↦
            (decimal_places quotient == 0) && equals (multiply quotient rounding_step truncate) net
      ]

abbrev pub is_unnamed : DraftReceiver → Bool
is_unnamed unnamed = true
is_unnamed (named oee a) = false

abbrev pub is_public : DraftReceiver → Bool
is_public unnamed = false
is_public (named oee a) = oee

abbrev pub address_of : DraftReceiver → Option DraftReceiverAddress
address_of unnamed = none
address_of (named oee a) = a

-- What `validateReceiverAddress` takes of a draft.
abbrev pub address_block : DraftReceiver → OperationType → Option ℕ → AddressBlockInput
address_block receiver operation department = record {
  operation_type = operation;
  is_unnamed = is_unnamed receiver;
  address = address_of receiver;
  department_code = department;
}

abbrev pub is_b2c : OperationType → Bool
is_b2c b2c = true
is_b2c _ = false

abbrev pub is_unsupported : OperationType → Bool
is_unsupported b2g = true
is_unsupported b2f = true
is_unsupported _ = false

abbrev pub net_of : Decimal → Option Decimal → Decimal
net_of total none = total
net_of total (some rounding) = subtract total rounding

-- `parseAmount(config.unnamedThresholdPyg ?? 7_000_000) ?? DEFAULT_THRESHOLD_AMOUNT`
unfoldable pub threshold_of : Option Number → Decimal
unfolding parse_amount
threshold_of none = default_threshold_amount
threshold_of (some n) = elim (parse_amount (written n)) [
  | none ↦ default_threshold_amount
  | some d ↦ d
]

unfoldable pub receiver_errors : ValidationConfig → InvoiceDraft → Decimal → List ValidationError
unfolding threshold_of compare
receiver_errors config draft net =
    push_if
      (is_unnamed draft.receiver
        && not (is_less (compare net (threshold_of config.unnamed_threshold_pyg))))
      (sifen_violation in_receiver unnamed_over_threshold 1321)
    ++ push_if (is_unnamed draft.receiver && not (is_b2c draft.operation_type))
        (sifen_violation in_operation_type unnamed_requires_b2c 1319)
    ++ push_if (is_unsupported draft.operation_type)
        (violation in_operation_type operation_not_supported)
    ++ push_if (is_public draft.receiver && not (is_unsupported draft.operation_type))
        (sifen_violation in_operation_type public_entity_requires_b2g 1332)

-- `totalInRange`
abbrev pub is_in_range : Lines → Bool
is_in_range s = fits_amount s.total && not s.price_overflow

unfoldable pub total_errors : ValidationConfig → InvoiceDraft → Lines → List ValidationError
unfolding is_valid_rounding fits_in decimal_places parse_amount
total_errors config draft s =
    push_if (not (is_in_range s)) (violation in_total amount_range)
    ++ push_if
        (is_in_range s
          && (config.allow_decimals || (decimal_places s.total == 0))
          && not (
              is_valid_rounding s.total (parse_amount (written draft.rounding_pyg))
                (if config.allow_decimals then 4 else 0)))
        (violation in_rounding rounding_multiple_of_50)

abbrev pub start_lines : List DraftItem → Lines
start_lines [] = record {
  errors = violation in_items items_required ∷ [];
  total = zero_decimal;
  price_overflow = false;
}
start_lines (item ∷ items) = record { errors = []; total = zero_decimal; price_overflow = false }

unfoldable pub draft_lines : ValidationConfig → InvoiceDraft → Lines
unfolding check_lines
draft_lines config draft = check_lines config.allow_decimals 0 draft.items (start_lines draft.items)

abbrev pub geography_errors :
    Unicode → Option GeoCatalog → Bool → InvoiceDraft → List ValidationError
geography_errors u (some catalog) true draft =
    validate_geography u (address_of draft.receiver) draft.department_code catalog
geography_errors u _ _ draft = []

unfoldable pub validate_invoice_draft :
    Unicode → InvoiceDraft → ValidationConfig → List ValidationError
unfolding draft_lines total_errors receiver_errors
validate_invoice_draft u draft config =
    let s = draft_lines config draft in
    s.errors
    ++ total_errors config draft s
    ++ receiver_errors config draft (net_of s.total (parse_amount (written draft.rounding_pyg)))
    ++ validate_address_block
        (address_block draft.receiver draft.operation_type draft.department_code)
    ++ geography_errors u config.geo_catalog config.validate_geo draft

-- The draft as `invoiceTotals` takes it.
abbrev pub line_of : DraftItem → LineLike
line_of item = record { quantity = written item.quantity; unit_price = written item.unit_price }

unfoldable pub lines_of : List DraftItem → List LineLike
lines_of [] = []
lines_of (item ∷ items) = line_of item ∷ lines_of items

abbrev pub amounts_of : InvoiceDraft → DraftLike
amounts_of draft = record {
  items = lines_of draft.items;
  rounding_pyg = written draft.rounding_pyg;
}
