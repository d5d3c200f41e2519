-- ===== src/Emission/Draft/Tests.antt =====
-- Runs of the validation of a draft, and the theorems at them.
use facturacion_sifen.Prelude.{
  ◌==◌, Text, ◌≡◌, ◌↔◌, refl, true, false, some, none, ok, [], ◌∷◌, codes, number, show, ℕ, ◌-◌,
  ◌%◌,
}
use facturacion_sifen.Prelude.Int.{pos, ◌+ℤ◌, ◌-ℤ◌, ◌*ℤ◌}
use facturacion_sifen.Decimal.{
  decimal, add, subtract, multiply, divide, multiply_exact, remainder_of, quotient_of, fits_in,
  compare, is_negative, equals, divide_rounded, decimal_places,
}
use facturacion_sifen.Decimal.Parse.{parse}
use facturacion_sifen.Emission.Totals.{parse_amount, amount, invoice_totals}
use facturacion_sifen.Emission.Draft.Errors.{
  b2b, named, unnamed, finite, DraftItem, InvoiceDraft, violation, sifen_violation, in_unit_price,
  in_line_total, in_operation_type, in_department, unit_price_non_negative, pyg_integer,
  unnamed_requires_b2c, unknown_department,
}
use facturacion_sifen.Emission.Draft.Address.{
  Unicode, validate_address_block, validate_geography, normalize_text,
}
use facturacion_sifen.Emission.Draft.{
  ValidationConfig, validate_invoice_draft, is_valid_rounding, amounts_of, threshold_of, net_of,
  draft_lines, rounding_step, default_threshold_amount,
}
use facturacion_sifen.Emission.Draft.Checking.{
  written, is_positive, is_non_negative, is_beyond, is_vat_rate,
}
use facturacion_sifen.Emission.Draft.Checked.{validate_invoice_draft-totals}
use facturacion_sifen.Emission.Draft.Rounded.{is_valid_rounding_iff}
use facturacion_sifen.Emission.Draft.Receivers.{IsServed, validate_invoice_draft-IsServed}

operations : Unit {0}
unfolding parse number show add subtract multiply divide multiply_exact ◌*ℤ◌ ◌+ℤ◌ ◌-ℤ◌ remainder_of
    quotient_of fits_in parse_amount compare is_negative equals divide_rounded decimal_places
    validate_invoice_draft validate_address_block validate_geography normalize_text is_positive
    is_non_negative is_beyond is_vat_rate
operations = tt

constants :
    (amount (codes "50") ≡ some rounding_step)
    × (amount (codes "7000000") ≡ some default_threshold_amount)
unfolding amount parse number
constants = (refl, refl)

abbrev plain : Unicode
plain = record { nfd = λ t. t; to_lower_case = λ t. t; is_space = λ c. c == b' ' }

abbrev item : Text → Text → DraftItem
item q p = record { quantity = finite q; unit_price = finite p; vat_rate = finite (codes "10") }

-- Three at 35812 and one at 1: 107437, rounded down to 107400.
abbrev draft : InvoiceDraft
draft = record {
  receiver = named false (
      some (record {
        street = codes "Palma";
        house_number = some (codes "120");
        district_code = none;
        district_description = none;
        city_code = some 1;
        city_description = none;
      }));
  operation_type = b2b;
  items = item (codes "3") (codes "35812") ∷ item (codes "1") (codes "1") ∷ [];
  rounding_pyg = finite (codes "37");
  department_code = some 12;
}

abbrev config : ValidationConfig
config = record {
  unnamed_threshold_pyg = none;
  allow_decimals = false;
  geo_catalog = none;
  validate_geo = true;
}

accepted : validate_invoice_draft plain draft config ≡ []
unfolding operations
accepted = refl

-- A negative price, no rate of VAT, half a unit, and a rounding of 50.
rejected :
    validate_invoice_draft plain
      (record {
        receiver = unnamed;
        operation_type = b2b;
        items = item (codes "0.5") (codes "-3") ∷ item (codes "0.5") (codes "15") ∷ [];
        rounding_pyg = finite (codes "50");
        department_code = some 21;
      })
      config
    ≡ violation (in_unit_price 0) unit_price_non_negative
      ∷ violation (in_line_total 1) pyg_integer
      ∷ sifen_violation in_operation_type unnamed_requires_b2c 1319
      ∷ violation in_department unknown_department
      ∷ []
unfolding operations
rejected = refl

validate_invoice_draft-totals_example :
    (gross : ℕ) × (invoice_totals (amounts_of draft)
      ≡ ok (decimal (pos gross), decimal (pos (gross - gross % 5000000000))))
validate_invoice_draft-totals_example = validate_invoice_draft-totals plain draft config accepted

validate_invoice_draft-IsServed_example :
    IsServed draft.receiver draft.operation_type draft.department_code
      (net_of (draft_lines config draft).total (parse_amount (written draft.rounding_pyg)))
      (threshold_of config.unnamed_threshold_pyg)
validate_invoice_draft-IsServed_example =
    validate_invoice_draft-IsServed plain draft config accepted

is_valid_rounding_iff_example :
    (is_valid_rounding (decimal (pos 10743700000000)) (some (decimal (pos 3700000000))) 0 ≡ true)
    ↔ (pos 3700000000 ≡ pos 3700000000) × (fits_in (decimal (pos 3700000000)) 2 0 ≡ true)
is_valid_rounding_iff_example = is_valid_rounding_iff 10743700000000 (decimal (pos 3700000000)) 0
