-- ===== src/Emission/Draft/Errors.antt =====
-- apps/api/src/modules/emission/domain/invoice-draft.ts: the draft of an invoice and the violations that
-- a check reports. The message of a violation is left out.
use facturacion_sifen.Prelude.{ℕ, Bool, Option, none, some, List, [], ◌∷◌, Text, if◌then◌else◌}

-- A number of the request: `finite t` is the one that `String(number)` writes `t`.
pub data Number : Type 0 where
  nan : Number
  infinite : (negative : Bool) → Number
  finite : Text → Number

pub data OperationType : Type 0 where
  b2b b2c b2g b2f : OperationType

pub record DraftReceiverAddress : Type 0 where
  pub street : Text
  pub house_number : Option Text
  pub district_code : Option ℕ
  pub district_description : Option Text
  pub city_code : Option ℕ
  pub city_description : Option Text

pub data DraftReceiver : Type 0 where
  named : (is_public_entity : Bool) → Option DraftReceiverAddress → DraftReceiver
  unnamed : DraftReceiver

pub record DraftItem : Type 0 where
  pub quantity : Number
  pub unit_price : Number
  pub vat_rate : Number

pub record InvoiceDraft : Type 0 where
  pub receiver : DraftReceiver
  pub operation_type : OperationType
  pub items : List DraftItem
  pub rounding_pyg : Number
  pub department_code : Option ℕ

-- Where a violation is; the fields of a line carry its index.
pub data Field : Type 0 where
  in_items in_total in_rounding in_receiver in_operation_type : Field
  in_quantity in_unit_price in_line_total in_vat_rate : ℕ → Field
  in_department in_address in_house_number : Field
  in_district_code in_city_code in_district_description in_city_description : Field

pub data Rule : Type 0 where
  items_required quantity_positive quantity_precision unit_price_non_negative : Rule
  unit_price_precision amount_range vat_rate_rule pyg_integer line_total_precision : Rule
  rounding_multiple_of_50 unnamed_over_threshold unnamed_requires_b2c : Rule
  operation_not_supported public_entity_requires_b2g : Rule
  unknown_department address_required house_number_required : Rule
  department_not_allowed city_not_allowed department_required city_required : Rule
  district_unknown city_unknown city_not_in_district district_not_in_department : Rule
  city_not_in_department district_description_mismatch city_description_mismatch : Rule

pub record ValidationError : Type 0 where
  pub field : Field
  pub rule : Rule
  pub sifen_code : Option ℕ

abbrev pub violation : Field → Rule → ValidationError
violation f r = record { field = f; rule = r; sifen_code = none }

abbrev pub sifen_violation : Field → Rule → ℕ → ValidationError
sifen_violation f r code = record { field = f; rule = r; sifen_code = some code }

-- `if (test) errors.push(e)`
abbrev pub push_if : Bool → ValidationError → List ValidationError
push_if test e = if test then e ∷ [] else []
