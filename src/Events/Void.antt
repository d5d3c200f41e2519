-- ===== src/Events/Void.antt =====
-- apps/api/src/modules/issuer-events/domain/void-rules.ts: voiding a range of document numbers.
pub mod Requests
pub mod Overlap
mod Tests
use facturacion_sifen.Prelude.{
  ℕ, ◌+◌, Bool, true, false, not, Option, none, some, List, [], ◌∷◌, Result, ok, err, ltb, leb,
  ◌==◌, ◌&&◌, ◌||◌, if◌then◌else◌, Text, codes, text_eq, trim, length, all, is_upper,
  digits_between,
}
use facturacion_sifen.Prelude.Int.{ℤ, pos, negsuc, ◌+ℤ◌, ◌-ℤ◌, ltb_ℤ, eqb_ℤ}

pub record VoidConfig : Type 0 where
  pub max_range_size : ℕ
  pub reason_max_length : ℕ
  pub allow_single_number : Bool

abbrev pub default_void_config : VoidConfig
default_void_config = record {
  max_range_size = 1000;
  reason_max_length = 150;
  allow_single_number = true;
}

pub record VoidRange : Type 0 where
  pub timbrado : Text
  pub establishment : Text
  pub point : Text
  pub from : ℕ
  pub to : ℕ
  pub type : ℕ
  pub series : Option Text

pub data VoidField : Type 0 where
  timbrado establishment expedition_point type series from to reason : VoidField

pub data VoidRule : Type 0 where
  invalid_timbrado invalid_establishment invalid_expedition_point : VoidRule
  invalid_document_type invalid_series invalid_number reason_length : VoidRule
  range_end_before_start range_too_large : VoidRule

-- A field, its rule and the SIFEN code of the rule, when the manual defines one.
pub record VoidFieldError : Type 0 where
  pub field : VoidField
  pub rule : VoidRule
  pub sifen_code : Option ℕ

-- A field of the parsed JSON body: `undefined`, a string, a number that is an integer, another number,
-- or anything else.
pub data Value : Type 0 where
  undefined : Value
  text : Text → Value
  integer : ℤ → Value
  fraction other : Value

-- The fields that are read of the body; a body that is not an object has none of them.
pub record VoidBody : Type 0 where
  pub timbrado : Value
  pub establishment : Value
  pub expedition_point : Value
  pub type : Value
  pub series : Value
  pub from : Value
  pub to : Value
  pub reason : Value

abbrev max_number : ℕ
max_number = 9999999

-- `DOCUMENT_TYPES.includes(type)`, for the types 1 to 8.
abbrev pub is_document_type : Value → Bool
is_document_type (integer (pos n)) = leb 1 n && leb n 8
is_document_type _ = false

abbrev pub is_number : Value → Bool
is_number (integer (pos n)) = leb 1 n && leb n max_number
is_number _ = false

abbrev pub digits : Value → ℕ → Bool
digits (text s) n = digits_between n n s
digits _ n = false

-- Absent, or `^[A-Z]{2}$`.
abbrev pub is_series : Value → Bool
is_series undefined = true
is_series (text s) = all is_upper s && (length s == 2)
is_series _ = false

-- `value as string` and `value as number`, of a value that a test has passed.
abbrev pub as_text : Value → Text
as_text (text s) = s
as_text _ = []

abbrev pub as_number : Value → ℕ
as_number (integer (pos n)) = n
as_number _ = 0

abbrev pub as_series : Value → Option Text
as_series (text s) = some s
as_series _ = none

-- `typeof body.reason === 'string' ? body.reason.trim() : ''`
abbrev pub reason_of : Value → Text
reason_of (text s) = trim s
reason_of _ = []

unfoldable pub range_size : ℕ → ℕ → ℤ
range_size first last = (pos last -ℤ pos first) +ℤ pos 1

-- `series ?? ''`
abbrev pub or_empty : Option Text → Text
or_empty none = []
or_empty (some s) = s

unfoldable pub ranges_overlap : VoidRange → VoidRange → Bool
ranges_overlap a b =
    text_eq a.timbrado b.timbrado
    && (text_eq a.establishment b.establishment
        && (text_eq a.point b.point
            && ((a.type == b.type)
                && (text_eq (or_empty a.series) (or_empty b.series)
                    && (leb a.from b.to && leb b.from a.to)))))

-- `if (!valid) fail(…)`, before the checks that follow.
abbrev pub unless {ℓ} : {A : Type ℓ} → Bool → A → List A → List A
unless true e rest = rest
unless false e rest = e ∷ rest

abbrev pub fails : VoidField → VoidRule → VoidFieldError
fails field rule = record { field = field; rule = rule; sifen_code = none }

abbrev pub fails_with : VoidField → VoidRule → ℕ → VoidFieldError
fails_with field rule code = record { field = field; rule = rule; sifen_code = some code }

-- The size of a range whose two ends are numbers.
unfoldable pub range_errors : ℕ → ℕ → VoidConfig → List VoidFieldError
range_errors first last config =
    let size = range_size first last in
    if ltb_ℤ size (pos 1) || (eqb_ℤ size (pos 1) && not config.allow_single_number)
    then fails_with to range_end_before_start 4068 ∷ []
    else unless (not (ltb_ℤ (pos config.max_range_size) size)) (fails_with to range_too_large 4067)
        []

-- The errors of a body, in the order of the checks.
unfoldable pub void_errors : VoidBody → VoidConfig → List VoidFieldError
void_errors body config = unless (digits body.timbrado 8) (fails timbrado invalid_timbrado) (
    unless (digits body.establishment 3) (fails establishment invalid_establishment) (
      unless (digits body.expedition_point 3) (fails expedition_point invalid_expedition_point) (
        unless (is_document_type body.type) (fails type invalid_document_type) (
          unless (is_series body.series) (fails series invalid_series) (
            unless (is_number body.from) (fails from invalid_number) (
              unless (is_number body.to) (fails to invalid_number) (
                unless
                  (leb 5 (length (reason_of body.reason))
                    && leb (length (reason_of body.reason)) config.reason_max_length)
                  (fails reason reason_length)
                  (if is_number body.from && is_number body.to
                    then range_errors (as_number body.from) (as_number body.to) config
                    else []))))))))

abbrev pub range_of : VoidBody → VoidRange
range_of body = record {
  timbrado = as_text body.timbrado;
  establishment = as_text body.establishment;
  point = as_text body.expedition_point;
  from = as_number body.from;
  to = as_number body.to;
  type = as_number body.type;
  series = as_series body.series;
}

unfoldable pub parse_void_request :
    VoidBody → VoidConfig → Result (List VoidFieldError) (VoidRange × Text)
parse_void_request body config = elim (void_errors body config) [
  | [] ↦ ok (range_of body, reason_of body.reason)
  | e ∷ es ↦ err (e ∷ es)
]
