-- ===== src/Fiscal/Timbrado.antt =====
-- apps/api/src/modules/fiscal-config/domain/timbrado.ts and expedition-point.ts: the authorisation to
-- issue documents, and the points that issue them.
pub mod Validity
mod Tests
use facturacion_sifen.Prelude.{
  ℕ, Bool, true, false, not, Option, none, some, List, [], ◌∷◌, Result, ok, err, ◌>>=◌, ◌>>◌, guard,
  leb, ◌&&◌, ◌||◌, if◌then◌else◌, Text, codes, text_eq, trim, digits_between, number,
}
use facturacion_sifen.Cdc.{split_date, days_in_month}
use facturacion_sifen.Numbering.Series.{leb_text}
use facturacion_sifen.Fiscal.{normalize_optional}

pub data DateField : Type 0 where
  validity_start validity_end : DateField

pub data InvalidTimbrado : Type 0 where
  bad_number : Text → InvalidTimbrado
  bad_date : DateField → Text → InvalidTimbrado
  starts_too_early ends_before_start : InvalidTimbrado

pub record Timbrado : Type 0 where
  pub number : Text
  pub validity_start : Text
  pub validity_end : Option Text

-- `^(?!0{8}$)\d{8}$`
abbrev pub is_timbrado_number : Text → Bool
is_timbrado_number value = digits_between 8 8 value && not (text_eq value (codes "00000000"))

abbrev pub min_validity_start : Text
min_validity_start = codes "2018-05-01"

-- `YYYY-MM-DD`, and a day of the calendar: the date comes back from its instant as it was.
unfoldable pub is_calendar_date : Text → Bool
is_calendar_date value = elim (split_date value) [
  | none ↦ false
  | some (y, m, d) ↦
      leb 1 (number m)
      && (leb (number m) 12
          && (leb 1 (number d) && leb (number d) (days_in_month (number y) (number m))))
]

unfoldable pub require_valid_date : DateField → Text → Result InvalidTimbrado Text
require_valid_date field raw =
    if is_calendar_date (trim raw) then ok (trim raw) else err (bad_date field raw)

abbrev pub require_end : Option Text → Result InvalidTimbrado (Option Text)
require_end none = ok none
require_end (some raw) = require_valid_date validity_end raw >>= λ value. ok (some value)

abbrev pub ends_after : Text → Option Text → Bool
ends_after start none = true
ends_after start (some end) = leb_text start end

unfoldable pub create_timbrado : Timbrado → Result InvalidTimbrado Timbrado
create_timbrado input = do
  guard (is_timbrado_number (trim input.number)) (bad_number input.number)
  start ← require_valid_date validity_start input.validity_start
  guard (leb_text min_validity_start start) starts_too_early
  end ← require_end (normalize_optional input.validity_end)
  guard (ends_after start end) ends_before_start
  ok (record { number = trim input.number; validity_start = start; validity_end = end })

pub data InvalidExpeditionPoint : Type 0 where
  invalid_expedition_point : Text → InvalidExpeditionPoint

pub record ExpeditionPoint : Type 0 where
  pub code : Text

-- `^(?!000$)\d{3}$`
abbrev pub is_point_code : Text → Bool
is_point_code code = digits_between 3 3 code && not (text_eq code (codes "000"))

unfoldable pub create_expedition_point : Text → Result InvalidExpeditionPoint ExpeditionPoint
create_expedition_point code = do
  guard (is_point_code (trim code)) (invalid_expedition_point code)
  ok (record { code = trim code })
