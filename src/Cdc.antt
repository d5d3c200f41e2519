-- ===== src/Cdc.antt =====
-- apps/api/src/modules/emission/domain/cdc.ts: building and splitting the 44-digit CDC.
-- `Date.UTC` gives back the year, month and day that it was given exactly for a day of the Gregorian
-- calendar; the years 0 to 99 are read as 1900 to 1999 and never come back. `is_utc_date` says that.
pub mod Fields
pub mod Dates
pub mod Cuts
pub mod RoundTrip
pub mod Reading
pub mod Detection
mod Tests
use facturacion_sifen.Prelude.{
  ℕ, ◌+◌, ◌-◌, ◌%◌, Bool, true, false, not, List, [], ◌∷◌, ◌++◌, Option, none, some, reverse,
  Result, ok, err, ◌>>=◌, ◌>>◌, guard, map_err, Text, ltb, leb, ◌==◌, ◌&&◌, ◌||◌, if◌then◌else◌,
  all, is_digit, digits_between, number, show, length, pad_start, slice, take,
}
use facturacion_sifen.Ruc.{create_ruc, weighted_sum, check_digit_of}

-- The `field` of an `InvalidCdcError`.
pub data CdcField : Type 0 where
  document_type ruc_base ruc_dv establishment point document_number taxpayer_type : CdcField
  issue_date emission_type security_code base cdc : CdcField

-- Its reason.
pub data CdcReason : Type 0 where
  up_to_digits : (width : ℕ) → CdcReason
  must_be_between : (lo hi : ℕ) → CdcReason
  must_be_one_of : List ℕ → CdcReason
  expected_date no_calendar_date expected_43_digits expected_44_digits : CdcReason
  dv_mismatch equals_document_number check_digit_mismatch : CdcReason

pub record CdcError : Type 0 where
  pub field : CdcField
  pub reason : CdcReason

abbrev pub invalid : CdcField → CdcReason → CdcError
invalid f r = record { field = f; reason = r }

pub record CdcParts : Type 0 where
  pub document_type : Text
  pub ruc_base : Text
  pub ruc_dv : ℕ
  pub establishment : Text
  pub point : Text
  pub document_number : Text
  pub taxpayer_type : ℕ
  pub issue_date : Text
  pub emission_type : ℕ
  pub security_code : Text

unfoldable pub digits : CdcField → Text → (lo hi width : ℕ) → Result CdcError Text
digits field value lo hi width =
    if not (digits_between 1 width value)
    then err (invalid field (up_to_digits width))
    else if ltb (number value) lo || ltb hi (number value)
    then err (invalid field (must_be_between lo hi))
    else ok (pad_start width b'0' value)

abbrev pub includes : List ℕ → ℕ → Bool
includes [] value = false
includes (x ∷ xs) value = (x == value) || includes xs value

unfoldable pub one_of : CdcField → ℕ → List ℕ → Result CdcError ℕ
one_of field value allowed =
    if includes allowed value then ok value else err (invalid field (must_be_one_of allowed))

-- `^(\d{4})-(\d{2})-(\d{2})$`
unfoldable pub split_date : Text → Option (Text × Text × Text)
split_date (y1 ∷ y2 ∷ y3 ∷ y4 ∷ h1 ∷ m1 ∷ m2 ∷ h2 ∷ d1 ∷ d2 ∷ []) =
    if all is_digit (y1 ∷ y2 ∷ y3 ∷ y4 ∷ m1 ∷ m2 ∷ d1 ∷ d2 ∷ []) && (h1 == b'-') && (h2 == b'-')
    then some (y1 ∷ y2 ∷ y3 ∷ y4 ∷ [], m1 ∷ m2 ∷ [], d1 ∷ d2 ∷ [])
    else none
split_date _ = none

unfoldable pub is_leap : ℕ → Bool
is_leap y = (y % 4 == 0) && (not (y % 100 == 0) || (y % 400 == 0))

unfoldable pub days_in_month : ℕ → ℕ → ℕ
unfolding is_leap
days_in_month y m =
    if m == 2
    then (if is_leap y then 29 else 28)
    else if (m == 11) || (m == 9) || (m == 6) || (m == 4)
    then 30
    else 31

unfoldable pub is_utc_date : ℕ → ℕ → ℕ → Bool
unfolding days_in_month
is_utc_date y m d = leb 100 y && leb 1 m && leb m 12 && leb 1 d && leb d (days_in_month y m)

unfoldable pub compact_date : Text → Result CdcError Text
unfolding split_date is_utc_date
compact_date value = elim (split_date value) [
  | none ↦ err (invalid issue_date expected_date)
  | some (year, month, day) ↦
      if ltb (number year) 1 || not (is_utc_date (number year) (number month) (number day))
      then err (invalid issue_date no_calendar_date)
      else ok (year ++ (month ++ day))
]

unfoldable pub compute_cdc_check_digit : Text → Result CdcError ℕ
unfolding weighted_sum check_digit_of
compute_cdc_check_digit s =
    if digits_between 43 43 s
    then ok (check_digit_of (weighted_sum (reverse s) 0 0))
    else err (invalid base expected_43_digits)

-- The validated parts that `buildCdc` joins, each padded to its width.
unfoldable pub check_parts : CdcParts → Result CdcError CdcParts
check_parts parts = do
  dt ← digits document_type parts.document_type 1 8 2
  rb ← digits ruc_base parts.ruc_base 0 99999999 8
  r ← map_err (λ _. invalid ruc_dv dv_mismatch) (create_ruc rb parts.ruc_dv)
  es ← digits establishment parts.establishment 1 999 3
  pt ← digits point parts.point 1 999 3
  dn ← digits document_number parts.document_number 1 9999999 7
  tt' ← one_of taxpayer_type parts.taxpayer_type (1 ∷ 2 ∷ [])
  da ← compact_date parts.issue_date
  et ← one_of emission_type parts.emission_type (1 ∷ 2 ∷ [])
  sc ← digits security_code parts.security_code 1 999999999 9
  guard (not (number sc == number dn)) (invalid security_code equals_document_number)
  ok (record {
    document_type = dt;
    ruc_base = rb;
    ruc_dv = parts.ruc_dv;
    establishment = es;
    point = pt;
    document_number = dn;
    taxpayer_type = tt';
    issue_date = da;
    emission_type = et;
    security_code = sc;
  })

unfoldable pub join_parts : CdcParts → Text
join_parts f =
    f.document_type
    ++ (f.ruc_base
        ++ (show f.ruc_dv
            ++ (f.establishment
                ++ (f.point
                    ++ (f.document_number
                        ++ (show f.taxpayer_type
                            ++ (f.issue_date ++ (show f.emission_type ++ f.security_code))))))))

unfoldable pub build_cdc : CdcParts → Result CdcError Text
build_cdc parts = do
  f ← check_parts parts
  dv ← compute_cdc_check_digit (join_parts f)
  ok (join_parts f ++ show dv)

-- The slices that `parseCdc` takes.
unfoldable pub parts_of : Text → CdcParts
parts_of s = record {
  document_type = slice s 0 2;
  ruc_base = slice s 2 10;
  ruc_dv = number (slice s 10 11);
  establishment = slice s 11 14;
  point = slice s 14 17;
  document_number = slice s 17 24;
  taxpayer_type = number (slice s 24 25);
  issue_date = slice s 25 29 ++ b'-' ∷ (slice s 29 31 ++ b'-' ∷ slice s 31 33);
  emission_type = number (slice s 33 34);
  security_code = slice s 34 43;
}

unfoldable pub parse_cdc : Text → Result CdcError CdcParts
parse_cdc s = do
  guard (digits_between 44 44 s) (invalid cdc expected_44_digits)
  dv ← compute_cdc_check_digit (slice s 0 43)
  guard (dv == number (slice s 43 44)) (invalid cdc check_digit_mismatch)
  built ← build_cdc (parts_of s)
  ok (parts_of s)
