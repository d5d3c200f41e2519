-- ===== src/Ruc.antt =====
-- apps/api/src/modules/fiscal-config/domain/ruc.ts: a RUC with its SET modulo-11 check digit.
-- The check digit of a JSON request is a number; a value that is no natural number is refused by the
-- same test as a wrong one, and is left out.
pub mod Checksum
pub mod Detection
pub mod Format
mod Tests
use facturacion_sifen.Prelude.{
  ℕ, ◌+◌, ◌-◌, ◌*◌, ◌%◌, Bool, true, false, List, [], ◌∷◌, ◌++◌, reverse, Option, none, some,
  Result, ok, err, ◌>>=◌, ◌>>◌, guard, Text, ltb, leb, ◌==◌, ◌&&◌, if◌then◌else◌, digit, is_digit,
  digits_between, number, show, length, all,
}

pub data RucError : Type 0 where
  bad_base bad_format : Text → RucError
  bad_check_digit : (expected got : ℕ) → Text → RucError

pub record Ruc : Type 0 where
  pub base : Text
  pub dv : ℕ

-- The loop over the base from its last digit on: the weights cycle through 2..11.
unfoldable pub weighted_sum : List ℕ → ℕ → ℕ → ℕ
weighted_sum [] position sum = sum
weighted_sum (c ∷ cs) position sum =
    weighted_sum cs (position + 1) (sum + digit c * (2 + position % 10))

-- The remainder of the sum to a check digit.
unfoldable pub check_digit_of : ℕ → ℕ
check_digit_of sum = let remainder = sum % 11 in if ltb 1 remainder then 11 - remainder else 0

unfoldable pub compute_ruc_check_digit : Text → Result RucError ℕ
unfolding weighted_sum check_digit_of
compute_ruc_check_digit base =
    if digits_between 3 8 base
    then ok (check_digit_of (weighted_sum (reverse base) 0 0))
    else err (bad_base base)

abbrev pub joined : Text → ℕ → Text
joined base dv = base ++ b'-' ∷ show dv

unfoldable pub create_ruc : Text → ℕ → Result RucError Ruc
unfolding compute_ruc_check_digit
create_ruc base dv = do
  expected ← compute_ruc_check_digit base
  guard (dv == expected) (bad_check_digit expected dv (joined base dv))
  ok (record { base = base; dv = dv })

-- `^(\d{3,8})-(\d)$`: the digits up to the dash, and the one after it.
unfoldable pub split_ruc : Text → Option (Text × Text)
split_ruc [] = none
split_ruc (c ∷ []) = none
split_ruc (c ∷ d ∷ []) = if (c == b'-') && is_digit d then some ([], d ∷ []) else none
split_ruc (c ∷ d ∷ e ∷ cs) = elim (split_ruc (d ∷ e ∷ cs)) [
  | none ↦ none
  | some (base, dv) ↦ if is_digit c then some (c ∷ base, dv) else none
]

unfoldable pub parse_ruc : Text → Result RucError Ruc
unfolding split_ruc create_ruc
parse_ruc raw = elim (split_ruc raw) [
  | none ↦ err (bad_format raw)
  | some (base, dv) ↦
      if leb 3 (length base) && leb (length base) 8
      then create_ruc base (number dv)
      else err (bad_format raw)
]

unfoldable pub format_ruc : Ruc → Text
format_ruc ruc = joined ruc.base ruc.dv
