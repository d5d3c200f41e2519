-- ===== src/Decimal.antt =====
-- apps/api/src/modules/emission/domain/decimal.ts: an exact decimal as a BigInt of 10^-8 units.
-- A bigint is an integer; `n / d` and `n % d` go toward zero, and every divisor is a positive number.
-- `Decimal.parse` of a `number` starts from the text that `String(number)` gives, which is its argument
-- here: `number_text none` stands for a number that is not finite.
pub mod Rounding
pub mod Modes
pub mod Arithmetic
pub mod Parse
pub mod Numerals
pub mod RoundTrip
pub mod Fits
pub mod Signs
mod Tests
use facturacion_sifen.Prelude.{
  ℕ, zero, suc, ◌+◌, ◌-◌, ◌*◌, ◌/◌, ◌%◌, ◌^◌, min, Bool, true, false, not, List, [], ◌∷◌, ◌++◌,
  Option, none, some, reverse, Result, ok, err, ltb, leb, ◌==◌, ◌&&◌, ◌||◌, if◌then◌else◌, all,
  is_digit, number, show, length, pad_start, replicate, Text,
}
use facturacion_sifen.Prelude.Int.{ℤ, pos, negsuc, ◌+ℤ◌, ◌-ℤ◌, ◌*ℤ◌, ltb_ℤ, pos_part, neg_part}

abbrev pub scale : ℕ
scale = 8

abbrev pub factor : ℕ
factor = 100000000

abbrev pub max_integer_digits : ℕ
max_integer_digits = 15

abbrev pub max_significant_digits_from_number : ℕ
max_significant_digits_from_number = 15

pub data RoundingMode : Type 0 where
  truncate floor half_up half_even : RoundingMode

-- `-n`, for a natural number.
abbrev pub minus : ℕ → ℤ
minus zero = pos 0
minus (suc n) = negsuc n

abbrev pub neg_ℤ : ℤ → ℤ
neg_ℤ (pos n) = minus n
neg_ℤ (negsuc n) = pos (suc n)

unfoldable pub absolute : ℤ → ℕ
absolute (pos n) = n
absolute (negsuc n) = suc n

abbrev pub is_neg : ℤ → Bool
is_neg (pos n) = false
is_neg (negsuc n) = true

-- The quotient and the remainder of bigints; the remainder has the sign of `n`.
unfoldable pub quotient_of : ℤ → ℕ → ℤ
quotient_of (pos n) d = pos (n / d)
quotient_of (negsuc n) d = minus (suc n / d)

unfoldable pub remainder_of : ℤ → ℕ → ℤ
remainder_of (pos n) d = pos (n % d)
remainder_of (negsuc n) d = minus (suc n % d)

abbrev pub is_zero_ℤ : ℤ → Bool
is_zero_ℤ (pos zero) = true
is_zero_ℤ _ = false

-- `n ± 1`, away from zero.
abbrev pub away_from : ℤ → ℤ → ℤ
away_from n quotient = if is_neg n then quotient -ℤ pos 1 else quotient +ℤ pos 1

unfoldable pub divide_rounded : ℤ → ℕ → RoundingMode → ℤ
unfolding quotient_of remainder_of absolute ◌+ℤ◌ ◌-ℤ◌
divide_rounded n d mode =
    let quotient = quotient_of n d in
    let remainder = remainder_of n d in
    let away = away_from n quotient in
    if is_zero_ℤ remainder then quotient else elim mode [
      | truncate ↦ quotient
      | floor ↦ if is_neg n then away else quotient
      | half_up ↦ if leb d (absolute remainder * 2) then away else quotient
      | half_even ↦
          if ltb d (absolute remainder * 2)
          then away
          else if (absolute remainder * 2 == d) && not (absolute quotient % 2 == 0)
          then away
          else quotient
    ]

pub record Decimal : Type 0 where
  pub units : ℤ

abbrev pub decimal : ℤ → Decimal
decimal n = record { units = n }

pub data DecimalParseFailure : Type 0 where
  not_a_decimal not_finite too_many_significant_digits : DecimalParseFailure
  too_many_integer_digits too_many_decimals : DecimalParseFailure

abbrev pub DecimalParseResult : Type 0
DecimalParseResult = Result DecimalParseFailure Decimal

abbrev pub zero_decimal : Decimal
zero_decimal = decimal (pos 0)

pub data Comparison : Type 0 where
  less same more : Comparison

abbrev pub eq_ℤ : ℤ → ℤ → Bool
eq_ℤ a b = (pos_part a == pos_part b) && (neg_part a == neg_part b)

unfoldable pub compare : Decimal → Decimal → Comparison
compare a b = if eq_ℤ a.units b.units then same else if ltb_ℤ a.units b.units then less else more

unfoldable pub equals : Decimal → Decimal → Bool
equals a b = eq_ℤ a.units b.units

unfoldable pub is_zero : Decimal → Bool
is_zero a = eq_ℤ a.units (pos 0)

unfoldable pub is_negative : Decimal → Bool
is_negative a = ltb_ℤ a.units (pos 0)

unfoldable pub negate : Decimal → Decimal
negate a = decimal (neg_ℤ a.units)

unfoldable pub add : Decimal → Decimal → Decimal
unfolding ◌+ℤ◌
add a b = decimal (a.units +ℤ b.units)

unfoldable pub subtract : Decimal → Decimal → Decimal
unfolding ◌-ℤ◌
subtract a b = decimal (a.units -ℤ b.units)

unfoldable pub multiply : Decimal → Decimal → RoundingMode → Decimal
unfolding ◌*ℤ◌ divide_rounded
multiply a b mode = decimal (divide_rounded (a.units *ℤ b.units) factor mode)

unfoldable pub multiply_exact : Decimal → Decimal → Option Decimal
multiply_exact a b =
    let raw = a.units *ℤ b.units in
    if is_zero_ℤ (remainder_of raw factor) then some (decimal (quotient_of raw factor)) else none

pub data RangeError : Type 0 where
  division_by_zero decimals_out_of_range : RangeError

abbrev pub sign_of : ℤ → ℤ
sign_of n = if is_neg n then negsuc 0 else pos 1

unfoldable pub divide : Decimal → Decimal → RoundingMode → Result RangeError Decimal
unfolding ◌*ℤ◌ divide_rounded absolute
divide a b mode =
    if is_zero_ℤ b.units
    then err division_by_zero
    else ok (
        decimal
          (divide_rounded ((a.units *ℤ pos factor) *ℤ sign_of b.units) (absolute b.units) mode))

unfoldable pub round_to : Decimal → ℕ → RoundingMode → Result RangeError Decimal
round_to a decimals mode =
    if ltb scale decimals
    then err decimals_out_of_range
    else let step = 10 ^ (scale - decimals) in
      ok (decimal (divide_rounded a.units step mode *ℤ pos step))

-- `replace(/^0+/, '')`
unfoldable pub strip_start : Text → Text
strip_start [] = []
strip_start (c ∷ cs) = let rest = strip_start cs in if c == b'0' then rest else c ∷ cs

abbrev pub is_nil : Text → Bool
is_nil [] = true
is_nil (c ∷ cs) = false

-- `replace(/0+$/, '')`
unfoldable pub strip_end : Text → Text
strip_end [] = []
strip_end (c ∷ cs) = let rest = strip_end cs in if is_nil rest && (c == b'0') then [] else c ∷ rest

-- `replace(/^0+(?=\d)/, '')`, on digits: one digit is left.
unfoldable pub strip_leading : Text → Text
strip_leading [] = []
strip_leading (c ∷ []) = c ∷ []
strip_leading (c ∷ d ∷ cs) =
    let rest = strip_leading (d ∷ cs) in if c == b'0' then rest else c ∷ d ∷ cs

-- `s.padEnd(width, '0')`
abbrev pub pad_end : ℕ → Text → Text
pad_end width s = s ++ replicate (width - length s) b'0'

unfoldable pub fraction : Decimal → Text
unfolding strip_end absolute
fraction a = strip_end (pad_start scale b'0' (show (absolute a.units % factor)))

unfoldable pub decimal_places : Decimal → ℕ
unfolding fraction
decimal_places a = length (fraction a)

unfoldable pub integer_digits : Decimal → ℕ
unfolding absolute
integer_digits a = let int = absolute a.units / factor in if int == 0 then 0 else length (show int)

unfoldable pub fits_in : Decimal → ℕ → ℕ → Bool
unfolding integer_digits decimal_places
fits_in a integers decimals = leb (integer_digits a) integers && leb (decimal_places a) decimals

unfoldable pub to_string : Decimal → Text
unfolding fraction absolute
to_string a =
    let int = show (absolute a.units / factor) in
    let frac = fraction a in
    let sign = if is_neg a.units then b'-' ∷ [] else [] in
    if is_nil frac then sign ++ int else sign ++ (int ++ b'.' ∷ frac)
