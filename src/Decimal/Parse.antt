-- ===== src/Decimal/Parse.antt =====
-- `Decimal.parse` and `Decimal.parsePlain`, with the two regular expressions as a scanner.
use facturacion_sifen.Prelude.{
  ℕ, ◌-◌, Bool, true, false, not, [], ◌∷◌, ◌++◌, Option, none, some, ok, err, ltb, ◌==◌, ◌&&◌, ◌||◌,
  if◌then◌else◌, is_digit, number, length, Text, replicate,
}
use facturacion_sifen.Prelude.Int.{pos}
use facturacion_sifen.Decimal.{
  scale, max_integer_digits, max_significant_digits_from_number, decimal, minus, DecimalParseResult,
  not_a_decimal, not_finite, too_many_significant_digits, too_many_integer_digits,
  too_many_decimals, strip_start, strip_end, strip_leading, pad_end, is_nil,
}

-- The digits at the start, and what follows them.
unfoldable pub span_digits : Text → Text × Text
span_digits [] = ([], [])
span_digits (c ∷ cs) =
    let (more, rest) = span_digits cs in if is_digit c then (c ∷ more, rest) else ([], c ∷ cs)

-- What `^(-?)(\d+)(?:\.(\d+))?` matches, and the text that is left.
pub record Scanned : Type 0 where
  pub negative : Bool
  pub int : Text
  pub frac : Text
  pub rest : Text

abbrev scanned : Bool → Text → Text → Text → Scanned
scanned n i f r = record { negative = n; int = i; frac = f; rest = r }

-- The optional fraction: a dot that no digit follows is left over.
unfoldable pub scan_fraction : Bool → Text → Text → Scanned
unfolding span_digits
scan_fraction negative int [] = scanned negative int [] []
scan_fraction negative int (c ∷ cs) =
    let (frac, rest) = span_digits cs in
    if (c == b'.') && not (is_nil frac)
    then scanned negative int frac rest
    else scanned negative int [] (c ∷ cs)

unfoldable pub scan_unsigned : Bool → Text → Option Scanned
unfolding span_digits scan_fraction
scan_unsigned negative text =
    let (int, rest) = span_digits text in
    if is_nil int then none else some (scan_fraction negative int rest)

unfoldable pub scan : Text → Option Scanned
unfolding scan_unsigned
scan [] = none
scan (c ∷ cs) = if c == b'-' then scan_unsigned true cs else scan_unsigned false (c ∷ cs)

-- The checks of `parsePlain` on the groups that `PLAIN` has matched.
unfoldable pub read_plain : Bool → Text → Text → DecimalParseResult
unfolding strip_start strip_end strip_leading
read_plain negative int_group frac_group =
    let int = strip_leading int_group in
    let frac = strip_end frac_group in
    let magnitude = number (int ++ pad_end scale frac) in
    if ltb max_integer_digits (length (strip_start int))
    then err too_many_integer_digits
    else if ltb scale (length frac)
    then err too_many_decimals
    else ok (decimal (if negative then minus magnitude else pos magnitude))

unfoldable pub parse_plain : Text → DecimalParseResult
parse_plain text = elim (scan text) [
  | none ↦ err not_a_decimal
  | some s ↦ if is_nil s.rest then read_plain s.negative s.int s.frac else err not_a_decimal
]

-- `-?digits.digits` without its exponent, as `expandExponent` writes it.
unfoldable pub expand_exponent : Scanned → (negative_exponent : Bool) → ℕ → Text
expand_exponent s negative_exponent exponent =
    let sign = if s.negative then b'-' ∷ [] else [] in
    let digits = s.int ++ s.frac in
    if negative_exponent
    then sign ++ b'0' ∷ b'.' ∷ (replicate (exponent - length s.int) b'0' ++ digits)
    else sign ++ (digits ++ replicate (exponent - length s.frac) b'0')

-- The exponent of `EXPONENT`, on what follows the digits of a number.
unfoldable pub plain_with : Text → Scanned → Text → Text
unfolding span_digits expand_exponent
plain_with text s (e ∷ c ∷ power) =
    let (digits, rest) = span_digits power in
    if (e == b'e') && ((c == b'+') || (c == b'-')) && not (is_nil digits) && is_nil rest
    then expand_exponent s (c == b'-') (number digits)
    else text
plain_with text s _ = text

-- The text of a number, its exponent expanded if it has one.
unfoldable pub plain_of : Text → Text
unfolding scan plain_with
plain_of text = elim (scan text) [ none ↦ text | some s ↦ plain_with text s s.rest ]

-- The parts of `plain.replace('-', '').split('.')` that are read.
unfoldable pub split_point : Text → Text × Text
split_point [] = ([], [])
split_point (c ∷ cs) =
    let (int, frac) = split_point cs in
    if c == b'-' then (int, frac) else if c == b'.' then ([], cs) else (c ∷ int, frac)

unfoldable pub significant_digits : Text → Text → ℕ
unfolding strip_start strip_end
significant_digits int frac = length (strip_end (strip_start (int ++ frac)))

-- `Decimal.parse` of a `string`, and of a `number` by the text that `String(number)` gives.
pub data Input : Type 0 where
  text : Text → Input
  number_text : Option Text → Input

unfoldable pub parse : Input → DecimalParseResult
unfolding scan read_plain parse_plain plain_of split_point significant_digits
parse (text t) = parse_plain t
parse (number_text none) = err not_finite
parse (number_text (some t)) =
    let (int, frac) = split_point (plain_of t) in
    if ltb max_significant_digits_from_number (significant_digits int frac)
    then err too_many_significant_digits
    else parse_plain (plain_of t)
