-- ===== src/Decimal/RoundTrip.antt =====
-- `Decimal.parse` on the text of `toString`.
use facturacion_sifen.Prelude.{
  ℕ, zero, suc, ◌+◌, ◌-◌, ◌*◌, ◌/◌, ◌%◌, ◌≤◌, ◌≡◌, refl, sym, ap, ◌∙◌, ◌≡⟨◌⟩◌, ◌∎, arith, Bool,
  true, false, inl, inr, [], ◌∷◌, ◌++◌, Text, all, all-append, is_digit, number, show, length,
  length-append, replicate, length-replicate, all_zeros, number-pad_start, ltb-false, Bool-cases,
  ◌==◌, ◌^◌, append-nil, pad_start, number_from, ok, if◌then◌else◌, some,
}
use facturacion_sifen.Prelude.Int.{ℤ, pos, negsuc}
use facturacion_sifen.Decimal.{
  Decimal, decimal, minus, strip_start, strip_end, strip_leading, pad_end, is_nil, integer_digits,
  to_string, factor,
}
use facturacion_sifen.Decimal.Parse.{
  Scanned, span_digits, scan_fraction, scan_unsigned, scan, read_plain, parse_plain, parse, text,
}
use facturacion_sifen.Decimal.Numerals.{
  number_from-append, number_from-shift, show-all, number-show, Leads, show-Leads, length-show,
  show_zero, strip_start_of_Leads, strip_leading_of_Leads, length-strip_end, strip_end_idempotent,
  strip_end-all, strip_end-restored,
}

-- The text does not go on with a digit.
abbrev Stops : Text → Type 0
Stops [] = Unit
Stops (c ∷ cs) = is_digit c ≡ false

span_digits_of_all :
    (xs ys : Text) → all is_digit xs ≡ true → Stops ys → span_digits (xs ++ ys) ≡ (xs, ys)
unfolding span_digits
span_digits_of_all [] [] h k = refl
span_digits_of_all [] (y ∷ ys) h k = rw k
span_digits_of_all (x ∷ xs) ys h k = ground (arith, span_digits_of_all xs ys)

-- The integer part and the fraction of a magnitude, as they are printed.
abbrev int_text : ℕ → Text
int_text m = show (m / factor)

abbrev frac_text : ℕ → Text
frac_text m = strip_end (pad_start 8 b'0' (show (m % factor)))

-- What is printed of a magnitude.
abbrev body_text : ℕ → Text
body_text m = if is_nil (frac_text m) then int_text m else int_text m ++ b'.' ∷ frac_text m

length-pad_start : (m : ℕ) → length (pad_start 8 b'0' (show (m % factor))) ≡ 8
length-pad_start m = omega (
  arith,
  length-show (m % factor) 7 (omega arith),
  length-append (replicate (8 - length (show (m % factor))) b'0') (show (m % factor)),
  length-replicate {A = ℕ} (8 - length (show (m % factor))) b'0',
)

frac_text-all : (m : ℕ) → all is_digit (frac_text m) ≡ true
frac_text-all m = strip_end-all (pad_start 8 b'0' (show (m % factor))) (
    rw (
      all-append is_digit (replicate (8 - length (show (m % factor))) b'0') (show (m % factor)),
      show-all (m % factor),
      all_zeros (8 - length (show (m % factor))),
    ))

pad_end-frac_text : (m : ℕ) → pad_end 8 (frac_text m) ≡ pad_start 8 b'0' (show (m % factor))
pad_end-frac_text m =
    ap (λ (n : ℕ). frac_text m ++ replicate (n - length (frac_text m)) b'0')
      (sym (length-pad_start m))
    ∙ strip_end-restored (pad_start 8 b'0' (show (m % factor)))

-- The digits that `parsePlain` joins are those of the magnitude.
number-joined : (m : ℕ) → number (int_text m ++ pad_end 8 (frac_text m)) ≡ m
unfolding number
number-joined m =
    number (int_text m ++ pad_end 8 (frac_text m))
    ≡⟨ ap (λ t. number (int_text m ++ t)) (pad_end-frac_text m) ⟩ number (int_text m ++ padded)
    ≡⟨ number_from-append 0 (int_text m) padded ⟩ number_from (number (int_text m)) padded
    ≡⟨ number_from-shift (number (int_text m)) padded ⟩
      number (int_text m) * 10 ^ length padded + number padded
    ≡⟨ ap (λ (n : ℕ). number (int_text m) * 10 ^ n + number padded) (length-pad_start m) ⟩
      number (int_text m) * 100000000 + number padded
    ≡⟨ omega (
      arith,
      number-show (m / factor),
      number-show (m % factor),
      number-pad_start 8 (show (m % factor)),
    ) ⟩
      m ∎
  where
    padded : Text
    padded = pad_start 8 b'0' (show (m % factor))

-- The printed integer part keeps its digits, and has as many as `integerDigits` says.
int_text-kept : (k : ℕ) → strip_leading (show k) ≡ show k
unfolding strip_leading
int_text-kept zero = rw show_zero
int_text-kept (suc k) = strip_leading_of_Leads (show (suc k)) (show-Leads (suc k) (omega arith))

int_text-length : (k : ℕ) → length (strip_start (show k)) ≡ (if k == 0 then 0 else length (show k))
int_text-length zero = rw show_zero (unfold strip_start in refl)
int_text-length (suc k) =
    ap length (strip_start_of_Leads (show (suc k)) (show-Leads (suc k) (omega arith)))
    ∙ ground arith

-- The integer digits of a magnitude.
abbrev digits_of : ℕ → ℕ
digits_of m = if m / factor == 0 then 0 else length (show (m / factor))

read_plain-printed :
    (negative : Bool) (m : ℕ)
    → digits_of m ≤ 15
    → read_plain negative (int_text m) (frac_text m)
      ≡ ok (decimal (if negative then minus m else pos m))
unfolding read_plain
read_plain-printed negative m h = rw (
  int_text-kept (m / factor),
  strip_end_idempotent (pad_start 8 b'0' (show (m % factor))),
  number-joined m,
  ltb-false 15 (length (strip_start (int_text m))) (omega (arith, int_text-length (m / factor))),
  ltb-false 8 (length (frac_text m))
      (omega (arith, length-strip_end (pad_start 8 b'0' (show (m % factor))), length-pad_start m)),
)

show-not_nil : (k : ℕ) → is_nil (show k) ≡ false
show-not_nil zero = rw show_zero
show-not_nil (suc k) = of_Leads (show (suc k)) (show-Leads (suc k) (omega arith))
  where
    of_Leads : (s : Text) → Leads s → is_nil s ≡ false
    of_Leads [] h = absurd h
    of_Leads (c ∷ cs) h = refl

-- An integer part and a fraction, as they are printed.
abbrev body : Text → Text → Text
body int frac = if is_nil frac then int else int ++ b'.' ∷ frac

abbrev result_of : Bool → Text → Text → Scanned
result_of negative int frac = record { negative = negative; int = int; frac = frac; rest = [] }

scan_unsigned-body :
    (negative : Bool) (int frac : Text)
    → all is_digit int ≡ true
    → is_nil int ≡ false
    → all is_digit frac ≡ true
    → scan_unsigned negative (body int frac) ≡ some (result_of negative int frac)
unfolding scan_unsigned scan_fraction
scan_unsigned-body negative int [] h nonempty k =
    rw (sym (append-nil int)) (rw (span_digits_of_all int [] h tt, nonempty) (rw (append-nil int)))
scan_unsigned-body negative int (c ∷ cs) h nonempty k =
    let rest : span_digits (c ∷ cs) ≡ (c ∷ cs, []) =
      ap span_digits (sym (append-nil (c ∷ cs))) ∙ span_digits_of_all (c ∷ cs) [] k tt in
    rw (span_digits_of_all int (b'.' ∷ c ∷ cs) h refl, nonempty, rest)

scan_negative : (s : Text) → scan (b'-' ∷ s) ≡ scan_unsigned true s
unfolding scan
scan_negative s = refl

scan_positive :
    (int frac : Text)
    → all is_digit int ≡ true
    → is_nil int ≡ false
    → scan (body int frac) ≡ scan_unsigned false (body int frac)
unfolding scan
scan_positive [] frac h nonempty = absurd (ground arith)
scan_positive (c ∷ cs) [] h nonempty = ground arith
scan_positive (c ∷ cs) (d ∷ ds) h nonempty = ground arith

parse_plain_of_scan :
    (s int frac : Text) (negative : Bool)
    → scan s ≡ some (result_of negative int frac)
    → parse_plain s ≡ read_plain negative int frac
unfolding parse_plain
parse_plain_of_scan s int frac negative h = rw (h, parse_plain)

to_string-pos : (m : ℕ) → to_string (decimal (pos m)) ≡ body (int_text m) (frac_text m)
unfolding to_string
to_string-pos m = refl

to_string-negsuc :
    (m : ℕ) → to_string (decimal (negsuc m)) ≡ b'-' ∷ body (int_text (suc m)) (frac_text (suc m))
unfolding to_string
to_string-negsuc m = elim (Bool-cases (is_nil (frac_text (suc m)))) [ inl e ↦ rw e | inr e ↦ rw e ]

scan_body :
    (negative : Bool) (m : ℕ)
    → scan_unsigned negative (body (int_text m) (frac_text m))
      ≡ some (result_of negative (int_text m) (frac_text m))
scan_body negative m =
    scan_unsigned-body negative (int_text m) (frac_text m) (show-all (m / factor))
      (show-not_nil (m / factor)) (frac_text-all m)

parse_plain-units :
    (n : ℤ) → integer_digits (decimal n) ≤ 15 → parse_plain (to_string (decimal n)) ≡ ok (decimal n)
unfolding integer_digits
parse_plain-units (pos m) h =
    parse_plain (to_string (decimal (pos m)))
    ≡⟨ ap parse_plain (to_string-pos m) ⟩ parse_plain (body (int_text m) (frac_text m))
    ≡⟨ parse_plain_of_scan _ (int_text m) (frac_text m) false (
        scan_positive (int_text m) (frac_text m) (show-all (m / factor)) (show-not_nil (m / factor))
        ∙ scan_body false m) ⟩
      read_plain false (int_text m) (frac_text m)
    ≡⟨ read_plain-printed false m h ⟩ ok (decimal (pos m)) ∎
parse_plain-units (negsuc m) h =
    parse_plain (to_string (decimal (negsuc m)))
    ≡⟨ ap parse_plain (to_string-negsuc m) ⟩
      parse_plain (b'-' ∷ body (int_text (suc m)) (frac_text (suc m)))
    ≡⟨ parse_plain_of_scan _ (int_text (suc m)) (frac_text (suc m)) true
        (scan_negative _ ∙ scan_body true (suc m)) ⟩
      read_plain true (int_text (suc m)) (frac_text (suc m))
    ≡⟨ read_plain-printed true (suc m) h ⟩ ok (decimal (negsuc m)) ∎

-- Every decimal of at most 15 integer digits is read back from its text, exactly.
pub parse-to_string : (a : Decimal) → integer_digits a ≤ 15 → parse (text (to_string a)) ≡ ok a
unfolding parse
parse-to_string a h = parse_plain-units a.units h
