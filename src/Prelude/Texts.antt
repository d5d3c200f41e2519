-- ===== src/Prelude/Texts.antt =====
-- Texts as lists of UTF-16 code units, with the string operations and the character classes of the
-- regular expressions that the source uses.
use Prim.Native.Nat.{ℕ, zero, suc, ◌+◌, ◌-◌, ◌*◌, ◌/◌, ◌%◌, ◌<◌}
use Prim.Native.Char.{code}
use Prim.Native.String.{String}
use mathlib.Core.Path.{◌≡◌, refl}
use mathlib.Core.Logic.{◌↔◌}
use mathlib.Core.Bool.{Bool, true, false, ◌&&◌, ◌||◌}
use mathlib.Core.List.{List, [], ◌∷◌, ◌++◌, reverse}
use native.Mathlib.Omega.{arith}
use facturacion_sifen.Prelude.Tests.{ltb, leb, ◌==◌, if◌then◌else◌}
use facturacion_sifen.Prelude.Lists.{length, take, drop, replicate}

abbrev pub Text : Type 0
Text = List ℕ

-- The code units of a literal.
abbrev pub codes : String → Text
codes String.[] = []
codes (String.◌∷◌ c s) = code c ∷ codes s

-- `a === b` on texts.
abbrev pub text_eq : Text → Text → Bool
text_eq [] [] = true
text_eq (x ∷ xs) (y ∷ ys) = (x == y) && text_eq xs ys
text_eq _ _ = false

pub text_eq_refl : (a : Text) → text_eq a a ≡ true
text_eq_refl [] = refl
text_eq_refl (x ∷ xs) = ground (arith, text_eq_refl xs)

pub text_eq_sound : (a b : Text) → text_eq a b ≡ true → a ≡ b
text_eq_sound [] [] h = refl
text_eq_sound (x ∷ xs) (y ∷ ys) h = ground (arith, text_eq_sound xs ys)
text_eq_sound [] (y ∷ ys) h = ground arith
text_eq_sound (x ∷ xs) [] h = ground arith

pub text_eq_iff : (a b : Text) → (text_eq a b ≡ true) ↔ (a ≡ b)
text_eq_iff a b = (text_eq_sound a b, λ e. rw e (text_eq_refl b))

abbrev pub all : (ℕ → Bool) → Text → Bool
all p [] = true
all p (c ∷ cs) = p c && all p cs

-- `\d`
abbrev pub is_digit : ℕ → Bool
is_digit c = leb b'0' c && leb c b'9'

-- `[A-Z]`
abbrev pub is_upper : ℕ → Bool
is_upper c = leb b'A' c && leb c b'Z'

-- `Number(c)` for a digit.
abbrev pub digit : ℕ → ℕ
digit c = c - b'0'

-- `^\d{lo,hi}$`
abbrev pub digits_between : ℕ → ℕ → Text → Bool
digits_between lo hi s = all is_digit s && (leb lo (length s) && leb (length s) hi)

-- `Number(s)` for a text of digits: the value read so far goes on with each digit.
unfoldable pub number_from : ℕ → Text → ℕ
number_from n [] = n
number_from n (c ∷ cs) = number_from (n * 10 + digit c) cs

unfoldable pub number : Text → ℕ
unfolding number_from
number s = number_from 0 s

-- `String(n)` for a natural number; the fuel is above the number of digits.
unfoldable pub show_from : ℕ → ℕ → Text
show_from zero n = []
show_from (suc f) n =
    let more = show_from f (n / 10) in
    if ltb n 10 then (b'0' + n) ∷ [] else more ++ (b'0' + n % 10) ∷ []

unfoldable pub show : ℕ → Text
unfolding show_from
show n = show_from (suc n) n

pub show_digit : (n : ℕ) → n < 10 → show n ≡ (b'0' + n) ∷ []
unfolding show
show_digit n h = ground arith

-- `s.padStart(width, c)`
abbrev pub pad_start : ℕ → ℕ → Text → Text
pad_start width c s = replicate (width - length s) c ++ s

-- `s.slice(a, b)` with 0 ≤ a ≤ b.
abbrev pub slice : Text → ℕ → ℕ → Text
slice s a b = take (b - a) (drop a s)

-- The white space that `trim` takes off.
abbrev pub is_space : ℕ → Bool
is_space c =
    (leb 9 c && leb c 13)
    || (c == 32)
    || (c == 0xa0)
    || (c == 0x1680)
    || (leb 0x2000 c && leb c 0x200a)
    || (c == 0x2028)
    || (c == 0x2029)
    || (c == 0x202f)
    || (c == 0x205f)
    || (c == 0x3000)
    || (c == 0xfeff)

pub trim_start : Text → Text
trim_start [] = []
trim_start (c ∷ cs) = let rest = trim_start cs in if is_space c then rest else c ∷ cs

unfoldable pub trim : Text → Text
unfolding trim_start
trim s = reverse (trim_start (reverse (trim_start s)))

pub all-append : (p : ℕ → Bool) (xs ys : Text) → all p (xs ++ ys) ≡ (all p xs && all p ys)
all-append p [] ys = refl
all-append p (x ∷ xs) ys = ground (arith, all-append p xs ys)

pub all-middle : (p : ℕ → Bool) (xs ys : Text) (y : ℕ) → all p (xs ++ y ∷ ys) ≡ true → p y ≡ true
all-middle p xs ys y h = ground (arith, all-append p xs (y ∷ ys))

pub digits_between-all :
    (lo hi : ℕ) (s : Text) → digits_between lo hi s ≡ true → all is_digit s ≡ true
digits_between-all lo hi s h = ground arith

pub digits_between-length : (n : ℕ) (s : Text) → digits_between n n s ≡ true → length s ≡ n
digits_between-length n s h = ground arith

pub digits_between-intro :
    (n : ℕ) (s : Text) → all is_digit s ≡ true → length s ≡ n → digits_between n n s ≡ true
digits_between-intro n s h l = ground arith

pub all_zeros : (k : ℕ) → all is_digit (replicate k b'0') ≡ true
all_zeros zero = refl
all_zeros (suc k) = all_zeros k

number_from_zeros : (k : ℕ) (s : Text) → number_from 0 (replicate k b'0' ++ s) ≡ number_from 0 s
unfolding number_from
number_from_zeros zero s = refl
number_from_zeros (suc k) s = number_from_zeros k s

pub number-pad_start : (w : ℕ) (s : Text) → number (pad_start w b'0' s) ≡ number s
unfolding number
number-pad_start w s = number_from_zeros (w - length s) s
