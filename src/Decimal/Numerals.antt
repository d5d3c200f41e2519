-- ===== src/Decimal/Numerals.antt =====
-- The decimal text of a natural number, and the zeros that are taken off and put back.
use native.Mathlib.Nat.{pow-suc}
use facturacion_sifen.Prelude.{
  ℕ, zero, suc, ◌+◌, ◌-◌, ◌*◌, ◌/◌, ◌%◌, ◌^◌, ◌≤◌, ◌<◌, ◌≡◌, ◌≢◌, refl, sym, ap, ◌∙◌, arith, true,
  inl, inr, [], ◌∷◌, ◌++◌, Text, all, all-append, is_digit, digit, number, number_from, show,
  show_from, length, length-append, replicate, ltb, Bool-cases, ◌==◌, ==_iff, ap₂, ◌&&◌,
  if◌then◌else◌,
}
use facturacion_sifen.Decimal.{strip_start, strip_end, strip_leading, is_nil}

pub number_from-append :
    (a : ℕ) (xs ys : Text) → number_from a (xs ++ ys) ≡ number_from (number_from a xs) ys
unfolding number_from
number_from-append a [] ys = refl
number_from-append a (x ∷ xs) ys = number_from-append (a * 10 + digit x) xs ys

-- The value so far is shifted by the digits that follow.
pub number_from-shift :
    (a : ℕ) (ys : Text) → number_from a ys ≡ a * 10 ^ length ys + number_from 0 ys
unfolding number_from
number_from-shift a [] = omega arith
number_from-shift a (y ∷ ys) = rw (pow-suc 10 (length ys)) (
    omega (arith, number_from-shift (a * 10 + digit y) ys, number_from-shift (0 * 10 + digit y) ys))

show_from-all : (f n : ℕ) → all is_digit (show_from f n) ≡ true
unfolding show_from
show_from-all zero n = refl
show_from-all (suc f) n = ground (
  arith,
  show_from-all f (n / 10),
  all-append is_digit (show_from f (n / 10)) ((b'0' + n % 10) ∷ []),
)

number_from-show_from : (f n : ℕ) → n < f → number_from 0 (show_from f n) ≡ n
unfolding show_from number_from
number_from-show_from zero n h = absurd (omega arith)
number_from-show_from (suc f) n h = ground (
  arith,
  number_from-show_from f (n / 10),
  number_from-append 0 (show_from f (n / 10)) ((b'0' + n % 10) ∷ []),
)

-- The first character is no zero.
abbrev pub Leads : Text → Type 0
Leads [] = ⊥
Leads (c ∷ cs) = c ≢ b'0'

Leads-append : (xs ys : Text) → Leads xs → Leads (xs ++ ys)
Leads-append [] ys h = absurd h
Leads-append (x ∷ xs) ys h = h

show_from-Leads : (f n : ℕ) → n < f → 0 < n → Leads (show_from f n)
unfolding show_from
show_from-Leads zero n h p = absurd (omega arith)
show_from-Leads (suc f) n h p = elim (Bool-cases (ltb n 10)) [
  | inl small ↦ rw small (omega arith)
  | inr large ↦ rw large (
      Leads-append (show_from f (n / 10)) ((b'0' + n % 10) ∷ [])
        (show_from-Leads f (n / 10) (ground arith) (ground arith)))
]

length-show_from : (f n k : ℕ) → n < 10 ^ suc k → length (show_from f n) ≤ suc k
unfolding show_from
length-show_from zero n k h = omega arith
length-show_from (suc f) n zero h = ground arith
length-show_from (suc f) n (suc k) h =
    let down : n < 10 ^ suc k * 10 = rw (← pow-suc 10 (suc k)) h in
    ground (
      arith,
      length-show_from f (n / 10) k (omega arith),
      length-append (show_from f (n / 10)) ((b'0' + n % 10) ∷ []),
    )

pub show-all : (n : ℕ) → all is_digit (show n) ≡ true
unfolding show
show-all n = show_from-all (suc n) n

-- A number is read back from its text.
pub number-show : (n : ℕ) → number (show n) ≡ n
unfolding show number
number-show n = number_from-show_from (suc n) n (omega arith)

pub show-Leads : (n : ℕ) → 0 < n → Leads (show n)
unfolding show
show-Leads n h = show_from-Leads (suc n) n (omega arith) h

pub length-show : (n k : ℕ) → n < 10 ^ suc k → length (show n) ≤ suc k
unfolding show
length-show n k h = length-show_from (suc n) n k h

pub show_zero : show 0 ≡ b'0' ∷ []
unfolding show
show_zero = refl

pub strip_start_of_Leads : (s : Text) → Leads s → strip_start s ≡ s
unfolding strip_start
strip_start_of_Leads [] h = refl
strip_start_of_Leads (c ∷ cs) h = ground arith

pub strip_leading_of_Leads : (s : Text) → Leads s → strip_leading s ≡ s
unfolding strip_leading
strip_leading_of_Leads [] h = refl
strip_leading_of_Leads (c ∷ []) h = refl
strip_leading_of_Leads (c ∷ d ∷ cs) h = ground arith

pub length-strip_end : (s : Text) → length (strip_end s) ≤ length s
unfolding strip_end
length-strip_end [] = omega arith
length-strip_end (c ∷ cs) = ground (arith, length-strip_end cs)

pub strip_end_idempotent : (s : Text) → strip_end (strip_end s) ≡ strip_end s
unfolding strip_end
strip_end_idempotent [] = refl
strip_end_idempotent (c ∷ cs) = ground (arith, strip_end_idempotent cs)

pub strip_end-all : (s : Text) → all is_digit s ≡ true → all is_digit (strip_end s) ≡ true
unfolding strip_end
strip_end-all [] h = refl
strip_end-all (c ∷ cs) h = ground (arith, strip_end-all cs)

-- The zeros that were taken off can be put back.
abbrev pub restored : ℕ → Text → Text
restored n s = s ++ replicate (n - length s) b'0'

restored-cons : (n c : ℕ) (r : Text) → restored (suc n) (c ∷ r) ≡ c ∷ restored n r
restored-cons n c r =
    ap (λ k. c ∷ (r ++ replicate k b'0'))
      (let e : suc n - suc (length r) ≡ n - length r = omega arith in e)

restored-nil : (n : ℕ) → restored (suc n) [] ≡ b'0' ∷ restored n []
restored-nil n = ap (λ k. replicate k b'0') (let e : suc n - 0 ≡ suc (n - 0) = omega arith in e)

pub strip_end-restored : (s : Text) → restored (length s) (strip_end s) ≡ s
unfolding strip_end
strip_end-restored [] = refl
strip_end-restored (c ∷ cs) = put_back (strip_end cs) (strip_end-restored cs)
  where
    put_back :
        (r : Text)
        → restored (length cs) r ≡ cs
        → restored (suc (length cs)) (if is_nil r && (c == b'0') then [] else c ∷ r) ≡ c ∷ cs
    put_back [] h = elim (Bool-cases (c == b'0')) [
      | inl e ↦ rw e (restored-nil (length cs) ∙ ap₂ (λ x l. x ∷ l) (sym ((==_iff c b'0').0 e)) h)
      | inr e ↦ rw e (restored-cons (length cs) c [] ∙ ap (λ l. c ∷ l) h)
    ]
    put_back (x ∷ xs) h = restored-cons (length cs) c (x ∷ xs) ∙ ap (λ l. c ∷ l) h
