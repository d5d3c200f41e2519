-- ===== src/Emission/Draft/Invoiceable.antt =====
-- `invoiceTotals` of a draft in which `validateInvoiceDraft` finds no violation.
use facturacion_sifen.Prelude.{
  ℕ, suc, ◌+◌, ◌%◌, ◌≤◌, ◌<◌, ◌≡◌, refl, sym, ap, ap₂, ◌∙◌, arith, Bool, true, false, not, Option,
  none, some, List, [], ◌∷◌, ◌++◌, ◌&&◌, if◌then◌else◌, ok, ltb,
}
use facturacion_sifen.Prelude.Int.{ℤ, pos, negsuc, ◌+ℤ◌, ◌*ℤ◌}
use facturacion_sifen.Decimal.{
  Decimal, decimal, factor, absolute, add, multiply_exact, decimal_places,
}
use facturacion_sifen.Decimal.Parse.{parse, number_text}
use facturacion_sifen.Decimal.Arithmetic.{multiply_exact_iff}
use facturacion_sifen.Decimal.Fits.{fits_amount_iff, decimal_places_zero}
use facturacion_sifen.Decimal.Signs.{parse-IsNatural}
use facturacion_sifen.Emission.Totals.{
  parse_amount, fits_amount, if_fits, product_of, line_total, gross_from,
}
use facturacion_sifen.Emission.Totals.Sums.{parse_amount-some}
use facturacion_sifen.Emission.Draft.Errors.{
  Number, nan, infinite, finite, DraftItem, ValidationError, push_if,
}
use facturacion_sifen.Emission.Draft.{line_of, lines_of}
use facturacion_sifen.Emission.Draft.Checking.{
  written, is_positive, is_non_negative, fits, item_errors, is_read, line_product, has_decimals,
  product_errors, line_errors, Lines, add_product, check_lines,
}

pub append_is_nil : {A : Type 0} → (xs ys : List A) → xs ++ ys ≡ [] → (xs ≡ []) × (ys ≡ [])
append_is_nil [] ys h = (refl, h)
append_is_nil (x ∷ xs) ys h = cc

abbrev IsNatural : Decimal → Type 0
IsNatural d = (n : ℕ) × (d ≡ decimal (pos n))

of_nothing : {A : Type 0} {d : Decimal} → parse (number_text none) ≡ ok d → A
unfolding parse
of_nothing h = cc

is_non_negative-IsNatural :
    (n : Number) (d : Decimal)
    → is_non_negative n ≡ true
    → parse_amount (written n) ≡ some d
    → IsNatural d
unfolding is_non_negative
is_non_negative-IsNatural (finite t) d h e =
    parse-IsNatural t d (ground arith) (parse_amount-some (written (finite t)) d e)
is_non_negative-IsNatural nan d h e = cc
is_non_negative-IsNatural (infinite negative) d h e =
    of_nothing (parse_amount-some (written (infinite negative)) d e)

is_positive-is_non_negative : (n : Number) → is_positive n ≡ true → is_non_negative n ≡ true
unfolding is_positive is_non_negative
is_positive-is_non_negative (finite t) h = ground arith
is_positive-is_non_negative nan h = h
is_positive-is_non_negative (infinite negative) h = h

natural_factor : (u : ℤ) (n m : ℕ) → u *ℤ pos factor ≡ pos n *ℤ pos m → (k : ℕ) × (u ≡ pos k)
unfolding ◌*ℤ◌
natural_factor (pos k) n m h = (k, refl)
natural_factor (negsuc k) n m h = absurd (ground arith)

multiply_exact-IsNatural :
    (a b c : Decimal) → IsNatural a → IsNatural b → multiply_exact a b ≡ some c → IsNatural c
multiply_exact-IsNatural a b c (n, e) (m, f) h =
    let units : c.units *ℤ pos factor ≡ pos n *ℤ pos m =
      (multiply_exact_iff a b c).0 h ∙ ap₂ (λ (x y : Decimal). x.units *ℤ y.units) e f in
    let (k, is) = natural_factor c.units n m units in (k, ap decimal is)

-- A line without violations: it counts, and its product is the amount that the totals use.
record IsGood (allow : Bool) (item : DraftItem) : Type 0 where
  amount : ℕ
  product : line_product item ≡ some (decimal (pos amount))
  total : line_total (line_of item) ≡ some (decimal (pos amount))
  whole : allow ≡ false → amount % factor ≡ 0

both_pass :
    (p f : Bool) (e e' : ValidationError)
    → (if not p then e ∷ [] else push_if (not f) e') ≡ []
    → (p ≡ true) × (f ≡ true)
both_pass true true e e' h = (refl, refl)
both_pass true false e e' h = cc
both_pass false f e e' h = cc

priced :
    (p f : Bool) (e e' : ValidationError) (more : List ValidationError)
    → (if not p then e ∷ [] else if not f then e' ∷ more else []) ≡ []
    → (p ≡ true) × (f ≡ true)
priced true true e e' more h = (refl, refl)
priced true false e e' more h = cc
priced false f e e' more h = cc

item_errors-is_read : (i : ℕ) (item : DraftItem) → item_errors i item ≡ [] → is_read item ≡ true
unfolding item_errors is_read
item_errors-is_read i item h =
    let (h1, _) = append_is_nil _ _ h in
    let (h2, h3) = append_is_nil _ _ h1 in
    let (p, q) =
      both_pass (is_positive item.quantity) (fits (parse_amount (written item.quantity)) 10 8) _ _
        h2 in
    let (r, s) =
      priced (is_non_negative item.unit_price) (fits (parse_amount (written item.unit_price)) 15 8)
        _ _ _ h3 in
    rw (p, q, r, s) refl

is_read-signs :
    (item : DraftItem)
    → is_read item ≡ true
    → (is_positive item.quantity ≡ true) × (is_non_negative item.unit_price ≡ true)
unfolding is_read
is_read-signs item h = of_tests (is_positive item.quantity) (is_non_negative item.unit_price) _ _ h
  where
    of_tests : (a b c d : Bool) → a && b && c && d ≡ true → (a ≡ true) × (b ≡ true)
    of_tests true true c d h = (refl, refl)
    of_tests true false c d h = cc
    of_tests false b c d h = cc

-- The product of a line that counts is a natural number of units.
line_product-IsNatural :
    (item : DraftItem) (d : Decimal)
    → is_read item ≡ true
    → line_product item ≡ some d
    → IsNatural d
line_product-IsNatural item d r h =
    of_product (parse_amount (written item.quantity)) (parse_amount (written item.unit_price)) refl
      refl (sym (rw r refl) ∙ h)
  where
    of_product :
        (q p : Option Decimal)
        → parse_amount (written item.quantity) ≡ q
        → parse_amount (written item.unit_price) ≡ p
        → product_of q p ≡ some d
        → IsNatural d
    of_product (some q) (some p) e f m =
        let (positive, priced) = is_read-signs item r in
        multiply_exact-IsNatural q p d
          (is_non_negative-IsNatural item.quantity q
            (is_positive-is_non_negative item.quantity positive) e)
          (is_non_negative-IsNatural item.unit_price p priced f) m
    of_product (some q) none e f m = cc
    of_product none p e f m = cc

last_passes :
    (b f : Bool) (e e' : ValidationError)
    → (if b then e ∷ [] else push_if (not f) e') ≡ []
    → (b ≡ false) × (f ≡ true)
last_passes true f e e' h = cc
last_passes false true e e' h = (refl, refl)
last_passes false false e e' h = cc

product_errors-none :
    (allow : Bool) (i : ℕ) (price product : Option Decimal)
    → product_errors allow i price product ≡ []
    → (d : Decimal) × (product ≡ some d)
      × (fits_amount d ≡ true)
      × (allow ≡ false → decimal_places d ≡ 0)
unfolding product_errors
product_errors-none allow i price none h = never (append_is_nil _ _ h).1
  where
    never : {A : Type 0} {e : ValidationError} → e ∷ [] ≡ [] → A
    never h = cc
product_errors-none allow i price (some d) h =
    let (_, h1) = append_is_nil _ _ h in
    let (plain, small) = last_passes (not allow && has_decimals (some d)) (fits_amount d) _ _ h1 in
    (d, refl, small, λ exact. no_decimals allow (decimal_places d) exact plain)
  where
    no_decimals : (a : Bool) (n : ℕ) → a ≡ false → not a && ltb 0 n ≡ false → n ≡ 0
    no_decimals a n e h = ground arith

line_errors-IsGood :
    (allow : Bool) (i : ℕ) (item : DraftItem) → line_errors allow i item ≡ [] → IsGood allow item
unfolding line_errors line_total
line_errors-IsGood allow i item h =
    let (h1, h2) = append_is_nil (item_errors i item) _ h in
    let read = item_errors-is_read i item h1 in
    let h3 : product_errors allow i (parse_amount (written item.unit_price)) (line_product item)
        ≡ [] =
      sym (rw read refl) ∙ h2 in
    let (d, product, small, whole) =
      product_errors-none allow i (parse_amount (written item.unit_price)) (line_product item) h3 in
    let (n, natural) = line_product-IsNatural item d read product in
    let same : product_of (parse_amount (written item.quantity))
          (parse_amount (written item.unit_price))
        ≡ some d =
      sym (rw read refl) ∙ product in
    record {
      amount = n;
      product = product ∙ ap some natural;
      total = ap if_fits same ∙ (rw small refl) ∙ ap some natural;
      whole = λ exact.
          sym (ap (λ (d : Decimal). absolute d.units % factor) natural)
          ∙ (decimal_places_zero d).0 (whole exact);
    }

add-pos : (a b : ℕ) → add (decimal (pos a)) (decimal (pos b)) ≡ decimal (pos (a + b))
unfolding add ◌+ℤ◌
add-pos a b = ground arith

pub fits_below :
    (m n : ℕ) → m ≤ n → fits_amount (decimal (pos n)) ≡ true → fits_amount (decimal (pos m)) ≡ true
unfolding absolute
fits_below m n h f =
    let big : n < 100000000000000000000000 = (fits_amount_iff (decimal (pos n))).0 f in
    (fits_amount_iff (decimal (pos m))).1 (omega arith)

-- What the loop over the lines leaves, from a total of `start` units, where no line has a violation.
pub record IsSummed (allow : Bool) (start : ℕ) (items : List DraftItem) (s : Lines) : Type 0 where
  pub final : ℕ
  pub total : s.total ≡ decimal (pos final)
  pub grows : start ≤ final
  pub summed :
      fits_amount (decimal (pos final)) ≡ true
      → gross_from (decimal (pos start)) (lines_of items) ≡ ok (decimal (pos final))
  pub whole : allow ≡ false → start % factor ≡ 0 → final % factor ≡ 0

gross_from-step :
    (item : DraftItem) (items : List DraftItem) (start amount : ℕ)
    → line_total (line_of item) ≡ some (decimal (pos amount))
    → fits_amount (decimal (pos (start + amount))) ≡ true
    → gross_from (decimal (pos start)) (lines_of (item ∷ items))
      ≡ gross_from (decimal (pos (start + amount))) (lines_of items)
unfolding gross_from lines_of
gross_from-step item items start amount h f = rw (h, add-pos start amount, f) refl

-- The loop only adds violations.
check_lines-errors :
    (allow : Bool) (i : ℕ) (items : List DraftItem) (s : Lines)
    → (check_lines allow i items s).errors ≡ []
    → s.errors ≡ []
unfolding check_lines
check_lines-errors allow i [] s h = h
check_lines-errors allow i (item ∷ items) s h =
    (append_is_nil s.errors (line_errors allow i item)
      (check_lines-errors allow (suc i) items _ h)).0

step_total :
    (s : Lines) (item : DraftItem) (start amount : ℕ)
    → s.total ≡ decimal (pos start)
    → line_product item ≡ some (decimal (pos amount))
    → add_product s.total (line_product item) ≡ decimal (pos (start + amount))
step_total s item start amount e p = ap₂ add_product e p ∙ add-pos start amount

pub check_lines-IsSummed :
    (allow : Bool) (i : ℕ) (items : List DraftItem) (s : Lines) (start : ℕ)
    → s.total ≡ decimal (pos start)
    → (check_lines allow i items s).errors ≡ []
    → IsSummed allow start items (check_lines allow i items s)
unfolding check_lines
check_lines-IsSummed allow i [] s start e h = record {
  final = start;
  total = e;
  grows = omega arith;
  summed = λ f. unfold gross_from in (unfold lines_of in refl);
  whole = λ exact w. w;
}
check_lines-IsSummed allow i (item ∷ items) s start e h =
    let none_so_far = check_lines-errors allow (suc i) items _ h in
    let good =
      line_errors-IsGood allow i item
        (append_is_nil s.errors (line_errors allow i item) none_so_far).1 in
    let rest =
      check_lines-IsSummed allow (suc i) items _ (start + good.amount)
        (step_total s item start good.amount e good.product) h in
    record {
      final = rest.final;
      total = rest.total;
      grows = omega (arith, rest.grows);
      summed = λ f.
          gross_from-step item items start good.amount good.total
            (fits_below (start + good.amount) rest.final rest.grows f)
          ∙ rest.summed f;
      whole = λ exact w. rest.whole exact (omega (arith, good.whole exact));
    }
