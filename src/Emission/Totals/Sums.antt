-- ===== src/Emission/Totals/Sums.antt =====
-- The amounts of an invoice, and their sums.
use facturacion_sifen.Prelude.{
  ◌≡◌, refl, sym, ap, subst, ◌∙◌, Bool, true, false, Option, none, some, List, [], ◌∷◌, Result, ok,
  err, if◌then◌else◌, >>=-eq-ok, ok-injective,
}
use facturacion_sifen.Prelude.Int.{ℤ, pos, ◌+ℤ◌, ◌-ℤ◌, ◌*ℤ◌, int_laws}
use facturacion_sifen.Decimal.{Decimal, DecimalParseFailure, zero_decimal, factor, add, subtract}
use facturacion_sifen.Decimal.Parse.{Input, parse}
use facturacion_sifen.Decimal.Arithmetic.{multiply_exact_iff}
use facturacion_sifen.Emission.Totals.{
  LineLike, DraftLike, parse_amount, fits_amount, if_fits, product_of, line_total, required,
  gross_from, invoice_totals,
}

-- The line is worth exactly `units` of 10 ^ -8.
abbrev pub IsWorth : LineLike → ℤ → Type 0
IsWorth item units =
    (quantity : Decimal) × (unit_price : Decimal) × (parse item.quantity ≡ ok quantity)
    × (parse item.unit_price ≡ ok unit_price)
    × (units *ℤ pos factor ≡ quantity.units *ℤ unit_price.units)

-- The lines are worth exactly `units` together.
abbrev pub AreWorth : List LineLike → ℤ → Type 0
AreWorth [] units = units ≡ pos 0
AreWorth (item ∷ items) units =
    (one : ℤ) × (rest : ℤ) × IsWorth item one × AreWorth items rest × (units ≡ one +ℤ rest)

some_eq : (a b : Decimal) → some a ≡ some b → a ≡ b
some_eq a b h = cc

required-eq-ok : (o : Option Decimal) (d : Decimal) → required o ≡ ok d → o ≡ some d
required-eq-ok none d h = cc
required-eq-ok (some e) d h = ap some (ok-injective h)

if_fits-some :
    (o : Option Decimal) (d : Decimal) → if_fits o ≡ some d → (o ≡ some d) × (fits_amount d ≡ true)
if_fits-some none d h = cc
if_fits-some (some e) d h = pick (fits_amount e) refl h
  where
    pick :
        (b : Bool)
        → fits_amount e ≡ b
        → (if b then some e else none) ≡ some d
        → (some e ≡ some d) × (fits_amount d ≡ true)
    pick true f h = (h, subst (λ x. fits_amount x ≡ true) (some_eq e d h) f)
    pick false f h = cc

pub parse_amount-some : (i : Input) (d : Decimal) → parse_amount i ≡ some d → parse i ≡ ok d
unfolding parse_amount
parse_amount-some i d h = pick (parse i) h
  where
    pick :
        (r : Result DecimalParseFailure Decimal)
        → (let o : Option Decimal = elim r [ ok d ↦ some d | err e ↦ none ] in o) ≡ some d
        → r ≡ ok d
    pick (ok e) h = ap ok (some_eq e d h)
    pick (err e) h = cc

line_total-IsWorth :
    (item : LineLike) (d : Decimal) → line_total item ≡ some d → IsWorth item d.units
unfolding line_total
line_total-IsWorth item d h =
    pick (parse_amount item.quantity) (parse_amount item.unit_price) refl refl
      (if_fits-some (product_of (parse_amount item.quantity) (parse_amount item.unit_price)) d h).0
  where
    pick :
        (a b : Option Decimal)
        → parse_amount item.quantity ≡ a
        → parse_amount item.unit_price ≡ b
        → product_of a b ≡ some d
        → IsWorth item d.units
    pick (some q) (some p) e f h = (
      q,
      p,
      parse_amount-some item.quantity q e,
      parse_amount-some item.unit_price p f,
      (multiply_exact_iff q p d).0 h,
    )
    pick (some q) none e f h = cc
    pick none b e f h = cc

gross_from-AreWorth :
    (start end : Decimal) (items : List LineLike)
    → gross_from start items ≡ ok end
    → (units : ℤ) × AreWorth items units × (end.units ≡ start.units +ℤ units)
unfolding gross_from add
gross_from-AreWorth start end [] h =
    let same : start.units ≡ end.units = ap (λ d. d.units) (ok-injective h) in
    (pos 0, refl, rw (sym same) (omega int_laws))
gross_from-AreWorth start end (item ∷ items) h =
    let (line, worth, h1) = >>=-eq-ok (required (line_total item)) _ h in
    let (sum, summed, h2) = >>=-eq-ok (required (if_fits (some (add start line)))) _ h1 in
    let (added, _) = if_fits-some (some (add start line)) sum (required-eq-ok _ sum summed) in
    let (units, rest, e) = gross_from-AreWorth sum end items h2 in
    let known : start.units +ℤ line.units ≡ sum.units = ap (λ d. d.units) (some_eq _ _ added) in
    (
      line.units +ℤ units,
      (line.units, units, line_total-IsWorth item line (required-eq-ok _ line worth), rest, refl),
      e ∙ (rw (sym known) (omega int_laws)),
    )

-- The totals of a draft, when it has them: every line is worth exactly its quantity by its price, the
-- gross total exactly the sum of the lines, and the net total exactly that less the rounding, within
-- 15 integer digits and 8 decimals.
pub invoice_totals-AreWorth :
    (draft : DraftLike) (gross net : Decimal)
    → invoice_totals draft ≡ ok (gross, net)
    → AreWorth draft.items gross.units
      × ((rounding : Decimal) × (parse draft.rounding_pyg ≡ ok rounding)
          × (net.units +ℤ rounding.units ≡ gross.units)
          × (fits_amount net ≡ true))
unfolding invoice_totals subtract
invoice_totals-AreWorth draft gross net h =
    let (total, h_gross, h1) = >>=-eq-ok (gross_from zero_decimal draft.items) _ h in
    let (rounding, h_rounding, h2) = >>=-eq-ok (required (parse_amount draft.rounding_pyg)) _ h1 in
    let (rest, h_net, h3) = >>=-eq-ok (required (if_fits (some (subtract total rounding)))) _ h2 in
    let same : total ≡ gross = ap (λ p. p.0) (ok-injective h3) in
    let same_net : rest ≡ net = ap (λ p. p.1) (ok-injective h3) in
    let (left, fits) =
      if_fits-some (some (subtract total rounding)) rest (required-eq-ok _ rest h_net) in
    let less : total.units -ℤ rounding.units ≡ rest.units = ap (λ d. d.units) (some_eq _ _ left) in
    let (units, worth, e) = gross_from-AreWorth zero_decimal total draft.items h_gross in
    rw (sym same, sym same_net)
      (
        subst (AreWorth draft.items) (let z : units ≡ pos 0 +ℤ units = omega int_laws in z ∙ sym e)
            worth,
        (
          rounding,
          parse_amount-some draft.rounding_pyg rounding (required-eq-ok _ rounding h_rounding),
          rw (sym less) (omega int_laws),
          fits,
        ),
      )
