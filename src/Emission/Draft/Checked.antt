-- ===== src/Emission/Draft/Checked.antt =====
-- A draft in which `validateInvoiceDraft` finds no violation is one that `invoiceTotals` accepts.
use facturacion_sifen.Prelude.{
  ℕ, ◌-◌, ◌%◌, ◌≡◌, refl, sym, ap, ◌∙◌, arith, Bool, true, false, not, Option, none, some, List, [],
  ◌∷◌, ◌&&◌, ◌||◌, ◌==◌, ok, &&-true, if◌then◌else◌, ==_iff,
}
use facturacion_sifen.Prelude.Int.{pos, ◌-ℤ◌}
use facturacion_sifen.Decimal.{
  Decimal, decimal, zero_decimal, factor, absolute, subtract, decimal_places,
}
use facturacion_sifen.Decimal.Fits.{decimal_places_zero}
use facturacion_sifen.Emission.Totals.{parse_amount, fits_amount, gross_from, invoice_totals}
use facturacion_sifen.Emission.Draft.Errors.{DraftItem, InvoiceDraft, ValidationError, push_if}
use facturacion_sifen.Emission.Draft.Address.{Unicode}
use facturacion_sifen.Emission.Draft.{
  ValidationConfig, is_valid_rounding, is_in_range, total_errors, draft_lines, start_lines,
  validate_invoice_draft, lines_of, amounts_of,
}
use facturacion_sifen.Emission.Draft.Checking.{written, Lines}
use facturacion_sifen.Emission.Draft.Invoiceable.{
  append_is_nil, IsSummed, check_lines-IsSummed, fits_below,
}
use facturacion_sifen.Emission.Draft.Rounded.{is_valid_rounding_iff, rest-pos}

pub none_pushed : (b : Bool) (e : ValidationError) → push_if b e ≡ [] → b ≡ false
none_pushed true e h = cc
none_pushed false e h = refl

pub of_not : (b : Bool) → not b ≡ false → b ≡ true
of_not true h = refl
of_not false h = cc

tested : (a b : Bool) → a ≡ true → a && not b ≡ false → b ≡ true
tested true b h e = of_not b e
tested false b h e = cc

start-total : (items : List DraftItem) → (start_lines items).total ≡ decimal (pos 0)
start-total [] = refl
start-total (item ∷ items) = refl

-- The lines and the total of a draft without violations.
draft_lines-IsSummed :
    (u : Unicode) (draft : InvoiceDraft) (config : ValidationConfig)
    → validate_invoice_draft u draft config ≡ []
    → IsSummed config.allow_decimals 0 draft.items (draft_lines config draft)
      × (total_errors config draft (draft_lines config draft) ≡ [])
unfolding validate_invoice_draft draft_lines
draft_lines-IsSummed u draft config h =
    let (h1, _) = append_is_nil _ _ h in
    let (h2, _) = append_is_nil _ _ h1 in
    let (h3, _) = append_is_nil _ _ h2 in
    let (h4, h5) = append_is_nil _ _ h3 in
    (
      check_lines-IsSummed config.allow_decimals 0 draft.items (start_lines draft.items) 0
          (start-total draft.items) h4,
      h5,
    )

whole_enough : (allow whole : Bool) → (allow ≡ false → whole ≡ true) → allow || whole ≡ true
whole_enough true whole h = refl
whole_enough false whole h = h refl

both_true : (a b : Bool) → a ≡ true → b ≡ true → a && b ≡ true
both_true true b h k = k
both_true false b h k = cc

whole_total :
    {allow : Bool} {items : List DraftItem} (s : Lines)
    → IsSummed allow 0 items s
    → allow ≡ false
    → (decimal_places s.total == 0) ≡ true
unfolding absolute
whole_total s summed exact = (==_iff (decimal_places s.total) 0).1 (
    (decimal_places_zero s.total).1
      (ap (λ (d : Decimal). absolute d.units % factor) summed.total ∙ summed.whole exact refl))

total_errors-rounding :
    (draft : InvoiceDraft) (config : ValidationConfig) (s : Lines)
    → IsSummed config.allow_decimals 0 draft.items s
    → total_errors config draft s ≡ []
    → (fits_amount s.total ≡ true)
      × (is_valid_rounding s.total
            (parse_amount (written draft.rounding_pyg))
            (if config.allow_decimals then 4 else 0)
          ≡ true)
unfolding total_errors
total_errors-rounding draft config s summed h =
    let (h1, h2) = append_is_nil _ _ h in
    let in_range = of_not (is_in_range s) (none_pushed (not (is_in_range s)) _ h1) in
    let readable : config.allow_decimals || (decimal_places s.total == 0) ≡ true =
      whole_enough config.allow_decimals (decimal_places s.total == 0) (whole_total s summed) in
    (
      (&&-true (fits_amount s.total) (not s.price_overflow) in_range).0,
      tested (is_in_range s && (config.allow_decimals || (decimal_places s.total == 0))) _
          (both_true (is_in_range s) _ in_range readable) (none_pushed _ _ h2),
    )

-- A rounding that is valid for a natural total, as the totals use it.
record IsRounded (total : ℕ) (rounding : Option Decimal) : Type 0 where
  value : Decimal
  given : rounding ≡ some value
  rest : value.units ≡ pos (total % 5000000000)

rounding-IsRounded :
    (total decimals : ℕ) (rounding : Option Decimal)
    → is_valid_rounding (decimal (pos total)) rounding decimals ≡ true
    → IsRounded total rounding
rounding-IsRounded total decimals none h = unfold is_valid_rounding in cc
rounding-IsRounded total decimals (some r) h = record {
  value = r;
  given = refl;
  rest = ((is_valid_rounding_iff total r decimals).0 h).0;
}

invoice_totals-run :
    (draft : InvoiceDraft) (total : ℕ)
    → gross_from zero_decimal (lines_of draft.items) ≡ ok (decimal (pos total))
    → fits_amount (decimal (pos total)) ≡ true
    → IsRounded total (parse_amount (written draft.rounding_pyg))
    → invoice_totals (amounts_of draft)
      ≡ ok (decimal (pos total), decimal (pos (total - total % 5000000000)))
unfolding invoice_totals subtract
invoice_totals-run draft total summed fits rounded =
    let net : pos total -ℤ rounded.value.units ≡ pos (total - total % 5000000000) =
      ap (λ u. pos total -ℤ u) rounded.rest ∙ rest-pos total in
    rw
      (summed, rounded.given, net, fits_below (total - total % 5000000000) total (omega arith) fits)
      refl

-- A draft without violations has totals: `invoiceTotals` does not throw for it. Its net total is the
-- gross total rounded down to a multiple of 50 Gs.
pub validate_invoice_draft-totals :
    (u : Unicode) (draft : InvoiceDraft) (config : ValidationConfig)
    → validate_invoice_draft u draft config ≡ []
    → (gross : ℕ) × (invoice_totals (amounts_of draft)
        ≡ ok (decimal (pos gross), decimal (pos (gross - gross % 5000000000))))
validate_invoice_draft-totals u draft config h =
    let s = draft_lines config draft in
    let (summed, no_errors) = draft_lines-IsSummed u draft config h in
    let (fits, valid) = total_errors-rounding draft config s summed no_errors in
    let fits_final = ap fits_amount (sym summed.total) ∙ fits in
    let rounded =
      rounding-IsRounded summed.final (if config.allow_decimals then 4 else 0)
        (parse_amount (written draft.rounding_pyg))
        (ap
            (λ t.
              is_valid_rounding t (parse_amount (written draft.rounding_pyg))
                (if config.allow_decimals then 4 else 0))
            (sym summed.total)
          ∙ valid) in
    (
      summed.final,
      invoice_totals-run draft summed.final (summed.summed fits_final) fits_final rounded,
    )
