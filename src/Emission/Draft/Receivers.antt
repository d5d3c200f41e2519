-- ===== src/Emission/Draft/Receivers.antt =====
-- The receiver of a draft in which `validateInvoiceDraft` finds no violation.
use facturacion_sifen.Prelude.{
  ℕ, ◌≡◌, ◌⊎◌, refl, Bool, true, false, not, Option, none, some, List, [], ◌∷◌, ◌++◌, ◌&&◌, inl,
  inr, if◌then◌else◌,
}
use facturacion_sifen.Decimal.{Decimal, compare}
use facturacion_sifen.Emission.Totals.{parse_amount}
use facturacion_sifen.Emission.Draft.Errors.{
  OperationType, b2b, b2c, b2g, b2f, DraftReceiver, DraftReceiverAddress, named, unnamed,
  InvoiceDraft, ValidationError, push_if,
}
use facturacion_sifen.Emission.Draft.Address.{
  Unicode, is_department, is_given, is_b2f, unknown_code, informed_errors, missing_errors,
  validate_address_block,
}
use facturacion_sifen.Emission.Draft.{
  ValidationConfig, is_less, threshold_of, receiver_errors, draft_lines, net_of, is_unnamed,
  is_public, is_b2c, is_unsupported, validate_invoice_draft, address_block, total_errors,
  geography_errors,
}
use facturacion_sifen.Emission.Draft.Checking.{written}
use facturacion_sifen.Emission.Draft.Invoiceable.{append_is_nil}
use facturacion_sifen.Emission.Draft.Checked.{none_pushed, of_not}

abbrev pub IsGiven {ℓ} : {A : Type ℓ} → Option A → Type ℓ
IsGiven {A = A} value = (x : A) × (value ≡ some x)

abbrev pub IsDomestic : OperationType → Type 0
IsDomestic operation = (operation ≡ b2b) ⊎ (operation ≡ b2c)

abbrev pub InTable : Option ℕ → Type 0
InTable department = (code : ℕ) × (department ≡ some code) × (is_department code ≡ true)

-- Who a document can be issued to, with its operation, its department and its net total: someone
-- unnamed in a B2C operation below the threshold, or someone named that is no public entity, in a B2B
-- or B2C operation, with a whole address or none of it.
abbrev pub IsServed : DraftReceiver → OperationType → Option ℕ → Decimal → Decimal → Type 0
IsServed unnamed operation department net threshold =
    (operation ≡ b2c) × (is_less (compare net threshold) ≡ true)
IsServed (named oee none) operation department net threshold =
    (oee ≡ false) × IsDomestic operation × (department ≡ none)
IsServed (named oee (some a)) operation department net threshold =
    (oee ≡ false)
    × IsDomestic operation
    × InTable department
    × IsGiven a.city_code
    × IsGiven a.house_number

is_domestic : (operation : OperationType) → is_unsupported operation ≡ false → IsDomestic operation
is_domestic b2b h = inl refl
is_domestic b2c h = inr refl
is_domestic b2g h = cc
is_domestic b2f h = cc

is_given-IsGiven :
    {A : Type 0}
    → (value : Option A) (e : ValidationError) → push_if (not (is_given value)) e ≡ []
    → IsGiven value
is_given-IsGiven none e h = cc
is_given-IsGiven (some x) e h = (x, refl)

only_b2c : (operation : OperationType) → not (is_b2c operation) ≡ false → operation ≡ b2c
only_b2c b2b h = cc
only_b2c b2c h = refl
only_b2c b2g h = cc
only_b2c b2f h = cc

domestic_not_b2f :
    (operation : OperationType) → is_unsupported operation ≡ false → is_b2f operation ≡ false
domestic_not_b2f b2b h = refl
domestic_not_b2f b2c h = refl
domestic_not_b2f b2g h = cc
domestic_not_b2f b2f h = cc

not_public : (oee : Bool) (b : Bool) → b ≡ false → oee && not b ≡ false → oee ≡ false
not_public oee true h k = cc
not_public true false h k = cc
not_public false false h k = refl

in_table :
    (department : Option ℕ)
    → IsGiven department
    → unknown_code department ≡ false
    → InTable department
in_table none (code, e) h = cc
in_table (some code) g h = (code, refl, of_not (is_department code) h)

else_part : (b : Bool) (x y : List ValidationError) → b ≡ false → (if b then x else y) ≡ [] → y ≡ []
else_part true x y h k = cc
else_part false x y h k = k

never : {A : Type 0} {e : ValidationError} → e ∷ [] ≡ [] → A
never h = cc

missing_errors-none :
    (operation : OperationType) (department : Option ℕ)
    → is_b2f operation ≡ false
    → missing_errors operation department ≡ []
    → department ≡ none
unfolding missing_errors
missing_errors-none operation none d h = refl
missing_errors-none operation (some code) d h = never (else_part (is_b2f operation) _ _ d h)

informed_errors-none :
    (operation : OperationType) (department : Option ℕ) (a : DraftReceiverAddress)
    → is_b2f operation ≡ false
    → informed_errors operation department a ≡ []
    → IsGiven a.house_number × IsGiven department × IsGiven a.city_code
unfolding informed_errors
informed_errors-none operation department a d h =
    let (h1, h2) = append_is_nil _ _ h in
    let (h3, h4) = append_is_nil _ _ (else_part (is_b2f operation) _ _ d h2) in
    (
      is_given-IsGiven a.house_number _ h1,
      is_given-IsGiven department _ h3,
      is_given-IsGiven a.city_code _ h4,
    )

served :
    (r : DraftReceiver) (operation : OperationType) (department : Option ℕ)
    (net threshold : Decimal)
    → is_unnamed r && not (is_less (compare net threshold)) ≡ false
    → is_unnamed r && not (is_b2c operation) ≡ false
    → is_unsupported operation ≡ false
    → is_public r && not (is_unsupported operation) ≡ false
    → validate_address_block (address_block r operation department) ≡ []
    → IsServed r operation department net threshold
unfolding validate_address_block
served unnamed operation department net threshold low consumer s p h =
    (only_b2c operation consumer, of_not (is_less (compare net threshold)) low)
served (named oee none) operation department net threshold low consumer s p h =
    let (_, h1) = append_is_nil _ _ h in
    (
      not_public oee (is_unsupported operation) s p,
      is_domestic operation s,
      missing_errors-none operation department (domestic_not_b2f operation s) h1,
    )
served (named oee (some a)) operation department net threshold low consumer s p h =
    let (h0, h1) = append_is_nil _ _ h in
    let (house, given, city) =
      informed_errors-none operation department a (domestic_not_b2f operation s) h1 in
    (
      not_public oee (is_unsupported operation) s p,
      is_domestic operation s,
      in_table department given (none_pushed (unknown_code department) _ h0),
      city,
      house,
    )

five_parts : (a b c d e : List ValidationError) → a ++ b ++ c ++ d ++ e ≡ [] → (c ≡ []) × (d ≡ [])
five_parts a b c d e h =
    let (h1, _) = append_is_nil (a ++ b ++ c ++ d) e h in
    let (h2, h3) = append_is_nil (a ++ b ++ c) d h1 in ((append_is_nil (a ++ b) c h2).1, h3)

receiver_errors-none :
    (config : ValidationConfig) (draft : InvoiceDraft) (net : Decimal)
    → receiver_errors config draft net ≡ []
    → validate_address_block
        (address_block draft.receiver draft.operation_type draft.department_code)
      ≡ []
    → IsServed draft.receiver draft.operation_type draft.department_code net
        (threshold_of config.unnamed_threshold_pyg)
unfolding receiver_errors
receiver_errors-none config draft net h address =
    let (h1, public) = append_is_nil _ _ h in
    let (h2, supported) = append_is_nil _ _ h1 in
    let (low, consumer) = append_is_nil _ _ h2 in
    served draft.receiver draft.operation_type draft.department_code net
      (threshold_of config.unnamed_threshold_pyg) (none_pushed _ _ low) (none_pushed _ _ consumer)
      (none_pushed _ _ supported) (none_pushed _ _ public) address

-- A draft without violations has a receiver whom a document can be issued to, with the net total and
-- the threshold that the check compares.
pub validate_invoice_draft-IsServed :
    (u : Unicode) (draft : InvoiceDraft) (config : ValidationConfig)
    → validate_invoice_draft u draft config ≡ []
    → IsServed draft.receiver draft.operation_type draft.department_code
        (net_of (draft_lines config draft).total (parse_amount (written draft.rounding_pyg)))
        (threshold_of config.unnamed_threshold_pyg)
unfolding validate_invoice_draft
validate_invoice_draft-IsServed u draft config h =
    let s = draft_lines config draft in
    let net = net_of s.total (parse_amount (written draft.rounding_pyg)) in
    let (receiver, address) =
      five_parts s.errors (total_errors config draft s) (receiver_errors config draft net)
        (validate_address_block
          (address_block draft.receiver draft.operation_type draft.department_code))
        (geography_errors u config.geo_catalog config.validate_geo draft) h in
    receiver_errors-none config draft net receiver address
