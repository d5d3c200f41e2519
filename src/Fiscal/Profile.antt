-- ===== src/Fiscal/Profile.antt =====
-- apps/api/src/modules/fiscal-config/domain/fiscal-profile.ts: the fiscal profile of an issuer.
pub mod Shape
mod Tests
use facturacion_sifen.Prelude.{
  ℕ, Bool, true, false, not, Option, none, some, List, [], ◌∷◌, Result, ok, err, ◌>>=◌, ◌>>◌, guard,
  leb, ◌&&◌, ◌||◌, if◌then◌else◌, Text, codes, text_eq, trim, length, all, is_digit, is_upper,
  digits_between,
}
use facturacion_sifen.Ruc.{Ruc}
use facturacion_sifen.Fiscal.{normalize_optional}

pub data NameField : Type 0 where
  legal_name trade_name : NameField

pub data InvalidFiscalProfile : Type 0 where
  bad_taxpayer_type bad_activity_code bad_description duplicated : Text → InvalidFiscalProfile
  bad_name : NameField → InvalidFiscalProfile
  bad_regime_code : InvalidFiscalProfile
  bad_activities : ℕ → InvalidFiscalProfile

pub record EconomicActivity : Type 0 where
  pub code : Text
  pub description : Text

pub record FiscalProfile : Type 0 where
  pub ruc : Ruc
  pub legal_name : Text
  pub trade_name : Option Text
  pub taxpayer_type : Text
  pub regime_code : Option Text
  pub economic_activities : List EconomicActivity

abbrev pub has_text : List Text → Text → Bool
has_text [] t = false
has_text (s ∷ ss) t = text_eq s t || has_text ss t

-- `in` also finds the names that every object inherits.
abbrev pub taxpayer_types : List Text
taxpayer_types =
    codes "persona_fisica"
    ∷ codes "persona_juridica"
    ∷ codes "constructor"
    ∷ codes "hasOwnProperty"
    ∷ codes "isPrototypeOf"
    ∷ codes "propertyIsEnumerable"
    ∷ codes "toLocaleString"
    ∷ codes "toString"
    ∷ codes "valueOf"
    ∷ codes "__defineGetter__"
    ∷ codes "__defineSetter__"
    ∷ codes "__lookupGetter__"
    ∷ codes "__lookupSetter__"
    ∷ codes "__proto__"
    ∷ []

unfoldable pub validate_name : NameField → Text → Result InvalidFiscalProfile Text
validate_name field raw =
    let value = trim raw in
    if leb 4 (length value) && leb (length value) 255 then ok value else err (bad_name field)

abbrev pub validate_trade_name : Option Text → Result InvalidFiscalProfile (Option Text)
validate_trade_name none = ok none
validate_trade_name (some raw) = validate_name trade_name raw >>= λ name. ok (some name)

-- Absent, or `^\d{1,2}$`.
abbrev pub is_regime_code : Option Text → Bool
is_regime_code none = true
is_regime_code (some value) = digits_between 1 2 value

-- `[A-Za-z0-9]`
abbrev pub is_alphanumeric : ℕ → Bool
is_alphanumeric c = is_digit c || (is_upper c || (leb b'a' c && leb c b'z'))

abbrev pub is_activity_code : Text → Bool
is_activity_code code = all is_alphanumeric code && (leb 1 (length code) && leb (length code) 8)

unfoldable pub validate_economic_activity :
    EconomicActivity → Result InvalidFiscalProfile EconomicActivity
validate_economic_activity activity = do
  guard (is_activity_code (trim activity.code)) (bad_activity_code activity.code)
  guard (leb 1 (length (trim activity.description)) && leb (length (trim activity.description)) 300)
      (bad_description activity.description)
  ok (record { code = trim activity.code; description = trim activity.description })

unfoldable pub validate_activities :
    List EconomicActivity → Result InvalidFiscalProfile (List EconomicActivity)
validate_activities [] = ok []
validate_activities (activity ∷ activities) = do
  valid ← validate_economic_activity activity
  rest ← validate_activities activities
  ok (valid ∷ rest)

-- The loop over the codes, with those that it has met.
unfoldable pub check_codes :
    List Text → List EconomicActivity → Result InvalidFiscalProfile (Unit {0})
check_codes seen_codes [] = ok tt
check_codes seen_codes (activity ∷ activities) = do
  guard (not (has_text seen_codes activity.code)) (duplicated activity.code)
  check_codes (activity.code ∷ seen_codes) activities

-- The input has the fields of a profile, not yet validated.
unfoldable pub create_fiscal_profile : FiscalProfile → Result InvalidFiscalProfile FiscalProfile
create_fiscal_profile input = do
  guard (has_text taxpayer_types input.taxpayer_type) (bad_taxpayer_type input.taxpayer_type)
  legal ← validate_name legal_name input.legal_name
  trade ← validate_trade_name (normalize_optional input.trade_name)
  guard (is_regime_code (normalize_optional input.regime_code)) bad_regime_code
  guard (leb 1 (length input.economic_activities) && leb (length input.economic_activities) 9)
      (bad_activities (length input.economic_activities))
  activities ← validate_activities input.economic_activities
  distinct ← check_codes [] activities
  ok (record {
    ruc = input.ruc;
    legal_name = legal;
    trade_name = trade;
    taxpayer_type = input.taxpayer_type;
    regime_code = normalize_optional input.regime_code;
    economic_activities = activities;
  })
