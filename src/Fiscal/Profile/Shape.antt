-- ===== src/Fiscal/Profile/Shape.antt =====
-- What holds of every fiscal profile that is created.
use facturacion_sifen.Prelude.{
  ℕ, suc, ◌≤◌, ◌≡◌, refl, sym, ap, subst, arith, Bool, true, false, not, Option, none, some, List,
  [], ◌∷◌, Result, ok, err, guard, leb, ◌&&◌, if◌then◌else◌, Text, length, trim, >>=-eq-ok,
  guard-eq-ok, ok-injective,
}
use facturacion_sifen.Fiscal.{normalize_optional}
use facturacion_sifen.Fiscal.Profile.{
  NameField, trade_name, legal_name, InvalidFiscalProfile, EconomicActivity, FiscalProfile,
  has_text, taxpayer_types, validate_name, validate_trade_name, is_regime_code, is_activity_code,
  validate_economic_activity, validate_activities, check_codes, create_fiscal_profile,
}

abbrev pub IsName : Text → Type 0
IsName name = (4 ≤ length name) × (length name ≤ 255)

abbrev pub IsOptionalName : Option Text → Type 0
IsOptionalName none = Unit {0}
IsOptionalName (some name) = IsName name

abbrev pub IsActivity : EconomicActivity → Type 0
IsActivity a =
    (is_activity_code a.code ≡ true) × (1 ≤ length a.description) × (length a.description ≤ 300)

-- Every activity is well formed, and its code is none of the given ones nor of one before it.
abbrev pub AreActivities : List Text → List EconomicActivity → Type 0
AreActivities codes [] = Unit {0}
AreActivities codes (a ∷ as_) =
    IsActivity a × (has_text codes a.code ≡ false) × AreActivities (a.code ∷ codes) as_

pub record IsProfile (p : FiscalProfile) : Type 0 where
  pub legal : IsName p.legal_name
  pub trade : IsOptionalName p.trade_name
  pub regime : is_regime_code p.regime_code ≡ true
  pub some_activities : (1 ≤ length p.economic_activities) × (length p.economic_activities ≤ 9)
  pub activities : AreActivities [] p.economic_activities

IsName-of : (f : NameField) (raw name : Text) → validate_name f raw ≡ ok name → IsName name
unfolding validate_name
IsName-of f raw name h = pick (leb 4 (length (trim raw)) && leb (length (trim raw)) 255) refl h
  where
    pick :
        (b : Bool)
        → (leb 4 (length (trim raw)) && leb (length (trim raw)) 255) ≡ b
        → (let r : Result InvalidFiscalProfile Text =
              if b then ok (trim raw) else err (InvalidFiscalProfile.bad_name f) in
            r)
          ≡ ok name
        → IsName name
    pick true e q = subst IsName (ok-injective q) (ground arith)
    pick false e q = cc

trade_name_of :
    (o : Option Text) (name : Option Text) → validate_trade_name o ≡ ok name → IsOptionalName name
trade_name_of none name h = subst IsOptionalName (ok-injective h) tt
trade_name_of (some raw) name h =
    let (value, valid, e) = >>=-eq-ok (validate_name trade_name raw) _ h in
    subst IsOptionalName (ok-injective e) (IsName-of trade_name raw value valid)

IsActivity-of : (a b : EconomicActivity) → validate_economic_activity a ≡ ok b → IsActivity b
unfolding validate_economic_activity
IsActivity-of a b h =
    let (_, g, h1) =
      >>=-eq-ok
        (guard (is_activity_code (trim a.code)) (InvalidFiscalProfile.bad_activity_code a.code)) _
        h in
    let (_, k, h2) =
      >>=-eq-ok
        (guard (leb 1 (length (trim a.description)) && leb (length (trim a.description)) 300)
          (InvalidFiscalProfile.bad_description a.description))
        _ h1 in
    let coded = guard-eq-ok (is_activity_code (trim a.code)) _ g in
    let described =
      guard-eq-ok (leb 1 (length (trim a.description)) && leb (length (trim a.description)) 300) _
        k in
    subst IsActivity (ok-injective h2) (coded, ground arith, ground arith)

-- The validated activities, with codes that the loop did not refuse.
activities_of :
    (raw valid : List EconomicActivity) (codes : List Text) (u : Unit {0})
    → validate_activities raw ≡ ok valid
    → check_codes codes valid ≡ ok u
    → AreActivities codes valid × (length valid ≡ length raw)
unfolding validate_activities check_codes
activities_of [] valid codes u h k =
    subst (λ v. AreActivities codes v × (length v ≡ 0)) (ok-injective h) (tt, refl)
activities_of (a ∷ as_) valid codes u h k =
    let (b, valid_b, h1) = >>=-eq-ok (validate_economic_activity a) _ h in
    let (bs, valid_bs, h2) = >>=-eq-ok (validate_activities as_) _ h1 in
    let whole : b ∷ bs ≡ valid = ok-injective h2 in
    let k' : check_codes codes (b ∷ bs) ≡ ok u =
      subst (λ v. check_codes codes v ≡ ok u) (sym whole) k in
    let (_, fresh, k1) =
      >>=-eq-ok (guard (not (has_text codes b.code)) (InvalidFiscalProfile.duplicated b.code)) _
        k' in
    let (rest, same_length) = activities_of as_ bs (b.code ∷ codes) u valid_bs k1 in
    subst (λ v. AreActivities codes v × (length v ≡ suc (length as_))) whole
      (
        (
          IsActivity-of a b valid_b,
          not-false (has_text codes b.code) (guard-eq-ok (not (has_text codes b.code)) _ fresh),
          rest,
        ),
        ap suc same_length,
      )
  where
    not-false : (b : Bool) → not b ≡ true → b ≡ false
    not-false true q = cc
    not-false false q = refl

within : (n : ℕ) → (leb 1 n && leb n 9) ≡ true → (1 ≤ n) × (n ≤ 9)
within n q = ground arith

-- A fiscal profile that is created has a legal name of 4 to 255 characters, a trade name of as many or
-- none, a regime code of one or two digits or none, and 1 to 9 economic activities, each with a code of
-- 1 to 8 letters and digits and a description of 1 to 300 characters, no two with the same code.
pub create_fiscal_profile-IsProfile :
    (input p : FiscalProfile) → create_fiscal_profile input ≡ ok p → IsProfile p
unfolding create_fiscal_profile
create_fiscal_profile-IsProfile input p h =
    let regime = normalize_optional input.regime_code in
    let n = length input.economic_activities in
    let (_, _, h1) =
      >>=-eq-ok
        (guard (has_text taxpayer_types input.taxpayer_type)
          (InvalidFiscalProfile.bad_taxpayer_type input.taxpayer_type))
        _ h in
    let (legal, l, h2) = >>=-eq-ok (validate_name legal_name input.legal_name) _ h1 in
    let (trade, t, h3) =
      >>=-eq-ok (validate_trade_name (normalize_optional input.trade_name)) _ h2 in
    let (_, r, h4) =
      >>=-eq-ok (guard (is_regime_code regime) InvalidFiscalProfile.bad_regime_code) _ h3 in
    let (_, c, h5) =
      >>=-eq-ok (guard (leb 1 n && leb n 9) (InvalidFiscalProfile.bad_activities n)) _ h4 in
    let (valid, v, h6) = >>=-eq-ok (validate_activities input.economic_activities) _ h5 in
    let (u, d, h7) = >>=-eq-ok (check_codes [] valid) _ h6 in
    let counted = guard-eq-ok (leb 1 n && leb n 9) _ c in
    let (are, same) = activities_of input.economic_activities valid [] u v d in
    subst IsProfile (ok-injective h7) (record {
      legal = IsName-of legal_name input.legal_name legal l;
      trade = trade_name_of (normalize_optional input.trade_name) trade t;
      regime = guard-eq-ok (is_regime_code regime) _ r;
      some_activities = subst (λ k. (1 ≤ k) × (k ≤ 9)) (sym same) (within n counted);
      activities = are;
    })
