-- ===== src/Fiscal/Profile/Tests.antt =====
-- A profile that is created, and the theorem at it.
use facturacion_sifen.Prelude.{◌≡◌, refl, some, none, ok, err, [], ◌∷◌, codes, trim}
use facturacion_sifen.Fiscal.Profile.{
  FiscalProfile, EconomicActivity, validate_name, validate_economic_activity, validate_activities,
  check_codes, create_fiscal_profile, duplicated, bad_taxpayer_type,
}
use facturacion_sifen.Fiscal.Profile.Shape.{IsProfile, create_fiscal_profile-IsProfile}

operations : Unit {0}
unfolding trim validate_name validate_economic_activity validate_activities check_codes
    create_fiscal_profile
operations = tt

abbrev trade : EconomicActivity
trade = record { code = codes "46103"; description = codes "Retail" }

abbrev profile : FiscalProfile
profile = record {
  ruc = record { base = codes "4490207"; dv = 7 };
  legal_name = codes "Acme SA";
  trade_name = none;
  taxpayer_type = codes "persona_juridica";
  regime_code = some (codes "8");
  economic_activities = trade ∷ [];
}

created :
    create_fiscal_profile
      (record profile { legal_name = codes " Acme SA "; trade_name = some (codes " ") })
    ≡ ok profile
unfolding operations
created = refl

profile_runs :
    (create_fiscal_profile (record profile { economic_activities = trade ∷ trade ∷ [] })
      ≡ err (duplicated (codes "46103")))
    × (create_fiscal_profile (record profile { taxpayer_type = codes "other" })
        ≡ err (bad_taxpayer_type (codes "other")))
unfolding operations
profile_runs = (refl, refl)

create_fiscal_profile-IsProfile_example : IsProfile profile
create_fiscal_profile-IsProfile_example =
    create_fiscal_profile-IsProfile
      (record profile { legal_name = codes " Acme SA "; trade_name = some (codes " ") }) profile
      created
