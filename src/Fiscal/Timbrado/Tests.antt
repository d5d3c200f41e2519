-- ===== src/Fiscal/Timbrado/Tests.antt =====
-- Runs of the creation of timbrados and points.
use facturacion_sifen.Prelude.{◌≡◌, refl, some, none, ok, err, codes, trim, number}
use facturacion_sifen.Cdc.{split_date, days_in_month}
use facturacion_sifen.Fiscal.Timbrado.{
  Timbrado, is_calendar_date, require_valid_date, create_timbrado, create_expedition_point,
  validity_end, bad_date, ends_before_start, starts_too_early, invalid_expedition_point,
}

operations : Unit {0}
unfolding trim number split_date days_in_month is_calendar_date require_valid_date create_timbrado
    create_expedition_point
operations = tt

abbrev timbrado : Timbrado
timbrado = record {
  number = codes "12345678";
  validity_start = codes "2024-02-29";
  validity_end = none;
}

timbrado_runs :
    (create_timbrado timbrado ≡ ok timbrado)
    × (create_timbrado (record timbrado { validity_start = codes "2018-04-30" })
        ≡ err starts_too_early)
    × (create_timbrado (record timbrado { validity_end = some (codes "2024-02-28") })
        ≡ err ends_before_start)
    × (create_timbrado (record timbrado { validity_end = some (codes "2025-02-29") })
        ≡ err (bad_date validity_end (codes "2025-02-29")))
    × (create_expedition_point (codes "000") ≡ err (invalid_expedition_point (codes "000")))
    × (create_expedition_point (codes " 001") ≡ ok (record { code = codes "001" }))
unfolding operations
timbrado_runs = (refl, refl, refl, refl, refl, refl)
