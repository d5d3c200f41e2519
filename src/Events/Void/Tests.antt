-- ===== src/Events/Void/Tests.antt =====
-- Runs of the reading of a request to void a range, and the theorems at concrete values.
use facturacion_sifen.Prelude.{◌≡◌, ◌↔◌, refl, some, none, ok, err, [], ◌∷◌, codes, trim}
use facturacion_sifen.Prelude.Int.{pos, ◌+ℤ◌, ◌-ℤ◌}
use facturacion_sifen.Events.Void.{
  VoidBody, VoidRange, default_void_config, text, integer, undefined, other, fails, fails_with,
  from, to, timbrado, invalid_timbrado, invalid_number, range_too_large, range_size, range_errors,
  void_errors, parse_void_request, ranges_overlap,
}
use facturacion_sifen.Events.Void.Requests.{IsVoidRequest, parse_void_request_iff}

operations : Unit {0}
unfolding range_size range_errors void_errors parse_void_request ranges_overlap ◌+ℤ◌ ◌-ℤ◌ trim
operations = tt

abbrev body : VoidBody
body = record {
  timbrado = text (codes "12345678");
  establishment = text (codes "001");
  expedition_point = text (codes "002");
  type = integer (pos 1);
  series = undefined;
  from = integer (pos 10);
  to = integer (pos 20);
  reason = text (codes " not printed ");
}

abbrev range : VoidRange
range = record {
  timbrado = codes "12345678";
  establishment = codes "001";
  point = codes "002";
  from = 10;
  to = 20;
  type = 1;
  series = none;
}

void_runs :
    (parse_void_request body default_void_config ≡ ok (range, codes "not printed"))
    × (parse_void_request
          (record body { timbrado = text (codes "1234567x"); from = other })
          default_void_config
        ≡ err (fails timbrado invalid_timbrado ∷ fails from invalid_number ∷ []))
    × (parse_void_request (record body { to = integer (pos 1010) }) default_void_config
        ≡ err (fails_with to range_too_large 4067 ∷ []))
unfolding operations
void_runs = (refl, refl, refl)

parse_void_request_iff_example :
    (parse_void_request body default_void_config ≡ ok (range, codes "not printed"))
    ↔ IsVoidRequest body default_void_config range (codes "not printed")
parse_void_request_iff_example =
    parse_void_request_iff body default_void_config range (codes "not printed")

abbrev later_range : VoidRange
later_range = record range { from = 20; to = 30; series = some [] }
