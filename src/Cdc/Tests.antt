-- ===== src/Cdc/Tests.antt =====
-- Runs of the CDC operations, and the theorems at concrete values.
use facturacion_sifen.Prelude.{◌≢◌, ◌++◌, [], ◌∷◌, arith}
use facturacion_sifen.Cdc.RoundTrip.{build_cdc-parse_cdc}
use facturacion_sifen.Cdc.Reading.{padded, parse_cdc-build_cdc}
use facturacion_sifen.Cdc.Detection.{parse_cdc-mistyped}
use facturacion_sifen.Prelude.{◌≡◌, refl, ok, err, codes, show, number, Text}
use facturacion_sifen.Ruc.{create_ruc}
use facturacion_sifen.Cdc.{
  CdcParts, digits, one_of, compact_date, check_parts, join_parts, compute_cdc_check_digit,
  parts_of, build_cdc, parse_cdc, invalid, security_code, equals_document_number,
}

operations : Unit {0}
unfolding create_ruc digits one_of compact_date check_parts join_parts compute_cdc_check_digit
    build_cdc parts_of parse_cdc show number
operations = tt

abbrev sample : CdcParts
sample = record {
  document_type = codes "1";
  ruc_base = codes "44444401";
  ruc_dv = 7;
  establishment = codes "1";
  point = codes "001";
  document_number = codes "14528";
  taxpayer_type = 2;
  issue_date = codes "2017-01-25";
  emission_type = 1;
  security_code = codes "587326098";
}

abbrev sample_cdc : Text
sample_cdc = codes "01444444017001001001452822017012515873260988"

manual_run : build_cdc sample ≡ ok sample_cdc
unfolding operations
manual_run = refl

repeated_number :
    build_cdc (record sample { security_code = codes "14528" })
    ≡ err (invalid security_code equals_document_number)
unfolding operations
repeated_number = refl

abbrev sample_fields : CdcParts
sample_fields = record {
  document_type = codes "01";
  ruc_base = codes "44444401";
  ruc_dv = 7;
  establishment = codes "001";
  point = codes "001";
  document_number = codes "0014528";
  taxpayer_type = 2;
  issue_date = codes "20170125";
  emission_type = 1;
  security_code = codes "587326098";
}

abbrev sample_read : CdcParts
sample_read = record sample_fields { issue_date = codes "2017-01-25" }

sample_checked : check_parts sample ≡ ok sample_fields
unfolding operations
sample_checked = refl

sample_parsed : parse_cdc sample_cdc ≡ ok sample_read
unfolding operations
sample_parsed = refl

eight : number (b'8' ∷ []) ≢ 0
unfolding number
eight = omega arith

build_cdc-parse_cdc_example : build_cdc sample_read ≡ ok sample_cdc
build_cdc-parse_cdc_example = build_cdc-parse_cdc sample_cdc sample_read sample_parsed

parse_cdc-build_cdc_example : parse_cdc sample_cdc ≡ ok (padded sample sample_fields)
parse_cdc-build_cdc_example =
    parse_cdc-build_cdc sample sample_fields sample_cdc sample_checked manual_run

-- The last digit of the security code, whose place has the weight 2.
parse_cdc-mistyped_example :
    parse_cdc ((codes "014444440170010010014528220170125158732609" ++ b'9' ∷ []) ++ b'8' ∷ [])
    ≢ ok sample_read
parse_cdc-mistyped_example =
    parse_cdc-mistyped (codes "014444440170010010014528220170125158732609") [] b'8' b'9' b'8'
      sample_read sample_read sample_parsed (omega arith) (omega arith) eight
