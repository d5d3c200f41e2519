-- ===== src/Emission/SecurityCode/Tests.antt =====
-- Runs of the loop, and the theorem at concrete draws.
use facturacion_sifen.Prelude.{
  ℕ, zero, suc, ◌≡◌, ◌≢◌, refl, arith, true, some, none, ok, err, codes, Text, number,
  digits_between, show,
}
use facturacion_sifen.Emission.SecurityCode.{
  parse_document_number, draw_code, generate_security_code, invalid_document_number,
}
use facturacion_sifen.Emission.SecurityCode.Draws.{generate_security_code-different}

operations : Unit {0}
unfolding parse_document_number draw_code generate_security_code number show
operations = tt

-- The first draw is above the limit, the second gives the number of the document.
abbrev draws : ℕ → ℕ
draws zero = 4000000007
draws (suc zero) = 1000000123
draws (suc (suc n)) = 2000000045

code_runs :
    (generate_security_code (codes "123") draws 3 ≡ ok (some (codes "000000045")))
    × (generate_security_code (codes "123") draws 2 ≡ ok none)
    × (generate_security_code (codes "0") draws 3 ≡ err (invalid_document_number (codes "0")))
unfolding operations
code_runs = (refl, refl, refl)

number_123 : number (codes "123") ≡ 123
unfolding number
number_123 = refl

generate_security_code-different_example :
    (code : Text) × (generate_security_code (codes "123") draws 3 ≡ ok (some code))
    × (digits_between 9 9 code ≡ true)
    × (number code ≢ number (codes "123"))
generate_security_code-different_example =
    generate_security_code-different (codes "123") draws 3 2 refl (omega (arith, number_123))
      (omega arith) (omega arith, omega (arith, number_123))
