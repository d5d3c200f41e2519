-- ===== src/Emission/SecurityCode.antt =====
-- apps/api/src/modules/emission/domain/security-code.ts: the code that makes a CDC hard to guess.
-- `randomBytes(4).readUInt32BE(0)` is a parameter, the numbers below 2 ^ 32 that are drawn one after
-- the other. The loop, which has no bound, runs on fuel: the number of draws it may make.
pub mod Draws
mod Tests
use facturacion_sifen.Prelude.{
  ℕ, zero, suc, ◌+◌, ◌-◌, ◌*◌, ◌%◌, ◌^◌, Bool, true, false, not, Option, none, some, Result, ok,
  err, ◌>>=◌, ◌>>◌, guard, ltb, leb, ◌==◌, ◌&&◌, ◌||◌, if◌then◌else◌, Text, digits_between, number,
  show, pad_start,
}

pub data InvalidDocumentNumber : Type 0 where
  invalid_document_number : Text → InvalidDocumentNumber

abbrev pub code_space : ℕ
code_space = 1000000000

abbrev pub uint32_space : ℕ
uint32_space = 2 ^ 32

abbrev pub accept_below : ℕ
accept_below = uint32_space - uint32_space % code_space

unfoldable pub parse_document_number : Text → Result InvalidDocumentNumber ℕ
parse_document_number text = do
  guard (digits_between 1 7 text && not (ltb (number text) 1)) (invalid_document_number text)
  ok (number text)

-- The loop, from the draw `i` on; `none` when the fuel is used up.
unfoldable pub draw_code : (draws : ℕ → ℕ) (forbidden fuel i : ℕ) → Option Text
draw_code draws forbidden zero i = none
draw_code draws forbidden (suc fuel) i =
    let next = draw_code draws forbidden fuel (i + 1) in
    if leb accept_below (draws i)
    then next
    else if not (draws i % code_space == forbidden)
    then some (pad_start 9 b'0' (show (draws i % code_space)))
    else next

unfoldable pub generate_security_code :
    Text → (draws : ℕ → ℕ) (fuel : ℕ) → Result InvalidDocumentNumber (Option Text)
generate_security_code document_number draws fuel = do
  forbidden ← parse_document_number document_number
  ok (draw_code draws forbidden fuel 0)
