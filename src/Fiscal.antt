-- ===== src/Fiscal.antt =====
-- apps/api/src/modules/fiscal-config/domain: what an issuer configures, next to its RUC.
pub mod Profile
pub mod Timbrado
use facturacion_sifen.Prelude.{Bool, true, false, Option, none, some, [], ◌∷◌, Text, trim}

-- `trimmed === undefined || trimmed === '' ? null : trimmed`
abbrev pub some_if_filled : Text → Option Text
some_if_filled [] = none
some_if_filled (c ∷ cs) = some (c ∷ cs)

-- `raw?.trim()`, and `null` for what is empty.
abbrev pub normalize_optional : Option Text → Option Text
normalize_optional none = none
normalize_optional (some raw) = some_if_filled (trim raw)
