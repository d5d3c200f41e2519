-- ===== src/Emission/Draft/Address.antt =====
-- The receiver of a draft: `validateAddressBlock`, and `validateGeography` over a geographic table.
use facturacion_sifen.Prelude.{
  ℕ, Bool, true, false, not, Option, none, some, List, [], ◌∷◌, ◌++◌, ◌&&◌, leb, ◌==◌, Text,
  text_eq, if◌then◌else◌, reverse,
}
use facturacion_sifen.Emission.Draft.Errors.{
  OperationType, b2f, DraftReceiverAddress, in_department, in_address, in_house_number,
  in_district_code, in_city_code, in_district_description, in_city_description, unknown_department,
  address_required, house_number_required, department_not_allowed, city_not_allowed,
  department_required, city_required, district_unknown, city_unknown, city_not_in_district,
  district_not_in_department, city_not_in_department, district_description_mismatch,
  city_description_mismatch, ValidationError, violation, sifen_violation, push_if,
}

-- `DEPARTMENTS[code] !== undefined`: the table has the codes from 1 to 20.
unfoldable pub is_department : ℕ → Bool
is_department code = leb 1 code && leb code 20

abbrev pub is_b2f : OperationType → Bool
is_b2f b2f = true
is_b2f _ = false

pub record AddressBlockInput : Type 0 where
  pub operation_type : OperationType
  pub is_unnamed : Bool
  pub address : Option DraftReceiverAddress
  pub department_code : Option ℕ

abbrev pub is_given {ℓ} : {A : Type ℓ} → Option A → Bool
is_given none = false
is_given (some x) = true

abbrev pub unknown_code : Option ℕ → Bool
unknown_code none = false
unknown_code (some code) = not (is_department code)

-- The rules of an address that is informed.
unfoldable pub informed_errors :
    OperationType → Option ℕ → DraftReceiverAddress → List ValidationError
informed_errors operation department a =
    push_if (not (is_given a.house_number))
      (sifen_violation in_house_number house_number_required 4470)
    ++ (if is_b2f operation
        then push_if (is_given department) (violation in_department department_not_allowed)
          ++ push_if (is_given a.city_code) (violation in_city_code city_not_allowed)
        else push_if (not (is_given department))
            (sifen_violation in_department department_required 1324)
          ++ push_if (not (is_given a.city_code)) (sifen_violation in_city_code city_required 1327))

unfoldable pub missing_errors : OperationType → Option ℕ → List ValidationError
missing_errors operation department =
    if is_b2f operation
    then sifen_violation in_address address_required 4478 ∷ []
    else push_if (is_given department) (violation in_address address_required)

unfoldable pub validate_address_block : AddressBlockInput → List ValidationError
unfolding is_department informed_errors missing_errors
validate_address_block input =
    push_if (unknown_code input.department_code) (violation in_department unknown_department)
    ++ (if input.is_unnamed && not (is_b2f input.operation_type) then [] else elim input.address [
      | none ↦ missing_errors input.operation_type input.department_code
      | some a ↦ informed_errors input.operation_type input.department_code a
    ])

pub record GeoDistrict : Type 0 where
  pub code : ℕ
  pub department_code : ℕ
  pub name : Text

pub record GeoCity : Type 0 where
  pub code : ℕ
  pub district_code : ℕ
  pub name : Text

-- The two lookups of the table that the check uses.
pub record GeoCatalog : Type 0 where
  pub district : ℕ → Option GeoDistrict
  pub city : ℕ → Option GeoCity

-- `normalize('NFD')`, `toLowerCase` and `\s` go by the tables of the runtime's Unicode version.
pub record Unicode : Type 0 where
  pub nfd : Text → Text
  pub to_lower_case : Text → Text
  pub is_space : ℕ → Bool

-- `replace(/[\u0300-\u036f]/g, '')`
unfoldable pub strip_marks : Text → Text
strip_marks [] = []
strip_marks (c ∷ cs) =
    let rest = strip_marks cs in if leb 768 c && leb c 879 then rest else c ∷ rest

-- `replace(/\s+/g, ' ')`; the flag says that the last character was a space.
unfoldable pub collapse : Unicode → Bool → Text → Text
collapse u after [] = []
collapse u after (c ∷ cs) =
    let spaced = collapse u true cs in
    let plain = collapse u false cs in
    if u.is_space c then (if after then spaced else b' ' ∷ spaced) else c ∷ plain

unfoldable pub trim_start : Unicode → Text → Text
trim_start u [] = []
trim_start u (c ∷ cs) = let rest = trim_start u cs in if u.is_space c then rest else c ∷ cs

abbrev pub trim : Unicode → Text → Text
trim u t = reverse (trim_start u (reverse (trim_start u t)))

unfoldable pub normalize_text : Unicode → Text → Text
unfolding strip_marks collapse trim_start
normalize_text u t = u.to_lower_case (trim u (collapse u false (strip_marks (u.nfd t))))

abbrev pub same_text : Unicode → Text → Text → Bool
same_text u a b = text_eq (normalize_text u a) (normalize_text u b)

-- `code === undefined ? undefined : lookup(code)`
abbrev pub found {ℓ} : {A : Type ℓ} → (ℕ → Option A) → Option ℕ → Option A
found lookup none = none
found lookup (some code) = lookup code

-- `given !== undefined && given !== actual`
abbrev pub differs : Option ℕ → ℕ → Bool
differs none actual = false
differs (some given) actual = not (given == actual)

abbrev pub text_differs : Unicode → Option Text → Text → Bool
text_differs u none name = false
text_differs u (some t) name = not (same_text u t name)

abbrev pub department_of : Option GeoDistrict → Option ℕ
department_of none = none
department_of (some d) = some d.department_code

-- The department of the city's own district is another one, or there is no such district.
abbrev pub outside : Option ℕ → Option ℕ → Bool
outside none own = false
outside (some code) none = true
outside (some code) (some own) = not (own == code)

unfoldable pub geography_of :
    Unicode
    → GeoCatalog
    → Option ℕ
    → DraftReceiverAddress
    → Option GeoDistrict
    → Option GeoCity
    → List ValidationError
geography_of u catalog department a district city =
    push_if (is_given a.district_code && not (is_given district))
      (violation in_district_code district_unknown)
    ++ push_if (is_given a.city_code && not (is_given city)) (violation in_city_code city_unknown)
    ++ (elim city [
      | none ↦ []
      | some c ↦ elim district [
        | none ↦ []
        | some d ↦
            push_if (not (c.district_code == d.code)) (violation in_city_code city_not_in_district)
      ]
    ])
    ++ (elim district [
      | none ↦ []
      | some d ↦
          push_if (differs department d.department_code)
            (violation in_district_code district_not_in_department)
    ])
    ++ (elim city [
      | none ↦ []
      | some c ↦
          push_if
            (not (is_given a.district_code)
              && outside department (department_of (catalog.district c.district_code)))
            (violation in_city_code city_not_in_department)
    ])
    ++ (elim district [
      | none ↦ []
      | some d ↦
          push_if (text_differs u a.district_description d.name)
            (sifen_violation in_district_description district_description_mismatch 1325)
    ])
    ++ (elim city [
      | none ↦ []
      | some c ↦
          push_if (text_differs u a.city_description c.name)
            (sifen_violation in_city_description city_description_mismatch 1329)
    ])

unfoldable pub validate_geography :
    Unicode → Option DraftReceiverAddress → Option ℕ → GeoCatalog → List ValidationError
unfolding geography_of
validate_geography u none department catalog = []
validate_geography u (some a) department catalog =
    geography_of u catalog department a (found catalog.district a.district_code)
      (found catalog.city a.city_code)
