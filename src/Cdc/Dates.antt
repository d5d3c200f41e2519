-- ===== src/Cdc/Dates.antt =====
-- The issue date: `compactDate` takes the dashes out, and the slices of the CDC put them back.
use facturacion_sifen.Prelude.{
  ◌≡◌, inl, inr, [], ◌∷◌, ◌++◌, arith, Text, true, ok, all, is_digit, number, length, ◌==◌, some,
  Bool-cases, Option-cases, ◌&&◌,
}
use facturacion_sifen.Cdc.{split_date, compact_date, is_utc_date}

-- The parts of a text that matches `YYYY-MM-DD`.
pub record IsSplitDate (value y m d : Text) : Type 0 where
  pub value_is : value ≡ y ++ b'-' ∷ (m ++ b'-' ∷ d)
  pub lengths : (length y ≡ 4) × (length m ≡ 2) × (length d ≡ 2)
  pub y_digits : all is_digit y ≡ true
  pub m_digits : all is_digit m ≡ true
  pub d_digits : all is_digit d ≡ true

split_date-IsSplitDate :
    (value y m d : Text) → split_date value ≡ some (y, m, d) → IsSplitDate value y m d
unfolding split_date
split_date-IsSplitDate (y1 ∷ y2 ∷ y3 ∷ y4 ∷ h1 ∷ m1 ∷ m2 ∷ h2 ∷ d1 ∷ d2 ∷ []) y m d h =
    elim (Bool-cases
      (all is_digit (y1 ∷ y2 ∷ y3 ∷ y4 ∷ m1 ∷ m2 ∷ d1 ∷ d2 ∷ []) && (h1 == b'-') && (h2 == b'-'))) [
        | inl good ↦ record {
          value_is = ground arith;
          lengths = (ground arith, ground arith, ground arith);
          y_digits = ground arith;
          m_digits = ground arith;
          d_digits = ground arith;
        }
        | inr bad ↦ absurd (ground arith)
      ]
split_date-IsSplitDate value y m d h = absurd (ground arith)

abbrev pub dashed : Text → Text → Text → Text
dashed y m d = y ++ b'-' ∷ (m ++ b'-' ∷ d)

split_date-dashed :
    (y m d : Text)
    → length y ≡ 4
    → length m ≡ 2
    → length d ≡ 2
    → all is_digit y ≡ true
    → all is_digit m ≡ true
    → all is_digit d ≡ true
    → split_date (dashed y m d) ≡ some (y, m, d)
unfolding split_date
split_date-dashed (y1 ∷ y2 ∷ y3 ∷ y4 ∷ []) (m1 ∷ m2 ∷ []) (d1 ∷ d2 ∷ []) ly lm ld hy hm hd =
    ground arith
split_date-dashed y m d ly lm ld hy hm hd = absurd (omega arith)

-- A dashed date that is accepted comes back without its dashes.
pub compact_date-dashed :
    (y m d r : Text)
    → length y ≡ 4
    → length m ≡ 2
    → length d ≡ 2
    → all is_digit y ≡ true
    → all is_digit m ≡ true
    → all is_digit d ≡ true
    → compact_date (dashed y m d) ≡ ok r
    → r ≡ y ++ (m ++ d)
unfolding compact_date
compact_date-dashed y m d r ly lm ld hy hm hd h =
    ground (arith, split_date-dashed y m d ly lm ld hy hm hd)

-- A date that is accepted has its three parts.
pub record IsDate (value r : Text) : Type 0 where
  pub year : Text
  pub month : Text
  pub day : Text
  pub split : IsSplitDate value year month day
  pub compacted : r ≡ year ++ (month ++ day)
  pub real : is_utc_date (number year) (number month) (number day) ≡ true

pub compact_date-IsDate : (value r : Text) → compact_date value ≡ ok r → IsDate value r
unfolding compact_date
compact_date-IsDate value r h = elim (Option-cases (split_date value)) [
  | inl missed ↦ absurd (ground arith)
  | inr ((y, m, d), found) ↦ record {
    year = y;
    month = m;
    day = d;
    split = split_date-IsSplitDate value y m d found;
    compacted = ground arith;
    real = ground arith;
  }
]
