-- ===== src/Fiscal/Timbrado/Validity.antt =====
-- What holds of every timbrado that is created.
use facturacion_sifen.Prelude.{
  ◌≡◌, ◌≢◌, refl, sym, subst, Bool, true, false, not, Option, none, some, Result, ok, err, guard,
  ◌&&◌, if◌then◌else◌, Text, codes, text_eq_iff, digits_between, trim, >>=-eq-ok, guard-eq-ok,
  ok-injective,
}
use facturacion_sifen.Numbering.Series.{leb_text}
use facturacion_sifen.Fiscal.{normalize_optional}
use facturacion_sifen.Fiscal.Timbrado.{
  DateField, validity_start, validity_end, InvalidTimbrado, Timbrado, is_timbrado_number,
  is_calendar_date, require_valid_date, require_end, ends_after, min_validity_start,
  create_timbrado,
}

abbrev pub IsEnd : Text → Option Text → Type 0
IsEnd start none = Unit {0}
IsEnd start (some end) = (is_calendar_date end ≡ true) × (leb_text start end ≡ true)

pub record IsTimbrado (t : Timbrado) : Type 0 where
  pub number_digits : digits_between 8 8 t.number ≡ true
  pub number_set : t.number ≢ codes "00000000"
  pub start_date : is_calendar_date t.validity_start ≡ true
  pub start_bound : leb_text (codes "2018-05-01") t.validity_start ≡ true
  pub end : IsEnd t.validity_start t.validity_end

date_of :
    (f : DateField) (raw value : Text)
    → require_valid_date f raw ≡ ok value
    → is_calendar_date value ≡ true
unfolding require_valid_date
date_of f raw value h = pick (is_calendar_date (trim raw)) refl h
  where
    pick :
        (b : Bool)
        → is_calendar_date (trim raw) ≡ b
        → (let r : Result InvalidTimbrado Text =
              if b then ok (trim raw) else err (InvalidTimbrado.bad_date f raw) in
            r)
          ≡ ok value
        → is_calendar_date value ≡ true
    pick true e q = subst (λ v. is_calendar_date v ≡ true) (ok-injective q) e
    pick false e q = cc

IsEnd-of :
    (start : Text) (raw end : Option Text)
    → require_end raw ≡ ok end
    → ends_after start end ≡ true
    → IsEnd start end
IsEnd-of start none end h a = subst (IsEnd start) (ok-injective h) tt
IsEnd-of start (some raw) end h a =
    let (value, valid, e) = >>=-eq-ok (require_valid_date validity_end raw) _ h in
    let same : some value ≡ end = ok-injective e in
    subst (IsEnd start) same
      (date_of validity_end raw value valid, subst (λ o. ends_after start o ≡ true) (sym same) a)

-- A timbrado that is created has a number of 8 digits that are not all zero, starts on a day of the
-- calendar from 2018-05-01 on, and ends, if at all, on a day of the calendar that is not before the
-- start.
pub create_timbrado-IsTimbrado : (input t : Timbrado) → create_timbrado input ≡ ok t → IsTimbrado t
unfolding create_timbrado
create_timbrado-IsTimbrado input t h =
    let (_, n, h1) =
      >>=-eq-ok
        (guard (is_timbrado_number (trim input.number)) (InvalidTimbrado.bad_number input.number)) _
        h in
    let (start, s, h2) = >>=-eq-ok (require_valid_date validity_start input.validity_start) _ h1 in
    let (_, b, h3) =
      >>=-eq-ok (guard (leb_text min_validity_start start) InvalidTimbrado.starts_too_early) _ h2 in
    let (end, e, h4) = >>=-eq-ok (require_end (normalize_optional input.validity_end)) _ h3 in
    let (_, a, h5) =
      >>=-eq-ok (guard (ends_after start end) InvalidTimbrado.ends_before_start) _ h4 in
    let (eight, other) =
      both (digits_between 8 8 (trim input.number)) _
        (guard-eq-ok (is_timbrado_number (trim input.number)) _ n) in
    subst IsTimbrado (ok-injective h5) (record {
      number_digits = eight;
      number_set = λ zeros.
          let same = (text_eq_iff (trim input.number) (codes "00000000")).1 zeros in
          clash _ same other;
      start_date = date_of validity_start input.validity_start start s;
      start_bound = guard-eq-ok (leb_text min_validity_start start) _ b;
      end =
          IsEnd-of start (normalize_optional input.validity_end) end e
            (guard-eq-ok (ends_after start end) _ a);
    })
  where
    both : (p q : Bool) → (p && q) ≡ true → (p ≡ true) × (q ≡ true)
    both true q k = (refl, k)
    both false q k = cc

    clash : (c : Bool) → c ≡ true → not c ≢ true
    clash true k l = cc
    clash false k l = cc
