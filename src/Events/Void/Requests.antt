-- ===== src/Events/Void/Requests.antt =====
-- Which requests to void a range are taken.
use facturacion_sifen.Prelude.{
  ℕ, ◌+◌, ◌≤◌, ◌<◌, ◌≡◌, ◌⊎◌, ◌↔◌, inl, inr, refl, sym, subst, arith, Bool, true, false, not,
  Option, none, some, List, [], ◌∷◌, Result, ok, err, ltb, leb, ◌==◌, ◌&&◌, ◌||◌, if◌then◌else◌,
  Text, length, all, is_upper, digits_between,
}
use facturacion_sifen.Prelude.Int.{pos, negsuc, ltb_ℤ, eqb_ℤ, ◌-ℤ◌, ◌+ℤ◌}
use facturacion_sifen.Events.Void.{
  VoidConfig, VoidRange, VoidBody, VoidFieldError, Value, undefined, text, integer, fraction, other,
  is_document_type, is_number, digits, is_series, as_text, as_number, as_series, reason_of,
  range_size, unless, range_errors, void_errors, range_of, parse_void_request, fails_with, to,
  range_end_before_start, range_too_large,
}

-- The series of a request is absent, or has two capital letters.
abbrev pub SeriesIs : Value → Option Text → Type 0
SeriesIs given series =
    ((given ≡ undefined) × (series ≡ none))
    ⊎ ((s : Text) × (given ≡ text s) × (series ≡ some s) × (all is_upper s ≡ true) × (length s ≡ 2))

-- What the manual asks of a request to void `range` for `reason`.
pub record IsVoidRequest (body : VoidBody) (config : VoidConfig) (range : VoidRange) (reason : Text)
    : Type 0 where
  pub timbrado_is : body.timbrado ≡ text range.timbrado
  pub timbrado_digits : digits_between 8 8 range.timbrado ≡ true
  pub establishment_is : body.establishment ≡ text range.establishment
  pub establishment_digits : digits_between 3 3 range.establishment ≡ true
  pub point_is : body.expedition_point ≡ text range.point
  pub point_digits : digits_between 3 3 range.point ≡ true
  pub type_is : body.type ≡ integer (pos range.type)
  pub type_bounds : (1 ≤ range.type) × (range.type ≤ 8)
  pub series_is : SeriesIs body.series range.series
  pub from_is : body.from ≡ integer (pos range.from)
  pub to_is : body.to ≡ integer (pos range.to)
  pub bounds : (1 ≤ range.from) × (range.from ≤ range.to) × (range.to ≤ 9999999)
  pub single : (config.allow_single_number ≡ true) ⊎ (range.from < range.to)
  pub size : range.to + 1 ≤ config.max_range_size + range.from
  pub reason_is : reason ≡ reason_of body.reason
  pub reason_bounds : (5 ≤ length reason) × (length reason ≤ config.reason_max_length)

unless-nil :
    {A : Type 0} (b : Bool) (e : A) (rest : List A)
    → unless b e rest ≡ []
    → (b ≡ true) × (rest ≡ [])
unless-nil true e rest h = (refl, h)
unless-nil false e rest h = cc

is_integer : (v : Value) → is_number v ≡ true → v ≡ integer (pos (as_number v))
is_integer (integer (pos n)) h = refl
is_integer (integer (negsuc n)) h = cc
is_integer undefined h = cc
is_integer (text s) h = cc
is_integer fraction h = cc
is_integer other h = cc

is_type : (v : Value) → is_document_type v ≡ true → v ≡ integer (pos (as_number v))
is_type (integer (pos n)) h = refl
is_type (integer (negsuc n)) h = cc
is_type undefined h = cc
is_type (text s) h = cc
is_type fraction h = cc
is_type other h = cc

is_text : (v : Value) (n : ℕ) → digits v n ≡ true → v ≡ text (as_text v)
is_text (text s) n h = refl
is_text undefined n h = cc
is_text (integer i) n h = cc
is_text fraction n h = cc
is_text other n h = cc

series_of : (v : Value) → is_series v ≡ true → SeriesIs v (as_series v)
series_of undefined h = inl (refl, refl)
series_of (text s) h = inr (s, refl, refl, ground arith, ground arith)
series_of (integer i) h = cc
series_of fraction h = cc
series_of other h = cc

size_small : (f l : ℕ) → ltb_ℤ (range_size f l) (pos 1) ≡ ltb l f
unfolding range_size ◌-ℤ◌ ◌+ℤ◌
size_small f l = ground arith

size_one : (f l : ℕ) → eqb_ℤ (range_size f l) (pos 1) ≡ (f == l)
unfolding range_size ◌-ℤ◌ ◌+ℤ◌
size_one f l = ground arith

size_large : (f l m : ℕ) → ltb_ℤ (pos m) (range_size f l) ≡ ltb (m + f) (l + 1)
unfolding range_size ◌-ℤ◌ ◌+ℤ◌
size_large f l m = ground arith

text_digits : (v : Value) (n : ℕ) → digits v n ≡ true → digits_between n n (as_text v) ≡ true
text_digits (text s) n h = h
text_digits undefined n h = cc
text_digits (integer i) n h = cc
text_digits fraction n h = cc
text_digits other n h = cc

type_range : (v : Value) → is_document_type v ≡ true → (1 ≤ as_number v) × (as_number v ≤ 8)
type_range v h = ground arith

number_range : (v : Value) → is_number v ≡ true → (1 ≤ as_number v) × (as_number v ≤ 9999999)
number_range v h = ground arith

-- The ends of a range that has no error.
range_errors_iff :
    (first last : ℕ) (config : VoidConfig)
    → (range_errors first last config ≡ []) ↔ (
        (first ≤ last)
        × (((config.allow_single_number ≡ true) ⊎ (first < last))
            × (last + 1 ≤ config.max_range_size + first)))
unfolding range_errors
range_errors_iff first last config =
    rw (size_small first last, size_one first last, size_large first last config.max_range_size)
      (go config.allow_single_number)
  where
    go :
        (single : Bool)
        → ((if ltb last first || ((first == last) && not single)
              then fails_with to range_end_before_start 4068 ∷ []
              else unless
                  (not (ltb (config.max_range_size + first) (last + 1)))
                  (fails_with to range_too_large 4067)
                  [])
            ≡ [])
          ↔ ((first ≤ last)
              × (((single ≡ true) ⊎ (first < last)) × (last + 1 ≤ config.max_range_size + first)))
    go true = ground arith
    go false = ground arith

-- A body with no error, and what it holds.
taken :
    (body : VoidBody) (config : VoidConfig) (out : VoidRange × Text)
    → parse_void_request body config ≡ ok out
    → (void_errors body config ≡ []) × (out ≡ (range_of body, reason_of body.reason))
unfolding parse_void_request
taken body config out h = go (void_errors body config) h
  where
    go :
        (errors : List VoidFieldError)
        → (let r : Result (List VoidFieldError) (VoidRange × Text) = elim errors [
          | [] ↦ ok (range_of body, reason_of body.reason)
          | e ∷ es ↦ err (e ∷ es)
        ] in
            r)
          ≡ ok out
        → (errors ≡ []) × (out ≡ (range_of body, reason_of body.reason))
    go [] h = (refl, cc)
    go (e ∷ es) h = cc

request_of :
    (body : VoidBody) (config : VoidConfig)
    → void_errors body config ≡ []
    → IsVoidRequest body config (range_of body) (reason_of body.reason)
unfolding void_errors
request_of body config h =
    let (timbrado, h1) = unless-nil (digits body.timbrado 8) _ _ h in
    let (establishment, h2) = unless-nil (digits body.establishment 3) _ _ h1 in
    let (point, h3) = unless-nil (digits body.expedition_point 3) _ _ h2 in
    let (typed, h4) = unless-nil (is_document_type body.type) _ _ h3 in
    let (in_series, h5) = unless-nil (is_series body.series) _ _ h4 in
    let (first, h6) = unless-nil (is_number body.from) _ _ h5 in
    let (last, h7) = unless-nil (is_number body.to) _ _ h6 in
    let (reasoned, h8) =
      unless-nil
        (leb 5 (length (reason_of body.reason))
          && leb (length (reason_of body.reason)) config.reason_max_length)
        _ _ h7 in
    let (ordered, (single, size)) =
      (range_errors_iff (as_number body.from) (as_number body.to) config).0
        (both_numbers first last h8) in
    record {
      timbrado_is = is_text body.timbrado 8 timbrado;
      timbrado_digits = text_digits body.timbrado 8 timbrado;
      establishment_is = is_text body.establishment 3 establishment;
      establishment_digits = text_digits body.establishment 3 establishment;
      point_is = is_text body.expedition_point 3 point;
      point_digits = text_digits body.expedition_point 3 point;
      type_is = is_type body.type typed;
      type_bounds = type_range body.type typed;
      series_is = series_of body.series in_series;
      from_is = is_integer body.from first;
      to_is = is_integer body.to last;
      bounds = ((number_range body.from first).0, ordered, (number_range body.to last).1);
      single = single;
      size = size;
      reason_is = refl;
      reason_bounds = ground arith;
    }
  where
    both_numbers :
        is_number body.from ≡ true
        → is_number body.to ≡ true
        → (if is_number body.from && is_number body.to
            then range_errors (as_number body.from) (as_number body.to) config
            else [])
          ≡ []
        → range_errors (as_number body.from) (as_number body.to) config ≡ []
    both_numbers e f h = ground arith

unless_chain :
    {A : Type 0} (b : Bool) (e : A) (rest : List A) → b ≡ true → rest ≡ [] → unless b e rest ≡ []
unless_chain b e rest h k = rw (h, k)

series_back :
    (v : Value) (s : Option Text) → SeriesIs v s → (is_series v ≡ true) × (as_series v ≡ s)
series_back v s (inl (e, f)) = rw (e, f) (refl, refl)
series_back v s (inr (t, e, f, up, two)) = rw (e, f, up, two) (ground arith)

clean_of :
    (body : VoidBody) (config : VoidConfig) (range : VoidRange) (reason : Text)
    → IsVoidRequest body config range reason
    → void_errors body config ≡ []
unfolding void_errors
clean_of body config range reason k =
    unless_chain (digits body.timbrado 8) _ _ (rw k.timbrado_is k.timbrado_digits) (
      unless_chain (digits body.establishment 3) _ _ (rw k.establishment_is k.establishment_digits)
        (unless_chain (digits body.expedition_point 3) _ _ (rw k.point_is k.point_digits) (
          unless_chain (is_document_type body.type) _ _ (rw k.type_is (ground arith)) (
            unless_chain (is_series body.series) _ _
              (series_back body.series range.series k.series_is).0
              (unless_chain (is_number body.from) _ _ (rw k.from_is (ground arith)) (
                unless_chain (is_number body.to) _ _ (rw k.to_is (ground arith)) (
                  unless_chain
                    (leb 5 (length (reason_of body.reason))
                      && leb (length (reason_of body.reason)) config.reason_max_length)
                    _ _ (rw (sym k.reason_is) (ground arith))
                    (rw
                      (
                        k.from_is,
                        k.to_is,
                        (range_errors_iff range.from range.to config).1
                            (k.bounds.1, (k.single, k.size)),
                      )
                      (ground arith)))))))))

range_back :
    (body : VoidBody) (config : VoidConfig) (range : VoidRange) (reason : Text)
    → IsVoidRequest body config range reason
    → range_of body ≡ range
range_back body config range reason k = rw (
  k.timbrado_is,
  k.establishment_is,
  k.point_is,
  k.type_is,
  (series_back body.series range.series k.series_is).1,
  k.from_is,
  k.to_is,
)

-- A request to void is taken, with the range and the reason it stores, exactly when: the timbrado has
-- 8 digits, the establishment and the point 3, the type is 1 to 8, the series is absent or two
-- capitals, both ends are integers from 1 to 9999999 and in order, apart where one number alone is not
-- allowed, the range holds at most `max_range_size` numbers, and the trimmed reason has 5 to
-- `reason_max_length` characters.
pub parse_void_request_iff :
    (body : VoidBody) (config : VoidConfig) (range : VoidRange) (reason : Text)
    → (parse_void_request body config ≡ ok (range, reason)) ↔ IsVoidRequest body config range reason
unfolding parse_void_request
parse_void_request_iff body config range reason = (to_request, from_request)
  where
    to_request :
        parse_void_request body config ≡ ok (range, reason) → IsVoidRequest body config range reason
    to_request h =
        let (clean, e) = taken body config (range, reason) h in
        subst (λ (p : VoidRange × Text). IsVoidRequest body config p.0 p.1) (sym e)
          (request_of body config clean)

    from_request :
        IsVoidRequest body config range reason → parse_void_request body config ≡ ok (range, reason)
    from_request k = rw (
      clean_of body config range reason k,
      parse_void_request,
      range_back body config range reason k,
      k.reason_is,
    )
