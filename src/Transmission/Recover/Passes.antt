-- ===== src/Transmission/Recover/Passes.antt =====
-- One pass of the recovery over the documents of a lote: the loop of `execute` in
-- recover-lote-by-cdc.ts.
use facturacion_sifen.Prelude.{
  take, drop, min, if_both, take-nil, drop-nil, ℕ, suc, ◌+◌, ◌-◌, ◌≤◌, ◌<◌, ◌≡◌, refl, sym, ap, ◌∙◌,
  arith, Bool, true, false, ◌&&◌, ◌||◌, Option, none, some, List, [], ◌∷◌, ◌++◌, map, subst,
  &&-true, ||-false, Result, ok, err, leb, if◌then◌else◌, Text, text_eq, text_eq_iff, codes, length,
}
use facturacion_sifen.Prelude.Interleaving.{Interleaves, both_empty, on_left, on_right, AllOf}
use facturacion_sifen.Transmission.Poll.{ResolutionStatus, DocumentResolution, capped}
use facturacion_sifen.Transmission.Recover.{
  UnresolvedCdc, LoteRecoveryOutcome, DeAnswer, de_id_of, is_text, is_de_of, Queried, resolved,
  still_open, query, with_answer, with_skipped, ask,
}

-- SIFEN has answered, at one place of the pass within its limits, that it holds the approved document.
pub record IsConfirmed (cap : ℕ) (aborted : ℕ → Bool) (answer : ℕ → Text → Result Text DeAnswer)
    (r : DocumentResolution) : Type 0 where
  pub index : ℕ
  pub within : index < cap
  pub running : aborted index ≡ false
  pub found : DeAnswer
  pub answered : answer index r.cdc ≡ ok found
  pub code_is : found.d_cod_res ≡ codes "0422"
  pub xml : Text
  pub xml_is : found.xml_de ≡ some xml
  pub names_it : de_id_of xml ≡ some r.cdc
  pub status_is : r.status ≡ ResolutionStatus.approved

-- The CDCs that were asked about.
abbrev pub asked : List UnresolvedCdc → ℕ
asked [] = 0
asked (e ∷ es) = if e.skipped then asked es else suc (asked es)

xml_found :
    (o : Option Text) (cdc : Text)
    → is_de_of o cdc ≡ true
    → (xml : Text) × (o ≡ some xml) × (de_id_of xml ≡ some cdc)
xml_found none cdc h = cc
xml_found (some xml) cdc h = (xml, refl, same (de_id_of xml) h)
  where
    same : (id : Option Text) → is_text id cdc ≡ true → id ≡ some cdc
    same none h = cc
    same (some id) h = ap some ((text_eq_iff id cdc).0 h)

module _ (cap : ℕ) (aborted : ℕ → Bool) (answer : ℕ → Text → Result Text DeAnswer) where
  query-confirmed :
      (index : ℕ) (cdc : Text) (a : Result Text DeAnswer) (r : DocumentResolution)
      → index < cap
      → aborted index ≡ false
      → answer index cdc ≡ a
      → query cdc a ≡ resolved r
      → (r.cdc ≡ cdc) × IsConfirmed cap aborted answer r
  unfolding query
  query-confirmed index cdc (err kind) r within running answered h = cc
  query-confirmed index cdc (ok a) r within running answered h =
      pick (text_eq a.d_cod_res (codes "0422") && is_de_of a.xml_de cdc) refl h
    where
      holds : DocumentResolution
      holds = record {
        cdc = cdc;
        status = ResolutionStatus.approved;
        messages = record { code = a.d_cod_res; message = capped a.d_msg_res } ∷ [];
      }

      from :
          holds ≡ r
          → (text_eq a.d_cod_res (codes "0422") && is_de_of a.xml_de cdc) ≡ true
          → (r.cdc ≡ cdc) × IsConfirmed cap aborted answer r
      from same e =
          let (code, names) =
            &&-true (text_eq a.d_cod_res (codes "0422")) (is_de_of a.xml_de cdc) e in
          let (xml, is, id) = xml_found a.xml_de cdc names in
          let at : r.cdc ≡ cdc = ap (λ x. x.cdc) (sym same) in
          (
            at,
            record {
              index = index;
              within = within;
              running = running;
              found = a;
              answered = ap (answer index) at ∙ answered;
              code_is = (text_eq_iff a.d_cod_res (codes "0422")).0 code;
              xml = xml;
              xml_is = is;
              names_it = id ∙ ap some (sym at);
              status_is = ap (λ x. x.status) (sym same);
            },
          )

      pick :
          (b : Bool)
          → (text_eq a.d_cod_res (codes "0422") && is_de_of a.xml_de cdc) ≡ b
          → (if b
              then resolved holds
              else still_open
                  (a.d_cod_res ++ codes ": " ++ capped a.d_msg_res)
                  (text_eq a.d_cod_res (codes "0420")))
            ≡ resolved r
          → (r.cdc ≡ cdc) × IsConfirmed cap aborted answer r
      pick false e h = cc
      pick true e h = let same : holds ≡ r = cc in from same e

  -- What one pass is known to do.
  record Accounts (index : ℕ) (cdcs : List Text) (o : LoteRecoveryOutcome) : Type 0 where
    parts : Interleaves (map (λ r. r.cdc) o.resolutions) (map (λ e. e.cdc) o.unresolved) cdcs
    confirmed : AllOf (IsConfirmed cap aborted answer) o.resolutions
    few : length o.resolutions + asked o.unresolved ≤ cap - index

  with_skipped-Accounts :
      (index : ℕ) (cdc : Text) (cdcs : List Text) (o : LoteRecoveryOutcome)
      → Accounts (index + 1) cdcs o
      → Accounts index (cdc ∷ cdcs) (with_skipped cdc o)
  with_skipped-Accounts index cdc cdcs o a = record {
    parts = on_right cdc _ _ _ a.parts;
    confirmed = a.confirmed;
    few = omega (arith, a.few);
  }

  with_answer-Accounts :
      (index : ℕ) (cdc : Text) (cdcs : List Text) (o : LoteRecoveryOutcome) (q : Queried)
      → index < cap
      → aborted index ≡ false
      → query cdc (answer index cdc) ≡ q
      → Accounts (index + 1) cdcs o
      → Accounts index (cdc ∷ cdcs) (with_answer cdc q o)
  with_answer-Accounts index cdc cdcs o (still_open reason absent) within running h a = record {
    parts = on_right cdc _ _ _ a.parts;
    confirmed = a.confirmed;
    few = omega (arith, a.few);
  }
  with_answer-Accounts index cdc cdcs o (resolved r) within running h a =
      let (at, confirmed) = query-confirmed index cdc (answer index cdc) r within running refl h in
      record {
        parts =
            subst
              (λ x.
                Interleaves (x ∷ map (λ r. r.cdc) o.resolutions) (map (λ e. e.cdc) o.unresolved)
                  (cdc ∷ cdcs))
              (sym at) (on_left cdc _ _ _ a.parts);
        confirmed = (confirmed, a.confirmed);
        few = omega (arith, a.few);
      }

  ask-Accounts :
      (index : ℕ) (cdcs : List Text) → Accounts index cdcs (ask cap aborted answer index cdcs)
  unfolding ask
  ask-Accounts index [] = record { parts = both_empty; confirmed = tt; few = omega arith }
  ask-Accounts index (cdc ∷ cdcs) =
      pick (leb cap index || aborted index) refl (ask-Accounts (index + 1) cdcs)
    where
      rest : LoteRecoveryOutcome
      rest = ask cap aborted answer (index + 1) cdcs

      not_over : leb cap index ≡ false → index < cap
      not_over h = ground arith

      pick :
          (b : Bool)
          → (leb cap index || aborted index) ≡ b
          → Accounts (index + 1) cdcs rest
          → Accounts index (cdc ∷ cdcs) (
              if b
              then with_skipped cdc rest
              else with_answer cdc (query cdc (answer index cdc)) rest)
      pick true e a = with_skipped-Accounts index cdc cdcs rest a
      pick false e a =
          let (under, running) = ||-false (leb cap index) (aborted index) e in
          with_answer-Accounts index cdc cdcs rest (query cdc (answer index cdc)) (not_over under)
            running refl a

-- A pass accounts for every document of the lote, in its order, as settled or as left for later; it
-- settles a document, always as approved, only where SIFEN answered 0422 within the pass with a DE whose
-- own `Id` is the CDC; and it asks about `cap` documents at most.
pub ask-IsAccounted :
    (cap : ℕ) (aborted : ℕ → Bool) (answer : ℕ → Text → Result Text DeAnswer) (cdcs : List Text)
    → (let o = ask cap aborted answer 0 cdcs in
        Interleaves (map (λ r. r.cdc) o.resolutions) (map (λ e. e.cdc) o.unresolved) cdcs
        × AllOf (IsConfirmed cap aborted answer) o.resolutions
        × (length o.resolutions + asked o.unresolved ≤ cap))
ask-IsAccounted cap aborted answer cdcs =
    let a = ask-Accounts cap aborted answer 0 cdcs in (a.parts, a.confirmed, omega (arith, a.few))

-- The unresolved CDCs that were asked about, and those that were not.
abbrev pub asked_cdcs : List UnresolvedCdc → List Text
asked_cdcs [] = []
asked_cdcs (e ∷ es) = if e.skipped then asked_cdcs es else e.cdc ∷ asked_cdcs es

abbrev pub skipped_cdcs : List UnresolvedCdc → List Text
skipped_cdcs [] = []
skipped_cdcs (e ∷ es) = if e.skipped then e.cdc ∷ skipped_cdcs es else skipped_cdcs es

-- The first `limit` documents are asked about, in their order, and the others are left.
pub record AsksFirst (limit : ℕ) (cdcs : List Text) (o : LoteRecoveryOutcome) : Type 0 where
  pub asked_are :
      Interleaves (map (λ r. r.cdc) o.resolutions) (asked_cdcs o.unresolved) (take limit cdcs)
  pub skipped_are : skipped_cdcs o.unresolved ≡ drop limit cdcs

with_skipped-AsksFirst :
    (cdc : Text) (cdcs : List Text) (o : LoteRecoveryOutcome)
    → AsksFirst 0 cdcs o
    → AsksFirst 0 (cdc ∷ cdcs) (with_skipped cdc o)
with_skipped-AsksFirst cdc cdcs o a = record {
  asked_are = a.asked_are;
  skipped_are = ap (λ l. cdc ∷ l) a.skipped_are;
}

abbrev NamesIt : Text → Queried → Type 0
NamesIt cdc (still_open reason absent) = Unit
NamesIt cdc (resolved r) = r.cdc ≡ cdc

query-cdc : (cdc : Text) (a : Result Text DeAnswer) → NamesIt cdc (query cdc a)
unfolding query
query-cdc cdc (err kind) = tt
query-cdc cdc (ok a) =
    if_both (NamesIt cdc) (text_eq a.d_cod_res (codes "0422") && is_de_of a.xml_de cdc) _ _ refl tt

with_answer-AsksFirst :
    (n : ℕ) (cdc : Text) (cdcs : List Text) (a : Result Text DeAnswer) (o : LoteRecoveryOutcome)
    → AsksFirst n cdcs o
    → AsksFirst (suc n) (cdc ∷ cdcs) (with_answer cdc (query cdc a) o)
with_answer-AsksFirst n cdc cdcs a o k = of_query (query cdc a) (query-cdc cdc a)
  where
    of_query : (q : Queried) → NamesIt cdc q → AsksFirst (suc n) (cdc ∷ cdcs) (with_answer cdc q o)
    of_query (still_open reason absent) u = record {
      asked_are = on_right cdc _ _ _ k.asked_are;
      skipped_are = k.skipped_are;
    }
    of_query (resolved r) is = record {
      asked_are =
          subst
            (λ x.
              Interleaves (x ∷ map (λ r. r.cdc) o.resolutions) (asked_cdcs o.unresolved)
                (cdc ∷ take n cdcs))
            (sym is) (on_left cdc _ _ _ k.asked_are);
      skipped_are = k.skipped_are;
    }

module _ (cap stop : ℕ) (aborted : ℕ → Bool) (answer : ℕ → Text → Result Text DeAnswer)
    (lost : (n : ℕ) → aborted n ≡ leb stop n) where
  ask-AsksFirst_from :
      (index : ℕ) (cdcs : List Text)
      → AsksFirst (min cap stop - index) cdcs (ask cap aborted answer index cdcs)
  unfolding ask
  ask-AsksFirst_from index [] = record {
    asked_are = subst (Interleaves [] []) (sym (take-nil (min cap stop - index))) both_empty;
    skipped_are = sym (drop-nil (min cap stop - index));
  }
  ask-AsksFirst_from index (cdc ∷ cdcs) =
      pick (leb cap index || aborted index) refl (ask-AsksFirst_from (index + 1) cdcs)
    where
      rest : LoteRecoveryOutcome
      rest = ask cap aborted answer (index + 1) cdcs

      left : ℕ → ℕ
      left n = min cap stop - n

      over : (leb cap index || aborted index) ≡ true → left index ≡ 0
      over e = at_end (rw (sym (lost index)) e)
        where
          at_end : (leb cap index || leb stop index) ≡ true → left index ≡ 0
          at_end h = ground arith

      more : (leb cap index || aborted index) ≡ false → left index ≡ suc (left (index + 1))
      more e = not_yet (rw (sym (lost index)) e)
        where
          not_yet : (leb cap index || leb stop index) ≡ false → left index ≡ suc (left (index + 1))
          not_yet h = ground arith

      pick :
          (b : Bool)
          → (leb cap index || aborted index) ≡ b
          → AsksFirst (left (index + 1)) cdcs rest
          → AsksFirst (left index) (cdc ∷ cdcs) (
              if b
              then with_skipped cdc rest
              else with_answer cdc (query cdc (answer index cdc)) rest)
      pick true e k =
          let none_left : left (index + 1) ≡ 0 = omega (arith, over e) in
          subst (λ n. AsksFirst n (cdc ∷ cdcs) (with_skipped cdc rest)) (sym (over e))
            (with_skipped-AsksFirst cdc cdcs rest (subst (λ n. AsksFirst n cdcs rest) none_left k))
      pick false e k =
          subst
            (λ n. AsksFirst n (cdc ∷ cdcs) (with_answer cdc (query cdc (answer index cdc)) rest))
            (sym (more e))
            (with_answer-AsksFirst (left (index + 1)) cdc cdcs (answer index cdc) rest k)

-- A pass of a run that loses its lock before the query number `stop`, counted from 0, asks about exactly
-- the first documents of the lote, in their order: `cap` or `stop` of them, whichever is less. Exactly the
-- others are left for a later pass.
pub ask-AsksFirst :
    (cap stop : ℕ) (aborted : ℕ → Bool) (answer : ℕ → Text → Result Text DeAnswer)
    (cdcs : List Text)
    → ((n : ℕ) → aborted n ≡ leb stop n)
    → AsksFirst (min cap stop) cdcs (ask cap aborted answer 0 cdcs)
ask-AsksFirst cap stop aborted answer cdcs lost =
    subst (λ n. AsksFirst n cdcs (ask cap aborted answer 0 cdcs))
      (let whole : min cap stop - 0 ≡ min cap stop = omega arith in whole)
      (ask-AsksFirst_from cap stop aborted answer lost 0 cdcs)
