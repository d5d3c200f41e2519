-- ===== src/Events/Cancel/Window.antt =====
-- When a cancellation may go ahead.
use facturacion_sifen.Prelude.{
  ℕ, ◌*◌, ◌≤◌, ◌≡◌, ◌⊎◌, ◌↔◌, inl, inr, refl, sym, arith, Option, none, some, Bool, not, ◌&&◌, ◌==◌,
  if_refuses, text_eq_iff, text_eq_refl, text_eq, ◌||◌, true, false, List, [], ◌∷◌, Text, codes,
  Bool-cases,
}
use facturacion_sifen.Prelude.Int.{ℤ, pos, ◌≤ℤ◌, ltb_ℤ, int_laws, ltb_ℤ_false, ≤ℤ_ltb, ◌+ℤ◌, ◌-ℤ◌}
use facturacion_sifen.Events.Cancel.{
  CancelWindowConfig, CancelCandidate, CancelRefusal, approval_instant_unknown, cancel_deadline,
  deadline_of, check_window, validate_cancellation, is_approved, includes, other_with_window,
  or_else, is_empty, fe,
}

-- The hours in which a document of this type may be cancelled.
abbrev pub HasWindow : CancelWindowConfig → ℕ → ℕ → Type 0
HasWindow config document_type hours =
    ((document_type ≡ 1) × (hours ≡ config.fe_hours))
    ⊎ ((4 ≤ document_type) × (document_type ≤ 7) × (hours ≡ config.other_hours))

-- The cancellation window is still open, the safety margin taken off.
abbrev pub InTime : ℤ → ℤ → (hours margin : ℕ) → Type 0
InTime at approved hours margin = at +ℤ pos (margin * 60000) ≤ℤ approved +ℤ pos (hours * 3600000)

-- What the manual asks of a cancellation.
pub record IsCancellable (c : CancelCandidate) (at : ℤ) (config : CancelWindowConfig) : Type 0 where
  pub approved : (c.status ≡ codes "approved") ⊎ (c.status ≡ codes "approved_with_observations")
  pub hours : ℕ
  pub window : HasWindow config c.document_type hours
  pub alone : c.live_associated_cdcs ≡ []
  pub instant : ℤ
  pub instant_is :
      (c.approved_at ≡ some instant) ⊎ ((c.approved_at ≡ none) × (c.signed_at ≡ some instant))
  pub in_time : InTime at instant hours config.safety_margin_minutes

deadline_of-InTime :
    (approved at : ℤ) (hours margin : ℕ)
    → (ltb_ℤ (deadline_of approved hours margin) at ≡ false) ↔ InTime at approved hours margin
unfolding deadline_of
deadline_of-InTime approved at hours margin =
    (λ h. omega (int_laws, ltb_ℤ_false deadline at h), λ h. ≤ℤ_ltb deadline at (omega int_laws))
  where
    deadline : ℤ
    deadline = approved +ℤ pos (hours * 3600000) -ℤ pos (margin * 60000)

-- The deadline of a type that has a window.
cancel_deadline_of :
    (t hours : ℕ) (approved : ℤ) (config : CancelWindowConfig)
    → HasWindow config t hours
    → cancel_deadline t approved config
      ≡ some (deadline_of approved hours config.safety_margin_minutes)
unfolding cancel_deadline
cancel_deadline_of t hours approved config (inl (e, h)) = ground arith
cancel_deadline_of t hours approved config (inr (lo, hi, h)) = ground arith

check_window_of :
    (c : CancelCandidate) (instant at : ℤ) (config : CancelWindowConfig) (hours : ℕ)
    → HasWindow config c.document_type hours
    → (check_window c instant at config ≡ none)
      ↔ InTime at instant hours config.safety_margin_minutes
unfolding check_window
check_window_of c instant at config hours w =
    let e = cancel_deadline_of c.document_type hours instant config w in
    let i = deadline_of-InTime instant at hours config.safety_margin_minutes in
    elim (Bool-cases (ltb_ℤ (deadline_of instant hours config.safety_margin_minutes) at)) [
      | inl late ↦ (rw (e, check_window, late) (λ h. cc), λ h. absurd (cc (late, i.1 h)))
      | inr soon ↦ (λ _. i.0 soon, λ _. rw (e, check_window, soon))
    ]

supported :
    (config : CancelWindowConfig) (t : ℕ)
    → (not (t == fe) && not (includes other_with_window t)) ≡ false
    → (hours : ℕ) × HasWindow config t hours
supported config t h = elim (Bool-cases (t == fe)) [
  | inl e ↦ (config.fe_hours, inl (ground arith, refl))
  | inr e ↦ (config.other_hours, inr (ground arith, ground arith, refl))
]

supported_of :
    (config : CancelWindowConfig) (t hours : ℕ)
    → HasWindow config t hours
    → (not (t == fe) && not (includes other_with_window t)) ≡ false
supported_of config t hours (inl (e, _)) = ground arith
supported_of config t hours (inr (lo, hi, _)) = ground arith

one_of_two : (a b s : Text) → ((text_eq a s || (text_eq b s || false)) ≡ true) ↔ ((s ≡ a) ⊎ (s ≡ b))
one_of_two a b s = (
  λ h. elim (Bool-cases (text_eq a s)) [
    | inl e ↦ inl (sym ((text_eq_iff a s).0 e))
    | inr e ↦ inr (sym ((text_eq_iff b s).0 (ground arith)))
  ],
  elim [ inl e ↦ rw (e, text_eq_refl a) | inr e ↦ rw (e, text_eq_refl b) (ground arith) ],
)

pub is_approved_iff :
    (s : Text)
    → (is_approved s ≡ true) ↔ ((s ≡ codes "approved") ⊎ (s ≡ codes "approved_with_observations"))
is_approved_iff s = one_of_two (codes "approved") (codes "approved_with_observations") s

or_else_cases :
    (a b : Option ℤ) (i : ℤ) → (or_else a b ≡ some i) ↔ ((a ≡ some i) ⊎ ((a ≡ none) × (b ≡ some i)))
or_else_cases none b i = (λ h. inr (refl, h), elim [ inl e ↦ cc | inr (_, e) ↦ e ])
or_else_cases (some a) b i = (λ h. inl h, elim [ inl e ↦ e | inr (e, _) ↦ cc ])

-- The conditions that `validateCancellation` has passed when it refuses nothing.
passed :
    (c : CancelCandidate) (at : ℤ) (config : CancelWindowConfig)
    → validate_cancellation c at config ≡ none
    → (is_approved c.status ≡ true)
      × ((not (c.document_type == fe) && not (includes other_with_window c.document_type)) ≡ false)
      × (c.live_associated_cdcs ≡ [])
      × ((i : ℤ) × (or_else c.approved_at c.signed_at ≡ some i)
          × (check_window c i at config ≡ none))
unfolding validate_cancellation
passed c at config h =
    let (approved, h1) = if_refuses (not (is_approved c.status)) _ _ h in
    let (typed, h2) =
      if_refuses (not (c.document_type == fe) && not (includes other_with_window c.document_type)) _
        _ h1 in
    let (alone, h3) = if_refuses (not (is_empty c.live_associated_cdcs)) _ _ h2 in
    (not-false _ approved, typed, empty _ alone, instant (or_else c.approved_at c.signed_at) h3)
  where
    not-false : (b : Bool) → not b ≡ false → b ≡ true
    not-false true e = refl
    not-false false e = cc

    empty : (l : List Text) → not (is_empty l) ≡ false → l ≡ []
    empty [] e = refl
    empty (x ∷ xs) e = cc

    instant :
        (o : Option ℤ)
        → (let r : Option CancelRefusal = elim o [
          | none ↦ some approval_instant_unknown
          | some i ↦ check_window c i at config
        ] in
            r)
          ≡ none
        → (i : ℤ) × (o ≡ some i) × (check_window c i at config ≡ none)
    instant none e = cc
    instant (some i) e = (i, refl, e)

-- A cancellation is refused by no rule exactly when the document is approved, its type has a window,
-- no associated document is alive, the instant of approval (or of signing, where that is not
-- recorded) is known, and the window counted from it is open, less the safety margin.
pub validate_cancellation_iff :
    (c : CancelCandidate) (at : ℤ) (config : CancelWindowConfig)
    → (validate_cancellation c at config ≡ none) ↔ IsCancellable c at config
validate_cancellation_iff c at config = (to, from)
  where
    to : validate_cancellation c at config ≡ none → IsCancellable c at config
    to h =
        let (ok_status, ok_type, alone, (i, known, in_window)) = passed c at config h in
        let (hours, w) = supported config c.document_type ok_type in
        record {
          approved = (one_of_two _ _ c.status).0 ok_status;
          hours = hours;
          window = w;
          alone = alone;
          instant = i;
          instant_is = (or_else_cases c.approved_at c.signed_at i).0 known;
          in_time = (check_window_of c i at config hours w).0 in_window;
        }

    from : IsCancellable c at config → validate_cancellation c at config ≡ none
    from k =
        unfold validate_cancellation in
        rw
          (
            (one_of_two (codes "approved") (codes "approved_with_observations") c.status).1
                k.approved,
            supported_of config c.document_type k.hours k.window,
            k.alone,
            (or_else_cases c.approved_at c.signed_at k.instant).1 k.instant_is,
          )
          ((check_window_of c k.instant at config k.hours k.window).1 k.in_time)
