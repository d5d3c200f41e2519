-- ===== src/Events/Void/Overlap.antt =====
-- When two ranges collide.
use facturacion_sifen.Prelude.{
  ℕ, ◌≤◌, ◌≡◌, ◌↔◌, refl, arith, Bool, true, false, leb, ◌==◌, ◌&&◌, Text, text_eq, text_eq_iff,
  text_eq_refl, max, leb→le,
}
use facturacion_sifen.Events.Void.{VoidRange, or_empty, ranges_overlap}

-- The ranges number the same kind of document at the same point of issue.
abbrev pub SameKey : VoidRange → VoidRange → Type 0
SameKey a b =
    (a.timbrado ≡ b.timbrado)
    × (a.establishment ≡ b.establishment)
    × (a.point ≡ b.point)
    × (a.type ≡ b.type)
    × (or_empty a.series ≡ or_empty b.series)

abbrev pub InRange : ℕ → VoidRange → Type 0
InRange n r = (r.from ≤ n) × (n ≤ r.to)

-- Two ranges that each hold a number collide exactly when they are of the same timbrado,
-- establishment, point, type and series and some number is in both.
pub ranges_overlap_iff :
    (a b : VoidRange)
    → a.from ≤ a.to
    → b.from ≤ b.to
    → (ranges_overlap a b ≡ true) ↔ (SameKey a b × ((n : ℕ) × InRange n a × InRange n b))
unfolding ranges_overlap
ranges_overlap_iff a b ha hb = (
  λ h.
      let (timbrados, h1) = both (text_eq a.timbrado b.timbrado) _ h in
      let (establishments, h2) = both (text_eq a.establishment b.establishment) _ h1 in
      let (points, h3) = both (text_eq a.point b.point) _ h2 in
      let (types, h4) = both (a.type == b.type) _ h3 in
      let (same_series, h5) = both (text_eq (or_empty a.series) (or_empty b.series)) _ h4 in
      (
        (
          text_eq_sound a.timbrado b.timbrado timbrados,
          text_eq_sound a.establishment b.establishment establishments,
          text_eq_sound a.point b.point points,
          ground arith,
          text_eq_sound (or_empty a.series) (or_empty b.series) same_series,
        ),
        (
          max a.from b.from,
          (omega arith, omega (arith, leb→le b.from a.to (both (leb a.from b.to) _ h5).1)),
          (omega arith, omega (arith, leb→le a.from b.to (both (leb a.from b.to) _ h5).0)),
        ),
      ),
  λ ((timbrados, establishments, points, types, same_series), (n, (la, ka), (lb, kb))).
      rw
        (
          timbrados,
          establishments,
          points,
          types,
          same_series,
          text_eq_refl b.timbrado,
          text_eq_refl b.establishment,
          text_eq_refl b.point,
          text_eq_refl (or_empty b.series),
        )
        (ground arith),
)
  where
    text_eq_sound : (s t : Text) → text_eq s t ≡ true → s ≡ t
    text_eq_sound s t = (text_eq_iff s t).0

    both : (p q : Bool) → (p && q) ≡ true → (p ≡ true) × (q ≡ true)
    both true q h = (refl, h)
    both false q h = cc
