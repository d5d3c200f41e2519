-- ===== src/Numbering/Series.antt =====
-- The series in their order.
use facturacion_sifen.Prelude.{
  ℕ, zero, suc, ◌+◌, ◌-◌, ◌/◌, ◌%◌, ◌≤◌, ◌<◌, ◌≡◌, refl, arith, Bool, true, false, [], ◌∷◌, ok, err,
  ltb, ◌==◌, ◌&&◌, ◌||◌, if◌then◌else◌, Text,
}
use facturacion_sifen.Numbering.{series_exhausted, next_series, null_if_empty}

-- The series with the given place in the order: none, then AA, AB, …, AZ, BA, …, ZZ, which has the
-- place 676.
abbrev pub series_at : ℕ → Text
series_at i = if i == 0 then [] else (b'A' + (i - 1) / 26) ∷ (b'A' + (i - 1) % 26) ∷ []

-- The order of the texts, by their code units.
abbrev pub leb_text : Text → Text → Bool
leb_text [] s = true
leb_text (c ∷ cs) [] = false
leb_text (c ∷ cs) (d ∷ ds) = ltb c d || ((c == d) && leb_text cs ds)

-- Each series but the last is followed by the one at the next place, which is greater; the last, ZZ,
-- by none.
pub next_series-series_at :
    (i : ℕ)
    → i ≤ 676
    → next_series (null_if_empty (series_at i))
      ≡ (if i == 676 then err series_exhausted else ok (series_at (i + 1)))
unfolding next_series
next_series-series_at zero h = refl
next_series-series_at (suc i) h = ground arith

pub series_at_lt : (i : ℕ) → i < 676 → leb_text (series_at (i + 1)) (series_at i) ≡ false
series_at_lt i h = ground arith

pub leb_text-antisym : (s t : Text) → leb_text s t ≡ true → leb_text t s ≡ true → s ≡ t
leb_text-antisym [] [] h k = refl
leb_text-antisym [] (d ∷ ds) h k = cc
leb_text-antisym (c ∷ cs) [] h k = cc
leb_text-antisym (c ∷ cs) (d ∷ ds) h k = ground (arith, leb_text-antisym cs ds)

pub leb_text_trans :
    (s t u : Text) → leb_text s t ≡ true → leb_text t u ≡ true → leb_text s u ≡ true
leb_text_trans [] t u h k = refl
leb_text_trans (c ∷ cs) [] u h k = cc
leb_text_trans (c ∷ cs) (d ∷ ds) [] h k = cc
leb_text_trans (c ∷ cs) (d ∷ ds) (e ∷ es) h k = ground (arith, leb_text_trans cs ds es)

pub series_at_le : (i : ℕ) → i < 676 → leb_text (series_at i) (series_at (i + 1)) ≡ true
series_at_le i h = ground arith
