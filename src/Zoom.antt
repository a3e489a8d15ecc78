-- ===== src/Zoom.antt =====
-- frontend/src/logic/planning/zoom.ts: the semantic zoom levels of the planning grid.
mod Tests
use bracket.Base.{
  ℕ, zero, suc, ◌+◌, ◌-◌, ◌≡◌, ◌*◌, ◌↔◌, ◌⊎◌, inl, inr, refl, Bool, true, false, List, [], ◌∷◌,
  Option, none, some, arith, ltb, min, max, length, get_elem?, if◌then◌else◌,
}

pub data ZoomLevel : Type 0 where
  agenda compact overview : ZoomLevel

abbrev pub zoom_levels : List ZoomLevel
zoom_levels = agenda ∷ compact ∷ overview ∷ []

-- `a === b`
abbrev pub zoom_eq : ZoomLevel → ZoomLevel → Bool
zoom_eq agenda agenda = true
zoom_eq compact compact = true
zoom_eq overview overview = true
zoom_eq _ _ = false

-- `levels.indexOf(level)`; every level is listed, so the -1 of a missing one does not occur.
index_of : List ZoomLevel → ZoomLevel → ℕ
index_of [] level = 0
index_of (l ∷ ls) level = if zoom_eq l level then 0 else suc (index_of ls level)

-- `ZOOM_LEVELS[i]`
level_at : ℕ → ZoomLevel
level_at i = elim (get_elem? zoom_levels i) [ none ↦ overview | some l ↦ l ]

-- On ℕ `n - 1` stops at 0, as `Math.max(n - 1, 0)` does.
unfoldable pub zoom_in : ZoomLevel → ZoomLevel
unfolding index_of level_at
zoom_in level = level_at (index_of zoom_levels level - 1)

unfoldable pub zoom_out : ZoomLevel → ZoomLevel
unfolding index_of level_at
zoom_out level = level_at (min (index_of zoom_levels level + 1) (length zoom_levels - 1))

pub default_zoom_level : ℕ → ZoomLevel
default_zoom_level viewport_width_px = if ltb viewport_width_px 768 then agenda else compact

abbrev pub zoom_px_per_minute : ZoomLevel → ℕ
zoom_px_per_minute agenda = 8
zoom_px_per_minute compact = 4
zoom_px_per_minute overview = 2

abbrev pub zoom_tick_interval_minutes : ZoomLevel → ℕ
zoom_tick_interval_minutes agenda = 30
zoom_tick_interval_minutes compact = 30
zoom_tick_interval_minutes overview = 60

pub zoom_eq_iff : (a b : ZoomLevel) → (zoom_eq a b ≡ true) ↔ (a ≡ b)
zoom_eq_iff a b = ground arith

-- Zooming in shows a minute on at least as many pixels as before, and on as many only at the most
-- detailed level, which it keeps.
pub zoom_in_scale :
    (l : ZoomLevel)
    → ((l ≡ agenda) × (zoom_in l ≡ agenda))
      ⊎ ((zoom_px_per_minute (zoom_in l) ≡ 2 * zoom_px_per_minute l) × (zoom_out (zoom_in l) ≡ l))
unfolding zoom_in zoom_out index_of level_at
zoom_in_scale agenda = inl (refl, refl)
zoom_in_scale compact = inr (refl, refl)
zoom_in_scale overview = inr (refl, refl)
