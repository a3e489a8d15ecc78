-- ===== src/Zoom/Tests.antt =====
-- Tests of the zoom levels.
use bracket.Base.{◌≡◌, refl}
use bracket.Zoom.{agenda, compact, overview, zoom_in, zoom_out}

zoom_tests :
    (zoom_out overview ≡ overview) × (zoom_in agenda ≡ agenda) × (zoom_in overview ≡ compact)
unfolding zoom_in zoom_out
zoom_tests = (refl, refl, refl)
