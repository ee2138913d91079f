-- ===== src/Backend/Tests.antt =====
-- A backend with a GPU and a headless fallback (src/backend/Backend.cpp), at a concrete input.
use aquamarine.Common.{◌≡◌, refl, Bool, true, false, [], ◌∷◌}
use aquamarine.Backend.{Impl, Backend, drm, wayland, mandatory, fallback, start}
use aquamarine.Backend.Start.{start_lem}

abbrev gpu : Impl
gpu = record { kind = drm; starts = true; polls = true; has_drm_fd = true }

abbrev window : Impl
window = record { kind = wayland; starts = false; polls = false; has_drm_fd = false }

abbrev backend : Backend
backend = record {
  options =
      record { kind = drm; mode = mandatory } ∷ record { kind = wayland; mode = fallback } ∷ [];
  impls = gpu ∷ window ∷ [];
  has_allocator = false;
  ready = false;
  ready_calls = 0;
}

abbrev allocates : Impl → Bool
allocates i = i.has_drm_fd

left_run : (start allocates backend).1.impls ≡ gpu ∷ []
unfolding start
left_run = refl

started : (start allocates backend).0 ≡ true
unfolding start
started = refl

start_lem_example : (start allocates backend).1.ready ≡ true
start_lem_example = (start_lem allocates backend started).0
