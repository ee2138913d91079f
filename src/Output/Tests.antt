-- ===== src/Output/Tests.antt =====
-- The output state's properties at concrete inputs (src/output/Output.cpp).
use aquamarine.Common.{ℕ, ◌≡◌, true, false, none, some, List, [], ◌∷◌}
use aquamarine.Common.Int.{negsuc}
use aquamarine.Output.{
  Mode, State, Setter, vsync, no_flags, apply_all, on_commit, mode_flag, set_mode, set_custom_mode,
  set_buffer, set_content_type,
}
use aquamarine.Output.History.{on_commit-committed}

-- Damage is counted, and a matrix and HDR metadata are numbers.
abbrev fresh : State ℕ ℕ ℕ
fresh = record {
  committed = no_flags;
  damage = 0;
  enabled = false;
  adaptive_sync = false;
  presentation_mode = vsync;
  gamma_lut = [];
  degamma_lut = [];
  mode = none;
  custom_mode = none;
  drm_format = 0;
  buffer = none;
  explicit_in_fence = negsuc 0;
  explicit_out_fence = negsuc 0;
  ctm = 0;
  wide_color_gamut = false;
  hdr_metadata = 0;
  content_type = 1;
}

abbrev hd : Mode
hd = record { width = 1280; height = 720; refresh_rate = 60000; preferred = true; mode_info = none }

abbrev calls : List (Setter ℕ ℕ ℕ)
calls =
    set_mode (some hd) ∷ set_buffer (some 4) ∷ set_content_type 3 ∷ set_custom_mode (some hd) ∷ []

on_commit-committed_example : (apply_all (on_commit 0 fresh) calls).committed mode_flag ≡ true
on_commit-committed_example = on_commit-committed fresh 0 calls mode_flag
