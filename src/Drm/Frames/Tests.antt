-- ===== src/Drm/Frames/Tests.antt =====
-- Runs of the framebuffer rotation (src/backend/drm/DRM.cpp), and its properties at concrete inputs.
use aquamarine.Common.{
  ℕ, ◌+◌, ◌*◌, ◌≤◌, ◌≡◌, refl, true, false, Option, none, some, [], ◌∷◌, arith, count,
}
use aquamarine.Drm.Frames.{
  Fb, Plane, Crtc, Buffers, Scanout, ModeInfo, CommitData, calculate_refresh, release_fb_references,
  on_present,
}
use aquamarine.Common.Int.{pos}
use aquamarine.Drm.Frames.Locks.{release_fb_references_lem}
use aquamarine.Drm.Frames.Refresh.{calculate_refresh_rounds}

-- 1920x1080 at 60 Hz
abbrev full_hd : ModeInfo
full_hd = record {
  clock = 148500;
  htotal = 2200;
  vtotal = 1125;
  vscan = 0;
  interlace = false;
  dblscan = false;
}

full_hd_refresh : calculate_refresh full_hd ≡ some (pos 60000)
unfolding calculate_refresh
full_hd_refresh = refl

interlaced_refresh : calculate_refresh (record full_hd { interlace = true }) ≡ some (pos 120000)
unfolding calculate_refresh
interlaced_refresh = refl

no_lines_refresh : calculate_refresh (record full_hd { vtotal = 0 }) ≡ none
unfolding calculate_refresh
no_lines_refresh = refl

calculate_refresh_rounds_example :
    (calculate_refresh full_hd ≡ some (pos 60000))
    × (2 * (60000 * 1125) ≤ 135001125)
    × (135000000 ≤ 2 * (60000 * 1125) + 1125)
calculate_refresh_rounds_example =
    calculate_refresh_rounds full_hd refl refl (omega arith) (omega arith) (omega arith)
      (omega arith)

-- Framebuffer n of buffer n.
abbrev fb : ℕ → Option Fb
fb n = some (record { id = n; buffer = some n })

-- Buffer 1 is shown and buffer 2 comes next; the cursor shows buffer 9.
abbrev cursor_plane : Plane
cursor_plane = record { front = fb 9; back = fb 9; last = none }

abbrev screen : Crtc
screen = record {
  primary = record { front = fb 1; back = fb 2; last = none };
  cursor = some cursor_plane;
  pending_cursor = none;
}

abbrev all_locked : Buffers
all_locked = record { locked = λ b. true; released = [] }

abbrev scanout : Scanout
scanout = record {
  crtc = some screen;
  pending_cursor_fb = fb 9;
  refresh = some (pos 60000);
  enabled_state = true;
}

abbrev commit_of : ℕ → CommitData
commit_of n = record { main_fb = fb n; cursor_fb = fb 9; mode_info = full_hd; test = false }

flip_runs : (on_present screen all_locked).1.released ≡ 1 ∷ 9 ∷ []
unfolding on_present
flip_runs = refl

let_go_runs : (release_fb_references scanout all_locked).1.released ≡ 1 ∷ 2 ∷ 9 ∷ []
unfolding release_fb_references
let_go_runs = refl

release_fb_references_lem_example :
    count 9 (release_fb_references scanout all_locked).1.released ≡ 1
release_fb_references_lem_example = (release_fb_references_lem scanout all_locked 9).3
