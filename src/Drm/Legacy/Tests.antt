-- ===== src/Drm/Legacy/Tests.antt =====
-- Commits of src/backend/drm/impl/Legacy.cpp.
use aquamarine.Common.{ℕ, Bool, true, false, ◌&&◌, ◌||◌, some, List, [], ◌∷◌, ◌≡◌, refl}
use aquamarine.Drm.Legacy.{
  Call, hide_cursor, page_flip, Input, Conn, commit, commit_internal, modeset, adaptive_sync,
  cursor, flip,
}
use aquamarine.Drm.Legacy.Pending.{commit-flip_pending}

-- A frame, with the cursor as it was
abbrev frame : Input
frame = record {
  enabled = true;
  main_fb = some 5;
  modeset = false;
  vrr_committed = false;
  adaptive_sync = false;
  can_do_vrr = false;
  has_vrr_prop = false;
  cursor_fb = some 6;
  has_cursor_plane = true;
  cursor_visible = true;
  cursor_committed = false;
  wants_flip_event = true;
}

abbrev accepts_all : List Call → Call → Bool
accepts_all cs c = true

abbrev same_handle : ℕ → ℕ
same_handle fb = fb

abbrev idle : Conn
idle = record { calls = []; vrr_active = false; flip_pending = false }

-- A frame that leaves the cursor alone hides it.
frame_hides_cursor :
    (commit accepts_all same_handle frame idle).1.calls ≡ hide_cursor ∷ page_flip (some 5) ∷ []
unfolding commit commit_internal modeset adaptive_sync cursor flip
frame_hides_cursor = refl

commit-flip_pending_example :
    let (ok, s') = commit accepts_all same_handle frame idle in
    s'.flip_pending ≡ (idle.flip_pending || (ok && (frame.enabled && frame.wants_flip_event)))
commit-flip_pending_example = commit-flip_pending accepts_all same_handle frame idle
