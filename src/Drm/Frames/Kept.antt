-- ===== src/Drm/Frames/Kept.antt =====
-- What applying a commit and rolling it back leave of the CRTC (src/backend/drm/DRM.cpp).
use aquamarine.Common.{◌≡◌, refl, Bool, true, false, some, is_some, arith}
use aquamarine.Drm.Frames.{Crtc, Buffers, Scanout, CommitData, apply_commit, rollback_commit}

pub apply_commit_kept :
    (d : CommitData) (mode_committed enabled : Bool) (k : Scanout) (c : Crtc) (s : Buffers)
    → (is_some (apply_commit d mode_committed enabled k c s).0.crtc ≡ true)
      × ((apply_commit d mode_committed enabled k c s).0.enabled_state ≡ enabled)
unfolding apply_commit
apply_commit_kept d mode_committed true k c s = (refl, refl)
apply_commit_kept d mode_committed false k c s = (refl, refl)

pub rollback_commit_kept :
    (d : CommitData) (k : Scanout) (c : Crtc)
    → k.crtc ≡ some c
    → (is_some (rollback_commit d k c).crtc ≡ true) × (d.test ≡ true → rollback_commit d k c ≡ k)
unfolding rollback_commit
rollback_commit_kept d k c e = ground arith
