-- ===== src/Drm/Commit/Conclusion.antt =====
-- The pieces of `CDRMOutput::commitState` (src/backend/drm/DRM.cpp) before and after it asks the
-- kernel: the fence and the format that it puts into the state, and how it concludes.
use aquamarine.Common.{ℕ, ◌≡◌, refl, ◌⊎◌, Bool, true, false, Option, none, some, arith}
use aquamarine.Common.Int.{ℤ}
use aquamarine.Output.{State, Flag, apply, on_commit}
use aquamarine.Drm.Frames.{Fb, Crtc}
use aquamarine.Drm.Commit.{conclude, settled, turn_now, with_fence, with_format}
use aquamarine.Drm.Device.{Device, Run}

module _ {R M H W : Type 0} (d : Device R M H W) where
  -- What `conclude` does to an attempt's run.
  pub record Concluded (test done : Bool) (run : Run R M H W) (ok : Bool) (run' : Run R M H W)
      : Type 0 where
    pub same_answer : ok ≡ done
    pub same_requests : run'.requests ≡ run.requests
    pub nothing_more : (test ≡ true) ⊎ (done ≡ false) → run' ≡ run
    pub committed :
        test ≡ false → done ≡ true → run'.output.state ≡ on_commit d.empty_region run.output.state
    pub no_frame : test ≡ false → done ≡ true → run'.output.needs_frame ≡ false
    pub untainted : test ≡ false → done ≡ true → run'.output.commit_tainted ≡ false
    pub same_enabled : run'.output.scanout.enabled_state ≡ run.output.scanout.enabled_state

  turn_now_lem :
      (crtc : Option Crtc) (run : Run R M H W)
      → let run' = turn_now d crtc run in
        (run'.requests ≡ run.requests)
        × (run'.output.state ≡ run.output.state)
        × (run'.output.needs_frame ≡ run.output.needs_frame)
        × (run'.output.commit_tainted ≡ run.output.commit_tainted)
        × (run'.output.scanout.enabled_state ≡ run.output.scanout.enabled_state)
  turn_now_lem none run = (refl, refl, refl, refl, refl)
  turn_now_lem (some c) run = (refl, refl, refl, refl, refl)

  pub conclude_lem :
      (test : Bool) (main : Option Fb) (done : Bool) (run : Run R M H W) (flip_async : Bool)
      → Concluded test done run
          (conclude d test main (done, run, flip_async)).0
          (conclude d test main (done, run, flip_async)).1
  unfolding conclude
  conclude_lem test main done run flip_async =
      ground (arith, turn_now_lem (settled d main run).output.scanout.crtc (settled d main run))

  pub fence_keeps :
      (fence : Option ℤ) (s : State R M H)
      → ((f : Flag) → s.committed f ≡ true → (with_fence d fence s).committed f ≡ true)
        × ((with_fence d fence s).enabled ≡ s.enabled)
  unfolding apply
  fence_keeps none s = ((λ f h. h), refl)
  fence_keeps (some fd) s = ((λ f h. ground arith), refl)

  pub format_keeps :
      (format : Option ℕ) (s : State R M H)
      → ((f : Flag) → s.committed f ≡ true → (with_format d format s).committed f ≡ true)
        × ((with_format d format s).enabled ≡ s.enabled)
  unfolding apply
  format_keeps none s = ((λ f h. h), refl)
  format_keeps (some fmt) s = ((λ f h. ground arith), refl)
