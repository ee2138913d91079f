-- ===== src/Drm/Commit/Attempts.antt =====
-- What `CDRMOutput::commitState` (src/backend/drm/DRM.cpp) asks of the kernel, and what a commit
-- leaves when it succeeds, when it fails and when it is a test.
use aquamarine.Common.{
  ◌≡◌, refl, sym, subst, ◌⊎◌, inl, inr, Bool, true, false, some, [], ◌∷◌, ◌++◌, is_some, arith,
  Option-cases,
}
use aquamarine.Output.{mode_flag}
use aquamarine.Drm.Frames.{Crtc}
use aquamarine.Drm.Frames.Kept.{apply_commit_kept, rollback_commit_kept}
use aquamarine.Drm.Commit.{attempts, connector_commit, commit_on, retry_of}
use aquamarine.Drm.Device.{Device, Run, Request}

module _ {R M H W : Type 0} (d : Device R M H W) where
  -- What one call of the connector's commit does to the parts that it is not there for.
  record Attempt (r : Request M H) (run : Run R M H W) (done : Bool) (run' : Run R M H W)
      : Type 0 where
    asked : run'.requests ≡ run.requests ++ (r ∷ [])
    same_state : run'.output.state ≡ run.output.state
    same_taint : run'.output.commit_tainted ≡ run.output.commit_tainted
    same_events : run'.events ≡ run.events
    has_crtc : is_some run'.output.scanout.crtc ≡ true
    only_test :
        r.frames.test ≡ true
        → (run'.output.scanout ≡ run.output.scanout)
          × (run'.buffers ≡ run.buffers)
          × (run'.output.page_flip_pending ≡ run.output.page_flip_pending)
    enabled :
        r.frames.test ≡ false
        → done ≡ true
        → run'.output.scanout.enabled_state ≡ run.output.state.enabled

  commit_on_lem :
      (r : Request M H) (run : Run R M H W) (c : Crtc)
      → run.output.scanout.crtc ≡ some c
      → Attempt r run (commit_on d r run c).0 (commit_on d r run c).1
  unfolding commit_on
  commit_on_lem r run c e = ground (
    arith,
    apply_commit_kept r.frames (run.output.state.committed mode_flag) run.output.state.enabled
        run.output.scanout c run.buffers,
    rollback_commit_kept r.frames run.output.scanout c e,
  )

  chosen :
      (r : Request M H) (run : Run R M H W) (c : Crtc)
      → run.output.scanout.crtc ≡ some c
      → connector_commit d r run ≡ commit_on d r run c
  unfolding connector_commit
  chosen r run c e = ground arith

  connector_commit_lem :
      (r : Request M H) (run : Run R M H W)
      → is_some run.output.scanout.crtc ≡ true
      → Attempt r run (connector_commit d r run).0 (connector_commit d r run).1
  unfolding connector_commit
  connector_commit_lem r run has = elim (Option-cases run.output.scanout.crtc) [
    | inl missing ↦ absurd (ground arith)
    | inr (c, e) ↦
        subst (λ (x : Bool × Run R M H W). Attempt r run x.0 x.1) (sym (chosen r run c e))
          (commit_on_lem r run c e)
  ]

  -- What the one or two attempts together do.
  pub record Attempts (test : Bool) (r : Request M H) (run : Run R M H W) (done : Bool)
      (run' : Run R M H W) : Type 0 where
    pub asked :
        (run'.requests ≡ run.requests ++ (r ∷ []))
        ⊎ ((run'.requests ≡ (run.requests ++ (r ∷ [])) ++ (retry_of d test r ∷ []))
            × (r.modeset ≡ false)
            × (run.output.commit_tainted ≡ false))
    pub same_state : run'.output.state ≡ run.output.state
    pub same_events : run'.events ≡ run.events
    pub has_crtc : is_some run'.output.scanout.crtc ≡ true
    pub only_test :
        r.frames.test ≡ true
        → (run'.output.scanout ≡ run.output.scanout)
          × (run'.buffers ≡ run.buffers)
          × (run'.output.page_flip_pending ≡ run.output.page_flip_pending)
    pub enabled :
        r.frames.test ≡ false
        → done ≡ true
        → run'.output.scanout.enabled_state ≡ run.output.state.enabled

  pub attempts_lem :
      (test : Bool) (r : Request M H) (run : Run R M H W)
      → is_some run.output.scanout.crtc ≡ true
      → Attempts test r run (attempts d test r run).0 (attempts d test r run).1
  unfolding attempts
  attempts_lem test r run has =
      let first = connector_commit_lem r run has in
      let second =
        connector_commit_lem (retry_of d test r) (connector_commit d r run).1 first.has_crtc in
      ground (arith, first, second)

  rejected :
      (r : Request M H) (run : Run R M H W)
      → (d.kms_commit run.world r).0 ≡ false
      → (connector_commit d r run).0 ≡ false
  unfolding connector_commit commit_on
  rejected r run refusing = ground arith

  -- When the kernel rejects a real request that was not for a modeset, on a connector with a CRTC
  -- that is not tainted, while a page flip is pending, then a second request is made: a modeset
  -- that asks for a page-flip event.
  pub retry_ignores_pending_flip :
      (r : Request M H) (run : Run R M H W)
      → is_some run.output.scanout.crtc ≡ true
      → run.output.page_flip_pending ≡ true
      → r.modeset ≡ false
      → run.output.commit_tainted ≡ false
      → (d.kms_commit run.world r).0 ≡ false
      → (q : Request M H) × ((attempts d false r run).1.requests
          ≡ (run.requests ++ (r ∷ [])) ++ (q ∷ []))
        × (q.flip_event ≡ true)
        × (q.modeset ≡ true)
  unfolding attempts
  retry_ignores_pending_flip r run has pending plain clean refusing =
      let first = connector_commit_lem r run has in
      let second =
        connector_commit_lem (retry_of d false r) (connector_commit d r run).1 first.has_crtc in
      (retry_of d false r, ground (arith, first, second, rejected r run refusing), refl, refl)
