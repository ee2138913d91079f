-- ===== src/Drm/Commit/Guards.antt =====
-- When `CDRMOutput::commitState` (src/backend/drm/DRM.cpp) reaches the kernel, and what it leaves
-- alone when it does not.
use aquamarine.Common.{
  not, ◌&&◌, ◌||◌, ◌==◌, ◌≡◌, ◌≢◌, ap, inl, inr, Bool, true, false, none, some, [], is_some, arith,
  Option-cases,
}
use aquamarine.Output.{format_flag, buffer_flag}
use aquamarine.Drm.Frames.{Buffers}
use aquamarine.Drm.Commit.{refusal, commit_state, fresh_run}
use aquamarine.Drm.Device.{
  Device, Output, Run, Refusal, current_mode, is_immediate, find_format, invalid_format,
  is_unimportable, needs_reconfig,
}

module _ {R M H W : Type 0} (d : Device R M H W) where
  -- A commit that one of the guards refuses returns false and changes nothing: the output, the
  -- buffers and the world are as they were, no request is made and no event is sent.
  pub commit_state_refused :
      (test : Bool) (o : Output R M H) (bs : Buffers) (w : W) (why : Refusal)
      → refusal d test o ≡ some why
      → commit_state d test o bs w ≡ (false, fresh_run d o bs w)
  unfolding commit_state
  commit_state_refused test o bs w why refused = rw (refused, commit_state)

  -- What the guards have found when none of them refuses: the state can be shown.
  pub record CanCommit (test : Bool) (o : Output R M H) : Type 0 where
    pub active : d.session_active ≡ true
    pub has_crtc : is_some o.scanout.crtc ≡ true
    pub has_mode : is_some (current_mode o.state.mode o.state.custom_mode) ≡ true
    pub format_known :
        (not (o.state.committed format_flag) || find_format o.state.drm_format d.render_formats)
        ≡ true
    pub format_set : (not o.state.enabled || not (o.state.drm_format == invalid_format)) ≡ true
    pub can_sync : (not o.state.adaptive_sync || o.can_do_vrr) ≡ true
    pub can_tear : (not (is_immediate o.state.presentation_mode) || d.supports_async) ≡ true
    pub has_buffer : (not (o.state.committed buffer_flag) || is_some o.state.buffer) ≡ true
    pub importable :
        (o.state.committed buffer_flag && is_unimportable d.unimportable o.state.buffer) ≡ false
    pub no_flip :
        (not test
          && (o.state.enabled
              && ((needs_reconfig o.state.committed || o.state.committed buffer_flag)
                  && o.page_flip_pending)))
        ≡ false

  refusal-none : (test : Bool) (o : Output R M H) → refusal d test o ≡ none → CanCommit test o
  unfolding refusal
  refusal-none test o e = ground arith

  -- A commit makes requests of the kernel only if all of this held when it was called: the session
  -- is active, there is a CRTC and a mode; a format that was committed is one of the plane's, and
  -- an enabled output has one; VRR and tearing are used only where they are supported; a committed
  -- buffer is there and importable; and, where a real commit of an enabled output has a buffer or
  -- a reconfiguration to show, no page flip was pending. The format that a buffer of another
  -- format puts in its place, and a flip that the first of two requests leaves pending, are not
  -- looked at.
  pub requests_need_guards :
      (test : Bool) (o : Output R M H) (bs : Buffers) (w : W)
      → (commit_state d test o bs w).1.requests ≢ []
      → CanCommit test o
  requests_need_guards test o bs w asked = elim (Option-cases (refusal d test o)) [
    | inl passed ↦ refusal-none test o passed
    | inr (why, refused) ↦ absurd (
        asked (
          ap (λ (x : Bool × Run R M H W). x.1.requests)
            (commit_state_refused test o bs w why refused)))
  ]
