-- ===== src/Drm/Commit.antt =====
-- `CDRMOutput::commitState` and `SDRMConnector::commitState` of src/backend/drm/DRM.cpp.
-- `W` is the state of the kernel and of the GPU. The modesetting interface
-- (IDRMImplementation::commit) and what answers for buffers are fields of `Device`; of a secondary
-- GPU the whole blit, from the renderer's set-up to the copied buffer, is one call.
pub mod Guards
pub mod Attempts
pub mod Conclusion
pub mod Outcome
mod Tests
use aquamarine.Common.{
  ℕ, zero, suc, ◌-◌, ◌^◌, Bool, true, false, not, ◌&&◌, ◌||◌, Option, none, some, List, [], ◌∷◌,
  ◌++◌, ◌==◌, if◌then◌else◌, is_some,
}
use aquamarine.Common.Int.{ℤ, negsuc}
use aquamarine.Output.{
  State, Mode, Flag, Flags, PresentationMode, vsync, immediate, apply, on_commit, set_format,
  set_explicit_in_fence, enabled_flag, format_flag, mode_flag, hdr_flag, wcg_flag, buffer_flag,
  explicit_in_fence_flag, ctm_flag,
}
use aquamarine.Drm.Frames.{
  Fb, Plane, Crtc, Buffers, Scanout, ModeInfo, CommitData, apply_commit, rollback_commit,
  on_present,
}
use aquamarine.Drm.Device.{
  Dmabuf, invalid_format, invalid_modifier, Request, Blit, Device, Output, Refusal, find_format,
  is_immediate, needs_reconfig, current_mode, refuse_if, Run, Prepared, is_unimportable,
  commit_event, present_event, session_inactive, no_crtc, no_mode_on_enable, bad_format, no_format,
  no_vrr, no_async, no_buffer, unimportable_buffer, modeless, flip_pending,
}

module _ {R M H W : Type 0} (d : Device R M H W) where
  pub refusal : Bool → Output R M H → Option Refusal
  refusal test o = refuse_if (not d.session_active) session_inactive (
      refuse_if (not (is_some o.scanout.crtc)) no_crtc (
        refuse_if
          (s.committed enabled_flag && (s.enabled && not (is_some s.mode || is_some s.custom_mode)))
          no_mode_on_enable
          (refuse_if (s.committed format_flag && not (find_format s.drm_format d.render_formats))
            bad_format
            (refuse_if (s.enabled && s.drm_format == invalid_format) no_format (
              refuse_if (s.adaptive_sync && not o.can_do_vrr) no_vrr (
                refuse_if (is_immediate s.presentation_mode && not d.supports_async) no_async (
                  refuse_if (s.committed buffer_flag && not (is_some s.buffer)) no_buffer (
                    refuse_if (s.committed buffer_flag && is_unimportable d.unimportable s.buffer)
                      unimportable_buffer
                      (refuse_if (not (is_some (current_mode s.mode s.custom_mode))) modeless (
                        refuse_if
                          (not test
                            && (s.enabled
                                && ((needs_reconfig s.committed || s.committed buffer_flag)
                                    && o.page_flip_pending)))
                          flip_pending none))))))))))
    where
      s : State R M H
      s = o.state

  -- `CDRMFB::create`, and the tests of its result.
  abbrev pub imported : Option ℤ → Option Fb → Prepared
  imported fence none = record { failed = true; fb = none; in_fence = fence }
  imported fence (some fb) = record { failed = d.is_dead fb; fb = some fb; in_fence = fence }

  abbrev pub sync_fence : Bool → Option ℤ → ℤ
  sync_fence wanted none = negsuc 0
  sync_fence wanted (some fd) = if not d.no_explicit && wanted then fd else negsuc 0

  abbrev pub blitted : Bool → Option Blit × W → Prepared × W
  blitted wanted (none, w) = (record { failed = true; fb = none; in_fence = none }, w)
  blitted wanted (some r, w) =
      (imported (some (sync_fence wanted r.sync_fd)) (d.import r.buffer), w)

  abbrev pub prepare_buffer : State R M H → W → Option ℕ → Prepared × W
  prepare_buffer s w none = (record { failed = false; fb = none; in_fence = none }, w)
  prepare_buffer s w (some b) =
      if not s.enabled
      then (record { failed = false; fb = none; in_fence = none }, w)
      else if d.secondary
      then blitted (s.committed explicit_in_fence_flag) (
          d.blit w b (if s.committed explicit_in_fence_flag then s.explicit_in_fence else negsuc 0))
      else (imported none (d.import b), w)

  pub prepare : State R M H → W → Prepared × W
  prepare s w = prepare_buffer s w s.buffer

  abbrev pub with_fence : Option ℤ → State R M H → State R M H
  with_fence none s = s
  with_fence (some fd) s = apply s (set_explicit_in_fence fd)

  abbrev pub fb_dmabuf : Option Fb → Option Dmabuf
  fb_dmabuf none = none
  fb_dmabuf (some fb) = elim fb.buffer [ none ↦ none | some b ↦ some (d.dmabuf b) ]

  -- The format of the buffer, if it is not the one in the state.
  abbrev pub other_format : ℕ → Option Dmabuf → Option ℕ
  other_format f none = none
  other_format f (some a) = if a.success && not (a.format == f) then some a.format else none

  abbrev pub with_format : Option ℕ → State R M H → State R M H
  with_format none s = s
  with_format (some f) s = apply s (set_format f)

  abbrev pub pending_or_shown : Crtc → Option Fb
  pending_or_shown c = elim c.pending_cursor [
    | some fb ↦ some fb
    | none ↦ elim c.cursor [ none ↦ none | some p ↦ p.front ]
  ]

  -- A framebuffer whose buffer is gone is dead.
  abbrev pub live_cursor : Option Fb → Option Fb
  live_cursor none = none
  live_cursor (some fb) = elim fb.buffer [
    | none ↦ none
    | some b ↦ if d.is_dead fb || (d.dmabuf b).modifier == invalid_modifier then none else some fb
  ]

  abbrev pub mode_info_of : Mode → ModeInfo
  mode_info_of m = elim m.mode_info [ none ↦ d.compute_mode m | some i ↦ d.kernel_mode i ]

  -- The first request. `c` is COMMITTED, as it was on entry; `s` is the state after the fence and
  -- the format were set, and `mismatch` says whether the format was.
  abbrev pub request_of :
      Bool → Flags → State R M H → Bool → Bool → Option Fb → Option Fb → Mode → Request M H
  request_of test c s mismatch no_buffer_before main cursor mode =
      let modeset = needs_reconfig c || (no_buffer_before || mismatch) in
      record {
        frames = record {
          main_fb = main;
          cursor_fb = cursor;
          mode_info = mode_info_of mode;
          test = test;
        };
        modeset = modeset;
        blocking = needs_reconfig c || (not (c buffer_flag) || mismatch);
        flip_event = not test && (s.enabled && c buffer_flag);
        flip_async =
            not test && (is_immediate s.presentation_mode && (c buffer_flag && not mismatch));
        hdr_metadata = if c hdr_flag then some s.hdr_metadata else none;
        ctm = if modeset && not (d.is_identity s.ctm) || c ctm_flag then some s.ctm else none;
      }

  -- The request of the second attempt.
  abbrev pub retry_of : Bool → Request M H → Request M H
  retry_of test r = record r {
    modeset = true;
    blocking = true;
    flip_event = not test;
    flip_async = false;
  }

  -- `SDRMConnector::commitState` on a connector with the CRTC `c`, and the atomic interface's
  -- page-flip flag.
  pub commit_on : Request M H → Run R M H W → Crtc → Bool × Run R M H W
  commit_on r run c =
      let (done, w) = d.kms_commit run.world r in
      let asked = record run { world = w; requests = run.requests ++ (r ∷ []) } in
      let o = run.output in
      if done && not r.frames.test
      then (let (k, bs) =
            apply_commit r.frames (o.state.committed mode_flag) o.state.enabled o.scanout c
              run.buffers in
          (
            true,
            record asked {
              output = record o {
                scanout = k;
                page_flip_pending =
                    is_some r.frames.main_fb && (o.state.enabled && r.flip_event)
                    || o.page_flip_pending;
              };
              buffers = bs;
            },
          ))
      else (
        done,
        record asked { output = record o { scanout = rollback_commit r.frames o.scanout c } },
      )

  pub connector_commit : Request M H → Run R M H W → Bool × Run R M H W
  connector_commit r run = elim run.output.scanout.crtc [
    | none ↦ (false, run)
    | some c ↦ commit_on r run c
  ]

  abbrev pub taint : Run R M H W → Run R M H W
  taint run = record run { output = record run.output { commit_tainted = true } }

  -- The first attempt and, if it may be repeated, the second. `flip_async` of the last request is
  -- handed on.
  abbrev pub second_attempt : Bool × Run R M H W → Bool × Run R M H W × Bool
  second_attempt (done, run) = (done, (if done then run else taint run), false)

  pub attempts : Bool → Request M H → Run R M H W → Bool × Run R M H W × Bool
  attempts test r run =
      let (done, run') = connector_commit r run in
      if not done && (not r.modeset && not run'.output.commit_tainted)
      then second_attempt (connector_commit (retry_of test r) run')
      else (done, run', r.flip_async)

  -- The CRTC's planes turned at once, for a tearing commit.
  abbrev pub turn_now : Option Crtc → Run R M H W → Run R M H W
  turn_now none run = run
  turn_now (some c) run =
      let (c', bs) = on_present c run.buffers in
      record run {
        output = record run.output { scanout = record run.output.scanout { crtc = some c' } };
        buffers = bs;
        events = run.events ++ (present_event ∷ []);
      }

  abbrev pub settled : Option Fb → Run R M H W → Run R M H W
  settled main run = record run {
    output = record run.output {
      state = on_commit d.empty_region run.output.state;
      last_commit_no_buffer = not (is_some main);
      needs_frame = false;
      commit_tainted = false;
    };
    events = run.events ++ (commit_event ∷ []);
  }

  -- From `if (onlyTest || !ok) return ok;` on.
  pub conclude : Bool → Option Fb → Bool × Run R M H W × Bool → Bool × Run R M H W
  conclude test main (done, run, flip_async) =
      if test || not done
      then (done, run)
      else if flip_async
      then (true, turn_now (settled main run).output.scanout.crtc (settled main run))
      else (true, settled main run)

  -- From the framebuffer on: the format, the cursor, the request and the attempts.
  pub submit : Bool → Flags → Mode → Crtc → Prepared → Run R M H W → Bool × Run R M H W
  submit test c mode crtc p run =
      let o = run.output in
      let fenced = with_fence p.in_fence o.state in
      let new_format = other_format fenced.drm_format (fb_dmabuf p.fb) in
      let s = with_format new_format fenced in
      let r =
        request_of test c s (is_some new_format) o.last_commit_no_buffer p.fb
          (live_cursor (pending_or_shown crtc)) mode in
      conclude test p.fb (attempts test r (record run { output = record o { state = s } }))

  abbrev pub failed_run : Prepared → Run R M H W → Run R M H W
  failed_run p run = record run {
    output = record run.output { state = with_fence p.in_fence run.output.state };
  }

  -- After the guards: a secondary GPU goes no further in a test.
  abbrev pub proceed :
      Bool → Output R M H → Prepared × W → Run R M H W → Mode → Crtc → Bool × Run R M H W
  proceed test o (p, w) run mode crtc =
      if p.failed
      then (false, failed_run p (record run { world = w }))
      else submit test o.state.committed mode crtc p (record run { world = w })

  abbrev pub guarded :
      Bool → Output R M H → Run R M H W → Option Mode → Option Crtc → Bool × Run R M H W
  guarded test o run none crtc = (false, run)
  guarded test o run (some mode) none = (false, run)
  guarded test o run (some mode) (some crtc) =
      if d.secondary && test
      then (true, run)
      else proceed test o (prepare o.state run.world) run mode crtc

  abbrev pub fresh_run : Output R M H → Buffers → W → Run R M H W
  fresh_run o bs w = record { output = o; buffers = bs; world = w; requests = []; events = [] }

  pub commit_state : Bool → Output R M H → Buffers → W → Bool × Run R M H W
  commit_state test o bs w = elim (refusal test o) [
    | some why ↦ (false, fresh_run o bs w)
    | none ↦
        guarded test o (fresh_run o bs w) (current_mode o.state.mode o.state.custom_mode)
          o.scanout.crtc
  ]
