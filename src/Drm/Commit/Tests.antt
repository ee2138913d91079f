-- ===== src/Drm/Commit/Tests.antt =====
-- Runs of `CDRMOutput::commitState` (src/backend/drm/DRM.cpp), and its properties at concrete inputs.
use aquamarine.Common.{
  ℕ, ◌-◌, ◌≡◌, ◌≢◌, ◌⊎◌, refl, true, false, none, some, [], ◌∷◌, ◌==◌, if◌then◌else◌,
}
use aquamarine.Common.Int.{pos, negsuc}
use aquamarine.Output.{Mode, State, vsync, no_flags, with_flag, buffer_flag, apply, on_commit}
use aquamarine.Drm.Frames.{
  calculate_refresh, release_fb_references, Crtc, Buffers, ModeInfo, bare_plane, apply_commit,
  rollback_commit, on_present,
}
use aquamarine.Drm.Commit.{
  commit_state, fresh_run, attempts, retry_of, refusal, prepare, submit, conclude, connector_commit,
  commit_on,
}
use aquamarine.Drm.Device.{Device, Output, Run, Request, no_crtc, commit_event}
use aquamarine.Drm.Commit.Guards.{CanCommit, requests_need_guards}
use aquamarine.Drm.Commit.Outcome.{
  commit_state_asks_twice_at_most, commit_state_success, commit_state_failure, commit_state_test,
}

abbrev full_hd : ModeInfo
full_hd = record {
  clock = 148500;
  htotal = 2200;
  vtotal = 1125;
  vscan = 0;
  interlace = false;
  dblscan = false;
}

-- Regions, matrices and metadata are numbers. The kernel's state counts its refusals to come.
abbrev device : Device ℕ ℕ ℕ ℕ
device = record {
  empty_region = 0;
  session_active = true;
  supports_async = false;
  secondary = false;
  no_explicit = false;
  render_formats = 875713112 ∷ [];
  dmabuf = λ b. record { success = true; format = 875713112; modifier = 0 };
  unimportable = λ b. false;
  import = λ b. some (record { id = b; buffer = some b });
  is_dead = λ fb. false;
  is_identity = λ m. m == 0;
  kernel_mode = λ i. full_hd;
  compute_mode = λ m. full_hd;
  blit = λ w b fd. (none, w);
  kms_commit = λ w r. if w == 0 then (true, 0) else (false, w - 1);
}

abbrev mode : Mode
mode = record {
  width = 1920;
  height = 1080;
  refresh_rate = 60000;
  preferred = true;
  mode_info = some 1;
}

-- Buffer 5 is committed.
abbrev state : State ℕ ℕ ℕ
state = record {
  committed = with_flag buffer_flag no_flags;
  damage = 0;
  enabled = true;
  adaptive_sync = false;
  presentation_mode = vsync;
  gamma_lut = [];
  degamma_lut = [];
  mode = some mode;
  custom_mode = none;
  drm_format = 875713112;
  buffer = some 5;
  explicit_in_fence = negsuc 0;
  explicit_out_fence = negsuc 0;
  ctm = 0;
  wide_color_gamut = false;
  hdr_metadata = 0;
  content_type = 1;
}

abbrev crtc : Crtc
crtc = record { primary = bare_plane; cursor = none; pending_cursor = none }

abbrev output : Output ℕ ℕ ℕ
output = record {
  state = state;
  scanout = record {
    crtc = some crtc;
    pending_cursor_fb = none;
    refresh = some (pos 60000);
    enabled_state = true;
  };
  can_do_vrr = false;
  page_flip_pending = false;
  commit_tainted = false;
  last_commit_no_buffer = false;
  needs_frame = true;
}

abbrev buffers : Buffers
buffers = record { locked = λ b. false; released = [] }

abbrev bare_output : Output ℕ ℕ ℕ
bare_output = record output { scanout = record output.scanout { crtc = none } }

commit_runs : (commit_state device false output buffers 0).1.events ≡ commit_event ∷ []
unfolding commit_state refusal prepare submit attempts conclude connector_commit commit_on
    apply_commit rollback_commit on_present calculate_refresh release_fb_references apply on_commit
commit_runs = refl

refused_runs : refusal device false bare_output ≡ some no_crtc
unfolding refusal
refused_runs = refl

committed : (commit_state device false output buffers 0).0 ≡ true
unfolding commit_state refusal prepare submit attempts conclude connector_commit commit_on
    apply_commit rollback_commit on_present calculate_refresh release_fb_references apply on_commit
committed = refl

asked : (commit_state device false output buffers 0).1.requests ≢ []
unfolding commit_state refusal prepare submit attempts conclude connector_commit commit_on
    apply_commit rollback_commit on_present calculate_refresh release_fb_references apply on_commit
asked = λ e. cc

requests_need_guards_example : CanCommit device false output
requests_need_guards_example = requests_need_guards device false output buffers 0 asked

commit_state_success_example :
    (commit_state device false output buffers 0).1.output.needs_frame ≡ false
commit_state_success_example = (commit_state_success device output buffers 0 committed).1

-- The kernel refuses both requests.
failed : (commit_state device false output buffers 2).0 ≡ false
unfolding commit_state refusal prepare submit attempts conclude connector_commit commit_on
    apply_commit rollback_commit on_present calculate_refresh release_fb_references apply on_commit
failed = refl

commit_state_failure_example :
    (commit_state device false output buffers 2).1.output.state.committed buffer_flag ≡ true
commit_state_failure_example =
    commit_state_failure device false output buffers 2 buffer_flag failed refl

commit_state_test_example : (commit_state device true output buffers 1).1.buffers ≡ buffers
commit_state_test_example = (commit_state_test device output buffers 1).1

commit_state_asks_twice_at_most_example :
    let rs = (commit_state device false output buffers 1).1.requests in
    (rs ≡ [])
    ⊎ ((r : Request ℕ ℕ) × (rs ≡ r ∷ []) × (r.frames.test ≡ false))
    ⊎ ((r : Request ℕ ℕ) × (rs ≡ r ∷ retry_of device false r ∷ [])
        × (r.modeset ≡ false)
        × (output.commit_tainted ≡ false))
commit_state_asks_twice_at_most_example =
    commit_state_asks_twice_at_most device false output buffers 1

-- A request for the cursor alone.
abbrev cursor_request : Request ℕ ℕ
cursor_request = record {
  frames = record { main_fb = none; cursor_fb = none; mode_info = full_hd; test = false };
  modeset = false;
  blocking = true;
  flip_event = false;
  flip_async = false;
  hdr_metadata = none;
  ctm = none;
}

abbrev flipping : Run ℕ ℕ ℕ ℕ
flipping = fresh_run device (record output { page_flip_pending = true }) buffers 1
