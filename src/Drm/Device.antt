-- ===== src/Drm/Device.antt =====
-- What a commit of src/backend/drm/DRM.cpp deals with: its request, the device that it asks, the
-- output, and the refusals of CDRMOutput::commitState.
use aquamarine.Common.{
  ℕ, ◌-◌, ◌^◌, Bool, true, false, ◌||◌, Option, none, some, List, [], ◌∷◌, ◌==◌,
}
use aquamarine.Common.Int.{ℤ}
use aquamarine.Output.{
  State, Mode, Flags, PresentationMode, vsync, immediate, enabled_flag, format_flag, mode_flag,
  hdr_flag, wcg_flag,
}
use aquamarine.Drm.Frames.{Fb, Buffers, Scanout, ModeInfo, CommitData}

-- `SDMABUFAttrs`, as far as it is read
pub record Dmabuf : Type 0 where
  pub success : Bool
  pub format : ℕ
  pub modifier : ℕ

abbrev pub invalid_format : ℕ
invalid_format = 0

-- `DRM_FORMAT_MOD_INVALID`
abbrev pub invalid_modifier : ℕ
invalid_modifier = 2 ^ 56 - 1

-- `SDRMConnectorCommitData`. `flip_event` and `flip_async` are DRM_MODE_PAGE_FLIP_EVENT and
-- DRM_MODE_PAGE_FLIP_ASYNC in `flags`.
pub record Request (M H : Type 0) : Type 0 where
  pub frames : CommitData
  pub modeset : Bool
  pub blocking : Bool
  pub flip_event : Bool
  pub flip_async : Bool
  pub hdr_metadata : Option H
  pub ctm : Option M

-- The buffer that a blit fills, and its fence if there is one.
pub record Blit : Type 0 where
  pub buffer : ℕ
  pub sync_fd : Option ℤ

pub record Device (R M H W : Type 0) : Type 0 where
  pub empty_region : R
  pub session_active : Bool
  pub supports_async : Bool
  pub secondary : Bool
  pub no_explicit : Bool
  pub render_formats : List ℕ
  pub dmabuf : ℕ → Dmabuf
  pub unimportable : ℕ → Bool
  pub import : ℕ → Option Fb
  pub is_dead : Fb → Bool
  pub is_identity : M → Bool
  pub kernel_mode : ℕ → ModeInfo
  pub compute_mode : Mode → ModeInfo
  pub blit : W → ℕ → ℤ → Option Blit × W
  pub kms_commit : W → Request M H → Bool × W

pub data Event : Type 0 where
  commit_event : Event
  present_event : Event

-- The output with its connector. `scanout.crtc` is the connector's CRTC.
pub record Output (R M H : Type 0) : Type 0 where
  pub state : State R M H
  pub scanout : Scanout
  pub can_do_vrr : Bool
  pub page_flip_pending : Bool
  pub commit_tainted : Bool
  pub last_commit_no_buffer : Bool
  pub needs_frame : Bool

-- Why `commitState` returns false before it touches anything.
pub data Refusal : Type 0 where
  session_inactive no_crtc no_mode_on_enable bad_format no_format no_vrr no_async : Refusal
  no_buffer unimportable_buffer modeless flip_pending : Refusal

abbrev pub find_format : ℕ → List ℕ → Bool
find_format f [] = false
find_format f (g ∷ gs) = g == f || find_format f gs

abbrev pub is_immediate : PresentationMode → Bool
is_immediate vsync = false
is_immediate immediate = true

abbrev pub needs_reconfig : Flags → Bool
needs_reconfig c = c enabled_flag || (c format_flag || (c mode_flag || (c hdr_flag || c wcg_flag)))

-- `mode ? mode : customMode`
abbrev pub current_mode : Option Mode → Option Mode → Option Mode
current_mode none custom = custom
current_mode (some m) custom = some m

abbrev pub refuse_if {ℓ} : {A : Type ℓ} → Bool → A → Option A → Option A
refuse_if true why rest = some why
refuse_if false why rest = rest

-- What a call leaves: the output, the buffers, the
-- world, the requests that were handed to the kernel and the events, oldest first.
pub record Run (R M H W : Type 0) : Type 0 where
  pub output : Output R M H
  pub buffers : Buffers
  pub world : W
  pub requests : List (Request M H)
  pub events : List Event

-- The framebuffer for the primary plane: whether the commit has failed for want of one, the
-- framebuffer, and the in-fence that a blit puts into the state.
pub record Prepared : Type 0 where
  pub failed : Bool
  pub fb : Option Fb
  pub in_fence : Option ℤ

abbrev pub is_unimportable : (ℕ → Bool) → Option ℕ → Bool
is_unimportable f none = false
is_unimportable f (some b) = f b
