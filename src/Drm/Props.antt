-- ===== src/Drm/Props.antt =====
-- What the request of a connector is made from, in src/backend/drm/impl/Atomic.cpp: the objects with
-- the numbers of their properties, and the state that is to be shown.
use aquamarine.Common.{ℕ, Bool, Option, List}

pub record Entry : Type 0 where
  pub object : ℕ
  pub property : ℕ
  pub value : ℕ

pub record Request : Type 0 where
  pub failed : Bool
  pub entries : List Entry

-- `SDRMPlane`: its id, and the ids of its properties
pub record PlaneProps : Type 0 where
  pub id : ℕ
  pub src_x : ℕ
  pub src_y : ℕ
  pub src_w : ℕ
  pub src_h : ℕ
  pub crtc_x : ℕ
  pub crtc_y : ℕ
  pub crtc_w : ℕ
  pub crtc_h : ℕ
  pub fb_id : ℕ
  pub crtc_id : ℕ
  pub in_fence_fd : ℕ
  pub fb_damage_clips : ℕ

pub record CrtcProps : Type 0 where
  pub id : ℕ
  pub mode_id : ℕ
  pub active : ℕ
  pub vrr_enabled : ℕ
  pub gamma_lut : ℕ
  pub degamma_lut : ℕ
  pub ctm : ℕ
  pub out_fence_ptr : ℕ
  pub primary : PlaneProps
  pub cursor : Option PlaneProps

-- `bt2020` and `color_default` are values of the property Colorspace.
pub record ConnectorProps : Type 0 where
  pub id : ℕ
  pub crtc_id : ℕ
  pub max_bpc : ℕ
  pub bpc_low : ℕ
  pub bpc_high : ℕ
  pub colorspace : ℕ
  pub bt2020 : ℕ
  pub color_default : ℕ
  pub hdr_output_metadata : ℕ
  pub link_status : ℕ
  pub content_type : ℕ
  pub crtc : CrtcProps

-- A framebuffer: its id, its size, and the bits of a channel in its format
pub record Fb : Type 0 where
  pub id : ℕ
  pub width : ℕ
  pub height : ℕ
  pub format : ℕ

-- What is read of the output and its state.
pub record State : Type 0 where
  pub enabled : Bool
  pub wide_color_gamut : Bool
  pub content_type : ℕ
  pub adaptive_sync : Bool
  pub supports_explicit : Bool
  pub out_fence_committed : Bool
  pub out_fence_address : ℕ
  pub in_fence : Option ℕ
  pub cursor_shape_committed : Bool
  pub cursor_pos_committed : Bool
  pub cursor_visible : Bool
  pub cursor_x : ℕ
  pub cursor_y : ℕ

-- `SDRMConnectorCommitData`, with whether its mode is another one than the kernel's.
pub record Data : Type 0 where
  pub main_fb : Option Fb
  pub cursor_fb : Option Fb
  pub modeset : Bool
  pub mode_differs : Bool
  pub mode_blob : ℕ
  pub gammad : Bool
  pub gamma_blob : ℕ
  pub degammad : Bool
  pub degamma_blob : ℕ
  pub ctmd : Bool
  pub ctm_blob : ℕ
  pub hdrd : Bool
  pub hdr_blob : ℕ
  pub fb_damage : ℕ
