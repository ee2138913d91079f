-- ===== src/Drm/Atomic/Tests.antt =====
-- Requests and blobs of src/backend/drm/impl/Atomic.cpp for one connector.
use aquamarine.Common.{
  ℕ, Bool, true, false, Option, none, some, List, [], ◌∷◌, ◌≡◌, refl, arith, All,
}
use aquamarine.Drm.Props.{Entry, PlaneProps, ConnectorProps, Fb, State, Data}
use aquamarine.Drm.Atomic.{add_connector}
use aquamarine.Drm.Atomic.Sent.{TurnsOff, add_connector-TurnsOff, empty}
use aquamarine.Drm.Atomic.Prepare
use aquamarine.Drm.Atomic.Prepare.{
  Content, mode_info, color_lut, pack, Wish, Made, fresh_data, prepare_connector,
}
use aquamarine.Drm.Atomic.Prepare.Leaks.{same_mode_leaks, refused_restores}
use aquamarine.Gbm.{fourcc}
use aquamarine.Drm.Blobs.{CrtcBlobs, Live}
use aquamarine.Drm.Blobs.Lifetime.{is_current}

abbrev plane_at : ℕ → PlaneProps
plane_at i = record {
  id = i;
  src_x = 1;
  src_y = 2;
  src_w = 3;
  src_h = 4;
  crtc_x = 5;
  crtc_y = 6;
  crtc_w = 7;
  crtc_h = 8;
  fb_id = 9;
  crtc_id = 10;
  in_fence_fd = 0;
  fb_damage_clips = 11;
}

abbrev connector : ConnectorProps
connector = record {
  id = 50;
  crtc_id = 20;
  max_bpc = 21;
  bpc_low = 6;
  bpc_high = 12;
  colorspace = 0;
  bt2020 = 0;
  color_default = 0;
  hdr_output_metadata = 0;
  link_status = 22;
  content_type = 0;
  crtc = record {
    id = 40;
    mode_id = 30;
    active = 31;
    vrr_enabled = 32;
    gamma_lut = 33;
    degamma_lut = 0;
    ctm = 0;
    out_fence_ptr = 0;
    primary = plane_at 60;
    cursor = some (plane_at 61);
  };
}

abbrev state : State
state = record {
  enabled = true;
  wide_color_gamut = false;
  content_type = 0;
  adaptive_sync = true;
  supports_explicit = false;
  out_fence_committed = false;
  out_fence_address = 0;
  in_fence = none;
  cursor_shape_committed = false;
  cursor_pos_committed = true;
  cursor_visible = true;
  cursor_x = 100;
  cursor_y = 200;
}

abbrev data_of : Option Fb → Data
data_of fb = record {
  main_fb = fb;
  cursor_fb = none;
  modeset = true;
  mode_differs = true;
  mode_blob = 77;
  gammad = true;
  gamma_blob = 78;
  degammad = false;
  degamma_blob = 0;
  ctmd = false;
  ctm_blob = 0;
  hdrd = false;
  hdr_blob = 0;
  fb_damage = 0;
}

abbrev shown_data : Data
shown_data =
    data_of
      (some (record { id = 5; width = 1920; height = 1080; format = fourcc b'X' b'R' b'3' b'0' }))

abbrev short : List Entry → Bool
short [] = false
short (e ∷ es) = true

-- libdrm has no memory from the start.
abbrev full : List Entry → Entry → Bool
full es e = false

-- A modeset with a framebuffer, and one that changes nothing but the gamma
abbrev wish : Wish
wish = record {
  enabled = true;
  has_fb = true;
  modeset = true;
  gamma_committed = true;
  gamma_prop = 33;
  gamma = 1 ∷ 2 ∷ 3 ∷ 4 ∷ [];
  degamma_committed = false;
  degamma_prop = 0;
  degamma = [];
  has_ctm = false;
  ctm_committed = false;
  ctm_prop = 0;
  hdr_eotf = none;
  hdr_committed = false;
  hdr_prop = 0;
  damage_committed = false;
  damage_prop = 11;
  has_mode = true;
  damage_empty = true;
}

-- A kernel with room for the blobs 1 and 2
abbrev pick : Bool → Bool → Option ℕ
pick true true = none
pick true false = some 2
pick false b = some 1

abbrev kernel : Live → Content → Option ℕ
kernel live c = pick (live 1) (live 2)

pick_fresh :
    (live : Live) (a b : Bool) (i : ℕ)
    → live 1 ≡ a
    → live 2 ≡ b
    → pick a b ≡ some i
    → live i ≡ false
pick_fresh live true true i p q h = ground arith
pick_fresh live true false i p q h = ground arith
pick_fresh live false b i p q h = ground arith

kernel_fresh : (live : Live) (c : Content) (i : ℕ) → kernel live c ≡ some i → live i ≡ false
kernel_fresh live c i h = pick_fresh live (live 1) (live 2) i refl refl h

abbrev no_blobs : Live
no_blobs x = false

abbrev crtc_blobs : CrtcBlobs
crtc_blobs = record { own_mode_id = true; mode_id = 0; gamma_lut = 0; ctm = 0; hdr = 0 }

same_mode_leaks_example :
    let (ok, kept, left) = Prepare.commit kernel wish false true (fresh_data no_blobs) crtc_blobs in
    (left 1 ≡ true) × (is_current kept 1 ≡ false)
same_mode_leaks_example =
    same_mode_leaks kernel kernel_fresh 1 (λ e. absurd (omega arith)) wish true no_blobs crtc_blobs
      refl refl refl refl refl

refused_restores_example :
    (Prepare.commit kernel wish true false (fresh_data no_blobs) crtc_blobs).2 2 ≡ false
unfolding prepare_connector Prepare.after_mode
refused_restores_example =
    refused_restores kernel kernel_fresh 2 (λ e. absurd (omega arith)) wish true no_blobs crtc_blobs
      refl refl refl refl

abbrev takes_all : List Entry → Entry → Bool
takes_all es e = true

add_connector-TurnsOff_example :
    All
      (TurnsOff connector (data_of none))
      (add_connector takes_all connector state (data_of none) empty).entries
add_connector-TurnsOff_example =
    add_connector-TurnsOff takes_all connector state (data_of none) refl
