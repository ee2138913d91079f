-- ===== src/Drm/Atomic.antt =====
-- The requests of src/backend/drm/impl/Atomic.cpp: add, planeProps, planePropsPos, addConnector,
-- addConnectorModeset, addConnectorCursor and commit of CDRMAtomicRequest, getMaxBPC, and reset.
-- An id or a property is 0 when the kernel has none. `takes` says of which entries libdrm makes
-- place in the request. A position is given as it is once it is converted to a `uint64_t`.
pub mod Entries
pub mod Wanted
pub mod Sent
pub mod Prepare
mod Tests
use aquamarine.Common.{
  ◌%◌, ◌^◌, ℕ, ◌*◌, Bool, true, false, not, ◌&&◌, ◌||◌, Option, none, some, List, [], ◌∷◌, ◌++◌,
  ◌==◌, ltb, if◌then◌else◌, is_some,
}
use aquamarine.Gbm.{fourcc}
use aquamarine.Drm.Props.{Entry, Request, PlaneProps, CrtcProps, ConnectorProps, Fb, State, Data}

abbrev pub present : ℕ → Bool
present i = not (i == 0)

-- The codes of four letters of the formats: the first two name the channels, then the sizes follow.
abbrev pub is_rgb : (ℕ → ℕ → ℕ) → ℕ → Bool
is_rgb code f =
    f == code b'X' b'R' || f == code b'X' b'B' || f == code b'A' b'R' || f == code b'A' b'B'

abbrev pub is_rgb_last : (ℕ → ℕ → ℕ) → ℕ → Bool
is_rgb_last code f =
    f == code b'R' b'X' || f == code b'B' b'X' || f == code b'R' b'A' || f == code b'B' b'A'

unfoldable pub format_bpc : ℕ → ℕ
format_bpc f =
    if is_rgb (λ a b. fourcc a b b'3' b'0') f || is_rgb_last (λ a b. fourcc a b b'3' b'0') f
    then 10
    else if is_rgb (λ a b. fourcc a b b'4' b'8') f
    then 16
    else 8

-- getMaxBPC: the format's bits between the bounds, of which `std::clamp` wants that they are in
-- order, as an uint8_t
unfoldable pub get_max_bpc : ℕ → ℕ → ℕ → ℕ
get_max_bpc low high format =
    let bpc = format_bpc format in
    (if ltb bpc low then low else if ltb high bpc then high else bpc) % 2 ^ 8

-- The test `enable`
abbrev pub enables : State → Data → Bool
enables st d = st.enabled && is_some d.main_fb

abbrev pub when : Bool → (Request → Request) → Request → Request
when true f r = f r
when false f r = r

infixl 4 ◌▸◌
abbrev pub ◌▸◌ : (Request → Request) → (Request → Request) → Request → Request
(f ▸ g) r = g (f r)

-- The format of the framebuffer; it is read only where there is one.
abbrev pub format_of : Option Fb → ℕ
format_of none = 0
format_of (some fb) = fb.format

-- The code after an early return on `failed`
abbrev pub unless_failed : (Request → Request) → Request → Request
unless_failed f r = if r.failed then r else f r

abbrev pub each {ℓ} : {A : Type ℓ} → (A → Request → Request) → List A → Request → Request
each f [] r = r
each f (x ∷ xs) r = each f xs (f x r)

module _ (takes : List Entry → Entry → Bool) where
  -- `add`, of an entry
  unfoldable pub add : Entry → Request → Request
  add e r =
      if r.failed
      then r
      else if e.object == 0 || e.property == 0
      then r
      else if takes r.entries e
      then record r { entries = r.entries ++ (e ∷ []) }
      else record r { failed = true }

  abbrev pub set : ℕ → ℕ → ℕ → Request → Request
  set object property value = add (record { object = object; property = property; value = value })

  unfoldable pub plane_props_pos : PlaneProps → ℕ → ℕ → Request → Request
  plane_props_pos p x y = unless_failed (set p.id p.crtc_x x ▸ set p.id p.crtc_y y)

  unfoldable pub disable_plane : PlaneProps → ℕ → ℕ → Request → Request
  disable_plane p x y =
      set p.id p.fb_id 0 ▸ set p.id p.crtc_id 0 ▸ set p.id p.crtc_x x ▸ set p.id p.crtc_y y

  unfoldable pub show_plane : PlaneProps → Fb → ℕ → ℕ → ℕ → Request → Request
  unfolding plane_props_pos
  show_plane p fb crtc x y =
      set p.id p.src_x 0
      ▸ set p.id p.src_y 0
      ▸ set p.id p.src_w (fb.width * 65536)
      ▸ set p.id p.src_h (fb.height * 65536)
      ▸ set p.id p.crtc_w fb.width
      ▸ set p.id p.crtc_h fb.height
      ▸ set p.id p.fb_id fb.id
      ▸ set p.id p.crtc_id crtc
      ▸ plane_props_pos p x y

  unfoldable pub plane_props : PlaneProps → Option Fb → ℕ → ℕ → ℕ → Request → Request
  unfolding disable_plane show_plane
  plane_props p none crtc x y = unless_failed (disable_plane p x y)
  plane_props p (some fb) crtc x y =
      unless_failed (if crtc == 0 then disable_plane p x y else show_plane p fb crtc x y)

  unfoldable pub add_connector_modeset : ConnectorProps → State → Data → Request → Request
  add_connector_modeset c st d = when d.modeset (
      set c.crtc.id c.crtc.mode_id d.mode_blob
      ▸ when (enables st d && present c.link_status) (set c.id c.link_status 0))

  -- The cursor of an enabled output
  unfoldable pub move_cursor_plane : PlaneProps → ConnectorProps → State → Data → Request → Request
  unfolding plane_props plane_props_pos
  move_cursor_plane p c st d =
      if st.cursor_shape_committed
      then if st.cursor_visible
        then plane_props p d.cursor_fb c.crtc.id st.cursor_x st.cursor_y
        else plane_props p none 0 0 0
      else when (st.cursor_pos_committed && st.cursor_visible)
          (plane_props_pos p st.cursor_x st.cursor_y)

  unfoldable pub add_connector_cursor :
      Option PlaneProps → ConnectorProps → State → Data → Request → Request
  unfolding plane_props move_cursor_plane
  add_connector_cursor none c st d r = r
  add_connector_cursor (some p) c st d r =
      if enables st d then move_cursor_plane p c st d r else plane_props p none 0 0 0 r

  -- Up to the cursor, on an enabled output
  unfoldable pub add_color : ConnectorProps → State → Data → Request → Request
  add_color c st d =
      when (present c.max_bpc && present c.bpc_low && present c.bpc_high)
        (set c.id c.max_bpc (get_max_bpc c.bpc_low c.bpc_high (format_of d.main_fb)))
      ▸ when (present c.colorspace && present c.bt2020)
          (set c.id c.colorspace (if st.wide_color_gamut then c.bt2020 else c.color_default))
      ▸ when (present c.hdr_output_metadata && d.hdrd) (set c.id c.hdr_output_metadata d.hdr_blob)

  unfoldable pub add_in_fence : Option ℕ → PlaneProps → Request → Request
  add_in_fence none p r = r
  add_in_fence (some fd) p r = set p.id p.in_fence_fd fd r

  -- From the out fence to the damage, on an enabled output
  unfoldable pub add_crtc : ConnectorProps → State → Data → Request → Request
  unfolding plane_props add_in_fence
  add_crtc c st d =
      when (st.supports_explicit && st.out_fence_committed)
        (set c.crtc.id c.crtc.out_fence_ptr st.out_fence_address)
      ▸ when (present c.crtc.gamma_lut && d.gammad) (set c.crtc.id c.crtc.gamma_lut d.gamma_blob)
      ▸ when (present c.crtc.degamma_lut && d.degammad)
          (set c.crtc.id c.crtc.degamma_lut d.degamma_blob)
      ▸ when (present c.crtc.ctm && d.ctmd) (set c.crtc.id c.crtc.ctm d.ctm_blob)
      ▸ when (present c.crtc.vrr_enabled)
          (set c.crtc.id c.crtc.vrr_enabled (if st.adaptive_sync then 1 else 0))
      ▸ plane_props c.crtc.primary d.main_fb c.crtc.id 0 0
      ▸ when st.supports_explicit (add_in_fence st.in_fence c.crtc.primary)
      ▸ when (present c.crtc.primary.fb_damage_clips)
          (set c.crtc.primary.id c.crtc.primary.fb_damage_clips d.fb_damage)

  -- The body, for the flag `enable`
  unfoldable pub connector_body : Bool → ConnectorProps → State → Data → Request → Request
  unfolding add_connector_modeset add_connector_cursor add_color add_crtc plane_props
  connector_body enable c st d =
      (if enable
        then when d.mode_differs (add_connector_modeset c st d) ▸ add_color c st d
        else add_connector_modeset c st d)
      ▸ add_connector_cursor c.crtc.cursor c st d
      ▸ set c.id c.crtc_id (if enable then c.crtc.id else 0)
      ▸ when (enable && present c.content_type) (set c.id c.content_type st.content_type)
      ▸ set c.crtc.id c.crtc.active (if enable then 1 else 0)
      ▸ (if enable then add_crtc c st d else plane_props c.crtc.primary none 0 0 0)

  unfoldable pub add_connector : ConnectorProps → State → Data → Request → Request
  unfolding connector_body
  add_connector c st d = connector_body (enables st d) c st d

  -- The request of `reset`, over the CRTCs, connectors and planes of the device
  unfoldable pub reset_request :
      List CrtcProps → List ConnectorProps → List PlaneProps → Request → Request
  unfolding plane_props
  reset_request crtcs connectors planes =
      each (λ c. set c.id c.mode_id 0 ▸ set c.id c.active 0) crtcs
      ▸ each (λ c. set c.id c.crtc_id 0) connectors
      ▸ each (λ p. plane_props p none 0 0 0) planes

-- The request's commit: `accepts` is the kernel.
unfoldable pub commit : (List Entry → Bool) → Request → Bool
commit accepts r = if r.failed then false else accepts r.entries
