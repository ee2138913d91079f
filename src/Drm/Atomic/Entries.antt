-- ===== src/Drm/Atomic/Entries.antt =====
-- What a request of src/backend/drm/impl/Atomic.cpp is to ask for, as a list of entries.
use aquamarine.Common.{
  ℕ, ◌*◌, Bool, true, false, ◌&&◌, Option, none, some, List, [], ◌∷◌, ◌++◌, ◌==◌, if◌then◌else◌,
}
use aquamarine.Drm.Atomic.{present, get_max_bpc, enables, format_of}
use aquamarine.Drm.Props.{Entry, PlaneProps, ConnectorProps, Fb, State, Data}

abbrev pub entry : ℕ → ℕ → ℕ → Entry
entry object property value = record { object = object; property = property; value = value }

infixl 4 ◌⊕◌
abbrev pub ◌⊕◌ : List Entry → List Entry → List Entry
xs ⊕ ys = xs ++ ys

abbrev pub only : Bool → List Entry → List Entry
only true xs = xs
only false xs = []

-- A plane that is off, at a position
abbrev pub off : PlaneProps → ℕ → ℕ → List Entry
off p x y =
    entry p.id p.fb_id 0
    ∷ entry p.id p.crtc_id 0
    ∷ entry p.id p.crtc_x x
    ∷ entry p.id p.crtc_y y
    ∷ []

abbrev pub at : PlaneProps → ℕ → ℕ → List Entry
at p x y = entry p.id p.crtc_x x ∷ entry p.id p.crtc_y y ∷ []

-- A plane that shows all of a framebuffer, its size in 16.16 fixed point
abbrev pub shown : PlaneProps → Fb → ℕ → ℕ → ℕ → List Entry
shown p fb crtc x y =
    entry p.id p.src_x 0
    ∷ entry p.id p.src_y 0
    ∷ entry p.id p.src_w (fb.width * 65536)
    ∷ entry p.id p.src_h (fb.height * 65536)
    ∷ entry p.id p.crtc_w fb.width
    ∷ entry p.id p.crtc_h fb.height
    ∷ entry p.id p.fb_id fb.id
    ∷ entry p.id p.crtc_id crtc
    ∷ at p x y

abbrev pub plane : PlaneProps → Option Fb → ℕ → ℕ → ℕ → List Entry
plane p none crtc x y = off p x y
plane p (some fb) crtc x y = if crtc == 0 then off p x y else shown p fb crtc x y

abbrev pub modeset : ConnectorProps → State → Data → List Entry
modeset c st d = only d.modeset (
    entry c.crtc.id c.crtc.mode_id d.mode_blob ∷ []
    ⊕ only (enables st d && present c.link_status) (entry c.id c.link_status 0 ∷ []))

abbrev pub moved : PlaneProps → ConnectorProps → State → Data → List Entry
moved p c st d =
    if st.cursor_shape_committed
    then if st.cursor_visible
      then plane p d.cursor_fb c.crtc.id st.cursor_x st.cursor_y
      else off p 0 0
    else only (st.cursor_pos_committed && st.cursor_visible) (at p st.cursor_x st.cursor_y)

abbrev pub cursor : Option PlaneProps → ConnectorProps → State → Data → List Entry
cursor none c st d = []
cursor (some p) c st d = if enables st d then moved p c st d else off p 0 0

abbrev pub color : ConnectorProps → State → Data → List Entry
color c st d =
    only (present c.max_bpc && present c.bpc_low && present c.bpc_high)
      (entry c.id c.max_bpc (get_max_bpc c.bpc_low c.bpc_high (format_of d.main_fb)) ∷ [])
    ⊕ only (present c.colorspace && present c.bt2020)
        (entry c.id c.colorspace (if st.wide_color_gamut then c.bt2020 else c.color_default) ∷ [])
    ⊕ only (present c.hdr_output_metadata && d.hdrd)
        (entry c.id c.hdr_output_metadata d.hdr_blob ∷ [])

abbrev pub in_fence : Option ℕ → PlaneProps → List Entry
in_fence none p = []
in_fence (some fd) p = entry p.id p.in_fence_fd fd ∷ []

abbrev pub picture : ConnectorProps → State → Data → List Entry
picture c st d =
    only (st.supports_explicit && st.out_fence_committed)
      (entry c.crtc.id c.crtc.out_fence_ptr st.out_fence_address ∷ [])
    ⊕ only (present c.crtc.gamma_lut && d.gammad)
        (entry c.crtc.id c.crtc.gamma_lut d.gamma_blob ∷ [])
    ⊕ only (present c.crtc.degamma_lut && d.degammad)
        (entry c.crtc.id c.crtc.degamma_lut d.degamma_blob ∷ [])
    ⊕ only (present c.crtc.ctm && d.ctmd) (entry c.crtc.id c.crtc.ctm d.ctm_blob ∷ [])
    ⊕ only (present c.crtc.vrr_enabled)
        (entry c.crtc.id c.crtc.vrr_enabled (if st.adaptive_sync then 1 else 0) ∷ [])
    ⊕ plane c.crtc.primary d.main_fb c.crtc.id 0 0
    ⊕ only st.supports_explicit (in_fence st.in_fence c.crtc.primary)
    ⊕ only (present c.crtc.primary.fb_damage_clips)
        (entry c.crtc.primary.id c.crtc.primary.fb_damage_clips d.fb_damage ∷ [])

-- An output that is off: its mode when it changes, and zeros.
abbrev pub wanted_off : ConnectorProps → State → Data → List Entry
wanted_off c st d =
    modeset c st d
    ⊕ cursor c.crtc.cursor c st d
    ⊕ entry c.id c.crtc_id 0 ∷ []
    ⊕ []
    ⊕ entry c.crtc.id c.crtc.active 0 ∷ []
    ⊕ off c.crtc.primary 0 0

-- One that is on.
abbrev pub wanted_on : ConnectorProps → State → Data → List Entry
wanted_on c st d =
    only d.mode_differs (modeset c st d)
    ⊕ color c st d
    ⊕ cursor c.crtc.cursor c st d
    ⊕ entry c.id c.crtc_id c.crtc.id ∷ []
    ⊕ only (present c.content_type) (entry c.id c.content_type st.content_type ∷ [])
    ⊕ entry c.crtc.id c.crtc.active 1 ∷ []
    ⊕ picture c st d

abbrev pub wanted : ConnectorProps → State → Data → List Entry
wanted c st d = if enables st d then wanted_on c st d else wanted_off c st d
