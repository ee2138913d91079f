-- ===== src/Drm/Atomic/Wanted.antt =====
-- The code of src/backend/drm/impl/Atomic.cpp adds the entries that are wanted.
use aquamarine.Common.{
  ℕ, Bool, true, false, ◌&&◌, Option, none, some, List, [], ◌∷◌, ◌++◌, ◌==◌, if◌then◌else◌, ◌≡◌,
  refl, Bool-cases, inl, inr,
}
use aquamarine.Drm.Atomic.{
  present, enables, when, ◌▸◌, add, set, unless_failed, plane_props_pos, disable_plane, show_plane,
  plane_props, add_connector_modeset, move_cursor_plane, add_connector_cursor, add_color,
  add_in_fence, add_crtc, connector_body, add_connector,
}
use aquamarine.Drm.Props.{Entry, Request, PlaneProps, ConnectorProps, Fb, State, Data}
use aquamarine.Drm.Atomic.Entries.{
  entry, ◌⊕◌, only, off, at, shown, plane, modeset, moved, cursor, color, in_fence, picture,
  wanted_off, wanted_on, wanted,
}

module _ (takes : List Entry → Entry → Bool) where
  -- The entries added one after the other.
  abbrev pub add_all : List Entry → Request → Request
  add_all [] r = r
  add_all (e ∷ rest) r = add_all rest (add takes e r)

  -- Code that adds these entries, and does no more.
  pub record Adds (f : Request → Request) (xs : List Entry) : Type 0 where
    pub same : (r : Request) → f r ≡ add_all xs r

  add_all-append :
      (xs ys : List Entry) (r : Request) → add_all (xs ++ ys) r ≡ add_all ys (add_all xs r)
  add_all-append [] ys r = refl
  add_all-append (x ∷ xs) ys r = add_all-append xs ys (add takes x r)

  add_failed : (e : Entry) (r : Request) → r.failed ≡ true → add takes e r ≡ r
  unfolding add
  add_failed e r h = rw h refl

  add_all_failed : (xs : List Entry) (r : Request) → r.failed ≡ true → add_all xs r ≡ r
  add_all_failed [] r h = refl
  add_all_failed (x ∷ xs) r h = rw (add_failed x r h) (add_all_failed xs r h)

  set-Adds : (o p v : ℕ) → Adds (set takes o p v) (entry o p v ∷ [])
  set-Adds o p v = record { same = λ r. refl }

  seq-Adds :
      {f g : Request → Request} {xs ys : List Entry}
      → Adds f xs
      → Adds g ys
      → Adds (f ▸ g) (xs ⊕ ys)
  seq-Adds {f} {g} {xs} {ys} hf hg = record {
    same = λ r. rw (add_all-append xs ys r, hf.same r) (hg.same (add_all xs r));
  }

  when-Adds :
      (b : Bool) {f : Request → Request} {xs : List Entry} → Adds f xs → Adds (when b f) (only b xs)
  when-Adds true h = record { same = h.same }
  when-Adds false h = record { same = λ r. refl }

  if-Adds :
      (b : Bool) {f g : Request → Request} {xs ys : List Entry}
      → Adds f xs
      → Adds g ys
      → Adds (if b then f else g) (if b then xs else ys)
  if-Adds true hf hg = hf
  if-Adds false hf hg = hg

  unless_failed-Adds :
      {f : Request → Request} {xs : List Entry} → Adds f xs → Adds (unless_failed f) xs
  unless_failed-Adds {f} {xs} h = record {
    same = λ r. elim (Bool-cases r.failed) [
      | inl bad ↦ simp (bad, add_all_failed xs r bad) refl
      | inr good ↦ simp good (h.same r)
    ];
  }

  plane_props_pos-Adds : (p : PlaneProps) (x y : ℕ) → Adds (plane_props_pos takes p x y) (at p x y)
  unfolding plane_props_pos
  plane_props_pos-Adds p x y = unless_failed-Adds (record { same = λ r. refl })

  disable_plane-Adds : (p : PlaneProps) (x y : ℕ) → Adds (disable_plane takes p x y) (off p x y)
  unfolding disable_plane
  disable_plane-Adds p x y = record { same = λ r. refl }

  show_plane-Adds :
      (p : PlaneProps) (fb : Fb) (crtc x y : ℕ)
      → Adds (show_plane takes p fb crtc x y) (shown p fb crtc x y)
  unfolding show_plane
  show_plane-Adds p fb crtc x y = record { same = λ r. (plane_props_pos-Adds p x y).same _ }

  pub plane_props-Adds :
      (p : PlaneProps) (fb : Option Fb) (crtc x y : ℕ)
      → Adds (plane_props takes p fb crtc x y) (plane p fb crtc x y)
  unfolding plane_props
  plane_props-Adds p none crtc x y = unless_failed-Adds (disable_plane-Adds p x y)
  plane_props-Adds p (some fb) crtc x y =
      unless_failed-Adds
        (if-Adds (crtc == 0) (disable_plane-Adds p x y) (show_plane-Adds p fb crtc x y))

  add_connector_modeset-Adds :
      (c : ConnectorProps) (st : State) (d : Data)
      → Adds (add_connector_modeset takes c st d) (modeset c st d)
  unfolding add_connector_modeset
  add_connector_modeset-Adds c st d = when-Adds d.modeset (
      seq-Adds (set-Adds c.crtc.id c.crtc.mode_id d.mode_blob)
        (when-Adds (enables st d && present c.link_status) (set-Adds c.id c.link_status 0)))

  move_cursor_plane-Adds :
      (p : PlaneProps) (c : ConnectorProps) (st : State) (d : Data)
      → Adds (move_cursor_plane takes p c st d) (moved p c st d)
  unfolding move_cursor_plane
  move_cursor_plane-Adds p c st d =
      if-Adds st.cursor_shape_committed
        (if-Adds st.cursor_visible
          (plane_props-Adds p d.cursor_fb c.crtc.id st.cursor_x st.cursor_y)
          (plane_props-Adds p none 0 0 0))
        (when-Adds (st.cursor_pos_committed && st.cursor_visible)
          (plane_props_pos-Adds p st.cursor_x st.cursor_y))

  add_connector_cursor-Adds :
      (o : Option PlaneProps) (c : ConnectorProps) (st : State) (d : Data)
      → Adds (add_connector_cursor takes o c st d) (cursor o c st d)
  unfolding add_connector_cursor
  add_connector_cursor-Adds none c st d = record { same = λ r. refl }
  add_connector_cursor-Adds (some p) c st d = record {
    same = λ r. elim (Bool-cases (enables st d)) [
      | inl on ↦ rw on ((move_cursor_plane-Adds p c st d).same r)
      | inr dark ↦ rw dark ((plane_props-Adds p none 0 0 0).same r)
    ];
  }

  add_color-Adds :
      (c : ConnectorProps) (st : State) (d : Data) → Adds (add_color takes c st d) (color c st d)
  unfolding add_color
  add_color-Adds c st d =
      seq-Adds
        (seq-Adds
          (when-Adds (present c.max_bpc && present c.bpc_low && present c.bpc_high)
            (set-Adds c.id c.max_bpc _))
          (when-Adds (present c.colorspace && present c.bt2020) (set-Adds c.id c.colorspace _)))
        (when-Adds (present c.hdr_output_metadata && d.hdrd)
          (set-Adds c.id c.hdr_output_metadata _))

  add_in_fence-Adds : (o : Option ℕ) (p : PlaneProps) → Adds (add_in_fence takes o p) (in_fence o p)
  unfolding add_in_fence
  add_in_fence-Adds none p = record { same = λ r. refl }
  add_in_fence-Adds (some fd) p = record { same = λ r. refl }

  infixl 4 ◌▹◌
  abbrev ◌▹◌ :
      {f g : Request → Request} {xs ys : List Entry}
      → Adds f xs
      → Adds g ys
      → Adds (f ▸ g) (xs ⊕ ys)
  a ▹ b = seq-Adds a b

  add_crtc-Adds :
      (c : ConnectorProps) (st : State) (d : Data) → Adds (add_crtc takes c st d) (picture c st d)
  unfolding add_crtc
  add_crtc-Adds c st d =
      when-Adds (st.supports_explicit && st.out_fence_committed) (set-Adds _ _ _)
      ▹ when-Adds (present c.crtc.gamma_lut && d.gammad) (set-Adds _ _ _)
      ▹ when-Adds (present c.crtc.degamma_lut && d.degammad) (set-Adds _ _ _)
      ▹ when-Adds (present c.crtc.ctm && d.ctmd) (set-Adds _ _ _)
      ▹ when-Adds (present c.crtc.vrr_enabled) (set-Adds _ _ _)
      ▹ plane_props-Adds c.crtc.primary d.main_fb c.crtc.id 0 0
      ▹ when-Adds st.supports_explicit (add_in_fence-Adds st.in_fence c.crtc.primary)
      ▹ when-Adds (present c.crtc.primary.fb_damage_clips) (set-Adds _ _ _)

  connector_body-Adds :
      (enable : Bool) (c : ConnectorProps) (st : State) (d : Data)
      → Adds
          (connector_body takes enable c st d)
          (if enable then wanted_on c st d else wanted_off c st d)
  unfolding connector_body
  connector_body-Adds true c st d =
      (when-Adds d.mode_differs (add_connector_modeset-Adds c st d) ▹ add_color-Adds c st d)
      ▹ add_connector_cursor-Adds c.crtc.cursor c st d
      ▹ set-Adds c.id c.crtc_id c.crtc.id
      ▹ when-Adds (present c.content_type) (set-Adds c.id c.content_type st.content_type)
      ▹ set-Adds c.crtc.id c.crtc.active 1
      ▹ add_crtc-Adds c st d
  connector_body-Adds false c st d =
      add_connector_modeset-Adds c st d
      ▹ add_connector_cursor-Adds c.crtc.cursor c st d
      ▹ set-Adds c.id c.crtc_id 0
      ▹ when-Adds false (set-Adds c.id c.content_type st.content_type)
      ▹ set-Adds c.crtc.id c.crtc.active 0
      ▹ plane_props-Adds c.crtc.primary none 0 0 0

  -- `addConnector` makes the request that the lists of `wanted` describe: it ends in the same
  -- state, failed or not, as adding their entries one by one from the same request. The lists say
  -- what is asked of an output that is on and of one that is off, whatever may fail on the way.
  pub add_connector-wanted :
      (c : ConnectorProps) (st : State) (d : Data) (r : Request)
      → add_connector takes c st d r ≡ add_all (wanted c st d) r
  unfolding add_connector
  add_connector-wanted c st d r = (connector_body-Adds (enables st d) c st d).same r
