-- ===== src/Drm/Atomic/Prepare/Leaks.antt =====
-- Which blobs a commit of src/backend/drm/impl/Atomic.cpp leaves behind.
use aquamarine.Common.{
  ℕ, Bool, true, false, not, ◌&&◌, ◌||◌, Option, some, ◌==◌, ◌≡◌, ◌≢◌, refl, ap, ◌∙◌, sym, subst,
  arith, Bool-cases, inl, inr,
}
use aquamarine.Drm.Atomic.Prepare.{
  Content, mode_info, Wish, Made, Blob, with_blob, mode_stage, gamma_stage, degamma_stage,
  ctm_stage, hdr_stage, after_mode, prepare_connector, finish_commit, commit, fresh_data,
}
use aquamarine.Drm.Atomic.Prepare.Stages.{
  mode_stage-IsStage, gamma_stage-IsStage, degamma_stage-IsStage, ctm_stage-IsStage,
  hdr_stage-IsStage, damage_stage-IsStage,
}
use aquamarine.Drm.Blobs.{CrtcBlobs, DataBlobs, Live}
use aquamarine.Drm.Blobs.Lifetime.{is_new, is_current, rollback_keeps, rollback_lem}
use aquamarine.Drm.Atomic.Prepare.Kept.{finished, or_else, named_chain, unblobbed}

module _ (create : Live → Content → Option ℕ)
    (fresh : (live : Live) (k : Content) (i : ℕ) → create live k ≡ some i → live i ≡ false) (x : ℕ)
    (real : x ≢ 0) where
  -- What the stages after the mode's do to a blob that is there before them.
  after_mode-keeps :
      (w : Wish) (live live1 : Live) (mode : ℕ)
      → live1 x ≡ true
      → let (ok, m) = after_mode create w (fresh_data live) mode live1 in
        (m.live x ≡ true) × (is_new (record m.blobs { blobbed = false }) x ≡ false)
  unfolding after_mode
  after_mode-keeps w live live1 mode here =
      let g = gamma_stage create w false 0 live1 in
      let dg = degamma_stage create w false 0 g.live in
      let c = ctm_stage create w false 0 dg.live in
      let h = hdr_stage create w false 0 c.live in
      let z : (x == 0) ≡ false = ground arith in
      let sg = gamma_stage-IsStage create fresh x real w live1 false 0 in
      let sd = degamma_stage-IsStage create fresh x real w g.live false 0 in
      let sc = ctm_stage-IsStage create fresh x real w dg.live false 0 in
      let sh = hdr_stage-IsStage create fresh x real w c.live false 0 in
      let sm = damage_stage-IsStage create fresh x real w h.live 0 in
      let l1 = sg.keeps here z in
      let l2 = sd.keeps l1 z in
      let l3 = sc.keeps l2 z in
      let l4 = sh.keeps l3 z in
      (
        sm.keeps l4 z,
        rw (sg.differs here z, sc.differs l2 z, sh.differs l3 z, sm.differs l4 z) refl,
      )

  prepared_mode :
      (w : Wish) (live : Live)
      → w.enabled ≡ true
      → w.modeset ≡ true
      → create live mode_info ≡ some x
      → prepare_connector create w (fresh_data live)
        ≡ after_mode create w (fresh_data live) x (with_blob x live)
  unfolding prepare_connector
  prepared_mode w live on changes made = simp (changes, on, made) refl

  -- A modeset of an enabled output with a framebuffer to the mode that the kernel has already: the blob that is made
  -- for the mode is live after the commit, whether that is accepted or refused, and is not the
  -- CRTC's. So nothing will destroy it. The kernel makes only blobs that were not there, and `x` is
  -- the one for the mode, not 0 and not one that the CRTC had.
  pub same_mode_leaks :
      (w : Wish) (accepted : Bool) (live : Live) (c : CrtcBlobs)
      → w.enabled ≡ true
      → w.has_fb ≡ true
      → w.modeset ≡ true
      → create live mode_info ≡ some x
      → is_current c x ≡ false
      → let (ok, kept, left) = commit create w false accepted (fresh_data live) c in
        (left x ≡ true) × (is_current kept x ≡ false)
  unfolding commit
  same_mode_leaks w accepted live c on shown changes made other =
      let (here, old) = after_mode-keeps w live (with_blob x live) x (ground arith) in
      simp (prepared_mode w live on changes made) (
        finished _ _ accepted _ c x real here
          (subst
            (λ b.
              is_new
                (record (after_mode create w (fresh_data live) x (with_blob x live)).1.blobs {
                  blobbed = b;
                })
                x
              ≡ false)
            (sym (unblobbed w on shown changes)) old)
          other)

  -- What the stages have made of a blob that was not there
  after_mode-grows :
      (w : Wish) (live live1 : Live) (mode : ℕ)
      → w.degamma_committed ≡ false
      → live1 x ≡ (x == mode || live x)
      → live x ≡ false
      → let (ok, m) = after_mode create w (fresh_data live) mode live1 in
        (m.live x && not (is_new (record m.blobs { blobbed = true }) x)) ≡ false
  unfolding after_mode
  after_mode-grows w live live1 mode plain first gone =
      let g = gamma_stage create w false 0 live1 in
      let dg = degamma_stage create w false 0 g.live in
      let c = ctm_stage create w false 0 dg.live in
      let h = hdr_stage create w false 0 c.live in
      let sg = gamma_stage-IsStage create fresh x real w live1 false 0 in
      let sc = ctm_stage-IsStage create fresh x real w dg.live false 0 in
      let sh = hdr_stage-IsStage create fresh x real w c.live false 0 in
      let sm = damage_stage-IsStage create fresh x real w h.live 0 in
      let same : dg.live x ≡ g.live x = rw plain refl in
      named_chain (x == mode) (x == g.id) (x == c.id) (x == h.id) _ (live x) (live1 x) (g.live x)
        (c.live x) (h.live x) _ gone first (sg.grows refl real)
        (sc.grows refl real ∙ ap (or_else (x == c.id)) same) (sh.grows refl real)
        (sm.grows refl real)

  is_new_any :
      (d : DataBlobs) (b : Bool)
      → is_new (record d { blobbed = false }) x ≡ false
      → (x == d.mode_blob) ≡ false
      → is_new (record d { blobbed = b }) x ≡ false
  is_new_any d b old other = ground arith

  is_new_taken :
      (d : DataBlobs) (b : Bool)
      → (x == d.mode_blob && not b) ≡ false
      → is_new (record d { blobbed = b }) x ≡ is_new (record d { blobbed = true }) x
  is_new_taken d b named = ground arith

  -- The kernel refuses: a blob that was there and is not the commit's, and one that was not.
  refused_there :
      (b : Bool) (m : Made) (c : CrtcBlobs)
      → m.live x ≡ true
      → is_new (record m.blobs { blobbed = b }) x ≡ false
      → (finish_commit b false m c).2 x ≡ true
  unfolding finish_commit
  refused_there b m c here old = rollback_keeps _ c m.live x old ∙ here

  refused_gone :
      (b : Bool) (m : Made) (c : CrtcBlobs)
      → is_current c x ≡ false
      → (x == m.blobs.mode_blob && not b) ≡ false
      → (m.live x && not (is_new (record m.blobs { blobbed = true }) x)) ≡ false
      → (finish_commit b false m c).2 x ≡ false
  unfolding finish_commit
  refused_gone b m c other named gone =
      (rollback_lem _ c m.live x real other).1
      ∙ ap (λ n. m.live x && not n) (is_new_taken m.blobs b named)
      ∙ gone

  module _ (w : Wish) (mode_differs : Bool) (live : Live) where
    abbrev first : Blob
    first = mode_stage create w 0 live

    -- Whether the request takes the mode's blob
    abbrev takes_mode : Bool
    takes_mode = false || (w.modeset && (not (w.enabled && w.has_fb) || mode_differs))

    named_if_made :
        (not w.modeset || (not (w.enabled && w.has_fb) || mode_differs)) ≡ true
        → (x == first.id && not takes_mode) ≡ false
    named_if_made takes = elim (Bool-cases w.modeset) [
      | inl changes ↦ ground arith
      | inr keeps ↦ rw keeps (ground arith)
    ]

    restored :
        (c : CrtcBlobs)
        → w.degamma_committed ≡ false
        → (not w.modeset || (not (w.enabled && w.has_fb) || mode_differs)) ≡ true
        → (is_current c x && not (live x)) ≡ false
        → (finish_commit takes_mode false
              (after_mode create w (fresh_data live) first.id first.live).1
              c).2
            x
          ≡ live x
    unfolding after_mode
    restored c plain takes owned =
        let m = (after_mode create w (fresh_data live) first.id first.live).1 in
        let sm = mode_stage-IsStage create fresh x real w live 0 in
        let z : (x == 0) ≡ false = ground arith in
        elim (Bool-cases (live x)) [
          | inl here ↦
              let (stays, old) = after_mode-keeps w live first.live first.id (sm.keeps here z) in
              refused_there takes_mode m c stays
                (is_new_any m.blobs takes_mode old (sm.differs here z))
              ∙ sym here
          | inr gone ↦
              refused_gone takes_mode m c (ground arith) (named_if_made takes)
                (after_mode-grows w live first.live first.id plain (sm.grows refl real) gone)
              ∙ sym gone
        ]

    prepared_with :
        first.ok ≡ true
        → prepare_connector create w (fresh_data live)
          ≡ after_mode create w (fresh_data live) first.id first.live
    unfolding prepare_connector
    prepared_with ok = simp ok refl

    mode_made : (prepare_connector create w (fresh_data live)).0 ≡ true → first.ok ≡ true
    unfolding prepare_connector
    mode_made went = elim (Bool-cases first.ok) [ inl ok ↦ ok | inr failed ↦ ground arith ]

    -- A commit that is prepared without a degamma table, whose request takes the mode's blob if
    -- there is one, and that is then refused leaves the kernel with exactly the blobs that it had:
    -- each `x` but 0 is there just when it was. The kernel makes only blobs that were not there,
    -- and those that the CRTC holds were there.
    pub refused_restores :
        (c : CrtcBlobs)
        → w.degamma_committed ≡ false
        → (not w.modeset || (not (w.enabled && w.has_fb) || mode_differs)) ≡ true
        → (is_current c x && not (live x)) ≡ false
        → (prepare_connector create w (fresh_data live)).0 ≡ true
        → (commit create w mode_differs false (fresh_data live) c).2 x ≡ live x
    unfolding commit
    refused_restores c plain takes owned went =
        let same = prepared_with (mode_made went) in
        let ok : (after_mode create w (fresh_data live) first.id first.live).0 ≡ true =
          subst (λ r. r.0 ≡ true) same went in
        simp (same, ok) (restored c plain takes owned)
