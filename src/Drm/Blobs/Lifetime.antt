-- ===== src/Drm/Blobs/Lifetime.antt =====
-- Which property blobs outlive a commit (src/backend/drm/impl/Atomic.cpp).
use aquamarine.Common.{
  ◌∙◌, ap, ℕ, ◌≡◌, ◌≢◌, refl, Bool, true, false, not, ◌&&◌, ◌||◌, ◌==◌, if◌then◌else◌, arith,
}
use aquamarine.Drm.Blobs.{CrtcBlobs, DataBlobs, Live, destroy_blob, rollback_blob, apply, rollback}

-- A blob of a commit that is not for the degamma table, nor for a mode that the request did not take
abbrev pub is_new : DataBlobs → ℕ → Bool
is_new d x =
    (d.blobbed && x == d.mode_blob)
    || (x == d.gamma_lut || (x == d.ctm_blob || (x == d.hdr_blob || x == d.fb_damage)))

-- A blob that the CRTC has.
abbrev pub is_current : CrtcBlobs → ℕ → Bool
is_current c x = x == c.mode_id || (x == c.gamma_lut || (x == c.ctm || x == c.hdr))

destroy_blob_lem :
    (i : ℕ) (live : Live) (x : ℕ) → x ≢ 0 → destroy_blob i live x ≡ (live x && not (x == i))
destroy_blob_lem i live x real = ground arith

rollback_blob_lem :
    (current next : ℕ) (live : Live) (x : ℕ)
    → x ≢ 0
    → (x == current) ≡ false
    → rollback_blob current next live x ≡ (live x && not (x == next))
rollback_blob_lem current next live x real other = ground arith

rollback_mode_lem :
    (d : DataBlobs) (c : CrtcBlobs) (live : Live) (x : ℕ)
    → x ≢ 0
    → (x == c.mode_id) ≡ false
    → (if d.blobbed then rollback_blob c.mode_id d.mode_blob live else live) x
      ≡ (live x && not (d.blobbed && x == d.mode_blob))
rollback_mode_lem d c live x real other = ground arith

regroup :
    (a p q r s t : Bool)
    → (((((a && not p) && not q) && not r) && not s) && not t)
      ≡ (a && not (p || (q || (r || (s || t)))))
regroup false p q r s t = refl
regroup true p q r s t = ground arith

-- `rollback` leaves the CRTC the blobs that it had, and takes the mode's for its own. Of the blobs
-- that the CRTC has not, it destroys exactly these: those of the commit for the gamma table, the
-- matrix, the HDR metadata and the damage, and that for the mode if the request took it. One for a
-- mode that the request did not take, or for a degamma table, is left.
pub rollback_lem :
    (d : DataBlobs) (c : CrtcBlobs) (live : Live) (x : ℕ)
    → x ≢ 0
    → is_current c x ≡ false
    → let (c', live') = rollback d c live in
      (c' ≡ record c { own_mode_id = true }) × (live' x ≡ (live x && not (is_new d x)))
unfolding rollback
rollback_lem d c live x real other =
    let live1 = if d.blobbed then rollback_blob c.mode_id d.mode_blob live else live in
    let live2 = rollback_blob c.gamma_lut d.gamma_lut live1 in
    let live3 = rollback_blob c.ctm d.ctm_blob live2 in
    let live4 = rollback_blob c.hdr d.hdr_blob live3 in
    let first : live1 x ≡ (live x && not (d.blobbed && x == d.mode_blob)) =
      rollback_mode_lem d c live x real (ground arith) in
    let second = rollback_blob_lem c.gamma_lut d.gamma_lut live1 x real (ground arith) in
    let third = rollback_blob_lem c.ctm d.ctm_blob live2 x real (ground arith) in
    let fourth = rollback_blob_lem c.hdr d.hdr_blob live3 x real (ground arith) in
    (
      refl,
      destroy_blob_lem d.fb_damage live4 x real
          ∙ ap (λ b. b && not (x == d.fb_damage))
              (fourth
                ∙ ap (λ b. b && not (x == d.hdr_blob))
                    (third
                      ∙ ap (λ b. b && not (x == d.ctm_blob))
                          (second ∙ ap (λ b. b && not (x == d.gamma_lut)) first)))
          ∙ regroup (live x) _ _ _ _ _,
    )

-- `rollback` destroys none but those blobs.
pub rollback_keeps :
    (d : DataBlobs) (c : CrtcBlobs) (live : Live) (x : ℕ)
    → is_new d x ≡ false
    → (rollback d c live).1 x ≡ live x
unfolding rollback
rollback_keeps d c live x old = ground arith

-- The blob of a degamma table that is live, that no other property has and that is none of the
-- CRTC's is live after the commit, whether that succeeds or fails, and is still none of the CRTC's.
pub degamma_leaks :
    (d : DataBlobs) (c : CrtcBlobs) (live : Live)
    → live d.degamma_lut ≡ true
    → is_new d d.degamma_lut ≡ false
    → is_current c d.degamma_lut ≡ false
    → d.degamma_lut ≢ 0
    → ((rollback d c live).1 d.degamma_lut ≡ true)
      × ((apply d c live).1 d.degamma_lut ≡ true)
      × (is_current (apply d c live).0 d.degamma_lut ≡ false)
unfolding apply rollback
degamma_leaks d c live made plain other real = ground arith

-- A commit that succeeded, was for a modeset and found the mode's blob to be the library's own: of
-- the blobs that are not the damage's, and not both old and new, it destroys exactly those that the
-- CRTC had before.
pub apply_lem :
    (d : DataBlobs) (c : CrtcBlobs) (live : Live) (x : ℕ)
    → x ≢ 0
    → c.own_mode_id ≡ true
    → d.blobbed ≡ true
    → x ≢ d.fb_damage
    → (is_current c x && is_new d x) ≡ false
    → (apply d c live).1 x ≡ (live x && not (is_current c x))
unfolding apply
apply_lem d c live x real owned modeset shown differs = ground arith
