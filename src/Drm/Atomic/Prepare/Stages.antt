-- ===== src/Drm/Atomic/Prepare/Stages.antt =====
-- What one stage of prepareConnector in src/backend/drm/impl/Atomic.cpp does to the blobs.
use aquamarine.Common.{
  ℕ, Bool, true, false, ◌&&◌, ◌||◌, Option, none, some, List, [], ◌∷◌, ◌==◌, if◌then◌else◌, ◌≡◌,
  ◌≢◌, refl, arith,
}
use aquamarine.Drm.Atomic.{present}
use aquamarine.Drm.Atomic.Prepare.{
  Content, Wish, Blob, created, create_blob, keep, gamma_blob, mode_stage, gamma_stage,
  degamma_stage, ctm_stage, hdr_of, hdr_stage, damage_stage,
}
use aquamarine.Drm.Blobs.{Live}

-- What a stage does to one id `x`, from the blob `old` and the kernel's blobs `live`.
pub record IsStage (old : ℕ) (live : Live) (b : Blob) (x : ℕ) : Type 0 where
  pub keeps : live x ≡ true → (x == old) ≡ false → b.live x ≡ true
  pub differs : live x ≡ true → (x == old) ≡ false → (x == b.id) ≡ false
  pub grows : old ≡ 0 → x ≢ 0 → b.live x ≡ (x == b.id || live x)

module _ (create : Live → Content → Option ℕ)
    (fresh : (live : Live) (c : Content) (i : ℕ) → create live c ≡ some i → live i ≡ false) (x : ℕ)
    (real : x ≢ 0) where
  keep-IsStage :
      (flag : Bool) (old : ℕ) (live : Live) → IsStage old live (keep create flag old live) x
  keep-IsStage flag old live = record {
    keeps = λ h o. h;
    differs = λ h o. o;
    grows = λ z r. ground arith;
  }

  zero-IsStage : (old : ℕ) (live : Live) → IsStage old live (keep create true 0 live) x
  zero-IsStage old live = record {
    keeps = λ h o. h;
    differs = λ h o. ground arith;
    grows = λ z r. ground arith;
  }

  created-IsStage :
      (o : Option ℕ) (old : ℕ) (live : Live)
      → ((i : ℕ) → o ≡ some i → live i ≡ false)
      → IsStage old live (created create o live) x
  created-IsStage none old live h = record {
    keeps = λ l d. l;
    differs = λ l d. ground arith;
    grows = λ z r. ground arith;
  }
  created-IsStage (some i) old live h =
      let new = h i refl in
      record { keeps = λ l d. ground arith; differs = λ l d. ground arith; grows = λ z r. refl }

  create_blob-IsStage :
      (c : Content) (old : ℕ) (live : Live) → IsStage old live (create_blob create c live) x
  create_blob-IsStage c old live = created-IsStage (create live c) old live (fresh live c)

  if-IsStage :
      (test : Bool) {a b : Blob} (old : ℕ) (live : Live)
      → IsStage old live a x
      → IsStage old live b x
      → IsStage old live (if test then a else b) x
  if-IsStage true old live ha hb = ha
  if-IsStage false old live ha hb = hb

  gamma_blob-IsStage :
      (prop : ℕ) (lut : List ℕ) (old : ℕ) (live : Live)
      → IsStage old live (gamma_blob create prop lut old live) x
  gamma_blob-IsStage prop [] old live =
      if-IsStage (present prop) old live (zero-IsStage old live) (keep-IsStage false old live)
  gamma_blob-IsStage prop (v ∷ lut) old live =
      if-IsStage (present prop) old live (create_blob-IsStage _ old live)
        (keep-IsStage false old live)

  hdr_of-IsStage :
      (eotf : Option ℕ) (w : Wish) (flag : Bool) (old : ℕ) (live : Live)
      → IsStage old live (hdr_of create eotf w flag old live) x
  hdr_of-IsStage none w flag old live = keep-IsStage flag old live
  hdr_of-IsStage (some e) w flag old live =
      if-IsStage (present w.hdr_prop) old live
        (if-IsStage (e == 0) old live (zero-IsStage old live) (create_blob-IsStage _ old live))
        (keep-IsStage flag old live)

  module _ (w : Wish) (live : Live) where
    pub mode_stage-IsStage : (old : ℕ) → IsStage old live (mode_stage create w old live) x
    mode_stage-IsStage old =
        if-IsStage w.modeset old live
          (if-IsStage w.enabled old live (create_blob-IsStage _ old live) (zero-IsStage old live))
          (keep-IsStage true old live)

    pub gamma_stage-IsStage :
        (flag : Bool) (old : ℕ) → IsStage old live (gamma_stage create w flag old live) x
    gamma_stage-IsStage flag old =
        if-IsStage w.gamma_committed old live (gamma_blob-IsStage w.gamma_prop w.gamma old live)
          (keep-IsStage flag old live)

    pub degamma_stage-IsStage :
        (flag : Bool) (old : ℕ) → IsStage old live (degamma_stage create w flag old live) x
    degamma_stage-IsStage flag old =
        if-IsStage w.degamma_committed old live
          (gamma_blob-IsStage w.degamma_prop w.degamma old live) (keep-IsStage flag old live)

    pub ctm_stage-IsStage :
        (flag : Bool) (old : ℕ) → IsStage old live (ctm_stage create w flag old live) x
    ctm_stage-IsStage flag old =
        if-IsStage (w.has_ctm && (w.modeset || w.ctm_committed) && present w.ctm_prop) old live
          (create_blob-IsStage _ old live) (keep-IsStage flag old live)

    pub hdr_stage-IsStage :
        (flag : Bool) (old : ℕ) → IsStage old live (hdr_stage create w flag old live) x
    hdr_stage-IsStage flag old =
        if-IsStage (w.modeset || w.hdr_committed) old live
          (hdr_of-IsStage w.hdr_eotf w flag old live) (keep-IsStage flag old live)

    pub damage_stage-IsStage : (old : ℕ) → IsStage old live (damage_stage create w old live) x
    damage_stage-IsStage old =
        if-IsStage (w.damage_committed && present w.damage_prop && w.has_mode) old live
          (if-IsStage w.damage_empty old live (zero-IsStage old live)
            (create_blob-IsStage _ old live))
          (keep-IsStage true old live)
