-- ===== src/Drm/Blobs/Tests.antt =====
-- The blobs of a CRTC over a commit (src/backend/drm/impl/Atomic.cpp): the properties at concrete
-- inputs.
use aquamarine.Common.{◌≡◌, refl, true, false, arith}
use aquamarine.Drm.Blobs.{CrtcBlobs, DataBlobs, Live, rollback}
use aquamarine.Drm.Blobs.Lifetime.{rollback_lem}

abbrev crtc : CrtcBlobs
crtc = record { own_mode_id = true; mode_id = 1; gamma_lut = 2; ctm = 0; hdr = 0 }

-- A new mode and new tables.
abbrev data_blobs : DataBlobs
data_blobs = record {
  gamma_lut = 12;
  degamma_lut = 13;
  fb_damage = 0;
  mode_blob = 11;
  ctm_blob = 0;
  hdr_blob = 0;
  blobbed = true;
}

abbrev all_live : Live
all_live x = true

rollback_lem_example : (rollback data_blobs crtc all_live).1 12 ≡ false
rollback_lem_example = (rollback_lem data_blobs crtc all_live 12 (λ e. absurd (omega arith)) refl).1
