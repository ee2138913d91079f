-- ===== src/Drm/Blobs.antt =====
-- The property blobs of a CRTC in src/backend/drm/impl/Atomic.cpp: destroyBlob, commitBlob,
-- rollbackBlob, apply and rollback of CDRMAtomicRequest, on a connector.
-- A blob is its id, and 0 is none. `live` says which blobs the kernel has.
pub mod Lifetime
mod Tests
use aquamarine.Common.{ℕ, Bool, true, false, not, ◌&&◌, ◌||◌, ◌==◌, if◌then◌else◌}

-- `SDRMCRTC::atomic`
pub record CrtcBlobs : Type 0 where
  pub own_mode_id : Bool
  pub mode_id : ℕ
  pub gamma_lut : ℕ
  pub ctm : ℕ
  pub hdr : ℕ

-- `SDRMConnectorCommitData::atomic`
pub record DataBlobs : Type 0 where
  pub gamma_lut : ℕ
  pub degamma_lut : ℕ
  pub fb_damage : ℕ
  pub mode_blob : ℕ
  pub ctm_blob : ℕ
  pub hdr_blob : ℕ
  pub blobbed : Bool

abbrev pub Live : Type 0
Live = ℕ → Bool

abbrev pub destroy_blob : ℕ → Live → Live
destroy_blob i live x = if not (i == 0) && x == i then false else live x

-- What becomes of the blobs; the new current one is `next` in either case.
abbrev pub commit_blob : ℕ → ℕ → Live → Live
commit_blob current next live = if current == next then live else destroy_blob current live

abbrev pub rollback_blob : ℕ → ℕ → Live → Live
rollback_blob current next live = if current == next then live else destroy_blob next live

abbrev pub owned_mode : CrtcBlobs → ℕ
owned_mode c = if c.own_mode_id then c.mode_id else 0

unfoldable pub apply : DataBlobs → CrtcBlobs → Live → CrtcBlobs × Live
apply d c live =
    let live1 = if d.blobbed then commit_blob (owned_mode c) d.mode_blob live else live in
    let live2 = commit_blob c.gamma_lut d.gamma_lut live1 in
    let live3 = commit_blob c.ctm d.ctm_blob live2 in
    let live4 = commit_blob c.hdr d.hdr_blob live3 in
    (
      record {
        own_mode_id = true;
        mode_id = (if d.blobbed then d.mode_blob else owned_mode c);
        gamma_lut = d.gamma_lut;
        ctm = d.ctm_blob;
        hdr = d.hdr_blob;
      },
      destroy_blob d.fb_damage live4,
    )

unfoldable pub rollback : DataBlobs → CrtcBlobs → Live → CrtcBlobs × Live
rollback d c live =
    let live1 = if d.blobbed then rollback_blob c.mode_id d.mode_blob live else live in
    let live2 = rollback_blob c.gamma_lut d.gamma_lut live1 in
    let live3 = rollback_blob c.ctm d.ctm_blob live2 in
    let live4 = rollback_blob c.hdr d.hdr_blob live3 in
    (record c { own_mode_id = true }, destroy_blob d.fb_damage live4)
