-- ===== src/Drm/Atomic/Prepare.antt =====
-- The blobs that a commit makes in src/backend/drm/impl/Atomic.cpp: prepareConnector, and commit of
-- CDRMAtomicImpl with the request's apply and rollback.
-- `create` is the kernel: it makes a blob of the contents, or refuses. The contents of a matrix and
-- of the HDR metadata are not looked into.
pub mod Kept
pub mod Stages
pub mod Leaks
use aquamarine.Common.{
  ℕ, Bool, true, false, not, ◌&&◌, ◌||◌, Option, none, some, List, [], ◌∷◌, ◌==◌, if◌then◌else◌,
}
use aquamarine.Drm.Atomic.{present}
use aquamarine.Drm.Blobs.{CrtcBlobs, DataBlobs, Live, apply, rollback}

-- `drm_color_lut`
pub record Color : Type 0 where
  pub red : ℕ
  pub green : ℕ
  pub blue : ℕ

pub data Content : Type 0 where
  mode_info ctm hdr_metadata damage_rects : Content
  color_lut : List Color → Content

-- What prepareConnector reads, and whether there is a framebuffer, which addConnector reads
pub record Wish : Type 0 where
  pub enabled : Bool
  pub has_fb : Bool
  pub modeset : Bool
  pub gamma_committed : Bool
  pub gamma_prop : ℕ
  pub gamma : List ℕ
  pub degamma_committed : Bool
  pub degamma_prop : ℕ
  pub degamma : List ℕ
  pub has_ctm : Bool
  pub ctm_committed : Bool
  pub ctm_prop : ℕ
  pub hdr_eotf : Option ℕ
  pub hdr_committed : Bool
  pub hdr_prop : ℕ
  pub damage_committed : Bool
  pub damage_prop : ℕ
  pub has_mode : Bool
  pub damage_empty : Bool

-- The commit data's blobs with their flags, and the kernel's blobs.
pub record Made : Type 0 where
  pub blobs : DataBlobs
  pub gammad : Bool
  pub degammad : Bool
  pub ctmd : Bool
  pub hdrd : Bool
  pub live : Live

-- The table of `[r,g,b]+`, without an incomplete end
abbrev pub pack : List ℕ → List Color
pack (r ∷ g ∷ b ∷ rest) = record { red = r; green = g; blue = b } ∷ pack rest
pack _ = []

abbrev pub with_blob : ℕ → Live → Live
with_blob i live x = x == i || live x

-- A blob or 0, whether this went well, and the kernel's blobs after.
pub record Blob : Type 0 where
  pub ok : Bool
  pub id : ℕ
  pub live : Live

-- A commit's data before it is prepared
abbrev pub fresh_data : Live → Made
fresh_data live = record {
  blobs = record {
    gamma_lut = 0;
    degamma_lut = 0;
    fb_damage = 0;
    mode_blob = 0;
    ctm_blob = 0;
    hdr_blob = 0;
    blobbed = false;
  };
  gammad = false;
  degammad = false;
  ctmd = false;
  hdrd = false;
  live = live;
}

-- The request, of which only whether it takes the mode's blob is of interest, then the kernel's
-- answer.
unfoldable pub finish_commit : Bool → Bool → Made → CrtcBlobs → Bool × CrtcBlobs × Live
finish_commit blobbed accepted m c =
    let d = record m.blobs { blobbed = blobbed } in
    let (kept, destroyed) = if accepted then apply d c m.live else rollback d c m.live in
    (accepted, kept, destroyed)

module _ (create : Live → Content → Option ℕ) where
  abbrev pub created : Option ℕ → Live → Blob
  created none live = record { ok = false; id = 0; live = live }
  created (some i) live = record { ok = true; id = i; live = with_blob i live }

  abbrev pub create_blob : Content → Live → Blob
  create_blob c live = created (create live c) live

  -- `prepareGammaBlob`, whose blob was `old`
  abbrev pub gamma_blob : ℕ → List ℕ → ℕ → Live → Blob
  gamma_blob prop [] old live =
      if present prop
      then record { ok = true; id = 0; live = live }
      else record { ok = false; id = old; live = live }
  gamma_blob prop lut old live =
      if present prop
      then create_blob (color_lut (pack lut)) live
      else record { ok = false; id = old; live = live }

  -- No blob is asked for.
  abbrev pub keep : Bool → ℕ → Live → Blob
  keep flag old live = record { ok = flag; id = old; live = live }

  abbrev pub mode_stage : Wish → ℕ → Live → Blob
  mode_stage w old live =
      if w.modeset
      then if w.enabled then create_blob mode_info live else keep true 0 live
      else keep true old live

  abbrev pub gamma_stage : Wish → Bool → ℕ → Live → Blob
  gamma_stage w flag old live =
      if w.gamma_committed then gamma_blob w.gamma_prop w.gamma old live else keep flag old live

  abbrev pub degamma_stage : Wish → Bool → ℕ → Live → Blob
  degamma_stage w flag old live =
      if w.degamma_committed
      then gamma_blob w.degamma_prop w.degamma old live
      else keep flag old live

  abbrev pub ctm_stage : Wish → Bool → ℕ → Live → Blob
  ctm_stage w flag old live =
      if w.has_ctm && (w.modeset || w.ctm_committed) && present w.ctm_prop
      then create_blob ctm live
      else keep flag old live

  abbrev pub hdr_of : Option ℕ → Wish → Bool → ℕ → Live → Blob
  hdr_of none w flag old live = keep flag old live
  hdr_of (some eotf) w flag old live =
      if present w.hdr_prop
      then if eotf == 0 then keep true 0 live else create_blob hdr_metadata live
      else keep flag old live

  abbrev pub hdr_stage : Wish → Bool → ℕ → Live → Blob
  hdr_stage w flag old live =
      if w.modeset || w.hdr_committed then hdr_of w.hdr_eotf w flag old live else keep flag old live

  abbrev pub damage_stage : Wish → ℕ → Live → Blob
  damage_stage w old live =
      if w.damage_committed && present w.damage_prop && w.has_mode
      then if w.damage_empty then keep true 0 live else create_blob damage_rects live
      else keep true old live

  -- From the gamma table on
  unfoldable pub after_mode : Wish → Made → ℕ → Live → Bool × Made
  after_mode w m mode live1 =
      let g = gamma_stage w m.gammad m.blobs.gamma_lut live1 in
      let dg = degamma_stage w m.degammad m.blobs.degamma_lut g.live in
      let c = ctm_stage w m.ctmd m.blobs.ctm_blob dg.live in
      let h = hdr_stage w m.hdrd m.blobs.hdr_blob c.live in
      let dm = damage_stage w m.blobs.fb_damage h.live in
      (
        dm.ok,
        record {
          blobs = record {
            gamma_lut = g.id;
            degamma_lut = dg.id;
            fb_damage = dm.id;
            mode_blob = mode;
            ctm_blob = c.id;
            hdr_blob = h.id;
            blobbed = m.blobs.blobbed;
          };
          gammad = g.ok;
          degammad = dg.ok;
          ctmd = c.ok || m.ctmd;
          hdrd = h.ok;
          live = dm.live;
        },
      )

  unfoldable pub prepare_connector : Wish → Made → Bool × Made
  prepare_connector w m =
      let b = mode_stage w m.blobs.mode_blob m.live in
      if b.ok then after_mode w m b.id b.live else (false, record m { live = b.live })

  -- `commit`; `mode_differs` is the test of addConnector, which looks at an enabled output with a
  -- framebuffer only.
  unfoldable pub commit : Wish → Bool → Bool → Made → CrtcBlobs → Bool × CrtcBlobs × Live
  commit w mode_differs accepted m c =
      let (ok, made) = prepare_connector w m in
      if ok
      then finish_commit
          (m.blobs.blobbed || (w.modeset && (not (w.enabled && w.has_fb) || mode_differs))) accepted
          made c
      else (false, c, made.live)
