-- ===== src/Drm.antt =====
-- The DRM backend, src/backend/drm/DRM.cpp: what its parts share about connectors.
-- A CRTC, a connector and a tile group are named by the numbers that the kernel gives them.
pub mod Props
pub mod Device
pub mod Crtcs
pub mod Frames
pub mod Commit
pub mod Schedule
pub mod Handles
pub mod Scan
pub mod Atomic
pub mod Legacy
pub mod Blobs
use aquamarine.Common.{ℕ, Bool, true, false, Option, none, some, is_some}

-- `drmModeConnection`
pub data Connection : Type 0 where
  connected disconnected unknown_connection : Connection

abbrev pub is_connected : Connection → Bool
is_connected connected = true
is_connected disconnected = false
is_connected unknown_connection = false

-- `SDRMConnector::tileInfo`, as far as `markRedundantTiles` reads it. The counts and sizes are those
-- of a display, not negative and small.
pub record TileInfo : Type 0 where
  pub group_id : ℕ
  pub num_h_tile : ℕ
  pub num_v_tile : ℕ
  pub tile_h_size : ℕ
  pub tile_v_size : ℕ

-- `CDRMOutput`, as far as connectors deal with it: `state->state().enabled`, the flag
-- AQ_OUTPUT_STATE_ENABLED of `committed`, and the lessee of its lease.
pub record Output : Type 0 where
  pub enabled : Bool
  pub enabled_committed : Bool
  pub lease : Option ℕ

-- `SDRMConnector`; `crtc` and `output` are none where the pointer is null.
pub record Connector : Type 0 where
  pub id : ℕ
  pub status : Connection
  pub crtc : Option ℕ
  pub possible_crtcs : ℕ
  pub tiling_redundant : Bool
  pub tile_info : TileInfo
  pub max_width : ℕ
  pub max_height : ℕ
  pub output : Option Output
