-- ===== src/Drm/Crtcs/Tests.antt =====
-- CRTC assignment (src/backend/drm/DRM.cpp) on two CRTCs, and its properties at concrete inputs.
use aquamarine.Common.{
  ℕ, ◌≤◌, ◌<◌, ◌≡◌, refl, ◌⊎◌, false, Option, none, some, List, [], ◌∷◌, arith, map,
}
use aquamarine.Drm.{Connection, connected, disconnected, TileInfo, Connector}
use aquamarine.Drm.Crtcs.{recheck_crtcs}
use aquamarine.Drm.Crtcs.Exclusive.{drivers, recheck_exclusive}
use aquamarine.Drm.Crtcs.Complete.{starving, recheck_complete}

abbrev no_tile : TileInfo
no_tile = record { group_id = 0; num_h_tile = 0; num_v_tile = 0; tile_h_size = 0; tile_v_size = 0 }

-- Any CRTC will do for it.
abbrev plain : ℕ → Connection → Option ℕ → Connector
plain id status crtc = record {
  id = id;
  status = status;
  crtc = crtc;
  possible_crtcs = 3;
  tiling_redundant = false;
  tile_info = no_tile;
  max_width = 1920;
  max_height = 1080;
  output = none;
}

abbrev crtcs : List ℕ
crtcs = 41 ∷ 52 ∷ []

-- The first has CRTC 41 and is unplugged; the others have none.
abbrev desk : List Connector
desk = plain 7 disconnected (some 41) ∷ plain 8 connected none ∷ plain 9 connected none ∷ []

abbrev crtcs_of : List Connector → List (Option ℕ)
crtcs_of = map (λ c. c.crtc)

-- The unplugged connector keeps CRTC 41, which goes to the second one too.
recheck_runs : crtcs_of (recheck_crtcs desk crtcs).connectors ≡ some 41 ∷ some 41 ∷ some 52 ∷ []
unfolding recheck_crtcs
recheck_runs = refl

desk_exclusive : (y : ℕ) → drivers y desk ≤ 1
desk_exclusive y = ground arith

recheck_exclusive_example : drivers 41 (recheck_crtcs desk crtcs).connectors ≤ 1
recheck_exclusive_example = (recheck_exclusive desk crtcs 41 (desk_exclusive 41)).1

recheck_complete_example :
    (0 < drivers 52 (recheck_crtcs desk crtcs).connectors)
    ⊎ (starving 1 (recheck_crtcs desk crtcs).connectors ≡ false)
recheck_complete_example = recheck_complete desk crtcs 1 52 refl
