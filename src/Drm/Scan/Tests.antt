-- ===== src/Drm/Scan/Tests.antt =====
-- A hotplug and a lease event on a small desk (src/backend/drm/DRM.cpp): the properties at concrete
-- inputs.
use aquamarine.Common.{
  ℕ, ◌≡◌, refl, true, false, not, ◌&&◌, ◌||◌, none, some, List, [], ◌∷◌, ◌==◌, if◌then◌else◌, All,
  count, map,
}
use aquamarine.Drm.{connected, disconnected, TileInfo, Output, Connector}
use aquamarine.Drm.Frames.{mem}
use aquamarine.Drm.Scan.{Kernel, mark_redundant_tiles, recheck_outputs, scan_leases, scan_from}
use aquamarine.Drm.Scan.Tiles.{any_kept, mark_redundant_tiles_lem}
use aquamarine.Drm.Scan.Outputs.{is_proper, is_served, recheck_outputs_lem}
use aquamarine.Drm.Scan.Leases.{scan_leases_lem, relisted, holders}

abbrev tiled : TileInfo
tiled = record {
  group_id = 9;
  num_h_tile = 2;
  num_v_tile = 1;
  tile_h_size = 2560;
  tile_v_size = 2880;
}

abbrev lessee : ℕ → Output
lessee l = record { enabled = true; enabled_committed = false; lease = some l }

abbrev fresh : ℕ → Connector
fresh i = record {
  id = i;
  status = disconnected;
  crtc = none;
  possible_crtcs = 3;
  tiling_redundant = false;
  tile_info = tiled;
  max_width = 0;
  max_height = 0;
  output = none;
}

abbrev leased : ℕ → ℕ → Connector
leased i l = record (fresh i) { status = connected; output = some (lessee l) }

-- The connectors 1 and 2 are tiles of one monitor, and 1 has a mode of the full size.
abbrev kernel : Kernel
kernel = record {
  resources = some (1 ∷ 2 ∷ []);
  get_connector = λ i. some (record {
    connection = connected;
    modes = (if i == 1 then record { hdisplay = 5120; vdisplay = 2880 } ∷ [] else []);
  });
  init = λ i. some (fresh i);
  tile_info = λ i. tiled;
  new_output = λ i. record { enabled = false; enabled_committed = false; lease = none };
  lessees = some (5 ∷ []);
}

abbrev pair : List Connector
pair =
    record (fresh 1) { status = connected; max_width = 5120; max_height = 2880 }
    ∷ record (fresh 2) { status = connected }
    ∷ []

marks_run :
    mark_redundant_tiles kernel pair
    ≡ record (fresh 1) { status = connected; max_width = 5120; max_height = 2880 }
      ∷ record (fresh 2) { status = connected; tiling_redundant = true }
      ∷ []
unfolding mark_redundant_tiles
marks_run = refl

mark_redundant_tiles_lem_example :
    All
      (λ c.
        (not c.tiling_redundant || any_kept c.tile_info.group_id (mark_redundant_tiles kernel pair))
        ≡ true)
      (mark_redundant_tiles kernel pair)
mark_redundant_tiles_lem_example = mark_redundant_tiles_lem kernel pair

recheck_outputs_lem_example :
    All (λ c. (is_proper c && is_served kernel c) ≡ true) (recheck_outputs kernel [] (41 ∷ 52 ∷ []))
recheck_outputs_lem_example = recheck_outputs_lem kernel [] (41 ∷ 52 ∷ [])

abbrev lessee_desk : List Connector
lessee_desk = leased 1 4 ∷ leased 2 4 ∷ leased 3 5 ∷ []

-- The lease of two outputs is destroyed twice.
gone_run : (scan_leases kernel lessee_desk).1 ≡ 4 ∷ 4 ∷ []
unfolding scan_leases scan_from
gone_run = refl

scan_leases_lem_example :
    ((scan_leases kernel lessee_desk).0 ≡ map (relisted (5 ∷ [])) lessee_desk)
    × (count 4 (scan_leases kernel lessee_desk).1
        ≡ (if mem 4 (5 ∷ []) then 0 else holders 4 lessee_desk))
scan_leases_lem_example = scan_leases_lem kernel lessee_desk (5 ∷ []) 4 refl
