-- ===== src/Drm/Scan.antt =====
-- What a hotplug and a lease event do, in src/backend/drm/DRM.cpp: scanConnectors,
-- markRedundantTiles, recheckOutputs and scanLeases of CDRMBackend, and SDRMConnector's disconnect.
-- The kernel is a parameter (`Kernel`), with SDRMConnector's init, parseTileInfo and connect, which
-- read its properties. A lease is named by its lessee. The loops over the groups of tiles and over
-- the connectors change each connector by itself, and are maps.
pub mod Tiles
pub mod Outputs
pub mod Leases
mod Tests
use aquamarine.Common.{
  ℕ, zero, suc, ◌+◌, ◌*◌, Bool, true, false, not, ◌&&◌, ◌||◌, Option, none, some, List, [], ◌∷◌,
  ◌++◌, map, ◌==◌, ltb, leb, if◌then◌else◌, is_some, length,
}
use aquamarine.Drm.{Connection, connected, disconnected, is_connected, TileInfo, Output, Connector}
use aquamarine.Drm.Crtcs.{Rechecked, recheck_crtcs}
use aquamarine.Drm.Frames.{mem}

-- A mode of `drmModeConnector`, and the part of it that a scan reads.
pub record DrmMode : Type 0 where
  pub hdisplay : ℕ
  pub vdisplay : ℕ

pub record DrmConnector : Type 0 where
  pub connection : Connection
  pub modes : List DrmMode

-- `init` is a new connector, none if it fails; `tile_info` is what parseTileInfo finds, and
-- `new_output` what connect makes.
pub record Kernel : Type 0 where
  pub resources : Option (List ℕ)
  pub get_connector : ℕ → Option DrmConnector
  pub init : ℕ → Option Connector
  pub tile_info : ℕ → TileInfo
  pub new_output : ℕ → Output
  pub lessees : Option (List ℕ)

abbrev pub disconnect : Connector → Connector
disconnect c = elim c.output [
  | none ↦ c
  | some o ↦ record c { status = disconnected; output = none }
]

abbrev pub larger : ℕ → ℕ → ℕ
larger a b = if ltb a b then b else a

pub max_width : List DrmMode → ℕ → ℕ
max_width [] w = w
max_width (m ∷ ms) w = max_width ms (larger w m.hdisplay)

pub max_height : List DrmMode → ℕ → ℕ
max_height [] h = h
max_height (m ∷ ms) h = max_height ms (larger h m.vdisplay)

-- The new status and the new maxMode.
abbrev pub refreshed : DrmConnector → Connector → Connector
refreshed d c = record c {
  status = d.connection;
  max_width = max_width d.modes 0;
  max_height = max_height d.modes 0;
}

-- A connector in the vector is refreshed in place; `find_if` finds the first with the id.
pub refresh : ℕ → DrmConnector → List Connector → Option (List Connector)
refresh i d [] = none
refresh i d (c ∷ cs) =
    let rest = refresh i d cs in
    if c.id == i
    then some (refreshed d c ∷ cs)
    else elim rest [ none ↦ none | some cs' ↦ some (c ∷ cs') ]

abbrev pub added : DrmConnector → Option Connector → List Connector → List Connector
added d none cs = cs
added d (some c) cs = cs ++ (refreshed d c ∷ [])

-- Whether the id is still among those of the kernel; a connector that is not is disconnected and
-- leaves the vector.
pub cleanup : List ℕ → List Connector → List Connector
cleanup ids [] = []
cleanup ids (c ∷ cs) = let rest = cleanup ids cs in if mem c.id ids then c ∷ rest else rest

-- The members of a group of tiles.
pub members : ℕ → List Connector → List Connector
members g [] = []
members g (c ∷ cs) =
    let rest = members g cs in
    if is_connected c.status && (not (c.tile_info.group_id == 0) && c.tile_info.group_id == g)
    then c ∷ rest
    else rest

-- The first connector with a mode of the full size.
pub find_full : ℕ → ℕ → List Connector → Option Connector
find_full w h [] = none
find_full w h (c ∷ cs) =
    let rest = find_full w h cs in if leb w c.max_width && leb h c.max_height then some c else rest

-- `fullResConn` of a group with more than one member.
pub full_connector : List Connector → Option Connector
unfolding find_full
full_connector [] = none
full_connector (c ∷ []) = none
full_connector (c ∷ d ∷ ms) =
    find_full (c.tile_info.num_h_tile * c.tile_info.tile_h_size)
      (c.tile_info.num_v_tile * c.tile_info.tile_v_size) (c ∷ d ∷ ms)

abbrev pub is_other : Connector → Option Connector → Bool
is_other c none = false
is_other c (some f) = not (f.id == c.id)

-- `all` are the connectors, with their tiles parsed.
abbrev pub marked : List Connector → Connector → Connector
marked all c = record c {
  tiling_redundant =
      is_connected c.status
      && (not (c.tile_info.group_id == 0)
          && is_other c (full_connector (members c.tile_info.group_id all)));
}

module _ (k : Kernel) where
  abbrev pub scan_one : ℕ → Option DrmConnector → List Connector → List Connector
  scan_one i none cs = cs
  scan_one i (some d) cs = elim (refresh i d cs) [ none ↦ added d (k.init i) cs | some cs' ↦ cs' ]

  pub scan_all : List ℕ → List Connector → List Connector
  unfolding refresh
  scan_all [] cs = cs
  scan_all (i ∷ ids) cs = scan_all ids (scan_one i (k.get_connector i) cs)

  pub scan_connectors : List Connector → List Connector
  unfolding scan_all cleanup
  scan_connectors cs = elim k.resources [ none ↦ cs | some ids ↦ cleanup ids (scan_all ids cs) ]

  abbrev pub parse_tile_info : Connector → Connector
  parse_tile_info c = record c { tile_info = k.tile_info c.id; tiling_redundant = false }

  pub mark_redundant_tiles : List Connector → List Connector
  unfolding members full_connector
  mark_redundant_tiles cs = let all = map parse_tile_info cs in map (marked all) all

  -- The loop that frees CRTCs.
  abbrev pub drop_output : Connector → Connector
  drop_output c =
      let c' = if not (is_connected c.status) && is_some c.output then disconnect c else c in
      if c'.tiling_redundant && is_some c'.output then disconnect c' else c'

  -- The loop that connects outputs.
  abbrev pub connect : Connector → Connector
  connect c =
      if is_connected c.status
        && (not (is_some c.output) && (not c.tiling_redundant && is_some (k.get_connector c.id)))
      then record c { status = connected; output = some (k.new_output c.id) }
      else c

  pub recheck_outputs : List Connector → List ℕ → List Connector
  recheck_outputs cs crtcs =
      map connect
        (recheck_crtcs (map drop_output (mark_redundant_tiles (scan_connectors cs)))
          crtcs).connectors

-- The lease of a connector's output.
abbrev pub lease_of : Option Output → Option ℕ
lease_of none = none
lease_of (some o) = o.lease

-- `lease.reset()`
abbrev pub drop_lease : Connector → Connector
drop_lease c = elim c.output [
  | none ↦ c
  | some o ↦ record c { output = some (record o { lease = none }) }
]

abbrev pub holds : ℕ → Option ℕ → Bool
holds l none = false
holds l (some k) = k == l

-- The inner loop on a connector whose lease is compared with `l`
abbrev pub reset_lease : ℕ → Connector → Connector
reset_lease l c = if holds l (lease_of c.output) then drop_lease c else c

-- The loop's body, for a connector with its lease, those before it and the leases that were
-- destroyed. The inner loop compares each lease with that of this connector, which is reset at its
-- turn: those after it are compared with no lease, and keep theirs.
abbrev pub scan_lease :
    List ℕ → Option ℕ → Connector → List Connector × List ℕ → List Connector × List ℕ
scan_lease lessees none c (before, destroyed) = (before ++ (c ∷ []), destroyed)
scan_lease lessees (some l) c (before, destroyed) =
    if mem l lessees
    then (before ++ (c ∷ []), destroyed)
    else (map (reset_lease l) before ++ (drop_lease c ∷ []), destroyed ++ (l ∷ []))

-- The loop from a connector on
pub scan_from : List ℕ → List Connector → List Connector × List ℕ → List Connector × List ℕ
scan_from lessees [] r = r
scan_from lessees (c ∷ cs) r = scan_from lessees cs (scan_lease lessees (lease_of c.output) c r)

-- The connectors, and the leases whose `destroy` was called, in order. Its listeners leave the
-- connectors alone.
pub scan_leases : Kernel → List Connector → List Connector × List ℕ
unfolding scan_from
scan_leases k cs = elim k.lessees [ none ↦ (cs, []) | some lessees ↦ scan_from lessees cs ([], []) ]
