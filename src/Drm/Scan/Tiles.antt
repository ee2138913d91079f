-- ===== src/Drm/Scan/Tiles.antt =====
-- What `markRedundantTiles` (src/backend/drm/DRM.cpp) leaves of a group of tiles.
use aquamarine.Common.{
  ℕ, ◌*◌, ◌≡◌, refl, Bool, true, false, not, ◌&&◌, ◌||◌, some, List, [], ◌∷◌, map, ◌==◌, leb, arith,
  All, Bool-cases, Option-cases, inl, inr, sym, ap, ◌∙◌, ==_refl,
}
use aquamarine.Drm.{is_connected, Connector}
use aquamarine.Drm.Scan.{
  Kernel, members, find_full, full_connector, marked, is_other, mark_redundant_tiles,
  parse_tile_info,
}

-- Some connected connector of the group is not redundant.
abbrev pub any_kept : ℕ → List Connector → Bool
any_kept g [] = false
any_kept g (c ∷ cs) =
    (is_connected c.status && (c.tile_info.group_id == g && not c.tiling_redundant))
    || any_kept g cs

full_found :
    (ms : List Connector) {f : Connector}
    → full_connector ms ≡ some f
    → (w : ℕ) × (h : ℕ) × (find_full w h ms ≡ some f)
unfolding full_connector
full_found [] e = absurd (ground arith)
full_found (c ∷ []) e = absurd (ground arith)
full_found (c ∷ d ∷ ms) e = (
  c.tile_info.num_h_tile * c.tile_info.tile_h_size,
  c.tile_info.num_v_tile * c.tile_info.tile_v_size,
  e,
)

is_other_itself : (c : Connector) → is_other c (some c) ≡ false
is_other_itself c = ground (arith, ==_refl c.id)

-- The connector that was found stands among the ones that it was looked for in.
found_kept :
    (all : List Connector) (w h g : ℕ) (cs : List Connector) {f : Connector}
    → full_connector (members g all) ≡ some f
    → find_full w h (members g cs) ≡ some f
    → any_kept g (map (marked all) cs) ≡ true
unfolding find_full members
found_kept all w h g [] full found = absurd (ground arith)
found_kept all w h g (c ∷ cs) {f} full found =
    elim (Bool-cases
      (is_connected c.status && (not (c.tile_info.group_id == 0) && c.tile_info.group_id == g))) [
        | inr outside ↦ ground (arith, found_kept all w h g cs {f = f})
        | inl inside ↦ elim (Bool-cases (leb w c.max_width && leb h c.max_height)) [
          | inr small ↦ ground (arith, found_kept all w h g cs {f = f})
          | inl large ↦
              let here : find_full w h (members g (c ∷ cs)) ≡ some c = ground arith in
              let group : c.tile_info.group_id ≡ g = ground arith in
              let chosen : full_connector (members c.tile_info.group_id all) ≡ some c =
                ap (λ j. full_connector (members j all)) group ∙ full ∙ sym found ∙ here in
              let itself = ap (is_other c) chosen ∙ is_other_itself c in ground (arith, itself)
        ]
      ]

-- A connector that is marked has a group in which another was found.
marked_found :
    (all : List Connector) (c : Connector)
    → (marked all c).tiling_redundant ≡ true
    → (f : Connector) × (full_connector (members c.tile_info.group_id all) ≡ some f)
marked_found all c h = elim (Option-cases (full_connector (members c.tile_info.group_id all))) [
  | inl nobody ↦ absurd (ground arith)
  | inr found ↦ found
]

one_kept :
    (all : List Connector) (c : Connector)
    → (not (marked all c).tiling_redundant || any_kept c.tile_info.group_id (map (marked all) all))
      ≡ true
one_kept all c = elim (Bool-cases (marked all c).tiling_redundant) [
  | inr plain ↦ rw plain refl
  | inl redundant ↦
      let (f, full) = marked_found all c redundant in
      let (w, h, found) = full_found (members c.tile_info.group_id all) {f = f} full in
      ground (arith, found_kept all w h c.tile_info.group_id all {f = f} full found)
]

All-kept :
    (all cs : List Connector)
    → All
        (λ c.
          (not c.tiling_redundant || any_kept c.tile_info.group_id (map (marked all) all)) ≡ true)
        (map (marked all) cs)
All-kept all [] = tt
All-kept all (c ∷ cs) = (one_kept all c, All-kept all cs)

-- After `markRedundantTiles` a connector is marked as redundant only if its group has a connector
-- that is connected and not marked: no monitor loses all its connectors.
pub mark_redundant_tiles_lem :
    (k : Kernel) (cs : List Connector)
    → All
        (λ c.
          (not c.tiling_redundant || any_kept c.tile_info.group_id (mark_redundant_tiles k cs))
          ≡ true)
        (mark_redundant_tiles k cs)
unfolding mark_redundant_tiles
mark_redundant_tiles_lem k cs = All-kept (map (parse_tile_info k) cs) (map (parse_tile_info k) cs)
