-- ===== src/Drm/Scan/Outputs.antt =====
-- Which connectors have an output after a hotplug (recheckOutputs of src/backend/drm/DRM.cpp).
use aquamarine.Common.{
  ℕ, ◌≡◌, refl, Bool, true, not, ◌&&◌, ◌||◌, Option, none, some, List, [], ◌∷◌, map, is_some, arith,
  All,
}
use aquamarine.Drm.{is_connected, Output, Connector}
use aquamarine.Drm.Crtcs.{recheck_crtcs, disable}
use aquamarine.Drm.Crtcs.Choice.{Change, Changes, kept, given, recheck-Changes}
use aquamarine.Drm.Scan.{
  Kernel, scan_connectors, mark_redundant_tiles, drop_output, connect, recheck_outputs,
}

-- A connector with an output is connected and not redundant.
abbrev pub is_proper : Connector → Bool
is_proper c = not (is_some c.output) || (is_connected c.status && not c.tiling_redundant)

-- One that could have an output has one.
abbrev pub is_served : Kernel → Connector → Bool
is_served k c =
    not (is_connected c.status && (not c.tiling_redundant && is_some (k.get_connector c.id)))
    || is_some c.output

disable_some : (o : Option Output) → is_some (disable o) ≡ is_some o
disable_some none = refl
disable_some (some o) = ground arith

Change-proper :
    (crtcs : List ℕ) (c c' : Connector)
    → Change crtcs c c'
    → is_proper c ≡ true
    → is_proper c' ≡ true
Change-proper crtcs c c' (kept e) h = rw e h
Change-proper crtcs c c' (given i x at bit here plain free e) h =
    rw e (ground (arith, disable_some c.output))

Changes-proper :
    (crtcs : List ℕ) (cs cs' : List Connector)
    → Changes crtcs cs cs'
    → All (λ c. is_proper c ≡ true) cs
    → All (λ c. is_proper c ≡ true) cs'
Changes-proper crtcs [] [] ch h = tt
Changes-proper crtcs [] (c' ∷ cs') ch h = absurd ch
Changes-proper crtcs (c ∷ cs) [] ch h = tt
Changes-proper crtcs (c ∷ cs) (c' ∷ cs') ch h =
    (Change-proper crtcs c c' ch.0 h.0, Changes-proper crtcs cs cs' ch.1 h.1)

module _ (k : Kernel) where
  dropped_proper : (c : Connector) → is_proper (drop_output k c) ≡ true
  dropped_proper c = ground arith

  All-dropped : (cs : List Connector) → All (λ c. is_proper c ≡ true) (map (drop_output k) cs)
  All-dropped [] = tt
  All-dropped (c ∷ cs) = (dropped_proper c, All-dropped cs)

  connect_proper :
      (c : Connector)
      → is_proper c ≡ true
      → (is_proper (connect k c) && is_served k (connect k c)) ≡ true
  connect_proper c h = ground arith

  All-connected :
      (cs : List Connector)
      → All (λ c. is_proper c ≡ true) cs
      → All (λ c. (is_proper c && is_served k c) ≡ true) (map (connect k) cs)
  All-connected [] h = tt
  All-connected (c ∷ cs) h = (connect_proper c h.0, All-connected cs h.1)

  -- After `recheckOutputs`, whatever it started from and whatever the kernel says: a connector that
  -- has an output is connected and not tiling-redundant; and one that is connected, not
  -- tiling-redundant and still known to the kernel has an output.
  pub recheck_outputs_lem :
      (cs : List Connector) (crtcs : List ℕ)
      → All (λ c. (is_proper c && is_served k c) ≡ true) (recheck_outputs k cs crtcs)
  unfolding recheck_outputs
  recheck_outputs_lem cs crtcs =
      let before = map (drop_output k) (mark_redundant_tiles k (scan_connectors k cs)) in
      All-connected (recheck_crtcs before crtcs).connectors (
        Changes-proper crtcs before (recheck_crtcs before crtcs).connectors
          (recheck-Changes before crtcs)
          (All-dropped (mark_redundant_tiles k (scan_connectors k cs))))
