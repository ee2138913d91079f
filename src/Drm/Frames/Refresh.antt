-- ===== src/Drm/Frames/Refresh.antt =====
-- Bounds on `calculateRefresh` of src/backend/drm/DRM.cpp.
use native.Mathlib.Nat.{div-add-mod, mod-lt, mod-eq_of_lt}
use aquamarine.Common.{ℕ, ◌+◌, ◌*◌, ◌/◌, ◌≤◌, ◌<◌, ◌^◌, ◌≡◌, false, some, arith}
use aquamarine.Drm.Frames.{ModeInfo, calculate_refresh}
use aquamarine.Common.Int.{pos, to_int}

-- the pixel clock in mHz over the width of a line
abbrev pub line_rate : ModeInfo → ℕ
line_rate m = m.clock * 1000000 / m.htotal

-- The line rate over the number of lines, rounded
abbrev pub rounded : ModeInfo → ℕ
rounded m = (line_rate m + m.vtotal / 2) / m.vtotal

to_int-small : (n : ℕ) → n < 2 ^ 31 → to_int n ≡ pos n
to_int-small n h = rw (mod-eq_of_lt {n = n} {m = 2 ^ 32} (omega (arith, h))) (ground arith)

rounds :
    (q v : ℕ)
    → 0 < v
    → (2 * ((q + v / 2) / v * v) ≤ 2 * q + v) × (2 * q ≤ 2 * ((q + v / 2) / v * v) + v)
rounds q v h = grind (arith, div-add-mod (q + v / 2) v, mod-lt (q + v / 2) h)

-- A plain progressive mode whose totals are not 0, and whose rate in mHz, rounded, fits an
-- `int32_t`, has a refresh. It is the line rate over the vertical total, rounded: as near to it as
-- half a unit.
pub calculate_refresh_rounds :
    (m : ModeInfo)
    → m.interlace ≡ false
    → m.dblscan ≡ false
    → m.vscan ≤ 1
    → 0 < m.htotal
    → 0 < m.vtotal
    → rounded m < 2 ^ 31
    → (calculate_refresh m ≡ some (pos (rounded m)))
      × (2 * (rounded m * m.vtotal) ≤ 2 * line_rate m + m.vtotal)
      × (2 * line_rate m ≤ 2 * (rounded m * m.vtotal) + m.vtotal)
unfolding calculate_refresh
calculate_refresh_rounds m i d v h t fits = (
  rw (i, d) (ground (arith, to_int-small (rounded m) fits)),
  (rounds (line_rate m) m.vtotal t).0,
  (rounds (line_rate m) m.vtotal t).1,
)
