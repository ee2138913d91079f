-- ===== src/Drm/Crtcs/Exclusive.antt =====
-- How many connectors use a CRTC before and after `recheckCRTCs` (src/backend/drm/DRM.cpp).
use aquamarine.Common.{
  ℕ, suc, ◌+◌, ◌≤◌, ◌<◌, ◌≡◌, refl, true, false, ◌&&◌, none, some, List, [], ◌∷◌, ◌==◌,
  if◌then◌else◌, is_some, arith, All, Bool-cases, inl, inr,
}
use aquamarine.Drm.{connected, disconnected, is_connected, Connector}
use aquamarine.Drm.Crtcs.{
  Entry, Pass, start, uses, taken, usable, assign, record_pick, slot, slots, connectors_of,
  recheck_crtcs,
}

-- The number of connectors, connected and not tiling-redundant, that have the CRTC `x`.
abbrev pub drivers : ℕ → List Connector → ℕ
drivers x [] = 0
drivers x (c ∷ cs) = if uses x c then suc (drivers x cs) else drivers x cs

pub taken-drivers :
    (x : ℕ) (es : List Entry) → taken x es ≡ false → drivers x (connectors_of es) ≡ 0
unfolding taken
taken-drivers x [] h = refl
taken-drivers x (e ∷ es) h = ground (arith, taken-drivers x es)

pub taken-pos : (x : ℕ) (es : List Entry) → taken x es ≡ true → 0 < drivers x (connectors_of es)
unfolding taken
taken-pos x [] h = absurd (ground arith)
taken-pos x (e ∷ es) h = ground (arith, taken-pos x es)

-- A connected connector in `recheck` has no CRTC, and is not redundant.
abbrev pub IsFresh : Entry → Type 0
IsFresh e =
    e.recheck ≡ true
    → is_connected e.conn.status ≡ true
    → (e.conn.crtc ≡ none) × (e.conn.tiling_redundant ≡ false)

pub start-IsFresh : (cs : List Connector) → All IsFresh (start cs).entries
unfolding start
start-IsFresh [] = tt
start-IsFresh (c ∷ cs) = ((λ h k. ground arith), start-IsFresh cs)

pub assign-IsFresh : (i x : ℕ) (es : List Entry) → All IsFresh es → All IsFresh (assign i x es).0
unfolding assign
assign-IsFresh i x [] f = tt
assign-IsFresh i x (e ∷ es) f = elim (Bool-cases (usable i e)) [
  | inl hit ↦ rw hit ((λ h k. absurd (ground arith)), f.1)
  | inr miss ↦ rw miss (f.0, assign-IsFresh i x es f.1)
]

-- The pick adds one user to its CRTC, and changes nothing for the others.
pub assign-drivers :
    (i x y : ℕ) (es : List Entry)
    → All IsFresh es
    → drivers y (connectors_of (assign i x es).0)
      ≡ drivers y (connectors_of es) + (if is_some (assign i x es).1 && y == x then 1 else 0)
unfolding assign
assign-drivers i x y [] f = refl
assign-drivers i x y (e ∷ es) f = ground (arith, assign-drivers i x y es f.1, f.0)

pub pick_entries :
    (i x : ℕ) (p : Pass)
    → (record_pick x p (assign i x p.entries)).entries ≡ (assign i x p.entries).0
pick_entries i x p = ground arith

unfoldable pub drivers_of : ℕ → Pass → ℕ
drivers_of y p = drivers y (connectors_of p.entries)

pub slot-IsFresh : (i x : ℕ) (p : Pass) → All IsFresh p.entries → All IsFresh (slot i x p).entries
unfolding slot
slot-IsFresh i x p f = elim (Bool-cases (taken x p.entries)) [
  | inl busy ↦ rw busy f
  | inr free ↦ rw free (rw (pick_entries i x p) (assign-IsFresh i x p.entries f))
]

-- A CRTC that is in use is left alone; one that is free gets at most one user.
pub slot-drivers :
    (i x y : ℕ) (p : Pass)
    → All IsFresh p.entries
    → (drivers_of y p ≤ drivers_of y (slot i x p))
      × (drivers_of y (slot i x p) ≤ drivers_of y p + 1)
      × (0 < drivers_of y p → drivers_of y (slot i x p) ≡ drivers_of y p)
unfolding slot drivers_of
slot-drivers i x y p f = elim (Bool-cases (taken x p.entries)) [
  | inl busy ↦ rw busy (omega arith)
  | inr free ↦
      rw (free, pick_entries i x p)
        (ground (arith, assign-drivers i x y p.entries f, taken-drivers x p.entries free))
]

slots-drivers :
    (i y : ℕ) (xs : List ℕ) (p : Pass)
    → All IsFresh p.entries
    → (drivers_of y p ≤ drivers_of y (slots i xs p))
      × (drivers_of y p ≤ 1 → drivers_of y (slots i xs p) ≤ 1)
      × (0 < drivers_of y p → drivers_of y (slots i xs p) ≡ drivers_of y p)
unfolding slots
slots-drivers i y [] p f = omega arith
slots-drivers i y (x ∷ xs) p f =
    ground (
      arith,
      slot-drivers i x y p f,
      slots-drivers (i + 1) y xs (slot i x p) (slot-IsFresh i x p f),
    )

drivers-start : (y : ℕ) (cs : List Connector) → drivers_of y (start cs) ≡ drivers y cs
unfolding start drivers_of
drivers-start y [] = refl
drivers-start y (c ∷ cs) = ground (arith, drivers-start y cs)

recheck-drivers :
    (y : ℕ) (cs : List Connector) (crtcs : List ℕ)
    → (drivers y cs ≤ drivers y (recheck_crtcs cs crtcs).connectors)
      × (drivers y cs ≤ 1 → drivers y (recheck_crtcs cs crtcs).connectors ≤ 1)
      × (0 < drivers y cs → drivers y (recheck_crtcs cs crtcs).connectors ≡ drivers y cs)
unfolding recheck_crtcs drivers_of
recheck-drivers y [] crtcs = omega arith
recheck-drivers y (c ∷ cs) [] = ((omega arith), (λ h. h), (λ h. refl))
recheck-drivers y (c ∷ cs) (x ∷ xs) =
    rw (← drivers-start y (c ∷ cs))
      (slots-drivers 0 y (x ∷ xs) (start (c ∷ cs)) (start-IsFresh (c ∷ cs)))

-- A CRTC that is used by at most one connector, of those that are connected and not
-- tiling-redundant, is used by at most one after `recheckCRTCs`, and by no fewer than before.
pub recheck_exclusive :
    (cs : List Connector) (crtcs : List ℕ) (y : ℕ)
    → drivers y cs ≤ 1
    → (drivers y cs ≤ drivers y (recheck_crtcs cs crtcs).connectors)
      × (drivers y (recheck_crtcs cs crtcs).connectors ≤ 1)
recheck_exclusive cs crtcs y one =
    let (more, kept, _) = recheck-drivers y cs crtcs in (more, kept one)

-- The connector, plugged in again.
abbrev pub plugged : Connector → Connector
plugged c = record c { status = connected }

-- When a connector that is disconnected, not tiling-redundant and still has a CRTC that another
-- connector uses is plugged in again, both use that CRTC after `recheckCRTCs`.
pub stale_crtc_is_shared :
    (c : Connector) (cs : List Connector) (crtcs : List ℕ) (x : ℕ)
    → c.status ≡ disconnected
    → c.tiling_redundant ≡ false
    → c.crtc ≡ some x
    → 0 < drivers x cs
    → 2 ≤ drivers x (recheck_crtcs (plugged c ∷ cs) crtcs).connectors
stale_crtc_is_shared c cs crtcs x gone plain has used =
    ground (arith, recheck-drivers x (plugged c ∷ cs) crtcs)
