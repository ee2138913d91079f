-- ===== src/Drm/Crtcs/Complete.antt =====
-- What `recheckCRTCs` (src/backend/drm/DRM.cpp) leaves undone: nothing that it could do, and the
-- side effects that it has.
use mathlib.Core.Option.{some-injective}
use aquamarine.Common.{
  ℕ, zero, suc, ◌+◌, ◌<◌, ◌≡◌, refl, subst, ◌⊎◌, Bool, true, false, not, ◌&&◌, ◌||◌, none, some,
  List, [], ◌∷◌, test_bit, is_some, arith, All, get_elem?, Bool-cases, Option-cases, inl, inr,
}
use aquamarine.Drm.{is_connected, Connector}
use aquamarine.Drm.Crtcs.{
  Entry, Pass, start, taken, usable, assign, slot, slots, connectors_of, recheck_crtcs,
}
use aquamarine.Drm.Crtcs.Exclusive.{
  drivers, IsFresh, start-IsFresh, slot-IsFresh, assign-drivers, taken-pos, pick_entries,
  slot-drivers, drivers_of,
}

-- A connector that wants a CRTC and could have that of slot `i`.
abbrev pub starves : ℕ → Connector → Bool
starves i c =
    is_connected c.status
    && not c.tiling_redundant
    && not (is_some c.crtc)
    && test_bit c.possible_crtcs i

abbrev pub starving : ℕ → List Connector → Bool
starving i [] = false
starving i (c ∷ cs) = starves i c || starving i cs

abbrev waiting : ℕ → List Entry → Bool
waiting i [] = false
waiting i (e ∷ es) = usable i e || waiting i es

-- A connector that wants a CRTC is still in `recheck`.
abbrev IsMarked : Entry → Type 0
IsMarked e =
    is_connected e.conn.status ≡ true
    → e.conn.tiling_redundant ≡ false
    → e.conn.crtc ≡ none
    → e.recheck ≡ true

start-IsMarked : (cs : List Connector) → All IsMarked (start cs).entries
unfolding start
start-IsMarked [] = tt
start-IsMarked (c ∷ cs) = ((λ h k l. ground arith), start-IsMarked cs)

assign-IsMarked : (i x : ℕ) (es : List Entry) → All IsMarked es → All IsMarked (assign i x es).0
unfolding assign
assign-IsMarked i x [] f = tt
assign-IsMarked i x (e ∷ es) f = elim (Bool-cases (usable i e)) [
  | inl hit ↦ rw hit ((λ h k l. absurd (ground arith)), f.1)
  | inr miss ↦ rw miss (f.0, assign-IsMarked i x es f.1)
]

starving-waiting :
    (i : ℕ) (es : List Entry)
    → All IsMarked es
    → waiting i es ≡ false
    → starving i (connectors_of es) ≡ false
starving-waiting i [] m h = refl
starving-waiting i (e ∷ es) m h = ground (arith, starving-waiting i es m.1, m.0)

assign-none : (i x : ℕ) (es : List Entry) → (assign i x es).1 ≡ none → waiting i es ≡ false
unfolding assign
assign-none i x [] h = refl
assign-none i x (e ∷ es) h = ground (arith, assign-none i x es)

assign-waiting :
    (i x j : ℕ) (es : List Entry) → waiting j es ≡ false → waiting j (assign i x es).0 ≡ false
unfolding assign
assign-waiting i x j [] h = refl
assign-waiting i x j (e ∷ es) h = ground (arith, assign-waiting i x j es)

-- The CRTC `x` of slot `j` has a user, or nobody left in `recheck` can use it.
abbrev IsSettled : ℕ → ℕ → Pass → Type 0
IsSettled j x p = (0 < drivers_of x p) ⊎ (waiting j p.entries ≡ false)

slot_settles : (i x : ℕ) (p : Pass) → All IsFresh p.entries → IsSettled i x (slot i x p)
unfolding slot drivers_of
slot_settles i x p f = elim (Bool-cases (taken x p.entries)) [
  | inl busy ↦ rw busy (inl (taken-pos x p.entries busy))
  | inr free ↦
      rw (free, pick_entries i x p)
        (elim (Option-cases (assign i x p.entries).1) [
          | inl miss ↦ inr (assign-waiting i x i p.entries (assign-none i x p.entries miss))
          | inr (c, hit) ↦ inl (ground (arith, assign-drivers i x x p.entries f))
        ])
]

slot-waiting :
    (i x j : ℕ) (p : Pass) → waiting j p.entries ≡ false → waiting j (slot i x p).entries ≡ false
unfolding slot
slot-waiting i x j p h = elim (Bool-cases (taken x p.entries)) [
  | inl busy ↦ rw busy h
  | inr free ↦ rw (free, pick_entries i x p) (assign-waiting i x j p.entries h)
]

slot-IsMarked : (i x : ℕ) (p : Pass) → All IsMarked p.entries → All IsMarked (slot i x p).entries
unfolding slot
slot-IsMarked i x p f = elim (Bool-cases (taken x p.entries)) [
  | inl busy ↦ rw busy f
  | inr free ↦ rw (free, pick_entries i x p) (assign-IsMarked i x p.entries f)
]

slot-IsSettled :
    (i x j y : ℕ) (p : Pass) → All IsFresh p.entries → IsSettled j y p → IsSettled j y (slot i x p)
slot-IsSettled i x j y p f (inl used) = inl (omega (arith, slot-drivers i x y p f))
slot-IsSettled i x j y p f (inr nobody) = inr (slot-waiting i x j p nobody)

slots-IsMarked :
    (i : ℕ) (xs : List ℕ) (p : Pass) → All IsMarked p.entries → All IsMarked (slots i xs p).entries
unfolding slots
slots-IsMarked i [] p m = m
slots-IsMarked i (x ∷ xs) p m = slots-IsMarked (i + 1) xs (slot i x p) (slot-IsMarked i x p m)

slots-IsSettled :
    (i j y : ℕ) (xs : List ℕ) (p : Pass)
    → All IsFresh p.entries
    → IsSettled j y p
    → IsSettled j y (slots i xs p)
unfolding slots
slots-IsSettled i j y [] p f s = s
slots-IsSettled i j y (x ∷ xs) p f s =
    slots-IsSettled (i + 1) j y xs (slot i x p) (slot-IsFresh i x p f)
      (slot-IsSettled i x j y p f s)

slots_settle :
    (i k y : ℕ) (xs : List ℕ) (p : Pass)
    → All IsFresh p.entries
    → get_elem? xs k ≡ some y
    → IsSettled (i + k) y (slots i xs p)
unfolding slots
slots_settle i k y [] p f at = absurd (ground arith)
slots_settle i zero y (x ∷ xs) p f at =
    slots-IsSettled (i + 1) (i + 0) y xs (slot i x p) (slot-IsFresh i x p f) (
      subst (λ z. IsSettled (i + 0) z (slot i x p)) (some-injective x y at)
        (subst (λ j. IsSettled j x (slot i x p)) (omega arith) (slot_settles i x p f)))
slots_settle i (suc k) y (x ∷ xs) p f at =
    subst (λ j. IsSettled j y (slots (i + 1) xs (slot i x p))) (omega arith)
      (slots_settle (i + 1) k y xs (slot i x p) (slot-IsFresh i x p f) at)

settled_connectors :
    (i x : ℕ) (p : Pass)
    → All IsMarked p.entries
    → IsSettled i x p
    → (0 < drivers x (connectors_of p.entries)) ⊎ (starving i (connectors_of p.entries) ≡ false)
unfolding drivers_of
settled_connectors i x p m (inl used) = inl used
settled_connectors i x p m (inr nobody) = inr (starving-waiting i p.entries m nobody)

-- After `recheckCRTCs` the CRTC of each slot is in use, or no connector that is connected, not
-- tiling-redundant and without a CRTC could use it: no pair that fits is left unmatched.
pub recheck_complete :
    (cs : List Connector) (crtcs : List ℕ) (i x : ℕ)
    → get_elem? crtcs i ≡ some x
    → (0 < drivers x (recheck_crtcs cs crtcs).connectors)
      ⊎ (starving i (recheck_crtcs cs crtcs).connectors ≡ false)
unfolding recheck_crtcs
recheck_complete [] crtcs i x at = inr refl
recheck_complete (c ∷ cs) [] i x at = absurd (ground arith)
recheck_complete (c ∷ cs) (y ∷ ys) i x at =
    settled_connectors i x (slots 0 (y ∷ ys) (start (c ∷ cs)))
      (slots-IsMarked 0 (y ∷ ys) (start (c ∷ cs)) (start-IsMarked (c ∷ cs)))
      (subst (λ j. IsSettled j x (slots 0 (y ∷ ys) (start (c ∷ cs)))) (omega arith)
        (slots_settle 0 i x (y ∷ ys) (start (c ∷ cs)) (start-IsFresh (c ∷ cs)) at))
