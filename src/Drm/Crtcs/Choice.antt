-- ===== src/Drm/Crtcs/Choice.antt =====
-- Which connectors `recheckCRTCs` (src/backend/drm/DRM.cpp) changes, and which it leaves waiting.
use aquamarine.Common.{
  ℕ, suc, ◌+◌, ◌≡◌, refl, ap, subst, ◌∙◌, true, false, none, some, List, [], ◌∷◌, test_bit, arith,
  All, get_elem?, Bool-cases, inl, inr,
}
use aquamarine.Drm.{is_connected, Connector}
use aquamarine.Drm.Crtcs.{
  Entry, Pass, start, taken, usable, assigned, assign, slot, slots, connectors_of, recheck_crtcs,
}
use aquamarine.Drm.Crtcs.Exclusive.{IsFresh, start-IsFresh, slot-IsFresh, pick_entries}

-- What may happen to a connector: nothing, or it is given the CRTC of a slot that it can use.
pub data Change (crtcs : List ℕ) (c c' : Connector) : Type 0 where
  kept : c' ≡ c → Change crtcs c c'
  given :
      (i x : ℕ)
      → get_elem? crtcs i ≡ some x
      → test_bit c.possible_crtcs i ≡ true
      → is_connected c.status ≡ true
      → c.tiling_redundant ≡ false
      → c.crtc ≡ none
      → c' ≡ assigned x c
      → Change crtcs c c'

-- Two lists of connectors, place by place.
abbrev pub Changes : List ℕ → List Connector → List Connector → Type 0
Changes crtcs [] [] = Unit
Changes crtcs [] (c' ∷ cs') = ⊥
Changes crtcs (c ∷ cs) [] = ⊥
Changes crtcs (c ∷ cs) (c' ∷ cs') = Change crtcs c c' × Changes crtcs cs cs'

-- The entries of a pass against the connectors at its beginning: an entry still in `recheck` is
-- as it was, and any other has changed at most once.
abbrev Passed : List ℕ → List Connector → List Entry → Type 0
Passed crtcs [] [] = Unit
Passed crtcs [] (e ∷ es) = ⊥
Passed crtcs (c ∷ cs) [] = ⊥
Passed crtcs (c ∷ cs) (e ∷ es) =
    ((e.recheck ≡ true → e.conn ≡ c) × Change crtcs c e.conn) × Passed crtcs cs es

new-Change :
    (crtcs : List ℕ) (i x : ℕ) {c : Connector} (e : Entry)
    → get_elem? crtcs i ≡ some x
    → usable i e ≡ true
    → e.conn ≡ c
    → (e.conn.crtc ≡ none) × (e.conn.tiling_redundant ≡ false)
    → Change crtcs c (assigned x e.conn)
new-Change crtcs i x e at hit same fresh =
    subst (λ d. Change crtcs d (assigned x e.conn)) same
      (given i x at (ground arith) (ground arith) fresh.1 fresh.0 refl)

assign-Passed :
    (crtcs : List ℕ) (i x : ℕ) (cs : List Connector) (es : List Entry)
    → get_elem? crtcs i ≡ some x
    → All IsFresh es
    → Passed crtcs cs es
    → Passed crtcs cs (assign i x es).0
unfolding assign
assign-Passed crtcs i x [] [] at f p = tt
assign-Passed crtcs i x [] (e ∷ es) at f p = elim p [ ]
assign-Passed crtcs i x (c ∷ cs) [] at f p = elim p [ ]
assign-Passed crtcs i x (c ∷ cs) (e ∷ es) at f p = elim (Bool-cases (usable i e)) [
  | inl hit ↦ rw hit (
    (
      (λ h. absurd (ground arith)),
      new-Change crtcs i x e at hit (p.0.0 (ground arith)) (f.0 (ground arith) (ground arith)),
    ),
    p.1,
  )
  | inr miss ↦ rw miss (p.0, assign-Passed crtcs i x cs es at f.1 p.1)
]

slot-Passed :
    (crtcs : List ℕ) (i x : ℕ) (cs : List Connector) (p : Pass)
    → get_elem? crtcs i ≡ some x
    → All IsFresh p.entries
    → Passed crtcs cs p.entries
    → Passed crtcs cs (slot i x p).entries
unfolding slot
slot-Passed crtcs i x cs p at f h = elim (Bool-cases (taken x p.entries)) [
  | inl busy ↦ rw busy h
  | inr free ↦ rw (free, pick_entries i x p) (assign-Passed crtcs i x cs p.entries at f h)
]

-- The rest of a list, from place `i` on.
abbrev StandsAt : ℕ → List ℕ → List ℕ → Type 0
StandsAt i xs crtcs = (k : ℕ) → get_elem? crtcs (i + k) ≡ get_elem? xs k

StandsAt-head :
    (i x : ℕ) (xs crtcs : List ℕ) → StandsAt i (x ∷ xs) crtcs → get_elem? crtcs i ≡ some x
StandsAt-head i x xs crtcs s = ap (get_elem? crtcs) (omega arith) ∙ s 0

StandsAt-tail :
    (i x : ℕ) (xs crtcs : List ℕ) → StandsAt i (x ∷ xs) crtcs → StandsAt (i + 1) xs crtcs
StandsAt-tail i x xs crtcs s k = ap (get_elem? crtcs) (omega arith) ∙ s (suc k)

slots-Passed :
    (crtcs : List ℕ) (i : ℕ) (xs : List ℕ) (cs : List Connector) (p : Pass)
    → StandsAt i xs crtcs
    → All IsFresh p.entries
    → Passed crtcs cs p.entries
    → Passed crtcs cs (slots i xs p).entries
unfolding slots
slots-Passed crtcs i [] cs p s f h = h
slots-Passed crtcs i (x ∷ xs) cs p s f h =
    slots-Passed crtcs (i + 1) xs cs (slot i x p) (StandsAt-tail i x xs crtcs s)
      (slot-IsFresh i x p f) (slot-Passed crtcs i x cs p (StandsAt-head i x xs crtcs s) f h)

start-Passed : (crtcs : List ℕ) (cs : List Connector) → Passed crtcs cs (start cs).entries
unfolding start
start-Passed crtcs [] = tt
start-Passed crtcs (c ∷ cs) = (((λ h. refl), kept refl), start-Passed crtcs cs)

Passed-Changes :
    (crtcs : List ℕ) (cs : List Connector) (es : List Entry)
    → Passed crtcs cs es
    → Changes crtcs cs (connectors_of es)
Passed-Changes crtcs [] [] p = tt
Passed-Changes crtcs [] (e ∷ es) p = p
Passed-Changes crtcs (c ∷ cs) [] p = p
Passed-Changes crtcs (c ∷ cs) (e ∷ es) p = (p.0.1, Passed-Changes crtcs cs es p.1)

Changes-refl : (crtcs : List ℕ) (cs : List Connector) → Changes crtcs cs cs
Changes-refl crtcs [] = tt
Changes-refl crtcs (c ∷ cs) = (kept refl, Changes-refl crtcs cs)

-- `recheckCRTCs` keeps the connectors in place and leaves each as it was, unless it gives it a
-- CRTC: one of a slot whose bit the connector's mask has, to a connector that is connected, is not
-- tiling-redundant and had none.
pub recheck-Changes :
    (cs : List Connector) (crtcs : List ℕ) → Changes crtcs cs (recheck_crtcs cs crtcs).connectors
unfolding recheck_crtcs
recheck-Changes [] crtcs = tt
recheck-Changes (c ∷ cs) [] = Changes-refl [] (c ∷ cs)
recheck-Changes (c ∷ cs) (x ∷ xs) =
    Passed-Changes (x ∷ xs) (c ∷ cs) (slots 0 (x ∷ xs) (start (c ∷ cs))).entries (
      slots-Passed (x ∷ xs) 0 (x ∷ xs) (c ∷ cs) (start (c ∷ cs))
        (λ k. ap (get_elem? (x ∷ xs)) (omega arith)) (start-IsFresh (c ∷ cs))
        (start-Passed (x ∷ xs) (c ∷ cs)))
