-- ===== src/Drm/Scan/Leases.antt =====
-- Which leases `scanLeases` (src/backend/drm/DRM.cpp) ends.
use aquamarine.Common.{
  ℕ, ◌≡◌, ◌+◌, refl, Bool, true, false, Option, none, some, List, [], ◌∷◌, ◌++◌, map, if◌then◌else◌,
  arith, All, count, count-snoc, append_assoc, append_nil, ◌∙◌, ap, Bool-cases, Option-cases, inl,
  inr,
}
use aquamarine.Drm.{Connector}
use aquamarine.Drm.Frames.{mem}
use aquamarine.Drm.Scan.{
  Kernel, lease_of, drop_lease, holds, reset_lease, scan_lease, scan_from, scan_leases,
}

-- The lease that an output has, if it has one, is the kernel's.
abbrev pub is_listed : List ℕ → Option ℕ → Bool
is_listed lessees none = true
is_listed lessees (some l) = mem l lessees

-- A connector whose output has lost its lease if the kernel does not list it, and nothing else
abbrev pub relisted : List ℕ → Connector → Connector
relisted lessees c = if is_listed lessees (lease_of c.output) then c else drop_lease c

-- How many outputs have a lease
abbrev pub holders : ℕ → List Connector → ℕ
holders x [] = 0
holders x (c ∷ cs) = (if holds x (lease_of c.output) then 1 else 0) + holders x cs

module _ (lessees : List ℕ) where
  abbrev IsListed : Connector → Type 0
  IsListed c = is_listed lessees (lease_of c.output) ≡ true

  holds-unlisted :
      (l : ℕ) (o : Option ℕ)
      → mem l lessees ≡ false
      → is_listed lessees o ≡ true
      → holds l o ≡ false
  holds-unlisted l none gone listed = refl
  holds-unlisted l (some k) gone listed = ground (arith, gone, listed)

  reset_lease-listed :
      (l : ℕ) (c : Connector) → mem l lessees ≡ false → IsListed c → reset_lease l c ≡ c
  reset_lease-listed l c gone listed = rw (holds-unlisted l (lease_of c.output) gone listed) refl

  map-reset_lease :
      (l : ℕ) (cs : List Connector)
      → mem l lessees ≡ false
      → All IsListed cs
      → map (reset_lease l) cs ≡ cs
  map-reset_lease l [] gone listed = refl
  map-reset_lease l (c ∷ cs) gone listed =
      rw (reset_lease-listed l c gone listed.0, map-reset_lease l cs gone listed.1) refl

  All-snoc :
      (cs : List Connector) (c : Connector)
      → All IsListed cs
      → IsListed c
      → All IsListed (cs ++ (c ∷ []))
  All-snoc [] c h k = (k, tt)
  All-snoc (d ∷ cs) c h k = (h.0, All-snoc cs c h.1 k)

  drop_lease-IsListed : (c : Connector) → IsListed (drop_lease c)
  drop_lease-IsListed c = elim (Option-cases c.output) [
    | inl bare ↦ rw bare refl
    | inr (o, there) ↦ rw there refl
  ]

  scan_lease_connectors :
      (o : Option ℕ) (c : Connector) (r : List Connector × List ℕ)
      → lease_of c.output ≡ o
      → All IsListed r.0
      → ((scan_lease lessees o c r).0 ≡ r.0 ++ (relisted lessees c ∷ []))
        × All IsListed (scan_lease lessees o c r).0
  scan_lease_connectors none c (before, destroyed) free h =
      (rw free refl, All-snoc before c h (rw free refl))
  scan_lease_connectors (some l) c (before, destroyed) held h = elim (Bool-cases (mem l lessees)) [
    | inl listed ↦ simp (held, listed) (refl, All-snoc before c h (rw (held, listed) refl))
    | inr gone ↦
        simp (held, gone, map-reset_lease l before gone h)
          (refl, All-snoc before (drop_lease c) h (drop_lease-IsListed c))
  ]

  -- The loop ends each lease that is not listed, at the output that has it.
  scan_from_connectors :
      (cs : List Connector) (r : List Connector × List ℕ)
      → All IsListed r.0
      → (scan_from lessees cs r).0 ≡ r.0 ++ map (relisted lessees) cs
  unfolding scan_from
  scan_from_connectors [] r h = rw (append_nil r.0) refl
  scan_from_connectors (c ∷ cs) r h =
      let (one, kept) = scan_lease_connectors (lease_of c.output) c r refl h in
      scan_from_connectors cs (scan_lease lessees (lease_of c.output) c r) kept
      ∙ ap (λ (before : List Connector). before ++ map (relisted lessees) cs) one
      ∙ append_assoc r.0 (relisted lessees c ∷ []) (map (relisted lessees) cs)

  -- How often a lease is destroyed from a connector on
  abbrev ends : ℕ → List Connector → ℕ
  ends x cs = if mem x lessees then 0 else holders x cs

  scan_lease_destroyed :
      (x : ℕ) (o : Option ℕ) (c : Connector) (r : List Connector × List ℕ)
      → count x (scan_lease lessees o c r).1
        ≡ count x r.1 + (if mem x lessees then 0 else if holds x o then 1 else 0)
  scan_lease_destroyed x none c (before, destroyed) = ground arith
  scan_lease_destroyed x (some l) c (before, destroyed) = ground (arith, count-snoc x l destroyed)

  scan_from_destroyed :
      (x : ℕ) (cs : List Connector) (r : List Connector × List ℕ)
      → count x (scan_from lessees cs r).1 ≡ count x r.1 + ends x cs
  unfolding scan_from
  scan_from_destroyed x [] r = ground arith
  scan_from_destroyed x (c ∷ cs) r = ground (
    arith,
    scan_from_destroyed x cs (scan_lease lessees (lease_of c.output) c r),
    scan_lease_destroyed x (lease_of c.output) c r,
  )

-- When the kernel lists its lessees, after `scanLeases` each output whose lease is not one of them
-- has lost it, and nothing else of the connectors has changed; a lease that is listed is not
-- destroyed, and any other is destroyed once for each output that had it.
pub scan_leases_lem :
    (k : Kernel) (cs : List Connector) (lessees : List ℕ) (x : ℕ)
    → k.lessees ≡ some lessees
    → ((scan_leases k cs).0 ≡ map (relisted lessees) cs)
      × (count x (scan_leases k cs).1 ≡ (if mem x lessees then 0 else holders x cs))
unfolding scan_leases
scan_leases_lem k cs lessees x listed = rw listed (
  scan_from_connectors lessees cs ([], []) tt,
  omega (arith, scan_from_destroyed lessees x cs ([], [])),
)
