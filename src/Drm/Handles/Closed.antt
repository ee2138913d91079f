-- ===== src/Drm/Handles/Closed.antt =====
-- Which handles are closed and which framebuffers are (CDRMFB of src/backend/drm/DRM.cpp).
use aquamarine.Common.{
  ℕ, ◌+◌, ◌≡◌, ◌≢◌, refl, Bool, true, false, not, ◌&&◌, ◌||◌, List, [], ◌∷◌, ◌++◌, ◌==◌,
  if◌then◌else◌, arith, count, count-snoc, Bool-cases, inl, inr,
}
use aquamarine.Drm.Frames.{mem}
use aquamarine.Drm.Handles.{
  Fb, Kernel, Store, fine, close_fb, close_all, close_handles, drop, no_handles, set_open,
}

-- A handle that `closeHandles` has to close.
abbrev pub closes : ℕ → List ℕ → List ℕ → Bool
closes h seen hs = not (h == 0) && (not (mem h seen) && mem h hs)

close_all_lem :
    (x : ℕ) (seen hs : List ℕ) (s : Store)
    → ((close_all seen hs s).opened x ≡ (s.opened x && not (closes x seen hs)))
      × (count x (close_all seen hs s).closed
          ≡ count x s.closed + (if closes x seen hs then 1 else 0))
unfolding close_all
close_all_lem x seen [] s = ground arith
close_all_lem x seen (h ∷ hs) s = elim (Bool-cases (h == 0 || mem h seen)) [
  | inl skipped ↦ simp skipped (ground (arith, close_all_lem x (h ∷ seen) hs s))
  | inr hit ↦
      let s' = record s { opened = set_open h false s.opened; closed = s.closed ++ (h ∷ []) } in
      simp hit (ground (arith, close_all_lem x (h ∷ seen) hs s', count-snoc x h s.closed))
]

-- `closeHandles` on a framebuffer whose handles were not closed: each number other than 0 among
-- them is closed, with one call however many planes share it; every other handle is as it was, and
-- the array is zeroed.
pub close_handles_lem :
    (fb : Fb) (s : Store) (x : ℕ)
    → fb.handles_closed ≡ false
    → let (fb', s') = close_handles fb s in
      (fb'.handles ≡ no_handles)
      × (s'.opened x ≡ (s.opened x && not (closes x [] fb.handles)))
      × (count x s'.closed ≡ count x s.closed + (if closes x [] fb.handles then 1 else 0))
unfolding close_handles
close_handles_lem fb s x not_yet = ground (arith, close_all_lem x [] fb.handles s)

close_handles_flags :
    (fb : Fb) (s : Store)
    → ((close_handles fb s).0.handles_closed ≡ true)
      × ((close_handles fb s).0.dropped ≡ fb.dropped)
      × ((close_handles fb s).0.id ≡ fb.id)
unfolding close_handles
close_handles_flags fb s = ground arith

close_all_calls : (seen hs : List ℕ) (s : Store) → (close_all seen hs s).fb_calls ≡ s.fb_calls
unfolding close_all
close_all_calls seen [] s = refl
close_all_calls seen (h ∷ hs) s = elim (Bool-cases (h == 0 || mem h seen)) [
  | inl skipped ↦ simp skipped (close_all_calls (h ∷ seen) hs s)
  | inr hit ↦ simp hit (
      close_all_calls (h ∷ seen) hs
        (record s { opened = set_open h false s.opened; closed = s.closed ++ (h ∷ []) }))
]

close_handles_calls : (fb : Fb) (s : Store) → (close_handles fb s).1.fb_calls ≡ s.fb_calls
unfolding close_handles
close_handles_calls fb s = ground (arith, close_all_calls [] fb.handles s)

module _ (k : Kernel) where
  drop-dropped : (fb : Fb) (s : Store) → (drop k fb s).0.dropped ≡ true
  unfolding drop
  drop-dropped fb s = ground (arith, close_handles_flags (record fb { dropped = true }) s)

  pub dropped_already : (fb : Fb) (s : Store) → fb.dropped ≡ true → drop k fb s ≡ (fb, s)
  unfolding drop
  dropped_already fb s gone = rw gone refl

  -- A second `drop` does nothing: it closes no handle and no framebuffer, and changes no field.
  pub drop_twice : (fb : Fb) (s : Store) → drop k (drop k fb s).0 (drop k fb s).1 ≡ drop k fb s
  drop_twice fb s = dropped_already (drop k fb s).0 (drop k fb s).1 (drop-dropped fb s)

  pub drop-id : (fb : Fb) (s : Store) → (drop k fb s).0.id ≡ fb.id
  unfolding drop
  drop-id fb s = ground (arith, close_handles_flags (record fb { dropped = true }) s)

  pub drop_calls :
      (fb : Fb) (s : Store)
      → fb.dropped ≡ false
      → fb.id ≢ 0
      → k.close_result fb.id ≡ fine
      → (drop k fb s).1.fb_calls ≡ s.fb_calls ++ (close_fb fb.id ∷ [])
  unfolding drop
  drop_calls fb s held real fine_close =
      ground (arith, close_handles_calls (record fb { dropped = true }) s)
