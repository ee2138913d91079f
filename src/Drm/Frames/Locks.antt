-- ===== src/Drm/Frames/Locks.antt =====
-- Which buffers are locked and released when a connector flips or lets its framebuffers go
-- (onPresent, applyCommit and releaseFBReferences of src/backend/drm/DRM.cpp).
use aquamarine.Common.{
  ℕ, ◌+◌, ◌≡◌, ◌≢◌, refl, ap, subst, ◌∙◌, ◌<◌, Bool, true, false, not, ◌&&◌, ◌||◌, Option, none,
  some, List, [], ◌∷◌, ◌==◌, if◌then◌else◌, is_some, arith, count, count-snoc,
}
use aquamarine.Drm.Frames.{
  Plane, Crtc, Buffers, Scanout, CommitData, mem, buffer_of, lock, release, release_fb,
  release_plane, release_cursor, release_crtc, release_fb_references, bare_crtc, apply_commit,
  on_present, cursor_front, cursor_buffer, committed_crtc, turned_cursor,
}

abbrev names : ℕ → Option ℕ → Bool
names b none = false
names b (some x) = b == x

-- A list of framebuffers' buffers, let go in order.
abbrev release_all : List (Option ℕ) → List ℕ × Buffers → List ℕ × Buffers
release_all [] st = st
release_all (r ∷ rs) st = release_all rs (release_fb r st)

abbrev pub holds : ℕ → List (Option ℕ) → Bool
holds b [] = false
holds b (r ∷ rs) = names b r || holds b rs

-- What was seen is unlocked.
abbrev Seen : ℕ → List ℕ × Buffers → Type 0
Seen b st = mem b st.0 ≡ true → st.1.locked b ≡ false

release_fb_lem :
    (b : ℕ) (r : Option ℕ) (st : List ℕ × Buffers)
    → Seen b st
    → Seen b (release_fb r st)
      × ((release_fb r st).1.locked b ≡ (st.1.locked b && not (names b r)))
      × (count b (release_fb r st).1.released
          ≡ count b st.1.released + (if st.1.locked b && names b r then 1 else 0))
release_fb_lem b none (seen, s) h = ground arith
release_fb_lem b (some x) (seen, s) h = ground (arith, count-snoc b x s.released)

release_all_lem :
    (b : ℕ) (rs : List (Option ℕ)) (st : List ℕ × Buffers)
    → Seen b st
    → ((release_all rs st).1.locked b ≡ (st.1.locked b && not (holds b rs)))
      × (count b (release_all rs st).1.released
          ≡ count b st.1.released + (if st.1.locked b && holds b rs then 1 else 0))
release_all_lem b [] st h = ground arith
release_all_lem b (r ∷ rs) st h =
    ground (arith, release_fb_lem b r st h, release_all_lem b rs (release_fb r st))

abbrev plane_refs : Plane → List (Option ℕ) → List (Option ℕ)
plane_refs p rest = buffer_of p.front ∷ buffer_of p.back ∷ buffer_of p.last ∷ rest

abbrev cursor_refs : Option Plane → List (Option ℕ) → List (Option ℕ)
cursor_refs none rest = rest
cursor_refs (some p) rest = plane_refs p rest

abbrev crtc_refs : Option Crtc → List (Option ℕ) → List (Option ℕ)
crtc_refs none rest = rest
crtc_refs (some c) rest =
    plane_refs c.primary (cursor_refs c.cursor (buffer_of c.pending_cursor ∷ rest))

-- The buffers that a connector refers to.
abbrev pub refs : Scanout → List (Option ℕ)
refs k = crtc_refs k.crtc (buffer_of k.pending_cursor_fb ∷ [])

cursor_releases :
    (cursor : Option Plane) (rest : List (Option ℕ)) (st : List ℕ × Buffers)
    → release_all (cursor_refs cursor rest) st ≡ release_all rest (release_cursor cursor st)
cursor_releases none rest st = refl
cursor_releases (some p) rest st = refl

crtc_releases :
    (crtc : Option Crtc) (rest : List (Option ℕ)) (st : List ℕ × Buffers)
    → release_all (crtc_refs crtc rest) st ≡ release_all rest (release_crtc crtc st)
crtc_releases none rest st = refl
crtc_releases (some c) rest st =
    cursor_releases c.cursor (buffer_of c.pending_cursor ∷ rest) (release_plane c.primary st)

-- After `releaseFBReferences` the connector refers to no framebuffer. A buffer that it referred to
-- is unlocked, any other is as it was; and each one that was locked is released exactly once,
-- however often it was referred to, while no other buffer is.
pub release_fb_references_lem :
    (k : Scanout) (s : Buffers) (b : ℕ)
    → let (k', s') = release_fb_references k s in
      (k'.crtc ≡ bare_crtc k.crtc)
      × (k'.pending_cursor_fb ≡ none)
      × (s'.locked b ≡ (s.locked b && not (holds b (refs k))))
      × (count b s'.released
          ≡ count b s.released + (if s.locked b && holds b (refs k) then 1 else 0))
unfolding release_fb_references
release_fb_references_lem k s b =
    let all = release_all_lem b (refs k) ([], s) (λ h. absurd (ground arith)) in
    let same = crtc_releases k.crtc (buffer_of k.pending_cursor_fb ∷ []) ([], s) in
    (
      refl,
      refl,
      subst (λ (st : List ℕ × Buffers). st.1.locked b ≡ (s.locked b && not (holds b (refs k)))) same
          all.0,
      subst
          (λ (st : List ℕ × Buffers).
            count b st.1.released
            ≡ count b s.released + (if s.locked b && holds b (refs k) then 1 else 0))
          same all.1,
    )

release_lem :
    (b : ℕ) (r : Option ℕ) (s : Buffers)
    → ((release r s).locked b ≡ (s.locked b && not (names b r)))
      × (count b (release r s).released ≡ count b s.released + (if names b r then 1 else 0))
release_lem b none s = ground arith
release_lem b (some x) s = ground (arith, count-snoc b x s.released)

-- A page flip shows the framebuffer that was committed last. Its buffer stays locked, if it is
-- neither that of the framebuffer shown before nor that of the cursor shown before.
pub present_keeps_lock :
    (c : Crtc) (s : Buffers) (b : ℕ)
    → buffer_of c.primary.back ≡ some b
    → s.locked b ≡ true
    → buffer_of c.primary.front ≢ some b
    → buffer_of (cursor_front c.cursor) ≢ some b
    → let (c', s') = on_present c s in (buffer_of c'.primary.front ≡ some b) × (s'.locked b ≡ true)
unfolding on_present
present_keeps_lock c s b shown held old cursor = ground arith

-- A page flip unlocks the buffer that was shown before and sends its release: one event for it,
-- and one for that of the cursor; no other buffer is touched.
pub present_releases :
    (c : Crtc) (s : Buffers) (b : ℕ)
    → let gone = buffer_of c.primary.front ∷ buffer_of (cursor_front c.cursor) ∷ [] in
      ((on_present c s).1.locked b ≡ (s.locked b && not (holds b gone)))
      × (count b (on_present c s).1.released
          ≡ count b s.released
            + (if names b (buffer_of c.primary.front) then 1 else 0)
            + (if names b (buffer_of (cursor_front c.cursor)) then 1 else 0))
unfolding on_present
present_releases c s b = ground (
  arith,
  release_lem b (buffer_of c.primary.front) s,
  release_lem b (buffer_of (cursor_front c.cursor)) (release (buffer_of c.primary.front) s),
)

front-on_present : (c : Crtc) (s : Buffers) → (on_present c s).0.primary.front ≡ c.primary.back
unfolding on_present
front-on_present c s = refl

cursor-on_present : (c : Crtc) (s : Buffers) → (on_present c s).0.cursor ≡ turned_cursor c.cursor
unfolding on_present
cursor-on_present c s = refl

-- When the framebuffer that is committed on an enabled output has the buffer of the one in front,
-- the page flip after it unlocks and releases that buffer, and it is still shown.
pub present_releases_shown :
    (d : CommitData) (mode_committed : Bool) (k : Scanout) (c : Crtc) (s : Buffers) (b : ℕ)
    → buffer_of d.main_fb ≡ some b
    → buffer_of c.primary.front ≡ some b
    → let (k', s') = apply_commit d mode_committed true k c s in
      (c' : Crtc) × (k'.crtc ≡ some c')
      × (buffer_of (on_present c' s').0.primary.front ≡ some b)
      × ((on_present c' s').1.locked b ≡ false)
      × (0 < count b (on_present c' s').1.released)
unfolding apply_commit
present_releases_shown d mode_committed k c s b again shown =
    let s' = lock (cursor_buffer c.cursor d.cursor_fb) (lock (buffer_of d.main_fb) s) in
    let gone = present_releases (committed_crtc d c) s' b in
    (
      committed_crtc d c,
      refl,
      ap buffer_of (front-on_present (committed_crtc d c) s') ∙ again,
      ground (arith, gone),
      ground (arith, gone),
    )

-- When the cursor's framebuffer that is committed on an enabled output is the one in front, the
-- page flip after it unlocks and releases its buffer, and the cursor plane goes on showing it.
pub present_releases_cursor :
    (d : CommitData) (mode_committed : Bool) (k : Scanout) (c : Crtc) (p : Plane) (s : Buffers)
    (b : ℕ)
    → c.cursor ≡ some p
    → is_some d.cursor_fb ≡ true
    → d.cursor_fb ≡ p.front
    → buffer_of p.front ≡ some b
    → let (k', s') = apply_commit d mode_committed true k c s in
      (c' : Crtc) × (k'.crtc ≡ some c')
      × (buffer_of (cursor_front (on_present c' s').0.cursor) ≡ some b)
      × ((on_present c' s').1.locked b ≡ false)
      × (0 < count b (on_present c' s').1.released)
unfolding apply_commit
present_releases_cursor d mode_committed k c p s b has given same shown =
    let s' = lock (cursor_buffer c.cursor d.cursor_fb) (lock (buffer_of d.main_fb) s) in
    let gone = present_releases (committed_crtc d c) s' b in
    (
      committed_crtc d c,
      refl,
      ap (λ q. buffer_of (cursor_front q)) (cursor-on_present (committed_crtc d c) s')
          ∙ ground (arith),
      ground (arith, gone),
      ground (arith, gone),
    )
