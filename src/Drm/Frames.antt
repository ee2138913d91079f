-- ===== src/Drm/Frames.antt =====
-- The framebuffers of a connector's planes, in src/backend/drm/DRM.cpp: SDRMConnector's applyCommit,
-- rollbackCommit, onPresent and releaseFBReferences, and calculateRefresh.
-- Buffers are shared, so `lockedByBackend` is a store over their numbers, and the backendRelease
-- events are a list, oldest first. A CRTC has its primary plane, which the source reads unasked.
-- What `updateSecondaryRendererState` does for a GPU that is not the primary one is left out.
pub mod Kept
pub mod Locks
pub mod Refresh
mod Tests
use aquamarine.Common.{
  ℕ, zero, suc, ◌+◌, ◌*◌, ◌/◌, Bool, true, false, not, ◌&&◌, ◌||◌, Option, none, some, List, [],
  ◌∷◌, ◌++◌, ◌==◌, ltb, leb, if◌then◌else◌, is_some, ◌^◌,
}
use aquamarine.Common.Int.{ℤ, pos, negsuc, to_int}

-- `CDRMFB`: its id, and its buffer, none once that is gone (a weak pointer).
pub record Fb : Type 0 where
  pub id : ℕ
  pub buffer : Option ℕ

pub record Plane : Type 0 where
  pub front : Option Fb
  pub back : Option Fb
  pub last : Option Fb

pub record Crtc : Type 0 where
  pub primary : Plane
  pub cursor : Option Plane
  pub pending_cursor : Option Fb

-- The buffers of the program: which are locked, and which were released.
pub record Buffers : Type 0 where
  pub locked : ℕ → Bool
  pub released : List ℕ

-- The connector, as far as its framebuffers go. `refresh` is in mHz, none where `calculateRefresh`
-- has no result.
pub record Scanout : Type 0 where
  pub crtc : Option Crtc
  pub pending_cursor_fb : Option Fb
  pub refresh : Option ℤ
  pub enabled_state : Bool

-- The fields of `drmModeModeInfo` that `calculateRefresh` reads.
pub record ModeInfo : Type 0 where
  pub clock : ℕ
  pub htotal : ℕ
  pub vtotal : ℕ
  pub vscan : ℕ
  pub interlace : Bool
  pub dblscan : Bool

-- `*= 2`; none where it overflows, for which the language has no result.
abbrev pub doubled : ℤ → Option ℤ
doubled (pos n) = if ltb (2 * n) (2 ^ 31) then some (pos (2 * n)) else none
doubled (negsuc n) = if leb (2 * suc n) (2 ^ 31) then some (negsuc (2 * n + 1)) else none

abbrev pub negated : ℕ → ℤ
negated zero = pos 0
negated (suc n) = negsuc n

-- `/= d`, which rounds to 0
abbrev pub divided : ℕ → ℤ → ℤ
divided d (pos n) = pos (n / d)
divided d (negsuc n) = negated (suc n / d)

abbrev pub scanned : ModeInfo → Option ℤ → Option ℤ
scanned m none = none
scanned m (some r) =
    let halved = if m.dblscan then divided 2 r else r in
    some (if ltb 1 m.vscan then divided m.vscan halved else halved)

-- None where the source has no result: it divides by 0, or the doubling overflows.
unfoldable pub calculate_refresh : ModeInfo → Option ℤ
calculate_refresh m =
    if m.htotal == 0 || m.vtotal == 0
    then none
    else let plain = to_int ((m.clock * 1000000 / m.htotal + m.vtotal / 2) / m.vtotal) in
      scanned m (if m.interlace then doubled plain else some plain)

-- The part of `SDRMConnectorCommitData` that is read here.
pub record CommitData : Type 0 where
  pub main_fb : Option Fb
  pub cursor_fb : Option Fb
  pub mode_info : ModeInfo
  pub test : Bool

abbrev pub set_lock : ℕ → Bool → (ℕ → Bool) → ℕ → Bool
set_lock b v locked x = if x == b then v else locked x

abbrev pub buffer_of : Option Fb → Option ℕ
buffer_of none = none
buffer_of (some fb) = fb.buffer

-- `lockedByBackend = true` on the buffer of a framebuffer
abbrev pub lock : Option ℕ → Buffers → Buffers
lock none s = s
lock (some b) s = record s { locked = set_lock b true s.locked }

-- `lockedByBackend = false` and `backendRelease`
abbrev pub release : Option ℕ → Buffers → Buffers
release none s = s
release (some b) s = record s {
  locked = set_lock b false s.locked;
  released = s.released ++ (b ∷ []);
}

abbrev pub mem : ℕ → List ℕ → Bool
mem b [] = false
mem b (x ∷ xs) = b == x || mem b xs

-- The lambda `releaseFB`. `seen` is `releasedBuffers`.
abbrev pub release_fb : Option ℕ → List ℕ × Buffers → List ℕ × Buffers
release_fb none (seen, s) = (seen, s)
release_fb (some b) (seen, s) =
    if s.locked b && not (mem b seen) then (b ∷ seen, release (some b) s) else (seen, s)

abbrev pub release_plane : Plane → List ℕ × Buffers → List ℕ × Buffers
release_plane p s =
    release_fb (buffer_of p.last) (release_fb (buffer_of p.back) (release_fb (buffer_of p.front) s))

abbrev pub release_cursor : Option Plane → List ℕ × Buffers → List ℕ × Buffers
release_cursor none s = s
release_cursor (some p) s = release_plane p s

abbrev pub release_crtc : Option Crtc → List ℕ × Buffers → List ℕ × Buffers
release_crtc none s = s
release_crtc (some c) s =
    release_fb (buffer_of c.pending_cursor) (release_cursor c.cursor (release_plane c.primary s))

abbrev pub bare_plane : Plane
bare_plane = record { front = none; back = none; last = none }

abbrev pub bare_cursor : Option Plane → Option Plane
bare_cursor none = none
bare_cursor (some p) = some bare_plane

abbrev pub bare_crtc : Option Crtc → Option Crtc
bare_crtc none = none
bare_crtc (some c) =
    some (record { primary = bare_plane; cursor = bare_cursor c.cursor; pending_cursor = none })

unfoldable pub release_fb_references : Scanout → Buffers → Scanout × Buffers
release_fb_references k s = (
  record k { crtc = bare_crtc k.crtc; pending_cursor_fb = none },
  (release_fb (buffer_of k.pending_cursor_fb) (release_crtc k.crtc ([], s))).1,
)

-- `cursor->back = cursorFB`, if there are both
abbrev pub set_cursor_back : Option Fb → Option Plane → Option Plane
set_cursor_back none cursor = cursor
set_cursor_back (some fb) none = none
set_cursor_back (some fb) (some p) = some (record p { back = some fb })

abbrev pub cursor_buffer : Option Plane → Option Fb → Option ℕ
cursor_buffer none fb = none
cursor_buffer (some p) fb = buffer_of fb

abbrev pub committed_crtc : CommitData → Crtc → Crtc
committed_crtc d c = record c {
  primary = record c.primary { back = d.main_fb };
  cursor = set_cursor_back d.cursor_fb c.cursor;
}

-- On a connector with a CRTC. `mode_committed` and `enabled` are those of the output's state.
unfoldable pub apply_commit :
    CommitData → Bool → Bool → Scanout → Crtc → Buffers → Scanout × Buffers
unfolding calculate_refresh release_fb_references
apply_commit d mode_committed enabled k c s =
    let k' = record k {
      crtc = some (committed_crtc d c);
      pending_cursor_fb = none;
      refresh = if mode_committed then calculate_refresh d.mode_info else k.refresh;
      enabled_state = enabled;
    } in
    let s' = lock (cursor_buffer c.cursor d.cursor_fb) (lock (buffer_of d.main_fb) s) in
    if enabled then (k', s') else release_fb_references k' s'

unfoldable pub rollback_commit : CommitData → Scanout → Crtc → Scanout
rollback_commit d k c = if d.test then k else record k {
  crtc = some (record c { cursor = set_cursor_back d.cursor_fb c.cursor; pending_cursor = none });
}

abbrev pub turned : Plane → Plane
turned p = record { front = p.back; back = p.back; last = p.front }

abbrev pub turned_cursor : Option Plane → Option Plane
turned_cursor none = none
turned_cursor (some p) = some (turned p)

abbrev pub cursor_front : Option Plane → Option Fb
cursor_front none = none
cursor_front (some p) = p.front

unfoldable pub on_present : Crtc → Buffers → Crtc × Buffers
on_present c s = (
  record c { primary = turned c.primary; cursor = turned_cursor c.cursor },
  release (buffer_of (cursor_front c.cursor)) (release (buffer_of c.primary.front) s),
)
