-- ===== src/Drm/Legacy.antt =====
-- The legacy interface, src/backend/drm/impl/Legacy.cpp: commitInternal, testInternal, commit,
-- moveCursor and reset.
-- The kernel is `answers`, which says whether a call succeeds after the calls before it, and
-- `handle_of`, which names the handle that an import gives; a handle of 0 is none.
pub mod Calls
pub mod Pending
mod Tests
use aquamarine.Common.{
  ℕ, Bool, true, false, not, ◌&&◌, ◌||◌, Option, none, some, List, [], ◌∷◌, ◌++◌, ◌==◌,
  if◌then◌else◌, is_some,
}

-- The calls of libdrm, in the source's order, with what the code decides about them. A framebuffer
-- of none is -1, and a mode set is set with the connector's mode or with none.
pub data Call : Type 0 where
  set_dpms : Bool → Call
  set_crtc : Option ℕ → Bool → Call
  set_vrr : Bool → Call
  import_cursor : ℕ → Call
  show_cursor : ℕ → Call
  close_handle : ℕ → Call
  hide_cursor : Call
  page_flip : Option ℕ → Call

-- What commitInternal reads of the output, its state, the connector and the commit's data.
pub record Input : Type 0 where
  pub enabled : Bool
  pub main_fb : Option ℕ
  pub modeset : Bool
  pub vrr_committed : Bool
  pub adaptive_sync : Bool
  pub can_do_vrr : Bool
  pub has_vrr_prop : Bool
  pub cursor_fb : Option ℕ
  pub has_cursor_plane : Bool
  pub cursor_visible : Bool
  pub cursor_committed : Bool
  pub wants_flip_event : Bool

-- The calls so far, and the fields that the code writes.
pub record Conn : Type 0 where
  pub calls : List Call
  pub vrr_active : Bool
  pub flip_pending : Bool

-- A part of the function: whether it goes on, and the state.
abbrev pub Part : Type 0
Part = Conn → Bool × Conn

infixl 4 ◌▸◌
abbrev pub ◌▸◌ : Part → Part → Part
(f ▸ g) s = let (ok, t) = f s in if ok then g t else (false, t)

abbrev pub pass : Part
pass s = (true, s)

abbrev pub give_up : Part
give_up s = (false, s)

abbrev pub when : Bool → Part → Part
when true f s = f s
when false f s = (true, s)

abbrev pub enabled_fb : Input → Option ℕ
enabled_fb d = if d.enabled then d.main_fb else none

abbrev pub shows_cursor : Input → Bool
shows_cursor d = d.has_cursor_plane && (d.cursor_visible && (d.enabled && d.cursor_committed))

module _ (answers : List Call → Call → Bool) (handle_of : ℕ → ℕ) where
  -- A call, and its answer
  abbrev pub ask : Call → Part
  ask c s = (answers s.calls c, record s { calls = s.calls ++ (c ∷ []) })

  -- A call whose failure is only logged
  abbrev pub try_call : Call → Part
  try_call c s = (true, record s { calls = s.calls ++ (c ∷ []) })

  unfoldable pub modeset : Input → Part
  modeset d = when d.modeset (ask (set_dpms d.enabled) ▸ ask (set_crtc (enabled_fb d) d.enabled))

  abbrev pub set_vrr_active : Bool → Part
  set_vrr_active v s = (true, record s { vrr_active = v })

  unfoldable pub adaptive_sync : Input → Part
  adaptive_sync d = when d.vrr_committed (
      if d.adaptive_sync && not d.can_do_vrr
      then give_up
      else when d.has_vrr_prop (ask (set_vrr d.adaptive_sync)) ▸ set_vrr_active d.adaptive_sync)

  -- The handle is closed before the answer to the ioctl is looked at.
  abbrev pub show_and_close : ℕ → Part
  show_and_close h s =
      let (shown, s1) = ask (show_cursor h) s in
      let (_, s2) = when (not (h == 0)) (try_call (close_handle h)) s1 in (shown, s2)

  abbrev pub show_fb : Option ℕ → Bool → Part
  show_fb none flag = try_call hide_cursor
  show_fb (some fb) false = try_call hide_cursor
  show_fb (some fb) true = ask (import_cursor fb) ▸ show_and_close (handle_of fb)

  unfoldable pub cursor : Input → Part
  cursor d = show_fb d.cursor_fb (shows_cursor d)

  abbrev pub set_pending : Part
  set_pending s = (true, record s { flip_pending = true })

  unfoldable pub flip : Input → Part
  flip d = when (d.enabled && d.wants_flip_event) (ask (page_flip (enabled_fb d)) ▸ set_pending)

  unfoldable pub commit_internal : Input → Part
  unfolding modeset adaptive_sync cursor flip
  commit_internal d = modeset d ▸ adaptive_sync d ▸ cursor d ▸ flip d

  -- `testInternal`, which does not look at the commit
  abbrev pub test_internal : Input → Bool
  test_internal d = true

  unfoldable pub commit : Input → Part
  commit d s = if test_internal d then commit_internal d s else (false, s)

-- `moveCursor`: whether a frame is scheduled. The flags are those of the output, then of the CRTC.
abbrev pub move_cursor : Bool → Bool → Bool → Bool → Bool
move_cursor visible enabled has_plane skip_schedule =
    visible && (enabled && (has_plane && not skip_schedule))

-- `reset`, over the CRTCs of the connectors: whether all of them were turned off, which each is
-- asked to be
unfoldable pub reset : (ℕ → Bool) → List (Option ℕ) → Bool
reset turns_off [] = true
reset turns_off (none ∷ rest) = reset turns_off rest
reset turns_off (some c ∷ rest) = let others = reset turns_off rest in turns_off c && others
