-- ===== src/Drm/Legacy/Pending.antt =====
-- When a page flip is pending after a commit of src/backend/drm/impl/Legacy.cpp.
use aquamarine.Drm.Legacy.Calls.{then_part}
use aquamarine.Common.{
  ℕ, Bool, true, false, ◌&&◌, ◌||◌, Option, none, some, List, ◌≡◌, refl, ◌∙◌, arith,
}
use aquamarine.Drm.Legacy.{
  Call, Input, Conn, Part, modeset, adaptive_sync, shows_cursor, show_fb, cursor, flip,
  commit_internal, commit,
}

module _ (answers : List Call → Call → Bool) (handle_of : ℕ → ℕ) where
  -- The parts before the flip do not touch whether one is pending.
  modeset_quiet :
      (d : Input) (s : Conn) → (modeset answers handle_of d s).1.flip_pending ≡ s.flip_pending
  unfolding modeset
  modeset_quiet d s = ground arith

  adaptive_sync_quiet :
      (d : Input) (s : Conn) → (adaptive_sync answers handle_of d s).1.flip_pending ≡ s.flip_pending
  unfolding adaptive_sync
  adaptive_sync_quiet d s = ground arith

  cursor_quiet :
      (fb : Option ℕ) (b : Bool) (s : Conn)
      → (show_fb answers handle_of fb b s).1.flip_pending ≡ s.flip_pending
  cursor_quiet none b s = refl
  cursor_quiet (some fb) false s = refl
  cursor_quiet (some fb) true s = ground arith

  flip_lem :
      (d : Input) (s : Conn)
      → let (ok, s') = flip answers handle_of d s in
        s'.flip_pending ≡ (s.flip_pending || (ok && (d.enabled && d.wants_flip_event)))
  unfolding flip
  flip_lem d s = ground arith

  then_quiet :
      (g : Part) (r : Bool × Conn) (p : Bool)
      → ((t : Conn) → (g t).1.flip_pending ≡ t.flip_pending)
      → r.1.flip_pending ≡ p
      → (then_part g r).1.flip_pending ≡ p
  then_quiet g (true, t) p quiet h = quiet t ∙ h
  then_quiet g (false, t) p quiet h = h

  then_flip :
      (d : Input) (r : Bool × Conn) (p : Bool)
      → r.1.flip_pending ≡ p
      → let (ok, s') = then_part (flip answers handle_of d) r in
        s'.flip_pending ≡ (p || (ok && (d.enabled && d.wants_flip_event)))
  then_flip d (true, t) p h = rw (← h) (flip_lem d t)
  then_flip d (false, t) true h = h
  then_flip d (false, t) false h = h

  -- A page flip is pending after a commit just when one was before, or the commit succeeded on an
  -- enabled output and was to send the event. So a commit that fails leaves it as it was.
  pub commit-flip_pending :
      (d : Input) (s : Conn)
      → let (ok, s') = commit answers handle_of d s in
        s'.flip_pending ≡ (s.flip_pending || (ok && (d.enabled && d.wants_flip_event)))
  unfolding commit commit_internal cursor
  commit-flip_pending d s =
      let r1 = modeset answers handle_of d s in
      let r2 = then_part (adaptive_sync answers handle_of d) r1 in
      let r3 = then_part (show_fb answers handle_of d.cursor_fb (shows_cursor d)) r2 in
      let q2 =
        then_quiet (adaptive_sync answers handle_of d) r1 s.flip_pending (adaptive_sync_quiet d)
          (modeset_quiet d s) in
      then_flip d r3 s.flip_pending (
        then_quiet (show_fb answers handle_of d.cursor_fb (shows_cursor d)) r2 s.flip_pending
          (cursor_quiet d.cursor_fb (shows_cursor d)) q2)
