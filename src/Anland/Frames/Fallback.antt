-- ===== src/Anland/Frames/Fallback.antt =====
-- What the output of src/backend/anland/AnlandOutput.cpp does in fallback and while frames are pending.
use aquamarine.Anland.Frames.{
  Display, Out, commit_body, commit, note_damage, queue_idle, schedule_frame, release_slot,
  on_buffer_ready, enter_fallback,
}
use aquamarine.Anland.Store.{Files}
use aquamarine.Common.{ℕ, suc, true, false, not, ◌||◌, Option, ◌≡◌, refl, ap, ◌∙◌}
use aquamarine.Anland.Frames.Answers.{released, gate, either}

-- In fallback: a commit is answered at once and leaves the buffers alone.
pub enter_fallback-commit :
    (new_fd : Files → Option ℕ) (d : Display) (o : Out)
    → o.slots.destroying ≡ false
    → o.in_fallback ≡ false
    → o.commit_in_progress ≡ false
    → let o1 = enter_fallback o in
      let (ok, o2) = commit new_fd d o1 in
      (o1.idle ≡ 0)
      × (o1.presents ≡ suc o.presents)
      × (ok ≡ true)
      × (o2.frame_pending ≡ false)
      × (o2.presents ≡ suc o1.presents)
      × (o2.slots ≡ o.slots)
unfolding enter_fallback commit commit_body
enter_fallback-commit new_fd d o alive on free =
    simp (alive, on, free) (refl, refl, refl, refl, refl, refl)

-- The handlers of the frame event leave these fields of the output as they are.
pub record IsQuiet (on_frame : Out → Out) : Type 0 where
  pub scheduled : (o : Out) → (on_frame o).frame_scheduled ≡ o.frame_scheduled
  pub fallback : (o : Out) → (on_frame o).in_fallback ≡ o.in_fallback
  pub ready : (o : Out) → (on_frame o).output_ready ≡ o.output_ready
  pub destroying : (o : Out) → (on_frame o).slots.destroying ≡ o.slots.destroying
  pub idle : (o : Out) → (on_frame o).idle ≡ o.idle

-- Neither destroyed nor in fallback, and ready
abbrev IsOn : Out → Type 0
IsOn o = (o.slots.destroying ≡ false) × (o.in_fallback ≡ false) × (o.output_ready ≡ true)

-- The idle events and these three are as they were.
abbrev IsSame : Out → Out → Type 0
IsSame o o' =
    (o'.idle ≡ o.idle)
    × (o'.slots.destroying ≡ o.slots.destroying)
    × (o'.in_fallback ≡ o.in_fallback)
    × (o'.output_ready ≡ o.output_ready)

note_damage-IsSame : (o : Out) → IsSame o (note_damage o)
note_damage-IsSame o = either (IsSame o) _ _ o (refl, refl, refl, refl) (refl, refl, refl, refl)

release_slot-IsSame : (o : Out) → IsSame o (release_slot o)
release_slot-IsSame o = either (IsSame o) _ _ o (refl, refl, refl, refl) (refl, refl, refl, refl)

-- Answered, with the same idle events
abbrev IsReadied : Out → Out → Type 0
IsReadied o o' = (o'.idle ≡ o.idle) × IsOn o' × (o'.frame_scheduled ≡ false)

readied : (d : Display) (o : Out) → IsOn o → IsReadied o (on_buffer_ready d o)
unfolding on_buffer_ready
readied d o (alive, on, ready) =
    gate (IsReadied o) (o.in_fallback || o.slots.destroying) o _ (rw (on, alive) refl) (
      either (IsReadied o) (not d.there || d.fallback) _ _ (refl, (alive, on, ready), refl)
        (
          (release_slot-IsSame o1).0,
          (
            (release_slot-IsSame o1).1 ∙ alive,
            (release_slot-IsSame o1).2 ∙ on,
            (release_slot-IsSame o1).3 ∙ ready,
          ),
          (released o1).scheduled,
        ))
  where
    o1 : Out
    o1 = record o { frame_scheduled = false }

abbrev IsQueued : Out → Out → Type 0
IsQueued o o' = (o'.idle ≡ suc o.idle) × IsOn o'

module _ (on_frame : Out → Out) (quiet : IsQuiet on_frame) where
  -- A schedule of an output whose frame is not scheduled yet queues the callback.
  schedules :
      (o : Out)
      → o.slots.destroying ≡ false
      → o.in_fallback ≡ false
      → o.output_ready ≡ true
      → o.frame_scheduled ≡ false
      → ((schedule_frame on_frame o).idle ≡ suc o.idle) × IsOn (schedule_frame on_frame o)
  unfolding schedule_frame
  schedules o alive on ready new = gate (IsQueued o) o.slots.destroying o _ alive (
      gate (IsQueued o) (o.in_fallback || not o.output_ready) _ _ (rw (on, ready) refl)
        (gate (IsQueued o) o.frame_scheduled o _ new queued))
    where
      o1 : Out
      o1 = record o { frame_scheduled = true; needs_frame = true }

      o2 : Out
      o2 = record (note_damage o1) { should_trigger = true; frames = suc (note_damage o1).frames }

      queued : IsQueued o (queue_idle on_frame (on_frame o2))
      queued = (
        ap suc (quiet.idle o2 ∙ (note_damage-IsSame o1).0),
        (
          quiet.destroying o2 ∙ (note_damage-IsSame o1).1 ∙ alive,
          quiet.fallback o2 ∙ (note_damage-IsSame o1).2 ∙ on,
          quiet.ready o2 ∙ (note_damage-IsSame o1).3 ∙ ready,
        ),
      )

  -- A frame is scheduled, the display answers before the idle callback has run, and the next frame
  -- is scheduled: then the one callback of the output is among the idle events twice.
  pub schedule_frame_twice :
      (d : Display) (o : Out)
      → o.slots.destroying ≡ false
      → o.in_fallback ≡ false
      → o.output_ready ≡ true
      → o.frame_scheduled ≡ false
      → let o1 = schedule_frame on_frame o in
        let o2 = on_buffer_ready d o1 in
        (o1.idle ≡ suc o.idle) × ((schedule_frame on_frame o2).idle ≡ suc (suc o.idle))
  schedule_frame_twice d o alive on ready new =
      let (i1, f1) = schedules o alive on ready new in
      let o1 = schedule_frame on_frame o in
      let (i2, (alive2, on2, ready2), new2) = readied d o1 f1 in
      (i1, (schedules (on_buffer_ready d o1) alive2 on2 ready2 new2).0 ∙ ap suc (i2 ∙ i1))
