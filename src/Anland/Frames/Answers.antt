-- ===== src/Anland/Frames/Answers.antt =====
-- What the compositor hears of its frames from src/backend/anland/AnlandOutput.cpp.
use aquamarine.Anland.Frames.{
  Display, Out, complete, fit_mode, update_mode, with_slots, destroy_all, import_all,
  import_buffers, ensure_slot, show_slot, trigger, commit_slot, commit_imported, commit_body,
  commit, release_slot, on_buffer_ready,
}
use aquamarine.Anland.Store.{Buffer, Slot, Files, Sys}
use aquamarine.Common.{
  ℕ, suc, ◌+◌, Bool, true, false, not, ◌&&◌, ◌||◌, Option, none, some, ◌==◌, leb, if◌then◌else◌,
  ◌≡◌, refl, arith, Bool-cases, inl, inr, ap, ◌∙◌,
}

abbrev pub once : Bool → ℕ
once b = if b then 1 else 0

-- One commit event more than before; and a present event more, or one that the display owes.
pub record Answers (o o' : Out) : Type 0 where
  pub commits : o'.commits ≡ suc o.commits
  pub presents : o'.presents + once o'.frame_pending ≡ suc o.presents

-- The events are as they were.
pub record Silent (o o' : Out) : Type 0 where
  pub commits : o'.commits ≡ o.commits
  pub presents : o'.presents ≡ o.presents

Silent-Answers : (o o1 o2 : Out) → Silent o o1 → Answers o1 o2 → Answers o o2
Silent-Answers o o1 o2 a b = record {
  commits = b.commits ∙ ap suc a.commits;
  presents = b.presents ∙ ap suc a.presents;
}

complete-Answers : (o : Out) → Answers o (complete o)
complete-Answers o = record { commits = refl; presents = omega arith }

fit_mode-Silent : (v : Slot) (o : Out) → Silent o (fit_mode v o)
unfolding update_mode
fit_mode-Silent v o = record { commits = ground arith; presents = ground arith }

with_slots-Silent : (n : ℕ) (s : Sys) (o : Out) → Silent o (with_slots n s o)
with_slots-Silent n s o =
    let k =
      fit_mode-Silent (s.slots 0)
        (record o { slots = s; buffer_count = n; buffers_imported = true }) in
    record { commits = k.commits; presents = k.presents }

if-Silent : (b : Bool) (o o1 : Out) → Silent o o1 → Silent o (if b then o1 else o)
if-Silent true o o1 h = h
if-Silent false o o1 h = record { commits = refl; presents = refl }

if-Answers :
    (b : Bool) (o o1 o2 : Out) → Answers o o1 → Answers o o2 → Answers o (if b then o1 else o2)
if-Answers true o o1 o2 a b = a
if-Answers false o o1 o2 a b = b

-- What giving back a slot leaves alone
pub record Kept (o o' : Out) : Type 0 where
  pub scheduled : o'.frame_scheduled ≡ o.frame_scheduled
  pub presents : o'.presents ≡ o.presents
  pub commits : o'.commits ≡ o.commits

pub released : (o : Out) → Kept o (release_slot o)
released o = record { scheduled = ground arith; presents = ground arith; commits = ground arith }

-- A property past a guard that does not hold, and of both branches of a test
pub gate : (P : Out → Type 0) (b : Bool) (x y : Out) → b ≡ false → P y → P (if b then x else y)
gate P true x y off h = ground arith
gate P false x y off h = h

pub either : (P : Out → Type 0) (b : Bool) (x y : Out) → P x → P y → P (if b then x else y)
either P true x y h k = h
either P false x y h k = k

abbrev IsAnswered : Out → Out → Type 0
IsAnswered o o' =
    (o'.frame_pending ≡ false)
    × (o'.frame_scheduled ≡ false)
    × (o'.presents ≡ suc o.presents)
    × (o'.commits ≡ o.commits)

module _ (new_fd : Files → Option ℕ) (d : Display) where
  import_buffers-Silent : (o : Out) → Silent o (import_buffers new_fd d o)
  unfolding import_buffers
  import_buffers-Silent o =
      let s = import_all new_fd d d.count (destroy_all 8 o.slots) in
      if-Silent (d.there && not d.fallback && not (d.count == 0) && leb d.count 8) o
        (with_slots d.count s o) (with_slots-Silent d.count s o)

  show_slot-Silent : (i : ℕ) (b : Option Buffer) (o : Out) → Silent o (show_slot new_fd i b o)
  show_slot-Silent i none o = record { commits = refl; presents = refl }
  show_slot-Silent i (some b) o = record { commits = refl; presents = refl }

  trigger-Answers : (o : Out) → Answers o (trigger new_fd d o)
  trigger-Answers o =
      if-Answers o.should_trigger o _ _
        (if-Answers d.refreshes o _ _ (record { commits = refl; presents = ground arith })
          (record { commits = refl; presents = ground arith }))
        (complete-Answers o)

  commit_slot-Answers : (o : Out) → Answers o (commit_slot new_fd d o)
  commit_slot-Answers o =
      let i = if leb o.buffer_count d.selected then 0 else d.selected in
      let s = ensure_slot new_fd d i o.slots in
      let o1 = record o { selected = i; slots = s } in
      let k = show_slot-Silent i (s.slots i).buffer o1 in
      let o2 = show_slot new_fd i (s.slots i).buffer o1 in
      Silent-Answers o o2 (trigger new_fd d o2)
        (record { commits = k.commits; presents = k.presents }) (trigger-Answers o2)

  commit_imported-Answers : (o : Out) → Answers o (commit_imported new_fd d o)
  commit_imported-Answers o =
      if-Answers o.buffers_imported o _ _ (commit_slot-Answers o) (complete-Answers o)

  keep_or_import :
      (o : Out) → Silent o (if o.buffers_imported then o else import_buffers new_fd d o)
  keep_or_import o = elim (Bool-cases o.buffers_imported) [
    | inl done ↦ simp done (record { commits = refl; presents = refl })
    | inr new ↦ simp new (import_buffers-Silent o)
  ]

  commit_body-Answers : (o : Out) → Answers o (commit_body new_fd d o)
  unfolding commit_body
  commit_body-Answers o =
      if-Answers (o.in_fallback || not o.output_ready) o _ _ (complete-Answers o) (
        if-Answers (not d.there) o _ _ (complete-Answers o) (
          Silent-Answers o (if o.buffers_imported then o else import_buffers new_fd d o) _
            (keep_or_import o) (commit_imported-Answers _)))

  -- A commit of an output that is not being destroyed, and that is not called within another, is
  -- done whatever the display and the kernel do: it returns true, is over when it returns, emits
  -- one commit event, and either emits one present event or leaves the frame pending. The handlers
  -- of its events call nothing of the output.
  pub commit_answers :
      (o : Out)
      → o.slots.destroying ≡ false
      → o.commit_in_progress ≡ false
      → let (ok, o') = commit new_fd d o in
        (ok ≡ true)
        × (o'.commit_in_progress ≡ false)
        × (o'.commits ≡ suc o.commits)
        × (o'.presents + once o'.frame_pending ≡ suc o.presents)
  unfolding commit
  commit_answers o alive free =
      let a = commit_body-Answers (record o { commit_in_progress = true }) in
      simp (alive, free) (refl, refl, a.commits, a.presents)

  -- The display's answer: outside of fallback and destruction no frame is pending after it, one
  -- present event was emitted and no commit event, and a frame can be scheduled again, whether the
  -- display is still there or not.
  pub on_buffer_ready_lem :
      (o : Out)
      → o.slots.destroying ≡ false
      → o.in_fallback ≡ false
      → let o' = on_buffer_ready d o in
        (o'.frame_pending ≡ false)
        × (o'.frame_scheduled ≡ false)
        × (o'.presents ≡ suc o.presents)
        × (o'.commits ≡ o.commits)
  unfolding on_buffer_ready
  on_buffer_ready_lem o alive on =
      gate (IsAnswered o) (o.in_fallback || o.slots.destroying) o _ (rw (on, alive) refl) (
        either (IsAnswered o) (not d.there || d.fallback) _ _ (refl, refl, refl, refl)
          (
            refl,
            (released (record o { frame_scheduled = false })).scheduled,
            ap suc (released (record o { frame_scheduled = false })).presents,
            (released (record o { frame_scheduled = false })).commits,
          ))
