-- ===== src/Anland/Frames.antt =====
-- The frames of src/backend/anland/AnlandOutput.cpp: importBuffers, updateMode, commit,
-- scheduleFrame with its idle callback, onBufferReady, enterFallback and exitFallback.
-- Handlers of the frame event are `on_frame`, any change of the output; those of other events do
-- not call back. Fences are made and sent without a part in what follows. There is a backend.
pub mod Fallback
pub mod Answers
mod Tests
use aquamarine.Anland.Slots.{import_buffer, cache_or_import_buffer}
use aquamarine.Anland.Store.{Info, Buffer, Slot, Files, Sys, put, destroy_buffer}
use aquamarine.Common.{
  ℕ, zero, suc, ◌+◌, ◌-◌, Bool, true, false, not, ◌&&◌, ◌||◌, Option, none, some, ◌==◌, ltb, leb,
  if◌then◌else◌, is_some,
}

-- What the display says while a function runs.
pub record Display : Type 0 where
  pub there : Bool
  pub fallback : Bool
  pub count : ℕ
  pub selected : ℕ
  pub refreshes : Bool
  pub ctx_fd : ℕ → Option ℕ
  pub info_of : ℕ → Option Info

-- `CAnlandOutput`. `idle` is how often its callback is among the backend's idle events; the last
-- four count its events. `state_buffer` and `state_damaged` are of the output's state.
pub record Out : Type 0 where
  pub slots : Sys
  pub in_fallback : Bool
  pub output_ready : Bool
  pub buffers_imported : Bool
  pub frame_pending : Bool
  pub frame_scheduled : Bool
  pub should_trigger : Bool
  pub commit_in_progress : Bool
  pub enabled : Bool
  pub needs_frame : Bool
  pub selected : ℕ
  pub buffer_count : ℕ
  pub width : ℕ
  pub height : ℕ
  pub state_buffer : Option Buffer
  pub state_damaged : Bool
  pub idle : ℕ
  pub frames : ℕ
  pub presents : ℕ
  pub commits : ℕ
  pub states : ℕ

abbrev pub present : Out → Out
present o = record o { presents = suc o.presents }

abbrev pub emit_commit : Out → Out
emit_commit o = record o { commits = suc o.commits }

-- The commit that is done at once
abbrev pub complete : Out → Out
complete o = emit_commit (present (record o { frame_pending = false }))

-- The loops of importBuffers, over the indices below the number, in order
abbrev pub destroy_all : ℕ → Sys → Sys
destroy_all zero s = s
destroy_all (suc n) s = destroy_buffer n (destroy_all n s)

unfoldable pub update_mode : ℕ → ℕ → Out → Out
update_mode w h o = record o { width = w; height = h; states = suc o.states }

-- The size of the first buffer becomes the output's
abbrev pub fit_mode : Slot → Out → Out
fit_mode v o =
    if v.imported
      && (not (v.shape.width == 0)
          && (not (v.shape.height == 0)
              && (not (v.shape.width == o.width) || not (v.shape.height == o.height))))
    then update_mode v.shape.width v.shape.height o
    else o

abbrev pub with_slots : ℕ → Sys → Out → Out
with_slots count s o =
    fit_mode (s.slots 0) (record o { slots = s; buffer_count = count; buffers_imported = true })

module _ (new_fd : Files → Option ℕ) where
  abbrev pub import_all : Display → ℕ → Sys → Sys
  import_all d zero s = s
  import_all d (suc n) s =
      (import_buffer new_fd (d.there && not d.fallback) d.ctx_fd d.info_of n (import_all d n s)).1

  unfoldable pub import_buffers : Display → Out → Out
  unfolding update_mode
  import_buffers d o =
      if d.there && not d.fallback && not (d.count == 0) && leb d.count 8
      then with_slots d.count (import_all d d.count (destroy_all 8 o.slots)) o
      else o

  -- The selected slot, imported if it is not
  abbrev pub ensure_slot : Display → ℕ → Sys → Sys
  ensure_slot d i s =
      if (s.slots i).imported
      then s
      else (cache_or_import_buffer new_fd (d.there && not d.fallback) d.ctx_fd d.info_of i s).1

  -- Its buffer and damage go to the state; without a buffer all is damaged.
  abbrev pub show_slot : ℕ → Option Buffer → Out → Out
  show_slot i none o = record o { state_damaged = true }
  show_slot i (some b) o =
      let v = o.slots.slots i in
      record o {
        slots = put i (record v { damaged = false; has_damage = false }) o.slots;
        state_buffer = some b;
        state_damaged = o.state_damaged || (v.has_damage && v.damaged);
      }

  -- From the fence on
  abbrev pub trigger : Display → Out → Out
  trigger d o =
      if o.should_trigger
      then if d.refreshes
        then emit_commit (record o { should_trigger = false; frame_pending = true })
        else complete (record o { should_trigger = false })
      else complete o

  -- With the buffers imported
  abbrev pub commit_slot : Display → Out → Out
  commit_slot d o =
      let i = if leb o.buffer_count d.selected then 0 else d.selected in
      let s = ensure_slot d i o.slots in
      trigger d (show_slot i (s.slots i).buffer (record o { selected = i; slots = s }))

  abbrev pub commit_imported : Display → Out → Out
  commit_imported d o = if o.buffers_imported then commit_slot d o else complete o

  -- Under the guard
  unfoldable pub commit_body : Display → Out → Out
  unfolding import_buffers
  commit_body d o =
      if o.in_fallback || not o.output_ready
      then complete o
      else if not d.there
      then complete o
      else commit_imported d (if o.buffers_imported then o else import_buffers d o)

  unfoldable pub commit : Display → Out → Bool × Out
  commit d o =
      if o.slots.destroying then (true, o) else if o.commit_in_progress then (false, o) else (
        true,
        record (commit_body d (record o { commit_in_progress = true })) {
          commit_in_progress = false;
        },
      )

-- The damage of the state goes to the selected slot.
abbrev pub note_damage : Out → Out
note_damage o =
    let v = o.slots.slots o.selected in
    if o.buffers_imported
      && (ltb o.selected o.buffer_count && (v.imported && (is_some v.buffer && o.state_damaged)))
    then record o {
      slots = put o.selected (record v { damaged = true; has_damage = true }) o.slots;
    }
    else o

module _ (on_frame : Out → Out) where
  abbrev pub emit_frame : Out → Out
  emit_frame o = on_frame (record o { frames = suc o.frames })

  abbrev pub queue_idle : Out → Out
  queue_idle o = record o { idle = suc o.idle }

  unfoldable pub schedule_frame : Out → Out
  schedule_frame o =
      if o.slots.destroying
      then o
      else if o.in_fallback || not o.output_ready
      then emit_frame o
      else if o.frame_scheduled
      then o
      else queue_idle (
          emit_frame
            (record (note_damage (record o { frame_scheduled = true; needs_frame = true })) {
              should_trigger = true;
            }))

  -- The callback, taken from the idle events
  unfoldable pub frame_idle : Out → Out
  frame_idle o =
      let o' = record o { frame_scheduled = false; idle = o.idle - 1 } in
      if o.slots.destroying || (o.in_fallback || not o.output_ready)
      then o'
      else emit_frame (record o' { should_trigger = true })

module _ (new_fd : Files → Option ℕ) (on_frame : Out → Out) where
  unfoldable pub exit_fallback : Display → Out → Out
  unfolding import_buffers schedule_frame
  exit_fallback d o =
      if not o.in_fallback || o.slots.destroying
      then o
      else emit_frame on_frame (
          schedule_frame on_frame (
            import_buffers new_fd d (record o {
              in_fallback = false;
              enabled = true;
              output_ready = true;
              needs_frame = true;
              frame_scheduled = false;
              buffers_imported = false;
              should_trigger = false;
            })))

-- The selected slot is given back
abbrev pub release_slot : Out → Out
release_slot o =
    let v = o.slots.slots o.selected in
    if ltb o.selected o.buffer_count && is_some v.buffer
    then record o {
      slots =
          put o.selected (record v { in_use = false; damaged = false; has_damage = true }) o.slots;
    }
    else o

unfoldable pub on_buffer_ready : Display → Out → Out
on_buffer_ready d o =
    if o.in_fallback || o.slots.destroying
    then o
    else if not d.there || d.fallback
    then present (record o { frame_scheduled = false; frame_pending = false })
    else record (present
        (record (release_slot (record o { frame_scheduled = false })) { frame_pending = false })) {
          needs_frame = false;
        }

unfoldable pub enter_fallback : Out → Out
enter_fallback o =
    if o.in_fallback || o.slots.destroying
    then o
    else present (record o {
      in_fallback = true;
      frame_pending = false;
      output_ready = false;
      buffers_imported = false;
      frame_scheduled = false;
      enabled = false;
      should_trigger = false;
      idle = 0;
    })
