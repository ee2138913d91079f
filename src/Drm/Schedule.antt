-- ===== src/Drm/Schedule.antt =====
-- When an output of the DRM backend gets its frame events: CDRMOutput::scheduleFrame, the callback
-- frameIdle, handlePF and the destructor of src/backend/drm/DRM.cpp, on the idle events of
-- src/backend/Backend.cpp.
-- The compositor is a parameter: what it calls when it is sent a frame or a present event, out of
-- the calls that matter here. An output is a number, and its frameIdle is named by it.
pub mod Later
pub mod Queue
pub mod Delivery
pub mod Timer
mod Tests
use aquamarine.Common.{
  ℕ, zero, suc, ◌+◌, ◌-◌, ◌*◌, ◌/◌, ◌%◌, Bool, true, false, not, ◌&&◌, ◌||◌, List, [], ◌∷◌, ◌++◌,
  ◌==◌, ltb, if◌then◌else◌, erase,
}

-- TIMESPEC_NSEC_PER_SEC
abbrev pub second : ℕ
second = 1000000000

pub record Timespec : Type 0 where
  pub sec : ℕ
  pub nsec : ℕ

-- `delta` is not negative, and less than 2 ^ 31 seconds.
pub timespec_add_ns : Timespec → ℕ → Timespec
timespec_add_ns t delta =
    let nsec = t.nsec + delta % second in
    if ltb nsec second
    then record { sec = t.sec + delta / second; nsec = nsec }
    else record { sec = suc (t.sec + delta / second); nsec = nsec - second }

-- A connector with its output. `connected`: the status is that, and there are a CRTC and an output.
pub record Out : Type 0 where
  pub connected : Bool
  pub enabled_state : Bool
  pub page_flip_pending : Bool
  pub frame_running : Bool
  pub frame_event_scheduled : Bool
  pub needs_frame : Bool

-- `armed` is the delay that the idle timer was last set to, in ns. `frames` and `presents` are the
-- outputs that were sent a frame or a present event, oldest first.
pub record Sys : Type 0 where
  pub outs : ℕ → Out
  pub pending : List ℕ
  pub armed : ℕ
  pub session_active : Bool
  pub frames : List ℕ
  pub presents : List ℕ

abbrev pub put : ℕ → Out → Sys → Sys
put n o s = record s { outs = λ m. if m == n then o else s.outs m }

-- `updateIdleTimer`
abbrev pub idle_delay : List ℕ → ℕ
idle_delay [] = second * 240
idle_delay (n ∷ ns) = 0

abbrev pub update_idle_timer : Sys → Sys
update_idle_timer s = record s { armed = idle_delay s.pending }

abbrev pub add_idle_event : ℕ → Sys → Sys
add_idle_event n s = update_idle_timer (record s { pending = s.pending ++ (n ∷ []) })

abbrev pub remove_idle_event : ℕ → Sys → Sys
remove_idle_event n s = record s { pending = erase n s.pending }

abbrev pub is_awaited : Out → Bool
is_awaited o = o.page_flip_pending || (o.frame_running || o.frame_event_scheduled)

pub schedule_frame : ℕ → Sys → Sys
schedule_frame n s =
    let o = record (s.outs n) { needs_frame = true } in
    if is_awaited o || not o.enabled_state
    then put n o s
    else add_idle_event n (put n (record o { frame_event_scheduled = true }) s)

-- What a commit that succeeds leaves: `flip` says whether it has asked for a page-flip event.
pub commit_done : ℕ → Bool → Bool → Sys → Sys
commit_done n flip on s =
    let o = s.outs n in
    put n
      (record o {
        needs_frame = false;
        enabled_state = on;
        page_flip_pending = (flip && on) || o.page_flip_pending;
      })
      s

-- ~CDRMOutput
pub destroy_output : ℕ → Sys → Sys
destroy_output n s =
    put n
      (record (s.outs n) {
        connected = false;
        page_flip_pending = false;
        frame_event_scheduled = false;
      })
      (remove_idle_event n s)

-- The calls that the compositor makes from an event.
pub data Action : Type 0 where
  schedules : ℕ → Action
  commits : ℕ → Bool → Bool → Action

pub act : Action → Sys → Sys
unfolding schedule_frame commit_done
act (schedules n) s = schedule_frame n s
act (commits n flip on) s = commit_done n flip on s

pub act_all : List Action → Sys → Sys
unfolding act
act_all [] s = s
act_all (a ∷ rest) s = act_all rest (act a s)

module _ (on_frame on_present : Sys → ℕ → List Action) where
  -- events.frame.emit
  pub emit_frame : ℕ → Sys → Sys
  unfolding act_all
  emit_frame n s = let s' = record s { frames = s.frames ++ (n ∷ []) } in act_all (on_frame s' n) s'

  pub emit_present : ℕ → Sys → Sys
  unfolding act_all
  emit_present n s =
      let s' = record s { presents = s.presents ++ (n ∷ []) } in act_all (on_present s' n) s'

  -- the callback frameIdle
  pub frame_idle : ℕ → Sys → Sys
  unfolding emit_frame
  frame_idle n s =
      let o = record (s.outs n) { frame_event_scheduled = false } in
      if o.page_flip_pending || o.frame_running then put n o s else emit_frame n (put n o s)

  pub run_idle : List ℕ → Sys → Sys
  unfolding frame_idle
  run_idle [] s = s
  run_idle (n ∷ ns) s = run_idle ns (frame_idle n s)

  pub dispatch_idle : Sys → Sys
  unfolding run_idle
  dispatch_idle s = update_idle_timer (run_idle s.pending (record s { pending = [] }))

  -- The end of handlePF.
  abbrev pub finish_frame : ℕ → Sys → Sys
  finish_frame n s =
      if s.session_active && (s.outs n).enabled_state
      then (let s' = emit_frame n s in put n (record (s'.outs n) { frame_running = false }) s')
      else s

  -- handlePF once the flag is taken back: whether there is an output, and whether a frame runs.
  abbrev pub flipped : Bool → Bool → ℕ → Out → Sys → Sys
  flipped false runs n o s = put n o s
  flipped true false n o s = finish_frame n (emit_present n (put n o s))
  flipped true true n o s =
      finish_frame n (emit_present n (put n (record o { frame_running = true }) s))

  pub handle_pf : ℕ → Sys → Sys
  unfolding emit_frame emit_present
  handle_pf n s =
      let o = record (s.outs n) { page_flip_pending = false } in
      flipped o.connected (s.session_active && o.enabled_state) n o s

  -- What happens to the backend, in any order.
  pub data Step : Type 0 where
    does : Action → Step
    flips destroys : ℕ → Step
    idles : Step

  pub step : Step → Sys → Sys
  unfolding act handle_pf destroy_output dispatch_idle
  step (does a) s = act a s
  step (flips n) s = handle_pf n s
  step (destroys n) s = destroy_output n s
  step idles s = dispatch_idle s

  pub run_steps : List Step → Sys → Sys
  unfolding step
  run_steps [] s = s
  run_steps (x ∷ xs) s = run_steps xs (step x s)
