-- ===== src/Headless.antt =====
-- The frames of the outputs of src/backend/Headless.cpp: scheduleFrame, commit, framecb, destroy,
-- and the timers of the backend with dispatchTimers, updateTimerFD, addTimer and expired.
-- Times are in ns. The clock is read anew at each step of a run and stands still within one. The
-- timerfd is the time it is set to; its reads and its arming do not fail. A handler of the frame
-- event answers with calls. The idle callbacks are those of the outputs here, in the order queued.
pub mod Timers
pub mod Fire
mod Tests
use aquamarine.Common.{
  ℕ, ◌+◌, ◌*◌, ◌/◌, Bool, true, false, not, ◌&&◌, Option, none, some, List, [], ◌∷◌, ◌++◌, ◌==◌,
  ltb, leb, if◌then◌else◌,
}

-- `CHeadlessOutput`, with the refresh rates of its state in mHz; `alive` until it is destroyed.
pub record Out : Type 0 where
  pub alive : Bool
  pub needs_frame : Bool
  pub frame_scheduled : Bool
  pub last_frame : ℕ
  pub mode : Option ℕ
  pub custom_mode : Option ℕ

-- `CTimer`: its time, and the output whose next frame it makes
pub record Timer : Type 0 where
  pub due : ℕ
  pub output : ℕ

pub record Sys : Type 0 where
  pub now : ℕ
  pub outs : ℕ → Out
  pub timers : List Timer
  pub armed : ℕ
  pub idle : List ℕ
  pub frames : List ℕ
  pub presents : List ℕ

abbrev pub put : ℕ → Out → Sys → Sys
put n o s = record s { outs = λ m. if m == n then o else s.outs m }

abbrev pub refresh_rate : Option ℕ → Option ℕ → ℕ
refresh_rate (some r) custom = r
refresh_rate none (some r) = r
refresh_rate none none = 60000

-- `FRAME_INTERVAL`: none is the division by 0.
abbrev pub frame_interval : ℕ → Option ℕ
frame_interval r = if r == 0 then none else some (1000 * 1000000000 / r)

-- the loop of `updateTimerFD`
abbrev pub soonest : ℕ → List Timer → ℕ
soonest t [] = t
soonest t (x ∷ xs) = if ltb x.due t then soonest x.due xs else soonest t xs

unfoldable pub update_timer_fd : Sys → Sys
update_timer_fd s = record s { armed = soonest (s.now + 240000000000) s.timers }

unfoldable pub add_timer : Timer → Sys → Sys
unfolding update_timer_fd
add_timer t s = update_timer_fd (record s { timers = s.timers ++ (t ∷ []) })

-- From `NEXT_FRAME_TIME`: the idle event, or the timer.
abbrev pub queue_frame : ℕ → ℕ → Sys → Sys
unfolding add_timer
queue_frame next n s =
    if leb next s.now
    then record s { idle = s.idle ++ (n ∷ []) }
    else add_timer (record { due = next; output = n }) s

abbrev pub queue_after : Option ℕ → ℕ → Sys → Option Sys
queue_after none n s = none
queue_after (some interval) n s = some (queue_frame ((s.outs n).last_frame + interval) n s)

unfoldable pub schedule_frame : ℕ → Sys → Option Sys
schedule_frame n s =
    let o = s.outs n in
    if o.frame_scheduled
    then some (put n (record o { needs_frame = true }) s)
    else queue_after (frame_interval (refresh_rate o.mode o.custom_mode)) n
        (put n (record o { needs_frame = true; frame_scheduled = true }) s)

unfoldable pub commit : ℕ → Sys → Sys
commit n s = record (put n (record (s.outs n) { needs_frame = false }) s) {
  presents = s.presents ++ (n ∷ []);
}

-- What a handler calls.
pub data Action : Type 0 where
  schedules : ℕ → Action
  commits : ℕ → Action

abbrev pub act : Action → Sys → Option Sys
unfolding schedule_frame commit
act (schedules n) s = schedule_frame n s
act (commits n) s = some (commit n s)

infixl 5 ◌>>=◌
abbrev pub ◌>>=◌ : Option Sys → (Sys → Option Sys) → Option Sys
none >>= f = none
some s >>= f = f s

unfoldable pub act_all : List Action → Sys → Option Sys
act_all [] s = some s
act_all (a ∷ rest) s = act a s >>= act_all rest

-- `CTimer::expired`, later than its time and not at it
abbrev pub expired : ℕ → Timer → Bool
expired now t = ltb t.due now

-- `stable_partition`: the timers that stay, and those to fire
abbrev pub pending : ℕ → List Timer → List Timer
pending now [] = []
pending now (t ∷ rest) = let kept = pending now rest in if expired now t then kept else t ∷ kept

abbrev pub to_fire : ℕ → List Timer → List Timer
to_fire now [] = []
to_fire now (t ∷ rest) = let fired = to_fire now rest in if expired now t then t ∷ fired else fired

module _ (on_frame : Sys → ℕ → List Action) where
  -- `framecb`
  unfoldable pub frame_cb : ℕ → Sys → Option Sys
  unfolding act_all
  frame_cb n s =
      let s' =
        record (put n (record (s.outs n) { frame_scheduled = false; last_frame = s.now }) s) {
          frames = s.frames ++ (n ∷ []);
        } in
      act_all (on_frame s' n) s'

  -- `lastFrame = NEXT_FRAME_TIME`, after the frame
  abbrev pub settle : Timer → Sys → Option Sys
  settle t s = some (put t.output (record (s.outs t.output) { last_frame = t.due }) s)

  unfoldable pub fire : Timer → Sys → Option Sys
  fire t s = if (s.outs t.output).alive then frame_cb t.output s >>= settle t else some s

  unfoldable pub fire_all : List Timer → Sys → Option Sys
  fire_all [] s = some s
  fire_all (t ∷ rest) s = fire t s >>= fire_all rest

  abbrev pub rearm : Sys → Option Sys
  unfolding update_timer_fd
  rearm s = some (update_timer_fd s)

  unfoldable pub dispatch_timers : Sys → Option Sys
  unfolding fire_all
  dispatch_timers s =
      fire_all (to_fire s.now s.timers) (record s { timers = pending s.now s.timers }) >>= rearm

  -- The idle callbacks of the backend, taken out and run. The one of an output that is gone reads
  -- freed memory: `none`.
  unfoldable pub run_idle : List ℕ → Sys → Option Sys
  run_idle [] s = some s
  run_idle (n ∷ rest) s = if (s.outs n).alive then frame_cb n s >>= run_idle rest else none

-- The destructor leaves the callback among the idle events.
unfoldable pub destroy : ℕ → Sys → Sys
destroy n s = put n (record (s.outs n) { alive = false }) s
