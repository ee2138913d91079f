-- ===== src/Drm/Schedule/Tests.antt =====
-- The frame events of two outputs with a compositor that draws when it is sent a frame
-- (src/backend/drm/DRM.cpp): the properties at concrete inputs.
use aquamarine.Common.{ℕ, ◌<◌, ◌≡◌, inl, refl, true, false, List, [], ◌∷◌, arith, count}
use aquamarine.Drm.Schedule.{
  Out, Sys, Action, schedules, commits, does, flips, idles, schedule_frame, dispatch_idle,
  run_steps,
}
use aquamarine.Drm.Schedule.Queue.{IsQueued, run_steps-IsQueued}

abbrev out : Out
out = record {
  connected = true;
  enabled_state = true;
  page_flip_pending = false;
  frame_running = false;
  frame_event_scheduled = false;
  needs_frame = false;
}

abbrev idle_sys : Sys
idle_sys = record {
  outs = λ n. out;
  pending = [];
  armed = 0;
  session_active = true;
  frames = [];
  presents = [];
}

-- A frame is answered by a commit with a page flip.
abbrev draws : Sys → ℕ → List Action
draws s n = commits n true true ∷ []

abbrev asks : Sys → ℕ → List Action
asks s n = schedules n ∷ []

abbrev quiet : Sys → ℕ → List Action
quiet s n = []

idle_sys-IsQueued : IsQueued [] idle_sys
idle_sys-IsQueued = record { counted = λ n. refl; timer = inl refl }

run_steps-IsQueued_example : IsQueued [] (
    run_steps draws quiet (does (schedules 1) ∷ does (schedules 2) ∷ idles ∷ flips 1 ∷ []) idle_sys)
run_steps-IsQueued_example =
    run_steps-IsQueued draws quiet (does (schedules 1) ∷ does (schedules 2) ∷ idles ∷ flips 1 ∷ [])
      idle_sys idle_sys-IsQueued

abbrev asked_two : Sys
asked_two = schedule_frame 2 (schedule_frame 1 idle_sys)

frames_run : (dispatch_idle draws quiet asked_two).frames ≡ 1 ∷ 2 ∷ []
unfolding dispatch_idle schedule_frame
frames_run = refl

queued_two : 0 < count 2 asked_two.pending
unfolding schedule_frame
queued_two = omega arith
