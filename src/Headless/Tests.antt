-- ===== src/Headless/Tests.antt =====
-- A dispatch of src/backend/Headless.cpp on two outputs.
use aquamarine.Common.{ℕ, true, false, none, some, List, [], ◌∷◌, ◌++◌, ltb, ◌≡◌, refl, All}
use aquamarine.Headless.{
  Out, Timer, Sys, Action, schedules, dispatch_timers, schedule_frame, destroy, run_idle, pending,
  to_fire,
}
use aquamarine.Headless.Timers.{NoneBefore}
use aquamarine.Headless.Fire.{dispatch_timers_lem, living}

abbrev sixty : Out
sixty = record {
  alive = true;
  needs_frame = true;
  frame_scheduled = true;
  last_frame = 0;
  mode = some 60000;
  custom_mode = none;
}

abbrev two_due : Sys
two_due = record {
  now = 17000000;
  outs = λ n. sixty;
  timers =
      record { due = 16666666; output = 1 }
      ∷ record { due = 17000000; output = 2 }
      ∷ record { due = 16000000; output = 3 }
      ∷ [];
  armed = 16000000;
  idle = [];
  frames = [];
  presents = [];
}

-- The handler asks for the next frame at once.
abbrev again : Sys → ℕ → List Action
again s n = schedules n ∷ []

dispatch_timers_lem_example :
    (s' : Sys) × (dispatch_timers again two_due ≡ some s')
    × (s'.frames ≡ [] ++ living two_due.outs (to_fire 17000000 two_due.timers))
    × ((more : List Timer) × (s'.timers ≡ pending 17000000 two_due.timers ++ more))
    × All (λ t. ltb t.due 17000000 ≡ true) (to_fire 17000000 two_due.timers)
    × All (λ t. ltb t.due 17000000 ≡ false) (pending 17000000 two_due.timers)
    × NoneBefore s'.armed s'.timers
dispatch_timers_lem_example = dispatch_timers_lem again two_due (λ n. refl)

-- Both timers that are past fire; the second output's, due now, does not.
fired : living two_due.outs (to_fire 17000000 two_due.timers) ≡ 1 ∷ 3 ∷ []
fired = refl

abbrev no_rate : Sys
no_rate = record two_due { outs = λ n. record sixty { frame_scheduled = false; mode = some 0 } }

-- A mode without a refresh rate divides by 0.
zero_rate_fails : schedule_frame 1 no_rate ≡ none
unfolding schedule_frame
zero_rate_fails = refl

abbrev late : Sys
late = record two_due { now = 100000000; outs = λ n. record sixty { frame_scheduled = false } }

-- The idle callback of an output that goes before it runs.
destroyed_callback :
    (s : Sys) × (schedule_frame 1 late ≡ some s) × (run_idle again s.idle (destroy 1 s) ≡ none)
unfolding schedule_frame destroy run_idle aquamarine.Headless.queue_frame
destroyed_callback = (_, refl, refl)
