-- ===== src/Wayland/Tests.antt =====
-- Frames and commits of src/backend/Wayland.cpp.
use aquamarine.Common.{ℕ, suc, Bool, true, false, Option, none, some, List, [], ◌∷◌, ◌≡◌, refl}
use aquamarine.Common.Int.{pos}
use aquamarine.Swapchain.{BufferParams, Options, default_options}
use aquamarine.Wayland.{Frames, Action, schedules, commits, Out, commit}
use aquamarine.Wayland.Cache.{Outcome, commit-Outcome}
use aquamarine.Wayland.Waits.{Step, does, idles, dones, run_steps, will_send, run_steps_sends}

abbrev frames : Frames
frames = record {
  needs_frame = false;
  frame_scheduled = false;
  callback = false;
  ready = false;
  while_waiting = false;
  idle = 0;
  frames = 0;
  presents = 0;
}

-- A handler that commits and asks for the next frame
abbrev draws : Frames → List Action
draws o = commits ∷ schedules ∷ []

abbrev some_steps : List Step
some_steps = does schedules ∷ idles ∷ does schedules ∷ dones ∷ idles ∷ []

run_steps_sends_example : will_send (run_steps draws some_steps frames) ≡ true
run_steps_sends_example = run_steps_sends draws some_steps frames refl

-- An allocator that counts
abbrev acquire : ℕ → BufferParams → Options → Option ℕ × ℕ
acquire n params opts = (some n, suc n)

abbrev format_of : ℕ → ℕ
format_of b = 875713112

abbrev there : ℕ → Bool
there b = true

abbrev make : ℕ → Option ℕ
make b = some 7

abbrev out : Out ℕ
out = record {
  mode = some (record { x = 800; y = 600 });
  custom_mode = none;
  format = 875713112;
  swapchain = some (record {
    options = record default_options { length = 2 };
    buffers = [];
    last_acquired = pos 0;
    allocator = true;
  });
  buffer = some 0;
  buffer_committed = true;
  buffers = [];
  unreleased = λ w. false;
  attached = [];
  commit_events = 0;
  on_commits = 0;
  frames = frames;
  allocator = 0;
}

commit-Outcome_example : Outcome out (commit acquire format_of there make out)
commit-Outcome_example = commit-Outcome acquire format_of there make out
