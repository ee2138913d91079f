-- ===== src/Anland/Link/Tests.antt =====
-- A display without a consumer, and one that comes late (src/backend/anland/AnlandBackend.cpp).
use aquamarine.Anland.Link.{
  Link, World, attempt, start, on_ready, on_timer, create_output, emit_output, try_connect,
  setup_timer, teardown_timer, connected, enter_fallback,
}
use aquamarine.Anland.Link.Waiting.{
  Step, starts, gets_ready, falls_back, timer_fires, polls, run_steps, run_steps-IsWaiting,
}
use aquamarine.Anland.Link.Announced.{run_steps_announce}
use aquamarine.Anland.Link.Tried.{IsWaiting}
use aquamarine.Common.{true, false, List, [], ◌∷◌, ◌==◌, ◌≡◌, refl}

abbrev world : World
world = record { daemon = true; consumer = λ n. n == 2; makes_timer = true; falls = λ n. false }

abbrev alone : World
alone = record { daemon = false; consumer = λ n. false; makes_timer = true; falls = λ n. false }

-- The consumer is there, and gone again when the camera is asked for.
abbrev brief : World
brief = record { daemon = true; consumer = λ n. true; makes_timer = true; falls = λ n. n == 0 }

abbrev unstarted : Link
unstarted = record {
  running = false;
  in_fallback = true;
  destroying = false;
  has_display = false;
  has_output = false;
  output_emitted = false;
  reconnect_pending = false;
  timer = false;
  new_outputs = 0;
  polls_changed = 0;
  calls = [];
}

abbrev late : List (World × Step)
late =
    (alone, starts)
    ∷ (alone, gets_ready)
    ∷ (world, timer_fires)
    ∷ (brief, falls_back)
    ∷ (world, polls)
    ∷ []

run_steps-IsWaiting_example : IsWaiting (run_steps late unstarted)
run_steps-IsWaiting_example =
    run_steps-IsWaiting late unstarted (refl, (refl, ((refl, λ n. refl), (refl, (refl, tt)))))
      (record { waits = refl; pending = refl })

-- The consumer comes after the backend is ready: the output is on, and was never announced.
late_consumer :
    let l = on_timer world (on_ready alone (start alone unstarted)) in
    (l.in_fallback ≡ false) × (l.has_output ≡ true) × (l.new_outputs ≡ 0)
unfolding start on_ready on_timer create_output emit_output try_connect setup_timer teardown_timer
    attempt connected
late_consumer = (refl, refl, refl)

-- It falls back while the timer's try connects it, and the timer is gone after.
fallback_without_timer :
    let l = on_timer brief (start alone unstarted) in
    (l.running ≡ true) × (l.in_fallback ≡ true) × (l.timer ≡ false)
unfolding start on_timer create_output emit_output try_connect setup_timer teardown_timer attempt
    connected enter_fallback
fallback_without_timer = (refl, refl, refl)

run_steps_announce_example :
    (run_steps ((world, starts) ∷ (brief, timer_fires) ∷ (world, polls) ∷ []) unstarted).new_outputs
    ≡ 0
run_steps_announce_example =
    run_steps_announce ((world, starts) ∷ (brief, timer_fires) ∷ (world, polls) ∷ []) unstarted
      (refl, (refl, (refl, tt)))
