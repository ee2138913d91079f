-- ===== src/Anland/Link/Announced.antt =====
-- What announces the output of src/backend/anland/AnlandBackend.cpp.
use aquamarine.Anland.Link.{
  OutputCall, enters_fallback, releases_buffers, exits_fallback, emits_frame, schedules_frame, Link,
  World, call, setup_timer, teardown_timer, create_output, emit_output, may_fall, tell, attempt,
  connected, reached, try_connect, started, start, enter_fallback, reconnected, on_timer,
  poll_timer, shutdown,
}
use aquamarine.Common.{
  ℕ, Bool, true, false, not, ◌&&◌, ◌||◌, List, [], ◌∷◌, if◌then◌else◌, ◌≡◌, refl, arith, ◌∙◌,
}
use aquamarine.Anland.Link.Waiting.{
  Step, step, run_steps, starts, gets_ready, falls_back, timer_fires, polls, shuts_down,
}

abbrev pub is_ready : Step → Bool
is_ready gets_ready = true
is_ready x = false

module _ (w : World) where
  choose_quiet :
      (b : Bool) (n : ℕ) (x y : Link)
      → x.new_outputs ≡ n
      → y.new_outputs ≡ n
      → (if b then x else y).new_outputs ≡ n
  choose_quiet true n x y h k = h
  choose_quiet false n x y h k = k

  choose_pair_quiet :
      (b : Bool) (n : ℕ) (x y : Bool × Link)
      → x.1.new_outputs ≡ n
      → y.1.new_outputs ≡ n
      → (if b then x else y).1.new_outputs ≡ n
  choose_pair_quiet true n x y h k = h
  choose_pair_quiet false n x y h k = k

  setup_timer_quiet : (l : Link) → (setup_timer w l).new_outputs ≡ l.new_outputs
  unfolding setup_timer
  setup_timer_quiet l = ground arith

  enter_fallback_quiet : (l : Link) → (enter_fallback w l).new_outputs ≡ l.new_outputs
  unfolding enter_fallback
  enter_fallback_quiet l =
      let lost = record l { in_fallback = true; output_emitted = false } in
      let told = call (enters_fallback ∷ releases_buffers ∷ []) lost in
      choose_quiet (l.in_fallback || l.destroying) l.new_outputs l _ refl
        (setup_timer_quiet told ∙ choose_quiet l.has_output l.new_outputs _ lost refl refl)

  may_fall_quiet : (n : ℕ) (l : Link) → (may_fall w n l).new_outputs ≡ l.new_outputs
  may_fall_quiet n l =
      choose_quiet (w.falls n) l.new_outputs (enter_fallback w l) l (enter_fallback_quiet l) refl

  tell_quiet : (n : ℕ) (x : OutputCall) (l : Link) → (tell w n x l).new_outputs ≡ l.new_outputs
  tell_quiet n x l =
      let told = call (x ∷ []) l in
      choose_quiet l.has_output l.new_outputs (may_fall w n told) l
        (may_fall_quiet n told ∙ choose_quiet l.has_output l.new_outputs _ l refl refl) refl

  connected_quiet : (l : Link) → (connected w l).new_outputs ≡ l.new_outputs
  unfolding connected
  connected_quiet l =
      let here = may_fall w 0 (record l { in_fallback = false }) in
      let one = tell w 1 exits_fallback here in
      let two = tell w 2 emits_frame one in
      tell_quiet 3 schedules_frame two
      ∙ tell_quiet 2 emits_frame one
      ∙ tell_quiet 1 exits_fallback here
      ∙ may_fall_quiet 0 (record l { in_fallback = false })

  reached_quiet : (b : Bool) (l : Link) → (reached w b l).1.new_outputs ≡ l.new_outputs
  reached_quiet true l = connected_quiet l
  reached_quiet false l = refl

  created_quiet :
      (l : Link) → (create_output (record l { has_display = true })).new_outputs ≡ l.new_outputs
  unfolding create_output
  created_quiet l = ground arith

  try_connect_quiet : (l : Link) → (try_connect w l).1.new_outputs ≡ l.new_outputs
  unfolding try_connect
  try_connect_quiet l =
      let created = create_output (record l { has_display = true }) in
      choose_pair_quiet l.destroying l.new_outputs (false, l) _ refl
        (choose_pair_quiet (l.has_display || w.daemon) l.new_outputs _ (false, l)
          (reached_quiet (attempt created.destroying w.consumer 0 100) created ∙ created_quiet l)
          refl)

  started_quiet : (r : Bool × Link) → (started w r).new_outputs ≡ r.1.new_outputs
  started_quiet (true, l) = refl
  started_quiet (false, l) = setup_timer_quiet l

  reconnected_quiet : (r : Bool × Link) → (reconnected r).new_outputs ≡ r.1.new_outputs
  unfolding teardown_timer
  reconnected_quiet (true, l) = refl
  reconnected_quiet (false, l) = refl

  -- In fallback nothing is announced.
  begun_quiet :
      (l : Link)
      → (emit_output (create_output (record l { running = true; in_fallback = true }))).new_outputs
        ≡ l.new_outputs
  unfolding emit_output create_output
  begun_quiet l = ground arith

  step_announces :
      (x : Step) (l : Link) → is_ready x ≡ false → (step w x l).new_outputs ≡ l.new_outputs
  unfolding step start on_timer poll_timer shutdown teardown_timer
  step_announces starts l h =
      let l1 = emit_output (create_output (record l { running = true; in_fallback = true })) in
      choose_quiet l.running l.new_outputs l _ refl
        (started_quiet (try_connect w l1) ∙ try_connect_quiet l1 ∙ begun_quiet l)
  step_announces gets_ready l h = ground arith
  step_announces falls_back l h = enter_fallback_quiet l
  step_announces timer_fires l h =
      choose_quiet (not l.timer || l.destroying) l.new_outputs l _ refl (
        choose_quiet l.in_fallback l.new_outputs _ l
          (reconnected_quiet (try_connect w l) ∙ try_connect_quiet l) refl)
  step_announces polls l h =
      choose_quiet (not l.running || l.destroying) l.new_outputs l _ refl
        (choose_quiet (not l.timer && l.in_fallback) l.new_outputs _ l (setup_timer_quiet l) refl)
  step_announces shuts_down l h = ground arith

abbrev pub NeverReady : List (World × Step) → Type 0
NeverReady [] = Unit
NeverReady ((w, x) ∷ rest) = (is_ready x ≡ false) × NeverReady rest

-- Only the backend's getting ready announces the output: however often it is started, connects when
-- the timer fires, also with a fallback in the midst of it, falls back, is polled or shuts down, no
-- event of a new output is sent as long as onReady is not called.
pub run_steps_announce :
    (xs : List (World × Step)) (l : Link)
    → NeverReady xs
    → (run_steps xs l).new_outputs ≡ l.new_outputs
unfolding run_steps
run_steps_announce [] l h = refl
run_steps_announce ((w, x) ∷ rest) l h =
    run_steps_announce rest (step w x l) h.1 ∙ step_announces w x l h.0
