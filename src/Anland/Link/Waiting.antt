-- ===== src/Anland/Link/Waiting.antt =====
-- That src/backend/anland/AnlandBackend.cpp goes on looking for a consumer.
use aquamarine.Anland.Link.{
  exits_fallback, emits_frame, schedules_frame, Link, World, setup_timer, teardown_timer,
  create_output, emit_output, try_connect, started, start, on_ready, enter_fallback, reconnected,
  on_timer, poll_timer, shutdown,
}
use aquamarine.Common.{ℕ, Bool, true, false, not, ◌&&◌, ◌||◌, List, [], ◌∷◌, ◌≡◌, refl, arith}
use aquamarine.Anland.Link.Tried.{
  IsWaiting, IsPending, choose-IsWaiting, setup_timer-IsWaiting, enter_fallback-IsWaiting,
  tell3-IsWaiting, IsSteady, Tried, Kept-IsPending, try_connect-Tried,
}

pub data Step : Type 0 where
  starts gets_ready falls_back timer_fires polls shuts_down : Step

unfoldable pub step : World → Step → Link → Link
step w starts l = start w l
step w gets_ready l = on_ready w l
step w falls_back l = enter_fallback w l
step w timer_fires l = on_timer w l
step w polls l = poll_timer w l
step w shuts_down l = shutdown l

unfoldable pub run_steps : List (World × Step) → Link → Link
run_steps [] l = l
run_steps ((w, x) ∷ rest) l = run_steps rest (step w x l)

module _ (w : World) (made : w.makes_timer ≡ true) where
  started-IsWaiting :
      (l : Link) (r : Bool × Link) → IsPending l → Tried w made l r → IsWaiting (started w r)
  started-IsWaiting l (true, l') p t = t.0
  started-IsWaiting l (false, l') p t =
      setup_timer-IsWaiting w made l' (Kept-IsPending w made l l' t p)

  begun-IsPending :
      (l : Link)
      → IsPending l
      → IsPending (emit_output (create_output (record l { running = true; in_fallback = true })))
  unfolding emit_output create_output
  begun-IsPending l p = ground arith

  start-IsWaiting : (l : Link) → IsWaiting l → IsWaiting (start w l)
  unfolding start
  start-IsWaiting l h =
      let l1 = emit_output (create_output (record l { running = true; in_fallback = true })) in
      let p = begun-IsPending l h.pending in
      choose-IsWaiting l.running l (started w (try_connect w l1)) (λ b. h)
        (λ b. started-IsWaiting l1 (try_connect w l1) p (try_connect-Tried w made l1 p))

  reconnected-IsWaiting :
      (l : Link) (r : Bool × Link)
      → IsSteady w made
      → IsWaiting l
      → Tried w made l r
      → IsWaiting (reconnected r)
  unfolding teardown_timer
  reconnected-IsWaiting l (true, l') steady h t = record {
    waits = ground (arith, t.1 steady);
    pending = refl;
  }
  reconnected-IsWaiting l (false, l') steady h (t, p, r, d, f) = record {
    waits = rw (t, r, d, f) h.waits;
    pending = rw (t, p) h.pending;
  }

  on_timer-IsWaiting : (l : Link) → IsSteady w made → IsWaiting l → IsWaiting (on_timer w l)
  unfolding on_timer
  on_timer-IsWaiting l steady h =
      choose-IsWaiting (not l.timer || l.destroying) l _ (λ b. h)
        (λ b.
          choose-IsWaiting l.in_fallback (reconnected (try_connect w l)) l
            (λ c.
              reconnected-IsWaiting l (try_connect w l) steady h
                (try_connect-Tried w made l h.pending))
            (λ c. h))

  poll_timer-IsWaiting : (l : Link) → IsWaiting l → IsWaiting (poll_timer w l)
  unfolding poll_timer
  poll_timer-IsWaiting l h =
      choose-IsWaiting (not l.running || l.destroying) l _ (λ b. h)
        (λ b.
          choose-IsWaiting (not l.timer && l.in_fallback) (setup_timer w l) l
            (λ c. setup_timer-IsWaiting w made l h.pending) (λ c. h))

  readied-IsWaiting : (l : Link) → IsWaiting l → IsWaiting (emit_output (create_output l))
  unfolding create_output emit_output
  readied-IsWaiting l h = record {
    waits = ground (arith, h.waits, h.pending);
    pending = ground (arith, h.waits, h.pending);
  }

  on_ready-IsWaiting : (l : Link) → IsWaiting l → IsWaiting (on_ready w l)
  unfolding on_ready
  on_ready-IsWaiting l h =
      let ready = emit_output (create_output l) in
      let kept = readied-IsWaiting l h in
      choose-IsWaiting ready.in_fallback ready _ (λ b. kept)
        (λ b. tell3-IsWaiting w made exits_fallback schedules_frame emits_frame ready kept)

shutdown-IsWaiting : (l : Link) → IsWaiting l → IsWaiting (shutdown l)
unfolding shutdown teardown_timer
shutdown-IsWaiting l h = record {
  waits = ground (arith, h.waits, h.pending);
  pending = ground (arith, h.waits, h.pending);
}

-- The kernel makes each timer that is asked for, and while a display is connected to because the
-- timer fires it does not fall back.
abbrev pub IsQuiet : World → Step → Type 0
IsQuiet w timer_fires = (w.makes_timer ≡ true) × ((n : ℕ) → w.falls n ≡ false)
IsQuiet w x = w.makes_timer ≡ true

step-IsWaiting :
    (w : World) (x : Step) (l : Link) → IsQuiet w x → IsWaiting l → IsWaiting (step w x l)
unfolding step
step-IsWaiting w starts l made h = start-IsWaiting w made l h
step-IsWaiting w gets_ready l made h = on_ready-IsWaiting w made l h
step-IsWaiting w falls_back l made h = enter_fallback-IsWaiting w made l h
step-IsWaiting w timer_fires l (made, steady) h = on_timer-IsWaiting w made l steady h
step-IsWaiting w polls l made h = poll_timer-IsWaiting w made l h
step-IsWaiting w shuts_down l made h = shutdown-IsWaiting l h

abbrev pub AllQuiet : List (World × Step) → Type 0
AllQuiet [] = Unit
AllQuiet ((w, x) ∷ rest) = IsQuiet w x × AllQuiet rest

-- Let the kernel make each timer that is asked for, and let the display not fall back in the midst
-- of a try that the timer began, between its leaving fallback and the end of that try; it may fall
-- back at any other time, also while it is connected to at the start. Then whatever is called, in
-- any order: while the backend runs, is not being destroyed and is in fallback, there is a timer
-- that makes it try again; and it never takes a timer for pending that is not there. This holds
-- after if it holds before.
pub run_steps-IsWaiting :
    (xs : List (World × Step)) (l : Link) → AllQuiet xs → IsWaiting l → IsWaiting (run_steps xs l)
unfolding run_steps
run_steps-IsWaiting [] l quiet h = h
run_steps-IsWaiting ((w, x) ∷ rest) l quiet h =
    run_steps-IsWaiting rest (step w x l) quiet.1 (step-IsWaiting w x l quiet.0 h)
