-- ===== src/Drm/Schedule/Queue.antt =====
-- The queue of idle events and the timer, over any run (src/backend/Backend.cpp and
-- src/backend/drm/DRM.cpp).
use aquamarine.Common.{
  ℕ, ◌+◌, ◌≡◌, ◌⊎◌, inl, inr, refl, Bool, true, false, ◌&&◌, ◌||◌, List, [], ◌∷◌, ◌++◌,
  if◌then◌else◌, arith, count, count-snoc, count-erase, erase, ap, Bool-cases,
}
use aquamarine.Drm.Schedule.{
  Out, Sys, Action, Step, act, act_all, schedule_frame, destroy_output, put, idle_delay, emit_frame,
  emit_present, frame_idle, run_idle, dispatch_idle, flipped, finish_frame, handle_pf, step,
  run_steps, schedules, commits, does, flips, destroys, idles,
}

abbrev pub once : Bool → ℕ
once b = if b then 1 else 0

-- Each output's callback is in the queue, or in the rest of the ones being run, as often as its
-- flag says: once or not at all.
abbrev Counted : List ℕ → Sys → Type 0
Counted rest s = (n : ℕ) → count n rest + count n s.pending ≡ once (s.outs n).frame_event_scheduled

-- The timer goes off at once if something is queued.
abbrev IsArmed : Sys → Type 0
IsArmed s = (s.pending ≡ []) ⊎ (s.armed ≡ 0)

snoc_armed : (xs : List ℕ) (x : ℕ) → idle_delay (xs ++ (x ∷ [])) ≡ 0
snoc_armed [] x = refl
snoc_armed (y ∷ xs) x = refl

schedule_frame-Counted :
    (rest : List ℕ) (n : ℕ) (s : Sys) → Counted rest s → Counted rest (schedule_frame n s)
unfolding schedule_frame
schedule_frame-Counted rest n s h m = ground (arith, h m, h n, count-snoc m n s.pending)

schedule_frame-IsArmed : (n : ℕ) (s : Sys) → IsArmed s → IsArmed (schedule_frame n s)
unfolding schedule_frame
schedule_frame-IsArmed n s h = ground (arith, snoc_armed s.pending n)

-- Both hold.
pub record IsQueued (rest : List ℕ) (s : Sys) : Type 0 where
  pub counted : (n : ℕ) → count n rest + count n s.pending ≡ once (s.outs n).frame_event_scheduled
  pub timer : (s.pending ≡ []) ⊎ (s.armed ≡ 0)

pub schedule_frame-IsQueued :
    (rest : List ℕ) (n : ℕ) (s : Sys) → IsQueued rest s → IsQueued rest (schedule_frame n s)
schedule_frame-IsQueued rest n s q = record {
  counted = schedule_frame-Counted rest n s q.counted;
  timer = schedule_frame-IsArmed n s q.timer;
}

-- An output whose flag is kept.
put-IsQueued :
    (rest : List ℕ) (n : ℕ) (o : Out) (s : Sys)
    → o.frame_event_scheduled ≡ (s.outs n).frame_event_scheduled
    → IsQueued rest s
    → IsQueued rest (put n o s)
put-IsQueued rest n o s same q = record {
  counted = λ m. ground (arith, q.counted m, q.counted n);
  timer = q.timer;
}

act-IsQueued : (rest : List ℕ) (a : Action) (s : Sys) → IsQueued rest s → IsQueued rest (act a s)
unfolding act
act-IsQueued rest (schedules n) s q = schedule_frame-IsQueued rest n s q
act-IsQueued rest (commits n flip on) s q = put-IsQueued rest n _ s refl q

act_all-IsQueued :
    (rest : List ℕ) (xs : List Action) (s : Sys) → IsQueued rest s → IsQueued rest (act_all xs s)
unfolding act_all
act_all-IsQueued rest [] s q = q
act_all-IsQueued rest (a ∷ xs) s q = act_all-IsQueued rest xs (act a s) (act-IsQueued rest a s q)

destroy_output-IsQueued : (n : ℕ) (s : Sys) → IsQueued [] s → IsQueued [] (destroy_output n s)
unfolding destroy_output
destroy_output-IsQueued n s q = record {
  counted = λ m. ground (arith, q.counted m, count-erase m n s.pending);
  timer = elim q.timer [ inl e ↦ inl (ap (erase n) e) | inr e ↦ inr e ];
}

module _ (on_frame on_present : Sys → ℕ → List Action) where
  emit_frame-IsQueued :
      (rest : List ℕ) (n : ℕ) (s : Sys)
      → IsQueued rest s
      → IsQueued rest (emit_frame on_frame on_present n s)
  unfolding emit_frame
  emit_frame-IsQueued rest n s q =
      let s' = record s { frames = s.frames ++ (n ∷ []) } in
      act_all-IsQueued rest (on_frame s' n) s' (record { counted = q.counted; timer = q.timer })

  emit_present-IsQueued :
      (rest : List ℕ) (n : ℕ) (s : Sys)
      → IsQueued rest s
      → IsQueued rest (emit_present on_frame on_present n s)
  unfolding emit_present
  emit_present-IsQueued rest n s q =
      let s' = record s { presents = s.presents ++ (n ∷ []) } in
      act_all-IsQueued rest (on_present s' n) s' (record { counted = q.counted; timer = q.timer })

  -- The callback takes its flag back, and is not in the rest any more.
  taken-IsQueued :
      (rest : List ℕ) (n : ℕ) (s : Sys)
      → IsQueued (n ∷ rest) s
      → IsQueued rest (put n (record (s.outs n) { frame_event_scheduled = false }) s)
  taken-IsQueued rest n s q = record {
    counted = λ m. ground (arith, q.counted m, q.counted n);
    timer = q.timer;
  }

  frame_idle-IsQueued :
      (rest : List ℕ) (n : ℕ) (s : Sys)
      → IsQueued (n ∷ rest) s
      → IsQueued rest (frame_idle on_frame on_present n s)
  unfolding frame_idle
  frame_idle-IsQueued rest n s q =
      elim (Bool-cases ((s.outs n).page_flip_pending || (s.outs n).frame_running)) [
        | inl busy ↦ rw busy (taken-IsQueued rest n s q)
        | inr free ↦ rw free (emit_frame-IsQueued rest n _ (taken-IsQueued rest n s q))
      ]

  run_idle-IsQueued :
      (rest : List ℕ) (s : Sys)
      → IsQueued rest s
      → IsQueued [] (run_idle on_frame on_present rest s)
  unfolding run_idle
  run_idle-IsQueued [] s q = q
  run_idle-IsQueued (n ∷ rest) s q =
      run_idle-IsQueued rest (frame_idle on_frame on_present n s) (frame_idle-IsQueued rest n s q)

  delay_armed : (xs : List ℕ) → (xs ≡ []) ⊎ (idle_delay xs ≡ 0)
  delay_armed [] = inl refl
  delay_armed (x ∷ xs) = inr refl

  dispatch_idle-IsQueued :
      (s : Sys) → IsQueued [] s → IsQueued [] (dispatch_idle on_frame on_present s)
  unfolding dispatch_idle
  dispatch_idle-IsQueued s q =
      let ran =
        run_idle-IsQueued s.pending (record s { pending = [] })
          (record { counted = λ m. ground (arith, q.counted m); timer = inl refl }) in
      record { counted = ran.counted; timer = delay_armed _ }

  finish_frame-IsQueued :
      (n : ℕ) (s : Sys) → IsQueued [] s → IsQueued [] (finish_frame on_frame on_present n s)
  finish_frame-IsQueued n s q = elim (Bool-cases (s.session_active && (s.outs n).enabled_state)) [
    | inl goes ↦ rw goes (
        put-IsQueued [] n _ (emit_frame on_frame on_present n s) refl
          (emit_frame-IsQueued [] n s q))
    | inr stops ↦ rw stops q
  ]

  flipped-IsQueued :
      (here runs : Bool) (n : ℕ) (o : Out) (s : Sys)
      → o.frame_event_scheduled ≡ (s.outs n).frame_event_scheduled
      → IsQueued [] s
      → IsQueued [] (flipped on_frame on_present here runs n o s)
  flipped-IsQueued false runs n o s same q = put-IsQueued [] n o s same q
  flipped-IsQueued true false n o s same q =
      finish_frame-IsQueued n _ (emit_present-IsQueued [] n _ (put-IsQueued [] n o s same q))
  flipped-IsQueued true true n o s same q =
      finish_frame-IsQueued n _ (emit_present-IsQueued [] n _ (put-IsQueued [] n _ s same q))

  handle_pf-IsQueued :
      (n : ℕ) (s : Sys) → IsQueued [] s → IsQueued [] (handle_pf on_frame on_present n s)
  unfolding handle_pf
  handle_pf-IsQueued n s q = flipped-IsQueued (s.outs n).connected _ n _ s refl q

  step-IsQueued :
      (x : Step on_frame on_present) (s : Sys)
      → IsQueued [] s
      → IsQueued [] (step on_frame on_present x s)
  unfolding step
  step-IsQueued (does a) s q = act-IsQueued [] a s q
  step-IsQueued (flips n) s q = handle_pf-IsQueued n s q
  step-IsQueued (destroys n) s q = destroy_output-IsQueued n s q
  step-IsQueued idles s q = dispatch_idle-IsQueued s q

  -- Whatever happens to the backend, in any order, and whatever frames the compositor schedules
  -- and commits from its events, in which it destroys no output: an output's callback is among the
  -- idle events once if its flag says that it is scheduled, and not at all otherwise; and while
  -- any is queued, the idle timer is set to go off at once. This holds before, and so after.
  pub run_steps-IsQueued :
      (xs : List (Step on_frame on_present)) (s : Sys)
      → IsQueued [] s
      → IsQueued [] (run_steps on_frame on_present xs s)
  unfolding run_steps
  run_steps-IsQueued [] s q = q
  run_steps-IsQueued (x ∷ xs) s q =
      run_steps-IsQueued xs (step on_frame on_present x s) (step-IsQueued x s q)
