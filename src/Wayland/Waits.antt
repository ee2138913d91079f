-- ===== src/Wayland/Waits.antt =====
-- That a frame of src/backend/Wayland.cpp that is scheduled will be sent.
use aquamarine.Common.{
  suc, ◌-◌, Bool, true, false, not, ◌&&◌, ◌||◌, List, [], ◌∷◌, ltb, if◌then◌else◌, ◌≡◌, refl, sym,
  ◌∙◌, arith,
}
use aquamarine.Wayland.{
  Frames, Action, schedules, commits, schedule_frame, committed, act, act_all, emit_frame,
  send_frame, on_frame_done, run_idle,
}

-- A scheduled frame is among the idle callbacks, or the compositor's callback is awaited and will
-- see it.
abbrev pub will_send : Frames → Bool
will_send o = not o.frame_scheduled || (ltb 0 o.idle || (o.callback && o.while_waiting))

schedule_frame_sends : (o : Frames) → will_send o ≡ true → will_send (schedule_frame o) ≡ true
unfolding schedule_frame
schedule_frame_sends o h = ground arith

act_sends : (a : Action) (o : Frames) → will_send o ≡ true → will_send (act a o) ≡ true
unfolding committed
act_sends schedules o h = schedule_frame_sends o h
act_sends commits o h = h

act_all_sends :
    (xs : List Action) (o : Frames) → will_send o ≡ true → will_send (act_all xs o) ≡ true
unfolding act_all
act_all_sends [] o h = h
act_all_sends (a ∷ rest) o h = act_all_sends rest (act a o) (act_sends a o h)

-- What happens to an output
pub data Step : Type 0 where
  does : Action → Step
  idles dones : Step

module _ (on_frame : Frames → List Action) where
  send_frame_sends : (o : Frames) → will_send (send_frame on_frame o) ≡ true
  unfolding send_frame
  send_frame_sends o = ground arith

  -- The idle callback runs only where there is one, and the compositor answers only a callback.
  unfoldable pub step : Step → Frames → Frames
  step (does a) o = act a o
  step idles o = if ltb 0 o.idle then run_idle on_frame o else o
  step dones o = if o.callback then on_frame_done on_frame o else o

  unfoldable pub run_steps : List Step → Frames → Frames
  run_steps [] o = o
  run_steps (x ∷ rest) o = run_steps rest (step x o)

  send_or_not : (o : Frames) → (not o.frame_scheduled || ltb 0 o.idle) ≡ true → will_send o ≡ true
  send_or_not o h = ground arith

-- No callback is awaited, and a scheduled frame is among the idle callbacks.
abbrev IsQueued : Frames → Type 0
IsQueued o = (o.callback ≡ false) × ((not o.frame_scheduled || ltb 0 o.idle) ≡ true)

act-IsQueued : (a : Action) (o : Frames) → IsQueued o → IsQueued (act a o)
unfolding schedule_frame committed
act-IsQueued schedules o (none_awaited, h) = (ground arith, ground arith)
act-IsQueued commits o h = h

act_all-IsQueued : (xs : List Action) (o : Frames) → IsQueued o → IsQueued (act_all xs o)
unfolding act_all
act_all-IsQueued [] o h = h
act_all-IsQueued (a ∷ rest) o h = act_all-IsQueued rest (act a o) (act-IsQueued a o h)

-- When the callback came, where none was seen to wait for it
done-IsQueued :
    (o : Frames)
    → will_send o ≡ true
    → o.while_waiting ≡ false
    → IsQueued
        (schedule_frame (record o { callback = false; ready = false; presents = suc o.presents }))
unfolding schedule_frame
done-IsQueued o h alone = (ground arith, ground arith)

schedule_frame_waiting :
    (o : Frames) → o.callback ≡ false → (schedule_frame o).while_waiting ≡ o.while_waiting
unfolding schedule_frame
schedule_frame_waiting o h = ground arith

pick :
    (b : Bool) (x y : Frames)
    → will_send x ≡ true
    → will_send y ≡ true
    → will_send (if b then x else y) ≡ true
pick true x y h k = h
pick false x y h k = k

cleared :
    (b : Bool) (x y : Frames)
    → x.frame_scheduled ≡ false
    → (b ≡ false → IsQueued y)
    → will_send (record (if b then x else y) { while_waiting = false }) ≡ true
cleared true x y sent h = ground arith
cleared false x y sent h = let (none_awaited, queued) = h refl in ground arith

module _ (on_frame : Frames → List Action) where
  send_frame_clear : (o : Frames) → (send_frame on_frame o).frame_scheduled ≡ false
  unfolding send_frame
  send_frame_clear o = ground arith

  on_frame_done_sends :
      (o : Frames) → will_send o ≡ true → will_send (on_frame_done on_frame o) ≡ true
  unfolding on_frame_done
  on_frame_done_sends o h =
      let o1 = record o { callback = false; ready = false; presents = suc o.presents } in
      let o2 = schedule_frame o1 in
      cleared o2.while_waiting (send_frame on_frame o2) (emit_frame on_frame o2)
        (send_frame_clear o2)
        (λ alone.
          let (none_awaited, queued) =
            done-IsQueued o h (sym (schedule_frame_waiting o1 refl) ∙ alone) in
          act_all-IsQueued (on_frame o2) (record o2 { frames = suc o2.frames })
            (none_awaited, queued))

  step_sends : (x : Step) (o : Frames) → will_send o ≡ true → will_send (step on_frame x o) ≡ true
  unfolding step run_idle
  step_sends (does a) o h = act_sends a o h
  step_sends idles o h =
      pick (ltb 0 o.idle) _ o (send_frame_sends on_frame (record o { idle = o.idle - 1 })) h
  step_sends dones o h = pick o.callback _ o (on_frame_done_sends o h) h

  -- Over any run of calls, idle callbacks and answers of the compositor, whatever the handlers of
  -- the frame event call: a frame that is scheduled is among the idle callbacks, or the callback is
  -- awaited that will send it. This holds before, and so after.
  pub run_steps_sends :
      (xs : List Step) (o : Frames)
      → will_send o ≡ true
      → will_send (run_steps on_frame xs o) ≡ true
  unfolding run_steps
  run_steps_sends [] o h = h
  run_steps_sends (x ∷ rest) o h = run_steps_sends rest (step on_frame x o) (step_sends x o h)
