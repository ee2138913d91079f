-- ===== src/Drm/Schedule/Later.antt =====
-- What calls of the compositor leave as it was, for src/backend/drm/DRM.cpp's frames.
use aquamarine.Common.{ℕ, ◌≤◌, ◌≡◌, ◌⊎◌, refl, true, List, [], ◌∷◌, arith, count}
use aquamarine.Drm.Schedule.{
  Sys, Action, act, act_all, schedule_frame, commit_done, schedules, commits,
}
use aquamarine.Drm.Schedule.Queue.{IsQueued, schedule_frame-IsQueued}

-- After `scheduleFrame` on an enabled output of a backend whose queue is right, a frame event is
-- on its way: a page flip is pending, a frame is running, or the output's callback is queued and
-- the idle timer is set to go off at once.
pub schedule_frame_awaited :
    (n : ℕ) (s : Sys)
    → IsQueued [] s
    → (s.outs n).enabled_state ≡ true
    → let s' = schedule_frame n s in
      ((s'.outs n).page_flip_pending ≡ true)
      ⊎ ((s'.outs n).frame_running ≡ true)
      ⊎ ((count n s'.pending ≡ 1) × (s'.armed ≡ 0))
unfolding schedule_frame
schedule_frame_awaited n s q on =
    let after = schedule_frame-IsQueued [] n s q in ground (arith, after.counted n, after.timer)

-- What the calls of the compositor keep.
pub record Later (s s' : Sys) : Type 0 where
  pub flips : (n : ℕ) → (s.outs n).page_flip_pending ≡ true → (s'.outs n).page_flip_pending ≡ true
  pub running : (n : ℕ) → (s'.outs n).frame_running ≡ (s.outs n).frame_running
  pub frames : (n : ℕ) → count n s.frames ≤ count n s'.frames
  pub presents : (n : ℕ) → count n s.presents ≤ count n s'.presents
  pub session : s'.session_active ≡ s.session_active

pub Later-refl : (s : Sys) → Later s s
Later-refl s = record {
  flips = λ n h. h;
  running = λ n. refl;
  frames = λ n. omega arith;
  presents = λ n. omega arith;
  session = refl;
}

pub Later-trans : {s t u : Sys} → Later s t → Later t u → Later s u
Later-trans a b = record {
  flips = λ n h. b.flips n (a.flips n h);
  running = λ n. ground (arith, a.running n, b.running n);
  frames = λ n. omega (arith, a.frames n, b.frames n);
  presents = λ n. omega (arith, a.presents n, b.presents n);
  session = ground (arith, a.session, b.session);
}

act-Later : (a : Action) (s : Sys) → Later s (act a s)
unfolding act schedule_frame commit_done
act-Later (schedules n) s = record {
  flips = λ m h. ground arith;
  running = λ m. ground arith;
  frames = λ m. ground arith;
  presents = λ m. ground arith;
  session = ground arith;
}
act-Later (commits n flip on) s = record {
  flips = λ m h. ground arith;
  running = λ m. ground arith;
  frames = λ m. ground arith;
  presents = λ m. ground arith;
  session = ground arith;
}

pub act_all-Later : (xs : List Action) (s : Sys) → Later s (act_all xs s)
unfolding act_all
act_all-Later [] s = Later-refl s
act_all-Later (a ∷ xs) s = Later-trans (act-Later a s) (act_all-Later xs (act a s))
