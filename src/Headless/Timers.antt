-- ===== src/Headless/Timers.antt =====
-- The timers of src/backend/Headless.cpp: when the timerfd is set to go off, and what a call of
-- a handler leaves alone.
use aquamarine.Common.{
  append_assoc, append_nil, ℕ, ◌≤◌, true, false, Option, none, some, List, [], ◌∷◌, ◌++◌, ltb, leb,
  ◌≡◌, refl, sym, ◌∙◌, ap, arith, All, Bool-cases, inl, inr, is_some,
}
use aquamarine.Headless.{
  Out, Timer, Sys, Action, schedules, commits, schedule_frame, commit, act, act_all, add_timer,
  update_timer_fd, soonest, queue_frame, queue_after, frame_interval, refresh_rate, put,
}

-- No timer is due before `t`.
abbrev pub NoneBefore : ℕ → List Timer → Type 0
NoneBefore t xs = All (λ x. t ≤ x.due) xs

soonest_below : (t : ℕ) (xs : List Timer) → soonest t xs ≤ t
soonest_below t [] = omega arith
soonest_below t (x ∷ xs) = ground (arith, soonest_below t xs, soonest_below x.due xs)

soonest_bound : (u t : ℕ) (xs : List Timer) → u ≤ soonest t xs → NoneBefore u xs
soonest_bound u t [] h = tt
soonest_bound u t (x ∷ xs) h = elim (Bool-cases (ltb x.due t)) [
  | inl sooner ↦ (ground (arith, soonest_below x.due xs), soonest_bound u x.due xs (ground arith))
  | inr later ↦ (ground (arith, soonest_below t xs), soonest_bound u t xs (ground arith))
]

pub soonest-NoneBefore : (t : ℕ) (xs : List Timer) → NoneBefore (soonest t xs) xs
soonest-NoneBefore t xs = soonest_bound (soonest t xs) t xs (omega arith)

-- No output has a refresh rate of 0.
abbrev pub IsRated : Sys → Type 0
IsRated s =
    (n : ℕ) → is_some (frame_interval (refresh_rate (s.outs n).mode (s.outs n).custom_mode)) ≡ true

-- What a handler's calls leave alone.
pub record Kept (s s' : Sys) : Type 0 where
  pub now : s'.now ≡ s.now
  pub frames : s'.frames ≡ s.frames
  pub alive : (n : ℕ) → (s'.outs n).alive ≡ (s.outs n).alive
  pub mode : (n : ℕ) → (s'.outs n).mode ≡ (s.outs n).mode
  pub custom_mode : (n : ℕ) → (s'.outs n).custom_mode ≡ (s.outs n).custom_mode
  pub more : List Timer
  pub timers : s'.timers ≡ s.timers ++ more

pub Kept-refl : (s : Sys) → Kept s s
Kept-refl s = record {
  now = refl;
  frames = refl;
  alive = λ n. refl;
  mode = λ n. refl;
  custom_mode = λ n. refl;
  more = [];
  timers = sym (append_nil s.timers);
}

pub Kept-trans : (s t u : Sys) → Kept s t → Kept t u → Kept s u
Kept-trans s t u k l = record {
  now = l.now ∙ k.now;
  frames = l.frames ∙ k.frames;
  alive = λ n. l.alive n ∙ k.alive n;
  mode = λ n. l.mode n ∙ k.mode n;
  custom_mode = λ n. l.custom_mode n ∙ k.custom_mode n;
  more = k.more ++ l.more;
  timers = l.timers ∙ ap (λ xs. xs ++ l.more) k.timers ∙ append_assoc s.timers k.more l.more;
}

pub Kept-IsRated : (s s' : Sys) → Kept s s' → IsRated s → IsRated s'
Kept-IsRated s s' k r n = rw (k.mode n, k.custom_mode n) (r n)

-- An output with other flags and another last frame.
pub put-Kept :
    (n : ℕ) (o : Out) (s : Sys)
    → o.alive ≡ (s.outs n).alive
    → o.mode ≡ (s.outs n).mode
    → o.custom_mode ≡ (s.outs n).custom_mode
    → Kept s (put n o s)
put-Kept n o s a m c = record {
  now = refl;
  frames = refl;
  alive = λ k. ground arith;
  mode = λ k. ground arith;
  custom_mode = λ k. ground arith;
  more = [];
  timers = sym (append_nil s.timers);
}

queue_frame-Kept : (next n : ℕ) (s : Sys) → Kept s (queue_frame next n s)
unfolding add_timer update_timer_fd
queue_frame-Kept next n s = elim (Bool-cases (leb next s.now)) [
  | inl past ↦ rw past (record {
    now = refl;
    frames = refl;
    alive = λ k. refl;
    mode = λ k. refl;
    custom_mode = λ k. refl;
    more = [];
    timers = sym (append_nil s.timers);
  })
  | inr ahead ↦ rw ahead (record {
    now = refl;
    frames = refl;
    alive = λ k. refl;
    mode = λ k. refl;
    custom_mode = λ k. refl;
    more = record { due = next; output = n } ∷ [];
    timers = refl;
  })
]

-- A result that came about, from a state.
abbrev pub Yields : Sys → Option Sys → Type 0
Yields s r = (s' : Sys) × (r ≡ some s') × Kept s s'

queue_after-Kept :
    (i : Option ℕ) (n : ℕ) (s : Sys) → is_some i ≡ true → Yields s (queue_after i n s)
queue_after-Kept none n s h = ground arith
queue_after-Kept (some i) n s h = (_, refl, queue_frame-Kept _ n s)

pub schedule_frame-Kept : (n : ℕ) (s : Sys) → IsRated s → Yields s (schedule_frame n s)
unfolding schedule_frame
schedule_frame-Kept n s r = elim (Bool-cases (s.outs n).frame_scheduled) [
  | inl already ↦ rw already (_, refl, put-Kept n _ s refl refl refl)
  | inr new ↦ rw new (
      let s1 = put n (record (s.outs n) { needs_frame = true; frame_scheduled = true }) s in
      let (s2, done, k) = queue_after-Kept _ n s1 (r n) in
      (s2, done, Kept-trans s s1 s2 (put-Kept n _ s refl refl refl) k))
]

act-Kept : (a : Action) (s : Sys) → IsRated s → Yields s (act a s)
unfolding commit act schedule_frame
act-Kept (schedules n) s r = schedule_frame-Kept n s r
act-Kept (commits n) s r = (
  _,
  refl,
  let k = put-Kept n (record (s.outs n) { needs_frame = false }) s refl refl refl in
      record {
        now = refl;
        frames = refl;
        alive = k.alive;
        mode = k.mode;
        custom_mode = k.custom_mode;
        more = [];
        timers = sym (append_nil s.timers);
      },
)

pub act_all-Kept : (xs : List Action) (s : Sys) → IsRated s → Yields s (act_all xs s)
unfolding act_all
act_all-Kept [] s r = (s, refl, Kept-refl s)
act_all-Kept (a ∷ rest) s r =
    let (s1, done, k) = act-Kept a s r in
    let (s2, done2, k2) = act_all-Kept rest s1 (Kept-IsRated s s1 k r) in
    (s2, rw done done2, Kept-trans s s1 s2 k k2)
