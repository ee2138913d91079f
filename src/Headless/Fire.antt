-- ===== src/Headless/Fire.antt =====
-- What dispatchTimers of src/backend/Headless.cpp fires, and what it leaves to wait.
use aquamarine.Common.{
  append_assoc, append_nil, ℕ, ◌+◌, subst, true, false, some, List, [], ◌∷◌, ◌++◌, if◌then◌else◌,
  ltb, ◌≡◌, refl, sym, ◌∙◌, ap, All, Bool-cases, inl, inr,
}
use aquamarine.Headless.{
  Out, Timer, Sys, Action, put, pending, to_fire, frame_cb, fire, fire_all, dispatch_timers,
  update_timer_fd,
}
use aquamarine.Headless.Timers.{
  NoneBefore, soonest-NoneBefore, IsRated, Kept, Kept-refl, Kept-trans, Kept-IsRated, put-Kept,
  Yields, act_all-Kept,
}

-- The outputs of the timers whose output is there still.
abbrev pub living : (ℕ → Out) → List Timer → List ℕ
living outs [] = []
living outs (t ∷ rest) =
    let others = living outs rest in if (outs t.output).alive then t.output ∷ others else others

living_same :
    (f g : ℕ → Out) (ts : List Timer)
    → ((n : ℕ) → (g n).alive ≡ (f n).alive)
    → living g ts ≡ living f ts
living_same f g [] h = refl
living_same f g (t ∷ rest) h = rw (h t.output, living_same f g rest h) refl

-- With these frames more.
abbrev pub framed : List ℕ → Sys → Sys
framed fs s = record s { frames = s.frames ++ fs }

-- Frames may come before a call or after it.
framed-Kept : (fs : List ℕ) (s s' : Sys) → Kept s s' → Kept (framed fs s) (framed fs s')
framed-Kept fs s s' k = record {
  now = k.now;
  frames = ap (λ xs. xs ++ fs) k.frames;
  alive = k.alive;
  mode = k.mode;
  custom_mode = k.custom_mode;
  more = k.more;
  timers = k.timers;
}

framed_none : (s : Sys) → Kept (framed [] s) s
framed_none s =
    subst (λ fs. Kept (record s { frames = fs }) s) (sym (append_nil s.frames)) (Kept-refl s)

living_cons :
    (outs : ℕ → Out) (t : Timer) (rest : List Timer)
    → living outs (t ∷ rest) ≡ living outs (t ∷ []) ++ living outs rest
living_cons outs t rest = elim (Bool-cases (outs t.output).alive) [
  | inl here ↦ rw here refl
  | inr gone ↦ rw gone refl
]

to_fire_past : (now : ℕ) (ts : List Timer) → All (λ t. ltb t.due now ≡ true) (to_fire now ts)
to_fire_past now [] = tt
to_fire_past now (t ∷ rest) = elim (Bool-cases (ltb t.due now)) [
  | inl past ↦ rw past (past, to_fire_past now rest)
  | inr ahead ↦ rw ahead (to_fire_past now rest)
]

pending_ahead : (now : ℕ) (ts : List Timer) → All (λ t. ltb t.due now ≡ false) (pending now ts)
pending_ahead now [] = tt
pending_ahead now (t ∷ rest) = elim (Bool-cases (ltb t.due now)) [
  | inl past ↦ rw past (pending_ahead now rest)
  | inr ahead ↦ rw ahead (ahead, pending_ahead now rest)
]

module _ (on_frame : Sys → ℕ → List Action) where
  frame_cb-Kept : (n : ℕ) (s : Sys) → IsRated s → Yields (framed (n ∷ []) s) (frame_cb on_frame n s)
  unfolding frame_cb
  frame_cb-Kept n s r =
      let s0 = framed (n ∷ []) s in
      let s1 = put n (record (s.outs n) { frame_scheduled = false; last_frame = s.now }) s0 in
      let k1 =
        put-Kept n (record (s.outs n) { frame_scheduled = false; last_frame = s.now }) s0 refl refl
          refl in
      let (s2, done, k2) = act_all-Kept (on_frame s1 n) s1 (Kept-IsRated s0 s1 k1 r) in
      (s2, done, Kept-trans s0 s1 s2 k1 k2)

  fire-Kept :
      (t : Timer) (s : Sys)
      → IsRated s
      → Yields (framed (living s.outs (t ∷ [])) s) (fire on_frame t s)
  unfolding fire
  fire-Kept t s r = elim (Bool-cases (s.outs t.output).alive) [
    | inl here ↦ rw here (
        let (s1, done, k) = frame_cb-Kept t.output s r in
        let o = record (s1.outs t.output) { last_frame = t.due } in
        (
          put t.output o s1,
          rw done refl,
          Kept-trans (framed (t.output ∷ []) s) s1 (put t.output o s1) k
              (put-Kept t.output o s1 refl refl refl),
        ))
    | inr gone ↦ rw gone (s, refl, framed_none s)
  ]

  fire_all-Kept :
      (ts : List Timer) (s : Sys)
      → IsRated s
      → Yields (framed (living s.outs ts) s) (fire_all on_frame ts s)
  unfolding fire_all
  fire_all-Kept [] s r = (s, refl, framed_none s)
  fire_all-Kept (t ∷ rest) s r =
      let (s1, done, k) = fire-Kept t s r in
      let (s2, done2, k2) = fire_all-Kept rest s1 (Kept-IsRated _ s1 k r) in
      let k1 = framed-Kept (living s1.outs rest) _ s1 k in
      let same = living_same s.outs s1.outs rest k.alive in
      (
        s2,
        rw done done2,
        subst (λ fs. Kept (record s { frames = fs }) s2)
            (append_assoc s.frames _ _
              ∙ ap (λ fs. s.frames ++ fs)
                  (ap (λ fs. living s.outs (t ∷ []) ++ fs) same ∙ sym (living_cons s.outs t rest)))
            (Kept-trans _ _ s2 k1 k2),
      )

  -- When no output has a refresh rate of 0, a dispatch goes through, whatever frames the handlers
  -- schedule and commit; they change no mode and destroy no output. Each timer whose time has
  -- passed makes one frame of its output, in the order of the timers, unless the output is gone;
  -- of the others none has passed, and they stay, before those that the handlers add; and the
  -- timerfd is set to a time that none of the timers is due before.
  pub dispatch_timers_lem :
      (s : Sys)
      → IsRated s
      → (s' : Sys) × (dispatch_timers on_frame s ≡ some s')
        × (s'.frames ≡ s.frames ++ living s.outs (to_fire s.now s.timers))
        × ((more : List Timer) × (s'.timers ≡ pending s.now s.timers ++ more))
        × All (λ t. ltb t.due s.now ≡ true) (to_fire s.now s.timers)
        × All (λ t. ltb t.due s.now ≡ false) (pending s.now s.timers)
        × NoneBefore s'.armed s'.timers
  unfolding dispatch_timers update_timer_fd
  dispatch_timers_lem s r =
      let (s1, done, k) =
        fire_all-Kept (to_fire s.now s.timers) (record s { timers = pending s.now s.timers }) r in
      (
        update_timer_fd s1,
        rw done refl,
        k.frames,
        (k.more, k.timers),
        to_fire_past s.now s.timers,
        pending_ahead s.now s.timers,
        soonest-NoneBefore (s1.now + 240000000000) s1.timers,
      )
