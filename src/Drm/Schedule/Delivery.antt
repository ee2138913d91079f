-- ===== src/Drm/Schedule/Delivery.antt =====
-- Whether a frame that was asked for is delivered (scheduleFrame, frameIdle and handlePF of
-- src/backend/drm/DRM.cpp).
use aquamarine.Common.{
  ℕ, ◌≤◌, ◌<◌, ◌≡◌, ◌⊎◌, inl, inr, refl, Bool, true, false, not, ◌||◌, List, [], ◌∷◌, ◌++◌, ◌==◌,
  arith, count, count-snoc, Bool-cases, subst, ap, ◌∙◌,
}
use aquamarine.Drm.Schedule.{
  Out, Sys, Action, act, act_all, schedule_frame, put, is_awaited, emit_frame, emit_present,
  frame_idle, run_idle, dispatch_idle, flipped, finish_frame, handle_pf, schedules,
}
use aquamarine.Drm.Schedule.Later.{Later, Later-refl, Later-trans, act_all-Later}

module _ (on_frame on_present : Sys → ℕ → List Action) where
  emit_frame-Later : (n : ℕ) (s : Sys) → Later s (emit_frame on_frame on_present n s)
  unfolding emit_frame
  emit_frame-Later n s =
      let s' = record s { frames = s.frames ++ (n ∷ []) } in
      Later-trans
        (record {
          flips = λ m h. h;
          running = λ m. refl;
          frames = λ m. omega (arith, count-snoc m n s.frames);
          presents = λ m. omega arith;
          session = refl;
        })
        (act_all-Later (on_frame s' n) s')

  -- The output itself is sent its event.
  emit_frame-sent :
      (n : ℕ) (s : Sys) → count n s.frames < count n (emit_frame on_frame on_present n s).frames
  unfolding emit_frame
  emit_frame-sent n s =
      let s' = record s { frames = s.frames ++ (n ∷ []) } in
      ground (arith, (act_all-Later (on_frame s' n) s').frames n, count-snoc n n s.frames)

  cleared-Later :
      (n : ℕ) (s : Sys) → Later s (put n (record (s.outs n) { frame_event_scheduled = false }) s)
  cleared-Later n s = record {
    flips = λ m h. ground arith;
    running = λ m. ground arith;
    frames = λ m. omega arith;
    presents = λ m. omega arith;
    session = refl;
  }

  frame_idle-Later : (n : ℕ) (s : Sys) → Later s (frame_idle on_frame on_present n s)
  unfolding frame_idle
  frame_idle-Later n s =
      elim (Bool-cases ((s.outs n).page_flip_pending || (s.outs n).frame_running)) [
        | inl busy ↦ rw busy (cleared-Later n s)
        | inr free ↦ rw free (Later-trans (cleared-Later n s) (emit_frame-Later n _))
      ]

  -- An output has had its turn: it was sent a frame, or a frame is still to come from elsewhere.
  abbrev Served : ℕ → Sys → Sys → Type 0
  Served n s s' =
      (count n s.frames < count n s'.frames)
      ⊎ ((s'.outs n).page_flip_pending ≡ true)
      ⊎ ((s'.outs n).frame_running ≡ true)

  Served-then : (n : ℕ) (s t u : Sys) → Served n s t → Later t u → Served n s u
  Served-then n s t u v l = ground (arith, l.flips n, l.running n, l.frames n)

  Served-after : (n : ℕ) (s t u : Sys) → Later s t → Served n t u → Served n s u
  Served-after n s t u l v = ground (arith, l.frames n)

  frame_idle-Served : (n : ℕ) (s : Sys) → Served n s (frame_idle on_frame on_present n s)
  unfolding frame_idle
  frame_idle-Served n s =
      elim (Bool-cases ((s.outs n).page_flip_pending || (s.outs n).frame_running)) [
        | inl busy ↦ rw busy (ground arith)
        | inr free ↦ rw free (inl (emit_frame-sent n _))
      ]

  run_idle-Later : (rest : List ℕ) (s : Sys) → Later s (run_idle on_frame on_present rest s)
  unfolding run_idle
  run_idle-Later [] s = Later-refl s
  run_idle-Later (n ∷ rest) s =
      Later-trans (frame_idle-Later n s) (run_idle-Later rest (frame_idle on_frame on_present n s))

  run_idle-Served :
      (n : ℕ) (rest : List ℕ) (s : Sys)
      → 0 < count n rest
      → Served n s (run_idle on_frame on_present rest s)
  unfolding run_idle
  run_idle-Served n [] s h = absurd (omega arith)
  run_idle-Served n (m ∷ rest) s h = elim (Bool-cases (n == m)) [
    | inl same ↦
        subst
          (λ k. Served k s (run_idle on_frame on_present rest (frame_idle on_frame on_present m s)))
          (ground arith)
          (Served-then m s _ _ (frame_idle-Served m s)
            (run_idle-Later rest (frame_idle on_frame on_present m s)))
    | inr other ↦
        Served-after n s (frame_idle on_frame on_present m s)
          (run_idle on_frame on_present rest (frame_idle on_frame on_present m s))
          (frame_idle-Later m s)
          (run_idle-Served n rest (frame_idle on_frame on_present m s) (ground arith))
  ]

  -- An output whose callback is queued is sent a frame event when the idle events are dispatched,
  -- unless a page flip of it is pending or a frame is running afterwards; whatever the compositor
  -- calls from the frame events of this and the other outputs.
  pub dispatch_idle_frame :
      (n : ℕ) (s : Sys)
      → 0 < count n s.pending
      → let s' = dispatch_idle on_frame on_present s in
        (count n s.frames < count n s'.frames)
        ⊎ ((s'.outs n).page_flip_pending ≡ true)
        ⊎ ((s'.outs n).frame_running ≡ true)
  unfolding dispatch_idle
  dispatch_idle_frame n s queued = run_idle-Served n s.pending (record s { pending = [] }) queued

  finish_frame_lem :
      (n : ℕ) (s : Sys)
      → s.session_active ≡ true
      → (s.outs n).enabled_state ≡ true
      → let s' = finish_frame on_frame on_present n s in
        (count n s.frames < count n s'.frames)
        × ((s'.outs n).frame_running ≡ false)
        × (count n s.presents ≤ count n s'.presents)
  finish_frame_lem n s active on =
      ground (arith, emit_frame-sent n s, (emit_frame-Later n s).presents n)

  quiet_present :
      (n : ℕ) (s : Sys)
      → ((t : Sys) → on_present t n ≡ [])
      → emit_present on_frame on_present n s ≡ record s { presents = s.presents ++ (n ∷ []) }
  unfolding emit_present act_all
  quiet_present n s quiet = rw (quiet (record s { presents = s.presents ++ (n ∷ []) })) refl

  -- The system after the present event, which the compositor leaves alone.
  abbrev shown : ℕ → Sys → Sys
  shown n s =
      record (put n (record (s.outs n) { page_flip_pending = false; frame_running = true }) s) {
        presents = s.presents ++ (n ∷ []);
      }

  flipped_on :
      (here runs : Bool) (n : ℕ) (o : Out) (s : Sys)
      → here ≡ true
      → runs ≡ true
      → flipped on_frame on_present here runs n o s
        ≡ finish_frame on_frame on_present n
            (emit_present on_frame on_present n (put n (record o { frame_running = true }) s))
  flipped_on false runs n o s h r = absurd (ground arith)
  flipped_on true false n o s h r = absurd (ground arith)
  flipped_on true true n o s h r = refl

  handle_pf_quiet :
      (n : ℕ) (s : Sys)
      → (s.outs n).connected ≡ true
      → (s.outs n).enabled_state ≡ true
      → s.session_active ≡ true
      → ((t : Sys) → on_present t n ≡ [])
      → handle_pf on_frame on_present n s ≡ finish_frame on_frame on_present n (shown n s)
  unfolding handle_pf
  handle_pf_quiet n s here on active quiet =
      flipped_on _ _ n (record (s.outs n) { page_flip_pending = false }) s here (ground arith)
      ∙ ap (finish_frame on_frame on_present n) (
          quiet_present n
            (put n (record (s.outs n) { page_flip_pending = false; frame_running = true }) s) quiet)

  -- The page flip of an output that is connected and enabled, in an active session, sends it a
  -- frame event and leaves no frame running, if the compositor calls nothing from the present
  -- event.
  pub handle_pf_frame :
      (n : ℕ) (s : Sys)
      → (s.outs n).connected ≡ true
      → (s.outs n).enabled_state ≡ true
      → s.session_active ≡ true
      → ((t : Sys) → on_present t n ≡ [])
      → let s' = handle_pf on_frame on_present n s in
        (count n s.frames < count n s'.frames)
        × ((s'.outs n).frame_running ≡ false)
        × (count n s.presents < count n s'.presents)
  handle_pf_frame n s here on active quiet =
      let done = finish_frame_lem n (shown n s) active (ground arith) in
      rw (handle_pf_quiet n s here on active quiet)
        (ground (arith, done, count-snoc n n s.presents))

  -- A call of `scheduleFrame` while a frame is running only notes it.
  schedule_running :
      (n : ℕ) (s : Sys)
      → (s.outs n).frame_running ≡ true
      → schedule_frame n s ≡ put n (record (s.outs n) { needs_frame = true }) s
  unfolding schedule_frame
  schedule_running n s running =
      let waits : (is_awaited (s.outs n) || not (s.outs n).enabled_state) ≡ true = ground arith in
      rw waits refl

  emit_asks :
      (n : ℕ) (s : Sys)
      → ((t : Sys) → on_frame t n ≡ schedules n ∷ [])
      → emit_frame on_frame on_present n s
        ≡ schedule_frame n (record s { frames = s.frames ++ (n ∷ []) })
  unfolding emit_frame act_all act
  emit_asks n s asks = rw (asks (record s { frames = s.frames ++ (n ∷ []) })) refl

  -- A frame that the compositor asks for from the frame event of a page flip gets lost, if it does
  -- nothing else there: the output needs a frame, and no page flip is pending, no frame is running
  -- and no callback is scheduled. The output is connected and enabled, and had none scheduled.
  pub handle_pf_forgets :
      (n : ℕ) (s : Sys)
      → (s.outs n).connected ≡ true
      → (s.outs n).enabled_state ≡ true
      → (s.outs n).frame_event_scheduled ≡ false
      → s.session_active ≡ true
      → ((t : Sys) → on_present t n ≡ [])
      → ((t : Sys) → on_frame t n ≡ schedules n ∷ [])
      → let o = (handle_pf on_frame on_present n s).outs n in
        (o.needs_frame ≡ true) × (is_awaited o ≡ false)
  handle_pf_forgets n s here on clear active quiet asks =
      let noted =
        emit_asks n (shown n s) asks
        ∙ schedule_running n (record (shown n s) { frames = s.frames ++ (n ∷ []) })
            (ground arith) in
      rw (handle_pf_quiet n s here on active quiet) (ground (arith, noted))
