-- ===== src/Drm/Commit/Outcome.antt =====
-- The end of `CDRMOutput::commitState` (src/backend/drm/DRM.cpp): what a commit has asked of the
-- kernel, and what it leaves when it succeeds, when it fails and when it is a test.
use aquamarine.Common.{
  ◌≡◌, refl, ap, sym, subst, ◌∙◌, ◌⊎◌, inl, inr, Bool, true, false, ◌&&◌, Option, none, some, [],
  ◌∷◌, ◌++◌, is_some, arith, Bool-cases, Option-cases,
}
use aquamarine.Output.{State, Mode, Flag, on_commit}
use aquamarine.Drm.Frames.{Crtc, Buffers}
use aquamarine.Drm.Commit.{
  refusal, prepare, guarded, proceed, submit, attempts, commit_state, fresh_run, failed_run,
  retry_of, request_of, with_fence, with_format, other_format, fb_dmabuf, live_cursor,
  pending_or_shown,
}
use aquamarine.Drm.Device.{Device, Output, Run, Request, Prepared, current_mode}
use aquamarine.Drm.Commit.Guards.{commit_state_refused}
use aquamarine.Drm.Commit.Attempts.{Attempts, attempts_lem}
use aquamarine.Drm.Commit.Conclusion.{Concluded, conclude_lem, fence_keeps, format_keeps}

module _ {R M H W : Type 0} (d : Device R M H W) where
  -- What a commit of `o` that started on the buffers `bs` may come to.
  pub record Outcome (test : Bool) (o : Output R M H) (bs : Buffers) (ok : Bool) (run : Run R M H W)
      : Type 0 where
    pub asked :
        (run.requests ≡ [])
        ⊎ ((r : Request M H) × (run.requests ≡ r ∷ []) × (r.frames.test ≡ test))
        ⊎ ((r : Request M H) × (run.requests ≡ r ∷ retry_of d test r ∷ [])
            × (r.modeset ≡ false)
            × (o.commit_tainted ≡ false))
    pub cleared : test ≡ false → ok ≡ true → (f : Flag) → run.output.state.committed f ≡ false
    pub no_frame : test ≡ false → ok ≡ true → run.output.needs_frame ≡ false
    pub untainted : test ≡ false → ok ≡ true → run.output.commit_tainted ≡ false
    pub enabled : test ≡ false → ok ≡ true → run.output.scanout.enabled_state ≡ o.state.enabled
    pub kept :
        ok ≡ false → (f : Flag) → o.state.committed f ≡ true → run.output.state.committed f ≡ true
    pub untouched :
        test ≡ true
        → (run.output.scanout ≡ o.scanout)
          × (run.buffers ≡ bs)
          × (run.output.page_flip_pending ≡ o.page_flip_pending)

  -- A run that asked for nothing and only added flags.
  nothing_asked :
      (test : Bool) (o : Output R M H) (bs : Buffers) (ok : Bool) (run : Run R M H W)
      → (test ≡ true) ⊎ (ok ≡ false)
      → run.requests ≡ []
      → ((f : Flag) → o.state.committed f ≡ true → run.output.state.committed f ≡ true)
      → run.output.scanout ≡ o.scanout
      → run.buffers ≡ bs
      → run.output.page_flip_pending ≡ o.page_flip_pending
      → Outcome test o bs ok run
  nothing_asked test o bs ok run early none_asked more k b p = record {
    asked = inl none_asked;
    cleared = λ t e. absurd (ground arith);
    no_frame = λ t e. absurd (ground arith);
    untainted = λ t e. absurd (ground arith);
    enabled = λ t e. absurd (ground arith);
    kept = λ e. more;
    untouched = λ t. (k, b, p);
  }

  cleared_flags :
      (none_left : R) (s : State R M H) (f : Flag) → (on_commit none_left s).committed f ≡ false
  unfolding on_commit
  cleared_flags none_left s f = refl

  -- What `submit` starts the attempts from, against the output on entry.
  record Started (o : Output R M H) (bs : Buffers) (run : Run R M H W) : Type 0 where
    no_requests : run.requests ≡ []
    same_buffers : run.buffers ≡ bs
    same_scanout : run.output.scanout ≡ o.scanout
    same_flip : run.output.page_flip_pending ≡ o.page_flip_pending
    same_taint : run.output.commit_tainted ≡ o.commit_tainted
    same_enabled : run.output.state.enabled ≡ o.state.enabled
    more_flags : (f : Flag) → o.state.committed f ≡ true → run.output.state.committed f ≡ true

  module _ {test done ok : Bool} {o : Output R M H} {bs : Buffers} {r : Request M H}
      {start tried end : Run R M H W} (s : Started o bs start)
      (a : Attempts d test r start done tried) (c : Concluded d test done tried ok end)
      (same_test : r.frames.test ≡ test) where
    few_requests :
        (end.requests ≡ [])
        ⊎ ((q : Request M H) × (end.requests ≡ q ∷ []) × (q.frames.test ≡ test))
        ⊎ ((q : Request M H) × (end.requests ≡ q ∷ retry_of d test q ∷ [])
            × (q.modeset ≡ false)
            × (o.commit_tainted ≡ false))
    few_requests = elim a.asked [
      | inl once ↦
          inr (inl (r, c.same_requests ∙ once ∙ ap (λ rs. rs ++ (r ∷ [])) s.no_requests, same_test))
      | inr (twice, plain, clean) ↦ inr (
          inr (
            r,
            c.same_requests
                ∙ twice
                ∙ ap (λ rs. (rs ++ (r ∷ [])) ++ (retry_of d test r ∷ [])) s.no_requests,
            plain,
            sym s.same_taint ∙ clean,
          ))
    ]

    attempts-Outcome : Outcome test o bs ok end
    attempts-Outcome = record {
      asked = few_requests;
      cleared = λ t e f.
          ap (λ (st : State R M H). st.committed f) (c.committed t (sym c.same_answer ∙ e))
          ∙ cleared_flags d.empty_region tried.output.state f;
      no_frame = λ t e. c.no_frame t (sym c.same_answer ∙ e);
      untainted = λ t e. c.untainted t (sym c.same_answer ∙ e);
      enabled = λ t e.
          c.same_enabled ∙ a.enabled (same_test ∙ t) (sym c.same_answer ∙ e) ∙ s.same_enabled;
      kept = λ e f h.
          ap (λ (x : Run R M H W). x.output.state.committed f)
            (c.nothing_more (inr (sym c.same_answer ∙ e)))
          ∙ ap (λ (st : State R M H). st.committed f) a.same_state
          ∙ s.more_flags f h;
      untouched = λ t.
          let same = c.nothing_more (inl t) in
          let (k, b, p) = a.only_test (same_test ∙ t) in
          (
            ap (λ (x : Run R M H W). x.output.scanout) same ∙ k ∙ s.same_scanout,
            ap (λ (x : Run R M H W). x.buffers) same ∙ b ∙ s.same_buffers,
            ap (λ (x : Run R M H W). x.output.page_flip_pending) same ∙ p ∙ s.same_flip,
          );
    }

  submit-Outcome :
      (test : Bool) (o : Output R M H) (bs : Buffers) (w : W) (mode : Mode) (crtc : Crtc)
      (p : Prepared)
      → is_some o.scanout.crtc ≡ true
      → Outcome test o bs
          (submit d test o.state.committed mode crtc p (fresh_run d o bs w)).0
          (submit d test o.state.committed mode crtc p (fresh_run d o bs w)).1
  unfolding submit
  submit-Outcome test o bs w mode crtc p has =
      let fenced = with_fence d p.in_fence o.state in
      let new_format = other_format d fenced.drm_format (fb_dmabuf d p.fb) in
      let s = with_format d new_format fenced in
      let r =
        request_of d test o.state.committed s (is_some new_format) o.last_commit_no_buffer p.fb
          (live_cursor d (pending_or_shown d crtc)) mode in
      let run = record (fresh_run d o bs w) { output = record o { state = s } } in
      let tried = attempts d test r run in
      attempts-Outcome
        (record {
          no_requests = refl;
          same_buffers = refl;
          same_scanout = refl;
          same_flip = refl;
          same_taint = refl;
          same_enabled =
              (format_keeps d new_format fenced).1 ∙ (fence_keeps d p.in_fence o.state).1;
          more_flags = λ f h.
              (format_keeps d new_format fenced).0 f ((fence_keeps d p.in_fence o.state).0 f h);
        })
        (attempts_lem d test r run has) (conclude_lem d test p.fb tried.0 tried.1 tried.2) refl

  proceed-Outcome :
      (test : Bool) (o : Output R M H) (bs : Buffers) (w w' : W) (mode : Mode) (crtc : Crtc)
      (p : Prepared)
      → is_some o.scanout.crtc ≡ true
      → let (ok, end) = proceed d test o (p, w') (fresh_run d o bs w) mode crtc in
        Outcome test o bs ok end
  proceed-Outcome test o bs w w' mode crtc p has = elim (Bool-cases p.failed) [
    | inl failed ↦ simp failed (
        nothing_asked test o bs false (failed_run d p (fresh_run d o bs w')) (inr refl) refl
          (fence_keeps d p.in_fence o.state).0 refl refl refl)
    | inr fine ↦ simp fine (submit-Outcome test o bs w' mode crtc p has)
  ]

  guarded-Outcome :
      (test : Bool) (o : Output R M H) (bs : Buffers) (w : W) (mode : Option Mode)
      (crtc : Option Crtc)
      → o.scanout.crtc ≡ crtc
      → let (ok, end) = guarded d test o (fresh_run d o bs w) mode crtc in Outcome test o bs ok end
  guarded-Outcome test o bs w none crtc e =
      nothing_asked test o bs false (fresh_run d o bs w) (inr refl) refl (λ f h. h) refl refl refl
  guarded-Outcome test o bs w (some mode) none e =
      nothing_asked test o bs false (fresh_run d o bs w) (inr refl) refl (λ f h. h) refl refl refl
  guarded-Outcome test o bs w (some mode) (some crtc) e = elim (Bool-cases (d.secondary && test)) [
    | inl stops ↦ rw stops (
        nothing_asked test o bs true (fresh_run d o bs w) (inl (ground arith)) refl (λ f h. h) refl
          refl refl)
    | inr goes ↦ rw goes (
        proceed-Outcome test o bs w (prepare d o.state w).1 mode crtc (prepare d o.state w).0
          (ground arith))
  ]

  commit_state-Outcome :
      (test : Bool) (o : Output R M H) (bs : Buffers) (w : W)
      → Outcome test o bs (commit_state d test o bs w).0 (commit_state d test o bs w).1
  unfolding commit_state
  commit_state-Outcome test o bs w = elim (Option-cases (refusal d test o)) [
    | inl passed ↦
        rw (passed, commit_state)
          (guarded-Outcome test o bs w (current_mode o.state.mode o.state.custom_mode)
            o.scanout.crtc refl)
    | inr (why, refused) ↦
        subst (λ (x : Bool × Run R M H W). Outcome test o bs x.0 x.1)
          (sym (commit_state_refused d test o bs w why refused))
          (nothing_asked test o bs false (fresh_run d o bs w) (inr refl) refl (λ f h. h) refl refl
            refl)
  ]

  -- A commit asks the kernel at most twice. A second request is made only when the first was not
  -- for a modeset and the connector was not tainted by an earlier failure, and it is the first one
  -- turned into a blocking modeset.
  pub commit_state_asks_twice_at_most :
      (test : Bool) (o : Output R M H) (bs : Buffers) (w : W)
      → let rs = (commit_state d test o bs w).1.requests in
        (rs ≡ [])
        ⊎ ((r : Request M H) × (rs ≡ r ∷ []) × (r.frames.test ≡ test))
        ⊎ ((r : Request M H) × (rs ≡ r ∷ retry_of d test r ∷ [])
            × (r.modeset ≡ false)
            × (o.commit_tainted ≡ false))
  commit_state_asks_twice_at_most test o bs w = (commit_state-Outcome test o bs w).asked

  -- A real commit that succeeds leaves no flag committed, no frame needed and no taint, and the
  -- connector's enabled state is the one that was committed.
  pub commit_state_success :
      (o : Output R M H) (bs : Buffers) (w : W)
      → (commit_state d false o bs w).0 ≡ true
      → let o' = (commit_state d false o bs w).1.output in
        ((f : Flag) → o'.state.committed f ≡ false)
        × (o'.needs_frame ≡ false)
        × (o'.commit_tainted ≡ false)
        × (o'.scanout.enabled_state ≡ o.state.enabled)
  commit_state_success o bs w done =
      let out = commit_state-Outcome false o bs w in
      (
        out.cleared refl done,
        out.no_frame refl done,
        out.untainted refl done,
        out.enabled refl done,
      )

  -- A commit that fails loses none of the flags that were committed: they are there for the next.
  pub commit_state_failure :
      (test : Bool) (o : Output R M H) (bs : Buffers) (w : W) (f : Flag)
      → (commit_state d test o bs w).0 ≡ false
      → o.state.committed f ≡ true
      → (commit_state d test o bs w).1.output.state.committed f ≡ true
  commit_state_failure test o bs w f failed was =
      (commit_state-Outcome test o bs w).kept failed f was

  -- A test leaves the planes, the buffers' locks and the page-flip flag as they were.
  pub commit_state_test :
      (o : Output R M H) (bs : Buffers) (w : W)
      → let run = (commit_state d true o bs w).1 in
        (run.output.scanout ≡ o.scanout)
        × (run.buffers ≡ bs)
        × (run.output.page_flip_pending ≡ o.page_flip_pending)
  commit_state_test o bs w = (commit_state-Outcome true o bs w).untouched refl
