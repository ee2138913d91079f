-- ===== src/Drm/Legacy/Calls.antt =====
-- Which calls a commit of src/backend/drm/impl/Legacy.cpp makes, and what it leaves.
use aquamarine.Common.{
  append_assoc, append_nil, ℕ, Bool, true, false, not, ◌&&◌, Option, none, some, List, [], ◌∷◌,
  ◌++◌, ◌==◌, if◌then◌else◌, ◌≡◌, ◌⊎◌, inl, inr, refl, sym, ◌∙◌, ap, arith,
}
use aquamarine.Drm.Legacy.{
  Call, set_dpms, set_crtc, set_vrr, import_cursor, show_cursor, close_handle, hide_cursor,
  page_flip, Input, Conn, Part, ◌▸◌, give_up, when, enabled_fb, ask, try_call, modeset,
  set_vrr_active, adaptive_sync, show_and_close, shows_cursor, show_fb, cursor, set_pending, flip,
  commit_internal, commit,
}

abbrev pub only : Bool → List Call → List Call
only true xs = xs
only false xs = []

abbrev pub cursor_calls : (ℕ → ℕ) → Option ℕ → Bool → List Call
cursor_calls handle_of none flag = hide_cursor ∷ []
cursor_calls handle_of (some fb) false = hide_cursor ∷ []
cursor_calls handle_of (some fb) true =
    import_cursor fb
    ∷ show_cursor (handle_of fb)
    ∷ only (not (handle_of fb == 0)) (close_handle (handle_of fb) ∷ [])

infixl 4 ◌⊕◌
abbrev pub ◌⊕◌ : List Call → List Call → List Call
xs ⊕ ys = xs ++ ys

-- The calls of a commit that goes through
abbrev pub plan : (ℕ → ℕ) → Input → List Call
plan handle_of d =
    only d.modeset (set_dpms d.enabled ∷ [] ⊕ set_crtc (enabled_fb d) d.enabled ∷ [])
    ⊕ only d.vrr_committed (only d.has_vrr_prop (set_vrr d.adaptive_sync ∷ []) ⊕ [])
    ⊕ cursor_calls handle_of d.cursor_fb (shows_cursor d)
    ⊕ only (d.enabled && d.wants_flip_event) (page_flip (enabled_fb d) ∷ [] ⊕ [])

-- The calls are a part of these from the first on, and all of them if the code goes on.
pub record Follows (s : Conn) (r : Bool × Conn) (xs : List Call) : Type 0 where
  pub rest : List Call
  pub split : s.calls ++ xs ≡ r.1.calls ++ rest
  pub whole : (r.0 ≡ false) ⊎ (rest ≡ [])

abbrev pub then_part : Part → Bool × Conn → Bool × Conn
then_part g (ok, t) = if ok then g t else (false, t)

seq_true :
    (g : Part) (xs ys : List Call) (s t : Conn) (rest : List Call)
    → s.calls ++ xs ≡ t.calls ++ rest
    → rest ≡ []
    → Follows t (g t) ys
    → Follows s (g t) (xs ++ ys)
seq_true g xs ys s t rest split done b = record {
  rest = b.rest;
  split =
      sym (append_assoc s.calls xs ys)
      ∙ ap (λ l. l ++ ys) (split ∙ ap (λ l. t.calls ++ l) done ∙ append_nil t.calls)
      ∙ b.split;
  whole = b.whole;
}

seq-Follows :
    (g : Part) (xs ys : List Call) (s : Conn) (r : Bool × Conn)
    → Follows s r xs
    → Follows r.1 (g r.1) ys
    → Follows s (then_part g r) (xs ++ ys)
seq-Follows g xs ys s (true, t) a b = elim a.whole [
  | inl e ↦ ground arith
  | inr e ↦ seq_true g xs ys s t a.rest a.split e b
]
seq-Follows g xs ys s (false, t) a b = record {
  rest = a.rest ++ ys;
  split =
      sym (append_assoc s.calls xs ys) ∙ ap (λ l. l ++ ys) a.split ∙ append_assoc t.calls a.rest ys;
  whole = inl refl;
}

-- From any state
pub record Runs (f : Part) (xs : List Call) : Type 0 where
  pub each : (s : Conn) → Follows s (f s) xs

infixl 4 ◌▹◌
abbrev ◌▹◌ : {f g : Part} {xs ys : List Call} → Runs f xs → Runs g ys → Runs (f ▸ g) (xs ⊕ ys)
◌▹◌ {f} {g} {xs} {ys} a b = record {
  each = λ s. seq-Follows g xs ys s (f s) (a.each s) (b.each (f s).1);
}

when-Runs : (b : Bool) {f : Part} {xs : List Call} → Runs f xs → Runs (when b f) (only b xs)
when-Runs true h = record { each = h.each }
when-Runs false h = record { each = λ s. record { rest = []; split = refl; whole = inr refl } }

module _ (answers : List Call → Call → Bool) (handle_of : ℕ → ℕ) where
  ask-Runs : (c : Call) → Runs (ask answers handle_of c) (c ∷ [])
  ask-Runs c = record {
    each =
        λ s. record { rest = []; split = sym (append_nil (s.calls ++ (c ∷ []))); whole = inr refl };
  }

  modeset-Runs :
      (d : Input)
      → Runs
          (modeset answers handle_of d)
          (only d.modeset (set_dpms d.enabled ∷ [] ⊕ set_crtc (enabled_fb d) d.enabled ∷ []))
  unfolding modeset
  modeset-Runs d =
      when-Runs d.modeset
        (ask-Runs (set_dpms d.enabled) ▹ ask-Runs (set_crtc (enabled_fb d) d.enabled))

  set_vrr_active-Runs : (v : Bool) → Runs (set_vrr_active answers handle_of v) []
  set_vrr_active-Runs v = record {
    each = λ s. record { rest = []; split = refl; whole = inr refl };
  }

  vrr_goes :
      (d : Input)
      → Runs
          (when d.has_vrr_prop (ask answers handle_of (set_vrr d.adaptive_sync))
            ▸ set_vrr_active answers handle_of d.adaptive_sync)
          (only d.has_vrr_prop (set_vrr d.adaptive_sync ∷ []) ⊕ [])
  vrr_goes d =
      when-Runs d.has_vrr_prop (ask-Runs (set_vrr d.adaptive_sync))
      ▹ set_vrr_active-Runs d.adaptive_sync

  give_up-Runs : (xs : List Call) → Runs give_up xs
  give_up-Runs xs = record { each = λ s. record { rest = xs; split = refl; whole = inl refl } }

  if-Runs :
      (b : Bool) {f g : Part} {xs : List Call}
      → Runs f xs
      → Runs g xs
      → Runs (if b then f else g) xs
  if-Runs true hf hg = hf
  if-Runs false hf hg = hg

  adaptive_sync-Runs :
      (d : Input)
      → Runs
          (adaptive_sync answers handle_of d)
          (only d.vrr_committed (only d.has_vrr_prop (set_vrr d.adaptive_sync ∷ []) ⊕ []))
  unfolding adaptive_sync
  adaptive_sync-Runs d =
      when-Runs d.vrr_committed
        (if-Runs (d.adaptive_sync && not d.can_do_vrr) (give_up-Runs _) (vrr_goes d))

  try_call-Runs : (c : Call) → Runs (try_call answers handle_of c) (c ∷ [])
  try_call-Runs c = record {
    each =
        λ s. record { rest = []; split = sym (append_nil (s.calls ++ (c ∷ []))); whole = inr refl };
  }

  show_and_close-Runs :
      (h : ℕ)
      → Runs
          (show_and_close answers handle_of h)
          (show_cursor h ∷ only (not (h == 0)) (close_handle h ∷ []))
  show_and_close-Runs h = record {
    each = λ s. record { rest = []; split = closes s (not (h == 0)); whole = inr refl };
  }
    where
      closes :
          (s : Conn) (b : Bool)
          → s.calls ++ (show_cursor h ∷ only b (close_handle h ∷ []))
            ≡ (when b
                (try_call answers handle_of (close_handle h))
                (ask answers handle_of (show_cursor h) s).1).1.calls
              ++ []
      closes s true =
          sym (append_nil _ ∙ append_assoc s.calls (show_cursor h ∷ []) (close_handle h ∷ []))
      closes s false = sym (append_nil _)

  cursor-Runs :
      (fb : Option ℕ) (b : Bool)
      → Runs (show_fb answers handle_of fb b) (cursor_calls handle_of fb b)
  cursor-Runs none b = try_call-Runs hide_cursor
  cursor-Runs (some fb) false = try_call-Runs hide_cursor
  cursor-Runs (some fb) true = ask-Runs (import_cursor fb) ▹ show_and_close-Runs (handle_of fb)

  set_pending-Runs : Runs (set_pending answers handle_of) []
  set_pending-Runs = record { each = λ s. record { rest = []; split = refl; whole = inr refl } }

  flip-Runs :
      (d : Input)
      → Runs
          (flip answers handle_of d)
          (only (d.enabled && d.wants_flip_event) (page_flip (enabled_fb d) ∷ [] ⊕ []))
  unfolding flip
  flip-Runs d =
      when-Runs (d.enabled && d.wants_flip_event)
        (ask-Runs (page_flip (enabled_fb d)) ▹ set_pending-Runs)

  commit_internal-Runs : (d : Input) → Runs (commit_internal answers handle_of d) (plan handle_of d)
  unfolding commit_internal cursor
  commit_internal-Runs d =
      modeset-Runs d ▹ adaptive_sync-Runs d ▹ cursor-Runs d.cursor_fb (shows_cursor d) ▹ flip-Runs d

  -- A commit makes the calls of its plan in their order, from the first on. If it succeeds it has
  -- made all of them; otherwise some may be left.
  pub commit-plan :
      (d : Input) (s : Conn)
      → let (ok, s') = commit answers handle_of d s in
        (rest : List Call) × (s.calls ++ plan handle_of d ≡ s'.calls ++ rest)
        × ((ok ≡ false) ⊎ (rest ≡ []))
  unfolding commit
  commit-plan d s = let f = (commit_internal-Runs d).each s in (f.rest, f.split, f.whole)
