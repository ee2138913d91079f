-- ===== src/Anland/Link/Tried.antt =====
-- What a try to connect, in src/backend/anland/AnlandBackend.cpp, does to the timer.
use aquamarine.Anland.Link.{
  OutputCall, enters_fallback, releases_buffers, exits_fallback, emits_frame, schedules_frame, Link,
  World, call, setup_timer, create_output, may_fall, tell, attempt, connected, reached, reach,
  try_connect, enter_fallback,
}
use aquamarine.Common.{
  ℕ, Bool, true, false, not, ◌&&◌, ◌||◌, List, [], ◌∷◌, if◌then◌else◌, ◌≡◌, refl, arith, Bool-cases,
  inl, inr, ◌∙◌, ap,
}

-- In fallback there is a timer that tries again, and it is not forgotten that there is one.
pub record IsWaiting (l : Link) : Type 0 where
  pub waits : (not (l.running && (not l.destroying && l.in_fallback)) || l.timer) ≡ true
  pub pending : (not l.reconnect_pending || l.timer) ≡ true

call-IsWaiting : (xs : List OutputCall) (l : Link) → IsWaiting l → IsWaiting (call xs l)
call-IsWaiting xs l h = elim (Bool-cases l.has_output) [
  | inl some_output ↦ simp some_output (record { waits = h.waits; pending = h.pending })
  | inr no_output ↦ simp no_output h
]

-- Only that the timer is not forgotten
abbrev pub IsPending : Link → Type 0
IsPending l = (not l.reconnect_pending || l.timer) ≡ true

call-IsPending : (xs : List OutputCall) (l : Link) → IsPending l → IsPending (call xs l)
call-IsPending xs l p = ground arith

pub choose-IsWaiting :
    (b : Bool) (x y : Link)
    → (b ≡ true → IsWaiting x)
    → (b ≡ false → IsWaiting y)
    → IsWaiting (if b then x else y)
choose-IsWaiting true x y h k = h refl
choose-IsWaiting false x y h k = k refl

module _ (w : World) (made : w.makes_timer ≡ true) where
  pub setup_timer-IsWaiting : (l : Link) → IsPending l → IsWaiting (setup_timer w l)
  unfolding setup_timer
  setup_timer-IsWaiting l p = record { waits = ground arith; pending = ground arith }

  pub enter_fallback-IsWaiting : (l : Link) → IsWaiting l → IsWaiting (enter_fallback w l)
  unfolding enter_fallback
  enter_fallback-IsWaiting l h =
      let lost = record l { in_fallback = true; output_emitted = false } in
      let told = call (enters_fallback ∷ releases_buffers ∷ []) lost in
      let set = setup_timer-IsWaiting told (call-IsPending _ lost h.pending) in
      choose-IsWaiting (l.in_fallback || l.destroying) l _ (λ b. h)
        (λ b. record { waits = set.waits; pending = set.pending })

  may_fall-IsWaiting : (n : ℕ) (l : Link) → IsWaiting l → IsWaiting (may_fall w n l)
  may_fall-IsWaiting n l h =
      choose-IsWaiting (w.falls n) (enter_fallback w l) l (λ b. enter_fallback-IsWaiting l h)
        (λ b. h)

  tell-IsWaiting : (n : ℕ) (x : OutputCall) (l : Link) → IsWaiting l → IsWaiting (tell w n x l)
  tell-IsWaiting n x l h =
      choose-IsWaiting l.has_output (may_fall w n (call (x ∷ []) l)) l
        (λ b. may_fall-IsWaiting n (call (x ∷ []) l) (call-IsWaiting (x ∷ []) l h)) (λ b. h)

  pub tell3-IsWaiting :
      (x y z : OutputCall) (l : Link)
      → IsWaiting l
      → IsWaiting (tell w 3 z (tell w 2 y (tell w 1 x l)))
  tell3-IsWaiting x y z l h =
      tell-IsWaiting 3 z (tell w 2 y (tell w 1 x l))
        (tell-IsWaiting 2 y (tell w 1 x l) (tell-IsWaiting 1 x l h))

  connected-IsWaiting : (l : Link) → IsPending l → IsWaiting (connected w l)
  unfolding connected
  connected-IsWaiting l p =
      let here = record l { in_fallback = false } in
      let out : IsWaiting here = record { waits = ground arith; pending = p } in
      let told =
        tell3-IsWaiting exits_fallback emits_frame schedules_frame (may_fall w 0 here)
          (may_fall-IsWaiting 0 here out) in
      record { waits = told.waits; pending = told.pending }

  -- While it connects, the display does not fall back.
  abbrev pub IsSteady : Type 0
  IsSteady = (n : ℕ) → w.falls n ≡ false

  may_fall-steady : (n : ℕ) (l : Link) → IsSteady → may_fall w n l ≡ l
  may_fall-steady n l steady = rw (steady n) refl

  tell-steady :
      (n : ℕ) (x : OutputCall) (l : Link) → IsSteady → (tell w n x l).in_fallback ≡ l.in_fallback
  tell-steady n x l steady = rw (steady n) (ground arith)

  connected-steady : (l : Link) → IsSteady → (connected w l).in_fallback ≡ false
  unfolding connected
  connected-steady l steady =
      let here = may_fall w 0 (record l { in_fallback = false }) in
      let one = tell w 1 exits_fallback here in
      let two = tell w 2 emits_frame one in
      tell-steady 3 schedules_frame two steady
      ∙ tell-steady 2 emits_frame one steady
      ∙ tell-steady 1 exits_fallback here steady
      ∙ ap (λ (x : Link). x.in_fallback)
          (may_fall-steady 0 (record l { in_fallback = false }) steady)

  -- What the timer and the invariant depend on is the same.
  abbrev Kept : Link → Link → Type 0
  Kept l l' =
      (l'.timer ≡ l.timer)
      × (l'.reconnect_pending ≡ l.reconnect_pending)
      × (l'.running ≡ l.running)
      × (l'.destroying ≡ l.destroying)
      × (l'.in_fallback ≡ l.in_fallback)

  -- A try that succeeds is out of fallback, or back in it with a timer; one that fails keeps what
  -- it was.
  abbrev pub Tried : Link → Bool × Link → Type 0
  Tried l (true, l') = IsWaiting l' × (IsSteady → l'.in_fallback ≡ false)
  Tried l (false, l') = Kept l l'

  reached-Tried : (b : Bool) (l l' : Link) → IsPending l' → Kept l l' → Tried l (reached w b l')
  reached-Tried true l l' p kept = (connected-IsWaiting l' p, connected-steady l')
  reached-Tried false l l' p kept = kept

  choose-Tried :
      (b : Bool) (l : Link) (x y : Bool × Link)
      → Tried l x
      → Tried l y
      → Tried l (if b then x else y)
  choose-Tried true l x y h k = h
  choose-Tried false l x y h k = k

  created-Kept : (l : Link) → Kept l (create_output (record l { has_display = true }))
  unfolding create_output
  created-Kept l = (ground arith, ground arith, ground arith, ground arith, ground arith)

  pub Kept-IsPending : (l l' : Link) → Kept l l' → IsPending l → IsPending l'
  Kept-IsPending l l' (t, p, r, d, f) h = rw (t, p) h

  pub try_connect-Tried : (l : Link) → IsPending l → Tried l (try_connect w l)
  unfolding try_connect
  try_connect-Tried l p =
      let created = create_output (record l { has_display = true }) in
      let kept = created-Kept l in
      let same : Kept l l = (refl, refl, refl, refl, refl) in
      choose-Tried l.destroying l (false, l) _ same
        (choose-Tried (l.has_display || w.daemon) l (reach w created) (false, l)
          (reached-Tried (attempt created.destroying w.consumer 0 100) l created
            (Kept-IsPending l created kept p) kept)
          same)
