-- ===== src/Wayland/Cache.antt =====
-- The wl_buffers of src/backend/Wayland.cpp, and what a commit does with them.
use aquamarine.Common.{
  ℕ, suc, Bool, true, false, ◌&&◌, Option, none, some, [], ◌∷◌, ◌++◌, ◌==◌, if◌then◌else◌, ◌≡◌, ◌⊎◌,
  refl, ◌∙◌, arith, Bool-cases, inl, inr,
}
use aquamarine.Swapchain.{BufferParams, Options, Size, Swapchain, contains, invalid_format}
use aquamarine.Wayland.{
  Buffers, keep_live, find, found_or_made, wl_buffer, Out, pixel_size, attach, show, reconfigured,
  with_swapchain, sized, commit, committed,
}

find-keep_live :
    (keeps : ℕ → Bool) (b : ℕ) (bs : Buffers)
    → find b (keep_live keeps bs) ≡ (if keeps b then find b bs else none)
unfolding find keep_live
find-keep_live keeps b [] = ground arith
find-keep_live keeps b ((k, w) ∷ rest) = elim (Bool-cases (keeps k)) [
  | inl kept ↦ rw kept (ground (arith, find-keep_live keeps b rest))
  | inr gone ↦ rw gone (ground (arith, find-keep_live keeps b rest))
]

rest_none :
    (k v b : ℕ) (rest : Buffers)
    → (k == b) ≡ false
    → find b ((k, v) ∷ rest) ≡ none
    → find b rest ≡ none
unfolding find
rest_none k v b rest other h = ground arith

find_last : (b w : ℕ) (bs : Buffers) → find b bs ≡ none → find b (bs ++ ((b, w) ∷ [])) ≡ some w
unfolding find
find_last b w [] h = ground arith
find_last b w ((k, v) ∷ rest) h = elim (Bool-cases (k == b)) [
  | inl here ↦ ground arith
  | inr other ↦ rw other (find_last b w rest (rest_none k v b rest other h))
]

-- The wl_buffer that is given is in the cache.
stored :
    (b w : ℕ) (o n : Option ℕ) (ks : Buffers)
    → find b ks ≡ o
    → (found_or_made b o n ks).0 ≡ some w
    → find b (found_or_made b o n ks).1 ≡ some w
stored b w none none ks f h = ground arith
stored b w none (some v) ks f h = find_last b v ks f ∙ h
stored b w (some v) n ks f h = f ∙ h

wl_buffer_stored :
    (keeps : ℕ → Bool) (new : Option ℕ) (b : ℕ) (bs : Buffers) (v : ℕ)
    → (wl_buffer keeps new b bs).0 ≡ some v
    → find b (wl_buffer keeps new b bs).1 ≡ some v
unfolding wl_buffer
wl_buffer_stored keeps new b bs v h =
    stored b v (find b (keep_live keeps bs)) new (keep_live keeps bs) refl h

wl_buffer_found :
    (keeps : ℕ → Bool) (new : Option ℕ) (b w : ℕ) (bs : Buffers)
    → find b (keep_live keeps bs) ≡ some w
    → (wl_buffer keeps new b bs).0 ≡ some w
unfolding wl_buffer
wl_buffer_found keeps new b w bs h = rw h refl

-- The wl_buffer that a buffer of the swapchain gets is the one it gets again, whatever could be
-- made the second time, as long as the buffer is there and of the swapchain both times.
pub wl_buffer_again :
    (keeps keeps2 : ℕ → Bool) (new new2 : Option ℕ) (b w : ℕ) (bs : Buffers)
    → keeps2 b ≡ true
    → (wl_buffer keeps new b bs).0 ≡ some w
    → (wl_buffer keeps2 new2 b (wl_buffer keeps new b bs).1).0 ≡ some w
unfolding wl_buffer
wl_buffer_again keeps keeps2 new new2 b w bs live got =
    wl_buffer_found keeps2 new2 b w
      (found_or_made b (find b (keep_live keeps bs)) new (keep_live keeps bs)).1
      (find-keep_live keeps2 b _
        ∙ rw live (stored b w (find b (keep_live keeps bs)) new (keep_live keeps bs) refl got))

module _ {W : Type 0} where
  -- The surface is as it was.
  pub record Untouched (o o' : Out W) : Type 0 where
    pub attached : o'.attached ≡ o.attached
    pub frames : o'.frames ≡ o.frames

  -- Refused, without an event; or accepted without a buffer to show; or a wl_buffer attached, which
  -- the cache has for the state's buffer.
  pub data Outcome (o : Out W) (r : Bool × Out W) : Type 0 where
    refused : r.0 ≡ false → r.1.commit_events ≡ o.commit_events → Untouched o r.1 → Outcome o r
    accepted : r.0 ≡ true → (o.buffer ≡ none) ⊎ (o.swapchain ≡ none) → Untouched o r.1 → Outcome o r
    attached :
        (b w : ℕ)
        → r.0 ≡ true
        → o.buffer ≡ some b
        → r.1.attached ≡ o.attached ++ (w ∷ [])
        → find b r.1.buffers ≡ some w
        → r.1.commit_events ≡ suc o.commit_events
        → r.1.frames ≡ committed o.frames
        → Outcome o r

  untouched : (o : Out W) → Untouched o o
  untouched o = record { attached = refl; frames = refl }

  module _ (acquire : W → BufferParams → Options → Option ℕ × W) (format_of : ℕ → ℕ)
      (there : ℕ → Bool) (make : ℕ → Option ℕ) where
    attach-Outcome :
        (o : Out W) (bs : Buffers) (b : ℕ) (sc : Swapchain ℕ) (alloc : W) (w : Option ℕ)
        → o.buffer ≡ some b
        → ((v : ℕ) → w ≡ some v → find b bs ≡ some v)
        → Outcome o (
            attach acquire format_of there make w
              (record o { swapchain = some sc; allocator = alloc; buffers = bs }))
    attach-Outcome o bs b sc alloc none shows has =
        refused refl refl (record { attached = refl; frames = refl })
    attach-Outcome o bs b sc alloc (some v) shows has =
        attached b v refl shows refl (has v refl) refl refl

    show-Outcome :
        (o : Out W) (buf : Option ℕ) (sc : Swapchain ℕ) (alloc : W)
        → o.buffer ≡ buf
        → Outcome o (
            show acquire format_of there make buf sc
              (record o { swapchain = some sc; allocator = alloc }))
    show-Outcome o none sc alloc e = elim (Bool-cases o.buffer_committed) [
      | inl must ↦ simp must (refused refl refl (record { attached = refl; frames = refl }))
      | inr need_not ↦
          simp need_not (accepted refl (inl e) (record { attached = refl; frames = refl }))
    ]
    show-Outcome o (some b) sc alloc e =
        let keeps : ℕ → Bool = λ x. there x && contains (λ a c. a == c) sc x in
        let (w, bs) = wl_buffer keeps (make b) b o.buffers in
        attach-Outcome o bs b sc alloc w e (wl_buffer_stored keeps (make b) b o.buffers)

    reconfigured-Outcome :
        (o : Out W) (r : Bool × Swapchain ℕ × W)
        → Outcome o (reconfigured acquire format_of there make r o)
    reconfigured-Outcome o (false, sc, alloc) =
        refused refl refl (record { attached = refl; frames = refl })
    reconfigured-Outcome o (true, sc, alloc) = show-Outcome o o.buffer sc alloc refl

    with_swapchain-Outcome :
        (o : Out W) (size : Size) (sc : Option (Swapchain ℕ))
        → o.swapchain ≡ sc
        → Outcome o (with_swapchain acquire format_of there make size sc o)
    with_swapchain-Outcome o size none e = accepted refl (inr e) (untouched o)
    with_swapchain-Outcome o size (some sc) e = reconfigured-Outcome o _

    sized-Outcome :
        (o : Out W) (size : Option Size) → Outcome o (sized acquire format_of there make size o)
    sized-Outcome o none = refused refl refl (untouched o)
    sized-Outcome o (some size) = elim (Bool-cases (o.format == invalid_format)) [
      | inl invalid ↦ simp invalid (refused refl refl (untouched o))
      | inr fine ↦ simp fine (with_swapchain-Outcome o size o.swapchain refl)
    ]

    -- Every commit, on all of its branches: it is refused without a commit event and leaves the
    -- surface and the frames as they were; or it is accepted with nothing to show, for want of a
    -- buffer or of a swapchain, and leaves them as well; or it attaches one wl_buffer to the
    -- surface, the one that the cache holds for the state's buffer, emits one commit event, and
    -- makes the output ready for the next callback.
    pub commit-Outcome : (o : Out W) → Outcome o (commit acquire format_of there make o)
    unfolding commit
    commit-Outcome o = sized-Outcome o (pixel_size o.mode o.custom_mode)
