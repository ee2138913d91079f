-- ===== src/Gbm/Lifetime.antt =====
-- The descriptors, buffer objects and mappings of a buffer of src/allocator/GBM.cpp, from the call
-- of acquire to its destruction.
use aquamarine.Common.{
  ℕ, zero, suc, Bool, Option, none, some, List, [], ◌∷◌, ◌++◌, is_some, if◌then◌else◌, ◌==◌, ltb,
  ◌||◌, ◌≡◌, refl, sym, ap, ◌∙◌, arith, Bool-cases, inl, inr, append_nil, append_assoc,
}
use aquamarine.Swapchain.{invalid_format}
use aquamarine.Gbm.{Request, Made, find_format}
use aquamarine.Gbm.Buffers.{
  Held, Buffer, Setting, close_all, open_fd, unmade, query_fds, with_fds, with_bo, construct,
  construct_as, made_buffer, allocate, destroy, acquire, handed_out, formats_of,
}
use aquamarine.Gbm.Owned.{
  IsSettled, IsSettled-refl, Owns, Owned, Owned-if, unmade-Owns, destroy-IsSettled, Use, use_all,
  use_all-Owns,
}

abbrev Queried : List ℕ → Held → Option (List ℕ) × Held → Type 0
Queried fds h (some all, h') =
    (new : List ℕ) × (all ≡ fds ++ new) × (h' ≡ record h { opened = h.opened ++ new })
Queried fds h (none, h') =
    (new : List ℕ) × (h' ≡ record h { opened = h.opened ++ new; closed = h.closed ++ (fds ++ new) })

-- One more descriptor in front of the rest
Queried-step :
    (fd : ℕ) (fds : List ℕ) (h : Held) (r : Option (List ℕ)) (h' : Held)
    → Queried (fds ++ (fd ∷ [])) (open_fd fd h) (r, h')
    → Queried fds h (r, h')
Queried-step fd fds h (some all) h' (new, e, k) = (
  fd ∷ new,
  e ∙ append_assoc fds (fd ∷ []) new,
  k ∙ ap (λ (l : List ℕ). record h { opened = l }) (append_assoc h.opened (fd ∷ []) new),
)
Queried-step fd fds h none h' (new, k) =
    (fd ∷ new, k ∙ rw (append_assoc h.opened (fd ∷ []) new, append_assoc fds (fd ∷ []) new))

query_fds-Queried :
    (fd_of : ℕ → ℕ → Option ℕ) (b n i : ℕ) (fds : List ℕ) (h : Held)
    → Queried fds h (query_fds fd_of b n i fds h)
unfolding query_fds
query_fds-Queried fd_of b zero i fds h = ([], sym (append_nil fds), rw append_nil)
query_fds-Queried fd_of b (suc n) i fds h =
    elim (fd_of b i)
      as (λ o. Queried fds h (elim o [
        | none ↦ (none, close_all fds h)
        | some fd ↦ query_fds fd_of b n (suc i) (fds ++ (fd ∷ [])) (open_fd fd h)
      ])) [
        | none ↦ ([], rw (append_nil, append_nil))
        | some fd ↦
            Queried-step fd fds h _ _
              (query_fds-Queried fd_of b n (suc i) (fds ++ (fd ∷ [])) (open_fd fd h))
      ]

-- A buffer that has just been made, with what the query of its descriptors gives
with_fds-Owns :
    (format bo m : ℕ) (h : Held) (r : Option (List ℕ)) (h' : Held)
    → Queried [] (record h { created = h.created ++ (bo ∷ []) }) (r, h')
    → Owns
        (with_fds (made_buffer format bo m) (r, h')).0
        h
        (with_fds (made_buffer format bo m) (r, h')).1
with_fds-Owns format bo m h (some all) h' (new, e, k) = record {
  gone = [];
  times = 0;
  opened = ap (λ (x : Held). x.opened) k ∙ ap (λ (l : List ℕ). h.opened ++ l) (sym e);
  closed = ap (λ (x : Held). x.closed) k ∙ sym (append_nil h.closed);
  created = ap (λ (x : Held). x.created) k;
  destroyed = ap (λ (x : Held). x.destroyed) k;
  maps = ap (λ (x : Held). x.maps) k ∙ omega arith;
  unmaps = ap (λ (x : Held). x.unmaps) k ∙ omega arith;
  mapped_bo = λ p. refl;
  same = refl;
}
with_fds-Owns format bo m h none h' (new, k) = record {
  gone = new;
  times = 0;
  opened =
      ap (λ (x : Held). x.opened) k ∙ ap (λ (l : List ℕ). h.opened ++ l) (sym (append_nil new));
  closed = ap (λ (x : Held). x.closed) k;
  created = ap (λ (x : Held). x.created) k;
  destroyed = ap (λ (x : Held). x.destroyed) k;
  maps = ap (λ (x : Held). x.maps) k ∙ omega arith;
  unmaps = ap (λ (x : Held). x.unmaps) k ∙ omega arith;
  mapped_bo = λ p. refl;
  same = refl;
}

-- What comes of an acquired buffer: it is used and then destroyed, if there is one.
abbrev pub finish : List Use → Option Buffer → Held → Held
finish us none h = h
finish us (some b) h = let s = use_all us (b, h) in destroy s.0 s.1

handed_out-IsSettled :
    (alive : ℕ → Bool) (id : ℕ) (buffers : List ℕ) (us : List Use) (h : Held) (b : Buffer)
    (h' : Held)
    → Owns b h h'
    → IsSettled h
        (finish us (handed_out alive id buffers (b, h')).0 (handed_out alive id buffers (b, h')).2)
handed_out-IsSettled alive id buffers us h b h' o = elim (Bool-cases (is_some b.bo)) [
  | inl there ↦ rw there (
      destroy-IsSettled (use_all us (b, h')).0 h (use_all us (b, h')).1
        (use_all-Owns us b h h' there o))
  | inr gone ↦ rw gone (destroy-IsSettled b h h' o)
]

module _ (in_30 in_24 : ℕ → Bool) (gbm : List Request → Request → Option ℕ) (modifier_of : ℕ → ℕ)
    (planes : ℕ → ℕ) (fd_of : ℕ → ℕ → Option ℕ) where
  with_bo-Owns :
      (format : ℕ) (made : Made) (bo : Option ℕ) (h : Held)
      → Owned h (with_bo in_30 in_24 gbm modifier_of planes fd_of format made bo h)
  with_bo-Owns format made none h = unmade-Owns format h
  with_bo-Owns format made (some b) h =
      with_fds-Owns format b made.modifier h _ _
        (query_fds-Queried fd_of b (planes b) 0 [] (record h { created = h.created ++ (b ∷ []) }))

  construct_as-Owns :
      (s : Setting) (format : ℕ) (h : Held)
      → Owned h (construct_as in_30 in_24 gbm modifier_of planes fd_of s format h)
  construct_as-Owns s format h =
      let made = allocate in_30 in_24 gbm modifier_of planes fd_of s format in
      let built = with_bo in_30 in_24 gbm modifier_of planes fd_of format made made.bo h in
      let known = is_some (find_format (λ f. f == format) (formats_of s)) in
      Owned-if h (format == invalid_format) (unmade format, h)
        (if known then built else (unmade format, h)) (unmade-Owns format h)
        (Owned-if h known built (unmade format, h) (with_bo-Owns format made made.bo h)
          (unmade-Owns format h))

  construct-Owns :
      (s : Setting) (h : Held) → Owned h (construct in_30 in_24 gbm modifier_of planes fd_of s h)
  unfolding construct
  construct-Owns s h = construct_as-Owns s _ h

  -- However gbm, the kernel and the formats answer and however the buffer is mapped meanwhile: from
  -- the call of `acquire` to the destruction of its buffer, if it gives one, each descriptor that
  -- is opened is closed, each buffer object that is made is destroyed, and each mapping is unmapped,
  -- once and in this order.
  pub acquire-IsSettled :
      (alive : ℕ → Bool) (id : ℕ) (s : Setting) (buffers : List ℕ) (us : List Use) (h : Held)
      → IsSettled h (
          finish us
            (acquire in_30 in_24 gbm modifier_of planes fd_of alive id s buffers h).0
            (acquire in_30 in_24 gbm modifier_of planes fd_of alive id s buffers h).2)
  unfolding acquire
  acquire-IsSettled alive id s buffers us h =
      elim (Bool-cases (ltb s.params.size.x 1 || ltb s.params.size.y 1)) [
        | inl small ↦ rw small (IsSettled-refl h)
        | inr large ↦ rw large (handed_out-IsSettled alive id buffers us h _ _ (construct-Owns s h))
      ]
