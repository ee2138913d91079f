-- ===== src/Swapchain/Loops.antt =====
-- The loops of src/allocator/Swapchain.cpp: popping buffers, acquiring them one by one.
use aquamarine.Common.{
  ℕ, zero, suc, ◌+◌, ◌≤◌, ◌<◌, ◌≡◌, refl, ap, inl, inr, true, false, Option, some, List, [], ◌∷◌,
  ◌++◌, arith, length, take, length-append, take_all, Option-cases,
}
use aquamarine.Swapchain.{pop_back, shrink, Options, BufferParams, resize_params, acquire_all, grow}

module _ {B : Type 0} where
  length-pop_back : (b : B) (bs : List B) → length (pop_back (b ∷ bs)) ≡ length bs
  unfolding pop_back
  length-pop_back b [] = refl
  length-pop_back b (x ∷ bs) = ap suc (length-pop_back x bs)

  take-pop_back : (n : ℕ) (bs : List B) → n < length bs → take n (pop_back bs) ≡ take n bs
  unfolding pop_back
  take-pop_back n [] h = absurd (omega arith)
  take-pop_back zero (b ∷ bs) h = refl
  take-pop_back (suc n) (b ∷ []) h = absurd (omega arith)
  take-pop_back (suc n) (b ∷ x ∷ bs) h = ap (◌∷◌ b) (take-pop_back n (x ∷ bs) (omega arith))

  -- With fuel for each buffer the loop stops by its test, at the first `n` buffers.
  pub shrink-take : (fuel n : ℕ) (bs : List B) → length bs ≤ fuel → shrink fuel n bs ≡ take n bs
  unfolding shrink
  shrink-take zero zero [] h = refl
  shrink-take zero (suc n) [] h = refl
  shrink-take zero n (b ∷ bs) h = absurd (omega arith)
  shrink-take (suc fuel) zero [] h = refl
  shrink-take (suc fuel) (suc n) [] h = ground arith
  shrink-take (suc fuel) n (b ∷ bs) h = ground (
    arith,
    shrink-take fuel n (pop_back (b ∷ bs)),
    length-pop_back b bs,
    take-pop_back n (b ∷ bs),
    take_all n (b ∷ bs),
  )

  -- What begins with `bs` and one more begins with `bs`.
  take_snoc :
      (bs : List B) (b : B) (got : List B)
      → take (length (bs ++ (b ∷ []))) got ≡ bs ++ (b ∷ [])
      → take (length bs) got ≡ bs
  take_snoc [] b got e = refl
  take_snoc (x ∷ bs) b [] e = ground arith
  take_snoc (x ∷ bs) b (y ∷ got) e = ground (arith, take_snoc bs b got)

module _ {W B : Type 0} (acquire : W → BufferParams → Options → Option B × W) where
  -- A run that gets every buffer returns those at hand and `n` more.
  pub length-acquire_all :
      (n : ℕ) (params : BufferParams) (current : Options) (w : W) (bfs : List B) {got : List B}
      → (acquire_all acquire n params current w bfs).0 ≡ some got
      → length got ≡ length bfs + n
  unfolding acquire_all
  length-acquire_all zero params current w bfs e = ground arith
  length-acquire_all (suc n) params current w bfs {got = got} e =
      elim (Option-cases (acquire w params current).0) [
        | inl no_buffer ↦ absurd (ground arith)
        | inr (b, found) ↦ ground (
          arith,
          length-acquire_all n params current (acquire w params current).1 (bfs ++ (b ∷ []))
              {got = got},
          length-append bfs (b ∷ []),
        )
      ]

  -- The buffers that `grow` leaves, with enough fuel: those at hand come first; there are `n`
  -- on success, and fewer on failure.
  pub grow-length :
      (fuel n : ℕ) (current : Options) (w : W) (bs : List B)
      → length bs ≤ n
      → n ≤ length bs + fuel
      → let (done, got, w') = grow acquire fuel n current w bs in
        (length bs ≤ length got)
        × (done ≡ true → length got ≡ n)
        × (done ≡ false → length got < n)
        × (take (length bs) got ≡ bs)
  unfolding grow
  grow-length zero n current w bs le h = ground (arith, take_all (length bs) bs)
  grow-length (suc fuel) n current w bs le h =
      elim (Option-cases (acquire w (resize_params current) current).0) [
        | inl no_buffer ↦ ground (arith, take_all (length bs) bs)
        | inr (b, found) ↦ ground (
          arith,
          take_all (length bs) bs,
          grow-length fuel n current (acquire w (resize_params current) current).1 (bs ++ (b ∷ [])),
          length-append bs (b ∷ []),
          take_snoc bs b
              (grow acquire fuel n current (acquire w (resize_params current) current).1
                (bs ++ (b ∷ []))).1,
        )
      ]
