-- ===== src/Swapchain/Validity.antt =====
-- What holds of a swapchain between calls (src/allocator/Swapchain.cpp), and what `reconfigure`
-- does to it on each of its branches.
use aquamarine.Common.{
  ℕ, suc, ◌^◌, ◌≤◌, ◌<◌, ◌≡◌, Bool, true, false, Option, [], arith, length, take, take_all,
  length-take, Bool-cases, Option-cases, inl, inr,
}
use aquamarine.Common.Int.{ℤ, pos, negsuc}
use aquamarine.Swapchain.{
  Swapchain, Options, BufferParams, same_size, zero_size, full_params, create, next, rollback,
  resize, full_reconfigure, acquire_all, reconfigure,
}
use aquamarine.Swapchain.Loops.{shrink-take, length-acquire_all, grow-length}

-- The values that `lastAcquired` takes: -1, or a number whose successor is an `int`.
abbrev pub IsIndex : ℤ → Type 0
IsIndex (pos n) = suc n < 2 ^ 31
IsIndex (negsuc n) = n ≡ 0

pub record IsValid {B : Type 0} (sc : Swapchain B) : Type 0 where
  pub enough : sc.options.length ≤ length sc.buffers
  pub small : sc.options.length < 2 ^ 31
  pub index : IsIndex sc.last_acquired

-- Options that do not ask for buffers of no size.
abbrev pub IsSane : Options → Type 0
IsSane opts = (same_size opts.size zero_size ≡ true → opts.length ≡ 0) × (opts.length < 2 ^ 31)

pub create-IsValid : {B : Type 0} (alloc : Bool) → IsValid (create {B = B} alloc)
unfolding create
create-IsValid alloc = ground arith

pub next-IsValid : {B : Type 0} {sc : Swapchain B} → IsValid sc → IsValid (next sc).0
unfolding next
next-IsValid v = ground arith

pub rollback-IsValid : {B : Type 0} {sc : Swapchain B} → IsValid sc → IsValid (rollback sc)
unfolding rollback
rollback-IsValid v = ground arith

module _ {W B : Type 0} (acquire : W → BufferParams → Options → Option B × W) where
  -- `resize` touches the buffers only. On success there are `n`; on failure those at hand are
  -- still in front, and there are fewer than `n`.
  pub resize_lem :
      (n : ℕ) (sc : Swapchain B) (w : W)
      → let (done, sc', w') = resize acquire n sc w in
        (sc'.options ≡ sc.options)
        × (sc'.allocator ≡ sc.allocator)
        × (sc'.last_acquired ≡ sc.last_acquired)
        × (done ≡ true → length sc'.buffers ≡ n)
        × (done ≡ false
            → (length sc'.buffers < n)
              × (take (length sc.buffers) sc'.buffers ≡ sc.buffers)
              × (length sc.buffers ≤ length sc'.buffers))
  unfolding resize
  resize_lem n sc w = ground (
    arith,
    shrink-take (length sc.buffers) n sc.buffers,
    length-take n sc.buffers,
    grow-length acquire n n sc.options w sc.buffers,
  )

  -- `fullReconfigure` replaces the buffers by as many as asked for, or changes nothing.
  pub full_reconfigure_lem :
      (sc : Swapchain B) (opts : Options) (w : W)
      → let (done, sc', w') = full_reconfigure acquire sc opts w in
        (sc'.options ≡ sc.options)
        × (sc'.allocator ≡ sc.allocator)
        × (sc'.last_acquired ≡ sc.last_acquired)
        × (done ≡ true → length sc'.buffers ≡ opts.length)
        × (done ≡ false → sc'.buffers ≡ sc.buffers)
  unfolding full_reconfigure
  full_reconfigure_lem sc opts w =
      elim (Option-cases (acquire_all acquire opts.length (full_params opts) sc.options w []).0) [
        | inl failed ↦ ground arith
        | inr (got, all) ↦ ground (
          arith,
          length-acquire_all acquire opts.length (full_params opts) sc.options w [] {got = got},
        )
      ]

  module _ (format_of : B → ℕ) where
    module _ (opts : Options) (sc : Swapchain B) (w : W) where
      stored_length :
          (reconfigure acquire format_of opts sc w).0 ≡ true
          → (reconfigure acquire format_of opts sc w).1.options.length ≡ opts.length
      unfolding reconfigure
      stored_length done = ground arith

      held_length :
          (reconfigure acquire format_of opts sc w).0 ≡ true
          → IsSane opts
          → length (reconfigure acquire format_of opts sc w).1.buffers ≡ opts.length
      unfolding reconfigure
      held_length done sane =
          ground (arith, resize_lem opts.length sc w, full_reconfigure_lem sc opts w)

      stored_size :
          (reconfigure acquire format_of opts sc w).0 ≡ true
          → same_size (reconfigure acquire format_of opts sc w).1.options.size opts.size ≡ true
      unfolding reconfigure
      stored_size done = ground arith

      index_kept : (reconfigure acquire format_of opts sc w).1.last_acquired ≡ sc.last_acquired
      unfolding reconfigure
      index_kept = ground (arith, resize_lem opts.length sc w, full_reconfigure_lem sc opts w)

    -- When `reconfigure` returns false, the options and the rotation are as they were, and the
    -- buffers at hand before the call are still in front.
    pub reconfigure_failure :
        (opts : Options) (sc : Swapchain B) (w : W)
        → (reconfigure acquire format_of opts sc w).0 ≡ false
        → let sc' = (reconfigure acquire format_of opts sc w).1 in
          (sc'.options ≡ sc.options)
          × (take (length sc.buffers) sc'.buffers ≡ sc.buffers)
          × (length sc.buffers ≤ length sc'.buffers)
          × (sc'.last_acquired ≡ sc.last_acquired)
    unfolding reconfigure
    reconfigure_failure opts sc w failed = ground (
      arith,
      resize_lem opts.length sc w,
      full_reconfigure_lem sc opts w,
      take_all (length sc.buffers) sc.buffers,
    )

    -- A call with sane options keeps a valid swapchain valid, whether it succeeds or fails.
    pub reconfigure-IsValid :
        (opts : Options) {sc : Swapchain B} (w : W)
        → IsSane opts
        → IsValid sc
        → IsValid (reconfigure acquire format_of opts sc w).1
    reconfigure-IsValid opts {sc} w sane v =
        elim (Bool-cases (reconfigure acquire format_of opts sc w).0) [
          | inl done ↦ record {
            enough = omega (arith, stored_length opts sc w done, held_length opts sc w done sane);
            small = omega (arith, stored_length opts sc w done);
            index = rw (index_kept opts sc w) v.index;
          }
          | inr failed ↦
              let (kept, _, longer, _) = reconfigure_failure opts sc w failed in
              record {
                enough = rw kept (omega arith);
                small = rw kept v.small;
                index = rw (index_kept opts sc w) v.index;
              }
        ]

    -- When `reconfigure` returns true, the stored options and the number of buffers are those that
    -- were asked for, and the rotation goes on from where it was. The request must be sane: no
    -- buffers of size zero.
    pub reconfigure_success :
        (opts : Options) (sc : Swapchain B) (w : W)
        → IsSane opts
        → (reconfigure acquire format_of opts sc w).0 ≡ true
        → let sc' = (reconfigure acquire format_of opts sc w).1 in
          (sc'.options.length ≡ opts.length)
          × (length sc'.buffers ≡ opts.length)
          × (same_size sc'.options.size opts.size ≡ true)
          × (sc'.last_acquired ≡ sc.last_acquired)
    reconfigure_success opts sc w sane done = (
      stored_length opts sc w done,
      held_length opts sc w done sane,
      stored_size opts sc w done,
      index_kept opts sc w,
    )
