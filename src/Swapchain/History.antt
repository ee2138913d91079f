-- ===== src/Swapchain/History.antt =====
-- Sequences of calls on one swapchain (src/allocator/Swapchain.cpp), and two requests that
-- `reconfigure` accepts and does not carry through.
use aquamarine.Common.{
  ℕ, ◌≡◌, ◌≢◌, Bool, true, false, Option, List, [], ◌∷◌, arith, All, Bool-cases, inl, inr,
}
use aquamarine.Swapchain.{
  Swapchain, Options, BufferParams, same_size, zero_size, invalid_format, is_unset, create, next,
  rollback, reconfigure, Acquired, null, out_of_range,
}
use aquamarine.Swapchain.Validity.{
  IsValid, IsSane, create-IsValid, next-IsValid, rollback-IsValid, reconfigure-IsValid,
}
use aquamarine.Swapchain.Rotation.{IsReady, next_times_total}

-- The calls that a client makes.
pub data Call : Type 0 where
  reconfigures : Options → Call
  nexts : Call
  rollbacks : Call

abbrev pub IsSaneCall : Call → Type 0
IsSaneCall (reconfigures opts) = IsSane opts
IsSaneCall nexts = Unit
IsSaneCall rollbacks = Unit

-- Without a length or an allocator, `next` gives null; a valid swapchain is ready otherwise.
valid_next_in_range : {B : Type 0} {sc : Swapchain B} → IsValid sc → (next sc).2 ≢ out_of_range
unfolding next
valid_next_in_range {sc = sc} v e = elim (Bool-cases (is_unset sc)) [
  | inl unset ↦ ground arith
  | inr set ↦ let (b, found) = next_times_total 0 (ready set) in cc (found, e)
]
  where
    ready : is_unset sc ≡ false → IsReady sc
    ready set = record { valid = v; has_allocator = ground arith; not_empty = ground arith }

module _ {W B : Type 0} (acquire : W → BufferParams → Options → Option B × W)
    (format_of : B → ℕ) where
  -- The swapchain and the allocator's state after a call, and what the call hands out.
  pub step : Swapchain B → W → Call → Swapchain B × W × Acquired B
  step sc w (reconfigures opts) =
      let (done, sc', w') = reconfigure acquire format_of opts sc w in (sc', w', null)
  step sc w nexts = let (sc', age, got) = next sc in (sc', w, got)
  step sc w rollbacks = (rollback sc, w, null)

  -- What the calls of a history hand out, in order.
  unfoldable pub run : Swapchain B → W → List Call → List (Acquired B)
  unfolding step
  run sc w [] = []
  run sc w (c ∷ cs) = let (sc', w', got) = step sc w c in got ∷ run sc' w' cs

  step-IsValid :
      (sc : Swapchain B) (w : W) (c : Call)
      → IsSaneCall c
      → IsValid sc
      → IsValid (step sc w c).0 × ((step sc w c).2 ≢ out_of_range)
  unfolding step
  step-IsValid sc w (reconfigures opts) sane v =
      (reconfigure-IsValid acquire format_of opts w sane v, λ e. cc)
  step-IsValid sc w nexts sane v = (next-IsValid v, valid_next_in_range v)
  step-IsValid sc w rollbacks sane v = (rollback-IsValid v, λ e. cc)

  run_in_range :
      (cs : List Call) (sc : Swapchain B) (w : W)
      → All IsSaneCall cs
      → IsValid sc
      → All (λ got. got ≢ out_of_range) (run sc w cs)
  unfolding run
  run_in_range [] sc w sane v = tt
  run_in_range (c ∷ cs) sc w sane v =
      let (kept, fine) = step-IsValid sc w c sane.0 v in
      (fine, run_in_range cs (step sc w c).0 (step sc w c).1 sane.1 kept)

  -- From its creation on, whatever the allocator answers, no history of calls makes `next` read
  -- past the end of the vector, as long as each `reconfigure` in it is sane: its length fits an
  -- `int`, and is 0 where its size is zero.
  pub create-run_in_range :
      (alloc : Bool) (w : W) (cs : List Call)
      → All IsSaneCall cs
      → All (λ got. got ≢ out_of_range) (run (create alloc) w cs)
  create-run_in_range alloc w cs sane = run_in_range cs (create alloc) w sane (create-IsValid alloc)

  -- A `reconfigure` to size zero with a length other than 0 returns true, and then `next` throws:
  -- the vector is empty, and the stored length is not 0.
  pub zero_size-next_throws :
      (opts : Options) (sc : Swapchain B) (w : W)
      → sc.allocator ≡ true
      → same_size opts.size zero_size ≡ true
      → opts.length ≢ 0
      → let (done, sc', w') = reconfigure acquire format_of opts sc w in
        (done ≡ true) × ((next sc').2 ≡ out_of_range)
  unfolding reconfigure next
  zero_size-next_throws opts sc w set empty asked = ground arith

  -- A successful `reconfigure` that leaves the format open and changes only the length forgets
  -- the format: the stored one is DRM_FORMAT_INVALID, although the buffers have the old one.
  pub resize_forgets_format :
      (opts : Options) (sc : Swapchain B) (w : W)
      → opts.format ≡ invalid_format
      → same_size opts.size sc.options.size ≡ true
      → same_size opts.size zero_size ≡ false
      → opts.length ≢ 0
      → opts.length ≢ sc.options.length
      → (reconfigure acquire format_of opts sc w).0 ≡ true
      → (reconfigure acquire format_of opts sc w).1.options.format ≡ invalid_format
  unfolding reconfigure
  resize_forgets_format opts sc w open_format same real asked changed done = ground arith
