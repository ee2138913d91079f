-- ===== src/Swapchain/Rotation.antt =====
-- Which buffer `CSwapchain::next` hands out (src/allocator/Swapchain.cpp), over any number of calls.
use native.Mathlib.Decide.{dec_lt}
use native.Mathlib.Nat.{mod-lt, mod-eq_of_lt, mod-add-mod, mod-eq-sub-mod, mod_self}
use aquamarine.Common.{
  ℕ, zero, suc, ◌+◌, ◌-◌, ◌%◌, ◌^◌, ◌<◌, ◌≡◌, ◌≢◌, ap, ◌∙◌, sym, subst, true, some, arith,
  get_elem?_below,
}
use aquamarine.Common.Int.{pos, to_int, to_size, int_suc}
use aquamarine.Swapchain.{Swapchain, Options, next, next_index, rollback, rolled_back, at, buffer}
use aquamarine.Swapchain.Validity.{IsValid, next-IsValid, rollback-IsValid}

abbrev pub next_times : {B : Type 0} → ℕ → Swapchain B → Swapchain B
next_times zero sc = sc
next_times (suc k) sc = next_times k (next sc).0

-- A swapchain whose `next` gives a buffer.
pub record IsReady {B : Type 0} (sc : Swapchain B) : Type 0 where
  pub valid : IsValid sc
  pub has_allocator : sc.allocator ≡ true
  pub not_empty : sc.options.length ≢ 0

-- The number that `next` reduces modulo the length.
abbrev pub start : {B : Type 0} → Swapchain B → ℕ
start sc = to_size (int_suc sc.last_acquired)

to_int_small : (n : ℕ) → n < 2 ^ 31 → to_int n ≡ pos n
to_int_small n h = ground arith

to_size_small : (n : ℕ) → n < 2 ^ 32 → to_size (pos n) ≡ n
to_size_small n h = omega arith

suc-mod-mod : (a k m : ℕ) → (suc (a % m) + k) % m ≡ (a + suc k) % m
suc-mod-mod a k m = ap (λ n. n % m) (omega arith) ∙ mod-add-mod a m (suc k)

mod_period : (a k m : ℕ) → (a + (k + m)) % m ≡ (a + k) % m
mod_period a k m =
    mod-eq-sub-mod {n = a + (k + m)} {m = m} (omega arith) ∙ ap (λ n. n % m) (omega arith)

-- Fewer than `m` steps round do not come back to the same place.
mod_not_before : (a j m : ℕ) → 0 < j → j < m → (a + j) % m ≢ a % m
mod_not_before a j m above below e = elim (dec_lt (a % m + j) m) [
  | yes p ↦ omega (arith, mod-add-mod a m j, mod-eq_of_lt p)
  | no p ↦ omega (
    arith,
    mod-add-mod a m j,
    mod-lt a {m = m} (omega arith),
    mod-eq-sub-mod {n = a % m + j} {m = m} (omega arith),
    mod-eq_of_lt {n = a % m + j - m} {m = m} (omega (arith, mod-lt a {m = m} (omega arith))),
  )
]

rolled_back_start :
    (len i : ℕ) → i < len → len < 2 ^ 31 → to_size (int_suc (rolled_back len (pos i))) % len ≡ i
rolled_back_start len zero below small =
    rw (last_of_none) (ap (λ n. n % len) (omega arith) ∙ mod_self len)
  where
    last_of_none : to_int ((len + (2 ^ 64 - 1)) % 2 ^ 64) ≡ pos (len - 1)
    last_of_none = ground arith
rolled_back_start len (suc i) below small =
    ap (λ n. n % len) (to_size_small (suc i) (omega arith)) ∙ mod-eq_of_lt below

module _ {B : Type 0} {sc : Swapchain B} (r : IsReady sc) where
  index_below : start sc % sc.options.length < sc.options.length
  index_below = mod-lt (start sc) (omega (arith, r.not_empty))

  next_index_lem : next_index sc ≡ pos (start sc % sc.options.length)
  next_index_lem =
      to_int_small (start sc % sc.options.length) (omega (arith, index_below, r.valid.small))

  -- One call hands out the buffer at the reduced index.
  next_acquired : (next sc).2 ≡ at sc.buffers (start sc % sc.options.length)
  unfolding next
  next_acquired =
      let e =
        to_size_small (start sc % sc.options.length) (omega (arith, index_below, r.valid.small)) in
      ground (arith, next_index_lem, r.not_empty, r.has_allocator)

  start-next : start (next sc).0 ≡ suc (start sc % sc.options.length)
  unfolding next
  start-next =
      ground (arith, next_index_lem, r.not_empty, r.has_allocator, index_below, r.valid.small)

  next_options : (next sc).0.options ≡ sc.options
  unfolding next
  next_options = ground (arith, r.not_empty, r.has_allocator)

  next_buffers : (next sc).0.buffers ≡ sc.buffers
  unfolding next
  next_buffers = ground (arith, r.not_empty, r.has_allocator)

  next_allocator : (next sc).0.allocator ≡ sc.allocator
  unfolding next
  next_allocator = ground (arith, r.not_empty, r.has_allocator)

  age_written : (next sc).1 ≡ some (pos sc.options.length)
  unfolding next
  age_written = ground (arith, r.not_empty, r.has_allocator, r.valid.small)

  next_last : (next sc).0.last_acquired ≡ pos (start sc % sc.options.length)
  unfolding next
  next_last = ground (arith, next_index_lem, r.not_empty, r.has_allocator)

  rollback-IsReady : IsReady (rollback sc)
  unfolding rollback
  rollback-IsReady = record {
    valid = rollback-IsValid r.valid;
    has_allocator = ground (arith, r.has_allocator);
    not_empty = ground (arith, r.not_empty);
  }

  start-rollback :
      (i : ℕ)
      → sc.last_acquired ≡ pos i
      → i < sc.options.length
      → start (rollback sc) % sc.options.length ≡ i
  unfolding rollback
  start-rollback i last below =
      ap (λ l. to_size (int_suc (rolled_back sc.options.length l)) % sc.options.length) last
      ∙ rolled_back_start sc.options.length i below r.valid.small

  rollback_rest : ((rollback sc).buffers ≡ sc.buffers) × ((rollback sc).options ≡ sc.options)
  unfolding rollback
  rollback_rest = ground arith

  pub next-IsReady : IsReady (next sc).0
  next-IsReady = record {
    valid = next-IsValid r.valid;
    has_allocator = next_allocator ∙ r.has_allocator;
    not_empty = rw next_options r.not_empty;
  }

module _ {B : Type 0} where
  -- The call after `k` others hands out the buffer `k` places on, counted modulo the length.
  pub next_times_acquired :
      (k : ℕ) {sc : Swapchain B}
      → IsReady sc
      → (next (next_times k sc)).2 ≡ at sc.buffers ((start sc + k) % sc.options.length)
  next_times_acquired zero {sc} r =
      next_acquired r ∙ ap (λ n. at sc.buffers (n % sc.options.length)) (omega arith)
  next_times_acquired (suc k) {sc} r =
      next_times_acquired k (next-IsReady r)
      ∙ rw (start-next r, next_options r, next_buffers r)
          (ap (at sc.buffers) (suc-mod-mod (start sc) k sc.options.length))

  -- An index within the length names a buffer.
  at_in_range :
      {sc : Swapchain B} (i : ℕ)
      → IsReady sc
      → i < sc.options.length
      → (b : B) × (at sc.buffers i ≡ buffer b)
  at_in_range {sc} i r h =
      let (b, found) = get_elem?_below sc.buffers i (omega (arith, r.valid.enough)) in
      (b, ground (arith, found))

  -- A swapchain that is valid, has an allocator and a length other than 0 hands out a buffer at
  -- each of any number of calls of `next`: never null, and never past the end of the vector.
  pub next_times_total :
      (k : ℕ) {sc : Swapchain B} → IsReady sc → (b : B) × ((next (next_times k sc)).2 ≡ buffer b)
  next_times_total k {sc} r =
      let (b, found) =
        at_in_range ((start sc + k) % sc.options.length) r
          (mod-lt (start sc + k) (omega (arith, r.not_empty))) in
      (b, next_times_acquired k r ∙ found)

  -- `*age = options.length`: a buffer comes back after exactly as many calls as the swapchain is
  -- long, and the index of no call in between is the same. The swapchain is ready.
  pub next_age :
      (k : ℕ) {sc : Swapchain B}
      → IsReady sc
      → ((next (next_times (k + sc.options.length) sc)).2 ≡ (next (next_times k sc)).2)
        × ((j : ℕ)
            → 0 < j
            → j < sc.options.length
            → (start sc + (k + j)) % sc.options.length ≢ (start sc + k) % sc.options.length)
        × ((next sc).1 ≡ some (pos sc.options.length))
  next_age k {sc} r = (
    next_times_acquired (k + sc.options.length) r
        ∙ ap (at sc.buffers) (mod_period (start sc) k sc.options.length)
        ∙ sym (next_times_acquired k r),
    λ j above below e.
        mod_not_before (start sc + k) j sc.options.length above below
          (ap (λ n. n % sc.options.length) (omega arith) ∙ e),
    age_written r,
  )

  rollback_index :
      {sc : Swapchain B}
      → IsReady sc
      → start (rollback (next sc).0) % sc.options.length ≡ start sc % sc.options.length
  rollback_index {sc} r =
      ap (λ (o : Options). start (rollback (next sc).0) % o.length) (sym (next_options r))
      ∙ start-rollback (next-IsReady r) (start sc % sc.options.length) (next_last r) (
          subst (λ (o : Options). start sc % sc.options.length < o.length) (sym (next_options r))
            (index_below r))

  -- After a call of `next`, `rollback` makes the next call hand out the same buffer again, and
  -- keeps the buffers and options. The swapchain is ready.
  pub next-rollback :
      {sc : Swapchain B}
      → IsReady sc
      → ((next (rollback (next sc).0)).2 ≡ (next sc).2)
        × ((rollback (next sc).0).buffers ≡ sc.buffers)
        × ((rollback (next sc).0).options ≡ sc.options)
  next-rollback {sc} r =
      let q = next-IsReady r in
      let rest = rollback_rest q in
      (
        next_acquired (rollback-IsReady q)
            ∙ rw (rest.0, rest.1, next_buffers r, next_options r)
                (ap (at sc.buffers) (rollback_index r))
            ∙ sym (next_acquired r),
        rest.0 ∙ next_buffers r,
        rest.1 ∙ next_options r,
      )
