-- ===== src/Swapchain.antt =====
-- src/allocator/Swapchain.cpp and include/aquamarine/allocator/Swapchain.hpp.
-- The allocator is an interface of the program (IAllocator): `acquire` takes its state and the
-- parameters of a buffer and returns a buffer or null. Log calls are left out. A size is in pixels.
pub mod Loops
pub mod Validity
pub mod Rotation
pub mod History
mod Tests
use aquamarine.Common.{
  ℕ, zero, suc, ◌+◌, ◌-◌, ◌%◌, ◌^◌, Bool, true, false, ◌&&◌, ◌||◌, not, Option, none, some, List,
  [], ◌∷◌, ◌++◌, ltb, ◌==◌, if◌then◌else◌, length, get_elem?,
}
use aquamarine.Common.Int.{ℤ, pos, to_size, to_int, int_suc, int_pred, is_negative}

pub record Size : Type 0 where
  pub x : ℕ
  pub y : ℕ

abbrev pub same_size : Size → Size → Bool
same_size a b = a.x == b.x && a.y == b.y

-- `Vector2D{}`
abbrev pub zero_size : Size
zero_size = record { x = 0; y = 0 }

-- `DRM_FORMAT_INVALID`
abbrev pub invalid_format : ℕ
invalid_format = 0

-- `SSwapchainOptions`; `scanout_output` is an output's number, none if it is null
pub record Options : Type 0 where
  pub length : ℕ
  pub size : Size
  pub format : ℕ
  pub scanout : Bool
  pub cursor : Bool
  pub multigpu : Bool
  pub scanout_output : Option ℕ

abbrev pub default_options : Options
default_options = record {
  length = 0;
  size = zero_size;
  format = invalid_format;
  scanout = false;
  cursor = false;
  multigpu = false;
  scanout_output = none;
}

-- `SAllocatorBufferParams`
pub record BufferParams : Type 0 where
  pub size : Size
  pub format : ℕ
  pub scanout : Bool
  pub cursor : Bool
  pub multigpu : Bool

-- `allocator` says whether the pointer is set
pub record Swapchain (B : Type 0) : Type 0 where
  pub options : Options
  pub allocator : Bool
  pub buffers : List B
  pub last_acquired : ℤ

pub create : {B : Type 0} → Bool → Swapchain B
create alloc = record {
  options = default_options;
  allocator = alloc;
  buffers = [];
  last_acquired = pos 0;
}

-- What `next` gives: null, the exception of `buffers.at`, or a buffer.
pub data Acquired (B : Type 0) : Type 0 where
  null : Acquired B
  out_of_range : Acquired B
  buffer : B → Acquired B

abbrev pub at : {B : Type 0} → List B → ℕ → Acquired B
at bs i = elim (get_elem? bs i) [ none ↦ out_of_range | some b ↦ buffer b ]

-- `!allocator || options.length <= 0`
abbrev pub is_unset : {B : Type 0} → Swapchain B → Bool
is_unset sc = not sc.allocator || sc.options.length == 0

-- `(lastAcquired + 1) % options.length`, assigned to an `int`
abbrev pub next_index : {B : Type 0} → Swapchain B → ℤ
next_index sc = to_int (to_size (int_suc sc.last_acquired) % sc.options.length)

-- The new state, what is written through `age` if it is not null, and the result.
pub next : {B : Type 0} → Swapchain B → Swapchain B × Option ℤ × Acquired B
next sc = if is_unset sc then (sc, none, null) else (
  record sc { last_acquired = next_index sc },
  some (to_int sc.options.length),
  at sc.buffers (to_size (next_index sc)),
)

-- `lastAcquired--`, and `options.length - 1` in its place where it is negative: that is a `size_t`,
-- and goes into an `int`.
abbrev pub rolled_back : ℕ → ℤ → ℤ
rolled_back len last =
    if is_negative (int_pred last) then to_int ((len + (2 ^ 64 - 1)) % 2 ^ 64) else int_pred last

pub rollback : {B : Type 0} → Swapchain B → Swapchain B
rollback sc = record sc { last_acquired = rolled_back sc.options.length sc.last_acquired }

-- `std::ranges::find(buffers, buffer) != buffers.end()`, with the test of two shared pointers
pub find_in : {B : Type 0} → (B → B → Bool) → List B → B → Bool
find_in same [] b = false
find_in same (x ∷ xs) b = same x b || find_in same xs b

pub contains : {B : Type 0} → (B → B → Bool) → Swapchain B → B → Bool
unfolding find_in
contains same sc b = find_in same sc.buffers b

-- `while (buffers.size() > newSize) buffers.pop_back();`
pub pop_back : {B : Type 0} → List B → List B
pop_back [] = []
pop_back (x ∷ []) = []
pop_back (x ∷ y ∷ xs) = x ∷ pop_back (y ∷ xs)

pub shrink : {B : Type 0} → ℕ → ℕ → List B → List B
unfolding pop_back
shrink zero n bs = bs
shrink (suc fuel) n bs = elim (ltb n (length bs)) [
  | true ↦ shrink fuel n (pop_back bs)
  | false ↦ bs
]

abbrev pub resize_params : Options → BufferParams
resize_params o = record {
  size = o.size;
  format = o.format;
  scanout = o.scanout;
  cursor = o.cursor;
  multigpu = false;
}

abbrev pub full_params : Options → BufferParams
full_params o = record {
  size = o.size;
  format = o.format;
  scanout = o.scanout;
  cursor = o.cursor;
  multigpu = o.multigpu;
}

-- The test that the two cheaper branches of `reconfigure` share.
abbrev pub same_kind : Options → Options → Bool
same_kind new old =
    (new.format == old.format || new.format == invalid_format) && same_size new.size old.size

-- `W` is the allocator's state. `acquire` is also given the options that the swapchain has during
-- the call, which allocators read through the pointer.
module _ {W B : Type 0} (acquire : W → BufferParams → Options → Option B × W) where
  -- the loop of `fullReconfigure`: `n` rounds are left
  pub acquire_all : ℕ → BufferParams → Options → W → List B → Option (List B) × W
  acquire_all zero params current w bfs = (some bfs, w)
  acquire_all (suc n) params current w bfs =
      let (got, w') = acquire w params current in
      elim got [ none ↦ (none, w') | some b ↦ acquire_all n params current w' (bfs ++ (b ∷ [])) ]

  pub full_reconfigure : Swapchain B → Options → W → Bool × Swapchain B × W
  unfolding acquire_all
  full_reconfigure sc opts w =
      let (got, w') = acquire_all opts.length (full_params opts) sc.options w [] in
      elim got [ none ↦ (false, sc, w') | some bfs ↦ (true, record sc { buffers = bfs }, w') ]

  -- `while (buffers.size() < newSize)`, on fuel: each round adds a buffer or returns.
  -- `multigpu` is not among the parameters that the source gives here, and is false by default.
  pub grow : ℕ → ℕ → Options → W → List B → Bool × List B × W
  grow zero n current w bs = (true, bs, w)
  grow (suc fuel) n current w bs = elim (ltb (length bs) n) [
    | false ↦ (true, bs, w)
    | true ↦
        let (got, w') = acquire w (resize_params current) current in
        elim got [ none ↦ (false, bs, w') | some b ↦ grow fuel n current w' (bs ++ (b ∷ [])) ]
  ]

  pub resize : ℕ → Swapchain B → W → Bool × Swapchain B × W
  unfolding shrink grow
  resize n sc w =
      if n == length sc.buffers
      then (true, sc, w)
      else if ltb n (length sc.buffers)
      then (true, record sc { buffers = shrink (length sc.buffers) n sc.buffers }, w)
      else let (done, bs, w') = grow n n sc.options w sc.buffers in
        (done, record sc { buffers = bs }, w')

-- `options.format = buffers.at(0)->dmabuf().format`, when it is `DRM_FORMAT_INVALID`; the list
-- is not empty, since the length that was asked for is not 0. `format_of` is `dmabuf().format`.
abbrev pub settle_format : {B : Type 0} → (B → ℕ) → Options → List B → Options
settle_format format_of opts [] = opts
settle_format format_of opts (b ∷ bs) =
    if opts.format == invalid_format then record opts { format = format_of b } else opts

-- The rest of each branch, once `resize` or `fullReconfigure` has returned.
abbrev pub resized : {W B : Type 0} → Options → Bool × Swapchain B × W → Bool × Swapchain B × W
resized opts (done, sc, w) =
    if done then (true, record sc { options = opts }, w) else (false, sc, w)

abbrev pub rebuilt :
    {W B : Type 0} → (B → ℕ) → Options → Bool × Swapchain B × W → Bool × Swapchain B × W
rebuilt format_of opts (done, sc, w) =
    if done
    then (true, record sc { options = settle_format format_of opts sc.buffers }, w)
    else (false, sc, w)

pub reconfigure :
    {W B : Type 0} (acquire : W → BufferParams → Options → Option B × W) (format_of : B → ℕ)
    → Options
    → Swapchain B
    → W
    → Bool × Swapchain B × W
unfolding resize full_reconfigure
reconfigure acquire format_of opts sc w =
    if not sc.allocator
    then (false, sc, w)
    else if same_size opts.size zero_size || opts.length == 0
    then (true, record sc { buffers = []; options = opts }, w)
    else if same_kind opts sc.options
        && (opts.length == sc.options.length && length sc.buffers == sc.options.length)
    then (true, sc, w)
    else if same_kind opts sc.options
    then resized opts (resize acquire opts.length sc w)
    else rebuilt format_of opts (full_reconfigure acquire sc opts w)
