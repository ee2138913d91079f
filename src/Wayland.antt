-- ===== src/Wayland.antt =====
-- The output of src/backend/Wayland.cpp: commit, scheduleFrame, sendFrameAndSetCallback, onFrameDone,
-- wlBufferFromBuffer, and the idle callbacks that dispatchEvents runs.
-- Requests of Wayland do not fail but where a wl_buffer is made. `idle` is how often the output is
-- among the backend's idle callbacks. A handler of the frame event answers with calls.
pub mod Waits
pub mod Cache
mod Tests
use aquamarine.Common.{
  ℕ, zero, suc, ◌+◌, ◌-◌, Bool, true, false, not, ◌&&◌, ◌||◌, Option, none, some, List, [], ◌∷◌,
  ◌++◌, ◌==◌, ltb, if◌then◌else◌,
}
use aquamarine.Swapchain.{
  BufferParams, Options, Size, Swapchain, contains, default_options, invalid_format, reconfigure,
}

-- A buffer of the compositor, by its number, with the number of its wl_buffer
abbrev pub Buffers : Type 0
Buffers = List (ℕ × ℕ)

-- The frames of an output
pub record Frames : Type 0 where
  pub needs_frame : Bool
  pub frame_scheduled : Bool
  pub callback : Bool
  pub ready : Bool
  pub while_waiting : Bool
  pub idle : ℕ
  pub frames : ℕ
  pub presents : ℕ

unfoldable pub schedule_frame : Frames → Frames
schedule_frame o =
    if o.frame_scheduled
    then record o { needs_frame = true }
    else if o.callback
    then record o { needs_frame = true; frame_scheduled = true; while_waiting = true }
    else record o { needs_frame = true; frame_scheduled = true; idle = suc o.idle }

-- What a commit with a buffer does to the frames
unfoldable pub committed : Frames → Frames
committed o = record o { ready = true; needs_frame = false }

pub data Action : Type 0 where
  schedules commits : Action

abbrev pub act : Action → Frames → Frames
act schedules o = schedule_frame o
act commits o = committed o

unfoldable pub act_all : List Action → Frames → Frames
act_all [] o = o
act_all (a ∷ rest) o = act_all rest (act a o)

module _ (on_frame : Frames → List Action) where
  abbrev pub emit_frame : Frames → Frames
  emit_frame o = act_all (on_frame o) (record o { frames = suc o.frames })

  -- After the frame event
  abbrev pub set_callback : Frames → Frames
  set_callback o = if o.callback || not o.ready then o else record o { callback = true }

  unfoldable pub send_frame : Frames → Frames
  send_frame o = set_callback (record (emit_frame o) { frame_scheduled = false })

  -- The frame event of onFrameDone
  abbrev pub answer : Frames → Frames
  answer o = if o.while_waiting then send_frame o else emit_frame o

  unfoldable pub on_frame_done : Frames → Frames
  on_frame_done o =
      record (answer (
        schedule_frame (record o { callback = false; ready = false; presents = suc o.presents }))) {
          while_waiting = false;
        }

  -- One of its idle callbacks
  unfoldable pub run_idle : Frames → Frames
  run_idle o = send_frame (record o { idle = o.idle - 1 })

-- `erase_if`: the buffers that are gone, or not of the swapchain
unfoldable pub keep_live : (ℕ → Bool) → Buffers → Buffers
keep_live keeps [] = []
keep_live keeps ((b, w) ∷ rest) =
    let others = keep_live keeps rest in if keeps b then (b, w) ∷ others else others

unfoldable pub find : ℕ → Buffers → Option ℕ
find b [] = none
find b ((k, w) ∷ rest) = if k == b then some w else find b rest

abbrev pub made : ℕ → Option ℕ → Buffers → Option ℕ × Buffers
made b none bs = (none, bs)
made b (some w) bs = (some w, bs ++ ((b, w) ∷ []))

abbrev pub found_or_made : ℕ → Option ℕ → Option ℕ → Buffers → Option ℕ × Buffers
found_or_made b (some w) new bs = (some w, bs)
found_or_made b none new bs = made b new bs

-- wlBufferFromBuffer: `keeps` says which buffers are there and of the swapchain, and `new` is the
-- wl_buffer that is made, none if that is not good.
unfoldable pub wl_buffer : (ℕ → Bool) → Option ℕ → ℕ → Buffers → Option ℕ × Buffers
wl_buffer keeps new b bs = let kept = keep_live keeps bs in found_or_made b (find b kept) new kept

pub record Out (W : Type 0) : Type 0 where
  pub mode : Option Size
  pub custom_mode : Option Size
  pub format : ℕ
  pub swapchain : Option (Swapchain ℕ)
  pub buffer : Option ℕ
  pub buffer_committed : Bool
  pub buffers : Buffers
  pub unreleased : ℕ → Bool
  pub attached : List ℕ
  pub commit_events : ℕ
  pub on_commits : ℕ
  pub frames : Frames
  pub allocator : W

abbrev pub pixel_size : Option Size → Option Size → Option Size
pixel_size mode (some custom) = some custom
pixel_size mode none = mode

module _ {W : Type 0} (acquire : W → BufferParams → Options → Option ℕ × W) (format_of : ℕ → ℕ)
    (there : ℕ → Bool) (make : ℕ → Option ℕ) where
  abbrev pub conclude : Out W → Out W
  conclude o = record o { commit_events = suc o.commit_events; on_commits = suc o.on_commits }

  -- The wl_buffer goes to the surface.
  abbrev pub attach : Option ℕ → Out W → Bool × Out W
  attach none o = (false, o)
  attach (some w) o = (
    true,
    conclude (record o {
      unreleased = λ x. if x == w then true else o.unreleased x;
      attached = o.attached ++ (w ∷ []);
      frames = committed o.frames;
    }),
  )

  abbrev pub show : Option ℕ → Swapchain ℕ → Out W → Bool × Out W
  show none sc o = if o.buffer_committed then (false, o) else (true, conclude o)
  show (some b) sc o =
      let (w, bs) =
        wl_buffer (λ x. there x && contains (λ a c. a == c) sc x) (make b) b o.buffers in
      attach w (record o { buffers = bs })

  abbrev pub reconfigured : Bool × Swapchain ℕ × W → Out W → Bool × Out W
  reconfigured (false, sc, w) o = (false, record o { swapchain = some sc; allocator = w })
  reconfigured (true, sc, w) o = show o.buffer sc (record o { swapchain = some sc; allocator = w })

  abbrev pub with_swapchain : Size → Option (Swapchain ℕ) → Out W → Bool × Out W
  with_swapchain size none o = (true, o)
  with_swapchain size (some sc) o =
      reconfigured
        (reconfigure acquire format_of
          (record default_options { length = sc.options.length; size = size; format = o.format }) sc
          o.allocator)
        o

  abbrev pub sized : Option Size → Out W → Bool × Out W
  sized none o = (false, o)
  sized (some size) o =
      if o.format == invalid_format then (false, o) else with_swapchain size o.swapchain o

  unfoldable pub commit : Out W → Bool × Out W
  commit o = sized (pixel_size o.mode o.custom_mode) o
