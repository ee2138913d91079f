-- ===== src/Drm/Handles.antt =====
-- `CDRMFB` of src/backend/drm/DRM.cpp: how a buffer becomes a framebuffer of the kernel, and what
-- becomes of the handles that this takes.
-- The kernel's answers are parameters (`Kernel`): a handle, not 0, for a file descriptor, the id of
-- a framebuffer for a list of handles, and the results of closing. `Store` has which handles are
-- opened, and the calls that close handles and framebuffers, oldest first.
pub mod Closed
pub mod Import
mod Tests
use aquamarine.Common.{
  ℕ, zero, suc, ◌+◌, Bool, true, false, not, ◌&&◌, ◌||◌, Option, none, some, List, [], ◌∷◌, ◌++◌,
  ◌==◌, if◌then◌else◌, is_some,
}
use aquamarine.Drm.Frames.{mem}

-- `SDMABUFAttrs`: one file descriptor for each plane, four at most.
pub record Attrs : Type 0 where
  pub success : Bool
  pub modifier : ℕ
  pub fds : List ℕ

-- What a call of drmModeCloseFB or drmModeRmFB returns.
pub data Result : Type 0 where
  fine invalid failed : Result

pub data FbCall : Type 0 where
  close_fb rm_fb : ℕ → FbCall

pub record Kernel : Type 0 where
  pub handle_of : ℕ → Option ℕ
  pub add_with_modifiers : List ℕ → Option ℕ
  pub add : List ℕ → Option ℕ
  pub close_result : ℕ → Result
  pub supports_modifiers : Bool

pub record Store : Type 0 where
  pub opened : ℕ → Bool
  pub closed : List ℕ
  pub fb_calls : List FbCall

-- `unimportable` is the attachment CDRMBufferUnimportable of the buffer. `handles` is the array
-- boHandles; `listening` says whether the buffer's destruction is listened for.
pub record Fb : Type 0 where
  pub id : ℕ
  pub handles : List ℕ
  pub dropped : Bool
  pub handles_closed : Bool
  pub dead : Bool
  pub listening : Bool
  pub unimportable : Bool

abbrev pub no_handles : List ℕ
no_handles = 0 ∷ 0 ∷ 0 ∷ 0 ∷ []

-- DRM_FORMAT_MOD_LINEAR, and DRM_FORMAT_MOD_INVALID
abbrev pub linear : ℕ
linear = 0

abbrev pub no_modifier : ℕ
no_modifier = 72057594037927935

abbrev pub set_open : ℕ → Bool → (ℕ → Bool) → ℕ → Bool
set_open h v opened x = if x == h then v else opened x

-- The loop of `closeHandles`; `seen` are the handles before.
pub close_all : List ℕ → List ℕ → Store → Store
close_all seen [] s = s
close_all seen (h ∷ hs) s = close_all (h ∷ seen) hs (
    if h == 0 || mem h seen
    then s
    else record s { opened = set_open h false s.opened; closed = s.closed ++ (h ∷ []) })

pub close_handles : Fb → Store → Fb × Store
unfolding close_all
close_handles fb s =
    if fb.handles_closed
    then (fb, s)
    else (record fb { handles_closed = true; handles = no_handles }, close_all [] fb.handles s)

module _ (k : Kernel) where
  -- drmModeCloseFB, and drmModeRmFB where the kernel does not know it
  abbrev pub close_framebuffer : ℕ → Store → Store
  close_framebuffer i s = elim (k.close_result i) [
    | fine ↦ record s { fb_calls = s.fb_calls ++ (close_fb i ∷ []) }
    | failed ↦ record s { fb_calls = s.fb_calls ++ (close_fb i ∷ []) }
    | invalid ↦ record s { fb_calls = s.fb_calls ++ (close_fb i ∷ rm_fb i ∷ []) }
  ]

  pub drop : Fb → Store → Fb × Store
  unfolding close_handles
  drop fb s =
      if fb.dropped
      then (fb, s)
      else if fb.id == 0
      then (record fb { dropped = true }, s)
      else let (fb', s') = close_handles (record fb { dropped = true }) s in
        (fb', close_framebuffer fb.id s')

  -- The loop over the planes: whether it came to its end, the handles that it got, and the store.
  pub get_handles : List ℕ → Store → Bool × List ℕ × Store
  get_handles [] s = (true, [], s)
  get_handles (fd ∷ fds) s = elim (k.handle_of fd) [
    | none ↦ (false, [], s)
    | some h ↦
        let (done, hs, s') = get_handles fds (record s { opened = set_open h true s.opened }) in
        (done, h ∷ hs, s')
  ]

  abbrev pub id_of : Option ℕ → ℕ
  id_of none = 0
  id_of (some i) = i

  -- `submitBuffer`; 0 is a failure
  pub submit_buffer : Attrs → List ℕ → ℕ
  submit_buffer a hs =
      if not a.success
      then 0
      else if k.supports_modifiers && not (a.modifier == no_modifier)
      then id_of (k.add_with_modifiers hs)
      else if not (a.modifier == no_modifier) && not (a.modifier == linear)
      then 0
      else id_of (k.add hs)

  -- The array with the handles of the planes in front.
  abbrev pub overwrite : List ℕ → List ℕ → List ℕ
  overwrite [] old = old
  overwrite (h ∷ hs) [] = []
  overwrite (h ∷ hs) (o ∷ old) = h ∷ overwrite hs old

  -- After the planes' handles: `submitBuffer` has given `i`.
  abbrev pub submitted : ℕ → Fb → Store → Fb × Store
  submitted zero fb s = drop (record fb { id = 0; unimportable = true }) s
  submitted (suc i) fb s =
      let (fb', s') = close_handles (record fb { id = suc i }) s in
      (record fb' { listening = true }, s')

  abbrev pub with_handles : Attrs → Fb → Bool × List ℕ × Store → Fb × Store
  with_handles a fb (false, hs, s) = drop (record fb { handles = overwrite hs fb.handles }) s
  with_handles a fb (true, hs, s) =
      let all = overwrite hs fb.handles in
      submitted (submit_buffer a all) (record fb { handles = all }) s

  pub import : Attrs → Fb → Store → Fb × Store
  unfolding drop get_handles submit_buffer
  import a fb s =
      if not a.success || fb.unimportable then (fb, s) else with_handles a fb (get_handles a.fds s)

  pub reimport : Attrs → Fb → Store → Fb × Store
  unfolding import
  reimport a fb s =
      let (fb', s') = drop fb s in
      import a (record fb' { dropped = false; handles_closed = false; handles = no_handles }) s'

  -- What listens for the buffer's destruction.
  pub buffer_destroyed : Fb → Store → Fb × Store
  unfolding drop
  buffer_destroyed fb s =
      if fb.listening
      then (let (fb', s') = drop fb s in
          (record fb' { dead = true; id = 0; handles = no_handles }, s'))
      else (fb, s)

-- A framebuffer before `import`, for a buffer that may be marked as unimportable.
abbrev pub new_fb : Bool → Fb
new_fb marked = record {
  id = 0;
  handles = no_handles;
  dropped = false;
  handles_closed = false;
  dead = false;
  listening = false;
  unimportable = marked;
}
