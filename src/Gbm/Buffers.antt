-- ===== src/Gbm/Buffers.antt =====
-- A buffer of src/allocator/GBM.cpp from its construction to its destruction, and the descriptors,
-- buffer objects and mappings of the process meanwhile, as lists of what was opened and closed.
use aquamarine.Common.{
  ℕ, zero, suc, Bool, true, false, not, ◌&&◌, Option, none, some, List, [], ◌∷◌, ◌++◌, ◌==◌, ltb,
  ◌||◌, is_some, is_empty, if◌then◌else◌,
}
use aquamarine.Swapchain.{BufferParams, invalid_format}
use aquamarine.Gbm.{
  Format, find_format, guess_format, explicit_modifiers, for_multigpu, Request, Made, make,
  make_old,
}

-- What the process holds: file descriptors, buffer objects and mappings, as they come and go
pub record Held : Type 0 where
  pub opened : List ℕ
  pub closed : List ℕ
  pub created : List ℕ
  pub destroyed : List ℕ
  pub maps : ℕ
  pub unmaps : ℕ

-- `CGBMBuffer`: `fds` has an entry for each plane that was queried (the constructor starts with one
-- plane and the descriptor -1, which close refuses); `data_ptr` and `mapping` are boBuffer and
-- gboMapping, set or not.
pub record Buffer : Type 0 where
  pub bo : Option ℕ
  pub format : ℕ
  pub modifier : ℕ
  pub fds : List ℕ
  pub success : Bool
  pub data_ptr : Bool
  pub mapping : Bool

abbrev pub close_all : List ℕ → Held → Held
close_all fds h = record h { closed = h.closed ++ fds }

abbrev pub open_fd : ℕ → Held → Held
open_fd fd h = record h { opened = h.opened ++ (fd ∷ []) }

-- What the formats and the parameters of a buffer are to it
pub record Setting : Type 0 where
  pub params : BufferParams
  pub swapchain_output : Bool
  pub cursor_formats : List Format
  pub output_formats : List Format
  pub render_formats : List Format
  pub renderable : List Format
  pub force_linear : Bool

-- CURSOR, MULTIGPU, EXPLICIT_SCANOUT and FORMATS
abbrev pub is_cursor : Setting → Bool
is_cursor s = s.params.cursor && s.params.scanout

abbrev pub is_multigpu : Setting → Bool
is_multigpu s = s.params.multigpu && s.params.scanout

abbrev pub formats_of : Setting → List Format
formats_of s =
    if is_cursor s
    then s.cursor_formats
    else if s.params.scanout && s.swapchain_output && not s.params.multigpu
    then s.output_formats
    else s.render_formats

abbrev pub clips : Setting → Bool
clips s = s.params.scanout && not (is_cursor s) && not (is_multigpu s)

-- The modifiers that the formats give, and those that are asked for
abbrev pub old_modifiers : Setting → ℕ → List ℕ
old_modifiers s format =
    explicit_modifiers (clips s && not (is_empty s.renderable)) s.renderable format (formats_of s)

abbrev pub asked_modifiers : Setting → ℕ → List ℕ
asked_modifiers s format =
    for_multigpu (is_multigpu s) s.force_linear (formats_of s) (old_modifiers s format)

abbrev pub unmade : ℕ → Buffer
unmade format = record {
  bo = none;
  format = format;
  modifier = 0;
  fds = [];
  success = false;
  data_ptr = false;
  mapping = false;
}

-- The descriptors of the planes from number `i` on; where one fails, those before it are closed.
unfoldable pub query_fds : (ℕ → ℕ → Option ℕ) → ℕ → ℕ → ℕ → List ℕ → Held → Option (List ℕ) × Held
query_fds fd_of b zero i fds h = (some fds, h)
query_fds fd_of b (suc n) i fds h = elim (fd_of b i) [
  | none ↦ (none, close_all fds h)
  | some fd ↦ query_fds fd_of b n (suc i) (fds ++ (fd ∷ [])) (open_fd fd h)
]

abbrev pub with_fds : Buffer → Option (List ℕ) × Held → Buffer × Held
with_fds b (some fds, h) = (record b { fds = fds; success = true }, h)
with_fds b (none, h) = (b, h)

-- The buffer that has its buffer object
abbrev pub made_buffer : ℕ → ℕ → ℕ → Buffer
made_buffer format bo modifier = record (unmade format) { bo = some bo; modifier = modifier }

module _ (in_30 in_24 : ℕ → Bool) (gbm : List Request → Request → Option ℕ) (modifier_of : ℕ → ℕ)
    (planes : ℕ → ℕ) (fd_of : ℕ → ℕ → Option ℕ) where
  abbrev pub with_bo : ℕ → Made → Option ℕ → Held → Buffer × Held
  with_bo format made none h = (unmade format, h)
  with_bo format made (some b) h =
      with_fds (made_buffer format b made.modifier)
        (query_fds fd_of b (planes b) 0 [] (record h { created = h.created ++ (b ∷ []) }))

  abbrev pub allocate : Setting → ℕ → Made
  allocate s format =
      make_old gbm modifier_of (is_multigpu s && s.force_linear) (old_modifiers s format) (
        make gbm modifier_of (is_cursor s) (asked_modifiers s format)
          (record { scanout = s.params.scanout && not (is_multigpu s); linear = false }))

  abbrev pub chosen_format : Setting → ℕ
  chosen_format s =
      if s.params.format == invalid_format
      then (guess_format in_30 in_24 (formats_of s) (is_cursor s) s.params.scanout).drm_format
      else s.params.format

  abbrev pub construct_as : Setting → ℕ → Held → Buffer × Held
  construct_as s format h =
      if format == invalid_format
      then (unmade format, h)
      else if is_some (find_format (λ f. f == format) (formats_of s))
      then (let made = allocate s format in with_bo format made made.bo h)
      else (unmade format, h)

  -- The constructor
  unfoldable pub construct : Setting → Held → Buffer × Held
  construct s h = construct_as s (chosen_format s) h

abbrev pub unmap_if : Bool → Held → Held
unmap_if true h = record h { unmaps = suc h.unmaps }
unmap_if false h = h

-- The destructor
abbrev pub destroy_bo : Option ℕ → Bool → Held → Held
destroy_bo none mapping h = h
destroy_bo (some b) mapping h =
    let h' = unmap_if mapping h in record h' { destroyed = h'.destroyed ++ (b ∷ []) }

unfoldable pub destroy : Buffer → Held → Held
destroy b h = destroy_bo b.bo b.mapping (close_all b.fds h)

-- beginDataPtr: `maps` says whether gbm can map the buffer.
unfoldable pub begin_data_ptr : Bool → Buffer → Held → Buffer × Held
begin_data_ptr maps b h =
    if b.data_ptr
    then (b, h)
    else if maps
    then (record b { data_ptr = true; mapping = true }, record h { maps = suc h.maps })
    else (b, h)

unfoldable pub end_data_ptr : Buffer → Held → Buffer × Held
end_data_ptr b h =
    if b.mapping
    then (record b { data_ptr = false; mapping = false }, record h { unmaps = suc h.unmaps })
    else (b, h)

-- The buffers that are there still
pub keep_alive : (ℕ → Bool) → List ℕ → List ℕ
keep_alive alive [] = []
keep_alive alive (b ∷ bs) = let rest = keep_alive alive bs in if alive b then b ∷ rest else rest

-- acquire: the buffer gets the number `id` among those of the allocator.
abbrev pub handed_out : (ℕ → Bool) → ℕ → List ℕ → Buffer × Held → Option Buffer × List ℕ × Held
handed_out alive id buffers (b, h) =
    if is_some b.bo
    then (some b, keep_alive alive (buffers ++ (id ∷ [])), h)
    else (none, buffers, destroy b h)

module _ (in_30 in_24 : ℕ → Bool) (gbm : List Request → Request → Option ℕ) (modifier_of : ℕ → ℕ)
    (planes : ℕ → ℕ) (fd_of : ℕ → ℕ → Option ℕ) where
  unfoldable pub acquire : (ℕ → Bool) → ℕ → Setting → List ℕ → Held → Option Buffer × List ℕ × Held
  unfolding construct
  acquire alive id s buffers h =
      if ltb s.params.size.x 1 || ltb s.params.size.y 1
      then (none, buffers, h)
      else handed_out alive id buffers (construct in_30 in_24 gbm modifier_of planes fd_of s h)
