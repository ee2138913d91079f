-- ===== src/Anland/Slots.antt =====
-- The buffers of src/backend/anland/AnlandOutput.cpp: importBuffer, cacheOrImportBuffer,
-- destroyBuffer and protocol_format_to_drm, the constructor and destructor of CAnlandDmaBuffer in
-- AnlandBuffer.cpp, and createDupFd and evictDmabufCache of AnlandBackend.cpp.
-- `files` says which dmabuf an open descriptor refers to. `new_fd` is the kernel's choice of a
-- descriptor for a copy, `ctx_fd` the descriptor that the display context has for a buffer, which
-- stays its own, and `info_of` what it says of that buffer. The locks are not modelled.
pub mod Sound
pub mod Shared
mod Tests
use aquamarine.Common.{
  ℕ, suc, Bool, true, false, not, ◌&&◌, ◌||◌, Option, none, some, List, [], ◌∷◌, ◌==◌, ltb,
  if◌then◌else◌, is_some,
}
use aquamarine.Anland.Store.{
  Info, Buffer, CacheEntry, Files, Sys, protocol_format_to_drm, settle_modifier, set_file, close,
  put, close_cached, filled, find_cached, drop_cached, all_valid, replace_invalid, replace_first,
  close_first,
}

module _ (new_fd : Files → Option ℕ) where
  abbrev pub copied : Option ℕ → Option ℕ → Files → Option ℕ × Files
  copied none n files = (none, files)
  copied (some d) none files = (none, files)
  copied (some d) (some n) files = (some n, set_file n (some d) files)

  -- `dup`, and `fcntl` in createDupFd: the copy, none for a failure
  abbrev pub dup : ℕ → Files → Option ℕ × Files
  dup fd files = copied (files fd) (new_fd files) files

  -- The buffer of a descriptor, none if it is not `good`
  abbrev pub buffer_of : Option ℕ → Info → Option Buffer
  buffer_of none info = none
  buffer_of (some n) info = some (record {
    fd = n;
    info = info;
    drm_format = protocol_format_to_drm info.format;
    modifier = settle_modifier info.modifier;
  })

  -- The slot that gets this buffer, if it is good
  abbrev pub fill : ℕ → Info → Option Buffer → Files → Sys → Bool × Sys
  fill i info none files s =
      (false, put i (record (s.slots i) { buffer = none }) (record s { files = files }))
  fill i info (some b) files s = (
    true,
    put i
        (filled info (protocol_format_to_drm info.format) (settle_modifier info.modifier) (some b))
        (record s { files = files }),
  )

  -- importBuffer from the descriptor on, which it closes when it has made the buffer
  unfoldable pub import_fd : ℕ → ℕ → Option Info → Sys → Bool × Sys
  import_fd i fd none s = (false, record s { files = close fd s.files })
  import_fd i fd (some info) s =
      let (n, files) = dup fd s.files in fill i info (buffer_of n info) (close fd files) s

  abbrev pub import_opened : ℕ → Option ℕ → Option Info → Sys → Bool × Sys
  import_opened i none info s = (false, s)
  import_opened i (some fd) info s = import_fd i fd info s

  -- `ready`: there is a display, and it is not in fallback.
  unfoldable pub import_buffer : Bool → (ℕ → Option ℕ) → (ℕ → Option Info) → ℕ → Sys → Bool × Sys
  import_buffer ready ctx_fd info_of i s =
      if s.destroying || not (ltb i 8)
      then (false, s)
      else if (s.slots i).imported
      then (true, s)
      else if ready
      then import_opened i (ctx_fd i) (info_of i) s
      else (false, s)

  abbrev pub cache_entry : Info → ℕ → CacheEntry
  cache_entry info fd = record {
    valid = true;
    fd = some fd;
    format = protocol_format_to_drm info.format;
    modifier = settle_modifier info.modifier;
    width = info.width;
    height = info.height;
  }

  -- The cache is full: its first entry goes.
  abbrev pub cache_full : Info → Option ℕ × Files → List CacheEntry → List CacheEntry × Files
  cache_full info (none, files) cache = (replace_first none cache, files)
  cache_full info (some n, files) cache = (replace_first (some (cache_entry info n)) cache, files)

  abbrev pub cache_free : Info → Option ℕ × Files → List CacheEntry → List CacheEntry × Files
  cache_free info (none, files) cache = (cache, files)
  cache_free info (some n, files) cache = (replace_invalid (cache_entry info n) cache, files)

  unfoldable pub update_cache : Info → ℕ → List CacheEntry → Files → List CacheEntry × Files
  update_cache info fd cache files =
      if all_valid cache
      then cache_full info (dup fd (close_first cache files)) cache
      else cache_free info (dup fd files) cache

  abbrev pub remember : Info → ℕ → Bool × Sys → Bool × Sys
  remember info fd (false, s) = (false, record s { files = close fd s.files })
  remember info fd (true, s) =
      let (cache, files) = update_cache info fd s.cache s.files in
      (true, record s { cache = cache; files = files })

  -- `do_import`
  unfoldable pub do_import : ℕ → ℕ → Info → Sys → Bool × Sys
  do_import i fd info s =
      let (n, files) = dup fd s.files in remember info fd (fill i info (buffer_of n info) files s)

  abbrev pub forget_cached : Info → CacheEntry → Files → Sys → Sys
  forget_cached info e files s = record s {
    cache = drop_cached info s.cache;
    files = close_cached e files;
  }

  -- A hit: the buffer's own copy, or the entry dropped and the buffer imported
  abbrev pub use_good : ℕ → ℕ → Info → CacheEntry → Option ℕ × Files → Sys → Bool × Sys
  use_good i fd info e (none, files) s =
      do_import i fd info
        (put i (record (s.slots i) { buffer = none }) (forget_cached info e files s))
  use_good i fd info e (some n, files) s = fill i info (buffer_of (some n) info) (close fd files) s

  -- A hit, with the copy of the cached descriptor, of which the buffer makes one more.
  abbrev pub use_copy : ℕ → ℕ → Info → CacheEntry → Option ℕ × Files → Sys → Bool × Sys
  use_copy i fd info e (none, files) s = do_import i fd info (forget_cached info e files s)
  use_copy i fd info e (some copy, files) s = use_good i fd info e (dup copy files) s

  abbrev pub dup_cached : Option ℕ → Files → Option ℕ × Files
  dup_cached none files = (none, files)
  dup_cached (some fd) files = dup fd files

  abbrev pub hit_or_miss : ℕ → ℕ → Info → Option CacheEntry → Sys → Bool × Sys
  hit_or_miss i fd info none s = do_import i fd info s
  hit_or_miss i fd info (some e) s = use_copy i fd info e (dup_cached e.fd s.files) s

  abbrev pub cache_opened : ℕ → Option ℕ → Option Info → Sys → Bool × Sys
  cache_opened i none info s = (false, s)
  cache_opened i (some fd) none s = (false, record s { files = close fd s.files })
  cache_opened i (some fd) (some info) s = hit_or_miss i fd info (find_cached info s.cache) s

  unfoldable pub cache_or_import_buffer :
      Bool → (ℕ → Option ℕ) → (ℕ → Option Info) → ℕ → Sys → Bool × Sys
  cache_or_import_buffer ready ctx_fd info_of i s =
      if s.destroying || not (ltb i 8)
      then (false, s)
      else if (s.slots i).imported
      then (true, s)
      else if ready
      then cache_opened i (ctx_fd i) (info_of i) s
      else (false, s)
