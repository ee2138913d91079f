-- ===== src/Anland/Store.antt =====
-- The slots, the dmabuf cache and the file descriptors of src/backend/anland/AnlandOutput.cpp and
-- AnlandBuffer.cpp, and what looks them up, closes and replaces them.
use aquamarine.Common.{
  ℕ, Bool, true, false, not, ◌&&◌, ◌||◌, Option, none, some, List, [], ◌∷◌, ◌==◌, ltb,
  if◌then◌else◌,
}

-- `buf_info`
pub record Info : Type 0 where
  pub width : ℕ
  pub height : ℕ
  pub format : ℕ
  pub modifier : ℕ
  pub offset : ℕ
  pub stride : ℕ

-- `CAnlandDmaBuffer`, with the descriptor that it owns
pub record Buffer : Type 0 where
  pub fd : ℕ
  pub info : Info
  pub drm_format : ℕ
  pub modifier : ℕ

-- `BufferSlot`. Its damage is whether there is any.
pub record Slot : Type 0 where
  pub buffer : Option Buffer
  pub imported : Bool
  pub in_use : Bool
  pub has_damage : Bool
  pub damaged : Bool
  pub shape : Info

-- `DmabufCacheEntry`
pub record CacheEntry : Type 0 where
  pub valid : Bool
  pub fd : Option ℕ
  pub format : ℕ
  pub modifier : ℕ
  pub width : ℕ
  pub height : ℕ

abbrev pub Files : Type 0
Files = ℕ → Option ℕ

pub record Sys : Type 0 where
  pub files : Files
  pub slots : ℕ → Slot
  pub cache : List CacheEntry
  pub destroying : Bool

-- The DRM codes of the formats of the protocol: AB24, XB24, AB30, XB30, AB4H, and else XR24
abbrev pub protocol_format_to_drm : ℕ → ℕ
protocol_format_to_drm fmt =
    if fmt == 1
    then 875708993
    else if fmt == 2
    then 875709016
    else if fmt == 3
    then 808665665
    else if fmt == 4
    then 808665688
    else if fmt == 5
    then 1211384385
    else 875713112

-- DRM_FORMAT_MOD_INVALID becomes DRM_FORMAT_MOD_LINEAR, which is 0.
abbrev pub settle_modifier : ℕ → ℕ
settle_modifier m = if m == 72057594037927935 || m == 0 then 0 else m

abbrev pub set_file : ℕ → Option ℕ → Files → Files
set_file fd v files x = if x == fd then v else files x

abbrev pub close : ℕ → Files → Files
close fd files = set_file fd none files

abbrev pub put : ℕ → Slot → Sys → Sys
put i v s = record s { slots = λ j. if j == i then v else s.slots j }

abbrev pub close_buffer : Option Buffer → Files → Files
close_buffer none files = files
close_buffer (some b) files = close b.fd files

abbrev pub close_cached : CacheEntry → Files → Files
close_cached e files = elim e.fd [ none ↦ files | some fd ↦ close fd files ]

-- The slot without a buffer; the reference that is dropped is taken for the last.
unfoldable pub destroy_buffer : ℕ → Sys → Sys
destroy_buffer i s =
    if s.destroying || not (ltb i 8)
    then s
    else put i
        (record (s.slots i) {
          buffer = none;
          imported = false;
          in_use = false;
          has_damage = true;
          damaged = false;
        })
        (record s { files = close_buffer (s.slots i).buffer s.files })

abbrev pub filled : Info → ℕ → ℕ → Option Buffer → Slot
filled info format modifier b = record {
  buffer = b;
  imported = true;
  in_use = false;
  has_damage = true;
  damaged = not (info.width == 0) && not (info.height == 0);
  shape = record info { format = format; modifier = modifier };
}

-- `evictDmabufCache`
abbrev pub evict : List CacheEntry → Files → List CacheEntry × Files
evict [] files = ([], files)
evict (e ∷ rest) files =
    let (others, left) = evict rest (if e.valid then close_cached e files else files) in
    (record e { valid = false; fd = (if e.valid then none else e.fd) } ∷ others, left)

abbrev pub matches : Info → CacheEntry → Bool
matches info e =
    e.valid
    && (e.format == protocol_format_to_drm info.format
        && (e.modifier == settle_modifier info.modifier
            && (e.width == info.width && e.height == info.height)))

-- The first entry that matches
abbrev pub find_cached : Info → List CacheEntry → Option CacheEntry
find_cached info [] = none
find_cached info (e ∷ rest) = if matches info e then some e else find_cached info rest

-- That entry, not valid and closed
abbrev pub drop_cached : Info → List CacheEntry → List CacheEntry
drop_cached info [] = []
drop_cached info (e ∷ rest) =
    let others = drop_cached info rest in
    if matches info e then record e { valid = false; fd = none } ∷ rest else e ∷ others

-- Whether all are valid
abbrev pub all_valid : List CacheEntry → Bool
all_valid [] = true
all_valid (e ∷ rest) = e.valid && all_valid rest

-- The first that is not valid replaced
abbrev pub replace_invalid : CacheEntry → List CacheEntry → List CacheEntry
replace_invalid new [] = []
replace_invalid new (e ∷ rest) =
    let others = replace_invalid new rest in if e.valid then e ∷ others else new ∷ rest

-- The entry of index 0 replaced, or with its descriptor closed
abbrev pub replace_first : Option CacheEntry → List CacheEntry → List CacheEntry
replace_first new [] = []
replace_first none (e ∷ rest) = record e { fd = none } ∷ rest
replace_first (some new) (e ∷ rest) = new ∷ rest

abbrev pub close_first : List CacheEntry → Files → Files
close_first [] files = files
close_first (e ∷ rest) files = close_cached e files
