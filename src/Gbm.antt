-- ===== src/Gbm.antt =====
-- The buffers of src/allocator/GBM.cpp: guessFormatFrom, the constructor and the destructor of
-- CGBMBuffer, its mapping, and CGBMAllocator::acquire. gbm is a parameter: what it answers to a
-- request, the calls made before included, what it says of a buffer object, and the file
-- descriptors of its planes. So are the names of the formats, which libdrm gives. Clearing a new
-- buffer with the renderer, and the numbers of strides and offsets, are left out.
pub mod Modifiers
pub mod Guess
pub mod Buffers
pub mod Owned
pub mod Lifetime
pub mod Requests
mod Tests
use aquamarine.Common.{
  ℕ, suc, ◌+◌, ◌*◌, ◌^◌, Bool, true, false, not, ◌&&◌, ◌||◌, Option, none, some, List, [], ◌∷◌,
  ◌++◌, ◌==◌, ltb, is_some, if◌then◌else◌,
}
use aquamarine.Swapchain.{Size, BufferParams, invalid_format}

-- `SDRMFormat`
pub record Format : Type 0 where
  pub drm_format : ℕ
  pub modifiers : List ℕ

-- `DRM_FORMAT_MOD_INVALID` and `DRM_FORMAT_MOD_LINEAR`
abbrev pub mod_invalid : ℕ
mod_invalid = 0x00ffffffffffffff

abbrev pub mod_linear : ℕ
mod_linear = 0

abbrev pub fourcc : ℕ → ℕ → ℕ → ℕ → ℕ
fourcc a b c d = a + b * 2 ^ 8 + c * 2 ^ 16 + d * 2 ^ 24

unfoldable pub is_alpha10 : ℕ → Bool
is_alpha10 f = f == fourcc b'A' b'R' b'3' b'0' || f == fourcc b'A' b'B' b'3' b'0'

unfoldable pub is_opaque10 : ℕ → Bool
is_opaque10 f = f == fourcc b'X' b'R' b'3' b'0' || f == fourcc b'X' b'B' b'3' b'0'

unfoldable pub is_alpha8 : ℕ → Bool
is_alpha8 f = f == fourcc b'A' b'R' b'2' b'4' || f == fourcc b'A' b'B' b'2' b'4'

unfoldable pub is_opaque8 : ℕ → Bool
is_opaque8 f = f == fourcc b'X' b'R' b'2' b'4' || f == fourcc b'X' b'B' b'2' b'4'

-- `std::ranges::find_if`
pub find_format : (ℕ → Bool) → List Format → Option Format
find_format p [] = none
find_format p (f ∷ fs) = if p f.drm_format then some f else find_format p fs

infixr 30 ◌or_else◌
abbrev pub ◌or_else◌ {ℓ} : {A : Type ℓ} → Option A → Option A → Option A
some a or_else b = some a
none or_else b = b

abbrev pub when {ℓ} : {A : Type ℓ} → Bool → Option A → Option A
when true a = a
when false a = none

abbrev pub first_of : Option Format → List Format → Format
first_of (some f) fs = f
first_of none [] = record { drm_format = invalid_format; modifiers = [] }
first_of none (f ∷ fs) = f

-- guessFormatFrom, for a cursor or not, scanned out or not: `in_30` and `in_24` say whether a format's name contains these digits.
unfoldable pub guess_format : (ℕ → Bool) → (ℕ → Bool) → List Format → Bool → Bool → Format
guess_format in_30 in_24 fs cursor scanout =
    first_of
      (when (not cursor && not scanout) (find_format is_alpha10 fs)
        or_else when (not cursor) (find_format is_opaque10 fs)
        or_else when (not scanout || cursor) (find_format is_alpha8 fs)
        or_else find_format is_opaque8 fs
        or_else find_format in_30 fs
        or_else find_format in_24 fs)
      fs

-- `std::find`
pub has : ℕ → List ℕ → Bool
has m [] = false
has m (x ∷ xs) = x == m || has m xs

-- The modifiers of one of the formats: `clips` says whether those are dropped that `renderable`,
-- the renderer's format, has not. Without it the loop ends at the first that counts.
pub clip : Bool → Option Format → List ℕ → List ℕ
clip clips renderable [] = []
clip clips renderable (m ∷ ms) =
    let rest = clip clips renderable ms in
    if m == mod_invalid
    then rest
    else if not clips
    then m ∷ rest
    else elim renderable [ none ↦ [] | some r ↦ if has m r.modifiers then m ∷ rest else rest ]

pub explicit_modifiers : Bool → List Format → ℕ → List Format → List ℕ
explicit_modifiers clips renderable format [] = []
explicit_modifiers clips renderable format (f ∷ fs) =
    let rest = explicit_modifiers clips renderable format fs in
    if f.drm_format == format
    then clip clips (find_format (λ g. g == f.drm_format) renderable) f.modifiers ++ rest
    else rest

-- The modifiers of a buffer for several GPUs; the one test compares a format with a modifier.
-- The first says whether it is for several GPUs, the second whether AQ_FORCE_LINEAR_BLIT is on.
unfoldable pub for_multigpu : Bool → Bool → List Format → List ℕ → List ℕ
for_multigpu multigpu force_linear fs ms =
    if not multigpu
    then ms
    else if force_linear
    then mod_linear ∷ []
    else if is_some (find_format (λ g. g == mod_linear) fs)
    then mod_linear ∷ []
    else ms

-- `GBM_BO_USE_SCANOUT` and `GBM_BO_USE_LINEAR`; that of rendering is always set.
pub record Flags : Type 0 where
  pub scanout : Bool
  pub linear : Bool

pub data Request : Type 0 where
  plain : Flags → Request
  modifiers2 : List ℕ → Flags → Request
  modifiers1 : List ℕ → Request

-- The buffer object, its modifier, and what gbm was asked
pub record Made : Type 0 where
  pub bo : Option ℕ
  pub modifier : ℕ
  pub asked : List Request

abbrev pub only_linear : List ℕ → Bool
only_linear [] = false
only_linear (m ∷ []) = m == mod_linear
only_linear (m ∷ n ∷ ms) = false

module _ (gbm : List Request → Request → Option ℕ) (modifier_of : ℕ → ℕ) where
  -- One more request, and the buffer object that comes of it
  abbrev pub ask : Request → List Request → Option ℕ × List Request
  ask r asked = (gbm asked r, asked ++ (r ∷ []))

  -- For a cursor it is asked again, without flags.
  abbrev pub ask_again : Bool → List ℕ → Option ℕ × List Request → Option ℕ × List Request
  ask_again cursor ms (some b, asked) = (some b, asked)
  ask_again cursor ms (none, asked) = if cursor then ask (modifiers1 ms) asked else (none, asked)

  abbrev pub or_plain : Bool → Flags → Option ℕ × List Request → Made
  or_plain use_linear flags (some b, asked) = record {
    bo = some b;
    modifier = if use_linear && (modifier_of b == mod_invalid) then mod_linear else modifier_of b;
    asked = asked;
  }
  or_plain use_linear flags (none, asked) =
      let (bo, all) =
        ask (plain (if use_linear then record flags { linear = true } else flags)) asked in
      record { bo = bo; modifier = if use_linear then mod_linear else mod_invalid; asked = all }

  abbrev pub make_plain : Option ℕ × List Request → Made
  make_plain (bo, asked) = record { bo = bo; modifier = mod_invalid; asked = asked }

  unfoldable pub make : Bool → List ℕ → Flags → Made
  make cursor [] flags = make_plain (ask (plain flags) [])
  make cursor (m ∷ ms) flags =
      or_plain (only_linear (m ∷ ms)) flags
        (ask_again cursor (m ∷ ms) (ask (modifiers2 (m ∷ ms) flags) []))

  abbrev pub old_request : List ℕ → Request
  old_request [] = plain (record { scanout = false; linear = false })
  old_request (m ∷ ms) = modifiers1 (m ∷ ms)

  abbrev pub last_resort : Made → Option ℕ × List Request → Made
  last_resort made (some b, asked) = record { bo = some b; modifier = modifier_of b; asked = asked }
  last_resort made (none, asked) = record made { asked = asked }

  -- The last attempt of a buffer that was forced to be linear: the modifiers from before
  unfoldable pub make_old : Bool → List ℕ → Made → Made
  make_old forced old made =
      if forced && not (is_some made.bo)
      then last_resort made (ask (old_request old) made.asked)
      else made
