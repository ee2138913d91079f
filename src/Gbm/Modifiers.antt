-- ===== src/Gbm/Modifiers.antt =====
-- Which modifiers a buffer of src/allocator/GBM.cpp is asked for.
use aquamarine.Common.{
  ℕ, Bool, true, false, not, ◌&&◌, ◌||◌, Option, none, some, List, [], ◌∷◌, ◌++◌, ◌==◌, ◌≡◌, refl,
  is_some, is_empty, if◌then◌else◌, arith, Bool-cases, inl, inr, ◌∙◌, ==_iff,
}
use aquamarine.Gbm.{
  Format, find_format, has, clip, explicit_modifiers, for_multigpu, mod_invalid, mod_linear,
}
use aquamarine.Gbm.Buffers.{Setting, asked_modifiers, clips, formats_of, is_multigpu}

-- A modifier passes: it is one, and the renderer's format has it where that matters.
abbrev pub passes : Bool → Option Format → ℕ → Bool
passes b none m = not (m == mod_invalid) && not b
passes b (some r) m = not (m == mod_invalid) && (not b || has m r.modifiers)

has-append : (m : ℕ) (xs ys : List ℕ) → has m (xs ++ ys) ≡ (has m xs || has m ys)
unfolding has
has-append m [] ys = refl
has-append m (x ∷ xs) ys = ground (arith, has-append m xs ys)

has-clip :
    (b : Bool) (r : Option Format) (m : ℕ) (ms : List ℕ)
    → has m (clip b r ms) ≡ (has m ms && passes b r m)
unfolding has clip
has-clip clips none m [] = ground arith
has-clip clips (some r) m [] = ground arith
has-clip true none m (x ∷ ms) = ground (arith, has-clip true none m ms)
has-clip false none m (x ∷ ms) = ground (arith, has-clip false none m ms)
has-clip false (some r) m (x ∷ ms) = ground (arith, has-clip false (some r) m ms)
has-clip true (some r) m (x ∷ ms) = ground (arith, has-clip true (some r) m ms)

-- Whether one of the entries of a format lists a modifier
pub lists : ℕ → ℕ → List Format → Bool
lists format m [] = false
lists format m (f ∷ fs) = (f.drm_format == format && has m f.modifiers) || lists format m fs

-- The modifiers that the formats give
has-explicit_modifiers :
    (b : Bool) (renderable : List Format) (format m : ℕ) (fs : List Format)
    → has m (explicit_modifiers b renderable format fs)
      ≡ (lists format m fs && passes b (find_format (λ g. g == format) renderable) m)
unfolding explicit_modifiers lists has
has-explicit_modifiers b renderable format m [] = refl
has-explicit_modifiers b renderable format m (f ∷ fs) = elim (Bool-cases (f.drm_format == format)) [
  | inl same ↦
      rw (same, (==_iff f.drm_format format).0 same)
        (has-append m (clip b (find_format (λ g. g == format) renderable) f.modifiers)
            (explicit_modifiers b renderable format fs)
          ∙ ground (
            arith,
            has-clip b (find_format (λ g. g == format) renderable) m f.modifiers,
            has-explicit_modifiers b renderable format m fs,
          ))
  | inr other ↦ rw other (has-explicit_modifiers b renderable format m fs)
]

-- Two GPUs share the buffer, and it is asked for in linear layout: where this is forced, or where
-- an entry of the formats has the code that is also the linear modifier's.
abbrev pub wants_linear : Setting → Bool
wants_linear s =
    is_multigpu s && (s.force_linear || is_some (find_format (λ g. g == mod_linear) (formats_of s)))

-- The modifiers that gbm is asked for first. For a buffer that is shared by two GPUs, where linear
-- layout is forced or the formats have an entry whose format is the number of the linear modifier,
-- this is the linear one alone. For any other buffer a modifier is asked for just when it is a
-- modifier, one of the entries of the buffer's format lists it and, if the buffer is scanned out,
-- is no cursor and is not shared, and the renderer names its formats, the renderer's first entry
-- of that format lists it too.
pub has-asked_modifiers :
    (s : Setting) (format m : ℕ)
    → has m (asked_modifiers s format) ≡ (
        if wants_linear s
        then m == mod_linear
        else lists format m (formats_of s)
          && passes
              (clips s && not (is_empty s.renderable))
              (find_format (λ g. g == format) s.renderable)
              m)
unfolding has for_multigpu
has-asked_modifiers s format m = ground (
  arith,
  has-explicit_modifiers (clips s && not (is_empty s.renderable)) s.renderable format m
      (formats_of s),
)
