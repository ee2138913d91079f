-- ===== src/Gbm/Guess.antt =====
-- The format that src/allocator/GBM.cpp picks for a buffer that names none.
use aquamarine.Common.{
  ℕ, Bool, true, false, ◌||◌, Option, none, some, List, [], ◌∷◌, ◌==◌, is_some, is_empty, ◌≡◌, refl,
  arith, Bool-cases, inl, inr, ==_refl,
}
use aquamarine.Gbm.{
  Format, find_format, ◌or_else◌, when, first_of, guess_format, is_opaque10, is_opaque8,
}

-- Whether a format is among those of a list
abbrev pub found : ℕ → List Format → Bool
found format fs = is_some (find_format (λ g. g == format) fs)

-- What is there is among the formats, and passes a test.
Fits : (ℕ → Bool) → List Format → Option Format → Type 0
Fits p fs none = Unit
Fits p fs (some f) = (found f.drm_format fs ≡ true) × (p f.drm_format ≡ true)

found-cons :
    (g f : Format) (fs : List Format)
    → found g.drm_format fs ≡ true
    → found g.drm_format (f ∷ fs) ≡ true
unfolding find_format
found-cons g f fs h = ground arith

Fits-cons :
    (p : ℕ → Bool) (f : Format) (fs : List Format) (o : Option Format)
    → Fits p fs o
    → Fits p (f ∷ fs) o
unfolding Fits
Fits-cons p f fs none h = tt
Fits-cons p f fs (some g) h = (found-cons g f fs h.0, h.1)

find_format-Fits : (p : ℕ → Bool) (fs : List Format) → Fits p fs (find_format p fs)
unfolding find_format Fits
find_format-Fits p [] = tt
find_format-Fits p (f ∷ fs) = elim (Bool-cases (p f.drm_format)) [
  | inl here ↦ rw here (rw (==_refl f.drm_format) refl, here)
  | inr later ↦ rw later (Fits-cons p f fs (find_format p fs) (find_format-Fits p fs))
]

abbrev IsListed : List Format → Option Format → Type 0
IsListed fs o = Fits (λ g. true) fs o

-- Any test fits where the format is only looked for in the list.
weaken : (p : ℕ → Bool) (fs : List Format) (o : Option Format) → Fits p fs o → IsListed fs o
unfolding Fits
weaken p fs none h = tt
weaken p fs (some f) h = (h.0, refl)

or_else-Fits :
    (p : ℕ → Bool) (fs : List Format) (a b : Option Format)
    → Fits p fs a
    → Fits p fs b
    → Fits p fs (a or_else b)
unfolding Fits
or_else-Fits p fs none b h k = k
or_else-Fits p fs (some f) b h k = h

when-Fits :
    (p : ℕ → Bool) (fs : List Format) (b : Bool) (o : Option Format)
    → Fits p fs o
    → Fits p fs (when b o)
unfolding Fits
when-Fits p fs true o h = h
when-Fits p fs false o h = tt

first_of-IsListed :
    (o : Option Format) (f : Format) (fs : List Format)
    → IsListed (f ∷ fs) o
    → found (first_of o (f ∷ fs)).drm_format (f ∷ fs) ≡ true
unfolding find_format Fits
first_of-IsListed none f fs h = rw (==_refl f.drm_format) refl
first_of-IsListed (some g) f fs h = h.0

-- The format that is guessed is one of those that there are, if there are any.
pub guess_format-found :
    (in_30 in_24 : ℕ → Bool) (fs : List Format) (cursor scanout : Bool)
    → is_empty fs ≡ false
    → found (guess_format in_30 in_24 fs cursor scanout).drm_format fs ≡ true
unfolding guess_format
guess_format-found in_30 in_24 [] cursor scanout h = cc
guess_format-found in_30 in_24 (f ∷ fs) cursor scanout h =
    let tried =
      λ (p : ℕ → Bool). weaken p (f ∷ fs) (find_format p (f ∷ fs)) (find_format-Fits p (f ∷ fs)) in
    search (first_of-IsListed, or_else-Fits, when-Fits, tried) depth 12

-- A buffer to be scanned out gets an opaque format if there is one, whatever stands before it.
pub guess_format_opaque :
    (in_30 in_24 : ℕ → Bool) (fs : List Format)
    → (is_some (find_format is_opaque10 fs) || is_some (find_format is_opaque8 fs)) ≡ true
    → (is_opaque10 (guess_format in_30 in_24 fs false true).drm_format
        || is_opaque8 (guess_format in_30 in_24 fs false true).drm_format)
      ≡ true
unfolding guess_format Fits
guess_format_opaque in_30 in_24 fs h =
    ground (arith, find_format-Fits is_opaque10 fs, find_format-Fits is_opaque8 fs)
