-- ===== src/Gbm/Requests.antt =====
-- What a buffer of src/allocator/GBM.cpp asks gbm for.
use aquamarine.Common.{
  All-snoc, ℕ, suc, ◌≤◌, Bool, true, false, not, ◌&&◌, Option, none, some, List, [], ◌∷◌, ◌++◌,
  is_some, ◌≡◌, refl, arith, Bool-cases, inl, inr, length, All, length-append,
}
use aquamarine.Gbm.{
  Flags, Request, plain, modifiers2, modifiers1, Made, make, make_old, ask, ask_again, or_plain,
  old_request, last_resort, only_linear,
}
use aquamarine.Gbm.Buffers.{Setting, allocate, is_multigpu}

-- Whether a request is for a buffer that can be scanned out
abbrev pub scans : Request → Bool
scans (plain flags) = flags.scanout
scans (modifiers2 ms flags) = flags.scanout
scans (modifiers1 ms) = false

abbrev ScansOnly : Bool → List Request → Type 0
ScansOnly b rs = All (λ r. scans r ≡ true → b ≡ true) rs

abbrev Asks : ℕ → Bool → List Request → Type 0
Asks n b rs = (length rs ≤ n) × ScansOnly b rs

Asks-snoc :
    (n : ℕ) (b : Bool) (rs : List Request) (r : Request)
    → Asks n b rs
    → (scans r ≡ true → b ≡ true)
    → Asks (suc n) b (rs ++ (r ∷ []))
Asks-snoc n b rs r h k = (
  omega (arith, length-append rs (r ∷ []), h.0),
  All-snoc (λ r'. scans r' ≡ true → b ≡ true) rs r h.1 k,
)

module _ (gbm : List Request → Request → Option ℕ) (modifier_of : ℕ → ℕ) where
  or_plain-Asks :
      (l : Bool) (flags : Flags) (r : Option ℕ × List Request)
      → Asks 2 flags.scanout r.1
      → Asks 3 flags.scanout (or_plain gbm modifier_of l flags r).asked
  or_plain-Asks l flags (some b, rs) h = (omega (arith, h.0), h.1)
  or_plain-Asks true flags (none, rs) h = Asks-snoc 2 flags.scanout rs _ h (λ p. p)
  or_plain-Asks false flags (none, rs) h = Asks-snoc 2 flags.scanout rs _ h (λ p. p)

  ask_again-Asks :
      (cursor b : Bool) (ms : List ℕ) (r : Option ℕ × List Request)
      → Asks 1 b r.1
      → Asks 2 b (ask_again gbm modifier_of cursor ms r).1
  ask_again-Asks cursor b ms (some x, rs) h = (omega (arith, h.0), h.1)
  ask_again-Asks true b ms (none, rs) h = Asks-snoc 1 b rs (modifiers1 ms) h (λ p. cc)
  ask_again-Asks false b ms (none, rs) h = (omega (arith, h.0), h.1)

  make-Asks :
      (cursor : Bool) (ms : List ℕ) (flags : Flags)
      → Asks 3 flags.scanout (make gbm modifier_of cursor ms flags).asked
  unfolding make
  make-Asks cursor [] flags = (omega arith, ((λ p. p), tt))
  make-Asks cursor (m ∷ ms) flags =
      let first = ask gbm modifier_of (modifiers2 (m ∷ ms) flags) [] in
      or_plain-Asks (only_linear (m ∷ ms)) flags (ask_again gbm modifier_of cursor (m ∷ ms) first)
        (ask_again-Asks cursor flags.scanout (m ∷ ms) first (omega arith, ((λ p. p), tt)))

  last_resort_asked :
      (made : Made) (r : Option ℕ × List Request) → (last_resort gbm modifier_of made r).asked ≡ r.1
  last_resort_asked made (some b, rs) = refl
  last_resort_asked made (none, rs) = refl

  scans-old_request : (ms : List ℕ) → scans (old_request gbm modifier_of ms) ≡ false
  scans-old_request [] = refl
  scans-old_request (m ∷ ms) = refl

  make_old-Asks :
      (forced b : Bool) (old : List ℕ) (made : Made)
      → Asks 3 b made.asked
      → Asks 4 b (make_old gbm modifier_of forced old made).asked
  unfolding make_old
  make_old-Asks forced b old made h = elim (Bool-cases (forced && not (is_some made.bo))) [
    | inl again ↦
        rw (again, last_resort_asked)
          (Asks-snoc 3 b made.asked (old_request gbm modifier_of old) h
            (λ p. absurd (cc (p, scans-old_request old))))
    | inr done ↦ rw done (omega (arith, h.0), h.1)
  ]

module _ (in_30 in_24 : ℕ → Bool) (gbm : List Request → Request → Option ℕ) (modifier_of : ℕ → ℕ)
    (planes : ℕ → ℕ) (fd_of : ℕ → ℕ → Option ℕ) where
  -- A buffer asks gbm four times at most, whatever it answers; and it asks for a buffer that can be
  -- scanned out only if that is wanted of it and it is not for several GPUs.
  pub allocate_asks :
      (s : Setting) (format : ℕ)
      → (length (allocate in_30 in_24 gbm modifier_of planes fd_of s format).asked ≤ 4)
        × All
            (λ r. scans r ≡ true → (s.params.scanout && not (is_multigpu s)) ≡ true)
            (allocate in_30 in_24 gbm modifier_of planes fd_of s format).asked
  allocate_asks s format = make_old-Asks gbm modifier_of _ _ _ _ (make-Asks gbm modifier_of _ _ _)
