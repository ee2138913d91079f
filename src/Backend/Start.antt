-- ===== src/Backend/Start.antt =====
-- When a backend is ready (CBackend::start of src/backend/Backend.cpp).
use aquamarine.Common.{
  ℕ, zero, suc, ◌≡◌, refl, Bool, true, not, ◌||◌, Option, none, some, List, [], ◌∷◌, arith, All,
  inl, inr, Bool-cases,
}
use aquamarine.Backend.{
  ImplOptions, Impl, Backend, works, is_mandatory, mode_for, start_all, erase_failed, concluded,
  finish, start,
}

erase_failed-All : (xs : List Impl) → All (λ i. works i ≡ true) (erase_failed xs)
unfolding erase_failed
erase_failed-All [] = tt
erase_failed-All (i ∷ xs) = elim (Bool-cases (works i)) [
  | inl fine ↦ rw fine (fine, erase_failed-All xs)
  | inr failed ↦ rw failed (erase_failed-All xs)
]

-- An implementation that was asked for as mandatory has started.
abbrev pub is_granted : List ImplOptions → Impl → Bool
is_granted opts i = i.starts || not (is_mandatory (mode_for i.kind opts))

start_all-granted :
    (opts : List ImplOptions) (xs : List Impl) (n : ℕ) {m : ℕ}
    → start_all opts xs n ≡ some m
    → All (λ i. is_granted opts i ≡ true) xs
unfolding start_all
start_all-granted opts [] n e = tt
start_all-granted opts (i ∷ xs) n {m} e = elim (Bool-cases i.starts) [
  | inl ok ↦ (ground arith, start_all-granted opts xs (suc n) {m = m} (ground arith))
  | inr failed ↦ (ground arith, start_all-granted opts xs n {m = m} (ground arith))
]

concluded_lem :
    (allocates : Impl → Bool) (b : Backend) (r : Option ℕ)
    → (concluded allocates b r).0 ≡ true
    → (n : ℕ) × (r ≡ some (suc n)) × ((concluded allocates b r).1 ≡ finish allocates b)
concluded_lem allocates b none e = absurd (ground arith)
concluded_lem allocates b (some zero) e = absurd (ground arith)
concluded_lem allocates b (some (suc n)) e = (n, refl, refl)

-- When `start` returns true, the backend is ready, every implementation left has something to poll
-- or is the null one, and each implementation that `create` made has started, if the first option
-- that names its kind asks for it as mandatory. A kind of which there is no implementation is not
-- looked at.
pub start_lem :
    (allocates : Impl → Bool) (b : Backend)
    → (start allocates b).0 ≡ true
    → ((start allocates b).1.ready ≡ true)
      × All (λ i. works i ≡ true) (start allocates b).1.impls
      × All (λ i. is_granted b.options i ≡ true) b.impls
unfolding start
start_lem allocates b e =
    let (n, ran, same) = concluded_lem allocates b (start_all b.options b.impls 0) e in
    rw same (refl, erase_failed-All b.impls, start_all-granted b.options b.impls 0 {m = suc n} ran)
