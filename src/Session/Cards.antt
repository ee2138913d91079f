-- ===== src/Session/Cards.antt =====
-- Which names of devices src/backend/Session.cpp takes for those of cards.
use aquamarine.Common.{ℕ, ◌≤◌, true, List, [], ◌∷◌, ◌++◌, ◌≡◌, ◌↔◌, refl, arith, All}
use aquamarine.Session.{all_digits, is_drm_card}

-- The name without a number
abbrev pub card : List ℕ
card = b'c' ∷ b'a' ∷ b'r' ∷ b'd' ∷ []

abbrev pub IsDigit : ℕ → Type 0
IsDigit c = (b'0' ≤ c) × (c ≤ b'9')

all_digits-All : (cs : List ℕ) → all_digits cs ≡ true → All IsDigit cs
unfolding all_digits
all_digits-All [] h = tt
all_digits-All (c ∷ cs) h = ground (arith, all_digits-All cs)

All-all_digits : (cs : List ℕ) → All IsDigit cs → all_digits cs ≡ true
unfolding all_digits
All-all_digits [] h = refl
All-all_digits (c ∷ cs) h = ground (arith, All-all_digits cs h.1)

-- A name is a card's just when it is "card" and digits, which may be none.
pub is_drm_card_lem :
    (name : List ℕ)
    → (is_drm_card name ≡ true) ↔ ((number : List ℕ) × (name ≡ card ++ number) × All IsDigit number)
unfolding is_drm_card
is_drm_card_lem [] = (λ h. cc, λ p. ground (arith, p.1))
is_drm_card_lem (a ∷ []) = (λ h. cc, λ p. ground (arith, p.1))
is_drm_card_lem (a ∷ b ∷ []) = (λ h. cc, λ p. ground (arith, p.1))
is_drm_card_lem (a ∷ b ∷ c ∷ []) = (λ h. cc, λ p. ground (arith, p.1))
is_drm_card_lem (a ∷ b ∷ c ∷ d ∷ rest) = (
  λ h. (rest, ground arith, all_digits-All rest (ground arith)),
  λ p. ground (arith, p.1, All-all_digits p.0 p.2),
)
