-- ===== src/Buffers/Cells.antt =====
-- The attachments of src/misc/Attachment.cpp against a cell for each type.
use aquamarine.Common.{
  ℕ, Bool, true, Option, none, some, List, [], ◌∷◌, ◌==◌, if◌then◌else◌, is_some, ◌≡◌, refl, arith,
  Bool-cases, inl, inr,
}
use aquamarine.Buffers.{
  Attachment, Attachments, find, erase_key, has, get, add, remove, remove_by_type, clear, holds,
}

pub data Call : Type 0 where
  adds : Attachment → Call
  removes : Attachment → Call
  removes_type : ℕ → Call
  clears : Call

unfoldable pub run : List Call → Attachments → Attachments
unfolding add remove remove_by_type clear
run [] xs = xs
run (adds a ∷ rest) xs = run rest (add a xs)
run (removes a ∷ rest) xs = run rest (remove a xs)
run (removes_type k ∷ rest) xs = run rest (remove_by_type k xs)
run (clears ∷ rest) xs = run rest (clear xs)

-- What a call does to the cell of the type `k`, which knows of no other type.
abbrev pub cell_step : ℕ → Call → Option Attachment → Option Attachment
cell_step k (adds a) c = if k == a.kind then some a else c
cell_step k (removes a) c = if k == a.kind then (if holds c a then none else c) else c
cell_step k (removes_type j) c = if k == j then none else c
cell_step k clears c = none

unfoldable pub cell : ℕ → List Call → Option Attachment → Option Attachment
cell k [] c = c
cell k (x ∷ rest) c = cell k rest (cell_step k x c)

find-erase_key :
    (k j : ℕ) (xs : Attachments) → find k (erase_key j xs) ≡ (if k == j then none else find k xs)
unfolding find erase_key
find-erase_key k j [] = ground arith
find-erase_key k j ((i, a) ∷ xs) = ground (arith, find-erase_key k j xs)

find-add :
    (k : ℕ) (a : Attachment) (xs : Attachments)
    → find k (add a xs) ≡ (if k == a.kind then some a else find k xs)
unfolding find add
find-add k a xs = ground (arith, find-erase_key k a.kind xs)

find-remove :
    (k : ℕ) (a : Attachment) (xs : Attachments)
    → find k (remove a xs)
      ≡ (if k == a.kind then (if holds (find k xs) a then none else find k xs) else find k xs)
unfolding remove
find-remove k a xs = elim (Bool-cases (holds (find a.kind xs) a)) [
  | inl here ↦ rw here (ground (arith, find-erase_key k a.kind xs))
  | inr other ↦ rw other (ground arith)
]

-- After any calls the manager answers, for each type, what a cell for that type alone would hold:
-- `get` gives the cell, and `has` whether it is full. So an attachment stays until one of its
-- type is added, it is removed itself, its type is removed, or all are cleared, and removing
-- another object of its type does nothing.
pub run-get :
    (calls : List Call) (xs : Attachments) (k : ℕ)
    → (get k (run calls xs) ≡ cell k calls (find k xs))
      × (has k (run calls xs) ≡ is_some (cell k calls (find k xs)))
unfolding run get has cell
run-get [] xs k = (refl, refl)
run-get (adds a ∷ rest) xs k = rw (← find-add k a xs) (run-get rest (add a xs) k)
run-get (removes a ∷ rest) xs k = rw (← find-remove k a xs) (run-get rest (remove a xs) k)
run-get (removes_type j ∷ rest) xs k =
    rw (← find-erase_key k j xs) (run-get rest (remove_by_type j xs) k)
run-get (clears ∷ rest) xs k = run-get rest (clear xs) k

-- Whether what a cell holds, if anything, is of its type.
abbrev pub has_kind : ℕ → Option Attachment → Bool
has_kind k none = true
has_kind k (some a) = a.kind == k

cell-has_kind :
    (k : ℕ) (calls : List Call) (c : Option Attachment)
    → has_kind k c ≡ true
    → has_kind k (cell k calls c) ≡ true
unfolding cell
cell-has_kind k [] c h = h
cell-has_kind k (x ∷ rest) c h = cell-has_kind k rest (cell_step k x c) (step x c h)
  where
    step :
        (x : Call) (c : Option Attachment)
        → has_kind k c ≡ true
        → has_kind k (cell_step k x c) ≡ true
    step (adds a) none h = ground arith
    step (adds a) (some b) h = ground arith
    step (removes a) none h = ground arith
    step (removes a) (some b) h = ground arith
    step (removes_type j) none h = ground arith
    step (removes_type j) (some b) h = ground arith
    step clears c h = refl

-- Whatever was called on a manager that was empty, an attachment that is asked for by a type has
-- that dynamic type: `get` may cast the pointer without a check.
pub get_typed : (calls : List Call) (k : ℕ) → has_kind k (get k (run calls [])) ≡ true
unfolding find
get_typed calls k = rw ((run-get calls [] k).0) (cell-has_kind k calls none refl)
