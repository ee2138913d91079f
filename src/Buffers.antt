-- ===== src/Buffers.antt =====
-- What every buffer carries: the lock counter of src/buffer/Buffer.cpp, and the attachments of
-- src/misc/Attachment.cpp with include/aquamarine/misc/Attachment.hpp.
pub mod Locking
pub mod Cells
mod Tests
use aquamarine.Common.{
  ℕ, zero, suc, ◌+◌, Bool, true, false, not, ◌&&◌, Option, none, some, List, [], ◌∷◌, ◌==◌,
  if◌then◌else◌, is_some,
}

-- The counter, and how often `sendRelease` was called.
pub record Buffer : Type 0 where
  pub locks : ℕ
  pub releases : ℕ

unfoldable pub lock : Buffer → Buffer
lock b = record b { locks = suc b.locks }

unfoldable pub locked : Buffer → Bool
locked b = not (b.locks == 0)

-- `none` is the failed assertion, which ends the program.
unfoldable pub unlock : Buffer → Option Buffer
unlock b = elim b.locks [
  | zero ↦ none
  | suc zero ↦ some (record { locks = 0; releases = suc b.releases })
  | suc (suc n) ↦ some (record b { locks = suc n })
]

-- `IAttachment`: the index of its dynamic type, and which object it is
pub record Attachment : Type 0 where
  pub kind : ℕ
  pub object : ℕ

-- `attachments`: the entries of the map, by their key
abbrev pub Attachments : Type 0
Attachments = List (ℕ × Attachment)

unfoldable pub find : ℕ → Attachments → Option Attachment
find k [] = none
find k ((j, a) ∷ rest) = if k == j then some a else find k rest

unfoldable pub erase_key : ℕ → Attachments → Attachments
erase_key k [] = []
erase_key k ((j, a) ∷ rest) = let kept = erase_key k rest in if k == j then kept else (j, a) ∷ kept

-- `has`, `get` and `removeByType` of the type with this index
unfoldable pub has : ℕ → Attachments → Bool
unfolding find
has k xs = is_some (find k xs)

unfoldable pub get : ℕ → Attachments → Option Attachment
unfolding find
get k xs = find k xs

unfoldable pub remove_by_type : ℕ → Attachments → Attachments
unfolding erase_key
remove_by_type k xs = erase_key k xs

unfoldable pub add : Attachment → Attachments → Attachments
unfolding erase_key
add a xs = (a.kind, a) ∷ erase_key a.kind xs

-- Whether the entry that was found is this object.
abbrev pub holds : Option Attachment → Attachment → Bool
holds none a = false
holds (some b) a = b.object == a.object

unfoldable pub remove : Attachment → Attachments → Attachments
unfolding find erase_key
remove a xs = if holds (find a.kind xs) a then erase_key a.kind xs else xs

unfoldable pub clear : Attachments → Attachments
clear xs = []
