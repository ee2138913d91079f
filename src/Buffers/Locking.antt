-- ===== src/Buffers/Locking.antt =====
-- The lock counter of src/buffer/Buffer.cpp over the holders of a buffer.
use aquamarine.Common.{ℕ, zero, suc, ◌+◌, true, Option, none, some, ◌≡◌, refl, arith}
use aquamarine.Buffers.{Buffer, lock, unlock, locked}

-- 1 for a counter that is 0
abbrev pub once_free : ℕ → ℕ
once_free zero = 1
once_free (suc n) = 0

-- `n` holders take the buffer.
unfoldable pub lock_all : ℕ → Buffer → Buffer
unfolding lock
lock_all zero b = b
lock_all (suc n) b = lock_all n (lock b)

abbrev pub then_unlock : Option Buffer → Option Buffer
unfolding unlock
then_unlock none = none
then_unlock (some b) = unlock b

-- `n` holders give it back.
unfoldable pub unlock_all : ℕ → Buffer → Option Buffer
unlock_all zero b = some b
unlock_all (suc n) b = then_unlock (unlock_all n b)

lock_all_lem :
    (n : ℕ) (b : Buffer) → lock_all n b ≡ record { locks = b.locks + n; releases = b.releases }
unfolding lock_all lock
lock_all_lem zero b = ground arith
lock_all_lem (suc n) b = ground (arith, lock_all_lem n (lock b))

shift : (n m : ℕ) → suc n + suc m ≡ n + suc (suc m)
shift n m = omega arith

first : (n : ℕ) → 0 + suc n ≡ n + 1
first n = omega arith

flip : (n m : ℕ) → m + suc n ≡ suc n + m
flip n m = omega arith

unlock_all_below :
    (n m : ℕ) (r : ℕ)
    → unlock_all n (record { locks = n + suc m; releases = r })
      ≡ some (record { locks = suc m; releases = r })
unfolding unlock_all unlock
unlock_all_below zero m r = ground arith
unlock_all_below (suc n) m r = rw (shift n m, unlock_all_below n (suc m) r) refl

unlock_all_all :
    (n l r : ℕ)
    → unlock_all (suc n) (record { locks = l + suc n; releases = r })
      ≡ some (record { locks = l; releases = once_free l + r })
unfolding unlock_all unlock
unlock_all_all n zero r = rw (first n, unlock_all_below n 0 r) (ground arith)
unlock_all_all n (suc m) r = rw (flip n (suc m), unlock_all_below (suc n) m r) (ground arith)

-- A buffer that `n` holders lock on top of the locks it has, at least one in all, is locked then.
-- When they have all unlocked it, the counter is where it was, and the buffer was released once
-- if it was not locked before, and not at all otherwise. No assertion fails.
pub unlock_all-lock_all :
    (n : ℕ) (b : Buffer)
    → (locked (lock_all (suc n) b) ≡ true)
      × (unlock_all (suc n) (lock_all (suc n) b)
          ≡ some (record { locks = b.locks; releases = once_free b.locks + b.releases }))
unfolding locked
unlock_all-lock_all n b =
    rw (lock_all_lem (suc n) b) (ground arith, unlock_all_all n b.locks b.releases)
