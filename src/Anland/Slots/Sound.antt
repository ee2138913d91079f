-- ===== src/Anland/Slots/Sound.antt =====
-- The slots of src/backend/anland/AnlandOutput.cpp over any run of their operations.
use aquamarine.Common.{
  ℕ, Bool, true, false, not, ◌||◌, Option, none, some, List, [], ◌∷◌, ◌==◌, ltb, if◌then◌else◌,
  is_some, ◌≡◌, refl, arith, Bool-cases, inl, inr, ap, ◌∙◌,
}
use aquamarine.Anland.Slots.{
  dup, buffer_of, fill, import_fd, import_opened, import_buffer, cache_opened, remember, do_import,
  forget_cached, use_good, use_copy, dup_cached, hit_or_miss, cache_or_import_buffer,
}
use aquamarine.Anland.Store.{
  Info, Buffer, Slot, CacheEntry, Files, Sys, put, close, destroy_buffer, find_cached,
}

pub data Step : Type 0 where
  imports : Bool → (ℕ → Option ℕ) → (ℕ → Option Info) → ℕ → Step
  caches : Bool → (ℕ → Option ℕ) → (ℕ → Option Info) → ℕ → Step
  destroys : ℕ → Step

-- An imported slot has a buffer.
abbrev pub has_buffer : Slot → Bool
has_buffer v = not v.imported || is_some v.buffer

abbrev pub IsSound : Sys → Type 0
IsSound s = (j : ℕ) → has_buffer (s.slots j) ≡ true

put-IsSound : (i : ℕ) (v : Slot) (s : Sys) → has_buffer v ≡ true → IsSound s → IsSound (put i v s)
put-IsSound i v s new h j = elim (Bool-cases (j == i)) [
  | inl here ↦ rw here new
  | inr other ↦ rw other (h j)
]

destroy_buffer-IsSound : (i : ℕ) (s : Sys) → IsSound s → IsSound (destroy_buffer i s)
unfolding destroy_buffer
destroy_buffer-IsSound i s h = elim (Bool-cases (s.destroying || not (ltb i 8))) [
  | inl stop ↦ rw stop h
  | inr go ↦ rw go (put-IsSound i _ s refl h)
]

module _ (new_fd : Files → Option ℕ) where
  -- A slot that is not imported yet is filled, or left without a buffer.
  fill-IsSound :
      (i : ℕ) (info : Info) (b : Option Buffer) (files : Files) (s : Sys)
      → (s.slots i).imported ≡ false
      → IsSound s
      → IsSound (fill new_fd i info b files s).1
  fill-IsSound i info none files s open_slot h = put-IsSound i _ s (rw open_slot refl) h
  fill-IsSound i info (some b) files s open_slot h = put-IsSound i _ s refl h

  remember-IsSound :
      (info : Info) (fd : ℕ) (r : Bool × Sys) → IsSound r.1 → IsSound (remember new_fd info fd r).1
  remember-IsSound info fd (true, s) h = h
  remember-IsSound info fd (false, s) h = h

  do_import-IsSound :
      (i fd : ℕ) (info : Info) (s : Sys)
      → (s.slots i).imported ≡ false
      → IsSound s
      → IsSound (do_import new_fd i fd info s).1
  unfolding do_import
  do_import-IsSound i fd info s open_slot h =
      let (n, files) = dup new_fd fd s.files in
      let b = buffer_of new_fd n info in
      remember-IsSound info fd (fill new_fd i info b files s)
        (fill-IsSound i info b files s open_slot h)

  cleared-IsSound :
      (i : ℕ) (s : Sys)
      → (s.slots i).imported ≡ false
      → IsSound s
      → IsSound (put i (record (s.slots i) { buffer = none }) s)
  cleared-IsSound i s open_slot h = put-IsSound i _ s (rw open_slot refl) h

  same_slot : (i : ℕ) (v : Slot) (s : Sys) → (put i v s).slots i ≡ v
  same_slot i v s = ground arith

  use_good-IsSound :
      (i fd : ℕ) (info : Info) (e : CacheEntry) (c : Option ℕ × Files) (s : Sys)
      → (s.slots i).imported ≡ false
      → IsSound s
      → IsSound (use_good new_fd i fd info e c s).1
  use_good-IsSound i fd info e (none, files) s open_slot h =
      let s1 = forget_cached new_fd info e files s in
      let bare = record (s.slots i) { buffer = none } in
      do_import-IsSound i fd info (put i bare s1)
        (ap (λ v. v.imported) (same_slot i bare s1) ∙ open_slot) (cleared-IsSound i s1 open_slot h)
  use_good-IsSound i fd info e (some n, files) s open_slot h =
      fill-IsSound i info (buffer_of new_fd (some n) info) (close fd files) s open_slot h

  use_copy-IsSound :
      (i fd : ℕ) (info : Info) (e : CacheEntry) (c : Option ℕ × Files) (s : Sys)
      → (s.slots i).imported ≡ false
      → IsSound s
      → IsSound (use_copy new_fd i fd info e c s).1
  use_copy-IsSound i fd info e (none, files) s open_slot h =
      do_import-IsSound i fd info (forget_cached new_fd info e files s) open_slot h
  use_copy-IsSound i fd info e (some copy, files) s open_slot h =
      use_good-IsSound i fd info e (dup new_fd copy files) s open_slot h

  hit_or_miss-IsSound :
      (i fd : ℕ) (info : Info) (o : Option CacheEntry) (s : Sys)
      → (s.slots i).imported ≡ false
      → IsSound s
      → IsSound (hit_or_miss new_fd i fd info o s).1
  hit_or_miss-IsSound i fd info none s open_slot h = do_import-IsSound i fd info s open_slot h
  hit_or_miss-IsSound i fd info (some e) s open_slot h =
      use_copy-IsSound i fd info e (dup_cached new_fd e.fd s.files) s open_slot h

  cache_opened-IsSound :
      (i : ℕ) (fd : Option ℕ) (info : Option Info) (s : Sys)
      → (s.slots i).imported ≡ false
      → IsSound s
      → IsSound (cache_opened new_fd i fd info s).1
  cache_opened-IsSound i none info s open_slot h = h
  cache_opened-IsSound i (some fd) none s open_slot h = h
  cache_opened-IsSound i (some fd) (some info) s open_slot h =
      hit_or_miss-IsSound i fd info (find_cached info s.cache) s open_slot h

  import_opened-IsSound :
      (i : ℕ) (fd : Option ℕ) (info : Option Info) (s : Sys)
      → (s.slots i).imported ≡ false
      → IsSound s
      → IsSound (import_opened new_fd i fd info s).1
  unfolding import_fd
  import_opened-IsSound i none info s open_slot h = h
  import_opened-IsSound i (some fd) none s open_slot h = h
  import_opened-IsSound i (some fd) (some info) s open_slot h =
      let (n, files) = dup new_fd fd s.files in
      fill-IsSound i info (buffer_of new_fd n info) (close fd files) s open_slot h

  -- The guards that both ways of importing have
  guarded-IsSound :
      (stop ready : Bool) (i : ℕ) (s : Sys) (r : Bool × Sys)
      → ((s.slots i).imported ≡ false → IsSound r.1)
      → IsSound s
      → IsSound
          (if stop
            then (false, s)
            else if (s.slots i).imported
            then (true, s)
            else if ready
            then r
            else (false, s)).1
  guarded-IsSound true ready i s r does h = h
  guarded-IsSound false false i s r does h = elim (Bool-cases (s.slots i).imported) [
    | inl done ↦ simp done h
    | inr open_slot ↦ simp open_slot h
  ]
  guarded-IsSound false true i s r does h = elim (Bool-cases (s.slots i).imported) [
    | inl done ↦ simp done h
    | inr open_slot ↦ simp open_slot (does open_slot)
  ]

  unfoldable pub step : Step → Sys → Sys
  step (imports ready ctx_fd info_of i) s = (import_buffer new_fd ready ctx_fd info_of i s).1
  step (caches ready ctx_fd info_of i) s =
      (cache_or_import_buffer new_fd ready ctx_fd info_of i s).1
  step (destroys i) s = destroy_buffer i s

  unfoldable pub run_steps : List Step → Sys → Sys
  run_steps [] s = s
  run_steps (x ∷ xs) s = run_steps xs (step x s)

  step-IsSound : (x : Step) (s : Sys) → IsSound s → IsSound (step x s)
  unfolding step import_buffer cache_or_import_buffer
  step-IsSound (imports ready ctx_fd info_of i) s h =
      guarded-IsSound _ ready i s (import_opened new_fd i (ctx_fd i) (info_of i) s)
        (λ o. import_opened-IsSound i (ctx_fd i) (info_of i) s o h) h
  step-IsSound (caches ready ctx_fd info_of i) s h =
      guarded-IsSound _ ready i s (cache_opened new_fd i (ctx_fd i) (info_of i) s)
        (λ o. cache_opened-IsSound i (ctx_fd i) (info_of i) s o h) h
  step-IsSound (destroys i) s h = destroy_buffer-IsSound i s h

  -- Whatever is imported, taken from the cache and destroyed, in any order, and whatever the
  -- display says and the kernel refuses on the way: a slot that is marked as imported has a buffer.
  -- This holds before, and so after.
  pub run_steps-IsSound : (xs : List Step) (s : Sys) → IsSound s → IsSound (run_steps xs s)
  unfolding run_steps
  run_steps-IsSound [] s h = h
  run_steps-IsSound (x ∷ xs) s h = run_steps-IsSound xs (step x s) (step-IsSound x s h)
