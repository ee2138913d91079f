-- ===== src/Anland/Slots/Tests.antt =====
-- Imports of src/backend/anland/AnlandOutput.cpp with two buffers of one size.
use aquamarine.Common.{ℕ, true, false, Option, none, some, List, [], ◌∷◌, refl, ◌==◌, if◌then◌else◌}
use aquamarine.Anland.Store.{Info, Slot, CacheEntry, Files, Sys}
use aquamarine.Anland.Slots.Sound.{
  Step, imports, caches, destroys, run_steps, IsSound, run_steps-IsSound,
}

abbrev info : Info
info = record { width = 64; height = 64; format = 1; modifier = 0; offset = 0; stride = 256 }

abbrev infos : ℕ → Option Info
infos i = some info

abbrev ctx : ℕ → Option ℕ
ctx i = if i == 0 then some 3 else some 4

abbrev bare : Slot
bare = record {
  buffer = none;
  imported = false;
  in_use = false;
  has_damage = false;
  damaged = false;
  shape = info;
}

-- The descriptors 3 and 4 of the dmabufs 100 and 101, and a cached one, 5, of 100
abbrev two_files : Files
two_files fd =
    if fd == 3 then some 100 else if fd == 4 then some 101 else if fd == 5 then some 100 else none

abbrev entry : CacheEntry
entry = record {
  valid = true;
  fd = some 5;
  format = 875708993;
  modifier = 0;
  width = 64;
  height = 64;
}

abbrev sys : Sys
sys = record { files = two_files; slots = λ i. bare; cache = entry ∷ []; destroying = false }

-- Two descriptors to give
abbrev gives : Files → Option ℕ
gives files = elim (files 6) [ none ↦ some 6 | some d ↦ some 7 ]

abbrev three_steps : List Step
three_steps = imports true ctx infos 0 ∷ destroys 0 ∷ caches true ctx infos 1 ∷ []

run_steps-IsSound_example : IsSound (run_steps gives three_steps sys)
run_steps-IsSound_example = run_steps-IsSound gives three_steps sys (λ j. refl)
