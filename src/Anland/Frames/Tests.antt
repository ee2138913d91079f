-- ===== src/Anland/Frames/Tests.antt =====
-- Frames of src/backend/anland/AnlandOutput.cpp.
use aquamarine.Anland.Frames.{Display, Out, commit}
use aquamarine.Anland.Frames.Answers.{once, commit_answers}
use aquamarine.Anland.Frames.Fallback.{IsQuiet}
use aquamarine.Anland.Store.{Slot, Files}
use aquamarine.Common.{ℕ, ◌+◌, true, false, Option, none, some, [], ◌≡◌, refl}

abbrev display : Display
display = record {
  there = true;
  fallback = false;
  count = 2;
  selected = 1;
  refreshes = true;
  ctx_fd = λ i. some 3;
  info_of = λ i.
      some (record { width = 64; height = 64; format = 1; modifier = 0; offset = 0; stride = 256 });
}

abbrev bare : Slot
bare = record {
  buffer = none;
  imported = false;
  in_use = false;
  has_damage = false;
  damaged = false;
  shape = record { width = 0; height = 0; format = 0; modifier = 0; offset = 0; stride = 0 };
}

abbrev out : Out
out = record {
  slots = record { files = λ fd. some 100; slots = λ i. bare; cache = []; destroying = false };
  in_fallback = false;
  output_ready = true;
  buffers_imported = false;
  frame_pending = false;
  frame_scheduled = false;
  should_trigger = true;
  commit_in_progress = false;
  enabled = true;
  needs_frame = false;
  selected = 0;
  buffer_count = 0;
  width = 1920;
  height = 1080;
  state_buffer = none;
  state_damaged = false;
  idle = 0;
  frames = 0;
  presents = 0;
  commits = 0;
  states = 0;
}

abbrev gives : Files → Option ℕ
gives files = some 9

commit_answers_example :
    let (ok, o') = commit gives display out in
    (ok ≡ true)
    × (o'.commit_in_progress ≡ false)
    × (o'.commits ≡ 1)
    × (o'.presents + once o'.frame_pending ≡ 1)
commit_answers_example = commit_answers gives display out refl refl

-- A handler that takes the damage of the state
abbrev clears : Out → Out
clears o = record o { state_damaged = false }

clears-IsQuiet : IsQuiet clears
clears-IsQuiet = record {
  scheduled = λ o. refl;
  fallback = λ o. refl;
  ready = λ o. refl;
  destroying = λ o. refl;
  idle = λ o. refl;
}
