-- ===== src/Buffers/Tests.antt =====
-- Runs of the locks and attachments of src/buffer/Buffer.cpp and src/misc/Attachment.cpp.
use aquamarine.Common.{true, some, List, [], ◌∷◌, ◌≡◌, refl, is_some}
use aquamarine.Buffers.{Buffer, Attachment, find, get, has}
use aquamarine.Buffers.Cells.{Call, adds, removes, run, cell, run-get, has_kind, get_typed}

abbrev fresh_buffer : Buffer
fresh_buffer = record { locks = 0; releases = 0 }

abbrev texture : Attachment
texture = record { kind = 1; object = 10 }

abbrev other_texture : Attachment
other_texture = record { kind = 1; object = 11 }

abbrev two_calls : List Call
two_calls = adds texture ∷ removes other_texture ∷ []

run-get_example :
    (get 1 (run two_calls []) ≡ cell 1 two_calls (find 1 []))
    × (has 1 (run two_calls []) ≡ is_some (cell 1 two_calls (find 1 [])))
run-get_example = run-get two_calls [] 1

-- The texture is there still.
kept : get 1 (run two_calls []) ≡ some texture
unfolding get run
kept = refl

get_typed_example : has_kind 1 (get 1 (run two_calls [])) ≡ true
get_typed_example = get_typed two_calls 1
