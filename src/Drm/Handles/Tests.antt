-- ===== src/Drm/Handles/Tests.antt =====
-- Framebuffers with a kernel that gives handles by file descriptor (src/backend/drm/DRM.cpp): the
-- properties at concrete inputs.
use aquamarine.Common.{
  ◌+◌, ◌≡◌, ◌≢◌, refl, true, false, none, some, [], ◌∷◌, if◌then◌else◌, arith, ltb, ◌&&◌, not,
}
use aquamarine.Drm.Frames.{mem}
use aquamarine.Drm.Handles.{Attrs, Fb, Kernel, Store, fine, get_handles, import, new_fb}
use aquamarine.Drm.Handles.Import.{import_keeps_no_handle}

-- Descriptors 3 and 4 are of one object, with the handle 7; the kernel takes linear buffers only.
abbrev kernel : Kernel
kernel = record {
  handle_of = λ fd. if ltb fd 5 then some 7 else some (fd + 10);
  add_with_modifiers = λ hs. none;
  add = λ hs. some 50;
  close_result = λ i. fine;
  supports_modifiers = false;
}

abbrev store : Store
store = record { opened = λ h. false; closed = []; fb_calls = [] }

abbrev plain : Attrs
plain = record { success = true; modifier = 0; fds = 3 ∷ 4 ∷ 9 ∷ [] }

abbrev tiled : Attrs
tiled = record plain { modifier = 1 }

abbrev gone : Attrs
gone = record plain { success = false }

abbrev imported : Fb
imported = record (new_fb false) { id = 50; listening = true; handles_closed = true }

import_runs : (import kernel plain (new_fb false) store).0 ≡ imported
unfolding import
import_runs = refl

closed_run : (import kernel plain (new_fb false) store).1.closed ≡ 7 ∷ 19 ∷ []
unfolding import
closed_run = refl

got_all : (get_handles kernel plain.fds store).0 ≡ true
unfolding get_handles
got_all = refl

worked : (import kernel plain (new_fb false) store).0.id ≢ 0
unfolding import
worked = λ e. absurd (ground arith)

import_keeps_no_handle_example :
    (import kernel plain (new_fb false) store).1.opened 7
    ≡ (store.opened 7 && not (mem 7 (get_handles kernel plain.fds store).1))
import_keeps_no_handle_example =
    import_keeps_no_handle kernel plain store 7 (omega arith) (λ e. absurd (omega arith)) worked
