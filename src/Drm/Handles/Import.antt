-- ===== src/Drm/Handles/Import.antt =====
-- What importing a buffer leaves of the handles that it takes (CDRMFB of src/backend/drm/DRM.cpp).
use aquamarine.Common.{
  ℕ, zero, suc, ◌≡◌, ◌≢◌, refl, Bool, true, false, not, ◌&&◌, ◌||◌, List, [], ◌∷◌, ◌++◌, arith,
  Option-cases, inl, inr, length, ◌≤◌, subst, sym, ap, ◌∙◌,
}
use aquamarine.Drm.Frames.{mem}
use aquamarine.Drm.Handles.{
  Attrs, Fb, Kernel, Store, fine, close_fb, close_handles, drop, get_handles, submit_buffer,
  submitted, with_handles, overwrite, import, reimport, new_fb, no_handles, set_open,
}
use aquamarine.Drm.Handles.Closed.{close_handles_lem, dropped_already, drop-id, drop_calls}

module _ (k : Kernel) where
  get_handles_lem :
      (x : ℕ) (fds : List ℕ) (s : Store)
      → ((get_handles k fds s).2.opened x ≡ (s.opened x || mem x (get_handles k fds s).1))
        × ((get_handles k fds s).2.closed ≡ s.closed)
  unfolding get_handles
  get_handles_lem x [] s = ground arith
  get_handles_lem x (fd ∷ fds) s = elim (Option-cases (k.handle_of fd)) [
    | inl refused ↦ rw (refused, get_handles) (ground arith)
    | inr (h, got) ↦
        rw (got, get_handles)
          (ground (arith, get_handles_lem x fds (record s { opened = set_open h true s.opened })))
  ]

  -- The numbers of the array are the new ones, where there is room for them, and old ones.
  mem-overwrite :
      (x : ℕ) (hs old : List ℕ)
      → length hs ≤ length old
      → mem x old ≡ false
      → mem x (overwrite k hs old) ≡ mem x hs
  mem-overwrite x [] old fits gone = gone
  mem-overwrite x (y ∷ hs) [] fits gone = absurd (omega arith)
  mem-overwrite x (y ∷ hs) (o ∷ old) fits gone = ground (arith, mem-overwrite x hs old)

  length-get_handles : (fds : List ℕ) (s : Store) → length (get_handles k fds s).1 ≤ length fds
  unfolding get_handles
  length-get_handles [] s = omega arith
  length-get_handles (fd ∷ fds) s = elim (Option-cases (k.handle_of fd)) [
    | inl refused ↦ ground arith
    | inr (h, got) ↦
        ground (arith, length-get_handles fds (record s { opened = set_open h true s.opened }))
  ]

  -- From here on the planes' handles are got, and it is `submitBuffer` that decides.
  submitted_lem :
      (i : ℕ) (fb : Fb) (s : Store)
      → (submitted k i fb s).0.id ≢ 0
      → submitted k i fb s ≡ (
        record (close_handles (record fb { id = i }) s).0 { listening = true },
        (close_handles (record fb { id = i }) s).1,
      )
  unfolding drop
  submitted_lem zero fb s worked = absurd (ground arith)
  submitted_lem (suc i) fb s worked = refl

  -- `submitBuffer` fails after the planes' handles were got.
  submit_fails :
      (fb : Fb) (s : Store)
      → fb.dropped ≡ false
      → submitted k 0 fb s ≡ (record fb { id = 0; unimportable = true; dropped = true }, s)
  unfolding drop
  submit_fails fb s fresh = rw fresh refl

  import_eq :
      (a : Attrs) (s : Store)
      → a.success ≡ true
      → import k a (new_fb false) s ≡ with_handles k a (new_fb false) (get_handles k a.fds s)
  unfolding import
  import_eq a s ok = rw ok refl

  with_handles_refused :
      (a : Attrs) (done : Bool) (hs : List ℕ) (s : Store)
      → done ≡ true
      → submit_buffer k a (overwrite k hs no_handles) ≡ 0
      → with_handles k a (new_fb false) (done, hs, s) ≡ (
        record (new_fb false) {
          handles = overwrite k hs no_handles;
          unimportable = true;
          dropped = true;
        },
        s,
      )
  with_handles_refused a false hs s all refused = absurd (ground arith)
  with_handles_refused a true hs s all refused =
      rw refused
        (submit_fails (record (new_fb false) { handles = overwrite k hs no_handles }) s refl)

  -- A buffer that the kernel rejects after its planes' handles were got is marked as unimportable,
  -- its handles are all left open, and dropping the framebuffer does not close them either.
  pub import_leaks :
      (a : Attrs) (s : Store) (x : ℕ)
      → a.success ≡ true
      → (get_handles k a.fds s).0 ≡ true
      → submit_buffer k a (overwrite k (get_handles k a.fds s).1 no_handles) ≡ 0
      → mem x (get_handles k a.fds s).1 ≡ true
      → let (fb, s') = import k a (new_fb false) s in
        (fb.unimportable ≡ true) × (s'.opened x ≡ true) × (drop k fb s' ≡ (fb, s'))
  unfolding import
  import_leaks a s x ok all refused had =
      let hs = (get_handles k a.fds s).1 in
      let marked = record (new_fb false) {
        handles = overwrite k hs no_handles;
        unimportable = true;
        dropped = true;
      } in
      let same =
        import_eq a s ok ∙ with_handles_refused a _ hs (get_handles k a.fds s).2 all refused in
      subst
        (λ (r : Fb × Store).
          (r.0.unimportable ≡ true) × (r.1.opened x ≡ true) × (drop k r.0 r.1 ≡ r))
        (sym same)
        (
          refl,
          ground (arith, get_handles_lem x a.fds s),
          dropped_already k marked (get_handles k a.fds s).2 refl,
        )

  with_handles_worked :
      (a : Attrs) (done : Bool) (hs : List ℕ) (s : Store)
      → (with_handles k a (new_fb false) (done, hs, s)).0.id ≢ 0
      → (i : ℕ) × ((with_handles k a (new_fb false) (done, hs, s)).1
          ≡ (close_handles
              (record (new_fb false) { handles = overwrite k hs no_handles; id = i })
              s).1)
  with_handles_worked a false hs s worked =
      absurd (worked (drop-id k (record (new_fb false) { handles = overwrite k hs no_handles }) s))
  with_handles_worked a true hs s worked =
      let i = submit_buffer k a (overwrite k hs no_handles) in
      (
        i,
        ap (λ (r : Fb × Store). r.1)
            (submitted_lem i (record (new_fb false) { handles = overwrite k hs no_handles }) s
              worked),
      )

  import_succeeds :
      (a : Attrs) (s : Store) → (import k a (new_fb false) s).0.id ≢ 0 → a.success ≡ true
  unfolding import
  import_succeeds a s worked = ground arith

  -- When the import of a new framebuffer works, it keeps no handle: those that it got for the
  -- planes, four at most, are closed afterwards, and every other handle is as it was. 0 is no
  -- handle.
  pub import_keeps_no_handle :
      (a : Attrs) (s : Store) (x : ℕ)
      → length a.fds ≤ 4
      → x ≢ 0
      → (import k a (new_fb false) s).0.id ≢ 0
      → (import k a (new_fb false) s).1.opened x
        ≡ (s.opened x && not (mem x (get_handles k a.fds s).1))
  import_keeps_no_handle a s x few real worked =
      let (done, hs, s1) = get_handles k a.fds s in
      let same = import_eq a s (import_succeeds a s worked) in
      let (i, ran) =
        with_handles_worked a done hs s1 (λ e. worked (ap (λ (r : Fb × Store). r.0.id) same ∙ e)) in
      let fb = record (new_fb false) { handles = overwrite k hs no_handles; id = i } in
      let shut = (close_handles_lem fb s1 x refl).1 in
      let room =
        mem-overwrite x hs no_handles (omega (arith, length-get_handles a.fds s)) (ground arith) in
      ap (λ (r : Fb × Store). r.1.opened x) same
      ∙ ap (λ (t : Store). t.opened x) ran
      ∙ shut
      ∙ ground (arith, get_handles_lem x a.fds s, room)

  reimport_refused :
      (a : Attrs) (fb : Fb) (s : Store)
      → a.success ≡ false
      → reimport k a fb s ≡ (
        record (drop k fb s).0 { dropped = false; handles_closed = false; handles = no_handles },
        (drop k fb s).1,
      )
  unfolding reimport import
  reimport_refused a fb s gone = rw gone refl

  -- When an imported framebuffer is imported again and the buffer has no dmabuf any more, the id of
  -- the framebuffer that was closed stays, and dropping it closes that id a second time.
  pub reimport_closes_twice :
      (a : Attrs) (fb : Fb) (s : Store)
      → a.success ≡ false
      → fb.dropped ≡ false
      → fb.id ≢ 0
      → k.close_result fb.id ≡ fine
      → let (fb', s') = reimport k a fb s in
        (drop k fb' s').1.fb_calls ≡ (s.fb_calls ++ (close_fb fb.id ∷ [])) ++ (close_fb fb.id ∷ [])
  reimport_closes_twice a fb s gone held real fine_close =
      let s1 = (drop k fb s).1 in
      let fb1 = record (drop k fb s).0 {
        dropped = false;
        handles_closed = false;
        handles = no_handles;
      } in
      let same_id : fb1.id ≡ fb.id = drop-id k fb s in
      ap (λ (r : Fb × Store). (drop k r.0 r.1).1.fb_calls) (reimport_refused a fb s gone)
      ∙ drop_calls k fb1 s1 refl (λ e. real (sym same_id ∙ e))
          (ap k.close_result same_id ∙ fine_close)
      ∙ ap (λ i. s1.fb_calls ++ (close_fb i ∷ [])) same_id
      ∙ ap (λ calls. calls ++ (close_fb fb.id ∷ [])) (drop_calls k fb s held real fine_close)
