-- ===== src/Anland/Slots/Shared.antt =====
-- Whose memory a slot of src/backend/anland/AnlandOutput.cpp shows, and who closes a descriptor.
use aquamarine.Common.{
  ℕ, true, false, Option, none, some, ◌==◌, ltb, ◌≡◌, ◌≢◌, refl, arith, ==_refl,
}
use aquamarine.Anland.Slots.{import_fd, import_buffer, cache_or_import_buffer}
use aquamarine.Anland.Store.{
  Info, Buffer, CacheEntry, Files, Sys, set_file, destroy_buffer, find_cached,
}

-- The dmabuf that a slot's buffer shows
abbrev pub shows : Files → Option Buffer → Option ℕ
shows files none = none
shows files (some b) = files b.fd

differs : (a b : ℕ) → a ≢ b → (a == b) ≡ false
differs a b h = ground arith

differs_sym : (a b : ℕ) → a ≢ b → (b == a) ≡ false
differs_sym a b h = ground arith

module _ (new_fd : Files → Option ℕ) where
  module _ (ctx_fd : ℕ → Option ℕ) (info_of : ℕ → Option Info) (i fd d : ℕ) (info : Info) (s : Sys)
      (here : s.destroying ≡ false) (small : ltb i 8 ≡ true) (unused : (s.slots i).imported ≡ false)
      (has_fd : ctx_fd i ≡ some fd) (has_info : info_of i ≡ some info) where
    -- A buffer that the display has and that is not imported yet is imported, and shows the
    -- display's dmabuf; the display's own descriptor for it is closed then.
    pub import_buffer-shows :
        (n : ℕ)
        → s.files fd ≡ some d
        → new_fd s.files ≡ some n
        → n ≢ fd
        → let (ok, s') = import_buffer new_fd true ctx_fd info_of i s in
          (ok ≡ true)
          × ((s'.slots i).imported ≡ true)
          × (shows s'.files (s'.slots i).buffer ≡ some d)
          × (s'.files fd ≡ none)
    unfolding import_buffer import_fd
    import_buffer-shows n at_fd free other =
        simp (here, small, unused, has_fd, has_info, at_fd, free, ==_refl i)
          (refl, refl, ground arith, ground arith)

    -- So the same buffer of the same display is not imported again, once its slot was destroyed.
    pub reimport_fails :
        (n : ℕ)
        → s.files fd ≡ some d
        → new_fd s.files ≡ some n
        → n ≢ fd
        → let s1 = destroy_buffer i (import_buffer new_fd true ctx_fd info_of i s).1 in
          let (ok, s2) = import_buffer new_fd true ctx_fd info_of i s1 in
          (ok ≡ false) × ((s2.slots i).imported ≡ false)
    unfolding import_buffer import_fd destroy_buffer
    reimport_fails n at_fd free other =
        simp
          (
            here,
            small,
            unused,
            has_fd,
            has_info,
            at_fd,
            free,
            ==_refl i,
            ==_refl fd,
            differs_sym n fd other,
          )
          (refl, refl)

    -- A buffer whose size, format and modifier an entry of the cache has is not looked at: the slot
    -- shows the entry's dmabuf `e_d`, whatever the display's own is. One descriptor stays open that
    -- nothing owns, the copy `n` that the buffer's was made from.
    pub cache_hit_shows :
        (e : CacheEntry) (e_fd e_d n m : ℕ)
        → find_cached info s.cache ≡ some e
        → e.fd ≡ some e_fd
        → s.files e_fd ≡ some e_d
        → new_fd s.files ≡ some n
        → new_fd (set_file n (some e_d) s.files) ≡ some m
        → n ≢ fd
        → m ≢ fd
        → m ≢ n
        → let (ok, s') = cache_or_import_buffer new_fd true ctx_fd info_of i s in
          (ok ≡ true)
          × (shows s'.files (s'.slots i).buffer ≡ some e_d)
          × (s'.files n ≡ some e_d)
          × (s'.files fd ≡ none)
    unfolding cache_or_import_buffer
    cache_hit_shows e e_fd e_d n m hit at opened free free2 other other2 other3 =
        simp
          (
            here,
            small,
            unused,
            has_fd,
            has_info,
            hit,
            at,
            opened,
            free,
            ==_refl n,
            free2,
            ==_refl i,
            ==_refl m,
            ==_refl fd,
            differs n fd other,
            differs m fd other2,
            differs_sym m n other3,
          )
          (refl, refl, refl, refl)
