-- ===== src/Session/Lifetime.antt =====
-- What a device of src/backend/Session.cpp opens and closes.
use aquamarine.Common.{
  ℕ, Bool, false, not, Option, none, some, List, [], ◌∷◌, ◌++◌, is_some, if◌then◌else◌, ◌≡◌, refl,
  sym, append_nil, append_assoc, Option-cases, inl, inr,
}
use aquamarine.Session.{Device, Held, construct, destroy, resolve_render_node, with_open, list_of}

-- Whether a device is opened of which stat fails
abbrev pub stat_fails : (ℕ → Option ℕ) → Option (ℕ × ℕ) → Bool
stat_fails stat none = false
stat_fails stat (some (seat, fd)) = not (is_some (stat fd))

-- The devices of the seat that an opening gives, and all the descriptors
abbrev pub seats : Option (ℕ × ℕ) → List ℕ
seats none = []
seats (some (seat, fd)) = seat ∷ []

abbrev pub fds : Option (ℕ × ℕ) → Option ℕ → List ℕ
fds none render = list_of render
fds (some (seat, fd)) render = fd ∷ list_of render

-- What a life of a device comes to
abbrev pub Spent : Held → Held → List ℕ → List ℕ → List ℕ → Type 0
Spent h h' all opened closed =
    (h'.opened ≡ h.opened ++ all)
    × (h'.closed ≡ h.closed ++ all)
    × (h'.seat_opened ≡ h.seat_opened ++ opened)
    × (h'.seat_closed ≡ h.seat_closed ++ closed)

-- From a device on that has its descriptors, or none
abbrev pub rest_of_life : Option ℕ → Device → Held → Held
rest_of_life render d h = let r = resolve_render_node render d h in destroy r.0 r.1

opened_lem :
    (d : Device) (h : Held) (render : Option ℕ) (fd : ℕ) (seat : List ℕ)
    → d.fd ≡ some fd
    → d.render_node_fd ≡ none
    → Spent h
        (rest_of_life render d
          (record h { seat_opened = h.seat_opened ++ seat; opened = h.opened ++ (fd ∷ []) }))
        (fd ∷ list_of render)
        seat
        (list_of d.device_id)
unfolding resolve_render_node destroy
opened_lem d h none fd seat e k = (refl, rw (e, k) (append_assoc h.closed (fd ∷ []) []), refl, refl)
opened_lem d h (some n) fd seat e k = (
  append_assoc h.opened (fd ∷ []) (n ∷ []),
  rw e (append_assoc h.closed (fd ∷ []) (n ∷ [])),
  refl,
  refl,
)

unopened_lem :
    (d : Device) (h : Held) (render : Option ℕ)
    → d.fd ≡ none
    → d.render_node_fd ≡ none
    → d.device_id ≡ none
    → Spent h (rest_of_life render d h) (list_of render) [] []
unfolding resolve_render_node destroy
unopened_lem d h none e k i = (
  sym (append_nil h.opened),
  rw (e, k) (append_nil (h.closed ++ [])),
  sym (append_nil h.seat_opened),
  rw i refl,
)
unopened_lem d h (some n) e k i =
    (refl, rw e (append_assoc h.closed [] (n ∷ [])), sym (append_nil h.seat_opened), rw i refl)

-- Whether stat succeeds decides only whether the device of the seat is known in the end.
with_open_lem :
    (open_device : ℕ → Option (ℕ × ℕ)) (stat : ℕ → Option ℕ) (d : Device) (h : Held)
    (o : Option (ℕ × ℕ)) (render : Option ℕ)
    → d.fd ≡ none
    → d.render_node_fd ≡ none
    → d.device_id ≡ none
    → Spent h
        (rest_of_life render
          (with_open open_device stat d o h).0
          (with_open open_device stat d o h).1)
        (fds o render)
        (seats o)
        (if stat_fails stat o then [] else seats o)
with_open_lem open_device stat d h none render e k i = unopened_lem d h render e k i
with_open_lem open_device stat d h (some (seat, fd)) render e k i = elim (Option-cases (stat fd)) [
  | inl failed ↦
      rw failed
        (opened_lem (record d { device_id = none; fd = some fd }) h render fd (seat ∷ []) refl k)
  | inr (dev, done) ↦ rw done (
      opened_lem (record d { device_id = some seat; fd = some fd; dev = dev }) h render fd
        (seat ∷ []) refl k)
]

module _ (open_device : ℕ → Option (ℕ × ℕ)) (stat : ℕ → Option ℕ) where
  -- A device from its construction over the search for a render node to its destruction: each
  -- descriptor that was opened is closed, in the same order; and so is the device of the seat,
  -- unless stat failed, when it stays open.
  pub construct-destroy :
      (id garbage path : ℕ) (render : Option ℕ) (h : Held)
      → let d = construct open_device stat id garbage path h in
        let d' = resolve_render_node render d.0 d.1 in
        Spent h
          (destroy d'.0 d'.1)
          (fds (open_device path) render)
          (seats (open_device path))
          (if stat_fails stat (open_device path) then [] else seats (open_device path))
  unfolding construct
  construct-destroy id garbage path render h =
      with_open_lem open_device stat _ h (open_device path) render refl refl refl
