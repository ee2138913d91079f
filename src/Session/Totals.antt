-- ===== src/Session/Totals.antt =====
-- How often a device of src/backend/Session.cpp is in the list, with its remove events, before and
-- after each operation.
use aquamarine.Common.{
  ℕ, ◌+◌, ◌<◌, Bool, true, false, some, List, [], ◌∷◌, ◌++◌, ◌==◌, if◌then◌else◌, ◌≡◌, refl, ◌∙◌,
  arith, count, Bool-cases, inl, inr,
}
use aquamarine.Session.{
  Device, Session, Call, changes_active, resumes, suspends, disables_seat, adds_card, asks_new_gpu,
  changes, removes, enable_seat, disable_seat, libinput_close, without_fd, call, call_if, find_dev,
  erase_device, has_number,
}

unfoldable pub ids : List Device → List ℕ
ids [] = []
ids (d ∷ ds) = d.id ∷ ids ds

unfoldable pub removed : List Call → List ℕ
removed [] = []
removed (removes id ∷ cs) = id ∷ removed cs
removed (changes_active ∷ cs) = removed cs
removed (resumes ∷ cs) = removed cs
removed (suspends ∷ cs) = removed cs
removed (disables_seat ∷ cs) = removed cs
removed (adds_card p ∷ cs) = removed cs
removed (asks_new_gpu p ∷ cs) = removed cs
removed (changes id c ∷ cs) = removed cs

-- How often a device is in the list, with the remove events that it had
unfoldable pub total : ℕ → Session → ℕ
unfolding ids removed
total x s = count x (ids s.devices) + count x (removed s.calls)

pub count-ids-snoc :
    (x : ℕ) (d : Device) (ds : List Device)
    → count x (ids (ds ++ (d ∷ []))) ≡ count x (ids ds) + (if x == d.id then 1 else 0)
unfolding ids
count-ids-snoc x d [] = ground arith
count-ids-snoc x d (e ∷ ds) = ground (arith, count-ids-snoc x d ds)

pub count-removed-append :
    (x : ℕ) (cs ds : List Call)
    → count x (removed (cs ++ ds)) ≡ count x (removed cs) + count x (removed ds)
unfolding removed
count-removed-append x [] ds = omega arith
count-removed-append x (removes id ∷ cs) ds = ground (arith, count-removed-append x cs ds)
count-removed-append x (changes_active ∷ cs) ds = count-removed-append x cs ds
count-removed-append x (resumes ∷ cs) ds = count-removed-append x cs ds
count-removed-append x (suspends ∷ cs) ds = count-removed-append x cs ds
count-removed-append x (disables_seat ∷ cs) ds = count-removed-append x cs ds
count-removed-append x (adds_card p ∷ cs) ds = count-removed-append x cs ds
count-removed-append x (asks_new_gpu p ∷ cs) ds = count-removed-append x cs ds
count-removed-append x (changes id c ∷ cs) ds = count-removed-append x cs ds

-- `libinputClose` makes a remove event of each device that it erases.
total-without_fd :
    (x fd : ℕ) (ds : List Device)
    → count x (ids (without_fd fd ds).0) + count x (removed (without_fd fd ds).1) ≡ count x (ids ds)
unfolding without_fd ids removed
total-without_fd x fd [] = omega arith
total-without_fd x fd (d ∷ ds) = elim (Bool-cases (has_number d.fd fd)) [
  | inl here ↦ rw here (ground (arith, total-without_fd x fd ds))
  | inr later ↦ rw later (ground (arith, total-without_fd x fd ds))
]

pub count-erase_device :
    (x id : ℕ) (ds : List Device)
    → count x (ids (erase_device id ds)) ≡ (if x == id then 0 else count x (ids ds))
unfolding erase_device ids
count-erase_device x id [] = ground arith
count-erase_device x id (d ∷ ds) = ground (arith, count-erase_device x id ds)

pub find_dev_listed :
    (n : ℕ) (ds : List Device) (d : Device) → find_dev n ds ≡ some d → 0 < count d.id (ids ds)
unfolding find_dev ids
find_dev_listed n [] d h = cc
find_dev_listed n (e ∷ ds) d h = ground (arith, find_dev_listed n ds d)

pub total-libinput_close : (x fd : ℕ) (s : Session) → total x (libinput_close fd s) ≡ total x s
unfolding libinput_close total
total-libinput_close x fd s = omega (
  arith,
  total-without_fd x fd s.devices,
  count-removed-append x s.calls (without_fd fd s.devices).1,
)

pub total-call :
    (x : ℕ) (c : Call) (s : Session) → removed (c ∷ []) ≡ [] → total x (call c s) ≡ total x s
unfolding total
total-call x c s h = rw (count-removed-append, h) (omega arith)

total-call_if :
    (b : Bool) (x : ℕ) (c : Call) (s : Session)
    → removed (c ∷ []) ≡ []
    → total x (call_if b c s) ≡ total x s
total-call_if true x c s h = total-call x c s h
total-call_if false x c s h = refl

total-active : (b : Bool) (x : ℕ) (s : Session) → total x (record s { active = b }) ≡ total x s
unfolding total
total-active b x s = refl

pub total-enable_seat : (x : ℕ) (s : Session) → total x (enable_seat s) ≡ total x s
unfolding enable_seat removed
total-enable_seat x s =
    total-call x changes_active (call_if s.libinput resumes (record s { active = true })) refl
    ∙ total-call_if s.libinput x resumes (record s { active = true }) refl
    ∙ total-active true x s

pub total-disable_seat : (x : ℕ) (s : Session) → total x (disable_seat s) ≡ total x s
unfolding disable_seat removed
total-disable_seat x s =
    let off = call_if s.libinput suspends (record s { active = false }) in
    total-call x disables_seat (call changes_active off) refl
    ∙ total-call x changes_active off refl
    ∙ total-call_if s.libinput x suspends (record s { active = false }) refl
    ∙ total-active false x s
