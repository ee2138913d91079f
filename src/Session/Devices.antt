-- ===== src/Session/Devices.antt =====
-- The list of devices of src/backend/Session.cpp, and the events of their removal.
use aquamarine.Common.{ℕ, Bool, true, false, Option, some, List, [], ◌∷◌, ◌≡◌, refl, ◌∙◌, arith}
use aquamarine.Session.{
  Device, Held, Session, Call, resumes, suspends, Udev, enable_seat, disable_seat, libinput_open,
  libinput_close, dispatch_udev, call_if, from_gpu, open_if_kms, construct,
}
use aquamarine.Session.Totals.{total-libinput_close, total-enable_seat, total-disable_seat}
use aquamarine.Session.Orderly.{
  IsOrderly, Keeps, same-Keeps, libinput_open-Keeps, dispatch_udev-Keeps,
}

-- What may happen: libinput opens a device, with what is in the field `dev` that the constructor
-- does not set, or closes a descriptor; udev has an event, which may open a device likewise; the
-- seat is enabled or disabled.
pub data Step : Type 0 where
  opens : ℕ → ℕ → Step
  closes : ℕ → Step
  notifies : ℕ → Udev → Step
  enables disables : Step

module _ (open_device : ℕ → Option (ℕ × ℕ)) (stat : ℕ → Option ℕ) (is_kms : ℕ → Bool)
    (is_set_up : Device → Bool) (held : Held) where
  -- What fromGpu makes of a devnode
  abbrev pub gpu_of : ℕ → ℕ → ℕ → Option Device
  gpu_of garbage id devnode = (from_gpu open_device stat is_kms is_set_up id garbage devnode held).0

  unfoldable pub step : Step → Session → Session
  step (opens garbage path) s =
      (libinput_open (construct open_device stat s.next_id garbage path held).0 s).1
  step (closes fd) s = libinput_close fd s
  step (notifies garbage u) s = dispatch_udev (gpu_of garbage s.next_id) u s
  step enables s = enable_seat s
  step disables s = disable_seat s

  unfoldable pub run_steps : List Step → Session → Session
  unfolding step
  run_steps [] s = s
  run_steps (u ∷ us) s = run_steps us (step u s)

call_if_next_id : (b : Bool) (c : Call) (s : Session) → (call_if b c s).next_id ≡ s.next_id
call_if_next_id true c s = refl
call_if_next_id false c s = refl

libinput_close_next_id : (fd : ℕ) (s : Session) → (libinput_close fd s).next_id ≡ s.next_id
unfolding libinput_close
libinput_close_next_id fd s = refl

enable_seat_next_id : (s : Session) → (enable_seat s).next_id ≡ s.next_id
unfolding enable_seat
enable_seat_next_id s = call_if_next_id s.libinput resumes (record s { active = true })

disable_seat_next_id : (s : Session) → (disable_seat s).next_id ≡ s.next_id
unfolding disable_seat
disable_seat_next_id s = call_if_next_id s.libinput suspends (record s { active = false })

construct-id :
    (open_device : ℕ → Option (ℕ × ℕ)) (stat : ℕ → Option ℕ) (id garbage path : ℕ) (h : Held)
    → (construct open_device stat id garbage path h).0.id ≡ id
unfolding construct
construct-id open_device stat id garbage path h = ground arith

module _ (open_device : ℕ → Option (ℕ × ℕ)) (stat : ℕ → Option ℕ) (is_kms : ℕ → Bool)
    (is_set_up : Device → Bool) (held : Held) where
  gpu_of-id :
      (garbage id p : ℕ) (d : Device)
      → gpu_of open_device stat is_kms is_set_up held garbage id p ≡ some d
      → d.id ≡ id
  unfolding from_gpu open_if_kms
  gpu_of-id garbage id p d h = ground (arith, construct-id open_device stat id garbage p held)

  step-Keeps :
      (u : Step) (s : Session)
      → IsOrderly s
      → Keeps s (step open_device stat is_kms is_set_up held u s)
  unfolding step
  step-Keeps (opens garbage path) s o =
      libinput_open-Keeps _ s (construct-id open_device stat s.next_id garbage path held) o
  step-Keeps (closes fd) s o =
      same-Keeps s _ (libinput_close_next_id fd s) (λ x. total-libinput_close x fd s) o
  step-Keeps (notifies garbage u) s o =
      dispatch_udev-Keeps (gpu_of open_device stat is_kms is_set_up held garbage s.next_id) u s
        (λ p d. gpu_of-id garbage s.next_id p d) o
  step-Keeps enables s o = same-Keeps s _ (enable_seat_next_id s) (λ x. total-enable_seat x s) o
  step-Keeps disables s o = same-Keeps s _ (disable_seat_next_id s) (λ x. total-disable_seat x s) o

  -- Whatever libinput opens and closes, whatever udev and the seat say, in any order, and whether
  -- or not a new card can be opened and set up: at the end each device, a card that was added
  -- meanwhile included, is in the list once and had no remove event, or is not in it and had one,
  -- or was never in it; and the devices that were there at the start, or had the event before, are
  -- there or had it. At the start none was in the list twice or there after its event.
  pub run_steps-Keeps :
      (us : List Step) (s : Session)
      → IsOrderly s
      → Keeps s (run_steps open_device stat is_kms is_set_up held us s)
  unfolding run_steps
  run_steps-Keeps [] s o = (o, omega arith, λ x h. refl)
  run_steps-Keeps (u ∷ us) s o =
      let first = step-Keeps u s o in
      let rest = run_steps-Keeps us (step open_device stat is_kms is_set_up held u s) first.0 in
      (
        rest.0,
        omega (arith, first.1, rest.1),
        λ x h. rest.2 x (omega (arith, first.1)) ∙ first.2 x h,
      )
