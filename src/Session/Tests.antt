-- ===== src/Session/Tests.antt =====
-- Runs of the model of src/backend/Session.cpp.
use aquamarine.Common.{
  ℕ, ◌+◌, Bool, true, false, Option, none, some, List, [], ◌∷◌, ◌++◌, ◌==◌, if◌then◌else◌, ◌≡◌, ◌↔◌,
  refl, arith, All,
}
use aquamarine.Session.{
  Device, Held, Session, changes, from_gpu, hotplug, Action, Udev, construct, destroy,
  resolve_render_node, open_if_kms, is_drm_card, all_digits, dispatch_udev, find_dev, erase_device,
}
use aquamarine.Session.Cards.{is_drm_card_lem, card, IsDigit}
use aquamarine.Session.Lifetime.{construct-destroy, Spent, fds, seats, stat_fails}
use aquamarine.Session.Totals.{total, ids}
use aquamarine.Session.Devices.{
  gpu_of, Step, opens, closes, notifies, enables, disables, run_steps, run_steps-Keeps,
}
use aquamarine.Session.Orderly.{IsOrderly, Keeps}
use aquamarine.Session.Tools.{
  Tablet, comes_near, leaves, moves, touches, handle_all, IsAnnounced, sources, news, new_tool,
  proximity, axis,
}
use aquamarine.Session.Tools.Announced.{handle_all-IsAnnounced}

abbrev card1 : List ℕ
card1 = card ++ (b'1' ∷ [])

is_drm_card_lem_example :
    (is_drm_card card1 ≡ true) ↔ ((number : List ℕ) × (card1 ≡ card ++ number) × All IsDigit number)
is_drm_card_lem_example = is_drm_card_lem card1

abbrev seat_of : ℕ → Option (ℕ × ℕ)
seat_of path = if path == 0 then none else some (path, 10 + path)

-- Only the first device has a number.
abbrev number_of : ℕ → Option ℕ
number_of fd = if fd == 11 then some 226 else none

abbrev held : Held
held = record { seat_opened = []; seat_closed = []; opened = []; closed = [] }

construct-destroy_example :
    Spent held
      (destroy
        (resolve_render_node
          (some 99)
          (construct seat_of number_of 0 7 2 held).0
          (construct seat_of number_of 0 7 2 held).1).0
        (resolve_render_node
          (some 99)
          (construct seat_of number_of 0 7 2 held).0
          (construct seat_of number_of 0 7 2 held).1).1)
      (fds (seat_of 2) (some 99))
      (seats (seat_of 2))
      (if stat_fails number_of (seat_of 2) then [] else seats (seat_of 2))
construct-destroy_example = construct-destroy seat_of number_of 0 7 2 (some 99) held

-- The seat's device stays open.
stat_run :
    open_if_kms seat_of number_of (λ fd. true) 0 7 2 held
    ≡ (none, record { seat_opened = 2 ∷ []; seat_closed = []; opened = 12 ∷ []; closed = 12 ∷ [] })
unfolding open_if_kms
stat_run = refl

abbrev session : Session
session = record { active = false; libinput = true; devices = []; next_id = 0; calls = [] }

abbrev udev : Action → Udev
udev a = record {
  sysname = card1;
  devnode = some 1;
  action = some a;
  devnum = 226;
  is_hotplug = false;
  connector = none;
  property = none;
  is_lease = false;
}

session-IsOrderly : IsOrderly session
unfolding total
session-IsOrderly = record { once = λ x. omega arith; fresh = λ x h. refl }

abbrev all_kms : ℕ → Bool
all_kms fd = true

abbrev all_set_up : Device → Bool
all_set_up d = true

abbrev no_gpu : ℕ → Option Device
no_gpu devnode = none

abbrev some_steps : List Step
some_steps =
    enables
    ∷ opens 7 1
    ∷ notifies 7 (udev Action.add)
    ∷ notifies 7 (udev Action.remove)
    ∷ opens 7 1
    ∷ closes 11
    ∷ disables
    ∷ []

run_steps-Keeps_example :
    Keeps session (run_steps seat_of number_of all_kms all_set_up held some_steps session)
run_steps-Keeps_example =
    run_steps-Keeps seat_of number_of all_kms all_set_up held some_steps session session-IsOrderly

-- A card that is added joins the list with the next number.
new_card_run :
    ids
      (dispatch_udev
        (gpu_of seat_of number_of all_kms all_set_up held 7 0)
        (udev Action.add)
        session).devices
    ≡ 0 ∷ []
unfolding dispatch_udev is_drm_card all_digits find_dev from_gpu open_if_kms construct ids
new_card_run = refl

abbrev known : Session
known = record session {
  devices =
      record {
        id = 4;
        path = 1;
        fd = some 11;
        device_id = some 1;
        dev = 226;
        render_node_fd = none;
      }
      ∷ [];
}

-- A change that is neither a hotplug nor of a lease is told as a hotplug.
unrecognised_run :
    (dispatch_udev no_gpu (udev Action.change) known).calls ≡ changes 4 (hotplug 0 0) ∷ []
unfolding dispatch_udev is_drm_card all_digits find_dev
unrecognised_run = refl

removal_run : (dispatch_udev no_gpu (udev Action.remove) known).devices ≡ []
unfolding dispatch_udev is_drm_card all_digits find_dev erase_device
removal_run = refl

abbrev tablet : Tablet
tablet = record { ready = true; tools = []; next = 0; emitted = [] }

tablet-IsAnnounced : IsAnnounced tablet
unfolding sources news
tablet-IsAnnounced = record {
  ready = refl;
  once = λ t. omega arith;
  announced = λ o. ground arith;
  known = tt;
  objects = tt;
}

handle_all-IsAnnounced_example :
    IsAnnounced (handle_all (comes_near 5 false ∷ touches 5 ∷ leaves 5 false ∷ moves 5 ∷ []) tablet)
handle_all-IsAnnounced_example =
    handle_all-IsAnnounced (comes_near 5 false ∷ touches 5 ∷ leaves 5 false ∷ moves 5 ∷ []) tablet
      tablet-IsAnnounced

-- A tool that is not unique gets a new object when it comes back.
tools_run :
    (handle_all (leaves 5 false ∷ moves 5 ∷ []) tablet).emitted
    ≡ new_tool 0 ∷ proximity 0 ∷ new_tool 1 ∷ axis 1 ∷ []
unfolding handle_all
tools_run = refl
