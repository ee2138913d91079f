-- ===== src/Session.antt =====
-- The session of src/backend/Session.cpp: its devices from opening to closing, the seat's callbacks,
-- libinputOpen and libinputClose, isDRMCard, dispatchUdevEvents, and the tools of a tablet. libseat,
-- the kernel and udev are parameters: what opening and stat give, and the events of udev, whose
-- texts are lists of codes or, where they are only handed on, numbers. A device has a number of its
-- own, `id`; a new one is given the next.
pub mod Cards
pub mod Lifetime
pub mod Totals
pub mod Orderly
pub mod Devices
pub mod Tools
mod Tests
use aquamarine.Common.{
  ℕ, zero, suc, ◌+◌, ◌%◌, ◌^◌, Bool, true, false, not, ◌&&◌, ◌||◌, Option, none, some, List, [],
  ◌∷◌, ◌++◌, ◌==◌, leb, is_some, if◌then◌else◌,
}

-- `CSessionDevice`; none is -1
pub record Device : Type 0 where
  pub id : ℕ
  pub path : ℕ
  pub fd : Option ℕ
  pub device_id : Option ℕ
  pub dev : ℕ
  pub render_node_fd : Option ℕ

-- What was opened and closed: devices of the seat, and file descriptors
pub record Held : Type 0 where
  pub seat_opened : List ℕ
  pub seat_closed : List ℕ
  pub opened : List ℕ
  pub closed : List ℕ

abbrev pub list_of : Option ℕ → List ℕ
list_of none = []
list_of (some a) = a ∷ []

abbrev pub has_number : Option ℕ → ℕ → Bool
has_number none a = false
has_number (some b) a = b == a

module _ (open_device : ℕ → Option (ℕ × ℕ)) (stat : ℕ → Option ℕ) where
  abbrev pub with_stat : Device → Option ℕ → Device
  with_stat d none = record d { device_id = none }
  with_stat d (some dev) = record d { dev = dev }

  abbrev pub with_open : Device → Option (ℕ × ℕ) → Held → Device × Held
  with_open d none h = (d, h)
  with_open d (some (seat, fd)) h = (
    with_stat (record d { device_id = some seat; fd = some fd }) (stat fd),
    record h { seat_opened = h.seat_opened ++ (seat ∷ []); opened = h.opened ++ (fd ∷ []) },
  )

  -- The constructor; `garbage` is what stands in the field `dev`, which it does not set.
  unfoldable pub construct : ℕ → ℕ → ℕ → Held → Device × Held
  construct id garbage path h =
      with_open
        (record {
          id = id;
          path = path;
          fd = none;
          device_id = none;
          dev = garbage;
          render_node_fd = none;
        })
        (open_device path) h

-- The destructor
unfoldable pub destroy : Device → Held → Held
destroy d h = record h {
  seat_closed = h.seat_closed ++ list_of d.device_id;
  closed = (h.closed ++ list_of d.fd) ++ list_of d.render_node_fd;
}

-- resolveMatchingRenderNode: what comes of the first render devnode with the card's parent
unfoldable pub resolve_render_node : Option ℕ → Device → Held → Device × Held
resolve_render_node none d h = (d, h)
resolve_render_node (some fd) d h =
    (record d { render_node_fd = some fd }, record h { opened = h.opened ++ (fd ∷ []) })

module _ (open_device : ℕ → Option (ℕ × ℕ)) (stat : ℕ → Option ℕ) (is_kms : ℕ → Bool) where
  abbrev pub supports_kms : Device → Bool
  supports_kms d = elim d.device_id [
    | none ↦ false
    | some seat ↦ elim d.fd [ none ↦ false | some fd ↦ is_kms fd ]
  ]

  abbrev pub kept_if : Bool → Device × Held → Option Device × Held
  kept_if true (d, h) = (some d, h)
  kept_if false (d, h) = (none, destroy d h)

  unfoldable pub open_if_kms : ℕ → ℕ → ℕ → Held → Option Device × Held
  unfolding construct destroy
  open_if_kms id garbage path h =
      let r = construct open_device stat id garbage path h in kept_if (supports_kms r.0) r

  -- fromGpu: `is_set_up` says whether registerGPU, checkFeatures and initResources all succeed. A
  -- device that is not kept is destroyed.
  abbrev pub ready_if : (Device → Bool) → Option Device × Held → Option Device × Held
  ready_if is_set_up (none, h) = (none, h)
  ready_if is_set_up (some d, h) = if is_set_up d then (some d, h) else (none, destroy d h)

  unfoldable pub from_gpu : (Device → Bool) → ℕ → ℕ → ℕ → Held → Option Device × Held
  from_gpu is_set_up id garbage path h = ready_if is_set_up (open_if_kms id garbage path h)

-- `SChangeEvent`
pub data Change : Type 0 where
  hotplug : ℕ → ℕ → Change
  lease : Change

pub data Call : Type 0 where
  changes_active resumes suspends disables_seat : Call
  adds_card asks_new_gpu : ℕ → Call
  changes : ℕ → Change → Call
  removes : ℕ → Call

-- `CSession`, with its calls and events in their order; `libinput` says whether there is a context.
pub record Session : Type 0 where
  pub active : Bool
  pub libinput : Bool
  pub devices : List Device
  pub next_id : ℕ
  pub calls : List Call

abbrev pub call : Call → Session → Session
call c s = record s { calls = s.calls ++ (c ∷ []) }

abbrev pub call_if : Bool → Call → Session → Session
call_if true c s = call c s
call_if false c s = s

unfoldable pub enable_seat : Session → Session
enable_seat s = call changes_active (call_if s.libinput resumes (record s { active = true }))

unfoldable pub disable_seat : Session → Session
disable_seat s =
    call disables_seat
      (call changes_active (call_if s.libinput suspends (record s { active = false })))

-- libinputOpen: the descriptor, none for -1
unfoldable pub libinput_open : Device → Session → Option ℕ × Session
libinput_open d s =
    if d.dev == 0
    then (none, record s { next_id = suc s.next_id })
    else (d.fd, record s { devices = s.devices ++ (d ∷ []); next_id = suc s.next_id })

-- `erase_if`, and the remove events that it makes
pub without_fd : ℕ → List Device → List Device × List Call
without_fd fd [] = ([], [])
without_fd fd (d ∷ ds) =
    let rest = without_fd fd ds in
    if has_number d.fd fd then (rest.0, removes d.id ∷ rest.1) else (d ∷ rest.0, rest.1)

unfoldable pub libinput_close : ℕ → Session → Session
libinput_close fd s =
    let r = without_fd fd s.devices in record s { devices = r.0; calls = s.calls ++ r.1 }

pub all_digits : List ℕ → Bool
all_digits [] = true
all_digits (c ∷ cs) = leb b'0' c && leb c b'9' && all_digits cs

-- isDRMCard: the name begins with "card", `DRM_PRIMARY_MINOR_NAME`, and has digits from there on.
unfoldable pub is_drm_card : List ℕ → Bool
is_drm_card (a ∷ b ∷ c ∷ d ∷ rest) =
    if a == b'c' && b == b'a' && c == b'r' && d == b'd' then all_digits rest else false
is_drm_card name = false

pub data Action : Type 0 where
  add change remove other : Action

-- A device of udev with the properties of its event: whether HOTPLUG and LEASE are 1, and the
-- numbers in CONNECTOR and PROPERTY
pub record Udev : Type 0 where
  pub sysname : List ℕ
  pub devnode : Option ℕ
  pub action : Option Action
  pub devnum : ℕ
  pub is_hotplug : Bool
  pub connector : Option ℕ
  pub property : Option ℕ
  pub is_lease : Bool

pub find_dev : ℕ → List Device → Option Device
find_dev n [] = none
find_dev n (d ∷ ds) = if d.dev == n then some d else find_dev n ds

pub erase_device : ℕ → List Device → List Device
erase_device id [] = []
erase_device id (d ∷ ds) = let rest = erase_device id ds in if d.id == id then rest else d ∷ rest

-- A number as an uint32_t, 0 if there is none
abbrev pub to_u32 : Option ℕ → ℕ
to_u32 none = 0
to_u32 (some n) = n % 2 ^ 32

-- An event that is neither keeps the default, a hotplug without numbers.
abbrev pub change_of : Udev → Change
change_of u =
    if u.is_hotplug
    then hotplug (to_u32 u.connector) (to_u32 u.property)
    else if u.is_lease
    then lease
    else hotplug 0 0

abbrev pub dispatch_known : Action → ℕ → Udev → Device → Session → Session
dispatch_known add devnode u d s = call (adds_card devnode) s
dispatch_known change devnode u d s = call (changes d.id (change_of u)) s
dispatch_known remove devnode u d s =
    call (removes d.id) (record s { devices = erase_device d.id s.devices })
dispatch_known other devnode u d s = s

-- onNewGpu with fromGpu: what comes of the devnode is a device when it was opened and its backend
-- set up; it joins the list. A device that was made, kept or not, has taken its number.
abbrev pub with_gpu : Option Device → Session → Session
with_gpu none s = record s { next_id = suc s.next_id }
with_gpu (some d) s = record s { devices = s.devices ++ (d ∷ []); next_id = suc s.next_id }

abbrev pub dispatch_unknown : (ℕ → Option Device) → Action → ℕ → Session → Session
dispatch_unknown gpu add devnode s = with_gpu (gpu devnode) (call (asks_new_gpu devnode) s)
dispatch_unknown gpu change devnode s = s
dispatch_unknown gpu remove devnode s = s
dispatch_unknown gpu other devnode s = s

abbrev pub dispatch_on : (ℕ → Option Device) → Option Device → Action → ℕ → Udev → Session → Session
dispatch_on gpu none a devnode u s = dispatch_unknown gpu a devnode s
dispatch_on gpu (some d) a devnode u s = dispatch_known a devnode u d s

abbrev pub dispatch_card : (ℕ → Option Device) → Option Action → Option ℕ → Udev → Session → Session
dispatch_card gpu none devnode u s = s
dispatch_card gpu (some a) none u s = s
dispatch_card gpu (some a) (some devnode) u s =
    dispatch_on gpu (find_dev u.devnum s.devices) a devnode u s

-- dispatchUdevEvents, for the device that the monitor has; the parameter gives what fromGpu makes
-- of a devnode.
unfoldable pub dispatch_udev : (ℕ → Option Device) → Udev → Session → Session
dispatch_udev gpu u s =
    if is_drm_card u.sysname then dispatch_card gpu u.action u.devnode u s else s
