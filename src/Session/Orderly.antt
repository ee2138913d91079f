-- ===== src/Session/Orderly.antt =====
-- That the events of udev and of libinput keep the list of devices of src/backend/Session.cpp in
-- order.
use aquamarine.Common.{
  ℕ, ◌≤◌, ◌<◌, Option, none, some, [], ◌∷◌, ◌==◌, ◌≡◌, refl, ◌∙◌, arith, Bool-cases, inl, inr,
}
use aquamarine.Session.{
  Device, Session, Call, adds_card, changes, removes, Udev, Action, libinput_open, dispatch_udev,
  call, change_of, dispatch_known, dispatch_on, dispatch_card, dispatch_unknown, with_gpu, find_dev,
  is_drm_card, asks_new_gpu,
}
use aquamarine.Session.Totals.{
  removed, total, count-ids-snoc, count-removed-append, count-erase_device, find_dev_listed,
  total-call,
}

-- Each device is in the list once or had one remove event, and the numbers to come are new.
pub record IsOrderly (s : Session) : Type 0 where
  pub once : (x : ℕ) → total x s ≤ 1
  pub fresh : (x : ℕ) → s.next_id ≤ x → total x s ≡ 0

abbrev pub Keeps : Session → Session → Type 0
Keeps s s' =
    IsOrderly s' × (s.next_id ≤ s'.next_id) × ((x : ℕ) → x < s.next_id → total x s' ≡ total x s)

pub same-Keeps :
    (s s' : Session)
    → s'.next_id ≡ s.next_id
    → ((x : ℕ) → total x s' ≡ total x s)
    → IsOrderly s
    → Keeps s s'
same-Keeps s s' e same o = (
  record {
    once = λ x. omega (arith, same x, o.once x);
    fresh = λ x h. omega (arith, same x, o.fresh x (omega arith));
  },
  omega arith,
  λ x h. same x,
)

pub libinput_open-Keeps :
    (d : Device) (s : Session) → d.id ≡ s.next_id → IsOrderly s → Keeps s (libinput_open d s).1
unfolding libinput_open total
libinput_open-Keeps d s new o = elim (Bool-cases (d.dev == 0)) [
  | inl none_given ↦
      rw none_given
        (record { once = o.once; fresh = λ x h. o.fresh x (omega arith) }, omega arith, λ x h. refl)
  | inr opened ↦ rw opened (
    record {
      once = λ x. ground (arith, count-ids-snoc x d s.devices, o.once x, o.fresh x);
      fresh = λ x h. ground (arith, count-ids-snoc x d s.devices, o.fresh x);
    },
    omega arith,
    λ x h. ground (arith, count-ids-snoc x d s.devices),
  )
]

-- A device that udev removes was in the list once, and goes with one event.
total-remove :
    (x : ℕ) (u : Udev) (d : Device) (p : ℕ) (s : Session)
    → IsOrderly s
    → find_dev u.devnum s.devices ≡ some d
    → total x (dispatch_known Action.remove p u d s) ≡ total x s
unfolding total removed
total-remove x u d p s o h = ground (
  arith,
  count-erase_device x d.id s.devices,
  o.once x,
  count-removed-append x s.calls (removes d.id ∷ []),
  find_dev_listed u.devnum s.devices d h,
)

total-dispatch_known :
    (a : Action) (x : ℕ) (u : Udev) (d : Device) (p : ℕ) (s : Session)
    → IsOrderly s
    → find_dev u.devnum s.devices ≡ some d
    → total x (dispatch_known a p u d s) ≡ total x s
unfolding total removed
total-dispatch_known Action.add x u d p s o h = total-call x (adds_card p) s refl
total-dispatch_known Action.change x u d p s o h = total-call x (changes d.id (change_of u)) s refl
total-dispatch_known Action.remove x u d p s o h = total-remove x u d p s o h
total-dispatch_known Action.other x u d p s o h = refl

with_gpu-Keeps :
    (g : Option Device) (s : Session)
    → ((d : Device) → g ≡ some d → d.id ≡ s.next_id)
    → IsOrderly s
    → Keeps s (with_gpu g s)
unfolding total
with_gpu-Keeps none s new o =
    (record { once = o.once; fresh = λ x h. o.fresh x (omega arith) }, omega arith, λ x h. refl)
with_gpu-Keeps (some d) s new o = (
  record {
    once = λ x. ground (arith, count-ids-snoc x d s.devices, o.once x, o.fresh x, new d refl);
    fresh = λ x h. ground (arith, count-ids-snoc x d s.devices, o.fresh x, new d refl);
  },
  omega arith,
  λ x h. ground (arith, count-ids-snoc x d s.devices, new d refl),
)

refl-Keeps : (s : Session) → IsOrderly s → Keeps s s
refl-Keeps s o = same-Keeps s s refl (λ x. refl) o

call-Keeps : (c : Call) (s : Session) → removed (c ∷ []) ≡ [] → IsOrderly s → Keeps s (call c s)
call-Keeps c s none_removed o = same-Keeps s (call c s) refl (λ x. total-call x c s none_removed) o

trans-Keeps : (s s' s'' : Session) → Keeps s s' → Keeps s' s'' → Keeps s s''
trans-Keeps s s' s'' first rest =
    (rest.0, omega (arith, first.1, rest.1), λ x h. rest.2 x (omega (arith, first.1)) ∙ first.2 x h)

dispatch_known-next_id :
    (a : Action) (p : ℕ) (u : Udev) (d : Device) (s : Session)
    → (dispatch_known a p u d s).next_id ≡ s.next_id
dispatch_known-next_id Action.add p u d s = refl
dispatch_known-next_id Action.change p u d s = refl
dispatch_known-next_id Action.remove p u d s = refl
dispatch_known-next_id Action.other p u d s = refl

module _ (gpu : ℕ → Option Device) where
  -- A device that fromGpu makes has the next number.
  abbrev IsNew : Session → Type 0
  IsNew s = (p : ℕ) (d : Device) → gpu p ≡ some d → d.id ≡ s.next_id

  dispatch_unknown-Keeps :
      (a : Action) (p : ℕ) (s : Session)
      → IsNew s
      → IsOrderly s
      → Keeps s (dispatch_unknown gpu a p s)
  unfolding removed
  dispatch_unknown-Keeps Action.add p s new o =
      let asked = call-Keeps (asks_new_gpu p) s refl o in
      trans-Keeps s (call (asks_new_gpu p) s) (with_gpu (gpu p) (call (asks_new_gpu p) s)) asked
        (with_gpu-Keeps (gpu p) (call (asks_new_gpu p) s) (new p) asked.0)
  dispatch_unknown-Keeps Action.change p s new o = refl-Keeps s o
  dispatch_unknown-Keeps Action.remove p s new o = refl-Keeps s o
  dispatch_unknown-Keeps Action.other p s new o = refl-Keeps s o

  dispatch_on-Keeps :
      (f : Option Device) (a : Action) (p : ℕ) (u : Udev) (s : Session)
      → IsNew s
      → IsOrderly s
      → find_dev u.devnum s.devices ≡ f
      → Keeps s (dispatch_on gpu f a p u s)
  dispatch_on-Keeps none a p u s new o h = dispatch_unknown-Keeps a p s new o
  dispatch_on-Keeps (some d) a p u s new o h =
      same-Keeps s (dispatch_known a p u d s) (dispatch_known-next_id a p u d s)
        (λ x. total-dispatch_known a x u d p s o h) o

  dispatch_card-Keeps :
      (a : Option Action) (p : Option ℕ) (u : Udev) (s : Session)
      → IsNew s
      → IsOrderly s
      → Keeps s (dispatch_card gpu a p u s)
  dispatch_card-Keeps none p u s new o = refl-Keeps s o
  dispatch_card-Keeps (some a) none u s new o = refl-Keeps s o
  dispatch_card-Keeps (some a) (some p) u s new o =
      dispatch_on-Keeps (find_dev u.devnum s.devices) a p u s new o refl

  pub dispatch_udev-Keeps :
      (u : Udev) (s : Session) → IsNew s → IsOrderly s → Keeps s (dispatch_udev gpu u s)
  unfolding dispatch_udev
  dispatch_udev-Keeps u s new o = elim (Bool-cases (is_drm_card u.sysname)) [
    | inl card ↦ rw card (dispatch_card-Keeps u.action u.devnode u s new o)
    | inr no_card ↦ rw no_card (refl-Keeps s o)
  ]
