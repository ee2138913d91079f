-- ===== src/Backend.antt =====
-- `CBackend::create` and `CBackend::start` of src/backend/Backend.cpp, as built with
-- HAS_ANLAND_BACKEND. What the parts answer is given: an implementation has the result of its
-- start, and whether it has poll fds and a DRM fd.
pub mod Start
mod Tests
use aquamarine.Common.{
  ℕ, zero, suc, ◌+◌, Bool, true, false, not, ◌&&◌, ◌||◌, Option, none, some, List, [], ◌∷◌, ◌++◌,
  if◌then◌else◌,
}

-- `eBackendType`, with any other number
pub data Kind : Type 0 where
  wayland drm headless null anland unknown : Kind

pub data RequestMode : Type 0 where
  if_available mandatory fallback : RequestMode

-- `SBackendImplementationOptions`
pub record ImplOptions : Type 0 where
  pub kind : Kind
  pub mode : RequestMode

pub record Impl : Type 0 where
  pub kind : Kind
  pub starts : Bool
  pub polls : Bool
  pub has_drm_fd : Bool

-- `ready_calls` counts the implementations that were told by `onReady`.
pub record Backend : Type 0 where
  pub options : List ImplOptions
  pub impls : List Impl
  pub has_allocator : Bool
  pub ready : Bool
  pub ready_calls : ℕ

abbrev pub same_kind : Kind → Kind → Bool
same_kind wayland wayland = true
same_kind drm drm = true
same_kind headless headless = true
same_kind null null = true
same_kind anland anland = true
same_kind unknown unknown = true
same_kind _ _ = false

pub has_kind : Kind → List Impl → Bool
has_kind k [] = false
has_kind k (i ∷ is) = same_kind i.kind k || has_kind k is

-- What is made for each kind, and what CDRMBackend::attempt finds.
pub record Makers : Type 0 where
  pub make : Kind → Impl
  pub drm_impls : List Impl

-- `effectiveBackends`; `anland_env` says whether ANLAND is "1"
abbrev pub effective : Bool → List ImplOptions → List ImplOptions
effective true opts =
    record { kind = anland; mode = mandatory } ∷ record { kind = headless; mode = fallback } ∷ []
effective false opts = opts

abbrev pub added : Makers → Kind → List Impl → List Impl
added m wayland is = is ++ (m.make wayland ∷ [])
added m drm is = is ++ m.drm_impls
added m headless is = is ++ (m.make headless ∷ [])
added m null is = is ++ (m.make null ∷ [])
added m anland is = if has_kind anland is then is else is ++ (m.make anland ∷ [])
added m unknown is = is

pub add_all : Makers → List ImplOptions → List Impl → List Impl
unfolding has_kind
add_all m [] is = is
add_all m (o ∷ os) is = add_all m os (added m o.kind is)

abbrev pub or_headless : Makers → List Impl → List Impl
or_headless m [] = m.make headless ∷ []
or_headless m (i ∷ is) = i ∷ is

pub create : Makers → Bool → List ImplOptions → Option Backend
unfolding add_all
create m anland_env [] = none
create m anland_env (o ∷ os) = some (record {
  options = o ∷ os;
  impls = or_headless m (add_all m (effective anland_env (o ∷ os)) []);
  has_allocator = false;
  ready = false;
  ready_calls = 0;
})

abbrev pub is_mandatory : RequestMode → Bool
is_mandatory if_available = false
is_mandatory mandatory = true
is_mandatory fallback = false

-- `optionsForType`; the default is not mandatory
pub mode_for : Kind → List ImplOptions → RequestMode
mode_for k [] = if_available
mode_for k (o ∷ os) = let rest = mode_for k os in if same_kind o.kind k then o.mode else rest

-- The loop that starts them: how many did, or none if a mandatory one did not.
pub start_all : List ImplOptions → List Impl → ℕ → Option ℕ
unfolding mode_for
start_all opts [] n = some n
start_all opts (i ∷ is) n =
    let fails = start_all opts is n in
    let goes = start_all opts is (suc n) in
    if i.starts then goes else if is_mandatory (mode_for i.kind opts) then none else fails

abbrev pub works : Impl → Bool
works i = i.polls || same_kind i.kind null

pub erase_failed : List Impl → List Impl
erase_failed [] = []
erase_failed (i ∷ is) = let rest = erase_failed is in if works i then i ∷ rest else rest

pub find_drm : List Impl → Option Impl
find_drm [] = none
find_drm (i ∷ is) = let rest = find_drm is in if i.has_drm_fd then some i else rest

pub count_impls : List Impl → ℕ
count_impls [] = 0
count_impls (i ∷ is) = suc (count_impls is)

-- `allocates` says whether an allocator can be made for an implementation.
abbrev pub allocator_for : (Impl → Bool) → Option Impl → Bool → Bool
allocator_for allocates none has = has
allocator_for allocates (some i) has = allocates i || has

abbrev pub finish : (Impl → Bool) → Backend → Backend
finish allocates b =
    let is = erase_failed b.impls in
    record b {
      impls = is;
      has_allocator =
          (if has_kind anland is
            then b.has_allocator
            else allocator_for allocates (find_drm is) b.has_allocator);
      ready = true;
      ready_calls = b.ready_calls + count_impls is;
    }

abbrev pub concluded : (Impl → Bool) → Backend → Option ℕ → Bool × Backend
concluded allocates b none = (false, record b { impls = [] })
concluded allocates b (some zero) = (false, b)
concluded allocates b (some (suc n)) = (true, finish allocates b)

pub start : (Impl → Bool) → Backend → Bool × Backend
unfolding start_all erase_failed find_drm count_impls has_kind
start allocates b = concluded allocates b (start_all b.options b.impls 0)
