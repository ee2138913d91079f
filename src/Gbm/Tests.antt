-- ===== src/Gbm/Tests.antt =====
-- Runs of the model of src/allocator/GBM.cpp.
use aquamarine.Common.{
  ℕ, ◌≤◌, Bool, true, false, not, ◌&&◌, Option, none, some, List, [], ◌∷◌, ◌==◌, if◌then◌else◌, ◌≡◌,
  refl, length, All, is_empty,
}
use aquamarine.Gbm.{
  Format, make, make_old, for_multigpu, Request, plain, modifiers2, modifiers1, mod_invalid,
  mod_linear, find_format, has, clip, explicit_modifiers, guess_format, is_opaque10, is_opaque8,
  is_alpha10, is_alpha8, fourcc,
}
use aquamarine.Gbm.Modifiers.{has-asked_modifiers, lists, passes, wants_linear}
use aquamarine.Gbm.Buffers.{
  query_fds, Held, Setting, acquire, allocate, is_multigpu, asked_modifiers, clips,
}
use aquamarine.Gbm.Owned.{IsSettled, begins, ends}
use aquamarine.Gbm.Lifetime.{finish, acquire-IsSettled}
use aquamarine.Gbm.Requests.{allocate_asks, scans}

abbrev xr24 : ℕ
xr24 = fourcc b'X' b'R' b'2' b'4'

abbrev ar24 : ℕ
ar24 = fourcc b'A' b'R' b'2' b'4'

abbrev formats : List Format
formats =
    record { drm_format = ar24; modifiers = mod_linear ∷ [] }
    ∷ record { drm_format = xr24; modifiers = 7 ∷ mod_invalid ∷ 9 ∷ [] }
    ∷ []

abbrev renders : List Format
renders = record { drm_format = xr24; modifiers = 9 ∷ 7 ∷ [] } ∷ []

abbrev setting : Setting
setting = record {
  params = record {
    size = record { x = 64; y = 64 };
    format = 0;
    scanout = true;
    cursor = false;
    multigpu = false;
  };
  swapchain_output = true;
  cursor_formats = [];
  output_formats = formats;
  render_formats = [];
  renderable = renders;
  force_linear = true;
}

abbrev nothing : ℕ → Bool
nothing f = false

-- gbm takes no modifiers, and has two planes, of which the kernel gives the first only.
abbrev gbm : List Request → Request → Option ℕ
gbm asked (plain flags) = some 3
gbm asked (modifiers2 ms flags) = none
gbm asked (modifiers1 ms) = none

abbrev kernel : ℕ → ℕ → Option ℕ
kernel b i = if i == 0 then some 11 else none

abbrev held : Held
held = record { opened = []; closed = []; created = []; destroyed = []; maps = 0; unmaps = 0 }

modifiers_run : explicit_modifiers true renders xr24 formats ≡ 7 ∷ 9 ∷ []
unfolding explicit_modifiers clip find_format has
modifiers_run = refl

has-asked_modifiers_example : has 9 (asked_modifiers setting xr24) ≡ (
    if wants_linear setting
    then 9 == mod_linear
    else lists xr24 9 formats
      && passes (clips setting && not (is_empty renders)) (find_format (λ g. g == xr24) renders) 9)
has-asked_modifiers_example = has-asked_modifiers setting xr24 9

guess_run : (guess_format nothing nothing formats false true).drm_format ≡ xr24
unfolding guess_format find_format is_opaque10 is_opaque8 is_alpha10 is_alpha8
guess_run = refl

-- The buffer is handed out without its descriptors.
partial_run :
    (acquire nothing nothing gbm (λ b. 5) (λ b. 2) kernel (λ b. true) 1 setting [] held).2
    ≡ record held { opened = 11 ∷ []; closed = 11 ∷ []; created = 3 ∷ [] }
unfolding acquire guess_format find_format is_opaque10 is_opaque8 is_alpha10 is_alpha8 make_old make
    for_multigpu explicit_modifiers clip has query_fds
partial_run = refl

acquire-IsSettled_example : IsSettled held (
    finish
      (begins true ∷ ends ∷ [])
      (acquire nothing nothing gbm (λ b. 5) (λ b. 2) kernel (λ b. true) 1 setting [] held).0
      (acquire nothing nothing gbm (λ b. 5) (λ b. 2) kernel (λ b. true) 1 setting [] held).2)
acquire-IsSettled_example =
    acquire-IsSettled nothing nothing gbm (λ b. 5) (λ b. 2) kernel (λ b. true) 1 setting []
      (begins true ∷ ends ∷ []) held

allocate_asks_example :
    (length (allocate nothing nothing gbm (λ b. 5) (λ b. 2) kernel setting xr24).asked ≤ 4)
    × All
        (λ r. scans r ≡ true → (setting.params.scanout && not (is_multigpu setting)) ≡ true)
        (allocate nothing nothing gbm (λ b. 5) (λ b. 2) kernel setting xr24).asked
allocate_asks_example = allocate_asks nothing nothing gbm (λ b. 5) (λ b. 2) kernel setting xr24
