-- ===== src/Output.antt =====
-- The pending state of an output: COutputState of src/output/Output.cpp and
-- include/aquamarine/output/Output.hpp. Regions, colour matrices and HDR metadata come from other
-- libraries and are type parameters; `committed` is given by its bits.
pub mod History
mod Tests
use aquamarine.Common.{
  ℕ, zero, suc, Bool, true, false, ◌||◌, Option, none, some, List, [], ◌∷◌, ◌==◌,
}
use aquamarine.Common.Int.{ℤ, negsuc}

-- `eOutputStateProperties`
pub data Flag : Type 0 where
  damage_flag enabled_flag adaptive_sync_flag presentation_mode_flag : Flag
  gamma_lut_flag mode_flag format_flag buffer_flag : Flag
  explicit_in_fence_flag explicit_out_fence_flag ctm_flag hdr_flag : Flag
  degamma_lut_flag wcg_flag cursor_shape_flag cursor_pos_flag : Flag

-- the `i` of `1 << i`
abbrev pub bit : Flag → ℕ
bit damage_flag = 0
bit enabled_flag = 1
bit adaptive_sync_flag = 2
bit presentation_mode_flag = 3
bit gamma_lut_flag = 4
bit mode_flag = 5
bit format_flag = 6
bit buffer_flag = 7
bit explicit_in_fence_flag = 8
bit explicit_out_fence_flag = 9
bit ctm_flag = 10
bit hdr_flag = 11
bit degamma_lut_flag = 12
bit wcg_flag = 13
bit cursor_shape_flag = 14
bit cursor_pos_flag = 15

-- `committed`, bit by bit, and `committed |= f`
abbrev pub Flags : Type 0
Flags = Flag → Bool

abbrev pub no_flags : Flags
no_flags g = false

abbrev pub with_flag : Flag → Flags → Flags
with_flag f c g = bit f == bit g || c g

pub data PresentationMode : Type 0 where
  vsync immediate : PresentationMode

-- `SOutputMode`; `mode_info` is the number of a `drmModeModeInfo`, none for a mode that is not the
-- kernel's
pub record Mode : Type 0 where
  pub width : ℕ
  pub height : ℕ
  pub refresh_rate : ℕ
  pub preferred : Bool
  pub mode_info : Option ℕ

-- `SInternalState`; a buffer is a number, and `mode` is none when its weak pointer is empty.
pub record State (R M H : Type 0) : Type 0 where
  pub committed : Flags
  pub damage : R
  pub enabled : Bool
  pub adaptive_sync : Bool
  pub presentation_mode : PresentationMode
  pub gamma_lut : List ℕ
  pub degamma_lut : List ℕ
  pub mode : Option Mode
  pub custom_mode : Option Mode
  pub drm_format : ℕ
  pub buffer : Option ℕ
  pub explicit_in_fence : ℤ
  pub explicit_out_fence : ℤ
  pub ctm : M
  pub wide_color_gamut : Bool
  pub hdr_metadata : H
  pub content_type : ℕ

-- The calls that change the state; `add_damage` has the damage with the region added.
pub data Setter (R M H : Type 0) : Type 0 where
  add_damage : (R → R) → Setter R M H
  clear_damage : R → Setter R M H
  set_enabled : Bool → Setter R M H
  set_adaptive_sync : Bool → Setter R M H
  set_presentation_mode : PresentationMode → Setter R M H
  set_gamma_lut : List ℕ → Setter R M H
  set_degamma_lut : List ℕ → Setter R M H
  set_mode : Option Mode → Setter R M H
  set_custom_mode : Option Mode → Setter R M H
  set_format : ℕ → Setter R M H
  set_buffer : Option ℕ → Setter R M H
  set_explicit_in_fence : ℤ → Setter R M H
  enable_explicit_out_fence : Setter R M H
  reset_explicit_fences : Setter R M H
  set_ctm : M → Setter R M H
  set_wide_color_gamut : Bool → Setter R M H
  set_hdr_metadata : H → Setter R M H
  set_content_type : ℕ → Setter R M H

module _ {R M H : Type 0} where
  -- `committed |= f`
  abbrev pub commits : Flag → State R M H → State R M H
  commits f s = record s { committed = with_flag f s.committed }

  unfoldable pub apply : State R M H → Setter R M H → State R M H
  apply s (add_damage add) = commits damage_flag (record s { damage = add s.damage })
  apply s (clear_damage none_left) = commits damage_flag (record s { damage = none_left })
  apply s (set_enabled on) = commits enabled_flag (record s { enabled = on })
  apply s (set_adaptive_sync on) = commits adaptive_sync_flag (record s { adaptive_sync = on })
  apply s (set_presentation_mode m) =
      commits presentation_mode_flag (record s { presentation_mode = m })
  apply s (set_gamma_lut lut) = commits gamma_lut_flag (record s { gamma_lut = lut })
  apply s (set_degamma_lut lut) = commits degamma_lut_flag (record s { degamma_lut = lut })
  apply s (set_mode m) = commits mode_flag (record s { mode = m; custom_mode = none })
  apply s (set_custom_mode m) = commits mode_flag (record s { mode = none; custom_mode = m })
  apply s (set_format f) = commits format_flag (record s { drm_format = f })
  apply s (set_buffer b) = commits buffer_flag (record s { buffer = b })
  apply s (set_explicit_in_fence fd) =
      commits explicit_in_fence_flag (record s { explicit_in_fence = fd })
  apply s enable_explicit_out_fence = commits explicit_out_fence_flag s
  apply s reset_explicit_fences = record s {
    explicit_in_fence = negsuc 0;
    explicit_out_fence = negsuc 0;
  }
  apply s (set_ctm m) = commits ctm_flag (record s { ctm = m })
  apply s (set_wide_color_gamut on) = commits wcg_flag (record s { wide_color_gamut = on })
  apply s (set_hdr_metadata h) = commits hdr_flag (record s { hdr_metadata = h })
  apply s (set_content_type t) = record s { content_type = t }

  -- `onCommit`; `none_left` is the region after `clear()`
  unfoldable pub on_commit : R → State R M H → State R M H
  on_commit none_left s = record s { committed = no_flags; damage = none_left }

  pub apply_all : State R M H → List (Setter R M H) → State R M H
  unfolding apply
  apply_all s [] = s
  apply_all s (c ∷ cs) = apply_all (apply s c) cs
