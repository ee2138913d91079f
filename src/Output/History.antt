-- ===== src/Output/History.antt =====
-- What a sequence of setters leaves in `committed` and in the two modes
-- (COutputState of src/output/Output.cpp).
use aquamarine.Common.{
  ℕ, ◌≡◌, refl, Bool, false, ◌||◌, ◌⊎◌, inl, inr, Option, none, some, List, [], ◌∷◌, ◌==◌, arith,
}
use aquamarine.Output.{
  Flag, bit, Mode, State, Setter, apply, apply_all, on_commit, add_damage, clear_damage,
  set_enabled, set_adaptive_sync, set_presentation_mode, set_gamma_lut, set_degamma_lut, set_mode,
  set_custom_mode, set_format, set_buffer, set_explicit_in_fence, enable_explicit_out_fence,
  reset_explicit_fences, set_ctm, set_wide_color_gamut, set_hdr_metadata, set_content_type,
  damage_flag, enabled_flag, adaptive_sync_flag, presentation_mode_flag, gamma_lut_flag, mode_flag,
  format_flag, buffer_flag, explicit_in_fence_flag, explicit_out_fence_flag, ctm_flag, hdr_flag,
  degamma_lut_flag, wcg_flag,
}

-- `a ? a : b`
abbrev pub or_else : Option Mode → Option Mode → Option Mode
or_else none b = b
or_else (some m) b = some m

abbrev pub marks : ℕ → Option Flag → Bool
marks i none = false
marks i (some g) = bit g == i

-- The property that a call sets, if it marks one: nothing for the fences' reset and the content type.
module _ {R M H : Type 0} where
  abbrev pub property_of : Setter R M H → Option Flag
  property_of (add_damage _) = some damage_flag
  property_of (clear_damage _) = some damage_flag
  property_of (set_enabled _) = some enabled_flag
  property_of (set_adaptive_sync _) = some adaptive_sync_flag
  property_of (set_presentation_mode _) = some presentation_mode_flag
  property_of (set_gamma_lut _) = some gamma_lut_flag
  property_of (set_degamma_lut _) = some degamma_lut_flag
  property_of (set_mode _) = some mode_flag
  property_of (set_custom_mode _) = some mode_flag
  property_of (set_format _) = some format_flag
  property_of (set_buffer _) = some buffer_flag
  property_of (set_explicit_in_fence _) = some explicit_in_fence_flag
  property_of enable_explicit_out_fence = some explicit_out_fence_flag
  property_of reset_explicit_fences = none
  property_of (set_ctm _) = some ctm_flag
  property_of (set_wide_color_gamut _) = some wcg_flag
  property_of (set_hdr_metadata _) = some hdr_flag
  property_of (set_content_type _) = none

  -- Some call of the sequence is for the property of bit `i`.
  abbrev pub any_marks : ℕ → List (Setter R M H) → Bool
  any_marks i [] = false
  any_marks i (c ∷ cs) = marks i (property_of c) || any_marks i cs

  apply-committed :
      (s : State R M H) (c : Setter R M H) (f : Flag)
      → (apply s c).committed f ≡ (marks (bit f) (property_of c) || s.committed f)
  unfolding apply
  apply-committed s (add_damage add) f = refl
  apply-committed s _ f = refl

  apply_all-committed :
      (s : State R M H) (cs : List (Setter R M H)) (f : Flag)
      → (apply_all s cs).committed f ≡ (any_marks (bit f) cs || s.committed f)
  unfolding apply_all
  apply_all-committed s [] f = refl
  apply_all-committed s (c ∷ cs) f =
      ground (arith, apply_all-committed (apply s c) cs f, apply-committed s c f)

  -- Since the last `onCommit` a bit of `committed` is set exactly if one of the calls made was for
  -- its property: whatever their order and number, none is lost and none is made up.
  pub on_commit-committed :
      (s : State R M H) (none_left : R) (cs : List (Setter R M H)) (f : Flag)
      → (apply_all (on_commit none_left s) cs).committed f ≡ any_marks (bit f) cs
  unfolding on_commit
  on_commit-committed s none_left cs f =
      ground (arith, apply_all-committed (on_commit none_left s) cs f)

  -- Not both modes are set.
  abbrev pub OneMode : State R M H → Type 0
  OneMode s = (s.mode ≡ none) ⊎ (s.custom_mode ≡ none)

  apply-OneMode : (s : State R M H) (c : Setter R M H) → OneMode s → OneMode (apply s c)
  unfolding apply
  apply-OneMode s (set_mode m) h = inr refl
  apply-OneMode s (set_custom_mode m) h = inl refl
  apply-OneMode s _ h = h

  -- A mode and a custom mode are never set together, so that `mode ? mode : customMode` and
  -- `customMode ? customMode : mode`, which are both in use, pick the same one.
  pub apply_all-mode :
      (s : State R M H) (cs : List (Setter R M H))
      → OneMode s
      → or_else (apply_all s cs).mode (apply_all s cs).custom_mode
        ≡ or_else (apply_all s cs).custom_mode (apply_all s cs).mode
  unfolding apply_all
  apply_all-mode s [] (inl e) = ground arith
  apply_all-mode s [] (inr e) = ground arith
  apply_all-mode s (c ∷ cs) h = apply_all-mode (apply s c) cs (apply-OneMode s c h)
