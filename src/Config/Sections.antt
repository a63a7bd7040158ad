-- ===== src/Config/Sections.antt =====
-- The sections of a recipe in python_detector/config/recipe_schema.py, each read from its dictionary. The
-- fields are read in the order of the source, so that the first error is the one it raises.
use seat_surface_aoi.Prelude.{ℕ, String, true, not, Option, none, some, List, [], ◌∷◌}
use seat_surface_aoi.Prelude.Int.{pos, pos_part}
use seat_surface_aoi.Prelude.Dict.{Dict, put, string_key}
use seat_surface_aoi.Prelude.Result.{done, raised, ◌>>=◌}
use seat_surface_aoi.Float.{Float}
use seat_surface_aoi.Config.{V4LightConfig, QualityConfig}
use seat_surface_aoi.Config.Values.{
  Value, null, bool, int, text, list, dict, Items, nil, cons, Fields, end, field, Checked, ◌>>◌,
  require, field_of, get_field, as_text, as_dict, text_tuple, non_negative_int, literal,
  non_negative_float, as_ratio, gray_value, truth, tuple_value, bad_range, missing_field,
}

-- A tuple of texts of the source as the default of a field.
abbrev pub tuple : {F : Type 0} → List String → Value F
tuple ss = list (tuple_value ss)

abbrev pub whole : {F : Type 0} → ℕ → Value F
whole n = int (pos n)

-- `t[0]`; the tuples that it is used on were read by `_str_tuple`, which leaves none empty.
unfoldable pub first : List String → String
first [] = ""
first (s ∷ ss) = s

module _ {F : Type 0} where
  -- _dict(data.get(key, {}), key)
  unfoldable pub section : Fields F → String → Checked (Fields F)
  unfolding get_field as_dict
  section d key = as_dict (get_field d key (dict end))

  -- The light order of the first item with one.
  unfoldable pub items_light_order : Items F → Option (Value F)
  unfolding field_of
  items_light_order nil = none
  items_light_order (cons (dict raw) vs) = elim (field_of raw "light_order") [
    | some v ↦ some v
    | none ↦ items_light_order vs
  ]
  items_light_order (cons v vs) = items_light_order vs

  unfoldable pub fields_light_order : Fields F → Option (Value F)
  unfolding field_of
  fields_light_order end = none
  fields_light_order (field k (dict raw) d) = elim (field_of raw "light_order") [
    | some v ↦ some v
    | none ↦ fields_light_order d
  ]
  fields_light_order (field k v d) = fields_light_order d

  abbrev pub cameras_light_order : Option (Value F) → Option (Value F)
  cameras_light_order (some (dict d)) = fields_light_order d
  cameras_light_order (some (list vs)) = items_light_order vs
  cameras_light_order _ = none

  abbrev pub field_within : Option (Value F) → String → Option (Value F)
  field_within (some (dict d)) key = field_of d key
  field_within _ key = none

  abbrev pub given : Option (Value F) → Option (Value F)
  given (some null) = none
  given v = v

  abbrev pub or_field : Option (Value F) → Option (Value F) → Option (Value F)
  or_field (some v) w = some v
  or_field none w = w

  abbrev pub tuple_or_missing : Option (Value F) → Checked (List String)
  tuple_or_missing (some v) = text_tuple v
  tuple_or_missing none = raised missing_field

  -- _recipe_light_order_from_dict
  unfoldable pub recipe_light_order_from_dict : Fields F → Checked (List String)
  unfolding field_of text_tuple fields_light_order items_light_order
  recipe_light_order_from_dict d = tuple_or_missing (
      or_field (given (field_of d "light_order")) (
        or_field (field_within (field_of d "quality") "required_lights") (
          or_field (field_within (field_of d "camera_defaults") "light_order")
            (cameras_light_order (field_of d "cameras")))))

  -- The mapping that `_v4_lights_from_dict` builds.
  unfoldable pub semantic_lights : Fields F → Dict String String → Checked (Dict String String)
  unfolding as_text put
  semantic_lights end mapping = done mapping
  semantic_lights (field k v d) mapping = do
    semantic ← as_text k
    light_id ← as_text v
    semantic_lights d (put mapping semantic light_id)

  -- _v4_lights_from_dict
  unfoldable pub v4_lights_from_dict : Fields F → List String → Checked V4LightConfig
  unfolding get_field as_dict semantic_lights first
  v4_lights_from_dict d light_order = do
    raw ← as_dict (
        get_field d "semantic_to_light_id"
          (dict (field (text "DOME") (text (first light_order)) end)))
    mapping ← semantic_lights raw []
    done (record { semantic_to_light_id = mapping })

module _ {F : Type 0} ⦃f : Float F⦄ where
  -- _quality_from_dict
  unfoldable pub quality_from_dict : Fields F → List String → Checked (QualityConfig F)
  unfolding get_field gray_value text_tuple as_ratio non_negative_float non_negative_int truth
      require tuple_value
  quality_from_dict d default_required_lights = do
    min_mean_gray ← gray_value (get_field d "min_mean_gray" (literal 20 1))
    max_mean_gray ← gray_value (get_field d "max_mean_gray" (literal 235 1))
    require (not (f.lt max_mean_gray min_mean_gray)) bad_range
    required_lights ← text_tuple (get_field d "required_lights" (tuple default_required_lights))
    max_saturation_ratio ← as_ratio (get_field d "max_saturation_ratio" (literal 1 100))
    max_dark_ratio ← as_ratio (get_field d "max_dark_ratio" (literal 1 100))
    min_sharpness ← non_negative_float (get_field d "min_sharpness" (literal 1 1))
    min_motion_gradient ← non_negative_float (get_field d "min_motion_gradient" (literal 1 1))
    max_light_mean_delta ← non_negative_float (get_field d "max_light_mean_delta" (literal 80 1))
    max_registration_error_px ←
        non_negative_float (get_field d "max_registration_error_px" (literal 3 2))
    max_capture_span_us ← non_negative_int (get_field d "max_capture_span_us" (whole 500000))
    max_exposure_delta_us ← non_negative_int (get_field d "max_exposure_delta_us" (whole 200))
    max_gain_delta ← non_negative_float (get_field d "max_gain_delta" (literal 1 5))
    let monotonic = truth (get_field d "require_monotonic_timestamps" (bool true))
    let unique = truth (get_field d "require_unique_frame_indices" (bool true))
    max_pose_delta ← non_negative_float (get_field d "max_pose_delta" (literal 1 10000))
    done (record {
      required_lights = required_lights;
      max_saturation_ratio = max_saturation_ratio;
      max_dark_ratio = max_dark_ratio;
      min_mean_gray = min_mean_gray;
      max_mean_gray = max_mean_gray;
      min_sharpness = min_sharpness;
      min_motion_gradient = min_motion_gradient;
      max_light_mean_delta = max_light_mean_delta;
      max_registration_error_px = max_registration_error_px;
      max_capture_span_us = pos_part max_capture_span_us;
      max_exposure_delta_us = pos_part max_exposure_delta_us;
      max_gain_delta = max_gain_delta;
      require_monotonic_timestamps = monotonic;
      require_unique_frame_indices = unique;
      max_pose_delta = max_pose_delta;
    })
