-- ===== src/Config/Cameras.antt =====
-- The cameras of a recipe in python_detector/config/recipe_schema.py.
use seat_surface_aoi.Prelude.{
  String, true, not, Option, none, some, List, [], ◌∷◌, str_eq, str_append, if◌then◌else◌,
}
use seat_surface_aoi.Prelude.Dict.{Dict, put, string_key}
use seat_surface_aoi.Prelude.Result.{done, raised, ◌>>=◌}
use seat_surface_aoi.Float.{Float}
use seat_surface_aoi.Config.{CameraDefaults, CameraRecipe}
use seat_surface_aoi.Config.Values.{
  Value, null, bool, text, list, dict, Items, nil, cons, Fields, end, field, Checked, ◌>>◌, Prints,
  get_field, as_text, optional_text, as_dict, text_tuple, truth, tuple_value, not_cameras,
}
use seat_surface_aoi.Config.Sections.{tuple}
use seat_surface_aoi.Config.Validators.{validate_lights}

-- A dictionary of the source, or an optional text, as the default of a field.
unfoldable pub dict_value : {F : Type 0} → Dict String String → Fields F
dict_value [] = end
dict_value ((k, v) ∷ d) = field (text k) (text v) (dict_value d)

unfoldable pub option_value : {F : Type 0} → Option String → Value F
option_value none = null
option_value (some s) = text s

module _ {F : Type 0} ⦃p : Prints F⦄ where
  -- str(key)
  unfoldable pub key_text : Value F → String
  key_text (text s) = s
  key_text v = p.repr v

  -- The mapping from regions to models.
  unfoldable pub roi_models_from_dict : Fields F → Dict String String → Checked (Dict String String)
  unfolding key_text as_text put
  roi_models_from_dict end models = done models
  roi_models_from_dict (field k v d) models = do
    model_key ← as_text v
    roi_models_from_dict d (put models (key_text k) model_key)

  -- _camera_defaults_from_dict
  unfoldable pub camera_defaults_from_dict :
      Fields F → List String → String → Checked CameraDefaults
  unfolding get_field text_tuple validate_lights as_text optional_text as_dict roi_models_from_dict
      tuple_value
  camera_defaults_from_dict d default_light_order default_base_light_id = do
    light_order ← text_tuple (get_field d "light_order" (tuple default_light_order))
    validate_lights light_order []
    model_key ← as_text (get_field d "model_key" (text "default"))
    safety_net_model_key ← optional_text (get_field d "safety_net_model_key" null)
    roi_template ←
        as_text (get_field d "roi_template" (text "python_detector/config/roi/default_roi.yaml"))
    calibration_id ← as_text (get_field d "calibration_id" (text "calib/simulated_v1"))
    base_light_id ← as_text (get_field d "base_light_id" (text default_base_light_id))
    raw_models ← as_dict (get_field d "roi_models" (dict end))
    roi_models ← roi_models_from_dict raw_models []
    raw_nets ← as_dict (get_field d "roi_safety_net_models" (dict end))
    roi_safety_net_models ← roi_models_from_dict raw_nets []
    done (record {
      model_key = model_key;
      safety_net_model_key = safety_net_model_key;
      roi_template = roi_template;
      calibration_id = calibration_id;
      base_light_id = base_light_id;
      light_order = light_order;
      roi_models = roi_models;
      roi_safety_net_models = roi_safety_net_models;
    })

  -- The name of a pose: the text given, or the camera.
  unfoldable pub pose_label : Value F → String → String
  pose_label (text s) camera_id = if str_eq s "" then camera_id else s
  pose_label v camera_id = camera_id

  -- The cameras of a list, each under the name of its view.
  unfoldable pub listed_cameras : Items F → Checked (List (String × Value F))
  unfolding as_dict as_text get_field pose_label
  listed_cameras nil = done []
  listed_cameras (cons item vs) = do
    raw ← as_dict item
    camera_id ← as_text (get_field raw "camera_id" null)
    rest ← listed_cameras vs
    let label = pose_label (get_field raw "pose_id" (text camera_id)) camera_id
    done ((str_append camera_id (str_append "/" label), dict raw) ∷ rest)

  unfoldable pub named_cameras : Fields F → List (String × Value F)
  unfolding key_text
  named_cameras end = []
  named_cameras (field k raw d) = (key_text k, raw) ∷ named_cameras d

  unfoldable pub camera_items : Value F → Checked (List (String × Value F))
  unfolding listed_cameras named_cameras
  camera_items (list vs) = listed_cameras vs
  camera_items (dict d) = done (named_cameras d)
  camera_items _ = raised not_cameras

  -- One camera that is enabled.
  unfoldable pub camera_from_dict : Fields F → String → CameraDefaults → Checked CameraRecipe
  unfolding get_field text_tuple validate_lights as_text optional_text as_dict roi_models_from_dict
      dict_value option_value tuple_value
  camera_from_dict raw name defaults = do
    light_order ← text_tuple (get_field raw "light_order" (tuple defaults.light_order))
    validate_lights light_order []
    camera_id ← as_text (get_field raw "camera_id" (text name))
    pose_id ← as_text (get_field raw "pose_id" (get_field raw "camera_id" (text name)))
    model_key ← as_text (get_field raw "model_key" (text defaults.model_key))
    safety_net_model_key ←
        optional_text
          (get_field raw "safety_net_model_key" (option_value defaults.safety_net_model_key))
    roi_template ← as_text (get_field raw "roi_template" (text defaults.roi_template))
    calibration_id ← as_text (get_field raw "calibration_id" (text defaults.calibration_id))
    base_light_id ← as_text (get_field raw "base_light_id" (text defaults.base_light_id))
    raw_models ← as_dict (get_field raw "roi_models" (dict (dict_value defaults.roi_models)))
    roi_models ← roi_models_from_dict raw_models []
    raw_nets ←
        as_dict
          (get_field raw "roi_safety_net_models" (dict (dict_value defaults.roi_safety_net_models)))
    roi_safety_net_models ← roi_models_from_dict raw_nets []
    done (record {
      camera_id = camera_id;
      pose_id = pose_id;
      enabled = true;
      model_key = model_key;
      safety_net_model_key = safety_net_model_key;
      roi_template = roi_template;
      calibration_id = calibration_id;
      base_light_id = base_light_id;
      light_order = light_order;
      roi_models = roi_models;
      roi_safety_net_models = roi_safety_net_models;
    })

  -- The cameras that are enabled, one after the other.
  unfoldable pub enabled_cameras :
      ⦃f : Float F⦄ → List (String × Value F) → CameraDefaults → Checked (List CameraRecipe)
  unfolding as_dict get_field truth camera_from_dict
  enabled_cameras [] defaults = done []
  enabled_cameras ((name, item) ∷ items) defaults = do
    raw ← as_dict item
    let rest = enabled_cameras items defaults
    if not (truth (get_field raw "enabled" (bool true)))
        then rest
        else do camera ← camera_from_dict raw name defaults; cameras ← rest; done (camera ∷ cameras)

  -- _cameras_from_dict
  unfoldable pub cameras_from_dict :
      ⦃f : Float F⦄ → Value F → CameraDefaults → Checked (List CameraRecipe)
  unfolding camera_items enabled_cameras
  cameras_from_dict v defaults = do items ← camera_items v; enabled_cameras items defaults
