-- ===== src/Config/Validators.antt =====
-- The checks of a whole recipe in python_detector/config/schema_validators.py.
use seat_surface_aoi.Prelude.{
  String, Bool, true, not, ◌&&◌, ◌||◌, Option, none, some, List, [], ◌∷◌, str_eq, is_empty, all,
  if◌then◌else◌,
}
use seat_surface_aoi.Prelude.Dict.{Dict, get, string_key, pair_key}
use seat_surface_aoi.Prelude.Sets.{contains}
use seat_surface_aoi.Prelude.Result.{done, raised}
use seat_surface_aoi.Config.{
  V4LightConfig, RoiLocatorConfig, RegistrationConfig, CameraRecipe, ModelConfig, Recipe,
}
use seat_surface_aoi.Config.Values.{
  Checked, ◌>>◌, require, duplicated, empty_light_order, duplicate_light, light_not_in_order,
  missing_model_path, light_not_required, duplicate_view, missing_required_light, unknown_model,
  wrong_role, missing_memory_bank, missing_embedding, bad_spatial_embedding, missing_spatial_layers,
  no_camera,
}

-- A loop that only checks.
unfoldable pub for_each {ℓ} : {A : Type ℓ} → (A → Checked (Unit {0})) → List A → Checked (Unit {0})
for_each check [] = done tt
for_each check (x ∷ xs) = check x >> for_each check xs

-- _validate_lights
unfoldable pub validate_lights : List String → List String → Checked (Unit {0})
unfolding require duplicated
validate_lights light_order required_lights =
    require (not (is_empty light_order)) empty_light_order
    >> require (not (duplicated light_order)) duplicate_light
    >> require (all (contains light_order) required_lights) light_not_in_order

-- _validate_v4_lights
unfoldable pub validate_v4_lights : List String → V4LightConfig → Checked (Unit {0})
unfolding for_each require
validate_v4_lights light_order v4_lights =
    for_each (λ entry. require (contains light_order entry.1) light_not_in_order)
      v4_lights.semantic_to_light_id

-- d.get(k, k)
unfoldable pub mapped_light : Dict String String → String → String
mapped_light d k = elim (get d k) [ some v ↦ v | none ↦ k ]

abbrev pub is_unset_text : Option String → Bool
is_unset_text none = true
is_unset_text (some s) = str_eq s ""

-- The body of the loop of _validate_registration_lights.
unfoldable pub validate_base_light : List String → List String → String → Checked (Unit {0})
unfolding require
validate_base_light light_order required_lights light_id =
    require (contains light_order light_id) light_not_in_order
    >> require (contains required_lights light_id) light_not_required

module _ {F : Type 0} where
  -- _validate_roi_locator_light
  unfoldable pub validate_roi_locator_light :
      V4LightConfig → RoiLocatorConfig F → List String → Checked (Unit {0})
  unfolding require mapped_light
  validate_roi_locator_light v4_lights roi_locator light_order =
      require
        (contains light_order
          (mapped_light v4_lights.semantic_to_light_id roi_locator.dome_semantic_light))
        light_not_in_order
      >> require
          (not (
            contains ("fake_yolo" ∷ "onnx_yolo" ∷ "onnx_yolo_seg" ∷ []) roi_locator.backend
            && is_unset_text roi_locator.model_path))
          missing_model_path

  -- _validate_registration_lights
  unfoldable pub validate_registration_lights :
      List String → List String → RegistrationConfig F → Checked (Unit {0})
  unfolding validate_base_light
  validate_registration_lights light_order required_lights registration =
      validate_base_light light_order required_lights registration.base_light_id
      >> validate_base_light light_order required_lights registration.base_light_fallback

  -- The checks of one camera in _validate_camera_lights.
  unfoldable pub validate_camera :
      List String → RegistrationConfig F → CameraRecipe → Checked (Unit {0})
  unfolding require
  validate_camera required_lights registration camera =
      require (all (contains camera.light_order) required_lights) missing_required_light
      >> require (contains camera.light_order camera.base_light_id) light_not_in_order
      >> require (contains required_lights camera.base_light_id) light_not_required
      >> require (contains camera.light_order registration.base_light_fallback) light_not_in_order

  -- _validate_camera_lights, with the views seen so far.
  unfoldable pub validate_camera_lights :
      List (String × String)
      → List CameraRecipe
      → List String
      → RegistrationConfig F
      → Checked (Unit {0})
  unfolding validate_camera require
  validate_camera_lights seen [] required_lights registration = done tt
  validate_camera_lights seen (camera ∷ cameras) required_lights registration =
      require (not (contains seen (camera.camera_id, camera.pose_id))) duplicate_view
      >> validate_camera required_lights registration camera
      >> validate_camera_lights ((camera.camera_id, camera.pose_id) ∷ seen) cameras required_lights
          registration

  -- _validate_model_ref
  unfoldable pub validate_found_model : Option (ModelConfig F) → String → Checked (Unit {0})
  unfolding require
  validate_found_model none role = raised unknown_model
  validate_found_model (some model) role = require (str_eq model.role role) wrong_role

  unfoldable pub validate_model_ref :
      Dict String (ModelConfig F) → String → String → Checked (Unit {0})
  unfolding validate_found_model
  validate_model_ref models role model_key = validate_found_model (get models model_key) role

  unfoldable pub validate_optional_ref :
      Dict String (ModelConfig F) → String → Option String → Checked (Unit {0})
  unfolding validate_model_ref
  validate_optional_ref models role none = done tt
  validate_optional_ref models role (some model_key) = validate_model_ref models role model_key

  -- The body of the loop of _validate_model_refs.
  unfoldable pub validate_camera_models :
      Dict String (ModelConfig F) → CameraRecipe → Checked (Unit {0})
  unfolding validate_model_ref validate_optional_ref for_each
  validate_camera_models models camera =
      validate_model_ref models "primary" camera.model_key
      >> validate_optional_ref models "safety_net" camera.safety_net_model_key
      >> for_each (λ entry. validate_model_ref models "primary" entry.1) camera.roi_models
      >> for_each (λ entry. validate_model_ref models "safety_net" entry.1)
          camera.roi_safety_net_models

  -- _validate_model_refs
  unfoldable pub validate_model_refs :
      List CameraRecipe → Dict String (ModelConfig F) → Checked (Unit {0})
  unfolding validate_camera_models for_each
  validate_model_refs cameras models = for_each (validate_camera_models models) cameras

  -- The body of the loop of _validate_model_configs.
  unfoldable pub validate_model_config : ModelConfig F → Checked (Unit {0})
  unfolding require
  validate_model_config model =
      if str_eq model.backend "patchcore_knn"
      then (require (not (is_unset_text model.memory_bank_path)) missing_memory_bank
          >> require (not (str_eq model.embedding_backend "none")) missing_embedding
          >> require (not model.spatial_mode || str_eq model.embedding_backend "onnx_wideresnet50")
              bad_spatial_embedding
          >> require (not model.spatial_mode || not (is_empty model.spatial_layers))
              missing_spatial_layers)
      else done tt

  -- _validate_model_configs
  unfoldable pub validate_model_configs : Dict String (ModelConfig F) → Checked (Unit {0})
  unfolding validate_model_config for_each
  validate_model_configs models = for_each (λ entry. validate_model_config entry.1) models

  -- The checks at the end of `recipe_from_dict`.
  unfoldable pub validate_recipe : Recipe F → Checked (Unit {0})
  unfolding validate_lights validate_v4_lights validate_roi_locator_light
      validate_registration_lights validate_camera_lights validate_model_refs validate_model_configs
      require
  validate_recipe recipe =
      validate_lights recipe.light_order recipe.quality.required_lights
      >> validate_v4_lights recipe.light_order recipe.v4_lights
      >> validate_roi_locator_light recipe.v4_lights recipe.roi_locator recipe.light_order
      >> validate_registration_lights recipe.light_order recipe.quality.required_lights
          recipe.registration
      >> validate_camera_lights [] recipe.cameras recipe.quality.required_lights recipe.registration
      >> validate_model_refs recipe.cameras recipe.models
      >> validate_model_configs recipe.models
      >> require (not (is_empty recipe.cameras)) no_camera
