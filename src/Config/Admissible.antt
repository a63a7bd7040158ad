-- ===== src/Config/Admissible.antt =====
-- The recipes that validate_recipe accepts: the checks of schema_validators.py on the region locator, the
-- registration and the models, and then all checks together.
use seat_surface_aoi.Prelude.{
  ◌≡◌, ◌≢◌, ◌↔◌, refl, String, Bool, true, false, not, ◌&&◌, ◌||◌, Option, none, some, List, [],
  ◌∷◌, str_eq, eq_iff, arith, All, if◌then◌else◌,
}
use seat_surface_aoi.Prelude.Dict.{Dict, get, string_key}
use seat_surface_aoi.Prelude.Sets.{contains, contains_iff, In}
use seat_surface_aoi.Prelude.Result.{done}
use seat_surface_aoi.Config.{
  V4LightConfig, RoiLocatorConfig, RegistrationConfig, CameraRecipe, ModelConfig, Recipe,
}
use seat_surface_aoi.Config.Values.{Checked}
use seat_surface_aoi.Config.Validators.{
  mapped_light, is_unset_text, validate_roi_locator_light, validate_registration_lights,
  validate_model_ref, validate_optional_ref, validate_camera_models, validate_model_refs,
  validate_model_config, validate_model_configs, validate_recipe,
}
use seat_surface_aoi.Config.Wellformed.{
  Passes, chain_iff, check_iff, for_each_iff, not_empty_iff, IsLightOrder, validate_lights_iff,
  validate_v4_lights_iff, IsBaseLight, validate_base_light_iff, AreCameras,
  validate_camera_lights_iff, Refers, found_iff,
}

-- A text that is given and not empty.
abbrev pub IsGiven : Option String → Type 0
IsGiven none = ⊥
IsGiven (some s) = s ≢ ""

is_unset_iff : (o : Option String) → (is_unset_text o ≡ false) ↔ IsGiven o
is_unset_iff none = (λ h. cc, λ h. elim h [ ])
is_unset_iff (some s) = ground (arith, eq_iff s "")

-- A check that is made where a condition holds.
implies_iff :
    {A B : Type 0} (a b : Bool) → (a ≡ true) ↔ A → (b ≡ true) ↔ B → ((not a || b) ≡ true) ↔ (A → B)
implies_iff true b f g = (λ h x. g.0 h, λ h. g.1 (h (f.0 refl)))
implies_iff false b f g = (λ h x. cc (f.1 x), λ h. refl)

not_iff : {A : Type 0} (b : Bool) → (b ≡ false) ↔ A → (not b ≡ true) ↔ A
not_iff true f = (λ h. cc, λ a. cc (f.1 a))
not_iff false f = (λ h. f.0 refl, λ a. refl)

differs_iff : (s t : String) → (not (str_eq s t) ≡ true) ↔ (s ≢ t)
differs_iff s t = ground (arith, eq_iff s t)

module _ {F : Type 0} where
  -- The dome light stands in the order, and a backend with a network has a path of its model.
  abbrev pub IsLocator : V4LightConfig → RoiLocatorConfig F → List String → Type 0
  IsLocator v4 locator order =
      In (mapped_light v4.semantic_to_light_id locator.dome_semantic_light) order
      × (In locator.backend ("fake_yolo" ∷ "onnx_yolo" ∷ "onnx_yolo_seg" ∷ [])
          → IsGiven locator.model_path)

  validate_roi_locator_light_iff :
      (v4 : V4LightConfig) (locator : RoiLocatorConfig F) (order : List String)
      → Passes (validate_roi_locator_light v4 locator order) ↔ IsLocator v4 locator order
  unfolding validate_roi_locator_light
  validate_roi_locator_light_iff v4 locator order =
      chain_iff _ _ (check_iff _ _ (contains_iff order _)) (
        check_iff _ _ (
          both (contains ("fake_yolo" ∷ "onnx_yolo" ∷ "onnx_yolo_seg" ∷ []) locator.backend)
            (is_unset_text locator.model_path)
            (contains_iff ("fake_yolo" ∷ "onnx_yolo" ∷ "onnx_yolo_seg" ∷ []) locator.backend)
            (is_unset_iff locator.model_path)))
    where
      both :
          {A B : Type 0} (a b : Bool)
          → (a ≡ true) ↔ A
          → (b ≡ false) ↔ B
          → (not (a && b) ≡ true) ↔ (A → B)
      both true b f g = (λ h x. (not_iff b g).0 h, λ h. (not_iff b g).1 (h (f.0 refl)))
      both false b f g = (λ h x. cc (f.1 x), λ h. refl)

  abbrev pub AreBaseLights : List String → List String → RegistrationConfig F → Type 0
  AreBaseLights order required registration =
      IsBaseLight order required registration.base_light_id
      × IsBaseLight order required registration.base_light_fallback

  validate_registration_lights_iff :
      (order required : List String) (registration : RegistrationConfig F)
      → Passes (validate_registration_lights order required registration)
        ↔ AreBaseLights order required registration
  unfolding validate_registration_lights
  validate_registration_lights_iff order required registration =
      chain_iff _ _ (validate_base_light_iff order required registration.base_light_id)
        (validate_base_light_iff order required registration.base_light_fallback)

  abbrev pub RefersOptional : Dict String (ModelConfig F) → String → Option String → Type 0
  RefersOptional models role none = Unit
  RefersOptional models role (some key) = Refers models role key

  ref_iff :
      (models : Dict String (ModelConfig F)) (role key : String)
      → Passes (validate_model_ref models role key) ↔ Refers models role key
  unfolding validate_model_ref
  ref_iff models role key = found_iff (get models key) role

  optional_ref_iff :
      (models : Dict String (ModelConfig F)) (role : String) (key : Option String)
      → Passes (validate_optional_ref models role key) ↔ RefersOptional models role key
  unfolding validate_optional_ref
  optional_ref_iff models role none = (λ h. tt, λ h. refl)
  optional_ref_iff models role (some key) = ref_iff models role key

  -- Every model that a camera names is there, in the role it is named for.
  abbrev pub HasModels : Dict String (ModelConfig F) → CameraRecipe → Type 0
  HasModels models camera =
      Refers models "primary" camera.model_key
      × (RefersOptional models "safety_net" camera.safety_net_model_key
          × (All (λ e. Refers models "primary" e.1) camera.roi_models
              × All (λ e. Refers models "safety_net" e.1) camera.roi_safety_net_models))

  validate_camera_models_iff :
      (models : Dict String (ModelConfig F)) (camera : CameraRecipe)
      → Passes (validate_camera_models models camera) ↔ HasModels models camera
  unfolding validate_camera_models
  validate_camera_models_iff models camera =
      chain_iff _ _ (ref_iff models "primary" camera.model_key) (
        chain_iff _ _ (optional_ref_iff models "safety_net" camera.safety_net_model_key) (
          chain_iff _ _ (for_each_iff _ _ camera.roi_models (λ e. ref_iff models "primary" e.1))
            (for_each_iff _ _ camera.roi_safety_net_models (λ e. ref_iff models "safety_net" e.1))))

  -- What a model of the nearest-neighbour backend is given.
  abbrev pub IsPatchcore : ModelConfig F → Type 0
  IsPatchcore model =
      IsGiven model.memory_bank_path
      × ((model.embedding_backend ≢ "none")
          × ((model.spatial_mode ≡ true → model.embedding_backend ≡ "onnx_wideresnet50")
              × (model.spatial_mode ≡ true → model.spatial_layers ≢ [])))

  abbrev pub IsConfigured : ModelConfig F → Type 0
  IsConfigured model = model.backend ≡ "patchcore_knn" → IsPatchcore model

  validate_model_config_iff :
      (model : ModelConfig F) → Passes (validate_model_config model) ↔ IsConfigured model
  unfolding validate_model_config
  validate_model_config_iff model =
      guarded (str_eq model.backend "patchcore_knn") _ (eq_iff model.backend "patchcore_knn") (
        chain_iff _ _ (check_iff _ _ (not_iff _ (is_unset_iff model.memory_bank_path))) (
          chain_iff _ _ (check_iff _ _ (differs_iff model.embedding_backend "none")) (
            chain_iff _ _
              (check_iff _ _ (
                implies_iff model.spatial_mode _ (λ h. h, λ h. h)
                  (eq_iff model.embedding_backend "onnx_wideresnet50")))
              (check_iff _ _ (
                implies_iff model.spatial_mode _ (λ h. h, λ h. h)
                  (not_empty_iff model.spatial_layers))))))
    where
      guarded :
          {A B : Type 0} (a : Bool) (m : Checked (Unit {0}))
          → (a ≡ true) ↔ A
          → Passes m ↔ B
          → Passes (if a then m else done tt) ↔ (A → B)
      guarded true m f g = (λ h x. g.0 h, λ h. g.1 (h (f.0 refl)))
      guarded false m f g = (λ h x. cc (f.1 x), λ h. refl)

  -- A recipe that the pipeline may run with.
  abbrev pub IsAdmissible : Recipe F → Type 0
  IsAdmissible r =
      IsLightOrder r.light_order r.quality.required_lights
      × (All (λ e. In e.1 r.light_order) r.v4_lights.semantic_to_light_id
          × (IsLocator r.v4_lights r.roi_locator r.light_order
              × (AreBaseLights r.light_order r.quality.required_lights r.registration
                  × (AreCameras [] r.cameras r.quality.required_lights r.registration
                      × (All (HasModels r.models) r.cameras
                          × (All (λ e. IsConfigured e.1) r.models × (r.cameras ≢ [])))))))

  -- The checks at the end of recipe_from_dict accept exactly the admissible recipes: lights that are
  -- distinct and in the order, base lights that are required, views that are distinct, models that are
  -- there in the role they are named for, and at least one camera.
  pub validate_recipe_iff : (r : Recipe F) → Passes (validate_recipe r) ↔ IsAdmissible r
  unfolding validate_recipe validate_model_refs validate_model_configs
  validate_recipe_iff r =
      let required = r.quality.required_lights in
      chain_iff _ _ (validate_lights_iff r.light_order required) (
        chain_iff _ _ (validate_v4_lights_iff r.light_order r.v4_lights) (
          chain_iff _ _ (validate_roi_locator_light_iff r.v4_lights r.roi_locator r.light_order) (
            chain_iff _ _ (validate_registration_lights_iff r.light_order required r.registration) (
              chain_iff _ _ (validate_camera_lights_iff [] r.cameras required r.registration) (
                chain_iff _ _ (for_each_iff _ _ r.cameras (validate_camera_models_iff r.models)) (
                  chain_iff _ _ (for_each_iff _ _ r.models (λ e. validate_model_config_iff e.1))
                    (check_iff _ _ (not_empty_iff r.cameras))))))))
