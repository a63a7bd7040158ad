-- ===== src/Config/Schema.antt =====
-- Loading a recipe: `recipe_from_dict`, `load_recipe_file` and the `RecipeManager` of
-- python_detector/config/recipe_schema.py.
use seat_surface_aoi.Prelude.{String, not, none, some, List, [], ◌∷◌}
use seat_surface_aoi.Prelude.Dict.{Dict, get, put, string_key}
use seat_surface_aoi.Prelude.Result.{done, raised, ◌>>=◌}
use seat_surface_aoi.Float.{Float}
use seat_surface_aoi.Config.{
  QualityConfig, RoiLocatorConfig, RegistrationConfig, FusionConfig, CameraDefaults, CameraRecipe,
  DecisionThresholdConfig, ModelConfig, TraceConfig, Recipe,
}
use seat_surface_aoi.Config.Values.{
  Value, text, dict, Fields, end, field, Checked, ◌>>◌, Prints, require, get_field, has_field,
  required_text, as_dict, removed_field, unknown_recipe, not_recipe,
}
use seat_surface_aoi.Config.Validators.{validate_recipe}
use seat_surface_aoi.Config.Sections.{
  section, recipe_light_order_from_dict, v4_lights_from_dict, quality_from_dict,
}
use seat_surface_aoi.Config.Stages.{
  roi_locator_from_dict, registration_from_dict, fusion_from_dict, decision_threshold_from_dict,
  trace_from_dict,
}
use seat_surface_aoi.Config.Cameras.{camera_defaults_from_dict, cameras_from_dict}
use seat_surface_aoi.Config.Models.{models_from_dict}

module _ {F : Type 0} ⦃f : Float F⦄ ⦃p : Prints F⦄ where
  -- The sections from `quality` to `fusion`.
  unfoldable pub stages_from_dict :
      Fields F
      → List String
      → Checked (QualityConfig F × RoiLocatorConfig F × RegistrationConfig F × FusionConfig F)
  unfolding section quality_from_dict roi_locator_from_dict registration_from_dict fusion_from_dict
  stages_from_dict d light_order = do
    quality ← quality_from_dict (← section d "quality") light_order
    roi_locator ← roi_locator_from_dict (← section d "roi_locator")
    registration ← registration_from_dict (← section d "registration") quality.required_lights
    fusion ← fusion_from_dict (← section d "fusion")
    done (quality, roi_locator, registration, fusion)

  -- The sections of the cameras.
  unfoldable pub views_from_dict :
      Fields F → List String → String → Checked (CameraDefaults × List CameraRecipe)
  unfolding section camera_defaults_from_dict cameras_from_dict get_field
  views_from_dict d light_order base_light_id = do
    camera_defaults ←
        camera_defaults_from_dict (← section d "camera_defaults") light_order base_light_id
    cameras ← cameras_from_dict (get_field d "cameras" (dict end)) camera_defaults
    done (camera_defaults, cameras)

  -- data.get("models", {"default": {"backend": "fake"}})
  abbrev pub raw_models : Fields F → Value F
  raw_models d =
      get_field d "models"
        (dict (field (text "default") (dict (field (text "backend") (text "fake") end)) end))

  -- The sections from `decision_threshold` to `trace`.
  unfoldable pub judging_from_dict :
      Fields F
      → List String
      → Checked (DecisionThresholdConfig F × Dict String (ModelConfig F) × TraceConfig F)
  unfolding section decision_threshold_from_dict as_dict get_field models_from_dict trace_from_dict
  judging_from_dict d light_order = do
    decision_threshold ← decision_threshold_from_dict (← section d "decision_threshold")
    models ← models_from_dict (← as_dict (raw_models d)) light_order
    trace ← trace_from_dict (← section d "trace")
    done (decision_threshold, models, trace)

  -- The recipe that `recipe_from_dict` checks.
  unfoldable pub parse_recipe : Fields F → Checked (Recipe F)
  unfolding has_field require required_text recipe_light_order_from_dict section v4_lights_from_dict
      stages_from_dict views_from_dict judging_from_dict
  parse_recipe d = do
    require (not (has_field d "thresholds")) removed_field
    recipe_id ← required_text d "recipe_id"
    sku ← required_text d "sku"
    light_order ← recipe_light_order_from_dict d
    v4_lights ← v4_lights_from_dict (← section d "v4_lights") light_order
    stages ← stages_from_dict d light_order
    views ← views_from_dict d light_order (stages.2).base_light_id
    judging ← judging_from_dict d light_order
    done (record {
      recipe_id = recipe_id;
      sku = sku;
      light_order = light_order;
      v4_lights = v4_lights;
      camera_defaults = views.0;
      cameras = views.1;
      quality = stages.0;
      roi_locator = stages.1;
      registration = stages.2;
      fusion = stages.3;
      decision_threshold = judging.0;
      models = judging.1;
      trace = judging.2;
    })

  -- recipe_from_dict
  unfoldable pub recipe_from_dict : Fields F → Checked (Recipe F)
  unfolding parse_recipe validate_recipe
  recipe_from_dict d = do recipe ← parse_recipe d; validate_recipe recipe; done recipe

  -- load_recipe_file, from what the YAML parser returned
  unfoldable pub load_recipe_file : Value F → Checked (Recipe F)
  unfolding recipe_from_dict
  load_recipe_file (dict d) = recipe_from_dict d
  load_recipe_file _ = raised not_recipe

  -- RecipeManager._load_recipe_dir, with the contents of the files in the order of their names
  unfoldable pub load_recipe_dir :
      List (Value F) → Dict String (Recipe F) → Checked (Dict String (Recipe F))
  unfolding load_recipe_file put
  load_recipe_dir [] recipes = done recipes
  load_recipe_dir (v ∷ vs) recipes = do
    recipe ← load_recipe_file v
    load_recipe_dir vs (put recipes recipe.recipe_id recipe)

-- RecipeManager.load
unfoldable pub load : {F : Type 0} → Dict String (Recipe F) → String → Checked (Recipe F)
unfolding get
load recipes recipe_id = elim (get recipes recipe_id) [
  | some recipe ↦ done recipe
  | none ↦ raised unknown_recipe
]
