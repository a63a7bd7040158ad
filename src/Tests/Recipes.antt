-- ===== src/Tests/Recipes.antt =====
-- Runs of the lookups of a recipe.
use seat_surface_aoi.Prelude.{◌≡◌, refl, String, true, none, some, [], ◌∷◌}
use seat_surface_aoi.Prelude.Int.{ℤ}
use seat_surface_aoi.Prelude.Dict.{pair_key}
use seat_surface_aoi.Prelude.Sets.{contains, from_keys}
use seat_surface_aoi.Config.{CameraRecipe, Recipe}
use seat_surface_aoi.Config.Lookups.{is_some, camera, accepts_camera_pose, configured_view_keys}
use seat_surface_aoi.Config.Views.{accepts-camera, configured-camera}
use seat_surface_aoi.Tests.Deciding.{recipe}

-- A camera with a default pose, and one with a pose of its own.
abbrev view : String → String → CameraRecipe
view camera_id pose_id = record {
  camera_id = camera_id;
  pose_id = pose_id;
  enabled = true;
  model_key = "default";
  safety_net_model_key = none;
  roi_template = "roi.yaml";
  calibration_id = "calib";
  base_light_id = "";
  light_order = [];
  roi_models = [];
  roi_safety_net_models = [];
}

abbrev two_views : Recipe ℤ
two_views = record recipe { cameras = view "TOP_BACK" "" ∷ view "LEFT" "P1" ∷ [] }

accepts-camera_example :
    accepts_camera_pose two_views "TOP_BACK" (some "P7")
    ≡ is_some (camera two_views "TOP_BACK" (some "P7"))
accepts-camera_example = accepts-camera two_views "TOP_BACK" (some "P7")

required : contains (configured_view_keys two_views) ("LEFT", "P1") ≡ true
unfolding contains from_keys configured_view_keys
required = refl

configured-camera_example : is_some (camera two_views "LEFT" (some "P1")) ≡ true
configured-camera_example = configured-camera two_views "LEFT" "P1" required
