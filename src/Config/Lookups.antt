-- ===== src/Config/Lookups.antt =====
-- The methods of `Recipe` in python_detector/config/schema_types.py. A set is a list with each item once.
use seat_surface_aoi.Prelude.{
  String, Bool, true, false, not, ◌&&◌, ◌||◌, Option, none, some, List, [], ◌∷◌, map, any, str_eq,
  if◌then◌else◌,
}
use seat_surface_aoi.Prelude.Dict.{get, string_key, pair_key}
use seat_surface_aoi.Prelude.Sets.{from_keys}
use seat_surface_aoi.Prelude.Text.{append}
use seat_surface_aoi.Config.{CameraRecipe, Recipe}

-- `a or b` on texts, and on a text that may be absent.
abbrev pub text_or : String → String → String
text_or a b = if str_eq a "" then b else a

abbrev pub label_of : Option String → String → String
label_of none camera_id = camera_id
label_of (some pose_id) camera_id = text_or pose_id camera_id

abbrev pub is_some : {A : Type 0} → Option A → Bool
is_some none = false
is_some (some a) = true

-- The first camera that passes a test.
unfoldable pub find_camera : (CameraRecipe → Bool) → List CameraRecipe → Option CameraRecipe
find_camera p [] = none
find_camera p (k ∷ ks) = if p k then some k else find_camera p ks

abbrev pub exact_view : String → String → CameraRecipe → Bool
exact_view camera_id pose_label k =
    str_eq k.camera_id camera_id && str_eq (text_or k.pose_id k.camera_id) pose_label

abbrev pub default_view : String → CameraRecipe → Bool
default_view camera_id k =
    str_eq k.camera_id camera_id && (str_eq k.pose_id "" || str_eq k.pose_id camera_id)

-- `a if a is not None else …`
unfoldable pub first_or : Option CameraRecipe → Option CameraRecipe → Option CameraRecipe
first_or (some k) later = some k
first_or none later = later

-- The model of a region of interest, and the one of its safety net if there is one.
unfoldable pub key_in : Option CameraRecipe → String → String
key_in none roi_name = "default"
key_in (some k) roi_name = elim (get k.roi_models roi_name) [ some key ↦ key | none ↦ k.model_key ]

unfoldable pub net_keys_in : Option CameraRecipe → String → List String
net_keys_in none roi_name = []
net_keys_in (some k) roi_name = elim (get k.roi_safety_net_models roi_name) [
  | some key ↦ key ∷ []
  | none ↦ elim k.safety_net_model_key [ some key ↦ key ∷ [] | none ↦ [] ]
]

module _ {F : Type 0} (recipe : Recipe F) where
  -- Recipe.exact_camera
  unfoldable pub exact_camera : String → Option String → Option CameraRecipe
  unfolding find_camera
  exact_camera camera_id pose_id =
      find_camera (exact_view camera_id (label_of pose_id camera_id)) recipe.cameras

  -- Recipe.default_camera
  unfoldable pub default_camera : String → Option CameraRecipe
  unfolding find_camera
  default_camera camera_id = find_camera (default_view camera_id) recipe.cameras

  -- Recipe.has_explicit_camera_poses
  unfoldable pub has_explicit_camera_poses : String → Bool
  has_explicit_camera_poses camera_id =
      any
        (λ k.
          str_eq k.camera_id camera_id && not (str_eq k.pose_id "" || str_eq k.pose_id k.camera_id))
        recipe.cameras

  -- Recipe.default_camera_accepts_dynamic_pose
  unfoldable pub default_camera_accepts_dynamic_pose : String → Bool
  unfolding default_camera has_explicit_camera_poses
  default_camera_accepts_dynamic_pose camera_id =
      is_some (default_camera camera_id) && not (has_explicit_camera_poses camera_id)

  -- Recipe.camera
  unfoldable pub camera : String → Option String → Option CameraRecipe
  unfolding exact_camera default_camera default_camera_accepts_dynamic_pose first_or
  camera camera_id pose_id = first_or (exact_camera camera_id pose_id) (
      if str_eq (label_of pose_id camera_id) camera_id
        || default_camera_accepts_dynamic_pose camera_id
      then default_camera camera_id
      else none)

  -- Recipe.accepts_camera_pose
  unfoldable pub accepts_camera_pose : String → Option String → Bool
  unfolding exact_camera default_camera_accepts_dynamic_pose
  accepts_camera_pose camera_id pose_id =
      if is_some (exact_camera camera_id pose_id)
      then true
      else default_camera_accepts_dynamic_pose camera_id

  -- Recipe.configured_view_keys, and required_view_keys
  unfoldable pub configured_view_keys : List (String × String)
  configured_view_keys =
      from_keys [] (map (λ k. (k.camera_id, text_or k.pose_id k.camera_id)) recipe.cameras)

  -- Recipe.pose_uses_default_camera
  unfoldable pub pose_uses_default_camera : String → Option String → Bool
  unfolding exact_camera default_camera_accepts_dynamic_pose
  pose_uses_default_camera camera_id pose_id =
      let pose_label = label_of pose_id camera_id in
      not (str_eq pose_label camera_id)
      && not (is_some (exact_camera camera_id (some pose_label)))
      && default_camera_accepts_dynamic_pose camera_id

  -- Recipe.model_key_for
  unfoldable pub model_key_for : String → String → Option String → String
  unfolding camera key_in
  model_key_for camera_id roi_name pose_id = key_in (camera camera_id pose_id) roi_name

  -- Recipe.safety_net_model_keys_for
  unfoldable pub safety_net_model_keys_for : String → String → Option String → List String
  unfolding camera net_keys_in
  safety_net_model_keys_for camera_id roi_name pose_id =
      net_keys_in (camera camera_id pose_id) roi_name

  -- Recipe.semantic_light_id
  unfoldable pub semantic_light_id : String → String
  semantic_light_id semantic_light =
      elim (get recipe.v4_lights.semantic_to_light_id semantic_light) [
        | some light_id ↦ light_id
        | none ↦ semantic_light
      ]

  -- Recipe.camera_label
  unfoldable pub camera_label : String → Option String → String
  camera_label camera_id pose_id =
      let pose_label = label_of pose_id camera_id in
      if str_eq pose_label camera_id then camera_id else append camera_id (append "/" pose_label)
