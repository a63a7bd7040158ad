-- ===== src/Config/Views.antt =====
-- The cameras that a recipe has for a view.
use seat_surface_aoi.Prelude.{
  ◌≡◌, refl, ap, ◌∙◌, String, Bool, true, false, not, ◌&&◌, ◌||◌, Option, none, some, List, [], ◌∷◌,
  map, str_eq, arith, if◌then◌else◌, eq_iff,
}
use seat_surface_aoi.Prelude.Dict.{pair_key}
use seat_surface_aoi.Prelude.Sets.{contains, contains-from_keys}
use seat_surface_aoi.Config.{CameraRecipe, Recipe}
use seat_surface_aoi.Config.Lookups.{
  text_or, label_of, is_some, find_camera, exact_view, default_view, first_or, exact_camera,
  default_camera, default_camera_accepts_dynamic_pose, configured_view_keys,
  has_explicit_camera_poses, camera, accepts_camera_pose,
}

-- For the camera's own label the exact view is the default view.
exact-default :
    (camera_id : String) (k : CameraRecipe)
    → exact_view camera_id camera_id k ≡ default_view camera_id k
exact-default camera_id k = ground (arith, eq_iff k.camera_id camera_id)

find_congr :
    (p q : CameraRecipe → Bool) (ks : List CameraRecipe)
    → ((k : CameraRecipe) → p k ≡ q k)
    → find_camera p ks ≡ find_camera q ks
unfolding find_camera
find_congr p q [] h = refl
find_congr p q (k ∷ ks) h = ground (arith, h k, find_congr p q ks h)

choice :
    (exact default : Option CameraRecipe) (own explicit : Bool)
    → (own ≡ true → exact ≡ default)
    → (if is_some exact then true else is_some default && not explicit)
      ≡ is_some
          (first_or exact (if own || (is_some default && not explicit) then default else none))
unfolding first_or
choice (some k) default own explicit h = refl
choice none none own explicit h = ground arith
choice none (some k) true explicit h = absurd (cc (h refl))
choice none (some k) false explicit h = ground arith

module _ {F : Type 0} (recipe : Recipe F) where
  -- The gate accepts a view exactly when the recipe has a camera for it: a camera with that pose, or
  -- the default camera for its own pose or for a dynamic one.
  pub accepts-camera :
      (camera_id : String) (pose_id : Option String)
      → accepts_camera_pose recipe camera_id pose_id ≡ is_some (camera recipe camera_id pose_id)
  unfolding accepts_camera_pose camera exact_camera default_camera
      default_camera_accepts_dynamic_pose first_or
  accepts-camera camera_id pose_id =
      choice (exact_camera recipe camera_id pose_id) (default_camera recipe camera_id)
        (str_eq (label_of pose_id camera_id) camera_id) (has_explicit_camera_poses recipe camera_id)
        (λ own.
          ap (λ z. find_camera (exact_view camera_id z) recipe.cameras)
            ((eq_iff (label_of pose_id camera_id) camera_id).0 own)
          ∙ find_congr (exact_view camera_id camera_id) (default_view camera_id) recipe.cameras
              (exact-default camera_id))

-- A camera stands for its own view, also where the label is written out.
own_view :
    (k : CameraRecipe) (camera_id pose_id : String)
    → k.camera_id ≡ camera_id
    → text_or k.pose_id k.camera_id ≡ pose_id
    → exact_view camera_id (text_or pose_id camera_id) k ≡ true
own_view k camera_id pose_id h e = ground (
  arith,
  eq_iff k.camera_id camera_id,
  eq_iff pose_id "",
  eq_iff k.pose_id "",
  eq_iff (text_or k.pose_id k.camera_id) (text_or pose_id camera_id),
)

found :
    (ks : List CameraRecipe) (key : String × String)
    → contains (map (λ k. (k.camera_id, text_or k.pose_id k.camera_id)) ks) key ≡ true
    → is_some (find_camera (exact_view key.0 (text_or key.1 key.0)) ks) ≡ true
unfolding find_camera contains
found [] key h = cc
found (k ∷ ks) key h = ground (
  arith,
  own_view k key.0 key.1,
  eq_iff k.camera_id key.0,
  eq_iff (text_or k.pose_id k.camera_id) key.1,
  found ks key,
)

module _ {F : Type 0} (recipe : Recipe F) where
  -- Every view that a recipe requires is one that it has a camera for.
  pub configured-camera :
      (camera_id pose_id : String)
      → contains (configured_view_keys recipe) (camera_id, pose_id) ≡ true
      → is_some (camera recipe camera_id (some pose_id)) ≡ true
  unfolding configured_view_keys camera exact_camera first_or contains
  configured-camera camera_id pose_id h = ground (
    arith,
    contains-from_keys {K = String × String} []
        (map (λ k. (k.camera_id, text_or k.pose_id k.camera_id)) recipe.cameras)
        (camera_id, pose_id),
    found recipe.cameras (camera_id, pose_id),
  )
