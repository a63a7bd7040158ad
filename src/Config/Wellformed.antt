-- ===== src/Config/Wellformed.antt =====
-- What a recipe that passes the checks of schema_validators.py looks like.
use seat_surface_aoi.Prelude.{
  ◌≡◌, ◌≢◌, ◌↔◌, refl, String, Bool, true, false, not, Option, none, some, List, [], ◌∷◌, str_eq,
  eq_iff, is_empty, all, arith, All,
}
use seat_surface_aoi.Prelude.Dict.{Dict, get, string_key, pair_key}
use seat_surface_aoi.Prelude.Sets.{contains, contains_iff, not-contains_iff, In, Distinct}
use seat_surface_aoi.Prelude.Result.{done, raised}
use seat_surface_aoi.Config.{V4LightConfig, RegistrationConfig, CameraRecipe, ModelConfig}
use seat_surface_aoi.Config.Values.{Checked, ◌>>◌, RecipeValidationError, require, duplicated}
use seat_surface_aoi.Config.Validators.{
  for_each, validate_lights, validate_v4_lights, validate_base_light, validate_camera,
  validate_camera_lights, validate_found_model,
}

-- A check passes.
abbrev pub Passes : Checked (Unit {0}) → Type 0
Passes m = m ≡ done tt

pub require_iff : (b : Bool) (e : RecipeValidationError) → Passes (require b e) ↔ (b ≡ true)
unfolding require
require_iff true e = (λ h. refl, λ h. refl)
require_iff false e = (λ h. cc, λ h. cc)

pub >>_iff : (m k : Checked (Unit {0})) → Passes (m >> k) ↔ Passes m × Passes k
>>_iff (done tt) k = (λ h. (refl, h), λ h. h.1)
>>_iff (raised e) k = (λ h. cc, λ h. cc (h.0))

pub for_each_iff :
    {A : Type 0} (check : A → Checked (Unit {0})) (P : A → Type 0) (xs : List A)
    → ((x : A) → Passes (check x) ↔ P x)
    → Passes (for_each check xs) ↔ All P xs
unfolding for_each
for_each_iff check P [] h = (λ e. tt, λ e. refl)
for_each_iff check P (x ∷ xs) h =
    let rest = for_each_iff check P xs h in
    let both = >>_iff (check x) (for_each check xs) in
    (λ e. ((h x).0 (both.0 e).0, rest.0 (both.0 e).1), λ p. both.1 ((h x).1 p.0, rest.1 p.1))

pub not_empty_iff {ℓ} : {A : Type ℓ} (xs : List A) → (not (is_empty xs) ≡ true) ↔ (xs ≢ [])
not_empty_iff [] = (λ h. cc, λ h. absurd (h refl))
not_empty_iff (x ∷ xs) = (λ h e. cc, λ h. refl)

pub all-contains_iff :
    (order lights : List String)
    → (all (contains order) lights ≡ true) ↔ All (λ l. In l order) lights
all-contains_iff order [] = (λ h. tt, λ h. refl)
all-contains_iff order (l ∷ ls) =
    let rest = all-contains_iff order ls in
    let one = contains_iff order l in
    (
      λ h. (one.0 (ground (arith, h)), rest.0 (ground (arith, h))),
      λ h. ground (arith, one.1 h.0, rest.1 h.1),
    )

pub duplicated_iff : (ss : List String) → (not (duplicated ss) ≡ true) ↔ Distinct ss
unfolding duplicated
duplicated_iff [] = (λ h. tt, λ h. refl)
duplicated_iff (s ∷ ss) =
    let rest = duplicated_iff ss in
    let one = not-contains_iff ss s in
    (
      λ h. (one.0 (ground (arith, h)), rest.0 (ground (arith, h))),
      λ h. ground (arith, one.1 h.0, rest.1 h.1),
    )

-- A chain of checks, each with what it comes to.
pub chain_iff :
    {A B : Type 0} (m k : Checked (Unit {0}))
    → Passes m ↔ A
    → Passes k ↔ B
    → Passes (m >> k) ↔ A × B
chain_iff m k f g =
    let both = >>_iff m k in
    (λ h. (f.0 (both.0 h).0, g.0 (both.0 h).1), λ p. both.1 (f.1 p.0, g.1 p.1))

pub check_iff :
    {A : Type 0} (b : Bool) (e : RecipeValidationError) → (b ≡ true) ↔ A → Passes (require b e) ↔ A
check_iff b e f = let r = require_iff b e in (λ h. f.0 (r.0 h), λ a. r.1 (f.1 a))

-- Lights: some, no two alike, and the required ones among them.
abbrev pub IsLightOrder : List String → List String → Type 0
IsLightOrder order required = (order ≢ []) × (Distinct order × All (λ l. In l order) required)

pub validate_lights_iff :
    (order required : List String)
    → Passes (validate_lights order required) ↔ IsLightOrder order required
unfolding validate_lights
validate_lights_iff order required = chain_iff _ _ (check_iff _ _ (not_empty_iff order)) (
    chain_iff _ _ (check_iff _ _ (duplicated_iff order))
      (check_iff _ _ (all-contains_iff order required)))

pub validate_v4_lights_iff :
    (order : List String) (v4 : V4LightConfig)
    → Passes (validate_v4_lights order v4) ↔ All (λ e. In e.1 order) v4.semantic_to_light_id
unfolding validate_v4_lights
validate_v4_lights_iff order v4 =
    for_each_iff _ _ v4.semantic_to_light_id (λ e. check_iff _ _ (contains_iff order e.1))

abbrev pub IsBaseLight : List String → List String → String → Type 0
IsBaseLight order required light = In light order × In light required

pub validate_base_light_iff :
    (order required : List String) (light : String)
    → Passes (validate_base_light order required light) ↔ IsBaseLight order required light
unfolding validate_base_light
validate_base_light_iff order required light =
    chain_iff _ _ (check_iff _ _ (contains_iff order light))
      (check_iff _ _ (contains_iff required light))

-- The lights of a camera: the required ones, its base light and the fallback are in its order.
abbrev pub IsLit : {F : Type 0} → List String → RegistrationConfig F → CameraRecipe → Type 0
IsLit required registration camera =
    All (λ l. In l camera.light_order) required
    × (In camera.base_light_id camera.light_order
        × (In camera.base_light_id required
            × In registration.base_light_fallback camera.light_order))

pub validate_camera_iff :
    {F : Type 0} (required : List String) (registration : RegistrationConfig F)
    (camera : CameraRecipe)
    → Passes (validate_camera required registration camera) ↔ IsLit required registration camera
unfolding validate_camera
validate_camera_iff required registration camera =
    chain_iff _ _ (check_iff _ _ (all-contains_iff camera.light_order required)) (
      chain_iff _ _ (check_iff _ _ (contains_iff camera.light_order camera.base_light_id)) (
        chain_iff _ _ (check_iff _ _ (contains_iff required camera.base_light_id))
          (check_iff _ _ (contains_iff camera.light_order registration.base_light_fallback))))

-- Each camera has its lights, and no two cameras have one view.
abbrev pub AreCameras :
    {F : Type 0}
    → List (String × String)
    → List CameraRecipe
    → List String
    → RegistrationConfig F
    → Type 0
AreCameras seen [] required registration = Unit
AreCameras seen (camera ∷ cameras) required registration =
    (¬ In (camera.camera_id, camera.pose_id) seen)
    × (IsLit required registration camera
        × AreCameras ((camera.camera_id, camera.pose_id) ∷ seen) cameras required registration)

module _ {F : Type 0} where
  pub validate_camera_lights_iff :
      (seen : List (String × String)) (cameras : List CameraRecipe) (required : List String)
      (registration : RegistrationConfig F)
      → Passes (validate_camera_lights seen cameras required registration)
        ↔ AreCameras seen cameras required registration
  unfolding validate_camera_lights
  validate_camera_lights_iff seen [] required registration = (λ h. tt, λ h. refl)
  validate_camera_lights_iff seen (camera ∷ cameras) required registration =
      chain_iff _ _
        (check_iff _ _ (
          fresh_iff (contains seen (camera.camera_id, camera.pose_id)) _
            (not-contains_iff seen (camera.camera_id, camera.pose_id))))
        (chain_iff _ _ (validate_camera_iff required registration camera) (
          validate_camera_lights_iff ((camera.camera_id, camera.pose_id) ∷ seen) cameras required
            registration))
    where
      fresh_iff : (b : Bool) (P : Type 0) → ((b ≡ false) ↔ P) → (not b ≡ true) ↔ P
      fresh_iff true P h = (λ e. cc, λ p. cc (h.1 p))
      fresh_iff false P h = (λ e. h.0 refl, λ p. refl)

  -- A key of the models, with a model of that role.
  abbrev pub Refers : Dict String (ModelConfig F) → String → String → Type 0
  Refers models role key =
      (model : ModelConfig F) × (get models key ≡ some model) × (model.role ≡ role)

  pub found_iff :
      (found : Option (ModelConfig F)) (role : String)
      → Passes (validate_found_model found role)
        ↔ ((model : ModelConfig F) × (found ≡ some model) × (model.role ≡ role))
  unfolding validate_found_model require
  found_iff none role = (λ h. cc, λ h. cc (h.1))
  found_iff (some model) role =
      let same = check_iff (str_eq model.role role) _ (eq_iff model.role role) in
      (λ h. (model, refl, same.0 h), λ h. same.1 (ground (arith, h.1, h.2)))
