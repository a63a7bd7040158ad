-- ===== src/Quality/Passed.antt =====
-- A report of ImageQualityGate.check that passes.
use seat_surface_aoi.Prelude.{
  ◌≡◌, ◌⊎◌, inl, inr, not, String, Bool, true, false, List, [], ◌∷◌, ◌++◌, any, all, str_eq, eq_iff,
  arith, All, All-map, Any, Any-map, ap, Bool-cases,
}
use seat_surface_aoi.Prelude.Dict.{pair_key}
use seat_surface_aoi.Prelude.Sets.{contains, contains_iff}
use seat_surface_aoi.Prelude.Sort.{sorted, All-unsorted}
use seat_surface_aoi.Float.{Float, Metric}
use seat_surface_aoi.Types.{CameraBundle, SeatInspectionJob}
use seat_surface_aoi.Config.{Recipe}
use seat_surface_aoi.Config.Lookups.{configured_view_keys, text_or}
use seat_surface_aoi.Quality.Bundle.{report_if}
use seat_surface_aoi.Quality.Sequence.{append_empty}
use seat_surface_aoi.Quality.Robot.{job_requires_robot_pose}
use seat_surface_aoi.Quality.Gate.{Statistics, view_before, check_camera_bundle}
use seat_surface_aoi.Quality.Check.{
  view_key, is_view_seen, view_messages, check_bundles, seen_views, check,
}
use seat_surface_aoi.Quality.Sound.{
  report-empty, empty-eq, all-append, missing_views-seen, IsSound, bundle-IsSound,
}

module _ {F : Type 0} ⦃f : Float F⦄ ⦃g : Metric F⦄ (stats : Statistics F) (recipe : Recipe F) where
  -- Each bundle is sound, and no two bundles are of one view.
  pub AreSound : List (String × String) → List (CameraBundle F) → Type 0
  AreSound seen [] = Unit
  AreSound seen (bundle ∷ bundles) =
      (contains seen (view_key bundle) ≡ false)
      × IsSound stats recipe bundle
      × AreSound (view_key bundle ∷ seen) bundles

  bundles-AreSound :
      (required : Bool) (seen : List (String × String)) (bundles : List (CameraBundle F))
      → (check_bundles stats recipe required seen bundles).0 ≡ []
      → all (λ r. r.is_pass) (check_bundles stats recipe required seen bundles).1 ≡ true
      → AreSound seen bundles
  unfolding check_bundles AreSound
  bundles-AreSound required seen [] h k = tt
  bundles-AreSound required seen (b ∷ bs) h k =
      let own = check_camera_bundle stats b recipe required in
      let rest = check_bundles stats recipe required (view_key b ∷ seen) bs in
      let (views, h1) = append_empty (view_messages stats recipe seen b) (own.0 ++ rest.0) h in
      let (mine, later) = append_empty (own.0) (rest.0) h1 in
      let (passed, others) = all-append (λ r. r.is_pass) (own.1) (rest.1) k in
      let (new, sound) = bundle-IsSound stats recipe seen b required views mine passed in
      (new, sound, bundles-AreSound required (view_key b ∷ seen) bs later others)

  -- The views that were seen are those of the bundles.
  seen_views-of :
      (P : String × String → Type 0) (seen : List (String × String))
      (bundles : List (CameraBundle F))
      → Any P (seen_views stats recipe seen bundles)
      → Any P seen ⊎ Any (λ b. P (view_key b)) bundles
  unfolding seen_views
  seen_views-of P seen [] h = inl h
  seen_views-of P seen (b ∷ bs) h = elim (seen_views-of P (view_key b ∷ seen) bs h) [
    | inl (inl own) ↦ inr (inl own)
    | inl (inr old) ↦ inl old
    | inr later ↦ inr (inr later)
  ]

  -- The job has a view: a bundle of its camera and pose or, for the default pose of a camera, a bundle
  -- of that camera.
  abbrev HasView : List (CameraBundle F) → String × String → Type 0
  HasView bundles v =
      Any (λ b. (b.camera_id ≡ v.0) × (text_or b.pose_id b.camera_id ≡ v.1)) bundles
      ⊎ ((v.1 ≡ v.0) × Any (λ b. b.camera_id ≡ v.0) bundles)

  seen_of :
      (P : String × String → Type 0) (bundles : List (CameraBundle F))
      → Any P (seen_views stats recipe [] bundles)
      → Any (λ b. P (view_key b)) bundles
  seen_of P bundles h = elim (seen_views-of P [] bundles h) [
    | inl none_yet ↦ absurd none_yet
    | inr a ↦ a
  ]

  any_camera :
      (camera_id : String) (seen : List (String × String))
      → any (λ u. str_eq (u.0) camera_id) seen ≡ true
      → Any (λ u. u.0 ≡ camera_id) seen
  any_camera camera_id [] h = cc
  any_camera camera_id (u ∷ seen) h = elim (Bool-cases (str_eq (u.0) camera_id)) [
    | inl e ↦ inl (ground (arith, e, eq_iff (u.0) camera_id))
    | inr e ↦ inr (any_camera camera_id seen (ground (arith, h, e)))
  ]

  is_view_seen-HasView :
      (bundles : List (CameraBundle F)) (v : String × String)
      → is_view_seen (seen_views stats recipe [] bundles) v ≡ true
      → HasView bundles v
  unfolding is_view_seen
  is_view_seen-HasView bundles v h =
      let seen = seen_views stats recipe [] bundles in
      elim (Bool-cases (contains seen v)) [
        | inl e ↦ inl (
            seen_of (λ u. (u.0 ≡ v.0) × (u.1 ≡ v.1)) bundles
              (Any-map _ _ seen (λ u same. (ap (λ z. z.0) same, ap (λ z. z.1) same))
                ((contains_iff seen v).0 e)))
        | inr e ↦ inr (
          ground (arith, h, e, eq_iff (v.1) (v.0)),
          seen_of (λ u. u.0 ≡ v.0) bundles (any_camera (v.0) seen (ground (arith, h, e))),
        )
      ]

  -- The seat is of the SKU of the recipe, its bundles are sound and of different views, and it has every
  -- view of the recipe.
  pub record IsPassed (job : SeatInspectionJob F) : Type 0 where
    pub same_sku : job.sku ≡ recipe.sku
    pub bundles : AreSound [] job.camera_bundles
    pub views : All (HasView job.camera_bundles) (configured_view_keys recipe)

  -- A job that the quality gate passes is of the recipe's SKU; each of its bundles is of an accepted view
  -- that no other bundle is of, has a frame for every required light, in the order of the recipe, and
  -- every frame is clear: within the limits of the recipe. Every view of the recipe has a bundle of
  -- its camera and pose or, where it is the default pose of the camera, of its camera.
  pub check-IsPassed :
      (job : SeatInspectionJob F) → (check stats recipe job).is_pass ≡ true → IsPassed job
  unfolding check
  check-IsPassed job h =
      let bundles =
        check_bundles stats recipe (job_requires_robot_pose job recipe) [] job.camera_bundles in
      let silent = empty-eq (check stats recipe job).messages (ground (arith, h)) in
      let (sku, h1) = append_empty (report_if (not (str_eq job.sku recipe.sku)) _) _ silent in
      let (inner, views) = append_empty (bundles.0) _ h1 in
      record {
        same_sku = ground (
          arith,
          report-empty (not (str_eq job.sku recipe.sku)) _ sku,
          eq_iff job.sku recipe.sku,
        );
        bundles =
            bundles-AreSound (job_requires_robot_pose job recipe) [] job.camera_bundles inner
              (ground (arith, h));
        views =
            All-unsorted view_before (HasView job.camera_bundles) (configured_view_keys recipe) (
              All-map _ _ (sorted view_before (configured_view_keys recipe))
                (is_view_seen-HasView job.camera_bundles) (missing_views-seen _ _ views));
      }
