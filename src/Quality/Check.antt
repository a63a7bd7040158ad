-- ===== src/Quality/Check.antt =====
-- `ImageQualityGate.check` of python_detector/pipeline/quality_gate.py.
use seat_surface_aoi.Prelude.{
  ◌&&◌, not, String, Bool, true, some, List, [], ◌∷◌, ◌++◌, any, all, is_empty, str_eq,
  if◌then◌else◌,
}
use seat_surface_aoi.Prelude.Dict.{pair_key}
use seat_surface_aoi.Prelude.Sets.{contains}
use seat_surface_aoi.Prelude.Sort.{sorted}
use seat_surface_aoi.Float.{Float, Metric}
use seat_surface_aoi.Types.{CameraBundle, SeatInspectionJob}
use seat_surface_aoi.Config.{Recipe}
use seat_surface_aoi.Config.Lookups.{accepts_camera_pose, configured_view_keys, text_or}
use seat_surface_aoi.Quality.Report
use seat_surface_aoi.Quality.Report.{Message, FrameQuality, QualityReport}
use seat_surface_aoi.Quality.Bundle.{report_if}
use seat_surface_aoi.Quality.Robot.{job_requires_robot_pose}
use seat_surface_aoi.Quality.Gate.{Statistics, view_before, check_camera_bundle}

-- The camera and the pose of a bundle.
abbrev pub view_key : {F : Type 0} → CameraBundle F → String × String
view_key bundle = (bundle.camera_id, text_or bundle.pose_id bundle.camera_id)

-- A required view was seen, or it is the default pose of a camera that was seen.
unfoldable pub is_view_seen : List (String × String) → String × String → Bool
is_view_seen seen view =
    if contains seen view
    then true
    else str_eq (view.1) (view.0) && any (λ v. str_eq (v.0) (view.0)) seen

unfoldable pub missing_views : List (String × String) → List (String × String) → List Message
unfolding is_view_seen
missing_views seen [] = []
missing_views seen (view ∷ views) =
    report_if (not (is_view_seen seen view)) (Report.missing_view (view.0) (view.1))
    ++ missing_views seen views

module _ {F : Type 0} ⦃f : Float F⦄ ⦃g : Metric F⦄ (stats : Statistics F) (recipe : Recipe F) where
  -- What `check` says of the views.
  unfoldable pub view_messages : List (String × String) → CameraBundle F → List Message
  unfolding accepts_camera_pose
  view_messages seen bundle =
      report_if (contains seen (view_key bundle))
        (Report.duplicate_bundle ((view_key bundle).0) ((view_key bundle).1))
      ++ report_if
          (not (accepts_camera_pose recipe ((view_key bundle).0) (some ((view_key bundle).1))))
          (Report.view_not_enabled ((view_key bundle).0) ((view_key bundle).1))

  -- The loop over the bundles: the messages and the reports, after the views `seen`.
  unfoldable pub check_bundles :
      Bool → List (String × String) → List (CameraBundle F) → List Message × List (FrameQuality F)
  unfolding view_messages check_camera_bundle
  check_bundles required seen [] = ([], [])
  check_bundles required seen (bundle ∷ bundles) =
      let own = check_camera_bundle stats bundle recipe required in
      let rest = check_bundles required (view_key bundle ∷ seen) bundles in
      (view_messages seen bundle ++ (own.0 ++ rest.0), own.1 ++ rest.1)

  -- The views of the bundles, the last one first.
  unfoldable pub seen_views :
      List (String × String) → List (CameraBundle F) → List (String × String)
  seen_views seen [] = seen
  seen_views seen (bundle ∷ bundles) = seen_views (view_key bundle ∷ seen) bundles

  -- ImageQualityGate.check
  unfoldable pub check : SeatInspectionJob F → QualityReport F
  unfolding check_bundles seen_views missing_views configured_view_keys job_requires_robot_pose
      sorted
  check job =
      let bundles = check_bundles (job_requires_robot_pose job recipe) [] job.camera_bundles in
      let messages =
        report_if (not (str_eq job.sku recipe.sku)) Report.sku_mismatch
        ++ (bundles.0
            ++ missing_views (seen_views [] job.camera_bundles)
                (sorted view_before (configured_view_keys recipe))) in
      record {
        is_pass = is_empty messages && all (λ r. r.is_pass) (bundles.1);
        frame_reports = bundles.1;
        messages = messages;
      }
