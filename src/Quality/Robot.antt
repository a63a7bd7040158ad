-- ===== src/Quality/Robot.antt =====
-- The checks of the robot's pose, and of exposure and gain, in python_detector/pipeline/quality_gate.py. The
-- frames are those of the required lights, and there are at least two.
use seat_surface_aoi.Prelude.{
  ℕ, ◌==◌, ◌&&◌, ◌||◌, not, String, Bool, true, false, List, [], ◌∷◌, ◌++◌, map, length, ltb, any,
  all, is_empty, str_eq, if◌then◌else◌,
}
use seat_surface_aoi.Prelude.Int.{pos}
use seat_surface_aoi.Prelude.Dict.{nat_key}
use seat_surface_aoi.Prelude.Sets.{from_keys}
use seat_surface_aoi.Float.{Float, Metric}
use seat_surface_aoi.Types.{LightFrame, SeatInspectionJob}
use seat_surface_aoi.Config.{QualityConfig, CameraRecipe, Recipe}
use seat_surface_aoi.Config.Values.{duplicated}
use seat_surface_aoi.Config.Lookups.{configured_view_keys}
use seat_surface_aoi.Quality.Report
use seat_surface_aoi.Quality.Report.{Message}
use seat_surface_aoi.Quality.Bundle.{report_if, spread}

-- The items that are not zero.
unfoldable pub non_zero : List ℕ → List ℕ
non_zero [] = []
non_zero (x ∷ xs) = let rest = non_zero xs in if x == 0 then rest else x ∷ rest

-- len(set(xs)) != 1
unfoldable pub differ : List ℕ → Bool
differ xs = not (length (from_keys [] xs) == 1)

-- The message on numbers that are missing where they are needed, or given for some frames only, or not
-- the same; `given` is the case with no number at all.
unfoldable pub number_messages :
    Bool → List ℕ → Message → Message → Message → List Message → List Message
unfolding non_zero differ
number_messages required xs missing mixed inconsistent given =
    let ns = non_zero xs in
    if required && not (length ns == length xs)
    then missing ∷ []
    else if not (is_empty ns)
    then (if not (length ns == length xs) then mixed ∷ [] else report_if (differ xs) inconsistent)
    else given

module _ {F : Type 0} ⦃f : Float F⦄ ⦃g : Metric F⦄ where
  -- ImageQualityGate._float_tuple_close
  unfoldable pub float_tuple_close : List F → List F → F → Bool
  float_tuple_close [] [] tolerance = true
  float_tuple_close (a ∷ as_) (b ∷ bs) tolerance =
      f.le (g.abs (g.minus a b)) tolerance && float_tuple_close as_ bs tolerance
  float_tuple_close _ _ tolerance = false

  abbrev pub has_pose : LightFrame F → Bool
  has_pose frame =
      any (λ value. f.lt (f.ratio (pos 1) (pos 1000000)) (g.abs value))
        (frame.robot_tcp_xyz_mm ++ frame.robot_rpy_deg)

  -- The comparison of a value of each frame with that of the first.
  unfoldable pub strays : (LightFrame F → List F) → F → List (LightFrame F) → Bool
  unfolding float_tuple_close
  strays value tolerance [] = false
  strays value tolerance (first ∷ frames) =
      any (λ frame. not (float_tuple_close (value first) (value frame) tolerance)) frames

  -- ImageQualityGate._check_robot_pose_consistency
  unfoldable pub check_robot_pose_consistency :
      String → String → Bool → QualityConfig F → List (LightFrame F) → List Message
  unfolding number_messages strays
  check_robot_pose_consistency camera_id pose_id required quality frames =
      let flags = map has_pose frames in
      let posed = any (λ b. b) flags in
      number_messages required (map (λ x. x.shot_id) frames)
        (Report.missing_shot_id camera_id pose_id) (Report.mixed_shot_id camera_id pose_id)
        (Report.inconsistent_shot_id camera_id pose_id) []
      ++ (number_messages required (map (λ x. x.robot_timestamp_us) frames)
            (Report.missing_robot_timestamp camera_id pose_id)
            (Report.mixed_robot_timestamp camera_id pose_id)
            (Report.inconsistent_robot_timestamp camera_id pose_id)
            (report_if posed (Report.mixed_robot_timestamp camera_id pose_id))
          ++ (report_if (required && not (all (λ b. b) flags))
                (Report.missing_robot_pose camera_id pose_id)
              ++ (report_if
                    (posed && strays (λ x. x.robot_tcp_xyz_mm) quality.max_pose_delta frames)
                    (Report.inconsistent_robot_xyz camera_id pose_id)
                  ++ report_if
                      (posed && strays (λ x. x.robot_rpy_deg) quality.max_pose_delta frames)
                      (Report.inconsistent_robot_rpy camera_id pose_id))))

  unfoldable pub largest_float : F → List F → F
  largest_float x [] = x
  largest_float x (y ∷ ys) = largest_float (if f.lt x y then y else x) ys

  unfoldable pub smallest_float : F → List F → F
  smallest_float x [] = x
  smallest_float x (y ∷ ys) = smallest_float (if f.lt y x then y else x) ys

  -- max(xs) - min(xs) > limit, for a list that is not empty
  unfoldable pub spread_exceeds : List F → F → Bool
  unfolding largest_float smallest_float
  spread_exceeds [] limit = false
  spread_exceeds (x ∷ xs) limit = f.lt limit (g.minus (largest_float x xs) (smallest_float x xs))

  -- ImageQualityGate._check_required_light_capture_params
  unfoldable pub check_required_light_capture_params :
      String → QualityConfig F → List (LightFrame F) → List Message
  unfolding spread spread_exceeds
  check_required_light_capture_params camera_id quality frames =
      let exposures = map (λ x. x.exposure_us) frames in
      let gains = map (λ x. x.gain) frames in
      report_if (any (λ e. e == 0) exposures) (Report.invalid_exposure camera_id)
      ++ (report_if (ltb quality.max_exposure_delta_us (spread exposures))
            (Report.exposure_delta_exceeded camera_id)
          ++ (report_if (any (λ x. f.le x f.nought) gains) (Report.invalid_gain camera_id)
              ++ report_if (spread_exceeds gains quality.max_gain_delta)
                  (Report.gain_delta_exceeded camera_id)))

-- The cameras that are enabled, by name.
unfoldable pub enabled_ids : List CameraRecipe → List String
enabled_ids [] = []
enabled_ids (c ∷ cs) = let rest = enabled_ids cs in if c.enabled then c.camera_id ∷ rest else rest

-- ImageQualityGate._job_requires_robot_pose
unfoldable pub job_requires_robot_pose : {F : Type 0} → SeatInspectionJob F → Recipe F → Bool
unfolding enabled_ids duplicated configured_view_keys
job_requires_robot_pose job recipe =
    not (job.capture_mode == 0 || job.capture_mode == 1)
    || (any (λ view. not (str_eq (view.1) (view.0))) (configured_view_keys recipe)
        || duplicated (enabled_ids recipe.cameras))
