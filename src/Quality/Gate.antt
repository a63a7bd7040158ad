-- ===== src/Quality/Gate.antt =====
-- `ImageQualityGate.check` of python_detector/pipeline/quality_gate.py. What numpy computes of a frame's
-- pixels is a parameter.
use seat_surface_aoi.Prelude.{
  ◌*◌, ◌-◌, not, String, Bool, false, none, some, List, [], ◌∷◌, ◌++◌, length, ltb, is_empty,
  str_eq, if◌then◌else◌,
}
use seat_surface_aoi.Prelude.Dict.{Dict, get, put, string_key, pair_key}
use seat_surface_aoi.Prelude.Text.{str_lt}
use seat_surface_aoi.Float.{Float, Metric}
use seat_surface_aoi.Types.{LightFrame, CameraBundle}
use seat_surface_aoi.Config.{QualityConfig, Recipe}
use seat_surface_aoi.Quality.Report
use seat_surface_aoi.Quality.Report.{Message, FrameMessage, FrameQuality, QualityReport}
use seat_surface_aoi.Quality.Bundle.{report_if, select, check_light_sequence, timing_messages}
use seat_surface_aoi.Quality.Robot.{
  check_robot_pose_consistency, check_required_light_capture_params, spread_exceeds,
}
use seat_surface_aoi.Quality.Frame.{note_if, frame_meta_messages}

-- What numpy computes of the pixels of a frame: `sample.mean()`, the ratios of bright and dark pixels,
-- `_sharpness` and `_motion_gradient`.
pub record Statistics (F : Type 0) : Type 0 where
  pub mean_gray : LightFrame F → F
  pub saturation_ratio : LightFrame F → F
  pub dark_ratio : LightFrame F → F
  pub sharpness : LightFrame F → F
  pub motion_gradient : LightFrame F → F

-- Pairs of texts in the order of Python's tuples.
abbrev pub view_before : String × String → String × String → Bool
view_before a b = if str_eq (a.0) (b.0) then str_lt (a.1) (b.1) else str_lt (a.0) (b.0)

module _ {F : Type 0} ⦃f : Float F⦄ where
  -- The report of a frame that is not looked at.
  unfoldable pub failed_frame : LightFrame F → List FrameMessage → FrameQuality F
  failed_frame frame messages = record {
    camera_id = frame.camera_id;
    light_id = frame.light_id;
    mean_gray = f.nought;
    saturation_ratio = f.nought;
    dark_ratio = f.nought;
    sharpness = f.nought;
    motion_gradient = f.nought;
    is_pass = false;
    messages = messages;
  }

  module _ (stats : Statistics F) where
    -- The messages on the pixels in _check_frame.
    unfoldable pub pixel_messages : LightFrame F → QualityConfig F → List FrameMessage
    unfolding note_if
    pixel_messages frame quality =
        note_if (f.lt quality.max_saturation_ratio (stats.saturation_ratio frame))
          Report.overexposure_saturation
          (note_if (f.lt quality.max_dark_ratio (stats.dark_ratio frame)) Report.underexposure_dark
            (note_if (f.lt (stats.mean_gray frame) quality.min_mean_gray) Report.underexposure_mean
              (note_if (f.lt quality.max_mean_gray (stats.mean_gray frame)) Report.overexposure_mean
                (note_if (f.lt (stats.sharpness frame) quality.min_sharpness) Report.low_sharpness (
                  note_if (f.lt (stats.motion_gradient frame) quality.min_motion_gradient)
                    Report.motion_blur [])))))

    -- ImageQualityGate._check_frame
    unfoldable pub check_frame : LightFrame F → Recipe F → FrameQuality F
    unfolding frame_meta_messages failed_frame pixel_messages
    check_frame frame recipe =
        if not (is_empty (frame_meta_messages frame))
        then failed_frame frame (frame_meta_messages frame)
        else if ltb (frame.image.stop - frame.image.start) (frame.stride_bytes * frame.height)
        then failed_frame frame (Report.image_too_short ∷ [])
        else record {
          camera_id = frame.camera_id;
          light_id = frame.light_id;
          mean_gray = stats.mean_gray frame;
          saturation_ratio = stats.saturation_ratio frame;
          dark_ratio = stats.dark_ratio frame;
          sharpness = stats.sharpness frame;
          motion_gradient = stats.motion_gradient frame;
          is_pass = is_empty (pixel_messages frame recipe.quality);
          messages = pixel_messages frame recipe.quality;
        }

    -- The reports of the loop over the frames in _check_camera_bundle, and its messages.
    unfoldable pub frame_reports : List (String × LightFrame F) → Recipe F → List (FrameQuality F)
    unfolding check_frame
    frame_reports [] recipe = []
    frame_reports ((light_id, frame) ∷ frames) recipe =
        check_frame frame recipe ∷ frame_reports frames recipe

  unfoldable pub name_messages : String → List (String × LightFrame F) → List Message
  name_messages camera_id [] = []
  name_messages camera_id ((light_id, frame) ∷ frames) =
      report_if (not (str_eq frame.camera_id camera_id))
        (Report.frame_camera_mismatch camera_id light_id)
      ++ (report_if (not (str_eq frame.light_id light_id))
            (Report.frame_light_mismatch camera_id light_id)
          ++ name_messages camera_id frames)

  unfoldable pub missing_lights : CameraBundle F → List String → List Message
  missing_lights bundle [] = []
  missing_lights bundle (light_id ∷ ids) = elim (get bundle.light_frames light_id) [
    | some frame ↦ missing_lights bundle ids
    | none ↦ Report.missing_required_light bundle.camera_id light_id ∷ missing_lights bundle ids
  ]

  -- {report.light_id: report for report in reports if report.camera_id == camera_id}
  unfoldable pub report_by_light :
      String → Dict String (FrameQuality F) → List (FrameQuality F) → Dict String (FrameQuality F)
  unfolding put
  report_by_light camera_id d [] = d
  report_by_light camera_id d (report ∷ reports) =
      report_by_light camera_id
        (if str_eq report.camera_id camera_id then put d report.light_id report else d) reports

  unfoldable pub passing_means : List (FrameQuality F) → List F
  passing_means [] = []
  passing_means (report ∷ reports) =
      let rest = passing_means reports in if report.is_pass then report.mean_gray ∷ rest else rest

  module _ ⦃g : Metric F⦄ where
    -- ImageQualityGate._check_light_stability
    unfoldable pub check_light_stability :
        CameraBundle F → Recipe F → List (FrameQuality F) → List Message
    unfolding report_by_light select passing_means spread_exceeds
    check_light_stability bundle recipe reports =
        let means =
          passing_means
            (select (report_by_light bundle.camera_id [] reports) recipe.quality.required_lights) in
        if ltb (length means) 2
        then []
        else report_if (spread_exceeds means recipe.quality.max_light_mean_delta)
            (Report.light_mean_delta_exceeded bundle.camera_id)

    -- ImageQualityGate._check_capture_consistency
    unfoldable pub check_capture_consistency : CameraBundle F → Recipe F → Bool → List Message
    unfolding check_light_sequence select timing_messages check_robot_pose_consistency
        check_required_light_capture_params
    check_capture_consistency bundle recipe robot_pose_required =
        let frames = select bundle.light_frames recipe.quality.required_lights in
        check_light_sequence bundle recipe
        ++ (if ltb (length frames) 2
            then []
            else timing_messages bundle.camera_id recipe.quality frames
              ++ (check_robot_pose_consistency bundle.camera_id bundle.pose_id robot_pose_required
                    recipe.quality frames
                  ++ check_required_light_capture_params bundle.camera_id recipe.quality frames))

    module _ (stats : Statistics F) where
      -- The messages and the reports of ImageQualityGate._check_camera_bundle.
      unfoldable pub check_camera_bundle :
          CameraBundle F → Recipe F → Bool → List Message × List (FrameQuality F)
      unfolding missing_lights check_capture_consistency name_messages frame_reports
          check_light_stability
      check_camera_bundle bundle recipe robot_pose_required =
          let reports = frame_reports stats bundle.light_frames recipe in
          (
            missing_lights bundle recipe.quality.required_lights
                ++ (check_capture_consistency bundle recipe robot_pose_required
                    ++ (name_messages bundle.camera_id bundle.light_frames
                        ++ check_light_stability bundle recipe reports)),
            reports,
          )
