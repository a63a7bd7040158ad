-- ===== src/Quality/Report.antt =====
-- The reports of python_detector/pipeline/quality_gate.py. A message is a value of a data type, one
-- constructor for each place of the code that appends one.
use seat_surface_aoi.Prelude.{String, Bool, List}

pub data FrameMessage : Type 0 where
  unsupported_pixel_format unsupported_color_order unsupported_dtype invalid_image_shape :
      FrameMessage
  bad_channel_count stride_too_short image_too_short : FrameMessage
  overexposure_saturation underexposure_dark underexposure_mean overexposure_mean : FrameMessage
  low_sharpness motion_blur : FrameMessage

pub data Message : Type 0 where
  sku_mismatch : Message
  duplicate_bundle view_not_enabled missing_view : String → String → Message
  missing_required_light frame_camera_mismatch frame_light_mismatch : String → String → Message
  light_not_configured light_seq_mismatch : String → String → Message
  duplicate_captured_seq : String → Message
  invalid_timestamp capture_span_exceeded timestamps_not_monotonic : String → Message
  duplicate_frame_index duplicate_required_seq : String → Message
  missing_shot_id mixed_shot_id inconsistent_shot_id : String → String → Message
  missing_robot_timestamp mixed_robot_timestamp inconsistent_robot_timestamp :
      String → String → Message
  missing_robot_pose inconsistent_robot_xyz inconsistent_robot_rpy : String → String → Message
  invalid_exposure exposure_delta_exceeded invalid_gain gain_delta_exceeded : String → Message
  light_mean_delta_exceeded : String → Message
  registration_failed preprocess_recheck : Message

pub record FrameQuality (F : Type 0) : Type 0 where
  pub camera_id : String
  pub light_id : String
  pub mean_gray : F
  pub saturation_ratio : F
  pub dark_ratio : F
  pub sharpness : F
  pub motion_gradient : F
  pub is_pass : Bool
  pub messages : List FrameMessage

pub record QualityReport (F : Type 0) : Type 0 where
  pub is_pass : Bool
  pub frame_reports : List (FrameQuality F)
  pub messages : List Message
