-- ===== src/Types.antt =====
-- python_detector/ipc/data_types.py, and `DefectCandidate` of python_detector/models/spatial_utils.py.
-- `F` stands for `float`. The texts "OK", "NG", "RECHECK" and "ERROR" of a decision, and "critical" and
-- "suspect" of a severity, are the constructors of two enumerations.
use seat_surface_aoi.Prelude.{ℕ, String, Bool, Option, List}
use seat_surface_aoi.Prelude.Int.{ℤ}
use seat_surface_aoi.Prelude.Dict.{Dict}
use seat_surface_aoi.Protocol.Codes.{ErrorCode, InspectionDecision}

-- A box in pixels, both corners included.
pub record Bbox : Type 0 where
  pub x0 : ℤ
  pub y0 : ℤ
  pub x1 : ℤ
  pub y1 : ℤ

pub record DefectCandidate (F : Type 0) : Type 0 where
  pub camera_id : String
  pub roi_name : String
  pub score : F
  pub bbox_xyxy_pixel : Bbox
  pub area_px : ℤ
  pub evidence_lights : List String
  pub pose_id : String
  pub recheck_score : Option F
  pub ng_score : Option F
  pub threshold_source : String

-- The pixels of a frame are a `memoryview`: a range of the shared memory, and no copy of it.
pub record View : Type 0 where
  pub start : ℕ
  pub stop : ℕ

pub record LightFrame (F : Type 0) : Type 0 where
  pub camera_id : String
  pub light_id : String
  pub frame_index : ℕ
  pub light_seq_index : ℕ
  pub width : ℕ
  pub height : ℕ
  pub channels : ℕ
  pub stride_bytes : ℕ
  pub pixel_format : String
  pub bit_depth : ℕ
  pub color_order : String
  pub dtype : String
  pub timestamp_us : ℕ
  pub exposure_us : ℕ
  pub gain : F
  pub calibration_id : String
  pub image_crc32 : ℕ
  pub image : View
  pub pose_id : String
  pub shot_id : ℕ
  pub robot_timestamp_us : ℕ
  pub robot_tcp_xyz_mm : List F
  pub robot_rpy_deg : List F

pub record CameraBundle (F : Type 0) : Type 0 where
  pub camera_id : String
  pub pose_id : String
  pub light_frames : Dict String (LightFrame F)

pub record SeatInspectionJob (F : Type 0) : Type 0 where
  pub sequence_id : ℕ
  pub trigger_id : ℕ
  pub seat_id : String
  pub recipe_id : String
  pub sku : String
  pub camera_bundles : List (CameraBundle F)
  pub capture_mode : ℕ

pub data Severity : Type 0 where
  critical suspect : Severity

pub record DefectResult (F : Type 0) : Type 0 where
  pub defect_id : String
  pub severity : Severity
  pub camera_id : String
  pub roi_name : String
  pub bbox_xyxy_pixel : Bbox
  pub score : F
  pub area_px : ℤ
  pub evidence_lights : List String
  pub mask_offset : Option ℤ
  pub decision : InspectionDecision
  pub pose_id : String

pub record InspectionResult (F : Type 0) : Type 0 where
  pub sequence_id : ℕ
  pub trigger_id : ℕ
  pub seat_id : String
  pub decision : InspectionDecision
  pub defects : List (DefectResult F)
  pub quality_pass : Bool
  pub error_code : ErrorCode
  pub elapsed_ms : F
