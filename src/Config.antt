-- ===== src/Config.antt =====
-- The recipe records of python_detector/config/schema_types.py. `F` stands for `float`; a tuple of
-- texts is a list, a `str | None` an option, and a `dict` an association list.
pub mod Lookups
pub mod Views
pub mod Values
pub mod Validators
pub mod Wellformed
pub mod Admissible
pub mod Sections
pub mod Stages
pub mod Cameras
pub mod Models
pub mod Schema
pub mod Loaded
use seat_surface_aoi.Prelude.{ℕ, String, Bool, Option, List}
use seat_surface_aoi.Prelude.Int.{ℤ, pos}
use seat_surface_aoi.Prelude.Dict.{Dict}
use seat_surface_aoi.Float.{Float}

pub record V4LightConfig : Type 0 where
  pub semantic_to_light_id : Dict String String

pub record RoiLocatorConfig (F : Type 0) : Type 0 where
  pub backend : String
  pub dome_semantic_light : String
  pub model_path : Option String
  pub min_confidence : F
  pub max_pose_error_px : F
  pub mask_threshold : F
  pub min_mask_area_px : ℤ
  pub min_mask_area_ratio : F
  pub max_mask_area_ratio : F
  pub input_width : ℤ
  pub input_height : ℤ
  pub input_channels : ℤ
  pub output_decode : String
  pub bbox_format : String
  pub class_names : List String
  pub fail_policy : String

pub record QualityConfig (F : Type 0) : Type 0 where
  pub required_lights : List String
  pub max_saturation_ratio : F
  pub max_dark_ratio : F
  pub min_mean_gray : F
  pub max_mean_gray : F
  pub min_sharpness : F
  pub min_motion_gradient : F
  pub max_light_mean_delta : F
  pub max_registration_error_px : F
  pub max_capture_span_us : ℕ
  pub max_exposure_delta_us : ℕ
  pub max_gain_delta : F
  pub require_monotonic_timestamps : Bool
  pub require_unique_frame_indices : Bool
  pub max_pose_delta : F

pub record RegistrationConfig (F : Type 0) : Type 0 where
  pub base_light_id : String
  pub base_light_fallback : String
  pub fail_policy : String
  pub method : String
  pub max_iterations : ℤ
  pub convergence_epsilon : F
  pub search_radius_px : ℤ
  pub min_correlation : F

pub record CameraRecipe : Type 0 where
  pub camera_id : String
  pub pose_id : String
  pub enabled : Bool
  pub model_key : String
  pub safety_net_model_key : Option String
  pub roi_template : String
  pub calibration_id : String
  pub base_light_id : String
  pub light_order : List String
  pub roi_models : Dict String String
  pub roi_safety_net_models : Dict String String

pub record DecisionThresholdConfig (F : Type 0) : Type 0 where
  pub ng_score : F
  pub recheck_score : F
  pub min_area_px : ℤ
  pub min_aspect_ratio : F
  pub max_aspect_ratio : F

pub record FusionConfig (F : Type 0) : Type 0 where
  pub iou_threshold : F
  pub max_candidates_per_roi : ℕ

pub record ModelConfig (F : Type 0) : Type 0 where
  pub backend : String
  pub model_path : Option String
  pub fake_mode : String
  pub model_family : String
  pub role : String
  pub input_channels : List String
  pub input_scale : F
  pub output_decode : String
  pub bbox_format : String
  pub score_threshold : F
  pub embedding_backend : String
  pub embedding_model_path : Option String
  pub embedding_version : String
  pub embedding_dim : ℤ
  pub embedding_layers : List String
  pub pca_path : Option String
  pub pca_version : Option String
  pub memory_bank_path : Option String
  pub faiss_index_path : Option String
  pub coreset_ratio : F
  pub knn_k : ℤ
  pub spatial_mode : Bool
  pub spatial_layers : List String
  pub spatial_upsample_height : ℤ
  pub spatial_upsample_width : ℤ
  pub anomaly_binarize_min_ratio : F
  pub anomaly_binarize_relative : F

pub record CameraDefaults : Type 0 where
  pub model_key : String
  pub safety_net_model_key : Option String
  pub roi_template : String
  pub calibration_id : String
  pub base_light_id : String
  pub light_order : List String
  pub roi_models : Dict String String
  pub roi_safety_net_models : Dict String String

pub record TraceConfig (F : Type 0) : Type 0 where
  pub enabled : Bool
  pub root_dir : String
  pub save_ok_ratio : F
  pub save_ng : Bool
  pub save_recheck : Bool

pub record Recipe (F : Type 0) : Type 0 where
  pub recipe_id : String
  pub sku : String
  pub light_order : List String
  pub v4_lights : V4LightConfig
  pub camera_defaults : CameraDefaults
  pub cameras : List CameraRecipe
  pub quality : QualityConfig F
  pub roi_locator : RoiLocatorConfig F
  pub registration : RegistrationConfig F
  pub fusion : FusionConfig F
  pub decision_threshold : DecisionThresholdConfig F
  pub models : Dict String (ModelConfig F)
  pub trace : TraceConfig F

-- `FusionConfig()`
abbrev pub default_fusion_config : {F : Type 0} ⦃f : Float F⦄ → FusionConfig F
default_fusion_config ⦃f⦄ = record {
  iou_threshold = f.ratio (pos 1) (pos 2);
  max_candidates_per_roi = 16;
}
