-- ===== src/Config/Stages.antt =====
-- The sections of a recipe for the stages of the pipeline, in python_detector/config/recipe_schema.py. The
-- fields are read in the order of the source, so that the first error is the one it raises.
use seat_surface_aoi.Prelude.{String, Bool, true, not, ◌&&◌, ◌||◌, List, [], ◌∷◌, str_eq}
use seat_surface_aoi.Prelude.Int.{pos_part}
use seat_surface_aoi.Prelude.Dict.{string_key}
use seat_surface_aoi.Prelude.Sets.{contains}
use seat_surface_aoi.Prelude.Result.{done, ◌>>=◌}
use seat_surface_aoi.Float.{Float}
use seat_surface_aoi.Config.{
  RoiLocatorConfig, RegistrationConfig, FusionConfig, DecisionThresholdConfig, TraceConfig,
}
use seat_surface_aoi.Config.Values.{
  null, bool, text, Fields, Checked, ◌>>◌, require, get_field, has_field, as_text, optional_text,
  one_of, as_decision, as_bbox_format, unique_text_tuple, positive_int, non_negative_int, literal,
  as_float, positive_float, non_negative_float, as_ratio, truth, tuple_value, bad_range,
  removed_field, unsupported,
}
use seat_surface_aoi.Config.Sections.{tuple, whole, first}

-- The decodings that a backend of the region locator goes with.
abbrev backend_decodes : String → String → Bool
backend_decodes backend output_decode =
    (not (str_eq backend "onnx_yolo_seg")
      || contains ("segmentation_rows" ∷ "ultralytics_yolo_seg" ∷ []) output_decode)
    && (not (contains ("fake_yolo" ∷ "onnx_yolo" ∷ []) backend)
        || contains ("yolo_xyxy_rows" ∷ "ultralytics_yolo" ∷ []) output_decode)

module _ {F : Type 0} ⦃f : Float F⦄ where
  -- _roi_locator_from_dict
  unfoldable pub roi_locator_from_dict : Fields F → Checked (RoiLocatorConfig F)
  unfolding get_field one_of as_text optional_text as_ratio non_negative_float non_negative_int
      positive_int as_bbox_format unique_text_tuple as_decision require tuple_value contains
  roi_locator_from_dict d = do
    backend ←
        one_of ("template" ∷ "fake_yolo" ∷ "onnx_yolo" ∷ "onnx_yolo_seg" ∷ []) unsupported
          (get_field d "backend" (text "template"))
    output_decode ←
        one_of
          ("yolo_xyxy_rows" ∷ "ultralytics_yolo" ∷ "segmentation_rows" ∷ "ultralytics_yolo_seg"
            ∷ [])
          unsupported (get_field d "output_decode" (text "yolo_xyxy_rows"))
    require (backend_decodes backend output_decode) unsupported
    input_channels ← positive_int (get_field d "input_channels" (whole 1))
    bbox_format ← as_bbox_format (get_field d "bbox_format" (text "xyxy_pixel"))
    dome_semantic_light ← as_text (get_field d "dome_semantic_light" (text "DOME"))
    model_path ← optional_text (get_field d "model_path" null)
    min_confidence ← as_ratio (get_field d "min_confidence" (literal 1 2))
    max_pose_error_px ← non_negative_float (get_field d "max_pose_error_px" (literal 4 1))
    mask_threshold ← as_ratio (get_field d "mask_threshold" (literal 1 2))
    min_mask_area_px ← positive_int (get_field d "min_mask_area_px" (whole 1))
    min_mask_area_ratio ← as_ratio (get_field d "min_mask_area_ratio" (literal 0 1))
    max_mask_area_ratio ← as_ratio (get_field d "max_mask_area_ratio" (literal 1 1))
    input_width ← non_negative_int (get_field d "input_width" (whole 0))
    input_height ← non_negative_int (get_field d "input_height" (whole 0))
    class_names ← unique_text_tuple (get_field d "class_names" (tuple ("seat" ∷ [])))
    fail_policy ← as_decision (get_field d "fail_policy" (text "RECHECK"))
    done (record {
      backend = backend;
      dome_semantic_light = dome_semantic_light;
      model_path = model_path;
      min_confidence = min_confidence;
      max_pose_error_px = max_pose_error_px;
      mask_threshold = mask_threshold;
      min_mask_area_px = min_mask_area_px;
      min_mask_area_ratio = min_mask_area_ratio;
      max_mask_area_ratio = max_mask_area_ratio;
      input_width = input_width;
      input_height = input_height;
      input_channels = input_channels;
      output_decode = output_decode;
      bbox_format = bbox_format;
      class_names = class_names;
      fail_policy = fail_policy;
    })

  -- _registration_from_dict
  unfoldable pub registration_from_dict : Fields F → List String → Checked (RegistrationConfig F)
  unfolding get_field one_of as_text as_decision positive_int positive_float non_negative_int
      as_ratio first contains
  registration_from_dict d default_required_lights = do
    method ←
        one_of ("fixed_calibration" ∷ "ecc" ∷ []) unsupported
          (get_field d "method" (text "fixed_calibration"))
    let default_base_light_id = first default_required_lights
    base_light_id ← as_text (get_field d "base_light_id" (text default_base_light_id))
    base_light_fallback ← as_text (get_field d "base_light_fallback" (text default_base_light_id))
    fail_policy ← as_decision (get_field d "fail_policy" (text "RECHECK"))
    max_iterations ← positive_int (get_field d "max_iterations" (whole 30))
    convergence_epsilon ← positive_float (get_field d "convergence_epsilon" (literal 1 10000))
    search_radius_px ← non_negative_int (get_field d "search_radius_px" (whole 2))
    min_correlation ← as_ratio (get_field d "min_correlation" (literal 1 20))
    done (record {
      base_light_id = base_light_id;
      base_light_fallback = base_light_fallback;
      fail_policy = fail_policy;
      method = method;
      max_iterations = max_iterations;
      convergence_epsilon = convergence_epsilon;
      search_radius_px = search_radius_px;
      min_correlation = min_correlation;
    })

  -- _fusion_from_dict
  unfoldable pub fusion_from_dict : Fields F → Checked (FusionConfig F)
  unfolding get_field has_field as_ratio positive_int require
  fusion_from_dict d = do
    require (not (has_field d "class_aware")) removed_field
    iou_threshold ← as_ratio (get_field d "iou_threshold" (literal 1 2))
    max_candidates_per_roi ← positive_int (get_field d "max_candidates_per_roi" (whole 16))
    done (record {
      iou_threshold = iou_threshold;
      max_candidates_per_roi = pos_part max_candidates_per_roi;
    })

  -- _decision_threshold_from_dict
  unfoldable pub decision_threshold_from_dict : Fields F → Checked (DecisionThresholdConfig F)
  unfolding get_field as_ratio non_negative_int non_negative_float require
  decision_threshold_from_dict d = do
    ng_score ← as_ratio (get_field d "ng_score" (literal 7 20))
    recheck_score ← as_ratio (get_field d "recheck_score" (literal 1 5))
    require (not (f.lt ng_score recheck_score)) bad_range
    min_area_px ← non_negative_int (get_field d "min_area_px" (whole 1))
    min_aspect_ratio ← non_negative_float (get_field d "min_aspect_ratio" (literal 0 1))
    max_aspect_ratio ← non_negative_float (get_field d "max_aspect_ratio" (literal 0 1))
    done (record {
      ng_score = ng_score;
      recheck_score = recheck_score;
      min_area_px = min_area_px;
      min_aspect_ratio = min_aspect_ratio;
      max_aspect_ratio = max_aspect_ratio;
    })

  -- _trace_from_dict
  unfoldable pub trace_from_dict : Fields F → Checked (TraceConfig F)
  unfolding get_field as_text as_float truth
  trace_from_dict d = do
    let enabled = truth (get_field d "enabled" (bool true))
    root_dir ← as_text (get_field d "root_dir" (text "trace"))
    save_ok_ratio ← as_float (get_field d "save_ok_ratio" (literal 0 1))
    let save_ng = truth (get_field d "save_ng" (bool true))
    let save_recheck = truth (get_field d "save_recheck" (bool true))
    done (record {
      enabled = enabled;
      root_dir = root_dir;
      save_ok_ratio = save_ok_ratio;
      save_ng = save_ng;
      save_recheck = save_recheck;
    })
