-- ===== src/Tests/Deciding.antt =====
-- Runs of the filter and the rule engine.
use seat_surface_aoi.Prelude.{
  ◌≤◌, ◌≡◌, refl, true, none, some, List, [], ◌∷◌, any, is_empty, ◌&&◌, if◌then◌else◌,
}
use seat_surface_aoi.Prelude.Int.{ℤ, pos, ◌+ℤ◌, ◌-ℤ◌, ◌*ℤ◌, min_ℤ, max_ℤ}
use seat_surface_aoi.Prelude.Result.{done}
use seat_surface_aoi.Protocol.Codes.{ok, ng, recheck}
use seat_surface_aoi.Types.{DefectCandidate, SeatInspectionJob}
use seat_surface_aoi.Config.{DecisionThresholdConfig, Recipe}
use seat_surface_aoi.Quality.Report.{QualityReport}
use seat_surface_aoi.Filter.{filter, filter_candidates, filter_one, aspect_ratio_ok}
use seat_surface_aoi.Filter.Thresholds.{rank, rank_mono}
use seat_surface_aoi.Rule.{decide, decide_loop, escalate, is_ok}
use seat_surface_aoi.Rule.Decision.{decide_lem, is_ng}
use seat_surface_aoi.Chain.{AreCleared, ok_safe}
use seat_surface_aoi.Tests.Milli.{milli, milli-IsOrdered}
use seat_surface_aoi.Tests.Fusing.{candidates, candidate, box, fused, fuse_runs}
use seat_surface_aoi.Prelude.Dict.{get, put, values}
use seat_surface_aoi.Prelude.Sort.{sorted, insert_sorted}
use seat_surface_aoi.Prelude.Sets.{from_keys, contains}
use seat_surface_aoi.Fusion.{
  FusedResult, fuse, group_candidates, validate_candidate, add_to_group, fuse_groups, extend_result,
  nms_group, nms_loop, nms_step, keep_or_merge, first_overlapping_index, iou, intersection,
  box_area, union_bbox, union_area, span, merge_candidates, keeper, modify, output_before,
  chosen_config,
}

abbrev threshold : DecisionThresholdConfig ℤ
threshold = record {
  ng_score = pos 900;
  recheck_score = pos 800;
  min_area_px = pos 1;
  min_aspect_ratio = pos 0;
  max_aspect_ratio = pos 0;
}

abbrev pub recipe : Recipe ℤ
recipe = record {
  recipe_id = "R1";
  sku = "S1";
  light_order = "1" ∷ "2" ∷ "3" ∷ [];
  v4_lights = record { semantic_to_light_id = [] };
  camera_defaults = record {
    model_key = "default";
    safety_net_model_key = none;
    roi_template = "roi.yaml";
    calibration_id = "calib";
    base_light_id = "1";
    light_order = "1" ∷ "2" ∷ "3" ∷ [];
    roi_models = [];
    roi_safety_net_models = [];
  };
  cameras = [];
  quality = record {
    required_lights = "1" ∷ [];
    max_saturation_ratio = pos 10;
    max_dark_ratio = pos 10;
    min_mean_gray = pos 20;
    max_mean_gray = pos 235;
    min_sharpness = pos 1;
    min_motion_gradient = pos 1;
    max_light_mean_delta = pos 80;
    max_registration_error_px = pos 1;
    max_capture_span_us = 500000;
    max_exposure_delta_us = 200;
    max_gain_delta = pos 200;
    require_monotonic_timestamps = true;
    require_unique_frame_indices = true;
    max_pose_delta = pos 0;
  };
  roi_locator = record {
    backend = "template";
    dome_semantic_light = "DOME";
    model_path = none;
    min_confidence = pos 500;
    max_pose_error_px = pos 4000;
    mask_threshold = pos 500;
    min_mask_area_px = pos 1;
    min_mask_area_ratio = pos 0;
    max_mask_area_ratio = pos 1000;
    input_width = pos 0;
    input_height = pos 0;
    input_channels = pos 1;
    output_decode = "yolo_xyxy_rows";
    bbox_format = "xyxy_pixel";
    class_names = "seat" ∷ [];
    fail_policy = "RECHECK";
  };
  registration = record {
    base_light_id = "1";
    base_light_fallback = "1";
    fail_policy = "RECHECK";
    method = "fixed_calibration";
    max_iterations = pos 30;
    convergence_epsilon = pos 0;
    search_radius_px = pos 2;
    min_correlation = pos 50;
  };
  fusion = record { iou_threshold = pos 500; max_candidates_per_roi = 16 };
  decision_threshold = threshold;
  models = [];
  trace = record {
    enabled = true;
    root_dir = "trace";
    save_ok_ratio = pos 0;
    save_ng = true;
    save_recheck = true;
  };
}

abbrev pub job : SeatInspectionJob ℤ
job = record {
  sequence_id = 7;
  trigger_id = 9;
  seat_id = "A1";
  recipe_id = "R1";
  sku = "S1";
  camera_bundles = [];
  capture_mode = 0;
}

abbrev pub passed : QualityReport ℤ
passed = record { is_pass = true; frame_reports = []; messages = [] }

fuse_with_recipe : fuse candidates (some recipe.fusion) ≡ done fused
unfolding fuse chosen_config
fuse_with_recipe = fuse_runs

decided : (decide job fused passed recipe (pos 0)).decision ≡ ok
unfolding decide decide_loop escalate is_ok filter filter_candidates filter_one aspect_ratio_ok ◌+ℤ◌
    ◌-ℤ◌
decided = refl

-- Two models see the same place: the second gives its candidate a RECHECK threshold of its own, and the
-- first one's candidate, which reaches that of the recipe, is merged into it.
abbrev low_recipe : Recipe ℤ
low_recipe = record recipe { decision_threshold = record threshold { recheck_score = pos 200 } }

abbrev masked : List (DefectCandidate ℤ)
masked =
    candidate "TOP_BACK" 400 (box 0 0 9 9) 100 ("1" ∷ [])
    ∷ record (candidate "TOP_BACK" 500 (box 0 0 9 9) 100 ("1" ∷ [])) {
      recheck_score = some (pos 600);
    }
    ∷ []

abbrev merged : FusedResult ℤ
merged = record {
  candidates =
      record (candidate "TOP_BACK" 500 (box 0 0 9 9) 100 ("1" ∷ [])) {
        recheck_score = some (pos 600);
      }
      ∷ [];
  suppressed_count = 1;
  overflow_count = 0;
}

masked_runs : fuse masked (some low_recipe.fusion) ≡ done merged
unfolding fuse group_candidates validate_candidate add_to_group fuse_groups extend_result nms_group
    nms_loop nms_step keep_or_merge first_overlapping_index iou intersection box_area union_bbox
    union_area span merge_candidates keeper modify output_before chosen_config get put values sorted
    insert_sorted from_keys contains ◌+ℤ◌ ◌-ℤ◌ ◌*ℤ◌ min_ℤ max_ℤ
masked_runs = refl

masked_ok : (decide job merged passed low_recipe (pos 0)).decision ≡ ok
unfolding decide decide_loop escalate is_ok filter filter_candidates filter_one aspect_ratio_ok ◌+ℤ◌
    ◌-ℤ◌
masked_ok = refl

ok_safe_example :
    (passed.is_pass ≡ true) × (merged.overflow_count ≡ 0) × AreCleared low_recipe masked
ok_safe_example = ok_safe milli-IsOrdered masked job passed low_recipe (pos 0) masked_runs masked_ok

decide_lem_example : (decide job fused passed recipe (pos 0)).decision ≡ (
    if any is_ng (filter fused.candidates recipe)
    then ng
    else if is_empty (filter fused.candidates recipe) && true
    then ok
    else recheck)
decide_lem_example = decide_lem job fused passed recipe (pos 0)

abbrev first : DefectCandidate ℤ
first = candidate "TOP_BACK" 400 (box 0 0 9 9) 100 ("1" ∷ [])

rank_mono_example :
    rank (filter_one threshold first)
    ≤ rank (filter_one threshold (record first { score = pos 850 }))
rank_mono_example = rank_mono milli-IsOrdered threshold first (pos 850) refl
