-- ===== src/Tests/Running.antt =====
-- Runs of the pipeline, the algorithm and the detector.
use seat_surface_aoi.Prelude.{ℕ, ◌≡◌, refl, String, true, false, Option, none, some, [], ◌∷◌}
use seat_surface_aoi.Prelude.Int.{ℤ, pos}
use seat_surface_aoi.Prelude.Dict.{Dict}
use seat_surface_aoi.Prelude.Result.{done, raised}
use seat_surface_aoi.Protocol.Codes.{ok, recheck, device_fault, configuration_error, no_error}
use seat_surface_aoi.Types.{InspectionResult, SeatInspectionJob}
use seat_surface_aoi.Config.{Recipe}
use seat_surface_aoi.Shm.Release.{IsReleased}
use seat_surface_aoi.Pipeline.{Stages, asset_unavailable, Context, decided_context, process}
use seat_surface_aoi.Pipeline.Safety.{IsInspected, process-IsInspected}
use seat_surface_aoi.Pipeline.Totality.{IsFor, process-total}
use seat_surface_aoi.Algorithm.{AlgorithmRun, Tracer}
use seat_surface_aoi.Detector.{DetectorProcess, process_and_publish}
use seat_surface_aoi.Detector.Inspected.{IsTraced}
use seat_surface_aoi.Detector.Published.{process_and_publish-ok, process_and_publish-IsReleased}
use mathlib.Core.Option
use seat_surface_aoi.Filter.{aspect_ratio_ok, filter, filter_candidates, filter_one}
use seat_surface_aoi.Fusion.{
  add_to_group, box_area, chosen_config, extend_result, first_overlapping_index, fuse, fuse_groups,
  group_candidates, intersection, iou, keep_or_merge, keeper, merge_candidates, modify, nms_group,
  nms_loop, nms_step, output_before, span, union_area, union_bbox, validate_candidate,
}
use seat_surface_aoi.Prelude.Dict.{get, put, values}
use seat_surface_aoi.Prelude.Int.{max_ℤ, min_ℤ, ◌*ℤ◌, ◌+ℤ◌, ◌-ℤ◌}
use seat_surface_aoi.Prelude.Sets.{contains, from_keys}
use seat_surface_aoi.Prelude.Sort.{insert_sorted, sorted}
use seat_surface_aoi.Protocol.Bytes.{from_le, le_bytes, load_bytes, store_bytes}
use seat_surface_aoi.Protocol.Layout.{append?, crc32, encode_cstr, pack, pack_field, pack_signed}
use seat_surface_aoi.Rule.{make_defects, decide, decide_loop, escalate, is_ok}
use seat_surface_aoi.Shm.Client.{
  camera_index, camera_index_for_defect, light_index, load_u32, numbered, slot_base, store_u32,
}
use seat_surface_aoi.Shm.Packing.{
  collect, defect_fields, pack_defect, pack_defects, pack_prefix, pack_result_meta,
  write_result_slot,
}
use seat_surface_aoi.Shm.Publish.{
  await_slot, close_slot, find_slot, found_or, interfere, mark, publish_at, publish_found,
  published_defects,
}
use seat_surface_aoi.Tests.Milli.{milli, milli-IsOrdered}
use seat_surface_aoi.Tests.Fusing.{candidates, fused}
use seat_surface_aoi.Tests.Deciding.{recipe, job, passed}
use seat_surface_aoi.Tests.Publishing.{toy_codec, toy_packs, toy_digits, client, idle}

abbrev pub stages : Stages ℤ String String String
stages = record {
  check = λ j r. done passed;
  run = λ j r. done ("bundle" ∷ []);
  build_cubes = λ j p r. done ("cube" ∷ []);
  is_registered = λ c. true;
  build_features = λ c r. done ("seat" ∷ []);
  infer = λ g r. done candidates;
  summary = λ g. done tt;
}

-- The stages with a model that is not installed.
abbrev bare_stages : Stages ℤ String String String
bare_stages = record stages { infer = λ g r. raised asset_unavailable }

abbrev pub tracer : Tracer ℤ
tracer = record { write = λ j r x c. some "trace/7"; write_result_only = λ j r x. some "trace/7" }

-- A disk that is full.
abbrev full_tracer : Tracer ℤ
full_tracer = record { write = λ j r x c. none; write_result_only = λ j r x. none }

abbrev pub recipes : Dict String (Recipe ℤ)
recipes = ("R1", recipe) ∷ []

abbrev pub detector : DetectorProcess ℤ
detector = record { shm_client = client; trace_threads = [] }

abbrev pub display : SeatInspectionJob ℤ → AlgorithmRun ℤ → Option ℕ
display j run = some 1000

abbrev pub verdict : InspectionResult ℤ
verdict = record {
  sequence_id = 7;
  trigger_id = 9;
  seat_id = "A1";
  decision = ok;
  defects = [];
  quality_pass = true;
  error_code = no_error;
  elapsed_ms = pos 5;
}

publishes :
    (process_and_publish stages tracer recipes display detector (idle ∷ []) job (pos 5)).1
    ≡ some verdict
unfolding process_and_publish await_slot found_or interfere find_slot load_u32 store_u32 from_le
    load_bytes store_bytes le_bytes slot_base publish_found publish_at mark published_defects
    write_result_slot pack_result_meta pack pack_field pack_signed append? encode_cstr pack_defects
    pack_defect defect_fields collect light_index numbered camera_index_for_defect camera_index
    pack_prefix crc32 close_slot get Option.bind fuse group_candidates validate_candidate
    add_to_group fuse_groups extend_result nms_group nms_loop nms_step keep_or_merge
    first_overlapping_index iou intersection box_area union_bbox union_area span merge_candidates
    keeper modify output_before chosen_config put values sorted insert_sorted from_keys contains
    ◌+ℤ◌ ◌-ℤ◌ ◌*ℤ◌ min_ℤ max_ℤ decide decide_loop escalate is_ok filter filter_candidates filter_one
    aspect_ratio_ok make_defects
publishes = refl

-- A trace that cannot be written turns the seat into a RECHECK.
untraced :
    (process_and_publish stages full_tracer recipes display detector (idle ∷ []) job (pos 5)).1
    ≡ some (record verdict { decision = recheck; quality_pass = false; error_code = device_fault })
unfolding process_and_publish await_slot found_or interfere find_slot load_u32 store_u32 from_le
    load_bytes store_bytes le_bytes slot_base publish_found publish_at mark published_defects
    write_result_slot pack_result_meta pack pack_field pack_signed append? encode_cstr pack_defects
    pack_defect defect_fields collect light_index numbered camera_index_for_defect camera_index
    pack_prefix crc32 close_slot get Option.bind fuse group_candidates validate_candidate
    add_to_group fuse_groups extend_result nms_group nms_loop nms_step keep_or_merge
    first_overlapping_index iou intersection box_area union_bbox union_area span merge_candidates
    keeper modify output_before chosen_config put values sorted insert_sorted from_keys contains
    ◌+ℤ◌ ◌-ℤ◌ ◌*ℤ◌ min_ℤ max_ℤ decide decide_loop escalate is_ok filter filter_candidates filter_one
    aspect_ratio_ok make_defects
untraced = refl

-- So does a model that is not installed.
uninstalled :
    (process_and_publish bare_stages tracer recipes display detector (idle ∷ []) job (pos 5)).1
    ≡ some (record verdict { decision = recheck; error_code = configuration_error })
unfolding process_and_publish await_slot found_or interfere find_slot load_u32 store_u32 from_le
    load_bytes store_bytes le_bytes slot_base publish_found publish_at mark published_defects
    write_result_slot pack_result_meta pack pack_field pack_signed append? encode_cstr pack_defects
    pack_defect defect_fields collect light_index numbered camera_index_for_defect camera_index
    pack_prefix crc32 close_slot get Option.bind fuse group_candidates validate_candidate
    add_to_group fuse_groups extend_result nms_group nms_loop nms_step keep_or_merge
    first_overlapping_index iou intersection box_area union_bbox union_area span merge_candidates
    keeper modify output_before chosen_config put values sorted insert_sorted from_keys contains
    ◌+ℤ◌ ◌-ℤ◌ ◌*ℤ◌ min_ℤ max_ℤ decide decide_loop escalate is_ok filter filter_candidates filter_one
    aspect_ratio_ok make_defects
uninstalled = refl

process_and_publish-ok_example :
    (r : Recipe ℤ) × IsInspected stages job r × IsTraced tracer recipes job verdict r
process_and_publish-ok_example =
    process_and_publish-ok stages tracer recipes display milli-IsOrdered detector (idle ∷ []) job
      (pos 5) publishes refl

process_and_publish-IsReleased_example :
    IsReleased client
      (process_and_publish stages full_tracer recipes display detector
        (idle ∷ [])
        job
        (pos 5)).0.shm_client
      7
process_and_publish-IsReleased_example =
    process_and_publish-IsReleased stages full_tracer recipes display detector (idle ∷ []) job
      (pos 5)

process-total_example :
    (r : InspectionResult ℤ × Context ℤ) × (process bare_stages job recipe (pos 5) ≡ done r)
    × IsFor job (r.0)
process-total_example = process-total bare_stages (λ g. refl) job recipe (pos 5)

piped : process stages job recipe (pos 5) ≡ done (verdict, decided_context passed 3 fused)
unfolding process fuse group_candidates validate_candidate add_to_group fuse_groups extend_result
    nms_group nms_loop nms_step keep_or_merge first_overlapping_index iou intersection box_area
    union_bbox union_area span merge_candidates keeper modify output_before chosen_config get put
    values sorted insert_sorted from_keys contains ◌+ℤ◌ ◌-ℤ◌ ◌*ℤ◌ min_ℤ max_ℤ decide decide_loop
    escalate is_ok filter filter_candidates filter_one aspect_ratio_ok make_defects
piped = refl

process-IsInspected_example : IsInspected stages job recipe
process-IsInspected_example =
    process-IsInspected stages milli-IsOrdered job recipe (pos 5) piped refl
