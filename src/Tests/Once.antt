-- ===== src/Tests/Once.antt =====
-- A run of the detector from the shared memory to the result.
use mathlib.Core.Option
use seat_surface_aoi.Prelude.{◌≡◌, refl, false, none, [], ◌∷◌}
use seat_surface_aoi.Prelude.Int.{ℤ, pos}
use seat_surface_aoi.Protocol.Codes.{recheck, device_fault}
use seat_surface_aoi.Types.{InspectionResult}
use seat_surface_aoi.Filter.{aspect_ratio_ok, filter, filter_candidates, filter_one}
use seat_surface_aoi.Fusion.{
  add_to_group, box_area, chosen_config, extend_result, first_overlapping_index, fuse, fuse_groups,
  group_candidates, intersection, iou, keep_or_merge, keeper, merge_candidates, modify, nms_group,
  nms_loop, nms_step, output_before, span, union_area, union_bbox, validate_candidate,
}
use seat_surface_aoi.Prelude.Dict.{get, nat_key, pair_key, put, string_key, values}
use seat_surface_aoi.Prelude.Int.{max_ℤ, min_ℤ, ◌*ℤ◌, ◌+ℤ◌, ◌-ℤ◌}
use seat_surface_aoi.Prelude.Sets.{contains, from_keys}
use seat_surface_aoi.Prelude.Sort.{insert_sorted, sorted}
use seat_surface_aoi.Prelude.Text.{decimal}
use seat_surface_aoi.Protocol.Bytes.{from_le, le_bytes, load_bytes, store_bytes}
use seat_surface_aoi.Protocol.Codes.{color_order_name, dtype_name, pixel_format_name}
use seat_surface_aoi.Protocol.Layout.{
  append?, crc32, decode_cstr, encode_cstr, pack, pack_field, pack_signed, until_nul,
}
use seat_surface_aoi.Rule.{decide, decide_loop, escalate, is_ok, make_defects}
use seat_surface_aoi.Shm.Client.{
  camera_index, camera_index_for_defect, light_index, load_u32, numbered, remember_camera_index,
  slot_base, store_u32,
}
use seat_surface_aoi.Shm.Frames.{get_default, light_frame, make_light_frame, with_names}
use seat_surface_aoi.Shm.Jobs.{
  finish_read, keep_job, mark_frame, read_frame_slot, scan_slots, wait_next_job,
}
use seat_surface_aoi.Shm.Packing.{
  collect, defect_fields, header_crc, pack_defect, pack_defects, pack_prefix, pack_result_meta,
  write_result_slot,
}
use seat_surface_aoi.Shm.Publish.{
  await_slot, close_slot, find_slot, found_or, interfere, mark, publish_at, publish_found,
  published_defects,
}
use seat_surface_aoi.Shm.Reader.{
  add_frame, bundle_or, failed_check, insert_frame, make_job, payload_bounds_ok, read_checked,
  read_frames, read_identified, with_bundle, with_frame,
}
use seat_surface_aoi.Detector.{DetectorProcess, Turn, processed, run_once}
use seat_surface_aoi.Detector.Once.{run_once-freed}
use seat_surface_aoi.Tests.Milli.{milli}
use seat_surface_aoi.Tests.Publishing.{toy_codec, toy_packs, toy_digits, idle}
use seat_surface_aoi.Tests.Reading.{toy_unpacks, reader, scan}
use seat_surface_aoi.Tests.Running.{stages, tracer, recipes, display}

abbrev waiting : DetectorProcess ℤ
waiting = record { shm_client = reader; trace_threads = [] }

abbrev turn : Turn ℤ
turn = record { scans = scan ∷ []; rounds = idle ∷ []; elapsed_ms = pos 5 }

-- There is no recipe of the name that stands in the slot.
abbrev unknown_recipe : InspectionResult ℤ
unknown_recipe = record {
  sequence_id = 7;
  trigger_id = 8;
  seat_id = "1";
  decision = recheck;
  defects = [];
  quality_pass = false;
  error_code = device_fault;
  elapsed_ms = pos 0;
}

runs : (run_once stages tracer recipes display (turn ∷ []) waiting).1 ≡ processed unknown_recipe
unfolding run_once wait_next_job scan_slots keep_job read_frame_slot mark_frame header_crc crc32
    load_u32 store_u32 load_bytes store_bytes le_bytes from_le slot_base finish_read read_identified
    failed_check payload_bounds_ok read_checked read_frames make_job values make_light_frame
    with_names light_frame with_frame with_bundle add_frame bundle_or insert_frame get put
    get_default decimal decode_cstr until_nul pixel_format_name color_order_name dtype_name
    remember_camera_index await_slot found_or interfere find_slot publish_found publish_at mark
    published_defects write_result_slot pack_result_meta pack pack_field pack_signed append?
    encode_cstr pack_defects pack_defect defect_fields collect light_index numbered
    camera_index_for_defect camera_index pack_prefix close_slot Option.bind fuse group_candidates
    validate_candidate add_to_group fuse_groups extend_result nms_group nms_loop nms_step
    keep_or_merge first_overlapping_index iou intersection box_area union_bbox union_area span
    merge_candidates keeper modify output_before chosen_config sorted insert_sorted from_keys
    contains ◌+ℤ◌ ◌-ℤ◌ ◌*ℤ◌ min_ℤ max_ℤ decide decide_loop escalate is_ok filter filter_candidates
    filter_one aspect_ratio_ok make_defects
runs = refl

run_once-freed_example :
    get
      (run_once stages tracer recipes display (turn ∷ []) waiting).0.shm_client.pending_frame_slots
      7
    ≡ none
run_once-freed_example = run_once-freed stages tracer recipes display (turn ∷ []) waiting runs
