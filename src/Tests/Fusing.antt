-- ===== src/Tests/Fusing.antt =====
-- Runs of fusion.
use seat_surface_aoi.Prelude.{
  ℕ, ◌+◌, ◌≤◌, ◌≡◌, ◌↔◌, refl, String, none, List, [], ◌∷◌, ◌++◌, length, All, Any, tally, arith,
}
use seat_surface_aoi.Prelude.Int.{ℤ, pos, ◌+ℤ◌, ◌-ℤ◌, ◌*ℤ◌, min_ℤ, max_ℤ}
use seat_surface_aoi.Prelude.Dict.{get, put, values, string_key, triple_key}
use seat_surface_aoi.Prelude.Sort.{sorted, insert_sorted}
use seat_surface_aoi.Prelude.Sets.{from_keys, contains}
use seat_surface_aoi.Prelude.Result.{done, raised}
use seat_surface_aoi.Types.{Bbox, DefectCandidate}
use seat_surface_aoi.Fusion.{
  FusedResult, fuse, group_candidates, validate_candidate, add_to_group, fuse_groups, extend_result,
  nms_group, nms_loop, nms_step, keep_or_merge, first_overlapping_index, iou, intersection,
  box_area, union_bbox, union_area, span, merge_candidates, keeper, modify, output_before,
  chosen_config, invalid_area,
}
use seat_surface_aoi.Fusion.Validity.{IsValid}
use seat_surface_aoi.Fusion.Output.{fuse-total, fuse_done_iff, fuse-raised, fuse-IsValid}
use seat_surface_aoi.Fusion.Limit.{fuse_limit, at_key}
use seat_surface_aoi.Fusion.Coverage.{Covers}
use seat_surface_aoi.Fusion.Evidence.{fuse-Covers}
use seat_surface_aoi.Tests.Milli.{milli, milli-IsOrdered}

abbrev pub box : ℕ → ℕ → ℕ → ℕ → Bbox
box a b c d = record { x0 = pos a; y0 = pos b; x1 = pos c; y1 = pos d }

abbrev pub candidate : String → ℕ → Bbox → ℕ → List String → DefectCandidate ℤ
candidate camera score bbox area lights = record {
  camera_id = camera;
  roi_name = "seat";
  score = pos score;
  bbox_xyxy_pixel = bbox;
  area_px = pos area;
  evidence_lights = lights;
  pose_id = camera;
  recheck_score = none;
  ng_score = none;
  threshold_source = "";
}

-- Two boxes that overlap, on one camera, and one box on another.
abbrev pub candidates : List (DefectCandidate ℤ)
candidates =
    candidate "TOP_BACK" 400 (box 0 0 9 9) 100 ("1" ∷ [])
    ∷ candidate "TOP_BACK" 700 (box 1 0 10 9) 100 ("2" ∷ "1" ∷ [])
    ∷ candidate "LEFT" 300 (box 5 5 6 6) 4 ("3" ∷ [])
    ∷ []

abbrev pub fused : FusedResult ℤ
fused = record {
  candidates =
      candidate "LEFT" 300 (box 5 5 6 6) 4 ("3" ∷ [])
      ∷ candidate "TOP_BACK" 700 (box 0 0 10 9) 110 ("2" ∷ "1" ∷ [])
      ∷ [];
  suppressed_count = 1;
  overflow_count = 0;
}

pub fuse_runs : fuse candidates none ≡ done fused
unfolding fuse group_candidates validate_candidate add_to_group fuse_groups extend_result nms_group
    nms_loop nms_step keep_or_merge first_overlapping_index iou intersection box_area union_bbox
    union_area span merge_candidates keeper modify output_before chosen_config get put values sorted
    insert_sorted from_keys contains ◌+ℤ◌ ◌-ℤ◌ ◌*ℤ◌ min_ℤ max_ℤ
fuse_runs = refl

candidates-IsValid : All IsValid candidates
candidates-IsValid = ground arith

fuse-total_example : 2 + 1 + 0 ≡ length candidates
fuse-total_example = fuse-total candidates none fuse_runs

fuse_done_iff_example :
    ((r : FusedResult ℤ) × (fuse candidates none ≡ done r)) ↔ All IsValid candidates
fuse_done_iff_example = fuse_done_iff candidates none

abbrev flat : DefectCandidate ℤ
flat = candidate "LEFT" 300 (box 5 5 6 6) 0 ("3" ∷ [])

flat_raises : validate_candidate flat ≡ raised invalid_area
unfolding validate_candidate
flat_raises = refl

fuse-raised_example : fuse (candidates ++ flat ∷ candidates) none ≡ raised invalid_area
fuse-raised_example =
    fuse-raised candidates candidates flat invalid_area none candidates-IsValid flat_raises

fuse-IsValid_example : All IsValid fused.candidates
fuse-IsValid_example = fuse-IsValid candidates none fuse_runs

fuse_limit_example : tally (at_key ("TOP_BACK", "TOP_BACK", "seat")) fused.candidates ≤ 16
unfolding chosen_config
fuse_limit_example = fuse_limit candidates none ("TOP_BACK", "TOP_BACK", "seat") fuse_runs

fuse-Covers_example : All (λ c. Any (λ out. Covers out c) fused.candidates) candidates
fuse-Covers_example = fuse-Covers milli-IsOrdered candidates none fuse_runs refl
