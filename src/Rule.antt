-- ===== src/Rule.antt =====
-- python_detector/pipeline/rule_engine.py.
pub mod Decision
use seat_surface_aoi.Prelude.{
  ℕ, ◌+◌, String, Bool, true, false, ◌&&◌, none, List, [], ◌∷◌, ltb, str_eq, if◌then◌else◌,
}
use seat_surface_aoi.Prelude.Text.{append, decimal}
use seat_surface_aoi.Float.{Float}
use seat_surface_aoi.Protocol.Codes.{
  InspectionDecision, ok, ng, recheck, error, ErrorCode, no_error, quality_failed,
  configuration_error,
}
use seat_surface_aoi.Types.{DefectCandidate, DefectResult, InspectionResult, SeatInspectionJob}
use seat_surface_aoi.Config.{Recipe}
use seat_surface_aoi.Fusion.{FusedResult}
use seat_surface_aoi.Filter.{FilteredCandidate, filter}
use seat_surface_aoi.Quality.Report.{QualityReport}

-- `a or b` on texts: the empty text is false.
abbrev pub or_else : String → String → String
or_else a b = if str_eq a "" then b else a

-- The update of `decision` in the loop of RuleEngine.decide.
unfoldable pub escalate : InspectionDecision → InspectionDecision → InspectionDecision
escalate decision ng = ng
escalate ng recheck = ng
escalate decision recheck = recheck
escalate decision other = decision

unfoldable pub is_ok : InspectionDecision → Bool
is_ok ok = true
is_ok _ = false

module _ {F : Type 0} where
  -- The `DefectResult` that the loop of RuleEngine.decide appends for the candidate at `index`.
  unfoldable pub make_defect : SeatInspectionJob F → ℕ → FilteredCandidate F → DefectResult F
  make_defect job index filtered =
      let candidate = filtered.candidate in
      record {
        defect_id = append (append (decimal job.sequence_id) "-") (decimal index);
        severity = filtered.severity;
        camera_id = candidate.camera_id;
        roi_name = candidate.roi_name;
        bbox_xyxy_pixel = candidate.bbox_xyxy_pixel;
        score = candidate.score;
        area_px = candidate.area_px;
        evidence_lights = candidate.evidence_lights;
        mask_offset = none;
        decision = filtered.decision;
        pose_id = or_else candidate.pose_id candidate.camera_id;
      }

  unfoldable pub decide_loop : InspectionDecision → List (FilteredCandidate F) → InspectionDecision
  decide_loop decision [] = decision
  decide_loop decision (x ∷ xs) = decide_loop (escalate decision x.decision) xs

  unfoldable pub make_defects :
      SeatInspectionJob F → ℕ → List (FilteredCandidate F) → List (DefectResult F)
  make_defects job index [] = []
  make_defects job index (x ∷ xs) = make_defect job index x ∷ make_defects job (index + 1) xs

  abbrev for_job :
      SeatInspectionJob F
      → InspectionDecision
      → List (DefectResult F)
      → Bool
      → ErrorCode
      → F
      → InspectionResult F
  for_job job decision defects quality_pass error_code elapsed_ms = record {
    sequence_id = job.sequence_id;
    trigger_id = job.trigger_id;
    seat_id = job.seat_id;
    decision = decision;
    defects = defects;
    quality_pass = quality_pass;
    error_code = error_code;
    elapsed_ms = elapsed_ms;
  }

  -- RuleEngine.make_quality_fail_result
  unfoldable pub make_quality_fail_result : SeatInspectionJob F → F → InspectionResult F
  make_quality_fail_result job elapsed_ms = for_job job recheck [] false quality_failed elapsed_ms

  -- RuleEngine.make_error_result
  unfoldable pub make_error_result : SeatInspectionJob F → ErrorCode → F → InspectionResult F
  make_error_result job error_code elapsed_ms = for_job job error [] false error_code elapsed_ms

  -- RuleEngine.make_recheck_result
  unfoldable pub make_recheck_result :
      SeatInspectionJob F → ErrorCode → F → Bool → InspectionResult F
  make_recheck_result job error_code elapsed_ms quality_pass =
      for_job job recheck [] quality_pass error_code elapsed_ms

module _ {F : Type 0} ⦃f : Float F⦄ where
  -- RuleEngine.decide
  unfoldable pub decide :
      SeatInspectionJob F → FusedResult F → QualityReport F → Recipe F → F → InspectionResult F
  unfolding make_quality_fail_result is_ok
  decide job fused report recipe elapsed_ms =
      let kept = filter fused.candidates recipe in
      let decision = decide_loop ok kept in
      let defects = make_defects job 0 kept in
      if report.is_pass
      then (if ltb 0 fused.overflow_count && is_ok decision
          then for_job job recheck defects true configuration_error elapsed_ms
          else for_job job decision defects true no_error elapsed_ms)
      else make_quality_fail_result job elapsed_ms
