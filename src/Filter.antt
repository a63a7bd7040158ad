-- ===== src/Filter.antt =====
-- python_detector/pipeline/defect_filter.py.
pub mod Thresholds
use seat_surface_aoi.Prelude.{
  Bool, true, false, ◌&&◌, Option, none, some, List, [], ◌∷◌, prepend, if◌then◌else◌,
}
use seat_surface_aoi.Prelude.Int.{pos, ◌+ℤ◌, ◌-ℤ◌, leb_ℤ}
use seat_surface_aoi.Float.{Float}
use seat_surface_aoi.Protocol.Codes.{InspectionDecision, ng, recheck}
use seat_surface_aoi.Types.{Bbox, DefectCandidate, Severity, critical, suspect}
use seat_surface_aoi.Config.{DecisionThresholdConfig, Recipe}

pub record FilteredCandidate (F : Type 0) : Type 0 where
  pub candidate : DefectCandidate F
  pub decision : InspectionDecision
  pub severity : Severity

-- `threshold.x if candidate.x is None else candidate.x`
abbrev pub own_or : {F : Type 0} → Option F → F → F
own_or none common = common
own_or (some own) common = own

module _ {F : Type 0} ⦃f : Float F⦄ where
  open f use {nought, le, lt, ratio}

  -- DefectFilter._aspect_ratio_ok
  unfoldable pub aspect_ratio_ok : Bbox → DecisionThresholdConfig F → Bool
  aspect_ratio_ok bbox threshold =
      let width = bbox.x1 -ℤ bbox.x0 +ℤ pos 1 in
      let height = bbox.y1 -ℤ bbox.y0 +ℤ pos 1 in
      let ar = ratio width height in
      if le threshold.min_aspect_ratio nought && le threshold.max_aspect_ratio nought
      then true
      else if leb_ℤ height (pos 0)
      then false
      else if lt nought threshold.min_aspect_ratio && lt ar threshold.min_aspect_ratio
      then false
      else if lt nought threshold.max_aspect_ratio && lt threshold.max_aspect_ratio ar
      then false
      else true

  abbrev pub as_ng : DefectCandidate F → Option (FilteredCandidate F)
  as_ng c = some (record { candidate = c; decision = ng; severity = critical })

  abbrev pub as_recheck : DefectCandidate F → Option (FilteredCandidate F)
  as_recheck c = some (record { candidate = c; decision = recheck; severity = suspect })

  -- One round of the loop in DefectFilter.filter: what it appends.
  unfoldable pub filter_one :
      DecisionThresholdConfig F → DefectCandidate F → Option (FilteredCandidate F)
  filter_one threshold c =
      let recheck_score = own_or c.recheck_score threshold.recheck_score in
      let ng_score = own_or c.ng_score threshold.ng_score in
      if le ng_score c.score && leb_ℤ threshold.min_area_px c.area_px
      then (if aspect_ratio_ok c.bbox_xyxy_pixel threshold
          then as_ng c
          else if le recheck_score c.score
          then as_recheck c
          else none)
      else if le recheck_score c.score
      then as_recheck c
      else none

  unfoldable pub filter_candidates :
      DecisionThresholdConfig F → List (DefectCandidate F) → List (FilteredCandidate F)
  filter_candidates threshold [] = []
  filter_candidates threshold (c ∷ cs) =
      prepend (filter_one threshold c) (filter_candidates threshold cs)

  -- DefectFilter.filter
  unfoldable pub filter : List (DefectCandidate F) → Recipe F → List (FilteredCandidate F)
  unfolding filter_candidates
  filter candidates recipe = filter_candidates recipe.decision_threshold candidates
