-- ===== src/Rule/Decision.antt =====
-- What the decision of a seat means.
use seat_surface_aoi.Prelude.{
  ◌≡◌, refl, Bool, true, false, not, ◌&&◌, ◌⊎◌, inl, inr, some, List, [], ◌∷◌, arith, All,
  All-prepend, any, is_empty, ltb, if◌then◌else◌,
}
use seat_surface_aoi.Float.{Float}
use seat_surface_aoi.Protocol.Codes.{InspectionDecision, ok, ng, recheck}
use seat_surface_aoi.Types.{DefectCandidate, SeatInspectionJob}
use seat_surface_aoi.Config.{Recipe, DecisionThresholdConfig}
use seat_surface_aoi.Fusion.{FusedResult}
use seat_surface_aoi.Filter.{FilteredCandidate, filter, filter_candidates, filter_one}
use seat_surface_aoi.Quality.Report.{QualityReport}
use seat_surface_aoi.Rule.{escalate, is_ok, decide, decide_loop, make_quality_fail_result}

abbrev pub is_ng : {F : Type 0} → FilteredCandidate F → Bool
is_ng x = elim x.decision [ ng ↦ true | _ ↦ false ]

-- The filter decides NG or RECHECK, and nothing else.
abbrev pub IsVerdict : {F : Type 0} → FilteredCandidate F → Type 0
IsVerdict x = (x.decision ≡ ng) ⊎ (x.decision ≡ recheck)

module _ {F : Type 0} ⦃f : Float F⦄ where
  filter_one-IsVerdict :
      (t : DecisionThresholdConfig F) (c : DefectCandidate F) (x : FilteredCandidate F)
      → filter_one t c ≡ some x
      → IsVerdict x
  unfolding filter_one
  filter_one-IsVerdict t c x h = ground arith

  pub filter-IsVerdict :
      (t : DecisionThresholdConfig F) (cs : List (DefectCandidate F))
      → All IsVerdict (filter_candidates t cs)
  unfolding filter_candidates
  filter-IsVerdict t [] = tt
  filter-IsVerdict t (c ∷ cs) =
      All-prepend IsVerdict (filter_one t c) (filter_candidates t cs) (filter_one-IsVerdict t c)
        (filter-IsVerdict t cs)

module _ {F : Type 0} where
  -- The decision read off the verdicts as a whole: NG if there is one, else RECHECK if there is one.
  abbrev pub worst : List (FilteredCandidate F) → InspectionDecision
  worst xs = if any is_ng xs then ng else if is_empty xs then ok else recheck

  loop_ng : (xs : List (FilteredCandidate F)) → All IsVerdict xs → decide_loop ng xs ≡ ng
  unfolding decide_loop escalate
  loop_ng [] vs = refl
  loop_ng (x ∷ xs) vs = elim (vs.0) [
    | inl e ↦ rw (e, escalate) (loop_ng xs vs.1)
    | inr e ↦ rw (e, escalate) (loop_ng xs vs.1)
  ]

  loop_recheck :
      (xs : List (FilteredCandidate F))
      → All IsVerdict xs
      → decide_loop recheck xs ≡ (if any is_ng xs then ng else recheck)
  unfolding decide_loop escalate
  loop_recheck [] vs = refl
  loop_recheck (x ∷ xs) vs = elim (vs.0) [
    | inl e ↦ rw (e, escalate) (loop_ng xs vs.1)
    | inr e ↦ rw (e, escalate) (loop_recheck xs vs.1)
  ]

  pub loop-eq-worst :
      (xs : List (FilteredCandidate F)) → All IsVerdict xs → decide_loop ok xs ≡ worst xs
  unfolding decide_loop escalate
  loop-eq-worst [] vs = refl
  loop-eq-worst (x ∷ xs) vs = elim (vs.0) [
    | inl e ↦ rw (e, escalate) (loop_ng xs vs.1)
    | inr e ↦ rw (e, escalate) (loop_recheck xs vs.1)
  ]

module _ {F : Type 0} ⦃f : Float F⦄ where
  -- The decision for a seat is: RECHECK if the quality gate failed; else NG if some candidate is judged
  -- NG; else RECHECK if some candidate is judged RECHECK, or if candidates were dropped over the limit
  -- of fusion; else OK.
  pub decide_lem :
      (job : SeatInspectionJob F) (fused : FusedResult F) (report : QualityReport F)
      (recipe : Recipe F) (ms : F)
      → (decide job fused report recipe ms).decision ≡ (
          if report.is_pass
          then (if any is_ng (filter fused.candidates recipe)
              then ng
              else if is_empty (filter fused.candidates recipe) && not (ltb 0 fused.overflow_count)
              then ok
              else recheck)
          else recheck)
  unfolding decide make_quality_fail_result is_ok filter
  decide_lem job fused report recipe ms =
      let xs = filter_candidates recipe.decision_threshold fused.candidates in
      ground (arith, loop-eq-worst xs (filter-IsVerdict recipe.decision_threshold fused.candidates))
