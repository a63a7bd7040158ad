-- ===== src/Chain.antt =====
-- Fusion, filter and rule engine together, as python_detector/pipeline/pipeline.py runs them.
use seat_surface_aoi.Prelude.{
  ◌≡◌, sym, ◌∙◌, true, false, none, some, List, [], arith, All, All-zip, Any, Any-find, Any-map,
  All-map,
}
use seat_surface_aoi.Prelude.Result.{done}
use seat_surface_aoi.Float.{Float, IsOrdered}
use seat_surface_aoi.Protocol.Codes.{ok}
use seat_surface_aoi.Types.{DefectCandidate, SeatInspectionJob}
use seat_surface_aoi.Config.{Recipe}
use seat_surface_aoi.Quality.Report.{QualityReport}
use seat_surface_aoi.Fusion.{key_of, FusedResult, fuse}
use seat_surface_aoi.Fusion.Coverage.{Covers}
use seat_surface_aoi.Fusion.Evidence.{fuse-Covers}
use seat_surface_aoi.Fusion.Origin.{IsFrom, fuse-IsFrom}
use seat_surface_aoi.Filter.{filter, filter_one, own_or}
use seat_surface_aoi.Filter.Thresholds.{dropped-low, filter_empty_iff}
use seat_surface_aoi.Rule.{decide}
use seat_surface_aoi.Rule.Decision.{decide_lem}

module _ {F : Type 0} ⦃f : Float F⦄ where
  decided_ok :
      (job : SeatInspectionJob F) (fused : FusedResult F) (report : QualityReport F)
      (recipe : Recipe F) (ms : F)
      → (decide job fused report recipe ms).decision ≡ ok
      → (report.is_pass ≡ true) × (fused.overflow_count ≡ 0) × (filter fused.candidates recipe ≡ [])
  decided_ok job fused report recipe ms h = ground (arith, decide_lem job fused report recipe ms)

  -- The candidate `k` is of the place of `c`, has no lower score, and stays below its RECHECK threshold:
  -- its own or, where it has none, that of the recipe.
  pub record IsClearedBy (recipe : Recipe F) (c k : DefectCandidate F) : Type 0 where
    pub key : key_of k ≡ key_of c
    pub score : f.le c.score k.score ≡ true
    pub below :
        f.le (own_or k.recheck_score recipe.decision_threshold.recheck_score) k.score ≡ false

  -- Each candidate is cleared by one of them.
  abbrev pub AreCleared : Recipe F → List (DefectCandidate F) → Type 0
  AreCleared recipe cs = All (λ c. Any (IsClearedBy recipe c) cs) cs

  cleared_by :
      (recipe : Recipe F) (c out k : DefectCandidate F)
      → Covers out c
      → filter_one recipe.decision_threshold out ≡ none
      → IsFrom out k
      → IsClearedBy recipe c k
  cleared_by recipe c out k cover dropped origin = record {
    key = sym origin.key ∙ cover.key;
    score = cc (cover.score, origin.score);
    below = cc (dropped-low recipe.decision_threshold out dropped, origin.score, origin.threshold);
  }

  too_low :
      (laws : IsOrdered F) (recipe : Recipe F) (c k : DefectCandidate F)
      → IsClearedBy recipe c k
      → k.recheck_score ≡ none
      → f.le recipe.decision_threshold.recheck_score c.score ≡ false
  too_low laws recipe c k clear common = ground (
    arith,
    clear.score,
    clear.below,
    laws.le_trans recipe.decision_threshold.recheck_score c.score k.score,
  )

  -- If a seat is decided OK and fusion returned, then the quality gate passed, fusion dropped nothing
  -- over its limit, and for each candidate that the models reported, before fusion, there is one that
  -- they reported for the same camera, pose and ROI, whose score is no lower and yet does not reach
  -- its RECHECK threshold: its own or, where it has none, that of the recipe.
  pub ok_safe :
      (laws : IsOrdered F) (cs : List (DefectCandidate F)) (job : SeatInspectionJob F)
      (report : QualityReport F) (recipe : Recipe F) (ms : F) {fused : FusedResult F}
      → fuse cs (some recipe.fusion) ≡ done fused
      → (decide job fused report recipe ms).decision ≡ ok
      → (report.is_pass ≡ true) × (fused.overflow_count ≡ 0) × AreCleared recipe cs
  unfolding filter
  ok_safe laws cs job report recipe ms {fused} h decided =
      let (passed, none_lost, clean) = decided_ok job fused report recipe ms decided in
      let dropped = (filter_empty_iff recipe.decision_threshold fused.candidates).0 clean in
      let both =
        All-zip _ _ (λ out. Any (IsFrom out) cs × (filter_one recipe.decision_threshold out ≡ none))
          fused.candidates (λ out p q. (p, q)) (fuse-IsFrom laws cs (some recipe.fusion) h)
          dropped in
      (
        passed,
        none_lost,
        All-map _ _ cs
            (λ c covered.
              let (out, cover, facts) = Any-find _ fused.candidates covered both in
              Any-map _ _ cs (λ k. cleared_by recipe c out k cover facts.1) facts.0)
            (fuse-Covers laws cs (some recipe.fusion) h none_lost),
      )

  -- Where no candidate has a threshold of its own, none reaches that of the recipe.
  AreCleared-common :
      (laws : IsOrdered F) (recipe : Recipe F) (cs : List (DefectCandidate F))
      → AreCleared recipe cs
      → All (λ c. c.recheck_score ≡ none) cs
      → All (λ c. f.le recipe.decision_threshold.recheck_score c.score ≡ false) cs
  AreCleared-common laws recipe cs h common =
      All-map _ _ cs
        (λ c a.
          let (k, clear, none_own) = Any-find _ cs a common in
          too_low laws recipe c k clear none_own)
        h
