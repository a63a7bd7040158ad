-- ===== src/Pipeline/Safety.antt =====
-- When InspectionPipeline.process decides OK.
use seat_surface_aoi.Prelude.{
  ◌≡◌, ◌≢◌, refl, ap, ◌∙◌, Bool, true, false, not, none, some, List, [], arith, all, if◌then◌else◌,
}
use seat_surface_aoi.Prelude.Result.{Result, done, raised, >>=-eq-done, done-inj}
use seat_surface_aoi.Float.{Float, IsOrdered}
use seat_surface_aoi.Protocol.Codes.{ok}
use seat_surface_aoi.Types.{DefectCandidate, InspectionResult, SeatInspectionJob}
use seat_surface_aoi.Config.{Recipe}
use seat_surface_aoi.Quality.Report.{QualityReport}
use seat_surface_aoi.Fusion.{FusedResult, FusionError, fuse}
use seat_surface_aoi.Rule.{make_quality_fail_result, make_error_result, make_recheck_result}
use seat_surface_aoi.Chain.{AreCleared, ok_safe}
use seat_surface_aoi.Pipeline.{
  Stages, StageError, asset_unavailable_inference, model_inference, preprocess_failed,
  asset_unavailable, other, Scope, Context, attempt, as_other, judge, try_stages, handle, handled,
  make_model_asset_unavailable_result, process,
}

attempt-eq-done :
    {F G A : Type 0} (scope : Scope F G) (m : Result StageError A) {a : A}
    → attempt scope m ≡ done a
    → m ≡ done a
unfolding attempt
attempt-eq-done scope (done b) h = cc
attempt-eq-done scope (raised e) h = cc

as_other-eq-done :
    {A : Type 0} (m : Result FusionError A) {a : A} → as_other m ≡ done a → m ≡ done a
unfolding as_other
as_other-eq-done (done b) h = cc
as_other-eq-done (raised e) h = cc

quality_fail-not-ok :
    {F : Type 0} (job : SeatInspectionJob F) (ms : F)
    → (make_quality_fail_result job ms).decision ≢ ok
unfolding make_quality_fail_result
quality_fail-not-ok job ms h = cc

-- An early return that is not OK was not taken.
guard-eq-ok :
    {E F : Type 0} (b : Bool) (early : InspectionResult F × Context F)
    (m : Result E (InspectionResult F × Context F)) {r : InspectionResult F × Context F}
    → (early.0).decision ≢ ok
    → (if not b then done early else m) ≡ done r
    → (r.0).decision ≡ ok
    → (b ≡ true) × (m ≡ done r)
guard-eq-ok true early m bad h k = (refl, h)
guard-eq-ok false early m bad h k = absurd (bad (ap (λ r. (r.0).decision) (done-inj h) ∙ k))

module _ {F P C G : Type 0} ⦃f : Float F⦄ (stages : Stages F P C G) where
  pub record IsJudged (recipe : Recipe F) (cubes : List C) : Type 0 where
    pub features : List G
    pub described : stages.build_features cubes recipe ≡ done features
    pub candidates : List (DefectCandidate F)
    pub inferred : stages.infer features recipe ≡ done candidates
    pub fused : FusedResult F
    pub merged : fuse candidates (some recipe.fusion) ≡ done fused
    pub complete : fused.overflow_count ≡ 0
    pub clean : AreCleared recipe candidates

  -- What stands behind a seat that is decided OK: every stage returned, the gate passed, every cube is
  -- registered, fusion dropped nothing, and each candidate is cleared by one of its place whose score is
  -- no lower and does not reach its RECHECK threshold.
  pub record IsInspected (job : SeatInspectionJob F) (recipe : Recipe F) : Type 0 where
    pub report : QualityReport F
    pub checked : stages.check job recipe ≡ done report
    pub passed : report.is_pass ≡ true
    pub prepared : List P
    pub ran : stages.run job recipe ≡ done prepared
    pub cubes : List C
    pub built : stages.build_cubes job prepared recipe ≡ done cubes
    pub registered : all stages.is_registered cubes ≡ true
    pub judged : IsJudged recipe cubes

  -- A seat that the handlers report is never OK.
  handle-not-ok :
      (job : SeatInspectionJob F) (ms : F) (e : StageError × Scope F G)
      {r : InspectionResult F × Context F}
      → handle stages job ms e ≡ done r
      → (r.0).decision ≢ ok
  unfolding handle make_model_asset_unavailable_result make_error_result make_quality_fail_result
      make_recheck_result
  handle-not-ok job ms (asset_unavailable_inference, scope) h k = ground arith
  handle-not-ok job ms (model_inference, scope) h k = ground arith
  handle-not-ok job ms (preprocess_failed, scope) h k = ground arith
  handle-not-ok job ms (asset_unavailable, scope) h k = ground arith
  handle-not-ok job ms (other, scope) h k = ground arith

  handled-ok :
      (job : SeatInspectionJob F) (ms : F)
      (m : Result (StageError × Scope F G) (InspectionResult F × Context F))
      {r : InspectionResult F × Context F}
      → handled stages job ms m ≡ done r
      → (r.0).decision ≡ ok
      → m ≡ done r
  unfolding handled
  handled-ok job ms (done a) h k = cc
  handled-ok job ms (raised e) h k = absurd (handle-not-ok job ms e h k)

  judge-ok :
      (laws : IsOrdered F) (job : SeatInspectionJob F) (recipe : Recipe F) (ms : F)
      (report : QualityReport F) (cubes : List C) {r : InspectionResult F × Context F}
      → judge stages job recipe ms report cubes ≡ done r
      → (r.0).decision ≡ ok
      → IsJudged recipe cubes
  unfolding judge
  judge-ok laws job recipe ms report cubes {r} h k =
      let checked : Scope F G = record { quality_report = some report; features = [] } in
      let (features, e3, h5) =
        >>=-eq-done (attempt checked (stages.build_features cubes recipe)) _ h in
      let built : Scope F G = record { quality_report = some report; features = features } in
      let (candidates, e4, h6) = >>=-eq-done (attempt built (stages.infer features recipe)) _ h5 in
      let (fused, e5, h7) =
        >>=-eq-done (attempt built (as_other (fuse candidates (some recipe.fusion)))) _ h6 in
      let (u, e6, h8) = >>=-eq-done (attempt built (stages.summary features)) _ h7 in
      let inferred = attempt-eq-done built (stages.infer features recipe) e4 in
      let merged =
        as_other-eq-done (fuse candidates (some recipe.fusion))
          (attempt-eq-done built (as_other (fuse candidates (some recipe.fusion))) e5) in
      let same = ap (λ r. (r.0).decision) (done-inj h8) in
      let (pass, complete, clean) =
        ok_safe laws candidates job report recipe ms {fused = fused} merged (same ∙ k) in
      record {
        features = features;
        described = attempt-eq-done checked (stages.build_features cubes recipe) e3;
        candidates = candidates;
        inferred = inferred;
        fused = fused;
        merged = merged;
        complete = complete;
        clean = clean;
      }

  try_stages-ok :
      (laws : IsOrdered F) (job : SeatInspectionJob F) (recipe : Recipe F) (ms : F)
      {r : InspectionResult F × Context F}
      → try_stages stages job recipe ms ≡ done r
      → (r.0).decision ≡ ok
      → IsInspected job recipe
  unfolding try_stages
  try_stages-ok laws job recipe ms {r} h k =
      let start : Scope F G = record { quality_report = none; features = [] } in
      let (report, e0, h0) = >>=-eq-done (attempt start (stages.check job recipe)) _ h in
      let (passed, h1) = guard-eq-ok report.is_pass _ _ (quality_fail-not-ok job ms) h0 k in
      let checked : Scope F G = record { quality_report = some report; features = [] } in
      let (prepared, e1, h2) = >>=-eq-done (attempt checked (stages.run job recipe)) _ h1 in
      let (cubes, e2, h3) =
        >>=-eq-done (attempt checked (stages.build_cubes job prepared recipe)) _ h2 in
      let (registered, h4) =
        guard-eq-ok (all stages.is_registered cubes) _ _ (quality_fail-not-ok job ms) h3 k in
      record {
        report = report;
        checked = attempt-eq-done start _ e0;
        passed = passed;
        prepared = prepared;
        ran = attempt-eq-done checked _ e1;
        cubes = cubes;
        built = attempt-eq-done checked _ e2;
        registered = registered;
        judged = judge-ok laws job recipe ms report cubes h4 k;
      }

  -- A seat is decided OK only where every stage returned, the quality gate passed, every cube is
  -- registered, fusion dropped nothing over its limit, and for each candidate that the models reported
  -- there is one that they reported for the same camera, pose and ROI, whose score is no lower and yet
  -- does not reach its RECHECK threshold: its own or, where it has none, that of the recipe.
  pub process-IsInspected :
      (laws : IsOrdered F) (job : SeatInspectionJob F) (recipe : Recipe F) (ms : F)
      {r : InspectionResult F × Context F}
      → process stages job recipe ms ≡ done r
      → (r.0).decision ≡ ok
      → IsInspected job recipe
  unfolding process
  process-IsInspected laws job recipe ms h k =
      try_stages-ok laws job recipe ms (handled-ok job ms (try_stages stages job recipe ms) h k) k
