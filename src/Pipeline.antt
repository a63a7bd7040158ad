-- ===== src/Pipeline.antt =====
-- `InspectionPipeline.process` of python_detector/pipeline/pipeline.py. The stages that compute on images
-- are an interface: each returns its value or raises. `elapsed_ms` is the time at the return. Of
-- `last_context` the model keeps which of its forms is written; timings and summaries are left out.
pub mod Safety
pub mod Totality
use seat_surface_aoi.Prelude.{
  ℕ, String, Bool, true, false, not, Option, none, some, List, [], ◌∷◌, ◌++◌, length, all,
  if◌then◌else◌,
}
use seat_surface_aoi.Prelude.Result.{Result, done, raised, ◌>>=◌}
use seat_surface_aoi.Float.{Float}
use seat_surface_aoi.Protocol.Codes.{internal_error, configuration_error}
use seat_surface_aoi.Types.{DefectCandidate, InspectionResult, SeatInspectionJob}
use seat_surface_aoi.Config.{Recipe}
use seat_surface_aoi.Quality.Report.{
  QualityReport, Message, registration_failed, preprocess_recheck,
}
use seat_surface_aoi.Fusion.{FusedResult, FusionError, fuse}
use seat_surface_aoi.Rule.{decide, make_quality_fail_result, make_error_result, make_recheck_result}

-- An exception, by the `except` clause that catches it.
pub data StageError : Type 0 where
  asset_unavailable_inference model_inference preprocess_failed asset_unavailable other : StageError

-- `P`, `C` and `G` are the prepared bundles, the cubes and the groups of features.
pub record Stages (F P C G : Type 0) : Type 0 where
  pub check : SeatInspectionJob F → Recipe F → Result StageError (QualityReport F)
  pub run : SeatInspectionJob F → Recipe F → Result StageError (List P)
  pub build_cubes : SeatInspectionJob F → List P → Recipe F → Result StageError (List C)
  pub is_registered : C → Bool
  pub build_features : List C → Recipe F → Result StageError (List G)
  pub infer : List G → Recipe F → Result StageError (List (DefectCandidate F))
  pub summary : List G → Result StageError (Unit {0})

pub data Context (F : Type 0) : Type 0 where
  no_context : Context F
  quality_context registration_context : QualityReport F → Context F
  recheck_context asset_context : Option (QualityReport F) → Context F
  decided_context : QualityReport F → ℕ → FusedResult F → Context F
  error_context : StageError → Context F

-- The variables that the handlers read.
pub record Scope (F G : Type 0) : Type 0 where
  pub quality_report : Option (QualityReport F)
  pub features : List G

unfoldable pub fail_report : {F : Type 0} → QualityReport F → Message → QualityReport F
fail_report report message = record report {
  is_pass = false;
  messages = report.messages ++ message ∷ [];
}

-- An exception leaves the `try` block with the variables as they are.
unfoldable pub attempt :
    {F G A : Type 0} → Scope F G → Result StageError A → Result (StageError × Scope F G) A
attempt scope (done a) = done a
attempt scope (raised e) = raised (e, scope)

-- The ValueError of the fusion engine
unfoldable pub as_other : {A : Type 0} → Result FusionError A → Result StageError A
as_other (done a) = done a
as_other (raised e) = raised other

-- bool(getattr(quality_report, "is_pass", False))
unfoldable pub has_passed : {F : Type 0} → Option (QualityReport F) → Bool
has_passed none = false
has_passed (some report) = report.is_pass

unfoldable pub fail_if_given : {F : Type 0} → Option (QualityReport F) → Option (QualityReport F)
unfolding fail_report
fail_if_given none = none
fail_if_given (some report) = some (fail_report report preprocess_recheck)

module _ {F P C G : Type 0} ⦃f : Float F⦄ (stages : Stages F P C G) where
  -- The `try` block from the features on.
  unfoldable pub judge :
      SeatInspectionJob F
      → Recipe F
      → F
      → QualityReport F
      → List C
      → Result (StageError × Scope F G) (InspectionResult F × Context F)
  unfolding attempt as_other decide fuse
  judge job recipe elapsed_ms report cubes = do
    let checked : Scope F G = record { quality_report = some report; features = [] }
    features ← attempt checked (stages.build_features cubes recipe)
    let built : Scope F G = record { quality_report = some report; features = features }
    candidates ← attempt built (stages.infer features recipe)
    fused ← attempt built (as_other (fuse candidates (some recipe.fusion)))
    u ← attempt built (stages.summary features)
    done (
      decide job fused report recipe elapsed_ms,
      decided_context report (length candidates) fused,
    )

  -- The `try` block.
  unfoldable pub try_stages :
      SeatInspectionJob F
      → Recipe F
      → F
      → Result (StageError × Scope F G) (InspectionResult F × Context F)
  unfolding attempt fail_report make_quality_fail_result judge
  try_stages job recipe elapsed_ms = do
    let start : Scope F G = record { quality_report = none; features = [] }
    report ← attempt start (stages.check job recipe)
    if not report.is_pass
        then done (make_quality_fail_result job elapsed_ms, quality_context report)
        else do
          let checked : Scope F G = record { quality_report = some report; features = [] }
          prepared ← attempt checked (stages.run job recipe)
          cubes ← attempt checked (stages.build_cubes job prepared recipe)
          if not (all stages.is_registered cubes)
              then done (
                make_quality_fail_result job elapsed_ms,
                registration_context (fail_report report registration_failed),
              )
              else judge job recipe elapsed_ms report cubes

  -- _make_model_asset_unavailable_result
  unfoldable pub make_model_asset_unavailable_result :
      SeatInspectionJob F → F → Scope F G → Result StageError (InspectionResult F × Context F)
  unfolding make_recheck_result has_passed
  make_model_asset_unavailable_result job elapsed_ms scope = do
    u ← stages.summary scope.features
    done (
      make_recheck_result job configuration_error elapsed_ms (has_passed scope.quality_report),
      asset_context scope.quality_report,
    )

  -- The `except` clauses.
  unfoldable pub handle :
      SeatInspectionJob F
      → F
      → StageError × Scope F G
      → Result StageError (InspectionResult F × Context F)
  unfolding make_model_asset_unavailable_result make_error_result make_quality_fail_result
      fail_if_given
  handle job elapsed_ms (asset_unavailable_inference, scope) =
      make_model_asset_unavailable_result job elapsed_ms scope
  handle job elapsed_ms (model_inference, scope) =
      done (make_error_result job internal_error elapsed_ms, error_context model_inference)
  handle job elapsed_ms (preprocess_failed, scope) = done (
    make_quality_fail_result job elapsed_ms,
    recheck_context (fail_if_given scope.quality_report),
  )
  handle job elapsed_ms (asset_unavailable, scope) =
      make_model_asset_unavailable_result job elapsed_ms scope
  handle job elapsed_ms (other, scope) =
      done (make_error_result job internal_error elapsed_ms, error_context other)

  unfoldable pub handled :
      SeatInspectionJob F
      → F
      → Result (StageError × Scope F G) (InspectionResult F × Context F)
      → Result StageError (InspectionResult F × Context F)
  unfolding handle
  handled job elapsed_ms (done r) = done r
  handled job elapsed_ms (raised e) = handle job elapsed_ms e

  -- InspectionPipeline.process
  unfoldable pub process :
      SeatInspectionJob F → Recipe F → F → Result StageError (InspectionResult F × Context F)
  unfolding handled try_stages
  process job recipe elapsed_ms = handled job elapsed_ms (try_stages job recipe elapsed_ms)
