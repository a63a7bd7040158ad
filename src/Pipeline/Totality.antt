-- ===== src/Pipeline/Totality.antt =====
-- What InspectionPipeline.process returns, on every path.
use seat_surface_aoi.Prelude.{
  ◌≡◌, refl, subst, Bool, true, false, not, none, some, List, [], all, arith, if◌then◌else◌,
}
use seat_surface_aoi.Prelude.Result.{Result, done, raised, ◌>>=◌, done-inj}
use seat_surface_aoi.Float.{Float}
use seat_surface_aoi.Types.{InspectionResult, SeatInspectionJob}
use seat_surface_aoi.Config.{Recipe}
use seat_surface_aoi.Quality.Report.{QualityReport}
use seat_surface_aoi.Fusion.{FusedResult, fuse}
use seat_surface_aoi.Rule.{decide, make_quality_fail_result, make_error_result, make_recheck_result}
use seat_surface_aoi.Pipeline.{
  Stages, StageError, asset_unavailable_inference, model_inference, preprocess_failed,
  asset_unavailable, other, Scope, Context, attempt, as_other, judge, try_stages, handle, handled,
  make_model_asset_unavailable_result, process,
}

-- The result is about the job.
abbrev pub IsFor : {F : Type 0} → SeatInspectionJob F → InspectionResult F → Type 0
IsFor job r =
    (r.sequence_id ≡ job.sequence_id) × (r.trigger_id ≡ job.trigger_id) × (r.seat_id ≡ job.seat_id)

module _ {F : Type 0} where
  -- Every result that a computation returns is about the job.
  abbrev Keeps :
      {E : Type 0} → SeatInspectionJob F → Result E (InspectionResult F × Context F) → Type 0
  Keeps {E} job m = (r : InspectionResult F × Context F) → m ≡ done r → IsFor job (r.0)

  Keeps-done :
      {E : Type 0} (job : SeatInspectionJob F) (r : InspectionResult F × Context F)
      → IsFor job (r.0)
      → Keeps {E = E} job (done r)
  Keeps-done job r p s e = subst (λ r. IsFor job (r.0)) (done-inj e) p

  Keeps-bind :
      {E A : Type 0} (job : SeatInspectionJob F) (m : Result E A)
      (k : A → Result E (InspectionResult F × Context F))
      → ((a : A) → Keeps job (k a))
      → Keeps job (m >>= k)
  Keeps-bind job (done a) k h = h a
  Keeps-bind job (raised e) k h = λ r e. cc

  Keeps-if :
      {E : Type 0} (job : SeatInspectionJob F) (b : Bool)
      (m k : Result E (InspectionResult F × Context F))
      → Keeps job m
      → Keeps job k
      → Keeps job (if b then m else k)
  Keeps-if job true m k p q = p
  Keeps-if job false m k p q = q

total-bind :
    {E A : Type 0} (m : Result E (Unit {0})) (k : Unit {0} → Result E A)
    → m ≡ done tt
    → (r : A) × (k tt ≡ done r)
    → (r : A) × ((m >>= k) ≡ done r)
total-bind (done tt) k e h = h
total-bind (raised x) k e h = cc

module _ {F P C G : Type 0} ⦃f : Float F⦄ (stages : Stages F P C G) where
  decide-IsFor :
      (job : SeatInspectionJob F) (fused : FusedResult F) (report : QualityReport F)
      (recipe : Recipe F) (ms : F)
      → IsFor job (decide job fused report recipe ms)
  unfolding decide make_quality_fail_result
  decide-IsFor job fused report recipe ms = ground arith

  judge-Keeps :
      (job : SeatInspectionJob F) (recipe : Recipe F) (ms : F) (report : QualityReport F)
      (cubes : List C)
      → Keeps job (judge stages job recipe ms report cubes)
  unfolding judge
  judge-Keeps job recipe ms report cubes =
      let checked : Scope F G = record { quality_report = some report; features = [] } in
      Keeps-bind job (attempt checked (stages.build_features cubes recipe)) _ (λ features.
        let built : Scope F G = record { quality_report = some report; features = features } in
        Keeps-bind job (attempt built (stages.infer features recipe)) _ (λ candidates.
          Keeps-bind job (attempt built (as_other (fuse candidates (some recipe.fusion)))) _
            (λ fused.
              Keeps-bind job (attempt built (stages.summary features)) _
                (λ u. Keeps-done job _ (decide-IsFor job fused report recipe ms)))))

  quality_fail-IsFor :
      (job : SeatInspectionJob F) (ms : F) → IsFor job (make_quality_fail_result job ms)
  unfolding make_quality_fail_result
  quality_fail-IsFor job ms = (refl, refl, refl)

  try_stages-Keeps :
      (job : SeatInspectionJob F) (recipe : Recipe F) (ms : F)
      → Keeps job (try_stages stages job recipe ms)
  unfolding try_stages
  try_stages-Keeps job recipe ms =
      let start : Scope F G = record { quality_report = none; features = [] } in
      Keeps-bind job (attempt start (stages.check job recipe)) _ (λ report.
        let checked : Scope F G = record { quality_report = some report; features = [] } in
        Keeps-if job (not report.is_pass) _ _ (Keeps-done job _ (quality_fail-IsFor job ms)) (
          Keeps-bind job (attempt checked (stages.run job recipe)) _ (λ prepared.
            Keeps-bind job (attempt checked (stages.build_cubes job prepared recipe)) _ (λ cubes.
              Keeps-if job (not (all stages.is_registered cubes)) _ _
                (Keeps-done job _ (quality_fail-IsFor job ms))
                (judge-Keeps job recipe ms report cubes)))))

  asset-Keeps :
      (job : SeatInspectionJob F) (ms : F) (scope : Scope F G)
      → Keeps job (make_model_asset_unavailable_result stages job ms scope)
  unfolding make_model_asset_unavailable_result make_recheck_result
  asset-Keeps job ms scope =
      Keeps-bind job (stages.summary scope.features) _ (λ u. Keeps-done job _ (refl, refl, refl))

  handle-Keeps :
      (job : SeatInspectionJob F) (ms : F) (e : StageError × Scope F G)
      → Keeps job (handle stages job ms e)
  unfolding handle make_error_result
  handle-Keeps job ms (asset_unavailable_inference, scope) = asset-Keeps job ms scope
  handle-Keeps job ms (model_inference, scope) = Keeps-done job _ (refl, refl, refl)
  handle-Keeps job ms (preprocess_failed, scope) = Keeps-done job _ (quality_fail-IsFor job ms)
  handle-Keeps job ms (asset_unavailable, scope) = asset-Keeps job ms scope
  handle-Keeps job ms (other, scope) = Keeps-done job _ (refl, refl, refl)

  -- The error of a stage is turned into a result.
  handle-total :
      ((gs : List G) → stages.summary gs ≡ done tt)
      → (job : SeatInspectionJob F) (ms : F) (e : StageError × Scope F G)
      → (r : InspectionResult F × Context F) × (handle stages job ms e ≡ done r)
  unfolding handle make_model_asset_unavailable_result
  handle-total h job ms (asset_unavailable_inference, scope) =
      total-bind (stages.summary scope.features) _ (h scope.features) (_, refl)
  handle-total h job ms (model_inference, scope) = (_, refl)
  handle-total h job ms (preprocess_failed, scope) = (_, refl)
  handle-total h job ms (asset_unavailable, scope) =
      total-bind (stages.summary scope.features) _ (h scope.features) (_, refl)
  handle-total h job ms (other, scope) = (_, refl)

  handled-total :
      ((gs : List G) → stages.summary gs ≡ done tt)
      → (job : SeatInspectionJob F) (ms : F)
        (m : Result (StageError × Scope F G) (InspectionResult F × Context F))
      → (r : InspectionResult F × Context F) × (handled stages job ms m ≡ done r)
  unfolding handled
  handled-total h job ms (done r) = (r, refl)
  handled-total h job ms (raised e) = handle-total h job ms e

  handled-Keeps :
      (job : SeatInspectionJob F) (ms : F)
      (m : Result (StageError × Scope F G) (InspectionResult F × Context F))
      → Keeps job m
      → Keeps job (handled stages job ms m)
  unfolding handled
  handled-Keeps job ms (done a) h = Keeps-done job a (h a refl)
  handled-Keeps job ms (raised e) h = handle-Keeps job ms e

  -- Whatever the stages raise, the pipeline returns a result, and the result is about the job: its
  -- sequence, its trigger and its seat. The summary of the features, which the handlers write too, does
  -- not raise.
  pub process-total :
      ((gs : List G) → stages.summary gs ≡ done tt)
      → (job : SeatInspectionJob F) (recipe : Recipe F) (ms : F)
      → (r : InspectionResult F × Context F) × (process stages job recipe ms ≡ done r)
        × IsFor job (r.0)
  unfolding process
  process-total h job recipe ms =
      let tried = try_stages stages job recipe ms in
      let (r, e) = handled-total h job ms tried in
      (r, e, handled-Keeps job ms tried (try_stages-Keeps job recipe ms) r e)

  pub process-IsFor :
      (job : SeatInspectionJob F) (recipe : Recipe F) (ms : F) (r : InspectionResult F × Context F)
      → process stages job recipe ms ≡ done r
      → IsFor job (r.0)
  unfolding process
  process-IsFor job recipe ms =
      handled-Keeps job ms (try_stages stages job recipe ms) (try_stages-Keeps job recipe ms)
