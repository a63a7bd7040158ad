-- ===== src/Detector/Inspected.antt =====
-- The run of a job before it is published: what stands behind an OK, and whose result it is.
use seat_surface_aoi.Prelude.{◌≡◌, ◌≢◌, refl, subst, String, false, Option, none, some}
use seat_surface_aoi.Prelude.Dict.{Dict}
use seat_surface_aoi.Prelude.Result.{Result, done, raised, done-inj}
use seat_surface_aoi.Float.{Float, IsOrdered}
use seat_surface_aoi.Protocol.Codes.{ok}
use seat_surface_aoi.Types.{InspectionResult, SeatInspectionJob}
use seat_surface_aoi.Config.{Recipe}
use seat_surface_aoi.Config.Values.{Checked}
use seat_surface_aoi.Config.Schema.{load}
use seat_surface_aoi.Pipeline.{Stages, StageError, Context, process as run_pipeline}
use seat_surface_aoi.Pipeline.Safety.{IsInspected, process-IsInspected}
use seat_surface_aoi.Pipeline.Totality.{IsFor, process-IsFor}
use seat_surface_aoi.Algorithm.{
  AlgorithmRun, Tracer, chosen_recipe_id, crash_result, pipeline_run, run_loaded, process,
}
use seat_surface_aoi.Detector.{demote, kept_trace, trace_of, write_result_trace, inspected}

module _ {F : Type 0} ⦃f : Float F⦄ where
  -- Where no trace is kept, the result is not OK.
  demote-not-ok : (run : AlgorithmRun F) → (demote run).result.decision ≢ ok
  unfolding demote
  demote-not-ok run h = cc

  demote-IsFor :
      (job : SeatInspectionJob F) (run : AlgorithmRun F)
      → IsFor job run.result
      → IsFor job (demote run).result
  unfolding demote
  demote-IsFor job run h = h

  crash-not-ok : (job : SeatInspectionJob F) → (crash_result job).decision ≢ ok
  unfolding crash_result
  crash-not-ok job h = cc

  -- The recipe of a job was there and its trace was kept.
  pub record IsTraced (tracer : Tracer F) (recipes : Dict String (Recipe F))
      (job : SeatInspectionJob F) (result : InspectionResult F) (recipe : Recipe F) : Type 0 where
    pub found : load recipes job.recipe_id ≡ done recipe
    pub trace_dir : String
    pub kept : tracer.write_result_only job recipe result ≡ some trace_dir

  module _ {P C G : Type 0} (stages : Stages F P C G) (tracer : Tracer F) where
    run_loaded-ok :
        (job : SeatInspectionJob F) (ms : F) (m : Checked (Recipe F)) (recipe : Recipe F)
        → m ≡ done recipe
        → (run_loaded stages tracer job false ms m).result.decision ≡ ok
        → (r : InspectionResult F × Context F) × (run_pipeline stages job recipe ms ≡ done r)
          × ((r.0).decision ≡ ok)
    unfolding run_loaded pipeline_run
    run_loaded-ok job ms (raised e) recipe h k = cc
    run_loaded-ok job ms (done own) recipe h k =
        subst
          (λ recipe.
            (r : InspectionResult F × Context F) × (run_pipeline stages job recipe ms ≡ done r)
            × ((r.0).decision ≡ ok))
          (done-inj h) (ran (run_pipeline stages job own ms) k)
      where
        ran :
            (m : Result StageError (InspectionResult F × Context F))
            → ((pipeline_run job m).0).decision ≡ ok
            → (r : InspectionResult F × Context F) × (m ≡ done r) × ((r.0).decision ≡ ok)
        ran (done r) e = (r, refl, e)
        ran (raised x) e = absurd (crash-not-ok job e)

    run_loaded-IsFor :
        (job : SeatInspectionJob F) (ms : F) (m : Checked (Recipe F))
        → IsFor job (run_loaded stages tracer job false ms m).result
    unfolding run_loaded crash_result pipeline_run
    run_loaded-IsFor job ms (raised e) = (refl, refl, refl)
    run_loaded-IsFor job ms (done recipe) =
        ran (run_pipeline stages job recipe ms) (process-IsFor stages job recipe ms)
      where
        ran :
            (m : Result StageError (InspectionResult F × Context F))
            → ((r : InspectionResult F × Context F) → m ≡ done r → IsFor job (r.0))
            → IsFor job ((pipeline_run job m).0)
        ran (done r) h = h r refl
        ran (raised e) h = (refl, refl, refl)

    trace_of-ok :
        (job : SeatInspectionJob F) (recipes : Dict String (Recipe F)) (run : AlgorithmRun F)
        (m : Checked (Recipe F))
        → load recipes job.recipe_id ≡ m
        → (trace_of tracer job run m).0.result.decision ≡ ok
        → (recipe : Recipe F) × (run.result.decision ≡ ok)
          × IsTraced tracer recipes job (trace_of tracer job run m).0.result recipe
    unfolding trace_of kept_trace
    trace_of-ok job recipes run (raised e) h k = absurd (demote-not-ok run k)
    trace_of-ok job recipes run (done recipe) h k =
        kept (tracer.write_result_only job recipe run.result) refl k
      where
        kept :
            (o : Option String)
            → tracer.write_result_only job recipe run.result ≡ o
            → (kept_trace run recipe o).0.result.decision ≡ ok
            → (own : Recipe F) × (run.result.decision ≡ ok)
              × IsTraced tracer recipes job (kept_trace run recipe o).0.result own
        kept (some dir) e g = (recipe, g, record { found = h; trace_dir = dir; kept = e })
        kept none e g = absurd (demote-not-ok run g)

    trace_of-IsFor :
        (job : SeatInspectionJob F) (run : AlgorithmRun F) (m : Checked (Recipe F))
        → IsFor job run.result
        → IsFor job (trace_of tracer job run m).0.result
    unfolding trace_of kept_trace
    trace_of-IsFor job run (raised e) h = demote-IsFor job run h
    trace_of-IsFor job run (done recipe) h = kept (tracer.write_result_only job recipe run.result)
      where
        kept : (o : Option String) → IsFor job (kept_trace run recipe o).0.result
        kept (some dir) = h
        kept none = demote-IsFor job run h

    pub inspected-IsFor :
        (recipes : Dict String (Recipe F)) (job : SeatInspectionJob F) (ms : F)
        → IsFor job (inspected stages tracer recipes job ms).0.result
    unfolding inspected write_result_trace process chosen_recipe_id
    inspected-IsFor recipes job ms =
        trace_of-IsFor job (process stages tracer recipes job none false ms)
          (load recipes job.recipe_id) (run_loaded-IsFor job ms (load recipes job.recipe_id))

    -- The inspection of a job gives OK only where the recipe of the job was there, every stage of the
    -- pipeline returned with nothing to report, and the trace was kept.
    pub inspected-ok :
        (laws : IsOrdered F) (recipes : Dict String (Recipe F)) (job : SeatInspectionJob F) (ms : F)
        → (inspected stages tracer recipes job ms).0.result.decision ≡ ok
        → (recipe : Recipe F) × IsInspected stages job recipe
          × IsTraced tracer recipes job (inspected stages tracer recipes job ms).0.result recipe
    unfolding inspected write_result_trace process chosen_recipe_id
    inspected-ok laws recipes job ms h =
        let run = process stages tracer recipes job none false ms in
        let (recipe, decided, traced) =
          trace_of-ok job recipes run (load recipes job.recipe_id) refl h in
        let (r, returned, was_ok) =
          run_loaded-ok job ms (load recipes job.recipe_id) recipe traced.found decided in
        (recipe, process-IsInspected stages laws job recipe ms returned was_ok, traced)
