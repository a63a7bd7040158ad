-- ===== src/Algorithm.antt =====
-- python_detector/algorithm.py. The recipes that the RecipeManager holds and the TraceWriter are parameters;
-- an operation that raises returns none.
use seat_surface_aoi.Prelude.{String, Bool, false, Option, none, some, [], str_eq, if◌then◌else◌}
use seat_surface_aoi.Prelude.Dict.{Dict}
use seat_surface_aoi.Prelude.Result.{Result, done, raised}
use seat_surface_aoi.Float.{Float}
use seat_surface_aoi.Protocol.Codes.{error, recheck, internal_error, device_fault}
use seat_surface_aoi.Types.{InspectionResult, SeatInspectionJob}
use seat_surface_aoi.Config.{Recipe}
use seat_surface_aoi.Config.Values.{Checked}
use seat_surface_aoi.Config.Schema.{load}
use seat_surface_aoi.Pipeline.{
  Stages, StageError, other, Context, error_context, process as run_pipeline,
}

pub record AlgorithmRun (F : Type 0) : Type 0 where
  pub result : InspectionResult F
  pub context : Context F
  pub trace_dir : Option String

-- The two operations of the TraceWriter, with the directory that they return.
pub record Tracer (F : Type 0) : Type 0 where
  pub write : SeatInspectionJob F → Recipe F → InspectionResult F → Context F → Option String
  pub write_result_only : SeatInspectionJob F → Recipe F → InspectionResult F → Option String

-- recipe_id or job.recipe_id
unfoldable pub chosen_recipe_id : Option String → String → String
chosen_recipe_id none own = own
chosen_recipe_id (some s) own = if str_eq s "" then own else s

module _ {F : Type 0} ⦃f : Float F⦄ where
  -- The result of a job for which the recipe or the pipeline raised.
  unfoldable pub crash_result : SeatInspectionJob F → InspectionResult F
  crash_result job = record {
    sequence_id = job.sequence_id;
    trigger_id = job.trigger_id;
    seat_id = job.seat_id;
    decision = error;
    defects = [];
    quality_pass = false;
    error_code = internal_error;
    elapsed_ms = f.nought;
  }

  -- The result of a job whose trace could not be written.
  unfoldable pub untraced_result : SeatInspectionJob F → InspectionResult F → InspectionResult F
  untraced_result job result = record {
    sequence_id = job.sequence_id;
    trigger_id = job.trigger_id;
    seat_id = job.seat_id;
    decision = recheck;
    defects = result.defects;
    quality_pass = false;
    error_code = device_fault;
    elapsed_ms = result.elapsed_ms;
  }

  unfoldable pub pipeline_run :
      SeatInspectionJob F
      → Result StageError (InspectionResult F × Context F)
      → InspectionResult F × Context F
  unfolding crash_result
  pipeline_run job (done r) = r
  pipeline_run job (raised e) = (crash_result job, error_context e)

  unfoldable pub traced_run :
      SeatInspectionJob F → InspectionResult F × Context F → Option String → AlgorithmRun F
  unfolding untraced_result
  traced_run job (result, context) (some dir) = record {
    result = result;
    context = context;
    trace_dir = some dir;
  }
  traced_run job (result, context) none = record {
    result = untraced_result job result;
    context = context;
    trace_dir = none;
  }

  module _ {P C G : Type 0} (stages : Stages F P C G) (tracer : Tracer F) where
    -- What follows `recipe_manager.load`.
    unfoldable pub run_loaded : SeatInspectionJob F → Bool → F → Checked (Recipe F) → AlgorithmRun F
    unfolding crash_result pipeline_run traced_run run_pipeline
    run_loaded job write_trace ms (raised e) = record {
      result = crash_result job;
      context = error_context other;
      trace_dir = none;
    }
    run_loaded job write_trace ms (done recipe) =
        let run = pipeline_run job (run_pipeline stages job recipe ms) in
        if write_trace
        then traced_run job run (tracer.write job recipe (run.0) (run.1))
        else record { result = run.0; context = run.1; trace_dir = none }

    -- SeatSurfaceAoiAlgorithm.process
    unfoldable pub process :
        Dict String (Recipe F) → SeatInspectionJob F → Option String → Bool → F → AlgorithmRun F
    unfolding run_loaded chosen_recipe_id load
    process recipes job recipe_id write_trace ms =
        run_loaded job write_trace ms (load recipes (chosen_recipe_id recipe_id job.recipe_id))
