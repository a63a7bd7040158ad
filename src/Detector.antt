-- ===== src/Detector.antt =====
-- DetectorProcess of python_detector/detector_main.py. A detector that is initialized has a client of the
-- shared memory; the threads that complete a trace are the list of what they are started with.
pub mod Inspected
pub mod Published
pub mod Gated
pub mod Once
use seat_surface_aoi.Prelude.{String, Bool, true, false, Option, none, some, List, [], ◌∷◌, ◌++◌, ℕ}
use seat_surface_aoi.Prelude.Dict.{Dict}
use seat_surface_aoi.Prelude.Result.{Result, done, raised}
use seat_surface_aoi.Float.{Float}
use seat_surface_aoi.Protocol.Codes.{recheck, device_fault}
use seat_surface_aoi.Protocol.Layout.{Codec, Packs}
use seat_surface_aoi.Protocol.Bytes.{Memory}
use seat_surface_aoi.Types.{InspectionResult, SeatInspectionJob}
use seat_surface_aoi.Config.{Recipe}
use seat_surface_aoi.Config.Values.{Checked}
use seat_surface_aoi.Config.Schema.{load}
use seat_surface_aoi.Shm.Client.{ShmClient, Digits, release_frame_slot}
use seat_surface_aoi.Shm.Publish.{Round, Outcome, published, failed, timed_out, publish_result}
use seat_surface_aoi.Shm.Frames.{Unpacks}
use seat_surface_aoi.Shm.Jobs.{Scan, wait_next_job}
use seat_surface_aoi.Pipeline.{Stages}
use seat_surface_aoi.Algorithm.{AlgorithmRun, Tracer, process}

-- What a thread of _start_trace_completion is started with. The pixels of the job, which
-- _snapshot_job_images copies, are read from `frames`, the memory as it was before publishing.
pub record TraceCompletion (F : Type 0) : Type 0 where
  pub trace_dir : String
  pub job : SeatInspectionJob F
  pub frames : Memory
  pub recipe : Recipe F
  pub run : AlgorithmRun F
  pub display_timestamp_ms : Option ℕ

pub record DetectorProcess (F : Type 0) : Type 0 where
  pub shm_client : ShmClient
  pub trace_threads : List (TraceCompletion F)

-- One turn of the loop of run_once: the scans of a wait, then the rounds of publishing.
pub record Turn (F : Type 0) : Type 0 where
  pub scans : List Scan
  pub rounds : List Round
  pub elapsed_ms : F

-- `True`, with the result that is printed; `False`; or the exception of publishing.
pub data RunOnce (F : Type 0) : Type 0 where
  processed : InspectionResult F → RunOnce F
  no_job raised_publish : RunOnce F

abbrev pub outcome_of : {F : Type 0} → Option (InspectionResult F) → RunOnce F
outcome_of (some result) = processed result
outcome_of none = raised_publish

module _ {F : Type 0} where
  -- The assignments of the `except` clause of _write_result_trace to the result, which is shared.
  unfoldable pub demote : AlgorithmRun F → AlgorithmRun F
  demote run = record run {
    result = record run.result {
      decision = recheck;
      quality_pass = false;
      error_code = device_fault;
    };
  }

  unfoldable pub kept_trace :
      AlgorithmRun F → Recipe F → Option String → AlgorithmRun F × Option (String × Recipe F)
  unfolding demote
  kept_trace run recipe (some trace_dir) = (run, some (trace_dir, recipe))
  kept_trace run recipe none = (demote run, none)

  unfoldable pub trace_of :
      Tracer F
      → SeatInspectionJob F
      → AlgorithmRun F
      → Checked (Recipe F)
      → AlgorithmRun F × Option (String × Recipe F)
  unfolding kept_trace demote
  trace_of tracer job run (done recipe) =
      kept_trace run recipe (tracer.write_result_only job recipe run.result)
  trace_of tracer job run (raised e) = (demote run, none)

  -- DetectorProcess._write_result_trace, with the run as it leaves it
  unfoldable pub write_result_trace :
      Tracer F
      → Dict String (Recipe F)
      → SeatInspectionJob F
      → AlgorithmRun F
      → AlgorithmRun F × Option (String × Recipe F)
  unfolding trace_of load
  write_result_trace tracer recipes job run = trace_of tracer job run (load recipes job.recipe_id)

  -- The run that is shown and completed.
  unfoldable pub with_trace : AlgorithmRun F → Option (String × Recipe F) → AlgorithmRun F
  with_trace run none = run
  with_trace run (some (trace_dir, recipe)) = record run { trace_dir = some trace_dir }

  -- DetectorProcess._start_trace_completion, where there is a trace
  unfoldable pub start_trace_completion :
      List (TraceCompletion F)
      → SeatInspectionJob F
      → Memory
      → AlgorithmRun F
      → Option ℕ
      → Option (String × Recipe F)
      → List (TraceCompletion F)
  start_trace_completion threads job frames run timestamp none = threads
  start_trace_completion threads job frames run timestamp (some (trace_dir, recipe)) =
      threads
      ++ record {
        trace_dir = trace_dir;
        job = job;
        frames = frames;
        recipe = recipe;
        run = run;
        display_timestamp_ms = timestamp;
      }
        ∷ []

  -- What follows publish_result: the frame slot is released again where it raised; else the display is
  -- written, which may fail, and the trace is completed.
  unfoldable pub after_publish :
      DetectorProcess F
      → SeatInspectionJob F
      → AlgorithmRun F
      → Option ℕ
      → Option (String × Recipe F)
      → ShmClient × Outcome
      → DetectorProcess F × Option (InspectionResult F)
  unfolding start_trace_completion release_frame_slot
  after_publish p job run timestamp trace (c, published i) = (
    record {
      shm_client = c;
      trace_threads =
          start_trace_completion p.trace_threads job p.shm_client.frames run timestamp trace;
    },
    some run.result,
  )
  after_publish p job run timestamp trace (c, failed i) =
      (record p { shm_client = release_frame_slot c job.sequence_id }, none)
  after_publish p job run timestamp trace (c, timed_out) =
      (record p { shm_client = release_frame_slot c job.sequence_id }, none)

module _ {F P C G : Type 0} ⦃f : Float F⦄ (stages : Stages F P C G) (tracer : Tracer F)
    (recipes : Dict String (Recipe F)) where
  -- The run of a job, with its trace.
  unfoldable pub inspected : SeatInspectionJob F → F → AlgorithmRun F × Option (String × Recipe F)
  unfolding process write_result_trace
  inspected job ms =
      write_result_trace tracer recipes job (process stages tracer recipes job none false ms)

module _ {F P C G : Type 0} ⦃f : Float F⦄ ⦃k : Codec⦄ ⦃pk : Packs F⦄ ⦃d : Digits⦄
    (stages : Stages F P C G) (tracer : Tracer F) (recipes : Dict String (Recipe F))
    (display : SeatInspectionJob F → AlgorithmRun F → Option ℕ) where
  -- DetectorProcess._process_and_publish: none where it raises
  unfoldable pub process_and_publish :
      DetectorProcess F
      → List Round
      → SeatInspectionJob F
      → F
      → DetectorProcess F × Option (InspectionResult F)
  unfolding inspected publish_result after_publish with_trace
  process_and_publish p rounds job ms =
      let (judged, trace) = inspected stages tracer recipes job ms in
      let run = with_trace judged trace in
      after_publish p job run (display job run) trace
        (publish_result p.shm_client rounds run.result)

  module _ ⦃u : Unpacks F⦄ where
    -- The end of one turn of the loop of run_once: the job was processed, or the loop goes on.
    unfoldable pub processed_or :
        (DetectorProcess F → DetectorProcess F × RunOnce F)
        → DetectorProcess F
        → Turn F
        → ShmClient × Option (SeatInspectionJob F)
        → DetectorProcess F × RunOnce F
    unfolding process_and_publish
    processed_or later p turn (c, none) = later (record p { shm_client = c })
    processed_or later p turn (c, some job) =
        let (after, result) =
          process_and_publish (record p { shm_client = c }) turn.rounds job turn.elapsed_ms in
        (after, outcome_of result)

    -- DetectorProcess.run_once; the turns until the deadline.
    unfoldable pub run_once : List (Turn F) → DetectorProcess F → DetectorProcess F × RunOnce F
    unfolding processed_or wait_next_job
    run_once [] p = (p, no_job)
    run_once (turn ∷ turns) p =
        processed_or (run_once turns) p turn (wait_next_job F turn.scans p.shm_client)
