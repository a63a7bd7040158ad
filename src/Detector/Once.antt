-- ===== src/Detector/Once.antt =====
-- What DetectorProcess.run_once leaves behind.
use seat_surface_aoi.Prelude.{
  ℕ, ◌≡◌, ap, ◌∙◌, sym, subst, String, Option, none, some, List, [], ◌∷◌,
}
use seat_surface_aoi.Prelude.Dict.{Dict, get, nat_key}
use seat_surface_aoi.Float.{Float}
use seat_surface_aoi.Protocol.Layout.{Codec, Packs}
use seat_surface_aoi.Types.{InspectionResult, SeatInspectionJob}
use seat_surface_aoi.Config.{Recipe}
use seat_surface_aoi.Shm.Client.{ShmClient, Digits}
use seat_surface_aoi.Shm.Frames.{Unpacks}
use seat_surface_aoi.Shm.Publish.{Round, publish_result}
use seat_surface_aoi.Shm.Jobs.{wait_next_job}
use seat_surface_aoi.Pipeline.{Stages}
use seat_surface_aoi.Pipeline.Totality.{IsFor}
use seat_surface_aoi.Algorithm.{AlgorithmRun, Tracer}
use seat_surface_aoi.Detector.{
  DetectorProcess, Turn, RunOnce, processed, outcome_of, with_trace, inspected, process_and_publish,
  processed_or, run_once,
}
use seat_surface_aoi.Detector.Inspected.{inspected-IsFor}
use seat_surface_aoi.Detector.Published.{
  after-result, with_trace-result, process_and_publish-IsReleased,
}

module _ {F P C G : Type 0} ⦃f : Float F⦄ ⦃k : Codec⦄ ⦃pk : Packs F⦄ ⦃d : Digits⦄
    (stages : Stages F P C G) (tracer : Tracer F) (recipes : Dict String (Recipe F))
    (display : SeatInspectionJob F → AlgorithmRun F → Option ℕ) where
  process_and_publish-IsFor :
      (p : DetectorProcess F) (rounds : List Round) (job : SeatInspectionJob F) (ms : F)
      {result : InspectionResult F}
      → (process_and_publish stages tracer recipes display p rounds job ms).1 ≡ some result
      → IsFor job result
  unfolding process_and_publish
  process_and_publish-IsFor p rounds job ms h =
      let (judged, trace) = inspected stages tracer recipes job ms in
      let run = with_trace judged trace in
      subst (IsFor job)
        (sym (with_trace-result judged trace)
          ∙ after-result stages tracer recipes display p job run (display job run) trace
              (publish_result p.shm_client rounds run.result) h)
        (inspected-IsFor stages tracer recipes job ms)

  -- A result that was published is no longer pending.
  abbrev pub IsSettled : DetectorProcess F × RunOnce F → Type 0
  IsSettled r =
      (result : InspectionResult F)
      → r.1 ≡ processed result
      → get (r.0).shm_client.pending_frame_slots result.sequence_id ≡ none

  some_of :
      (o : Option (InspectionResult F)) (result : InspectionResult F)
      → outcome_of o ≡ processed result
      → o ≡ some result
  some_of none result h = cc
  some_of (some r) result h = cc

  module _ ⦃u : Unpacks F⦄ where
    processed_or-IsSettled :
        (later : DetectorProcess F → DetectorProcess F × RunOnce F) (p : DetectorProcess F)
        (turn : Turn F) (r : ShmClient × Option (SeatInspectionJob F))
        → ((p : DetectorProcess F) → IsSettled (later p))
        → IsSettled (processed_or stages tracer recipes display later p turn r)
    unfolding processed_or
    processed_or-IsSettled later p turn (c, none) h = h (record p { shm_client = c })
    processed_or-IsSettled later p turn (c, some job) h = λ result e.
        let q : DetectorProcess F = record p { shm_client = c } in
        let done_one =
          process_and_publish stages tracer recipes display q turn.rounds job turn.elapsed_ms in
        let same =
          process_and_publish-IsFor q turn.rounds job turn.elapsed_ms
            (some_of (done_one.1) result e) in
        let freed =
          process_and_publish-IsReleased stages tracer recipes display q turn.rounds job
            turn.elapsed_ms in
        ap (get (done_one.0).shm_client.pending_frame_slots) (same.0) ∙ freed.not_pending

    run_once-IsSettled :
        (turns : List (Turn F)) (p : DetectorProcess F)
        → IsSettled (run_once stages tracer recipes display turns p)
    unfolding run_once
    run_once-IsSettled [] p = λ result e. cc
    run_once-IsSettled (turn ∷ turns) p =
        processed_or-IsSettled (run_once stages tracer recipes display turns) p turn
          (wait_next_job F turn.scans p.shm_client) (run_once-IsSettled turns)

    -- However long the detector waits, and whatever the C++ side does meanwhile: when run_once returns
    -- with a result, the job of that result is no longer pending.
    pub run_once-freed :
        (turns : List (Turn F)) (p : DetectorProcess F) {result : InspectionResult F}
        → (run_once stages tracer recipes display turns p).1 ≡ processed result
        → get
            (run_once stages tracer recipes display turns p).0.shm_client.pending_frame_slots
            result.sequence_id
          ≡ none
    run_once-freed turns p {result} h = run_once-IsSettled turns p result h
