-- ===== src/Detector/Published.antt =====
-- What DetectorProcess._process_and_publish publishes, and the frame slot of its job.
use seat_surface_aoi.Prelude.{ℕ, ◌≡◌, refl, ap, ◌∙◌, sym, subst, String, Option, none, some, List}
use seat_surface_aoi.Prelude.Dict.{Dict}
use seat_surface_aoi.Float.{Float, IsOrdered}
use seat_surface_aoi.Protocol.Codes.{ok}
use seat_surface_aoi.Protocol.Layout.{Codec, Packs}
use seat_surface_aoi.Types.{InspectionResult, SeatInspectionJob}
use seat_surface_aoi.Config.{Recipe}
use seat_surface_aoi.Shm.Client.{ShmClient, Digits}
use seat_surface_aoi.Shm.Publish.{Round, Outcome, published, failed, timed_out, publish_result}
use seat_surface_aoi.Shm.Release.{IsReleased, publish_result-IsReleased, IsReleased-again}
use seat_surface_aoi.Pipeline.{Stages}
use seat_surface_aoi.Pipeline.Safety.{IsInspected}
use seat_surface_aoi.Algorithm.{AlgorithmRun, Tracer}
use seat_surface_aoi.Detector.{
  DetectorProcess, with_trace, after_publish, inspected, process_and_publish,
}
use seat_surface_aoi.Detector.Inspected.{IsTraced, inspected-IsFor, inspected-ok}

pub with_trace-result :
    {F : Type 0} (run : AlgorithmRun F) (trace : Option (String × Recipe F))
    → (with_trace run trace).result ≡ run.result
unfolding with_trace
with_trace-result run none = refl
with_trace-result run (some t) = refl

module _ {F P C G : Type 0} ⦃f : Float F⦄ ⦃k : Codec⦄ ⦃pk : Packs F⦄ ⦃d : Digits⦄
    (stages : Stages F P C G) (tracer : Tracer F) (recipes : Dict String (Recipe F))
    (display : SeatInspectionJob F → AlgorithmRun F → Option ℕ) where
  after-IsReleased :
      (p : DetectorProcess F) (job : SeatInspectionJob F) (run : AlgorithmRun F)
      (timestamp : Option ℕ) (trace : Option (String × Recipe F)) (r : ShmClient × Outcome)
      → IsReleased p.shm_client (r.0) job.sequence_id
      → IsReleased p.shm_client
          (after_publish p job run timestamp trace r).0.shm_client
          job.sequence_id
  unfolding after_publish
  after-IsReleased p job run timestamp trace (c, published i) h = h
  after-IsReleased p job run timestamp trace (c, failed i) h =
      IsReleased-again p.shm_client c job.sequence_id h
  after-IsReleased p job run timestamp trace (c, timed_out) h =
      IsReleased-again p.shm_client c job.sequence_id h

  -- Whatever the pipeline, the trace, the display and the C++ side do, once a job was processed its
  -- frame slot is empty and the job is no longer pending, also where publishing raised.
  pub process_and_publish-IsReleased :
      (p : DetectorProcess F) (rounds : List Round) (job : SeatInspectionJob F) (ms : F)
      → IsReleased p.shm_client
          (process_and_publish stages tracer recipes display p rounds job ms).0.shm_client
          job.sequence_id
  unfolding process_and_publish
  process_and_publish-IsReleased p rounds job ms =
      let (judged, trace) = inspected stages tracer recipes job ms in
      let run = with_trace judged trace in
      let same =
        ap (λ r. r.sequence_id) (with_trace-result judged trace)
        ∙ (inspected-IsFor stages tracer recipes job ms).0 in
      after-IsReleased p job run (display job run) trace
        (publish_result p.shm_client rounds run.result)
        (subst (λ id. IsReleased p.shm_client (publish_result p.shm_client rounds run.result).0 id)
          same (publish_result-IsReleased p.shm_client rounds run.result))

  pub after-result :
      (p : DetectorProcess F) (job : SeatInspectionJob F) (run : AlgorithmRun F)
      (timestamp : Option ℕ) (trace : Option (String × Recipe F)) (r : ShmClient × Outcome)
      {result : InspectionResult F}
      → (after_publish p job run timestamp trace r).1 ≡ some result
      → run.result ≡ result
  unfolding after_publish
  after-result p job run timestamp trace (c, published i) h = cc
  after-result p job run timestamp trace (c, failed i) h = cc
  after-result p job run timestamp trace (c, timed_out) h = cc

  -- A result that the detector publishes with the decision OK stands on an inspection: the recipe of
  -- the job was there, the quality gate passed, every cube was registered, the models returned, fusion
  -- dropped nothing over its limit, and the trace of the result was kept. For each candidate that the
  -- models reported there is one that they reported for the same camera, pose and ROI, whose score is
  -- no lower and yet does not reach its RECHECK threshold: its own or, where it has none, that of the
  -- recipe.
  pub process_and_publish-ok :
      (laws : IsOrdered F) (p : DetectorProcess F) (rounds : List Round) (job : SeatInspectionJob F)
      (ms : F) {result : InspectionResult F}
      → (process_and_publish stages tracer recipes display p rounds job ms).1 ≡ some result
      → result.decision ≡ ok
      → (recipe : Recipe F) × IsInspected stages job recipe
        × IsTraced tracer recipes job result recipe
  unfolding process_and_publish
  process_and_publish-ok laws p rounds job ms {result} h decided =
      let (judged, trace) = inspected stages tracer recipes job ms in
      let run = with_trace judged trace in
      let same =
        sym (with_trace-result judged trace)
        ∙ after-result p job run (display job run) trace
            (publish_result p.shm_client rounds run.result) h in
      subst
        (λ r.
          (recipe : Recipe F) × IsInspected stages job recipe
          × IsTraced tracer recipes job r recipe)
        same (inspected-ok stages tracer laws recipes job ms (ap (λ r. r.decision) same ∙ decided))
