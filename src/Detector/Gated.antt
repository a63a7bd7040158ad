-- ===== src/Detector/Gated.antt =====
-- The detector with the quality gate as the first stage of its pipeline.
use seat_surface_aoi.Prelude.Dict.{Dict}
use seat_surface_aoi.Prelude.Result.{done}
use seat_surface_aoi.Float.{Float, Metric}
use seat_surface_aoi.Protocol.Layout.{Codec, Packs}
use seat_surface_aoi.Shm.Client.{Digits}
use seat_surface_aoi.Quality.Gate.{Statistics}
use seat_surface_aoi.Quality.Check.{check}
use seat_surface_aoi.Pipeline.{Stages}

module _ {F P C G : Type 0} ⦃f : Float F⦄ ⦃g : Metric F⦄ ⦃k : Codec⦄ ⦃pk : Packs F⦄ ⦃d : Digits⦄
    (stats : Statistics F) (stages : Stages F P C G) where
  -- ImageQualityGate as the first stage; it does not raise.
  abbrev pub with_gate : Stages F P C G
  with_gate = record stages { check = λ job recipe. done (check stats recipe job) }
