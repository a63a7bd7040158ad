-- ===== src/Tests/Gated.antt =====
-- A run of the detector with the quality gate as its first stage.
use seat_surface_aoi.Prelude.{String, [], ◌∷◌}
use seat_surface_aoi.Prelude.Int.{ℤ}
use seat_surface_aoi.Prelude.Dict.{Dict, get, put, values, nat_key, string_key, pair_key}
use seat_surface_aoi.Config.{Recipe}
use seat_surface_aoi.Pipeline.{Stages}
use mathlib.Core.Option
use seat_surface_aoi.Prelude.Dict.{get, put, values}
use seat_surface_aoi.Tests.Milli.{milli}
use seat_surface_aoi.Tests.Publishing.{toy_codec, toy_packs, toy_digits}
use seat_surface_aoi.Detector.Gated.{with_gate}
use seat_surface_aoi.Tests.Passing.{metric, stats, gate_recipe}
use seat_surface_aoi.Tests.Running.{stages}

abbrev gated_recipes : Dict String (Recipe ℤ)
gated_recipes = ("R1", gate_recipe) ∷ []

abbrev gated : Stages ℤ String String String
gated = with_gate stats stages
