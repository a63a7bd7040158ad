-- ===== src/Tests/Passing.antt =====
-- A run of the whole quality gate.
use seat_surface_aoi.Prelude.{ℕ, ◌+◌, ◌≡◌, refl, String, true, false, none, [], ◌∷◌}
use seat_surface_aoi.Prelude.Int.{ℤ, pos, pos_part, neg_part, ◌-ℤ◌}
use seat_surface_aoi.Prelude.Dict.{get, values, string_key, pair_key}
use seat_surface_aoi.Prelude.Sets.{from_keys}
use seat_surface_aoi.Float.{Metric}
use seat_surface_aoi.Types.{LightFrame, SeatInspectionJob}
use seat_surface_aoi.Config.{Recipe}
use seat_surface_aoi.Quality.Gate.{Statistics}
use seat_surface_aoi.Quality.Check.{check}
use seat_surface_aoi.Quality.Passed.{IsPassed, check-IsPassed}
use seat_surface_aoi.Tests.Milli.{milli}
use seat_surface_aoi.Tests.Deciding.{recipe}
use seat_surface_aoi.Tests.Reading.{frame}

instance abbrev pub metric : Metric ℤ
metric = record { minus = ◌-ℤ◌; abs = λ a. pos (pos_part a + neg_part a) }

abbrev pub stats : Statistics ℤ
stats = record {
  mean_gray = λ x. pos 100;
  saturation_ratio = λ x. pos 0;
  dark_ratio = λ x. pos 0;
  sharpness = λ x. pos 5;
  motion_gradient = λ x. pos 5;
}

abbrev pub gate_recipe : Recipe ℤ
gate_recipe = record recipe {
  light_order = "LIGHT_0" ∷ "LIGHT_1" ∷ [];
  quality = record recipe.quality { required_lights = "LIGHT_0" ∷ "LIGHT_1" ∷ [] };
  cameras =
      record {
        camera_id = "TOP_BACK";
        pose_id = "";
        enabled = true;
        model_key = "default";
        safety_net_model_key = none;
        roi_template = "roi.yaml";
        calibration_id = "calib";
        base_light_id = "LIGHT_0";
        light_order = "LIGHT_0" ∷ "LIGHT_1" ∷ [];
        roi_models = [];
        roi_safety_net_models = [];
      }
      ∷ [];
}

abbrev lit : String → ℕ → LightFrame ℤ
lit light_id n = record frame {
  light_id = light_id;
  light_seq_index = n;
  frame_index = n;
  timestamp_us = 100 + n;
  exposure_us = 50;
  gain = pos 1000;
}

abbrev pub gate_job : SeatInspectionJob ℤ
gate_job = record {
  sequence_id = 7;
  trigger_id = 9;
  seat_id = "A1";
  recipe_id = "R1";
  sku = "S1";
  camera_bundles =
      record {
        camera_id = "TOP_BACK";
        pose_id = "";
        light_frames = ("LIGHT_0", lit "LIGHT_0" 0) ∷ ("LIGHT_1", lit "LIGHT_1" 1) ∷ [];
      }
      ∷ [];
  capture_mode = 0;
}

passes : (check stats gate_recipe gate_job).is_pass ≡ true
unfolding check get values from_keys ◌-ℤ◌
passes = refl

check-IsPassed_example : IsPassed stats gate_recipe gate_job
check-IsPassed_example = check-IsPassed stats gate_recipe gate_job passes

-- A seat of another SKU does not pass.
stopped : (check stats gate_recipe (record gate_job { sku = "S2" })).is_pass ≡ false
unfolding check get values from_keys ◌-ℤ◌
stopped = refl

-- Neither does one of which a light is missing.
unlit :
    (check stats
      (record gate_recipe {
        quality = record gate_recipe.quality { required_lights = "LIGHT_2" ∷ [] };
      })
      gate_job).is_pass
    ≡ false
unfolding check get values from_keys ◌-ℤ◌
unlit = refl
