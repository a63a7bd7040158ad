-- ===== src/Quality/Bundle.antt =====
-- The checks of one bundle in python_detector/pipeline/quality_gate.py. A check returns the messages
-- that the source appends, in their order. The frames that are compared are those of the required
-- lights, in the order of the recipe.
use seat_surface_aoi.Prelude.{
  ℕ, ◌+◌, ◌-◌, ◌==◌, ◌&&◌, ◌||◌, not, min, max, String, Bool, false, Option, none, some, List, [],
  ◌∷◌, ◌++◌, map, length, ltb, any, if◌then◌else◌,
}
use seat_surface_aoi.Prelude.Dict.{Dict, get, put, values, nat_key, string_key}
use seat_surface_aoi.Prelude.Sets.{contains, from_keys}
use seat_surface_aoi.Types.{LightFrame, CameraBundle}
use seat_surface_aoi.Config.{QualityConfig, Recipe}
use seat_surface_aoi.Quality.Report.{
  Message, light_not_configured, light_seq_mismatch, duplicate_captured_seq, invalid_timestamp,
  capture_span_exceeded, timestamps_not_monotonic, duplicate_frame_index, duplicate_required_seq,
}

-- A message where a test holds.
abbrev pub report_if : Bool → Message → List Message
report_if b m = if b then m ∷ [] else []

-- [d[key] for key in keys if key in d]
unfoldable pub select : {A : Type 0} → Dict String A → List String → List A
select d [] = []
select d (key ∷ keys) =
    let rest = select d keys in elim (get d key) [ some a ↦ a ∷ rest | none ↦ rest ]

-- {light_id: index for index, light_id in enumerate(light_order)}
unfoldable pub light_seq_by_id : ℕ → Dict String ℕ → List String → Dict String ℕ
light_seq_by_id i d [] = d
light_seq_by_id i d (light_id ∷ ids) = light_seq_by_id (i + 1) (put d light_id i) ids

unfoldable pub largest : ℕ → List ℕ → ℕ
largest n [] = n
largest n (x ∷ xs) = largest (max n x) xs

unfoldable pub smallest : ℕ → List ℕ → ℕ
smallest n [] = n
smallest n (x ∷ xs) = smallest (min n x) xs

-- max(xs) - min(xs), for a list that is not empty
unfoldable pub spread : List ℕ → ℕ
unfolding largest smallest
spread [] = 0
spread (x ∷ xs) = largest x xs - smallest x xs

-- len(set(xs)) != len(xs)
unfoldable pub has_duplicate : List ℕ → Bool
has_duplicate xs = not (length (from_keys [] xs) == length xs)

-- any(later < earlier for earlier, later in zip(xs, xs[1:]))
unfoldable pub descends : List ℕ → Bool
descends [] = false
descends (x ∷ []) = false
descends (x ∷ y ∷ ys) = ltb y x || descends (y ∷ ys)

module _ {F : Type 0} where
  -- The end of the loop body of ImageQualityGate._check_light_sequence.
  unfoldable pub sequence_messages :
      String → Option ℕ → List ℕ → LightFrame F → List Message × List ℕ
  sequence_messages camera_id none seen frame =
      (light_not_configured camera_id frame.light_id ∷ [], seen)
  sequence_messages camera_id (some expected) seen frame = (
    report_if (not (frame.light_seq_index == expected))
          (light_seq_mismatch camera_id frame.light_id)
        ++ report_if (contains seen frame.light_seq_index) (duplicate_captured_seq camera_id),
    frame.light_seq_index ∷ seen,
  )

  unfoldable pub sequence_loop :
      String → Dict String ℕ → List ℕ → List (LightFrame F) → List Message
  unfolding sequence_messages
  sequence_loop camera_id order seen [] = []
  sequence_loop camera_id order seen (frame ∷ frames) =
      let step = sequence_messages camera_id (get order frame.light_id) seen frame in
      step.0 ++ sequence_loop camera_id order step.1 frames

  -- ImageQualityGate._check_light_sequence
  unfoldable pub check_light_sequence : CameraBundle F → Recipe F → List Message
  unfolding sequence_loop light_seq_by_id
  check_light_sequence bundle recipe =
      sequence_loop bundle.camera_id (light_seq_by_id 0 [] recipe.light_order) []
        (values bundle.light_frames)

  -- The comparisons of times and indices in ImageQualityGate._check_capture_consistency.
  unfoldable pub timing_messages : String → QualityConfig F → List (LightFrame F) → List Message
  unfolding spread descends has_duplicate
  timing_messages camera_id quality frames =
      let timestamps = map (λ f. f.timestamp_us) frames in
      report_if (any (λ t. t == 0) timestamps) (invalid_timestamp camera_id)
      ++ (report_if (ltb quality.max_capture_span_us (spread timestamps))
            (capture_span_exceeded camera_id)
          ++ (report_if (quality.require_monotonic_timestamps && descends timestamps)
                (timestamps_not_monotonic camera_id)
              ++ (report_if
                    (quality.require_unique_frame_indices
                      && has_duplicate (map (λ f. f.frame_index) frames))
                    (duplicate_frame_index camera_id)
                  ++ report_if (has_duplicate (map (λ f. f.light_seq_index) frames))
                      (duplicate_required_seq camera_id))))
