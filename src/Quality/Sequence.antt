-- ===== src/Quality/Sequence.antt =====
-- Bundles that `_check_light_sequence` has nothing to say about.
use seat_surface_aoi.Prelude.{
  ℕ, ◌==◌, ◌≡◌, ◌≢◌, refl, ap, sym, ◌∙◌, String, false, not, Option, none, some, List, [], ◌∷◌,
  ◌++◌, arith, All, All-map, ==_iff,
}
use seat_surface_aoi.Prelude.Dict.{Dict, get, values, nat_key, string_key}
use seat_surface_aoi.Prelude.Sets.{contains}
use seat_surface_aoi.Types.{LightFrame, CameraBundle}
use seat_surface_aoi.Config.{Recipe}
use seat_surface_aoi.Quality.Report.{Message}
use seat_surface_aoi.Quality.Bundle.{
  sequence_messages, sequence_loop, check_light_sequence, light_seq_by_id, report_if,
}

pub append_empty : (xs ys : List Message) → xs ++ ys ≡ [] → (xs ≡ []) × (ys ≡ [])
append_empty [] ys h = (refl, h)
append_empty (x ∷ xs) ys h = cc

module _ {F : Type 0} where
  -- Each frame is at the place of its light, and no two frames are at one place.
  pub InOrder : Dict String ℕ → List (LightFrame F) → Type 0
  InOrder order [] = Unit
  InOrder order (frame ∷ frames) =
      (get order frame.light_id ≡ some frame.light_seq_index)
      × All (λ other. other.light_seq_index ≢ frame.light_seq_index) frames
      × InOrder order frames

  step_lem :
      (camera_id : String) (expected : Option ℕ) (seen : List ℕ) (frame : LightFrame F)
      → (sequence_messages camera_id expected seen frame).0 ≡ []
      → (expected ≡ some frame.light_seq_index)
        × (contains seen frame.light_seq_index ≡ false)
        × ((sequence_messages camera_id expected seen frame).1 ≡ frame.light_seq_index ∷ seen)
  unfolding sequence_messages
  step_lem camera_id none seen frame h = cc
  step_lem camera_id (some n) seen frame h =
      let (a, b) = append_empty (report_if (not (frame.light_seq_index == n)) _) _ h in
      (ground (arith, a, ==_iff frame.light_seq_index n), ground (arith, b), refl)

  loop_lem :
      (camera_id : String) (order : Dict String ℕ) (seen : List ℕ) (frames : List (LightFrame F))
      → sequence_loop camera_id order seen frames ≡ []
      → InOrder order frames × All (λ f. contains seen f.light_seq_index ≡ false) frames
  unfolding sequence_loop InOrder contains
  loop_lem camera_id order seen [] h = (tt, tt)
  loop_lem camera_id order seen (frame ∷ frames) h =
      let step = sequence_messages camera_id (get order frame.light_id) seen frame in
      let (now, later) = append_empty step.0 (sequence_loop camera_id order step.1 frames) h in
      let (place, new, added) = step_lem camera_id (get order frame.light_id) seen frame now in
      let (rest, fresh) =
        loop_lem camera_id order (frame.light_seq_index ∷ seen) frames
          (ap (λ s. sequence_loop camera_id order s frames) (sym added) ∙ later) in
      (
        (
          place,
          All-map (λ f. contains (frame.light_seq_index ∷ seen) f.light_seq_index ≡ false)
              (λ f. f.light_seq_index ≢ frame.light_seq_index) frames
              (λ f p. λ same.
                absurd (ground (arith, p, ==_iff frame.light_seq_index f.light_seq_index, same)))
              fresh,
          rest,
        ),
        (
          new,
          All-map (λ f. contains (frame.light_seq_index ∷ seen) f.light_seq_index ≡ false)
              (λ f. contains seen f.light_seq_index ≡ false) frames (λ f p. ground (arith, p))
              fresh,
        ),
      )

  -- A bundle about whose light sequence the gate has no message: each frame's light stands in the
  -- recipe's order at the place that the frame claims, and no two frames claim one place.
  pub check_light_sequence-InOrder :
      (bundle : CameraBundle F) (recipe : Recipe F)
      → check_light_sequence bundle recipe ≡ []
      → InOrder (light_seq_by_id 0 [] recipe.light_order) (values bundle.light_frames)
  unfolding check_light_sequence
  check_light_sequence-InOrder bundle recipe h =
      (loop_lem bundle.camera_id (light_seq_by_id 0 [] recipe.light_order) []
        (values bundle.light_frames) h).0
