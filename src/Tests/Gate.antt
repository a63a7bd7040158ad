-- ===== src/Tests/Gate.antt =====
-- Runs of the checks of the quality gate.
use seat_surface_aoi.Prelude.{◌+◌, ◌*◌, ◌<◌, arith, ◌≡◌, refl, [], ◌∷◌}
use seat_surface_aoi.Prelude.Int.{ℤ}
use seat_surface_aoi.Prelude.Dict.{get, put, values, nat_key, string_key}
use seat_surface_aoi.Prelude.Sets.{contains}
use seat_surface_aoi.Types.{CameraBundle}
use seat_surface_aoi.Config.{Recipe}
use seat_surface_aoi.Quality.Bundle.{
  check_light_sequence, sequence_loop, sequence_messages, light_seq_by_id,
}
use seat_surface_aoi.Quality.Sequence.{InOrder, check_light_sequence-InOrder}
use seat_surface_aoi.Tests.Deciding.{recipe}
use seat_surface_aoi.Protocol.Bytes.{Memory}
use seat_surface_aoi.Protocol.Codes.{slot_state_value, reading}
use seat_surface_aoi.Shm.Client.{slot_base, load_u32}
use seat_surface_aoi.Shm.Frames.{load_u64}
use seat_surface_aoi.Shm.Jobs.{mark_frame}
use seat_surface_aoi.Shm.Checked.{read_frame_slot-IsRead}
use seat_surface_aoi.Quality.Frame.{
  note_if, shape_messages, frame_meta_messages, frame_meta_messages-IsWithin,
}
use seat_surface_aoi.Tests.Publishing.{toy_codec, toy_packs, toy_digits, idle}
use seat_surface_aoi.Tests.Milli.{milli}
use seat_surface_aoi.Tests.Reading.{toy_unpacks, frame, job, reader, read_runs}

abbrev two_lights : Recipe ℤ
two_lights = record recipe { light_order = "LIGHT_0" ∷ "LIGHT_1" ∷ [] }

-- Two frames, read in the reverse of the recipe's order.
abbrev bundle : CameraBundle ℤ
bundle = record {
  camera_id = "TOP_BACK";
  pose_id = "TOP_BACK";
  light_frames =
      ("LIGHT_1", record frame { light_id = "LIGHT_1"; light_seq_index = 1 })
      ∷ ("LIGHT_0", frame)
      ∷ [];
}

in_sequence : check_light_sequence bundle two_lights ≡ []
unfolding check_light_sequence sequence_loop sequence_messages light_seq_by_id values get put
    contains
in_sequence = refl

check_light_sequence-InOrder_example :
    InOrder (light_seq_by_id 0 [] ("LIGHT_0" ∷ "LIGHT_1" ∷ [])) (values bundle.light_frames)
check_light_sequence-InOrder_example = check_light_sequence-InOrder bundle two_lights in_sequence

frame_accepted : frame_meta_messages frame ≡ []
unfolding frame_meta_messages shape_messages note_if
frame_accepted = refl

abbrev slot : Memory
slot = (mark_frame reader (slot_base 1 1000) (slot_state_value reading)).frames

-- The last pixel of the frame of the job that the tests of the reader read.
frame_meta_messages-IsWithin_example : (frame.bit_depth ≡ 8) × (1632 + 1 * 2 + 1 < 1636)
frame_meta_messages-IsWithin_example =
    frame_meta_messages-IsWithin slot (slot_base 1 1000)
      (268 + 324 * load_u32 slot (slot_base 1 1000 + 28)) (load_u64 slot (slot_base 1 1000 + 12))
      frame 1 1 (read_frame_slot-IsRead reader (idle ∷ []) 1 job read_runs).held.0.0.3.0
      frame_accepted (omega arith) (omega arith)
