-- ===== src/Tests/Reading.antt =====
-- Runs of the reader of frame slots.
use seat_surface_aoi.Prelude.{ℕ, ◌≡◌, refl, some, List, [], ◌∷◌}
use seat_surface_aoi.Prelude.Int.{ℤ, pos}
use seat_surface_aoi.Prelude.Dict.{get, put, values, nat_key, string_key, pair_key}
use seat_surface_aoi.Prelude.Text.{decimal}
use seat_surface_aoi.Protocol.Bytes.{Memory, le_bytes, store_bytes, load_bytes, from_le}
use seat_surface_aoi.Protocol.Codes.{
  slot_state_value, reading, pixel_format_name, color_order_name, dtype_name,
}
use seat_surface_aoi.Protocol.Layout.{crc32, decode_cstr, until_nul}
use seat_surface_aoi.Types.{LightFrame, SeatInspectionJob}
use seat_surface_aoi.Tests.Milli.{milli}
use seat_surface_aoi.Tests.Publishing.{toy_codec, toy_packs, toy_digits, client, idle}
use seat_surface_aoi.Shm.Client.{ShmClient, slot_base, load_u32, store_u32, remember_camera_index}
use seat_surface_aoi.Shm.Frames.{Unpacks, make_light_frame, light_frame, with_names, get_default}
use seat_surface_aoi.Shm.Packing.{header_crc}
use seat_surface_aoi.Shm.Reader.{
  bundle_or, insert_frame, add_frame, with_bundle, with_frame, read_frames, make_job,
  payload_bounds_ok, failed_check, read_checked, read_identified,
}
use seat_surface_aoi.Shm.Pending.{IsPending, wait_next_job-IsPending}
use seat_surface_aoi.Shm.Jobs.{Scan, wait_next_job, mark_frame, finish_read, read_frame_slot}
use seat_surface_aoi.Shm.Freed.{read_frame_slot_lem, state_after}
use seat_surface_aoi.Shm.Checked.{IsRead, read_frame_slot-IsRead}

instance abbrev pub toy_unpacks : Unpacks ℤ
toy_unpacks = record { f32_value = λ bs. pos (from_le bs) }

-- Numbers of four bytes, each at its address, in a memory of zeros.
abbrev words : List (ℕ × ℕ) → Memory
words [] = λ a. 0
words ((at, n) ∷ ws) = store_u32 (words ws) at n

-- The second slot holds one frame of two rows of two pixels.
abbrev slot_memory : Memory
slot_memory = words (
    (1040, 2)
    ∷ (1044, 7)
    ∷ (1052, 596)
    ∷ (1060, 170)
    ∷ (1064, 304)
    ∷ (1068, 1)
    ∷ (1076, 7)
    ∷ (1084, 8)
    ∷ (1092, 1)
    ∷ (1156, 2)
    ∷ (1220, 3)
    ∷ (1284, 1)
    ∷ (1288, 1)
    ∷ (1292, 4)
    ∷ (1328, 2)
    ∷ (1332, 2)
    ∷ (1336, 1)
    ∷ (1340, 2)
    ∷ (1344, 1)
    ∷ (1348, 8)
    ∷ (1352, 1)
    ∷ (1356, 1)
    ∷ (1608, 592)
    ∷ (1616, 4)
    ∷ (1624, 100)
    ∷ (1632, 673059850)
    ∷ [])

abbrev pub reader : ShmClient
reader = record client { frames = slot_memory; pending_frame_slots = [] }

abbrev pub frame : LightFrame ℤ
frame = record {
  camera_id = "TOP_BACK";
  light_id = "LIGHT_0";
  frame_index = 0;
  light_seq_index = 0;
  width = 2;
  height = 2;
  channels = 1;
  stride_bytes = 2;
  pixel_format = "MONO8";
  bit_depth = 8;
  color_order = "MONO";
  dtype = "UINT8";
  timestamp_us = 0;
  exposure_us = 0;
  gain = pos 0;
  calibration_id = "";
  image_crc32 = 100;
  image = record { start = 1632; stop = 1636 };
  pose_id = "POSE_0";
  shot_id = 0;
  robot_timestamp_us = 0;
  robot_tcp_xyz_mm = pos 0 ∷ pos 0 ∷ pos 0 ∷ [];
  robot_rpy_deg = pos 0 ∷ pos 0 ∷ pos 0 ∷ [];
}

abbrev pub job : SeatInspectionJob ℤ
job = record {
  sequence_id = 7;
  trigger_id = 8;
  seat_id = "1";
  recipe_id = "3";
  sku = "2";
  camera_bundles =
      record { camera_id = "TOP_BACK"; pose_id = "POSE_0"; light_frames = ("LIGHT_0", frame) ∷ [] }
      ∷ [];
  capture_mode = 4;
}

pub read_runs : (read_frame_slot ℤ reader (idle ∷ []) 1).1 ≡ some job
unfolding read_frame_slot mark_frame header_crc crc32 load_u32 store_u32 load_bytes store_bytes
    le_bytes from_le slot_base finish_read read_identified failed_check payload_bounds_ok
    read_checked read_frames make_job values make_light_frame with_names light_frame with_frame
    with_bundle add_frame bundle_or insert_frame get put get_default decimal decode_cstr until_nul
    pixel_format_name color_order_name dtype_name remember_camera_index
read_runs = refl

read_frame_slot-IsRead_example :
    IsRead
      (mark_frame reader (slot_base 1 1000) (slot_state_value reading)).frames
      (slot_base 1 1000)
      1000
      job
read_frame_slot-IsRead_example = read_frame_slot-IsRead reader (idle ∷ []) 1 job read_runs

read_frame_slot_lem_example :
    load_u32 (read_frame_slot ℤ reader (idle ∷ []) 0).0.frames (slot_base 0 1000)
    ≡ slot_state_value (state_after ℤ (read_frame_slot ℤ reader (idle ∷ []) 0).1)
read_frame_slot_lem_example = read_frame_slot_lem ℤ reader (idle ∷ []) 0

abbrev pub scan : Scan
scan = record { before = idle; waits = λ i. idle ∷ [] }

wait_next_job-IsPending_example : IsPending (wait_next_job ℤ (scan ∷ []) reader)
wait_next_job-IsPending_example = wait_next_job-IsPending ℤ (scan ∷ []) reader
