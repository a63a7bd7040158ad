-- ===== src/Tests/Publishing.antt =====
-- Runs of the publication of results.
use mathlib.Core.Option
use Prim.Native.String.{len}
use seat_surface_aoi.Prelude.{
  ℕ, ◌-◌, ◌/◌, ◌≤◌, ◌<◌, ◌≡◌, String, ◌↔◌, refl, ap, true, none, some, List, [], ◌∷◌, length,
  replicate, take, min, tally, arith, inl,
}
use seat_surface_aoi.Prelude.Int.{ℤ, pos, pos_part}
use seat_surface_aoi.Prelude.Dict.{get, nat_key, string_key, pair_key}
use seat_surface_aoi.Prelude.Text.{decimal}
use seat_surface_aoi.Protocol.Bytes.{le_bytes, length-le_bytes, load_bytes, store_bytes, from_le}
use seat_surface_aoi.Protocol.Codes
use seat_surface_aoi.Protocol.Layout.{
  Codec, Packs, IsPacking, pack, pack_field, pack_signed, append?, encode_cstr, crc32,
}
use seat_surface_aoi.Types.{DefectResult, InspectionResult, critical}
use seat_surface_aoi.Tests.Fusing.{box}
use seat_surface_aoi.Shm.Client.{
  Digits, ShmClient, inverted, camera_id_by_index, slot_base, load_u32, store_u32, numbered,
  light_index, camera_index, camera_index_for_defect,
}
use seat_surface_aoi.Shm.Packing.{
  collect, pack_defect, pack_defects, defect_fields, pack_result_meta, pack_prefix,
  write_result_slot,
}
use seat_surface_aoi.Shm.Publish.{
  Round, published, timed_out, payload_size_of, published_defects, find_slot, interfere, found_or,
  await_slot, mark, close_slot, publish_at, publish_found, publish_result,
}
use seat_surface_aoi.Shm.Reading.{IsReadable}
use seat_surface_aoi.Shm.Release.{IsReleased, publish_result-IsReleased}
use seat_surface_aoi.Shm.Published.{publish_result-IsReadable}
use seat_surface_aoi.Shm.Bounds.{published_defects_lem, publish_at-outside}
use seat_surface_aoi.Shm.Waiting.{IsFull, taken, publish_result-timed_out, publish_result-taken}

-- A codec of one byte for each character, and a checksum that adds bytes.
-- A text of one byte stands for its number.
abbrev toy_text : List ℕ → String
toy_text [] = ""
toy_text (b ∷ bs) = decimal b

instance abbrev pub toy_codec : Codec
toy_codec = record {
  utf8 = λ s. replicate (len s) 65;
  from_utf8 = toy_text;
  binascii_crc32 = λ bs. tally (λ b. b) bs;
}

instance abbrev pub toy_packs : Packs ℤ
toy_packs = record { f32_bytes = λ x. some (le_bytes 4 (pos_part x)) }

pub toy_packs-IsPacking : IsPacking ℤ
toy_packs-IsPacking = record {
  length-f32_bytes = λ x bs h. ground (arith, length-le_bytes 4 (pos_part x));
}

instance abbrev pub toy_digits : Digits
toy_digits = record { int_of_digits = λ s. none }

abbrev defect : DefectResult ℤ
defect = record {
  defect_id = "TOP_BACK_seat_000";
  severity = critical;
  camera_id = "TOP_BACK";
  roi_name = "seat";
  bbox_xyxy_pixel = box 1 2 30 40;
  score = pos 900;
  area_px = pos 500;
  evidence_lights = "DIFFUSE" ∷ "NIR" ∷ [];
  mask_offset = none;
  decision = Codes.ng;
  pose_id = "TOP_BACK";
}

abbrev pub result : InspectionResult ℤ
result = record {
  sequence_id = 7;
  trigger_id = 8;
  seat_id = "SEAT";
  decision = Codes.ng;
  defects = defect ∷ [];
  quality_pass = true;
  error_code = Codes.no_error;
  elapsed_ms = pos 12;
}

-- Two result slots, the first of which is taken.
abbrev pub client : ShmClient
client = record {
  slot_count = 2;
  frame_slot_size = 1000;
  result_slot_size = 1000;
  frames = λ a. 0;
  results = store_u32 (λ a. 0) 40 3;
  pending_frame_slots = (7, 1) ∷ [];
  camera_index_by_id = inverted camera_id_by_index;
  camera_index_by_view = [];
}

-- The C++ side leaves both memories as they are.
abbrev pub idle : Round
idle = record { on_frames = λ m. m; on_results = λ m. m }

pub publish_runs : (publish_result client (idle ∷ []) result).1 ≡ published 1
unfolding publish_result await_slot found_or interfere find_slot load_u32 store_u32 from_le
    load_bytes store_bytes le_bytes slot_base publish_found publish_at mark published_defects
    write_result_slot pack_result_meta pack pack_field pack_signed append? encode_cstr pack_defects
    pack_defect defect_fields collect light_index numbered camera_index_for_defect camera_index
    pack_prefix crc32 close_slot Option.bind get
publish_runs = refl

publish_result-IsReadable_example :
    IsReadable
      (publish_result client (idle ∷ []) result).0.results
      (slot_base 1 client.result_slot_size)
      7
      (length (published_defects 1000 (defect ∷ [])))
publish_result-IsReadable_example =
    publish_result-IsReadable toy_packs-IsPacking client (idle ∷ []) result 1 publish_runs

publish_result-IsReleased_example : IsReleased client (publish_result client (idle ∷ []) result).0 7
publish_result-IsReleased_example = publish_result-IsReleased client (idle ∷ []) result

published_defects_lem_example :
    (payload_size_of (length (published_defects 1000 (defect ∷ defect ∷ defect ∷ []))) ≤ 1000)
    × (length (published_defects 1000 (defect ∷ defect ∷ defect ∷ []))
        ≡ min 3 (min 32 ((1000 - 140) / 400)))
    × (published_defects 1000 (defect ∷ defect ∷ defect ∷ [])
        ≡ take
            (length (published_defects 1000 (defect ∷ defect ∷ defect ∷ [])))
            (defect ∷ defect ∷ defect ∷ []))
published_defects_lem_example =
    published_defects_lem 1000 (defect ∷ defect ∷ defect ∷ []) (omega arith)

publish_at-outside_example : (publish_at client 1 result).0.results 40 ≡ client.results 40
unfolding slot_base
publish_at-outside_example =
    publish_at-outside toy_packs-IsPacking client 1 result 40 (omega arith) (inl (omega arith))

publish_result-timed_out_example :
    (publish_result client [] result).1 ≡ timed_out ↔ IsFull client []
publish_result-timed_out_example = publish_result-timed_out client [] result

publish_result-taken_example :
    (1 < 2)
    × (load_u32 (await_slot client (idle ∷ [])).0.results (slot_base 1 client.result_slot_size) ≡ 0)
publish_result-taken_example =
    publish_result-taken client (idle ∷ []) result 1 (ap taken publish_runs)
