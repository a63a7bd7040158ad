-- ===== src/Shm/Frames.antt =====
-- The frames of a slot: `_make_light_frame`, and the bundles that `_read_frame_slot` builds from them.
use seat_surface_aoi.Prelude.{
  ℕ, ◌+◌, ◌*◌, ◌==◌, ◌&&◌, ◌||◌, String, Bool, Option, none, some, List, [], ◌∷◌, ltb, any, take,
  str_eq, if◌then◌else◌,
}
use seat_surface_aoi.Prelude.Dict.{Dict, get, nat_key, string_key, pair_key}
use seat_surface_aoi.Prelude.Result.{Result, done, raised}
use seat_surface_aoi.Prelude.Text.{append, decimal}
use seat_surface_aoi.Protocol.Bytes.{Bytes, Memory, load_bytes, from_le}
use seat_surface_aoi.Protocol.Codes.{
  ErrorCode, invalid_payload, crc_mismatch, pixel_format_name, color_order_name, dtype_name,
}
use seat_surface_aoi.Protocol.Layout.{Codec, Letter, calcsize, light_frame_meta, decode_cstr, crc32}
use seat_surface_aoi.Types.{View, LightFrame}
use seat_surface_aoi.Shm.Client.{load_u32, camera_id_by_index, light_id_by_index}

-- The place of the `n`-th field of a format.
abbrev pub offset_of : List Letter → ℕ → ℕ
offset_of format n = calcsize (take n format)

-- `struct`'s 'Q'
abbrev pub load_u64 : Memory → ℕ → ℕ
load_u64 m off = from_le (load_bytes m off 8)

-- `struct`'s 'f' on unpacking.
pub record Unpacks (F : Type 0) : Type 0 where
  pub f32_value : Bytes → F

-- d.get(k, default)
unfoldable pub get_default : Dict ℕ String → ℕ → String → String
get_default d k s = elim (get d k) [ some v ↦ v | none ↦ s ]

-- `a or b` on texts.
abbrev pub or_text : String → String → String
or_text a b = if str_eq a "" then b else a

-- Two ranges that have an address in common.
abbrev pub overlaps : View → View → Bool
overlaps a b = ltb a.start b.stop && ltb b.start a.stop

-- A frame, the place of its image in the slot, and the camera's number.
pub record ReadFrame (F : Type 0) : Type 0 where
  pub frame : LightFrame F
  pub image_range : View
  pub camera_number : ℕ

-- The names of the three enumerations, or the error for a number that is in none of them.
unfoldable pub with_names :
    {A : Type 0}
    → Option String
    → Option String
    → Option String
    → (String → String → String → A)
    → Result ErrorCode A
with_names (some a) (some b) (some c) f = done (f a b c)
with_names (some a) (some b) none f = raised invalid_payload
with_names (some a) none c f = raised invalid_payload
with_names none b c f = raised invalid_payload

module _ {F : Type 0} ⦃k : Codec⦄ ⦃u : Unpacks F⦄ where
  -- The `LightFrame(…)` whose meta data stand at `at`.
  unfoldable pub light_frame : Memory → ℕ → ℕ → String → String → String → ReadFrame F
  light_frame m at slot_base pixel_format color_order dtype =
      let word = λ (n : ℕ). load_u32 m (at + offset_of light_frame_meta n) in
      let long = λ (n : ℕ). load_u64 m (at + offset_of light_frame_meta n) in
      let real = λ (n : ℕ). u.f32_value (load_bytes m (at + offset_of light_frame_meta n) 4) in
      let text = λ (n : ℕ). decode_cstr (load_bytes m (at + offset_of light_frame_meta n) 64) in
      let image_start = slot_base + long 27 in
      record {
        frame = record {
          camera_id =
              or_text (text 24)
                (get_default camera_id_by_index (word 0) (append "CAMERA_" (decimal (word 0))));
          pose_id = or_text (text 25) (append "POSE_" (decimal (word 1)));
          light_id = get_default light_id_by_index (word 2) (append "LIGHT_" (decimal (word 2)));
          frame_index = word 3;
          light_seq_index = word 4;
          width = word 5;
          height = word 6;
          channels = word 7;
          stride_bytes = word 8;
          pixel_format = pixel_format;
          bit_depth = word 10;
          color_order = color_order;
          dtype = dtype;
          timestamp_us = long 13;
          shot_id = long 14;
          robot_timestamp_us = long 15;
          exposure_us = word 16;
          gain = real 17;
          robot_tcp_xyz_mm = real 18 ∷ real 19 ∷ real 20 ∷ [];
          robot_rpy_deg = real 21 ∷ real 22 ∷ real 23 ∷ [];
          calibration_id = text 26;
          image_crc32 = word 29;
          image = record { start = image_start; stop = image_start + long 28 };
        };
        image_range = record { start = long 27; stop = long 27 + long 28 };
        camera_number = word 0;
      }

  -- ShmClient._make_light_frame, up to the table of the cameras, which the caller updates.
  unfoldable pub make_light_frame :
      Memory → ℕ → ℕ → ℕ → ℕ → List View → Result ErrorCode (ReadFrame F)
  unfolding with_names light_frame
  make_light_frame m at slot_base payload_size image_region_offset image_ranges =
      let word = λ (n : ℕ). load_u32 m (at + offset_of light_frame_meta n) in
      let image_offset = load_u64 m (at + offset_of light_frame_meta 27) in
      let image_size = load_u64 m (at + offset_of light_frame_meta 28) in
      let image_range : View = record { start = image_offset; stop = image_offset + image_size } in
      if ltb image_offset image_region_offset
        || ltb image_size (word 8 * word 6)
        || (image_size == 0)
        || ltb payload_size (image_offset + image_size)
      then raised invalid_payload
      else if any (overlaps image_range) image_ranges
      then raised invalid_payload
      else if crc32 (load_bytes m (slot_base + image_offset) image_size) == word 29
      then with_names (pixel_format_name (word 9)) (color_order_name (word 11))
          (dtype_name (word 12)) (light_frame m at slot_base)
      else raised crc_mismatch
