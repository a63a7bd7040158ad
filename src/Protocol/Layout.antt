-- ===== src/Protocol/Layout.antt =====
-- The binary layout of python_detector/ipc/shm_protocol.py: the `struct` formats with their sizes and
-- offsets, and fixed-size texts. Formats begin with `<`, so a field takes its size and no padding.
use seat_surface_aoi.Prelude.{
  ℕ, ◌+◌, ◌-◌, ◌*◌, ◌%◌, ◌^◌, ◌≡◌, String, Bool, ◌&&◌, ◌==◌, Option, none, some, List, [], ◌∷◌,
  ◌++◌, length, take, replicate, ltb, if◌then◌else◌,
}
use seat_surface_aoi.Prelude.Int.{ℤ, pos, negsuc}
use seat_surface_aoi.Protocol.Bytes.{Bytes, le_bytes}

abbrev pub string_id_size : ℕ
string_id_size = 64

abbrev pub max_frames_per_job : ℕ
max_frames_per_job = 64

abbrev pub max_defects_per_result : ℕ
max_defects_per_result = 32

abbrev pub max_evidence_lights : ℕ
max_evidence_lights = 8

-- What Python's standard library does with texts and checksums: UTF-8, with `errors="replace"` on
-- decoding, and `binascii.crc32`.
pub record Codec : Type 0 where
  pub utf8 : String → Bytes
  pub from_utf8 : Bytes → String
  pub binascii_crc32 : Bytes → ℕ

pub record IsCodec ⦃k : Codec⦄ : Type 0 where
  pub from_utf8-utf8 : (s : String) → k.from_utf8 (k.utf8 s) ≡ s

-- `struct`'s 'f': a `float` in four bytes; `none` is its `OverflowError`.
pub record Packs (F : Type 0) : Type 0 where
  pub f32_bytes : F → Option Bytes

pub record IsPacking (F : Type 0) ⦃k : Packs F⦄ : Type 0 where
  pub length-f32_bytes : (x : F) (bs : Bytes) → k.f32_bytes x ≡ some bs → length bs ≡ 4

-- The letters of a format: I, Q, i, q, f and 64s.
pub data Letter : Type 0 where
  u32 u64 i32 i64 f32 s64 : Letter

abbrev pub size_of : Letter → ℕ
size_of u32 = 4
size_of u64 = 8
size_of i32 = 4
size_of i64 = 8
size_of f32 = 4
size_of s64 = 64

-- struct.calcsize
abbrev pub calcsize : List Letter → ℕ
calcsize [] = 0
calcsize (l ∷ ls) = size_of l + calcsize ls

abbrev pub shm_header : List Letter
shm_header = u32 ∷ u32 ∷ u32 ∷ u32 ∷ u64 ∷ u64 ∷ u64 ∷ []

abbrev pub light_frame_meta : List Letter
light_frame_meta =
    replicate 13 u32
    ++ (u64 ∷ u64 ∷ u64 ∷ u32 ∷ f32 ∷ [])
    ++ replicate 6 f32
    ++ (s64 ∷ s64 ∷ s64 ∷ u64 ∷ u64 ∷ u32 ∷ u32 ∷ [])

abbrev pub seat_job_meta : List Letter
seat_job_meta = u64 ∷ u64 ∷ s64 ∷ s64 ∷ s64 ∷ u32 ∷ u32 ∷ u32 ∷ u32 ∷ u64 ∷ []

abbrev pub defect_result_meta : List Letter
defect_result_meta =
    (s64 ∷ s64 ∷ u32 ∷ s64 ∷ s64 ∷ s64 ∷ [])
    ++ replicate 4 i32
    ++ (f32 ∷ u32 ∷ u32 ∷ [])
    ++ replicate 8 i32
    ++ (i64 ∷ u32 ∷ u32 ∷ [])

abbrev pub inspection_result_meta : List Letter
inspection_result_meta = u64 ∷ u64 ∷ s64 ∷ u32 ∷ u32 ∷ u32 ∷ u32 ∷ f32 ∷ u32 ∷ []

abbrev pub slot_header_prefix : List Letter
slot_header_prefix = u32 ∷ u64 ∷ u64 ∷ u32 ∷ u32 ∷ u32 ∷ u32 ∷ []

abbrev pub frame_slot_header_size : ℕ
frame_slot_header_size = calcsize slot_header_prefix + calcsize seat_job_meta

abbrev pub result_slot_header_size : ℕ
result_slot_header_size = calcsize slot_header_prefix + calcsize inspection_result_meta

-- assert_protocol_layout: the sizes against EXPECTED_SIZES, `false` for the `AssertionError`.
pub assert_protocol_layout : Bool
assert_protocol_layout =
    (calcsize shm_header == 40)
    && (frame_slot_header_size == 268)
    && (result_slot_header_size == 140)
    && (calcsize light_frame_meta == 324)
    && (calcsize seat_job_meta == 232)
    && (calcsize inspection_result_meta == 104)
    && (calcsize defect_result_meta == 400)

abbrev pub frame_slot_meta_offset : ℕ
frame_slot_meta_offset = frame_slot_header_size

abbrev pub frame_slot_image_offset : ℕ → ℕ
frame_slot_image_offset frame_meta_count =
    frame_slot_header_size + calcsize light_frame_meta * frame_meta_count

abbrev pub result_slot_defects_offset : ℕ
result_slot_defects_offset = result_slot_header_size

-- raw.split(b"\0", 1)[0]
unfoldable pub until_nul : Bytes → Bytes
until_nul [] = []
until_nul (b ∷ bs) = let rest = until_nul bs in if b == 0 then [] else b ∷ rest

-- A value beside the letter that it is packed with.
pub data Field (F : Type 0) : Type 0 where
  as_u32 : ℕ → Field F
  as_u64 : ℕ → Field F
  as_i32 : ℤ → Field F
  as_i64 : ℤ → Field F
  as_f32 : F → Field F
  as_s64 : Bytes → Field F

abbrev pub letter : {F : Type 0} → Field F → Letter
letter (as_u32 n) = u32
letter (as_u64 n) = u64
letter (as_i32 z) = i32
letter (as_i64 z) = i64
letter (as_f32 x) = f32
letter (as_s64 bs) = s64

-- Two's complement in `w` bytes, where `m` is 256 ^ w.
unfoldable pub pack_signed : ℕ → ℕ → ℤ → Option Bytes
pack_signed w m (pos n) = if ltb (2 * n) m then some (le_bytes w n) else none
pack_signed w m (negsuc n) = if ltb (2 * n) m then some (le_bytes w (m - 1 - n)) else none

unfoldable pub append? : Option Bytes → Option Bytes → Option Bytes
append? none b = none
append? (some xs) none = none
append? (some xs) (some ys) = some (xs ++ ys)

module _ ⦃k : Codec⦄ where
  unfoldable pub crc32 : Bytes → ℕ
  crc32 bs = k.binascii_crc32 bs % 2 ^ 32

  unfoldable pub decode_cstr : Bytes → String
  unfolding until_nul
  decode_cstr raw = k.from_utf8 (until_nul raw)

  unfoldable pub encode_cstr : String → Bytes
  encode_cstr value =
      let encoded = take (string_id_size - 1) (k.utf8 value) in
      encoded ++ replicate (string_id_size - length encoded) 0

module _ {F : Type 0} ⦃k : Packs F⦄ where
  -- One letter of struct.pack; `none` is `struct.error`. '64s' cuts and pads with zeros.
  unfoldable pub pack_field : Field F → Option Bytes
  unfolding pack_signed
  pack_field (as_u32 n) = if ltb n (2 ^ 32) then some (le_bytes 4 n) else none
  pack_field (as_u64 n) = if ltb n (2 ^ 64) then some (le_bytes 8 n) else none
  pack_field (as_i32 z) = pack_signed 4 (2 ^ 32) z
  pack_field (as_i64 z) = pack_signed 8 (2 ^ 64) z
  pack_field (as_f32 x) = k.f32_bytes x
  pack_field (as_s64 bs) = some (take 64 (bs ++ replicate 64 0))

  -- struct.pack
  unfoldable pub pack : List (Field F) → Option Bytes
  pack [] = some []
  pack (x ∷ xs) = append? (pack_field x) (pack xs)
