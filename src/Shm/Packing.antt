-- ===== src/Shm/Packing.antt =====
-- The bytes of a result: `_pack_defect` and `_write_result_slot`.
use mathlib.Core.Option
use seat_surface_aoi.Prelude.{
  ℕ, ◌+◌, ◌^◌, ◌&&◌, String, Bool, Option, none, some, List, [], ◌∷◌, ◌++◌, map, length, take,
  replicate, ltb, min, if◌then◌else◌,
}
use seat_surface_aoi.Prelude.Int.{ℤ, pos, negsuc}
use seat_surface_aoi.Protocol.Bytes.{Bytes, Memory, load_bytes, store_bytes, le_bytes}
use seat_surface_aoi.Protocol.Codes.{slot_state_value, writing, decision_value, error_code_value}
use seat_surface_aoi.Protocol.Layout.{
  Codec, Packs, Field, as_u32, as_u64, as_i32, as_i64, as_f32, as_s64, pack, append?, encode_cstr,
  crc32, max_evidence_lights, calcsize, slot_header_prefix, result_slot_header_size,
  result_slot_defects_offset,
}
use seat_surface_aoi.Types.{DefectResult, InspectionResult, Severity, critical, suspect}
use seat_surface_aoi.Shm.Client.{ShmClient, Digits, camera_index_for_defect, light_index}

abbrev pub severity_text : Severity → String
severity_text critical = "critical"
severity_text suspect = "suspect"

-- An `int` under the letter I: a negative one is a `struct.error`.
abbrev pub unsigned : ℤ → Option ℕ
unsigned (pos n) = some n
unsigned (negsuc n) = none

abbrev pub flag : Bool → ℕ
flag b = if b then 1 else 0

abbrev pub mask_field : Option ℤ → ℤ
mask_field none = negsuc 0
mask_field (some z) = z

-- The values of a comprehension that may raise.
unfoldable pub collect : List (Option ℕ) → Option (List ℕ)
collect [] = some []
collect (none ∷ xs) = none
collect (some n ∷ xs) = elim (collect xs) [ none ↦ none | some ns ↦ some (n ∷ ns) ]

-- (evidence + [0] * MAX_EVIDENCE_LIGHTS)[:MAX_EVIDENCE_LIGHTS]
abbrev pub padded_evidence : List ℕ → List ℕ
padded_evidence ns = take max_evidence_lights (ns ++ replicate max_evidence_lights 0)

module _ {F : Type 0} ⦃k : Codec⦄ ⦃p : Packs F⦄ ⦃d : Digits⦄ where
  unfoldable pub defect_fields : DefectResult F → List ℕ → ℕ → ℕ → List (Field F)
  defect_fields defect evidence camera area =
      let box = defect.bbox_xyxy_pixel in
      (as_s64 (encode_cstr defect.defect_id)
        ∷ as_s64 (encode_cstr (severity_text defect.severity))
        ∷ as_u32 camera
        ∷ as_s64 (encode_cstr defect.camera_id)
        ∷ as_s64 (encode_cstr defect.pose_id)
        ∷ as_s64 (encode_cstr defect.roi_name)
        ∷ as_i32 box.x0
        ∷ as_i32 box.y0
        ∷ as_i32 box.x1
        ∷ as_i32 box.y1
        ∷ as_f32 defect.score
        ∷ as_u32 area
        ∷ as_u32 (min (length defect.evidence_lights) 8)
        ∷ [])
      ++ (map (λ n. as_i32 (pos n)) (padded_evidence evidence)
          ++ (as_i64 (mask_field defect.mask_offset)
              ∷ as_u32 (decision_value defect.decision)
              ∷ as_u32 0
              ∷ []))

  -- ShmClient._pack_defect; `none` is an exception.
  unfoldable pub pack_defect : ShmClient → DefectResult F → Option Bytes
  unfolding defect_fields collect
  pack_defect c defect =
      if ltb max_evidence_lights (length defect.evidence_lights)
      then none
      else Option.bind (collect (map light_index defect.evidence_lights)) λ evidence.
        Option.bind (camera_index_for_defect c defect.camera_id defect.pose_id) λ camera.
          Option.bind (unsigned defect.area_px)
            λ area. pack (defect_fields defect evidence camera area)

  -- b"".join(self._pack_defect(defect) for defect in defects)
  unfoldable pub pack_defects : ShmClient → List (DefectResult F) → Option Bytes
  pack_defects c [] = some []
  pack_defects c (x ∷ xs) = append? (pack_defect c x) (pack_defects c xs)

  -- INSPECTION_RESULT_META.pack(…)
  unfoldable pub pack_result_meta : InspectionResult F → ℕ → Option Bytes
  pack_result_meta result count = pack (
      as_u64 result.sequence_id
      ∷ as_u64 result.trigger_id
      ∷ as_s64 (encode_cstr result.seat_id)
      ∷ as_u32 (decision_value result.decision)
      ∷ as_u32 count
      ∷ as_u32 (flag result.quality_pass)
      ∷ as_u32 (error_code_value result.error_code)
      ∷ as_f32 result.elapsed_ms
      ∷ as_u32 0
      ∷ [])

-- RESULT_SLOT_HEADER_PREFIX.pack_into(…): the bytes, and `none` for `struct.error`.
abbrev pub prefix_bytes : ℕ → ℕ → ℕ → ℕ → Bytes
prefix_bytes sequence_id payload_size payload_crc count =
    le_bytes 4 (slot_state_value writing)
    ++ (le_bytes 8 sequence_id
        ++ (le_bytes 8 payload_size
            ++ (le_bytes 4 0 ++ (le_bytes 4 payload_crc ++ (le_bytes 4 count ++ le_bytes 4 0)))))

unfoldable pub pack_prefix : ℕ → ℕ → ℕ → ℕ → Option Bytes
pack_prefix sequence_id payload_size payload_crc count =
    if ltb sequence_id (2 ^ 64)
      && ltb payload_size (2 ^ 64)
      && ltb payload_crc (2 ^ 32)
      && ltb count (2 ^ 32)
    then some (prefix_bytes sequence_id payload_size payload_crc count)
    else none

module _ ⦃k : Codec⦄ where
  abbrev pub zeros4 : Bytes
  zeros4 = replicate 4 0

  -- The checksum of `size` bytes of a slot's header, taken with its state and its checksum zeroed.
  unfoldable pub header_crc : Memory → ℕ → ℕ → ℕ
  header_crc m base size =
      crc32 (load_bytes (store_bytes (store_bytes m base zeros4) (base + 20) zeros4) base size)

  -- The writes of ShmClient._write_result_slot, once everything is packed.
  unfoldable pub write_parts : Memory → ℕ → Bytes → Bytes → Bytes → Memory
  write_parts m base prefix meta defect_bytes =
      let m1 = store_bytes m base prefix in
      let m2 = store_bytes m1 (base + calcsize slot_header_prefix) meta in
      let m3 = store_bytes m2 (base + result_slot_defects_offset) defect_bytes in
      store_bytes m3 (base + 20) (le_bytes 4 (header_crc m3 base result_slot_header_size))

module _ {F : Type 0} ⦃k : Codec⦄ ⦃p : Packs F⦄ ⦃d : Digits⦄ where
  -- ShmClient._write_result_slot; `none` is an exception, raised before the first write.
  unfoldable pub write_result_slot :
      ShmClient → ℕ → InspectionResult F → List (DefectResult F) → ℕ → Option Memory
  write_result_slot c base result defects payload_size =
      Option.bind (pack_result_meta result (length defects)) λ meta.
        Option.bind (pack_defects c defects) λ defect_bytes.
          Option.bind
            (pack_prefix result.sequence_id payload_size (crc32 defect_bytes) (length defects))
            λ prefix. some (write_parts c.results base prefix meta defect_bytes)
