-- ===== src/Shm/Client.antt =====
-- The state of `ShmClient`, its slots and its tables.
use Prim.Native.String.{slice, len}
use text.Mathlib.Text.{starts_with}
use seat_surface_aoi.Prelude.{
  ℕ, ◌+◌, ◌*◌, String, Option, none, some, [], ◌∷◌, str_eq, if◌then◌else◌,
}
use seat_surface_aoi.Prelude.Dict.{Dict, get, put, remove, nat_key, string_key, pair_key}
use seat_surface_aoi.Protocol.Bytes.{Memory, load_bytes, store_bytes, from_le, le_bytes}
use seat_surface_aoi.Protocol.Codes.{slot_state_value, empty}
use seat_surface_aoi.Protocol.Layout.{calcsize, shm_header}

abbrev pub light_id_by_index : Dict ℕ String
light_id_by_index =
    (1, "DIFFUSE")
    ∷ (2, "POLAR_DIFFUSE")
    ∷ (3, "HIGH_LEFT")
    ∷ (4, "HIGH_RIGHT")
    ∷ (5, "HIGH_FRONT")
    ∷ (6, "HIGH_REAR")
    ∷ (7, "LOW_LEFT")
    ∷ (8, "LOW_RIGHT")
    ∷ (9, "LOW_FRONT")
    ∷ (10, "LOW_REAR")
    ∷ (11, "NIR")
    ∷ (12, "DOME_ROI")
    ∷ []

abbrev pub camera_id_by_index : Dict ℕ String
camera_id_by_index = (0, "TOP_BACK") ∷ (1, "TOP_CUSHION") ∷ (2, "LEFT") ∷ (3, "RIGHT") ∷ []

-- {id: index for index, id in ….items()}
abbrev pub inverted : Dict ℕ String → Dict String ℕ
inverted [] = []
inverted ((i, s) ∷ d) = (s, i) ∷ inverted d

-- `int(s)` where `s.isdigit()`; `none` where it is not, or where `int` raises.
pub record Digits : Type 0 where
  pub int_of_digits : String → Option ℕ

pub record ShmClient : Type 0 where
  pub slot_count : ℕ
  pub frame_slot_size : ℕ
  pub result_slot_size : ℕ
  pub frames : Memory
  pub results : Memory
  pub pending_frame_slots : Dict ℕ ℕ
  pub camera_index_by_id : Dict String ℕ
  pub camera_index_by_view : Dict (String × String) ℕ

-- ShmClient._slot_base
unfoldable pub slot_base : ℕ → ℕ → ℕ
slot_base slot_index slot_size = calcsize shm_header + slot_index * slot_size

-- AtomicU32.load
unfoldable pub load_u32 : Memory → ℕ → ℕ
load_u32 m off = from_le (load_bytes m off 4)

-- AtomicU32.store
unfoldable pub store_u32 : Memory → ℕ → ℕ → Memory
store_u32 m off value = store_bytes m off (le_bytes 4 value)

-- ShmClient._release_frame_slot, once the entry is popped
unfoldable pub release_at : ShmClient → ℕ → Option ℕ → ShmClient
release_at c sequence_id none = record c {
  pending_frame_slots = remove c.pending_frame_slots sequence_id;
}
release_at c sequence_id (some slot_index) = record c {
  pending_frame_slots = remove c.pending_frame_slots sequence_id;
  frames = store_u32 c.frames (slot_base slot_index c.frame_slot_size) (slot_state_value empty);
}

-- ShmClient._release_frame_slot, and release_frame_slot
unfoldable pub release_frame_slot : ShmClient → ℕ → ShmClient
release_frame_slot c sequence_id = release_at c sequence_id (get c.pending_frame_slots sequence_id)

-- ShmClient._remember_camera_index; `pose_id or camera_id`
unfoldable pub remember_camera_index : ShmClient → String → String → ℕ → ShmClient
remember_camera_index c camera_id pose_id camera_index =
    let pose = if str_eq pose_id "" then camera_id else pose_id in
    record c {
      camera_index_by_id = put c.camera_index_by_id camera_id camera_index;
      camera_index_by_view = put c.camera_index_by_view (camera_id, pose) camera_index;
    }

-- The number behind a prefix of six or seven bytes; `none` is the `ValueError`.
unfoldable pub numbered : ⦃d : Digits⦄ → String → ℕ → String → Option ℕ
numbered ⦃d⦄ prefix size id =
    if starts_with id prefix then d.int_of_digits (slice id size (len id)) else none

module _ ⦃d : Digits⦄ where
  -- ShmClient._camera_index
  unfoldable pub camera_index : ShmClient → String → Option ℕ
  unfolding numbered
  camera_index c camera_id = elim (get c.camera_index_by_id camera_id) [
    | some index ↦ some index
    | none ↦ numbered "CAMERA_" 7 camera_id
  ]

  -- ShmClient._camera_index_for_defect, at the defect's camera and pose
  unfoldable pub camera_index_for_defect : ShmClient → String → String → Option ℕ
  unfolding camera_index
  camera_index_for_defect c camera_id pose_id =
      let pose = if str_eq pose_id "" then camera_id else pose_id in
      elim (get c.camera_index_by_view (camera_id, pose)) [
        | some index ↦ some index
        | none ↦ camera_index c camera_id
      ]

  -- ShmClient._light_index
  unfoldable pub light_index : String → Option ℕ
  unfolding numbered
  light_index light_id = elim (get (inverted light_id_by_index) light_id) [
    | some index ↦ some index
    | none ↦ numbered "LIGHT_" 6 light_id
  ]
