-- ===== src/Protocol/Codes.antt =====
-- The enumerations of python_detector/ipc/shm_protocol.py with their numbers.
use seat_surface_aoi.Prelude.{ℕ, String, Option, none, some, ◌==◌, if◌then◌else◌}

pub data SlotState : Type 0 where
  empty writing ready reading corrupted timeout : SlotState

abbrev pub slot_state_value : SlotState → ℕ
slot_state_value SlotState.empty = 0
slot_state_value SlotState.writing = 1
slot_state_value SlotState.ready = 2
slot_state_value SlotState.reading = 3
slot_state_value SlotState.corrupted = 4
slot_state_value SlotState.timeout = 5

pub data InspectionDecision : Type 0 where
  ok ng recheck error : InspectionDecision

abbrev pub decision_value : InspectionDecision → ℕ
decision_value ok = 1
decision_value ng = 2
decision_value recheck = 3
decision_value error = 4

pub data ErrorCode : Type 0 where
  no_error protocol_mismatch invalid_payload crc_mismatch slot_unavailable : ErrorCode
  detector_timeout missing_frame quality_failed device_fault internal_error : ErrorCode
  light_fault camera_fault trigger_sync_fault configuration_error robot_fault : ErrorCode

abbrev pub error_code_value : ErrorCode → ℕ
error_code_value no_error = 0
error_code_value protocol_mismatch = 1
error_code_value invalid_payload = 2
error_code_value crc_mismatch = 3
error_code_value slot_unavailable = 4
error_code_value detector_timeout = 5
error_code_value missing_frame = 6
error_code_value quality_failed = 7
error_code_value device_fault = 8
error_code_value internal_error = 9
error_code_value light_fault = 10
error_code_value camera_fault = 11
error_code_value trigger_sync_fault = 12
error_code_value configuration_error = 13
error_code_value robot_fault = 14

-- `PixelFormat(n).name`: none is the `ValueError`.
unfoldable pub pixel_format_name : ℕ → Option String
pixel_format_name n =
    if n == 1
    then some "MONO8"
    else if n == 2
    then some "MONO10"
    else if n == 3
    then some "MONO12"
    else if n == 4
    then some "MONO16"
    else if n == 10
    then some "BAYER_RG8"
    else if n == 11
    then some "BAYER_RG12"
    else if n == 20
    then some "BGR8"
    else if n == 21
    then some "RGB8"
    else none

unfoldable pub color_order_name : ℕ → Option String
color_order_name n =
    if n == 1
    then some "MONO"
    else if n == 2
    then some "BGR"
    else if n == 3
    then some "RGB"
    else if n == 4
    then some "BAYER_RG"
    else if n == 5
    then some "BAYER_GB"
    else if n == 6
    then some "BAYER_GR"
    else if n == 7
    then some "BAYER_BG"
    else none

unfoldable pub dtype_name : ℕ → Option String
dtype_name n =
    if n == 1
    then some "UINT8"
    else if n == 2
    then some "UINT16"
    else if n == 3
    then some "FLOAT32"
    else none
