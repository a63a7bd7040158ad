-- ===== src/Shm/Jobs.antt =====
-- `ShmClient._read_frame_slot`, `_publish_frame_slot_error` and `wait_next_job`.
use seat_surface_aoi.Prelude.{
  ℕ, zero, suc, ◌+◌, ◌==◌, Option, none, some, List, [], ◌∷◌, false, if◌then◌else◌,
}
use seat_surface_aoi.Float.{Float}
use seat_surface_aoi.Prelude.Dict.{put, nat_key}
use seat_surface_aoi.Prelude.Result.{Result, done, raised}
use seat_surface_aoi.Protocol.Bytes.{load_bytes}
use seat_surface_aoi.Protocol.Codes.{ErrorCode, error, slot_state_value, empty, ready, reading}
use seat_surface_aoi.Protocol.Layout.{Codec, Packs, decode_cstr, frame_slot_header_size}
use seat_surface_aoi.Types.{SeatInspectionJob, InspectionResult}
use seat_surface_aoi.Shm.Client.{
  ShmClient, Digits, load_u32, store_u32, slot_base, release_frame_slot,
}
use seat_surface_aoi.Shm.Frames.{Unpacks, load_u64}
use seat_surface_aoi.Shm.Packing.{header_crc}
use seat_surface_aoi.Shm.Publish.{
  Round, Outcome, published, failed, timed_out, publish_result, interfere,
}
use seat_surface_aoi.Shm.Reader.{FrameSlotIdentity, prefix_at, job_at, read_identified}

-- A scan of `wait_next_job`: what the C++ side does before it, and the rounds of the wait for a result
-- slot where the slot of that number has an error to report.
pub record Scan : Type 0 where
  pub before : Round
  pub waits : ℕ → List Round

-- AtomicU32.store of a frame slot's state.
unfoldable pub mark_frame : ShmClient → ℕ → ℕ → ShmClient
mark_frame c base value = record c { frames = store_u32 c.frames base value }

-- `except Exception` around `publish_result`.
unfoldable pub or_release : ShmClient × Outcome → ℕ → ShmClient
or_release (c, published i) sequence_id = c
or_release (c, failed i) sequence_id = release_frame_slot c sequence_id
or_release (c, timed_out) sequence_id = release_frame_slot c sequence_id

module _ (F : Type 0) ⦃f : Float F⦄ where
  -- The result that reports an error of a slot.
  unfoldable pub slot_error_result : FrameSlotIdentity → ErrorCode → InspectionResult F
  slot_error_result identity error_code = record {
    sequence_id = identity.sequence_id;
    trigger_id = identity.trigger_id;
    seat_id = identity.seat_id;
    decision = error;
    defects = [];
    quality_pass = false;
    error_code = error_code;
    elapsed_ms = f.nought;
  }

  module _ ⦃k : Codec⦄ ⦃p : Packs F⦄ ⦃d : Digits⦄ where
    -- ShmClient._publish_frame_slot_error
    unfoldable pub publish_frame_slot_error :
        ShmClient → List Round → ℕ → FrameSlotIdentity → ErrorCode → ShmClient
    unfolding or_release slot_error_result
    publish_frame_slot_error c rounds slot_index identity error_code =
        let pending = record c {
          pending_frame_slots = put c.pending_frame_slots identity.sequence_id slot_index;
        } in
        or_release (publish_result pending rounds (slot_error_result identity error_code))
          identity.sequence_id

    -- The end of the `try` block, with a job or with an error of the identified slot.
    unfoldable pub finish_read :
        List Round
        → ℕ
        → FrameSlotIdentity
        → ShmClient × Result ErrorCode (SeatInspectionJob F)
        → ShmClient × Option (SeatInspectionJob F)
    unfolding publish_frame_slot_error
    finish_read rounds slot_index identity (c, done job) = (c, some job)
    finish_read rounds slot_index identity (c, raised e) =
        (publish_frame_slot_error c rounds slot_index identity e, none)

    module _ ⦃u : Unpacks F⦄ where
      -- ShmClient._read_frame_slot
      unfoldable pub read_frame_slot :
          ShmClient → List Round → ℕ → ShmClient × Option (SeatInspectionJob F)
      unfolding mark_frame finish_read
      read_frame_slot c rounds slot_index =
          let base = slot_base slot_index c.frame_slot_size in
          let taken = mark_frame c base (slot_state_value reading) in
          let m = taken.frames in
          let identity : FrameSlotIdentity = record {
            sequence_id = load_u64 m (prefix_at base 1);
            trigger_id = load_u64 m (job_at base 1);
            seat_id = decode_cstr (load_bytes m (job_at base 2) 64);
          } in
          if header_crc m base frame_slot_header_size == load_u32 m (prefix_at base 3)
          then finish_read rounds slot_index identity (read_identified taken base)
          else (mark_frame taken base (slot_state_value empty), none)

      -- The job of slot `i`, which is now pending, or the rest of the scan.
      unfoldable pub keep_job :
          (ShmClient → ShmClient × Option (SeatInspectionJob F))
          → ℕ
          → ShmClient × Option (SeatInspectionJob F)
          → ShmClient × Option (SeatInspectionJob F)
      keep_job rest i (c, none) = rest c
      keep_job rest i (c, some job) =
          (record c { pending_frame_slots = put c.pending_frame_slots job.sequence_id i }, some job)

      -- One scan of the frame slots, from slot `i` on; `n` of them are left.
      unfoldable pub scan_slots :
          ℕ → ℕ → (ℕ → List Round) → ShmClient → ShmClient × Option (SeatInspectionJob F)
      unfolding keep_job
      scan_slots zero i waits c = (c, none)
      scan_slots (suc n) i waits c =
          let rest = scan_slots n (i + 1) waits in
          if load_u32 c.frames (slot_base i c.frame_slot_size) == slot_state_value ready
          then keep_job rest i (read_frame_slot c (waits i) i)
          else rest c

      unfoldable pub job_or :
          (ShmClient → ShmClient × Option (SeatInspectionJob F))
          → ShmClient × Option (SeatInspectionJob F)
          → ShmClient × Option (SeatInspectionJob F)
      job_or later (c, none) = later c
      job_or later (c, some job) = (c, some job)

      -- ShmClient.wait_next_job; the scans until the deadline.
      unfoldable pub wait_next_job :
          List Scan → ShmClient → ShmClient × Option (SeatInspectionJob F)
      unfolding scan_slots job_or
      wait_next_job [] c = (c, none)
      wait_next_job (s ∷ scans) c =
          job_or (wait_next_job scans) (scan_slots c.slot_count 0 s.waits (interfere c s.before))
