-- ===== src/Shm/Pending.antt =====
-- The job that `wait_next_job` returns is pending with its slot.
use seat_surface_aoi.Prelude.{
  ℕ, zero, suc, ◌+◌, ◌≡◌, refl, ap, ◌∙◌, Option, none, some, List, [], ◌∷◌, arith, ◌==◌, if_both,
}
use seat_surface_aoi.Float.{Float}
use seat_surface_aoi.Prelude.Dict.{get, get-put, beq_refl, nat_key}
use seat_surface_aoi.Prelude.Result.{Result, done, raised}
use seat_surface_aoi.Protocol.Codes.{ErrorCode, slot_state_value, empty, ready, reading}
use seat_surface_aoi.Protocol.Layout.{Codec, Packs, frame_slot_header_size}
use seat_surface_aoi.Types.{SeatInspectionJob}
use seat_surface_aoi.Shm.Client.{ShmClient, Digits, load_u32, slot_base}
use seat_surface_aoi.Shm.Frames.{Unpacks}
use seat_surface_aoi.Shm.Publish.{Round, interfere}
use seat_surface_aoi.Shm.Packing.{header_crc}
use seat_surface_aoi.Shm.Reader.{FrameSlotIdentity, prefix_at, read_identified}
use seat_surface_aoi.Shm.Freed.{read_frame_slot_lem, state_after, read_identified-IsSameFrames}
use seat_surface_aoi.Shm.Jobs.{
  Scan, mark_frame, finish_read, read_frame_slot, keep_job, scan_slots, job_or, wait_next_job,
}

module _ {F : Type 0} where
  -- The job, if there is one, is pending with a slot that is READING.
  pub IsPending : ShmClient × Option (SeatInspectionJob F) → Type 0
  IsPending r =
      (job : SeatInspectionJob F)
      → r.1 ≡ some job
      → (i : ℕ) × (get r.0.pending_frame_slots job.sequence_id ≡ some i)
        × (load_u32 r.0.frames (slot_base i r.0.frame_slot_size) ≡ slot_state_value reading)

module _ (F : Type 0) ⦃f : Float F⦄ ⦃k : Codec⦄ ⦃p : Packs F⦄ ⦃d : Digits⦄ where
  finish-size :
      (rounds : List Round) (i size : ℕ) (identity : FrameSlotIdentity)
      (r : ShmClient × Result ErrorCode (SeatInspectionJob F)) (job : SeatInspectionJob F)
      → r.0.frame_slot_size ≡ size
      → (finish_read F rounds i identity r).1 ≡ some job
      → (finish_read F rounds i identity r).0.frame_slot_size ≡ size
  unfolding finish_read
  finish-size rounds i size identity (c, done x) job same h = same
  finish-size rounds i size identity (c, raised e) job same h = cc

  module _ ⦃u : Unpacks F⦄ where
    read_frame_slot-size :
        (c : ShmClient) (rounds : List Round) (i : ℕ) (job : SeatInspectionJob F)
        → (read_frame_slot F c rounds i).1 ≡ some job
        → (read_frame_slot F c rounds i).0.frame_slot_size ≡ c.frame_slot_size
    unfolding read_frame_slot mark_frame
    read_frame_slot-size c rounds i job =
        let base = slot_base i c.frame_slot_size in
        let taken = mark_frame c base (slot_state_value reading) in
        if_both IsSized
          (header_crc taken.frames base frame_slot_header_size
            == load_u32 taken.frames (prefix_at base 3))
          {y = (mark_frame taken base (slot_state_value empty), none)}
          (finish-size rounds i c.frame_slot_size _ (read_identified taken base) job
            (read_identified-IsSameFrames F taken base).1)
          (λ h. refl)
      where
        IsSized : ShmClient × Option (SeatInspectionJob F) → Type 0
        IsSized r = r.1 ≡ some job → r.0.frame_slot_size ≡ c.frame_slot_size

    read_frame_slot-state :
        (c : ShmClient) (rounds : List Round) (i : ℕ) (job : SeatInspectionJob F)
        → (read_frame_slot F c rounds i).1 ≡ some job
        → load_u32
            (read_frame_slot F c rounds i).0.frames
            (slot_base i (read_frame_slot F c rounds i).0.frame_slot_size)
          ≡ slot_state_value reading
    read_frame_slot-state c rounds i job h =
        let r = read_frame_slot F c rounds i in
        ap (λ z. load_u32 r.0.frames (slot_base i z)) (read_frame_slot-size c rounds i job h)
        ∙ read_frame_slot_lem F c rounds i
        ∙ ap (λ z. slot_state_value (state_after F z)) h

    keep_job-IsPending :
        (rest : ShmClient → ShmClient × Option (SeatInspectionJob F)) (i : ℕ)
        (r : ShmClient × Option (SeatInspectionJob F))
        → ((job : SeatInspectionJob F)
            → r.1 ≡ some job
            → load_u32 r.0.frames (slot_base i r.0.frame_slot_size) ≡ slot_state_value reading)
        → ((c : ShmClient) → IsPending (rest c))
        → IsPending (keep_job F rest i r)
    unfolding keep_job IsPending
    keep_job-IsPending rest i (c, none) s h = h c
    keep_job-IsPending rest i (c, some x) s h = λ job e.
        (let same : x.sequence_id ≡ job.sequence_id = cc e in
          (
            i,
            ground (
              arith,
              get-put c.pending_frame_slots x.sequence_id job.sequence_id i,
              beq_refl job.sequence_id,
              same,
            ),
            s x refl,
          ))

    scan_slots-IsPending :
        (n i : ℕ) (waits : ℕ → List Round) (c : ShmClient) → IsPending (scan_slots F n i waits c)
    unfolding scan_slots IsPending
    scan_slots-IsPending zero i waits c = λ job e. cc
    scan_slots-IsPending (suc n) i waits c =
        if_both IsPending
          (load_u32 c.frames (slot_base i c.frame_slot_size) == slot_state_value ready)
          (keep_job-IsPending (scan_slots F n (i + 1) waits) i (read_frame_slot F c (waits i) i)
            (read_frame_slot-state c (waits i) i) (scan_slots-IsPending n (i + 1) waits))
          (scan_slots-IsPending n (i + 1) waits c)

    job_or-IsPending :
        (later : ShmClient → ShmClient × Option (SeatInspectionJob F))
        (r : ShmClient × Option (SeatInspectionJob F))
        → ((c : ShmClient) → IsPending (later c))
        → IsPending r
        → IsPending (job_or F later r)
    unfolding job_or
    job_or-IsPending later (c, none) h g = h c
    job_or-IsPending later (c, some x) h g = g

    -- Whatever the C++ side does while the detector waits, a job that is returned is pending with a
    -- slot, and that slot is READING.
    pub wait_next_job-IsPending :
        (scans : List Scan) (c : ShmClient) → IsPending (wait_next_job F scans c)
    unfolding wait_next_job IsPending
    wait_next_job-IsPending [] c = λ job e. cc
    wait_next_job-IsPending (s ∷ scans) c =
        job_or-IsPending (wait_next_job F scans)
          (scan_slots F c.slot_count 0 s.waits (interfere c s.before))
          (wait_next_job-IsPending scans)
          (scan_slots-IsPending c.slot_count 0 s.waits (interfere c s.before))
