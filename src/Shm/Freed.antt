-- ===== src/Shm/Freed.antt =====
-- The state of a frame slot after it was read.
use mathlib.Core.Path.{subst}
use seat_surface_aoi.Prelude.{
  ℕ, zero, suc, ◌+◌, ◌≡◌, refl, ap, sym, ◌∙◌, String, Option, none, some, List, arith, if_both, [],
}
use seat_surface_aoi.Float.{Float}
use seat_surface_aoi.Prelude.Dict.{get, put, nat_key, string_key, pair_key, beq_refl, get-put}
use seat_surface_aoi.Prelude.Result.{Result, done, raised}
use seat_surface_aoi.Protocol.Bytes.{Memory}
use seat_surface_aoi.Protocol.Codes.{ErrorCode, SlotState, slot_state_value, empty, reading}
use seat_surface_aoi.Protocol.Layout.{
  Codec, Packs, calcsize, light_frame_meta, frame_slot_meta_offset, frame_slot_image_offset,
}
use seat_surface_aoi.Types.{View, CameraBundle, SeatInspectionJob}
use seat_surface_aoi.Shm.Client.{
  ShmClient, Digits, load_u32, slot_base, remember_camera_index, release_frame_slot, release_at,
}
use seat_surface_aoi.Shm.Frames.{Unpacks, ReadFrame, load_u64, make_light_frame}
use seat_surface_aoi.Shm.Publish.{Round, Outcome, published, failed, timed_out, publish_result}
use seat_surface_aoi.Shm.Release.{publish_result-IsReleased, load_u32-store_u32}
use seat_surface_aoi.Shm.Reader.{
  prefix_at, Bundles, FrameSlotIdentity, with_bundle, with_frame, read_frames, make_job,
  read_identified, read_checked, failed_check,
}
use seat_surface_aoi.Shm.Jobs.{
  mark_frame, or_release, publish_frame_slot_error, finish_read, read_frame_slot, slot_error_result,
}

-- Two clients with the same frame memory, divided in the same way.
abbrev pub IsSameFrames : ShmClient → ShmClient → Type 0
IsSameFrames c c' = (c'.frames ≡ c.frames) × (c'.frame_slot_size ≡ c.frame_slot_size)

module _ {F : Type 0} where
  with_bundle-IsSameFrames :
      (rest : ShmClient → Bundles F → ShmClient × Result ErrorCode (Bundles F)) (c : ShmClient)
      (bundles : Bundles F) (key : String × String) (r : Result ErrorCode (CameraBundle F))
      → ((c : ShmClient) (bundles : Bundles F) → IsSameFrames c (rest c bundles).0)
      → IsSameFrames c (with_bundle rest c bundles key r).0
  unfolding with_bundle
  with_bundle-IsSameFrames rest c bundles key (raised e) h = (refl, refl)
  with_bundle-IsSameFrames rest c bundles key (done b) h = h c (put bundles key b)

  with_frame-IsSameFrames :
      (rest : List View → ShmClient → Bundles F → ShmClient × Result ErrorCode (Bundles F))
      (c : ShmClient) (ranges : List View) (bundles : Bundles F)
      (r : Result ErrorCode (ReadFrame F))
      → ((ranges : List View) (c : ShmClient) (bundles : Bundles F)
          → IsSameFrames c (rest ranges c bundles).0)
      → IsSameFrames c (with_frame rest c ranges bundles r).0
  unfolding with_frame remember_camera_index
  with_frame-IsSameFrames rest c ranges bundles (raised e) h = (refl, refl)
  with_frame-IsSameFrames rest c ranges bundles (done r) h =
      with_bundle-IsSameFrames (rest _)
        (remember_camera_index c r.frame.camera_id r.frame.pose_id r.camera_number) bundles _ _
        (h _)

module _ (F : Type 0) ⦃k : Codec⦄ ⦃u : Unpacks F⦄ where
  read_frames-IsSameFrames :
      (n at base payload region : ℕ) (ranges : List View) (c : ShmClient) (bundles : Bundles F)
      → IsSameFrames c (read_frames n at base payload region ranges c bundles).0
  unfolding read_frames
  read_frames-IsSameFrames zero at base payload region ranges c bundles = (refl, refl)
  read_frames-IsSameFrames (suc n) at base payload region ranges c bundles =
      with_frame-IsSameFrames (read_frames n (at + calcsize light_frame_meta) base payload region) c
        ranges bundles (make_light_frame c.frames at base payload region ranges)
        (read_frames-IsSameFrames n (at + calcsize light_frame_meta) base payload region)

  pub make_job-same :
      (m : Memory) (base : ℕ) (r : ShmClient × Result ErrorCode (Bundles F))
      → (make_job m base r).0 ≡ r.0
  unfolding make_job
  make_job-same m base (c, raised e) = refl
  make_job-same m base (c, done bundles) = refl

  read_checked-IsSameFrames :
      (c : ShmClient) (base : ℕ) (check : Option ErrorCode)
      → IsSameFrames c (read_checked {F = F} c base check).0
  unfolding read_checked
  read_checked-IsSameFrames c base (some e) = (refl, refl)
  read_checked-IsSameFrames c base none =
      let count = load_u32 c.frames (prefix_at base 5) in
      subst (IsSameFrames c) (sym (make_job-same c.frames base _)) (
        read_frames-IsSameFrames count (base + frame_slot_meta_offset) base
          (load_u64 c.frames (prefix_at base 2)) (frame_slot_image_offset count) [] c [])

  pub read_identified-IsSameFrames :
      (c : ShmClient) (base : ℕ) → IsSameFrames c (read_identified {F = F} c base).0
  unfolding read_identified
  read_identified-IsSameFrames c base = read_checked-IsSameFrames c base (failed_check c base)

or_release-frames :
    (c : ShmClient) (o : Outcome) (id : ℕ)
    → get c.pending_frame_slots id ≡ none
    → (or_release (c, o) id).frames ≡ c.frames
unfolding or_release release_frame_slot release_at
or_release-frames c (published i) id h = refl
or_release-frames c (failed i) id h = ap (λ z. (release_at c id z).frames) h
or_release-frames c timed_out id h = ap (λ z. (release_at c id z).frames) h

module _ (F : Type 0) ⦃f : Float F⦄ ⦃k : Codec⦄ ⦃p : Packs F⦄ ⦃d : Digits⦄ where
  error_lem :
      (c : ShmClient) (rounds : List Round) (i : ℕ) (identity : FrameSlotIdentity) (e : ErrorCode)
      → load_u32
          (publish_frame_slot_error F c rounds i identity e).frames
          (slot_base i c.frame_slot_size)
        ≡ slot_state_value empty
  unfolding publish_frame_slot_error slot_error_result
  error_lem c rounds i identity e =
      let pending = record c {
        pending_frame_slots = put c.pending_frame_slots identity.sequence_id i;
      } in
      let result = slot_error_result F identity e in
      let released = publish_result-IsReleased pending rounds result in
      let found : get pending.pending_frame_slots identity.sequence_id ≡ some i = ground (
        arith,
        get-put c.pending_frame_slots identity.sequence_id identity.sequence_id i,
        beq_refl identity.sequence_id,
      ) in
      ap (λ z. load_u32 z (slot_base i c.frame_slot_size))
        (or_release-frames (publish_result pending rounds result).0
          (publish_result pending rounds result).1 identity.sequence_id released.not_pending)
      ∙ released.is_empty i found

  -- The state of a slot that was read, with a job or without.
  abbrev pub state_after : Option (SeatInspectionJob F) → SlotState
  state_after none = empty
  state_after (some job) = reading

  finish_lem :
      (rounds : List Round) (i size : ℕ) (identity : FrameSlotIdentity)
      (r : ShmClient × Result ErrorCode (SeatInspectionJob F))
      → r.0.frame_slot_size ≡ size
      → load_u32 r.0.frames (slot_base i size) ≡ slot_state_value reading
      → load_u32 (finish_read F rounds i identity r).0.frames (slot_base i size)
        ≡ slot_state_value (state_after (finish_read F rounds i identity r).1)
  unfolding finish_read
  finish_lem rounds i size identity (c, done job) e h = h
  finish_lem rounds i size identity (c, raised x) e h =
      subst
        (λ z.
          load_u32 (publish_frame_slot_error F c rounds i identity x).frames (slot_base i z) ≡ 0)
        e (error_lem c rounds i identity x)

  module _ ⦃u : Unpacks F⦄ where
    -- After a frame slot was read it is READING where there is a job, and EMPTY again on every error:
    -- a bad checksum, bad fields or images, and an error whose own report fails or times out.
    pub read_frame_slot_lem :
        (c : ShmClient) (rounds : List Round) (i : ℕ)
        → load_u32 (read_frame_slot F c rounds i).0.frames (slot_base i c.frame_slot_size)
          ≡ slot_state_value (state_after (read_frame_slot F c rounds i).1)
    unfolding read_frame_slot mark_frame
    read_frame_slot_lem c rounds i =
        let base = slot_base i c.frame_slot_size in
        let taken = mark_frame c base (slot_state_value reading) in
        let (frames, size) = read_identified-IsSameFrames F taken base in
        if_both IsRight _
          (finish_lem rounds i c.frame_slot_size _ (read_identified taken base) size
            (ap (λ z. load_u32 z base) frames ∙ load_u32-store_u32 c.frames base 3 (omega arith)))
          (load_u32-store_u32 taken.frames base 0 (omega arith))
      where
        IsRight : ShmClient × Option (SeatInspectionJob F) → Type 0
        IsRight r =
            load_u32 r.0.frames (slot_base i c.frame_slot_size) ≡ slot_state_value (state_after r.1)
