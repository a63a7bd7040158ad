-- ===== src/Shm/Reader.antt =====
-- `ShmClient._read_frame_slot` and `wait_next_job`. The memory has no end here, so the reads of `struct`
-- do not fail, and every error is a `_FrameSlotReadError`.
use seat_surface_aoi.Prelude.{
  ℕ, zero, suc, ◌+◌, ◌==◌, ◌||◌, not, String, Bool, Option, none, some, List, [], ◌∷◌, length, ltb,
  ◌++◌, ◌-◌, if◌then◌else◌,
}
use seat_surface_aoi.Prelude.Dict.{Dict, get, put, values, nat_key, string_key, pair_key}
use seat_surface_aoi.Prelude.Result.{Result, done, raised}
use seat_surface_aoi.Protocol.Bytes.{Memory, load_bytes}
use seat_surface_aoi.Protocol.Codes.{ErrorCode, invalid_payload, crc_mismatch}
use seat_surface_aoi.Protocol.Layout.{
  Codec, calcsize, light_frame_meta, seat_job_meta, slot_header_prefix, decode_cstr, crc32,
  frame_slot_image_offset, frame_slot_meta_offset, max_frames_per_job,
}
use seat_surface_aoi.Types.{View, LightFrame, CameraBundle, SeatInspectionJob}
use seat_surface_aoi.Shm.Client.{ShmClient, load_u32, remember_camera_index}
use seat_surface_aoi.Shm.Frames.{Unpacks, ReadFrame, load_u64, offset_of, make_light_frame}

-- `_FrameSlotIdentity`
pub record FrameSlotIdentity : Type 0 where
  pub sequence_id : ℕ
  pub trigger_id : ℕ
  pub seat_id : String

abbrev pub Bundles : Type 0 → Type 0
Bundles F = Dict (String × String) (CameraBundle F)

module _ {F : Type 0} where
  -- The bundle of the frame's camera and pose, a new one if there is none.
  unfoldable pub bundle_or : Option (CameraBundle F) → LightFrame F → CameraBundle F
  bundle_or (some bundle) frame = bundle
  bundle_or none frame = record {
    camera_id = frame.camera_id;
    pose_id = frame.pose_id;
    light_frames = [];
  }

  unfoldable pub insert_frame :
      Option (LightFrame F) → CameraBundle F → LightFrame F → Result ErrorCode (CameraBundle F)
  insert_frame (some old) bundle frame = raised invalid_payload
  insert_frame none bundle frame =
      done (record bundle { light_frames = put bundle.light_frames frame.light_id frame })

  -- The frame in its bundle; a second frame of one light is an error.
  unfoldable pub add_frame :
      Option (CameraBundle F) → LightFrame F → Result ErrorCode (CameraBundle F)
  unfolding bundle_or insert_frame
  add_frame found frame =
      let bundle = bundle_or found frame in
      insert_frame (get bundle.light_frames frame.light_id) bundle frame

  -- The bundles with the one at the key, and the rest of the frames.
  unfoldable pub with_bundle :
      (ShmClient → Bundles F → ShmClient × Result ErrorCode (Bundles F))
      → ShmClient
      → Bundles F
      → String × String
      → Result ErrorCode (CameraBundle F)
      → ShmClient × Result ErrorCode (Bundles F)
  with_bundle rest c bundles key (raised e) = (c, raised e)
  with_bundle rest c bundles key (done bundle) = rest c (put bundles key bundle)

  -- One frame of the loop, and the rest of them. The table of the cameras keeps what was read before
  -- an error.
  unfoldable pub with_frame :
      (List View → ShmClient → Bundles F → ShmClient × Result ErrorCode (Bundles F))
      → ShmClient
      → List View
      → Bundles F
      → Result ErrorCode (ReadFrame F)
      → ShmClient × Result ErrorCode (Bundles F)
  unfolding with_bundle add_frame
  with_frame rest c ranges bundles (raised e) = (c, raised e)
  with_frame rest c ranges bundles (done r) =
      let key : String × String = (r.frame.camera_id, r.frame.pose_id) in
      with_bundle (rest (ranges ++ (r.image_range ∷ [])))
        (remember_camera_index c r.frame.camera_id r.frame.pose_id r.camera_number) bundles key
        (add_frame (get bundles key) r.frame)

-- The places of the two parts of a slot's header.
abbrev pub prefix_at : ℕ → ℕ → ℕ
prefix_at base n = base + offset_of slot_header_prefix n

abbrev pub job_at : ℕ → ℕ → ℕ
job_at base n = base + calcsize slot_header_prefix + offset_of seat_job_meta n

-- ShmClient._validate_frame_payload_bounds
unfoldable pub payload_bounds_ok : ShmClient → ℕ → ℕ → Bool
payload_bounds_ok c payload_size frame_meta_count = not (
    ltb payload_size (frame_slot_image_offset frame_meta_count)
    || ltb c.frame_slot_size payload_size
    || (frame_meta_count == 0)
    || ltb max_frames_per_job frame_meta_count)

-- The first check of an identified slot that fails.
unfoldable pub failed_check : ⦃k : Codec⦄ → ShmClient → ℕ → Option ErrorCode
unfolding payload_bounds_ok
failed_check c base =
    let m = c.frames in
    let payload_size = load_u64 m (prefix_at base 2) in
    let count = load_u32 m (prefix_at base 5) in
    if not (load_u64 m (prefix_at base 1) == load_u64 m (job_at base 0))
      || not (load_u32 m (job_at base 6) == count)
    then some invalid_payload
    else if not (payload_bounds_ok c payload_size count)
    then some invalid_payload
    else if crc32
          (load_bytes m (base + frame_slot_meta_offset) (payload_size - frame_slot_meta_offset))
        == load_u32 m (prefix_at base 4)
    then none
    else some crc_mismatch

module _ {F : Type 0} ⦃k : Codec⦄ ⦃u : Unpacks F⦄ where
  -- The loop over the frames: `n` are left, and the meta data of the next one stand at `at`.
  unfoldable pub read_frames :
      ℕ
      → ℕ
      → ℕ
      → ℕ
      → ℕ
      → List View
      → ShmClient
      → Bundles F
      → ShmClient × Result ErrorCode (Bundles F)
  unfolding with_frame
  read_frames zero at base payload_size region ranges c bundles = (c, done bundles)
  read_frames (suc n) at base payload_size region ranges c bundles =
      with_frame (read_frames n (at + calcsize light_frame_meta) base payload_size region) c ranges
        bundles (make_light_frame c.frames at base payload_size region ranges)

  -- The job of a slot, if its views are as many as announced.
  unfoldable pub make_job :
      Memory
      → ℕ
      → ShmClient × Result ErrorCode (Bundles F)
      → ShmClient × Result ErrorCode (SeatInspectionJob F)
  make_job m base (c, raised e) = (c, raised e)
  make_job m base (c, done bundles) = (
    c,
    if length bundles == load_u32 m (job_at base 5)
        then done record {
          sequence_id = load_u64 m (prefix_at base 1);
          trigger_id = load_u64 m (job_at base 1);
          seat_id = decode_cstr (load_bytes m (job_at base 2) 64);
          recipe_id = decode_cstr (load_bytes m (job_at base 4) 64);
          sku = decode_cstr (load_bytes m (job_at base 3) 64);
          camera_bundles = values bundles;
          capture_mode = load_u32 m (job_at base 7);
        }
        else raised invalid_payload,
  )

  -- The frames and the job, unless a check has failed.
  unfoldable pub read_checked :
      ShmClient → ℕ → Option ErrorCode → ShmClient × Result ErrorCode (SeatInspectionJob F)
  unfolding read_frames make_job
  read_checked c base (some e) = (c, raised e)
  read_checked c base none =
      let count = load_u32 c.frames (prefix_at base 5) in
      make_job c.frames base (
        read_frames count (base + frame_slot_meta_offset) base
          (load_u64 c.frames (prefix_at base 2)) (frame_slot_image_offset count) [] c [])

  -- What `_read_frame_slot` does once the slot is identified.
  unfoldable pub read_identified :
      ShmClient → ℕ → ShmClient × Result ErrorCode (SeatInspectionJob F)
  unfolding failed_check read_checked
  read_identified c base = read_checked c base (failed_check c base)
