-- ===== src/Shm/Checked.antt =====
-- The job that `_read_frame_slot` returns.
use mathlib.Core.Path.{subst}
use seat_surface_aoi.Prelude.{
  ℕ, ◌+◌, ◌*◌, ◌≤◌, ◌≡◌, refl, ap, sym, ◌∙◌, Bool, true, false, Option, none, some, List, [], ◌∷◌,
  arith, All, length, ◌==◌, ==_iff, if◌then◌else◌,
}
use seat_surface_aoi.Float.{Float}
use seat_surface_aoi.Prelude.Dict.{Dict, values, string_key, pair_key}
use seat_surface_aoi.Prelude.Result.{Result, done, raised, require-eq-done}
use seat_surface_aoi.Protocol.Bytes.{Memory, load_bytes}
use seat_surface_aoi.Protocol.Codes.{ErrorCode, slot_state_value, reading, invalid_payload}
use seat_surface_aoi.Protocol.Layout.{
  Codec, Packs, decode_cstr, frame_slot_image_offset, frame_slot_meta_offset,
  frame_slot_header_size,
}
use seat_surface_aoi.Types.{SeatInspectionJob}
use seat_surface_aoi.Shm.Client.{ShmClient, Digits, load_u32, slot_base}
use seat_surface_aoi.Shm.Frames.{Unpacks, load_u64}
use seat_surface_aoi.Shm.Publish.{Round}
use seat_surface_aoi.Shm.Packing.{header_crc}
use seat_surface_aoi.Shm.Reader.{
  Bundles, FrameSlotIdentity, make_job, prefix_at, job_at, failed_check, payload_bounds_ok,
  read_checked, read_identified,
}
use seat_surface_aoi.Shm.Jobs.{mark_frame, finish_read, read_frame_slot}
use seat_surface_aoi.Shm.Count.{all_frames, read_all-count}
use seat_surface_aoi.Shm.Bundles.{IsHeld, IsFiled, read_frames-IsFiled}

module _ {ℓ κ μ} {K : Type ℓ} {V : Type κ} where
  All-values :
      (P : K × V → Type μ) (Q : V → Type μ) (xs : Dict K V)
      → ((k : K) (v : V) → P (k, v) → Q v)
      → All P xs
      → All Q (values xs)
  unfolding values
  All-values P Q [] f h = tt
  All-values P Q ((k, v) ∷ xs) f h = (f k v h.0, All-values P Q xs f h.1)

module _ {ℓ κ} {K : Type ℓ} {V : Type κ} where
  length-values : (xs : Dict K V) → length (values xs) ≡ length xs
  unfolding values
  length-values [] = refl
  length-values ((k, v) ∷ xs) = omega (arith, length-values xs)

module _ {F : Type 0} ⦃k : Codec⦄ ⦃u : Unpacks F⦄ where
  -- The ids of a job stand in the slot at `base`: the sequence id at byte 4 of the slot, behind its
  -- state, and the meta data of the job behind the 36 bytes of the prefix, which are the sequence id once
  -- more, the trigger id at 44, the three texts of 64 bytes at 52, 116 and 180, the numbers of views and
  -- frames at 244 and 248, and the capture mode at 252.
  pub record IsNamed (m : Memory) (base : ℕ) (job : SeatInspectionJob F) : Type 0 where
    pub sequence : job.sequence_id ≡ load_u64 m (base + 4)
    pub trigger : job.trigger_id ≡ load_u64 m (base + 44)
    pub seat : job.seat_id ≡ decode_cstr (load_bytes m (base + 52) 64)
    pub sku : job.sku ≡ decode_cstr (load_bytes m (base + 116) 64)
    pub recipe : job.recipe_id ≡ decode_cstr (load_bytes m (base + 180) 64)
    pub mode : job.capture_mode ≡ load_u32 m (base + 252)

  -- A job as the slot at `base` describes it; the size of its payload stands at 12 and the number of its
  -- frames at 28, the entries of the frames, of 324 bytes each, at 268.
  pub record IsRead (m : Memory) (base size : ℕ) (job : SeatInspectionJob F) : Type 0 where
    pub held :
        All
          (IsHeld m base (268 + 324 * load_u32 m (base + 28)) (load_u64 m (base + 12)))
          job.camera_bundles
    pub fits : load_u64 m (base + 12) ≤ size
    pub frames : all_frames job.camera_bundles ≡ load_u32 m (base + 28)
    pub views : length job.camera_bundles ≡ load_u32 m (base + 244)
    pub named : IsNamed m base job

module _ {F : Type 0} ⦃k : Codec⦄ ⦃u : Unpacks F⦄ where
  make_job-eq-done :
      (m : Memory) (base : ℕ) (r : ShmClient × Result ErrorCode (Bundles F))
      (job : SeatInspectionJob F)
      → (make_job m base r).1 ≡ done job
      → (out : Bundles F) × (r.1 ≡ done out)
        × (values out ≡ job.camera_bundles)
        × (length out ≡ load_u32 m (base + 244))
        × IsNamed m base job
  unfolding make_job
  make_job-eq-done m base (c, raised e) job h = cc
  make_job-eq-done m base (c, done out) job h =
      let (views, same) =
        require-eq-done (length out == load_u32 m (job_at base 5)) invalid_payload _ h in
      let place = λ (n : ℕ). (let e : base + 36 + n ≡ base + (36 + n) = omega arith in e) in
      (
        out,
        refl,
        cc same,
        (==_iff _ _).0 views ∙ ap (load_u32 m) (place 208),
        record {
          sequence = cc same;
          trigger = cc (same, place 8);
          seat = cc (same, place 16);
          sku = cc (same, place 80);
          recipe = cc (same, place 144);
          mode = cc (same, place 216);
        },
      )

failed_check-none :
    ⦃k : Codec⦄ (c : ShmClient) (base : ℕ)
    → failed_check c base ≡ none
    → load_u64 c.frames (prefix_at base 2) ≤ c.frame_slot_size
unfolding failed_check payload_bounds_ok
failed_check-none c base h = ground arith

module _ {F : Type 0} ⦃k : Codec⦄ ⦃u : Unpacks F⦄ where
  read_checked-IsRead :
      (c : ShmClient) (base : ℕ) (check : Option ErrorCode) (job : SeatInspectionJob F)
      → failed_check c base ≡ check
      → (read_checked c base check).1 ≡ done job
      → IsRead c.frames base c.frame_slot_size job
  unfolding read_checked
  read_checked-IsRead c base (some e) job ok h = cc
  read_checked-IsRead c base none job ok h =
      let m = c.frames in
      let count = load_u32 m (prefix_at base 5) in
      let region = frame_slot_image_offset count in
      let payload = load_u64 m (prefix_at base 2) in
      let (out, read, bundles, views, named) = make_job-eq-done m base _ job h in
      let filed =
        read_frames-IsFiled m base region payload count 0 (base + frame_slot_meta_offset) [] c []
          out (omega arith) (omega arith) refl tt read in
      record {
        held = subst (All (IsHeld m base region payload)) bundles (
            All-values (IsFiled m base region payload) (IsHeld m base region payload) out
              (λ key b p. p.2) filed);
        frames =
            ap all_frames (sym bundles)
            ∙ read_all-count base region payload count (base + frame_slot_meta_offset) [] c out
                read;
        fits = failed_check-none c base ok;
        views = ap length (sym bundles) ∙ length-values out ∙ views;
        named = named;
      }

-- A value that comes from the first branch.
if_some {ℓ κ} :
    {A : Type ℓ} {B : Type κ} (b : Bool) (x : A × Option B) (a : A) {v : B}
    → (if b then x else (a, none)).1 ≡ some v
    → x.1 ≡ some v
if_some true x a h = h
if_some false x a h = cc

module _ {F : Type 0} ⦃f : Float F⦄ ⦃k : Codec⦄ ⦃p : Packs F⦄ ⦃d : Digits⦄ ⦃u : Unpacks F⦄ where
  finish_read-some :
      (rounds : List Round) (i : ℕ) (identity : FrameSlotIdentity)
      (r : ShmClient × Result ErrorCode (SeatInspectionJob F)) (job : SeatInspectionJob F)
      → (finish_read F rounds i identity r).1 ≡ some job
      → r.1 ≡ done job
  unfolding finish_read
  finish_read-some rounds i identity (c, done x) job h = cc
  finish_read-some rounds i identity (c, raised e) job h = cc

  -- A job that was read has the sequence id, trigger id, seat, SKU, recipe and capture mode that stand at
  -- their places in its slot. Each frame has the meta data of one of the entries of the slot, field
  -- by field, and stands under its own light in the bundle of its own camera and pose; its image lies
  -- behind the meta data and within a payload that fits the slot, has room for the frame's rows and
  -- the frame's checksum; and there are as many frames and as many bundles as announced.
  pub read_frame_slot-IsRead :
      (c : ShmClient) (rounds : List Round) (i : ℕ) (job : SeatInspectionJob F)
      → (read_frame_slot F c rounds i).1 ≡ some job
      → IsRead
          (mark_frame c (slot_base i c.frame_slot_size) (slot_state_value reading)).frames
          (slot_base i c.frame_slot_size)
          c.frame_slot_size
          job
  unfolding read_frame_slot read_identified mark_frame
  read_frame_slot-IsRead c rounds i job h =
      let base = slot_base i c.frame_slot_size in
      let taken = mark_frame c base (slot_state_value reading) in
      let shown =
        if_some
          (header_crc taken.frames base frame_slot_header_size
            == load_u32 taken.frames (prefix_at base 3))
          _ _ h in
      read_checked-IsRead taken base (failed_check taken base) job refl
        (finish_read-some rounds i _ (read_identified taken base) job shown)
