-- ===== src/Shm/Publish.antt =====
-- `ShmClient.publish_result`. The wait until the deadline is a list of rounds: before each scan of the
-- slots the C++ side may have changed both memories. An empty list is a deadline that has passed.
use seat_surface_aoi.Prelude.{
  ℕ, zero, suc, ◌+◌, ◌-◌, ◌*◌, ◌/◌, Option, none, some, List, [], ◌∷◌, length, take, ltb, ◌==◌,
  if◌then◌else◌,
}
use seat_surface_aoi.Protocol.Bytes.{Memory}
use seat_surface_aoi.Protocol.Codes.{slot_state_value, empty, writing, ready, corrupted}
use seat_surface_aoi.Protocol.Layout.{
  Codec, Packs, calcsize, defect_result_meta, result_slot_header_size, max_defects_per_result,
}
use seat_surface_aoi.Types.{DefectResult, InspectionResult}
use seat_surface_aoi.Shm.Client.{
  ShmClient, Digits, slot_base, load_u32, store_u32, release_frame_slot,
}
use seat_surface_aoi.Shm.Packing.{write_result_slot}

-- What the C++ side does to the frame memory and to the result memory between two scans.
pub record Round : Type 0 where
  pub on_frames : Memory → Memory
  pub on_results : Memory → Memory

-- The slot that was taken, with success or with an exception, or the `TimeoutError`.
pub data Outcome : Type 0 where
  published failed : ℕ → Outcome
  timed_out : Outcome

abbrev pub defect_entry_size : ℕ
defect_entry_size = calcsize defect_result_meta

-- The payload of a result with `count` defects.
abbrev pub payload_size_of : ℕ → ℕ
payload_size_of count = result_slot_header_size + count * defect_entry_size

module _ {F : Type 0} where
  -- The defects that fit: at most 32, and no more than the slot has room for.
  unfoldable pub published_defects : ℕ → List (DefectResult F) → List (DefectResult F)
  published_defects result_slot_size all_defects =
      let defects = take max_defects_per_result all_defects in
      let truncated = (result_slot_size - result_slot_header_size) / defect_entry_size in
      if ltb result_slot_size (payload_size_of (length defects))
      then take truncated defects
      else defects

-- `for slot_index in range(slot_count)`: the first slot in the wanted state. `n` slots are left.
unfoldable pub find_slot : Memory → ℕ → ℕ → ℕ → ℕ → Option ℕ
find_slot m slot_size wanted zero i = none
find_slot m slot_size wanted (suc n) i =
    let rest = find_slot m slot_size wanted n (i + 1) in
    if load_u32 m (slot_base i slot_size) == wanted then some i else rest

unfoldable pub interfere : ShmClient → Round → ShmClient
interfere c r = record c { frames = r.on_frames c.frames; results = r.on_results c.results }

-- The end of the loop with a slot, or the next scan.
unfoldable pub found_or : ShmClient → Option ℕ → ShmClient × Option ℕ → ShmClient × Option ℕ
found_or c (some i) later = (c, some i)
found_or c none later = later

-- The loop until the deadline: the state in which a slot was found empty.
unfoldable pub await_slot : ShmClient → List Round → ShmClient × Option ℕ
unfolding interfere found_or
await_slot c [] = (c, none)
await_slot c (r ∷ rounds) =
    let now = interfere c r in
    found_or now
      (find_slot now.results now.result_slot_size (slot_state_value empty) now.slot_count 0)
      (await_slot now rounds)

-- AtomicU32.store of a result slot's state.
unfoldable pub mark : ShmClient → ℕ → ℕ → ShmClient
mark c base value = record c { results = store_u32 c.results base value }

module _ {F : Type 0} ⦃k : Codec⦄ ⦃p : Packs F⦄ ⦃d : Digits⦄ where
  -- What follows `_write_result_slot`: an exception marks the slot corrupted. On both paths the frame
  -- slot of the job is released.
  unfoldable pub close_slot :
      ShmClient → ℕ → ℕ → InspectionResult F → Option Memory → ShmClient × Outcome
  close_slot c i base result none =
      (release_frame_slot (mark c base (slot_state_value corrupted)) result.sequence_id, failed i)
  close_slot c i base result (some written) = (
    release_frame_slot (mark (record c { results = written }) base (slot_state_value ready))
        result.sequence_id,
    published i,
  )

  -- The body of the loop once slot `i` is found empty.
  unfoldable pub publish_at : ShmClient → ℕ → InspectionResult F → ShmClient × Outcome
  unfolding close_slot
  publish_at c i result =
      let base = slot_base i c.result_slot_size in
      let claimed = mark c base (slot_state_value writing) in
      let defects = published_defects c.result_slot_size result.defects in
      close_slot claimed i base result
        (write_result_slot claimed base result defects (payload_size_of (length defects)))

  unfoldable pub publish_found : ShmClient → Option ℕ → InspectionResult F → ShmClient × Outcome
  unfolding publish_at
  publish_found c none result = (release_frame_slot c result.sequence_id, timed_out)
  publish_found c (some i) result = publish_at c i result

  -- ShmClient.publish_result
  unfoldable pub publish_result : ShmClient → List Round → InspectionResult F → ShmClient × Outcome
  publish_result c rounds result =
      let (now, slot) = await_slot c rounds in publish_found now slot result
