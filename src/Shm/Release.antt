-- ===== src/Shm/Release.antt =====
-- Whatever becomes of a result, the frame slot of its job is free again.
use mathlib.Core.Path.{subst}
use seat_surface_aoi.Prelude.{ℕ, ◌≡◌, refl, ap, ◌∙◌, ◌<◌, [], ◌∷◌, Option, none, some, List, arith}
use seat_surface_aoi.Prelude.Dict.{get, remove, get-remove, nat_key}
use seat_surface_aoi.Protocol.Bytes.{le_bound, load-store_le, Memory}
use seat_surface_aoi.Protocol.Codes.{slot_state_value, empty, writing, ready, corrupted}
use seat_surface_aoi.Protocol.Layout.{Codec, Packs}
use seat_surface_aoi.Types.{InspectionResult}
use seat_surface_aoi.Shm.Client.{
  ShmClient, Digits, slot_base, load_u32, store_u32, release_at, release_frame_slot,
}
use seat_surface_aoi.Shm.Publish.{
  Round, await_slot, publish_result, publish_found, publish_at, close_slot, mark, interfere,
}

pub load_u32-store_u32 :
    (m : Memory) (off v : ℕ) → v < le_bound 4 → load_u32 (store_u32 m off v) off ≡ v
unfolding load_u32 store_u32
load_u32-store_u32 m off v h = load-store_le 4 m off v h

-- The job `sequence_id` is not pending, and the frame slot that it had is empty.
pub record IsReleased (before after : ShmClient) (sequence_id : ℕ) : Type 0 where
  pub not_pending : get after.pending_frame_slots sequence_id ≡ none
  pub is_empty :
      (slot : ℕ)
      → get before.pending_frame_slots sequence_id ≡ some slot
      → load_u32 after.frames (slot_base slot before.frame_slot_size) ≡ slot_state_value empty

removed : (c : ShmClient) (id : ℕ) → get (remove c.pending_frame_slots id) id ≡ none
removed c id = ground (arith, get-remove c.pending_frame_slots id id)

release_at-IsReleased :
    (c : ShmClient) (id : ℕ) (slot : Option ℕ)
    → get c.pending_frame_slots id ≡ slot
    → IsReleased c (release_at c id slot) id
unfolding release_at
release_at-IsReleased c id none h = record {
  not_pending = removed c id;
  is_empty = λ slot e. absurd (ground (arith, h, e));
}
release_at-IsReleased c id (some s) h = record {
  not_pending = removed c id;
  is_empty = λ slot e.
      (let same : slot ≡ s = ground (arith, h, e) in
        rw same (
          load_u32-store_u32 c.frames (slot_base s c.frame_slot_size) (slot_state_value empty)
            (omega arith)));
}

pub release_frame_slot-IsReleased :
    (c : ShmClient) (id : ℕ) → IsReleased c (release_frame_slot c id) id
unfolding release_frame_slot
release_frame_slot-IsReleased c id = release_at-IsReleased c id (get c.pending_frame_slots id) refl

module _ {F : Type 0} ⦃k : Codec⦄ ⦃p : Packs F⦄ ⦃d : Digits⦄ where
  close_slot-IsReleased :
      (c : ShmClient) (i base : ℕ) (result : InspectionResult F) (written : Option Memory)
      → IsReleased c (close_slot c i base result written).0 result.sequence_id
  unfolding close_slot mark
  close_slot-IsReleased c i base result none =
      let r =
        release_frame_slot-IsReleased (mark c base (slot_state_value corrupted))
          result.sequence_id in
      record { not_pending = r.not_pending; is_empty = r.is_empty }
  close_slot-IsReleased c i base result (some m) =
      let r =
        release_frame_slot-IsReleased
          (mark (record c { results = m }) base (slot_state_value ready)) result.sequence_id in
      record { not_pending = r.not_pending; is_empty = r.is_empty }

  found-IsReleased :
      (c : ShmClient) (slot : Option ℕ) (result : InspectionResult F)
      → IsReleased c (publish_found c slot result).0 result.sequence_id
  unfolding publish_found publish_at mark
  found-IsReleased c none result = release_frame_slot-IsReleased c result.sequence_id
  found-IsReleased c (some i) result =
      let r =
        close_slot-IsReleased (mark c (slot_base i c.result_slot_size) (slot_state_value writing)) i
          (slot_base i c.result_slot_size) result _ in
      record { not_pending = r.not_pending; is_empty = r.is_empty }

pub await-same :
    (c : ShmClient) (rounds : List Round)
    → ((await_slot c rounds).0.pending_frame_slots ≡ c.pending_frame_slots)
      × ((await_slot c rounds).0.frame_slot_size ≡ c.frame_slot_size)
      × ((await_slot c rounds).0.result_slot_size ≡ c.result_slot_size)
unfolding await_slot interfere
await-same c [] = (refl, refl, refl)
await-same c (r ∷ rounds) = ground (arith, await-same (interfere c r) rounds)

module _ {F : Type 0} ⦃k : Codec⦄ ⦃p : Packs F⦄ ⦃d : Digits⦄ where
  -- Whether a result is published, fails with an exception or times out, and whatever the C++ side
  -- did meanwhile: afterwards its job is not pending, and the frame slot that the job had is empty.
  pub publish_result-IsReleased :
      (c : ShmClient) (rounds : List Round) (result : InspectionResult F)
      → IsReleased c (publish_result c rounds result).0 result.sequence_id
  unfolding publish_result
  publish_result-IsReleased c rounds result =
      let (now, slot) = await_slot c rounds in
      let (pending, size, _) = await-same c rounds in
      let r = found-IsReleased (await_slot c rounds).0 (await_slot c rounds).1 result in
      record {
        not_pending = r.not_pending;
        is_empty = λ slot e.
            subst (λ z. load_u32 (publish_result c rounds result).0.frames (slot_base slot z) ≡ 0)
              size (r.is_empty slot (ap (λ q. get q result.sequence_id) pending ∙ e));
      }

-- Releasing a frame slot again changes nothing that matters.
pub IsReleased-again :
    (before c : ShmClient) (id : ℕ)
    → IsReleased before c id
    → IsReleased before (release_frame_slot c id) id
unfolding release_frame_slot release_at
IsReleased-again before c id h = again (get c.pending_frame_slots id) h.not_pending
  where
    again : (slot : Option ℕ) → slot ≡ none → IsReleased before (release_at c id slot) id
    again none e = record { not_pending = removed c id; is_empty = h.is_empty }
    again (some slot) e = cc
