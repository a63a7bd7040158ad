-- ===== src/Shm/Bounds.antt =====
-- A result slot is never overrun.
use seat_surface_aoi.Prelude.{
  ℕ, zero, suc, ◌+◌, ◌-◌, ◌/◌, ◌≤◌, ◌<◌, ◌≡◌, refl, ap, sym, ◌∙◌, ◌⊎◌, Option, none, some, List, [],
  ◌∷◌, arith, length, take, min, length-take,
}
use seat_surface_aoi.Protocol.Bytes.{Memory, store_bytes, store-outside, le_bytes, length-le_bytes}
use seat_surface_aoi.Protocol.Codes.{slot_state_value, writing}
use seat_surface_aoi.Protocol.Layout.{Codec, Packs, IsPacking, crc32}
use seat_surface_aoi.Types.{DefectResult, InspectionResult}
use seat_surface_aoi.Shm.Client.{ShmClient, Digits, store_u32, slot_base, release_frame_slot}
use seat_surface_aoi.Shm.Packing.{prefix_bytes, write_result_slot}
use seat_surface_aoi.Shm.Publish.{payload_size_of, published_defects, mark, close_slot, publish_at}
use seat_surface_aoi.Shm.Written.{finished-outside}
use seat_surface_aoi.Shm.Reading.{length-prefix_bytes}
use seat_surface_aoi.Shm.Published.{write_result_slot-parts, release-results}
use seat_surface_aoi.Shm.Sizes.{length-pack_defects, length-pack_result_meta}

take-length : {A : Type 0} (n : ℕ) (xs : List A) → take (length (take n xs)) xs ≡ take n xs
take-length zero xs = refl
take-length (suc n) [] = refl
take-length (suc n) (x ∷ xs) = ap (λ ys. x ∷ ys) (take-length n xs)

take-length_twice :
    {A : Type 0} (n m : ℕ) (xs : List A)
    → take (length (take n (take m xs))) xs ≡ take n (take m xs)
take-length_twice zero m xs = refl
take-length_twice (suc n) zero xs = refl
take-length_twice (suc n) (suc m) [] = refl
take-length_twice (suc n) (suc m) (x ∷ xs) = ap (λ ys. x ∷ ys) (take-length_twice n m xs)

module _ {F : Type 0} where
  -- In a slot that has room for the header, the payload that is announced ends within the slot, and the
  -- defects are the longest prefix of those of the result that 32 entries and the slot allow.
  pub published_defects_lem :
      (size : ℕ) (xs : List (DefectResult F))
      → 140 ≤ size
      → (payload_size_of (length (published_defects size xs)) ≤ size)
        × (length (published_defects size xs) ≡ min (length xs) (min 32 ((size - 140) / 400)))
        × (published_defects size xs ≡ take (length (published_defects size xs)) xs)
  unfolding published_defects
  published_defects_lem size xs h =
      let room = (size - 140) / 400 in
      let short = length-take 32 xs in
      let cut = length-take room (take 32 xs) in
      (
        ground (arith, short, cut),
        ground (arith, short, cut),
        ground (arith, take-length 32 xs, take-length_twice room 32 xs),
      )

module _ {F : Type 0} ⦃k : Codec⦄ ⦃p : Packs F⦄ ⦃d : Digits⦄ (laws : IsPacking F) where
  marked-outside :
      (m : Memory) (base v a : ℕ) → (a < base) ⊎ (base + 4 ≤ a) → store_u32 m base v a ≡ m a
  unfolding store_u32
  marked-outside m base v a h =
      store-outside m base (le_bytes 4 v) a (omega (arith, length-le_bytes 4 v))

  close_slot-outside :
      (c : ShmClient) (i base : ℕ) (result : InspectionResult F) (xs : List (DefectResult F))
      (w : Option Memory) (a : ℕ)
      → write_result_slot c base result xs (payload_size_of (length xs)) ≡ w
      → (a < base) ⊎ (base + payload_size_of (length xs) ≤ a)
      → (close_slot c i base result w).0.results a ≡ c.results a
  unfolding close_slot mark release_frame_slot write_result_slot store_u32
  close_slot-outside c i base result xs none a w h =
      ap (λ z. z a) (release-results (mark c base 4) result.sequence_id _)
      ∙ marked-outside c.results base 4 a (omega arith)
  close_slot-outside c i base result xs (some m) a w h =
      let size = payload_size_of (length xs) in
      let (meta, bytes, packed_meta, packed_defects, _, _, _, _, same) =
        write_result_slot-parts c base result xs size m w in
      let prefix = prefix_bytes result.sequence_id size (crc32 bytes) (length xs) in
      ap (λ z. z a) (release-results (mark (record c { results = m }) base 2) result.sequence_id _)
      ∙ ap (λ z. store_bytes z base (le_bytes 4 2) a) (sym same)
      ∙ finished-outside c.results base prefix meta bytes
          (length-prefix_bytes result.sequence_id size (crc32 bytes) (length xs))
          (length-pack_result_meta laws result (length xs) meta packed_meta) 2 a
          (omega (arith, h, length-pack_defects laws c xs bytes packed_defects))

  -- Publishing into a slot that has room for the header changes no byte outside that slot, with
  -- success or with an exception. A packed float takes four bytes.
  pub publish_at-outside :
      (c : ShmClient) (i : ℕ) (result : InspectionResult F) (a : ℕ)
      → 140 ≤ c.result_slot_size
      → (a < slot_base i c.result_slot_size)
        ⊎ (slot_base i c.result_slot_size + c.result_slot_size ≤ a)
      → (publish_at c i result).0.results a ≡ c.results a
  unfolding publish_at mark
  publish_at-outside c i result a fits h =
      let base = slot_base i c.result_slot_size in
      let xs = published_defects c.result_slot_size result.defects in
      let room = (published_defects_lem c.result_slot_size result.defects fits).0 in
      close_slot-outside (mark c base (slot_state_value writing)) i base result xs _ a refl
        (omega (arith, h, room))
      ∙ marked-outside c.results base 1 a (omega (arith, h, fits))
