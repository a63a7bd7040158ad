-- ===== src/Shm/Published.antt =====
-- A result that was published: its slot holds what a reader checks for.
use mathlib.Core.Path.{subst}
use seat_surface_aoi.Prelude.{
  ℕ, ◌^◌, ◌<◌, ◌≡◌, refl, Option, none, some, List, arith, length, bind-eq-some,
}
use seat_surface_aoi.Protocol.Bytes.{Bytes, Memory}
use seat_surface_aoi.Protocol.Codes.{slot_state_value, writing, ready}
use seat_surface_aoi.Protocol.Layout.{Codec, Packs, IsPacking, crc32}
use seat_surface_aoi.Types.{DefectResult, InspectionResult}
use seat_surface_aoi.Shm.Client.{
  ShmClient, Digits, store_u32, slot_base, release_at, release_frame_slot,
}
use seat_surface_aoi.Shm.Packing.{
  pack_prefix, prefix_bytes, write_parts, write_result_slot, pack_result_meta, pack_defects,
}
use seat_surface_aoi.Shm.Publish.{
  Round, published, payload_size_of, published_defects, await_slot, mark, close_slot, publish_at,
  publish_found, publish_result,
}
use seat_surface_aoi.Shm.Reading.{IsReadable, finished-IsReadable}
use seat_surface_aoi.Shm.Release.{await-same}
use seat_surface_aoi.Shm.Sizes.{length-pack_defects, length-pack_result_meta}

pub prefix_fits :
    (seq payload crc count : ℕ) (prefix : Bytes)
    → pack_prefix seq payload crc count ≡ some prefix
    → (prefix_bytes seq payload crc count ≡ prefix)
      × (seq < 2 ^ 64)
      × (payload < 2 ^ 64)
      × (crc < 2 ^ 32)
      × (count < 2 ^ 32)
unfolding pack_prefix
prefix_fits seq payload crc count prefix h = ground arith

pub release-results :
    (c : ShmClient) (id : ℕ) (slot : Option ℕ) → (release_at c id slot).results ≡ c.results
unfolding release_at
release-results c id none = refl
release-results c id (some i) = refl

module _ {F : Type 0} ⦃k : Codec⦄ ⦃p : Packs F⦄ ⦃d : Digits⦄ where
  -- The pieces of a slot that was written.
  pub write_result_slot-parts :
      (c : ShmClient) (base : ℕ) (result : InspectionResult F) (xs : List (DefectResult F))
      (size : ℕ) (m : Memory)
      → write_result_slot c base result xs size ≡ some m
      → (meta : Bytes) × (bytes : Bytes) × (pack_result_meta result (length xs) ≡ some meta)
        × (pack_defects c xs ≡ some bytes)
        × (result.sequence_id < 2 ^ 64)
        × (size < 2 ^ 64)
        × (crc32 bytes < 2 ^ 32)
        × (length xs < 2 ^ 32)
        × (write_parts c.results base
              (prefix_bytes result.sequence_id size (crc32 bytes) (length xs))
              meta
              bytes
            ≡ m)
  unfolding write_result_slot
  write_result_slot-parts c base result xs size m h =
      let (meta, packed_meta, h') = bind-eq-some (pack_result_meta result (length xs)) _ h in
      let (bytes, packed_defects, h'') = bind-eq-some (pack_defects c xs) _ h' in
      let (prefix, packed_prefix, last) =
        bind-eq-some (pack_prefix result.sequence_id size (crc32 bytes) (length xs)) _ h'' in
      let (same, seq, payload, crc, count) =
        prefix_fits result.sequence_id size (crc32 bytes) (length xs) prefix packed_prefix in
      (meta, bytes, packed_meta, packed_defects, seq, payload, crc, count, rw same (cc last))

module _ {F : Type 0} ⦃k : Codec⦄ ⦃p : Packs F⦄ ⦃d : Digits⦄ (laws : IsPacking F) where
  written-IsReadable :
      (c : ShmClient) (base : ℕ) (result : InspectionResult F) (xs : List (DefectResult F))
      (m : Memory)
      → write_result_slot c base result xs (payload_size_of (length xs)) ≡ some m
      → IsReadable (store_u32 m base (slot_state_value ready)) base result.sequence_id (length xs)
  written-IsReadable c base result xs m h =
      let size = payload_size_of (length xs) in
      let (meta, bytes, packed_meta, packed_defects, seq, payload, crc, count, same) =
        write_result_slot-parts c base result xs size m h in
      rw (← same) (
        finished-IsReadable c.results base result.sequence_id size (length xs) meta bytes
          (length-pack_result_meta laws result (length xs) meta packed_meta)
          (length-pack_defects laws c xs bytes packed_defects) refl seq payload crc count)

  close_slot-IsReadable :
      (c : ShmClient) (i j base : ℕ) (result : InspectionResult F) (xs : List (DefectResult F))
      (w : Option Memory)
      → write_result_slot c base result xs (payload_size_of (length xs)) ≡ w
      → (close_slot c i base result w).1 ≡ published j
      → (i ≡ j)
        × IsReadable (close_slot c i base result w).0.results base result.sequence_id (length xs)
  unfolding close_slot mark release_frame_slot
  close_slot-IsReadable c i j base result xs none h e = cc
  close_slot-IsReadable c i j base result xs (some m) h e = (
    cc,
    rw (release-results (mark (record c { results = m }) base 2) result.sequence_id _)
        (written-IsReadable c base result xs m h),
  )

  found-IsReadable :
      (c : ShmClient) (slot : Option ℕ) (result : InspectionResult F) (i : ℕ)
      → (publish_found c slot result).1 ≡ published i
      → IsReadable
          (publish_found c slot result).0.results
          (slot_base i c.result_slot_size)
          result.sequence_id
          (length (published_defects c.result_slot_size result.defects))
  unfolding publish_found publish_at mark
  found-IsReadable c none result i e = cc
  found-IsReadable c (some j) result i e =
      let base = slot_base j c.result_slot_size in
      let (same, r) =
        close_slot-IsReadable (mark c base (slot_state_value writing)) j i base result
          (published_defects c.result_slot_size result.defects) _ refl e in
      rw (← same) r

  -- A result that is published can be read in its slot, whatever the C++ side did before: the state is
  -- READY, the sequence number is that of the result, both checksums are those of the bytes that the
  -- slot now holds, and the count and the payload size are those of the defects that fit. A packed
  -- float takes four bytes.
  pub publish_result-IsReadable :
      (c : ShmClient) (rounds : List Round) (result : InspectionResult F) (i : ℕ)
      → (publish_result c rounds result).1 ≡ published i
      → IsReadable
          (publish_result c rounds result).0.results
          (slot_base i c.result_slot_size)
          result.sequence_id
          (length (published_defects c.result_slot_size result.defects))
  unfolding publish_result
  publish_result-IsReadable c rounds result i e =
      let (_, _, size) = await-same c rounds in
      subst
        (λ z.
          IsReadable (publish_result c rounds result).0.results (slot_base i z) result.sequence_id
            (length (published_defects z result.defects)))
        size (found-IsReadable (await_slot c rounds).0 (await_slot c rounds).1 result i e)
