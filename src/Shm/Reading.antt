-- ===== src/Shm/Reading.antt =====
-- What the C++ side reads from a published slot.
use seat_surface_aoi.Prelude.{
  ℕ, ◌+◌, ◌*◌, ◌^◌, ◌<◌, ◌≡◌, ap, sym, ◌∙◌, ◌++◌, arith, length, inl, inr, length-append,
}
use seat_surface_aoi.Protocol.Bytes.{
  Bytes, Memory, le_bytes, from_le, le_bound, load_bytes, store_bytes, load_congr, length-le_bytes,
  load-store_le,
}
use seat_surface_aoi.Protocol.Codes.{slot_state_value, ready}
use seat_surface_aoi.Protocol.Layout.{Codec, crc32}
use seat_surface_aoi.Shm.Client.{load_u32, store_u32}
use seat_surface_aoi.Shm.Packing.{header_crc, write_parts, prefix_bytes}
use seat_surface_aoi.Shm.Publish.{payload_size_of}
use seat_surface_aoi.Shm.Written.{
  store-append, number_at, finished, prefix_kept, defects_kept, checksum_kept, checksum_same,
}

-- A number behind another one.
skip :
    (m : Memory) (off v n at w : ℕ) (rest : Bytes)
    → load_bytes (store_bytes m off (le_bytes v n ++ rest)) at w
      ≡ load_bytes (store_bytes (store_bytes m off (le_bytes v n)) (off + v) rest) at w
skip m off v n at w rest = load_congr _ _ at w (λ a p q.
    store-append m off (le_bytes v n) rest a
    ∙ ap (λ z. store_bytes (store_bytes m off (le_bytes v n)) (off + z) rest a)
        (length-le_bytes v n))

module _ (m : Memory) (base seq payload crc count : ℕ) where
  written : Memory
  written = store_bytes m base (prefix_bytes seq payload crc count)

  sequence_at : seq < le_bound 8 → from_le (load_bytes written (base + 4) 8) ≡ seq
  unfolding written
  sequence_at h =
      number_at m base (le_bytes 4 1) _ 8 seq (base + 4) (omega (arith, length-le_bytes 4 1)) h

  payload_at : payload < le_bound 8 → from_le (load_bytes written (base + 12) 8) ≡ payload
  unfolding written
  payload_at h =
      ap from_le (skip m base 4 1 (base + 12) 8 _)
      ∙ number_at _ (base + 4) (le_bytes 8 seq) _ 8 payload (base + 12)
          (omega (arith, length-le_bytes 8 seq)) h

  crc_at : crc < le_bound 4 → from_le (load_bytes written (base + 24) 4) ≡ crc
  unfolding written
  crc_at h =
      ap from_le (
        skip m base 4 1 (base + 24) 4 _
        ∙ skip _ (base + 4) 8 seq (base + 24) 4 _
        ∙ skip _ (base + 4 + 8) 8 payload (base + 24) 4 _)
      ∙ number_at _ (base + 4 + 8 + 8) (le_bytes 4 0) _ 4 crc (base + 24)
          (omega (arith, length-le_bytes 4 0)) h

  count_at : count < le_bound 4 → from_le (load_bytes written (base + 28) 4) ≡ count
  unfolding written
  count_at h =
      ap from_le (
        skip m base 4 1 (base + 28) 4 _
        ∙ skip _ (base + 4) 8 seq (base + 28) 4 _
        ∙ skip _ (base + 4 + 8) 8 payload (base + 28) 4 _
        ∙ skip _ (base + 4 + 8 + 8) 4 0 (base + 28) 4 _)
      ∙ number_at _ (base + 4 + 8 + 8 + 4) (le_bytes 4 crc) _ 4 count (base + 28)
          (omega (arith, length-le_bytes 4 crc)) h

pub length-prefix_bytes :
    (seq payload crc count : ℕ) → length (prefix_bytes seq payload crc count) ≡ 36
length-prefix_bytes seq payload crc count = omega (
  arith,
  length-append (le_bytes 4 1) (
      le_bytes 8 seq
      ++ (le_bytes 8 payload
          ++ (le_bytes 4 0 ++ (le_bytes 4 crc ++ (le_bytes 4 count ++ le_bytes 4 0))))),
  length-append (le_bytes 8 seq) (
      le_bytes 8 payload
      ++ (le_bytes 4 0 ++ (le_bytes 4 crc ++ (le_bytes 4 count ++ le_bytes 4 0)))),
  length-append (le_bytes 8 payload)
      (le_bytes 4 0 ++ (le_bytes 4 crc ++ (le_bytes 4 count ++ le_bytes 4 0))),
  length-append (le_bytes 4 0) (le_bytes 4 crc ++ (le_bytes 4 count ++ le_bytes 4 0)),
  length-append (le_bytes 4 crc) (le_bytes 4 count ++ le_bytes 4 0),
  length-append (le_bytes 4 count) (le_bytes 4 0),
  length-le_bytes 4 1,
  length-le_bytes 8 seq,
  length-le_bytes 8 payload,
  length-le_bytes 4 0,
  length-le_bytes 4 crc,
  length-le_bytes 4 count,
)

module _ ⦃k : Codec⦄ where
  -- The checks that a reader of a slot makes pass, and it finds the sequence number and the count.
  pub record IsReadable (m : Memory) (base sequence_id count : ℕ) : Type 0 where
    pub state : load_u32 m base ≡ slot_state_value ready
    pub sequence : from_le (load_bytes m (base + 4) 8) ≡ sequence_id
    pub payload_size : from_le (load_bytes m (base + 12) 8) ≡ payload_size_of count
    pub header_crc32 : load_u32 m (base + 20) ≡ header_crc m base 140
    pub payload_crc32 : load_u32 m (base + 24) ≡ crc32 (load_bytes m (base + 140) (count * 400))
    pub defect_count : load_u32 m (base + 28) ≡ count

  pub finished-IsReadable :
      (m : Memory) (base seq payload count : ℕ) (meta defects : Bytes)
      → length meta ≡ 104
      → length defects ≡ count * 400
      → payload ≡ payload_size_of count
      → seq < 2 ^ 64
      → payload < 2 ^ 64
      → crc32 defects < 2 ^ 32
      → count < 2 ^ 32
      → IsReadable
          (store_u32
            (write_parts m base (prefix_bytes seq payload (crc32 defects) count) meta defects)
            base
            (slot_state_value ready))
          base
          seq
          count
  unfolding load_u32 store_u32 written
  finished-IsReadable m base seq payload count meta defects lm ld size hs hp hc hn =
      let prefix = prefix_bytes seq payload (crc32 defects) count in
      let lp = length-prefix_bytes seq payload (crc32 defects) count in
      let kept = prefix_kept m base prefix meta defects lp lm 2 in
      record {
        state = load-store_le 4 _ base 2 (omega arith);
        sequence =
            ap from_le (kept (base + 4) 8 (omega arith) (omega arith) (inl (omega arith)))
            ∙ sequence_at m base seq payload (crc32 defects) count hs;
        payload_size =
            ap from_le (kept (base + 12) 8 (omega arith) (omega arith) (inl (omega arith)))
            ∙ payload_at m base seq payload (crc32 defects) count hp
            ∙ size;
        header_crc32 =
            checksum_kept m base prefix meta defects lp lm 2
            ∙ sym (checksum_same m base prefix meta defects lp lm 2);
        payload_crc32 =
            ap from_le (kept (base + 24) 4 (omega arith) (omega arith) (inr (omega arith)))
            ∙ crc_at m base seq payload (crc32 defects) count hc
            ∙ ap crc32 (
                sym (
                  ap (load_bytes (finished m base prefix meta defects lp lm 2) (base + 140))
                    (sym ld)
                  ∙ defects_kept m base prefix meta defects lp lm 2));
        defect_count =
            ap from_le (kept (base + 28) 4 (omega arith) (omega arith) (inr (omega arith)))
            ∙ count_at m base seq payload (crc32 defects) count hn;
      }
