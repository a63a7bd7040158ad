-- ===== src/Shm/Written.antt =====
-- A published slot: what a reader finds in it, and that nothing outside it changed.
use seat_surface_aoi.Prelude.{
  ℕ, ◌+◌, ◌-◌, ◌≤◌, ◌<◌, ◌≡◌, ap, sym, ◌∙◌, ◌⊎◌, inl, [], ◌∷◌, ◌++◌, arith, length, length-append,
  get_or, ltb, if◌then◌else◌, zero, suc,
}
use seat_surface_aoi.Protocol.Bytes.{
  Bytes, Memory, le_bytes, from_le, le_bound, load_bytes, store_bytes, store-outside, load_congr,
  load-store_other, load-store_self, length-le_bytes, from_le-le_bytes, load-store_le,
}
use seat_surface_aoi.Protocol.Layout.{Codec, crc32}
use seat_surface_aoi.Shm.Packing.{header_crc, write_parts, zeros4}

get_or-append :
    (xs ys : Bytes) (j : ℕ)
    → get_or (xs ++ ys) j 0
      ≡ (if ltb j (length xs) then get_or xs j 0 else get_or ys (j - length xs) 0)
get_or-append [] ys j =
    let all : j - 0 ≡ j = omega arith in ground (arith, ap (λ i. get_or ys i 0) all)
get_or-append (x ∷ xs) ys zero = ground arith
get_or-append (x ∷ xs) ys (suc j) =
    let shift : suc j - suc (length xs) ≡ j - length xs = omega arith in
    ground (arith, get_or-append xs ys j, ap (λ i. get_or ys i 0) shift)

-- A write of two pieces is two writes.
pub store-append :
    (m : Memory) (off : ℕ) (xs ys : Bytes) (a : ℕ)
    → store_bytes m off (xs ++ ys) a ≡ store_bytes (store_bytes m off xs) (off + length xs) ys a
unfolding store_bytes
store-append m off xs ys a =
    let shift : a - off - length xs ≡ a - (off + length xs) = omega arith in
    ground
      (arith, length-append xs ys, get_or-append xs ys (a - off), ap (λ i. get_or ys i 0) shift)

store_congr :
    (m m' : Memory) (off : ℕ) (bs : Bytes) (a : ℕ)
    → m a ≡ m' a
    → store_bytes m off bs a ≡ store_bytes m' off bs a
unfolding store_bytes
store_congr m m' off bs a h = ground arith

store-hides :
    (m m' : Memory) (off : ℕ) (bs : Bytes) (a : ℕ)
    → off ≤ a
    → a < off + length bs
    → store_bytes m off bs a ≡ store_bytes m' off bs a
unfolding store_bytes
store-hides m m' off bs a p q = ground arith

-- The piece in the middle of a write is read back.
load-store_piece :
    (m : Memory) (off : ℕ) (xs ys zs : Bytes)
    → load_bytes (store_bytes m off (xs ++ (ys ++ zs))) (off + length xs) (length ys) ≡ ys
load-store_piece m off xs ys zs =
    let m1 = store_bytes m off xs in
    let at = off + length xs in
    load_congr (store_bytes m off (xs ++ (ys ++ zs))) (store_bytes m1 at ys) at (length ys)
      (λ a p q.
        store-append m off xs (ys ++ zs) a
        ∙ store-append m1 at ys zs a
        ∙ store-outside (store_bytes m1 at ys) (at + length ys) zs a (inl q))
    ∙ load-store_self m1 at ys

-- A number in the middle of a write, at its place.
pub number_at :
    (m : Memory) (off : ℕ) (xs zs : Bytes) (w n at : ℕ)
    → at ≡ off + length xs
    → n < le_bound w
    → from_le (load_bytes (store_bytes m off (xs ++ (le_bytes w n ++ zs))) at w) ≡ n
number_at m off xs zs w n at e h = rw e (
    ap from_le (
      ap (load_bytes (store_bytes m off (xs ++ (le_bytes w n ++ zs))) (off + length xs))
        (sym (length-le_bytes w n))
      ∙ load-store_piece m off xs (le_bytes w n) zs)
    ∙ from_le-le_bytes w n h)

module _ ⦃k : Codec⦄ (m : Memory) (base : ℕ) (prefix meta defects : Bytes) (lp : length prefix ≡ 36)
    (lm : length meta ≡ 104) where
  abbrev pub packed : Memory
  packed =
      store_bytes (store_bytes (store_bytes m base prefix) (base + 36) meta) (base + 140) defects

  abbrev checksum : Bytes
  checksum = le_bytes 4 (header_crc packed base 140)

  -- The slot with its state written last.
  abbrev pub finished : ℕ → Memory
  finished state = store_bytes (write_parts m base prefix meta defects) base (le_bytes 4 state)

  -- Nothing outside the header and the defects is changed.
  pub finished-outside :
      (state a : ℕ) → (a < base) ⊎ (base + 140 + length defects ≤ a) → finished state a ≡ m a
  unfolding write_parts
  finished-outside state a h =
      store-outside _ base (le_bytes 4 state) a (omega (arith, length-le_bytes 4 state))
      ∙ store-outside _ (base + 20) checksum a
          (omega (arith, length-le_bytes 4 (header_crc packed base 140)))
      ∙ store-outside _ (base + 140) defects a (omega arith)
      ∙ store-outside _ (base + 36) meta a (omega arith)
      ∙ store-outside m base prefix a (omega arith)

  -- The numbers of the prefix that the later writes leave alone.
  pub prefix_kept :
      (state at n : ℕ)
      → base + 4 ≤ at
      → at + n ≤ base + 36
      → (at + n ≤ base + 20) ⊎ (base + 24 ≤ at)
      → load_bytes (finished state) at n ≡ load_bytes (store_bytes m base prefix) at n
  unfolding write_parts
  prefix_kept state at n p q h =
      load-store_other _ base (le_bytes 4 state) at n (omega (arith, length-le_bytes 4 state))
      ∙ load-store_other _ (base + 20) checksum at n
          (omega (arith, length-le_bytes 4 (header_crc packed base 140)))
      ∙ load-store_other _ (base + 140) defects at n (omega arith)
      ∙ load-store_other _ (base + 36) meta at n (omega arith)

  pub defects_kept :
      (state : ℕ) → load_bytes (finished state) (base + 140) (length defects) ≡ defects
  unfolding write_parts
  defects_kept state =
      load-store_other _ base (le_bytes 4 state) (base + 140) (length defects)
        (omega (arith, length-le_bytes 4 state))
      ∙ load-store_other _ (base + 20) checksum (base + 140) (length defects)
          (omega (arith, length-le_bytes 4 (header_crc packed base 140)))
      ∙ load-store_self _ (base + 140) defects

  crc_bound : header_crc packed base 140 < le_bound 4
  unfolding header_crc crc32
  crc_bound = omega arith

  pub checksum_kept :
      (state : ℕ) → from_le (load_bytes (finished state) (base + 20) 4) ≡ header_crc packed base 140
  unfolding write_parts
  checksum_kept state =
      ap from_le (
        load-store_other _ base (le_bytes 4 state) (base + 20) 4
          (omega (arith, length-le_bytes 4 state)))
      ∙ load-store_le 4 packed (base + 20) (header_crc packed base 140) crc_bound

  zeroed : Memory → Memory
  zeroed x = store_bytes (store_bytes x base zeros4) (base + 20) zeros4

  zeroed_agree :
      (x y : Memory) (a : ℕ)
      → ((a < base) ⊎ (base + 4 ≤ a) → (a < base + 20) ⊎ (base + 24 ≤ a) → x a ≡ y a)
      → zeroed x a ≡ zeroed y a
  unfolding zeroed store_bytes
  zeroed_agree x y a h = ground arith

  zeroed_same : (state a : ℕ) → zeroed (finished state) a ≡ zeroed packed a
  unfolding write_parts
  zeroed_same state a = zeroed_agree (finished state) packed a (λ p q.
      store-outside _ base (le_bytes 4 state) a (omega (arith, length-le_bytes 4 state))
      ∙ store-outside packed (base + 20) checksum a
          (omega (arith, length-le_bytes 4 (header_crc packed base 140))))

  -- The checksum does not depend on the state and the checksum that are written after it.
  pub checksum_same :
      (state : ℕ) → header_crc (finished state) base 140 ≡ header_crc packed base 140
  unfolding header_crc zeroed
  checksum_same state =
      ap crc32 (
        load_congr (zeroed (finished state)) (zeroed packed) base 140
          (λ a p q. zeroed_same state a))
