-- ===== src/Protocol/Bytes.antt =====
-- Shared memory as bytes by address, and little-endian numbers: what `mmap` and `struct` do for
-- python_detector/ipc/shm_protocol.py and shm_client.py.
use seat_surface_aoi.Prelude.{
  ℕ, zero, suc, ◌+◌, ◌-◌, ◌*◌, ◌/◌, ◌%◌, ◌≤◌, ◌<◌, ◌≡◌, refl, ap, sym, ◌∙◌, ◌⊎◌, ◌&&◌, List, [],
  ◌∷◌, arith, ltb, leb, length, get_or, if◌then◌else◌,
}

abbrev pub Bytes : Type 0
Bytes = List ℕ

abbrev pub Memory : Type 0
Memory = ℕ → ℕ

-- An unsigned number in `w` bytes, the lowest first.
unfoldable pub le_bytes : ℕ → ℕ → Bytes
le_bytes zero n = []
le_bytes (suc w) n = n % 256 ∷ le_bytes w (n / 256)

unfoldable pub from_le : Bytes → ℕ
from_le [] = 0
from_le (b ∷ bs) = b + 256 * from_le bs

-- 256 ^ w
abbrev pub le_bound : ℕ → ℕ
le_bound zero = 1
le_bound (suc w) = 256 * le_bound w

pub from_le-le_bytes : (w n : ℕ) → n < le_bound w → from_le (le_bytes w n) ≡ n
unfolding le_bytes from_le
from_le-le_bytes zero n h = omega arith
from_le-le_bytes (suc w) n h = omega (arith, from_le-le_bytes w (n / 256) (omega arith))

pub length-le_bytes : (w n : ℕ) → length (le_bytes w n) ≡ w
unfolding le_bytes
length-le_bytes zero n = refl
length-le_bytes (suc w) n = ap suc (length-le_bytes w (n / 256))

-- mm[off : off + n]
unfoldable pub load_bytes : Memory → ℕ → ℕ → Bytes
load_bytes m off zero = []
load_bytes m off (suc n) = m off ∷ load_bytes m (off + 1) n

-- mm[off : off + len(bs)] = bs
unfoldable pub store_bytes : Memory → ℕ → Bytes → Memory
store_bytes m off bs a = if leb off a && ltb a (off + length bs) then get_or bs (a - off) 0 else m a

pub store-outside :
    (m : Memory) (off : ℕ) (bs : Bytes) (a : ℕ)
    → (a < off) ⊎ (off + length bs ≤ a)
    → store_bytes m off bs a ≡ m a
unfolding store_bytes
store-outside m off bs a h = ground arith

-- Reads of memories that agree on the range are the same.
pub load_congr :
    (m m' : Memory) (off n : ℕ)
    → ((a : ℕ) → off ≤ a → a < off + n → m a ≡ m' a)
    → load_bytes m off n ≡ load_bytes m' off n
unfolding load_bytes
load_congr m m' off zero h = refl
load_congr m m' off (suc n) h = cc (
  h off (omega arith) (omega arith),
  load_congr m m' (off + 1) n (λ a p q. h a (omega arith) (omega arith)),
)

-- A read that does not meet a write.
pub load-store_other :
    (m : Memory) (off : ℕ) (bs : Bytes) (at n : ℕ)
    → (at + n ≤ off) ⊎ (off + length bs ≤ at)
    → load_bytes (store_bytes m off bs) at n ≡ load_bytes m at n
load-store_other m off bs at n h =
    load_congr (store_bytes m off bs) m at n (λ a p q. store-outside m off bs a (omega arith))

get_or-drop : (bs : Bytes) (b i : ℕ) → 1 ≤ i → get_or (b ∷ bs) i 0 ≡ get_or bs (i - 1) 0
get_or-drop bs b zero h = absurd (omega arith)
get_or-drop bs b (suc i) h = ap (λ j. get_or bs j 0) (omega arith)

store-head : (m : Memory) (off b : ℕ) (bs : Bytes) → store_bytes m off (b ∷ bs) off ≡ b
unfolding store_bytes
store-head m off b bs =
    let here : get_or (b ∷ bs) (off - off) 0 ≡ b = ap (λ j. get_or (b ∷ bs) j 0) zero_off in
    ground (arith, here)
  where
    zero_off : off - off ≡ 0
    zero_off = omega arith

store-tail :
    (m : Memory) (off b : ℕ) (bs : Bytes) (a : ℕ)
    → off + 1 ≤ a
    → a < off + 1 + length bs
    → store_bytes m off (b ∷ bs) a ≡ store_bytes m (off + 1) bs a
unfolding store_bytes
store-tail m off b bs a p q =
    let same : get_or bs (a - off - 1) 0 ≡ get_or bs (a - (off + 1)) 0 =
      ap (λ j. get_or bs j 0) shift in
    ground (arith, get_or-drop bs b (a - off) (omega arith), same)
  where
    shift : a - off - 1 ≡ a - (off + 1)
    shift = omega arith

-- A read of exactly what was written.
pub load-store_self :
    (m : Memory) (off : ℕ) (bs : Bytes) → load_bytes (store_bytes m off bs) off (length bs) ≡ bs
unfolding load_bytes
load-store_self m off [] = refl
load-store_self m off (b ∷ bs) = cc (
  store-head m off b bs,
  load_congr (store_bytes m off (b ∷ bs)) (store_bytes m (off + 1) bs) (off + 1) (length bs)
      (store-tail m off b bs),
  load-store_self m (off + 1) bs,
)

-- A number that is written in `w` bytes and read back.
pub load-store_le :
    (w : ℕ) (m : Memory) (off n : ℕ)
    → n < le_bound w
    → from_le (load_bytes (store_bytes m off (le_bytes w n)) off w) ≡ n
load-store_le w m off n h =
    ap from_le (
      ap (load_bytes (store_bytes m off (le_bytes w n)) off) (sym (length-le_bytes w n))
      ∙ load-store_self m off (le_bytes w n))
    ∙ from_le-le_bytes w n h
