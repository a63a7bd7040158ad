-- ===== src/Shm/Waiting.antt =====
-- The wait of `publish_result` for an empty slot.
use seat_surface_aoi.Prelude.{
  ℕ, zero, suc, ◌+◌, ◌≤◌, ◌<◌, ◌≡◌, ◌≢◌, refl, ap, sym, ◌∙◌, ◌⊎◌, ◌↔◌, inl, inr, Option, none, some,
  List, [], ◌∷◌, arith,
}
use seat_surface_aoi.Protocol.Bytes.{Memory}
use seat_surface_aoi.Protocol.Codes.{slot_state_value, empty}
use seat_surface_aoi.Protocol.Layout.{Codec, Packs}
use seat_surface_aoi.Types.{InspectionResult}
use seat_surface_aoi.Shm.Client.{ShmClient, Digits, slot_base, load_u32}
use seat_surface_aoi.Shm.Publish.{
  Round, Outcome, published, failed, timed_out, find_slot, interfere, await_slot, found_or,
  publish_found, publish_at, close_slot, publish_result,
}

-- No slot of the memory is in the wanted state.
unfoldable pub HasNone : Memory → ℕ → ℕ → ℕ → ℕ → Type 0
HasNone m size wanted n i = (j : ℕ) → i ≤ j → j < i + n → load_u32 m (slot_base j size) ≢ wanted

find_slot-HasNone :
    (m : Memory) (size wanted n i : ℕ)
    → find_slot m size wanted n i ≡ none
    → HasNone m size wanted n i
unfolding find_slot HasNone
find_slot-HasNone m size wanted zero i h j p q = absurd (omega arith)
find_slot-HasNone m size wanted (suc n) i h j p q = elim (which i j p) [
  | inl same ↦ ground (arith, ap (λ z. load_u32 m (slot_base z size)) same)
  | inr later ↦ find_slot-HasNone m size wanted n (i + 1) (ground arith) j later (omega arith)
]
  where
    which : (i j : ℕ) → i ≤ j → (j ≡ i) ⊎ (i + 1 ≤ j)
    which i j p = omega arith

HasNone-find_slot :
    (m : Memory) (size wanted n i : ℕ)
    → HasNone m size wanted n i
    → find_slot m size wanted n i ≡ none
unfolding find_slot HasNone
HasNone-find_slot m size wanted zero i h = refl
HasNone-find_slot m size wanted (suc n) i h = ground (
  arith,
  h i,
  HasNone-find_slot m size wanted n (i + 1) (λ j p q. h j (omega arith) (omega arith)),
)

pub find_slot-bound :
    (m : Memory) (size wanted n i j : ℕ)
    → find_slot m size wanted n i ≡ some j
    → (i ≤ j) × (j < i + n) × (load_u32 m (slot_base j size) ≡ wanted)
unfolding find_slot
find_slot-bound m size wanted zero i j h = cc
find_slot-bound m size wanted (suc n) i j h =
    ground (arith, find_slot-bound m size wanted n (i + 1) j)

-- In every scan, every result slot was taken.
unfoldable pub IsFull : ShmClient → List Round → Type 0
IsFull c [] = Unit
IsFull c (r ∷ rounds) =
    HasNone (interfere c r).results (interfere c r).result_slot_size (slot_state_value empty)
      (interfere c r).slot_count 0
    × IsFull (interfere c r) rounds

found_or-none :
    (c : ShmClient) (slot : Option ℕ) (later : ShmClient × Option ℕ)
    → (found_or c slot later).1 ≡ none ↔ (slot ≡ none) × (later.1 ≡ none)
unfolding found_or
found_or-none c none later = (λ e. (refl, e), λ h. h.1)
found_or-none c (some i) later = (λ e. cc, λ h. cc (h.0))

await-IsFull :
    (c : ShmClient) (rounds : List Round) → (await_slot c rounds).1 ≡ none ↔ IsFull c rounds
unfolding await_slot IsFull
await-IsFull c [] = (λ e. tt, λ f. refl)
await-IsFull c (r ∷ rounds) =
    let now = interfere c r in
    let step =
      found_or-none now
        (find_slot now.results now.result_slot_size (slot_state_value empty) now.slot_count 0)
        (await_slot now rounds) in
    let rest = await-IsFull now rounds in
    (
      λ e. (
        find_slot-HasNone now.results now.result_slot_size 0 now.slot_count 0 (step.0 e).0,
        rest.0 (step.0 e).1,
      ),
      λ h.
          step.1
            (HasNone-find_slot now.results now.result_slot_size 0 now.slot_count 0 h.0, rest.1 h.1),
    )

found_or-bound :
    (c : ShmClient) (slot : Option ℕ) (later : ShmClient × Option ℕ) (i : ℕ)
    (P : ShmClient → Type 0)
    → (slot ≡ some i → P c)
    → (later.1 ≡ some i → P later.0)
    → (found_or c slot later).1 ≡ some i
    → P (found_or c slot later).0
unfolding found_or
found_or-bound c none later i P f g e = g e
found_or-bound c (some j) later i P f g e = f e

await-bound :
    (c : ShmClient) (rounds : List Round) (i : ℕ)
    → (await_slot c rounds).1 ≡ some i
    → (i < c.slot_count)
      × (load_u32 (await_slot c rounds).0.results (slot_base i c.result_slot_size) ≡ 0)
unfolding await_slot interfere
await-bound c [] i e = cc
await-bound c (r ∷ rounds) i e =
    let now = interfere c r in
    found_or-bound now
      (find_slot now.results now.result_slot_size (slot_state_value empty) now.slot_count 0)
      (await_slot now rounds) i
      (λ z. (i < c.slot_count) × (load_u32 z.results (slot_base i c.result_slot_size) ≡ 0))
      (λ found.
        (let (_, bound, state) =
            find_slot-bound now.results now.result_slot_size 0 now.slot_count 0 i found in
          (omega (arith, bound), state)))
      (await-bound now rounds i) e

-- The slot that was taken.
abbrev pub taken : Outcome → Option ℕ
taken (published i) = some i
taken (failed i) = some i
taken timed_out = none

taken-none : (o : Outcome) → taken o ≡ none → o ≡ timed_out
taken-none (published i) e = cc
taken-none (failed i) e = cc
taken-none timed_out e = refl

module _ {F : Type 0} ⦃k : Codec⦄ ⦃p : Packs F⦄ ⦃d : Digits⦄ where
  taken-close_slot :
      (c : ShmClient) (i base : ℕ) (result : InspectionResult F) (w : Option Memory)
      → taken (close_slot c i base result w).1 ≡ some i
  unfolding close_slot
  taken-close_slot c i base result none = refl
  taken-close_slot c i base result (some m) = refl

  taken-found :
      (c : ShmClient) (slot : Option ℕ) (result : InspectionResult F)
      → taken (publish_found c slot result).1 ≡ slot
  unfolding publish_found publish_at
  taken-found c none result = refl
  taken-found c (some i) result = taken-close_slot _ i _ result _

  taken-publish_result :
      (c : ShmClient) (rounds : List Round) (result : InspectionResult F)
      → taken (publish_result c rounds result).1 ≡ (await_slot c rounds).1
  unfolding publish_result
  taken-publish_result c rounds result =
      taken-found (await_slot c rounds).0 (await_slot c rounds).1 result

  -- A result slot that publishing takes exists, and it was EMPTY when it was taken.
  pub publish_result-taken :
      (c : ShmClient) (rounds : List Round) (result : InspectionResult F) (i : ℕ)
      → taken (publish_result c rounds result).1 ≡ some i
      → (i < c.slot_count)
        × (load_u32 (await_slot c rounds).0.results (slot_base i c.result_slot_size)
            ≡ slot_state_value empty)
  publish_result-taken c rounds result i e =
      await-bound c rounds i (sym (taken-publish_result c rounds result) ∙ e)

  -- Publishing times out exactly when every scan until the deadline finds every result slot taken.
  pub publish_result-timed_out :
      (c : ShmClient) (rounds : List Round) (result : InspectionResult F)
      → (publish_result c rounds result).1 ≡ timed_out ↔ IsFull c rounds
  publish_result-timed_out c rounds result =
      let same = taken-publish_result c rounds result in
      let full = await-IsFull c rounds in
      (λ e. full.0 (sym same ∙ ap taken e), λ h. taken-none _ (same ∙ full.1 h))
