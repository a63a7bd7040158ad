-- ===== src/Prelude/Entries.antt =====
-- Entries of a `dict`: what an assignment does to sums and predicates over them.
use mathlib.Core.Path.{◌≡◌, refl, sym}
use mathlib.Core.Bool.{false}
use mathlib.Core.Option.{Option, none, some}
use mathlib.Core.Logic.{inl, inr}
use mathlib.Core.List.{[], ◌∷◌}
use native.Mathlib.Omega.{arith}
use Prim.Native.Nat.{ℕ, ◌+◌, ◌≤◌}
use seat_surface_aoi.Prelude.Tests.{Bool-cases}
use seat_surface_aoi.Prelude.Lists.{All, tally}
use seat_surface_aoi.Prelude.Dict.{Dict, get, put, get-put, values, Eq}

abbrev pub weight_at {ℓ} : {V : Type ℓ} → (V → ℕ) → Option V → ℕ
weight_at w none = 0
weight_at w (some v) = w v

module _ {ℓ κ} {K : Type ℓ} {V : Type κ} ⦃e : Eq K⦄ where
  pub tally-put :
      (w : V → ℕ) (d : Dict K V) (k : K) (v : V)
      → tally w (values (put d k v)) + weight_at w (get d k) ≡ tally w (values d) + w v
  unfolding put get values
  tally-put w [] k v = omega arith
  tally-put w ((j, u) ∷ d) k v = ground (arith, tally-put w d k v)

  -- What holds of every entry holds after an assignment that it holds of.
  pub All-put {μ} :
      (P : K × V → Type μ) (d : Dict K V) (k : K) (v : V) → All P d → P (k, v) → All P (put d k v)
  unfolding put
  All-put P [] k v ps p = (p, tt)
  All-put P ((j, u) ∷ d) k v ps p = elim (Bool-cases (e.beq j k)) [
    | inl same ↦ rw same (let eq : k ≡ j = sym ((e.beq_iff j k).0 same) in (rw eq at p, ps.1))
    | inr other ↦ rw other (ps.0, All-put P d k v ps.1 p)
  ]

  pub All-get {μ} :
      (P : K × V → Type μ) (d : Dict K V) (k : K) (v : V) → All P d → get d k ≡ some v → P (k, v)
  unfolding get
  All-get P [] k v ps h = cc
  All-get P ((j, u) ∷ d) k v ps h = elim (Bool-cases (e.beq j k)) [
    | inl same ↦
        (let eq : k ≡ j = sym ((e.beq_iff j k).0 same) in
          let val : v ≡ u = ground (arith, same, h) in rw (eq, val) ps.0)
    | inr other ↦ All-get P d k v ps.1 (ground (arith, other, h))
  ]

  -- No key stands twice.
  abbrev pub KeysUnique : Dict K V → Type κ
  KeysUnique [] = Unit
  KeysUnique ((k, v) ∷ d) = (get d k ≡ none) × KeysUnique d

  pub KeysUnique-put : (d : Dict K V) (k : K) (v : V) → KeysUnique d → KeysUnique (put d k v)
  unfolding put get
  KeysUnique-put [] k v u = (refl, tt)
  KeysUnique-put ((j, w) ∷ d) k v u = elim (Bool-cases (e.beq j k)) [
    | inl same ↦ rw same u
    | inr other ↦ rw other (
      ground (arith, get-put d k j v, u.0, e.beq_iff j k, e.beq_iff k j),
      KeysUnique-put d k v u.1,
    )
  ]

  -- If only the entry of one key counts, the sum is at most that entry's part.
  pub tally-one :
      (w : K × V → ℕ) (m : ℕ) (k : K) (d : Dict K V)
      → KeysUnique d
      → All (λ kv. (w kv ≤ m) × (e.beq kv.0 k ≡ false → w kv ≡ 0)) d
      → (tally w d ≤ m) × (get d k ≡ none → tally w d ≡ 0)
  unfolding get
  tally-one w m k [] u b = omega arith
  tally-one w m k ((j, v) ∷ d) u b = ground (arith, tally-one w m k d u.1 b.1, e.beq_iff j k, u.0)

module _ {ℓ κ} {K : Type ℓ} {V : Type κ} where
  pub tally-values : (w : V → ℕ) (d : Dict K V) → tally w (values d) ≡ tally (λ kv. w kv.1) d
  unfolding values
  tally-values w [] = refl
  tally-values w (kv ∷ d) = omega (arith, tally-values w d)

  pub All-values {μ} : (P : V → Type μ) (d : Dict K V) → All (λ kv. P kv.1) d → All P (values d)
  unfolding values
  All-values P [] ps = tt
  All-values P (kv ∷ d) ps = (ps.0, All-values P d ps.1)

module _ {ℓ κ} {K : Type ℓ} {V : Type κ} ⦃e : Eq K⦄ where
  -- What holds of all values after an assignment held of all before it, if it goes over from the new
  -- value to the one that it replaces.
  pub All-unput {μ} :
      (P : V → Type μ) (d : Dict K V) (k : K) (v : V)
      → ((u : V) → get d k ≡ some u → P v → P u)
      → All (λ kv. P kv.1) (put d k v)
      → P v × All (λ kv. P kv.1) d
  unfolding put get
  All-unput P [] k v back h = (h.0, tt)
  All-unput P ((j, u) ∷ d) k v back h = elim (Bool-cases (e.beq j k)) [
    | inl same ↦
        (let h' : All (λ kv. P kv.1) ((j, v) ∷ d) = rw same at h in
          (h'.0, (back u (ground (arith, same)) h'.0, h'.1)))
    | inr other ↦
        (let h' : All (λ kv. P kv.1) ((j, u) ∷ put d k v) = rw other at h in
          let (p, q) = All-unput P d k v (λ w eq. back w (ground (arith, other, eq))) h'.1 in
          (p, (h'.0, q)))
  ]
