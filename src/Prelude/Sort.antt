-- ===== src/Prelude/Sort.antt =====
-- Python's `sorted`: a stable sort. `before x y` says that the key of `x` comes strictly before that
-- of `y`; with `reverse=True` it compares the keys the other way round, and ties keep their order.
use mathlib.Core.Path.{◌≡◌, refl}
use mathlib.Core.Bool.{Bool, true, false}
use mathlib.Core.List.{List, [], ◌∷◌}
use mathlib.Core.Logic.{◌⊎◌, inl, inr}
use native.Mathlib.Omega.{arith}
use Prim.Native.Nat.{ℕ, suc, ◌+◌}
use seat_surface_aoi.Prelude.Tests.{if◌then◌else◌, Bool-cases}
use seat_surface_aoi.Prelude.Lists.{length, All, Any, tally}

module _ {ℓ} {A : Type ℓ} (before : A → A → Bool) where
  unfoldable pub insert_sorted : A → List A → List A
  insert_sorted x [] = x ∷ []
  insert_sorted x (y ∷ ys) = if before y x then y ∷ insert_sorted x ys else x ∷ y ∷ ys

  unfoldable pub sorted : List A → List A
  unfolding insert_sorted
  sorted [] = []
  sorted (x ∷ xs) = insert_sorted x (sorted xs)

  length-insert_sorted : (x : A) (ys : List A) → length (insert_sorted x ys) ≡ suc (length ys)
  unfolding insert_sorted
  length-insert_sorted x [] = refl
  length-insert_sorted x (y ∷ ys) = ground (arith, length-insert_sorted x ys)

  pub length-sorted : (xs : List A) → length (sorted xs) ≡ length xs
  unfolding sorted
  length-sorted [] = refl
  length-sorted (x ∷ xs) = ground (arith, length-insert_sorted x (sorted xs), length-sorted xs)

  All-insert_sorted {κ} :
      (P : A → Type κ) (x : A) (ys : List A) → P x → All P ys → All P (insert_sorted x ys)
  unfolding insert_sorted
  All-insert_sorted P x [] p q = (p, tt)
  All-insert_sorted P x (y ∷ ys) p q = elim (Bool-cases (before y x)) [
    | inl e ↦ rw e (q.0, All-insert_sorted P x ys p q.1)
    | inr e ↦ rw e (p, q)
  ]

  -- What holds of every item holds of every item of the sorted list.
  pub All-sorted {κ} : (P : A → Type κ) (xs : List A) → All P xs → All P (sorted xs)
  unfolding sorted
  All-sorted P [] p = tt
  All-sorted P (x ∷ xs) p = All-insert_sorted P x (sorted xs) p.0 (All-sorted P xs p.1)

  tally-insert_sorted :
      (w : A → ℕ) (x : A) (ys : List A) → tally w (insert_sorted x ys) ≡ w x + tally w ys
  unfolding insert_sorted
  tally-insert_sorted w x [] = refl
  tally-insert_sorted w x (y ∷ ys) = ground (arith, tally-insert_sorted w x ys)

  pub tally-sorted : (w : A → ℕ) (xs : List A) → tally w (sorted xs) ≡ tally w xs
  unfolding sorted
  tally-sorted w [] = refl
  tally-sorted w (x ∷ xs) = ground (arith, tally-insert_sorted w x (sorted xs), tally-sorted w xs)

  -- No later item comes before an earlier one.
  abbrev pub IsSorted : List A → Type ℓ
  IsSorted [] = Unit
  IsSorted (x ∷ xs) = All (λ y. before y x ≡ false) xs × IsSorted xs

  -- The order is strict and its negation is transitive, on the items with the property `P`.
  pub record IsOrder {κ} (P : A → Type κ) : Type (ℓ ⊔ κ) where
    pub asym : (x y : A) → P x → P y → before y x ≡ true → before x y ≡ false
    pub trans :
        (x y z : A) → P x → P y → P z → before y x ≡ false → before z y ≡ false → before z x ≡ false

  module _ {κ} {P : A → Type κ} (o : IsOrder P) where
    none_before :
        (x y : A) (zs : List A)
        → P x
        → P y
        → before y x ≡ false
        → All P zs
        → All (λ z. before z y ≡ false) zs
        → All (λ z. before z x ≡ false) zs
    none_before x y [] px py h ps later = tt
    none_before x y (z ∷ zs) px py h ps later =
        (o.trans x y z px py ps.0 h later.0, none_before x y zs px py h ps.1 later.1)

    insert_sorted-IsSorted :
        (x : A) (ys : List A) → P x → All P ys → IsSorted ys → IsSorted (insert_sorted x ys)
    unfolding insert_sorted
    insert_sorted-IsSorted x [] px ps s = (tt, tt)
    insert_sorted-IsSorted x (y ∷ ys) px ps s = elim (Bool-cases (before y x)) [
      | inl e ↦ rw e (
        All-insert_sorted (λ z. before z y ≡ false) x ys (o.asym x y px ps.0 e) s.0,
        insert_sorted-IsSorted x ys px ps.1 s.1,
      )
      | inr e ↦ rw e ((e, none_before x y ys px ps.0 e ps.1 s.0), s)
    ]

    pub sorted-IsSorted : (xs : List A) → All P xs → IsSorted (sorted xs)
    unfolding sorted
    sorted-IsSorted [] ps = tt
    sorted-IsSorted (x ∷ xs) ps =
        insert_sorted-IsSorted x (sorted xs) ps.0 (All-sorted P xs ps.1) (sorted-IsSorted xs ps.1)

  Any-insert_sorted :
      (P : A → Type 0) (x : A) (ys : List A) → P x ⊎ Any P ys → Any P (insert_sorted x ys)
  unfolding insert_sorted
  Any-insert_sorted P x [] h = h
  Any-insert_sorted P x (y ∷ ys) (inl p) = elim (Bool-cases (before y x)) [
    | inl e ↦ rw e (inr (Any-insert_sorted P x ys (inl p)))
    | inr e ↦ rw e (inl p)
  ]
  Any-insert_sorted P x (y ∷ ys) (inr (inl q)) = elim (Bool-cases (before y x)) [
    | inl e ↦ rw e (inl q)
    | inr e ↦ rw e (inr (inl q))
  ]
  Any-insert_sorted P x (y ∷ ys) (inr (inr q)) = elim (Bool-cases (before y x)) [
    | inl e ↦ rw e (inr (Any-insert_sorted P x ys (inr q)))
    | inr e ↦ rw e (inr (inr q))
  ]

  -- Sorting loses no item.
  pub Any-sorted : (P : A → Type 0) (xs : List A) → Any P xs → Any P (sorted xs)
  unfolding sorted
  Any-sorted P [] h = h
  Any-sorted P (x ∷ xs) (inl p) = Any-insert_sorted P x (sorted xs) (inl p)
  Any-sorted P (x ∷ xs) (inr q) = Any-insert_sorted P x (sorted xs) (inr (Any-sorted P xs q))

  All-uninsert :
      (P : A → Type 0) (x : A) (ys : List A) → All P (insert_sorted x ys) → P x × All P ys
  unfolding insert_sorted
  All-uninsert P x [] h = (h.0, tt)
  All-uninsert P x (y ∷ ys) h = elim (Bool-cases (before y x)) [
    | inl e ↦
        (let h' : All P (y ∷ insert_sorted x ys) = rw e at h in
          let (p, q) = All-uninsert P x ys h'.1 in (p, (h'.0, q)))
    | inr e ↦ (let h' : All P (x ∷ y ∷ ys) = rw e at h in (h'.0, h'.1))
  ]

  -- What holds of all of the sorted list holds of all of the list.
  pub All-unsorted : (P : A → Type 0) (xs : List A) → All P (sorted xs) → All P xs
  unfolding sorted
  All-unsorted P [] h = tt
  All-unsorted P (x ∷ xs) h =
      let (p, q) = All-uninsert P x (sorted xs) h in (p, All-unsorted P xs q)
