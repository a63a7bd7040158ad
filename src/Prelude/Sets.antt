-- ===== src/Prelude/Sets.antt =====
-- Membership by a Boolean test, and `dict.fromkeys`, which keeps the first of equal items.
use mathlib.Core.Path.{◌≡◌, refl}
use mathlib.Core.Logic.{◌↔◌, inl, inr}
use mathlib.Core.Bool.{Bool, true, false, ◌||◌}
use mathlib.Core.List.{List, [], ◌∷◌, ◌++◌}
use native.Mathlib.Omega.{arith}
use seat_surface_aoi.Prelude.Tests.{if◌then◌else◌, Bool-cases}
use seat_surface_aoi.Prelude.Lists.{Any}
use seat_surface_aoi.Prelude.Dict.{Eq}

module _ {ℓ} {K : Type ℓ} ⦃e : Eq K⦄ where
  unfoldable pub contains : List K → K → Bool
  contains [] k = false
  contains (x ∷ xs) k = e.beq x k || contains xs k

  -- list(dict.fromkeys(xs)), after the keys `seen`
  unfoldable pub from_keys : List K → List K → List K
  from_keys seen [] = seen
  from_keys seen (x ∷ xs) = from_keys (if contains seen x then seen else seen ++ x ∷ []) xs

  pub contains-append :
      (xs ys : List K) (k : K) → contains (xs ++ ys) k ≡ (contains xs k || contains ys k)
  unfolding contains
  contains-append [] ys k = refl
  contains-append (x ∷ xs) ys k = ground (arith, contains-append xs ys k)

  contains-add :
      (seen : List K) (x k : K)
      → contains (if contains seen x then seen else seen ++ x ∷ []) k
        ≡ (contains seen k || e.beq x k)
  unfolding contains
  contains-add seen x k = elim (Bool-cases (contains seen x)) [
    | inl old ↦ rw old (ground (arith, e.beq_iff x k))
    | inr new ↦ rw (new, contains-append) (ground arith)
  ]

  -- No item is lost, and none is invented.
  pub contains-from_keys :
      (seen xs : List K) (k : K)
      → contains (from_keys seen xs) k ≡ (contains seen k || contains xs k)
  unfolding contains from_keys
  contains-from_keys seen [] k = ground arith
  contains-from_keys seen (x ∷ xs) k = ground (
    arith,
    contains-add seen x k,
    contains-from_keys (if contains seen x then seen else seen ++ x ∷ []) xs k,
  )

  -- No item stands twice.
  abbrev pub IsUnique : List K → Type 0
  IsUnique [] = Unit
  IsUnique (x ∷ xs) = (contains xs x ≡ false) × IsUnique xs

-- An item of a list.
abbrev pub In : {K : Type 0} → K → List K → Type 0
In k xs = Any (λ x. x ≡ k) xs

-- No item stands twice.
abbrev pub Distinct : {K : Type 0} → List K → Type 0
Distinct [] = Unit
Distinct (x ∷ xs) = (¬ In x xs) × Distinct xs

module _ {K : Type 0} ⦃e : Eq K⦄ where
  pub contains_iff : (xs : List K) (k : K) → (contains xs k ≡ true) ↔ In k xs
  unfolding contains
  contains_iff [] k = (λ h. cc, λ h. elim h [ ])
  contains_iff (x ∷ xs) k =
      let (there, back) = contains_iff xs k in
      let (same, beq) = e.beq_iff x k in
      elim (Bool-cases (e.beq x k)) [
        | inl t ↦ (λ h. inl (same t), λ h. ground (arith, t))
        | inr f ↦ (
          λ h. inr (there (ground (arith, f, h))),
          λ h. elim h [ inl p ↦ ground (arith, beq p) | inr q ↦ ground (arith, back q) ],
        )
      ]

  pub not-contains_iff : (xs : List K) (k : K) → (contains xs k ≡ false) ↔ (¬ In k xs)
  not-contains_iff xs k =
      let (there, back) = contains_iff xs k in
      (
        λ h i. cc (h, back i),
        λ h. elim (Bool-cases (contains xs k)) [ inl t ↦ absurd (h (there t)) | inr f ↦ f ],
      )
