-- ===== src/Trigger/Answer.antt =====
-- What `_read_expected_locked` of the manual trigger client has received when it returns.
use mathlib.Core.List.{append-nil, append_assoc}
use seat_surface_aoi.Prelude.{
  ℕ, ==_iff, ◌≡◌, ◌⊎◌, inl, inr, refl, sym, ap, ◌∙◌, Bool, Bool-cases, String, true, List, [], ◌∷◌,
  ◌++◌, any, str_eq, arith, All, Any, Any-find, Any-map,
}
use seat_surface_aoi.Prelude.Result.{done}
use seat_surface_aoi.Protocol.Layout.{Codec}
use seat_surface_aoi.Trigger.{
  Recv, chunk, nothing, closed, failed, starts_with, occurs_in, escape_newlines, rstrip_newlines,
  expected_variants, read_expected,
}

-- The bytes `v` stand somewhere in the bytes `buffer`.
abbrev IsIn : List ℕ → List ℕ → Type 0
IsIn v buffer = (before : List ℕ) × (after : List ℕ) × (buffer ≡ before ++ (v ++ after))

-- The first calls of `recv` returned the bytes `bytes`, in all.
pub data Received : List Recv → List ℕ → Type 0 where
  start : {replies : List Recv} → Received replies []
  more :
      {replies : List Recv} {later : List ℕ}
      → (bytes : List ℕ) → Received replies later
      → Received (chunk bytes ∷ replies) (bytes ++ later)

module _ ⦃k : Codec⦄ where
  -- The bytes of an answer: as configured, with its line ends written out, or without them at its end.
  abbrev IsVariant : String → List ℕ → Type 0
  IsVariant expected v =
      (v ≡ k.utf8 expected)
      ⊎ ((v ≡ k.utf8 (escape_newlines expected)) ⊎ (v ≡ k.utf8 (rstrip_newlines expected)))

  -- The bytes of the first calls hold the answer.
  pub record IsAnswered (expected : String) (replies : List Recv) : Type 0 where
    pub bytes : List ℕ
    pub received : Received replies bytes
    pub variant : List ℕ
    pub is_variant : IsVariant expected variant
    pub is_in : IsIn variant bytes

starts_with-rest :
    (v buffer : List ℕ) → starts_with v buffer ≡ true → (after : List ℕ) × (buffer ≡ v ++ after)
unfolding starts_with
starts_with-rest [] buffer h = (buffer, refl)
starts_with-rest (x ∷ xs) [] h = cc
starts_with-rest (x ∷ xs) (y ∷ ys) h =
    let (after, same) = starts_with-rest xs ys (ground (arith, h)) in
    (after, ground (arith, h, same, ==_iff x y))

occurs_in-IsIn : (buffer v : List ℕ) → occurs_in buffer v ≡ true → IsIn v buffer
unfolding occurs_in
occurs_in-IsIn buffer [] h = ([], buffer, refl)
occurs_in-IsIn [] (x ∷ xs) h = cc
occurs_in-IsIn (y ∷ ys) (x ∷ xs) h = elim (Bool-cases (starts_with (x ∷ xs) (y ∷ ys))) [
  | inl e ↦ (let (after, same) = starts_with-rest (x ∷ xs) (y ∷ ys) e in ([], after, same))
  | inr e ↦
      (let (before, after, same) = occurs_in-IsIn ys (x ∷ xs) (ground (arith, h, e)) in
        (y ∷ before, after, ap (λ l. y ∷ l) same))
]

any-Any : (p : List ℕ → Bool) (vs : List (List ℕ)) → any p vs ≡ true → Any (λ v. p v ≡ true) vs
any-Any p [] h = cc
any-Any p (v ∷ vs) h = elim (Bool-cases (p v)) [
  | inl e ↦ inl e
  | inr e ↦ inr (any-Any p vs (ground (arith, h, e)))
]

-- Where the loop returns, what it had and what it received hold one of the variants.
abbrev Holds : List (List ℕ) → List ℕ → List Recv → Type 0
Holds variants buffer replies =
    (bytes : List ℕ) × Received replies bytes
    × Any (λ v. occurs_in (buffer ++ bytes) v ≡ true) variants

Holds-now :
    (variants : List (List ℕ)) (buffer : List ℕ) (replies : List Recv)
    → any (occurs_in buffer) variants ≡ true
    → Holds variants buffer replies
Holds-now variants buffer replies h = (
  [],
  start,
  Any-map _ _ variants (λ v p. ap (λ b. occurs_in b v) (append-nil buffer) ∙ p)
      (any-Any (occurs_in buffer) variants h),
)

read_expected-Holds :
    (variants : List (List ℕ)) (buffer : List ℕ) (replies : List Recv)
    → read_expected variants buffer replies ≡ done tt
    → Holds variants buffer replies
unfolding read_expected
read_expected-Holds variants buffer [] h = cc
read_expected-Holds variants buffer (chunk bytes ∷ rest) h =
    elim (Bool-cases (any (occurs_in buffer) variants)) [
      | inl e ↦ Holds-now variants buffer (chunk bytes ∷ rest) e
      | inr e ↦
          (let (later, got, a) =
              read_expected-Holds variants (buffer ++ bytes) rest (ground (arith, h, e)) in
            (
              bytes ++ later,
              more bytes got,
              Any-map _ _ variants
                  (λ v p. ap (λ b. occurs_in b v) (sym (append_assoc buffer bytes later)) ∙ p) a,
            ))
    ]
read_expected-Holds variants buffer (nothing ∷ rest) h =
    Holds-now variants buffer (nothing ∷ rest) (ground (arith, h))
read_expected-Holds variants buffer (closed ∷ rest) h =
    Holds-now variants buffer (closed ∷ rest) (ground (arith, h))
read_expected-Holds variants buffer (failed ∷ rest) h =
    Holds-now variants buffer (failed ∷ rest) (ground (arith, h))

module _ ⦃k : Codec⦄ where
  expected_variants-IsVariant :
      (expected : String) → All (IsVariant expected) (expected_variants expected)
  unfolding expected_variants
  expected_variants-IsVariant expected =
      elim (Bool-cases (str_eq (escape_newlines expected) expected)) [
        | inl e ↦ elim (Bool-cases (str_eq (rstrip_newlines expected) expected)) [
          | inl r ↦ rw e (rw r (inl refl, tt))
          | inr r ↦ rw e (rw r (inl refl, (inr (inr refl), tt)))
        ]
        | inr e ↦ elim (Bool-cases (str_eq (rstrip_newlines expected) expected)) [
          | inl r ↦ rw e (rw r (inl refl, (inr (inl refl), tt)))
          | inr r ↦ rw e (rw r (inl refl, (inr (inl refl), (inr (inr refl), tt))))
        ]
      ]

  -- Where the loop returns, the answer was received.
  pub answered :
      (expected : String) (replies : List Recv)
      → read_expected (expected_variants expected) [] replies ≡ done tt
      → IsAnswered expected replies
  answered expected replies h =
      let (bytes, got, a) = read_expected-Holds (expected_variants expected) [] replies h in
      let (v, there, v_is) =
        Any-find _ (expected_variants expected) a (expected_variants-IsVariant expected) in
      record {
        bytes = bytes;
        received = got;
        variant = v;
        is_variant = v_is;
        is_in = occurs_in-IsIn bytes v there;
      }
