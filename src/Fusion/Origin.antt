-- ===== src/Fusion/Origin.antt =====
-- The score and the RECHECK threshold of a candidate that `fuse` returns come from one candidate of the
-- input.
use seat_surface_aoi.Prelude.{
  ◌≡◌, refl, ◌∙◌, ◌⊎◌, true, Bool-cases, Option, List, [], ◌∷◌, arith, All, All-zip, All-map, Any,
  Any-map, inl, inr,
}
use seat_surface_aoi.Prelude.Result.{done}
use seat_surface_aoi.Float.{Float, IsOrdered}
use seat_surface_aoi.Types.{DefectCandidate}
use seat_surface_aoi.Config.{FusionConfig}
use seat_surface_aoi.Fusion.{key_of, FusedResult, fuse, merge_candidates}
use seat_surface_aoi.Fusion.Output.{fuse-All, fuse_done_iff}

-- Every item stands in its own list.
All-Any_self :
    {A : Type 0} (R : A → A → Type 0) (xs : List A) → ((x : A) → R x x) → All (λ x. Any (R x) xs) xs
All-Any_self R [] r = tt
All-Any_self R (x ∷ xs) r = (inl (r x), All-map _ _ xs (λ y h. inr h) (All-Any_self R xs r))

module _ {F : Type 0} ⦃f : Float F⦄ where
  -- The candidate `out` has its place, its score and its threshold from `k`.
  pub record IsFrom (out k : DefectCandidate F) : Type 0 where
    pub key : key_of out ≡ key_of k
    pub score : out.score ≡ k.score
    pub threshold : out.recheck_score ≡ k.recheck_score

  IsFrom-trans : (a b k : DefectCandidate F) → IsFrom a b → IsFrom b k → IsFrom a k
  IsFrom-trans a b k p q = record {
    key = p.key ∙ q.key;
    score = p.score ∙ q.score;
    threshold = p.threshold ∙ q.threshold;
  }

  -- A merged candidate is from one of its parts: the one whose fields it has is the one with its score.
  merge_candidates-IsFrom :
      (laws : IsOrdered F) (a b : DefectCandidate F)
      → f.is_finite a.score ≡ true
      → f.is_finite b.score ≡ true
      → IsFrom (merge_candidates a b) a ⊎ IsFrom (merge_candidates a b) b
  unfolding merge_candidates
  merge_candidates-IsFrom laws a b v w = elim (Bool-cases (f.le b.score a.score)) [
    | inl e ↦ inl record {
      key = rw e refl;
      score = ground (arith, e, laws.lt_not_le a.score b.score v w);
      threshold = rw e refl;
    }
    | inr e ↦ inr record {
      key = rw e refl;
      score = ground (arith, e, laws.lt_not_le a.score b.score v w);
      threshold = rw e refl;
    }
  ]

  -- If `fuse` returns, each candidate that it returns is from one of the input.
  pub fuse-IsFrom :
      (laws : IsOrdered F) (cs : List (DefectCandidate F)) (config : Option (FusionConfig F))
      {r : FusedResult F}
      → fuse cs config ≡ done r
      → All (λ out. Any (IsFrom out) cs) r.candidates
  fuse-IsFrom laws cs config {r} h =
      let valid = (fuse_done_iff cs config).0 (r, h) in
      let itself =
        All-Any_self IsFrom cs (λ c. record { key = refl; score = refl; threshold = refl }) in
      let P : DefectCandidate F → Type 0 =
        λ out. (f.is_finite out.score ≡ true) × Any (IsFrom out) cs in
      let inputs = All-zip _ _ P cs (λ c v a. (v.finite, a)) valid itself in
      All-map P _ r.candidates (λ out p. p.1) (fuse-All P (merged laws cs) cs config h inputs)
    where
      merged :
          (laws : IsOrdered F) (cs : List (DefectCandidate F)) (a b : DefectCandidate F)
          → (f.is_finite a.score ≡ true) × Any (IsFrom a) cs
          → (f.is_finite b.score ≡ true) × Any (IsFrom b) cs
          → (f.is_finite (merge_candidates a b).score ≡ true)
            × Any (IsFrom (merge_candidates a b)) cs
      merged laws cs a b (v, p) (w, q) = elim (merge_candidates-IsFrom laws a b v w) [
        | inl m ↦ (rw m.score v, Any-map _ _ cs (λ k. IsFrom-trans (merge_candidates a b) a k m) p)
        | inr m ↦ (rw m.score w, Any-map _ _ cs (λ k. IsFrom-trans (merge_candidates a b) b k m) q)
      ]
