-- ===== src/Fusion/Nms.antt =====
-- The suppression loop of `_nms_group`: what it counts, and what holds of the candidates it keeps.
use seat_surface_aoi.Prelude.{
  ℕ, zero, suc, ◌+◌, ◌≤◌, ◌≡◌, refl, ap, Option, none, some, List, [], ◌∷◌, arith, length, All,
  All-append, length-append, inl, inr, Bool-cases, ltb,
}
use seat_surface_aoi.Prelude.Sort.{sorted, length-sorted, All-sorted}
use seat_surface_aoi.Float.{Float}
use seat_surface_aoi.Types.{DefectCandidate}
use seat_surface_aoi.Config.{FusionConfig}
use seat_surface_aoi.Fusion.{
  NmsState, modify, first_overlapping_index, keep_or_merge, nms_step, nms_loop, nms_group,
  higher_score, merge_candidates,
}

module _ {ℓ} {A : Type ℓ} (g : A → A) where
  pub length-modify : (xs : List A) (i : ℕ) → length (modify xs i g) ≡ length xs
  unfolding modify
  length-modify [] i = refl
  length-modify (x ∷ xs) zero = refl
  length-modify (x ∷ xs) (suc i) = ap suc (length-modify xs i)

  pub All-modify {κ} :
      (P : A → Type κ) (xs : List A) (i : ℕ)
      → ((x : A) → P x → P (g x))
      → All P xs
      → All P (modify xs i g)
  unfolding modify
  All-modify P [] i h ps = tt
  All-modify P (x ∷ xs) zero h ps = (h x ps.0, ps.1)
  All-modify P (x ∷ xs) (suc i) h ps = (ps.0, All-modify P xs i h ps.1)

module _ {F : Type 0} ⦃f : Float F⦄ (config : FusionConfig F) where
  abbrev pub seen_count : NmsState F → ℕ
  seen_count s = length s.kept + s.suppressed_count + s.overflow_count

  step_counts :
      (s : NmsState F) (c : DefectCandidate F) (matched : Option ℕ)
      → (seen_count (keep_or_merge config s c matched) ≡ seen_count s + 1)
        × (length s.kept ≤ config.max_candidates_per_roi
            → length (keep_or_merge config s c matched).kept ≤ config.max_candidates_per_roi)
  unfolding keep_or_merge
  step_counts s c none = ground (arith, length-append s.kept (c ∷ []))
  step_counts s c (some i) = ground (arith, length-modify (λ k. merge_candidates k c) s.kept i)

  pub loop_counts :
      (s : NmsState F) (cs : List (DefectCandidate F))
      → (seen_count (nms_loop config s cs) ≡ seen_count s + length cs)
        × (length s.kept ≤ config.max_candidates_per_roi
            → length (nms_loop config s cs).kept ≤ config.max_candidates_per_roi)
  unfolding nms_loop nms_step
  loop_counts s [] = (omega arith, λ h. h)
  loop_counts s (c ∷ cs) =
      let (here, fits) = step_counts s c (first_overlapping_index s.kept c config.iou_threshold) in
      let (later, room) = loop_counts (nms_step config s c) cs in (omega arith, λ h. room (fits h))

  pub group_counts :
      (cs : List (DefectCandidate F))
      → (seen_count (nms_group config cs) ≡ length cs)
        × (length (nms_group config cs).kept ≤ config.max_candidates_per_roi)
  unfolding nms_group
  group_counts cs =
      let (total, room) = loop_counts _ (sorted higher_score cs) in
      (omega (arith, total, length-sorted higher_score cs), room (omega arith))

  -- A property that merging keeps holds of all that is kept, if it holds of the group.
  module _ {κ} (P : DefectCandidate F → Type κ)
      (merged : (a b : DefectCandidate F) → P a → P b → P (merge_candidates a b)) where
    pub step-All :
        (s : NmsState F) (c : DefectCandidate F) (matched : Option ℕ)
        → P c
        → All P s.kept
        → All P (keep_or_merge config s c matched).kept
    unfolding keep_or_merge
    step-All s c none p ps = elim (Bool-cases (ltb (length s.kept) config.max_candidates_per_roi)) [
      | inl room ↦ rw room (All-append P s.kept (c ∷ []) ps (p, tt))
      | inr full ↦ rw full ps
    ]
    step-All s c (some i) p ps =
        All-modify (λ k. merge_candidates k c) P s.kept i (λ k q. merged k c q p) ps

    loop-All :
        (s : NmsState F) (cs : List (DefectCandidate F))
        → All P cs
        → All P s.kept
        → All P (nms_loop config s cs).kept
    unfolding nms_loop nms_step
    loop-All s [] qs ps = ps
    loop-All s (c ∷ cs) qs ps =
        loop-All (nms_step config s c) cs qs.1
          (step-All s c (first_overlapping_index s.kept c config.iou_threshold) qs.0 ps)

    pub nms_group-All :
        (cs : List (DefectCandidate F)) → All P cs → All P (nms_group config cs).kept
    unfolding nms_group
    nms_group-All cs qs = loop-All _ (sorted higher_score cs) (All-sorted higher_score P cs qs) tt
