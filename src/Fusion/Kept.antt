-- ===== src/Fusion/Kept.antt =====
-- What `_nms_group` keeps covers all of its group unless it counts an overflow.
use seat_surface_aoi.Prelude.{
  ℕ, zero, suc, ◌≤◌, ◌<◌, ◌≡◌, refl, sym, ◌∙◌, Option, none, some, List, [], ◌∷◌, arith, length,
  All, Any, Any-append_left, Any-append_right, Bool-cases, Option-cases, inl, inr, ltb,
}
use seat_surface_aoi.Prelude.Dict.{string_key}
use seat_surface_aoi.Prelude.Sort.{sorted, All-sorted, All-unsorted}
use seat_surface_aoi.Float.{Float, IsOrdered}
use seat_surface_aoi.Types.{DefectCandidate}
use seat_surface_aoi.Config.{FusionConfig}
use seat_surface_aoi.Fusion.{
  Key, NmsState, modify, merge_candidates, first_overlapping_index, keep_or_merge, nms_step,
  nms_loop, nms_group, higher_score,
}
use seat_surface_aoi.Fusion.Validity.{merge_candidates-IsValid}
use seat_surface_aoi.Fusion.Nms.{step-All}
use seat_surface_aoi.Fusion.Groups.{BelongsTo}
use seat_surface_aoi.Fusion.Limit.{merge-key}
use seat_surface_aoi.Fusion.Coverage.{Covers, Covers-trans, Covers-refl, merge_candidates-Covers}

module _ {ℓ} {A : Type ℓ} (g : A → A) where
  Any-modify :
      (P Q : A → Type 0) (V : A → Type 0) (xs : List A) (i : ℕ)
      → ((x : A) → V x → P x → Q (g x))
      → ((x : A) → P x → Q x)
      → All V xs
      → Any P xs
      → Any Q (modify xs i g)
  unfolding modify
  Any-modify P Q V [] i h k vs p = elim p [ ]
  Any-modify P Q V (x ∷ xs) zero h k vs (inl p) = inl (h x vs.0 p)
  Any-modify P Q V (x ∷ xs) zero h k vs (inr p) = inr (weaken xs p)
    where
      weaken : (xs : List A) → Any P xs → Any Q xs
      weaken [] p = elim p [ ]
      weaken (x ∷ xs) (inl p) = inl (k x p)
      weaken (x ∷ xs) (inr p) = inr (weaken xs p)
  Any-modify P Q V (x ∷ xs) (suc i) h k vs (inl p) = inl (k x p)
  Any-modify P Q V (x ∷ xs) (suc i) h k vs (inr p) = inr (Any-modify P Q V xs i h k vs.1 p)

  Any-modify_at :
      (Q : A → Type 0) (V : A → Type 0) (xs : List A) (i : ℕ)
      → ((x : A) → V x → Q (g x))
      → All V xs
      → i < length xs
      → Any Q (modify xs i g)
  unfolding modify
  Any-modify_at Q V [] i h vs b = absurd (omega arith)
  Any-modify_at Q V (x ∷ xs) zero h vs b = inl (h x vs.0)
  Any-modify_at Q V (x ∷ xs) (suc i) h vs b = inr (Any-modify_at Q V xs i h vs.1 (omega arith))

module _ {F : Type 0} ⦃f : Float F⦄ (laws : IsOrdered F) where
  module _ (config : FusionConfig F) (k : Key) where
    abbrev pub IsCovered : DefectCandidate F → List (DefectCandidate F) → Type 0
    IsCovered x = Any (λ out. Covers out x)

    merge-of :
        (a b : DefectCandidate F)
        → BelongsTo k a
        → BelongsTo k b
        → Covers (merge_candidates a b) a × Covers (merge_candidates a b) b
    merge-of a b p q = merge_candidates-Covers laws a b p.0 q.0 (p.1 ∙ sym q.1)

    merge-BelongsTo :
        (a b : DefectCandidate F)
        → BelongsTo k a
        → BelongsTo k b
        → BelongsTo k (merge_candidates a b)
    merge-BelongsTo a b p q = (merge_candidates-IsValid a b p.0 q.0, merge-key k a b p.1 q.1)

    overlapping-lt :
        (ks : List (DefectCandidate F)) (c : DefectCandidate F) (t : F) (i : ℕ)
        → first_overlapping_index ks c t ≡ some i
        → i < length ks
    unfolding first_overlapping_index
    overlapping-lt [] c t i h = absurd (ground arith)
    overlapping-lt (x ∷ ks) c t i h = elim (Option-cases (first_overlapping_index ks c t)) [
      | inl e ↦ ground (arith, e)
      | inr (j, e) ↦ ground (arith, e, overlapping-lt ks c t j e)
    ]

    step-keeps :
        (s : NmsState F) (c x : DefectCandidate F) (matched : Option ℕ)
        → BelongsTo k c
        → All (BelongsTo k) s.kept
        → IsCovered x s.kept
        → IsCovered x (keep_or_merge config s c matched).kept
    unfolding keep_or_merge
    step-keeps s c x none p ps h =
        elim (Bool-cases (ltb (length s.kept) config.max_candidates_per_roi)) [
          | inl room ↦ rw room (Any-append_left _ s.kept (c ∷ []) h)
          | inr full ↦ rw full h
        ]
    step-keeps s c x (some i) p ps h =
        Any-modify (λ y. merge_candidates y c) (λ out. Covers out x) (λ out. Covers out x)
          (BelongsTo k) s.kept i (λ y v q. Covers-trans laws _ y x (merge-of y c v p).0 q)
          (λ y q. q) ps h

    step-Covers :
        (s : NmsState F) (c : DefectCandidate F) (matched : Option ℕ)
        → BelongsTo k c
        → All (BelongsTo k) s.kept
        → ((i : ℕ) → matched ≡ some i → i < length s.kept)
        → (keep_or_merge config s c matched).overflow_count ≡ 0
        → IsCovered c (keep_or_merge config s c matched).kept
    unfolding keep_or_merge
    step-Covers s c none p ps inside none_lost =
        elim (Bool-cases (ltb (length s.kept) config.max_candidates_per_roi)) [
          | inl room ↦ rw room (Any-append_right _ s.kept (c ∷ []) (inl (Covers-refl laws c p.0)))
          | inr full ↦ absurd (ground (arith, full))
        ]
    step-Covers s c (some i) p ps inside none_lost =
        Any-modify_at (λ y. merge_candidates y c) (λ out. Covers out c) (BelongsTo k) s.kept i
          (λ y v. (merge-of y c v p).1) ps (inside i refl)

    step-overflow :
        (s : NmsState F) (c : DefectCandidate F) (matched : Option ℕ)
        → s.overflow_count ≤ (keep_or_merge config s c matched).overflow_count
    unfolding keep_or_merge
    step-overflow s c none = ground arith
    step-overflow s c (some i) = omega arith

    loop-overflow :
        (s : NmsState F) (cs : List (DefectCandidate F))
        → s.overflow_count ≤ (nms_loop config s cs).overflow_count
    unfolding nms_loop nms_step
    loop-overflow s [] = omega arith
    loop-overflow s (c ∷ cs) = omega (
      arith,
      loop-overflow (nms_step config s c) cs,
      step-overflow s c (first_overlapping_index s.kept c config.iou_threshold),
    )

    step-BelongsTo :
        (s : NmsState F) (c : DefectCandidate F)
        → BelongsTo k c
        → All (BelongsTo k) s.kept
        → All (BelongsTo k) (nms_step config s c).kept
    unfolding nms_step
    step-BelongsTo s c p ps =
        step-All config (BelongsTo k) merge-BelongsTo s c
          (first_overlapping_index s.kept c config.iou_threshold) p ps

    loop-keeps :
        (s : NmsState F) (cs : List (DefectCandidate F)) (x : DefectCandidate F)
        → All (BelongsTo k) cs
        → All (BelongsTo k) s.kept
        → IsCovered x s.kept
        → IsCovered x (nms_loop config s cs).kept
    unfolding nms_loop nms_step
    loop-keeps s [] x ps qs h = h
    loop-keeps s (c ∷ cs) x ps qs h =
        loop-keeps (nms_step config s c) cs x ps.1 (step-BelongsTo s c ps.0 qs)
          (step-keeps s c x (first_overlapping_index s.kept c config.iou_threshold) ps.0 qs h)

    loop-Covers :
        (s : NmsState F) (cs : List (DefectCandidate F))
        → All (BelongsTo k) cs
        → All (BelongsTo k) s.kept
        → (nms_loop config s cs).overflow_count ≡ 0
        → All (λ c. IsCovered c (nms_loop config s cs).kept) cs
    unfolding nms_loop nms_step
    loop-Covers s [] ps qs h = tt
    loop-Covers s (c ∷ cs) ps qs h =
        let next = nms_step config s c in
        let later = step-BelongsTo s c ps.0 qs in
        let none_lost : next.overflow_count ≡ 0 = omega (arith, loop-overflow next cs, h) in
        (
          loop-keeps next cs c ps.1 later (
              step-Covers s c (first_overlapping_index s.kept c config.iou_threshold) ps.0 qs
                (overlapping-lt s.kept c config.iou_threshold) none_lost),
          loop-Covers next cs ps.1 later h,
        )

    -- If nothing overflowed, every candidate of the group is covered by one that is kept.
    pub nms_group-Covers :
        (cs : List (DefectCandidate F))
        → All (BelongsTo k) cs
        → (nms_group config cs).overflow_count ≡ 0
        → All (λ c. IsCovered c (nms_group config cs).kept) cs
    unfolding nms_group
    nms_group-Covers cs ps h =
        All-unsorted higher_score _ cs (
          loop-Covers _ (sorted higher_score cs) (All-sorted higher_score (BelongsTo k) cs ps) tt h)
