-- ===== src/Fusion/Output.antt =====
-- What `FusionEngine.fuse` returns: its counts, its candidates, and the inputs that it refuses.
use seat_surface_aoi.Prelude.{
  ℕ, ◌+◌, ◌≡◌, refl, ◌↔◌, Option, List, [], ◌∷◌, ◌++◌, arith, length, All, All-append, All-map,
  length-append, tally, tally-append,
}
use seat_surface_aoi.Prelude.Result.{done, raised, >>=-eq-done}
use seat_surface_aoi.Prelude.Dict.{values, triple_key}
use seat_surface_aoi.Prelude.Entries.{All-values}
use seat_surface_aoi.Prelude.Sort.{sorted, length-sorted, All-sorted}
use seat_surface_aoi.Float.{Float}
use seat_surface_aoi.Types.{DefectCandidate}
use seat_surface_aoi.Config.{FusionConfig}
use seat_surface_aoi.Fusion.{
  FusedResult, FusionError, fuse, extend_result, fuse_groups, no_result, chosen_config, nms_group,
  group_candidates, output_before, validate_candidate, merge_candidates,
}
use seat_surface_aoi.Fusion.Validity.{IsValid, merge_candidates-IsValid}
use seat_surface_aoi.Fusion.Nms.{group_counts, nms_group-All}
use seat_surface_aoi.Fusion.Groups.{
  Groups, IsGrouped, group_candidates-IsGrouped, group_candidates-total, group_candidates-All,
  group_candidates-IsValid, group_candidates-raised,
}

module _ {F : Type 0} ⦃f : Float F⦄ where
  abbrev pub total : FusedResult F → ℕ
  total r = length r.candidates + r.suppressed_count + r.overflow_count

  fuse_groups-total :
      (config : FusionConfig F) (r : FusedResult F) (groups : List (List (DefectCandidate F)))
      → total (fuse_groups config r groups) ≡ total r + tally length groups
  unfolding fuse_groups extend_result
  fuse_groups-total config r [] = omega arith
  fuse_groups-total config r (g ∷ gs) = omega (
    arith,
    fuse_groups-total config (extend_result r (nms_group config g)) gs,
    length-append r.candidates (nms_group config g).kept,
    (group_counts config g).0,
  )

  pub fuse_groups-tally :
      (w : DefectCandidate F → ℕ) (config : FusionConfig F) (r : FusedResult F)
      (groups : List (List (DefectCandidate F)))
      → tally w (fuse_groups config r groups).candidates
        ≡ tally w r.candidates + tally (λ g. tally w (nms_group config g).kept) groups
  unfolding fuse_groups extend_result
  fuse_groups-tally w config r [] = omega arith
  fuse_groups-tally w config r (g ∷ gs) = omega (
    arith,
    fuse_groups-tally w config (extend_result r (nms_group config g)) gs,
    tally-append w r.candidates (nms_group config g).kept,
  )

  fuse_groups-All :
      (P : DefectCandidate F → Type 0) (config : FusionConfig F) (r : FusedResult F)
      (groups : List (List (DefectCandidate F)))
      → All (λ g. All P (nms_group config g).kept) groups
      → All P r.candidates
      → All P (fuse_groups config r groups).candidates
  unfolding fuse_groups extend_result
  fuse_groups-All P config r [] gs ps = ps
  fuse_groups-All P config r (g ∷ gs) qs ps =
      fuse_groups-All P config (extend_result r (nms_group config g)) gs qs.1
        (All-append P r.candidates (nms_group config g).kept ps qs.0)

  -- The result for given groups.
  abbrev pub fused_from : FusionConfig F → Groups F → FusedResult F
  fused_from config groups =
      let out = fuse_groups config no_result (values groups) in
      record out { candidates = sorted output_before out.candidates }

  pub fuse-eq-done :
      (cs : List (DefectCandidate F)) (config : Option (FusionConfig F)) {r : FusedResult F}
      → fuse cs config ≡ done r
      → (groups : Groups F) × (group_candidates [] cs ≡ done groups)
        × (r ≡ fused_from (chosen_config config) groups)
  unfolding fuse
  fuse-eq-done cs config h =
      let (groups, p, q) = >>=-eq-done (group_candidates [] cs) _ h in (groups, p, cc)

  pub grouped :
      (cs : List (DefectCandidate F)) {groups : Groups F}
      → group_candidates [] cs ≡ done groups
      → IsGrouped groups × (tally length (values groups) ≡ length cs)
  unfolding values
  grouped cs h =
      let (g, count) = group_candidates-IsGrouped [] cs h (record { unique = tt; belongs = tt }) in
      (g, omega arith)

  fuse_of_groups :
      (cs : List (DefectCandidate F)) (config : Option (FusionConfig F)) {groups : Groups F}
      → group_candidates [] cs ≡ done groups
      → fuse cs config ≡ done (fused_from (chosen_config config) groups)
  unfolding fuse
  fuse_of_groups cs config p = rw p refl

  -- If `fuse` returns, every candidate of the input is accounted for: the candidates that it
  -- returns, those merged into another one, and those dropped over the limit add up to the input.
  pub fuse-total :
      (cs : List (DefectCandidate F)) (config : Option (FusionConfig F)) {r : FusedResult F}
      → fuse cs config ≡ done r
      → length r.candidates + r.suppressed_count + r.overflow_count ≡ length cs
  fuse-total cs config h =
      let (groups, p, e) = fuse-eq-done cs config h in
      let out = fuse_groups (chosen_config config) no_result (values groups) in
      rw e (
        omega (
          arith,
          fuse_groups-total (chosen_config config) no_result (values groups),
          (grouped cs p).1,
          length-sorted output_before out.candidates,
        ))

  -- `fuse` returns a result exactly when every candidate passes the tests of `_validate_candidate`.
  pub fuse_done_iff :
      (cs : List (DefectCandidate F)) (config : Option (FusionConfig F))
      → ((r : FusedResult F) × (fuse cs config ≡ done r)) ↔ All IsValid cs
  fuse_done_iff cs config = (
    λ h. group_candidates-IsValid [] cs (fuse-eq-done cs config h.1).1,
    λ vs.
        let (groups, p) = group_candidates-total [] cs vs in
        (fused_from (chosen_config config) groups, fuse_of_groups cs config p),
  )

  -- If the candidates before it pass, the error of the first candidate that does not is the error of
  -- `fuse`.
  pub fuse-raised :
      (before after : List (DefectCandidate F)) (c : DefectCandidate F) (e : FusionError)
      (config : Option (FusionConfig F))
      → All IsValid before
      → validate_candidate c ≡ raised e
      → fuse (before ++ c ∷ after) config ≡ raised e
  unfolding fuse
  fuse-raised before after c e config vs h = rw (group_candidates-raised [] before after c e vs h)

  -- Every candidate that `fuse` returns passes the same tests as those of the input.
  pub fuse-IsValid :
      (cs : List (DefectCandidate F)) (config : Option (FusionConfig F)) {r : FusedResult F}
      → fuse cs config ≡ done r
      → All IsValid r.candidates
  fuse-IsValid cs config h =
      let (groups, p, e) = fuse-eq-done cs config h in
      let out = fuse_groups (chosen_config config) no_result (values groups) in
      let valid = (grouped cs p).0.belongs in
      rw e (
        All-sorted output_before IsValid out.candidates (
          fuse_groups-All IsValid (chosen_config config) no_result (values groups)
            (All-values _ groups (
              All-map _ _ groups
                (λ kc bs.
                  nms_group-All (chosen_config config) IsValid merge_candidates-IsValid kc.1
                    (All-map _ _ kc.1 (λ c b. b.0) bs))
                valid))
            tt))

  -- A property that a merge keeps holds of all of the output, if it holds of all of the input.
  pub fuse-All :
      (P : DefectCandidate F → Type 0)
      → ((a b : DefectCandidate F) → P a → P b → P (merge_candidates a b))
      → (cs : List (DefectCandidate F)) (config : Option (FusionConfig F)) {r : FusedResult F}
      → fuse cs config ≡ done r
      → All P cs
      → All P r.candidates
  fuse-All P merged cs config h ps =
      let (groups, p, e) = fuse-eq-done cs config h in
      let out = fuse_groups (chosen_config config) no_result (values groups) in
      rw e (
        All-sorted output_before P out.candidates (
          fuse_groups-All P (chosen_config config) no_result (values groups)
            (All-values _ groups (
              All-map _ _ groups (λ kc bs. nms_group-All (chosen_config config) P merged kc.1 bs)
                (group_candidates-All P [] cs p ps tt)))
            tt))
