-- ===== src/Fusion/Limit.antt =====
-- The limit on the candidates of one ROI.
use seat_surface_aoi.Prelude.{
  ℕ, ◌≤◌, ◌≡◌, ap, false, Option, List, [], ◌∷◌, arith, length, All, All-map, tally, Bool-cases,
  inl, inr, if◌then◌else◌,
}
use seat_surface_aoi.Prelude.Result.{done}
use seat_surface_aoi.Prelude.Dict.{values, triple_key}
use seat_surface_aoi.Prelude.Entries.{tally-values, tally-one}
use seat_surface_aoi.Prelude.Sort.{tally-sorted}
use seat_surface_aoi.Float.{Float}
use seat_surface_aoi.Types.{DefectCandidate}
use seat_surface_aoi.Config.{FusionConfig}
use seat_surface_aoi.Fusion.{
  Key, key_of, FusedResult, fuse, fuse_groups, no_result, chosen_config, nms_group, output_before,
  merge_candidates, keeper,
}
use seat_surface_aoi.Fusion.Nms.{group_counts, nms_group-All}
use seat_surface_aoi.Fusion.Output.{fuse-eq-done, grouped, fuse_groups-tally}

module _ {F : Type 0} ⦃f : Float F⦄ where
  abbrev pub at_key : Key → DefectCandidate F → ℕ
  at_key k c = if triple_key.beq (key_of c) k then 1 else 0

  pub merge-key :
      (k : Key) (a b : DefectCandidate F)
      → key_of a ≡ k
      → key_of b ≡ k
      → key_of (merge_candidates a b) ≡ k
  unfolding merge_candidates keeper
  merge-key k a b p q = elim (Bool-cases (f.le b.score a.score)) [ inl e ↦ rw e p | inr e ↦ rw e q ]

  tally-at_key :
      (k j : Key) (cs : List (DefectCandidate F))
      → All (λ c. key_of c ≡ j) cs
      → (tally (at_key k) cs ≤ length cs) × (triple_key.beq j k ≡ false → tally (at_key k) cs ≡ 0)
  tally-at_key k j [] ps = omega arith
  tally-at_key k j (c ∷ cs) ps =
      let here : at_key k c ≡ (if triple_key.beq j k then 1 else 0) =
        ap (λ q. if triple_key.beq q k then 1 else 0) ps.0 in
      ground (arith, here, tally-at_key k j cs ps.1)

  group_limit :
      (config : FusionConfig F) (k j : Key) (cs : List (DefectCandidate F))
      → All (λ c. key_of c ≡ j) cs
      → let kept = (nms_group config cs).kept in
        (tally (at_key k) kept ≤ config.max_candidates_per_roi)
        × (triple_key.beq j k ≡ false → tally (at_key k) kept ≡ 0)
  group_limit config k j cs ps =
      let kept = (nms_group config cs).kept in
      let same = nms_group-All config (λ c. key_of c ≡ j) (merge-key j) cs ps in
      let (fits, zero) = tally-at_key k j kept same in
      (omega (arith, fits, (group_counts config cs).1), zero)

  -- `fuse` returns at most `max_candidates_per_roi` candidates for one camera, pose and ROI.
  pub fuse_limit :
      (cs : List (DefectCandidate F)) (config : Option (FusionConfig F)) {r : FusedResult F}
      (k : Key)
      → fuse cs config ≡ done r
      → tally (at_key k) r.candidates ≤ (chosen_config config).max_candidates_per_roi
  fuse_limit cs config k h =
      let (groups, p, e) = fuse-eq-done cs config h in
      let chosen = chosen_config config in
      let out = fuse_groups chosen no_result (values groups) in
      let g = (grouped cs p).0 in
      let part = λ (cs : List (DefectCandidate F)). tally (at_key k) (nms_group chosen cs).kept in
      let bounds =
        All-map _
          (λ (kc : Key × List (DefectCandidate F)).
            (part kc.1 ≤ chosen.max_candidates_per_roi)
            × (triple_key.beq kc.0 k ≡ false → part kc.1 ≡ 0))
          groups (λ kc bs. group_limit chosen k kc.0 kc.1 (All-map _ _ kc.1 (λ c b. b.1) bs))
          g.belongs in
      rw e (
        omega (
          arith,
          tally-sorted output_before (at_key k) out.candidates,
          fuse_groups-tally (at_key k) chosen no_result (values groups),
          tally-values part groups,
          tally-one (λ kc. part kc.1) chosen.max_candidates_per_roi k groups g.unique bounds,
        ))
