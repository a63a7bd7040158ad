-- ===== src/Fusion/Evidence.antt =====
-- Fusion loses no evidence: every candidate of the input is covered by one of the output, unless the
-- result counts an overflow.
use mathlib.Core.Path.{subst}
use seat_surface_aoi.Prelude.{
  ◌≤◌, ◌≡◌, Option, some, List, [], ◌∷◌, ◌++◌, arith, All, All-map, Any, Any-append_left,
  Any-append_right, Option-cases, inl, inr,
}
use seat_surface_aoi.Prelude.Result.{done, >>=-eq-done}
use seat_surface_aoi.Prelude.Dict.{get, put, values, triple_key}
use seat_surface_aoi.Prelude.Entries.{All-unput}
use seat_surface_aoi.Prelude.Sort.{Any-sorted}
use seat_surface_aoi.Float.{Float, IsOrdered}
use seat_surface_aoi.Types.{DefectCandidate}
use seat_surface_aoi.Config.{FusionConfig}
use seat_surface_aoi.Fusion.{
  key_of, FusedResult, fuse, extend_result, fuse_groups, no_result, chosen_config, nms_group,
  add_to_group, group_candidates, output_before, validate_candidate,
}
use seat_surface_aoi.Fusion.Groups.{Groups, BelongsTo}
use seat_surface_aoi.Fusion.Output.{fuse-eq-done, grouped}
use seat_surface_aoi.Fusion.Coverage.{Covers}
use seat_surface_aoi.Fusion.Kept.{nms_group-Covers}

module _ {F : Type 0} ⦃f : Float F⦄ where
  last_of :
      (P : DefectCandidate F → Type 0) (cs : List (DefectCandidate F)) (c : DefectCandidate F)
      → All P (cs ++ c ∷ [])
      → All P cs × P c
  last_of P [] c h = (tt, h.0)
  last_of P (d ∷ cs) c h = let (p, q) = last_of P cs c h.1 in ((h.0, p), q)

  add_to_group-back :
      (P : DefectCandidate F → Type 0) (groups : Groups F) (c : DefectCandidate F)
      → All (λ kc. All P kc.1) (add_to_group groups c)
      → P c × All (λ kc. All P kc.1) groups
  unfolding add_to_group
  add_to_group-back P groups c h = elim (Option-cases (get groups (key_of c))) [
    | inl e ↦
        (let h' : All (λ kc. All P kc.1) (put groups (key_of c) (c ∷ [])) = rw e at h in
          let (p, q) =
            All-unput (All P) groups (key_of c) (c ∷ []) (λ u eq. absurd (ground (arith, e, eq)))
              h' in
          (p.0, q))
    | inr (cs, e) ↦
        (let h' : All (λ kc. All P kc.1) (put groups (key_of c) (cs ++ c ∷ [])) = rw e at h in
          let back =
            λ (u : List (DefectCandidate F)) (eq : get groups (key_of c) ≡ some u)
                (v : All P (cs ++ c ∷ [])).
              (let same : cs ≡ u = ground (arith, e, eq) in
                subst (All P) same (last_of P cs c v).0) in
          let (p, q) = All-unput (All P) groups (key_of c) (cs ++ c ∷ []) back h' in
          ((last_of P cs c p).1, q))
  ]

  -- What holds of all that is grouped holds of all of the input.
  group_candidates-back :
      (P : DefectCandidate F → Type 0) (groups : Groups F) (cs : List (DefectCandidate F))
      {out : Groups F}
      → group_candidates groups cs ≡ done out
      → All (λ kc. All P kc.1) out
      → All P cs × All (λ kc. All P kc.1) groups
  unfolding group_candidates
  group_candidates-back P groups [] {out} h a = let same : groups ≡ out = cc in (tt, rw same a)
  group_candidates-back P groups (c ∷ cs) h a =
      let (u, p, q) = >>=-eq-done (validate_candidate c) _ h in
      let (rest, before) = group_candidates-back P (add_to_group groups c) cs q a in
      let (this, old) = add_to_group-back P groups c before in ((this, rest), old)

  fuse_groups-keeps :
      (P : DefectCandidate F → Type 0) (config : FusionConfig F) (r : FusedResult F)
      (gs : List (List (DefectCandidate F)))
      → Any P r.candidates
      → Any P (fuse_groups config r gs).candidates
  unfolding fuse_groups extend_result
  fuse_groups-keeps P config r [] h = h
  fuse_groups-keeps P config r (g ∷ gs) h =
      fuse_groups-keeps P config (extend_result r (nms_group config g)) gs
        (Any-append_left P r.candidates (nms_group config g).kept h)

  fuse_groups-overflow :
      (config : FusionConfig F) (r : FusedResult F) (gs : List (List (DefectCandidate F)))
      → r.overflow_count ≤ (fuse_groups config r gs).overflow_count
  unfolding fuse_groups extend_result
  fuse_groups-overflow config r [] = omega arith
  fuse_groups-overflow config r (g ∷ gs) =
      omega (arith, fuse_groups-overflow config (extend_result r (nms_group config g)) gs)

module _ {F : Type 0} ⦃f : Float F⦄ (laws : IsOrdered F) (config : FusionConfig F) where
  abbrev IsKept : FusedResult F → List (DefectCandidate F) → Type 0
  IsKept r = All (λ c. Any (λ out. Covers out c) r.candidates)

  fuse_groups-Covers :
      (r : FusedResult F) (gs : Groups F)
      → All (λ kc. All (BelongsTo kc.0) kc.1) gs
      → (fuse_groups config r (values gs)).overflow_count ≡ 0
      → All (λ kc. IsKept (fuse_groups config r (values gs)) kc.1) gs
  unfolding fuse_groups extend_result values
  fuse_groups-Covers r [] bs h = tt
  fuse_groups-Covers r ((k, g) ∷ gs) bs h =
      let s = nms_group config g in
      let next = extend_result r s in
      let none_lost : s.overflow_count ≡ 0 =
        omega (arith, fuse_groups-overflow config next (values gs), h) in
      (
        All-map _ _ g
            (λ c covered.
              fuse_groups-keeps (λ out. Covers out c) config next (values gs)
                (Any-append_right _ r.candidates s.kept covered))
            (nms_group-Covers laws config k g bs.0 none_lost),
        fuse_groups-Covers next gs bs.1 h,
      )

module _ {F : Type 0} ⦃f : Float F⦄ where
  -- If `fuse` returns and counts no overflow, every candidate of the input is covered by a candidate of
  -- the output: of the same camera, pose and ROI, with a box that holds its box, a score that is no
  -- lower and all its evidence lights.
  pub fuse-Covers :
      (laws : IsOrdered F) (cs : List (DefectCandidate F)) (config : Option (FusionConfig F))
      {r : FusedResult F}
      → fuse cs config ≡ done r
      → r.overflow_count ≡ 0
      → All (λ c. Any (λ out. Covers out c) r.candidates) cs
  fuse-Covers laws cs config h none_lost =
      let (groups, p, e) = fuse-eq-done cs config h in
      let chosen = chosen_config config in
      let out = fuse_groups chosen no_result (values groups) in
      let zero : out.overflow_count ≡ 0 = rw e at none_lost in
      let covered =
        group_candidates-back _ [] cs p
          (fuse_groups-Covers laws chosen no_result groups (grouped cs p).0.belongs zero) in
      rw e (
        All-map _ _ cs (λ c a. Any-sorted output_before (λ out. Covers out c) out.candidates a)
          covered.0)
