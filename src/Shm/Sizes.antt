-- ===== src/Shm/Sizes.antt =====
-- How many bytes a packed result takes.
use seat_surface_aoi.Prelude.{
  ℕ, ◌+◌, ◌*◌, ◌≡◌, refl, ◌∙◌, some, List, [], ◌∷◌, ◌++◌, map, arith, length, replicate,
  length-append, length-take, length-replicate, Option-cases, inl, inr, guard-eq-some, bind-eq-some,
  ltb,
}
use seat_surface_aoi.Prelude.Int.{pos}
use seat_surface_aoi.Protocol.Bytes.{Bytes}
use seat_surface_aoi.Protocol.Layout.{
  Codec, Packs, IsPacking, Field, letter, as_i32, calcsize, max_evidence_lights, append?,
}
use seat_surface_aoi.Protocol.Texts.{length-pack}
use seat_surface_aoi.Types.{DefectResult, InspectionResult}
use seat_surface_aoi.Shm.Client.{ShmClient, Digits}
use seat_surface_aoi.Shm.Packing.{
  pack_defect, pack_defects, pack_result_meta, padded_evidence, defect_fields,
}

calcsize-append :
    {F : Type 0} (xs ys : List (Field F))
    → calcsize (map letter (xs ++ ys)) ≡ calcsize (map letter xs) + calcsize (map letter ys)
calcsize-append [] ys = omega arith
calcsize-append (x ∷ xs) ys = omega (arith, calcsize-append xs ys)

calcsize-numbers :
    (F : Type 0) (ns : List ℕ)
    → calcsize (map (letter {F = F}) (map (λ n. as_i32 (pos n)) ns)) ≡ 4 * length ns
calcsize-numbers F [] = refl
calcsize-numbers F (n ∷ ns) = omega (arith, calcsize-numbers F ns)

length-padded_evidence : (ns : List ℕ) → length (padded_evidence ns) ≡ 8
length-padded_evidence ns = omega (
  arith,
  length-take 8 (ns ++ replicate 8 0),
  length-append ns (replicate 8 0),
  length-replicate {A = ℕ} 8 0,
)

module _ {F : Type 0} ⦃k : Codec⦄ ⦃p : Packs F⦄ ⦃d : Digits⦄ where
  calcsize-defect_fields :
      (x : DefectResult F) (evidence : List ℕ) (camera area : ℕ)
      → calcsize (map letter (defect_fields x evidence camera area)) ≡ 400
  unfolding defect_fields
  calcsize-defect_fields x evidence camera area = omega (
    arith,
    calcsize-append {F = F} _ _,
    calcsize-append {F = F} _ _,
    calcsize-numbers F (padded_evidence evidence),
    length-padded_evidence evidence,
  )

  length-pack_defect :
      (laws : IsPacking F) (c : ShmClient) (x : DefectResult F) (bs : Bytes)
      → pack_defect c x ≡ some bs
      → length bs ≡ 400
  unfolding pack_defect
  length-pack_defect laws c x bs h =
      let (_, chain) = guard-eq-some (ltb max_evidence_lights (length x.evidence_lights)) _ h in
      let (evidence, _, chain') = bind-eq-some _ _ chain in
      let (camera, _, chain'') = bind-eq-some _ _ chain' in
      let (area, _, packed) = bind-eq-some _ _ chain'' in
      length-pack laws (defect_fields x evidence camera area) bs packed
      ∙ calcsize-defect_fields x evidence camera area

  pub length-pack_defects :
      (laws : IsPacking F) (c : ShmClient) (xs : List (DefectResult F)) (bs : Bytes)
      → pack_defects c xs ≡ some bs
      → length bs ≡ length xs * 400
  unfolding pack_defects append?
  length-pack_defects laws c [] bs h = ground arith
  length-pack_defects laws c (x ∷ xs) bs h = elim (Option-cases (pack_defect c x)) [
    | inl e ↦ absurd (ground (arith, e))
    | inr (a, e) ↦ elim (Option-cases (pack_defects c xs)) [
      | inl e' ↦ absurd (ground (arith, e, e'))
      | inr (b, e') ↦
          (let whole : a ++ b ≡ bs = ground (arith, e, e') in
            rw (← whole) (
              omega (
                arith,
                length-append a b,
                length-pack_defect laws c x a e,
                length-pack_defects laws c xs b e',
              )))
    ]
  ]

  pub length-pack_result_meta :
      (laws : IsPacking F) (r : InspectionResult F) (count : ℕ) (bs : Bytes)
      → pack_result_meta r count ≡ some bs
      → length bs ≡ 104
  unfolding pack_result_meta
  length-pack_result_meta laws r count bs h = length-pack laws _ bs h
