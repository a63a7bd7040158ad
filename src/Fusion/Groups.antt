-- ===== src/Fusion/Groups.antt =====
-- The grouping of `fuse`: every candidate lands in the group of its camera, pose and ROI, no key has
-- two groups, and the first candidate that fails validation ends the call.
use seat_surface_aoi.Prelude.{
  ◌+◌, ◌≡◌, refl, Option, none, some, List, [], ◌∷◌, ◌++◌, arith, length, All, All-append,
  length-append, tally, Option-cases, inl, inr,
}
use seat_surface_aoi.Prelude.Result.{done, raised, >>=-eq-done}
use seat_surface_aoi.Prelude.Dict.{Dict, get, values, triple_key}
use seat_surface_aoi.Prelude.Entries.{KeysUnique, KeysUnique-put, All-put, All-get, tally-put}
use seat_surface_aoi.Float.{Float}
use seat_surface_aoi.Types.{DefectCandidate}
use seat_surface_aoi.Fusion.{
  Key, key_of, add_to_group, group_candidates, validate_candidate, FusionError,
}
use seat_surface_aoi.Fusion.Validity.{IsValid, IsValid-of_done, done_of_IsValid}

abbrev pub Groups : Type 0 → Type 0
Groups F = Dict Key (List (DefectCandidate F))

module _ {F : Type 0} ⦃f : Float F⦄ where
  abbrev pub BelongsTo : Key → DefectCandidate F → Type 0
  BelongsTo k c = IsValid c × (key_of c ≡ k)

  pub record IsGrouped (groups : Groups F) : Type 0 where
    pub unique : KeysUnique groups
    pub belongs : All (λ kc. All (BelongsTo kc.0) kc.1) groups

  -- What `groups.setdefault(key, [])` holds when the candidate is appended.
  abbrev extended : Option (List (DefectCandidate F)) → DefectCandidate F → List (DefectCandidate F)
  extended o c = elim o [ none ↦ c ∷ [] | some cs ↦ cs ++ c ∷ [] ]

  extended-belongs :
      (groups : Groups F) (c : DefectCandidate F)
      → IsValid c
      → All (λ kc. All (BelongsTo kc.0) kc.1) groups
      → All (BelongsTo (key_of c)) (extended (get groups (key_of c)) c)
  extended-belongs groups c v b = elim (Option-cases (get groups (key_of c))) [
    | inl e ↦ rw e ((v, refl), tt)
    | inr (cs, e) ↦ rw e (
        All-append (BelongsTo (key_of c)) cs (c ∷ [])
          (All-get (λ kc. All (BelongsTo kc.0) kc.1) groups (key_of c) cs b e) ((v, refl), tt))
  ]

  pub add_to_group-IsGrouped :
      (groups : Groups F) (c : DefectCandidate F)
      → IsValid c
      → IsGrouped groups
      → IsGrouped (add_to_group groups c)
  unfolding add_to_group
  add_to_group-IsGrouped groups c v g = record {
    unique = KeysUnique-put groups (key_of c) _ g.unique;
    belongs =
        All-put (λ kc. All (BelongsTo kc.0) kc.1) groups (key_of c) _ g.belongs
          (extended-belongs groups c v g.belongs);
  }

  pub tally-add_to_group :
      (groups : Groups F) (c : DefectCandidate F)
      → tally length (values (add_to_group groups c)) ≡ tally length (values groups) + 1
  unfolding add_to_group
  tally-add_to_group groups c = elim (Option-cases (get groups (key_of c))) [
    | inl e ↦ ground (arith, e, tally-put length groups (key_of c) (c ∷ []))
    | inr (cs, e) ↦
        ground
          (arith, e, tally-put length groups (key_of c) (cs ++ c ∷ []), length-append cs (c ∷ []))
  ]

  pub group_candidates-IsGrouped :
      (groups : Groups F) (cs : List (DefectCandidate F)) {out : Groups F}
      → group_candidates groups cs ≡ done out
      → IsGrouped groups
      → IsGrouped out × (tally length (values out) ≡ tally length (values groups) + length cs)
  unfolding group_candidates
  group_candidates-IsGrouped groups [] {out} h g =
      let same : groups ≡ out = cc in rw (← same) (g, omega arith)
  group_candidates-IsGrouped groups (c ∷ cs) h g =
      let (u, p, q) = >>=-eq-done (validate_candidate c) _ h in
      let v : IsValid c = IsValid-of_done c p in
      let (ih, total) =
        group_candidates-IsGrouped (add_to_group groups c) cs q
          (add_to_group-IsGrouped groups c v g) in
      (ih, omega (arith, total, tally-add_to_group groups c))

  pub group_candidates-total :
      (groups : Groups F) (cs : List (DefectCandidate F))
      → All IsValid cs
      → (out : Groups F) × (group_candidates groups cs ≡ done out)
  unfolding group_candidates
  group_candidates-total groups [] vs = (groups, refl)
  group_candidates-total groups (c ∷ cs) vs =
      rw (done_of_IsValid c vs.0) (group_candidates-total (add_to_group groups c) cs vs.1)

  pub group_candidates-IsValid :
      (groups : Groups F) (cs : List (DefectCandidate F)) {out : Groups F}
      → group_candidates groups cs ≡ done out
      → All IsValid cs
  unfolding group_candidates
  group_candidates-IsValid groups [] h = tt
  group_candidates-IsValid groups (c ∷ cs) h =
      let (u, p, q) = >>=-eq-done (validate_candidate c) _ h in
      (IsValid-of_done c p, group_candidates-IsValid (add_to_group groups c) cs q)

  pub group_candidates-raised :
      (groups : Groups F) (before after : List (DefectCandidate F)) (c : DefectCandidate F)
      (e : FusionError)
      → All IsValid before
      → validate_candidate c ≡ raised e
      → group_candidates groups (before ++ c ∷ after) ≡ raised e
  unfolding group_candidates
  group_candidates-raised groups [] after c e vs h = rw h
  group_candidates-raised groups (b ∷ before) after c e vs h =
      rw (done_of_IsValid b vs.0)
        (group_candidates-raised (add_to_group groups b) before after c e vs.1 h)

  extended-All :
      (P : DefectCandidate F → Type 0) (groups : Groups F) (c : DefectCandidate F)
      → P c
      → All (λ kc. All P kc.1) groups
      → All P (extended (get groups (key_of c)) c)
  extended-All P groups c v b = elim (Option-cases (get groups (key_of c))) [
    | inl e ↦ rw e (v, tt)
    | inr (cs, e) ↦
        rw e
          (All-append P cs (c ∷ []) (All-get (λ kc. All P kc.1) groups (key_of c) cs b e) (v, tt))
  ]

  -- What holds of all of the input holds of all that is grouped.
  pub group_candidates-All :
      (P : DefectCandidate F → Type 0) (groups : Groups F) (cs : List (DefectCandidate F))
      {out : Groups F}
      → group_candidates groups cs ≡ done out
      → All P cs
      → All (λ kc. All P kc.1) groups
      → All (λ kc. All P kc.1) out
  unfolding group_candidates add_to_group
  group_candidates-All P groups [] {out} h ps a = let same : groups ≡ out = cc in rw (← same) a
  group_candidates-All P groups (c ∷ cs) h ps a =
      let (u, p, q) = >>=-eq-done (validate_candidate c) _ h in
      group_candidates-All P (add_to_group groups c) cs q ps.1
        (All-put (λ kc. All P kc.1) groups (key_of c) _ a (extended-All P groups c ps.0 a))
