-- ===== src/Filter/Thresholds.antt =====
-- What the thresholds of the filter mean.
use seat_surface_aoi.Prelude.{
  ℕ, ◌≤◌, ◌≡◌, refl, ◌↔◌, true, false, Option, none, some, List, [], ◌∷◌, arith, All, inl, inr,
  Option-cases,
}
use seat_surface_aoi.Float.{Float, IsOrdered}
use seat_surface_aoi.Protocol.Codes.{ng}
use seat_surface_aoi.Types.{DefectCandidate}
use seat_surface_aoi.Config.{DecisionThresholdConfig}
use seat_surface_aoi.Filter.{FilteredCandidate, own_or, filter_one, filter_candidates}

-- How grave the outcome for one candidate is.
abbrev pub rank : {F : Type 0} → Option (FilteredCandidate F) → ℕ
rank none = 0
rank (some x) = elim x.decision [ ng ↦ 2 | _ ↦ 1 ]

module _ {F : Type 0} ⦃f : Float F⦄ where
  -- A candidate is dropped only if its score does not reach its RECHECK threshold.
  pub dropped-low :
      (t : DecisionThresholdConfig F) (c : DefectCandidate F)
      → filter_one t c ≡ none
      → f.le (own_or c.recheck_score t.recheck_score) c.score ≡ false
  unfolding filter_one
  dropped-low t c h = ground arith

  -- Raising the score of a candidate, all else equal, never makes its outcome milder: from dropped to
  -- RECHECK to NG.
  pub rank_mono :
      (laws : IsOrdered F) (t : DecisionThresholdConfig F) (c : DefectCandidate F) (s : F)
      → f.le c.score s ≡ true
      → rank (filter_one t c) ≤ rank (filter_one t (record c { score = s }))
  unfolding filter_one
  rank_mono laws t c s h = ground (
    arith,
    laws.le_trans (own_or c.recheck_score t.recheck_score) c.score s,
    laws.le_trans (own_or c.ng_score t.ng_score) c.score s,
  )

  -- Nothing passes the filter exactly when each candidate is dropped.
  pub filter_empty_iff :
      (t : DecisionThresholdConfig F) (cs : List (DefectCandidate F))
      → (filter_candidates t cs ≡ []) ↔ All (λ c. filter_one t c ≡ none) cs
  unfolding filter_candidates
  filter_empty_iff t [] = (λ h. tt, λ h. refl)
  filter_empty_iff t (c ∷ cs) = elim (Option-cases (filter_one t c)) [
    | inl e ↦ (
      λ h. (e, (filter_empty_iff t cs).0 (ground (arith, e))),
      λ h. ground (arith, e, (filter_empty_iff t cs).1 h.1),
    )
    | inr (x, e) ↦ (λ h. absurd (ground (arith, e)), λ h. ground (arith, e, h.0))
  ]
