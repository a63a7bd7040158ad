-- ===== src/Config/Loaded.antt =====
-- What recipe_from_dict returns.
use seat_surface_aoi.Prelude.{◌≤◌, ◌≡◌, ◌≢◌, subst, String, false, not, none, List, [], arith}
use seat_surface_aoi.Prelude.Int.{ℤ, pos_part}
use seat_surface_aoi.Prelude.Dict.{Dict, get, get-put, string_key, beq_refl}
use seat_surface_aoi.Prelude.Result.{done, >>=-eq-done, done-inj}
use seat_surface_aoi.Float.{Float}
use seat_surface_aoi.Config.{
  QualityConfig, RoiLocatorConfig, RegistrationConfig, TraceConfig, FusionConfig,
  DecisionThresholdConfig, ModelConfig, Recipe,
}
use seat_surface_aoi.Config.Values.{
  Value, Fields, Prints, require, positive_int, get_field, has_field, as_ratio, literal,
  non_negative_int, non_negative_float, required_text, as_dict, bad_range, removed_field,
}
use seat_surface_aoi.Config.Validators.{validate_recipe}
use seat_surface_aoi.Config.Sections.{
  whole, section, recipe_light_order_from_dict, v4_lights_from_dict, quality_from_dict,
}
use seat_surface_aoi.Config.Stages.{
  roi_locator_from_dict, registration_from_dict, trace_from_dict, fusion_from_dict,
  decision_threshold_from_dict,
}
use seat_surface_aoi.Config.Models.{models_from_dict, add_models, default_model, with_default}
use seat_surface_aoi.Config.Schema.{
  stages_from_dict, views_from_dict, judging_from_dict, raw_models, parse_recipe, recipe_from_dict,
}
use seat_surface_aoi.Config.Wellformed.{require_iff}
use seat_surface_aoi.Config.Admissible.{IsAdmissible, validate_recipe_iff}

positive_int-pos : {F : Type 0} (v : Value F) (z : ℤ) → positive_int v ≡ done z → 1 ≤ pos_part z
unfolding positive_int
positive_int-pos v z h = ground arith

module _ {F : Type 0} ⦃f : Float F⦄ where
  abbrev pub IsOrderedThreshold : DecisionThresholdConfig F → Type 0
  IsOrderedThreshold t = f.lt t.ng_score t.recheck_score ≡ false

  decision_threshold-IsOrdered :
      (d : Fields F) (t : DecisionThresholdConfig F)
      → decision_threshold_from_dict d ≡ done t
      → IsOrderedThreshold t
  unfolding decision_threshold_from_dict
  decision_threshold-IsOrdered d t h =
      let (ng, e_ng, h0) = >>=-eq-done (as_ratio (get_field d "ng_score" (literal 7 20))) _ h in
      let (recheck, e_recheck, h1) =
        >>=-eq-done (as_ratio (get_field d "recheck_score" (literal 1 5))) _ h0 in
      let (u, e_u, h2) = >>=-eq-done (require (not (f.lt ng recheck)) bad_range) _ h1 in
      let (area, e_area, h3) =
        >>=-eq-done (non_negative_int (get_field d "min_area_px" (whole 1))) _ h2 in
      let (low, e_low, h4) =
        >>=-eq-done (non_negative_float (get_field d "min_aspect_ratio" (literal 0 1))) _ h3 in
      let (high, e_high, h5) =
        >>=-eq-done (non_negative_float (get_field d "max_aspect_ratio" (literal 0 1))) _ h4 in
      let ordered = (require_iff (not (f.lt ng recheck)) bad_range).0 e_u in ground (arith, h5)

  fusion-pos :
      (d : Fields F) (c : FusionConfig F)
      → fusion_from_dict d ≡ done c
      → 1 ≤ c.max_candidates_per_roi
  unfolding fusion_from_dict
  fusion-pos d c h =
      let (u, e_u, h0) =
        >>=-eq-done (require (not (has_field d "class_aware")) removed_field) _ h in
      let (iou, e_iou, h1) =
        >>=-eq-done (as_ratio (get_field d "iou_threshold" (literal 1 2))) _ h0 in
      let (limit, e_limit, h2) =
        >>=-eq-done (positive_int (get_field d "max_candidates_per_roi" (whole 16))) _ h1 in
      ground (
        arith,
        h2,
        positive_int-pos (get_field d "max_candidates_per_roi" (whole 16)) limit e_limit,
      )

  with_default-some :
      (models : Dict String (ModelConfig F)) (lights : List String)
      → get (with_default models lights) "default" ≢ none
  unfolding with_default
  with_default-some models lights h = ground (
    arith,
    h,
    get-put models "default" "default" (default_model lights),
    beq_refl ⦃e = string_key⦄ "default",
  )

  -- The parts of a recipe that its own sections settle: the thresholds are in order, a region has room for
  -- a candidate, and the default model is there.
  abbrev pub IsCoherent : Recipe F → Type 0
  IsCoherent r =
      IsOrderedThreshold r.decision_threshold
      × (1 ≤ r.fusion.max_candidates_per_roi)
      × (get r.models "default" ≢ none)

  module _ ⦃p : Prints F⦄ where
    models_from_dict-some :
        (d : Fields F) (lights : List String) (models : Dict String (ModelConfig F))
        → models_from_dict d lights ≡ done models
        → get models "default" ≢ none
    unfolding models_from_dict
    models_from_dict-some d lights models h =
        let (given, e, g) = >>=-eq-done (add_models d lights []) _ h in
        ground (arith, with_default-some given lights, g)

    stages-pos :
        (d : Fields F) (light_order : List String)
        (s : QualityConfig F × RoiLocatorConfig F × RegistrationConfig F × FusionConfig F)
        → stages_from_dict d light_order ≡ done s
        → 1 ≤ (s.3).max_candidates_per_roi
    unfolding stages_from_dict
    stages-pos d light_order s h =
        let (raw_quality, e_raw_quality, h0) = >>=-eq-done (section d "quality") _ h in
        let (quality, e_quality, h1) =
          >>=-eq-done (quality_from_dict raw_quality light_order) _ h0 in
        let (raw_roi_locator, e_raw_roi_locator, h2) = >>=-eq-done (section d "roi_locator") _ h1 in
        let (roi_locator, e_roi_locator, h3) =
          >>=-eq-done (roi_locator_from_dict raw_roi_locator) _ h2 in
        let (raw_registration, e_raw_registration, h4) =
          >>=-eq-done (section d "registration") _ h3 in
        let (registration, e_registration, h5) =
          >>=-eq-done (registration_from_dict raw_registration quality.required_lights) _ h4 in
        let (raw_fusion, e_raw_fusion, h6) = >>=-eq-done (section d "fusion") _ h5 in
        let (fusion, e_fusion, h7) = >>=-eq-done (fusion_from_dict raw_fusion) _ h6 in
        subst (λ s. 1 ≤ (s.3).max_candidates_per_roi) (done-inj h7)
          (fusion-pos raw_fusion fusion e_fusion)

    judging-IsOrdered :
        (d : Fields F) (light_order : List String)
        (j : DecisionThresholdConfig F × Dict String (ModelConfig F) × TraceConfig F)
        → judging_from_dict d light_order ≡ done j
        → IsOrderedThreshold (j.0) × (get (j.1) "default" ≢ none)
    unfolding judging_from_dict
    judging-IsOrdered d light_order j h =
        let (raw_decision_threshold, e_raw_decision_threshold, h0) =
          >>=-eq-done (section d "decision_threshold") _ h in
        let (threshold, e_threshold, h1) =
          >>=-eq-done (decision_threshold_from_dict raw_decision_threshold) _ h0 in
        let (given, e_given, h2) = >>=-eq-done (as_dict (raw_models d)) _ h1 in
        let (models, e_models, h3) = >>=-eq-done (models_from_dict given light_order) _ h2 in
        let (raw_trace, e_raw_trace, h4) = >>=-eq-done (section d "trace") _ h3 in
        let (trace, e_trace, h5) = >>=-eq-done (trace_from_dict raw_trace) _ h4 in
        subst (λ j. IsOrderedThreshold (j.0) × (get (j.1) "default" ≢ none)) (done-inj h5)
          (
            decision_threshold-IsOrdered raw_decision_threshold threshold e_threshold,
            models_from_dict-some given light_order models e_models,
          )

    parse_recipe-IsCoherent : (d : Fields F) (r : Recipe F) → parse_recipe d ≡ done r → IsCoherent r
    unfolding parse_recipe
    parse_recipe-IsCoherent d r h =
        let (u, e_u, h0) =
          >>=-eq-done (require (not (has_field d "thresholds")) removed_field) _ h in
        let (recipe_id, e_recipe_id, h1) = >>=-eq-done (required_text d "recipe_id") _ h0 in
        let (sku, e_sku, h2) = >>=-eq-done (required_text d "sku") _ h1 in
        let (light_order, e_light_order, h3) = >>=-eq-done (recipe_light_order_from_dict d) _ h2 in
        let (raw_v4_lights, e_raw_v4_lights, h4) = >>=-eq-done (section d "v4_lights") _ h3 in
        let (v4, e_v4, h5) = >>=-eq-done (v4_lights_from_dict raw_v4_lights light_order) _ h4 in
        let (stages, e_stages, h6) = >>=-eq-done (stages_from_dict d light_order) _ h5 in
        let (views, e_views, h7) =
          >>=-eq-done (views_from_dict d light_order (stages.2).base_light_id) _ h6 in
        let (judging, e_judging, h8) = >>=-eq-done (judging_from_dict d light_order) _ h7 in
        let (ordered, present) = judging-IsOrdered d light_order judging e_judging in
        subst IsCoherent (done-inj h8) (ordered, stages-pos d light_order stages e_stages, present)

    -- A recipe that was loaded is admissible, its thresholds are in order, a region has room for a
    -- candidate, and the default model is there.
    pub recipe_from_dict-IsAdmissible :
        (d : Fields F) (r : Recipe F) → recipe_from_dict d ≡ done r → IsAdmissible r × IsCoherent r
    unfolding recipe_from_dict
    recipe_from_dict-IsAdmissible d r h =
        let (parsed, e, h0) = >>=-eq-done (parse_recipe d) _ h in
        let (u, passed, h1) = >>=-eq-done (validate_recipe parsed) _ h0 in
        let same = done-inj h1 in
        (
          subst IsAdmissible same ((validate_recipe_iff parsed).0 passed),
          subst IsCoherent same (parse_recipe-IsCoherent d parsed e),
        )
