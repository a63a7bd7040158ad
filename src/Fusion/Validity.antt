-- ===== src/Fusion/Validity.antt =====
-- What `_validate_candidate` accepts, and that a merge keeps it.
use seat_surface_aoi.Prelude.{
  ◌≡◌, refl, String, true, false, List, [], ◌∷◌, ◌++◌, arith, if◌then◌else◌, is_empty,
}
use seat_surface_aoi.Prelude.Int.{pos, ◌<ℤ◌}
use seat_surface_aoi.Prelude.Result.{done}
use seat_surface_aoi.Prelude.Dict.{string_key}
use seat_surface_aoi.Prelude.Sets.{contains, from_keys}
use seat_surface_aoi.Float.{Float}
use seat_surface_aoi.Types.{DefectCandidate}
use seat_surface_aoi.Fusion.{validate_candidate, merge_candidates, union_bbox}
use seat_surface_aoi.Fusion.Boxes.{IsOrdered, IsOrdered-outer, union_bbox-Contains, union_area_pos}

module _ {F : Type 0} ⦃f : Float F⦄ where
  pub record IsValid (c : DefectCandidate F) : Type 0 where
    pub finite : f.is_finite c.score ≡ true
    pub not_negative : f.lt c.score f.nought ≡ false
    pub at_most_one : f.lt f.one c.score ≡ false
    pub ordered : IsOrdered c.bbox_xyxy_pixel
    pub has_area : pos 0 <ℤ c.area_px
    pub has_lights : is_empty c.evidence_lights ≡ false

  pub IsValid-of_done : (c : DefectCandidate F) → validate_candidate c ≡ done tt → IsValid c
  unfolding validate_candidate
  IsValid-of_done c h = ground arith

  pub done_of_IsValid : (c : DefectCandidate F) → IsValid c → validate_candidate c ≡ done tt
  unfolding validate_candidate
  done_of_IsValid c v = ground arith

is_empty-from_keys :
    (seen xs : List String) → is_empty seen ≡ false → is_empty (from_keys seen xs) ≡ false
unfolding from_keys
is_empty-from_keys seen [] h = h
is_empty-from_keys seen (x ∷ xs) h =
    is_empty-from_keys (if contains seen x then seen else seen ++ x ∷ []) xs (kept seen h)
  where
    kept :
        (seen : List String)
        → is_empty seen ≡ false
        → is_empty (if contains seen x then seen else seen ++ x ∷ []) ≡ false
    kept [] h = cc
    kept (y ∷ ys) h = ground arith

has_lights-merge :
    (xs ys : List String) → is_empty xs ≡ false → is_empty (from_keys [] (xs ++ ys)) ≡ false
unfolding from_keys contains
has_lights-merge [] ys h = cc
has_lights-merge (x ∷ xs) ys h = is_empty-from_keys (x ∷ []) (xs ++ ys) refl

module _ {F : Type 0} ⦃f : Float F⦄ where
  pub merge_candidates-IsValid :
      (a b : DefectCandidate F) → IsValid a → IsValid b → IsValid (merge_candidates a b)
  unfolding merge_candidates
  merge_candidates-IsValid a b v w =
      let box = union_bbox a.bbox_xyxy_pixel b.bbox_xyxy_pixel in
      let covers = union_bbox-Contains a.bbox_xyxy_pixel b.bbox_xyxy_pixel in
      let fits = IsOrdered-outer box a.bbox_xyxy_pixel covers.0 v.ordered in
      record {
        finite = ground arith;
        not_negative = ground arith;
        at_most_one = ground arith;
        ordered = fits;
        has_area = union_area_pos box fits;
        has_lights = has_lights-merge a.evidence_lights b.evidence_lights v.has_lights;
      }
