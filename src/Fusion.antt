-- ===== src/Fusion.antt =====
-- python_detector/pipeline/fusion_engine.py. The proofs are in the modules below.
pub mod Boxes
pub mod Validity
pub mod Nms
pub mod Groups
pub mod Output
pub mod Limit
pub mod Coverage
pub mod Kept
pub mod Evidence
pub mod Origin
use seat_surface_aoi.Prelude.{
  ℕ, zero, suc, ◌+◌, String, Bool, not, ◌||◌, Option, none, some, List, [], ◌∷◌, ◌++◌, ltb, str_eq,
  length, is_empty, if◌then◌else◌,
}
use seat_surface_aoi.Prelude.Int.{ℤ, pos, ◌+ℤ◌, ◌-ℤ◌, ◌*ℤ◌, min_ℤ, max_ℤ, ltb_ℤ, leb_ℤ}
use seat_surface_aoi.Prelude.Result.{Result, done, raised, ◌>>=◌}
use seat_surface_aoi.Prelude.Dict.{Dict, get, put, values, triple_key, string_key, Eq}
use seat_surface_aoi.Prelude.Sort.{sorted}
use seat_surface_aoi.Prelude.Text.{str_lt}
use seat_surface_aoi.Prelude.Sets.{from_keys}
use seat_surface_aoi.Float.{Float}
use seat_surface_aoi.Types.{Bbox, DefectCandidate}
use seat_surface_aoi.Config.{FusionConfig, default_fusion_config}

pub record FusedResult (F : Type 0) : Type 0 where
  pub candidates : List (DefectCandidate F)
  pub suppressed_count : ℕ
  pub overflow_count : ℕ

-- The `ValueError`s of `_validate_candidate`, in the order of its tests.
pub data FusionError : Type 0 where
  invalid_score invalid_bbox invalid_area no_evidence : FusionError

-- The variables of the loop in `_nms_group`.
pub record NmsState (F : Type 0) : Type 0 where
  pub kept : List (DefectCandidate F)
  pub suppressed_count : ℕ
  pub overflow_count : ℕ

abbrev pub Key : Type 0
Key = String × String × String

abbrev pub key_of : {F : Type 0} → DefectCandidate F → Key
key_of c = (c.camera_id, c.pose_id, c.roi_name)

-- max(x1 - x0 + 1, 0)
unfoldable pub span : ℤ → ℤ → ℤ
span x0 x1 = max_ℤ (x1 -ℤ x0 +ℤ pos 1) (pos 0)

unfoldable pub intersection : Bbox → Bbox → ℤ
unfolding span
intersection a b =
    span (max_ℤ a.x0 b.x0) (min_ℤ a.x1 b.x1) *ℤ span (max_ℤ a.y0 b.y0) (min_ℤ a.y1 b.y1)

unfoldable pub box_area : Bbox → ℤ
box_area a = (a.x1 -ℤ a.x0 +ℤ pos 1) *ℤ (a.y1 -ℤ a.y0 +ℤ pos 1)

-- The outer rectangle of `_merge_candidates` and its area.
unfoldable pub union_bbox : Bbox → Bbox → Bbox
union_bbox a b = record {
  x0 = min_ℤ a.x0 b.x0;
  y0 = min_ℤ a.y0 b.y0;
  x1 = max_ℤ a.x1 b.x1;
  y1 = max_ℤ a.y1 b.y1;
}

unfoldable pub union_area : Bbox → ℤ
unfolding span
union_area u = span u.x0 u.x1 *ℤ span u.y0 u.y1

-- A write at an index that `_first_overlapping_index` found.
unfoldable pub modify {ℓ} : {A : Type ℓ} → List A → ℕ → (A → A) → List A
modify [] i g = []
modify (x ∷ xs) zero g = g x ∷ xs
modify (x ∷ xs) (suc i) g = x ∷ modify xs i g

module _ {F : Type 0} ⦃f : Float F⦄ where
  open f use {nought, one, le, lt, neg, is_finite, ratio}

  -- FusionEngine._iou
  unfoldable pub iou : Bbox → Bbox → F
  unfolding intersection box_area
  iou a b =
      let inter = intersection a b in
      let union = box_area a +ℤ box_area b -ℤ inter in
      if leb_ℤ union (pos 0) then nought else ratio inter union

  -- FusionEngine._validate_candidate
  unfoldable pub validate_candidate : DefectCandidate F → Result FusionError (Unit {0})
  validate_candidate c =
      let box = c.bbox_xyxy_pixel in
      if not (is_finite c.score) || lt c.score nought || lt one c.score
      then raised invalid_score
      else if ltb_ℤ box.x1 box.x0 || ltb_ℤ box.y1 box.y0
      then raised invalid_bbox
      else if leb_ℤ c.area_px (pos 0)
      then raised invalid_area
      else if is_empty c.evidence_lights
      then raised no_evidence
      else done tt

  -- FusionEngine._merge_candidates; `keeper` is the one whose fields go into the result.
  unfoldable pub keeper : DefectCandidate F → DefectCandidate F → DefectCandidate F
  keeper primary secondary = if le secondary.score primary.score then primary else secondary

  unfoldable pub merge_candidates : DefectCandidate F → DefectCandidate F → DefectCandidate F
  unfolding keeper union_bbox union_area
  merge_candidates primary secondary =
      let box = union_bbox primary.bbox_xyxy_pixel secondary.bbox_xyxy_pixel in
      let k = keeper primary secondary in
      record {
        camera_id = k.camera_id;
        roi_name = k.roi_name;
        score = if lt primary.score secondary.score then secondary.score else primary.score;
        bbox_xyxy_pixel = box;
        area_px = union_area box;
        evidence_lights = from_keys [] (primary.evidence_lights ++ secondary.evidence_lights);
        pose_id = k.pose_id;
        recheck_score = k.recheck_score;
        ng_score = k.ng_score;
        threshold_source = k.threshold_source;
      }

  -- FusionEngine._first_overlapping_index
  unfoldable pub first_overlapping_index :
      List (DefectCandidate F) → DefectCandidate F → F → Option ℕ
  first_overlapping_index [] c threshold = none
  first_overlapping_index (k ∷ ks) c threshold =
      let rest = first_overlapping_index ks c threshold in
      if le threshold (iou k.bbox_xyxy_pixel c.bbox_xyxy_pixel)
      then some zero
      else elim rest [ none ↦ none | some i ↦ some (suc i) ]

  -- One round of the loop in FusionEngine._nms_group, with `matched_index`.
  unfoldable pub keep_or_merge :
      FusionConfig F → NmsState F → DefectCandidate F → Option ℕ → NmsState F
  keep_or_merge config s c none =
      if ltb (length s.kept) config.max_candidates_per_roi
      then record s { kept = s.kept ++ c ∷ [] }
      else record s { overflow_count = s.overflow_count + 1 }
  keep_or_merge config s c (some i) = record s {
    kept = modify s.kept i (λ k. merge_candidates k c);
    suppressed_count = s.suppressed_count + 1;
  }

  unfoldable pub nms_step : FusionConfig F → NmsState F → DefectCandidate F → NmsState F
  nms_step config s c =
      keep_or_merge config s c (first_overlapping_index s.kept c config.iou_threshold)

  unfoldable pub nms_loop : FusionConfig F → NmsState F → List (DefectCandidate F) → NmsState F
  nms_loop config s [] = s
  nms_loop config s (c ∷ cs) = nms_loop config (nms_step config s c) cs

  -- sorted(candidates, key=score, reverse=True)
  abbrev pub higher_score : DefectCandidate F → DefectCandidate F → Bool
  higher_score a b = lt b.score a.score

  -- FusionEngine._nms_group
  unfoldable pub nms_group : FusionConfig F → List (DefectCandidate F) → NmsState F
  unfolding nms_loop
  nms_group config candidates =
      nms_loop config (record { kept = []; suppressed_count = 0; overflow_count = 0 })
        (sorted higher_score candidates)

  -- groups.setdefault(key, []).append(candidate)
  unfoldable pub add_to_group :
      Dict Key (List (DefectCandidate F)) → DefectCandidate F → Dict Key (List (DefectCandidate F))
  add_to_group groups c =
      put groups (key_of c)
        (elim (get groups (key_of c)) [ none ↦ c ∷ [] | some cs ↦ cs ++ c ∷ [] ])

  -- The first loop of FusionEngine.fuse.
  unfoldable pub group_candidates :
      Dict Key (List (DefectCandidate F))
      → List (DefectCandidate F)
      → Result FusionError (Dict Key (List (DefectCandidate F)))
  group_candidates groups [] = done groups
  group_candidates groups (c ∷ cs) =
      validate_candidate c >>= λ _. group_candidates (add_to_group groups c) cs

  -- `fused.extend(kept)` and the two sums.
  unfoldable pub extend_result : FusedResult F → NmsState F → FusedResult F
  extend_result r s = record {
    candidates = r.candidates ++ s.kept;
    suppressed_count = r.suppressed_count + s.suppressed_count;
    overflow_count = r.overflow_count + s.overflow_count;
  }

  -- The second loop of FusionEngine.fuse, over `groups.values()`.
  unfoldable pub fuse_groups :
      FusionConfig F → FusedResult F → List (List (DefectCandidate F)) → FusedResult F
  fuse_groups config r [] = r
  fuse_groups config r (group ∷ groups) =
      fuse_groups config (extend_result r (nms_group config group)) groups

  -- The order of (camera_id, pose_id, roi_name, -score).
  unfoldable pub output_before : DefectCandidate F → DefectCandidate F → Bool
  output_before a b =
      if str_eq a.camera_id b.camera_id
      then (if str_eq a.pose_id b.pose_id
          then (if str_eq a.roi_name b.roi_name
              then lt (neg a.score) (neg b.score)
              else str_lt a.roi_name b.roi_name)
          else str_lt a.pose_id b.pose_id)
      else str_lt a.camera_id b.camera_id

  abbrev pub no_result : FusedResult F
  no_result = record { candidates = []; suppressed_count = 0; overflow_count = 0 }

  unfoldable pub chosen_config : Option (FusionConfig F) → FusionConfig F
  chosen_config none = default_fusion_config
  chosen_config (some config) = config

  -- FusionEngine.fuse
  unfoldable pub fuse :
      List (DefectCandidate F) → Option (FusionConfig F) → Result FusionError (FusedResult F)
  unfolding chosen_config
  fuse candidates config = group_candidates [] candidates >>= λ groups.
      (let fused = fuse_groups (chosen_config config) no_result (values groups) in
        done (record fused { candidates = sorted output_before fused.candidates }))
