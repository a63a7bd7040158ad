-- ===== src/Fusion/Boxes.antt =====
-- Boxes: overlap is symmetric, and the outer rectangle of a merge covers both boxes.
use seat_surface_aoi.Prelude.{◌≡◌, arith}
use seat_surface_aoi.Prelude.Int.{
  ℤ, pos, ◌+ℤ◌, ◌-ℤ◌, ◌≤ℤ◌, ◌<ℤ◌, min_ℤ, max_ℤ, min_ℤ-bounds, max_ℤ-bounds, span_pos, *ℤ_pos,
  eq_of_parts,
}
use seat_surface_aoi.Float.{Float}
use seat_surface_aoi.Types.{Bbox}
use seat_surface_aoi.Fusion.{span, intersection, box_area, union_bbox, union_area, iou}

-- The box `outer` holds every pixel of `inner`.
pub record Contains (outer inner : Bbox) : Type 0 where
  pub left : outer.x0 ≤ℤ inner.x0
  pub top : outer.y0 ≤ℤ inner.y0
  pub right : inner.x1 ≤ℤ outer.x1
  pub bottom : inner.y1 ≤ℤ outer.y1

pub record IsOrdered (b : Bbox) : Type 0 where
  pub wide : b.x0 ≤ℤ b.x1
  pub high : b.y0 ≤ℤ b.y1

pub Contains-refl : (b : Bbox) → Contains b b
Contains-refl b = omega arith

pub Contains-trans : (a b c : Bbox) → Contains a b → Contains b c → Contains a c
Contains-trans a b c h k = omega arith

pub union_bbox-Contains : (a b : Bbox) → Contains (union_bbox a b) a × Contains (union_bbox a b) b
unfolding union_bbox
union_bbox-Contains a b = omega (
  arith,
  min_ℤ-bounds a.x0 b.x0,
  min_ℤ-bounds a.y0 b.y0,
  max_ℤ-bounds a.x1 b.x1,
  max_ℤ-bounds a.y1 b.y1,
)

pub IsOrdered-outer :
    (outer inner : Bbox) → Contains outer inner → IsOrdered inner → IsOrdered outer
IsOrdered-outer outer inner c o = omega arith

span_positive : (a b : ℤ) → a ≤ℤ b → pos 0 <ℤ span a b
unfolding span
span_positive a b h = omega (arith, span_pos a b h, max_ℤ-bounds (b -ℤ a +ℤ pos 1) (pos 0))

pub union_area_pos : (u : Bbox) → IsOrdered u → pos 0 <ℤ union_area u
unfolding union_area
union_area_pos u o =
    *ℤ_pos (span u.x0 u.x1) (span u.y0 u.y1) (span_positive u.x0 u.x1 o.wide)
      (span_positive u.y0 u.y1 o.high)

max_ℤ_comm : (a b : ℤ) → max_ℤ a b ≡ max_ℤ b a
unfolding max_ℤ
max_ℤ_comm a b = eq_of_parts _ _ (ground arith)

min_ℤ_comm : (a b : ℤ) → min_ℤ a b ≡ min_ℤ b a
unfolding min_ℤ
min_ℤ_comm a b = eq_of_parts _ _ (ground arith)

+ℤ_comm : (a b : ℤ) → a +ℤ b ≡ b +ℤ a
unfolding ◌+ℤ◌
+ℤ_comm a b = ground arith

pub intersection_comm : (a b : Bbox) → intersection a b ≡ intersection b a
unfolding intersection
intersection_comm a b =
    cc (max_ℤ_comm a.x0 b.x0, min_ℤ_comm a.x1 b.x1, max_ℤ_comm a.y0 b.y0, min_ℤ_comm a.y1 b.y1)

-- The overlap measure does not depend on the order of the two boxes.
pub iou_comm : {F : Type 0} ⦃f : Float F⦄ (a b : Bbox) → ◌≡◌ {A = F} (iou a b) (iou b a)
unfolding iou
iou_comm a b = rw (intersection_comm a b, +ℤ_comm (box_area a) (box_area b))
