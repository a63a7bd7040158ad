-- ===== src/Float.antt =====
-- Python's `float`, as far as the decision chain uses it: an interface, since the language has no
-- floating-point numbers. `ratio a b` is the true division `a / b` of two integers.
use seat_surface_aoi.Prelude.{◌≡◌, Bool, true, not}
use seat_surface_aoi.Prelude.Int.{ℤ}

pub record Float (F : Type 0) : Type 0 where
  pub nought : F
  pub one : F
  pub le : F → F → Bool
  pub lt : F → F → Bool
  pub neg : F → F
  pub is_finite : F → Bool
  pub ratio : ℤ → ℤ → F

-- What the comparisons of finite IEEE numbers are relied on for. A comparison with NaN is false, so
-- the laws on one argument ask that it is finite.
pub record IsOrdered (F : Type 0) ⦃f : Float F⦄ : Type 0 where
  pub le_refl : (x : F) → f.is_finite x ≡ true → f.le x x ≡ true
  pub le_trans : (x y z : F) → f.le x y ≡ true → f.le y z ≡ true → f.le x z ≡ true
  pub lt_not_le :
      (x y : F) → f.is_finite x ≡ true → f.is_finite y ≡ true → f.lt x y ≡ not (f.le y x)
  pub neg_lt : (x y : F) → f.lt (f.neg x) (f.neg y) ≡ f.lt y x
  pub lt_le : (x y : F) → f.lt x y ≡ true → f.le x y ≡ true

-- Python's subtraction and `abs` on `float`.
pub record Metric (F : Type 0) : Type 0 where
  pub minus : F → F → F
  pub abs : F → F
