-- ===== src/Tests/Milli.antt =====
-- A `float` for the tests: whole thousandths, all finite.
use seat_surface_aoi.Prelude.{◌*◌, ◌/◌, ◌≡◌, true, arith}
use seat_surface_aoi.Prelude.Int.{ℤ, pos, pos_part, leb_ℤ, ltb_ℤ, ◌-ℤ◌}
use seat_surface_aoi.Float.{Float, IsOrdered}

instance abbrev pub milli : Float ℤ
milli = record {
  nought = pos 0;
  one = pos 1000;
  le = leb_ℤ;
  lt = ltb_ℤ;
  neg = λ a. pos 0 -ℤ a;
  is_finite = λ a. true;
  ratio = λ a b. pos (pos_part a * 1000 / pos_part b);
}

neg_lt_milli : (x y : ℤ) → ltb_ℤ (pos 0 -ℤ x) (pos 0 -ℤ y) ≡ ltb_ℤ y x
unfolding ◌-ℤ◌
neg_lt_milli x y = ground arith

pub milli-IsOrdered : IsOrdered ℤ
milli-IsOrdered = record {
  le_refl = λ x h. ground arith;
  le_trans = λ x y z h k. ground arith;
  lt_not_le = λ x y h k. ground arith;
  neg_lt = neg_lt_milli;
  lt_le = λ x y h. ground arith;
}
