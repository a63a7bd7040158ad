-- ===== src/Tests/Loading.antt =====
-- Runs of the loading of a recipe.
use seat_surface_aoi.Prelude.{◌*◌, ◌/◌, ◌≡◌, ◌↔◌, refl, true, [], ◌∷◌}
use seat_surface_aoi.Prelude.Int.{ℤ, pos, pos_part, leb_ℤ, ltb_ℤ, ◌-ℤ◌}
use seat_surface_aoi.Prelude.Dict.{string_key, pair_key}
use seat_surface_aoi.Prelude.Result.{done, raised}
use seat_surface_aoi.Float.{Float}
use seat_surface_aoi.Config.{Recipe}
use seat_surface_aoi.Config.Values.{
  Value, null, text, list, dict, Fields, end, field, Checked, Prints, tuple_value,
  light_not_required, removed_field,
}
use seat_surface_aoi.Config.Validators.{validate_recipe}
use seat_surface_aoi.Config.Wellformed.{Passes}
use seat_surface_aoi.Config.Admissible.{IsAdmissible, validate_recipe_iff}
use seat_surface_aoi.Config.Schema.{recipe_from_dict}
use seat_surface_aoi.Config.Loaded.{IsCoherent, recipe_from_dict-IsAdmissible}
use seat_surface_aoi.Tests.Deciding.{recipe}

-- A `float` of millionths.
instance abbrev micro : Float ℤ
micro = record {
  nought = pos 0;
  one = pos 1000000;
  le = leb_ℤ;
  lt = ltb_ℤ;
  neg = λ a. pos 0 -ℤ a;
  is_finite = λ a. true;
  ratio = λ a b. pos (pos_part a * 1000000 / pos_part b);
}

instance abbrev prints : Prints ℤ
prints = record { repr = λ v. "key" }

abbrev lights : Value ℤ
lights = list (tuple_value ("DIFFUSE" ∷ "POLAR" ∷ []))

abbrev with_lights : Fields ℤ → Fields ℤ
with_lights rest =
    field (text "recipe_id") (text "seat")
      (field (text "sku") (text "A1") (field (text "light_order") lights rest))

abbrev plain : Fields ℤ
plain = with_lights (field (text "cameras") (dict (field (text "TOP") (dict end) end)) end)

abbrev loaded : Checked (Recipe ℤ) → Recipe ℤ
loaded (done r) = r
loaded (raised e) = recipe

abbrev plain_recipe : Recipe ℤ
plain_recipe = loaded (recipe_from_dict plain)

plain_loads : recipe_from_dict plain ≡ done plain_recipe
unfolding recipe_from_dict
plain_loads = refl

-- A field that was removed is an error, whatever else the file holds.
removed : recipe_from_dict (field (text "thresholds") null plain) ≡ raised removed_field
unfolding recipe_from_dict
removed = refl

-- The base light of a camera is a required one.
unlit :
    recipe_from_dict (
      with_lights (
        field
          (text "cameras")
          (dict (field (text "TOP") (dict (field (text "base_light_id") (text "POLAR") end)) end))
          (field
            (text "quality")
            (dict (field (text "required_lights") (list (tuple_value ("DIFFUSE" ∷ []))) end))
            end)))
    ≡ raised light_not_required
unfolding recipe_from_dict
unlit = refl

recipe_from_dict-IsAdmissible_example : IsAdmissible plain_recipe × IsCoherent plain_recipe
recipe_from_dict-IsAdmissible_example = recipe_from_dict-IsAdmissible plain plain_recipe plain_loads

validate_recipe_iff_example : Passes (validate_recipe plain_recipe) ↔ IsAdmissible plain_recipe
validate_recipe_iff_example = validate_recipe_iff plain_recipe
