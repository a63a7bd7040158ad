-- ===== src/Config/Values.antt =====
-- The values of a recipe file, and the checks on them of python_detector/config/schema_validators.py. An
-- error is named by its message, without the field that the message names.
use seat_surface_aoi.Prelude.{
  ℕ, String, Bool, true, false, not, ◌&&◌, ◌||◌, Option, none, some, List, [], ◌∷◌, str_eq,
  if◌then◌else◌,
}
use seat_surface_aoi.Prelude.Int.{ℤ, pos, ltb_ℤ, leb_ℤ}
use seat_surface_aoi.Prelude.Dict.{string_key}
use seat_surface_aoi.Prelude.Sets.{contains}
use seat_surface_aoi.Prelude.Result.{Result, done, raised, ◌>>=◌}
use seat_surface_aoi.Float.{Float}

-- What `yaml.safe_load` returns. A key of a dictionary is a value too. A tuple among the defaults of the
-- source is a list.
mutual
  pub data Value (F : Type 0) : Type 0 where
    null : Value F
    bool : Bool → Value F
    int : ℤ → Value F
    float : F → Value F
    text : String → Value F
    list : Items F → Value F
    dict : Fields F → Value F

  pub data Items (F : Type 0) : Type 0 where
    nil : Items F
    cons : Value F → Items F → Items F

  pub data Fields (F : Type 0) : Type 0 where
    end : Fields F
    field : Value F → Value F → Fields F → Fields F

pub data RecipeValidationError : Type 0 where
  missing_field not_text not_decision not_output_decode not_bbox_format not_dict :
      RecipeValidationError
  not_text_list empty_list duplicate_item not_number not_positive negative : RecipeValidationError
  not_ratio not_gray not_integer : RecipeValidationError
  empty_light_order duplicate_light light_not_in_order unsupported removed_field :
      RecipeValidationError
  missing_model_path light_not_required duplicate_view missing_required_light :
      RecipeValidationError
  unknown_model wrong_role missing_memory_bank missing_embedding : RecipeValidationError
  bad_spatial_embedding missing_spatial_layers no_camera not_cameras bad_range :
      RecipeValidationError
  unknown_recipe not_recipe : RecipeValidationError

abbrev pub Checked {ℓ} : Type ℓ → Type ℓ
Checked A = Result RecipeValidationError A

infixr 5 ◌>>◌
abbrev pub ◌>>◌ {ℓ} : {B : Type ℓ} → Checked (Unit {0}) → Checked B → Checked B
m >> k = m >>= λ _. k

-- `if not test: raise error`
unfoldable pub require : Bool → RecipeValidationError → Checked (Unit {0})
require true e = done tt
require false e = raised e

-- Python's `str` of a value that is not a text.
pub record Prints (F : Type 0) : Type 0 where
  pub repr : Value F → String

unfoldable pub not_empty : List String → Checked (List String)
not_empty [] = raised empty_list
not_empty (s ∷ ss) = done (s ∷ ss)

module _ {F : Type 0} where
  abbrev pub is_key : String → Value F → Bool
  is_key k (text s) = str_eq s k
  is_key k _ = false

  -- data.get(key); a key of the source is a text.
  unfoldable pub field_of : Fields F → String → Option (Value F)
  field_of end k = none
  field_of (field j v d) k = if is_key k j then some v else field_of d k

  unfoldable pub value_or : Option (Value F) → Value F → Value F
  value_or (some v) default = v
  value_or none default = default

  -- data.get(key, default)
  unfoldable pub get_field : Fields F → String → Value F → Value F
  unfolding field_of value_or
  get_field d k default = value_or (field_of d k) default

  unfoldable pub has_field : Fields F → String → Bool
  unfolding field_of
  has_field d k = elim (field_of d k) [ some v ↦ true | none ↦ false ]

  -- _str
  unfoldable pub as_text : Value F → Checked String
  as_text (text s) = if str_eq s "" then raised not_text else done s
  as_text _ = raised not_text

  -- _required_str
  unfoldable pub required_text : Fields F → String → Checked String
  unfolding field_of as_text
  required_text d k = elim (field_of d k) [ some v ↦ as_text v | none ↦ raised missing_field ]

  -- value in (None, "")
  abbrev pub is_unset : Value F → Bool
  is_unset null = true
  is_unset (text s) = str_eq s ""
  is_unset _ = false

  -- _optional_str
  unfoldable pub optional_text : Value F → Checked (Option String)
  unfolding as_text
  optional_text v = if is_unset v then done none else as_text v >>= λ s. done (some s)

  -- A text that is one of the given ones.
  unfoldable pub one_of : List String → RecipeValidationError → Value F → Checked String
  unfolding as_text contains
  one_of names e v = as_text v >>= λ s. if contains names s then done s else raised e

  -- _decision
  unfoldable pub as_decision : Value F → Checked String
  unfolding one_of
  as_decision = one_of ("RECHECK" ∷ "ERROR" ∷ "NG" ∷ []) not_decision

  -- _output_decode
  unfoldable pub as_output_decode : Value F → Checked String
  unfolding one_of
  as_output_decode = one_of ("none" ∷ "detection_rows" ∷ "ultralytics_yolo" ∷ []) not_output_decode

  -- _bbox_format
  unfoldable pub as_bbox_format : Value F → Checked String
  unfolding one_of
  as_bbox_format = one_of ("xyxy_pixel" ∷ "xyxy_normalized" ∷ []) not_bbox_format

  -- _dict
  unfoldable pub as_dict : Value F → Checked (Fields F)
  as_dict (dict d) = done d
  as_dict _ = raised not_dict

  -- The items of a list, each a text.
  unfoldable pub texts : Items F → Checked (List String)
  unfolding as_text
  texts nil = done []
  texts (cons v vs) = as_text v >>= λ s. texts vs >>= λ ss. done (s ∷ ss)

  -- _str_tuple
  unfoldable pub text_tuple : Value F → Checked (List String)
  unfolding texts not_empty
  text_tuple (list vs) = texts vs >>= not_empty
  text_tuple _ = raised not_text_list

-- Some item stands twice.
unfoldable pub duplicated : List String → Bool
unfolding contains
duplicated [] = false
duplicated (s ∷ ss) = contains ss s || duplicated ss

module _ {F : Type 0} where
  -- _unique_str_tuple
  unfoldable pub unique_text_tuple : Value F → Checked (List String)
  unfolding text_tuple duplicated
  unique_text_tuple v =
      text_tuple v >>= λ ss. if duplicated ss then raised duplicate_item else done ss

  -- _optional_unique_str_tuple
  unfoldable pub optional_unique_text_tuple : Value F → Checked (List String)
  unfolding unique_text_tuple
  optional_unique_text_tuple null = done []
  optional_unique_text_tuple (list nil) = done []
  optional_unique_text_tuple v = unique_text_tuple v

  -- _int; a `bool` is an `int`.
  unfoldable pub as_int : Value F → Checked ℤ
  as_int (int z) = done z
  as_int (bool true) = done (pos 1)
  as_int (bool false) = done (pos 0)
  as_int _ = raised not_integer

  -- _positive_int
  unfoldable pub positive_int : Value F → Checked ℤ
  unfolding as_int
  positive_int v = as_int v >>= λ z. if leb_ℤ z (pos 0) then raised not_positive else done z

  -- _non_negative_int
  unfoldable pub non_negative_int : Value F → Checked ℤ
  unfolding as_int
  non_negative_int v = as_int v >>= λ z. if ltb_ℤ z (pos 0) then raised negative else done z

module _ {F : Type 0} ⦃f : Float F⦄ where
  -- A `float` literal of the source, as a fraction.
  abbrev pub literal : ℕ → ℕ → Value F
  literal n d = float (f.ratio (pos n) (pos d))

  -- _float
  unfoldable pub as_float : Value F → Checked F
  as_float (float x) = done x
  as_float (int z) = done (f.ratio z (pos 1))
  as_float (bool true) = done (f.ratio (pos 1) (pos 1))
  as_float (bool false) = done (f.ratio (pos 0) (pos 1))
  as_float _ = raised not_number

  -- _positive_float
  unfoldable pub positive_float : Value F → Checked F
  unfolding as_float
  positive_float v = as_float v >>= λ x. if f.le x f.nought then raised not_positive else done x

  -- _non_negative_float
  unfoldable pub non_negative_float : Value F → Checked F
  unfolding as_float
  non_negative_float v = as_float v >>= λ x. if f.lt x f.nought then raised negative else done x

  -- _ratio
  unfoldable pub as_ratio : Value F → Checked F
  unfolding as_float
  as_ratio v =
      as_float v >>= λ x. if f.lt x f.nought || f.lt f.one x then raised not_ratio else done x

  -- _gray_value
  unfoldable pub gray_value : Value F → Checked F
  unfolding as_float
  gray_value v = as_float v >>= λ x.
      if f.lt x f.nought || f.lt (f.ratio (pos 255) (pos 1)) x then raised not_gray else done x

  -- bool(value)
  unfoldable pub truth : Value F → Bool
  truth null = false
  truth (bool b) = b
  truth (int z) = ltb_ℤ z (pos 0) || ltb_ℤ (pos 0) z
  truth (float x) = not (f.le x f.nought && f.le f.nought x)
  truth (text s) = not (str_eq s "")
  truth (list nil) = false
  truth (list (cons v vs)) = true
  truth (dict end) = false
  truth (dict (field k v d)) = true

-- A tuple of texts as the default of a field.
unfoldable pub tuple_value : {F : Type 0} → List String → Items F
tuple_value [] = nil
tuple_value (s ∷ ss) = cons (text s) (tuple_value ss)
