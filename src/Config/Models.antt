-- ===== src/Config/Models.antt =====
-- The models of a recipe in python_detector/config/recipe_schema.py.
use seat_surface_aoi.Prelude.{
  String, false, not, ◌||◌, none, some, List, [], ◌∷◌, map, str_eq, str_append, if◌then◌else◌,
}
use seat_surface_aoi.Prelude.Int.{pos}
use seat_surface_aoi.Prelude.Dict.{Dict, get, put, string_key}
use seat_surface_aoi.Prelude.Sets.{contains}
use seat_surface_aoi.Prelude.Result.{done, ◌>>=◌}
use seat_surface_aoi.Float.{Float}
use seat_surface_aoi.Config.{ModelConfig}
use seat_surface_aoi.Config.Values.{
  Value, null, bool, text, list, nil, Fields, end, field, Checked, ◌>>◌, Prints, require, get_field,
  has_field, as_text, optional_text, one_of, as_output_decode, as_bbox_format, as_dict,
  unique_text_tuple, optional_unique_text_tuple, positive_int, literal, positive_float, as_ratio,
  truth, tuple_value, removed_field, unsupported, not_positive,
}
use seat_surface_aoi.Config.Sections.{tuple, whole}
use seat_surface_aoi.Config.Cameras.{key_text}

-- _default_model_input_channels
unfoldable pub default_model_input_channels : List String → List String
default_model_input_channels light_order = map (str_append "light:") light_order

module _ {F : Type 0} ⦃f : Float F⦄ where
  -- `ModelConfig(input_channels=...)`
  unfoldable pub default_model : List String → ModelConfig F
  unfolding default_model_input_channels
  default_model light_order = record {
    backend = "fake";
    model_path = none;
    fake_mode = "auto";
    model_family = "supervised";
    role = "primary";
    input_channels = default_model_input_channels light_order;
    input_scale = f.ratio (pos 255) (pos 1);
    output_decode = "none";
    bbox_format = "xyxy_pixel";
    score_threshold = f.nought;
    embedding_backend = "none";
    embedding_model_path = none;
    embedding_version = "none";
    embedding_dim = pos 10;
    embedding_layers = [];
    pca_path = none;
    pca_version = none;
    memory_bank_path = none;
    faiss_index_path = none;
    coreset_ratio = f.one;
    knn_k = pos 1;
    spatial_mode = false;
    spatial_layers = [];
    spatial_upsample_height = pos 256;
    spatial_upsample_width = pos 256;
    anomaly_binarize_min_ratio = f.ratio (pos 1) (pos 2);
    anomaly_binarize_relative = f.ratio (pos 3) (pos 10);
  }

  -- The body of the loop of _models_from_dict.
  unfoldable pub model_from_dict : Value F → List String → Checked (ModelConfig F)
  unfolding as_dict has_field require one_of get_field unique_text_tuple
      default_model_input_channels as_ratio optional_text positive_float as_output_decode
      as_bbox_format as_text positive_int optional_unique_text_tuple truth tuple_value contains
  model_from_dict v light_order = do
    raw ← as_dict v
    require (not (has_field raw "class_names")) removed_field
    backend ←
        one_of ("fake" ∷ "onnx" ∷ "patchcore_knn" ∷ []) unsupported
          (get_field raw "backend" (text "fake"))
    model_family ←
        one_of ("supervised" ∷ "patchcore" ∷ "efficientad" ∷ "yolo_seg" ∷ []) unsupported
          (get_field raw "model_family" (text "supervised"))
    role ←
        one_of ("primary" ∷ "safety_net" ∷ []) unsupported (get_field raw "role" (text "primary"))
    require (not (str_eq backend "patchcore_knn") || str_eq model_family "patchcore") unsupported
    fake_mode ←
        one_of ("auto" ∷ "ok" ∷ "ng" ∷ "recheck" ∷ []) unsupported
          (get_field raw "fake_mode" (text "auto"))
    input_channels ←
        unique_text_tuple
          (get_field raw "input_channels" (tuple (default_model_input_channels light_order)))
    embedding_backend ←
        one_of ("none" ∷ "statistical" ∷ "onnx_wideresnet50" ∷ []) unsupported
          (get_field raw "embedding_backend" (text "none"))
    coreset_ratio ← as_ratio (get_field raw "coreset_ratio" (literal 1 1))
    require (not (f.le coreset_ratio f.nought)) not_positive
    model_path ← optional_text (get_field raw "model_path" null)
    input_scale ← positive_float (get_field raw "input_scale" (literal 255 1))
    output_decode ← as_output_decode (get_field raw "output_decode" (text "none"))
    bbox_format ← as_bbox_format (get_field raw "bbox_format" (text "xyxy_pixel"))
    score_threshold ←
        (if str_eq backend "patchcore_knn"
          then done f.nought
          else as_ratio (get_field raw "score_threshold" (literal 0 1)))
    embedding_model_path ← optional_text (get_field raw "embedding_model_path" null)
    embedding_version ← as_text (get_field raw "embedding_version" (text "none"))
    embedding_dim ← positive_int (get_field raw "embedding_dim" (whole 10))
    embedding_layers ← optional_unique_text_tuple (get_field raw "embedding_layers" (list nil))
    pca_path ← optional_text (get_field raw "pca_path" null)
    pca_version ← optional_text (get_field raw "pca_version" null)
    memory_bank_path ← optional_text (get_field raw "memory_bank_path" null)
    faiss_index_path ← optional_text (get_field raw "faiss_index_path" null)
    knn_k ← positive_int (get_field raw "knn_k" (whole 1))
    let spatial_mode = truth (get_field raw "spatial_mode" (bool false))
    spatial_layers ← optional_unique_text_tuple (get_field raw "spatial_layers" (list nil))
    spatial_upsample_height ← positive_int (get_field raw "spatial_upsample_height" (whole 32))
    spatial_upsample_width ← positive_int (get_field raw "spatial_upsample_width" (whole 32))
    anomaly_binarize_min_ratio ← as_ratio (get_field raw "anomaly_binarize_min_ratio" (literal 1 2))
    anomaly_binarize_relative ← as_ratio (get_field raw "anomaly_binarize_relative" (literal 3 10))
    done (record {
      backend = backend;
      model_path = model_path;
      fake_mode = fake_mode;
      model_family = model_family;
      role = role;
      input_channels = input_channels;
      input_scale = input_scale;
      output_decode = output_decode;
      bbox_format = bbox_format;
      score_threshold = score_threshold;
      embedding_backend = embedding_backend;
      embedding_model_path = embedding_model_path;
      embedding_version = embedding_version;
      embedding_dim = embedding_dim;
      embedding_layers = embedding_layers;
      pca_path = pca_path;
      pca_version = pca_version;
      memory_bank_path = memory_bank_path;
      faiss_index_path = faiss_index_path;
      coreset_ratio = coreset_ratio;
      knn_k = knn_k;
      spatial_mode = spatial_mode;
      spatial_layers = spatial_layers;
      spatial_upsample_height = spatial_upsample_height;
      spatial_upsample_width = spatial_upsample_width;
      anomaly_binarize_min_ratio = anomaly_binarize_min_ratio;
      anomaly_binarize_relative = anomaly_binarize_relative;
    })

  -- The default model, where no model of that name is given.
  unfoldable pub with_default :
      Dict String (ModelConfig F) → List String → Dict String (ModelConfig F)
  unfolding get put default_model
  with_default models light_order = elim (get models "default") [
    | some model ↦ models
    | none ↦ put models "default" (default_model light_order)
  ]

  -- The loop of _models_from_dict.
  unfoldable pub add_models :
      ⦃p : Prints F⦄
      → Fields F
      → List String
      → Dict String (ModelConfig F)
      → Checked (Dict String (ModelConfig F))
  unfolding model_from_dict put key_text
  add_models end light_order models = done models
  add_models (field k v d) light_order models = do
    model ← model_from_dict v light_order
    add_models d light_order (put models (key_text k) model)

  -- _models_from_dict
  unfoldable pub models_from_dict :
      ⦃p : Prints F⦄ → Fields F → List String → Checked (Dict String (ModelConfig F))
  unfolding add_models with_default
  models_from_dict d light_order = do
    models ← add_models d light_order []
    done (with_default models light_order)
