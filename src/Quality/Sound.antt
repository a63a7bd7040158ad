-- ===== src/Quality/Sound.antt =====
-- Jobs that the quality gate passes.
use seat_surface_aoi.Prelude.{
  ◌≡◌, ◌≢◌, refl, not, String, Bool, true, false, none, some, List, [], ◌∷◌, ◌++◌, all, is_empty,
  str_eq, eq_iff, arith, All,
}
use seat_surface_aoi.Prelude.Dict.{get, values, string_key, pair_key}
use seat_surface_aoi.Prelude.Sets.{contains}
use seat_surface_aoi.Float.{Float, Metric}
use seat_surface_aoi.Types.{LightFrame, CameraBundle}
use seat_surface_aoi.Config.{Recipe}
use seat_surface_aoi.Config.Lookups.{accepts_camera_pose}
use seat_surface_aoi.Quality.Report.{Message}
use seat_surface_aoi.Quality.Bundle.{report_if, check_light_sequence, light_seq_by_id}
use seat_surface_aoi.Quality.Sequence.{append_empty, InOrder, check_light_sequence-InOrder}
use seat_surface_aoi.Quality.Frame.{note_if, frame_meta_messages}
use seat_surface_aoi.Quality.Gate.{
  Statistics, check_frame, failed_frame, pixel_messages, frame_reports, name_messages,
  missing_lights, check_capture_consistency, check_camera_bundle,
}
use seat_surface_aoi.Quality.Check.{view_key, is_view_seen, missing_views, view_messages}

pub report-empty : (b : Bool) (m : Message) → report_if b m ≡ [] → b ≡ false
report-empty true m h = cc
report-empty false m h = refl

pub empty-eq : {A : Type 0} (xs : List A) → is_empty xs ≡ true → xs ≡ []
empty-eq [] h = refl
empty-eq (x ∷ xs) h = cc

pub all-append :
    {A : Type 0} (p : A → Bool) (xs ys : List A)
    → all p (xs ++ ys) ≡ true
    → (all p xs ≡ true) × (all p ys ≡ true)
all-append p [] ys h = (refl, h)
all-append p (x ∷ xs) ys h = ground (arith, h, all-append p xs ys)

pub missing_views-seen :
    (seen views : List (String × String))
    → missing_views seen views ≡ []
    → All (λ v. is_view_seen seen v ≡ true) views
unfolding missing_views
missing_views-seen seen [] h = tt
missing_views-seen seen (v ∷ vs) h =
    let (now, later) = append_empty (report_if (not (is_view_seen seen v)) _) _ h in
    (
      ground (arith, report-empty (not (is_view_seen seen v)) _ now),
      missing_views-seen seen vs later,
    )

module _ {F : Type 0} ⦃f : Float F⦄ where
  missing_lights-given :
      (bundle : CameraBundle F) (ids : List String)
      → missing_lights bundle ids ≡ []
      → All (λ l. get bundle.light_frames l ≢ none) ids
  unfolding missing_lights
  missing_lights-given bundle [] h = tt
  missing_lights-given bundle (l ∷ ids) h =
      (λ e. ground (arith, h, e), missing_lights-given bundle ids (ground (arith, h)))

  -- The names under which a frame is filed are its own.
  abbrev pub IsNamed : String → String × LightFrame F → Type 0
  IsNamed camera_id entry = ((entry.1).camera_id ≡ camera_id) × ((entry.1).light_id ≡ entry.0)

  name_messages-IsNamed :
      (camera_id : String) (frames : List (String × LightFrame F))
      → name_messages camera_id frames ≡ []
      → All (IsNamed camera_id) frames
  unfolding name_messages
  name_messages-IsNamed camera_id [] h = tt
  name_messages-IsNamed camera_id ((l, x) ∷ xs) h =
      let (a, h1) = append_empty (report_if (not (str_eq x.camera_id camera_id)) _) _ h in
      let (b, h2) = append_empty (report_if (not (str_eq x.light_id l)) _) _ h1 in
      (
        (
          ground (
            arith,
            report-empty (not (str_eq x.camera_id camera_id)) _ a,
            eq_iff x.camera_id camera_id,
          ),
          ground (arith, report-empty (not (str_eq x.light_id l)) _ b, eq_iff x.light_id l),
        ),
        name_messages-IsNamed camera_id xs h2,
      )

  module _ (stats : Statistics F) (recipe : Recipe F) where
    -- What the gate asks of a frame: its meta data are in order, and what is measured of its pixels lies
    -- within the limits of the recipe.
    pub record IsClear (frame : LightFrame F) : Type 0 where
      pub meta : frame_meta_messages frame ≡ []
      pub not_saturated :
          f.lt recipe.quality.max_saturation_ratio (stats.saturation_ratio frame) ≡ false
      pub not_dark : f.lt recipe.quality.max_dark_ratio (stats.dark_ratio frame) ≡ false
      pub not_too_dim : f.lt (stats.mean_gray frame) recipe.quality.min_mean_gray ≡ false
      pub not_too_bright : f.lt recipe.quality.max_mean_gray (stats.mean_gray frame) ≡ false
      pub sharp : f.lt (stats.sharpness frame) recipe.quality.min_sharpness ≡ false
      pub still : f.lt (stats.motion_gradient frame) recipe.quality.min_motion_gradient ≡ false

    check_frame-IsClear :
        (frame : LightFrame F) → (check_frame stats frame recipe).is_pass ≡ true → IsClear frame
    unfolding check_frame failed_frame pixel_messages note_if
    check_frame-IsClear frame h = record {
      meta = empty-eq (frame_meta_messages frame) (ground (arith, h));
      not_saturated = ground (arith, h);
      not_dark = ground (arith, h);
      not_too_dim = ground (arith, h);
      not_too_bright = ground (arith, h);
      sharp = ground (arith, h);
      still = ground (arith, h);
    }

    frame_reports-IsClear :
        (frames : List (String × LightFrame F))
        → all (λ r. r.is_pass) (frame_reports stats frames recipe) ≡ true
        → All (λ e. IsClear (e.1)) frames
    unfolding frame_reports
    frame_reports-IsClear [] h = tt
    frame_reports-IsClear ((l, x) ∷ xs) h =
        (check_frame-IsClear x (ground (arith, h)), frame_reports-IsClear xs (ground (arith, h)))

    module _ ⦃g : Metric F⦄ where
      -- A bundle that the gate passes: every required light has a frame, the lights came in the order of
      -- the recipe, and each frame is filed under its own names and is clear.
      pub record IsSound (bundle : CameraBundle F) : Type 0 where
        pub lit : All (λ l. get bundle.light_frames l ≢ none) recipe.quality.required_lights
        pub in_order :
            InOrder (light_seq_by_id 0 [] recipe.light_order) (values bundle.light_frames)
        pub named : All (IsNamed bundle.camera_id) bundle.light_frames
        pub clear : All (λ e. IsClear (e.1)) bundle.light_frames
        pub is_accepted :
            accepts_camera_pose recipe ((view_key bundle).0) (some ((view_key bundle).1)) ≡ true

      pub bundle-IsSound :
          (seen : List (String × String)) (bundle : CameraBundle F) (required : Bool)
          → view_messages stats recipe seen bundle ≡ []
          → (check_camera_bundle stats bundle recipe required).0 ≡ []
          → all (λ r. r.is_pass) (check_camera_bundle stats bundle recipe required).1 ≡ true
          → (contains seen (view_key bundle) ≡ false) × IsSound bundle
      unfolding check_camera_bundle check_capture_consistency view_messages
      bundle-IsSound seen bundle required v h k =
          let (new, enabled) = append_empty (report_if (contains seen (view_key bundle)) _) _ v in
          let (lights, h1) =
            append_empty (missing_lights bundle recipe.quality.required_lights) _ h in
          let (captured, h2) =
            append_empty (check_capture_consistency bundle recipe required) _ h1 in
          let (sequence, h3) = append_empty (check_light_sequence bundle recipe) _ captured in
          let (names, h4) =
            append_empty (name_messages bundle.camera_id bundle.light_frames) _ h2 in
          (
            report-empty (contains seen (view_key bundle)) _ new,
            record {
              lit = missing_lights-given bundle recipe.quality.required_lights lights;
              in_order = check_light_sequence-InOrder bundle recipe sequence;
              named = name_messages-IsNamed bundle.camera_id bundle.light_frames names;
              clear = frame_reports-IsClear bundle.light_frames k;
              is_accepted = ground (arith, report-empty _ _ enabled);
            },
          )
