-- ===== src/Shm/Count.antt =====
-- How many frames the bundles of a job have.
use seat_surface_aoi.Prelude.{
  ℕ, zero, suc, ◌+◌, ◌≡◌, refl, String, none, List, [], ◌∷◌, ◌++◌, arith, length, tally,
  Option-cases, inl, inr,
}
use seat_surface_aoi.Prelude.Dict.{Dict, Eq, put, get, values, string_key, pair_key}
use seat_surface_aoi.Prelude.Entries.{tally-put}
use seat_surface_aoi.Prelude.Result.{Result, done, raised}
use seat_surface_aoi.Protocol.Codes.{ErrorCode}
use seat_surface_aoi.Protocol.Layout.{Codec, calcsize, light_frame_meta}
use seat_surface_aoi.Types.{View, LightFrame, CameraBundle}
use seat_surface_aoi.Shm.Client.{ShmClient, remember_camera_index}
use seat_surface_aoi.Shm.Frames.{Unpacks, ReadFrame, make_light_frame}
use seat_surface_aoi.Shm.Reader.{
  Bundles, with_bundle, with_frame, add_frame, bundle_or, insert_frame, read_frames,
}

length-put_new :
    {K V : Type 0} ⦃e : Eq K⦄ (d : Dict K V) (k : K) (v : V)
    → get d k ≡ none
    → length (put d k v) ≡ length d + 1
unfolding get put
length-put_new [] k v h = omega arith
length-put_new ((j, u) ∷ d) k v h = ground (arith, h, length-put_new d k v)

module _ {F : Type 0} where
  abbrev frames_of : CameraBundle F → ℕ
  frames_of bundle = length bundle.light_frames

  -- All frames of a job.
  abbrev pub all_frames : List (CameraBundle F) → ℕ
  all_frames = tally frames_of

  insert_frame-count :
      (frame : LightFrame F) (bundle b : CameraBundle F)
      → insert_frame (get bundle.light_frames frame.light_id) bundle frame ≡ done b
      → frames_of b ≡ frames_of bundle + 1
  unfolding insert_frame
  insert_frame-count frame bundle b h =
      elim (Option-cases (get bundle.light_frames frame.light_id)) [
        | inl e ↦ ground (arith, e, h, length-put_new bundle.light_frames frame.light_id frame e)
        | inr (old, e) ↦ absurd (ground (arith, e, h))
      ]

  -- A frame that is added is one more in its bundle.
  add_frame-count :
      (bundles : Bundles F) (key : String × String) (frame : LightFrame F) (b : CameraBundle F)
      → add_frame (get bundles key) frame ≡ done b
      → all_frames (values (put bundles key b)) ≡ all_frames (values bundles) + 1
  unfolding add_frame bundle_or
  add_frame-count bundles key frame b h = elim (Option-cases (get bundles key)) [
    | inl e ↦ ground (
      arith,
      e,
      tally-put frames_of bundles key b,
      insert_frame-count frame (bundle_or none frame) b,
    )
    | inr (old, e) ↦
        ground (arith, e, tally-put frames_of bundles key b, insert_frame-count frame old b)
  ]

  with_bundle-count :
      (n : ℕ) (rest : ShmClient → Bundles F → ShmClient × Result ErrorCode (Bundles F))
      (c : ShmClient) (bundles out : Bundles F) (key : String × String) (frame : LightFrame F)
      (r : Result ErrorCode (CameraBundle F))
      → ((now : Bundles F)
          → (rest c now).1 ≡ done out
          → all_frames (values out) ≡ all_frames (values now) + n)
      → add_frame (get bundles key) frame ≡ r
      → (with_bundle rest c bundles key r).1 ≡ done out
      → all_frames (values out) ≡ all_frames (values bundles) + suc n
  unfolding with_bundle
  with_bundle-count n rest c bundles out key frame (raised x) later e h = cc
  with_bundle-count n rest c bundles out key frame (done b) later e h =
      omega (arith, later (put bundles key b) h, add_frame-count bundles key frame b e)

  with_frame-count :
      (n : ℕ) (rest : List View → ShmClient → Bundles F → ShmClient × Result ErrorCode (Bundles F))
      (c : ShmClient) (ranges : List View) (bundles out : Bundles F)
      (r : Result ErrorCode (ReadFrame F))
      → ((ranges : List View) (c : ShmClient) (now : Bundles F)
          → (rest ranges c now).1 ≡ done out
          → all_frames (values out) ≡ all_frames (values now) + n)
      → (with_frame rest c ranges bundles r).1 ≡ done out
      → all_frames (values out) ≡ all_frames (values bundles) + suc n
  unfolding with_frame
  with_frame-count n rest c ranges bundles out (raised x) later h = cc
  with_frame-count n rest c ranges bundles out (done r) later h =
      let ranges' = ranges ++ (r.image_range ∷ []) in
      let now = remember_camera_index c r.frame.camera_id r.frame.pose_id r.camera_number in
      with_bundle-count n (rest ranges') now bundles out _ r.frame _ (later ranges' now) refl h

module _ {F : Type 0} ⦃k : Codec⦄ ⦃u : Unpacks F⦄ (base region payload : ℕ) where
  -- Each entry that is read gives one frame.
  read_frames-count :
      (n at : ℕ) (ranges : List View) (c : ShmClient) (bundles out : Bundles F)
      → (read_frames n at base payload region ranges c bundles).1 ≡ done out
      → all_frames (values out) ≡ all_frames (values bundles) + n
  unfolding read_frames
  read_frames-count zero at ranges c bundles out h =
      let same : bundles ≡ out = cc h in rw (← same) (omega arith)
  read_frames-count (suc n) at ranges c bundles out h =
      let next = at + calcsize light_frame_meta in
      with_frame-count n (read_frames n next base payload region) c ranges bundles out
        (make_light_frame c.frames at base payload region ranges)
        (λ later now bundles. read_frames-count n next later now bundles out) h

  pub read_all-count :
      (n at : ℕ) (ranges : List View) (c : ShmClient) (out : Bundles F)
      → (read_frames n at base payload region ranges c []).1 ≡ done out
      → all_frames (values out) ≡ n
  unfolding values
  read_all-count n at ranges c out h = omega (arith, read_frames-count n at ranges c [] out h)
