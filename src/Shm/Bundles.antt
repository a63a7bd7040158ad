-- ===== src/Shm/Bundles.antt =====
-- The bundles of a job: each frame stands where it belongs, and its image lies within the slot.
use seat_surface_aoi.Prelude.{
  ℕ, zero, suc, ◌+◌, ◌*◌, ◌≤◌, ◌≡◌, refl, ap, sym, ◌∙◌, subst, arith, String, Option, none, some,
  List, [], ◌∷◌, ◌++◌, All,
}
use seat_surface_aoi.Prelude.Dict.{put, get, string_key, pair_key}
use seat_surface_aoi.Prelude.Entries.{All-put, All-get}
use seat_surface_aoi.Prelude.Result.{Result, done, raised}
use seat_surface_aoi.Protocol.Bytes.{Memory}
use seat_surface_aoi.Protocol.Codes.{ErrorCode}
use seat_surface_aoi.Protocol.Layout.{Codec, calcsize, light_frame_meta}
use seat_surface_aoi.Types.{View, LightFrame, CameraBundle}
use seat_surface_aoi.Shm.Client.{ShmClient, remember_camera_index}
use seat_surface_aoi.Shm.Frames.{Unpacks, ReadFrame, make_light_frame}
use seat_surface_aoi.Shm.Reader.{
  Bundles, with_bundle, with_frame, add_frame, bundle_or, insert_frame, read_frames,
}
use seat_surface_aoi.Shm.Within.{IsWithin, make_light_frame-IsWithin}
use seat_surface_aoi.Shm.Described.{IsDescribed, IsListed, make_light_frame-IsDescribed}

module _ {F : Type 0} ⦃k : Codec⦄ ⦃u : Unpacks F⦄ (m : Memory) (base region payload : ℕ) where
  -- The image of a frame lies within the slot, and its meta data stand in the slot.
  abbrev pub IsSeated : LightFrame F → Type 0
  IsSeated frame = IsWithin m base region payload frame × IsListed m base region frame

  -- Each frame of a bundle has the light that it stands under and the camera and the pose of the
  -- bundle, its image lies within the slot, and its meta data stand in the slot.
  abbrev pub IsHeld : CameraBundle F → Type 0
  IsHeld bundle =
      All
        (λ entry.
          (entry.1.light_id ≡ entry.0)
          × (entry.1.camera_id ≡ bundle.camera_id)
          × (entry.1.pose_id ≡ bundle.pose_id)
          × IsSeated entry.1)
        bundle.light_frames

  -- A bundle under its key.
  abbrev pub IsFiled : (String × String) × CameraBundle F → Type 0
  IsFiled (key, bundle) = (bundle.camera_id ≡ key.0) × (bundle.pose_id ≡ key.1) × IsHeld bundle

  bundle_or-IsFiled :
      (frame : LightFrame F) (found : Option (CameraBundle F))
      → ((b : CameraBundle F) → found ≡ some b → IsFiled ((frame.camera_id, frame.pose_id), b))
      → IsFiled ((frame.camera_id, frame.pose_id), bundle_or found frame)
  unfolding bundle_or
  bundle_or-IsFiled frame none h = (refl, refl, tt)
  bundle_or-IsFiled frame (some b) h = h b refl

  insert_frame-IsFiled :
      (frame : LightFrame F) (old : Option (LightFrame F)) (bundle b : CameraBundle F)
      → IsSeated frame
      → IsFiled ((frame.camera_id, frame.pose_id), bundle)
      → insert_frame old bundle frame ≡ done b
      → IsFiled ((frame.camera_id, frame.pose_id), b)
  unfolding insert_frame
  insert_frame-IsFiled frame (some old) bundle b w h e = cc
  insert_frame-IsFiled frame none bundle b w (camera, pose, held) e =
      let same : record bundle { light_frames = put bundle.light_frames frame.light_id frame } ≡ b =
        cc e in
      rw (← same) (
        camera,
        pose,
        All-put _ bundle.light_frames frame.light_id frame held (refl, sym camera, sym pose, w),
      )

  with_bundle-IsFiled :
      (rest : ShmClient → Bundles F → ShmClient × Result ErrorCode (Bundles F)) (c : ShmClient)
      (bundles out : Bundles F) (key : String × String) (r : Result ErrorCode (CameraBundle F))
      → ((b : CameraBundle F) → r ≡ done b → IsFiled (key, b))
      → ((bundles : Bundles F)
          → All IsFiled bundles
          → (rest c bundles).1 ≡ done out
          → All IsFiled out)
      → All IsFiled bundles
      → (with_bundle rest c bundles key r).1 ≡ done out
      → All IsFiled out
  unfolding with_bundle
  with_bundle-IsFiled rest c bundles out key (raised x) f g h e = cc
  with_bundle-IsFiled rest c bundles out key (done b) f g h e =
      g (put bundles key b) (All-put IsFiled bundles key b h (f b refl)) e

  with_frame-IsFiled :
      (rest : List View → ShmClient → Bundles F → ShmClient × Result ErrorCode (Bundles F))
      (c : ShmClient) (ranges : List View) (bundles out : Bundles F)
      (r : Result ErrorCode (ReadFrame F))
      → ((x : ReadFrame F) → r ≡ done x → IsSeated x.frame)
      → ((ranges : List View) (now : ShmClient) (bundles : Bundles F)
          → now.frames ≡ c.frames
          → All IsFiled bundles
          → (rest ranges now bundles).1 ≡ done out
          → All IsFiled out)
      → All IsFiled bundles
      → (with_frame rest c ranges bundles r).1 ≡ done out
      → All IsFiled out
  unfolding with_frame remember_camera_index add_frame
  with_frame-IsFiled rest c ranges bundles out (raised x) f g h e = cc
  with_frame-IsFiled rest c ranges bundles out (done r) f g h e =
      let key : String × String = (r.frame.camera_id, r.frame.pose_id) in
      let now = remember_camera_index c r.frame.camera_id r.frame.pose_id r.camera_number in
      with_bundle-IsFiled (rest (ranges ++ (r.image_range ∷ []))) now bundles out key
        (add_frame (get bundles key) r.frame)
        (λ b added.
          insert_frame-IsFiled r.frame _ _ b (f r refl)
            (bundle_or-IsFiled r.frame (get bundles key)
              (λ old found. All-get IsFiled bundles key old h found))
            added)
        (λ bundles h e. g _ now bundles refl h e) h e

module _ {F : Type 0} ⦃k : Codec⦄ ⦃u : Unpacks F⦄ (m : Memory) (base region payload : ℕ) where
  -- `i` frames are read, and `n` are left.
  pub read_frames-IsFiled :
      (n i at : ℕ) (ranges : List View) (c : ShmClient) (bundles out : Bundles F)
      → at ≡ base + 268 + 324 * i
      → 268 + 324 * (i + n) ≤ region
      → c.frames ≡ m
      → All (IsFiled m base region payload) bundles
      → (read_frames n at base payload region ranges c bundles).1 ≡ done out
      → All (IsFiled m base region payload) out
  unfolding read_frames
  read_frames-IsFiled zero i at ranges c bundles out here room s h e =
      let same : bundles ≡ out = cc e in rw (← same) h
  read_frames-IsFiled (suc n) i at ranges c bundles out here room s h e =
      with_frame-IsFiled m base region payload
        (read_frames n (at + calcsize light_frame_meta) base payload region) c ranges bundles out
        (make_light_frame c.frames at base payload region ranges)
        (λ x got.
          let read = ap (λ z. make_light_frame z at base payload region ranges) (sym s) ∙ got in
          (
            make_light_frame-IsWithin m at base payload region ranges x read,
            record {
              entry = i;
              is_entry = omega (arith, room);
              described =
                  subst (λ place. IsDescribed m base place x.frame) here
                    (make_light_frame-IsDescribed m at base payload region ranges x read);
            },
          ))
        (λ ranges now bundles same h e.
          read_frames-IsFiled n (i + 1) (at + calcsize light_frame_meta) ranges now bundles out
            (omega (arith, here)) (omega (arith, room)) (same ∙ s) h e)
        h e
