-- ===== src/Shm/Described.antt =====
-- The meta data of a frame that was read, field by field.
use seat_surface_aoi.Prelude.{ℕ, ◌+◌, ◌*◌, ◌≤◌, ◌≡◌, refl, some, List, [], ◌∷◌, any}
use seat_surface_aoi.Prelude.Text.{append, decimal}
use seat_surface_aoi.Prelude.Dict.{string_key, pair_key}
use seat_surface_aoi.Prelude.Result.{done, guard-eq-done, require-eq-done}
use seat_surface_aoi.Protocol.Bytes.{Memory, load_bytes}
use seat_surface_aoi.Protocol.Codes.{
  invalid_payload, crc_mismatch, pixel_format_name, color_order_name, dtype_name,
}
use seat_surface_aoi.Protocol.Layout.{Codec, decode_cstr}
use seat_surface_aoi.Types.{View, LightFrame}
use seat_surface_aoi.Shm.Client.{load_u32, camera_id_by_index, light_id_by_index}
use seat_surface_aoi.Shm.Frames.{
  Unpacks, ReadFrame, load_u64, get_default, or_text, light_frame, make_light_frame,
}
use seat_surface_aoi.Shm.Within.{with_names-eq-done}

module _ {F : Type 0} ⦃k : Codec⦄ ⦃u : Unpacks F⦄ where
  -- The frame is the one whose meta data stand at `at`: thirteen numbers of four bytes, three of eight,
  -- the exposure, seven reals, three texts of 64 bytes, the place and the size of the image, and its
  -- checksum. The name of a camera, a pose or a light that is not given is made from its number.
  pub record IsDescribed (m : Memory) (base at : ℕ) (frame : LightFrame F) : Type 0 where
    pub camera :
        frame.camera_id
        ≡ or_text (decode_cstr (load_bytes m (at + 108) 64)) (
            get_default camera_id_by_index
              (load_u32 m (at + 0))
              (append "CAMERA_" (decimal (load_u32 m (at + 0)))))
    pub pose :
        frame.pose_id
        ≡ or_text
            (decode_cstr (load_bytes m (at + 172) 64))
            (append "POSE_" (decimal (load_u32 m (at + 4))))
    pub light :
        frame.light_id
        ≡ get_default light_id_by_index
            (load_u32 m (at + 8))
            (append "LIGHT_" (decimal (load_u32 m (at + 8))))
    pub number : frame.frame_index ≡ load_u32 m (at + 12)
    pub light_place : frame.light_seq_index ≡ load_u32 m (at + 16)
    pub width : frame.width ≡ load_u32 m (at + 20)
    pub height : frame.height ≡ load_u32 m (at + 24)
    pub channels : frame.channels ≡ load_u32 m (at + 28)
    pub stride : frame.stride_bytes ≡ load_u32 m (at + 32)
    pub pixels : pixel_format_name (load_u32 m (at + 36)) ≡ some frame.pixel_format
    pub depth : frame.bit_depth ≡ load_u32 m (at + 40)
    pub colors : color_order_name (load_u32 m (at + 44)) ≡ some frame.color_order
    pub numbers : dtype_name (load_u32 m (at + 48)) ≡ some frame.dtype
    pub taken : frame.timestamp_us ≡ load_u64 m (at + 52)
    pub shot : frame.shot_id ≡ load_u64 m (at + 60)
    pub robot_taken : frame.robot_timestamp_us ≡ load_u64 m (at + 68)
    pub exposure : frame.exposure_us ≡ load_u32 m (at + 76)
    pub gain : frame.gain ≡ u.f32_value (load_bytes m (at + 80) 4)
    pub position :
        frame.robot_tcp_xyz_mm
        ≡ u.f32_value (load_bytes m (at + 84) 4)
          ∷ u.f32_value (load_bytes m (at + 88) 4)
          ∷ u.f32_value (load_bytes m (at + 92) 4)
          ∷ []
    pub angles :
        frame.robot_rpy_deg
        ≡ u.f32_value (load_bytes m (at + 96) 4)
          ∷ u.f32_value (load_bytes m (at + 100) 4)
          ∷ u.f32_value (load_bytes m (at + 104) 4)
          ∷ []
    pub calibration : frame.calibration_id ≡ decode_cstr (load_bytes m (at + 236) 64)
    pub starts : frame.image.start ≡ base + load_u64 m (at + 300)
    pub stops : frame.image.stop ≡ base + load_u64 m (at + 300) + load_u64 m (at + 308)
    pub checksum : frame.image_crc32 ≡ load_u32 m (at + 316)

  -- The meta data of the frame are one of the entries of 324 bytes that stand between the header of the
  -- slot and the images.
  pub record IsListed (m : Memory) (base region : ℕ) (frame : LightFrame F) : Type 0 where
    pub entry : ℕ
    pub is_entry : 268 + 324 * (entry + 1) ≤ region
    pub described : IsDescribed m base (base + 268 + 324 * entry) frame

  pub make_light_frame-IsDescribed :
      (m : Memory) (at base payload region : ℕ) (ranges : List View) (r : ReadFrame F)
      → make_light_frame m at base payload region ranges ≡ done r
      → IsDescribed m base at r.frame
  unfolding make_light_frame light_frame
  make_light_frame-IsDescribed m at base payload region ranges r h =
      let (bounds, h1) = guard-eq-done _ invalid_payload _ h in
      let (free, h2) = guard-eq-done (any _ ranges) invalid_payload _ h1 in
      let (sum, h3) = require-eq-done _ crc_mismatch _ h2 in
      let (x, y, z, pixels, colors, numbers, same) =
        with_names-eq-done _ _ _ (light_frame m at base) h3 in
      rw (← same) (record {
        camera = refl;
        pose = refl;
        light = refl;
        number = refl;
        light_place = refl;
        width = refl;
        height = refl;
        channels = refl;
        stride = refl;
        pixels = pixels;
        depth = refl;
        colors = colors;
        numbers = numbers;
        taken = refl;
        shot = refl;
        robot_taken = refl;
        exposure = refl;
        gain = refl;
        position = refl;
        angles = refl;
        calibration = refl;
        starts = refl;
        stops = refl;
        checksum = refl;
      })
