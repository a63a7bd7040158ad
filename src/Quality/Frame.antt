-- ===== src/Quality/Frame.antt =====
-- The check of a frame's meta data in python_detector/pipeline/quality_gate.py.
use native.Mathlib.Nat.{mul-le-mul_left}
use seat_surface_aoi.Prelude.{
  ℕ, ◌+◌, ◌*◌, ◌==◌, ◌≤◌, ◌<◌, ◌≡◌, refl, ◌||◌, not, Bool, true, false, List, [], ◌∷◌, arith, ltb,
  str_eq, if◌then◌else◌,
}
use seat_surface_aoi.Protocol.Bytes.{Memory}
use seat_surface_aoi.Protocol.Layout.{Codec}
use seat_surface_aoi.Types.{LightFrame}
use seat_surface_aoi.Quality.Report.{
  FrameMessage, unsupported_pixel_format, unsupported_color_order, unsupported_dtype,
  invalid_image_shape, bad_channel_count, stride_too_short,
}
use seat_surface_aoi.Shm.Within.{IsWithin}

-- A message in front of others where a test holds.
unfoldable pub note_if : Bool → FrameMessage → List FrameMessage → List FrameMessage
note_if true m ms = m ∷ ms
note_if false m ms = ms

pub note-empty :
    (b : Bool) (m : FrameMessage) (ms : List FrameMessage)
    → note_if b m ms ≡ []
    → (b ≡ false) × (ms ≡ [])
unfolding note_if
note-empty true m ms h = cc
note-empty false m ms h = (refl, h)

-- A row ends before the rows that a height counts do.
row_end : (row height stride : ℕ) → row < height → row * stride + stride ≤ stride * height
row_end row height stride h =
    omega (arith, mul-le-mul_left {m = row + 1} {n = height} stride (omega arith))

module _ {F : Type 0} where
  -- What `_frame_meta_messages` says about the shape.
  unfoldable pub shape_messages : LightFrame F → List FrameMessage
  unfolding note_if
  shape_messages frame =
      if (frame.width == 0) || (frame.height == 0) || (frame.channels == 0)
      then invalid_image_shape ∷ []
      else note_if (not (frame.channels == 1)) bad_channel_count
          (note_if (ltb frame.stride_bytes (frame.width * frame.channels)) stride_too_short [])

  -- ImageQualityGate._frame_meta_messages
  unfoldable pub frame_meta_messages : LightFrame F → List FrameMessage
  unfolding note_if shape_messages
  frame_meta_messages frame =
      note_if (not (str_eq frame.pixel_format "MONO8")) unsupported_pixel_format (
        note_if (not (str_eq frame.color_order "MONO")) unsupported_color_order (
          note_if (not (str_eq frame.dtype "UINT8") || not (frame.bit_depth == 8)) unsupported_dtype
            (shape_messages frame)))

  shape-empty :
      (frame : LightFrame F)
      → shape_messages frame ≡ []
      → (0 < frame.width)
        × (0 < frame.height)
        × (frame.channels ≡ 1)
        × (frame.width ≤ frame.stride_bytes)
  unfolding shape_messages note_if
  shape-empty frame h = ground arith

  -- A frame that was read and about whose meta data the gate has no message holds one byte for each
  -- pixel, and every pixel of its picture lies within its image.
  pub frame_meta_messages-IsWithin :
      ⦃k : Codec⦄ (m : Memory) (base region payload : ℕ) (frame : LightFrame F) (row column : ℕ)
      → IsWithin m base region payload frame
      → frame_meta_messages frame ≡ []
      → row < frame.height
      → column < frame.width
      → (frame.bit_depth ≡ 8)
        × (frame.image.start + row * frame.stride_bytes + column < frame.image.stop)
  unfolding frame_meta_messages
  frame_meta_messages-IsWithin m base region payload frame row column w h below left =
      let (_, h1) =
        note-empty (not (str_eq frame.pixel_format "MONO8")) unsupported_pixel_format _ h in
      let (_, h2) =
        note-empty (not (str_eq frame.color_order "MONO")) unsupported_color_order _ h1 in
      let (depth, h3) =
        note-empty (not (str_eq frame.dtype "UINT8") || not (frame.bit_depth == 8))
          unsupported_dtype _ h2 in
      let (_, _, channels, stride) = shape-empty frame h3 in
      (
        ground (arith, depth),
        omega (
          arith,
          row_end row frame.height frame.stride_bytes below,
          w.rows,
          w.not_empty,
          stride,
          left,
        ),
      )
