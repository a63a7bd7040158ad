-- ===== src/Shm/Within.antt =====
-- The images of a job lie within its slot, behind the meta data, and their checksums hold.
use seat_surface_aoi.Prelude.{
  ℕ, ◌+◌, ◌-◌, ◌*◌, ◌≤◌, ◌<◌, ◌≡◌, refl, ap, ◌∙◌, String, false, Option, none, some, List, arith,
  ◌==◌, ◌||◌, ltb, any, ==_iff,
}
use seat_surface_aoi.Prelude.Dict.{string_key, pair_key}
use seat_surface_aoi.Prelude.Result.{done, guard-eq-done, require-eq-done}
use seat_surface_aoi.Protocol.Bytes.{Memory, load_bytes}
use seat_surface_aoi.Protocol.Codes.{invalid_payload, crc_mismatch}
use seat_surface_aoi.Protocol.Layout.{Codec, crc32, light_frame_meta}
use seat_surface_aoi.Types.{View, LightFrame}
use seat_surface_aoi.Shm.Frames.{
  Unpacks, ReadFrame, load_u64, offset_of, with_names, light_frame, make_light_frame,
}

pub with_names-eq-done :
    {A : Type 0} (a b c : Option String) (f : String → String → String → A) {r : A}
    → with_names a b c f ≡ done r
    → (x : String) × (y : String) × (z : String) × (a ≡ some x)
      × (b ≡ some y)
      × (c ≡ some z)
      × (f x y z ≡ r)
unfolding with_names
with_names-eq-done (some a) (some b) (some c) f h = (a, b, c, refl, refl, refl, cc h)
with_names-eq-done (some a) (some b) none f h = cc
with_names-eq-done (some a) none c f h = cc
with_names-eq-done none b c f h = cc

bounds_hold :
    (off size region rows payload : ℕ)
    → (ltb off region || ltb size rows || (size == 0) || ltb payload (off + size)) ≡ false
    → (region ≤ off) × (rows ≤ size) × (0 < size) × (off + size ≤ payload)
bounds_hold off size region rows payload h = ground arith

module _ {F : Type 0} ⦃k : Codec⦄ where
  -- The image of a frame: behind the meta data, within the payload, large enough for its rows, and
  -- with the checksum that the frame carries.
  pub record IsWithin (m : Memory) (base region payload : ℕ) (frame : LightFrame F) : Type 0 where
    pub behind : base + region ≤ frame.image.start
    pub ends : frame.image.stop ≤ base + payload
    pub not_empty : frame.image.start < frame.image.stop
    pub rows : frame.stride_bytes * frame.height ≤ frame.image.stop - frame.image.start
    pub checksum :
        crc32 (load_bytes m frame.image.start (frame.image.stop - frame.image.start))
        ≡ frame.image_crc32

module _ {F : Type 0} ⦃k : Codec⦄ ⦃u : Unpacks F⦄ where
  pub make_light_frame-IsWithin :
      (m : Memory) (at base payload region : ℕ) (ranges : List View) (r : ReadFrame F)
      → make_light_frame m at base payload region ranges ≡ done r
      → IsWithin m base region payload r.frame
  unfolding make_light_frame light_frame
  make_light_frame-IsWithin m at base payload region ranges r h =
      let (bounds, h1) = guard-eq-done _ invalid_payload _ h in
      let (free, h2) = guard-eq-done (any _ ranges) invalid_payload _ h1 in
      let (sum, h3) = require-eq-done _ crc_mismatch _ h2 in
      let (x, y, z, pixels, colors, numbers, same) =
        with_names-eq-done _ _ _ (light_frame m at base) h3 in
      let off = load_u64 m (at + offset_of light_frame_meta 27) in
      let size = load_u64 m (at + offset_of light_frame_meta 28) in
      let (above, rows, some_bytes, below) = bounds_hold off size region _ payload bounds in
      let width : base + off + size - (base + off) ≡ size = omega arith in
      rw (← same) (record {
        behind = omega (arith, above);
        ends = omega (arith, below);
        not_empty = omega (arith, some_bytes);
        rows = omega (arith, rows);
        checksum = ap (λ n. crc32 (load_bytes m (base + off) n)) width ∙ (==_iff _ _).0 sum;
      })
