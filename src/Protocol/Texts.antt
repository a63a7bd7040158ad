-- ===== src/Protocol/Texts.antt =====
-- Packing: a text that fits survives it, and a format fixes the number of bytes.
use seat_surface_aoi.Prelude.{
  ℕ, zero, suc, ◌-◌, ◌^◌, ◌≤◌, ◌≡◌, ◌≢◌, refl, ap, ◌∙◌, String, some, List, [], ◌∷◌, ◌++◌, arith,
  length, take, replicate, All, length-append, length-take, length-replicate, map, Option-cases,
  inl, inr,
}
use seat_surface_aoi.Prelude.Int.{ℤ, pos, negsuc}
use seat_surface_aoi.Protocol.Bytes.{Bytes, length-le_bytes}
use seat_surface_aoi.Protocol.Layout.{
  Codec, IsCodec, Packs, IsPacking, as_u32, as_u64, as_i32, as_i64, as_f32, as_s64, encode_cstr,
  decode_cstr, until_nul, Field, letter, size_of, calcsize, pack, pack_field, pack_signed, append?,
}

take_all : (n : ℕ) (xs : Bytes) → length xs ≤ n → take n xs ≡ xs
take_all zero [] h = refl
take_all zero (x ∷ xs) h = absurd (omega arith)
take_all (suc n) [] h = refl
take_all (suc n) (x ∷ xs) h = ap (λ ys. x ∷ ys) (take_all n xs (omega arith))

until_nul_padded :
    (xs : Bytes) (n : ℕ) → All (λ b. b ≢ 0) xs → until_nul (xs ++ replicate (suc n) 0) ≡ xs
unfolding until_nul
until_nul_padded [] n h = refl
until_nul_padded (x ∷ xs) n h = ground (arith, h.0, until_nul_padded xs n h.1)

module _ ⦃k : Codec⦄ where
  -- A fixed-size text always takes 64 bytes.
  pub length-encode_cstr : (s : String) → length (encode_cstr s) ≡ 64
  unfolding encode_cstr
  length-encode_cstr s =
      let cut = take 63 (k.utf8 s) in
      omega (
        arith,
        length-append cut (replicate (64 - length cut) 0),
        length-replicate {A = ℕ} (64 - length cut) 0,
        length-take 63 (k.utf8 s),
      )

  -- A text whose UTF-8 form has at most 63 bytes and no zero byte is read back as it was written.
  pub decode_cstr-encode_cstr :
      (laws : IsCodec) (s : String)
      → length (k.utf8 s) ≤ 63
      → All (λ b. b ≢ 0) (k.utf8 s)
      → decode_cstr (encode_cstr s) ≡ s
  unfolding decode_cstr encode_cstr
  decode_cstr-encode_cstr laws s fits clean =
      let pad : 64 - length (k.utf8 s) ≡ suc (63 - length (k.utf8 s)) = omega arith in
      let read : until_nul (encode_cstr s) ≡ k.utf8 s =
        rw (take_all 63 (k.utf8 s) fits, pad)
          (until_nul_padded (k.utf8 s) (63 - length (k.utf8 s)) clean) in
      ap k.from_utf8 read ∙ laws.from_utf8-utf8 s

length-pad : (bs : Bytes) → length (take 64 (bs ++ replicate 64 0)) ≡ 64
length-pad bs = omega (
  arith,
  length-take 64 (bs ++ replicate 64 0),
  length-append bs (replicate 64 0),
  length-replicate {A = ℕ} 64 0,
)

length-pack_signed : (w m : ℕ) (z : ℤ) (bs : Bytes) → pack_signed w m z ≡ some bs → length bs ≡ w
unfolding pack_signed
length-pack_signed w m (pos n) bs h = ground (arith, length-le_bytes w n)
length-pack_signed w m (negsuc n) bs h = ground (arith, length-le_bytes w (m - 1 - n))

module _ {F : Type 0} ⦃k : Packs F⦄ (laws : IsPacking F) where
  length-pack_field :
      (x : Field F) (bs : Bytes) → pack_field x ≡ some bs → length bs ≡ size_of (letter x)
  unfolding pack_field
  length-pack_field (as_u32 n) bs h = ground (arith, length-le_bytes 4 n)
  length-pack_field (as_u64 n) bs h = ground (arith, length-le_bytes 8 n)
  length-pack_field (as_i32 z) bs h = length-pack_signed 4 (2 ^ 32) z bs h
  length-pack_field (as_i64 z) bs h = length-pack_signed 8 (2 ^ 64) z bs h
  length-pack_field (as_f32 x) bs h = laws.length-f32_bytes x bs h
  length-pack_field (as_s64 xs) bs h = ground (arith, length-pad xs)

  -- The packed form of a list of fields has the size of its format.
  pub length-pack :
      (xs : List (Field F)) (bs : Bytes) → pack xs ≡ some bs → length bs ≡ calcsize (map letter xs)
  unfolding pack append?
  length-pack [] bs h = let empty : [] ≡ bs = cc in rw (← empty) refl
  length-pack (x ∷ xs) bs h = elim (Option-cases (pack_field x)) [
    | inl e ↦ absurd (ground (arith, e))
    | inr (a, e) ↦ elim (Option-cases (pack xs)) [
      | inl e' ↦ absurd (ground (arith, e, e'))
      | inr (b, e') ↦
          (let whole : a ++ b ≡ bs = ground (arith, e, e') in
            rw (← whole)
              (omega (arith, length-append a b, length-pack_field x a e, length-pack xs b e')))
    ]
  ]
