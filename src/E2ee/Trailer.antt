-- ===== src/E2ee/Trailer.antt =====
-- The trailer that the codecs of encryption.go and e2ee/codec_video.go write behind the cipher
-- text: the IV, its length and the key's id.
use server_sdk_go.Prelude.{
  ℕ, ◌+◌, ◌-◌, ◌≡◌, refl, sym, ap, ◌∙◌, List, [], ◌∷◌, ◌++◌, length, take, drop, get_or, arith,
  length-append, take-append, drop-append, get_or-append,
}
use server_sdk_go.E2ee.Gcm.{iv_length}

-- The four parts of the encrypted portion, by its length and the byte before the last.
module _ (c iv : List ℕ) (kid : ℕ) (len : length iv ≡ iv_length) where
  abbrev pub whole : List ℕ
  whole = c ++ (iv ++ (iv_length ∷ kid ∷ []))

  pub length-whole : length whole ≡ length c + 14
  length-whole = omega (
    arith,
    length-append c (iv ++ (iv_length ∷ kid ∷ [])),
    length-append iv (iv_length ∷ kid ∷ []),
    len,
  )

  pub size-whole : get_or whole (length whole - 2) 0 ≡ iv_length
  size-whole =
      get_or-append c _ (length whole - 2) 12 0 (omega (arith, length-whole))
      ∙ get_or-append iv (iv_length ∷ kid ∷ []) 12 0 0 (omega (arith, len))

  pub start-whole : length whole - 2 - iv_length ≡ length c
  start-whole = omega (arith, length-whole)

  pub iv-whole : take iv_length (drop (length c) whole) ≡ iv
  iv-whole =
      ap (take iv_length) (drop-append (length c) c (iv ++ (iv_length ∷ kid ∷ [])) refl)
      ∙ take-append iv_length iv (iv_length ∷ kid ∷ []) (sym len)

  pub cipher-whole : take (length c) whole ≡ c
  cipher-whole = take-append (length c) c (iv ++ (iv_length ∷ kid ∷ [])) refl
