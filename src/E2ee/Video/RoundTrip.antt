-- ===== src/E2ee/Video/RoundTrip.antt =====
-- The two directions of the video codecs: e2ee/codec_video.go, codec_h264.go and codec_h265.go.
use server_sdk_go.Prelude.{
  ℕ, ◌≤◌, ◌<◌, ◌≡◌, sym, ap, ◌∙◌, true, false, ◌||◌, List, ◌++◌, Option, some, leb, ltb, ◌==◌,
  length, take, drop, arith, length-append, length-take, take-append, drop-append, take-append-drop,
  Bool-cases, Option-cases, inl, inr,
}
use server_sdk_go.E2ee.Gcm.{Gcm, GcmLaws, bytes, iv_length}
use server_sdk_go.E2ee.Rbsp.{
  write_rbsp, parse_rbsp, parse_rbsp-needs_rbsp_unescaping, parse_rbsp-write_rbsp,
  write_rbsp_longer,
}
use server_sdk_go.E2ee.Trailer.{length-whole, size-whole, start-whole, iv-whole, cipher-whole}
use server_sdk_go.E2ee.Nalu.{find_h264_unencrypted_bytes, find_h265_unencrypted_bytes}
use server_sdk_go.E2ee.Nalu.Stable.{find_h264_stable, find_h265_stable}
use server_sdk_go.E2ee.Video.{
  Finder, ends_with_sif, unescape, enc_portion, encrypt_video_sample, open_portion,
  decrypt_video_sample, encrypt_gcm_h264_sample_custom_cipher,
  decrypt_gcm_h264_sample_custom_cipher, encrypt_gcm_h265_sample_custom_cipher,
  decrypt_gcm_h265_sample_custom_cipher,
}

unescape-parse : (l : List ℕ) → unescape l ≡ parse_rbsp l
unfolding unescape
unescape-parse l = ground (arith, parse_rbsp-needs_rbsp_unescaping l)

pub unescape-write_rbsp : (l : List ℕ) → unescape (write_rbsp l) ≡ l
unescape-write_rbsp l = unescape-parse (write_rbsp l) ∙ parse_rbsp-write_rbsp l

module _ (gcm : Gcm) (laws : GcmLaws gcm) where
  open_portion-enc_portion :
      (b : gcm.Block) (e sample iv : List ℕ) (kid n : ℕ)
      → gcm.accepts_nonce_size b iv_length ≡ true
      → length iv ≡ iv_length
      → open_portion gcm b e (take n sample) (enc_portion gcm b sample iv kid n) ≡ bytes sample
  unfolding open_portion enc_portion
  open_portion-enc_portion b e sample iv kid n ok len =
      let c = gcm.seal b iv (drop n sample) (take n sample) in
      ground (
        arith,
        length-whole c iv kid len,
        size-whole c iv kid len,
        start-whole c iv kid len,
        iv-whole c iv kid len,
        cipher-whole c iv kid len,
        laws.opens b iv (drop n sample) (take n sample),
        take-append-drop n sample,
        ok,
      )

  length-enc_portion :
      (b : gcm.Block) (sample iv : List ℕ) (kid n : ℕ)
      → length iv ≡ iv_length
      → 14 ≤ length (enc_portion gcm b sample iv kid n)
  unfolding enc_portion
  length-enc_portion b sample iv kid n len =
      omega (arith, length-whole (gcm.seal b iv (drop n sample) (take n sample)) iv kid len)

  decrypt_written :
      (find : Finder) (b : gcm.Block) (h w : List ℕ) (sif : Option (List ℕ)) (n : ℕ)
      → n ≡ length h
      → 1 ≤ n
      → 14 ≤ length w
      → find (h ++ w) ≡ some n
      → ends_with_sif (h ++ w) sif ≡ false
      → decrypt_video_sample gcm (h ++ w) sif (some b) find
        ≡ open_portion gcm b (h ++ w) h (unescape w)
  unfolding decrypt_video_sample
  decrypt_written find b h w sif n len pos long f no_sif =
      ground (arith, length-append h w, take-append n h w len, drop-append n h w len, f, no_sif)

  encrypted :
      (find : Finder)
      → ((h x y : List ℕ) (n : ℕ) → n ≤ length h → find (h ++ x) ≡ some n → find (h ++ y) ≡ some n)
      → (b : gcm.Block) (sample iv e : List ℕ) (kid : ℕ) (sif : Option (List ℕ)) (n : ℕ)
      → length iv ≡ iv_length
      → find sample ≡ some n
      → 1 ≤ n
      → n < length sample
      → gcm.accepts_nonce_size b iv_length ≡ true
      → e ≡ take n sample ++ write_rbsp (enc_portion gcm b sample iv kid n)
      → ends_with_sif e sif ≡ false
      → decrypt_video_sample gcm e sif (some b) find ≡ bytes sample
  encrypted find stable b sample iv e kid sif n len f pos lt ok eq no_sif =
      let h = take n sample in
      let portion = enc_portion gcm b sample iv kid n in
      let w = write_rbsp portion in
      let len_h : n ≡ length h = omega (arith, length-take n sample) in
      let found : find (h ++ w) ≡ some n =
        stable h (drop n sample) w n (omega (arith, len_h))
          (ap find (take-append-drop n sample) ∙ f) in
      let sif_no : ends_with_sif (h ++ w) sif ≡ false =
        ap (λ x. ends_with_sif x sif) (sym eq) ∙ no_sif in
      ap (λ x. decrypt_video_sample gcm x sif (some b) find) eq
      ∙ decrypt_written find b h w sif n len_h pos
          (omega (arith, write_rbsp_longer portion, length-enc_portion b sample iv kid n len)) found
          sif_no
      ∙ ap (open_portion gcm b (h ++ w) h) (unescape-write_rbsp portion)
      ∙ open_portion-enc_portion b (h ++ w) sample iv kid n ok len

  -- Encryption either passes the sample on or writes a header of `n` bytes and a portion.
  decrypt-encrypt :
      (find : Finder)
      → ((h x y : List ℕ) (n : ℕ) → n ≤ length h → find (h ++ x) ≡ some n → find (h ++ y) ≡ some n)
      → (b : gcm.Block) (sample iv e : List ℕ) (kid : ℕ) (sif : Option (List ℕ))
      → length iv ≡ iv_length
      → encrypt_video_sample gcm sample kid (some b) find (some iv) ≡ bytes e
      → ends_with_sif e sif ≡ false
      → decrypt_video_sample gcm e sif (some b) find ≡ bytes sample
  unfolding encrypt_video_sample decrypt_video_sample
  decrypt-encrypt find stable b sample iv e kid sif len enc no_sif =
      elim (Bool-cases (ltb (length sample) 4)) [
        | inl short ↦ ground arith
        | inr long ↦ elim (Option-cases (find sample)) [
          | inl f ↦ ground arith
          | inr (n, f) ↦ elim (Bool-cases ((n == 0) || leb (length sample) n)) [
            | inl out ↦ ground arith
            | inr in_range ↦ elim (Bool-cases (gcm.accepts_nonce_size b iv_length)) [
              | inl ok ↦
                  encrypted find stable b sample iv e kid sif n len f (ground arith) (ground arith)
                    ok (ground arith) no_sif
              | inr bad ↦ ground arith
            ]
          ]
        ]
      ]

-- For every GCM that opens what it sealed, every sample, key id, IV of 12 bytes and trailer:
-- what the H.264 encryption returns without an error, and does not end in the trailer of a
-- server-injected frame, decrypts to the sample. Samples that pass through unencrypted are meant
-- too.
pub decrypt_gcm_h264_sample-encrypt_gcm_h264_sample :
    (gcm : Gcm) (laws : GcmLaws gcm) (b : gcm.Block) (sample iv e : List ℕ) (kid : ℕ)
    (sif : Option (List ℕ))
    → length iv ≡ iv_length
    → encrypt_gcm_h264_sample_custom_cipher gcm sample kid (some b) (some iv) ≡ bytes e
    → ends_with_sif e sif ≡ false
    → decrypt_gcm_h264_sample_custom_cipher gcm e sif (some b) ≡ bytes sample
unfolding encrypt_gcm_h264_sample_custom_cipher decrypt_gcm_h264_sample_custom_cipher
decrypt_gcm_h264_sample-encrypt_gcm_h264_sample gcm laws b sample iv e kid sif =
    decrypt-encrypt gcm laws find_h264_unencrypted_bytes find_h264_stable b sample iv e kid sif

-- For every GCM that opens what it sealed, every sample, key id, IV of 12 bytes and trailer:
-- what the H.265 encryption returns without an error, and does not end in the trailer of a
-- server-injected frame, decrypts to the sample. Samples that pass through unencrypted are meant
-- too.
pub decrypt_gcm_h265_sample-encrypt_gcm_h265_sample :
    (gcm : Gcm) (laws : GcmLaws gcm) (b : gcm.Block) (sample iv e : List ℕ) (kid : ℕ)
    (sif : Option (List ℕ))
    → length iv ≡ iv_length
    → encrypt_gcm_h265_sample_custom_cipher gcm sample kid (some b) (some iv) ≡ bytes e
    → ends_with_sif e sif ≡ false
    → decrypt_gcm_h265_sample_custom_cipher gcm e sif (some b) ≡ bytes sample
unfolding encrypt_gcm_h265_sample_custom_cipher decrypt_gcm_h265_sample_custom_cipher
decrypt_gcm_h265_sample-encrypt_gcm_h265_sample gcm laws b sample iv e kid sif =
    decrypt-encrypt gcm laws find_h265_unencrypted_bytes find_h265_stable b sample iv e kid sif
