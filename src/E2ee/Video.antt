-- ===== src/E2ee/Video.antt =====
-- e2ee/codec_video.go, and its uses in e2ee/codec_h264.go and e2ee/codec_h265.go.
pub mod RoundTrip
use server_sdk_go.Prelude.{
  ℕ, ◌+◌, ◌-◌, Bool, true, false, ◌&&◌, ◌||◌, not, List, [], ◌∷◌, ◌++◌, Option, some, none, leb,
  ltb, ◌==◌, if◌then◌else◌, length, take, drop, get_or, bytes_equal,
}
use server_sdk_go.E2ee.Gcm.{
  Gcm, CodecError, block_cipher_required, incorrect_key_length, incorrect_iv_length,
  unable_generate_iv, gcm_failed, cipher_failed, Output, bytes, nil, error, panics, iv_length,
  key_size_bytes,
}
use server_sdk_go.E2ee.Rbsp.{write_rbsp, parse_rbsp, needs_rbsp_unescaping}
use server_sdk_go.E2ee.Nalu.{find_h264_unencrypted_bytes, find_h265_unencrypted_bytes}

-- What `findUnencrypted` returns, `none` for a negative number.
abbrev pub Finder : Type 0
Finder = List ℕ → Option ℕ

-- The test `bytes.Equal(sample[len(sample)-len(sifTrailer):], sifTrailer)` with its guards.
unfoldable pub ends_with_sif : List ℕ → Option (List ℕ) → Bool
ends_with_sif sample none = false
ends_with_sif sample (some t) =
    leb (length t) (length sample) && bytes_equal (drop (length sample - length t) sample) t

unfoldable pub unescape : List ℕ → List ℕ
unescape portion = if needs_rbsp_unescaping portion then parse_rbsp portion else portion

module _ (gcm : Gcm) where
  -- What is sealed behind the header: cipher text, IV, its length and the key's id.
  unfoldable pub enc_portion : gcm.Block → (sample iv : List ℕ) (kid n : ℕ) → List ℕ
  enc_portion b sample iv kid n =
      gcm.seal b iv (drop n sample) (take n sample) ++ (iv ++ (iv_length ∷ kid ∷ []))

  -- The `none` of the IV is an error of `rand.Read`.
  unfoldable pub encrypt_video_sample :
      List ℕ → ℕ → Option gcm.Block → Finder → Option (List ℕ) → Output
  encrypt_video_sample sample kid none find iv = error block_cipher_required
  encrypt_video_sample sample kid (some b) find iv =
      if ltb (length sample) 4 then bytes sample else elim (find sample) [
        | none ↦ bytes sample
        | some n ↦ if (n == 0) || leb (length sample) n then bytes sample else elim iv [
          | none ↦ error unable_generate_iv
          | some v ↦
              if gcm.accepts_nonce_size b iv_length
              then bytes (take n sample ++ write_rbsp (enc_portion b sample v kid n))
              else error gcm_failed
        ]
      ]

  -- `decryptVideoSample` from the encrypted portion on, once it is unescaped.
  unfoldable pub open_portion : gcm.Block → (sample header portion : List ℕ) → Output
  open_portion b sample header portion =
      if ltb (length portion) (2 + iv_length)
      then bytes sample
      else let iv_size = get_or portion (length portion - 2) 0 in
        if ltb (length portion - 2) iv_size
        then error incorrect_iv_length
        else let iv_start = length portion - 2 - iv_size in
          if gcm.accepts_nonce_size b iv_size
          then elim (gcm.open_sealed b (take iv_size (drop iv_start portion))
              (take iv_start portion) header) [
                | none ↦ error gcm_failed
                | some plain ↦ bytes (header ++ plain)
              ]
          else error gcm_failed

  unfoldable pub decrypt_video_sample :
      List ℕ → Option (List ℕ) → Option gcm.Block → Finder → Output
  decrypt_video_sample sample sif none find = error block_cipher_required
  decrypt_video_sample sample sif (some b) find =
      if ltb (length sample) 4
      then bytes sample
      else if ends_with_sif sample sif
      then nil
      else elim (find sample) [
        | none ↦ bytes sample
        | some n ↦
            if (n == 0) || leb (length sample) n
            then bytes sample
            else open_portion b sample (take n sample) (unescape (drop n sample))
      ]

  -- The four functions of each codec.
  unfoldable pub encrypt_gcm_h264_sample_custom_cipher :
      List ℕ → ℕ → Option gcm.Block → Option (List ℕ) → Output
  encrypt_gcm_h264_sample_custom_cipher sample kid block iv =
      encrypt_video_sample sample kid block find_h264_unencrypted_bytes iv

  unfoldable pub decrypt_gcm_h264_sample_custom_cipher :
      List ℕ → Option (List ℕ) → Option gcm.Block → Output
  decrypt_gcm_h264_sample_custom_cipher sample sif block =
      decrypt_video_sample sample sif block find_h264_unencrypted_bytes

  unfoldable pub encrypt_gcm_h265_sample_custom_cipher :
      List ℕ → ℕ → Option gcm.Block → Option (List ℕ) → Output
  encrypt_gcm_h265_sample_custom_cipher sample kid block iv =
      encrypt_video_sample sample kid block find_h265_unencrypted_bytes iv

  unfoldable pub decrypt_gcm_h265_sample_custom_cipher :
      List ℕ → Option (List ℕ) → Option gcm.Block → Output
  decrypt_gcm_h265_sample_custom_cipher sample sif block =
      decrypt_video_sample sample sif block find_h265_unencrypted_bytes

  -- The check of the key that the functions with a key start with.
  unfoldable pub with_key : List ℕ → (Option gcm.Block → Output) → Output
  with_key key run =
      if length key == key_size_bytes
      then elim (gcm.new_cipher key) [ none ↦ error cipher_failed | some b ↦ run (some b) ]
      else error incorrect_key_length

  unfoldable pub encrypt_gcm_h264_sample :
      (sample key : List ℕ) (kid : ℕ) → Option (List ℕ) → Output
  encrypt_gcm_h264_sample sample key kid iv =
      with_key key (λ block. encrypt_gcm_h264_sample_custom_cipher sample kid block iv)

  unfoldable pub decrypt_gcm_h264_sample : (sample key : List ℕ) → Option (List ℕ) → Output
  decrypt_gcm_h264_sample sample key sif =
      with_key key (λ block. decrypt_gcm_h264_sample_custom_cipher sample sif block)

  unfoldable pub encrypt_gcm_h265_sample :
      (sample key : List ℕ) (kid : ℕ) → Option (List ℕ) → Output
  encrypt_gcm_h265_sample sample key kid iv =
      with_key key (λ block. encrypt_gcm_h265_sample_custom_cipher sample kid block iv)

  unfoldable pub decrypt_gcm_h265_sample : (sample key : List ℕ) → Option (List ℕ) → Output
  decrypt_gcm_h265_sample sample key sif =
      with_key key (λ block. decrypt_gcm_h265_sample_custom_cipher sample sif block)
