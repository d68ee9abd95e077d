-- ===== src/E2ee/Audio.antt =====
-- The audio codec of encryption.go.
pub mod RoundTrip
use server_sdk_go.Prelude.{
  ℕ, ◌+◌, ◌-◌, Bool, true, false, ◌&&◌, List, [], ◌∷◌, ◌++◌, Option, some, none, leb, ltb, ◌==◌,
  if◌then◌else◌, length, take, drop, get_or,
}
use server_sdk_go.E2ee.Gcm.{
  Gcm, CodecError, block_cipher_required, incorrect_key_length, incorrect_iv_length,
  unable_generate_iv, gcm_failed, cipher_failed, Output, bytes, nil, error, panics, iv_length,
  key_size_bytes,
}
use server_sdk_go.E2ee.Video.{ends_with_sif}

module _ (gcm : Gcm) where
  -- `none` is the nil slice, and the `none` of the IV is an error of `rand.Read`. An empty sample
  -- that is not nil ends in a panic, at `sample[:1]` or, where the capacity allows that, at
  -- `make([]byte, -1)`.
  unfoldable pub encrypt_gcm_audio_sample_custom_cipher :
      Option (List ℕ) → ℕ → Option gcm.Block → Option (List ℕ) → Output
  encrypt_gcm_audio_sample_custom_cipher sample kid none iv = error block_cipher_required
  encrypt_gcm_audio_sample_custom_cipher none kid (some b) iv = nil
  encrypt_gcm_audio_sample_custom_cipher (some []) kid (some b) iv = panics
  encrypt_gcm_audio_sample_custom_cipher (some (x ∷ plain)) kid (some b) none =
      error unable_generate_iv
  encrypt_gcm_audio_sample_custom_cipher (some (x ∷ plain)) kid (some b) (some iv) =
      if gcm.accepts_nonce_size b iv_length
      then bytes (x ∷ (gcm.seal b iv plain (x ∷ []) ++ (iv ++ (iv_length ∷ kid ∷ []))))
      else error gcm_failed

  -- The function from `frameHeader` on. `sample[len(sample)-2:]` panics below two bytes, and
  -- `make([]byte, cipherTextLength)` at a negative length.
  unfoldable pub open_audio : gcm.Block → List ℕ → Output
  open_audio b s =
      if ltb (length s) 2
      then panics
      else let iv_size = get_or s (length s - 2) 0 in
        if ltb (length s - 2) iv_size
        then error incorrect_iv_length
        else let iv_start = length s - 2 - iv_size in
          if iv_start == 0
          then panics
          else if gcm.accepts_nonce_size b iv_size
          then elim (gcm.open_sealed b (take iv_size (drop iv_start s))
              (take (iv_start - 1) (drop 1 s)) (take 1 s)) [
                | none ↦ error gcm_failed
                | some plain ↦ bytes (take 1 s ++ plain)
              ]
          else error gcm_failed

  unfoldable pub decrypt_gcm_audio_sample_custom_cipher :
      Option (List ℕ) → Option (List ℕ) → Option gcm.Block → Output
  decrypt_gcm_audio_sample_custom_cipher sample sif none = error block_cipher_required
  decrypt_gcm_audio_sample_custom_cipher none sif (some b) = nil
  decrypt_gcm_audio_sample_custom_cipher (some s) sif (some b) =
      if ends_with_sif s sif then nil else open_audio b s

  unfoldable pub encrypt_gcm_audio_sample :
      Option (List ℕ) → (key : List ℕ) → (kid : ℕ) → Option (List ℕ) → Output
  encrypt_gcm_audio_sample sample key kid iv =
      if length key == key_size_bytes
      then elim (gcm.new_cipher key) [
        | none ↦ error cipher_failed
        | some b ↦ encrypt_gcm_audio_sample_custom_cipher sample kid (some b) iv
      ]
      else error incorrect_key_length

  -- `len` of the nil slice is 0.
  unfoldable pub sample_bytes : Option (List ℕ) → List ℕ
  sample_bytes none = []
  sample_bytes (some s) = s

  unfoldable pub decrypt_gcm_audio_sample :
      Option (List ℕ) → (key : List ℕ) → Option (List ℕ) → Output
  decrypt_gcm_audio_sample sample key sif =
      if length key == key_size_bytes
      then if ends_with_sif (sample_bytes sample) sif then nil else elim (gcm.new_cipher key) [
        | none ↦ error cipher_failed
        | some b ↦ decrypt_gcm_audio_sample_custom_cipher sample sif (some b)
      ]
      else error incorrect_key_length
