-- ===== src/E2ee/Audio/RoundTrip.antt =====
-- The two directions of the audio codec of encryption.go, and the panics of decryption.
use server_sdk_go.Prelude.{
  ℕ, ◌+◌, ◌-◌, ◌<◌, ◌≡◌, true, false, List, [], ◌∷◌, ◌++◌, Option, some, length, get_or, arith, ◌↔◌,
  ◌⊎◌,
}
use server_sdk_go.E2ee.Gcm.{Gcm, GcmLaws, bytes, panics, iv_length}
use server_sdk_go.E2ee.Trailer.{length-whole, size-whole, start-whole, iv-whole, cipher-whole}
use server_sdk_go.E2ee.Video.{ends_with_sif}
use server_sdk_go.E2ee.Audio.{
  encrypt_gcm_audio_sample_custom_cipher, open_audio, decrypt_gcm_audio_sample_custom_cipher,
}

module _ (gcm : Gcm) (laws : GcmLaws gcm) where
  open_audio-seal :
      (b : gcm.Block) (x : ℕ) (plain iv : List ℕ) (kid : ℕ)
      → gcm.accepts_nonce_size b iv_length ≡ true
      → length iv ≡ iv_length
      → open_audio gcm b (x ∷ (gcm.seal b iv plain (x ∷ []) ++ (iv ++ (iv_length ∷ kid ∷ []))))
        ≡ bytes (x ∷ plain)
  unfolding open_audio
  open_audio-seal b x plain iv kid ok len =
      let c = gcm.seal b iv plain (x ∷ []) in
      ground (
        arith,
        length-whole (x ∷ c) iv kid len,
        size-whole (x ∷ c) iv kid len,
        start-whole (x ∷ c) iv kid len,
        iv-whole (x ∷ c) iv kid len,
        cipher-whole c iv kid len,
        laws.opens b iv plain (x ∷ []),
        ok,
      )

  -- For every GCM that opens what it sealed, every sample that is not empty, key id, IV of 12
  -- bytes and trailer: what the encryption returns without an error, and does not end in the
  -- trailer of a server-injected frame, decrypts to the sample.
  pub decrypt_gcm_audio_sample-encrypt_gcm_audio_sample :
      (b : gcm.Block) (x : ℕ) (plain iv e : List ℕ) (kid : ℕ) (sif : Option (List ℕ))
      → length iv ≡ iv_length
      → encrypt_gcm_audio_sample_custom_cipher gcm (some (x ∷ plain)) kid (some b) (some iv)
        ≡ bytes e
      → ends_with_sif e sif ≡ false
      → decrypt_gcm_audio_sample_custom_cipher gcm (some e) sif (some b) ≡ bytes (x ∷ plain)
  unfolding encrypt_gcm_audio_sample_custom_cipher decrypt_gcm_audio_sample_custom_cipher
  decrypt_gcm_audio_sample-encrypt_gcm_audio_sample b x plain iv e kid sif len enc no_sif =
      ground (arith, open_audio-seal b x plain iv kid)

module _ (gcm : Gcm) where
  -- A sample that is neither nil nor a server-injected frame makes decryption panic exactly when it
  -- is shorter than two bytes, or when the IV that its trailer announces takes all the bytes in
  -- front of the trailer.
  pub decrypt_gcm_audio_sample_panics :
      (b : gcm.Block) (s : List ℕ) (sif : Option (List ℕ))
      → ends_with_sif s sif ≡ false
      → (decrypt_gcm_audio_sample_custom_cipher gcm (some s) sif (some b) ≡ panics)
        ↔ ((length s < 2) ⊎ (get_or s (length s - 2) 0 + 2 ≡ length s))
  unfolding decrypt_gcm_audio_sample_custom_cipher open_audio
  decrypt_gcm_audio_sample_panics b s sif no_sif = (λ h. ground arith, λ h. ground arith)
