-- ===== src/E2ee/Gcm.antt =====
-- What the codecs take from crypto/aes and crypto/cipher, and the values that they share.
use server_sdk_go.Prelude.{ℕ, ◌≡◌, ◌≤◌, Bool, List, Option, some, length}

-- A block cipher and AES-GCM over it, with the nonce's size given first. `open` is `none` where
-- the code gets an error.
pub record Gcm : Type 1 where
  pub Block : Type 0
  -- `aes.NewCipher`
  pub new_cipher : List ℕ → Option Block
  -- whether `cipher.NewGCMWithNonceSize` returns no error
  pub accepts_nonce_size : Block → ℕ → Bool
  -- block, nonce, plain text or cipher text, additional data
  pub seal : Block → List ℕ → List ℕ → List ℕ → List ℕ
  pub open_sealed : Block → List ℕ → List ℕ → List ℕ → Option (List ℕ)

-- What AES-GCM is documented to do: what was sealed opens under the same nonce and data, and holds
-- an authentication tag.
pub record GcmLaws (gcm : Gcm) : Type 0 where
  pub opens :
      (b : gcm.Block) (iv plain aad : List ℕ)
      → gcm.open_sealed b iv (gcm.seal b iv plain aad) aad ≡ some plain
  -- the tag is never empty
  pub seals : (b : gcm.Block) (iv plain aad : List ℕ) → 1 ≤ length (gcm.seal b iv plain aad)

abbrev pub iv_length : ℕ
iv_length = 12

abbrev pub key_size_bytes : ℕ
key_size_bytes = 16

abbrev pub max_key_index : ℕ
max_key_index = 255

pub data CodecError : Type 0 where
  block_cipher_required incorrect_key_length incorrect_iv_length unable_generate_iv gcm_failed
        cipher_failed key_index_out_of_range no_key frame_too_short empty_payload passphrase_empty
        marshal_failed unmarshal_failed :
      CodecError

-- `([]byte, error)`: bytes, the pair of two nils, an error, or a panic of the runtime.
pub data Output : Type 0 where
  bytes : List ℕ → Output
  nil : Output
  error : CodecError → Output
  panics : Output
