-- ===== src/E2ee/FrameCryptor.antt =====
-- e2ee/frameencryptor.go: the caches of cipher blocks in front of the codecs.
pub mod Cache
use server_sdk_go.Prelude.{
  ℕ, ◌-◌, Bool, true, false, ◌&&◌, List, [], ◌∷◌, Option, some, none, ltb, leb, ◌==◌, if◌then◌else◌,
  length, get_or, lookup, insert, bytes_equal, drop,
}
use server_sdk_go.E2ee.Gcm.{
  Gcm, CodecError, Output, nil, error, max_key_index, key_index_out_of_range, no_key, cipher_failed,
  frame_too_short,
}
use server_sdk_go.E2ee.Keys.{KeyProvider}
use server_sdk_go.E2ee.Video.{ends_with_sif}

module _ (gcm : Gcm) where
  pub record CipherState : Type 0 where
    pub block : gcm.Block
    pub key_index : ℕ
    pub key_bytes : List ℕ

  -- `EncryptFunc` with the block that is never nil here; its randomness is fixed.
  abbrev pub EncryptFn : Type 0
  EncryptFn = List ℕ → ℕ → gcm.Block → Output

  abbrev pub DecryptFn : Type 0
  DecryptFn = List ℕ → Option (List ℕ) → gcm.Block → Output

  pub data NewEncryptor : Type 0 where
    encryptor : CipherState → NewEncryptor
    no_encryptor : CodecError → NewEncryptor

  -- The block of the key at an index, as `aes.NewCipher` makes it.
  pub data BlockResult : Type 0 where
    found : gcm.Block → List ℕ → BlockResult
    not_found : CodecError → BlockResult

  unfoldable pub block_at : KeyProvider → ℕ → BlockResult
  block_at p index = elim (p.key_at index) [
    | none ↦ not_found no_key
    | some key ↦ elim (gcm.new_cipher key) [ none ↦ not_found cipher_failed | some b ↦ found b key ]
  ]

  -- `NewGCMFrameEncryptor`
  unfoldable pub new_gcm_frame_encryptor : KeyProvider → NewEncryptor
  new_gcm_frame_encryptor p = elim (block_at p p.current) [
    | not_found e ↦ no_encryptor e
    | found b key ↦ encryptor (record { block = b; key_index = p.current; key_bytes = [] })
  ]

  unfoldable pub rotate_and_encrypt :
      KeyProvider → EncryptFn → List ℕ → ℕ → CipherState → CipherState × Output
  rotate_and_encrypt p encrypt_fn payload idx st =
      if st.key_index == idx then (st, encrypt_fn payload idx st.block) else elim (block_at p idx) [
        | not_found e ↦ (st, error e)
        | found b key ↦
            (record { block = b; key_index = idx; key_bytes = [] }, encrypt_fn payload idx b)
      ]

  -- `EncryptFrame`, by a provider that does not change meanwhile.
  unfoldable pub encrypt_frame :
      KeyProvider → EncryptFn → List ℕ → CipherState → CipherState × Output
  encrypt_frame p encrypt_fn payload st =
      if ltb max_key_index p.current
      then (st, error key_index_out_of_range)
      else if st.key_index == p.current
      then (st, encrypt_fn payload p.current st.block)
      else rotate_and_encrypt p encrypt_fn payload p.current st

  -- The `sync.Map` of the decryptor, by key index.
  abbrev pub Cached : Type 0
  Cached = List (ℕ × CipherState)

  unfoldable pub load_fresh : Cached → ℕ → List ℕ → Option gcm.Block
  load_fresh cache kid key = elim (lookup kid cache) [
    | none ↦ none
    | some s ↦ if bytes_equal s.key_bytes key then some s.block else none
  ]

  unfoldable pub get_cached_block : KeyProvider → ℕ → Cached → Cached × BlockResult
  get_cached_block p kid cache = elim (p.key_at kid) [
    | none ↦ (cache, not_found no_key)
    | some key ↦ elim (load_fresh cache kid key) [
      | some b ↦ (cache, found b key)
      | none ↦ elim (gcm.new_cipher key) [
        | none ↦ (cache, not_found cipher_failed)
        | some b ↦
            (insert kid (record { block = b; key_index = kid; key_bytes = key }) cache, found b key)
      ]
    ]
  ]

  -- The SIF test of `DecryptFrame`; `len(d.sifTrailer)` is 0 for a nil trailer.
  unfoldable pub is_sif : List ℕ → Option (List ℕ) → Bool
  is_sif payload none = false
  is_sif payload (some []) = false
  is_sif payload (some (t ∷ ts)) = ends_with_sif payload (some (t ∷ ts))

  unfoldable pub decrypt_frame :
      KeyProvider → DecryptFn → Option (List ℕ) → List ℕ → Cached → Cached × Output
  decrypt_frame p decrypt_fn sif payload cache =
      if ltb (length payload) 2
      then (cache, error frame_too_short)
      else if is_sif payload sif
      then (cache, nil)
      else let (cache', r) = get_cached_block p (get_or payload (length payload - 1) 0) cache in
        elim r [
          | not_found e ↦ (cache', error e)
          | found b key ↦ (cache', decrypt_fn payload sif b)
        ]
