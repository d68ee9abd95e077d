-- ===== src/E2ee/FrameCryptor/Cache.antt =====
-- The caches of e2ee/frameencryptor.go, beside the same steps without a cache.
use server_sdk_go.Prelude.{
  ℕ, ◌-◌, ◌≡◌, List, [], Option, some, ltb, if◌then◌else◌, length, get_or, lookup, insert,
  lookup-insert, bytes_equal-eq, arith, refl, ap, sym, ◌∙◌, Option-cases, Bool-cases, inl, inr, ◌⊎◌,
  ◌==◌, ==_iff,
}
use mathlib.Core.Path.{subst}
use server_sdk_go.E2ee.Gcm.{
  Gcm, CodecError, Output, nil, error, max_key_index, key_index_out_of_range, frame_too_short,
}
use server_sdk_go.E2ee.Keys.{KeyProvider}
use server_sdk_go.E2ee.FrameCryptor.{
  CipherState, EncryptFn, DecryptFn, BlockResult, found, not_found, block_at,
  new_gcm_frame_encryptor, encryptor, rotate_and_encrypt, encrypt_frame, Cached, load_fresh,
  get_cached_block, is_sif, decrypt_frame,
}

module _ (gcm : Gcm) where
  -- Every cached block is the cipher of the key that is cached with it.
  unfoldable pub IsFresh : Cached gcm → Type 0
  IsFresh cache =
      (i : ℕ) (s : CipherState gcm)
      → lookup i cache ≡ some s
      → gcm.new_cipher s.key_bytes ≡ some s.block

  BlockResult-cases :
      (r : BlockResult gcm)
      → ((e : CodecError) × (r ≡ not_found e))
        ⊎ ((b : gcm.Block) × (key : List ℕ) × (r ≡ found b key))
  BlockResult-cases (not_found e) = inl (e, refl)
  BlockResult-cases (found b key) = inr (b, key, refl)

  insert-IsFresh :
      (kid : ℕ) (st : CipherState gcm) (cache : Cached gcm)
      → gcm.new_cipher st.key_bytes ≡ some st.block
      → IsFresh cache
      → IsFresh (insert kid st cache)
  unfolding IsFresh
  insert-IsFresh kid st cache new fresh i s h =
      ground (arith, lookup-insert kid i st cache, fresh i s, new)

  load_fresh_new :
      (cache : Cached gcm) (kid : ℕ) (key : List ℕ) (b : gcm.Block)
      → IsFresh cache
      → load_fresh gcm cache kid key ≡ some b
      → gcm.new_cipher key ≡ some b
  unfolding load_fresh IsFresh
  load_fresh_new cache kid key b fresh h = elim (Option-cases (lookup kid cache)) [
    | inl e ↦ ground arith
    | inr (s, e) ↦ ground (arith, fresh kid s e, bytes_equal-eq s.key_bytes key)
  ]

  get_cached_block-block_at :
      (p : KeyProvider) (kid : ℕ) (cache : Cached gcm)
      → IsFresh cache
      → (get_cached_block gcm p kid cache).1 ≡ block_at gcm p kid
  unfolding get_cached_block block_at
  get_cached_block-block_at p kid cache fresh = elim (Option-cases (p.key_at kid)) [
    | inl e ↦ ground arith
    | inr (key, e) ↦ elim (Option-cases (load_fresh gcm cache kid key)) [
      | inl l ↦ ground arith
      | inr (b, l) ↦ ground (arith, load_fresh_new cache kid key b fresh l)
    ]
  ]

  get_cached_block-IsFresh :
      (p : KeyProvider) (kid : ℕ) (cache : Cached gcm)
      → IsFresh cache
      → IsFresh (get_cached_block gcm p kid cache).0
  unfolding get_cached_block
  get_cached_block-IsFresh p kid cache fresh = elim (Option-cases (p.key_at kid)) [
    | inl e ↦ rw (e, get_cached_block) fresh
    | inr (key, e) ↦ elim (Option-cases (load_fresh gcm cache kid key)) [
      | inr (b, l) ↦ rw (e, l, get_cached_block) fresh
      | inl l ↦ elim (Option-cases (gcm.new_cipher key)) [
        | inl n ↦ rw (e, l, n, get_cached_block) fresh
        | inr (b, n) ↦ rw (e, l, n, get_cached_block) (insert-IsFresh kid _ cache n fresh)
      ]
    ]
  ]

  -- What decryption without a cache would do.
  pub decrypt_directly : KeyProvider → DecryptFn gcm → Option (List ℕ) → List ℕ → Output
  decrypt_directly p decrypt_fn sif payload =
      if ltb (length payload) 2
      then error frame_too_short
      else if is_sif gcm payload sif
      then nil
      else elim (block_at gcm p (get_or payload (length payload - 1) 0)) [
        | not_found e ↦ error e
        | found b key ↦ decrypt_fn payload sif b
      ]

  -- From a fresh cache, `DecryptFrame` gives what decryption with the provider's present key at the
  -- frame's index gives, also after that key was replaced, and it leaves a fresh cache.
  pub decrypt_frame-decrypt_directly :
      (p : KeyProvider) (decrypt_fn : DecryptFn gcm) (sif : Option (List ℕ)) (payload : List ℕ)
      (cache : Cached gcm)
      → IsFresh cache
      → ((decrypt_frame gcm p decrypt_fn sif payload cache).1
          ≡ decrypt_directly p decrypt_fn sif payload)
        × IsFresh (decrypt_frame gcm p decrypt_fn sif payload cache).0
  unfolding decrypt_frame decrypt_directly
  decrypt_frame-decrypt_directly p decrypt_fn sif payload cache fresh =
      let kid = get_or payload (length payload - 1) 0 in
      let same = get_cached_block-block_at p kid cache fresh in
      let kept = get_cached_block-IsFresh p kid cache fresh in
      elim (Bool-cases (ltb (length payload) 2)) [
        | inl short ↦ rw short (refl, fresh)
        | inr long ↦ elim (Bool-cases (is_sif gcm payload sif)) [
          | inl hit ↦ rw (long, hit) (refl, fresh)
          | inr miss ↦ elim (BlockResult-cases (block_at gcm p kid)) [
            | inl (e, r) ↦ rw (long, miss, same, r) (refl, kept)
            | inr (b, key, r) ↦ rw (long, miss, same, r) (refl, kept)
          ]
        ]
      ]

  -- What encryption without a cache would do.
  pub encrypt_directly : KeyProvider → EncryptFn gcm → List ℕ → Output
  encrypt_directly p encrypt_fn payload =
      if ltb max_key_index p.current
      then error key_index_out_of_range
      else elim (block_at gcm p p.current) [
        | not_found e ↦ error e
        | found b key ↦ encrypt_fn payload p.current b
      ]

  -- The cached block is the cipher of the provider's key at the cached index.
  unfoldable pub IsCurrent : KeyProvider → CipherState gcm → Type 0
  IsCurrent p st = (key : List ℕ) × (block_at gcm p st.key_index ≡ found st.block key)

  -- While the provider keeps the key at the cached index, `EncryptFrame` gives what encryption with
  -- the key at the current index gives, also after a rotation to another index, and the cache keeps
  -- that property.
  pub encrypt_frame-encrypt_directly :
      (p : KeyProvider) (encrypt_fn : EncryptFn gcm) (payload : List ℕ) (st : CipherState gcm)
      → IsCurrent p st
      → ((encrypt_frame gcm p encrypt_fn payload st).1 ≡ encrypt_directly p encrypt_fn payload)
        × IsCurrent p (encrypt_frame gcm p encrypt_fn payload st).0
  unfolding encrypt_frame rotate_and_encrypt encrypt_directly IsCurrent
  encrypt_frame-encrypt_directly p encrypt_fn payload st current =
      elim (Bool-cases (ltb max_key_index p.current)) [
        | inl out ↦ rw out (refl, current)
        | inr in_range ↦ elim (Bool-cases (st.key_index == p.current)) [
          | inl same ↦
              let at : block_at gcm p p.current ≡ found st.block current.0 =
                ap (block_at gcm p) (sym ((==_iff st.key_index p.current).0 same)) ∙ current.1 in
              rw (in_range, same, at) (refl, current)
          | inr other ↦ elim (BlockResult-cases (block_at gcm p p.current)) [
            | inl (e, r) ↦ rw (in_range, other, r) (refl, current)
            | inr (b, key, r) ↦ rw (in_range, other, r) (refl, (key, r))
          ]
        ]
      ]

  -- A new frame encryptor caches the cipher of the provider's key at the current index, under that
  -- index.
  pub new_gcm_frame_encryptor-IsCurrent :
      (p : KeyProvider) (st : CipherState gcm)
      → new_gcm_frame_encryptor gcm p ≡ encryptor st
      → IsCurrent p st × (st.key_index ≡ p.current)
  unfolding new_gcm_frame_encryptor IsCurrent
  new_gcm_frame_encryptor-IsCurrent p st h = elim (BlockResult-cases (block_at gcm p p.current)) [
    | inl (e, r) ↦ absurd (ground (arith, r, h))
    | inr (b, key, r) ↦
        let same : record { block = b; key_index = p.current; key_bytes = [] } ≡ st =
          ground (arith, r, h) in
        subst
          (λ s.
            ((k : List ℕ) × (block_at gcm p s.key_index ≡ found s.block k))
            × (s.key_index ≡ p.current))
          same ((key, r), refl)
  ]

  -- A key that is replaced at the cached index is not seen: the output is the same for every
  -- provider that has the same current index, whatever its keys are.
  pub encrypt_frame_stale :
      (p p' : KeyProvider) (encrypt_fn : EncryptFn gcm) (payload : List ℕ) (st : CipherState gcm)
      → st.key_index ≡ p.current
      → p.current ≡ p'.current
      → encrypt_frame gcm p encrypt_fn payload st ≡ encrypt_frame gcm p' encrypt_fn payload st
  unfolding encrypt_frame
  encrypt_frame_stale p p' encrypt_fn payload st e e' = ground arith
