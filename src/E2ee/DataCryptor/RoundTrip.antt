-- ===== src/E2ee/DataCryptor/RoundTrip.antt =====
-- The two ends of e2ee/datacryptor.go.
use server_sdk_go.Prelude.{
  ℕ, ◌≡◌, List, [], Option, some, none, if◌then◌else◌, length, lookup, insert, lookup-insert,
  bytes_equal-eq, arith, refl, Option-cases, Bool-cases, inl, inr, ◌⊎◌, ap, ◌∙◌,
}
use server_sdk_go.E2ee.Gcm.{Gcm, GcmLaws, CodecError, iv_length, no_key, cipher_failed, gcm_failed}
use server_sdk_go.E2ee.Keys.{KeyProvider}
use server_sdk_go.E2ee.DataCryptor.{
  PacketValue, encrypted_packet, user, chat_message, rpc_request, rpc_ack, rpc_response,
  stream_header, stream_chunk, stream_trailer, other, PayloadValue, data_packet_value_to_payload,
  decrypted_payload_to_data_packet_value, EncryptedPayload, Result, ok, err, DataPacket,
  DataCipherState, CipherCache, cached_cipher, get_cipher_block, gcm_at, encrypt_payload,
  decrypt_payload, encrypt, decrypt,
}

Result-cases :
    {A : Type 0} (r : Result A) → ((e : CodecError) × (r ≡ err e)) ⊎ ((a : A) × (r ≡ ok a))
Result-cases (err e) = inl (e, refl)
Result-cases (ok a) = inr (a, refl)

decrypted_payload_lem :
    {M E : Type 0} (x w : PacketValue M E) (v : PayloadValue M)
    → data_packet_value_to_payload x ≡ some v
    → decrypted_payload_to_data_packet_value w v ≡ x
unfolding data_packet_value_to_payload decrypted_payload_to_data_packet_value
decrypted_payload_lem (user m) w v h = ground arith
decrypted_payload_lem (chat_message m) w v h = ground arith
decrypted_payload_lem (rpc_request m) w v h = ground arith
decrypted_payload_lem (rpc_ack m) w v h = ground arith
decrypted_payload_lem (rpc_response m) w v h = ground arith
decrypted_payload_lem (stream_header m) w v h = ground arith
decrypted_payload_lem (stream_chunk m) w v h = ground arith
decrypted_payload_lem (stream_trailer m) w v h = ground arith
decrypted_payload_lem (encrypted_packet e) w v h = ground arith
decrypted_payload_lem other w v h = ground arith

module _ (gcm : Gcm) where
  -- Every cached block is the cipher of the key that is cached with it.
  unfoldable pub IsFresh : CipherCache gcm → Type 0
  IsFresh cache =
      (i : ℕ) (s : DataCipherState gcm)
      → lookup i cache ≡ some s
      → gcm.new_cipher s.key_bytes ≡ some s.block

  insert-IsFresh :
      (i : ℕ) (st : DataCipherState gcm) (cache : CipherCache gcm)
      → gcm.new_cipher st.key_bytes ≡ some st.block
      → IsFresh cache
      → IsFresh (insert i st cache)
  unfolding IsFresh
  insert-IsFresh i st cache new fresh j s h =
      ground (arith, lookup-insert i j st cache, fresh j s, new)

  cached_cipher_new :
      (cache : CipherCache gcm) (i : ℕ) (key : List ℕ) (b : gcm.Block)
      → IsFresh cache
      → cached_cipher gcm cache i key ≡ some b
      → gcm.new_cipher key ≡ some b
  unfolding cached_cipher IsFresh
  cached_cipher_new cache i key b fresh h = elim (Option-cases (lookup i cache)) [
    | inl e ↦ ground arith
    | inr (s, e) ↦ ground (arith, fresh i s e, bytes_equal-eq s.key_bytes key)
  ]

  -- The block of a key, without the cache.
  block_of : Option (List ℕ) → Result gcm.Block
  block_of none = err no_key
  block_of (some key) = elim (gcm.new_cipher key) [ none ↦ err cipher_failed | some b ↦ ok b ]

  get_cipher_block-block_of :
      (p : KeyProvider) (i : ℕ) (cache : CipherCache gcm)
      → IsFresh cache
      → (get_cipher_block gcm p i cache).1 ≡ block_of (p.key_at i)
  unfolding get_cipher_block block_of
  get_cipher_block-block_of p i cache fresh = elim (Option-cases (p.key_at i)) [
    | inl e ↦ ground arith
    | inr (key, e) ↦ elim (Option-cases (cached_cipher gcm cache i key)) [
      | inl l ↦ ground arith
      | inr (b, l) ↦ ground (arith, cached_cipher_new cache i key b fresh l)
    ]
  ]

  get_cipher_block-IsFresh :
      (p : KeyProvider) (i : ℕ) (cache : CipherCache gcm)
      → IsFresh cache
      → IsFresh (get_cipher_block gcm p i cache).0
  unfolding get_cipher_block
  get_cipher_block-IsFresh p i cache fresh = elim (Option-cases (p.key_at i)) [
    | inl e ↦ rw (e, get_cipher_block) fresh
    | inr (key, e) ↦ elim (Option-cases (cached_cipher gcm cache i key)) [
      | inr (b, l) ↦ rw (e, l, get_cipher_block) fresh
      | inl l ↦ elim (Option-cases (gcm.new_cipher key)) [
        | inl n ↦ rw (e, l, n, get_cipher_block) fresh
        | inr (b, n) ↦ rw (e, l, n, get_cipher_block) (insert-IsFresh i _ cache n fresh)
      ]
    ]
  ]

  -- The result of `gcm`, by the block of the key.
  with_nonce_size : ℕ → Result gcm.Block → Result gcm.Block
  with_nonce_size n (err e) = err e
  with_nonce_size n (ok b) = if gcm.accepts_nonce_size b n then ok b else err gcm_failed

  gcm_at-block_of :
      (p : KeyProvider) (i n : ℕ) (cache : CipherCache gcm)
      → IsFresh cache
      → (gcm_at gcm p i n cache).1 ≡ with_nonce_size n (block_of (p.key_at i))
  unfolding gcm_at with_nonce_size
  gcm_at-block_of p i n cache fresh =
      let same = get_cipher_block-block_of p i cache fresh in
      elim (Result-cases (block_of (p.key_at i))) [
        | inl (e, r) ↦ rw (same, r, gcm_at) refl
        | inr (b, r) ↦ elim (Bool-cases (gcm.accepts_nonce_size b n)) [
          | inl a ↦ rw (same, r, a, gcm_at) refl
          | inr a ↦ rw (same, r, a, gcm_at) refl
        ]
      ]

  -- A successful encryption, by its parts.
  encrypt_payload-sealed :
      (p : KeyProvider) (plain iv : List ℕ) (cache : CipherCache gcm) (sealed : EncryptedPayload)
      → IsFresh cache
      → (encrypt_payload gcm p plain (some iv) cache).1 ≡ ok sealed
      → (b : gcm.Block) × (with_nonce_size iv_length (block_of (p.key_at p.current)) ≡ ok b)
        × (sealed ≡ record { ciphertext = gcm.seal b iv plain []; key_index = p.current; iv = iv })
  unfolding encrypt_payload
  encrypt_payload-sealed p plain iv cache sealed fresh h =
      let same = gcm_at-block_of p p.current iv_length cache fresh in
      elim (Result-cases (with_nonce_size iv_length (block_of (p.key_at p.current)))) [
        | inl (e, r) ↦ absurd (ground (arith, same, r, h))
        | inr (b, r) ↦ (b, r, ground (arith, same, r, h))
      ]

module _ (gcm : Gcm) (laws : GcmLaws gcm) where
  decrypt_payload-seal :
      (p : KeyProvider) (plain iv : List ℕ) (c : CipherCache gcm) (i : ℕ) (b : gcm.Block)
      → length iv ≡ iv_length
      → (gcm_at gcm p i iv_length c).1 ≡ ok b
      → (decrypt_payload gcm p
          (record { ciphertext = gcm.seal b iv plain []; key_index = i; iv = iv })
          c).1
        ≡ ok plain
  unfolding decrypt_payload
  decrypt_payload-seal p plain iv c i b len at =
      ground (arith, len, at, laws.seals b iv plain [], laws.opens b iv plain [])

  -- What one cryptor sealed, another opens, by any fresh caches, when both providers have the same
  -- key at the sender's index.
  pub decrypt_payload-encrypt_payload :
      (p p' : KeyProvider) (plain iv : List ℕ) (c c' : CipherCache gcm) (sealed : EncryptedPayload)
      → IsFresh gcm c
      → IsFresh gcm c'
      → p'.key_at p.current ≡ p.key_at p.current
      → length iv ≡ iv_length
      → (encrypt_payload gcm p plain (some iv) c).1 ≡ ok sealed
      → (decrypt_payload gcm p' sealed c').1 ≡ ok plain
  decrypt_payload-encrypt_payload p p' plain iv c c' sealed fresh fresh' keys len enc =
      let s = encrypt_payload-sealed gcm p plain iv c sealed fresh enc in
      let at : (gcm_at gcm p' p.current iv_length c').1 ≡ ok s.0 =
        gcm_at-block_of gcm p' p.current iv_length c' fresh'
        ∙ ap (λ k. with_nonce_size gcm iv_length (block_of gcm k)) keys
        ∙ s.1 in
      ap (λ x. (decrypt_payload gcm p' x c').1) s.2
      ∙ decrypt_payload-seal p' plain iv c' p.current s.0 len at

  -- A packet whose value is encryptable, once encrypted without an error under an IV of 12 bytes,
  -- holds a sealed payload that another cryptor decrypts to that value, and restoring the value
  -- gives the packet's own: when both caches are fresh, both providers have the same key at the
  -- sender's index, and the protocol's decoder undoes its encoder.
  pub decrypt-encrypt :
      {M Rest : Type 0} (marshal : PayloadValue M → Option (List ℕ))
      (unmarshal : List ℕ → Option (PayloadValue M))
      → ((v : PayloadValue M) (bs : List ℕ) → marshal v ≡ some bs → unmarshal bs ≡ some v)
      → (p p' : KeyProvider) (pck pck' : DataPacket M Rest) (v : PayloadValue M) (iv : List ℕ)
        (c c' : CipherCache gcm)
      → IsFresh gcm c
      → IsFresh gcm c'
      → p'.key_at p.current ≡ p.key_at p.current
      → length iv ≡ iv_length
      → data_packet_value_to_payload pck.value ≡ some v
      → (encrypt gcm marshal p pck (some iv) c).1 ≡ ok pck'
      → (sealed : EncryptedPayload) × (pck'.value ≡ encrypted_packet sealed)
        × ((decrypt gcm unmarshal p' sealed c').1 ≡ ok v)
        × (decrypted_payload_to_data_packet_value pck'.value v ≡ pck.value)
  unfolding encrypt decrypt
  decrypt-encrypt marshal unmarshal law p p' pck pck' v iv c c' fresh fresh' keys len value enc =
      elim (Option-cases (marshal v)) [
        | inl m ↦ absurd (ground (arith, value, m, enc))
        | inr (bs, m) ↦ elim (Result-cases (encrypt_payload gcm p bs (some iv) c).1) [
          | inl (e, r) ↦ absurd (ground (arith, value, m, r, enc))
          | inr (sealed, r) ↦
              let opened =
                decrypt_payload-encrypt_payload p p' bs iv c c' sealed fresh fresh' keys len r in
              (
                sealed,
                ground (arith, value, m, r, enc),
                ground (arith, opened, law v bs m),
                decrypted_payload_lem pck.value pck'.value v value,
              )
        ]
      ]
