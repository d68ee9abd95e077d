-- ===== src/E2ee/DataCryptor.antt =====
-- e2ee/datacryptor.go: end-to-end encryption of data messages.
pub mod RoundTrip
use server_sdk_go.Prelude.{
  ℕ, Bool, true, false, ◌||◌, List, [], ◌∷◌, Option, some, none, ◌==◌, if◌then◌else◌, length,
  lookup, insert, bytes_equal,
}
use server_sdk_go.E2ee.Gcm.{
  Gcm, CodecError, iv_length, no_key, cipher_failed, gcm_failed, unable_generate_iv, empty_payload,
  marshal_failed, unmarshal_failed,
}
use server_sdk_go.E2ee.Keys.{KeyProvider}

-- `DataPacket.Value`, with the messages of the protocol's types as a parameter. `other` is a value
-- that is not encrypted, such as a speaker update, or none.
pub data PacketValue (M E : Type 0) : Type 0 where
  user : M → PacketValue M E
  chat_message : M → PacketValue M E
  rpc_request : M → PacketValue M E
  rpc_ack : M → PacketValue M E
  rpc_response : M → PacketValue M E
  stream_header : M → PacketValue M E
  stream_chunk : M → PacketValue M E
  stream_trailer : M → PacketValue M E
  encrypted_packet : E → PacketValue M E
  other : PacketValue M E

-- `EncryptedPacketPayload.Value`
pub data PayloadValue (M : Type 0) : Type 0 where
  payload_user : M → PayloadValue M
  payload_chat_message : M → PayloadValue M
  payload_rpc_request : M → PayloadValue M
  payload_rpc_ack : M → PayloadValue M
  payload_rpc_response : M → PayloadValue M
  payload_stream_header : M → PayloadValue M
  payload_stream_chunk : M → PayloadValue M
  payload_stream_trailer : M → PayloadValue M
  payload_unset : PayloadValue M

module _ {M E : Type 0} where
  unfoldable pub data_packet_value_to_payload : PacketValue M E → Option (PayloadValue M)
  data_packet_value_to_payload (user m) = some (payload_user m)
  data_packet_value_to_payload (chat_message m) = some (payload_chat_message m)
  data_packet_value_to_payload (rpc_request m) = some (payload_rpc_request m)
  data_packet_value_to_payload (rpc_ack m) = some (payload_rpc_ack m)
  data_packet_value_to_payload (rpc_response m) = some (payload_rpc_response m)
  data_packet_value_to_payload (stream_header m) = some (payload_stream_header m)
  data_packet_value_to_payload (stream_chunk m) = some (payload_stream_chunk m)
  data_packet_value_to_payload (stream_trailer m) = some (payload_stream_trailer m)
  data_packet_value_to_payload (encrypted_packet e) = none
  data_packet_value_to_payload other = none

  -- The value that a packet with the first one gets.
  unfoldable pub decrypted_payload_to_data_packet_value :
      PacketValue M E → PayloadValue M → PacketValue M E
  decrypted_payload_to_data_packet_value v (payload_user m) = user m
  decrypted_payload_to_data_packet_value v (payload_chat_message m) = chat_message m
  decrypted_payload_to_data_packet_value v (payload_rpc_request m) = rpc_request m
  decrypted_payload_to_data_packet_value v (payload_rpc_ack m) = rpc_ack m
  decrypted_payload_to_data_packet_value v (payload_rpc_response m) = rpc_response m
  decrypted_payload_to_data_packet_value v (payload_stream_header m) = stream_header m
  decrypted_payload_to_data_packet_value v (payload_stream_chunk m) = stream_chunk m
  decrypted_payload_to_data_packet_value v (payload_stream_trailer m) = stream_trailer m
  decrypted_payload_to_data_packet_value v payload_unset = v

pub record EncryptedPayload : Type 0 where
  pub ciphertext : List ℕ
  pub key_index : ℕ
  pub iv : List ℕ

-- A Go pair of a value and an error.
pub data Result (A : Type 0) : Type 0 where
  ok : A → Result A
  err : CodecError → Result A

-- The packet's fields that `Encrypt` copies stand in `Rest`.
pub record DataPacket (M Rest : Type 0) : Type 0 where
  pub rest : Rest
  pub value : PacketValue M EncryptedPayload

module _ (gcm : Gcm) where
  pub record DataCipherState : Type 0 where
    pub block : gcm.Block
    pub key_bytes : List ℕ

  abbrev pub CipherCache : Type 0
  CipherCache = List (ℕ × DataCipherState)

  unfoldable pub cached_cipher : CipherCache → ℕ → List ℕ → Option gcm.Block
  cached_cipher cache key_index key = elim (lookup key_index cache) [
    | none ↦ none
    | some s ↦ if bytes_equal s.key_bytes key then some s.block else none
  ]

  unfoldable pub get_cipher_block : KeyProvider → ℕ → CipherCache → CipherCache × Result gcm.Block
  get_cipher_block p key_index cache = elim (p.key_at key_index) [
    | none ↦ (cache, err no_key)
    | some key ↦ elim (cached_cipher cache key_index key) [
      | some b ↦ (cache, ok b)
      | none ↦ elim (gcm.new_cipher key) [
        | none ↦ (cache, err cipher_failed)
        | some b ↦ (insert key_index (record { block = b; key_bytes = key }) cache, ok b)
      ]
    ]
  ]

  -- `DataCryptor.gcm`: the block, for a nonce of the given size.
  unfoldable pub gcm_at : KeyProvider → ℕ → ℕ → CipherCache → CipherCache × Result gcm.Block
  gcm_at p key_index nonce_size cache =
      let (cache', r) = get_cipher_block p key_index cache in
      elim r [
        | err e ↦ (cache', err e)
        | ok b ↦
            if gcm.accepts_nonce_size b nonce_size then (cache', ok b) else (cache', err gcm_failed)
      ]

  -- The `none` of the IV is an error of `rand.Reader`.
  unfoldable pub encrypt_payload :
      KeyProvider → List ℕ → Option (List ℕ) → CipherCache → CipherCache × Result EncryptedPayload
  encrypt_payload p plaintext random cache =
      let (cache', r) = gcm_at p p.current iv_length cache in
      elim r [
        | err e ↦ (cache', err e)
        | ok b ↦ elim random [
          | none ↦ (cache', err unable_generate_iv)
          | some iv ↦ (
            cache',
            ok (record { ciphertext = gcm.seal b iv plaintext []; key_index = p.current; iv = iv }),
          )
        ]
      ]

  unfoldable pub decrypt_payload :
      KeyProvider → EncryptedPayload → CipherCache → CipherCache × Result (List ℕ)
  decrypt_payload p payload cache =
      if (length payload.iv == 0) || (length payload.ciphertext == 0)
      then (cache, err empty_payload)
      else let (cache', r) = gcm_at p payload.key_index (length payload.iv) cache in
        elim r [
          | err e ↦ (cache', err e)
          | ok b ↦ elim (gcm.open_sealed b payload.iv payload.ciphertext []) [
            | none ↦ (cache', err gcm_failed)
            | some plain ↦ (cache', ok plain)
          ]
        ]

  unfoldable pub encrypt :
      {M Rest : Type 0}
      → (marshal : PayloadValue M → Option (List ℕ)) → KeyProvider
      → DataPacket M Rest
      → Option (List ℕ)
      → CipherCache
      → CipherCache × Result (DataPacket M Rest)
  encrypt marshal p pck random cache = elim (data_packet_value_to_payload pck.value) [
    | none ↦ (cache, ok pck)
    | some payload ↦ elim (marshal payload) [
      | none ↦ (cache, err marshal_failed)
      | some plaintext ↦
          let (cache', r) = encrypt_payload p plaintext random cache in
          elim r [
            | err e ↦ (cache', err e)
            | ok sealed ↦ (cache', ok (record { rest = pck.rest; value = encrypted_packet sealed }))
          ]
    ]
  ]

  unfoldable pub decrypt :
      {M : Type 0}
      → (unmarshal : List ℕ → Option (PayloadValue M)) → KeyProvider
      → EncryptedPayload
      → CipherCache
      → CipherCache × Result (PayloadValue M)
  decrypt unmarshal p ep cache =
      let (cache', r) = decrypt_payload p ep cache in
      elim r [
        | err e ↦ (cache', err e)
        | ok plaintext ↦ elim (unmarshal plaintext) [
          | none ↦ (cache', err unmarshal_failed)
          | some payload ↦ (cache', ok payload)
        ]
      ]
