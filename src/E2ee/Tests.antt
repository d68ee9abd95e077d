-- ===== src/E2ee/Tests.antt =====
-- Runs of the codecs of e2ee/codec_video.go, encryption.go, e2ee/keyprovider.go,
-- e2ee/frameencryptor.go and e2ee/datacryptor.go over a toy cipher that only adds a tag byte.
use server_sdk_go.Prelude.{
  ℕ, ◌+◌, ◌≡◌, ◌↔◌, ◌⊎◌, ◌<◌, refl, true, false, List, [], ◌∷◌, Option, some, none, arith, lookup,
}
use server_sdk_go.E2ee.Gcm.{Gcm, GcmLaws, bytes, panics}
use server_sdk_go.E2ee.Rbsp.{write_rbsp, parse_rbsp, write_loop, parse_rbsp-write_rbsp}
use server_sdk_go.E2ee.Nalu.{
  nalu_loop, find_nalu_indices, first_slice, is_h264_slice, is_h265_slice, is_h265_slice_nalu,
  find_h264_unencrypted_bytes, find_h265_unencrypted_bytes,
}
use server_sdk_go.E2ee.Video.{
  ends_with_sif, enc_portion, encrypt_video_sample, encrypt_gcm_h264_sample_custom_cipher,
  decrypt_gcm_h264_sample_custom_cipher, encrypt_gcm_h265_sample_custom_cipher,
  decrypt_gcm_h265_sample_custom_cipher,
}
use server_sdk_go.E2ee.Video.RoundTrip.{
  decrypt_gcm_h264_sample-encrypt_gcm_h264_sample, decrypt_gcm_h265_sample-encrypt_gcm_h265_sample,
}
use server_sdk_go.E2ee.Audio.{
  encrypt_gcm_audio_sample_custom_cipher, decrypt_gcm_audio_sample_custom_cipher,
}
use server_sdk_go.E2ee.Audio.RoundTrip.{
  decrypt_gcm_audio_sample-encrypt_gcm_audio_sample, decrypt_gcm_audio_sample_panics,
}
use server_sdk_go.E2ee.Keys.{KeyProvider, get_key, IsValid, new_external_key_provider}
use server_sdk_go.E2ee.FrameCryptor.{
  CipherState, EncryptFn, DecryptFn, block_at, new_gcm_frame_encryptor, encryptor, encrypt_frame,
  decrypt_frame,
}
use server_sdk_go.E2ee.FrameCryptor.Cache.{
  IsCurrent, new_gcm_frame_encryptor-IsCurrent, encrypt_frame-encrypt_directly, encrypt_frame_stale,
  encrypt_directly, decrypt_directly, decrypt_frame-decrypt_directly,
}
use server_sdk_go.E2ee.FrameCryptor.Cache
use server_sdk_go.E2ee.DataCryptor.{
  user, encrypted_packet, PayloadValue, payload_user, payload_chat_message, payload_rpc_request,
  payload_rpc_ack, payload_rpc_response, payload_stream_header, payload_stream_chunk,
  payload_stream_trailer, payload_unset, EncryptedPayload, ok, DataPacket,
  data_packet_value_to_payload, decrypted_payload_to_data_packet_value, encrypt, decrypt,
  encrypt_payload, gcm_at, get_cipher_block, cached_cipher,
}
use server_sdk_go.E2ee.DataCryptor.RoundTrip.{decrypt-encrypt}
use server_sdk_go.E2ee.DataCryptor.RoundTrip

abbrev toy_open : List ℕ → Option (List ℕ)
toy_open [] = none
toy_open (tag ∷ plain) = some plain

abbrev toy : Gcm
toy = record {
  Block = List ℕ;
  new_cipher = λ key. some key;
  accepts_nonce_size = λ b n. true;
  seal = λ b iv plain aad. 7 ∷ plain;
  open_sealed = λ b iv sealed aad. toy_open sealed;
}

toy_laws : GcmLaws toy
toy_laws = record { opens = λ b iv plain aad. refl; seals = λ b iv plain aad. omega arith }

abbrev nonce : List ℕ
nonce = 1 ∷ 2 ∷ 3 ∷ 4 ∷ 5 ∷ 6 ∷ 7 ∷ 8 ∷ 9 ∷ 10 ∷ 11 ∷ 12 ∷ []

abbrev sif : Option (List ℕ)
sif = some (1 ∷ 2 ∷ [])

abbrev h264_sample : List ℕ
h264_sample = 0 ∷ 0 ∷ 0 ∷ 1 ∷ 0x65 ∷ 0x88 ∷ 7 ∷ 0 ∷ 0 ∷ 1 ∷ 9 ∷ []

abbrev h264_encrypted : List ℕ
h264_encrypted =
    0 ∷ 0 ∷ 0 ∷ 1 ∷ 0x65 ∷ 0x88 ∷ 7 ∷ 7 ∷ 0 ∷ 0 ∷ 3 ∷ 1 ∷ 9 ∷ 1 ∷ 2 ∷ 3 ∷ 4 ∷ 5 ∷ 6 ∷ 7 ∷ 8 ∷ 9 ∷ 10
    ∷ 11 ∷ 12 ∷ 12 ∷ 1 ∷ []

h264_encrypts :
    encrypt_gcm_h264_sample_custom_cipher toy h264_sample 1 (some (5 ∷ [])) (some nonce)
    ≡ bytes h264_encrypted
unfolding encrypt_gcm_h264_sample_custom_cipher encrypt_video_sample find_h264_unencrypted_bytes
    find_nalu_indices nalu_loop first_slice is_h264_slice enc_portion write_rbsp write_loop
h264_encrypts = refl

no_sif : ends_with_sif h264_encrypted sif ≡ false
unfolding ends_with_sif
no_sif = refl

decrypt_gcm_h264_sample-encrypt_gcm_h264_sample_example :
    decrypt_gcm_h264_sample_custom_cipher toy h264_encrypted sif (some (5 ∷ [])) ≡ bytes h264_sample
decrypt_gcm_h264_sample-encrypt_gcm_h264_sample_example =
    decrypt_gcm_h264_sample-encrypt_gcm_h264_sample toy toy_laws (5 ∷ []) h264_sample nonce
      h264_encrypted 1 sif refl h264_encrypts no_sif

-- A slice of type 19, an instantaneous decoder refresh.
abbrev h265_sample : List ℕ
h265_sample = 0 ∷ 0 ∷ 1 ∷ 0x26 ∷ 0x01 ∷ 7 ∷ 0 ∷ 0 ∷ 1 ∷ 9 ∷ []

abbrev h265_encrypted : List ℕ
h265_encrypted =
    0 ∷ 0 ∷ 1 ∷ 0x26 ∷ 0x01 ∷ 7 ∷ 7 ∷ 0 ∷ 0 ∷ 3 ∷ 1 ∷ 9 ∷ 1 ∷ 2 ∷ 3 ∷ 4 ∷ 5 ∷ 6 ∷ 7 ∷ 8 ∷ 9 ∷ 10
    ∷ 11 ∷ 12 ∷ 12 ∷ 1 ∷ []

h265_encrypts :
    encrypt_gcm_h265_sample_custom_cipher toy h265_sample 1 (some (5 ∷ [])) (some nonce)
    ≡ bytes h265_encrypted
unfolding encrypt_gcm_h265_sample_custom_cipher encrypt_video_sample find_h265_unencrypted_bytes
    find_nalu_indices nalu_loop first_slice is_h265_slice is_h265_slice_nalu enc_portion write_rbsp
    write_loop
h265_encrypts = refl

h265_no_sif : ends_with_sif h265_encrypted sif ≡ false
unfolding ends_with_sif
h265_no_sif = refl

decrypt_gcm_h265_sample-encrypt_gcm_h265_sample_example :
    decrypt_gcm_h265_sample_custom_cipher toy h265_encrypted sif (some (5 ∷ [])) ≡ bytes h265_sample
decrypt_gcm_h265_sample-encrypt_gcm_h265_sample_example =
    decrypt_gcm_h265_sample-encrypt_gcm_h265_sample toy toy_laws (5 ∷ []) h265_sample nonce
      h265_encrypted 1 sif refl h265_encrypts h265_no_sif

parse_rbsp-write_rbsp_example : parse_rbsp (write_rbsp (0 ∷ 0 ∷ 0 ∷ 3 ∷ [])) ≡ 0 ∷ 0 ∷ 0 ∷ 3 ∷ []
parse_rbsp-write_rbsp_example = parse_rbsp-write_rbsp (0 ∷ 0 ∷ 0 ∷ 3 ∷ [])

abbrev audio_encrypted : List ℕ
audio_encrypted = 0x78 ∷ 7 ∷ 4 ∷ 4 ∷ 1 ∷ 2 ∷ 3 ∷ 4 ∷ 5 ∷ 6 ∷ 7 ∷ 8 ∷ 9 ∷ 10 ∷ 11 ∷ 12 ∷ 12 ∷ 1 ∷ []

audio_encrypts :
    encrypt_gcm_audio_sample_custom_cipher toy
      (some (0x78 ∷ 4 ∷ 4 ∷ []))
      1
      (some (5 ∷ []))
      (some nonce)
    ≡ bytes audio_encrypted
unfolding encrypt_gcm_audio_sample_custom_cipher
audio_encrypts = refl

audio_no_sif : ends_with_sif audio_encrypted sif ≡ false
unfolding ends_with_sif
audio_no_sif = refl

decrypt_gcm_audio_sample-encrypt_gcm_audio_sample_example :
    decrypt_gcm_audio_sample_custom_cipher toy (some audio_encrypted) sif (some (5 ∷ []))
    ≡ bytes (0x78 ∷ 4 ∷ 4 ∷ [])
decrypt_gcm_audio_sample-encrypt_gcm_audio_sample_example =
    decrypt_gcm_audio_sample-encrypt_gcm_audio_sample toy toy_laws (5 ∷ []) 0x78 (4 ∷ 4 ∷ []) nonce
      audio_encrypted 1 sif refl audio_encrypts audio_no_sif

bad_no_sif : ends_with_sif (3 ∷ 3 ∷ 3 ∷ 3 ∷ 0 ∷ []) sif ≡ false
unfolding ends_with_sif
bad_no_sif = refl

decrypt_gcm_audio_sample_panics_example :
    (decrypt_gcm_audio_sample_custom_cipher toy (some (3 ∷ 3 ∷ 3 ∷ 3 ∷ 0 ∷ [])) sif (some (5 ∷ []))
      ≡ panics)
    ↔ ((5 < 2) ⊎ (3 + 2 ≡ 5))
decrypt_gcm_audio_sample_panics_example =
    decrypt_gcm_audio_sample_panics toy (5 ∷ []) (3 ∷ 3 ∷ 3 ∷ 3 ∷ 0 ∷ []) sif bad_no_sif

abbrev key_a : List ℕ
key_a = 1 ∷ 1 ∷ 1 ∷ 1 ∷ 1 ∷ 1 ∷ 1 ∷ 1 ∷ 1 ∷ 1 ∷ 1 ∷ 1 ∷ 1 ∷ 1 ∷ 1 ∷ 1 ∷ []

new-IsValid : IsValid new_external_key_provider
unfolding IsValid get_key lookup
new-IsValid = (omega arith, λ i key e. absurd (ground arith))

-- One key at index 4, and another in its place.
abbrev sender : KeyProvider
sender = record { current = 4; key_at = λ i. some key_a }

abbrev refreshed : KeyProvider
refreshed = record { current = 4; key_at = λ i. some (9 ∷ key_a) }

abbrev state_a : CipherState toy
state_a = record { block = key_a; key_index = 3; key_bytes = [] }

abbrev echo : EncryptFn toy
echo = λ payload kid b. bytes (kid ∷ b)

abbrev unwrap : DecryptFn toy
unwrap = λ payload t b. bytes b

state_a-IsCurrent : IsCurrent toy sender state_a
unfolding IsCurrent block_at
state_a-IsCurrent = (key_a, refl)

encrypt_frame-encrypt_directly_example :
    ((encrypt_frame toy sender echo (1 ∷ 2 ∷ []) state_a).1
      ≡ encrypt_directly toy sender echo (1 ∷ 2 ∷ []))
    × IsCurrent toy sender (encrypt_frame toy sender echo (1 ∷ 2 ∷ []) state_a).0
encrypt_frame-encrypt_directly_example =
    encrypt_frame-encrypt_directly toy sender echo (1 ∷ 2 ∷ []) state_a state_a-IsCurrent

abbrev state_b : CipherState toy
state_b = record { block = key_a; key_index = 4; key_bytes = [] }

encrypt_frame_stale_example :
    encrypt_frame toy sender echo (1 ∷ 2 ∷ []) state_b
    ≡ encrypt_frame toy refreshed echo (1 ∷ 2 ∷ []) state_b
encrypt_frame_stale_example =
    encrypt_frame_stale toy sender refreshed echo (1 ∷ 2 ∷ []) state_b refl refl

-- The cache holds the key that was replaced.
cache-IsFresh :
    Cache.IsFresh toy ((4, record { block = key_a; key_index = 4; key_bytes = key_a }) ∷ [])
unfolding Cache.IsFresh lookup
cache-IsFresh i s h = ground arith

decrypt_frame-decrypt_directly_example :
    ((decrypt_frame toy refreshed unwrap sif
        (1 ∷ 2 ∷ 4 ∷ [])
        ((4, record { block = key_a; key_index = 4; key_bytes = key_a }) ∷ [])).1
      ≡ decrypt_directly toy refreshed unwrap sif (1 ∷ 2 ∷ 4 ∷ []))
    × Cache.IsFresh toy
        (decrypt_frame toy refreshed unwrap sif
          (1 ∷ 2 ∷ 4 ∷ [])
          ((4, record { block = key_a; key_index = 4; key_bytes = key_a }) ∷ [])).0
decrypt_frame-decrypt_directly_example =
    decrypt_frame-decrypt_directly toy refreshed unwrap sif (1 ∷ 2 ∷ 4 ∷ [])
      ((4, record { block = key_a; key_index = 4; key_bytes = key_a }) ∷ []) cache-IsFresh

-- An encoding that knows only the values of one kind.
abbrev toy_marshal : PayloadValue (List ℕ) → Option (List ℕ)
toy_marshal (payload_user m) = some m
toy_marshal other_value = none

toy_marshal_law :
    (v : PayloadValue (List ℕ)) (bs : List ℕ)
    → toy_marshal v ≡ some bs
    → some (payload_user bs) ≡ some v
toy_marshal_law (payload_user m) bs h = ground arith
toy_marshal_law (payload_chat_message m) bs h = absurd (ground arith)
toy_marshal_law (payload_rpc_request m) bs h = absurd (ground arith)
toy_marshal_law (payload_rpc_ack m) bs h = absurd (ground arith)
toy_marshal_law (payload_rpc_response m) bs h = absurd (ground arith)
toy_marshal_law (payload_stream_header m) bs h = absurd (ground arith)
toy_marshal_law (payload_stream_chunk m) bs h = absurd (ground arith)
toy_marshal_law (payload_stream_trailer m) bs h = absurd (ground arith)
toy_marshal_law payload_unset bs h = absurd (ground arith)

no_cache-IsFresh : RoundTrip.IsFresh toy []
unfolding RoundTrip.IsFresh lookup
no_cache-IsFresh i s h = absurd (ground arith)

abbrev packet : DataPacket (List ℕ) ℕ
packet = record { rest = 3; value = user (8 ∷ 9 ∷ []) }

abbrev packet_encrypted : DataPacket (List ℕ) ℕ
packet_encrypted = record {
  rest = 3;
  value = encrypted_packet (record { ciphertext = 7 ∷ 8 ∷ 9 ∷ []; key_index = 4; iv = nonce });
}

packet_encrypts : (encrypt toy toy_marshal sender packet (some nonce) []).1 ≡ ok packet_encrypted
unfolding encrypt encrypt_payload gcm_at get_cipher_block cached_cipher data_packet_value_to_payload
    lookup
packet_encrypts = refl

packet_payload : data_packet_value_to_payload packet.value ≡ some (payload_user (8 ∷ 9 ∷ []))
unfolding data_packet_value_to_payload
packet_payload = refl

decrypt-encrypt_example :
    (sealed : EncryptedPayload) × (packet_encrypted.value ≡ encrypted_packet sealed)
    × ((decrypt toy (λ bs. some (payload_user bs)) sender sealed []).1
        ≡ ok (payload_user (8 ∷ 9 ∷ [])))
    × (decrypted_payload_to_data_packet_value packet_encrypted.value (payload_user (8 ∷ 9 ∷ []))
        ≡ packet.value)
decrypt-encrypt_example =
    decrypt-encrypt toy toy_laws toy_marshal (λ bs. some (payload_user bs)) toy_marshal_law sender
      sender packet packet_encrypted (payload_user (8 ∷ 9 ∷ [])) nonce [] [] no_cache-IsFresh
      no_cache-IsFresh refl refl packet_payload packet_encrypts

new_encryptor : new_gcm_frame_encryptor toy sender ≡ encryptor state_b
unfolding new_gcm_frame_encryptor block_at
new_encryptor = refl
