-- ===== src/PacketTrailer/Sei.antt =====
-- The SEI parsers of H.264 and H.265.
use server_sdk_go.Prelude.{
  ℕ, zero, suc, ◌+◌, ◌*◌, ◌/◌, ◌%◌, ◌^◌, ◌≤◌, ◌<◌, ◌≡◌, ◌≢◌, inl, inr, refl, ap, ◌∙◌, List, [], ◌∷◌,
  ◌++◌, some, length, replicate, ltb, false, take-append, arith, length-append, append_assoc,
}
use server_sdk_go.PacketTrailer.{
  FrameMetadata, found, absent, append_packet_trailer, parse_packet_trailer, parse_sei_user_data,
  sei_number, sei_sized, sei_payload, parse_h264_sei_packet_trailer, parse_h265_sei_packet_trailer,
  packet_trailer_seiuuid,
}
use server_sdk_go.PacketTrailer.RoundTrip.{
  IsMetadata, parse_packet_trailer-append_packet_trailer, length-append_packet_trailer,
}

-- A number as an SEI message writes it.
abbrev pub sei_encode : ℕ → List ℕ
sei_encode n = replicate (n / 255) 255 ++ (n % 255 ∷ [])

sei_number-replicate :
    (k m acc : ℕ) (rest : List ℕ)
    → m < 255
    → sei_number (replicate k 255 ++ (m ∷ rest)) acc ≡ some (acc + 255 * k + m, rest)
unfolding sei_number
sei_number-replicate zero m acc rest h = ground arith
sei_number-replicate (suc k) m acc rest h =
    ground (arith, sei_number-replicate k m (acc + 255) rest h)

sei_number-sei_encode :
    (n : ℕ) (rest : List ℕ) → sei_number (sei_encode n ++ rest) 0 ≡ some (n, rest)
sei_number-sei_encode n rest = rw (append_assoc (replicate (n / 255) 255) (n % 255 ∷ []) rest) (
    sei_number-replicate (n / 255) (n % 255) 0 rest (omega arith)
    ∙ ap (λ k. some (k, rest)) (omega arith))

pub sei_message : List ℕ → List ℕ → List ℕ
sei_message u rest = 5 ∷ (sei_encode (length u) ++ (u ++ rest))

sei_payload-sei_message :
    (u rest : List ℕ) → sei_payload (sei_message u rest) ≡ parse_sei_user_data u
unfolding sei_payload sei_sized sei_message sei_number
sei_payload-sei_message u rest =
    rw (sei_number-sei_encode (length u) (u ++ rest), sei_sized)
      (let enough : ltb (length (u ++ rest)) (length u) ≡ false =
          ground (arith, length-append u rest) in
        rw (enough, take-append (length u) u rest refl))

parse_sei_user_data-found :
    (d : List ℕ) (meta : FrameMetadata)
    → IsMetadata meta
    → meta.user_timestamp ≢ 0
    → parse_sei_user_data (packet_trailer_seiuuid ++ append_packet_trailer d meta) ≡ found meta
unfolding parse_sei_user_data
parse_sei_user_data-found d meta v nz = ground (
  arith,
  length-append_packet_trailer d meta,
  parse_packet_trailer-append_packet_trailer d meta v (inl nz),
)

message_size : (u rest : List ℕ) → 2 ≤ length (sei_message u rest)
unfolding sei_message
message_size u rest = omega (
  arith,
  length-append (sei_encode (length u)) (u ++ rest),
  length-append (replicate (length u / 255) 255) (length u % 255 ∷ []),
)

module _ (h0 h1 : ℕ) (u rest : List ℕ) where
  h264-sei_payload :
      parse_h264_sei_packet_trailer (h0 ∷ sei_message u rest) ≡ sei_payload (sei_message u rest)
  unfolding parse_h264_sei_packet_trailer
  h264-sei_payload = ground (arith, message_size u rest)

  h265-sei_payload :
      parse_h265_sei_packet_trailer (h0 ∷ h1 ∷ sei_message u rest)
      ≡ sei_payload (sei_message u rest)
  unfolding parse_h265_sei_packet_trailer
  h265-sei_payload = ground (arith, message_size u rest)

-- Both parsers find the metadata in a message of type 5 (user data unregistered) whose user data is
-- the UUID and what `appendPacketTrailer` wrote, for every size of the user data, whatever the NAL
-- header is and whatever follows the message. The timestamp must not be zero.
pub parse_sei_found :
    (g h0 h1 : ℕ) (d rest : List ℕ) (meta : FrameMetadata)
    → IsMetadata meta
    → meta.user_timestamp ≢ 0
    → let message = sei_message (packet_trailer_seiuuid ++ append_packet_trailer d meta) rest in
      (parse_h264_sei_packet_trailer (g ∷ message) ≡ found meta)
      × (parse_h265_sei_packet_trailer (h0 ∷ h1 ∷ message) ≡ found meta)
parse_sei_found g h0 h1 d rest meta v nz =
    let u = packet_trailer_seiuuid ++ append_packet_trailer d meta in
    let e = sei_payload-sei_message u rest ∙ parse_sei_user_data-found d meta v nz in
    (h264-sei_payload g h1 u rest ∙ e, h265-sei_payload h0 h1 u rest ∙ e)

-- User data of the UUID and a trailer with a frame id alone, for any frame id of 32 bits that is not
-- zero, is turned down by `parseSEIUserData`, though `parsePacketTrailer` reads that very trailer: the
-- minimum that is asked for counts a timestamp.
pub parse_sei_frame_id_only :
    (id : ℕ)
    → id ≢ 0
    → id < 2 ^ 32
    → let meta : FrameMetadata = record { user_timestamp = 0; frame_id = id } in
      (parse_packet_trailer (append_packet_trailer [] meta) ≡ found meta)
      × (parse_sei_user_data (packet_trailer_seiuuid ++ append_packet_trailer [] meta) ≡ absent)
unfolding parse_sei_user_data
parse_sei_frame_id_only id nz h =
    let meta : FrameMetadata = record { user_timestamp = 0; frame_id = id } in
    (
      parse_packet_trailer-append_packet_trailer [] meta (omega arith) (inr nz),
      ground (arith, length-append_packet_trailer [] meta),
    )
