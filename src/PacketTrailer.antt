-- ===== src/PacketTrailer.antt =====
-- packet_trailer.go, packet_trailer_h264_parser.go and packet_trailer_h265_parser.go: the trailer
-- of timestamp and frame number behind a frame, and the SEI messages that carry one. A byte slice
-- is a list of numbers, and an index that the code's own tests keep in range reads with default 0.
pub mod Layout
pub mod RoundTrip
pub mod Totality
pub mod Sei
mod Tests
use server_sdk_go.Prelude.{
  ℕ, zero, suc, ◌+◌, ◌-◌, ◌*◌, ◌/◌, ◌%◌, ◌^◌, Bool, true, false, not, ◌&&◌, ◌||◌, List, [], ◌∷◌,
  ◌++◌, Option, none, some, ltb, leb, ◌==◌, if◌then◌else◌, length, get_or, take, drop, bytes_equal,
  bit_or, bit_xor,
}

abbrev pub packet_trailer_seiuuid : List ℕ
packet_trailer_seiuuid =
    0x3f ∷ 0xa8 ∷ 0x5f ∷ 0x64 ∷ 0x57 ∷ 0x17 ∷ 0x45 ∷ 0x62 ∷ 0xb3 ∷ 0xfc ∷ 0x2c ∷ 0x96 ∷ 0x3f ∷ 0x66
    ∷ 0xaf ∷ 0xa6 ∷ []

-- "LKTS"
abbrev pub packet_trailer_magic : List ℕ
packet_trailer_magic = b'L' ∷ b'K' ∷ b'T' ∷ b'S' ∷ []

abbrev pub tag_user_timestamp : ℕ
tag_user_timestamp = 1

abbrev pub tag_frame_id : ℕ
tag_frame_id = 2

abbrev pub timestamp_tlv_size : ℕ
timestamp_tlv_size = 10

abbrev pub frame_id_tlv_size : ℕ
frame_id_tlv_size = 6

abbrev pub trailer_envelope_size : ℕ
trailer_envelope_size = 5

abbrev pub packet_trailer_min_size : ℕ
packet_trailer_min_size = timestamp_tlv_size + trailer_envelope_size

pub record FrameMetadata : Type 0 where
  pub user_timestamp : ℕ
  pub frame_id : ℕ

abbrev pub no_metadata : FrameMetadata
no_metadata = record { user_timestamp = 0; frame_id = 0 }

-- `(FrameMetadata, bool)`; `stuck` is no Go value, it says that a loop ran out of fuel.
pub data Parsed : Type 0 where
  found : FrameMetadata → Parsed
  absent : Parsed
  stuck : Parsed

-- The `n` low bytes of a number, the highest first: `binary.BigEndian.PutUint64` and `PutUint32`.
unfoldable pub be_bytes : ℕ → ℕ → List ℕ
be_bytes zero v = []
be_bytes (suc n) v = be_bytes n (v / 256) ++ (v % 256 ∷ [])

-- `^x` on an unsigned word of `w` bits.
abbrev pub complement : ℕ → ℕ → ℕ
complement w x = 2 ^ w - 1 - x

pub timestamp_tlv : ℕ → List ℕ
timestamp_tlv ts = bit_xor tag_user_timestamp 0xff ∷ bit_xor 8 0xff ∷ be_bytes 8 (complement 64 ts)

pub frame_id_tlv : ℕ → List ℕ
frame_id_tlv id = bit_xor tag_frame_id 0xff ∷ bit_xor 4 0xff ∷ be_bytes 4 (complement 32 id)

-- What `appendPacketTrailer` writes behind the frame, from the two tests on.
pub trailer_bytes : FrameMetadata → Bool → Bool → List ℕ
trailer_bytes meta has_timestamp has_frame_id =
    let trailer_len =
      trailer_envelope_size
      + (if has_timestamp then timestamp_tlv_size else 0)
      + (if has_frame_id then frame_id_tlv_size else 0) in
    (if has_timestamp then timestamp_tlv meta.user_timestamp else [])
    ++ ((if has_frame_id then frame_id_tlv meta.frame_id else [])
        ++ (bit_xor (trailer_len % 256) 0xff ∷ packet_trailer_magic))

pub append_packet_trailer : List ℕ → FrameMetadata → List ℕ
append_packet_trailer d meta =
    let has_timestamp = not (meta.user_timestamp == 0) in
    let has_frame_id = not (meta.frame_id == 0) in
    if not has_timestamp && not has_frame_id
    then d
    else d ++ trailer_bytes meta has_timestamp has_frame_id

-- `for i := 0; i < n; i++ { v = (v << 8) | uint(region[pos+i]^0xFF) }` on a word of `w` bits.
pub read_be : (ℕ → ℕ) → ℕ → ℕ → ℕ → ℕ → ℕ
read_be region w pos zero v = v
read_be region w pos (suc n) v =
    read_be region w (pos + 1) n (bit_or (v * 256 % 2 ^ w) (bit_xor (region pos) 0xff))

-- The `switch` on one element's tag and length.
pub read_element : (ℕ → ℕ) → ℕ → ℕ → ℕ → FrameMetadata → Bool → FrameMetadata × Bool
read_element region tag len pos meta found_any =
    if (tag == tag_user_timestamp) && (len == 8)
    then (record meta { user_timestamp = read_be region 64 pos 8 0 }, true)
    else if (tag == tag_frame_id) && (len == 4)
    then (record meta { frame_id = read_be region 32 pos 4 0 }, true)
    else (meta, found_any)

abbrev pub conclude : FrameMetadata × Bool → Parsed
conclude (meta, found_any) = if found_any then found meta else absent

-- The loop over the elements. `region i` is `data[tlvStart+i]`. Each round moves `pos` by 2 at
-- least, and the fuel that the caller gives is never used up.
pub tlv_loop : ℕ → (ℕ → ℕ) → ℕ → ℕ → FrameMetadata → Bool → Parsed
tlv_loop zero region region_len pos meta found_any =
    if leb (pos + 2) region_len then stuck else conclude (meta, found_any)
tlv_loop (suc fuel) region region_len pos meta found_any =
    let len = bit_xor (region (pos + 1)) 0xff in
    let (meta', found_any') =
      read_element region (bit_xor (region pos) 0xff) len (pos + 2) meta found_any in
    let rest = tlv_loop fuel region region_len (pos + 2 + len) meta' found_any' in
    if leb (pos + 2) region_len
    then (if ltb region_len (pos + 2 + len) then conclude (meta, found_any) else rest)
    else conclude (meta, found_any)

-- The tests with which `parsePacketTrailer` and `stripPacketTrailer` begin: the trailer's length.
pub trailer_length : List ℕ → Option ℕ
trailer_length d =
    let magic_start = length d - length packet_trailer_magic in
    let trailer_len = bit_xor (get_or d (magic_start - 1) 0) 0xff in
    if ltb (length d) trailer_envelope_size
    then none
    else if not (bytes_equal (drop magic_start d) packet_trailer_magic)
    then none
    else if ltb trailer_len trailer_envelope_size || ltb (length d) trailer_len
    then none
    else some trailer_len

pub parse_packet_trailer : List ℕ → Parsed
parse_packet_trailer d = elim (trailer_length d) [
  | none ↦ absent
  | some trailer_len ↦
      let tlv_start = length d - trailer_len in
      let tlv_region_len = trailer_len - trailer_envelope_size in
      tlv_loop tlv_region_len (λ i. get_or d (tlv_start + i) 0) tlv_region_len 0 no_metadata false
]

pub strip_packet_trailer : List ℕ → List ℕ
strip_packet_trailer d = elim (trailer_length d) [
  | none ↦ d
  | some trailer_len ↦ take (length d - trailer_len) d
]

pub parse_sei_user_data : List ℕ → Parsed
parse_sei_user_data user_data =
    if ltb (length user_data) (16 + packet_trailer_min_size)
    then absent
    else if not (bytes_equal (take 16 user_data) packet_trailer_seiuuid)
    then absent
    else parse_packet_trailer (drop 16 user_data)

-- A number of an SEI message: bytes 0xff count 255 each, and the first other byte ends it. The list
-- is `payload[i:]`, and the result has the number and `payload[i:]` behind it.
pub sei_number : List ℕ → ℕ → Option (ℕ × List ℕ)
sei_number [] acc = none
sei_number (b ∷ rest) acc = if b == 0xff then sei_number rest (acc + 255) else some (acc + b, rest)

-- From the payload's size on.
pub sei_sized : List ℕ → Parsed
sei_sized payload = elim (sei_number payload 0) [
  | none ↦ absent
  | some (payload_size, rest) ↦
      if ltb (length rest) payload_size
      then absent
      else parse_sei_user_data (take payload_size rest)
]

-- What both parsers do behind the NAL header.
pub sei_payload : List ℕ → Parsed
sei_payload payload = elim (sei_number payload 0) [
  | none ↦ absent
  | some (payload_type, rest) ↦ if not (payload_type == 5) then absent else sei_sized rest
]

pub parse_h264_sei_packet_trailer : List ℕ → Parsed
parse_h264_sei_packet_trailer nal_data =
    if ltb (length nal_data) 2 then absent else sei_payload (drop 1 nal_data)

pub parse_h265_sei_packet_trailer : List ℕ → Parsed
parse_h265_sei_packet_trailer nal_data =
    if ltb (length nal_data) 3 then absent else sei_payload (drop 2 nal_data)
