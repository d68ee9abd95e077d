-- ===== src/PacketTrailer/Tests.antt =====
-- Concrete runs of the trailer's code, and the theorems at concrete inputs.
use server_sdk_go.Prelude.{ℕ, ◌≡◌, refl, inl, List, [], ◌∷◌, ◌++◌, arith}
use server_sdk_go.PacketTrailer.{
  FrameMetadata, found, absent, append_packet_trailer, parse_packet_trailer, parse_sei_user_data,
  parse_h264_sei_packet_trailer, parse_h265_sei_packet_trailer, trailer_bytes, timestamp_tlv,
  frame_id_tlv, be_bytes, tlv_loop, read_element, read_be, trailer_length, packet_trailer_seiuuid,
}
use server_sdk_go.PacketTrailer.RoundTrip.{parse_packet_trailer-append_packet_trailer}
use server_sdk_go.PacketTrailer.Sei.{sei_message, parse_sei_found, parse_sei_frame_id_only}

abbrev both : FrameMetadata
both = record { user_timestamp = 1_700_000_000_000_000; frame_id = 7 }

abbrev frame : List ℕ
frame = 0 ∷ 0 ∷ 1 ∷ 0x65 ∷ []

abbrev id_only : FrameMetadata
id_only = record { user_timestamp = 0; frame_id = 258 }

-- tag 2, length 4, the id 258, length 11, all inverted, and the magic
append_id_only :
    append_packet_trailer [] id_only
    ≡ 0xfd ∷ 0xfb ∷ 0xff ∷ 0xff ∷ 0xfe ∷ 0xfd ∷ 0xf4 ∷ 76 ∷ 75 ∷ 84 ∷ 83 ∷ []
unfolding append_packet_trailer trailer_bytes frame_id_tlv be_bytes
append_id_only = refl

parse_both : parse_packet_trailer (append_packet_trailer frame both) ≡ found both
unfolding append_packet_trailer trailer_bytes timestamp_tlv frame_id_tlv be_bytes
    parse_packet_trailer trailer_length tlv_loop read_element read_be
parse_both = refl

parse_packet_trailer-append_packet_trailer_example :
    parse_packet_trailer (append_packet_trailer frame both) ≡ found both
parse_packet_trailer-append_packet_trailer_example =
    parse_packet_trailer-append_packet_trailer frame both (omega arith) (inl (omega arith))

parse_sei_found_example :
    (parse_h264_sei_packet_trailer
        (6 ∷ sei_message (packet_trailer_seiuuid ++ append_packet_trailer [] both) (0x80 ∷ []))
      ≡ found both)
    × (parse_h265_sei_packet_trailer (
          0x4e
          ∷ 1
          ∷ sei_message (packet_trailer_seiuuid ++ append_packet_trailer [] both) (0x80 ∷ []))
        ≡ found both)
parse_sei_found_example = parse_sei_found 6 0x4e 1 [] (0x80 ∷ []) both (omega arith) (omega arith)

parse_sei_frame_id_only_example :
    (parse_packet_trailer (append_packet_trailer [] id_only) ≡ found id_only)
    × (parse_sei_user_data (packet_trailer_seiuuid ++ append_packet_trailer [] id_only) ≡ absent)
parse_sei_frame_id_only_example = parse_sei_frame_id_only 258 (omega arith) (omega arith)
