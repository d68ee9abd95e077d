-- ===== src/Datatrack/Proto/RoundTrip.antt =====
-- Both directions of the messages of internal/datatrack/proto.go.
use server_sdk_go.Prelude.{
  ℕ, ◌≤◌, ◌≡◌, ◌≢◌, refl, ap, Bool, true, false, List, [], ◌∷◌, map, Option, none, some, arith, All,
  if◌then◌else◌,
}
use server_sdk_go.Datatrack.Handle.{handle, max_uint16, handle_from_uint32}
use server_sdk_go.Datatrack.Schema.{
  schema_other, schema_protobuf, schema_flatbuffer, schema_ros1_msg, schema_ros2_msg,
  schema_ros2_idl, schema_omg_idl, schema_json, SchemaEncoding, well_known_schema, custom_schema,
  frame_other, frame_ros1, frame_cdr, frame_protobuf, frame_flatbuffer, frame_cbor, frame_msgpack,
  frame_json, FrameEncoding, well_known_frame, custom_frame, SchemaId,
}
use server_sdk_go.Datatrack.Proto.{
  well_known_schema_from_proto, well_known_schema_to_proto, well_known_frame_from_proto,
  well_known_frame_to_proto, schema_encoding_from_proto, schema_encoding_to_proto,
  frame_encoding_from_proto, frame_encoding_to_proto, schema_id_from_proto, schema_id_to_proto,
  encryption_none, encryption_gcm, Info, accepted, parse_sid, uses_e2ee_of, schema_of,
  frame_encoding_of, info_from_proto, schema_message, frame_encoding_message, info_to_proto, infos,
  also, extract_track_info, RequestResponse, reason_ok, Rejection, rejection_error,
  publish_rejection_from_request_response,
}

schema_from_proto-to_proto :
    (e : SchemaEncoding) → schema_encoding_from_proto (schema_encoding_to_proto (some e)) ≡ e
unfolding schema_encoding_from_proto schema_encoding_to_proto well_known_schema_from_proto
    well_known_schema_to_proto
schema_from_proto-to_proto (custom_schema n) = refl
schema_from_proto-to_proto (well_known_schema schema_other) = refl
schema_from_proto-to_proto (well_known_schema schema_protobuf) = refl
schema_from_proto-to_proto (well_known_schema schema_flatbuffer) = refl
schema_from_proto-to_proto (well_known_schema schema_ros1_msg) = refl
schema_from_proto-to_proto (well_known_schema schema_ros2_msg) = refl
schema_from_proto-to_proto (well_known_schema schema_ros2_idl) = refl
schema_from_proto-to_proto (well_known_schema schema_omg_idl) = refl
schema_from_proto-to_proto (well_known_schema schema_json) = refl

frame_from_proto-to_proto :
    (e : FrameEncoding) → frame_encoding_from_proto (frame_encoding_to_proto (some e)) ≡ e
unfolding frame_encoding_from_proto frame_encoding_to_proto well_known_frame_from_proto
    well_known_frame_to_proto
frame_from_proto-to_proto (custom_frame n) = refl
frame_from_proto-to_proto (well_known_frame frame_other) = refl
frame_from_proto-to_proto (well_known_frame frame_ros1) = refl
frame_from_proto-to_proto (well_known_frame frame_cdr) = refl
frame_from_proto-to_proto (well_known_frame frame_protobuf) = refl
frame_from_proto-to_proto (well_known_frame frame_flatbuffer) = refl
frame_from_proto-to_proto (well_known_frame frame_cbor) = refl
frame_from_proto-to_proto (well_known_frame frame_msgpack) = refl
frame_from_proto-to_proto (well_known_frame frame_json) = refl

-- A schema that is set has its encoding set.
unfoldable pub HasEncoding : Option SchemaId → Type 0
HasEncoding none = Unit
HasEncoding (some id) = (e : SchemaEncoding) × (id.encoding ≡ some e)

schema_of-schema_message : (s : Option SchemaId) → HasEncoding s → schema_of (schema_message s) ≡ s
unfolding schema_of schema_message schema_id_from_proto schema_id_to_proto HasEncoding
schema_of-schema_message none h = refl
schema_of-schema_message (some id) h = ground (arith, h.1, schema_from_proto-to_proto h.0)

frame_encoding_of-frame_encoding_message :
    (e : Option FrameEncoding) → frame_encoding_of (frame_encoding_message e) ≡ e
unfolding frame_encoding_of frame_encoding_message
frame_encoding_of-frame_encoding_message none = refl
frame_encoding_of-frame_encoding_message (some e) = ap some (frame_from_proto-to_proto e)

uses_e2ee_of-if : (b : Bool) → uses_e2ee_of (if b then encryption_gcm else encryption_none) ≡ some b
unfolding uses_e2ee_of
uses_e2ee_of-if true = refl
uses_e2ee_of-if false = refl

handle_from_uint32_lem : (n : ℕ) → 1 ≤ n → n ≤ max_uint16 → handle_from_uint32 n ≡ handle n
unfolding handle_from_uint32
handle_from_uint32_lem n low high = ground arith

-- What a published track has: a handle that is not reserved, an SID of data tracks, and an encoding
-- for its schema.
pub record IsPublished (prefix : List ℕ) (i : Info) : Type 0 where
  pub handle_low : 1 ≤ i.pub_handle
  pub handle_high : i.pub_handle ≤ max_uint16
  pub sid_parses : parse_sid prefix i.sid ≡ some i.sid
  pub has_encoding : HasEncoding i.schema

info_from_proto-info_to_proto :
    (prefix : List ℕ) (i : Info)
    → IsPublished prefix i
    → info_from_proto prefix (info_to_proto i) ≡ accepted i
unfolding info_from_proto info_to_proto
info_from_proto-info_to_proto prefix i v =
    rw
      (
        handle_from_uint32_lem i.pub_handle v.handle_low v.handle_high,
        uses_e2ee_of-if i.uses_e2ee,
        v.sid_parses,
        schema_of-schema_message i.schema v.has_encoding,
        frame_encoding_of-frame_encoding_message i.frame_encoding,
        info_from_proto,
      )
      refl

-- The tracks that a participant lists are read back from the messages written for them, in order,
-- when each has a handle from 1 to 65535, an SID of data tracks and, where it has a schema, the
-- schema's encoding.
pub extract_track_info-info_to_proto :
    (prefix : List ℕ) (is : List Info)
    → All (IsPublished prefix) is
    → extract_track_info prefix (map info_to_proto is) ≡ infos is
unfolding extract_track_info also
extract_track_info-info_to_proto prefix [] h = refl
extract_track_info-info_to_proto prefix (i ∷ is) h =
    rw (info_from_proto-info_to_proto prefix i h.0, extract_track_info)
      (ap (also i) (extract_track_info-info_to_proto prefix is h.1))

-- A rejection is one of a publish request with a handle from 1 to 65535, for a reason other than OK,
-- and it names that handle and the server's message.
pub publish_rejection_lem :
    (msg : RequestResponse) (r : Rejection)
    → publish_rejection_from_request_response msg ≡ some r
    → (msg.publish_handle ≡ some r.handle)
      × (1 ≤ r.handle)
      × (r.handle ≤ max_uint16)
      × (msg.reason ≢ reason_ok)
      × (r.message ≡ msg.message)
unfolding publish_rejection_from_request_response rejection_error handle_from_uint32
publish_rejection_lem msg r h = ground arith
