-- ===== src/Datatrack/Proto.antt =====
-- internal/datatrack/proto.go and info.go: data tracks in the protocol's messages. The messages'
-- own types are generated code; here they have the fields and values that the source uses.
mod RoundTrip
mod Tests
use server_sdk_go.Prelude.{
  ℕ, Bool, true, false, ◌&&◌, List, [], ◌∷◌, Option, none, some, leb, if◌then◌else◌, length, take,
  bytes_equal, ◌==◌,
}
use server_sdk_go.Datatrack.Handle.{HandleError, HandleResult, handle, failed, handle_from_uint32}
use server_sdk_go.Datatrack.Schema.{
  WellKnownSchemaEncoding, schema_other, schema_protobuf, schema_flatbuffer, schema_ros1_msg,
  schema_ros2_msg, schema_ros2_idl, schema_omg_idl, schema_json, SchemaEncoding, well_known_schema,
  custom_schema, WellKnownFrameEncoding, frame_other, frame_ros1, frame_cdr, frame_protobuf,
  frame_flatbuffer, frame_cbor, frame_msgpack, frame_json, FrameEncoding, well_known_frame,
  custom_frame, SchemaId,
}

-- The protocol's enum values; `unlisted_…` is one that the SDK does not name.
pub data ProtoSchema : Type 0 where
  unspecified_schema proto_protobuf proto_flatbuffer proto_ros1_msg proto_ros2_msg proto_ros2_idl
        proto_omg_idl proto_json_schema :
      ProtoSchema
  unlisted_schema : ℕ → ProtoSchema

pub data ProtoFrame : Type 0 where
  unspecified_frame proto_ros1 proto_cdr proto_frame_protobuf proto_frame_flatbuffer proto_cbor
        proto_msgpack proto_json :
      ProtoFrame
  unlisted_frame : ℕ → ProtoFrame

-- The `oneof` of an encoding's message.
pub data EncodingMessage (W : Type 0) : Type 0 where
  unset : EncodingMessage W
  well_known : W → EncodingMessage W
  custom : List ℕ → EncodingMessage W

unfoldable pub well_known_schema_from_proto : ProtoSchema → WellKnownSchemaEncoding
well_known_schema_from_proto proto_protobuf = schema_protobuf
well_known_schema_from_proto proto_flatbuffer = schema_flatbuffer
well_known_schema_from_proto proto_ros1_msg = schema_ros1_msg
well_known_schema_from_proto proto_ros2_msg = schema_ros2_msg
well_known_schema_from_proto proto_ros2_idl = schema_ros2_idl
well_known_schema_from_proto proto_omg_idl = schema_omg_idl
well_known_schema_from_proto proto_json_schema = schema_json
well_known_schema_from_proto w = schema_other

-- The zero value of the enum for a key that the map does not have.
unfoldable pub well_known_schema_to_proto : WellKnownSchemaEncoding → ProtoSchema
well_known_schema_to_proto schema_protobuf = proto_protobuf
well_known_schema_to_proto schema_flatbuffer = proto_flatbuffer
well_known_schema_to_proto schema_ros1_msg = proto_ros1_msg
well_known_schema_to_proto schema_ros2_msg = proto_ros2_msg
well_known_schema_to_proto schema_ros2_idl = proto_ros2_idl
well_known_schema_to_proto schema_omg_idl = proto_omg_idl
well_known_schema_to_proto schema_json = proto_json_schema
well_known_schema_to_proto schema_other = unspecified_schema

unfoldable pub well_known_frame_from_proto : ProtoFrame → WellKnownFrameEncoding
well_known_frame_from_proto proto_ros1 = frame_ros1
well_known_frame_from_proto proto_cdr = frame_cdr
well_known_frame_from_proto proto_frame_protobuf = frame_protobuf
well_known_frame_from_proto proto_frame_flatbuffer = frame_flatbuffer
well_known_frame_from_proto proto_cbor = frame_cbor
well_known_frame_from_proto proto_msgpack = frame_msgpack
well_known_frame_from_proto proto_json = frame_json
well_known_frame_from_proto w = frame_other

unfoldable pub well_known_frame_to_proto : WellKnownFrameEncoding → ProtoFrame
well_known_frame_to_proto frame_ros1 = proto_ros1
well_known_frame_to_proto frame_cdr = proto_cdr
well_known_frame_to_proto frame_protobuf = proto_frame_protobuf
well_known_frame_to_proto frame_flatbuffer = proto_frame_flatbuffer
well_known_frame_to_proto frame_cbor = proto_cbor
well_known_frame_to_proto frame_msgpack = proto_msgpack
well_known_frame_to_proto frame_json = proto_json
well_known_frame_to_proto frame_other = unspecified_frame

unfoldable pub schema_encoding_from_proto : EncodingMessage ProtoSchema → SchemaEncoding
schema_encoding_from_proto unset = well_known_schema schema_other
schema_encoding_from_proto (well_known w) = well_known_schema (well_known_schema_from_proto w)
schema_encoding_from_proto (custom n) = custom_schema n

unfoldable pub schema_encoding_to_proto : Option SchemaEncoding → EncodingMessage ProtoSchema
schema_encoding_to_proto none = well_known unspecified_schema
schema_encoding_to_proto (some (well_known_schema w)) = well_known (well_known_schema_to_proto w)
schema_encoding_to_proto (some (custom_schema n)) = custom n

unfoldable pub frame_encoding_from_proto : EncodingMessage ProtoFrame → FrameEncoding
frame_encoding_from_proto unset = well_known_frame frame_other
frame_encoding_from_proto (well_known w) = well_known_frame (well_known_frame_from_proto w)
frame_encoding_from_proto (custom n) = custom_frame n

unfoldable pub frame_encoding_to_proto : Option FrameEncoding → EncodingMessage ProtoFrame
frame_encoding_to_proto none = well_known unspecified_frame
frame_encoding_to_proto (some (well_known_frame w)) = well_known (well_known_frame_to_proto w)
frame_encoding_to_proto (some (custom_frame n)) = custom n

-- `livekit.DataTrackSchemaId`; a nil message is `none`.
pub record SchemaIdMessage : Type 0 where
  pub name : List ℕ
  pub encoding : Option (EncodingMessage ProtoSchema)

unfoldable pub schema_id_from_proto : SchemaIdMessage → SchemaId
schema_id_from_proto msg = elim msg.encoding [
  | none ↦ record { name = msg.name; encoding = some (well_known_schema schema_other) }
  | some e ↦ record { name = msg.name; encoding = some (schema_encoding_from_proto e) }
]

unfoldable pub schema_id_to_proto : SchemaId → SchemaIdMessage
schema_id_to_proto id = record {
  name = id.name;
  encoding = some (schema_encoding_to_proto id.encoding);
}

pub data Encryption : Type 0 where
  encryption_none encryption_gcm : Encryption
  other_encryption : ℕ → Encryption

-- `livekit.DataTrackInfo`
pub record InfoMessage : Type 0 where
  pub pub_handle : ℕ
  pub sid : List ℕ
  pub name : List ℕ
  pub encryption : Encryption
  pub schema : Option SchemaIdMessage
  pub frame_encoding : Option (EncodingMessage ProtoFrame)

pub record Info : Type 0 where
  pub sid : List ℕ
  pub pub_handle : ℕ
  pub name : List ℕ
  pub uses_e2ee : Bool
  pub schema : Option SchemaId
  pub frame_encoding : Option FrameEncoding

pub data InfoError : Type 0 where
  bad_handle : HandleError → InfoError
  unsupported_encryption : InfoError
  invalid_sid : InfoError

pub data InfoResult : Type 0 where
  accepted : Info → InfoResult
  refused : InfoError → InfoResult

-- `parseSID`, by the prefix that the protocol's module gives data tracks.
unfoldable pub parse_sid : List ℕ → List ℕ → Option (List ℕ)
parse_sid prefix raw =
    if leb (length prefix) (length raw) && bytes_equal (take (length prefix) raw) prefix
    then some raw
    else none

-- The `switch` on the encryption; `none` is its error.
unfoldable pub uses_e2ee_of : Encryption → Option Bool
uses_e2ee_of encryption_none = some false
uses_e2ee_of encryption_gcm = some true
uses_e2ee_of (other_encryption n) = none

unfoldable pub schema_of : Option SchemaIdMessage → Option SchemaId
schema_of none = none
schema_of (some msg) = some (schema_id_from_proto msg)

unfoldable pub frame_encoding_of : Option (EncodingMessage ProtoFrame) → Option FrameEncoding
frame_encoding_of none = none
frame_encoding_of (some msg) = some (frame_encoding_from_proto msg)

unfoldable pub info_from_proto : List ℕ → InfoMessage → InfoResult
info_from_proto prefix msg = elim (handle_from_uint32 msg.pub_handle) [
  | failed e ↦ refused (bad_handle e)
  | handle h ↦ elim (uses_e2ee_of msg.encryption) [
    | none ↦ refused unsupported_encryption
    | some uses_e2ee ↦ elim (parse_sid prefix msg.sid) [
      | none ↦ refused invalid_sid
      | some sid ↦ accepted (record {
        sid = sid;
        pub_handle = h;
        name = msg.name;
        uses_e2ee = uses_e2ee;
        schema = schema_of msg.schema;
        frame_encoding = frame_encoding_of msg.frame_encoding;
      })
    ]
  ]
]

unfoldable pub schema_message : Option SchemaId → Option SchemaIdMessage
schema_message none = none
schema_message (some id) = some (schema_id_to_proto id)

unfoldable pub frame_encoding_message : Option FrameEncoding → Option (EncodingMessage ProtoFrame)
frame_encoding_message none = none
frame_encoding_message (some e) = some (frame_encoding_to_proto (some e))

unfoldable pub info_to_proto : Info → InfoMessage
info_to_proto info = record {
  pub_handle = info.pub_handle;
  sid = info.sid;
  name = info.name;
  encryption = if info.uses_e2ee then encryption_gcm else encryption_none;
  schema = schema_message info.schema;
  frame_encoding = frame_encoding_message info.frame_encoding;
}

-- `extractTrackInfo`, over the messages of a participant; the first error ends it.
pub data InfosResult : Type 0 where
  infos : List Info → InfosResult
  infos_refused : InfoError → InfosResult

unfoldable pub also : Info → InfosResult → InfosResult
also i (infos is) = infos (i ∷ is)
also i (infos_refused e) = infos_refused e

unfoldable pub extract_track_info : List ℕ → List InfoMessage → InfosResult
extract_track_info prefix [] = infos []
extract_track_info prefix (msg ∷ rest) = elim (info_from_proto prefix msg) [
  | refused e ↦ infos_refused e
  | accepted i ↦ also i (extract_track_info prefix rest)
]

-- `livekit.RequestResponse_Reason`
pub data Reason : Type 0 where
  reason_ok reason_not_allowed reason_duplicate_name reason_invalid_name reason_limit_exceeded :
      Reason
  other_reason : ℕ → Reason

-- `livekit.RequestResponse`, with the handle of the publish request that it answers, if it does.
pub record RequestResponse : Type 0 where
  pub publish_handle : Option ℕ
  pub reason : Reason
  pub message : List ℕ

-- The error that a rejection wraps.
pub data RejectionError : Type 0 where
  not_allowed duplicate_name invalid_name limit_reached : RejectionError
  publish_rejected : Reason → RejectionError

pub record Rejection : Type 0 where
  pub handle : ℕ
  pub error : RejectionError
  pub message : List ℕ

-- The `switch` on the reason; `none` for a response that is no rejection.
unfoldable pub rejection_error : Reason → Option RejectionError
rejection_error reason_ok = none
rejection_error reason_not_allowed = some not_allowed
rejection_error reason_duplicate_name = some duplicate_name
rejection_error reason_invalid_name = some invalid_name
rejection_error reason_limit_exceeded = some limit_reached
rejection_error (other_reason n) = some (publish_rejected (other_reason n))

unfoldable pub publish_rejection_from_request_response : RequestResponse → Option Rejection
publish_rejection_from_request_response msg = elim msg.publish_handle [
  | none ↦ none
  | some raw ↦ elim (rejection_error msg.reason) [
    | none ↦ none
    | some e ↦ elim (handle_from_uint32 raw) [
      | failed bad ↦ none
      | handle h ↦ some (record { handle = h; error = e; message = msg.message })
    ]
  ]
]
