-- ===== src/Datatrack/Proto/Tests.antt =====
-- Runs of internal/datatrack/schema.go and internal/datatrack/proto.go.
use server_sdk_go.Prelude.{ℕ, ◌≡◌, refl, true, List, [], ◌∷◌, map, some, none, arith}
use server_sdk_go.Datatrack.Handle.{handle_from_uint32}
use server_sdk_go.Datatrack.Schema.{
  SchemaId, well_known_schema, schema_ros2_msg, schema_json, well_known_frame, frame_cdr,
  frame_cbor, custom_frame, validate_schema, is_self_describing, is_described_by, described, denies,
  missing_id, incompatible,
}
use server_sdk_go.Datatrack.Proto.{
  Info, infos, info_to_proto, parse_sid, extract_track_info, RequestResponse, Rejection,
  reason_duplicate_name, duplicate_name, rejection_error, publish_rejection_from_request_response,
}
use server_sdk_go.Datatrack.Proto.RoundTrip.{
  HasEncoding, IsPublished, extract_track_info-info_to_proto,
}

-- The bytes of "DTR_".
abbrev prefix : List ℕ
prefix = b'D' ∷ b'T' ∷ b'R' ∷ b'_' ∷ []

abbrev schema : SchemaId
schema = record { name = 1 ∷ []; encoding = some (well_known_schema schema_ros2_msg) }

abbrev track : Info
track = record {
  sid = b'D' ∷ b'T' ∷ b'R' ∷ b'_' ∷ b'a' ∷ [];
  pub_handle = 3;
  name = 7 ∷ [];
  uses_e2ee = true;
  schema = some schema;
  frame_encoding = some (well_known_frame frame_cdr);
}

track-IsPublished : IsPublished prefix track
unfolding HasEncoding parse_sid
track-IsPublished = record {
  handle_low = omega arith;
  handle_high = omega arith;
  sid_parses = refl;
  has_encoding = (well_known_schema schema_ros2_msg, refl);
}

extract_track_info-info_to_proto_example :
    extract_track_info prefix (map info_to_proto (track ∷ [])) ≡ infos (track ∷ [])
extract_track_info-info_to_proto_example =
    extract_track_info-info_to_proto prefix (track ∷ []) (track-IsPublished, tt)

custom_undetermined : is_self_describing (custom_frame (1 ∷ [])) ≡ none
unfolding is_self_describing
custom_undetermined = refl

needs_schema : validate_schema (some (well_known_frame frame_cdr)) none ≡ some missing_id
unfolding validate_schema is_self_describing denies
needs_schema = refl

wrong_schema :
    validate_schema (some (well_known_frame frame_cbor)) (some (well_known_schema schema_json))
    ≡ some incompatible
unfolding validate_schema is_described_by described denies
wrong_schema = refl

abbrev response : RequestResponse
response = record { publish_handle = some 9; reason = reason_duplicate_name; message = 5 ∷ [] }

abbrev rejection : Rejection
rejection = record { handle = 9; error = duplicate_name; message = 5 ∷ [] }

response_rejects : publish_rejection_from_request_response response ≡ some rejection
unfolding publish_rejection_from_request_response rejection_error handle_from_uint32
response_rejects = refl
