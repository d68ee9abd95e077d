-- ===== src/Datatrack/Schema.antt =====
-- internal/datatrack/schema.go: the encodings of frames and schemas, and which go together.
use server_sdk_go.Prelude.{ℕ, ◌≡◌, refl, Bool, true, false, List, Option, none, some, arith}

-- The well-known values that the source names; a Go value of the type could be another byte, which
-- the source treats as one that no map knows.
pub data WellKnownSchemaEncoding : Type 0 where
  schema_other schema_protobuf schema_flatbuffer schema_ros1_msg schema_ros2_msg schema_ros2_idl
        schema_omg_idl schema_json :
      WellKnownSchemaEncoding

pub data SchemaEncoding : Type 0 where
  well_known_schema : WellKnownSchemaEncoding → SchemaEncoding
  custom_schema : List ℕ → SchemaEncoding

pub data WellKnownFrameEncoding : Type 0 where
  frame_other frame_ros1 frame_cdr frame_protobuf frame_flatbuffer frame_cbor frame_msgpack
        frame_json :
      WellKnownFrameEncoding

pub data FrameEncoding : Type 0 where
  well_known_frame : WellKnownFrameEncoding → FrameEncoding
  custom_frame : List ℕ → FrameEncoding

-- `SchemaID`; a nil interface is `none`.
pub record SchemaId : Type 0 where
  pub name : List ℕ
  pub encoding : Option SchemaEncoding

-- The pair `(selfDescribing, ok)`: `none` where `ok` is false.
unfoldable pub is_self_describing : FrameEncoding → Option Bool
is_self_describing (well_known_frame frame_cbor) = some true
is_self_describing (well_known_frame frame_msgpack) = some true
is_self_describing (well_known_frame frame_json) = some true
is_self_describing (well_known_frame frame_other) = none
is_self_describing (well_known_frame w) = some false
is_self_describing (custom_frame n) = none

-- The table of `isDescribedBy`.
unfoldable pub described : WellKnownFrameEncoding → SchemaEncoding → Bool
described frame_ros1 (well_known_schema schema_ros1_msg) = true
described frame_cdr (well_known_schema schema_ros2_msg) = true
described frame_cdr (well_known_schema schema_ros2_idl) = true
described frame_cdr (well_known_schema schema_omg_idl) = true
described frame_protobuf (well_known_schema schema_protobuf) = true
described frame_flatbuffer (well_known_schema schema_flatbuffer) = true
described frame_json (well_known_schema schema_json) = true
described w s = false

unfoldable pub is_described_by : FrameEncoding → SchemaEncoding → Option Bool
is_described_by (well_known_frame frame_other) s = none
is_described_by (well_known_frame w) s = some (described w s)
is_described_by (custom_frame n) s = none

pub data SchemaError : Type 0 where
  missing_frame_encoding missing_id incompatible : SchemaError

-- `ok && !answer`
unfoldable pub denies : Option Bool → Bool
denies none = false
denies (some true) = false
denies (some false) = true

unfoldable pub validate_schema : Option FrameEncoding → Option SchemaEncoding → Option SchemaError
validate_schema none none = none
validate_schema none (some s) = some missing_frame_encoding
validate_schema (some f) none = elim (denies (is_self_describing f)) [
  | true ↦ some missing_id
  | false ↦ none
]
validate_schema (some f) (some s) = elim (denies (is_described_by f s)) [
  | true ↦ some incompatible
  | false ↦ none
]

-- A frame encoding of which the SDK cannot tell whether it is self-describing is accepted with
-- every schema and without one.
pub validate_schema_undetermined :
    (f : FrameEncoding) (s : Option SchemaEncoding)
    → is_self_describing f ≡ none
    → validate_schema (some f) s ≡ none
unfolding validate_schema is_self_describing is_described_by denies
validate_schema_undetermined (custom_frame n) none h = refl
validate_schema_undetermined (custom_frame n) (some s) h = refl
validate_schema_undetermined (well_known_frame frame_other) none h = refl
validate_schema_undetermined (well_known_frame frame_other) (some s) h = refl
validate_schema_undetermined (well_known_frame frame_ros1) s h = absurd (ground arith)
validate_schema_undetermined (well_known_frame frame_cdr) s h = absurd (ground arith)
validate_schema_undetermined (well_known_frame frame_protobuf) s h = absurd (ground arith)
validate_schema_undetermined (well_known_frame frame_flatbuffer) s h = absurd (ground arith)
validate_schema_undetermined (well_known_frame frame_cbor) s h = absurd (ground arith)
validate_schema_undetermined (well_known_frame frame_msgpack) s h = absurd (ground arith)
validate_schema_undetermined (well_known_frame frame_json) s h = absurd (ground arith)
