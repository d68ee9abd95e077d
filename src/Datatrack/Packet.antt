-- ===== src/Datatrack/Packet.antt =====
-- internal/datatrack/packet.go. The packet format itself is that of the protocol's module
-- `datatrack`, which is not in the repository: its types and functions are the fields of `Dtp`.
pub mod Codec
use server_sdk_go.Prelude.{
  ℕ, suc, ◌<◌, ◌≡◌, Bool, true, false, ◌&&◌, ◌||◌, List, [], ◌∷◌, ◌++◌, Option, none, some, ltb,
  ◌==◌, if◌then◌else◌,
}

pub data FrameMarker : Type 0 where
  inter start final single : FrameMarker

-- `dtp.Header`, with the fields that the repository reads or writes.
pub record Header (Ext : Type 0) : Type 0 where
  pub version : ℕ
  pub is_start_of_frame : Bool
  pub is_final_of_frame : Bool
  pub handle : ℕ
  pub sequence_number : ℕ
  pub frame_number : ℕ
  pub timestamp : ℕ
  pub extensions : List Ext

pub record Packet (Ext : Type 0) : Type 0 where
  pub header : Header Ext
  pub payload : List ℕ

-- The protocol's module: extensions, their ids and codecs, and the codec of packets. A codec that
-- returns an error gives `none`.
pub record Dtp : Type 1 where
  pub Ext : Type 0
  pub E2ee : Type 0
  pub ext_id : Ext → ℕ
  pub e2ee_id : ℕ
  pub user_timestamp_id : ℕ
  pub marshal_e2ee : E2ee → Option Ext
  pub unmarshal_e2ee : Ext → Option E2ee
  pub marshal_user_timestamp : ℕ → Option Ext
  pub unmarshal_user_timestamp : Ext → Option ℕ
  pub add_extension : Header Ext → Ext → Header Ext
  pub marshal_size : Header Ext → ℕ
  pub marshal : Packet Ext → Option (List ℕ)
  pub unmarshal : List ℕ → Option (Packet Ext)

unfoldable pub marker_of : {Ext : Type 0} → Header Ext → FrameMarker
marker_of h =
    if h.is_start_of_frame && h.is_final_of_frame
    then single
    else if h.is_start_of_frame
    then start
    else if h.is_final_of_frame
    then final
    else inter

is_start_marker : FrameMarker → Bool
is_start_marker start = true
is_start_marker single = true
is_start_marker m = false

is_final_marker : FrameMarker → Bool
is_final_marker final = true
is_final_marker single = true
is_final_marker m = false

-- `FrameMarker.apply`
unfoldable pub apply_marker : {Ext : Type 0} → FrameMarker → Header Ext → Header Ext
unfolding is_start_marker is_final_marker
apply_marker m h = record h {
  is_start_of_frame = is_start_marker m;
  is_final_of_frame = is_final_marker m;
}

-- `Extensions`; a nil pointer is `none`.
pub record Extensions (E2ee : Type 0) : Type 0 where
  pub user_timestamp : Option ℕ
  pub e2ee : Option E2ee

abbrev pub no_extensions : {E2ee : Type 0} → Extensions E2ee
no_extensions = record { user_timestamp = none; e2ee = none }

abbrev pub supported_version : ℕ
supported_version = 0

pub data ParseError : Type 0 where
  malformed unsupported_version invalid_handle : ParseError

pub data ParseResult (Ext : Type 0) : Type 0 where
  parsed : Packet Ext → ParseResult Ext
  refused : ParseError → ParseResult Ext

module _ (dtp : Dtp) where
  open dtp use {
    Ext, E2ee, ext_id, e2ee_id, user_timestamp_id, marshal_e2ee, unmarshal_e2ee,
    marshal_user_timestamp, unmarshal_user_timestamp, add_extension, unmarshal,
  }

  -- One `if` of `Extensions.apply`: add what `marshal` gives for a value that is set.
  unfoldable pub apply_one :
      {A : Type 0} → (A → Option Ext) → Option A → Header Ext → Option (Header Ext)
  apply_one marshal_value none h = some h
  apply_one marshal_value (some a) h = elim (marshal_value a) [
    | none ↦ none
    | some ext ↦ some (add_extension h ext)
  ]

  -- `Extensions.apply`; `none` is the error of a codec.
  unfoldable pub apply : Extensions E2ee → Header Ext → Option (Header Ext)
  apply e h = elim (apply_one marshal_e2ee e.e2ee h) [
    | none ↦ none
    | some h' ↦ apply_one marshal_user_timestamp e.user_timestamp h'
  ]

  -- One round of the loop of `extensionsOf`.
  pub read_extension : Ext → Extensions E2ee → Extensions E2ee
  read_extension ext found =
      if ext_id ext == e2ee_id
      then elim (unmarshal_e2ee ext) [ none ↦ found | some x ↦ record found { e2ee = some x } ]
      else if ext_id ext == user_timestamp_id
      then elim (unmarshal_user_timestamp ext) [
        | none ↦ found
        | some t ↦ record found { user_timestamp = some t }
      ]
      else found

  pub extensions_loop : List Ext → Extensions E2ee → Extensions E2ee
  extensions_loop [] found = found
  extensions_loop (ext ∷ rest) found = extensions_loop rest (read_extension ext found)

  unfoldable pub extensions_of : Header Ext → Extensions E2ee
  extensions_of h = extensions_loop h.extensions no_extensions

  unfoldable pub parse_packet : List ℕ → ParseResult Ext
  parse_packet buf = elim (unmarshal buf) [
    | none ↦ refused malformed
    | some packet ↦
        if ltb supported_version packet.header.version
        then refused unsupported_version
        else if packet.header.handle == 0
        then refused invalid_handle
        else parsed packet
  ]
