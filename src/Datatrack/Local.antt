-- ===== src/Datatrack/Local.antt =====
-- internal/datatrack/local.go: the data tracks that the local participant publishes.
-- A method is the part that runs under the manager's lock, as a function of the manager, and the
-- tasks that it leaves for after the lock. Tracks and channels are objects on a heap, pointed to
-- by their number; a channel is the list of all results ever sent on it. The encryptor and the
-- transport are other code: what they answer is an argument.
pub mod Pipeline
pub mod Carried
pub mod Methods
pub mod Machine
pub mod Ends
pub mod Republish
mod Tests
use server_sdk_go.Prelude.{
  ℕ, zero, suc, ◌+◌, ◌≡◌, Bool, true, false, ◌&&◌, List, [], ◌∷◌, ◌++◌, Option, none, some,
  if◌then◌else◌, delete, insert, lookup, modify, length,
}
use server_sdk_go.Datatrack.Handle.{HandleAllocator}
use server_sdk_go.Datatrack.Clock.{new_clock}
use server_sdk_go.Datatrack.Packetizer.{Packetizer}
use server_sdk_go.Datatrack.Schema.{SchemaId, FrameEncoding, SchemaError}
use server_sdk_go.Datatrack.Proto.{
  Info, Rejection, RejectionError, InfoMessage, encryption_gcm, encryption_none, Encryption,
  SchemaIdMessage, EncodingMessage, ProtoFrame, schema_message, frame_encoding_message,
}

-- `transportMTU`
abbrev pub transport_mtu : ℕ
transport_mtu = 16_000

-- `ErrLimitReached` is `rejected limit_reached []`: the error of a rejection without a message.
pub data PublishError : Type 0 where
  bad_schema : SchemaError → PublishError
  rejected : RejectionError → List ℕ → PublishError
  context_ended send_failed track_unpublished disconnected : PublishError

pub record PublishResult : Type 0 where
  pub track : Option ℕ
  pub error : Option PublishError

pub data PublishState : Type 0 where
  published republishing unpublished : PublishState

-- `closes` counts the calls of `close(t.unpublished)`; a second one panics in Go.
pub record LocalTrack : Type 0 where
  pub handle : ℕ
  pub closes : ℕ
  pub state : PublishState
  pub info : Info
  pub has_encryptor : Bool
  pub packetizer : Packetizer

pub record PublishRequest : Type 0 where
  pub handle : ℕ
  pub name : List ℕ
  pub uses_e2ee : Bool
  pub schema : Option SchemaId
  pub frame_encoding : Option FrameEncoding

-- `livekit.PublishDataTrackRequest`
pub record PublishRequestMessage : Type 0 where
  pub pub_handle : ℕ
  pub name : List ℕ
  pub encryption : Encryption
  pub schema : Option SchemaIdMessage
  pub frame_encoding : Option (EncodingMessage ProtoFrame)

unfoldable pub request_to_proto : PublishRequest → PublishRequestMessage
request_to_proto r = record {
  pub_handle = r.handle;
  name = r.name;
  encryption = if r.uses_e2ee then encryption_gcm else encryption_none;
  schema = schema_message r.schema;
  frame_encoding = frame_encoding_message r.frame_encoding;
}

-- What the transport is given. An unpublish request has the handle as its only field.
pub data Signal : Type 0 where
  publish_request : PublishRequestMessage → Signal
  unpublish_request : ℕ → Signal

pub record LocalManager : Type 0 where
  pub handles : HandleAllocator
  pub pending : List (ℕ × ℕ)
  pub active : List (ℕ × ℕ)
  pub channels : List (List PublishResult)
  pub tracks : List LocalTrack
  pub sent : List Signal

unfoldable pub new_local_manager : LocalManager
new_local_manager = record {
  handles = record { value = 0 };
  pending = [];
  active = [];
  channels = [];
  tracks = [];
  sent = [];
}

unfoldable pub is_unpublished : PublishState → Bool
is_unpublished unpublished = true
is_unpublished published = false
is_unpublished republishing = false

-- `LocalTrack.IsPublished`
unfoldable pub is_published : LocalTrack → Bool
unfolding is_unpublished
is_published t = if is_unpublished t.state then false else true

unfoldable pub mark_unpublished : LocalTrack → LocalTrack
mark_unpublished t = elim t.state [
  | unpublished ↦ t
  | published ↦ record t { state = unpublished; closes = t.closes + 1 }
  | republishing ↦ record t { state = unpublished; closes = t.closes + 1 }
]

unfoldable pub begin_republish : LocalTrack → LocalTrack
begin_republish t = record t { state = republishing }

-- The new track and the answer of `completeRepublish`.
unfoldable pub complete_republish : List ℕ → LocalTrack → LocalTrack × Bool
complete_republish sid t = elim t.state [
  | republishing ↦ (record t { state = published; info = record t.info { sid = sid } }, true)
  | published ↦ (t, false)
  | unpublished ↦ (t, false)
]

-- `base` is the random timestamp of the packetizer's clock.
unfoldable pub new_packetizer : ℕ → ℕ → ℕ → Packetizer
new_packetizer base h mtu = record {
  handle = h;
  mtu = mtu;
  sequence = 0;
  frame_number = 0;
  clock = new_clock base;
}

-- `session_encrypts` tells whether the manager's encryptor is set; a nil one is the same as none.
unfoldable pub new_local_track : Bool → ℕ → Info → LocalTrack
new_local_track session_encrypts base info = record {
  handle = info.pub_handle;
  closes = 0;
  state = published;
  info = info;
  has_encryptor = info.uses_e2ee && session_encrypts;
  packetizer = new_packetizer base info.pub_handle transport_mtu;
}

-- `result <- res`
abbrev pub send : PublishResult → ℕ → List (List PublishResult) → List (List PublishResult)
send r = modify (λ sent. sent ++ (r ∷ []))

abbrev pub failure : PublishError → PublishResult
failure e = record { track = none; error = some e }

-- What a method still does when it has left the lock, in order.
pub data Task : Type 0 where
  mark : ℕ → Task
  complete : ℕ → List ℕ → Task
  give : Signal → Task

unfoldable pub run_task : Task → LocalManager → LocalManager
run_task (mark p) m = record m { tracks = modify mark_unpublished p m.tracks }
run_task (complete p sid) m = record m {
  tracks = modify (λ t. (complete_republish sid t).0) p m.tracks;
}
run_task (give s) m = record m { sent = m.sent ++ (s ∷ []) }

unfoldable pub run_tasks : List Task → LocalManager → LocalManager
run_tasks [] m = m
run_tasks (t ∷ ts) m = run_tasks ts (run_task t m)
