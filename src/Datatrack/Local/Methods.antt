-- ===== src/Datatrack/Local/Methods.antt =====
-- The methods of `LocalManager`, in internal/datatrack/local.go.
use server_sdk_go.Prelude.{
  ℕ, Bool, true, false, List, [], ◌∷◌, ◌++◌, Option, none, some, delete, insert, lookup, modify,
  length, get_elem?,
}
use server_sdk_go.Datatrack.Handle.{
  HandleAllocator, HandleResult, handle, failed, handle_from_uint32, get,
}
use server_sdk_go.Datatrack.Schema.{
  SchemaId, SchemaEncoding, FrameEncoding, well_known_schema, schema_other, validate_schema,
}
use server_sdk_go.Datatrack.Proto.{
  Info, InfoMessage, Rejection, RequestResponse, accepted, refused, limit_reached, info_from_proto,
  info_to_proto, publish_rejection_from_request_response,
}
use server_sdk_go.Datatrack.Local.{
  PublishError, bad_schema, rejected, context_ended, track_unpublished, disconnected, PublishResult,
  LocalTrack, PublishRequest, publish_request, unpublish_request, request_to_proto, LocalManager,
  begin_republish, new_local_track, send, failure, Task, mark, complete, give, run_tasks,
}

pub record PublishOptions : Type 0 where
  pub name : List ℕ
  pub schema : Option SchemaId
  pub frame_encoding : Option FrameEncoding

-- The schema's encoding that `Publish` checks; a schema without one counts as `Other`.
unfoldable pub schema_encoding : Option SchemaId → Option SchemaEncoding
schema_encoding none = none
schema_encoding (some id) = elim id.encoding [
  | none ↦ some (well_known_schema schema_other)
  | some e ↦ some e
]

-- `Publish` up to the call of the transport: the handle and the channel of a call that goes on.
pub data Begun : Type 0 where
  refused_with : PublishError → Begun
  requesting : ℕ → ℕ → Begun

-- From the allocator's answer on.
unfoldable pub reserve : HandleAllocator → HandleResult → LocalManager → LocalManager × Begun
reserve handles (failed e) m =
    (record m { handles = handles }, refused_with (rejected limit_reached []))
reserve handles (handle h) m = (
  record m {
    handles = handles;
    pending = insert h (length m.channels) m.pending;
    channels = m.channels ++ ([] ∷ []);
  },
  requesting h (length m.channels),
)

unfoldable pub begin_publish : PublishOptions → Bool → LocalManager → LocalManager × Begun
begin_publish options ended m =
    elim (validate_schema options.frame_encoding (schema_encoding options.schema)) [
      | some e ↦ (m, refused_with (bad_schema e))
      | none ↦ elim ended [
        | true ↦ (m, refused_with context_ended)
        | false ↦ reserve (get m.handles).0 (get m.handles).1 m
      ]
    ]

unfoldable pub publish_request_of : PublishOptions → Bool → ℕ → PublishRequest
publish_request_of options session_encrypts h = record {
  handle = h;
  name = options.name;
  uses_e2ee = session_encrypts;
  schema = options.schema;
  frame_encoding = options.frame_encoding;
}

-- Both where the transport fails and where the context ends, the request is forgotten.
unfoldable pub forget : ℕ → LocalManager → LocalManager
forget h m = record m { pending = delete h m.pending }

unfoldable pub unpublish_locked : ℕ → LocalManager → LocalManager × List Task
unpublish_locked h m = elim (lookup h m.active) [
  | none ↦ (record m { active = delete h m.active }, [])
  | some p ↦ (record m { active = delete h m.active }, mark p ∷ give (unpublish_request h) ∷ [])
]

-- `SFU`'s answer to a publish request, as the two handlers build it.
pub data PublishResponse : Type 0 where
  accepts : Info → PublishResponse
  rejects : Rejection → PublishResponse

unfoldable pub response_handle : PublishResponse → ℕ
response_handle (accepts info) = info.pub_handle
response_handle (rejects r) = r.handle

-- The branch of `resolvePublish` for a request that waits on `channel`.
unfoldable pub resolve_pending :
    Bool → ℕ → PublishResponse → ℕ → LocalManager → LocalManager × List Task
resolve_pending session_encrypts base (accepts info) channel m = (
  record m {
    pending = delete info.pub_handle m.pending;
    active = insert info.pub_handle (length m.tracks) m.active;
    tracks = m.tracks ++ (new_local_track session_encrypts base info ∷ []);
    channels = send (record { track = some (length m.tracks); error = none }) channel m.channels;
  },
  [],
)
resolve_pending session_encrypts base (rejects r) channel m = (
  record m {
    pending = delete r.handle m.pending;
    channels = send (failure (rejected r.error r.message)) channel m.channels;
  },
  [],
)

-- Its other branches.
unfoldable pub resolve_active : PublishResponse → LocalManager → LocalManager × List Task
resolve_active (accepts info) m = elim (lookup info.pub_handle m.active) [
  | some p ↦ (m, complete p info.sid ∷ [])
  | none ↦ (m, give (unpublish_request info.pub_handle) ∷ [])
]
resolve_active (rejects r) m = elim (lookup r.handle m.active) [
  | some p ↦ (record m { active = delete r.handle m.active }, mark p ∷ [])
  | none ↦ (m, [])
]

unfoldable pub resolve_publish_locked :
    Bool → ℕ → PublishResponse → LocalManager → LocalManager × List Task
resolve_publish_locked session_encrypts base response m =
    elim (lookup (response_handle response) m.pending) [
      | some channel ↦ resolve_pending session_encrypts base response channel m
      | none ↦ resolve_active response m
    ]

-- The first `if` of `HandleUnpublishResponse`.
unfoldable pub fail_one : PublishError → ℕ → LocalManager → LocalManager
fail_one e h m = elim (lookup h m.pending) [
  | none ↦ m
  | some channel ↦ record m {
    pending = delete h m.pending;
    channels = send (failure e) channel m.channels;
  }
]

unfoldable pub remove_active : ℕ → LocalManager → LocalManager × List Task
remove_active h m = elim (lookup h m.active) [
  | none ↦ (record m { active = delete h m.active }, [])
  | some p ↦ (record m { active = delete h m.active }, mark p ∷ [])
]

unfoldable pub unpublish_response_locked : ℕ → LocalManager → LocalManager × List Task
unpublish_response_locked h m = remove_active h (fail_one track_unpublished h m)

-- The loop that fails every pending request; Go's order of a map's keys is left open.
unfoldable pub fail_pending : List (ℕ × ℕ) → List (List PublishResult) → List (List PublishResult)
fail_pending [] channels = channels
fail_pending ((h, channel) ∷ rest) channels =
    fail_pending rest (send (failure disconnected) channel channels)

unfoldable pub disconnect_pending : LocalManager → LocalManager
disconnect_pending m = record m { pending = []; channels = fail_pending m.pending m.channels }

unfoldable pub begin_all : List (ℕ × ℕ) → List LocalTrack → List LocalTrack
begin_all [] tracks = tracks
begin_all ((h, p) ∷ rest) tracks = begin_all rest (modify begin_republish p tracks)

unfoldable pub republish_request : ℕ → Info → PublishRequest
republish_request h info = record {
  handle = h;
  name = info.name;
  uses_e2ee = info.uses_e2ee;
  schema = info.schema;
  frame_encoding = info.frame_encoding;
}

-- The requests for the tracks that are active, from their metadata.
unfoldable pub republish_requests : List (ℕ × ℕ) → List LocalTrack → List Task
republish_requests [] tracks = []
republish_requests ((h, p) ∷ rest) tracks = elim (get_elem? tracks p) [
  | none ↦ republish_requests rest tracks
  | some t ↦
      give (publish_request (request_to_proto (republish_request h t.info)))
      ∷ republish_requests rest tracks
]

unfoldable pub republish_locked : LocalManager → LocalManager × List Task
republish_locked m = (
  record (disconnect_pending m) { tracks = begin_all m.active m.tracks },
  republish_requests m.active m.tracks,
)

unfoldable pub marks : List (ℕ × ℕ) → List Task
marks [] = []
marks ((h, p) ∷ rest) = mark p ∷ marks rest

unfoldable pub shutdown_locked : LocalManager → LocalManager × List Task
shutdown_locked m = (record (disconnect_pending m) { active = [] }, marks m.active)

-- `PublishResponsesForSyncState`
unfoldable pub active_infos : List (ℕ × ℕ) → List LocalTrack → List InfoMessage
active_infos [] tracks = []
active_infos ((h, p) ∷ rest) tracks = elim (get_elem? tracks p) [
  | none ↦ active_infos rest tracks
  | some t ↦ info_to_proto t.info ∷ active_infos rest tracks
]

unfoldable pub publish_responses_for_sync_state : LocalManager → List InfoMessage
publish_responses_for_sync_state m = active_infos m.active m.tracks

-- A method that nothing runs beside: what it does under the lock, and then its tasks.
unfoldable pub alone : LocalManager × List Task → LocalManager
alone (m, tasks) = run_tasks tasks m

unfoldable pub resolve_publish : Bool → ℕ → PublishResponse → LocalManager → LocalManager
resolve_publish session_encrypts base response m =
    alone (resolve_publish_locked session_encrypts base response m)

-- The handlers of messages, with the prefix of the ids of data tracks.
unfoldable pub handle_publish_response :
    List ℕ → Bool → ℕ → InfoMessage → LocalManager → LocalManager
handle_publish_response prefix session_encrypts base msg m = elim (info_from_proto prefix msg) [
  | refused e ↦ m
  | accepted info ↦ resolve_publish session_encrypts base (accepts info) m
]

unfoldable pub handle_request_response :
    Bool → ℕ → RequestResponse → LocalManager → LocalManager × Bool
handle_request_response session_encrypts base msg m =
    elim (publish_rejection_from_request_response msg) [
      | none ↦ (m, false)
      | some r ↦ (resolve_publish session_encrypts base (rejects r) m, true)
    ]

unfoldable pub handle_unpublish_response : ℕ → LocalManager → LocalManager
handle_unpublish_response raw m = elim (handle_from_uint32 raw) [
  | failed e ↦ m
  | handle h ↦ alone (unpublish_response_locked h m)
]

unfoldable pub unpublish : ℕ → LocalManager → LocalManager
unpublish h m = alone (unpublish_locked h m)

unfoldable pub republish_tracks : LocalManager → LocalManager
republish_tracks m = alone (republish_locked m)

unfoldable pub shutdown : LocalManager → LocalManager
shutdown m = alone (shutdown_locked m)

-- The end of `Publish` where its context ends: `none` where the answer came first and the call
-- reads its channel, which holds nothing to read only if Go would block here.
unfoldable pub late_answer : Option (List PublishResult) → LocalManager → Option LocalManager
late_answer none m = none
late_answer (some []) m = none
late_answer (some (r ∷ rest)) m = elim r.track [
  | none ↦ some m
  | some p ↦ elim (get_elem? m.tracks p) [ none ↦ none | some t ↦ some (unpublish t.handle m) ]
]

unfoldable pub abandon : ℕ → ℕ → LocalManager → Option LocalManager
abandon h channel m = elim (lookup h m.pending) [
  | some waiting ↦ some (forget h m)
  | none ↦ late_answer (get_elem? m.channels channel) (forget h m)
]
