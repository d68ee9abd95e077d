-- ===== src/Datatrack/Local/Tests.antt =====
-- Concrete runs of internal/datatrack/local.go, and the theorems at concrete inputs.
use server_sdk_go.Prelude.{
  ℕ, ◌≡◌, ◌≢◌, refl, true, false, List, [], ◌∷◌, ◌++◌, Option, none, some, pos, lookup, insert,
  delete, get_elem?,
}
use server_sdk_go.Datatrack.Handle.{get}
use server_sdk_go.Datatrack.Clock.{new_clock, at, is_before, duration_to_ticks, wrapping_add}
use server_sdk_go.Datatrack.Schema.{validate_schema}
use server_sdk_go.Datatrack.Packet.{Dtp, apply, apply_one, apply_marker}
use server_sdk_go.Datatrack.Packetizer.{
  packetize, packetize_with, chunk_payload, chunk_loop, number_packets, next_sequence, frame_marker,
  initial_header,
}
use server_sdk_go.Datatrack.Proto.{Info, not_allowed}
use server_sdk_go.Datatrack.Local.{
  PublishResult, LocalTrack, LocalManager, new_local_manager, new_local_track, new_packetizer,
  run_task, published, unpublish_request, begin_republish,
}
use server_sdk_go.Datatrack.Local.Pipeline.{
  Frame, try_push, pushed, process_frame, seal, marshalled, marshal_packets,
}
use server_sdk_go.Datatrack.Local.Methods.{
  PublishOptions, schema_encoding, begin_publish, reserve, accepts, rejects, response_handle,
  resolve_pending, resolve_active, resolve_publish_locked, resolve_publish, unpublish,
  republish_locked, republish_tracks, republish_requests, begin_all, fail_pending,
  disconnect_pending, shutdown, abandon,
}
use server_sdk_go.Datatrack.Local.Machine.{
  new_machine, Action, begin, receive, respond, republish, go_on, step, run, wait_for, spawn,
  stop_waiting, received, receive_on, go_on_with,
}
use server_sdk_go.Datatrack.Local.Machine.Invariant.{Inv}
use server_sdk_go.Datatrack.Local.Machine.Reach.{reached-Inv, abandon_returns}
use server_sdk_go.Datatrack.Local.Ends.{IsEnded, shutdown_ends, unpublish-unpublish}
use server_sdk_go.Datatrack.Local.Republish.{republish_tracks_complete}

abbrev plain : PublishOptions
plain = record { name = 7 ∷ []; schema = none; frame_encoding = none }

abbrev info_of : ℕ → ℕ → Info
info_of h sid = record {
  sid = sid ∷ [];
  pub_handle = h;
  name = 7 ∷ [];
  uses_e2ee = false;
  schema = none;
  frame_encoding = none;
}

-- Two calls; the first is accepted, the second still waits.
abbrev two_calls : List Action
two_calls = begin plain false ∷ begin plain false ∷ respond false 0 (accepts (info_of 1 30)) ∷ []

-- A reconnect, in which the SFU rejects the track that it had accepted.
abbrev rejected_again : List Action
rejected_again =
    begin plain false
    ∷ respond false 0 (accepts (info_of 1 30))
    ∷ receive 1
    ∷ republish
    ∷ respond false 0 (rejects (record { handle = 1; error = not_allowed; message = [] }))
    ∷ go_on 0
    ∷ []

rejected_again_ends :
    ((run rejected_again new_machine).manager.active ≡ [])
    × ((run rejected_again new_machine).waiting ≡ [])
unfolding run step new_machine new_local_manager begin_publish schema_encoding validate_schema
    reserve get wait_for spawn resolve_publish_locked resolve_pending resolve_active response_handle
    receive_on received stop_waiting republish_locked disconnect_pending fail_pending begin_all
    begin_republish republish_requests new_local_track new_packetizer new_clock lookup insert delete
    go_on_with run_task
rejected_again_ends = (refl, refl)

reached-Inv_example : Inv (run rejected_again new_machine)
reached-Inv_example = reached-Inv rejected_again

abandon_returns_example : abandon 1 0 (run two_calls new_machine).manager ≢ none
unfolding run step new_machine new_local_manager begin_publish schema_encoding validate_schema
    reserve get wait_for spawn resolve_publish_locked resolve_pending response_handle
    new_local_track lookup insert
abandon_returns_example = abandon_returns two_calls 1 0 refl

shutdown_ends_example :
    let m = run two_calls new_machine in
    let ended = shutdown m.manager in
    (ended.pending ≡ [])
    × (ended.active ≡ [])
    × ((h c : ℕ)
        → lookup h m.waiting ≡ some c
        → (r : PublishResult) × (get_elem? ended.channels c ≡ some (r ∷ [])))
    × ((h p : ℕ) → lookup h m.manager.active ≡ some p → IsEnded ended.tracks p)
shutdown_ends_example = shutdown_ends two_calls

unpublish-unpublish_example :
    let m = (run two_calls new_machine).manager in
    IsEnded (unpublish 1 m).tracks 0
    × (lookup 1 (unpublish 1 m).active ≡ none)
    × ((unpublish 1 m).sent ≡ m.sent ++ (unpublish_request 1 ∷ []))
    × (unpublish 1 (unpublish 1 m) ≡ unpublish 1 m)
unfolding run step new_machine new_local_manager begin_publish schema_encoding validate_schema
    reserve get wait_for spawn resolve_publish_locked resolve_pending response_handle
    new_local_track lookup insert
unpublish-unpublish_example = unpublish-unpublish two_calls 1 0 refl

abbrev one_track : LocalManager
one_track = record new_local_manager {
  active = (4, 0) ∷ [];
  tracks = new_local_track false 100 (info_of 4 30) ∷ [];
}

republish_tracks_complete_example :
    let m' = resolve_publish false 0 (accepts (info_of 4 31)) (republish_tracks one_track) in
    (get_elem? m'.tracks 0
      ≡ some (record (new_local_track false 100 (info_of 4 30)) {
        state = published;
        info = info_of 4 31;
      }))
    × (m'.active ≡ (4, 0) ∷ [])
    × (m'.pending ≡ [])
unfolding new_local_manager new_local_track lookup
republish_tracks_complete_example =
    republish_tracks_complete one_track 0 (new_local_track false 100 (info_of 4 30)) false 0
      (info_of 4 31) refl refl

-- A packet format without extensions, whose packets are their payloads after their numbers.
abbrev bare : Dtp
bare = record {
  Ext = ℕ;
  E2ee = ℕ;
  ext_id = λ x. x;
  e2ee_id = 1;
  user_timestamp_id = 2;
  marshal_e2ee = λ x. some x;
  unmarshal_e2ee = λ x. some x;
  marshal_user_timestamp = λ t. some t;
  unmarshal_user_timestamp = λ x. some x;
  add_extension = λ h x. h;
  marshal_size = λ h. 12;
  marshal = λ p. some (p.header.sequence_number ∷ p.payload);
  unmarshal = λ b. none;
}

abbrev encrypted_track : LocalTrack
encrypted_track = record {
  handle = 4;
  closes = 0;
  state = published;
  info = info_of 4 30;
  has_encryptor = true;
  packetizer = record {
    handle = 4;
    mtu = 15;
    sequence = 5;
    frame_number = 0;
    clock = record { base = 100; prev = 100 };
  };
}

abbrev cipher : List ℕ → Option (List ℕ × ℕ)
cipher payload = some (9 ∷ payload, 3)

abbrev short_frame : Frame
short_frame = record { payload = 1 ∷ 2 ∷ 3 ∷ []; user_timestamp = none }

bare_pushed :
    (try_push bare cipher short_frame (pos 0) encrypted_track).1
    ≡ pushed ((5 ∷ 9 ∷ 1 ∷ 2 ∷ []) ∷ (6 ∷ 3 ∷ []) ∷ [])
unfolding try_push process_frame seal marshalled marshal_packets packetize packetize_with
    chunk_payload chunk_loop number_packets next_sequence frame_marker initial_header apply
    apply_one apply_marker at is_before duration_to_ticks wrapping_add
bare_pushed = refl
