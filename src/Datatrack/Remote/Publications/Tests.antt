-- ===== src/Datatrack/Remote/Publications/Tests.antt =====
-- Concrete runs of the updates of participants in internal/datatrack/remote.go, and the theorem at a
-- concrete input.
use server_sdk_go.Prelude.{
  ℕ, ◌≡◌, refl, Bool, true, false, List, [], ◌∷◌, Option, none, some, delete, All, ◌⊎◌, get_elem?,
  true,
}
use server_sdk_go.Datatrack.Schema.{SchemaId, FrameEncoding}
use server_sdk_go.Datatrack.Proto.{Info}
use server_sdk_go.Datatrack.Remote.Track.{
  RemoteTrack, new_remote_track, active, end_track, answer_all, is_active, resend_subscription,
  resend_in,
}
use server_sdk_go.Datatrack.Remote.Routes.{RemoteManager, lookup_name}
use server_sdk_go.Datatrack.Remote.Publications.{
  Update, is_subscribed, delete_name, insert_name, is_published_by, has_pub_handle, find_candidate,
  publish_new, reassign_sid, same_flag, differs_in_sid_only, reassign_or_publish, list_info,
  list_infos, is_in_update, release_sub_handle, unpublish_track, is_gone, visit_descriptors,
  remove_absent, update_publisher, update_publishers, handle_publication_updates, resend_all,
}
use server_sdk_go.Datatrack.Remote.Participants.{
  add_absent, has_publisher, put_publisher, publication_updates_from_proto, collect_updates,
  handle_participant_snapshot,
}
use server_sdk_go.Datatrack.Remote.Publications.Listed.{
  listed_only, IsDealt, remove_absent-listed_only,
}

abbrev no_schema : Option SchemaId → Option SchemaId → Bool
no_schema a b = true

abbrev no_encoding : Option FrameEncoding → Option FrameEncoding → Bool
no_encoding a b = true

abbrev info_of : ℕ → ℕ → Info
info_of sid pub_handle = record {
  sid = sid ∷ [];
  pub_handle = pub_handle;
  name = 99 ∷ [];
  uses_e2ee = false;
  schema = none;
  frame_encoding = none;
}

abbrev subscribed : ℕ → ℕ → ℕ → RemoteTrack
subscribed sid pub_handle h = record (new_remote_track (info_of sid pub_handle) (97 ∷ [])) {
  subscription = active;
  sub_handle = h;
  running = true;
  streams = h ∷ [];
}

abbrev two_known : RemoteManager
two_known = record {
  descriptors = (30 ∷ [], 0) ∷ (31 ∷ [], 1) ∷ [];
  sub_handles = (1, 0) ∷ (2, 1) ∷ [];
  tracks = subscribed 30 5 1 ∷ subscribed 31 6 2 ∷ [];
  outside = record { next_stream = 3; made = []; closed = []; answers = [] };
}

-- The publisher came back with one track, under another SID.
abbrev one_listed : List Info
one_listed = info_of 40 5 ∷ []

abbrev begun : Update
begun = record { manager = two_known; published = []; unpublished = []; resubscribe = [] }

abbrev listed_first : List Info
listed_first = info_of 30 5 ∷ []

-- The track keeps its place and is subscribed to again under its new SID; the other one is gone with
-- its handle.
moved_and_gone :
    let u =
      handle_publication_updates no_schema no_encoding ((97 ∷ [], one_listed) ∷ []) two_known in
    (u.manager.descriptors ≡ (40 ∷ [], 0) ∷ [])
    × (u.manager.sub_handles ≡ (1, 0) ∷ [])
    × (u.manager.outside.closed ≡ 2 ∷ [])
    × (u.published ≡ [])
    × (u.unpublished ≡ 1 ∷ [])
    × (resend_all u.manager.tracks u.resubscribe
        ≡ some (record { sid = 40 ∷ []; subscribe = true }) ∷ [])
unfolding handle_publication_updates update_publishers update_publisher remove_absent
    visit_descriptors is_gone unpublish_track release_sub_handle is_in_update list_infos list_info
    reassign_or_publish differs_in_sid_only same_flag reassign_sid find_candidate has_pub_handle
    is_published_by insert_name delete_name is_subscribed lookup_name end_track answer_all is_active
    resend_all resend_subscription resend_in new_remote_track delete
moved_and_gone = (refl, refl, refl, refl, refl, refl)

-- A track that is new is told about.
new_track :
    let u =
      handle_publication_updates no_schema no_encoding ((98 ∷ [], one_listed) ∷ []) two_known in
    (u.published ≡ 2 ∷ [])
    × (u.unpublished ≡ [])
    × (lookup_name (40 ∷ []) u.manager.descriptors ≡ some 2)
unfolding handle_publication_updates update_publishers update_publisher remove_absent
    visit_descriptors is_gone list_infos list_info reassign_or_publish publish_new find_candidate
    has_pub_handle is_published_by insert_name lookup_name new_remote_track is_in_update
new_track = (refl, refl, refl)

remove_absent-listed_only_example :
    let m = begun.manager in
    let m' = (remove_absent (97 ∷ []) listed_first begun).manager in
    (m'.descriptors ≡ listed_only (97 ∷ []) listed_first m.tracks m.descriptors)
    × All (IsDealt (97 ∷ []) listed_first m.tracks m'.tracks) m.descriptors
    × ((is_published_by (97 ∷ []) (get_elem? m.tracks 0) ≡ true)
        ⊎ (get_elem? m'.tracks 0 ≡ get_elem? m.tracks 0))
remove_absent-listed_only_example = remove_absent-listed_only (97 ∷ []) listed_first begun 0

-- A snapshot without participants ends every track.
nobody_left :
    let u = handle_participant_snapshot no_schema no_encoding [] (98 ∷ []) [] two_known in
    (u.manager.descriptors ≡ [])
    × (u.manager.sub_handles ≡ [])
    × (u.unpublished ≡ 0 ∷ 1 ∷ [])
    × (u.manager.outside.closed ≡ 1 ∷ 2 ∷ [])
unfolding handle_participant_snapshot publication_updates_from_proto collect_updates add_absent
    has_publisher put_publisher handle_publication_updates update_publishers update_publisher
    remove_absent visit_descriptors is_gone unpublish_track release_sub_handle is_in_update
    list_infos is_published_by end_track answer_all is_active new_remote_track delete
nobody_left = (refl, refl, refl, refl)
