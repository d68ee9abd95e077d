-- ===== src/Datatrack/Remote/Publications.antt =====
-- The updates of participants in internal/datatrack/remote.go: tracks that come, move to another SID
-- and go. Go's comparisons of schemas and of frame encodings are arguments, since the model puts
-- encodings that the source does not name together.
pub mod Ended
pub mod Listed
mod Tests
use server_sdk_go.Prelude.{
  ℕ, ◌≡◌, refl, Bool, true, false, not, ◌&&◌, ◌||◌, List, [], ◌∷◌, ◌++◌, Option, none, some, ◌==◌,
  if◌then◌else◌, length, bytes_equal, delete, modify, get_elem?, get_elem?-modify_same,
  get_elem?-modify_other, get_elem?-modify-none, arith, inl, inr, Bool-cases, Option-cases,
}
use server_sdk_go.Datatrack.Schema.{SchemaId, FrameEncoding}
use server_sdk_go.Datatrack.Proto.{Info}
use server_sdk_go.Datatrack.Remote.Track.{
  unsubscribed, pending, active, unpublished_track, SubscriptionState, SubscriptionUpdate,
  RemoteTrack, Outside, new_remote_track, end_track, resend_subscription,
}
use server_sdk_go.Datatrack.Remote.Routes.{RemoteManager, lookup_name}

unfoldable pub is_subscribed : SubscriptionState → Bool
is_subscribed unsubscribed = false
is_subscribed pending = true
is_subscribed active = true

unfoldable pub delete_name : List ℕ → List (List ℕ × ℕ) → List (List ℕ × ℕ)
delete_name name [] = []
delete_name name ((key, p) ∷ rest) =
    if bytes_equal key name then rest else (key, p) ∷ delete_name name rest

unfoldable pub insert_name : List ℕ → ℕ → List (List ℕ × ℕ) → List (List ℕ × ℕ)
insert_name name p [] = (name, p) ∷ []
insert_name name p ((key, q) ∷ rest) =
    if bytes_equal key name then (name, p) ∷ rest else (key, q) ∷ insert_name name p rest

-- Whether the track at a pointer is the publisher's.
unfoldable pub is_published_by : List ℕ → Option RemoteTrack → Bool
is_published_by publisher none = false
is_published_by publisher (some t) = bytes_equal t.publisher_identity publisher

unfoldable pub has_pub_handle : ℕ → Option RemoteTrack → Bool
has_pub_handle h none = false
has_pub_handle h (some t) = t.pub_handle == h

-- The loop of `reassignSIDLocked`.
unfoldable pub find_candidate : List ℕ → ℕ → List RemoteTrack → List (List ℕ × ℕ) → Option ℕ
find_candidate publisher h tracks [] = none
find_candidate publisher h tracks ((sid, p) ∷ rest) =
    let later = find_candidate publisher h tracks rest in
    if is_published_by publisher (get_elem? tracks p) && has_pub_handle h (get_elem? tracks p)
    then some p
    else later

-- The state of `handlePublicationUpdates`: the manager, and the tracks it collects.
pub record Update : Type 0 where
  pub manager : RemoteManager
  pub published : List ℕ
  pub unpublished : List ℕ
  pub resubscribe : List ℕ

-- A track that is not known, and is none that moved.
unfoldable pub publish_new : List ℕ → Info → Update → Update
publish_new publisher info u =
    let m = u.manager in
    record u {
      manager = record m {
        descriptors = insert_name info.sid (length m.tracks) m.descriptors;
        tracks = m.tracks ++ (new_remote_track info publisher ∷ []);
      };
      published = u.published ++ (length m.tracks ∷ []);
    }

-- The track at `p` moves to the SID of `info`.
unfoldable pub reassign_sid : ℕ → RemoteTrack → Info → Update → Update
reassign_sid p t info u =
    let m = u.manager in
    let old = t.info in
    let moved = record t { info = record old { sid = info.sid } } in
    record u {
      manager = record m {
        descriptors = insert_name info.sid p (delete_name old.sid m.descriptors);
        tracks = modify (λ x. moved) p m.tracks;
      };
      resubscribe =
          if is_subscribed t.subscription then u.resubscribe ++ (p ∷ []) else u.resubscribe;
    }

unfoldable pub same_flag : Bool → Bool → Bool
same_flag true b = b
same_flag false b = not b

module _ (same_schema : Option SchemaId → Option SchemaId → Bool)
    (same_encoding : Option FrameEncoding → Option FrameEncoding → Bool) where
  -- The test of `reassignSID`.
  unfoldable pub differs_in_sid_only : Info → Info → Bool
  differs_in_sid_only old info =
      bytes_equal old.name info.name
      && same_flag old.uses_e2ee info.uses_e2ee
      && same_schema old.schema info.schema
      && same_encoding old.frame_encoding info.frame_encoding

  unfoldable pub reassign_or_publish : List ℕ → Info → Update → Update
  reassign_or_publish publisher info u =
      let m = u.manager in
      elim (find_candidate publisher info.pub_handle m.tracks m.descriptors) [
        | none ↦ publish_new publisher info u
        | some p ↦ elim (get_elem? m.tracks p) [
          | none ↦ publish_new publisher info u
          | some t ↦
              if differs_in_sid_only t.info info
              then reassign_sid p t info u
              else publish_new publisher info u
        ]
      ]

  -- A round of the loop over a publisher's infos.
  unfoldable pub list_info : List ℕ → Info → Update → Update
  list_info publisher info u = elim (lookup_name info.sid u.manager.descriptors) [
    | none ↦ reassign_or_publish publisher info u
    | some p ↦ u
  ]

  unfoldable pub list_infos : List ℕ → List Info → Update → Update
  list_infos publisher [] u = u
  list_infos publisher (info ∷ rest) u = list_infos publisher rest (list_info publisher info u)

-- `sidsInUpdate`
unfoldable pub is_in_update : List Info → List ℕ → Bool
is_in_update [] sid = false
is_in_update (info ∷ rest) sid = bytes_equal info.sid sid || is_in_update rest sid

unfoldable pub release_sub_handle : Option ℕ → List (ℕ × ℕ) → List (ℕ × ℕ)
release_sub_handle none handles = handles
release_sub_handle (some h) handles = delete h handles

-- The end of a track that is no longer listed, but for its entry in `descriptors`.
unfoldable pub unpublish_track : ℕ → Update → Update
unpublish_track p u =
    let m = u.manager in
    elim (get_elem? m.tracks p) [
      | none ↦ u
      | some t ↦
          let (ended, freed) = end_track unpublished_track t m.outside in
          record u {
            manager = record m {
              sub_handles = release_sub_handle freed m.sub_handles;
              tracks = modify (λ x. ended.0) p m.tracks;
              outside = ended.1;
            };
            unpublished = u.unpublished ++ (p ∷ []);
          }
    ]

unfoldable pub is_gone : List ℕ → List Info → List ℕ → ℕ → Update → Bool
is_gone publisher infos sid p u =
    is_published_by publisher (get_elem? u.manager.tracks p) && not (is_in_update infos sid)

-- The loop over `descriptors`; the entries that it leaves in the map come first.
unfoldable pub visit_descriptors :
    List ℕ → List Info → List (List ℕ × ℕ) → Update → List (List ℕ × ℕ) × Update
visit_descriptors publisher infos [] u = ([], u)
visit_descriptors publisher infos ((sid, p) ∷ rest) u =
    let next =
      visit_descriptors publisher infos rest
        (if is_gone publisher infos sid p u then unpublish_track p u else u) in
    if is_gone publisher infos sid p u then next else ((sid, p) ∷ next.0, next.1)

unfoldable pub remove_absent : List ℕ → List Info → Update → Update
remove_absent publisher infos u =
    let (kept, u') = visit_descriptors publisher infos u.manager.descriptors u in
    let m = u'.manager in record u' { manager = record m { descriptors = kept } }

module _ (same_schema : Option SchemaId → Option SchemaId → Bool)
    (same_encoding : Option FrameEncoding → Option FrameEncoding → Bool) where
  -- A round of the loop over the publishers.
  unfoldable pub update_publisher : List ℕ → List Info → Update → Update
  update_publisher publisher infos u =
      remove_absent publisher infos (list_infos same_schema same_encoding publisher infos u)

  unfoldable pub update_publishers : List (List ℕ × List Info) → Update → Update
  update_publishers [] u = u
  update_publishers ((publisher, infos) ∷ rest) u =
      update_publishers rest (update_publisher publisher infos u)

  -- The tracks to tell about are in `published` and `unpublished`; `resend_all` has the updates
  -- that are sent again.
  unfoldable pub handle_publication_updates : List (List ℕ × List Info) → RemoteManager → Update
  handle_publication_updates updates m =
      update_publishers updates
        (record { manager = m; published = []; unpublished = []; resubscribe = [] })

unfoldable pub resend_all : List RemoteTrack → List ℕ → List (Option SubscriptionUpdate)
resend_all tracks [] = []
resend_all tracks (p ∷ rest) = elim (get_elem? tracks p) [
  | none ↦ resend_all tracks rest
  | some t ↦ resend_subscription t ∷ resend_all tracks rest
]
