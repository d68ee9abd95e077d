-- ===== src/Datatrack/Remote/Routes.antt =====
-- `RemoteManager` of internal/datatrack/remote.go: which track gets the packets of a handle. Tracks
-- are on a heap and pointed to by their number; the order in which Go visits a map is that of the
-- list that is given.
use server_sdk_go.Prelude.{
  ℕ, ◌≡◌, refl, true, false, ◌&&◌, List, [], ◌∷◌, Option, none, some, ◌==◌, if◌then◌else◌,
  bytes_equal, lookup, insert, delete, keys, Distinct, modify, get_elem?, lookup-insert,
  lookup-delete, insert-Distinct, delete-Distinct, get_elem?-modify_same, get_elem?-modify_other,
  arith, ==_refl,
}
use server_sdk_go.Datatrack.Handle.{handle_from_uint32, handle, failed}
use server_sdk_go.Datatrack.Proto.{parse_sid}
use server_sdk_go.Datatrack.Remote.Track.{
  pending, active, room_disconnected, RemoteTrack, Outside, Activation, no_subscription,
  first_handle, replaced, activate, activate_in, is_active, uses_handle, end_track,
}
use server_sdk_go.Datatrack.Remote.Sound.{answer_streams_lem}

-- A map with strings as keys.
unfoldable pub lookup_name : List ℕ → List (List ℕ × ℕ) → Option ℕ
lookup_name name [] = none
lookup_name name ((key, p) ∷ rest) = if bytes_equal key name then some p else lookup_name name rest

pub record RemoteManager : Type 0 where
  pub descriptors : List (List ℕ × ℕ)
  pub sub_handles : List (ℕ × ℕ)
  pub tracks : List RemoteTrack
  pub outside : Outside

-- `subscriberHandlesFromProto`; `none` is its error.
unfoldable pub subscriber_handles_from_proto :
    List ℕ → List (ℕ × List ℕ) → Option (List (ℕ × List ℕ))
subscriber_handles_from_proto prefix [] = some []
subscriber_handles_from_proto prefix ((raw, track_sid) ∷ rest) = elim (handle_from_uint32 raw) [
  | failed e ↦ none
  | handle h ↦ elim (parse_sid prefix track_sid) [
    | none ↦ none
    | some sid ↦ elim (subscriber_handles_from_proto prefix rest) [
      | none ↦ none
      | some mapping ↦ some ((h, sid) ∷ mapping)
    ]
  ]
]

unfoldable pub assign_track :
    ℕ → ℕ → (RemoteTrack × Outside) × Activation → RemoteManager → RemoteManager
assign_track h p (tw, no_subscription) m = m
assign_track h p (tw, first_handle) m = record m {
  sub_handles = insert h p m.sub_handles;
  tracks = modify (λ t. tw.0) p m.tracks;
  outside = tw.1;
}
assign_track h p (tw, replaced previous) m = record m {
  sub_handles = insert h p (delete previous m.sub_handles);
  tracks = modify (λ t. tw.0) p m.tracks;
  outside = tw.1;
}

-- A round of the loop of `HandleSubscriberHandles`.
unfoldable pub assign : ℕ → List ℕ → RemoteManager → RemoteManager
assign h sid m = elim (lookup_name sid m.descriptors) [
  | none ↦ m
  | some p ↦ elim (get_elem? m.tracks p) [
    | none ↦ m
    | some t ↦ assign_track h p (activate h t m.outside) m
  ]
]

unfoldable pub assign_all : List (ℕ × List ℕ) → RemoteManager → RemoteManager
assign_all [] m = m
assign_all ((h, sid) ∷ rest) m = assign_all rest (assign h sid m)

unfoldable pub handle_subscriber_handles :
    List ℕ → List (ℕ × List ℕ) → RemoteManager → RemoteManager
handle_subscriber_handles prefix raw m = elim (subscriber_handles_from_proto prefix raw) [
  | none ↦ m
  | some mapping ↦ assign_all mapping m
]

-- `releaseHandle`
unfoldable pub release_handle : ℕ → ℕ → RemoteManager → RemoteManager
release_handle p h m = elim (lookup h m.sub_handles) [
  | none ↦ m
  | some q ↦ elim (get_elem? m.tracks p) [
    | none ↦ m
    | some t ↦
        if (q == p) && (if uses_handle h t then false else true)
        then record m { sub_handles = delete h m.sub_handles }
        else m
  ]
]

-- The track to whose worker `HandlePacket` and `deliver` give a packet of the handle.
unfoldable pub route : ℕ → RemoteManager → Option ℕ
route h m = elim (lookup h m.sub_handles) [
  | none ↦ none
  | some p ↦ elim (get_elem? m.tracks p) [
    | none ↦ none
    | some t ↦ if uses_handle h t then some p else none
  ]
]

-- `Shutdown`; each track of the map is ended.
unfoldable pub end_all : List (List ℕ × ℕ) → List RemoteTrack × Outside → List RemoteTrack × Outside
end_all [] tw = tw
end_all ((sid, p) ∷ rest) (tracks, w) = elim (get_elem? tracks p) [
  | none ↦ end_all rest (tracks, w)
  | some t ↦
      let (ended, handle_of) = end_track room_disconnected t w in
      end_all rest (modify (λ u. ended.0) p tracks, ended.1)
]

unfoldable pub shutdown_remote : RemoteManager → RemoteManager
shutdown_remote m =
    let (tracks, w) = end_all m.descriptors (m.tracks, m.outside) in
    record { descriptors = []; sub_handles = []; tracks = tracks; outside = w }

pub assign-active :
    (h p : ℕ) (sid : List ℕ) (m : RemoteManager) (t : RemoteTrack)
    → lookup_name sid m.descriptors ≡ some p
    → get_elem? m.tracks p ≡ some t
    → t.subscription ≡ active
    → assign h sid m ≡ record m {
      sub_handles = insert h p (delete t.sub_handle m.sub_handles);
      tracks = modify (λ u. record t { sub_handle = h }) p m.tracks;
    }
unfolding assign assign_track activate activate_in
assign-active h p sid m t known found e = ground arith

pub assign-pending :
    (h p : ℕ) (sid : List ℕ) (m : RemoteManager) (t : RemoteTrack)
    → lookup_name sid m.descriptors ≡ some p
    → get_elem? m.tracks p ≡ some t
    → t.subscription ≡ pending
    → assign h sid m ≡ record m {
      sub_handles = insert h p m.sub_handles;
      tracks = modify (λ u. (activate_in pending h t m.outside).0.0) p m.tracks;
      outside = (activate_in pending h t m.outside).0.1;
    }
unfolding assign assign_track activate activate_in
assign-pending h p sid m t known found e = ground arith

pub activated-uses_handle :
    (k h : ℕ) (t : RemoteTrack) (w : Outside)
    → uses_handle k (activate_in pending h t w).0.0 ≡ (h == k)
unfolding activate_in uses_handle is_active
activated-uses_handle k h t w =
    let started = record t { running = true; sub_handle = h; subscription = active } in
    let (more, same, count) = answer_streams_lem t.buffer_size t.waiters started w in rw same refl

pub moved-uses_handle :
    (k h : ℕ) (t : RemoteTrack)
    → t.subscription ≡ active
    → uses_handle k (record t { sub_handle = h }) ≡ (h == k)
unfolding uses_handle is_active
moved-uses_handle k h t e = rw (e, is_active) refl

pub routed :
    (h p : ℕ) (t : RemoteTrack) (m : RemoteManager)
    → lookup h m.sub_handles ≡ some p
    → get_elem? m.tracks p ≡ some t
    → uses_handle h t ≡ true
    → route h m ≡ some p
unfolding route
routed h p t m known found uses = ground arith

pub lookup-insert_same : (h p : ℕ) (m : List (ℕ × ℕ)) → lookup h (insert h p m) ≡ some p
lookup-insert_same h p m = ground (arith, lookup-insert h h p m, ==_refl h)

unrouted : (h : ℕ) (m : RemoteManager) → lookup h m.sub_handles ≡ none → route h m ≡ none
unfolding route
unrouted h m e = rw (e, route) refl

-- Where the SFU exchanges the handles of two active subscriptions in one message, the track that is
-- visited first has the handle it was assigned, but the visit of the other one takes that handle
-- away again from the manager, and packets of the handle lead to no track.
pub assign_all_exchanged :
    (h1 h2 a b : ℕ) (sid_a sid_b : List ℕ) (m : RemoteManager) (ta tb : RemoteTrack)
    → Distinct (keys m.sub_handles)
    → lookup_name sid_a m.descriptors ≡ some a
    → lookup_name sid_b m.descriptors ≡ some b
    → get_elem? m.tracks a ≡ some ta
    → get_elem? m.tracks b ≡ some tb
    → ta.subscription ≡ active
    → tb.subscription ≡ active
    → ta.sub_handle ≡ h1
    → tb.sub_handle ≡ h2
    → (b == a) ≡ false
    → (h2 == h1) ≡ false
    → let m' = assign_all ((h1, sid_b) ∷ (h2, sid_a) ∷ []) m in
      (get_elem? m'.tracks b ≡ some (record tb { sub_handle = h1 })) × (route h1 m' ≡ none)
unfolding assign_all
assign_all_exchanged h1 h2 a b sid_a sid_b m ta tb distinct known_a known_b at_a at_b live_a live_b
      own_a own_b apart differ =
    let left = delete tb.sub_handle m.sub_handles in
    let distinct' =
      insert-Distinct h1 b left (delete-Distinct tb.sub_handle m.sub_handles distinct) in
    let moved = record tb { sub_handle = h1 } in
    let first = assign-active h1 b sid_b m tb known_b at_b live_b in
    let m1 : RemoteManager = record m {
      sub_handles = insert h1 b left;
      tracks = modify (λ u. moved) b m.tracks;
    } in
    let at_a1 : get_elem? m1.tracks a ≡ some ta =
      ground (arith, get_elem?-modify_other (λ u. moved) b a m.tracks apart) in
    let second = assign-active h2 a sid_a m1 ta known_a at_a1 live_a in
    let gone : lookup h1 (delete h1 (insert h1 b left)) ≡ none =
      ground (arith, lookup-delete h1 h1 (insert h1 b left) distinct', ==_refl h1) in
    rw (first, second)
      (
        ground (
          arith,
          get_elem?-modify_other (λ u. record ta { sub_handle = h2 }) a b m1.tracks,
          get_elem?-modify_same (λ u. moved) b m.tracks tb at_b,
        ),
        unrouted h1 _
            (ground (arith, lookup-insert h2 h1 a (delete ta.sub_handle (insert h1 b left)), gone)),
      )
