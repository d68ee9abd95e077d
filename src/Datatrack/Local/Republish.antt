-- ===== src/Datatrack/Local/Republish.antt =====
-- A full reconnect in internal/datatrack/local.go: `RepublishTracks` and the SFU's answer to it.
use server_sdk_go.Prelude.{
  ℕ, ◌==◌, ◌≡◌, inl, inr, refl, Bool, List, [], ◌∷◌, none, some, Bool-cases, Option-cases, lookup,
  modify, get_elem?, arith, get_elem?-modify_same, get_elem?-modify_other,
}
use server_sdk_go.Datatrack.Proto.{Info}
use server_sdk_go.Datatrack.Local.{
  LocalTrack, LocalManager, Signal, begin_republish, complete_republish, published, run_task,
  run_tasks, complete,
}
use server_sdk_go.Datatrack.Local.Methods.{
  accepts, response_handle, resolve_publish, resolve_publish_locked, resolve_active,
  republish_tracks, republish_locked, republish_requests, begin_all, alone, disconnect_pending,
}

-- The tasks of `RepublishTracks` only send.
run_republish_requests :
    (part : List (ℕ × ℕ)) (tracks : List LocalTrack) (m : LocalManager)
    → (s : List Signal) × (run_tasks (republish_requests part tracks) m ≡ record m { sent = s })
unfolding republish_requests run_tasks run_task
run_republish_requests [] tracks m = (m.sent, refl)
run_republish_requests ((h, p) ∷ rest) tracks m = elim (Option-cases (get_elem? tracks p)) [
  | inl e ↦ rw (e, republish_requests) (run_republish_requests rest tracks m)
  | inr (t, e) ↦ rw (e, republish_requests, run_tasks) (run_republish_requests rest tracks _)
]

begin_republish_twice : (t : LocalTrack) → begin_republish (begin_republish t) ≡ begin_republish t
unfolding begin_republish
begin_republish_twice t = refl

begin_all-kept :
    (part : List (ℕ × ℕ)) (tracks : List LocalTrack) (p : ℕ) (t : LocalTrack)
    → get_elem? tracks p ≡ some (begin_republish t)
    → get_elem? (begin_all part tracks) p ≡ some (begin_republish t)
unfolding begin_all
begin_all-kept [] tracks p t e = e
begin_all-kept ((h, q) ∷ part) tracks p t e =
    begin_all-kept part (modify begin_republish q tracks) p t (elim (Bool-cases (q == p)) [
      | inl same ↦
          let here : get_elem? tracks q ≡ some (begin_republish t) = ground arith in
          ground (
            arith,
            get_elem?-modify_same begin_republish q tracks (begin_republish t) here,
            begin_republish_twice t,
          )
      | inr other ↦ ground (arith, get_elem?-modify_other begin_republish q p tracks other)
    ])

begin_all-begun :
    (part : List (ℕ × ℕ)) (tracks : List LocalTrack) (h p : ℕ) (t : LocalTrack)
    → lookup h part ≡ some p
    → get_elem? tracks p ≡ some t
    → get_elem? (begin_all part tracks) p ≡ some (begin_republish t)
unfolding begin_all lookup
begin_all-begun [] tracks h p t e found = absurd (ground arith)
begin_all-begun ((k, q) ∷ part) tracks h p t e found = elim (Bool-cases (q == p)) [
  | inl same ↦
      let here : get_elem? tracks q ≡ some t = ground arith in
      begin_all-kept part (modify begin_republish q tracks) p t
        (ground (arith, get_elem?-modify_same begin_republish q tracks t here))
  | inr other ↦
      begin_all-begun part (modify begin_republish q tracks) h p t (ground arith)
        (ground (arith, get_elem?-modify_other begin_republish q p tracks other))
]

-- While a track waits for the SFU's answer it is `republishing`, with its metadata as before.
republish_tracks_lem :
    (m : LocalManager)
    → (s : List Signal) × (republish_tracks m
        ≡ record (disconnect_pending m) { tracks = begin_all m.active m.tracks; sent = s })
unfolding republish_tracks republish_locked alone
republish_tracks_lem m = run_republish_requests m.active m.tracks _

accept_active :
    (session_encrypts : Bool) (base : ℕ) (info : Info) (m : LocalManager) (p : ℕ)
    → lookup info.pub_handle m.pending ≡ none
    → lookup info.pub_handle m.active ≡ some p
    → resolve_publish session_encrypts base (accepts info) m ≡ run_task (complete p info.sid) m
unfolding resolve_publish resolve_publish_locked resolve_active response_handle alone run_tasks
accept_active session_encrypts base info m p idle e =
    rw (idle, resolve_publish_locked, e, resolve_active, alone, run_tasks) refl

complete_begun :
    (sid : List ℕ) (t : LocalTrack)
    → (complete_republish sid (begin_republish t)).0
      ≡ record t { state = published; info = record t.info { sid = sid } }
unfolding complete_republish begin_republish
complete_begun sid t = refl

-- After a full reconnect, the SFU's acceptance of a track that was active makes it published again,
-- under the new SID; its other metadata, its packetizer and the set of active tracks are as they
-- were, and nothing is pending.
pub republish_tracks_complete :
    (m : LocalManager) (p : ℕ) (t : LocalTrack) (session_encrypts : Bool) (base : ℕ) (info : Info)
    → lookup info.pub_handle m.active ≡ some p
    → get_elem? m.tracks p ≡ some t
    → let m' = resolve_publish session_encrypts base (accepts info) (republish_tracks m) in
      (get_elem? m'.tracks p
        ≡ some (record t { state = published; info = record t.info { sid = info.sid } }))
      × (m'.active ≡ m.active)
      × (m'.pending ≡ [])
unfolding disconnect_pending run_task lookup
republish_tracks_complete m p t session_encrypts base info e found =
    let (s, begun) = republish_tracks_lem m in
    let done : resolve_publish session_encrypts base (accepts info) (republish_tracks m)
        ≡ run_task (complete p info.sid)
            (record (disconnect_pending m) { tracks = begin_all m.active m.tracks; sent = s }) =
      rw begun (accept_active session_encrypts base info _ p refl e) in
    rw done (
      rw (← complete_begun info.sid t) (
          get_elem?-modify_same (λ u. (complete_republish info.sid u).0) p
            (begin_all m.active m.tracks) (begin_republish t)
            (begin_all-begun m.active m.tracks info.pub_handle p t e found)),
      refl,
      refl,
    )
