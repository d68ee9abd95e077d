-- ===== src/Datatrack/Local/Machine/Responses.antt =====
-- The methods under the lock of internal/datatrack/local.go, and the invariant.
use server_sdk_go.Prelude.{
  ℕ, ◌==◌, ◌≡◌, inl, inr, refl, Bool, List, [], ◌∷◌, ◌++◌, none, some, Bool-cases, Option-cases,
  All, lookup, insert, get_elem?, length, arith, length-append, get_elem?-snoc, lookup-insert,
  lookup-delete, keys,
}
use server_sdk_go.Datatrack.Proto.{Info, Rejection}
use server_sdk_go.Datatrack.Local.{
  PublishError, rejected, PublishResult, LocalTrack, is_unpublished, new_local_track, failure,
  track_unpublished, Task, mark, complete, give, unpublish_request,
}
use server_sdk_go.Datatrack.Local.Methods.{
  PublishResponse, accepts, rejects, response_handle, resolve_pending, resolve_active,
  resolve_publish_locked, fail_one, remove_active, unpublish_response_locked, unpublish_locked,
  republish_locked, shutdown_locked, disconnect_pending, republish_requests, marks,
}
use server_sdk_go.Datatrack.Local.Machine.{Machine, spawn}
use server_sdk_go.Datatrack.Local.Machine.Invariant.{IsTaskRight, Inv}
use server_sdk_go.Datatrack.Local.Machine.Tracks.{append_track-Inv, threads-IsTaskRight}
use server_sdk_go.Datatrack.Local.Machine.Requests.{
  answered-Inv, activated-Inv, removed-Inv, removed-IsTaskRight,
}
use server_sdk_go.Datatrack.Local.Machine.Loops.{
  set_threads-Inv, disconnect_pending-Inv, begin_active-Inv, republish_requests-IsTaskRight,
  marks_active-IsTaskRight,
}

-- A thread that is added to the others.
thread-Inv :
    (m : Machine) (ts : List Task)
    → Inv m
    → All (IsTaskRight m.manager.tracks m.manager.active) ts
    → Inv (record m { threads = ts ∷ m.threads })
thread-Inv m ts inv right = set_threads-Inv m (ts ∷ m.threads) inv (right, inv.threads_right)

module _ (m : Machine) (inv : Inv m) where
  found_new :
      (t : LocalTrack) → get_elem? (m.manager.tracks ++ (t ∷ [])) (length m.manager.tracks) ≡ some t
  found_new t = ground (arith, get_elem?-snoc m.manager.tracks t (length m.manager.tracks))

  kept_marks :
      (h : ℕ) (t : LocalTrack) (q : ℕ)
      → IsTaskRight m.manager.tracks m.manager.active (mark q)
      → IsTaskRight
          (m.manager.tracks ++ (t ∷ []))
          (insert h (length m.manager.tracks) m.manager.active)
          (mark q)
  kept_marks h t q right = (
    omega (arith, right.0, length-append m.manager.tracks (t ∷ [])),
    λ h' e. elim (Bool-cases (h == h')) [
      | inl same ↦
          absurd
            (ground (arith, right.0, lookup-insert h h' (length m.manager.tracks) m.manager.active))
      | inr other ↦
          right.1 h' (ground (arith, lookup-insert h h' (length m.manager.tracks) m.manager.active))
    ],
  )

  -- Where the SFU accepts a request that is pending: the track comes first, then the answer.
  accept-Inv :
      (session_encrypts : Bool) (base : ℕ) (info : Info) (c : ℕ)
      → lookup info.pub_handle m.manager.pending ≡ some c
      → Inv (spawn m (resolve_pending session_encrypts base (accepts info) c m.manager))
  unfolding spawn resolve_pending new_local_track is_unpublished
  accept-Inv session_encrypts base info c at_pending =
      let h = info.pub_handle in
      let t = new_local_track session_encrypts base info in
      let p = length m.manager.tracks in
      let w' = m.manager.tracks ++ (t ∷ []) in
      let added = append_track-Inv t m refl inv in
      let m1 : Machine = record m { manager = record m.manager { tracks = w' } } in
      let r : PublishResult = record { track = some p; error = none } in
      let answered =
        answered-Inv m1 added h c r at_pending (λ q e. (t, ground (arith, found_new t), refl)) in
      let (own, empty, inactive, waits) = inv.pending_right h c at_pending in
      let (own', bound, state) = inv.waiting_right h c waits in
      let live =
        activated-Inv _ answered h p t (found_new t) refl refl bound
          (ground (arith, lookup-delete h h m.manager.pending inv.pending_distinct))
          (threads-IsTaskRight m.manager.tracks w' m.manager.active (insert h p m.manager.active)
            m.threads (kept_marks h t) inv.threads_right) in
      thread-Inv _ [] live tt

  reject-Inv :
      (session_encrypts : Bool) (base : ℕ) (r : Rejection) (c : ℕ)
      → lookup r.handle m.manager.pending ≡ some c
      → Inv (spawn m (resolve_pending session_encrypts base (rejects r) c m.manager))
  unfolding spawn resolve_pending
  reject-Inv session_encrypts base r c at_pending =
      thread-Inv _ []
        (answered-Inv m inv r.handle c (failure (rejected r.error r.message)) at_pending
          (λ p e. absurd (ground arith)))
        tt

  pending-Inv :
      (session_encrypts : Bool) (base : ℕ) (response : PublishResponse) (c : ℕ)
      → lookup (response_handle response) m.manager.pending ≡ some c
      → Inv (spawn m (resolve_pending session_encrypts base response c m.manager))
  unfolding response_handle
  pending-Inv session_encrypts base (accepts info) c e = accept-Inv session_encrypts base info c e
  pending-Inv session_encrypts base (rejects r) c e = reject-Inv session_encrypts base r c e

  active-Inv : (response : PublishResponse) → Inv (spawn m (resolve_active response m.manager))
  unfolding spawn resolve_active
  active-Inv (accepts info) = elim (Option-cases (lookup info.pub_handle m.manager.active)) [
    | inl e ↦
        rw (e, resolve_active)
          (thread-Inv m (give (unpublish_request info.pub_handle) ∷ []) inv (tt, tt))
    | inr (p, e) ↦ rw (e, resolve_active) (thread-Inv m (complete p info.sid ∷ []) inv (tt, tt))
  ]
  active-Inv (rejects r) = elim (Option-cases (lookup r.handle m.manager.active)) [
    | inl e ↦ rw (e, resolve_active) (thread-Inv m [] inv tt)
    | inr (p, e) ↦
        rw (e, resolve_active)
          (thread-Inv _ (mark p ∷ []) (removed-Inv m inv r.handle)
            (removed-IsTaskRight m inv r.handle p e, tt))
  ]

  pub resolve_publish_locked-Inv :
      (session_encrypts : Bool) (base : ℕ) (response : PublishResponse)
      → Inv (spawn m (resolve_publish_locked session_encrypts base response m.manager))
  unfolding resolve_publish_locked
  resolve_publish_locked-Inv session_encrypts base response =
      elim (Option-cases (lookup (response_handle response) m.manager.pending)) [
        | inl e ↦ rw (e, resolve_publish_locked) (active-Inv response)
        | inr (c, e) ↦
            rw (e, resolve_publish_locked) (pending-Inv session_encrypts base response c e)
      ]

  fail_one-Inv : (x : PublishError) (h : ℕ) → Inv (record m { manager = fail_one x h m.manager })
  unfolding fail_one
  fail_one-Inv x h = elim (Option-cases (lookup h m.manager.pending)) [
    | inl e ↦ rw (e, fail_one) inv
    | inr (c, e) ↦
        rw (e, fail_one) (answered-Inv m inv h c (failure x) e (λ p none. absurd (ground arith)))
  ]

  remove_active-Inv : (h : ℕ) → Inv (spawn m (remove_active h m.manager))
  unfolding spawn remove_active
  remove_active-Inv h = elim (Option-cases (lookup h m.manager.active)) [
    | inl e ↦ rw (e, remove_active) (thread-Inv _ [] (removed-Inv m inv h) tt)
    | inr (p, e) ↦
        rw (e, remove_active)
          (thread-Inv _ (mark p ∷ []) (removed-Inv m inv h) (removed-IsTaskRight m inv h p e, tt))
  ]

  pub unpublish_locked-Inv : (h : ℕ) → Inv (spawn m (unpublish_locked h m.manager))
  unfolding spawn unpublish_locked
  unpublish_locked-Inv h = elim (Option-cases (lookup h m.manager.active)) [
    | inl e ↦ rw (e, unpublish_locked) (thread-Inv _ [] (removed-Inv m inv h) tt)
    | inr (p, e) ↦
        rw (e, unpublish_locked)
          (thread-Inv _ (mark p ∷ give (unpublish_request h) ∷ []) (removed-Inv m inv h)
            (removed-IsTaskRight m inv h p e, (tt, tt)))
  ]

  pub republish_locked-Inv : Inv (spawn m (republish_locked m.manager))
  unfolding spawn republish_locked disconnect_pending
  republish_locked-Inv =
      let begun = begin_active-Inv _ (disconnect_pending-Inv m inv) in
      thread-Inv _ (republish_requests m.manager.active m.manager.tracks) begun
        (republish_requests-IsTaskRight _ m.manager.active m.manager.active m.manager.tracks)

  cleared-Inv : Inv (record m {
    manager = record m.manager { active = [] };
    threads = marks m.manager.active ∷ m.threads;
  })
  unfolding keys lookup
  cleared-Inv = record {
    pending_distinct = inv.pending_distinct;
    active_distinct = tt;
    waiting_distinct = inv.waiting_distinct;
    counted = inv.counted;
    pending_right = λ h c e.
        let (own, empty, inactive, waits) = inv.pending_right h c e in (own, empty, refl, waits);
    active_right = λ h p e. absurd (ground arith);
    waiting_right = inv.waiting_right;
    tracks_right = inv.tracks_right;
    channels_right = inv.channels_right;
    threads_right = (
      marks_active-IsTaskRight m inv,
      threads-IsTaskRight m.manager.tracks m.manager.tracks m.manager.active [] m.threads
          (λ q right. (right.0, λ h e. absurd (ground arith))) inv.threads_right,
    );
  }

pub shutdown_locked-Inv : (m : Machine) → Inv m → Inv (spawn m (shutdown_locked m.manager))
unfolding spawn shutdown_locked disconnect_pending
shutdown_locked-Inv m inv = cleared-Inv _ (disconnect_pending-Inv m inv)

pub unpublish_response_locked-Inv :
    (m : Machine) → Inv m → (h : ℕ) → Inv (spawn m (unpublish_response_locked h m.manager))
unfolding spawn unpublish_response_locked
unpublish_response_locked-Inv m inv h =
    remove_active-Inv _ (fail_one-Inv m inv track_unpublished h) h
