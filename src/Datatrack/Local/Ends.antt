-- ===== src/Datatrack/Local/Ends.antt =====
-- How publications of internal/datatrack/local.go end: `Unpublish` and `Shutdown`.
use server_sdk_go.Prelude.{
  ℕ, ◌==◌, ◌≡◌, inl, inr, refl, true, List, [], ◌∷◌, ◌++◌, none, some, Bool-cases, lookup, delete,
  modify, get_elem?, arith, lookup-delete, delete-absent, get_elem?-modify_same,
  get_elem?-modify_other,
}
use server_sdk_go.Datatrack.Local.{
  PublishResult, LocalTrack, LocalManager, is_unpublished, mark_unpublished, mark, run_task,
  run_tasks, unpublish_request,
}
use server_sdk_go.Datatrack.Local.Pipeline.{state-cases}
use server_sdk_go.Datatrack.Local.Methods.{
  marks, unpublish, unpublish_locked, alone, shutdown, shutdown_locked, disconnect_pending,
}
use server_sdk_go.Datatrack.Local.Machine.{Machine, new_machine, Action, run, spawn}
use server_sdk_go.Datatrack.Local.Machine.Invariant.{Inv}
use server_sdk_go.Datatrack.Local.Machine.Responses.{shutdown_locked-Inv}
use server_sdk_go.Datatrack.Local.Machine.Reach.{reached-Inv}

-- The track that `p` points to is there, and unpublished.
abbrev pub IsEnded : List LocalTrack → ℕ → Type 0
IsEnded tracks p =
    (t : LocalTrack) × (get_elem? tracks p ≡ some t) × (is_unpublished t.state ≡ true)

mark_unpublished_lem : (t : LocalTrack) → is_unpublished (mark_unpublished t).state ≡ true
unfolding mark_unpublished is_unpublished
mark_unpublished_lem t = elim (state-cases t.state) [
  | inl e ↦ ground arith
  | inr (inl e) ↦ ground arith
  | inr (inr e) ↦ ground arith
]

mark-IsEnded :
    (q p : ℕ) (tracks : List LocalTrack)
    → IsEnded tracks p
    → IsEnded (modify mark_unpublished q tracks) p
mark-IsEnded q p tracks (t, found, ended) = elim (Bool-cases (q == p)) [
  | inl e ↦
      let here : get_elem? tracks q ≡ some t = ground arith in
      (
        mark_unpublished t,
        ground (arith, get_elem?-modify_same mark_unpublished q tracks t here),
        mark_unpublished_lem t,
      )
  | inr e ↦ (t, ground (arith, get_elem?-modify_other mark_unpublished q p tracks e), ended)
]

mark-ends :
    (p : ℕ) (tracks : List LocalTrack) (t : LocalTrack)
    → get_elem? tracks p ≡ some t
    → IsEnded (modify mark_unpublished p tracks) p
mark-ends p tracks t found = (
  mark_unpublished t,
  get_elem?-modify_same mark_unpublished p tracks t found,
  mark_unpublished_lem t,
)

mark-found :
    (q p : ℕ) (tracks : List LocalTrack) (t : LocalTrack)
    → get_elem? tracks p ≡ some t
    → (u : LocalTrack) × (get_elem? (modify mark_unpublished q tracks) p ≡ some u)
mark-found q p tracks t found = elim (Bool-cases (q == p)) [
  | inl e ↦
      let here : get_elem? tracks q ≡ some t = ground arith in
      (mark_unpublished t, ground (arith, get_elem?-modify_same mark_unpublished q tracks t here))
  | inr e ↦ (t, ground (arith, get_elem?-modify_other mark_unpublished q p tracks e))
]

run_marks-IsEnded :
    (part : List (ℕ × ℕ)) (m : LocalManager) (p : ℕ)
    → IsEnded m.tracks p
    → IsEnded (run_tasks (marks part) m).tracks p
unfolding marks run_tasks run_task
run_marks-IsEnded [] m p ended = ended
run_marks-IsEnded ((k, q) ∷ part) m p ended =
    run_marks-IsEnded part (run_task (mark q) m) p (mark-IsEnded q p m.tracks ended)

run_marks-all :
    (part : List (ℕ × ℕ)) (m : LocalManager) (h p : ℕ) (t : LocalTrack)
    → lookup h part ≡ some p
    → get_elem? m.tracks p ≡ some t
    → IsEnded (run_tasks (marks part) m).tracks p
unfolding marks run_tasks run_task lookup
run_marks-all [] m h p t e found = absurd (ground arith)
run_marks-all ((k, q) ∷ part) m h p t e found = elim (Bool-cases (k == h)) [
  | inl same ↦
      let here : q ≡ p = ground arith in
      run_marks-IsEnded part (run_task (mark q) m) p (rw here (mark-ends p m.tracks t found))
  | inr other ↦
      let (u, found') = mark-found q p m.tracks t found in
      run_marks-all part (run_task (mark q) m) h p u (ground arith) found'
]

run_marks-rest :
    (part : List (ℕ × ℕ)) (m : LocalManager)
    → ((run_tasks (marks part) m).pending ≡ m.pending)
      × ((run_tasks (marks part) m).active ≡ m.active)
      × ((run_tasks (marks part) m).channels ≡ m.channels)
unfolding marks run_tasks run_task
run_marks-rest [] m = (refl, refl, refl)
run_marks-rest ((k, q) ∷ part) m = run_marks-rest part (run_task (mark q) m)

shutdown_answers :
    (m : Machine) (h c : ℕ)
    → Inv m
    → lookup h m.waiting ≡ some c
    → (r : PublishResult) × (get_elem? (shutdown_locked m.manager).0.channels c ≡ some (r ∷ []))
unfolding spawn shutdown_locked disconnect_pending lookup
shutdown_answers m h c inv waits =
    let (own, bound, state) = (shutdown_locked-Inv m inv).waiting_right h c waits in
    elim state [ inl p ↦ absurd (ground arith) | inr answer ↦ answer ]

-- After any steps of the callers, `Shutdown` leaves nothing pending and nothing active; each call of
-- `Publish` that waits has exactly one answer on its channel, so that it returns; and each track
-- that was active is unpublished.
pub shutdown_ends :
    (actions : List Action)
    → let m = run actions new_machine in
      let ended = shutdown m.manager in
      (ended.pending ≡ [])
      × (ended.active ≡ [])
      × ((h c : ℕ)
          → lookup h m.waiting ≡ some c
          → (r : PublishResult) × (get_elem? ended.channels c ≡ some (r ∷ [])))
      × ((h p : ℕ) → lookup h m.manager.active ≡ some p → IsEnded ended.tracks p)
unfolding shutdown shutdown_locked alone disconnect_pending
shutdown_ends actions =
    let m = run actions new_machine in
    let inv = reached-Inv actions in
    let after = (shutdown_locked m.manager).0 in
    let rest = run_marks-rest m.manager.active after in
    (
      rest.0,
      rest.1,
      λ h c waits. let (r, answered) = shutdown_answers m h c inv waits in (r, rw rest.2 answered),
      λ h p e.
          let (bound, t, found, owner, live) = inv.active_right h p e in
          run_marks-all m.manager.active after h p t e found,
    )

unpublish-none : (h : ℕ) (m : LocalManager) → lookup h m.active ≡ none → unpublish h m ≡ m
unfolding unpublish unpublish_locked alone run_tasks
unpublish-none h m e = rw (e, unpublish_locked, alone, run_tasks, delete-absent h m.active e) refl

unpublish-some :
    (h p : ℕ) (m : LocalManager)
    → lookup h m.active ≡ some p
    → unpublish h m ≡ record m {
      active = delete h m.active;
      tracks = modify mark_unpublished p m.tracks;
      sent = m.sent ++ (unpublish_request h ∷ []);
    }
unfolding unpublish unpublish_locked alone run_tasks run_task
unpublish-some h p m e = rw (e, unpublish_locked, alone, run_tasks) refl

-- A track that was active is unpublished by `Unpublish`, which asks the SFU to unpublish it; a second
-- call changes nothing and sends nothing.
pub unpublish-unpublish :
    (actions : List Action) (h p : ℕ)
    → let m = (run actions new_machine).manager in
      lookup h m.active ≡ some p
      → IsEnded (unpublish h m).tracks p
        × (lookup h (unpublish h m).active ≡ none)
        × ((unpublish h m).sent ≡ m.sent ++ (unpublish_request h ∷ []))
        × (unpublish h (unpublish h m) ≡ unpublish h m)
unpublish-unpublish actions h p e =
    let m = (run actions new_machine).manager in
    let inv = reached-Inv actions in
    let (bound, t, found, owner, live) = inv.active_right h p e in
    let gone : lookup h (delete h m.active) ≡ none =
      ground (arith, lookup-delete h h m.active inv.active_distinct) in
    let done = unpublish-some h p m e in
    (
      rw done (mark-ends p m.tracks t found),
      rw done gone,
      rw done refl,
      unpublish-none h (unpublish h m) (rw done gone),
    )
