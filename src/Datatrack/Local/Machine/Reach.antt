-- ===== src/Datatrack/Local/Machine/Reach.antt =====
-- All steps of the callers of internal/datatrack/local.go, one after the other.
use server_sdk_go.Prelude.{
  ℕ, suc, ◌≡◌, ◌≢◌, inl, inr, List, [], ◌∷◌, none, some, Option-cases, lookup, get_elem?, arith,
}
use server_sdk_go.Datatrack.Local.{PublishResult}
use server_sdk_go.Datatrack.Local.Methods.{abandon, late_answer, forget}
use server_sdk_go.Datatrack.Local.Machine.{
  Machine, new_machine, Action, begin, receive, transport_fails, context_ends, respond,
  unpublish_response, call_unpublish, republish, shut_down, push, go_on, step, run,
}
use server_sdk_go.Datatrack.Local.Machine.Invariant.{Inv, new_machine-Inv}
use server_sdk_go.Datatrack.Local.Machine.Calls.{begin_publish-Inv, give_up-Inv, receive_on-Inv}
use server_sdk_go.Datatrack.Local.Machine.Tasks.{go_on-Inv, push-Inv}
use server_sdk_go.Datatrack.Local.Machine.Responses.{
  resolve_publish_locked-Inv, unpublish_response_locked-Inv, unpublish_locked-Inv,
  republish_locked-Inv, shutdown_locked-Inv,
}

step-Inv : (a : Action) (m : Machine) → Inv m → Inv (step a m)
unfolding step
step-Inv (begin options ended) m inv = begin_publish-Inv m inv options ended
step-Inv (receive h) m inv = receive_on-Inv m inv h
step-Inv (transport_fails h) m inv = give_up-Inv m inv h
step-Inv (context_ends h) m inv = give_up-Inv m inv h
step-Inv (respond session_encrypts base response) m inv =
    resolve_publish_locked-Inv m inv session_encrypts base response
step-Inv (unpublish_response h) m inv = unpublish_response_locked-Inv m inv h
step-Inv (call_unpublish h) m inv = unpublish_locked-Inv m inv h
step-Inv republish m inv = republish_locked-Inv m inv
step-Inv shut_down m inv = shutdown_locked-Inv m inv
step-Inv (push p left) m inv = push-Inv p left m inv
step-Inv (go_on i) m inv = go_on-Inv i m inv

run-Inv : (actions : List Action) (m : Machine) → Inv m → Inv (run actions m)
unfolding run
run-Inv [] m inv = inv
run-Inv (a ∷ rest) m inv = run-Inv rest (step a m) (step-Inv a m inv)

pub reached-Inv : (actions : List Action) → Inv (run actions new_machine)
reached-Inv actions = run-Inv actions new_machine new_machine-Inv

late_answer-some :
    (m : Machine) (h c : ℕ) (r : PublishResult)
    → Inv m
    → suc c ≡ h
    → get_elem? m.manager.channels c ≡ some (r ∷ [])
    → late_answer (get_elem? m.manager.channels c) (forget h m.manager) ≢ none
unfolding late_answer forget
late_answer-some m h c r inv own full = elim (Option-cases r.track) [
  | inl e ↦ rw (full, late_answer, e) (λ blocked. ground arith)
  | inr (p, e) ↦
      let (t, found, owner) = inv.channels_right c (r ∷ []) full p e in
      rw (full, late_answer, e, found) (λ blocked. ground arith)
]

-- After any steps of the callers, a call of `Publish` whose context ends returns: where its request
-- is pending no more, the answer that it then takes off its channel is there, and the track of an
-- answer that brings one is a track of the manager.
pub abandon_returns :
    (actions : List Action) (h c : ℕ)
    → lookup h (run actions new_machine).waiting ≡ some c
    → abandon h c (run actions new_machine).manager ≢ none
unfolding abandon
abandon_returns actions h c waits =
    let m = run actions new_machine in
    let inv = reached-Inv actions in
    let (own, bound, state) = inv.waiting_right h c waits in
    elim (Option-cases (lookup h m.manager.pending)) [
      | inr (c', e) ↦ rw (e, abandon) (λ blocked. ground arith)
      | inl e ↦ elim state [
        | inl p ↦ absurd (ground arith)
        | inr (r, full) ↦ rw (e, abandon) (late_answer-some m h c r inv own full)
      ]
    ]
