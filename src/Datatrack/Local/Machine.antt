-- ===== src/Datatrack/Local/Machine.antt =====
-- The callers of internal/datatrack/local.go beside each other. The manager's lock orders the
-- parts that run under it; a thread is what a method still does after it has left the lock, and
-- threads go on in any order. `waiting` are the calls of `Publish` that have not returned, each
-- with its handle and its channel.
pub mod Invariant
pub mod Tracks
pub mod Requests
pub mod Calls
pub mod Loops
pub mod Tasks
pub mod Responses
pub mod Reach
use server_sdk_go.Prelude.{
  ℕ, Bool, List, [], ◌∷◌, Option, none, some, delete, insert, lookup, modify, get_elem?, set,
}
use server_sdk_go.Datatrack.Packetizer.{Packetizer}
use server_sdk_go.Datatrack.Local.{PublishResult, LocalManager, new_local_manager, Task, run_task}
use server_sdk_go.Datatrack.Local.Methods.{
  PublishOptions, PublishResponse, Begun, refused_with, requesting, begin_publish, forget,
  resolve_publish_locked, unpublish_response_locked, unpublish_locked, republish_locked,
  shutdown_locked,
}

pub record Machine : Type 0 where
  pub manager : LocalManager
  pub threads : List (List Task)
  pub waiting : List (ℕ × ℕ)

unfoldable pub new_machine : Machine
new_machine = record { manager = new_local_manager; threads = []; waiting = [] }

-- What may happen next. A call of `Publish` on its handle gets its answer (`receive`), an error of
-- the transport, or the end of its context; `go_on` lets a thread run its next task; `push` is
-- `TryPush`, of which only the packetizer that it leaves matters here.
pub data Action : Type 0 where
  begin : PublishOptions → Bool → Action
  receive transport_fails context_ends : ℕ → Action
  respond : Bool → ℕ → PublishResponse → Action
  unpublish_response call_unpublish : ℕ → Action
  republish shut_down : Action
  push : ℕ → Packetizer → Action
  go_on : ℕ → Action

unfoldable pub wait_for : Machine → LocalManager × Begun → Machine
wait_for m (manager, refused_with e) = record m { manager = manager }
wait_for m (manager, requesting h channel) = record m {
  manager = manager;
  waiting = insert h channel m.waiting;
}

unfoldable pub spawn : Machine → LocalManager × List Task → Machine
spawn m (manager, tasks) = record m { manager = manager; threads = tasks ∷ m.threads }

unfoldable pub stop_waiting : ℕ → Machine → Machine
stop_waiting h m = record m { waiting = delete h m.waiting }

-- `receive` needs an answer in the channel.
unfoldable pub received : ℕ → Option (List PublishResult) → Machine → Machine
received h none m = m
received h (some []) m = m
received h (some (r ∷ rest)) m = stop_waiting h m

unfoldable pub give_up : ℕ → Machine → Machine
give_up h m = elim (lookup h m.waiting) [
  | none ↦ m
  | some channel ↦ record (stop_waiting h m) { manager = forget h m.manager }
]

unfoldable pub receive_on : ℕ → Machine → Machine
receive_on h m = elim (lookup h m.waiting) [
  | none ↦ m
  | some channel ↦ received h (get_elem? m.manager.channels channel) m
]

unfoldable pub go_on_with : ℕ → List Task → Machine → Machine
go_on_with i [] m = m
go_on_with i (t ∷ ts) m = record m { manager = run_task t m.manager; threads = set m.threads i ts }

unfoldable pub step : Action → Machine → Machine
step (begin options ended) m = wait_for m (begin_publish options ended m.manager)
step (receive h) m = receive_on h m
step (transport_fails h) m = give_up h m
step (context_ends h) m = give_up h m
step (respond session_encrypts base response) m =
    spawn m (resolve_publish_locked session_encrypts base response m.manager)
step (unpublish_response h) m = spawn m (unpublish_response_locked h m.manager)
step (call_unpublish h) m = spawn m (unpublish_locked h m.manager)
step republish m = spawn m (republish_locked m.manager)
step shut_down m = spawn m (shutdown_locked m.manager)
step (push p left) m = record m {
  manager = record m.manager {
    tracks = modify (λ t. record t { packetizer = left }) p m.manager.tracks;
  };
}
step (go_on i) m = elim (get_elem? m.threads i) [ none ↦ m | some ts ↦ go_on_with i ts m ]

unfoldable pub run : List Action → Machine → Machine
run [] m = m
run (a ∷ rest) m = run rest (step a m)
