-- ===== src/Datatrack/Local/Machine/Tasks.antt =====
-- The steps after the lock in internal/datatrack/local.go, and the invariant.
use server_sdk_go.Prelude.{
  ℕ, zero, suc, ◌≡◌, inl, inr, refl, List, [], ◌∷◌, ◌++◌, some, Option-cases, All, lookup,
  get_elem?, set, arith,
}
use server_sdk_go.Datatrack.Local.{
  LocalTrack, is_unpublished, mark_unpublished, complete_republish, Task, mark, complete, give,
  run_task,
}
use server_sdk_go.Datatrack.Local.Pipeline.{state-cases}
use server_sdk_go.Datatrack.Packetizer.{Packetizer}
use server_sdk_go.Datatrack.Local.Machine.{Machine, go_on_with, step, go_on, push}
use server_sdk_go.Datatrack.Local.Machine.Invariant.{IsTaskRight, Inv}
use server_sdk_go.Datatrack.Local.Machine.Tracks.{IsAllowed, modify-Inv}
use server_sdk_go.Datatrack.Local.Machine.Loops.{set_threads-Inv, set_sent-Inv}

mark_unpublished-IsAllowed :
    (active : List (ℕ × ℕ)) (p : ℕ) (t : LocalTrack)
    → ((h : ℕ) → ¬ (lookup h active ≡ some p))
    → IsAllowed active p t (mark_unpublished t)
unfolding mark_unpublished is_unpublished
mark_unpublished-IsAllowed active p t gone = elim (state-cases t.state) [
  | inl e ↦ (ground arith, λ closed. ground arith, inr gone)
  | inr (inl e) ↦ (ground arith, λ closed. ground arith, inr gone)
  | inr (inr e) ↦ (ground arith, λ closed. ground arith, inr gone)
]

complete_republish-IsAllowed :
    (active : List (ℕ × ℕ)) (p : ℕ) (sid : List ℕ) (t : LocalTrack)
    → IsAllowed active p t (complete_republish sid t).0
unfolding complete_republish is_unpublished
complete_republish-IsAllowed active p sid t = elim (state-cases t.state) [
  | inl e ↦ (ground arith, λ closed. ground arith, inl (λ live. ground arith))
  | inr (inl e) ↦ (ground arith, λ closed. ground arith, inl (λ live. ground arith))
  | inr (inr e) ↦ (ground arith, λ closed. ground arith, inl (λ live. ground arith))
]

run_task-Inv :
    (t : Task) (m : Machine)
    → IsTaskRight m.manager.tracks m.manager.active t
    → Inv m
    → Inv (record m { manager = run_task t m.manager })
unfolding run_task
run_task-Inv (mark p) m right inv =
    modify-Inv mark_unpublished p m (λ u e. mark_unpublished-IsAllowed m.manager.active p u right.1)
      inv
run_task-Inv (complete p sid) m right inv =
    modify-Inv (λ t. (complete_republish sid t).0) p m
      (λ u e. complete_republish-IsAllowed m.manager.active p sid u) inv
run_task-Inv (give s) m right inv = set_sent-Inv m (m.manager.sent ++ (s ∷ [])) inv

module _ (w : List LocalTrack) (active : List (ℕ × ℕ)) where
  All-get :
      (threads : List (List Task)) (i : ℕ) (ts : List Task)
      → All (All (IsTaskRight w active)) threads
      → get_elem? threads i ≡ some ts
      → All (IsTaskRight w active) ts
  All-get [] i ts right e = absurd (ground arith)
  All-get (us ∷ threads) zero ts right e = let same : us ≡ ts = ground arith in rw (← same) right.0
  All-get (us ∷ threads) (suc i) ts right e = All-get threads i ts right.1 e

  All-set :
      (threads : List (List Task)) (i : ℕ) (ts : List Task)
      → All (All (IsTaskRight w active)) threads
      → All (IsTaskRight w active) ts
      → All (All (IsTaskRight w active)) (set threads i ts)
  All-set [] i ts right new = tt
  All-set (us ∷ threads) zero ts right new = (new, right.1)
  All-set (us ∷ threads) (suc i) ts right new = (right.0, All-set threads i ts right.1 new)

-- The thread that loses its task is put back first, the task is run then.
go_on_with-Inv :
    (i : ℕ) (ts : List Task) (m : Machine)
    → get_elem? m.threads i ≡ some ts
    → Inv m
    → Inv (go_on_with i ts m)
unfolding go_on_with
go_on_with-Inv i [] m e inv = inv
go_on_with-Inv i (t ∷ ts) m e inv =
    let right =
      All-get m.manager.tracks m.manager.active m.threads i (t ∷ ts) inv.threads_right e in
    run_task-Inv t (record m { threads = set m.threads i ts }) right.0
      (set_threads-Inv m (set m.threads i ts) inv
        (All-set m.manager.tracks m.manager.active m.threads i ts inv.threads_right right.1))

pub go_on-Inv : (i : ℕ) (m : Machine) → Inv m → Inv (step (go_on i) m)
unfolding step
go_on-Inv i m inv = elim (Option-cases (get_elem? m.threads i)) [
  | inl e ↦ rw (e, step) inv
  | inr (ts, e) ↦ rw (e, step) (go_on_with-Inv i ts m e inv)
]

pub push-Inv : (p : ℕ) (left : Packetizer) (m : Machine) → Inv m → Inv (step (push p left) m)
unfolding step
push-Inv p left m inv =
    modify-Inv (λ t. record t { packetizer = left }) p m
      (λ u e. (refl, λ closed. closed, inl (λ live. live))) inv
