-- ===== src/Datatrack/Local/Machine/Invariant.antt =====
-- What holds of the manager of internal/datatrack/local.go between any two steps of its callers.
use server_sdk_go.Prelude.{
  ℕ, suc, ◌≤◌, ◌<◌, ◌≡◌, ◌⊎◌, refl, false, List, [], ◌∷◌, none, some, if◌then◌else◌, All, Distinct,
  keys, lookup, length, get_elem?, arith,
}
use server_sdk_go.Datatrack.Local.{
  PublishResult, LocalTrack, LocalManager, new_local_manager, is_unpublished, Task, mark, complete,
  give,
}
use server_sdk_go.Datatrack.Local.Machine.{Machine, new_machine}

-- The channel `close` was called as often as Go allows: once, and only when unpublished.
abbrev pub IsClosedRight : LocalTrack → Type 0
IsClosedRight t = t.closes ≡ (if is_unpublished t.state then 1 else 0)

-- The track that `p` points to is the one of the handle `h`.
abbrev pub IsTrackOf : List LocalTrack → ℕ → ℕ → Type 0
IsTrackOf tracks h p = (t : LocalTrack) × (get_elem? tracks p ≡ some t) × (t.handle ≡ h)

-- What was sent on the channel of the handle `h`: one result at most, with the track of `h`.
abbrev pub IsDelivered : List LocalTrack → ℕ → List PublishResult → Type 0
IsDelivered tracks h [] = Unit
IsDelivered tracks h (r ∷ []) = (p : ℕ) → r.track ≡ some p → IsTrackOf tracks h p
IsDelivered tracks h (r ∷ s ∷ rest) = ⊥

-- A track is marked unpublished only when the manager has let go of it.
abbrev pub IsTaskRight : List LocalTrack → List (ℕ × ℕ) → Task → Type 0
IsTaskRight w active (mark p) = (p < length w) × ((h : ℕ) → ¬ (lookup h active ≡ some p))
IsTaskRight w active (complete p sid) = Unit
IsTaskRight w active (give s) = Unit

abbrev pub IsPending : LocalManager → List (ℕ × ℕ) → ℕ → ℕ → Type 0
IsPending m waiting h c =
    (suc c ≡ h)
    × (get_elem? m.channels c ≡ some [])
    × (lookup h m.active ≡ none)
    × (lookup h waiting ≡ some c)

abbrev pub IsActive : LocalManager → ℕ → ℕ → Type 0
IsActive m h p =
    (h ≤ m.handles.value)
    × (t : LocalTrack) × (get_elem? m.tracks p ≡ some t)
    × (t.handle ≡ h)
    × (is_unpublished t.state ≡ false)

-- A call that waits is either pending or has its one answer.
abbrev pub IsWaiting : LocalManager → ℕ → ℕ → Type 0
IsWaiting m h c =
    (suc c ≡ h)
    × (h ≤ m.handles.value)
    × ((lookup h m.pending ≡ some c)
        ⊎ ((r : PublishResult) × (get_elem? m.channels c ≡ some (r ∷ []))))

pub record Inv (m : Machine) : Type 0 where
  pub pending_distinct : Distinct (keys m.manager.pending)
  pub active_distinct : Distinct (keys m.manager.active)
  pub waiting_distinct : Distinct (keys m.waiting)
  pub counted : length m.manager.channels ≡ m.manager.handles.value
  pub pending_right :
      (h c : ℕ) → lookup h m.manager.pending ≡ some c → IsPending m.manager m.waiting h c
  pub active_right : (h p : ℕ) → lookup h m.manager.active ≡ some p → IsActive m.manager h p
  pub waiting_right : (h c : ℕ) → lookup h m.waiting ≡ some c → IsWaiting m.manager h c
  pub tracks_right :
      (p : ℕ) (t : LocalTrack) → get_elem? m.manager.tracks p ≡ some t → IsClosedRight t
  pub channels_right :
      (c : ℕ) (sent : List PublishResult)
      → get_elem? m.manager.channels c ≡ some sent
      → IsDelivered m.manager.tracks (suc c) sent
  pub threads_right : All (All (IsTaskRight m.manager.tracks m.manager.active)) m.threads

pub new_machine-Inv : Inv new_machine
unfolding new_machine new_local_manager keys lookup
new_machine-Inv = record {
  pending_distinct = tt;
  active_distinct = tt;
  waiting_distinct = tt;
  counted = refl;
  pending_right = λ h c e. absurd (ground arith);
  active_right = λ h c e. absurd (ground arith);
  waiting_right = λ h c e. absurd (ground arith);
  tracks_right = λ p t e. absurd (ground arith);
  channels_right = λ c sent e. absurd (ground arith);
  threads_right = tt;
}
