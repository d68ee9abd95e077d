-- ===== src/Datatrack/Local/Machine/Loops.antt =====
-- The loops of internal/datatrack/local.go over all that is pending or active, the threads, and
-- the invariant.
use server_sdk_go.Prelude.{
  ℕ, ◌≡◌, inl, inr, refl, false, List, [], ◌∷◌, some, Option-cases, All, lookup, delete, keys,
  contains, Distinct, get_elem?, arith, get_elem?-length,
}
use server_sdk_go.Datatrack.Local.{
  LocalTrack, is_unpublished, begin_republish, Task, failure, disconnected,
}
use server_sdk_go.Datatrack.Local.Methods.{
  fail_pending, disconnect_pending, begin_all, republish_requests, marks,
}
use server_sdk_go.Datatrack.Local.Machine.{Machine}
use server_sdk_go.Datatrack.Local.Machine.Invariant.{IsTaskRight, Inv}
use server_sdk_go.Datatrack.Local.Machine.Tracks.{IsAllowed, modify-Inv}
use server_sdk_go.Datatrack.Local.Machine.Requests.{answered-Inv}

-- Threads take no part in the rest of the invariant.
pub set_threads-Inv :
    (m : Machine) (threads : List (List Task))
    → Inv m
    → All (All (IsTaskRight m.manager.tracks m.manager.active)) threads
    → Inv (record m { threads = threads })
set_threads-Inv m threads inv right = record {
  pending_distinct = inv.pending_distinct;
  active_distinct = inv.active_distinct;
  waiting_distinct = inv.waiting_distinct;
  counted = inv.counted;
  pending_right = inv.pending_right;
  active_right = inv.active_right;
  waiting_right = inv.waiting_right;
  tracks_right = inv.tracks_right;
  channels_right = inv.channels_right;
  threads_right = right;
}

-- Nor does what the transport was given.
pub set_sent-Inv :
    (m : Machine) (sent : List _)
    → Inv m
    → Inv (record m { manager = record m.manager { sent = sent } })
set_sent-Inv m sent inv = record {
  pending_distinct = inv.pending_distinct;
  active_distinct = inv.active_distinct;
  waiting_distinct = inv.waiting_distinct;
  counted = inv.counted;
  pending_right = inv.pending_right;
  active_right = inv.active_right;
  waiting_right = inv.waiting_right;
  tracks_right = inv.tracks_right;
  channels_right = inv.channels_right;
  threads_right = inv.threads_right;
}

delete_head : {V : Type 0} (h : ℕ) (v : V) (rest : List (ℕ × V)) → delete h ((h, v) ∷ rest) ≡ rest
unfolding delete
delete_head h v rest = ground arith

lookup_head : {V : Type 0} (h : ℕ) (v : V) (rest : List (ℕ × V)) → lookup h ((h, v) ∷ rest) ≡ some v
unfolding lookup
lookup_head h v rest = ground arith

-- By rounds of the loop that fails pending requests.
fail_pending-Inv :
    (pending : List (ℕ × ℕ)) (m : Machine)
    → m.manager.pending ≡ pending
    → Inv m
    → Inv (record m {
      manager = record m.manager {
        pending = [];
        channels = fail_pending pending m.manager.channels;
      };
    })
unfolding fail_pending
fail_pending-Inv [] m e inv = rw (← e) inv
fail_pending-Inv ((h, c) ∷ rest) m e inv =
    let here : lookup h m.manager.pending ≡ some c = rw e (lookup_head h c rest) in
    let left : delete h m.manager.pending ≡ rest = rw e (delete_head h c rest) in
    fail_pending-Inv rest _ left
      (answered-Inv m inv h c (failure disconnected) here (λ p none. absurd (ground arith)))

pub disconnect_pending-Inv :
    (m : Machine) → Inv m → Inv (record m { manager = disconnect_pending m.manager })
unfolding disconnect_pending
disconnect_pending-Inv m inv = fail_pending-Inv m.manager.pending m refl inv

begin_republish-IsAllowed :
    (active : List (ℕ × ℕ)) (p : ℕ) (t : LocalTrack)
    → is_unpublished t.state ≡ false
    → IsAllowed active p t (begin_republish t)
unfolding begin_republish is_unpublished
begin_republish-IsAllowed active p t live = (refl, λ closed. ground arith, inl (λ l. refl))

-- The part of the active tracks that the loop has still to visit.
abbrev IsPart : List (ℕ × ℕ) → List (ℕ × ℕ) → Type 0
IsPart part all = All (λ e. lookup e.0 all ≡ some e.1) part

begin_all-Inv :
    (part : List (ℕ × ℕ)) (m : Machine)
    → IsPart part m.manager.active
    → Inv m
    → Inv (record m { manager = record m.manager { tracks = begin_all part m.manager.tracks } })
unfolding begin_all
begin_all-Inv [] m visits inv = inv
begin_all-Inv ((h, p) ∷ rest) m visits inv =
    let (bound, t, found, owner, live) = inv.active_right h p visits.0 in
    begin_all-Inv rest _ visits.1 (
      modify-Inv begin_republish p m
        (λ u e. begin_republish-IsAllowed m.manager.active p u (ground arith)) inv)

IsPart-cons :
    (h v : ℕ) (part all : List (ℕ × ℕ))
    → contains (keys part) h ≡ false
    → IsPart part all
    → IsPart part ((h, v) ∷ all)
unfolding lookup keys contains
IsPart-cons h v [] all new p = tt
IsPart-cons h v ((k, w) ∷ part) all new p =
    (ground arith, IsPart-cons h v part all (ground arith) p.1)

IsPart-refl : (all : List (ℕ × ℕ)) → Distinct (keys all) → IsPart all all
unfolding keys
IsPart-refl [] d = tt
IsPart-refl ((h, v) ∷ all) d =
    (lookup_head h v all, IsPart-cons h v all all d.0 (IsPart-refl all d.1))

pub begin_active-Inv :
    (m : Machine)
    → Inv m
    → Inv (record m {
      manager = record m.manager { tracks = begin_all m.manager.active m.manager.tracks };
    })
begin_active-Inv m inv =
    begin_all-Inv m.manager.active m (IsPart-refl m.manager.active inv.active_distinct) inv

-- What the loops leave for after the lock.
pub republish_requests-IsTaskRight :
    (w : List LocalTrack) (active part : List (ℕ × ℕ)) (tracks : List LocalTrack)
    → All (IsTaskRight w active) (republish_requests part tracks)
unfolding republish_requests
republish_requests-IsTaskRight w active [] tracks = tt
republish_requests-IsTaskRight w active ((h, p) ∷ rest) tracks =
    elim (Option-cases (get_elem? tracks p)) [
      | inl e ↦ rw (e, republish_requests) (republish_requests-IsTaskRight w active rest tracks)
      | inr (t, e) ↦
          rw (e, republish_requests) (tt, republish_requests-IsTaskRight w active rest tracks)
    ]

marks-IsTaskRight :
    (m : Machine)
    → Inv m
    → (part : List (ℕ × ℕ)) → IsPart part m.manager.active
    → All (IsTaskRight m.manager.tracks []) (marks part)
unfolding marks lookup
marks-IsTaskRight m inv [] visits = tt
marks-IsTaskRight m inv ((h, p) ∷ rest) visits =
    let (bound, t, found, owner, live) = inv.active_right h p visits.0 in
    (
      (get_elem?-length m.manager.tracks p t found, λ h' e. absurd (ground arith)),
      marks-IsTaskRight m inv rest visits.1,
    )

pub marks_active-IsTaskRight :
    (m : Machine) → Inv m → All (IsTaskRight m.manager.tracks []) (marks m.manager.active)
marks_active-IsTaskRight m inv =
    marks-IsTaskRight m inv m.manager.active (IsPart-refl m.manager.active inv.active_distinct)
