-- ===== src/Datatrack/Local/Machine/Tracks.antt =====
-- Steps that change one track of internal/datatrack/local.go, and the invariant.
use server_sdk_go.Prelude.{
  ℕ, suc, ◌==◌, ◌≡◌, ◌⊎◌, inl, inr, false, List, [], ◌∷◌, some, Bool-cases, Option-cases, All,
  lookup, modify, get_elem?, arith, length-modify, length-append, ◌++◌, get_elem?-snoc,
  get_elem?-length, get_elem?-modify_same, get_elem?-modify_other, get_elem?-modify-none,
}
use server_sdk_go.Datatrack.Local.{
  PublishResult, LocalTrack, is_unpublished, Task, mark, complete, give,
}
use server_sdk_go.Datatrack.Local.Machine.{Machine}
use server_sdk_go.Datatrack.Local.Machine.Invariant.{
  IsClosedRight, IsTrackOf, IsDelivered, IsTaskRight, Inv,
}

-- A track found after a change at `p` is the changed one or one that stood there before.
pub found-modify {ℓ} :
    {A : Type ℓ} (f : A → A) (p q : ℕ) (xs : List A) (t : A)
    → get_elem? (modify f p xs) q ≡ some t
    → ((p ≡ q) × (s : A) × (get_elem? xs p ≡ some s) × (t ≡ f s))
      ⊎ (((p == q) ≡ false) × (get_elem? xs q ≡ some t))
found-modify f p q xs t h = elim (Bool-cases (p == q)) [
  | inr e ↦ inr (e, ground (arith, get_elem?-modify_other f p q xs e))
  | inl e ↦ elim (Option-cases (get_elem? xs p)) [
    | inl n ↦ absurd (ground (arith, get_elem?-modify-none f p xs n))
    | inr (s, e') ↦ inl (ground arith, s, e', ground (arith, get_elem?-modify_same f p xs s e'))
  ]
]

-- What a change of the tracks and of the active ones leaves of the threads.
abbrev MarksKept : (w w' : List LocalTrack) (a a' : List (ℕ × ℕ)) → Type 0
MarksKept w w' a a' = (q : ℕ) → IsTaskRight w a (mark q) → IsTaskRight w' a' (mark q)

module _ (w w' : List LocalTrack) (a a' : List (ℕ × ℕ)) where
  tasks-IsTaskRight :
      (ts : List Task) → MarksKept w w' a a' → All (IsTaskRight w a) ts → All (IsTaskRight w' a') ts
  tasks-IsTaskRight [] kept h = tt
  tasks-IsTaskRight (mark p ∷ ts) kept h = (kept p h.0, tasks-IsTaskRight ts kept h.1)
  tasks-IsTaskRight (complete p sid ∷ ts) kept h = (tt, tasks-IsTaskRight ts kept h.1)
  tasks-IsTaskRight (give s ∷ ts) kept h = (tt, tasks-IsTaskRight ts kept h.1)

  pub threads-IsTaskRight :
      (threads : List (List Task))
      → MarksKept w w' a a'
      → All (All (IsTaskRight w a)) threads
      → All (All (IsTaskRight w' a')) threads
  threads-IsTaskRight [] kept h = tt
  threads-IsTaskRight (ts ∷ threads) kept h =
      (tasks-IsTaskRight ts kept h.0, threads-IsTaskRight threads kept h.1)

-- A track keeps its handle and its channel's state; it turns unpublished only when it is not active.
abbrev pub IsAllowed : List (ℕ × ℕ) → ℕ → LocalTrack → LocalTrack → Type 0
IsAllowed active p t u =
    (u.handle ≡ t.handle)
    × (IsClosedRight t → IsClosedRight u)
    × ((is_unpublished t.state ≡ false → is_unpublished u.state ≡ false)
        ⊎ ((h : ℕ) → ¬ (lookup h active ≡ some p)))

module _ (f : LocalTrack → LocalTrack) (p : ℕ) (tracks : List LocalTrack) (active : List (ℕ × ℕ))
    (allowed : (t : LocalTrack) → get_elem? tracks p ≡ some t → IsAllowed active p t (f t)) where
  pub modify-IsClosedRight :
      ((q : ℕ) (t : LocalTrack) → get_elem? tracks q ≡ some t → IsClosedRight t)
      → (q : ℕ) (t : LocalTrack) → get_elem? (modify f p tracks) q ≡ some t
      → IsClosedRight t
  modify-IsClosedRight right q t h = elim (found-modify f p q tracks t h) [
    | inl (e, s, found, made) ↦ rw made ((allowed s found).1 (right p s found))
    | inr (e, found) ↦ right q t found
  ]

  pub modify-IsTrackOf : (h q : ℕ) → IsTrackOf tracks h q → IsTrackOf (modify f p tracks) h q
  modify-IsTrackOf h q (t, found, owner) = elim (Bool-cases (p == q)) [
    | inr e ↦ (t, ground (arith, get_elem?-modify_other f p q tracks e), owner)
    | inl e ↦
        let here : get_elem? tracks p ≡ some t = ground arith in
        (
          f t,
          ground (arith, get_elem?-modify_same f p tracks t here),
          ground (arith, (allowed t here).0),
        )
  ]

  pub modify-IsDelivered :
      (h : ℕ) (sent : List PublishResult)
      → IsDelivered tracks h sent
      → IsDelivered (modify f p tracks) h sent
  modify-IsDelivered h [] d = tt
  modify-IsDelivered h (r ∷ []) d = λ q e. modify-IsTrackOf h q (d q e)
  modify-IsDelivered h (r ∷ s ∷ rest) d = d

  pub modify-live :
      (h q : ℕ) (t : LocalTrack)
      → lookup h active ≡ some q
      → get_elem? tracks q ≡ some t
      → t.handle ≡ h
      → is_unpublished t.state ≡ false
      → (u : LocalTrack) × (get_elem? (modify f p tracks) q ≡ some u)
        × (u.handle ≡ h)
        × (is_unpublished u.state ≡ false)
  modify-live h q t active_at found owner live = elim (Bool-cases (p == q)) [
    | inr e ↦ (t, ground (arith, get_elem?-modify_other f p q tracks e), owner, live)
    | inl e ↦
        let here : get_elem? tracks p ≡ some t = ground arith in
        (
          f t,
          ground (arith, get_elem?-modify_same f p tracks t here),
          ground (arith, (allowed t here).0),
          elim (allowed t here).2 [
            | inl keeps ↦ keeps live
            | inr gone ↦ absurd (gone h (ground arith))
          ],
        )
  ]

pub get_elem?-append_left {ℓ} :
    {A : Type ℓ} (xs : List A) (x : A) (i : ℕ) (y : A)
    → get_elem? xs i ≡ some y
    → get_elem? (xs ++ (x ∷ [])) i ≡ some y
get_elem?-append_left xs x i y e = ground (arith, get_elem?-snoc xs x i, get_elem?-length xs i y e)

append-IsDelivered :
    (w : List LocalTrack) (t : LocalTrack) (h : ℕ) (sent : List PublishResult)
    → IsDelivered w h sent
    → IsDelivered (w ++ (t ∷ [])) h sent
append-IsDelivered w t h [] d = tt
append-IsDelivered w t h (r ∷ []) d =
    λ q e. let (u, found, owner) = d q e in (u, get_elem?-append_left w t q u found, owner)
append-IsDelivered w t h (r ∷ s ∷ rest) d = d

-- A change of one track, by what it does to that track.
pub modify-Inv :
    (f : LocalTrack → LocalTrack) (p : ℕ) (m : Machine)
    → ((t : LocalTrack)
        → get_elem? m.manager.tracks p ≡ some t
        → IsAllowed m.manager.active p t (f t))
    → Inv m
    → Inv (record m { manager = record m.manager { tracks = modify f p m.manager.tracks } })
modify-Inv f p m allowed inv =
    let w = m.manager.tracks in
    let active = m.manager.active in
    record {
      pending_distinct = inv.pending_distinct;
      active_distinct = inv.active_distinct;
      waiting_distinct = inv.waiting_distinct;
      counted = inv.counted;
      pending_right = inv.pending_right;
      active_right = λ h q e.
          let (bound, t, found, owner, live) = inv.active_right h q e in
          let (u, at_q, own, live') = modify-live f p w active allowed h q t e found owner live in
          (bound, u, at_q, own, live');
      waiting_right = inv.waiting_right;
      tracks_right = modify-IsClosedRight f p w active allowed inv.tracks_right;
      channels_right = λ c sent e.
          modify-IsDelivered f p w active allowed (suc c) sent (inv.channels_right c sent e);
      threads_right =
          threads-IsTaskRight w (modify f p w) active active m.threads
            (λ q h. (omega (arith, h.0, length-modify f p w), h.1)) inv.threads_right;
    }

-- A new track that is not active.
pub append_track-Inv :
    (t : LocalTrack) (m : Machine)
    → IsClosedRight t
    → Inv m
    → Inv (record m { manager = record m.manager { tracks = m.manager.tracks ++ (t ∷ []) } })
append_track-Inv t m closed inv =
    let w = m.manager.tracks in
    record {
      pending_distinct = inv.pending_distinct;
      active_distinct = inv.active_distinct;
      waiting_distinct = inv.waiting_distinct;
      counted = inv.counted;
      pending_right = inv.pending_right;
      active_right = λ h q e.
          let (bound, u, found, owner, live) = inv.active_right h q e in
          (bound, u, get_elem?-append_left w t q u found, owner, live);
      waiting_right = inv.waiting_right;
      tracks_right = λ q u e. ground (arith, get_elem?-snoc w t q, inv.tracks_right q u);
      channels_right =
          λ c sent e. append-IsDelivered w t (suc c) sent (inv.channels_right c sent e);
      threads_right =
          threads-IsTaskRight w (w ++ (t ∷ [])) m.manager.active m.manager.active m.threads
            (λ q h. (omega (arith, h.0, length-append w (t ∷ [])), h.1)) inv.threads_right;
    }
