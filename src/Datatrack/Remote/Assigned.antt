-- ===== src/Datatrack/Remote/Assigned.antt =====
-- What a message of subscriber handles does to the routes, in internal/datatrack/remote.go.
use server_sdk_go.Prelude.{
  ℕ, ◌≡◌, ◌⊎◌, inl, inr, refl, sym, ◌∙◌, true, false, List, [], ◌∷◌, ◌++◌, none, some, ◌==◌, lookup,
  insert, delete, keys, Distinct, modify, get_elem?, lookup-insert, lookup-delete, insert-Distinct,
  delete-Distinct, get_elem?-modify_same, get_elem?-modify_other, All, Bool-cases, Option-cases,
  arith, ==_refl,
}
use server_sdk_go.Datatrack.Remote.Track.{
  SubscriptionState, unsubscribed, pending, active, RemoteTrack, activate, activate_in, uses_handle,
  is_active,
}
use server_sdk_go.Datatrack.Remote.Routes.{
  RemoteManager, lookup_name, assign, assign_track, assign_all, route, routed, assign-active,
  assign-pending, activated-uses_handle, moved-uses_handle, lookup-insert_same,
}

-- No other track than the one at `p` has an active subscription with the handle `h`.
abbrev pub IsFree : ℕ → ℕ → List RemoteTrack → Type 0
IsFree h p tracks =
    (q : ℕ) (u : RemoteTrack)
    → (q == p) ≡ false
    → get_elem? tracks q ≡ some u
    → uses_handle h u ≡ false

-- An assignment of another handle to another track.
abbrev pub IsApart : ℕ → ℕ → List (List ℕ × ℕ) → ℕ × List ℕ → Type 0
IsApart h p descriptors entry =
    ((entry.0 == h) ≡ false) × (¬ (lookup_name entry.1 descriptors ≡ some p))

-- What is kept of a manager for the handle `h` of the track at `p`.
record IsKept (h p : ℕ) (m m' : RemoteManager) : Type 0 where
  pub same_names : m'.descriptors ≡ m.descriptors
  pub same_track : get_elem? m'.tracks p ≡ get_elem? m.tracks p
  pub same_route : lookup h m'.sub_handles ≡ lookup h m.sub_handles
  pub distinct : Distinct (keys m'.sub_handles)
  pub free : IsFree h p m'.tracks

IsFree-modify :
    (h p q : ℕ) (t' : RemoteTrack) (tracks : List RemoteTrack) (t : RemoteTrack)
    → get_elem? tracks q ≡ some t
    → (q == p) ≡ true ⊎ uses_handle h t' ≡ false
    → IsFree h p tracks
    → IsFree h p (modify (λ u. t') q tracks)
IsFree-modify h p q t' tracks t found why free j u apart at_j = elim (Bool-cases (q == j)) [
  | inr other ↦ free j u apart (sym (get_elem?-modify_other (λ x. t') q j tracks other) ∙ at_j)
  | inl here ↦
      let eq : q ≡ j = ground arith in
      let there : get_elem? (modify (λ x. t') q tracks) j ≡ some t' =
        ground (arith, get_elem?-modify_same (λ x. t') q tracks t found) in
      let same : u ≡ t' = ground arith in
      elim why [ inl at_p ↦ absurd (ground arith) | inr unused ↦ rw same unused ]
]

states : (s : SubscriptionState) → (s ≡ unsubscribed) ⊎ ((s ≡ pending) ⊎ (s ≡ active))
states unsubscribed = inl refl
states pending = inr (inl refl)
states active = inr (inr refl)

unassigned :
    (h q : ℕ) (sid : List ℕ) (m : RemoteManager) (t : RemoteTrack)
    → lookup_name sid m.descriptors ≡ some q
    → get_elem? m.tracks q ≡ some t
    → t.subscription ≡ unsubscribed
    → assign h sid m ≡ m
unfolding assign assign_track activate activate_in
unassigned h q sid m t known found e = ground arith

unknown :
    (h : ℕ) (sid : List ℕ) (m : RemoteManager)
    → lookup_name sid m.descriptors ≡ none
    → assign h sid m ≡ m
unfolding assign
unknown h sid m e = ground arith

dangling :
    (h q : ℕ) (sid : List ℕ) (m : RemoteManager)
    → lookup_name sid m.descriptors ≡ some q
    → get_elem? m.tracks q ≡ none
    → assign h sid m ≡ m
unfolding assign
dangling h q sid m known e = ground arith

module _ (h p : ℕ) where
  inserted_apart :
      (h' q : ℕ) (handles : List (ℕ × ℕ))
      → (h' == h) ≡ false
      → lookup h (insert h' q handles) ≡ lookup h handles
  inserted_apart h' q handles e = ground (arith, lookup-insert h' h q handles)

  uses-active :
      (t : RemoteTrack)
      → uses_handle h t ≡ false
      → t.subscription ≡ active
      → (t.sub_handle == h) ≡ false
  unfolding uses_handle is_active
  uses-active t e s = ground arith

  known-IsKept :
      (h' q : ℕ) (sid : List ℕ) (m : RemoteManager) (t : RemoteTrack)
      → (h' == h) ≡ false
      → (q == p) ≡ false
      → lookup_name sid m.descriptors ≡ some q
      → get_elem? m.tracks q ≡ some t
      → Distinct (keys m.sub_handles)
      → IsFree h p m.tracks
      → IsKept h p m (assign h' sid m)
  known-IsKept h' q sid m t apart away known found distinct free = elim (states t.subscription) [
    | inl e ↦ rw (unassigned h' q sid m t known found e) (record {
      same_names = refl;
      same_track = refl;
      same_route = refl;
      distinct = distinct;
      free = free;
    })
    | inr (inl e) ↦
        let given = (activate_in pending h' t m.outside).0.0 in
        rw (assign-pending h' q sid m t known found e) (record {
          same_names = refl;
          same_track = get_elem?-modify_other (λ u. given) q p m.tracks away;
          same_route = inserted_apart h' q m.sub_handles apart;
          distinct = insert-Distinct h' q m.sub_handles distinct;
          free =
              IsFree-modify h p q given m.tracks t found
                (inr (activated-uses_handle h h' t m.outside ∙ apart)) free;
        })
    | inr (inr e) ↦
        let given = record t { sub_handle = h' } in
        let left = delete t.sub_handle m.sub_handles in
        let elsewhere : (t.sub_handle == h) ≡ false = uses-active t (free q t away found) e in
        let still : lookup h left ≡ lookup h m.sub_handles =
          ground (arith, lookup-delete t.sub_handle h m.sub_handles distinct) in
        rw (assign-active h' q sid m t known found e) (record {
          same_names = refl;
          same_track = get_elem?-modify_other (λ u. given) q p m.tracks away;
          same_route = inserted_apart h' q left apart ∙ still;
          distinct =
              insert-Distinct h' q left (delete-Distinct t.sub_handle m.sub_handles distinct);
          free =
              IsFree-modify h p q given m.tracks t found (inr (moved-uses_handle h h' t e ∙ apart))
                free;
        })
  ]

  apart-IsKept :
      (m : RemoteManager) (entry : ℕ × List ℕ)
      → IsApart h p m.descriptors entry
      → Distinct (keys m.sub_handles)
      → IsFree h p m.tracks
      → IsKept h p m (assign entry.0 entry.1 m)
  apart-IsKept m (h', sid) (apart, other) distinct free =
      let same_all : IsKept h p m m = record {
        same_names = refl;
        same_track = refl;
        same_route = refl;
        distinct = distinct;
        free = free;
      } in
      elim (Option-cases (lookup_name sid m.descriptors)) [
        | inl e ↦ rw (unknown h' sid m e) same_all
        | inr (q, e) ↦ elim (Option-cases (get_elem? m.tracks q)) [
          | inl none_there ↦ rw (dangling h' q sid m e none_there) same_all
          | inr (t, found) ↦ elim (Bool-cases (q == p)) [
            | inl here ↦ let eq : q ≡ p = ground arith in absurd (other (rw (← eq) e))
            | inr away ↦ known-IsKept h' q sid m t apart away e found distinct free
          ]
        ]
      ]

  assign_all-IsKept :
      (entries : List (ℕ × List ℕ)) (m : RemoteManager)
      → All (IsApart h p m.descriptors) entries
      → Distinct (keys m.sub_handles)
      → IsFree h p m.tracks
      → IsKept h p m (assign_all entries m)
  unfolding assign_all
  assign_all-IsKept [] m apart distinct free = record {
    same_names = refl;
    same_track = refl;
    same_route = refl;
    distinct = distinct;
    free = free;
  }
  assign_all-IsKept ((h', sid) ∷ rest) m apart distinct free =
      let one = apart-IsKept m (h', sid) apart.0 distinct free in
      let more =
        assign_all-IsKept rest (assign h' sid m) (rw one.same_names apart.1) one.distinct
          one.free in
      record {
        same_names = more.same_names ∙ one.same_names;
        same_track = more.same_track ∙ one.same_track;
        same_route = more.same_route ∙ one.same_route;
        distinct = more.distinct;
        free = more.free;
      }

  assign_all-append :
      (before after : List (ℕ × List ℕ)) (m : RemoteManager)
      → assign_all (before ++ after) m ≡ assign_all after (assign_all before m)
  unfolding assign_all
  assign_all-append [] after m = refl
  assign_all-append ((h', sid) ∷ rest) after m = assign_all-append rest after (assign h' sid m)

  -- The handle leads to the track, which nobody else's handle is.
  record IsLed (m m' : RemoteManager) : Type 0 where
    pub names : m'.descriptors ≡ m.descriptors
    pub track : RemoteTrack
    pub led : lookup h m'.sub_handles ≡ some p
    pub there : get_elem? m'.tracks p ≡ some track
    pub used : uses_handle h track ≡ true
    pub only_keys : Distinct (keys m'.sub_handles)
    pub only_track : IsFree h p m'.tracks

  assign-IsLed :
      (sid : List ℕ) (m : RemoteManager) (t : RemoteTrack)
      → lookup_name sid m.descriptors ≡ some p
      → get_elem? m.tracks p ≡ some t
      → (t.subscription ≡ pending) ⊎ (t.subscription ≡ active)
      → Distinct (keys m.sub_handles)
      → IsFree h p m.tracks
      → IsLed m (assign h sid m)
  assign-IsLed sid m t known found (inl e) distinct free =
      let given = (activate_in pending h t m.outside).0.0 in
      rw (assign-pending h p sid m t known found e) (record {
        names = refl;
        track = given;
        led = lookup-insert_same h p m.sub_handles;
        there = get_elem?-modify_same (λ u. given) p m.tracks t found;
        used = activated-uses_handle h h t m.outside ∙ ==_refl h;
        only_keys = insert-Distinct h p m.sub_handles distinct;
        only_track = IsFree-modify h p p given m.tracks t found (inl (==_refl p)) free;
      })
  assign-IsLed sid m t known found (inr e) distinct free =
      let given = record t { sub_handle = h } in
      let left = delete t.sub_handle m.sub_handles in
      rw (assign-active h p sid m t known found e) (record {
        names = refl;
        track = given;
        led = lookup-insert_same h p left;
        there = get_elem?-modify_same (λ u. given) p m.tracks t found;
        used = moved-uses_handle h h t e ∙ ==_refl h;
        only_keys = insert-Distinct h p left (delete-Distinct t.sub_handle m.sub_handles distinct);
        only_track = IsFree-modify h p p given m.tracks t found (inl (==_refl p)) free;
      })

  -- After a message that assigns a handle to a track with a pending or an active subscription,
  -- packets of the handle lead to that track, in whatever order its assignments are visited: the
  -- other ones are of other handles to other tracks, and no other track has an active subscription
  -- with the handle when the message comes.
  pub route-assign_all :
      (sid : List ℕ) (m : RemoteManager) (t : RemoteTrack) (before after : List (ℕ × List ℕ))
      → lookup_name sid m.descriptors ≡ some p
      → get_elem? m.tracks p ≡ some t
      → (t.subscription ≡ pending) ⊎ (t.subscription ≡ active)
      → Distinct (keys m.sub_handles)
      → IsFree h p m.tracks
      → All (IsApart h p m.descriptors) before
      → All (IsApart h p m.descriptors) after
      → route h (assign_all (before ++ ((h, sid) ∷ after)) m) ≡ some p
  unfolding assign_all
  route-assign_all sid m t before after known found live distinct free apart apart' =
      let m1 = assign_all before m in
      let first = assign_all-IsKept before m apart distinct free in
      let m2 = assign h sid m1 in
      let own =
        assign-IsLed sid m1 t (rw first.same_names known) (first.same_track ∙ found) live
          first.distinct first.free in
      let last =
        assign_all-IsKept after m2 (rw (own.names ∙ first.same_names) apart') own.only_keys
          own.only_track in
      rw (assign_all-append before ((h, sid) ∷ after) m) (
        routed h p own.track (assign_all after m2) (last.same_route ∙ own.led)
          (last.same_track ∙ own.there) own.used)
