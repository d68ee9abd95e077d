-- ===== src/Datatrack/Local/Machine/Calls.antt =====
-- The steps of a call of `Publish` in internal/datatrack/local.go, and the invariant.
use server_sdk_go.Prelude.{
  ℕ, suc, ◌+◌, ◌==◌, ◌≡◌, inl, inr, refl, Bool, true, false, List, [], ◌∷◌, ◌++◌, Option, none,
  some, Bool-cases, Option-cases, lookup, insert, get_elem?, length, arith, get_elem?-snoc,
  length-append, lookup-insert, lookup-delete, insert-Distinct, delete-Distinct, delete-absent,
}
use server_sdk_go.Datatrack.Handle.{get, max_uint16}
use server_sdk_go.Datatrack.Schema.{validate_schema}
use server_sdk_go.Datatrack.Local.{PublishResult}
use server_sdk_go.Datatrack.Local.Methods.{
  PublishOptions, schema_encoding, begin_publish, reserve, forget,
}
use server_sdk_go.Datatrack.Local.Machine.{
  Machine, wait_for, stop_waiting, received, receive_on, give_up,
}
use server_sdk_go.Datatrack.Local.Machine.Invariant.{IsDelivered, IsPending, IsWaiting, Inv}
use server_sdk_go.Datatrack.Local.Machine.Tracks.{get_elem?-append_left}

module _ (m : Machine) (inv : Inv m) where
  -- A call gets the next handle and a channel of its own.
  abbrev begun : Machine
  begun = record m {
    manager = record m.manager {
      handles = record { value = m.manager.handles.value + 1 };
      pending = insert (m.manager.handles.value + 1) (length m.manager.channels) m.manager.pending;
      channels = m.manager.channels ++ ([] ∷ []);
    };
    waiting = insert (m.manager.handles.value + 1) (length m.manager.channels) m.waiting;
  }

  fresh_inactive : lookup (m.manager.handles.value + 1) m.manager.active ≡ none
  fresh_inactive = elim (Option-cases (lookup (m.manager.handles.value + 1) m.manager.active)) [
    | inl e ↦ e
    | inr (p, e) ↦
        let (bound, t, found, owner, live) = inv.active_right (m.manager.handles.value + 1) p e in
        absurd (omega (arith, bound))
  ]

  begun-pending_right :
      (h c : ℕ)
      → lookup h begun.manager.pending ≡ some c
      → IsPending begun.manager begun.waiting h c
  begun-pending_right h c e =
      let new = m.manager.handles.value + 1 in
      let at_pending = lookup-insert new h (length m.manager.channels) m.manager.pending in
      let at_waiting = lookup-insert new h (length m.manager.channels) m.waiting in
      elim (Bool-cases (new == h)) [
        | inl same ↦ (
          ground (arith, inv.counted),
          ground (arith, get_elem?-snoc m.manager.channels [] c),
          ground (arith, fresh_inactive),
          ground arith,
        )
        | inr other ↦
            let (own, empty, inactive, waits) = inv.pending_right h c (ground arith) in
            (own, get_elem?-append_left m.manager.channels [] c [] empty, inactive, ground arith)
      ]

  begun-waiting_right : (h c : ℕ) → lookup h begun.waiting ≡ some c → IsWaiting begun.manager h c
  begun-waiting_right h c e =
      let new = m.manager.handles.value + 1 in
      let at_pending = lookup-insert new h (length m.manager.channels) m.manager.pending in
      let at_waiting = lookup-insert new h (length m.manager.channels) m.waiting in
      elim (Bool-cases (new == h)) [
        | inl same ↦ (ground (arith, inv.counted), ground arith, inl (ground arith))
        | inr other ↦
            let (own, bound, state) = inv.waiting_right h c (ground arith) in
            (
              own,
              omega (arith, bound),
              elim state [
                | inl p ↦ inl (ground arith)
                | inr (r, sent) ↦
                    inr (r, get_elem?-append_left m.manager.channels [] c (r ∷ []) sent)
              ],
            )
      ]

  begun-channels_right :
      (c : ℕ) (sent : List PublishResult)
      → get_elem? begun.manager.channels c ≡ some sent
      → IsDelivered m.manager.tracks (suc c) sent
  begun-channels_right c sent e = elim (Bool-cases (c == length m.manager.channels)) [
    | inl same ↦
        let empty : sent ≡ [] = ground (arith, get_elem?-snoc m.manager.channels [] c) in
        rw empty tt
    | inr other ↦ inv.channels_right c sent (ground (arith, get_elem?-snoc m.manager.channels [] c))
  ]

  begun-Inv : Inv begun
  begun-Inv = record {
    pending_distinct = insert-Distinct _ _ m.manager.pending inv.pending_distinct;
    active_distinct = inv.active_distinct;
    waiting_distinct = insert-Distinct _ _ m.waiting inv.waiting_distinct;
    counted = omega (arith, inv.counted, length-append m.manager.channels ([] ∷ []));
    pending_right = begun-pending_right;
    active_right = λ h p e.
        let (bound, t, found, owner, live) = inv.active_right h p e in
        (omega (arith, bound), t, found, owner, live);
    waiting_right = begun-waiting_right;
    tracks_right = inv.tracks_right;
    channels_right = begun-channels_right;
    threads_right = inv.threads_right;
  }

  reserve-Inv :
      Inv (wait_for m (reserve (get m.manager.handles).0 (get m.manager.handles).1 m.manager))
  unfolding get reserve wait_for
  reserve-Inv = elim (Bool-cases (m.manager.handles.value == max_uint16)) [
    | inl e ↦ rw e inv
    | inr e ↦ rw e begun-Inv
  ]

  pub begin_publish-Inv :
      (options : PublishOptions) (ended : Bool)
      → Inv (wait_for m (begin_publish options ended m.manager))
  unfolding begin_publish wait_for
  begin_publish-Inv options true =
      elim (Option-cases
        (validate_schema options.frame_encoding (schema_encoding options.schema))) [
          | inl e ↦ rw (e, begin_publish) inv
          | inr (x, e) ↦ rw (e, begin_publish) inv
        ]
  begin_publish-Inv options false =
      elim (Option-cases
        (validate_schema options.frame_encoding (schema_encoding options.schema))) [
          | inl e ↦ rw (e, begin_publish) reserve-Inv
          | inr (x, e) ↦ rw (e, begin_publish) inv
        ]

module _ (m : Machine) (inv : Inv m) (h : ℕ) where
  -- A call returns and its request is pending no more.
  abbrev returned : Machine
  returned = record (stop_waiting h m) { manager = forget h m.manager }

  returned-Inv : Inv returned
  unfolding stop_waiting forget
  returned-Inv = record {
    pending_distinct = delete-Distinct h m.manager.pending inv.pending_distinct;
    active_distinct = inv.active_distinct;
    waiting_distinct = delete-Distinct h m.waiting inv.waiting_distinct;
    counted = inv.counted;
    pending_right = λ h' c e.
        let before : ((h == h') ≡ false) × (lookup h' m.manager.pending ≡ some c) =
          ground (arith, lookup-delete h h' m.manager.pending inv.pending_distinct) in
        let (own, empty, inactive, waits) = inv.pending_right h' c before.1 in
        (own, empty, inactive, ground (arith, lookup-delete h h' m.waiting inv.waiting_distinct));
    active_right = inv.active_right;
    waiting_right = λ h' c e.
        let before : ((h == h') ≡ false) × (lookup h' m.waiting ≡ some c) =
          ground (arith, lookup-delete h h' m.waiting inv.waiting_distinct) in
        let (own, bound, state) = inv.waiting_right h' c before.1 in
        (
          own,
          bound,
          elim state [
            | inl p ↦
                inl (ground (arith, lookup-delete h h' m.manager.pending inv.pending_distinct))
            | inr answer ↦ inr answer
          ],
        );
    tracks_right = inv.tracks_right;
    channels_right = inv.channels_right;
    threads_right = inv.threads_right;
  }

  pub give_up-Inv : Inv (give_up h m)
  unfolding give_up
  give_up-Inv = elim (Option-cases (lookup h m.waiting)) [
    | inl e ↦ rw (e, give_up) inv
    | inr (c, e) ↦ rw (e, give_up) returned-Inv
  ]

  -- A call whose channel holds an answer is pending no more.
  answered_idle :
      (c : ℕ) (r : PublishResult) (rest : List PublishResult)
      → lookup h m.waiting ≡ some c
      → get_elem? m.manager.channels c ≡ some (r ∷ rest)
      → lookup h m.manager.pending ≡ none
  answered_idle c r rest waits full = elim (Option-cases (lookup h m.manager.pending)) [
    | inl e ↦ e
    | inr (c', e) ↦
        let (own, empty, inactive, waits') = inv.pending_right h c' e in absurd (ground arith)
  ]

  received-Inv :
      (c : ℕ) (o : Option (List PublishResult))
      → lookup h m.waiting ≡ some c
      → get_elem? m.manager.channels c ≡ o
      → Inv (received h o m)
  unfolding received stop_waiting forget
  received-Inv c none waits e = inv
  received-Inv c (some []) waits e = inv
  received-Inv c (some (r ∷ rest)) waits e =
      rw (← delete-absent h m.manager.pending (answered_idle c r rest waits e)) returned-Inv

  pub receive_on-Inv : Inv (receive_on h m)
  unfolding receive_on
  receive_on-Inv = elim (Option-cases (lookup h m.waiting)) [
    | inl e ↦ rw (e, receive_on) inv
    | inr (c, e) ↦ rw (e, receive_on) (received-Inv c (get_elem? m.manager.channels c) e refl)
  ]
