-- ===== src/Datatrack/Local/Machine/Requests.antt =====
-- Steps that change what is pending and what is active in internal/datatrack/local.go, and the
-- invariant.
use server_sdk_go.Prelude.{
  ℕ, ◌≤◌, ◌==◌, ◌≡◌, inl, inr, false, [], ◌∷◌, ◌++◌, none, some, Bool-cases, All, lookup, insert,
  delete, get_elem?, arith, get_elem?-modify_same, get_elem?-modify_other, get_elem?-length,
  length-modify, lookup-insert, lookup-delete, insert-Distinct, delete-Distinct,
}
use server_sdk_go.Datatrack.Local.{PublishResult, LocalTrack, is_unpublished, mark, send}
use server_sdk_go.Datatrack.Local.Machine.{Machine}
use server_sdk_go.Datatrack.Local.Machine.Invariant.{
  IsTrackOf, IsTaskRight, IsPending, IsWaiting, Inv,
}
use server_sdk_go.Datatrack.Local.Machine.Tracks.{found-modify, threads-IsTaskRight}

module _ (m : Machine) (inv : Inv m) (h c : ℕ) (r : PublishResult)
    (pending_at : lookup h m.manager.pending ≡ some c) where
  -- A pending request is answered with `r`.
  abbrev pub answered : Machine
  answered = record m {
    manager = record m.manager {
      pending = delete h m.manager.pending;
      channels = send r c m.manager.channels;
    };
  }

  answered-pending_right :
      (h' c' : ℕ)
      → lookup h' (delete h m.manager.pending) ≡ some c'
      → IsPending answered.manager m.waiting h' c'
  answered-pending_right h' c' e =
      let (own, empty, inactive, waits) = inv.pending_right h c pending_at in
      let before : (lookup h' m.manager.pending ≡ some c') × ((h == h') ≡ false) =
        ground (arith, lookup-delete h h' m.manager.pending inv.pending_distinct) in
      let (own', empty', inactive', waits') = inv.pending_right h' c' before.0 in
      (
        own',
        ground (arith, get_elem?-modify_other (λ s. s ++ (r ∷ [])) c c' m.manager.channels),
        inactive',
        waits',
      )

  answered-waiting_right :
      (h' c' : ℕ) → lookup h' m.waiting ≡ some c' → IsWaiting answered.manager h' c'
  answered-waiting_right h' c' e =
      let (own, empty, inactive, waits) = inv.pending_right h c pending_at in
      let (own', bound', state') = inv.waiting_right h' c' e in
      elim (Bool-cases (h == h')) [
        | inl same ↦ (
          own',
          bound',
          inr (
            r,
            ground
                (arith, get_elem?-modify_same (λ s. s ++ (r ∷ [])) c m.manager.channels [] empty),
          ),
        )
        | inr other ↦ (
          own',
          bound',
          elim state' [
            | inl p ↦
                inl (ground (arith, lookup-delete h h' m.manager.pending inv.pending_distinct))
            | inr (s, sent) ↦ inr (
              s,
              ground (arith, get_elem?-modify_other (λ b. b ++ (r ∷ [])) c c' m.manager.channels),
            )
          ],
        )
      ]

  pub answered-Inv : ((p : ℕ) → r.track ≡ some p → IsTrackOf m.manager.tracks h p) → Inv answered
  answered-Inv owns =
      let (own, empty, inactive, waits) = inv.pending_right h c pending_at in
      record {
        pending_distinct = delete-Distinct h m.manager.pending inv.pending_distinct;
        active_distinct = inv.active_distinct;
        waiting_distinct = inv.waiting_distinct;
        counted =
            omega (arith, inv.counted, length-modify (λ s. s ++ (r ∷ [])) c m.manager.channels);
        pending_right = answered-pending_right;
        active_right = inv.active_right;
        waiting_right = answered-waiting_right;
        tracks_right = inv.tracks_right;
        channels_right = λ c' sent e. elim (found-modify _ c c' m.manager.channels sent e) [
          | inl (same, s, found, made) ↦
              let shape : sent ≡ r ∷ [] = ground arith in
              rw shape (λ p e. let (t, at_p, owner) = owns p e in (t, at_p, ground arith))
          | inr (other, found) ↦ inv.channels_right c' sent found
        ];
        threads_right = inv.threads_right;
      }

module _ (m : Machine) (inv : Inv m) (h p : ℕ) where
  -- A track that is not active is activated.
  abbrev pub activated : Machine
  activated = record m { manager = record m.manager { active = insert h p m.manager.active } }

  pub activated-Inv :
      (t : LocalTrack)
      → get_elem? m.manager.tracks p ≡ some t
      → t.handle ≡ h
      → is_unpublished t.state ≡ false
      → h ≤ m.manager.handles.value
      → lookup h m.manager.pending ≡ none
      → All (All (IsTaskRight m.manager.tracks (insert h p m.manager.active))) m.threads
      → Inv activated
  activated-Inv t found owner live bound idle threads = record {
    pending_distinct = inv.pending_distinct;
    active_distinct = insert-Distinct h p m.manager.active inv.active_distinct;
    waiting_distinct = inv.waiting_distinct;
    counted = inv.counted;
    pending_right = λ h' c' e.
        let (own, empty, inactive, waits) = inv.pending_right h' c' e in
        (own, empty, ground (arith, lookup-insert h h' p m.manager.active), waits);
    active_right = λ h' q e. elim (Bool-cases (h == h')) [
      | inl same ↦
          let here : p ≡ q = ground (arith, lookup-insert h h' p m.manager.active) in
          (ground arith, t, ground arith, ground arith, live)
      | inr other ↦ inv.active_right h' q (ground (arith, lookup-insert h h' p m.manager.active))
    ];
    waiting_right = inv.waiting_right;
    tracks_right = inv.tracks_right;
    channels_right = inv.channels_right;
    threads_right = threads;
  }

module _ (m : Machine) (inv : Inv m) (h : ℕ) where
  -- A track that may be active is let go of.
  abbrev pub removed : Machine
  removed = record m { manager = record m.manager { active = delete h m.manager.active } }

  still_active :
      (h' p : ℕ)
      → lookup h' (delete h m.manager.active) ≡ some p
      → ((h == h') ≡ false) × (lookup h' m.manager.active ≡ some p)
  still_active h' p e = ground (arith, lookup-delete h h' m.manager.active inv.active_distinct)

  pub removed-Inv : Inv removed
  removed-Inv = record {
    pending_distinct = inv.pending_distinct;
    active_distinct = delete-Distinct h m.manager.active inv.active_distinct;
    waiting_distinct = inv.waiting_distinct;
    counted = inv.counted;
    pending_right = λ h' c' e.
        let (own, empty, inactive, waits) = inv.pending_right h' c' e in
        (
          own,
          empty,
          ground (arith, lookup-delete h h' m.manager.active inv.active_distinct),
          waits,
        );
    active_right = λ h' q e. inv.active_right h' q (still_active h' q e).1;
    waiting_right = inv.waiting_right;
    tracks_right = inv.tracks_right;
    channels_right = inv.channels_right;
    threads_right =
        threads-IsTaskRight m.manager.tracks m.manager.tracks m.manager.active
          (delete h m.manager.active) m.threads
          (λ q right. (right.0, λ h' e. right.1 h' (still_active h' q e).1)) inv.threads_right;
  }

  -- The track that was active under `h` may be marked afterwards.
  pub removed-IsTaskRight :
      (p : ℕ)
      → lookup h m.manager.active ≡ some p
      → IsTaskRight m.manager.tracks (delete h m.manager.active) (mark p)
  removed-IsTaskRight p e =
      let (bound, t, found, owner, live) = inv.active_right h p e in
      (
        get_elem?-length m.manager.tracks p t found,
        λ h' e'.
            let (other, before) = still_active h' p e' in
            let (bound', t', found', owner', live') = inv.active_right h' p before in ground arith,
      )
