-- ===== src/Datatrack/Depacketizer/Invariant.antt =====
-- The invariant of the state of internal/datatrack/depacketizer.go.
use server_sdk_go.Prelude.{
  ℕ, zero, suc, ◌≤◌, ◌<◌, ◌≡◌, ◌⊎◌, ◌∙◌, inl, inr, List, [], ◌∷◌, ◌++◌, Option, none, some, leb,
  length, lookup, insert, delete, keys, contains, Distinct, contains-insert, contains-erase_first,
  erase_first-Distinct, length-erase_first, contains-snoc, snoc-Distinct, erase_first_self,
  lookup-keys, lookup-no-keys, erase_first, contains-delete, insert-Distinct, delete-Distinct,
  length-insert, length-delete, length-append, Option-cases, Bool-cases, arith,
}
use server_sdk_go.Datatrack.Packet.{
  Packet, Dtp, marker_of, inter, start, final, single, FrameMarker,
}
use server_sdk_go.Datatrack.Depacketizer.{
  PartialFrame, Depacketizer, remove, evict_from, evict_oldest, evict_loop, frame_from_single,
  store_partial, begin_partial, push_known, push_to_partial, push_marked, push, DropError,
  new_partial, finalize, nothing, PushResult,
}

module _ (dtp : Dtp) where
  open dtp use {Ext}

  -- `order` lists the keys of `partials`, each once.
  pub record IsValid (d : Depacketizer dtp) : Type 0 where
    pub keys_distinct : Distinct (keys d.partials)
    pub order_distinct : Distinct d.order
    pub same_keys : (k : ℕ) → contains d.order k ≡ contains (keys d.partials) k
    pub same_length : length d.order ≡ length d.partials

  remove-IsValid : (k : ℕ) (d : Depacketizer dtp) → IsValid d → IsValid (remove dtp k d)
  unfolding remove
  remove-IsValid k d v = record {
    keys_distinct = delete-Distinct k d.partials v.keys_distinct;
    order_distinct = erase_first-Distinct k d.order v.order_distinct;
    same_keys = λ j. ground (
      arith,
      contains-erase_first k j d.order v.order_distinct,
      contains-delete k j d.partials v.keys_distinct,
      v.same_keys j,
    );
    same_length = ground (
      arith,
      length-erase_first k d.order,
      length-delete k d.partials,
      v.same_keys k,
      v.same_length,
    );
  }

  module _ (d : Depacketizer dtp) (p : Packet Ext) (v : IsValid d) where
    abbrev key : ℕ
    key = p.header.frame_number

    -- The two cases of `order`: the frame number is there, or it is appended.
    store_known :
        (q : PartialFrame dtp)
        → lookup key d.partials ≡ some q
        → IsValid (record { partials = insert key (new_partial dtp p) d.partials; order = d.order })
    store_known q e = record {
      keys_distinct = insert-Distinct key (new_partial dtp p) d.partials v.keys_distinct;
      order_distinct = v.order_distinct;
      same_keys = λ j. ground (
        arith,
        contains-insert key j (new_partial dtp p) d.partials,
        v.same_keys j,
        lookup-keys key d.partials q e,
      );
      same_length = ground (
        arith,
        length-insert key (new_partial dtp p) d.partials,
        lookup-keys key d.partials q e,
        v.same_length,
      );
    }

    store_new :
        lookup key d.partials ≡ none
        → IsValid (record {
          partials = insert key (new_partial dtp p) d.partials;
          order = d.order ++ (key ∷ []);
        })
    store_new e = record {
      keys_distinct = insert-Distinct key (new_partial dtp p) d.partials v.keys_distinct;
      order_distinct =
          snoc-Distinct d.order key v.order_distinct
            (v.same_keys key ∙ lookup-no-keys key d.partials e);
      same_keys = λ j. ground (
        arith,
        contains-insert key j (new_partial dtp p) d.partials,
        contains-snoc d.order key j,
        v.same_keys j,
      );
      same_length = ground (
        arith,
        length-insert key (new_partial dtp p) d.partials,
        lookup-no-keys key d.partials e,
        length-append d.order (key ∷ []),
        v.same_length,
      );
    }

    store_partial-IsValid : IsValid (store_partial dtp d p)
    unfolding store_partial
    store_partial-IsValid = elim (Option-cases (lookup key d.partials)) [
      | inl e ↦ rw (e, store_partial) (store_new e)
      | inr (q, e) ↦ rw (e, store_partial) (store_known q e)
    ]

  insert-IsValid :
      (k : ℕ) (q q' : PartialFrame dtp) (d : Depacketizer dtp)
      → IsValid d
      → lookup k d.partials ≡ some q
      → IsValid (record d { partials = insert k q' d.partials })
  insert-IsValid k q q' d v e = record {
    keys_distinct = insert-Distinct k q' d.partials v.keys_distinct;
    order_distinct = v.order_distinct;
    same_keys = λ j.
        ground
          (arith, contains-insert k j q' d.partials, v.same_keys j, lookup-keys k d.partials q e);
    same_length =
        ground (arith, length-insert k q' d.partials, lookup-keys k d.partials q e, v.same_length);
  }

  evict_from-IsValid :
      (ks : List ℕ) (d : Depacketizer dtp) (n : ℕ) → IsValid d → IsValid (evict_from dtp ks d n).0
  unfolding evict_from
  evict_from-IsValid [] d n v = v
  evict_from-IsValid (k ∷ ks) d n v = remove-IsValid k d v

  abbrev state : List (ℕ × PartialFrame dtp) → List ℕ → Depacketizer dtp
  state partials order = record { partials = partials; order = order }

  -- What the loop of `beginPartial` ends with: a valid state with room for one more frame.
  record HasRoom (m : ℕ) (d : Depacketizer dtp) : Type 0 where
    valid : IsValid d
    room : (length d.partials < m) ⊎ (length d.partials ≡ 0)

  evict_loop-HasRoom :
      (fuel m : ℕ) (ps : List (ℕ × PartialFrame dtp)) (ks : List ℕ) (n : ℕ) (o : Option DropError)
      → IsValid (state ps ks)
      → length ks < fuel
      → HasRoom m (evict_loop dtp fuel m (state ps ks) n o).0
  unfolding evict_loop evict_oldest evict_from remove erase_first
  evict_loop-HasRoom zero m ps ks n o v h = absurd (omega arith)
  evict_loop-HasRoom (suc fuel) m ps [] n o v h = elim (Bool-cases (leb m (length ps))) [
    | inl t ↦ rw (t, evict_loop) (record { valid = v; room = inr (omega (arith, v.same_length)) })
    | inr t ↦ rw (t, evict_loop) (record { valid = v; room = inl (ground arith) })
  ]
  evict_loop-HasRoom (suc fuel) m ps (k ∷ ks) n o v h = elim (Bool-cases (leb m (length ps))) [
    | inr t ↦ rw (t, evict_loop) (record { valid = v; room = inl (ground arith) })
    | inl t ↦
        rw (t, evict_loop)
          (evict_loop-HasRoom fuel m (delete k ps) (erase_first k (k ∷ ks)) n _
            (remove-IsValid k (state ps (k ∷ ks)) v) (rw (erase_first_self k ks) (omega arith)))
  ]

  -- A valid state with no more frames than there were.
  record Shrinks (d d' : Depacketizer dtp) : Type 0 where
    valid : IsValid d'
    smaller : length d'.partials ≤ length d.partials

  remove-Shrinks : (k : ℕ) (d : Depacketizer dtp) → IsValid d → Shrinks d (remove dtp k d)
  unfolding remove
  remove-Shrinks k d v = record {
    valid = remove-IsValid k d v;
    smaller = ground (arith, length-delete k d.partials);
  }

  insert-Shrinks :
      (k : ℕ) (q q' : PartialFrame dtp) (d : Depacketizer dtp)
      → IsValid d
      → lookup k d.partials ≡ some q
      → Shrinks d (record d { partials = insert k q' d.partials })
  insert-Shrinks k q q' d v e = record {
    valid = insert-IsValid k q q' d v e;
    smaller = ground (arith, length-insert k q' d.partials, lookup-keys k d.partials q e);
  }

  evict_from-Shrinks :
      (ks : List ℕ) (d : Depacketizer dtp) (n : ℕ) → IsValid d → Shrinks d (evict_from dtp ks d n).0
  unfolding evict_from
  evict_from-Shrinks [] d n v = record { valid = v; smaller = omega arith }
  evict_from-Shrinks (k ∷ ks) d n v = remove-Shrinks k d v

  push_known-Shrinks :
      (d : Depacketizer dtp) (p : Packet Ext) (q : PartialFrame dtp) (m : FrameMarker)
      → IsValid d
      → lookup p.header.frame_number d.partials ≡ some q
      → Shrinks d (push_known dtp d p q m).0
  unfolding push_known
  push_known-Shrinks d p q m v e = elim (Bool-cases (leb 128 (length q.payloads))) [
    | inl full ↦ rw (full, push_known) (remove-Shrinks p.header.frame_number d v)
    | inr room ↦ rw (room, push_known) (by_marker m)
  ]
    where
      stored : Shrinks d (record d {
        partials =
            insert p.header.frame_number
              (record q { payloads = insert p.header.sequence_number p.payload q.payloads })
              d.partials;
      })
      stored = insert-Shrinks p.header.frame_number q _ d v e

      by_marker :
          (m : FrameMarker)
          → Shrinks d
              (elim m as (λ x. Depacketizer dtp × PushResult dtp) [
                | final ↦ (
                  remove dtp p.header.frame_number d,
                  finalize dtp p.header.frame_number
                      (record q { payloads = insert p.header.sequence_number p.payload q.payloads })
                      p.header.sequence_number,
                )
                | _ ↦ (
                  record d {
                    partials =
                        insert p.header.frame_number
                          (record q {
                            payloads = insert p.header.sequence_number p.payload q.payloads;
                          })
                          d.partials;
                  },
                  nothing dtp,
                )
              ]).0
      by_marker inter = stored
      by_marker start = stored
      by_marker single = stored
      by_marker final = remove-Shrinks p.header.frame_number d v

  push_to_partial-Shrinks :
      (d : Depacketizer dtp) (p : Packet Ext) → IsValid d → Shrinks d (push_to_partial dtp d p).0
  unfolding push_to_partial
  push_to_partial-Shrinks d p v = elim (Option-cases (lookup p.header.frame_number d.partials)) [
    | inl e ↦ rw (e, push_to_partial) (record { valid = v; smaller = omega arith })
    | inr (q, e) ↦ rw (e, push_to_partial) (push_known-Shrinks d p q (marker_of p.header) v e)
  ]

  frame_from_single-Shrinks :
      (d : Depacketizer dtp) (p : Packet Ext) (m : ℕ)
      → IsValid d
      → Shrinks d (frame_from_single dtp d p m).0
  unfolding frame_from_single evict_oldest
  frame_from_single-Shrinks d p m v = elim (Bool-cases (leb m (length d.partials))) [
    | inl t ↦ rw (t, frame_from_single) (evict_from-Shrinks d.order d p.header.frame_number v)
    | inr t ↦ rw (t, frame_from_single) (record { valid = v; smaller = omega arith })
  ]

  -- The state that a push must leave, for a limit of `m` frames.
  pub record Within (m : ℕ) (d : Depacketizer dtp) : Type 0 where
    pub valid : IsValid d
    pub bounded : length d.partials ≤ m

  shrunk : (m : ℕ) (d d' : Depacketizer dtp) → Within m d → Shrinks d d' → Within m d'
  shrunk m d d' w s = record { valid = s.valid; bounded = omega arith }

  begin_partial-Within :
      (d : Depacketizer dtp) (p : Packet Ext) (m : ℕ)
      → IsValid d
      → 1 ≤ m
      → Within m (begin_partial dtp d p m).0
  unfolding begin_partial store_partial
  begin_partial-Within d p m v h =
      let d' = (evict_loop dtp (suc (length d.order)) m d p.header.frame_number none).0 in
      let r : HasRoom m d' =
        evict_loop-HasRoom (suc (length d.order)) m d.partials d.order p.header.frame_number none v
          (omega arith) in
      record {
        valid = store_partial-IsValid d' p r.valid;
        bounded =
            ground
              (arith, length-insert p.header.frame_number (new_partial dtp p) d'.partials, r.room);
      }

  push_marked-Within :
      (k : FrameMarker) (d : Depacketizer dtp) (p : Packet Ext) (m : ℕ)
      → Within m d
      → 1 ≤ m
      → Within m (push_marked dtp k d p m).0
  unfolding push_marked
  push_marked-Within single d p m w h = shrunk m d _ w (frame_from_single-Shrinks d p m w.valid)
  push_marked-Within start d p m w h = begin_partial-Within d p m w.valid h
  push_marked-Within inter d p m w h = shrunk m d _ w (push_to_partial-Shrinks d p w.valid)
  push_marked-Within final d p m w h = shrunk m d _ w (push_to_partial-Shrinks d p w.valid)

  -- From a state that satisfies the invariant and assembles `m` frames at most, for a limit `m` of
  -- one at least, every push leaves such a state, whatever packet arrives. The invariant: the list
  -- `order` has each key of `partials` once and no other.
  pub push-Within :
      (d : Depacketizer dtp) (p : Packet Ext) (m : ℕ)
      → Within m d
      → 1 ≤ m
      → Within m (push dtp d p m).0
  unfolding push
  push-Within d p m w h = push_marked-Within (marker_of p.header) d p m w h
