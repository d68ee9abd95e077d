-- ===== src/StartGate/Accounts.antt =====
-- What becomes of the packets that the gate of pkg/synchronizer/start_gate.go is given.
use server_sdk_go.Prelude.{
  ℕ, ◌+◌, ◌-◌, ◌≤◌, ◌≡◌, ◌⊎◌, refl, sym, Bool, true, false, ◌&&◌, ◌||◌, List, [], ◌∷◌, ◌++◌, ltb,
  leb, ◌==◌, length, take, drop, Bool-cases, inl, inr, arith, length-drop, length-take,
  take-append-drop, append-nil, ◌^◌,
}
use server_sdk_go.StartGate.{
  ExtPacket, GateConfig, StartGate, Pushed, enforce_window, restart_sequence, begin_sequence,
  conclude_push, accept_packet, is_off_pace, later_packet, next_packet, is_late, or_now, push_open,
  push, total_buffered_duration, timestamp_to_duration, ts_delta, arrival_of, held, released,
}

-- The buffer is within its bound, is empty before the first packet, and behind the last.
abbrev pub IsGate : GateConfig → StartGate → Type 0
IsGate c g =
    (length g.buffer ≤ c.max_buffer)
    × (g.has_last ≡ false → g.buffer ≡ [])
    × (g.finished ≡ true → g.buffer ≡ [])

-- A packet with a timestamp behind that of the last one.
abbrev pub is_behind : ExtPacket → StartGate → Bool
is_behind p g = g.has_last && leb (2 ^ 31) (ts_delta p.timestamp g.last_ts)

-- What becomes of the packets, in their order, where `lost` are dropped: of those that were held and the
-- new one the oldest are dropped and the others held or let go; or the new one is behind and is
-- dropped alone. One that is behind is let go only with all others.
abbrev pub IsDealt : ExtPacket → StartGate → List ExtPacket → StartGate × Pushed → Type 0
IsDealt p g lost out =
    ((g.buffer ++ (p ∷ []) ≡ lost ++ (out.0.buffer ++ out.1.ready))
      × ((is_behind p g ≡ false) ⊎ ((lost ≡ []) × (out.0.buffer ≡ []))))
    ⊎ ((is_behind p g ≡ true) × (lost ≡ p ∷ []) × (out.0.buffer ≡ g.buffer) × (out.1.ready ≡ []))

-- Each packet that is dropped is reported and counted, and the state is that of a gate.
abbrev pub IsAccounted : GateConfig → ExtPacket → StartGate → StartGate × Pushed → Type 0
IsAccounted c p g out =
    (lost : List ExtPacket) × IsDealt p g lost out
    × (length lost ≡ out.1.dropped)
    × (out.0.total_dropped ≡ g.total_dropped + out.1.dropped)
    × IsGate c out.0
    × (out.0.finished ≡ out.1.is_done)

-- A packet that joins those that are held: the oldest may go.
abbrev IsKept : GateConfig → ExtPacket → StartGate → StartGate × Pushed → Type 0
IsKept c p g out =
    (lost : List ExtPacket) × (g.buffer ++ (p ∷ []) ≡ lost ++ (out.0.buffer ++ out.1.ready))
    × (length lost ≡ out.1.dropped)
    × (out.0.total_dropped ≡ g.total_dropped + out.1.dropped)
    × IsGate c out.0
    × (out.0.finished ≡ out.1.is_done)

module _ (c : GateConfig) (bound : 1 ≤ c.max_buffer) where
  -- Of the window that overflows the oldest packets go.
  enforce_window_lem :
      (g : StartGate)
      → (lost : List ExtPacket) × (g.buffer ≡ lost ++ (enforce_window c g).0.buffer)
        × (length lost ≡ (enforce_window c g).1)
        × ((enforce_window c g).0.total_dropped ≡ g.total_dropped + (enforce_window c g).1)
        × (length (enforce_window c g).0.buffer ≤ c.max_buffer)
        × ((enforce_window c g).0.has_last ≡ g.has_last)
        × ((enforce_window c g).0.finished ≡ g.finished)
  unfolding enforce_window
  enforce_window_lem g =
      let n = length g.buffer - c.max_buffer in
      elim (Bool-cases ((c.max_buffer == 0) || leb (length g.buffer) c.max_buffer)) [
        | inl fits ↦
            let same : enforce_window c g ≡ (g, 0) = ground arith in
            rw same ([], refl, refl, omega arith, ground arith, refl, refl)
        | inr over ↦
            let same : enforce_window c g ≡ (
              record g { buffer = drop n g.buffer; score = 0; total_dropped = g.total_dropped + n },
              n,
            ) =
              ground arith in
            rw same (
              take n g.buffer,
              sym (take-append-drop n g.buffer),
              ground (arith, length-take n g.buffer),
              refl,
              ground (arith, length-drop n g.buffer),
              refl,
              refl,
            )
      ]

  conclude_push_lem :
      (g : StartGate)
      → length g.buffer ≤ c.max_buffer
      → g.has_last ≡ true
      → g.finished ≡ false
      → let out = conclude_push c g in
        (out.0.buffer ++ out.1.ready ≡ g.buffer)
        × (out.0.total_dropped ≡ g.total_dropped)
        × (out.1.dropped ≡ 0)
        × IsGate c out.0
        × (out.0.finished ≡ out.1.is_done)
  unfolding conclude_push
  conclude_push_lem g small has open_still =
      elim (Bool-cases (
        leb c.score_target g.score
        || leb c.max_stable_duration (total_buffered_duration c g.buffer))) [
          | inl e ↦
              let same : conclude_push c g
                  ≡ (record g { finished = true; buffer = [] }, released g.buffer) =
                ground arith in
              rw same (refl, refl, refl, (omega arith, λ h. refl, λ h. refl), refl)
          | inr e ↦
              let same : conclude_push c g ≡ (g, held 0) = ground arith in
              rw same (
                append-nil g.buffer,
                refl,
                refl,
                (small, λ h. absurd (ground arith), λ h. absurd (ground arith)),
                open_still,
              )
        ]

  accept_packet-IsKept :
      (counts : Bool) (p : ExtPacket) (g : StartGate)
      → length g.buffer ≤ c.max_buffer
      → g.has_last ≡ true
      → g.finished ≡ false
      → IsKept c p g (accept_packet c counts p g)
  unfolding accept_packet
  accept_packet-IsKept counts p g small has open_still =
      let g1 = record g { buffer = g.buffer ++ (p ∷ []) } in
      let w = enforce_window c g1 in
      let (lost, split, many, counted, within, has', open') = enforce_window_lem g1 in
      let held_split : g.buffer ++ (p ∷ []) ≡ lost ++ (w.0.buffer ++ []) =
        rw (append-nil w.0.buffer) split in
      elim (Bool-cases (ltb 0 w.1)) [
        | inl over ↦
            let same : accept_packet c counts p g ≡ (w.0, held w.1) = ground arith in
            rw same (
              lost,
              held_split,
              many,
              counted,
              (within, λ h. absurd (ground arith), λ h. absurd (ground arith)),
              ground arith,
            )
        | inr fits ↦
            let none_over : w.1 ≡ 0 = ground arith in
            let g2 = record w.0 { score = w.0.score + 1 } in
            let (all, same_count, none_dropped, gate, marked) =
              conclude_push_lem g2 within (ground arith) (ground arith) in
            elim (Bool-cases counts) [
              | inl yes_counts ↦
                  let same : accept_packet c counts p g ≡ conclude_push c g2 = ground arith in
                  rw same (
                    lost,
                    rw all split,
                    omega (arith, many, none_over, none_dropped),
                    omega (arith, same_count, counted, none_over, none_dropped),
                    gate,
                    marked,
                  )
              | inr not_counted ↦
                  let same : accept_packet c counts p g ≡ (w.0, held 0) = ground arith in
                  rw same (
                    lost,
                    held_split,
                    omega (arith, many, none_over),
                    omega (arith, counted, none_over),
                    (within, λ h. absurd (ground arith), λ h. absurd (ground arith)),
                    ground arith,
                  )
            ]
      ]

  later_packet-IsKept :
      (p : ExtPacket) (delta arrival : ℕ) (g : StartGate)
      → length g.buffer ≤ c.max_buffer
      → g.has_last ≡ true
      → g.finished ≡ false
      → IsKept c p g (later_packet c p delta arrival g)
  unfolding later_packet restart_sequence
  later_packet-IsKept p delta arrival g small has open_still =
      let moved = record g { last_ts = p.timestamp; last_arrival = arrival } in
      elim (Bool-cases (is_off_pace c (timestamp_to_duration c delta) g.last_arrival arrival)) [
        | inl off ↦
            let same : later_packet c p delta arrival g
                ≡ ((restart_sequence p moved).0, held (restart_sequence p moved).1) =
              ground arith in
            rw same (
              g.buffer,
              refl,
              refl,
              refl,
              (bound, λ h. absurd (ground arith), λ h. absurd (ground arith)),
              open_still,
            )
        | inr paced ↦
            let same : later_packet c p delta arrival g ≡ accept_packet c true p moved =
              ground arith in
            rw same (accept_packet-IsKept true p moved small has open_still)
      ]

  IsKept-IsAccounted :
      (p : ExtPacket) (g : StartGate) (out : StartGate × Pushed)
      → is_behind p g ≡ false
      → IsKept c p g out
      → IsAccounted c p g out
  IsKept-IsAccounted p g out ahead (lost, split, many, counted, gate, marked) =
      (lost, inl (split, inl ahead), many, counted, gate, marked)

  next_packet-IsAccounted :
      (p : ExtPacket) (now : ℕ) (g : StartGate)
      → length g.buffer ≤ c.max_buffer
      → g.has_last ≡ true
      → g.finished ≡ false
      → IsAccounted c p g (next_packet c p now g)
  unfolding next_packet
  next_packet-IsAccounted p now g small has open_still =
      let delta = ts_delta p.timestamp g.last_ts in
      elim (Bool-cases (leb (2 ^ 31) delta)) [
        | inl back ↦
            let same : next_packet c p now g
                ≡ (record g { total_dropped = g.total_dropped + 1 }, held 1) =
              ground arith in
            let behind : is_behind p g ≡ true = rw (has, back) refl in
            rw same (
              p ∷ [],
              inr (behind, refl, refl, refl),
              refl,
              refl,
              (small, λ h. absurd (ground arith), λ h. absurd (ground arith)),
              open_still,
            )
        | inr ahead ↦
            let level : is_behind p g ≡ false = rw (has, ahead) refl in
            IsKept-IsAccounted p g (next_packet c p now g) level (elim (Bool-cases (delta == 0)) [
              | inl none_between ↦
                  let same : next_packet c p now g ≡ accept_packet c false p g = ground arith in
                  rw same (accept_packet-IsKept false p g small has open_still)
              | inr some_between ↦
                  let same : next_packet c p now g ≡ later_packet c p delta (arrival_of p now) g =
                    ground arith in
                  rw same (later_packet-IsKept p delta (arrival_of p now) g small has open_still)
            ])
      ]

  push_open-IsAccounted :
      (p : ExtPacket) (now : ℕ) (g : StartGate)
      → IsGate c g
      → g.finished ≡ false
      → IsAccounted c p g (push_open c p now g)
  unfolding push_open begin_sequence
  push_open-IsAccounted p now g gate open_still =
      let started = record g { first_arrival = or_now g.first_arrival now } in
      elim (Bool-cases (is_late c g.first_arrival now)) [
        | inl late ↦
            let same : push_open c p now g ≡ (
              record started { buffer = []; finished = true },
              released (g.buffer ++ (p ∷ [])),
            ) =
              ground arith in
            rw same (
              [],
              inl (refl, inr (refl, refl)),
              refl,
              omega arith,
              (omega arith, λ h. refl, λ h. refl),
              refl,
            )
        | inr early ↦ elim (Bool-cases g.has_last) [
          | inl has ↦
              let same : push_open c p now g ≡ next_packet c p now started = ground arith in
              rw same (next_packet-IsAccounted p now started gate.0 has open_still)
          | inr first ↦
              let empty : g.buffer ≡ [] = gate.1 first in
              let level : is_behind p g ≡ false = rw first refl in
              let same : push_open c p now g ≡ (begin_sequence p now started, held 0) =
                ground arith in
              rw same (
                [],
                inl (rw empty refl, inl level),
                refl,
                omega arith,
                (bound, λ h. absurd (ground arith), λ h. absurd (ground arith)),
                open_still,
              )
        ]
      ]

  -- A gate with room for one packet at least that is not done, and the packet that it is given: of the
  -- packets that it held and the new one, in that order, the oldest are dropped and the others stay
  -- held or are let go, none of them lost or changed; or the new one is behind the last timestamp,
  -- is dropped alone, and the others stay. One that is behind is let go only where the gate lets go
  -- all that it has. As many as are dropped are reported and counted, and the buffer keeps its bound.
  pub push-IsAccounted :
      (p : ExtPacket) (now : ℕ) (g : StartGate)
      → IsGate c g
      → g.finished ≡ false
      → IsAccounted c p g (push c p now g)
  unfolding push
  push-IsAccounted p now g gate open_still =
      let same : push c p now g ≡ push_open c p now g = ground arith in
      rw same (push_open-IsAccounted p now g gate open_still)
