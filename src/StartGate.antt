-- ===== src/StartGate.antt =====
-- pkg/synchronizer/start_gate.go: the gate that holds a track's packets back until they arrive at the
-- pace of their timestamps. Instants and durations are nanoseconds; the instant of a call of `Push`
-- is an argument, and so are the two products with a float64 factor.
pub mod Accounts
mod Tests
use server_sdk_go.Prelude.{
  ℕ, zero, suc, ◌+◌, ◌-◌, ◌*◌, ◌/◌, ◌%◌, ◌^◌, Bool, true, false, not, ◌&&◌, ◌||◌, List, [], ◌∷◌,
  ◌++◌, Option, none, some, ltb, leb, ◌==◌, if◌then◌else◌, length, drop,
}

-- `jitter.ExtPacket`, with what the gate reads; a zero time is `none`.
pub record ExtPacket : Type 0 where
  pub timestamp : ℕ
  pub received_at : Option ℕ

-- What `newStartGate` fixes, and the float64 products with `minArrivalFactor` and `maxSkewFactor`.
pub record GateConfig : Type 0 where
  pub clock_rate : ℕ
  pub score_target : ℕ
  pub max_stable_duration : ℕ
  pub flush_after : ℕ
  pub max_buffer : ℕ
  pub min_arrival : ℕ → ℕ
  pub max_skew : ℕ → ℕ

unfoldable pub new_config : Bool → ℕ → (ℕ → ℕ) → (ℕ → ℕ) → GateConfig
new_config is_audio clock_rate min_arrival max_skew = record {
  clock_rate = clock_rate;
  score_target = 5;
  max_stable_duration = 1_000_000_000;
  flush_after = 2_000_000_000;
  max_buffer = if is_audio then 200 else 1000;
  min_arrival = min_arrival;
  max_skew = max_skew;
}

pub record StartGate : Type 0 where
  pub first_arrival : Option ℕ
  pub score : ℕ
  pub last_ts : ℕ
  pub last_arrival : ℕ
  pub has_last : Bool
  pub finished : Bool
  pub buffer : List ExtPacket
  pub total_dropped : ℕ

unfoldable pub new_start_gate : StartGate
new_start_gate = record {
  first_arrival = none;
  score = 0;
  last_ts = 0;
  last_arrival = 0;
  has_last = false;
  finished = false;
  buffer = [];
  total_dropped = 0;
}

-- The three values that `Push` returns.
pub record Pushed : Type 0 where
  pub ready : List ExtPacket
  pub dropped : ℕ
  pub is_done : Bool

abbrev pub held : ℕ → Pushed
held dropped = record { ready = []; dropped = dropped; is_done = false }

abbrev pub released : List ExtPacket → Pushed
released ready = record { ready = ready; dropped = 0; is_done = true }

-- The distance of two timestamps of 32 bits.
abbrev pub ts_delta : ℕ → ℕ → ℕ
ts_delta later earlier = (later + 2 ^ 32 - earlier) % 2 ^ 32

unfoldable pub timestamp_to_duration : GateConfig → ℕ → ℕ
timestamp_to_duration c delta =
    if c.clock_rate == 0 then 0 else (delta * 1_000_000_000) / c.clock_rate

unfoldable pub enforce_window : GateConfig → StartGate → StartGate × ℕ
enforce_window c g =
    let dropped = length g.buffer - c.max_buffer in
    if (c.max_buffer == 0) || leb (length g.buffer) c.max_buffer then (g, 0) else (
      record g {
        buffer = drop dropped g.buffer;
        score = 0;
        total_dropped = g.total_dropped + dropped;
      },
      dropped,
    )

unfoldable pub restart_sequence : ExtPacket → StartGate → StartGate × ℕ
restart_sequence seed g = (
  record g { buffer = seed ∷ []; score = 0; total_dropped = g.total_dropped + length g.buffer },
  length g.buffer,
)

unfoldable pub last_timestamp : ExtPacket → List ExtPacket → ℕ
last_timestamp p [] = p.timestamp
last_timestamp p (q ∷ qs) = last_timestamp q qs

unfoldable pub total_buffered_duration : GateConfig → List ExtPacket → ℕ
total_buffered_duration c [] = 0
total_buffered_duration c (p ∷ []) = 0
total_buffered_duration c (p ∷ q ∷ qs) =
    timestamp_to_duration c (ts_delta (last_timestamp q qs) p.timestamp)

-- The arrival of a packet, or now where it is not set.
unfoldable pub arrival_of : ExtPacket → ℕ → ℕ
arrival_of p now = elim p.received_at [ none ↦ now | some t ↦ t ]

-- The first packet of all.
unfoldable pub begin_sequence : ExtPacket → ℕ → StartGate → StartGate
begin_sequence p now g = record g {
  last_ts = p.timestamp;
  last_arrival = arrival_of p now;
  has_last = true;
  buffer = p ∷ [];
}

-- The end of `Push`, behind the score.
unfoldable pub conclude_push : GateConfig → StartGate → StartGate × Pushed
conclude_push c g =
    if leb c.score_target g.score || leb c.max_stable_duration (total_buffered_duration c g.buffer)
    then (record g { finished = true; buffer = [] }, released g.buffer)
    else (g, held 0)

-- The packet joins the buffer, and counts where the window did not overflow.
unfoldable pub accept_packet : GateConfig → Bool → ExtPacket → StartGate → StartGate × Pushed
accept_packet c counts p g =
    let joined = enforce_window c (record g { buffer = g.buffer ++ (p ∷ []) }) in
    let scored = conclude_push c (record joined.0 { score = joined.0.score + 1 }) in
    if ltb 0 joined.1
    then (joined.0, held joined.1)
    else if counts
    then scored
    else (joined.0, held 0)

-- `arrivalDelta < minArrival || skew > maxSkew`
unfoldable pub is_off_pace : GateConfig → ℕ → ℕ → ℕ → Bool
is_off_pace c duration last arrival =
    ltb arrival (last + c.min_arrival duration)
    || ltb (last + duration + c.max_skew duration) arrival
    || ltb (arrival + c.max_skew duration) (last + duration)

-- A packet whose timestamp is later than the last one's by `delta`.
unfoldable pub later_packet : GateConfig → ExtPacket → ℕ → ℕ → StartGate → StartGate × Pushed
later_packet c p delta arrival g =
    let moved = record g { last_ts = p.timestamp; last_arrival = arrival } in
    let restarted = restart_sequence p moved in
    if is_off_pace c (timestamp_to_duration c delta) g.last_arrival arrival
    then (restarted.0, held restarted.1)
    else accept_packet c true p moved

-- A packet behind the first, by its distance to the last one: back, none, or ahead.
unfoldable pub next_packet : GateConfig → ExtPacket → ℕ → StartGate → StartGate × Pushed
next_packet c p now g =
    let delta = ts_delta p.timestamp g.last_ts in
    if leb (2 ^ 31) delta
    then (record g { total_dropped = g.total_dropped + 1 }, held 1)
    else if delta == 0
    then accept_packet c false p g
    else later_packet c p delta (arrival_of p now) g

unfoldable pub is_late : GateConfig → Option ℕ → ℕ → Bool
is_late c none now = false
is_late c (some first) now = ltb 0 c.flush_after && ltb (first + c.flush_after) now

unfoldable pub or_now : Option ℕ → ℕ → Option ℕ
or_now none now = some now
or_now (some first) now = some first

-- `Push` on a gate that is not done.
unfoldable pub push_open : GateConfig → ExtPacket → ℕ → StartGate → StartGate × Pushed
push_open c p now g =
    let started = record g { first_arrival = or_now g.first_arrival now } in
    if is_late c g.first_arrival now
    then (record started { buffer = []; finished = true }, released (g.buffer ++ (p ∷ [])))
    else if g.has_last
    then next_packet c p now started
    else (begin_sequence p now started, held 0)

unfoldable pub push : GateConfig → ExtPacket → ℕ → StartGate → StartGate × Pushed
push c p now g =
    if g.finished
    then (g, record { ready = []; dropped = 0; is_done = true })
    else push_open c p now g
