-- ===== src/StartGate/Tests.antt =====
-- Concrete runs of pkg/synchronizer/start_gate.go, and the theorem at a concrete input.
use server_sdk_go.Prelude.{ℕ, ◌*◌, ◌/◌, ◌≡◌, refl, true, false, [], ◌∷◌, some, arith}
use server_sdk_go.StartGate.{
  ExtPacket, GateConfig, StartGate, push, push_open, is_late, or_now, arrival_of, next_packet,
  later_packet, is_off_pace, accept_packet, enforce_window, timestamp_to_duration,
}
use server_sdk_go.StartGate.Accounts.{IsGate, IsAccounted, push-IsAccounted}

-- Room for two packets, on a clock of 1 kHz: a tick is a millisecond.
abbrev small : GateConfig
small = record {
  clock_rate = 1000;
  score_target = 5;
  max_stable_duration = 1_000_000_000;
  flush_after = 2_000_000_000;
  max_buffer = 2;
  min_arrival = λ d. d / 5;
  max_skew = λ d. (3 * d) / 10;
}

abbrev at_time : ℕ → ExtPacket
at_time ts = record { timestamp = ts; received_at = some (ts * 1_000_000) }

abbrev two_held : StartGate
two_held = record {
  first_arrival = some 1_000_000;
  score = 1;
  last_ts = 21;
  last_arrival = 21_000_000;
  has_last = true;
  finished = false;
  buffer = at_time 1 ∷ at_time 21 ∷ [];
  total_dropped = 0;
}

two_held-IsGate : IsGate small two_held
two_held-IsGate = (omega arith, λ h. absurd (ground arith), λ h. absurd (ground arith))

-- A third packet on pace pushes the oldest one out of the window.
oldest_dropped : push small (at_time 41) 41_000_000 two_held ≡ (
  record two_held {
    score = 0;
    last_ts = 41;
    last_arrival = 41_000_000;
    buffer = at_time 21 ∷ at_time 41 ∷ [];
    total_dropped = 1;
  },
  record { ready = []; dropped = 1; is_done = false },
)
unfolding push push_open is_late or_now next_packet later_packet is_off_pace accept_packet
    enforce_window arrival_of timestamp_to_duration
oldest_dropped = refl

push-IsAccounted_example :
    IsAccounted small (at_time 41) two_held (push small (at_time 41) 41_000_000 two_held)
push-IsAccounted_example =
    push-IsAccounted small (omega arith) (at_time 41) 41_000_000 two_held two_held-IsGate refl
