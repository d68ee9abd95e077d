-- ===== src/Datatrack/Tests.antt =====
-- Concrete runs of the data track code, and the theorems at concrete inputs.
use server_sdk_go.Prelude.{
  ℕ, ℤ, ◌+◌, ◌*◌, ◌≤◌, ◌≡◌, refl, Bool, true, false, List, [], ◌∷◌, ◌++◌, none, some, pos, negsuc,
  arith, contains, keys, some,
}
use native.Mathlib.Nat.{le_refl}
use server_sdk_go.Datatrack.Clock.{
  Clock, at, is_before, duration_to_ticks, wrapping_add, new_clock, stamps, highest_ticks,
  stamps-highest_ticks, duration_to_ticks_rounds, clock_rate,
}
use server_sdk_go.Datatrack.Packet.{Dtp, Header, Packet, Extensions, apply, apply_one, apply_marker}
use server_sdk_go.Datatrack.Packet.Codec.{DtpLaws}
use server_sdk_go.Datatrack.Packetizer.{
  Packetizer, packets, packetize, packetize_with, chunk_payload, chunk_loop, number_packets,
  next_sequence, frame_marker, initial_header,
}
use server_sdk_go.Datatrack.Depacketizer.{Depacketizer, push, push_all, delivered}
use server_sdk_go.Datatrack.Depacketizer.Invariant.{Within, push-Within}
use server_sdk_go.Datatrack.Depacketizer.RoundTrip.{packetize-delivered}

-- A packet format: an extension is its id and a number.
abbrev toy : Dtp
toy = record {
  Ext = ℕ × ℕ;
  E2ee = ℕ;
  ext_id = λ x. x.0;
  e2ee_id = 1;
  user_timestamp_id = 2;
  marshal_e2ee = λ x. some (1, x);
  unmarshal_e2ee = λ x. some (x.1);
  marshal_user_timestamp = λ t. some (2, t);
  unmarshal_user_timestamp = λ x. some (x.1);
  add_extension = λ h x. record h { extensions = h.extensions ++ (x ∷ []) };
  marshal_size = λ h. 12;
  marshal = λ p. none;
  unmarshal = λ b. none;
}

toy_laws : DtpLaws toy
toy_laws = record {
  ids_differ = omega arith;
  e2ee_writes_id = λ x ext h. ground arith;
  e2ee_reads = λ x ext h. ground arith;
  timestamp_writes_id = λ t ext h. ground arith;
  timestamp_reads = λ t ext h. ground arith;
  added = λ h ext. refl;
}

abbrev fresh_clock : Clock
fresh_clock = record { base = 100; prev = 100 }

abbrev cutter : Packetizer
cutter = record { handle = 7; mtu = 15; sequence = 65535; frame_number = 3; clock = fresh_clock }

abbrev stamped : Extensions ℕ
stamped = record { user_timestamp = some 9; e2ee = some 5 }

abbrev header_of : Bool → Bool → ℕ → Header (ℕ × ℕ)
header_of first last sequence = record {
  version = 0;
  is_start_of_frame = first;
  is_final_of_frame = last;
  handle = 7;
  sequence_number = sequence;
  frame_number = 3;
  timestamp = 190;
  extensions = (1, 5) ∷ (2, 9) ∷ [];
}

abbrev three_packets : List (Packet (ℕ × ℕ))
three_packets =
    record { header = header_of true false 65535; payload = 1 ∷ 2 ∷ 3 ∷ [] }
    ∷ record { header = header_of false false 0; payload = 4 ∷ 5 ∷ 6 ∷ [] }
    ∷ record { header = header_of false true 1; payload = 7 ∷ [] }
    ∷ []

abbrev seven : List ℕ
seven = 1 ∷ 2 ∷ 3 ∷ 4 ∷ 5 ∷ 6 ∷ 7 ∷ []

abbrev cutter' : Packetizer
cutter' = record {
  handle = 7;
  mtu = 15;
  sequence = 2;
  frame_number = 4;
  clock = record { base = 100; prev = 190 };
}

-- One millisecond later, 90 ticks.
packetize_run :
    packetize toy cutter seven stamped (pos 1_000_000) ≡ (cutter', packets three_packets)
unfolding packetize packetize_with initial_header apply apply_one apply_marker chunk_payload
    chunk_loop number_packets next_sequence frame_marker at is_before wrapping_add duration_to_ticks
packetize_run = refl

abbrev empty_depacketizer : Depacketizer toy
empty_depacketizer = record { partials = []; order = [] }

packetize-delivered_example :
    delivered toy (push_all toy empty_depacketizer three_packets 1).1
    ≡ record { payload = seven; extensions = stamped } ∷ []
packetize-delivered_example =
    packetize-delivered toy toy_laws cutter cutter' seven stamped (pos 1_000_000) three_packets
      empty_depacketizer 1 (omega arith) (omega arith) (omega arith) packetize_run

empty-Within : Within toy 1 empty_depacketizer
unfolding contains keys
empty-Within = record {
  valid = record {
    keys_distinct = tt;
    order_distinct = tt;
    same_keys = λ k. refl;
    same_length = refl;
  };
  bounded = omega arith;
}

push-Within_example :
    Within toy 1
      (push toy empty_depacketizer
        (record { header = header_of true false 65535; payload = 1 ∷ [] })
        1).0
push-Within_example = push-Within toy empty_depacketizer _ 1 empty-Within (le_refl 1)

-- A second, then a look back, then half a second more, near the end of the circle.
abbrev three_instants : List ℤ
three_instants = pos 1_000_000_000 ∷ pos 500_000_000 ∷ pos 1_500_000_000 ∷ []

three_stamps : stamps (new_clock 4_294_967_000) three_instants ≡ 89_704 ∷ 89_704 ∷ 134_704 ∷ []
unfolding stamps new_clock at is_before duration_to_ticks wrapping_add
three_stamps = refl

stamps-highest_ticks_example :
    stamps (new_clock 4_294_967_000) three_instants ≡ highest_ticks 4_294_967_000 0 three_instants
stamps-highest_ticks_example =
    stamps-highest_ticks 4_294_967_000 three_instants (omega arith)
      (omega arith, omega arith, (omega arith, omega arith, (omega arith, omega arith, tt)))

duration_to_ticks_rounds_example :
    (2 * 5_000 * clock_rate ≤ 2 * duration_to_ticks (pos 5_000) * 1_000_000_000 + 1_000_000_000)
    × (2 * duration_to_ticks (pos 5_000) * 1_000_000_000 ≤ 2 * 5_000 * clock_rate + 1_000_000_000)
    × (duration_to_ticks (negsuc 7) ≡ 0)
duration_to_ticks_rounds_example = duration_to_ticks_rounds 5_000 7 (omega arith)

abbrev bare : Header (ℕ × ℕ)
bare = record (header_of false false 0) { extensions = [] }
