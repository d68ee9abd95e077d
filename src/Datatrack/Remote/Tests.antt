-- ===== src/Datatrack/Remote/Tests.antt =====
-- Concrete runs of internal/datatrack/remote.go, and the theorems at concrete inputs.
use server_sdk_go.Prelude.{
  ℕ, zero, suc, ◌≤◌, ◌≡◌, refl, Bool, true, false, List, [], ◌∷◌, ◌++◌, Option, none, some, pos,
  length, arith, inr, get_elem?, keys, contains, erase_first,
}
use server_sdk_go.Datatrack.Clock.{at, is_before, duration_to_ticks, wrapping_add}
use server_sdk_go.Datatrack.Packet.{Dtp, Packet, apply, apply_one, apply_marker, parse_packet}
use server_sdk_go.Datatrack.Packet.Codec.{DtpLaws}
use server_sdk_go.Datatrack.Packetizer.{
  packetize, packetize_with, chunk_payload, chunk_loop, number_packets, next_sequence, frame_marker,
  initial_header,
}
use server_sdk_go.Datatrack.Depacketizer.{Depacketizer}
use server_sdk_go.Datatrack.Local.{LocalTrack, published}
use server_sdk_go.Datatrack.Local.Pipeline.{
  Frame, try_push, process_frame, seal, marshalled, marshal_packets, pushed,
}
use server_sdk_go.Datatrack.Remote.Pipeline.{run_pipeline, handle_packets}
use server_sdk_go.Datatrack.Remote.Track.{
  RemoteTrack, Outside, stream, new_remote_track, active, subscribe, subscribe_in, clamp_buffer,
  activate, activate_in, answer_streams, add_stream, remove_stream, leave, is_active, uses_handle,
}
use server_sdk_go.Datatrack.Remote.Sound.{
  IsSound, TrackCall, subscribes, activates, closes, call, calls, calls-IsSound,
}
use server_sdk_go.Datatrack.Remote.Routes.{
  RemoteManager, lookup_name, assign_all, route, assign_all_exchanged,
}
use server_sdk_go.Datatrack.Remote.Assigned.{IsFree, route-assign_all}
use server_sdk_go.Datatrack.Local.Carried.{IsCarried, try_push-IsCarried}
use server_sdk_go.Datatrack.Remote.EndToEnd.{IsOpenedBy, try_push-run_pipeline}

-- A packet format: the fields one after the other, each extension behind a 1, the payload behind
-- a 0.
write_bool : Bool → ℕ
write_bool true = 1
write_bool false = 0

read_bool : ℕ → Bool
read_bool zero = false
read_bool (suc n) = true

read-write_bool : (b : Bool) → read_bool (write_bool b) ≡ b
unfolding read_bool write_bool
read-write_bool true = refl
read-write_bool false = refl

write_tail : List (ℕ × ℕ) → List ℕ → List ℕ
write_tail [] payload = 0 ∷ payload
write_tail (e ∷ es) payload = 1 ∷ e.0 ∷ e.1 ∷ write_tail es payload

with_extension : ℕ × ℕ → Option (List (ℕ × ℕ) × List ℕ) → Option (List (ℕ × ℕ) × List ℕ)
with_extension e none = none
with_extension e (some rest) = some (e ∷ rest.0, rest.1)

read_tail : List ℕ → Option (List (ℕ × ℕ) × List ℕ)
unfolding with_extension
read_tail [] = none
read_tail (zero ∷ payload) = some ([], payload)
read_tail (suc n ∷ []) = none
read_tail (suc n ∷ a ∷ []) = none
read_tail (suc n ∷ a ∷ b ∷ rest) = with_extension (a, b) (read_tail rest)

read_tail-write_tail :
    (es : List (ℕ × ℕ)) (payload : List ℕ) → read_tail (write_tail es payload) ≡ some (es, payload)
unfolding read_tail write_tail with_extension
read_tail-write_tail [] payload = refl
read_tail-write_tail (e ∷ es) payload = rw (read_tail-write_tail es payload) refl

write_packet : Packet (ℕ × ℕ) → List ℕ
unfolding write_bool write_tail
write_packet p =
    p.header.version
    ∷ write_bool p.header.is_start_of_frame
    ∷ write_bool p.header.is_final_of_frame
    ∷ p.header.handle
    ∷ p.header.sequence_number
    ∷ p.header.frame_number
    ∷ p.header.timestamp
    ∷ write_tail p.header.extensions p.payload

packet_of : ℕ → ℕ → ℕ → ℕ → ℕ → ℕ → ℕ → Option (List (ℕ × ℕ) × List ℕ) → Option (Packet (ℕ × ℕ))
unfolding read_bool
packet_of version first last handle_number sequence number timestamp none = none
packet_of version first last handle_number sequence number timestamp (some rest) = some (record {
  header = record {
    version = version;
    is_start_of_frame = read_bool first;
    is_final_of_frame = read_bool last;
    handle = handle_number;
    sequence_number = sequence;
    frame_number = number;
    timestamp = timestamp;
    extensions = rest.0;
  };
  payload = rest.1;
})

read_packet : List ℕ → Option (Packet (ℕ × ℕ))
unfolding packet_of read_tail
read_packet (v ∷ a ∷ b ∷ h ∷ s ∷ n ∷ t ∷ rest) = packet_of v a b h s n t (read_tail rest)
read_packet raw = none

read_packet-write_packet : (p : Packet (ℕ × ℕ)) → read_packet (write_packet p) ≡ some p
unfolding read_packet write_packet packet_of
read_packet-write_packet p =
    rw
      (
        read_tail-write_tail p.header.extensions p.payload,
        read-write_bool p.header.is_start_of_frame,
        read-write_bool p.header.is_final_of_frame,
      )
      refl

abbrev codec : Dtp
codec = record {
  Ext = ℕ × ℕ;
  E2ee = ℕ;
  ext_id = λ x. x.0;
  e2ee_id = 1;
  user_timestamp_id = 2;
  marshal_e2ee = λ x. some (1, x);
  unmarshal_e2ee = λ x. some (x.1);
  marshal_user_timestamp = λ t. some (2, t);
  unmarshal_user_timestamp = λ x. some (x.1);
  add_extension = λ h x. record h { extensions = h.extensions ++ (x ∷ []) };
  marshal_size = λ h. 12;
  marshal = λ p. some (write_packet p);
  unmarshal = read_packet;
}

codec_laws : DtpLaws codec
codec_laws = record {
  ids_differ = omega arith;
  e2ee_writes_id = λ x ext h. ground arith;
  e2ee_reads = λ x ext h. ground arith;
  timestamp_writes_id = λ t ext h. ground arith;
  timestamp_reads = λ t ext h. ground arith;
  added = λ h ext. refl;
}

codec_reads :
    (packet : Packet (ℕ × ℕ)) (raw : List ℕ)
    → codec.marshal packet ≡ some raw
    → codec.unmarshal raw ≡ some packet
codec_reads packet raw h =
    let shape : raw ≡ write_packet packet = ground arith in
    rw shape (read_packet-write_packet packet)

abbrev lock : List ℕ → Option (List ℕ × ℕ)
lock payload = some (9 ∷ payload, 3)

abbrev unlock : List ℕ → ℕ → Option (List ℕ)
unlock [] key = none
unlock (b ∷ payload) key = some payload

lock-unlock : IsOpenedBy codec lock unlock
lock-unlock payload sealed h =
    let shape : sealed ≡ (9 ∷ payload, 3) = ground arith in rw shape (refl, omega arith)

abbrev sender : LocalTrack
sender = record {
  handle = 4;
  closes = 0;
  state = published;
  info = record {
    sid = 30 ∷ [];
    pub_handle = 4;
    name = 7 ∷ [];
    uses_e2ee = true;
    schema = none;
    frame_encoding = none;
  };
  has_encryptor = true;
  packetizer = record {
    handle = 4;
    mtu = 15;
    sequence = 65535;
    frame_number = 0;
    clock = record { base = 100; prev = 100 };
  };
}

abbrev frame : Frame
frame = record { payload = 1 ∷ 2 ∷ 3 ∷ []; user_timestamp = some 8 }

abbrev raw_packets : List (List ℕ)
raw_packets =
    (0 ∷ 1 ∷ 0 ∷ 4 ∷ 65535 ∷ 0 ∷ 100 ∷ 1 ∷ 1 ∷ 3 ∷ 1 ∷ 2 ∷ 8 ∷ 0 ∷ 9 ∷ 1 ∷ 2 ∷ [])
    ∷ (0 ∷ 0 ∷ 1 ∷ 4 ∷ 0 ∷ 0 ∷ 100 ∷ 1 ∷ 1 ∷ 3 ∷ 1 ∷ 2 ∷ 8 ∷ 0 ∷ 3 ∷ [])
    ∷ []

frame_pushed : (try_push codec lock frame (pos 0) sender).1 ≡ pushed raw_packets
unfolding try_push process_frame seal marshalled marshal_packets packetize packetize_with
    chunk_payload chunk_loop number_packets next_sequence frame_marker initial_header apply
    apply_one apply_marker at is_before duration_to_ticks wrapping_add write_packet write_bool
    write_tail
frame_pushed = refl

two_handled : length (handle_packets codec raw_packets) ≤ 128
unfolding handle_packets parse_packet read_packet packet_of read_tail with_extension read_bool
two_handled = omega arith

abbrev fresh : Depacketizer codec
fresh = record { partials = []; order = [] }

try_push-run_pipeline_example :
    run_pipeline codec
      (record { encrypted = true; decryptor = some unlock; depacketizer = fresh })
      (handle_packets codec raw_packets)
      1
    ≡ frame ∷ []
try_push-run_pipeline_example =
    try_push-run_pipeline codec codec_laws codec_reads lock unlock frame (pos 0) sender raw_packets
      fresh 1 lock-unlock (omega arith) (omega arith) refl frame_pushed two_handled

try_push-IsCarried_example : IsCarried codec sender lock frame raw_packets
try_push-IsCarried_example =
    try_push-IsCarried codec codec_laws lock frame (pos 0) sender raw_packets frame_pushed

abbrev nothing_outside : Outside
nothing_outside = record { next_stream = 0; made = []; closed = []; answers = [] }

-- Two subscribers wait, get a stream each, and one leaves.
abbrev two_subscribers : List TrackCall
two_subscribers = subscribes true 16 70 ∷ subscribes true 4 71 ∷ activates 9 ∷ closes 0 ∷ []

two_subscribers_run :
    let (t, w) = calls two_subscribers (new_remote_track sender.info (50 ∷ []), nothing_outside) in
    (t.streams ≡ 1 ∷ [])
    × (uses_handle 9 t ≡ true)
    × (w.answers ≡ (70, stream 0) ∷ (71, stream 1) ∷ [])
unfolding calls call new_remote_track subscribe subscribe_in clamp_buffer activate activate_in
    answer_streams add_stream remove_stream leave is_active uses_handle contains erase_first
two_subscribers_run = (refl, refl, refl)

calls-IsSound_example :
    IsSound (calls two_subscribers (new_remote_track sender.info (50 ∷ []), nothing_outside)).0
calls-IsSound_example = calls-IsSound sender.info (50 ∷ []) nothing_outside two_subscribers

abbrev subscribed : ℕ → RemoteTrack
subscribed h = record {
  publisher_identity = 50 ∷ [];
  pub_handle = h;
  broken = false;
  max_partial_frames = 1;
  info = sender.info;
  subscription = active;
  waiters = [];
  buffer_size = 16;
  sub_handle = h;
  running = true;
  streams = h ∷ [];
}

abbrev two_tracks : RemoteManager
two_tracks = record {
  descriptors = (30 ∷ [], 0) ∷ (31 ∷ [], 1) ∷ [];
  sub_handles = (1, 0) ∷ (2, 1) ∷ [];
  tracks = subscribed 1 ∷ subscribed 2 ∷ [];
  outside = nothing_outside;
}

two_tracks-IsFree : IsFree 5 1 two_tracks.tracks
unfolding uses_handle is_active
two_tracks-IsFree zero u apart e = let same : u ≡ subscribed 1 = ground arith in rw same refl
two_tracks-IsFree (suc zero) u apart e = absurd (ground arith)
two_tracks-IsFree (suc (suc q)) u apart e = absurd (ground arith)

route-assign_all_example :
    route 5 (assign_all ((7, 30 ∷ []) ∷ (5, 31 ∷ []) ∷ (8, 30 ∷ []) ∷ []) two_tracks) ≡ some 1
unfolding lookup_name keys contains
route-assign_all_example =
    route-assign_all 5 1 (31 ∷ []) two_tracks (subscribed 2) ((7, 30 ∷ []) ∷ []) ((8, 30 ∷ []) ∷ [])
      refl refl (inr refl) (refl, (refl, tt)) two_tracks-IsFree
      ((refl, λ h. absurd (ground arith)), tt) ((refl, λ h. absurd (ground arith)), tt)

assign_all_exchanged_example :
    let m' = assign_all ((1, 31 ∷ []) ∷ (2, 30 ∷ []) ∷ []) two_tracks in
    (get_elem? m'.tracks 1 ≡ some (record (subscribed 2) { sub_handle = 1 })) × (route 1 m' ≡ none)
unfolding lookup_name keys contains
assign_all_exchanged_example =
    assign_all_exchanged 1 2 0 1 (30 ∷ []) (31 ∷ []) two_tracks (subscribed 1) (subscribed 2)
      (refl, (refl, tt)) refl refl refl refl refl refl refl refl refl refl
