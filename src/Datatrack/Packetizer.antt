-- ===== src/Datatrack/Packetizer.antt =====
-- internal/datatrack/packetizer.go: a frame cut into packets.
pub mod Chunks
pub mod Accepted
use server_sdk_go.Prelude.{
  ℕ, zero, suc, ◌+◌, ◌-◌, ◌%◌, ◌^◌, ◌<◌, ◌≡◌, Bool, List, [], ◌∷◌, Option, none, some, ltb, leb,
  ◌==◌, if◌then◌else◌, ℤ, length, take, drop, min,
}
use server_sdk_go.Datatrack.Clock.{Clock, at}
use server_sdk_go.Datatrack.Packet.{
  FrameMarker, inter, start, final, single, Header, Packet, Dtp, Extensions, apply, apply_marker,
  supported_version,
}

abbrev pub u16 : ℕ
u16 = 2 ^ 16

pub record Packetizer : Type 0 where
  pub handle : ℕ
  pub mtu : ℕ
  pub sequence : ℕ
  pub frame_number : ℕ
  pub clock : Clock

unfoldable pub frame_marker : ℕ → ℕ → FrameMarker
frame_marker index packet_count =
    if leb packet_count 1
    then single
    else if index == 0
    then start
    else if index == packet_count - 1
    then final
    else inter

-- The loop of `chunkPayload`, on fuel: a round takes a byte at least where `max_size` is not 0.
unfoldable pub chunk_loop : ℕ → List ℕ → ℕ → List (List ℕ)
chunk_loop fuel [] max_size = []
chunk_loop zero (x ∷ payload) max_size = []
chunk_loop (suc fuel) (x ∷ payload) max_size =
    let n = min max_size (length (x ∷ payload)) in
    take n (x ∷ payload) ∷ chunk_loop fuel (drop n (x ∷ payload)) max_size

unfoldable pub chunk_payload : List ℕ → ℕ → List (List ℕ)
chunk_payload payload max_size = chunk_loop (length payload) payload max_size

pub data PacketizeError : Type 0 where
  extension_failed mtu_too_short : PacketizeError

pub data PacketizeResult (Ext : Type 0) : Type 0 where
  packets : List (Packet Ext) → PacketizeResult Ext
  failed : PacketizeError → PacketizeResult Ext

-- What the loop over the chunks leaves in `p.sequence`.
unfoldable pub next_sequence : ℕ → List (List ℕ) → ℕ
next_sequence sequence [] = sequence
next_sequence sequence (chunk ∷ chunks) = next_sequence ((sequence + 1) % u16) chunks

module _ {Ext : Type 0} where
  -- The loop over the chunks, from chunk `index` of `count` on, with `p.sequence` at `sequence`.
  unfoldable pub number_packets : Header Ext → ℕ → ℕ → ℕ → List (List ℕ) → List (Packet Ext)
  number_packets header index count sequence [] = []
  number_packets header index count sequence (chunk ∷ chunks) =
      record {
        header = record (apply_marker (frame_marker index count) header) {
          sequence_number = sequence;
        };
        payload = chunk;
      }
      ∷ number_packets header (index + 1) count ((sequence + 1) % u16) chunks

module _ (dtp : Dtp) where
  open dtp use {Ext, E2ee, marshal_size}

  unfoldable pub initial_header : Packetizer → ℕ → Header Ext
  initial_header p timestamp = record {
    version = supported_version;
    is_start_of_frame = Bool.false;
    is_final_of_frame = Bool.false;
    handle = p.handle;
    sequence_number = 0;
    frame_number = 0;
    timestamp = timestamp;
    extensions = [];
  }

  -- From the marshalled header on. `p` has its clock set.
  unfoldable pub packetize_with :
      Packetizer → List ℕ → Header Ext → Packetizer × PacketizeResult Ext
  packetize_with p payload header =
      if leb p.mtu (marshal_size header)
      then (p, failed mtu_too_short)
      else (let chunks = chunk_payload payload (p.mtu - marshal_size header) in
          (
            record p {
              frame_number = (p.frame_number + 1) % u16;
              sequence = next_sequence p.sequence chunks;
            },
            packets (
                number_packets (record header { frame_number = p.frame_number }) 0 (length chunks)
                  p.sequence chunks),
          ))

  -- `since` is the time since the clock's epoch.
  unfoldable pub packetize :
      Packetizer → List ℕ → Extensions E2ee → ℤ → Packetizer × PacketizeResult Ext
  packetize p payload extensions since =
      let (clock', timestamp) = at p.clock since in
      let p' = record p { clock = clock' } in
      elim (apply dtp extensions (initial_header p timestamp)) [
        | none ↦ (p', failed extension_failed)
        | some header ↦ packetize_with p' payload header
      ]
