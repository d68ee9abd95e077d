-- ===== src/Datatrack/Depacketizer.antt =====
-- internal/datatrack/depacketizer.go: packets put together to frames.
pub mod Invariant
pub mod Assembly
pub mod RoundTrip
use server_sdk_go.Prelude.{
  ℕ, zero, suc, ◌+◌, ◌-◌, ◌%◌, ◌^◌, Bool, true, false, List, [], ◌∷◌, ◌++◌, Option, none, some, leb,
  ◌==◌, if◌then◌else◌, length, lookup, insert, delete, erase_first,
}
use server_sdk_go.Datatrack.Packet.{
  FrameMarker, inter, start, final, single, Packet, Dtp, Extensions, marker_of, extensions_of,
}
use server_sdk_go.Datatrack.Packetizer.{u16}

abbrev pub max_buffer_packets : ℕ
max_buffer_packets = 128

-- `depacketizerDropReason`
pub data DropReason : Type 0 where
  interrupted unknown_frame buffer_full incomplete : DropReason

-- `depacketizerDropError`
pub record DropError : Type 0 where
  pub frame_number : ℕ
  pub reason : DropReason
  pub new_frame_number : ℕ
  pub received : ℕ
  pub expected : ℕ

abbrev pub drop_error : ℕ → DropReason → DropError
drop_error frame_number reason = record {
  frame_number = frame_number;
  reason = reason;
  new_frame_number = 0;
  received = 0;
  expected = 0;
}

-- What the loop of `finalize` ends with. `stuck` is no Go value: the loop ran out of fuel.
pub data Assembled : Type 0 where
  whole : List ℕ → Assembled
  gap : Assembled
  stuck : Assembled

-- The loop of `finalize`: the payloads from `sequence` up to `end_sequence`, behind `payload`.
unfoldable pub assemble : ℕ → List (ℕ × List ℕ) → ℕ → ℕ → List ℕ → Assembled
assemble zero payloads sequence end_sequence payload = stuck
assemble (suc fuel) payloads sequence end_sequence payload = elim (lookup sequence payloads) [
  | none ↦ gap
  | some chunk ↦ elim (sequence == end_sequence) [
    | true ↦ whole (payload ++ chunk)
    | false ↦ assemble fuel payloads ((sequence + 1) % u16) end_sequence (payload ++ chunk)
  ]
]

module _ (dtp : Dtp) where
  open dtp use {Ext, E2ee}

  pub record PartialFrame : Type 0 where
    pub start_sequence : ℕ
    pub extensions : Extensions E2ee
    pub payloads : List (ℕ × List ℕ)

  -- `depacketizerFrame`
  pub record DepacketizerFrame : Type 0 where
    pub payload : List ℕ
    pub extensions : Extensions E2ee

  -- `depacketizerPushResult`
  pub record PushResult : Type 0 where
    pub frame : Option DepacketizerFrame
    pub dropped : Option DropError

  abbrev pub nothing : PushResult
  nothing = record { frame = none; dropped = none }

  abbrev pub only_drop : DropError → PushResult
  only_drop e = record { frame = none; dropped = some e }

  pub record Depacketizer : Type 0 where
    pub partials : List (ℕ × PartialFrame)
    -- the frame numbers of `partials`, the oldest first
    pub order : List ℕ

  pub remove : ℕ → Depacketizer → Depacketizer
  remove frame_number d = record {
    partials = delete frame_number d.partials;
    order = erase_first frame_number d.order;
  }

  -- `evictOldest`, on the list that `d.order` is.
  pub evict_from : List ℕ → Depacketizer → ℕ → Depacketizer × Option DropError
  evict_from [] d new_frame_number = (d, none)
  evict_from (oldest ∷ rest) d new_frame_number = (
    remove oldest d,
    some (record (drop_error oldest interrupted) { new_frame_number = new_frame_number }),
  )

  pub evict_oldest : Depacketizer → ℕ → Depacketizer × Option DropError
  evict_oldest d new_frame_number = evict_from d.order d new_frame_number

  -- `result.drop` keeps the first of two.
  pub first_drop : Option DropError → DropError → Option DropError
  first_drop none e = some e
  first_drop (some e') e = some e'

  -- The loop of `beginPartial`, on fuel: each eviction takes one frame from `order`.
  pub evict_loop : ℕ → ℕ → Depacketizer → ℕ → Option DropError → Depacketizer × Option DropError
  evict_loop zero max_partial_frames d new_frame_number dropped = (d, dropped)
  evict_loop (suc fuel) max_partial_frames d new_frame_number dropped =
      elim (leb max_partial_frames (length d.partials)) [
        | false ↦ (d, dropped)
        | true ↦
            let (d', evicted) = evict_oldest d new_frame_number in
            elim evicted [
              | none ↦ (d, dropped)
              | some e ↦
                  evict_loop fuel max_partial_frames d' new_frame_number (first_drop dropped e)
            ]
      ]

  pub frame_from_single : Depacketizer → Packet Ext → ℕ → Depacketizer × PushResult
  frame_from_single d packet max_partial_frames =
      let (d', dropped) =
        if leb max_partial_frames (length d.partials)
        then evict_oldest d packet.header.frame_number
        else (d, none) in
      (
        d',
        record {
          frame =
              some
                (record { payload = packet.payload; extensions = extensions_of dtp packet.header });
          dropped = dropped;
        },
      )

  pub new_partial : Packet Ext → PartialFrame
  new_partial packet = record {
    start_sequence = packet.header.sequence_number;
    extensions = extensions_of dtp packet.header;
    payloads = (packet.header.sequence_number, packet.payload) ∷ [];
  }

  -- From the end of the loop of `beginPartial` on.
  pub store_partial : Depacketizer → Packet Ext → Depacketizer
  store_partial d packet =
      let frame_number = packet.header.frame_number in
      record {
        partials = insert frame_number (new_partial packet) d.partials;
        order = elim (lookup frame_number d.partials) [
          | some p ↦ d.order
          | none ↦ d.order ++ (frame_number ∷ [])
        ];
      }

  pub begin_partial : Depacketizer → Packet Ext → ℕ → Depacketizer × PushResult
  begin_partial d packet max_partial_frames =
      let (d', dropped) =
        evict_loop (suc (length d.order)) max_partial_frames d packet.header.frame_number none in
      (store_partial d' packet, record { frame = none; dropped = dropped })

  pub incomplete_drop : ℕ → ℕ → ℕ → PushResult
  incomplete_drop frame_number received expected =
      only_drop
        (record (drop_error frame_number incomplete) { received = received; expected = expected })

  -- Fuel for one round more than there are payloads is never used up.
  pub finalize : ℕ → PartialFrame → ℕ → PushResult
  finalize frame_number partial end_sequence =
      let received = length partial.payloads % u16 in
      let expected = (end_sequence + u16 - partial.start_sequence + 1) % u16 in
      if received == expected
      then elim (assemble (suc (length partial.payloads)) partial.payloads partial.start_sequence
          end_sequence []) [
            | whole payload ↦ record {
              frame = some (record { payload = payload; extensions = partial.extensions });
              dropped = none;
            }
            | gap ↦ incomplete_drop frame_number received expected
            | stuck ↦ incomplete_drop frame_number received expected
          ]
      else incomplete_drop frame_number received expected

  -- From the lookup of the partial frame on, by the packet's marker.
  pub push_known :
      Depacketizer → Packet Ext → PartialFrame → FrameMarker → Depacketizer × PushResult
  push_known d packet partial marker =
      let frame_number = packet.header.frame_number in
      let partial' = record partial {
        payloads = insert packet.header.sequence_number packet.payload partial.payloads;
      } in
      if leb max_buffer_packets (length partial.payloads)
      then (remove frame_number d, only_drop (drop_error frame_number buffer_full))
      else elim marker [
        | final ↦
            (remove frame_number d, finalize frame_number partial' packet.header.sequence_number)
        | _ ↦ (record d { partials = insert frame_number partial' d.partials }, nothing)
      ]

  pub push_to_partial : Depacketizer → Packet Ext → Depacketizer × PushResult
  push_to_partial d packet = elim (lookup packet.header.frame_number d.partials) [
    | none ↦ (d, only_drop (drop_error packet.header.frame_number unknown_frame))
    | some partial ↦ push_known d packet partial (marker_of packet.header)
  ]

  pub push_marked : FrameMarker → Depacketizer → Packet Ext → ℕ → Depacketizer × PushResult
  push_marked single d packet max_partial_frames = frame_from_single d packet max_partial_frames
  push_marked start d packet max_partial_frames = begin_partial d packet max_partial_frames
  push_marked inter d packet max_partial_frames = push_to_partial d packet
  push_marked final d packet max_partial_frames = push_to_partial d packet

  pub push : Depacketizer → Packet Ext → ℕ → Depacketizer × PushResult
  push d packet max_partial_frames =
      push_marked (marker_of packet.header) d packet max_partial_frames

  -- Packets one after the other, with what each push returned.
  unfoldable pub push_all : Depacketizer → List (Packet Ext) → ℕ → Depacketizer × List PushResult
  push_all d [] max_partial_frames = (d, [])
  push_all d (packet ∷ packets) max_partial_frames =
      let (d', result) = push d packet max_partial_frames in
      let (d'', results) = push_all d' packets max_partial_frames in (d'', result ∷ results)

  -- The frames that a run of pushes delivered.
  unfoldable pub delivered : List PushResult → List DepacketizerFrame
  delivered [] = []
  delivered (r ∷ rs) = elim r.frame [ none ↦ delivered rs | some f ↦ f ∷ delivered rs ]
