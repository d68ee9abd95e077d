-- ===== src/Datatrack/Remote/EndToEnd.antt =====
-- A frame from `TryPush` in internal/datatrack/local.go to the streams of remote.go.
use server_sdk_go.Prelude.{
  ℕ, ◌+◌, ◌%◌, ◌≤◌, ◌<◌, ◌≡◌, refl, ap, inl, inr, Bool, true, false, List, [], ◌∷◌, Option, none,
  some, Option-cases, ◌==◌, length, All, ℤ, arith,
}
use server_sdk_go.Datatrack.Clock.{at}
use server_sdk_go.Datatrack.Packet.{
  Dtp, Header, Packet, Extensions, apply_marker, parse_packet, parsed, supported_version,
}
use server_sdk_go.Datatrack.Packet.Codec.{DtpLaws, extensions_of-apply}
use server_sdk_go.Datatrack.Packetizer.{
  u16, Packetizer, number_packets, packets, packetize, initial_header,
}
use server_sdk_go.Datatrack.Packetizer.Accepted.{packetize-Accepted}
use server_sdk_go.Datatrack.Depacketizer.{
  Depacketizer, DepacketizerFrame, push, push_all, delivered,
}
use server_sdk_go.Datatrack.Depacketizer.RoundTrip.{packetize-delivered, no_extensions_yet}
use server_sdk_go.Datatrack.Local.{LocalTrack}
use server_sdk_go.Datatrack.Local.Pipeline.{
  Frame, seal, marshal_packets, try_push, pushed, try_push-Sent,
}
use server_sdk_go.Datatrack.Remote.Pipeline.{
  RemotePipeline, decrypt_frame, open_frame, opened, process_packet, and_then, run_pipeline,
  handle_packets,
}

module _ (dtp : Dtp) where
  open dtp use {Ext, E2ee, marshal, unmarshal}

  -- The frames of the depacketizer, opened.
  abbrev opens :
      Bool → Option (List ℕ → E2ee → Option (List ℕ)) → List (DepacketizerFrame dtp) → List Frame
  opens encrypted decryptor [] = []
  opens encrypted decryptor (f ∷ fs) =
      and_then (open_frame dtp encrypted decryptor f) (opens encrypted decryptor fs)

  delivered_cons :
      (packet : Packet Ext) (ps : List (Packet Ext)) (d : Depacketizer dtp) (m : ℕ)
      → delivered dtp (push_all dtp d (packet ∷ ps) m).1 ≡ elim (push dtp d packet m).1.frame [
        | none ↦ delivered dtp (push_all dtp (push dtp d packet m).0 ps m).1
        | some f ↦ f ∷ delivered dtp (push_all dtp (push dtp d packet m).0 ps m).1
      ]
  unfolding push_all delivered
  delivered_cons packet ps d m = refl

  run_pipeline-delivered :
      (ps : List (Packet Ext)) (p : RemotePipeline dtp) (m : ℕ)
      → run_pipeline dtp p ps m
        ≡ opens p.encrypted p.decryptor (delivered dtp (push_all dtp p.depacketizer ps m).1)
  unfolding run_pipeline process_packet push_all delivered opened
  run_pipeline-delivered [] p m = refl
  run_pipeline-delivered (packet ∷ ps) p m =
      let d' = (push dtp p.depacketizer packet m).0 in
      let ih = run_pipeline-delivered ps (record p { depacketizer = d' }) m in
      elim (Option-cases (push dtp p.depacketizer packet m).1.frame) [
        | inl e ↦ rw (delivered_cons packet ps p.depacketizer m, e, ih) refl
        | inr (f, e) ↦ rw (delivered_cons packet ps p.depacketizer m, e, ih) refl
      ]

  -- What `parsePacket` asks of a packet.
  abbrev IsRoutable : Packet Ext → Type 0
  IsRoutable packet =
      (packet.header.version ≡ supported_version) × ((packet.header.handle == 0) ≡ false)

  module _
      (reads : (packet : Packet Ext) (raw : List ℕ)
        → marshal packet ≡ some raw
        → unmarshal raw ≡ some packet) where
    parse_marshalled :
        (packet : Packet Ext) (raw : List ℕ)
        → IsRoutable packet
        → marshal packet ≡ some raw
        → parse_packet dtp raw ≡ parsed packet
    unfolding parse_packet
    parse_marshalled packet raw routable e =
        rw (reads packet raw e, parse_packet, routable.0, routable.1) refl

    handle_marshalled :
        (ps : List (Packet Ext)) (raws : List (List ℕ))
        → All IsRoutable ps
        → marshal_packets marshal ps ≡ some raws
        → handle_packets dtp raws ≡ ps
    unfolding marshal_packets handle_packets
    handle_marshalled [] raws routable e =
        let none_left : raws ≡ [] = ground arith in rw none_left refl
    handle_marshalled (packet ∷ ps) raws routable e = elim (Option-cases (marshal packet)) [
      | inl bad ↦ absurd (ground arith)
      | inr (raw, e1) ↦ elim (Option-cases (marshal_packets marshal ps)) [
        | inl bad ↦ absurd (ground arith)
        | inr (rest, e2) ↦
            let shape : raws ≡ raw ∷ rest = ground arith in
            rw (shape, handle_packets, parse_marshalled packet raw routable.0 e1)
              (ap (λ l. packet ∷ l) (handle_marshalled ps rest routable.1 e2))
      ]
    ]

  numbered-IsRoutable :
      (header : Header Ext) (index count sequence : ℕ) (chunks : List (List ℕ))
      → header.version ≡ supported_version
      → (header.handle == 0) ≡ false
      → All IsRoutable (number_packets header index count sequence chunks)
  unfolding number_packets apply_marker
  numbered-IsRoutable header index count sequence [] v h = tt
  numbered-IsRoutable header index count sequence (chunk ∷ chunks) v h =
      ((v, h), numbered-IsRoutable header (index + 1) count ((sequence + 1) % u16) chunks v h)

  packetized-IsRoutable :
      (laws : DtpLaws dtp) (p p' : Packetizer) (payload : List ℕ) (e : Extensions E2ee) (since : ℤ)
      (ps : List (Packet Ext))
      → (p.handle == 0) ≡ false
      → packetize dtp p payload e since ≡ (p', packets ps)
      → All IsRoutable ps
  unfolding initial_header
  packetized-IsRoutable laws p p' payload e since ps h done =
      let a = packetize-Accepted dtp p payload e since p' ps done in
      let first = initial_header dtp p (at p.clock since).1 in
      let rest : record a.header { extensions = [] } ≡ first =
        (extensions_of-apply dtp laws e first a.header
          (no_extensions_yet dtp p (at p.clock since).1) a.applied).1 in
      rw a.made (
        numbered-IsRoutable (record a.header { frame_number = p.frame_number }) 0 _ p.sequence _
          (ap (λ x. x.version) rest) (rw (ap (λ x. x.handle) rest) h))

  -- The receiver opens what the sender's encryptor makes of a payload, and that is not empty.
  abbrev pub IsOpenedBy :
      (List ℕ → Option (List ℕ × E2ee)) → (List ℕ → E2ee → Option (List ℕ)) → Type 0
  IsOpenedBy encrypt decrypt =
      (payload : List ℕ) (sealed : List ℕ × E2ee)
      → encrypt payload ≡ some sealed
      → (decrypt sealed.0 sealed.1 ≡ some payload) × (1 ≤ length sealed.0)

  sealed-open_frame :
      (has_encryptor : Bool) (encrypt : List ℕ → Option (List ℕ × E2ee))
      (decrypt : List ℕ → E2ee → Option (List ℕ)) (frame : Frame)
      (sealed : List ℕ × Extensions E2ee)
      → IsOpenedBy encrypt decrypt
      → 1 ≤ length frame.payload
      → seal dtp has_encryptor encrypt frame ≡ some sealed
      → (1 ≤ length sealed.0)
        × (open_frame dtp has_encryptor
              (some decrypt)
              (record { payload = sealed.0; extensions = sealed.1 })
            ≡ some frame)
  unfolding seal open_frame decrypt_frame
  sealed-open_frame false encrypt decrypt frame sealed opens_it long e =
      let shape : sealed
          ≡ (frame.payload, record { user_timestamp = frame.user_timestamp; e2ee = none }) =
        ground arith in
      rw shape (long, refl)
  sealed-open_frame true encrypt decrypt frame sealed opens_it long e =
      elim (Option-cases (encrypt frame.payload)) [
        | inl bad ↦ absurd (ground arith)
        | inr (s, made) ↦
            let shape : sealed
                ≡ (s.0, record { user_timestamp = frame.user_timestamp; e2ee = some s.1 }) =
              ground arith in
            let (back, long') = opens_it frame.payload s made in
            rw shape (long', rw (back, decrypt_frame) refl)
      ]

  -- A frame that `TryPush` turns into at most 128 packets is received: a subscriber's pipeline to
  -- which the packets come in order, whatever was there before, delivers exactly that frame. The
  -- payload is not empty, the packet format keeps its laws and reads what it marshalled, the
  -- receiver knows whether the track is encrypted and opens what the sender's encryptor sealed, and
  -- the track has a handle other than 0 and a sequence number of 16 bits.
  pub try_push-run_pipeline :
      (laws : DtpLaws dtp)
      (reads : (packet : Packet Ext) (raw : List ℕ)
        → marshal packet ≡ some raw
        → unmarshal raw ≡ some packet)
      (encrypt : List ℕ → Option (List ℕ × E2ee)) (decrypt : List ℕ → E2ee → Option (List ℕ))
      (frame : Frame) (since : ℤ) (t : LocalTrack) (raws : List (List ℕ))
      (depacketizer : Depacketizer dtp) (m : ℕ)
      → IsOpenedBy encrypt decrypt
      → 1 ≤ length frame.payload
      → t.packetizer.sequence < u16
      → (t.packetizer.handle == 0) ≡ false
      → (try_push dtp encrypt frame since t).1 ≡ pushed raws
      → length (handle_packets dtp raws) ≤ 128
      → run_pipeline dtp
          (record {
            encrypted = t.has_encryptor;
            decryptor = some decrypt;
            depacketizer = depacketizer;
          })
          (handle_packets dtp raws)
          m
        ≡ frame ∷ []
  try_push-run_pipeline laws reads encrypt decrypt frame since t raws d m opens_it long seq h done
        few =
      let (state, sent) = try_push-Sent dtp encrypt frame since t raws done in
      let (sealed, made, rest) = sent in
      let (ps, cut, out) = rest in
      let p = t.packetizer in
      let p' = (packetize dtp p sealed.0 sealed.1 since).0 in
      let whole : packetize dtp p sealed.0 sealed.1 since ≡ (p', packets ps) = ground arith in
      let routed =
        handle_marshalled reads ps raws
          (packetized-IsRoutable laws p p' sealed.0 sealed.1 since ps h whole) out in
      let (long', back) =
        sealed-open_frame t.has_encryptor encrypt decrypt frame sealed opens_it long made in
      rw
        (
          routed,
          run_pipeline-delivered ps _ m,
          packetize-delivered dtp laws p p' sealed.0 sealed.1 since ps d m seq long'
              (rw (← routed) few) whole,
          back,
        )
        refl
