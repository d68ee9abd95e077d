-- ===== src/Datatrack/Remote/Pipeline.antt =====
-- `remotePipeline` of internal/datatrack/remote.go, and the way of a packet to it. The decryptor is
-- other code: what it answers is an argument, `none` where it returns an error.
use server_sdk_go.Prelude.{ℕ, Bool, true, false, List, [], ◌∷◌, Option, none, some}
use server_sdk_go.Datatrack.Packet.{Dtp, Packet, parse_packet, parsed, refused}
use server_sdk_go.Datatrack.Depacketizer.{Depacketizer, DepacketizerFrame, push}
use server_sdk_go.Datatrack.Local.Pipeline.{Frame}

abbrev pub and_then : Option Frame → List Frame → List Frame
and_then none frames = frames
and_then (some f) frames = f ∷ frames

module _ (dtp : Dtp) where
  open dtp use {Ext, E2ee}

  -- A nil decryptor is `none`; the loggers are left out.
  pub record RemotePipeline : Type 0 where
    pub encrypted : Bool
    pub decryptor : Option (List ℕ → E2ee → Option (List ℕ))
    pub depacketizer : Depacketizer dtp

  unfoldable pub decrypt_frame :
      Option (List ℕ → E2ee → Option (List ℕ)) → Option E2ee → Frame → Option Frame
  decrypt_frame none e2ee frame = none
  decrypt_frame (some decrypt) none frame = none
  decrypt_frame (some decrypt) (some e2ee) frame = elim (decrypt frame.payload e2ee) [
    | none ↦ none
    | some payload ↦ some (record frame { payload = payload })
  ]

  -- The part of `processPacket` behind the depacketizer.
  unfoldable pub open_frame :
      Bool → Option (List ℕ → E2ee → Option (List ℕ)) → DepacketizerFrame dtp → Option Frame
  open_frame false decryptor f =
      some (record { payload = f.payload; user_timestamp = f.extensions.user_timestamp })
  open_frame true decryptor f =
      decrypt_frame decryptor f.extensions.e2ee
        (record { payload = f.payload; user_timestamp = f.extensions.user_timestamp })

  unfoldable pub opened :
      Bool
      → Option (List ℕ → E2ee → Option (List ℕ))
      → Option (DepacketizerFrame dtp)
      → Option Frame
  opened encrypted decryptor none = none
  opened encrypted decryptor (some f) = open_frame encrypted decryptor f

  unfoldable pub process_packet : RemotePipeline → Packet Ext → ℕ → RemotePipeline × Option Frame
  process_packet p packet max_partial_frames =
      let (depacketizer, result) = push dtp p.depacketizer packet max_partial_frames in
      (record p { depacketizer = depacketizer }, opened p.encrypted p.decryptor result.frame)

  -- The loop of `runPipeline`: the frames that every stream gets.
  unfoldable pub run_pipeline : RemotePipeline → List (Packet Ext) → ℕ → List Frame
  run_pipeline p [] max_partial_frames = []
  run_pipeline p (packet ∷ packets) max_partial_frames =
      let (p', frame) = process_packet p packet max_partial_frames in
      let rest = run_pipeline p' packets max_partial_frames in and_then frame rest

  -- The packets that `HandlePacket` hands on from what the data channel brings.
  unfoldable pub handle_packets : List (List ℕ) → List (Packet Ext)
  handle_packets [] = []
  handle_packets (raw ∷ rest) = elim (parse_packet dtp raw) [
    | refused e ↦ handle_packets rest
    | parsed packet ↦ packet ∷ handle_packets rest
  ]
