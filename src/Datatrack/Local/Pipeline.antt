-- ===== src/Datatrack/Local/Pipeline.antt =====
-- `localPipeline` and `LocalTrack.TryPush`, in internal/datatrack/local.go. The encryptor is other
-- code: `encrypt` is what it answers for a payload, `none` where it returns an error.
use server_sdk_go.Prelude.{
  ℕ, Bool, true, false, ◌≡◌, ◌⊎◌, refl, List, [], ◌∷◌, Option, none, some, Option-cases, ℤ, arith,
  inl, inr,
}
use server_sdk_go.Datatrack.Packet.{Dtp, Packet, Extensions}
use server_sdk_go.Datatrack.Packetizer.{
  Packetizer, PacketizeError, packets, failed, PacketizeResult, packetize,
}
use server_sdk_go.Datatrack.Local.{LocalTrack, PublishState, published, republishing, unpublished}

-- `datatrack.Frame`
pub record Frame : Type 0 where
  pub payload : List ℕ
  pub user_timestamp : Option ℕ

pub data PushError : Type 0 where
  queue_full push_unpublished encrypt_failed marshal_failed : PushError
  packetize_failed : PacketizeError → PushError

pub data TryPushResult : Type 0 where
  pushed : List (List ℕ) → TryPushResult
  push_failed : PushError → TryPushResult

-- `marshalPackets`; `none` is the error of the first packet that has one.
unfoldable pub marshal_packets :
    {A : Type 0} → (A → Option (List ℕ)) → List A → Option (List (List ℕ))
marshal_packets marshal [] = some []
marshal_packets marshal (p ∷ ps) = elim (marshal p) [
  | none ↦ none
  | some buf ↦ elim (marshal_packets marshal ps) [ none ↦ none | some raw ↦ some (buf ∷ raw) ]
]

pub state-cases : (s : PublishState) → (s ≡ published) ⊎ ((s ≡ republishing) ⊎ (s ≡ unpublished))
state-cases published = inl refl
state-cases republishing = inr (inl refl)
state-cases unpublished = inr (inr refl)

module _ (dtp : Dtp) where
  open dtp use {Ext, E2ee, marshal}

  -- The payload and the extensions that go on to the packetizer; `none` is the encryptor's error.
  unfoldable pub seal :
      Bool → (List ℕ → Option (List ℕ × E2ee)) → Frame → Option (List ℕ × Extensions E2ee)
  seal false encrypt frame =
      some (frame.payload, record { user_timestamp = frame.user_timestamp; e2ee = none })
  seal true encrypt frame = elim (encrypt frame.payload) [
    | none ↦ none
    | some sealed ↦
        some (sealed.0, record { user_timestamp = frame.user_timestamp; e2ee = some sealed.1 })
  ]

  unfoldable pub marshalled : PacketizeResult Ext → TryPushResult
  marshalled (failed e) = push_failed (packetize_failed e)
  marshalled (packets ps) = elim (marshal_packets marshal ps) [
    | none ↦ push_failed marshal_failed
    | some raw ↦ pushed raw
  ]

  unfoldable pub process_frame :
      Bool → (List ℕ → Option (List ℕ × E2ee)) → Frame → ℤ → Packetizer → Packetizer × TryPushResult
  process_frame has_encryptor encrypt frame since p = elim (seal has_encryptor encrypt frame) [
    | none ↦ (p, push_failed encrypt_failed)
    | some sealed ↦
        let done = packetize dtp p sealed.0 sealed.1 since in (done.0, marshalled done.1)
  ]

  -- The packets of `pushed` are given to the transport.
  unfoldable pub try_push :
      (List ℕ → Option (List ℕ × E2ee)) → Frame → ℤ → LocalTrack → LocalTrack × TryPushResult
  try_push encrypt frame since t = elim t.state [
    | republishing ↦ (t, push_failed queue_full)
    | unpublished ↦ (t, push_failed push_unpublished)
    | published ↦
        let done = process_frame t.has_encryptor encrypt frame since t.packetizer in
        (record t { packetizer = done.0 }, done.1)
  ]

  marshalled-pushed :
      (r : PacketizeResult Ext) (raw : List (List ℕ))
      → marshalled r ≡ pushed raw
      → (ps : List (Packet Ext)) × (r ≡ packets ps) × (marshal_packets marshal ps ≡ some raw)
  unfolding marshalled
  marshalled-pushed (failed e) raw h = absurd (ground arith)
  marshalled-pushed (packets ps) raw h = elim (Option-cases (marshal_packets marshal ps)) [
    | inl bad ↦ absurd (ground arith)
    | inr (out, e) ↦ (ps, refl, ground arith)
  ]

  -- What a frame that gives packets went through.
  abbrev pub Sent :
      Bool → (List ℕ → Option (List ℕ × E2ee)) → Frame → ℤ → Packetizer → List (List ℕ) → Type 0
  Sent has_encryptor encrypt frame since p raw =
      (sealed : List ℕ × Extensions E2ee) × (seal has_encryptor encrypt frame ≡ some sealed)
      × ((ps : List (Packet Ext)) × ((packetize dtp p sealed.0 sealed.1 since).1 ≡ packets ps)
          × (marshal_packets marshal ps ≡ some raw))

  process_frame-Sent :
      (has_encryptor : Bool) (encrypt : List ℕ → Option (List ℕ × E2ee)) (frame : Frame) (since : ℤ)
      (p : Packetizer) (raw : List (List ℕ))
      → (process_frame has_encryptor encrypt frame since p).1 ≡ pushed raw
      → Sent has_encryptor encrypt frame since p raw
  unfolding process_frame
  process_frame-Sent has_encryptor encrypt frame since p raw h =
      elim (Option-cases (seal has_encryptor encrypt frame)) [
        | inl bad ↦ absurd (ground arith)
        | inr (sealed, e) ↦ (
          sealed,
          e,
          marshalled-pushed (packetize dtp p sealed.0 sealed.1 since).1 raw (ground arith),
        )
      ]

  -- `TryPush` gives packets only on a track that is published; they are then the marshalled packets
  -- that the packetizer cuts from what the encryptor returned, or from the payload itself on a track
  -- without an encryptor.
  pub try_push-Sent :
      (encrypt : List ℕ → Option (List ℕ × E2ee)) (frame : Frame) (since : ℤ) (t : LocalTrack)
      (raw : List (List ℕ))
      → (try_push encrypt frame since t).1 ≡ pushed raw
      → (t.state ≡ published) × Sent t.has_encryptor encrypt frame since t.packetizer raw
  unfolding try_push
  try_push-Sent encrypt frame since t raw h = elim (state-cases t.state) [
    | inl e ↦
        (e, process_frame-Sent t.has_encryptor encrypt frame since t.packetizer raw (ground arith))
    | inr (inl e) ↦ absurd (ground arith)
    | inr (inr e) ↦ absurd (ground arith)
  ]
