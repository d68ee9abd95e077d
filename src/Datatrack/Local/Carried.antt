-- ===== src/Datatrack/Local/Carried.antt =====
-- What the packets of `LocalTrack.TryPush` carry, in internal/datatrack/local.go.
use server_sdk_go.Prelude.{
  ℕ, ◌+◌, ◌-◌, ◌%◌, ◌≡◌, refl, ap, ◌∙◌, Bool, true, false, List, [], ◌∷◌, Option, none, some,
  Option-cases, inl, inr, joined, All, ℤ, arith,
}
use server_sdk_go.Datatrack.Clock.{at}
use server_sdk_go.Datatrack.Packet.{Dtp, Header, Packet, Extensions, apply_marker, extensions_of}
use server_sdk_go.Datatrack.Packet.Codec.{DtpLaws, extensions_of-apply}
use server_sdk_go.Datatrack.Packetizer.{
  u16, Packetizer, number_packets, packets, packetize, initial_header,
}
use server_sdk_go.Datatrack.Packetizer.Accepted.{packetize-Accepted, chunks_of}
use server_sdk_go.Datatrack.Packetizer.Chunks.{chunk_payload_lem}
use server_sdk_go.Datatrack.Depacketizer.RoundTrip.{no_extensions_yet}
use server_sdk_go.Datatrack.Local.{LocalTrack, published}
use server_sdk_go.Datatrack.Local.Pipeline.{
  Frame, seal, marshal_packets, try_push, pushed, try_push-Sent,
}

-- The bytes of each packet are what it is marshalled to.
abbrev pub AllWritten : {A : Type 0} → (A → Option (List ℕ)) → List A → List (List ℕ) → Type 0
AllWritten marshal [] [] = Unit
AllWritten marshal [] (raw ∷ raws) = ⊥
AllWritten marshal (p ∷ ps) [] = ⊥
AllWritten marshal (p ∷ ps) (raw ∷ raws) = (marshal p ≡ some raw) × AllWritten marshal ps raws

marshal_packets-AllWritten :
    {A : Type 0} (marshal : A → Option (List ℕ)) (ps : List A) (raws : List (List ℕ))
    → marshal_packets marshal ps ≡ some raws
    → AllWritten marshal ps raws
unfolding marshal_packets
marshal_packets-AllWritten marshal [] [] e = tt
marshal_packets-AllWritten marshal [] (raw ∷ raws) e = absurd (ground arith)
marshal_packets-AllWritten marshal (p ∷ ps) raws e = elim (Option-cases (marshal p)) [
  | inl bad ↦ absurd (ground arith)
  | inr (raw, e1) ↦ elim (Option-cases (marshal_packets marshal ps)) [
    | inl bad ↦ absurd (ground arith)
    | inr (rest, e2) ↦
        let shape : raws ≡ raw ∷ rest = ground arith in
        rw shape (e1, marshal_packets-AllWritten marshal ps rest e2)
  ]
]

module _ (dtp : Dtp) where
  open dtp use {Ext, E2ee, marshal}

  abbrev pub payloads : List (Packet Ext) → List (List ℕ)
  payloads [] = []
  payloads (p ∷ ps) = p.payload ∷ payloads ps

  -- The bytes that go out for a payload: what the encryptor made of it, with what the receiver needs
  -- to open it, or the payload itself on a track without an encryptor.
  abbrev pub IsSealed :
      Bool → (List ℕ → Option (List ℕ × E2ee)) → List ℕ → List ℕ → Option E2ee → Type 0
  IsSealed true encrypt plain bytes e2ee =
      (x : E2ee) × (encrypt plain ≡ some (bytes, x)) × (e2ee ≡ some x)
  IsSealed false encrypt plain bytes e2ee = (bytes ≡ plain) × (e2ee ≡ none)

  pub record IsCarried (t : LocalTrack) (encrypt : List ℕ → Option (List ℕ × E2ee)) (frame : Frame)
      (raws : List (List ℕ)) : Type 0 where
    pub bytes : List ℕ
    pub e2ee : Option E2ee
    pub sent : List (Packet Ext)
    pub is_published : t.state ≡ published
    pub sealed : IsSealed t.has_encryptor encrypt frame.payload bytes e2ee
    pub whole : joined (payloads sent) ≡ bytes
    pub told :
        All
          (λ (p : Packet Ext).
            (extensions_of dtp p.header
              ≡ record { user_timestamp = frame.user_timestamp; e2ee = e2ee })
            × (p.header.handle ≡ t.packetizer.handle))
          sent
    pub written : AllWritten marshal sent raws

  seal-IsSealed :
      (has_encryptor : Bool) (encrypt : List ℕ → Option (List ℕ × E2ee)) (frame : Frame)
      (sealed : List ℕ × Extensions E2ee)
      → seal dtp has_encryptor encrypt frame ≡ some sealed
      → IsSealed has_encryptor encrypt frame.payload sealed.0 sealed.1.e2ee
        × (sealed.1.user_timestamp ≡ frame.user_timestamp)
  unfolding seal
  seal-IsSealed false encrypt frame sealed e =
      let shape : sealed
          ≡ (frame.payload, record { user_timestamp = frame.user_timestamp; e2ee = none }) =
        ground arith in
      rw shape ((refl, refl), refl)
  seal-IsSealed true encrypt frame sealed e = elim (Option-cases (encrypt frame.payload)) [
    | inl bad ↦ absurd (ground arith)
    | inr (s, made) ↦
        let shape : sealed
            ≡ (s.0, record { user_timestamp = frame.user_timestamp; e2ee = some s.1 }) =
          ground arith in
        rw shape ((s.1, made, refl), refl)
  ]

  payloads-number_packets :
      (h : Header Ext) (i n s : ℕ) (chunks : List (List ℕ))
      → payloads (number_packets h i n s chunks) ≡ chunks
  unfolding number_packets
  payloads-number_packets h i n s [] = refl
  payloads-number_packets h i n s (c ∷ cs) =
      ap (λ l. c ∷ l) (payloads-number_packets h (i + 1) n ((s + 1) % u16) cs)

  numbered_told :
      (e : Extensions E2ee) (handle : ℕ) (h : Header Ext) (i n s : ℕ) (chunks : List (List ℕ))
      → extensions_of dtp h ≡ e
      → h.handle ≡ handle
      → All
          (λ (p : Packet Ext). (extensions_of dtp p.header ≡ e) × (p.header.handle ≡ handle))
          (number_packets h i n s chunks)
  unfolding number_packets apply_marker extensions_of
  numbered_told e handle h i n s [] same own = tt
  numbered_told e handle h i n s (c ∷ cs) same own =
      ((same, own), numbered_told e handle h (i + 1) n ((s + 1) % u16) cs same own)

  -- What the packets of a frame carry that the packetizer accepted.
  packetize_told :
      (laws : DtpLaws dtp) (p p' : Packetizer) (bytes : List ℕ) (e : Extensions E2ee) (since : ℤ)
      (ps : List (Packet Ext))
      → packetize dtp p bytes e since ≡ (p', packets ps)
      → (joined (payloads ps) ≡ bytes)
        × All
            (λ (q : Packet Ext). (extensions_of dtp q.header ≡ e) × (q.header.handle ≡ p.handle))
            ps
  unfolding initial_header chunks_of extensions_of
  packetize_told laws p p' bytes e since ps done =
      let a = packetize-Accepted dtp p bytes e since p' ps done in
      let first = initial_header dtp p (at p.clock since).1 in
      let (read, rest) =
        extensions_of-apply dtp laws e first a.header (no_extensions_yet dtp p (at p.clock since).1)
          a.applied in
      rw a.made (
        ap joined (payloads-number_packets _ 0 _ p.sequence _)
            ∙ (chunk_payload_lem bytes (p.mtu - dtp.marshal_size a.header)
                (omega (arith, a.fits))).0,
        numbered_told e p.handle _ 0 _ p.sequence _ read (ap (λ x. x.handle) rest),
      )

  -- Where `TryPush` gives packets, the track is published; the packets, each of which is written as
  -- its bytes and has the track's handle and the frame's timestamp, carry together exactly what the
  -- encryptor made of the payload, and each says how to open it, or, on a track without an encryptor,
  -- the payload itself. The packet format keeps its laws.
  pub try_push-IsCarried :
      (laws : DtpLaws dtp) (encrypt : List ℕ → Option (List ℕ × E2ee)) (frame : Frame) (since : ℤ)
      (t : LocalTrack) (raws : List (List ℕ))
      → (try_push dtp encrypt frame since t).1 ≡ pushed raws
      → IsCarried t encrypt frame raws
  try_push-IsCarried laws encrypt frame since t raws done =
      let (state, sent) = try_push-Sent dtp encrypt frame since t raws done in
      let (sealed, made, rest) = sent in
      let (ps, cut, out) = rest in
      let (sealed', stamped) = seal-IsSealed t.has_encryptor encrypt frame sealed made in
      let p' = (packetize dtp t.packetizer sealed.0 sealed.1 since).0 in
      let cut' : packetize dtp t.packetizer sealed.0 sealed.1 since ≡ (p', packets ps) =
        ground arith in
      let (whole', told') = packetize_told laws t.packetizer p' sealed.0 sealed.1 since ps cut' in
      record {
        bytes = sealed.0;
        e2ee = sealed.1.e2ee;
        sent = ps;
        is_published = state;
        sealed = sealed';
        whole = whole';
        told = rw (← stamped) told';
        written = marshal_packets-AllWritten marshal ps raws out;
      }
