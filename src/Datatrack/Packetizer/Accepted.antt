-- ===== src/Datatrack/Packetizer/Accepted.antt =====
-- What a successful `packetize` returned, and what it left in the packetizer.
use server_sdk_go.Prelude.{
  ℕ, suc, ◌+◌, ◌-◌, ◌%◌, ◌<◌, ◌≡◌, refl, ap, inl, inr, List, [], ◌∷◌, some, leb, Option-cases,
  Bool-cases, ℤ, length, arith,
}
use server_sdk_go.Datatrack.Clock.{at}
use server_sdk_go.Datatrack.Packet.{Dtp, Header, Packet, Extensions, apply}
use server_sdk_go.Datatrack.Packetizer.{
  u16, Packetizer, packets, number_packets, next_sequence, chunk_payload, packetize, packetize_with,
  initial_header,
}

module _ (dtp : Dtp) (p : Packetizer) (payload : List ℕ) (e : Extensions dtp.E2ee) (since : ℤ) where
  open dtp use {Ext, marshal_size}

  unfoldable pub chunks_of : Header Ext → List (List ℕ)
  chunks_of h = chunk_payload payload (p.mtu - marshal_size h)

  -- The marshalled header of an accepted frame, with what follows from it.
  pub record Accepted (p' : Packetizer) (ps : List (Packet Ext)) : Type 0 where
    pub header : Header Ext
    pub applied : apply dtp e (initial_header dtp p (at p.clock since).1) ≡ some header
    pub fits : marshal_size header < p.mtu
    pub made :
        ps
        ≡ number_packets
            (record header { frame_number = p.frame_number })
            0
            (length (chunks_of header))
            p.sequence
            (chunks_of header)
    pub next_frame : p'.frame_number ≡ (p.frame_number + 1) % u16
    pub next : p'.sequence ≡ next_sequence p.sequence (chunks_of header)

  Accepted-with :
      (h : Header Ext) (p' : Packetizer) (ps : List (Packet Ext))
      → apply dtp e (initial_header dtp p (at p.clock since).1) ≡ some h
      → packetize_with dtp (record p { clock = (at p.clock since).0 }) payload h ≡ (p', packets ps)
      → Accepted p' ps
  unfolding packetize_with chunks_of
  Accepted-with h p' ps applied done = elim (Bool-cases (leb p.mtu (marshal_size h))) [
    | inl short ↦ absurd (ground arith)
    | inr fits ↦ record {
      header = h;
      applied = applied;
      fits = ground arith;
      made = ground arith;
      next_frame = ground arith;
      next = ground arith;
    }
  ]

  pub packetize-Accepted :
      (p' : Packetizer) (ps : List (Packet Ext))
      → packetize dtp p payload e since ≡ (p', packets ps)
      → Accepted p' ps
  unfolding packetize
  packetize-Accepted p' ps done =
      elim (Option-cases (apply dtp e (initial_header dtp p (at p.clock since).1))) [
        | inl bad ↦ absurd (ground arith)
        | inr (h, applied) ↦ Accepted-with h p' ps applied (rw (applied, packetize) at done)
      ]

pub length-number_packets :
    {Ext : Type 0} (chunks : List (List ℕ)) (h : Header Ext) (i n s : ℕ)
    → length (number_packets h i n s chunks) ≡ length chunks
unfolding number_packets
length-number_packets [] h i n s = refl
length-number_packets (c ∷ cs) h i n s =
    ap suc (length-number_packets cs h (i + 1) n ((s + 1) % u16))
