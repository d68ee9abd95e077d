-- ===== src/Datatrack/Depacketizer/RoundTrip.antt =====
-- From the packetizer through the depacketizer: internal/datatrack/packetizer.go and
-- depacketizer.go together.
use server_sdk_go.Prelude.{
  ℕ, ◌+◌, ◌-◌, ◌%◌, ◌≤◌, ◌<◌, ◌≡◌, refl, sym, ap, ◌∙◌, false, List, [], ◌∷◌, ◌++◌, none, some, leb,
  ==_refl, ℤ, length, joined, lookup, insert, lookup-insert, length-append, append_assoc,
  append-nil, arith,
}
use server_sdk_go.Datatrack.Clock.{at}
use server_sdk_go.Datatrack.Packet.{
  Dtp, Header, Packet, FrameMarker, inter, start, final, single, Extensions, marker_of,
  apply_marker, extensions_of,
}
use server_sdk_go.Datatrack.Packet.Codec.{DtpLaws, extensions_of-apply}
use server_sdk_go.Datatrack.Packetizer.{
  u16, Packetizer, frame_marker, number_packets, packets, packetize, initial_header,
}
use server_sdk_go.Datatrack.Packetizer.Accepted.{
  packetize-Accepted, chunks_of, length-number_packets,
}
use server_sdk_go.Datatrack.Packetizer.Chunks.{chunk_payload_lem}
use server_sdk_go.Datatrack.Depacketizer.{
  DepacketizerFrame, PushResult, Depacketizer, nothing, frame_from_single, begin_partial,
  store_partial, new_partial, push_known, push_to_partial, push_marked, push, push_all, delivered,
  finalize,
}
use server_sdk_go.Datatrack.Depacketizer.Assembly.{
  numbered, in_order, insert-numbered, finalize-numbered, length-numbered,
}

module _ (dtp : Dtp) (header : Header dtp.Ext) (m : ℕ) where
  open dtp use {Ext}

  abbrev ext : Extensions dtp.E2ee
  ext = extensions_of dtp header

  -- The packet that the packetizer makes of a chunk.
  abbrev made : FrameMarker → ℕ → List ℕ → Packet Ext
  made mark sequence chunk = record {
    header = record (apply_marker mark header) { sequence_number = sequence };
    payload = chunk;
  }

  marker_of-made :
      (mark : FrameMarker) (s : ℕ) (c : List ℕ) → marker_of (made mark s c).header ≡ mark
  unfolding marker_of apply_marker
  marker_of-made inter s c = refl
  marker_of-made start s c = refl
  marker_of-made final s c = refl
  marker_of-made single s c = refl

  extensions_of-made :
      (mark : FrameMarker) (s : ℕ) (c : List ℕ) → extensions_of dtp (made mark s c).header ≡ ext
  unfolding extensions_of apply_marker
  extensions_of-made mark s c = refl

  frame_number-made :
      (mark : FrameMarker) (s : ℕ) (c : List ℕ)
      → (made mark s c).header.frame_number ≡ header.frame_number
  unfolding apply_marker
  frame_number-made mark s c = refl

  push-made :
      (d : Depacketizer dtp) (mark : FrameMarker) (s : ℕ) (c : List ℕ)
      → push dtp d (made mark s c) m ≡ push_marked dtp mark d (made mark s c) m
  unfolding push
  push-made d mark s c = rw (marker_of-made mark s c)

  -- The depacketizer holds the chunks `cs` of the frame, from sequence number `s` on.
  abbrev Holds : Depacketizer dtp → ℕ → List (List ℕ) → Type 0
  Holds d s cs = lookup header.frame_number d.partials ≡ some (in_order dtp ext s cs)

  -- The state after one more of the frame's packets.
  grown : Depacketizer dtp → ℕ → List (List ℕ) → List ℕ → Depacketizer dtp
  grown d s cs c = record d {
    partials = insert header.frame_number (in_order dtp ext s (cs ++ (c ∷ []))) d.partials;
  }

  module _ (d : Depacketizer dtp) (s k : ℕ) (cs : List (List ℕ)) (c : List ℕ) (hs : s < u16)
      (hl : length cs < 128) (e : k ≡ (s + length cs) % u16) (held : Holds d s cs) where
    room : leb 128 (length (numbered s cs)) ≡ false
    room = ground (arith, length-numbered s cs)

    push_known-made :
        (mark : FrameMarker)
        → push_marked dtp mark d (made mark k c) m ≡ push_to_partial dtp d (made mark k c)
        → push dtp d (made mark k c) m
          ≡ push_known dtp d (made mark k c) (in_order dtp ext s cs) mark
    unfolding push_to_partial apply_marker
    push_known-made mark to_partial =
        push-made d mark k c
        ∙ to_partial
        ∙ rw (held, push_to_partial)
            (ap (λ q. push_known dtp d (made mark k c) (in_order dtp ext s cs) q)
              (marker_of-made mark k c))

    push_inter : push dtp d (made inter k c) m ≡ (grown d s cs c, nothing dtp)
    unfolding push_known push_marked apply_marker grown
    push_inter =
        push_known-made inter refl
        ∙ rw (room, push_known) (rw (insert-numbered cs s k c hs (omega arith) e) refl)

    push_final :
        (push dtp d (made final k c) m).1
        ≡ finalize dtp header.frame_number (in_order dtp ext s (cs ++ (c ∷ []))) k
    unfolding push_known push_marked apply_marker
    push_final =
        ap (λ r. r.1) (push_known-made final refl)
        ∙ rw (room, push_known) (rw (insert-numbered cs s k c hs (omega arith) e) refl)

    grown-Holds : Holds (grown d s cs c) s (cs ++ (c ∷ []))
    unfolding grown
    grown-Holds =
        lookup-insert header.frame_number header.frame_number _ d.partials
        ∙ rw (==_refl header.frame_number)

  abbrev frame_of : List ℕ → DepacketizerFrame dtp
  frame_of payload = record { payload = payload; extensions = ext }

  abbrev out_of : Depacketizer dtp → List (Packet Ext) → List (DepacketizerFrame dtp)
  out_of d ps = delivered dtp (push_all dtp d ps m).1

  silent_push :
      (d d' : Depacketizer dtp) (r : PushResult dtp) (p : Packet Ext) (ps : List (Packet Ext))
      → push dtp d p m ≡ (d', r)
      → r.frame ≡ none
      → out_of d (p ∷ ps) ≡ out_of d' ps
  unfolding push_all delivered
  silent_push d d' r p ps e none_out =
      ap
        (λ (q : Depacketizer dtp × PushResult dtp). delivered dtp (q.1 ∷ (push_all dtp q.0 ps m).1))
        e
      ∙ rw (none_out, delivered) refl

  last_push :
      (d : Depacketizer dtp) (p : Packet Ext) (f : DepacketizerFrame dtp)
      → (push dtp d p m).1.frame ≡ some f
      → out_of d (p ∷ []) ≡ f ∷ []
  unfolding push_all delivered
  last_push d p f e = rw (e, delivered) refl

  marker_final : (i n : ℕ) → 1 ≤ i → n ≡ i + 1 → frame_marker i n ≡ final
  unfolding frame_marker
  marker_final i n h e = ground arith

  marker_inter : (i n : ℕ) → 1 ≤ i → i + 1 < n → frame_marker i n ≡ inter
  unfolding frame_marker
  marker_inter i n h e = ground arith

  -- From the second packet of a frame on, the rest of its packets give the frame.
  rest_delivered :
      (cs : List (List ℕ)) (c b : List ℕ) (bs : List (List ℕ)) (d : Depacketizer dtp) (s k i n : ℕ)
      → s < u16
      → i ≡ length (b ∷ bs)
      → n ≡ i + length (c ∷ cs)
      → n ≤ 128
      → k ≡ (s + i) % u16
      → Holds d s (b ∷ bs)
      → out_of d (number_packets header i n k (c ∷ cs))
        ≡ frame_of (joined ((b ∷ bs) ++ (c ∷ cs))) ∷ []
  unfolding number_packets
  rest_delivered [] c b bs d s k i n hs ei en hn ek held =
      rw (marker_final i n (omega arith) (omega arith)) (
        last_push d (made final k c) _ (
          ap (λ (r : PushResult dtp). r.frame)
            (push_final d s k (b ∷ bs) c hs (omega arith) (omega arith) held
              ∙ finalize-numbered dtp ext header.frame_number s b (bs ++ (c ∷ [])) k hs
                  (omega (arith, length-append bs (c ∷ [])))
                  (omega (arith, length-append bs (c ∷ []))))))
  rest_delivered (a ∷ cs) c b bs d s k i n hs ei en hn ek held =
      rw (marker_inter i n (omega arith) (omega arith)) (
        silent_push d (grown d s (b ∷ bs) c) _ (made inter k c) _
          (push_inter d s k (b ∷ bs) c hs (omega arith) (omega arith) held) refl
        ∙ rest_delivered cs a b (bs ++ (c ∷ [])) _ s _ (i + 1) n hs
            (omega (arith, length-append bs (c ∷ []))) (omega arith) hn (omega arith)
            (grown-Holds d s k (b ∷ bs) c hs (omega arith) (omega arith) held)
        ∙ ap (λ l. frame_of (joined (b ∷ l)) ∷ []) (append_assoc bs (c ∷ []) (a ∷ cs)))

  marker_start : (n : ℕ) → 1 < n → frame_marker 0 n ≡ start
  unfolding frame_marker
  marker_start n h = ground arith

  begun : Depacketizer dtp → ℕ → List ℕ → Depacketizer dtp × PushResult dtp
  unfolding push_marked
  begun d s c = begin_partial dtp d (made start s c) m

  begun-Holds : (d : Depacketizer dtp) (s : ℕ) (c : List ℕ) → Holds (begun d s c).0 s (c ∷ [])
  unfolding begun begin_partial store_partial new_partial apply_marker extensions_of
  begun-Holds d s c =
      lookup-insert header.frame_number header.frame_number _ _ ∙ rw (==_refl header.frame_number)

  push_start :
      (d : Depacketizer dtp) (s : ℕ) (c : List ℕ) → push dtp d (made start s c) m ≡ begun d s c
  unfolding begun push_marked
  push_start d s c = push-made d start s c

  begun_silent : (d : Depacketizer dtp) (s : ℕ) (c : List ℕ) → (begun d s c).1.frame ≡ none
  unfolding begun begin_partial
  begun_silent d s c = refl

  marker_single : (n : ℕ) → n ≤ 1 → frame_marker 0 n ≡ single
  unfolding frame_marker
  marker_single n h = ground arith

  push_single :
      (d : Depacketizer dtp) (s : ℕ) (c : List ℕ)
      → (push dtp d (made single s c) m).1.frame ≡ some (frame_of c)
  unfolding push_marked frame_from_single apply_marker extensions_of
  push_single d s c =
      ap (λ (r : Depacketizer dtp × PushResult dtp). r.1.frame) (push-made d single s c)

  -- The packets of a frame, pushed in order into any state, give the frame once and nothing else.
  all_delivered :
      (c : List ℕ) (cs : List (List ℕ)) (d : Depacketizer dtp) (s n : ℕ)
      → s < u16
      → n ≡ length (c ∷ cs)
      → n ≤ 128
      → out_of d (number_packets header 0 n s (c ∷ cs)) ≡ frame_of (joined (c ∷ cs)) ∷ []
  unfolding number_packets
  all_delivered c [] d s n hs en hn = rw (marker_single n (omega arith)) (
      last_push d (made single s c) (frame_of c) (push_single d s c)
      ∙ ap (λ l. frame_of l ∷ []) (sym (append-nil c)))
  all_delivered c (b ∷ cs) d s n hs en hn = rw (marker_start n (omega arith)) (
      silent_push d (begun d s c).0 (begun d s c).1 (made start s c) _ (push_start d s c)
        (begun_silent d s c)
      ∙ rest_delivered cs b c [] (begun d s c).0 s _ 1 n hs refl (omega arith) hn refl
          (begun-Holds d s c))

frame_delivered :
    (dtp : Dtp) (h : Header dtp.Ext) (m : ℕ) (chunks : List (List ℕ)) (payload : List ℕ)
    (d : Depacketizer dtp) (s : ℕ)
    → joined chunks ≡ payload
    → 1 ≤ length payload
    → length chunks ≤ 128
    → s < u16
    → delivered dtp (push_all dtp d (number_packets h 0 (length chunks) s chunks) m).1
      ≡ record { payload = payload; extensions = extensions_of dtp h } ∷ []
frame_delivered dtp h m [] payload d s whole hp hl hs = absurd (omega (arith, ap length whole))
frame_delivered dtp h m (c ∷ cs) payload d s whole hp hl hs =
    all_delivered dtp h m c cs d s (length (c ∷ cs)) hs refl hl
    ∙ ap (λ l. record { payload = l; extensions = extensions_of dtp h } ∷ []) whole

pub no_extensions_yet :
    (dtp : Dtp) (p : Packetizer) (t : ℕ) → (initial_header dtp p t).extensions ≡ []
unfolding initial_header
no_extensions_yet dtp p t = refl

-- A frame that `packetize` accepted, of one byte at least and in 128 packets at most, is delivered
-- whole by pushing its packets in order: exactly once, with its payload and its extensions, whatever
-- the depacketizer held before and whatever the limit of frames assembled at a time. The packet
-- format keeps its laws, and the packetizer's sequence number is one of 16 bits.
pub packetize-delivered :
    (dtp : Dtp) (laws : DtpLaws dtp) (p p' : Packetizer) (payload : List ℕ)
    (e : Extensions dtp.E2ee) (since : ℤ) (ps : List (Packet dtp.Ext)) (d : Depacketizer dtp)
    (m : ℕ)
    → p.sequence < u16
    → 1 ≤ length payload
    → length ps ≤ 128
    → packetize dtp p payload e since ≡ (p', packets ps)
    → delivered dtp (push_all dtp d ps m).1 ≡ record { payload = payload; extensions = e } ∷ []
unfolding extensions_of
packetize-delivered dtp laws p p' payload e since ps d m hs hp hl done =
    let a = packetize-Accepted dtp p payload e since p' ps done in
    let chunks = chunks_of dtp p payload e since a.header in
    let h = record a.header { frame_number = p.frame_number } in
    let same : extensions_of dtp h ≡ e =
      (extensions_of-apply dtp laws e (initial_header dtp p (at p.clock since).1) a.header
        (no_extensions_yet dtp p (at p.clock since).1) a.applied).0 in
    let whole : joined chunks ≡ payload =
      unfold chunks_of in
      (chunk_payload_lem payload (p.mtu - dtp.marshal_size a.header) (omega (arith, a.fits))).0 in
    rw a.made (
      frame_delivered dtp h m chunks payload d p.sequence whole hp
        (omega
          (arith, length-number_packets chunks h 0 (length chunks) p.sequence, ap length a.made))
        hs
      ∙ rw same)
