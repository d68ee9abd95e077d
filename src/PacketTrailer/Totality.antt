-- ===== src/PacketTrailer/Totality.antt =====
-- `parsePacketTrailer` and `stripPacketTrailer` on any slice, also one that no writer made.
use server_sdk_go.Prelude.{
  ℕ, zero, suc, ◌+◌, ◌-◌, ◌≤◌, ◌≡◌, ◌≢◌, inl, inr, Bool, true, false, List, some, length, take,
  bit_xor, sym, ap, arith, length-take, take-all, Option-cases,
}
use server_sdk_go.PacketTrailer.{
  FrameMetadata, no_metadata, found, absent, stuck, read_element, tlv_loop, trailer_length,
  parse_packet_trailer, strip_packet_trailer,
}

-- On any loop state the fuel is enough: a round moves `pos` by two at least.
tlv_loop-ne-stuck :
    (fuel : ℕ) (region : ℕ → ℕ) (n pos : ℕ) (meta : FrameMetadata) (any : Bool)
    → n ≤ pos + fuel
    → tlv_loop fuel region n pos meta any ≢ stuck
unfolding tlv_loop
tlv_loop-ne-stuck zero region n pos meta true h e = ground arith
tlv_loop-ne-stuck zero region n pos meta false h e = ground arith
tlv_loop-ne-stuck (suc fuel) region n pos meta any h e =
    let len = bit_xor (region (pos + 1)) 0xff in
    let next = read_element region (bit_xor (region pos) 0xff) len (pos + 2) meta any in
    ground (arith, tlv_loop-ne-stuck fuel region n (pos + 2 + len) next.0 next.1)

-- `parsePacketTrailer` ends on every slice: its loop never uses up the fuel of the model.
pub parse_packet_trailer-ne-stuck : (d : List ℕ) → parse_packet_trailer d ≢ stuck
unfolding parse_packet_trailer
parse_packet_trailer-ne-stuck d = elim (Option-cases (trailer_length d)) [
  | inl e ↦ rw (e, parse_packet_trailer) (λ p. cc)
  | inr (n, e) ↦
      rw (e, parse_packet_trailer) (tlv_loop-ne-stuck _ _ (n - 5) 0 no_metadata false (omega arith))
]

trailer_length_bounds : (d : List ℕ) (n : ℕ) → trailer_length d ≡ some n → (5 ≤ n) × (n ≤ length d)
unfolding trailer_length
trailer_length_bounds d n e = ground arith

length-kept : (d : List ℕ) (n : ℕ) → n ≤ length d → length (take (length d - n) d) ≡ length d - n
length-kept d n h = omega (arith, length-take (length d - n) d)

strip_packet_trailer_prefix :
    (d : List ℕ) → strip_packet_trailer d ≡ take (length (strip_packet_trailer d)) d
unfolding strip_packet_trailer
strip_packet_trailer_prefix d = elim (Option-cases (trailer_length d)) [
  | inl e ↦ rw (e, strip_packet_trailer) (sym (take-all d))
  | inr (n, e) ↦
      let (lo, hi) = trailer_length_bounds d n e in
      rw (e, strip_packet_trailer) (ap (λ k. take k d) (sym (length-kept d n hi)))
]

-- Where `parsePacketTrailer` finds metadata, `stripPacketTrailer` returns a prefix of the slice that
-- is five bytes shorter at least.
pub strip_packet_trailer_shorter :
    (d : List ℕ) (meta : FrameMetadata)
    → parse_packet_trailer d ≡ found meta
    → (strip_packet_trailer d ≡ take (length (strip_packet_trailer d)) d)
      × (length (strip_packet_trailer d) + 5 ≤ length d)
unfolding strip_packet_trailer parse_packet_trailer
strip_packet_trailer_shorter d meta p = elim (Option-cases (trailer_length d)) [
  | inl e ↦ let none_found : absent ≡ found meta = rw (e, parse_packet_trailer) at p in cc
  | inr (n, e) ↦
      let (lo, hi) = trailer_length_bounds d n e in
      (
        strip_packet_trailer_prefix d,
        rw (e, strip_packet_trailer) (omega (arith, length-kept d n hi)),
      )
]
