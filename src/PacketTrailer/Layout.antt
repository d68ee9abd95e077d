-- ===== src/PacketTrailer/Layout.antt =====
-- The bytes that `appendPacketTrailer` writes: inverted words read back, and the envelope.
use server_sdk_go.Prelude.{
  ℕ, zero, suc, ◌+◌, ◌-◌, ◌*◌, ◌/◌, ◌%◌, ◌^◌, ◌≤◌, ◌<◌, ◌≡◌, refl, sym, ap, ◌∙◌, Bool, true, false,
  List, [], ◌∷◌, ◌++◌, some, if◌then◌else◌, length, get_or, drop, bit_or, bit_xor, arith,
  length-append, drop-append, get_or-append, get_or-append_left, xor_ff, or_byte, append_assoc,
}
use native.Mathlib.Nat.{mod-eq_of_lt, pow-suc}
use server_sdk_go.PacketTrailer.{
  FrameMetadata, be_bytes, trailer_bytes, read_be, trailer_length, packet_trailer_magic,
  timestamp_tlv, frame_id_tlv, trailer_envelope_size, timestamp_tlv_size, frame_id_tlv_size,
}

pub length-be_bytes : (n v : ℕ) → length (be_bytes n v) ≡ n
unfolding be_bytes
length-be_bytes zero v = refl
length-be_bytes (suc n) v =
    omega (arith, length-append (be_bytes n (v / 256)) (v % 256 ∷ []), length-be_bytes n (v / 256))

-- One byte of a word, written inverted and read back behind the bytes above it.
read_byte :
    (m w x t c : ℕ)
    → x < m * 256
    → m * 256 ≤ w
    → t ≡ x / 256
    → c ≡ (m * 256 - 1 - x) % 256
    → bit_or (t * 256 % w) (bit_xor c 0xff) ≡ x
read_byte m w x t c h le et ec =
    let fits : t * 256 % w ≡ t * 256 = mod-eq_of_lt (omega arith) in
    let byte : c ≡ 255 - x % 256 = omega arith in
    rw fits (
      omega (
        arith,
        xor_ff c (omega arith),
        or_byte t (bit_xor c 0xff) (omega (arith, xor_ff c (omega arith))),
      ))

read_be-suc :
    (n w pos v : ℕ) (region : ℕ → ℕ)
    → read_be region w pos (suc n) v
      ≡ bit_or (read_be region w pos n v * 256 % 2 ^ w) (bit_xor (region (pos + n)) 0xff)
unfolding read_be
read_be-suc zero w pos v region =
    ap (λ k. bit_or (v * 256 % 2 ^ w) (bit_xor (region k) 0xff)) (omega arith)
read_be-suc (suc n) w pos v region =
    read_be-suc n w (pos + 1) (bit_or (v * 256 % 2 ^ w) (bit_xor (region pos) 0xff)) region
    ∙ ap
        (λ k.
          bit_or
            (read_be region w (pos + 1) n (bit_or (v * 256 % 2 ^ w) (bit_xor (region pos) 0xff))
              * 256
              % 2 ^ w)
            (bit_xor (region k) 0xff))
        (omega arith)

be_bytes-suc : (n v : ℕ) → be_bytes (suc n) v ≡ be_bytes n (v / 256) ++ (v % 256 ∷ [])
unfolding be_bytes
be_bytes-suc n v = refl

pub read_be-be_bytes :
    (n w pos x y : ℕ) (region : ℕ → ℕ)
    → x < 256 ^ n
    → 256 ^ n ≤ 2 ^ w
    → y ≡ 256 ^ n - 1 - x
    → ((i : ℕ) → i < n → region (pos + i) ≡ get_or (be_bytes n y) i 0)
    → read_be region w pos n 0 ≡ x
read_be-be_bytes zero w pos x y region h le ey e = unfold read_be in omega arith
read_be-be_bytes (suc n) w pos x y region h le ey e =
    read_be-suc n w pos 0 region
    ∙ read_byte (256 ^ n) (2 ^ w) x _ _ (omega (arith, pow-suc 256 n))
        (omega (arith, pow-suc 256 n))
        (read_be-be_bytes n w pos (x / 256) (y / 256) region (omega (arith, pow-suc 256 n))
          (omega (arith, pow-suc 256 n)) (omega (arith, pow-suc 256 n))
          (λ i hi.
            e i (omega arith)
            ∙ rw (be_bytes-suc n y) (
                get_or-append_left (be_bytes n (y / 256)) _ i 0
                  (omega (arith, length-be_bytes n (y / 256))))))
        (e n (omega arith)
          ∙ rw (be_bytes-suc n y) (
              get_or-append (be_bytes n (y / 256)) _ n 0 0
                (omega (arith, length-be_bytes n (y / 256)))
              ∙ omega (arith, pow-suc 256 n)))

-- A word that stands behind `pre`, written inverted, is read from there.
pub read_word :
    (n w pos x y : ℕ) (pre rest : List ℕ)
    → x < 256 ^ n
    → 256 ^ n ≤ 2 ^ w
    → y ≡ 256 ^ n - 1 - x
    → pos ≡ length pre
    → read_be (λ i. get_or (pre ++ (be_bytes n y ++ rest)) i 0) w pos n 0 ≡ x
read_word n w pos x y pre rest h le ey ep = read_be-be_bytes n w pos x y _ h le ey (λ i hi.
    get_or-append pre (be_bytes n y ++ rest) (pos + i) i 0 (omega arith)
    ∙ get_or-append_left (be_bytes n y) rest i 0 (omega (arith, length-be_bytes n y)))

-- The elements of a trailer, without its envelope.
abbrev pub tlvs : FrameMetadata → Bool → Bool → List ℕ
tlvs meta a b =
    (if a then timestamp_tlv meta.user_timestamp else [])
    ++ (if b then frame_id_tlv meta.frame_id else [])

abbrev pub envelope : ℕ → List ℕ
envelope n = bit_xor (n % 256) 0xff ∷ packet_trailer_magic

length-tlvs :
    (meta : FrameMetadata) (a b : Bool)
    → length (tlvs meta a b) + 5
      ≡ trailer_envelope_size
        + (if a then timestamp_tlv_size else 0)
        + (if b then frame_id_tlv_size else 0)
unfolding timestamp_tlv frame_id_tlv be_bytes
length-tlvs meta true true = refl
length-tlvs meta true false = refl
length-tlvs meta false true = refl
length-tlvs meta false false = refl

pub trailer_bytes-tlvs :
    (meta : FrameMetadata) (a b : Bool)
    → trailer_bytes meta a b ≡ tlvs meta a b ++ envelope (length (tlvs meta a b) + 5)
unfolding trailer_bytes
trailer_bytes-tlvs meta a b =
    rw (length-tlvs meta a b)
      (sym (append_assoc (if a then timestamp_tlv meta.user_timestamp else []) _ _))

envelope-byte : (n : ℕ) → n < 256 → bit_xor (bit_xor (n % 256) 0xff) 0xff ≡ n
envelope-byte n h =
    let small : n % 256 ≡ n = omega arith in
    rw (small, xor_ff n h) (omega (arith, xor_ff (255 - n) (omega arith)))

-- The envelope gives the trailer's length, whatever stands before it.
pub trailer_length-envelope :
    (front : List ℕ) (n : ℕ)
    → 5 ≤ n
    → n < 256
    → n ≤ length front + 5
    → trailer_length (front ++ envelope n) ≡ some n
unfolding trailer_length
trailer_length-envelope front n h h' hf =
    let size : length (front ++ envelope n) ≡ length front + 5 = length-append front (envelope n) in
    let last : List ℕ = bit_xor (n % 256) 0xff ∷ [] in
    let magic : drop (length (front ++ envelope n) - 4) (front ++ envelope n)
        ≡ packet_trailer_magic =
      ap (drop (length (front ++ envelope n) - 4))
        (sym (append_assoc front last packet_trailer_magic))
      ∙ drop-append (length (front ++ envelope n) - 4) (front ++ last) packet_trailer_magic
          (omega (arith, length-append front last)) in
    let byte : bit_xor (get_or (front ++ envelope n) (length (front ++ envelope n) - 4 - 1) 0) 0xff
        ≡ n =
      rw (get_or-append front (envelope n) (length (front ++ envelope n) - 4 - 1) 0 0 (omega arith))
        (envelope-byte n h') in
    rw (byte, magic) (ground arith)
