-- ===== src/PacketTrailer/RoundTrip.antt =====
-- What `parsePacketTrailer` and `stripPacketTrailer` make of what `appendPacketTrailer` wrote.
use server_sdk_go.Prelude.{
  ℕ, zero, suc, ◌+◌, ◌^◌, ◌≤◌, ◌<◌, ◌≡◌, ◌≢◌, ◌⊎◌, refl, sym, ap, ◌∙◌, Bool, true, false, not, ◌&&◌,
  ◌||◌, List, [], ◌∷◌, ◌++◌, some, ◌==◌, if◌then◌else◌, length, get_or, arith, length-append,
  take-append, get_or-append, append_assoc, fun_ext,
}
use server_sdk_go.PacketTrailer.{
  FrameMetadata, no_metadata, found, be_bytes, complement, trailer_bytes, append_packet_trailer,
  read_be, read_element, tlv_loop, trailer_length, parse_packet_trailer, strip_packet_trailer,
  timestamp_tlv, frame_id_tlv,
}
use server_sdk_go.PacketTrailer.Layout.{
  read_word, tlvs, envelope, trailer_bytes-tlvs, trailer_length-envelope,
}

-- The values that fit their words.
pub record IsMetadata (meta : FrameMetadata) : Type 0 where
  pub timestamp_fits : meta.user_timestamp < 2 ^ 64
  pub frame_id_fits : meta.frame_id < 2 ^ 32

module _ (region : ℕ → ℕ) (fuel n pos : ℕ) (meta : FrameMetadata) (found_any : Bool) where
  -- One round of the loop on an element of the timestamp's tag and length, and of the frame id's.
  timestamp_round :
      pos + 10 ≤ n
      → region pos ≡ 254
      → region (pos + 1) ≡ 247
      → tlv_loop (suc fuel) region n pos meta found_any
        ≡ tlv_loop fuel region n
            (pos + 2 + 8)
            (record meta { user_timestamp = read_be region 64 (pos + 2) 8 0 })
            true
  unfolding tlv_loop read_element
  timestamp_round h tag len = rw (tag, len) (ground arith)

  frame_id_round :
      pos + 6 ≤ n
      → region pos ≡ 253
      → region (pos + 1) ≡ 251
      → tlv_loop (suc fuel) region n pos meta found_any
        ≡ tlv_loop fuel region n
            (pos + 2 + 4)
            (record meta { frame_id = read_be region 32 (pos + 2) 4 0 })
            true
  unfolding tlv_loop read_element
  frame_id_round h tag len = rw (tag, len) (ground arith)

tlv_loop-end :
    (region : ℕ → ℕ) (fuel n pos : ℕ) (meta : FrameMetadata)
    → n < pos + 2
    → tlv_loop fuel region n pos meta true ≡ found meta
unfolding tlv_loop
tlv_loop-end region zero n pos meta h = ground arith
tlv_loop-end region (suc fuel) n pos meta h = ground arith

module _ (ts id : ℕ) (ht : ts < 2 ^ 64) (hi : id < 2 ^ 32) where
  abbrev given : FrameMetadata
  given = record { user_timestamp = ts; frame_id = id }

  abbrev read_at : List ℕ → ℕ → ℕ
  read_at rest i = get_or (timestamp_tlv ts ++ rest) i 0

  read_timestamp : (rest : List ℕ) → read_be (read_at rest) 64 2 8 0 ≡ ts
  unfolding timestamp_tlv
  read_timestamp rest = read_word 8 64 2 ts _ (254 ∷ 247 ∷ []) rest ht (omega arith) refl refl

  read_frame_id :
      (pre rest : List ℕ)
      → read_be (λ i. get_or (pre ++ (frame_id_tlv id ++ rest)) i 0) 32 (length pre + 2) 4 0 ≡ id
  unfolding frame_id_tlv
  read_frame_id pre rest =
      rw (← append_assoc pre (253 ∷ 251 ∷ []) (be_bytes 4 (complement 32 id) ++ rest)) (
        read_word 4 32 (length pre + 2) id _ (pre ++ (253 ∷ 251 ∷ [])) rest hi (omega arith) refl
          (omega (arith, length-append pre (253 ∷ 251 ∷ []))))

  tlv_loop-timestamp :
      (rest : List ℕ)
      → tlv_loop 10 (read_at rest) 10 0 no_metadata false
        ≡ found (record { user_timestamp = ts; frame_id = 0 })
  unfolding timestamp_tlv
  tlv_loop-timestamp rest =
      timestamp_round (read_at rest) 9 10 0 no_metadata false (omega arith) refl refl
      ∙ rw (read_timestamp rest) (tlv_loop-end (read_at rest) 9 10 10 _ (omega arith))

  tlv_loop-frame_id :
      (rest : List ℕ)
      → tlv_loop 6 (λ i. get_or (frame_id_tlv id ++ rest) i 0) 6 0 no_metadata false
        ≡ found (record { user_timestamp = 0; frame_id = id })
  unfolding frame_id_tlv
  tlv_loop-frame_id rest =
      frame_id_round (λ i. get_or (frame_id_tlv id ++ rest) i 0) 5 6 0 no_metadata false
        (omega arith) refl refl
      ∙ rw (read_frame_id [] rest) (tlv_loop-end _ 5 6 6 _ (omega arith))

  tlv_loop-both :
      (rest : List ℕ)
      → tlv_loop 16
          (λ i. get_or (timestamp_tlv ts ++ (frame_id_tlv id ++ rest)) i 0)
          16
          0
          no_metadata
          false
        ≡ found given
  unfolding timestamp_tlv frame_id_tlv be_bytes
  tlv_loop-both rest =
      let region : ℕ → ℕ = λ i. get_or (timestamp_tlv ts ++ (frame_id_tlv id ++ rest)) i 0 in
      timestamp_round region 15 16 0 no_metadata false (omega arith) refl refl
      ∙ rw (read_timestamp (frame_id_tlv id ++ rest)) (
          frame_id_round region 14 16 10 _ true (omega arith) refl refl
          ∙ rw (read_frame_id (timestamp_tlv ts) rest)
              (tlv_loop-end region 14 16 16 _ (omega arith)))

  -- The loop reads the elements of any trailer that is not empty.
  tlv_loop-tlvs :
      (a b : Bool) (rest : List ℕ)
      → (a ≡ false → ts ≡ 0)
      → (b ≡ false → id ≡ 0)
      → (a || b) ≡ true
      → tlv_loop
          (length (tlvs given a b))
          (λ i. get_or (tlvs given a b ++ rest) i 0)
          (length (tlvs given a b))
          0
          no_metadata
          false
        ≡ found given
  unfolding timestamp_tlv frame_id_tlv be_bytes
  tlv_loop-tlvs true true rest p q h = tlv_loop-both rest
  tlv_loop-tlvs true false rest p q h = tlv_loop-timestamp rest ∙ rw (q refl)
  tlv_loop-tlvs false true rest p q h = tlv_loop-frame_id rest ∙ rw (p refl)
  tlv_loop-tlvs false false rest p q h = cc

length-tlvs-le : (meta : FrameMetadata) (a b : Bool) → length (tlvs meta a b) ≤ 16
unfolding timestamp_tlv frame_id_tlv be_bytes
length-tlvs-le meta true true = omega arith
length-tlvs-le meta true false = omega arith
length-tlvs-le meta false true = omega arith
length-tlvs-le meta false false = omega arith

tlv_loop_cong :
    (n n' : ℕ) (r r' : ℕ → ℕ)
    → n ≡ n'
    → ((i : ℕ) → r i ≡ r' i)
    → tlv_loop n r n 0 no_metadata false ≡ tlv_loop n' r' n' 0 no_metadata false
tlv_loop_cong n n' r r' e h = rw (e, fun_ext h)

module _ (d : List ℕ) (meta : FrameMetadata) (a b : Bool) where
  abbrev body : List ℕ
  body = tlvs meta a b

  abbrev tail_bytes : List ℕ
  tail_bytes = envelope (length body + 5)

  written : d ++ trailer_bytes meta a b ≡ (d ++ body) ++ tail_bytes
  written = rw (trailer_bytes-tlvs meta a b) (sym (append_assoc d body tail_bytes))

  trailer_length-append : trailer_length (d ++ trailer_bytes meta a b) ≡ some (length body + 5)
  trailer_length-append = rw written (
      trailer_length-envelope (d ++ body) (length body + 5) (omega arith)
        (omega (arith, length-tlvs-le meta a b)) (omega (arith, length-append d body)))

  length-written : length (d ++ trailer_bytes meta a b) ≡ length d + (length body + 5)
  length-written =
      rw written (omega (arith, length-append (d ++ body) tail_bytes, length-append d body))

  parse_packet_trailer-written :
      parse_packet_trailer (d ++ trailer_bytes meta a b)
      ≡ tlv_loop
          (length body)
          (λ i. get_or (body ++ tail_bytes) i 0)
          (length body)
          0
          no_metadata
          false
  unfolding parse_packet_trailer
  parse_packet_trailer-written =
      rw (trailer_length-append, parse_packet_trailer)
        (tlv_loop_cong _ _ _ _ (omega arith) (λ i.
          get_or-append d (trailer_bytes meta a b) _ i 0 (omega (arith, length-written))
          ∙ ap (λ t. get_or t i 0) (trailer_bytes-tlvs meta a b)))

  strip_packet_trailer-written : strip_packet_trailer (d ++ trailer_bytes meta a b) ≡ d
  unfolding strip_packet_trailer
  strip_packet_trailer-written =
      rw (trailer_length-append, strip_packet_trailer)
        (take-append _ d (trailer_bytes meta a b) (omega (arith, length-written)))

any_branch :
    (d t : List ℕ) (a b : Bool) → (a || b) ≡ true → (if not a && not b then d else d ++ t) ≡ d ++ t
any_branch d t true b h = refl
any_branch d t false true h = refl
any_branch d t false false h = cc

-- `parsePacketTrailer` reads back the metadata that `appendPacketTrailer` wrote behind any frame,
-- for a timestamp and a frame id that fit their words and are not both zero.
pub parse_packet_trailer-append_packet_trailer :
    (d : List ℕ) (meta : FrameMetadata)
    → IsMetadata meta
    → (meta.user_timestamp ≢ 0) ⊎ (meta.frame_id ≢ 0)
    → parse_packet_trailer (append_packet_trailer d meta) ≡ found meta
unfolding append_packet_trailer
parse_packet_trailer-append_packet_trailer d meta v some_value =
    let a = not (meta.user_timestamp == 0) in
    let b = not (meta.frame_id == 0) in
    let any : (a || b) ≡ true = ground arith in
    rw (any_branch d (trailer_bytes meta a b) a b any) (
      parse_packet_trailer-written d meta a b
      ∙ tlv_loop-tlvs meta.user_timestamp meta.frame_id v.timestamp_fits v.frame_id_fits a b
          (tail_bytes d meta a b) (λ h. ground arith) (λ h. ground arith) any)

-- `stripPacketTrailer` gives back the frame behind which `appendPacketTrailer` wrote a trailer, as it
-- does for every metadata that is not all zero.
pub strip_packet_trailer-append_packet_trailer :
    (d : List ℕ) (meta : FrameMetadata)
    → (meta.user_timestamp ≢ 0) ⊎ (meta.frame_id ≢ 0)
    → strip_packet_trailer (append_packet_trailer d meta) ≡ d
unfolding append_packet_trailer
strip_packet_trailer-append_packet_trailer d meta some_value =
    let a = not (meta.user_timestamp == 0) in
    let b = not (meta.frame_id == 0) in
    let any : (a || b) ≡ true = ground arith in
    rw (any_branch d (trailer_bytes meta a b) a b any) (strip_packet_trailer-written d meta a b)

length-trailer_bytes :
    (meta : FrameMetadata) (a b : Bool)
    → length (trailer_bytes meta a b) ≡ 5 + (if a then 10 else 0) + (if b then 6 else 0)
unfolding trailer_bytes timestamp_tlv frame_id_tlv be_bytes
length-trailer_bytes meta true true = refl
length-trailer_bytes meta true false = refl
length-trailer_bytes meta false true = refl
length-trailer_bytes meta false false = refl

-- The trailer's size: nothing for the metadata that is all zero, else five bytes, ten more for a
-- timestamp and six more for a frame id.
pub length-append_packet_trailer :
    (d : List ℕ) (meta : FrameMetadata)
    → let a = not (meta.user_timestamp == 0) in
      let b = not (meta.frame_id == 0) in
      length (append_packet_trailer d meta)
      ≡ length d + (if not a && not b then 0 else 5 + (if a then 10 else 0) + (if b then 6 else 0))
unfolding append_packet_trailer
length-append_packet_trailer d meta =
    let a = not (meta.user_timestamp == 0) in
    let b = not (meta.frame_id == 0) in
    ground (arith, length-append d (trailer_bytes meta a b), length-trailer_bytes meta a b)
