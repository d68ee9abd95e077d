-- ===== src/Streams/Delivery.antt =====
-- A data stream of streams.go from its writer to its reader.
use server_sdk_go.Prelude.{
  ℕ, zero, suc, ◌+◌, ◌≤◌, ◌<◌, ◌≡◌, ◌∙◌, ap, refl, Bool, true, false, List, [], ◌∷◌, ◌++◌, some,
  leb, length, take, drop, joined, Bool-cases, inl, inr, arith, length-drop, take-append-drop,
  append-nil, append_assoc,
}
use server_sdk_go.Streams.{
  Chunk, StreamWriter, StreamReader, bytes_loop, chunk_bytes, last_chunk, write_stream_bytes,
  enqueue, enqueue_all, close_reader, new_stream_reader, read_all,
}

bytes_loop-joined :
    (size fuel : ℕ) (bs : List ℕ)
    → 1 ≤ size
    → length bs < fuel
    → (chunks : List (List ℕ)) × (bytes_loop size fuel bs ≡ some chunks) × (joined chunks ≡ bs)
unfolding bytes_loop
bytes_loop-joined size zero bs positive h = absurd (omega arith)
bytes_loop-joined size (suc fuel) [] positive h = ([], ground arith, refl)
bytes_loop-joined size (suc fuel) (b ∷ bs) positive h =
    elim (Bool-cases (leb (length (b ∷ bs)) size)) [
      | inl short ↦ (last_chunk (b ∷ bs), rw short refl, append-nil (b ∷ bs))
      | inr long ↦
          let (chunks, e, whole) =
            bytes_loop-joined size fuel (drop size (b ∷ bs)) positive
              (omega (arith, h, positive, length-drop size (b ∷ bs))) in
          (
            take size (b ∷ bs) ∷ chunks,
            rw (long, e) refl,
            ap (λ l. take size (b ∷ bs) ++ l) whole ∙ take-append-drop size (b ∷ bs),
          )
    ]

-- Chunks numbered one after the other.
abbrev pub IsNumbered : ℕ → List (List ℕ) → List Chunk → Type 0
IsNumbered index [] [] = Unit
IsNumbered index (c ∷ cs) (chunk ∷ chunks) =
    (chunk.content ≡ c) × (chunk.chunk_index ≡ index) × IsNumbered (index + 1) cs chunks
IsNumbered index [] (chunk ∷ chunks) = ⊥
IsNumbered index (c ∷ cs) [] = ⊥

write-IsNumbered :
    (open_at : ℕ → Bool) (cs : List (List ℕ)) (w : StreamWriter)
    → ((i : ℕ) → open_at i ≡ true)
    → IsNumbered w.chunk_index cs (write_stream_bytes open_at cs w).1
unfolding write_stream_bytes
write-IsNumbered open_at [] w always = tt
write-IsNumbered open_at (c ∷ cs) w always = rw (always w.chunk_index) (
  refl,
  refl,
  write-IsNumbered open_at cs
      (record { chunk_index = w.chunk_index + 1; bytes_written = w.bytes_written + length c })
      always,
)

enqueue_numbered :
    (cs : List (List ℕ)) (index : ℕ) (chunks : List Chunk) (r : StreamReader)
    → IsNumbered index cs chunks
    → r.closed ≡ false
    → enqueue_all chunks r ≡ record r { read_buffer = r.read_buffer ++ joined cs }
unfolding enqueue_all enqueue
enqueue_numbered [] index [] r numbered open_still = rw append-nil refl
enqueue_numbered [] index (chunk ∷ chunks) r numbered open_still = absurd numbered
enqueue_numbered (c ∷ cs) index [] r numbered open_still = absurd numbered
enqueue_numbered (c ∷ cs) index (chunk ∷ chunks) r numbered open_still =
    let added : enqueue chunk r ≡ record r { read_buffer = r.read_buffer ++ c } =
      ground (arith, numbered.0) in
    rw added (
      enqueue_numbered cs (index + 1) chunks (record r { read_buffer = r.read_buffer ++ c })
        numbered.2 open_still
      ∙ ap (λ b. record r { read_buffer = b }) (append_assoc r.read_buffer c (joined cs)))

-- Bytes that are written to a stream that stays open, in chunks of a size that is not zero, are
-- published in chunks with numbers one after the other, and a reader that gets them in order and then
-- the end of the stream reads all of them: exactly those bytes.
pub read_all-chunk_bytes :
    (size : ℕ) (bs : List ℕ) (open_at : ℕ → Bool) (w : StreamWriter)
    → 1 ≤ size
    → ((i : ℕ) → open_at i ≡ true)
    → (cs : List (List ℕ)) × (chunk_bytes size bs ≡ some cs)
      × IsNumbered w.chunk_index cs (write_stream_bytes open_at cs w).1
      × (read_all (close_reader (enqueue_all (write_stream_bytes open_at cs w).1 new_stream_reader))
          ≡ some bs)
unfolding chunk_bytes read_all close_reader new_stream_reader
read_all-chunk_bytes size bs open_at w positive always =
    let (cs, cut, whole) = bytes_loop-joined size (length bs + 1) bs positive (omega arith) in
    let numbered = write-IsNumbered open_at cs w always in
    (
      cs,
      cut,
      numbered,
      rw
          (
            enqueue_numbered cs w.chunk_index (write_stream_bytes open_at cs w).1 new_stream_reader
                numbered refl,
            whole,
          )
          refl,
    )
