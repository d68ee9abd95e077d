-- ===== src/Streams.antt =====
-- streams.go: data streams cut into chunks, written and read. The size of a chunk is an argument of
-- the functions that cut; the source has one constant for it.
pub mod Utf8
pub mod Delivery
mod Tests
use server_sdk_go.Prelude.{
  ℕ, zero, suc, ◌+◌, ◌-◌, Bool, true, false, ◌&&◌, List, [], ◌∷◌, ◌++◌, Option, none, some, ltb,
  leb, ◌==◌, if◌then◌else◌, length, take, drop, get_or, bit_and, joined,
}

-- `STREAM_CHUNK_SIZE`
abbrev pub stream_chunk_size : ℕ
stream_chunk_size = 15_000

abbrev pub last_chunk : List ℕ → List (List ℕ)
last_chunk [] = []
last_chunk (b ∷ bs) = (b ∷ bs) ∷ []

-- The loop of `chunkBytes`, on fuel; none where the fuel is used up.
unfoldable pub bytes_loop : ℕ → ℕ → List ℕ → Option (List (List ℕ))
bytes_loop size zero bs = none
bytes_loop size (suc fuel) bs =
    let rest = bytes_loop size fuel (drop size bs) in
    if leb (length bs) size
    then some (last_chunk bs)
    else elim rest [ none ↦ none | some chunks ↦ some (take size bs ∷ chunks) ]

unfoldable pub chunk_bytes : ℕ → List ℕ → Option (List (List ℕ))
chunk_bytes size bs = bytes_loop size (length bs + 1) bs

-- `(dataByte & 0xc0) == 0x80`
unfoldable pub is_continuation : ℕ → Bool
is_continuation b = bit_and b 0xc0 == 0x80

-- The inner loop of `chunkUtf8String`: down from `k` to a byte that continues no character.
unfoldable pub back_up : List ℕ → ℕ → ℕ
back_up bs zero = zero
back_up bs (suc k) =
    let rest = back_up bs k in if is_continuation (get_or bs (suc k) 0) then rest else suc k

-- The loop of `chunkUtf8String`, on fuel; none where the fuel is used up.
unfoldable pub utf8_loop : ℕ → ℕ → List ℕ → Option (List (List ℕ))
utf8_loop size zero bs = none
utf8_loop size (suc fuel) bs =
    let k = back_up bs size in
    let rest = utf8_loop size fuel (drop k bs) in
    if leb (length bs) size
    then some (last_chunk bs)
    else elim rest [ none ↦ none | some chunks ↦ some (take k bs ∷ chunks) ]

unfoldable pub chunk_utf8_string : ℕ → List ℕ → Option (List (List ℕ))
chunk_utf8_string size bs = utf8_loop size (length bs + 1) bs

-- `DataStream_Chunk`, without the id of the stream.
pub record Chunk : Type 0 where
  pub content : List ℕ
  pub chunk_index : ℕ

pub record StreamWriter : Type 0 where
  pub chunk_index : ℕ
  pub bytes_written : ℕ

-- The loop of `writeStreamBytes`, with what it publishes. `open_at` tells whether the stream is still
-- open in front of a chunk.
unfoldable pub write_stream_bytes :
    (ℕ → Bool) → List (List ℕ) → StreamWriter → StreamWriter × List Chunk
write_stream_bytes open_at [] w = (w, [])
write_stream_bytes open_at (chunk ∷ chunks) w =
    let rest = write_stream_bytes open_at chunks (record {
      chunk_index = w.chunk_index + 1;
      bytes_written = w.bytes_written + length chunk;
    }) in
    if open_at w.chunk_index
    then (rest.0, record { content = chunk; chunk_index = w.chunk_index } ∷ rest.1)
    else (w, [])

pub record StreamReader : Type 0 where
  pub read_buffer : List ℕ
  pub bytes_received : ℕ
  pub closed : Bool

unfoldable pub new_stream_reader : StreamReader
new_stream_reader = record { read_buffer = []; bytes_received = 0; closed = false }

unfoldable pub enqueue : Chunk → StreamReader → StreamReader
enqueue chunk r = if r.closed then r else record r { read_buffer = r.read_buffer ++ chunk.content }

unfoldable pub close_reader : StreamReader → StreamReader
close_reader r = record r { closed = true }

-- How a call of a reader ends: it waits for data, or returns bytes, with `io.EOF` or without.
pub data ReadTurn : Type 0 where
  waits_for_data : ReadTurn
  bytes_read end_of_stream : List ℕ → ReadTurn

-- `Read` into a slice of `n` bytes; `bytes.Buffer` returns EOF for an empty buffer only where the
-- slice is not empty.
unfoldable pub read : ℕ → StreamReader → StreamReader × ReadTurn
read n r = elim r.read_buffer [
  | [] ↦
      if r.closed
      then (if n == 0 then (r, bytes_read []) else (r, end_of_stream []))
      else (r, waits_for_data)
  | b ∷ bs ↦ (
    record r {
      read_buffer = drop n (b ∷ bs);
      bytes_received = r.bytes_received + length (take n (b ∷ bs));
    },
    bytes_read (take n (b ∷ bs)),
  )
]

-- The bytes up to the delimiter, what follows it, and whether it was found.
unfoldable pub split_at : ℕ → List ℕ → (List ℕ × List ℕ) × Bool
split_at delim [] = (([], []), false)
split_at delim (b ∷ bs) =
    let rest = split_at delim bs in
    if b == delim then ((b ∷ [], bs), true) else ((b ∷ rest.0.0, rest.0.1), rest.1)

-- `ReadBytes`, and `ReadString`.
unfoldable pub read_bytes : ℕ → StreamReader → StreamReader × ReadTurn
read_bytes delim r =
    let found = split_at delim r.read_buffer in
    let taken = found.0.0 in
    let r' = record r {
      read_buffer = found.0.1;
      bytes_received = r.bytes_received + length taken;
    } in
    if (length r.read_buffer == 0) && (if r.closed then false else true)
    then (r, waits_for_data)
    else if found.1
    then (r', bytes_read taken)
    else if r.closed
    then (r', end_of_stream taken)
    else (r', bytes_read taken)

-- `ReadAll`; none where it waits for the end of the stream.
unfoldable pub read_all : StreamReader → Option (List ℕ)
read_all r = if r.closed then some r.read_buffer else none

unfoldable pub enqueue_all : List Chunk → StreamReader → StreamReader
enqueue_all [] r = r
enqueue_all (chunk ∷ chunks) r = enqueue_all chunks (enqueue chunk r)
