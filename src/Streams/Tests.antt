-- ===== src/Streams/Tests.antt =====
-- Concrete runs of streams.go, and the theorems at concrete inputs, with chunks of a few bytes.
use server_sdk_go.Prelude.{
  ℕ, zero, suc, ◌<◌, ◌≡◌, refl, true, false, List, [], ◌∷◌, none, some, get_or, arith,
}
use server_sdk_go.Streams.{
  StreamWriter, StreamReader, is_continuation, back_up, utf8_loop, chunk_utf8_string, chunk_bytes,
  write_stream_bytes, enqueue_all, close_reader, new_stream_reader, read, read_bytes, split_at,
  read_all, bytes_read, end_of_stream,
}
use server_sdk_go.Streams.Utf8.{IsCut, IsSpaced, chunk_utf8_string-IsCut, utf8_loop-none}
use server_sdk_go.Streams.Delivery.{IsNumbered, read_all-chunk_bytes}

-- "aé€b": one, two, three and one bytes.
abbrev text : List ℕ
text = 97 ∷ 195 ∷ 169 ∷ 226 ∷ 130 ∷ 172 ∷ 98 ∷ []

text_cut :
    chunk_utf8_string 4 text ≡ some ((97 ∷ 195 ∷ 169 ∷ []) ∷ (226 ∷ 130 ∷ 172 ∷ 98 ∷ []) ∷ [])
unfolding chunk_utf8_string utf8_loop back_up is_continuation
text_cut = refl

text-IsSpaced : IsSpaced text
unfolding is_continuation
text-IsSpaced zero h = refl
text-IsSpaced (suc zero) h = refl
text-IsSpaced (suc (suc zero)) h = refl
text-IsSpaced (suc (suc (suc zero))) h = refl
text-IsSpaced (suc (suc (suc (suc i)))) h = absurd (omega arith)

chunk_utf8_string-IsCut_example : IsCut 4 text (chunk_utf8_string 4 text)
unfolding is_continuation
chunk_utf8_string-IsCut_example = chunk_utf8_string-IsCut 4 (omega arith) text text-IsSpaced refl

all_continue : (i : ℕ) → i < 3 → is_continuation (get_or (128 ∷ 129 ∷ 130 ∷ []) i 0) ≡ true
unfolding is_continuation
all_continue zero h = refl
all_continue (suc zero) h = refl
all_continue (suc (suc zero)) h = refl
all_continue (suc (suc (suc i))) h = absurd (omega arith)

utf8_loop-none_example : utf8_loop 2 1000 (128 ∷ 129 ∷ 130 ∷ []) ≡ none
utf8_loop-none_example = utf8_loop-none 2 1000 (128 ∷ 129 ∷ 130 ∷ []) (omega arith) all_continue

abbrev writer : StreamWriter
writer = record { chunk_index = 7; bytes_written = 20 }

read_all-chunk_bytes_example :
    (cs : List (List ℕ)) × (chunk_bytes 2 (1 ∷ 2 ∷ 3 ∷ []) ≡ some cs)
    × IsNumbered 7 cs (write_stream_bytes (λ i. true) cs writer).1
    × (read_all (
          close_reader (enqueue_all (write_stream_bytes (λ i. true) cs writer).1 new_stream_reader))
        ≡ some (1 ∷ 2 ∷ 3 ∷ []))
read_all-chunk_bytes_example =
    read_all-chunk_bytes 2 (1 ∷ 2 ∷ 3 ∷ []) (λ i. true) writer (omega arith) (λ i. refl)

abbrev half_line : StreamReader
half_line = record { read_buffer = 1 ∷ 2 ∷ []; bytes_received = 0; closed = false }

-- An open stream returns bytes that do not end in the delimiter, without an error.
read_bytes_early :
    read_bytes 10 half_line
    ≡ (record { read_buffer = []; bytes_received = 2; closed = false }, bytes_read (1 ∷ 2 ∷ []))
unfolding read_bytes split_at
read_bytes_early = refl

read_then_end : (read 5 (close_reader new_stream_reader)).1 ≡ end_of_stream []
unfolding read close_reader new_stream_reader
read_then_end = refl
