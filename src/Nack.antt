-- ===== src/Nack.antt =====
-- pkg/interceptor/nackgenerator.go: which lost packets the reader of a remote stream reports.
mod Gaps
mod Tests
use server_sdk_go.Prelude.{
  ℕ, zero, suc, ◌+◌, ◌-◌, ◌%◌, Bool, true, false, not, ◌&&◌, ◌||◌, List, [], ◌∷◌, ◌++◌, ltb, ◌==◌,
  if◌then◌else◌, length, lookup, insert, delete, bytes_equal, Option, some, none,
}

-- One `uint16` that goes round at 65536.
abbrev pub u16_size : ℕ
u16_size = 65536

-- A call on the stream's NACK queue.
pub data QueueCall : Type 0 where
  queue_remove : ℕ → QueueCall
  queue_push : ℕ → QueueCall

-- The variables that the reader of `BindRemoteStream` keeps between packets.
pub record Reader : Type 0 where
  pub first_received : Bool
  pub highest_seq : ℕ

abbrev pub new_reader : Reader
new_reader = record { first_received = false; highest_seq = 0 }

-- `for seq := …; seq < limit; seq++`
unfoldable pub push_loop : ℕ → ℕ → ℕ → List QueueCall
push_loop zero seq limit = []
push_loop (suc fuel) seq limit =
    let rest = push_loop fuel ((seq + 1) % u16_size) limit in
    if ltb seq limit then queue_push seq ∷ rest else []

-- `header.SequenceNumber - highestSeq` on `uint16`.
unfoldable pub seq_diff : ℕ → ℕ → ℕ
seq_diff s h = (s + (u16_size - h)) % u16_size

-- The reader's part from the header on, up to the queue's `Pairs`.
unfoldable pub on_packet : ℕ → Reader → Reader × List QueueCall
on_packet s r =
    let diff = seq_diff s r.highest_seq in
    if not r.first_received
    then (record { first_received = true; highest_seq = s }, [])
    else if ltb 0 diff && ltb diff 0x8000
    then (
      record { first_received = true; highest_seq = s },
      queue_remove s ∷ push_loop u16_size ((r.highest_seq + 1) % u16_size) s,
    )
    else (r, queue_remove s ∷ [])

-- One entry of the stream's RTCP feedback: its type and its parameter, as bytes.
pub record Feedback : Type 0 where
  pub kind : List ℕ
  pub parameter : List ℕ

-- The bytes of "nack".
abbrev pub nack_kind : List ℕ
nack_kind = 0x6e ∷ 0x61 ∷ 0x63 ∷ 0x6b ∷ []

unfoldable pub stream_support_nack : List Feedback → Bool
stream_support_nack [] = false
stream_support_nack (fb ∷ fbs) =
    (bytes_equal fb.kind nack_kind && (length fb.parameter == 0)) || stream_support_nack fbs
