-- ===== src/Datatrack/Stream.antt =====
-- internal/datatrack/remote.go: the buffer of a `Stream` between its track and its reader.
pub mod Queue
mod Tests
use server_sdk_go.Prelude.{
  ℕ, ◌+◌, ◌-◌, ◌%◌, Bool, true, false, List, Option, some, none, ltb, ◌==◌, if◌then◌else◌, length,
  get_or, set,
}

-- `Stream`, with the type of frames and its zero value as parameters. The channel `ready` only wakes
-- the reader.
pub record Stream (Frame : Type 0) : Type 0 where
  pub buf : List Frame
  pub head : ℕ
  pub n : ℕ
  pub closed : Bool

-- What one turn of the loop of `Next` ends in: a frame, the end of the stream, or a wait.
pub data Turn (Frame : Type 0) : Type 0 where
  frame : Frame → Turn Frame
  end_of_stream : Turn Frame
  waits : Turn Frame

module _ {Frame : Type 0} where
  unfoldable pub push : Frame → Stream Frame → Stream Frame
  push new s =
      if s.closed
      then s
      else if s.n == length s.buf
      then record s { buf = set s.buf s.head new; head = (s.head + 1) % length s.buf }
      else record s { buf = set s.buf ((s.head + s.n) % length s.buf) new; n = s.n + 1 }

  unfoldable pub next : Frame → Stream Frame → Stream Frame × Turn Frame
  next zero_frame s =
      if ltb 0 s.n
      then (
        record s {
          buf = set s.buf s.head zero_frame;
          head = (s.head + 1) % length s.buf;
          n = s.n - 1;
        },
        frame (get_or s.buf s.head zero_frame),
      )
      else if s.closed
      then (s, end_of_stream)
      else (s, waits)

  unfoldable pub close : Stream Frame → Stream Frame
  close s = record s { closed = true }
