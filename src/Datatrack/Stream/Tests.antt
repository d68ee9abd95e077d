-- ===== src/Datatrack/Stream/Tests.antt =====
-- Runs of the stream of internal/datatrack/remote.go with numbers for frames.
use server_sdk_go.Prelude.{ℕ, ◌≡◌, refl, false, [], ◌∷◌, arith}
use server_sdk_go.Datatrack.Stream.{Stream, push, next, frame}
use server_sdk_go.Datatrack.Stream.Queue.{IsValid, contents, bounded, push-bounded, next_lem}

-- A full buffer of three frames, the oldest one in the last place.
abbrev full_stream : Stream ℕ
full_stream = record { buf = 8 ∷ 9 ∷ 7 ∷ []; head = 2; n = 3; closed = false }

full_stream-IsValid : IsValid full_stream
unfolding IsValid
full_stream-IsValid = (omega arith, omega arith)

push-bounded_example :
    (contents 0 (push 10 full_stream) ≡ bounded 3 10 (contents 0 full_stream))
    × IsValid (push 10 full_stream)
push-bounded_example = push-bounded 0 10 full_stream full_stream-IsValid refl

next_lem_example :
    (contents 0 full_stream ≡ 7 ∷ contents 0 (next 0 full_stream).0)
    × ((next 0 full_stream).1 ≡ frame 7)
    × IsValid (next 0 full_stream).0
next_lem_example = next_lem 0 full_stream full_stream-IsValid (omega arith)
