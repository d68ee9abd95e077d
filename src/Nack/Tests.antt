-- ===== src/Nack/Tests.antt =====
-- Runs of pkg/interceptor/nackgenerator.go.
use server_sdk_go.Prelude.{◌≡◌, refl, true, [], ◌∷◌, map, arith}
use server_sdk_go.Nack.{Reader, queue_remove, queue_push, on_packet}
use server_sdk_go.Nack.Gaps.{counted, on_packet_ahead, on_packet_wrapped}

abbrev at_ten : Reader
at_ten = record { first_received = true; highest_seq = 10 }

on_packet_ahead_example : on_packet 13 at_ten ≡ (
  record { first_received = true; highest_seq = 13 },
  queue_remove 13 ∷ map queue_push (counted 11 2),
)
on_packet_ahead_example = on_packet_ahead at_ten 13 refl (omega arith) (omega arith) (omega arith)

-- 65534 is the highest number, and 1 comes: 65535 and 0 are lost.
abbrev near_the_end : Reader
near_the_end = record { first_received = true; highest_seq = 65534 }

on_packet_wrapped_example :
    on_packet 1 near_the_end
    ≡ (record { first_received = true; highest_seq = 1 }, queue_remove 1 ∷ [])
on_packet_wrapped_example =
    on_packet_wrapped near_the_end 1 refl (omega arith) (omega arith) (omega arith)
