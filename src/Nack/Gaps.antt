-- ===== src/Nack/Gaps.antt =====
-- Which gaps pkg/interceptor/nackgenerator.go reports.
use server_sdk_go.Prelude.{
  ℕ, zero, suc, ◌+◌, ◌-◌, ◌%◌, ◌≤◌, ◌<◌, ◌≡◌, true, List, [], ◌∷◌, map, arith, refl, ap, ◌∙◌,
}
use server_sdk_go.Nack.{queue_remove, queue_push, Reader, push_loop, seq_diff, on_packet, u16_size}

-- The numbers from the first one on, so many.
pub counted : ℕ → ℕ → List ℕ
counted s zero = []
counted s (suc n) = s ∷ counted (s + 1) n

push_loop-counted :
    (fuel n s : ℕ)
    → n < fuel
    → s + n < u16_size
    → push_loop fuel s (s + n) ≡ map queue_push (counted s n)
unfolding push_loop counted
push_loop-counted zero n s lt le = absurd (omega arith)
push_loop-counted (suc fuel) zero s lt le = ground arith
push_loop-counted (suc fuel) (suc n) s lt le =
    let step : push_loop fuel ((s + 1) % u16_size) (s + suc n)
        ≡ map queue_push (counted (s + 1) n) =
      ap (λ z. push_loop fuel z (s + suc n)) (omega arith)
      ∙ ap (push_loop fuel (s + 1)) (omega arith)
      ∙ push_loop-counted fuel n (s + 1) (omega arith) (omega arith) in
    ground (arith, step)

push_loop_none : (fuel s limit : ℕ) → limit ≤ s → push_loop fuel s limit ≡ []
unfolding push_loop
push_loop_none zero s limit le = refl
push_loop_none (suc fuel) s limit le = ground arith

-- A packet up to 32767 numbers ahead of the highest, no number having gone round: the packet is
-- taken off the queue, and exactly the numbers strictly between the two are pushed.
pub on_packet_ahead :
    (r : Reader) (s : ℕ)
    → r.first_received ≡ true
    → r.highest_seq < s
    → s < u16_size
    → s < r.highest_seq + 0x8000
    → on_packet s r ≡ (
      record { first_received = true; highest_seq = s },
      queue_remove s ∷ map queue_push (counted (r.highest_seq + 1) (s - r.highest_seq - 1)),
    )
unfolding on_packet seq_diff
on_packet_ahead r s first lt small near =
    let n = s - r.highest_seq - 1 in
    let diff : seq_diff s r.highest_seq ≡ s - r.highest_seq = omega arith in
    let calls : push_loop u16_size ((r.highest_seq + 1) % u16_size) s
        ≡ map queue_push (counted (r.highest_seq + 1) n) =
      ap (λ z. push_loop u16_size z s) (omega arith)
      ∙ ap (push_loop u16_size (r.highest_seq + 1)) (omega arith)
      ∙ push_loop-counted u16_size n (r.highest_seq + 1) (omega arith) (omega arith) in
    ground (arith, diff, calls, first)

-- The same distance with the numbers gone round in between, from below 65535: the packet becomes
-- the highest one, and nothing of the gap is pushed.
pub on_packet_wrapped :
    (r : Reader) (s : ℕ)
    → r.first_received ≡ true
    → s < r.highest_seq
    → r.highest_seq + 1 < u16_size
    → s + u16_size < r.highest_seq + 0x8000
    → on_packet s r ≡ (record { first_received = true; highest_seq = s }, queue_remove s ∷ [])
unfolding on_packet seq_diff
on_packet_wrapped r s first lt small near =
    let calls : push_loop u16_size ((r.highest_seq + 1) % u16_size) s ≡ [] =
      push_loop_none u16_size ((r.highest_seq + 1) % u16_size) s (omega arith) in
    ground (arith, calls, first)
