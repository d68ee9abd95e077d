-- ===== src/Datatrack/Packetizer/Chunks.antt =====
-- The chunks of a payload and the packets that carry them.
use server_sdk_go.Prelude.{
  ℕ, zero, suc, ◌+◌, ◌%◌, ◌≤◌, ◌<◌, ◌≡◌, refl, ap, ◌∙◌, List, [], ◌∷◌, ◌++◌, length, take, drop,
  min, joined, All, take-append-drop, length-take, length-drop, arith,
}
use server_sdk_go.Datatrack.Packetizer.{u16, chunk_loop, chunk_payload, next_sequence}

joined-chunk_loop :
    (fuel : ℕ) (payload : List ℕ) (m : ℕ)
    → 1 ≤ m
    → length payload ≤ fuel
    → joined (chunk_loop fuel payload m) ≡ payload
unfolding chunk_loop
joined-chunk_loop fuel [] m h hf = refl
joined-chunk_loop zero (x ∷ payload) m h hf = absurd (omega arith)
joined-chunk_loop (suc fuel) (x ∷ payload) m h hf =
    let n = min m (suc (length payload)) in
    ap (λ l. take n (x ∷ payload) ++ l)
      (joined-chunk_loop fuel (drop n (x ∷ payload)) m h
        (omega (arith, length-drop n (x ∷ payload))))
    ∙ take-append-drop n (x ∷ payload)

abbrev FitsChunk : ℕ → List ℕ → Type 0
FitsChunk m c = (1 ≤ length c) × (length c ≤ m)

chunk_loop-FitsChunk :
    (fuel : ℕ) (payload : List ℕ) (m : ℕ) → 1 ≤ m → All (FitsChunk m) (chunk_loop fuel payload m)
unfolding chunk_loop
chunk_loop-FitsChunk fuel [] m h = tt
chunk_loop-FitsChunk zero (x ∷ payload) m h = tt
chunk_loop-FitsChunk (suc fuel) (x ∷ payload) m h =
    let n = min m (suc (length payload)) in
    (
      omega (arith, length-take n (x ∷ payload)),
      chunk_loop-FitsChunk fuel (drop n (x ∷ payload)) m h,
    )

-- `chunkPayload` cuts any payload into chunks that join to it, none empty and none longer than the
-- limit, when the limit is not zero; its loop ends within the model's fuel.
pub chunk_payload_lem :
    (payload : List ℕ) (m : ℕ)
    → 1 ≤ m
    → (joined (chunk_payload payload m) ≡ payload)
      × All (λ c. (1 ≤ length c) × (length c ≤ m)) (chunk_payload payload m)
unfolding chunk_payload
chunk_payload_lem payload m h = (
  joined-chunk_loop (length payload) payload m h (omega arith),
  chunk_loop-FitsChunk (length payload) payload m h,
)

pub next_sequence_lem :
    (chunks : List (List ℕ)) (s : ℕ) → s < u16 → next_sequence s chunks ≡ (s + length chunks) % u16
unfolding next_sequence
next_sequence_lem [] s h = omega arith
next_sequence_lem (c ∷ cs) s h = omega (arith, next_sequence_lem cs ((s + 1) % u16) (omega arith))
