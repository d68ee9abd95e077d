-- ===== src/Datatrack/Depacketizer/Assembly.antt =====
-- The payloads of a frame whose packets arrived in order, and what `finalize` makes of them.
use server_sdk_go.Prelude.{
  ℕ, zero, suc, ◌+◌, ◌-◌, ◌%◌, ◌<◌, ◌≡◌, refl, sym, ap, ◌∙◌, true, false, List, [], ◌∷◌, ◌++◌, none,
  some, ◌==◌, length, joined, lookup, insert, length-append, append_assoc, append-nil, arith,
}
use server_sdk_go.Datatrack.Packet.{Dtp, Extensions}
use server_sdk_go.Datatrack.Packetizer.{u16}
use server_sdk_go.Datatrack.Depacketizer.{whole, assemble, PartialFrame, finalize}

-- Chunks under consecutive sequence numbers, from `s` on.
abbrev pub numbered : ℕ → List (List ℕ) → List (ℕ × List ℕ)
numbered s [] = []
numbered s (c ∷ cs) = (s, c) ∷ numbered ((s + 1) % u16) cs

pub length-numbered : (s : ℕ) (cs : List (List ℕ)) → length (numbered s cs) ≡ length cs
length-numbered s [] = refl
length-numbered s (c ∷ cs) = ap suc (length-numbered ((s + 1) % u16) cs)

-- The next packet's payload goes to the end: its number is new while fewer than 2 ^ 16 are there.
pub insert-numbered :
    (cs : List (List ℕ)) (s k : ℕ) (c : List ℕ)
    → s < u16
    → length cs < u16
    → k ≡ (s + length cs) % u16
    → insert k c (numbered s cs) ≡ numbered s (cs ++ (c ∷ []))
unfolding insert
insert-numbered [] s k c hs hl e = ground arith
insert-numbered (b ∷ cs) s k c hs hl e =
    ground (arith, insert-numbered cs ((s + 1) % u16) k c (omega arith) (omega arith) (omega arith))

pub lookup-numbered :
    (pre : List (List ℕ)) (c : List ℕ) (rest : List (List ℕ)) (s k : ℕ)
    → s < u16
    → length pre < u16
    → k ≡ (s + length pre) % u16
    → lookup k (numbered s (pre ++ (c ∷ rest))) ≡ some c
unfolding lookup
lookup-numbered [] c rest s k hs hl e = ground arith
lookup-numbered (b ∷ pre) c rest s k hs hl e =
    ground (
      arith,
      lookup-numbered pre c rest ((s + 1) % u16) k (omega arith) (omega arith) (omega arith),
    )

pub assemble-numbered :
    (rest : List (List ℕ)) (fuel : ℕ) (pre : List (List ℕ)) (c : List ℕ) (s k end : ℕ)
    (out : List ℕ)
    → s < u16
    → length pre + length rest < u16
    → length rest < fuel
    → k ≡ (s + length pre) % u16
    → end ≡ (s + (length pre + length rest)) % u16
    → assemble fuel (numbered s (pre ++ (c ∷ rest))) k end out ≡ whole (out ++ joined (c ∷ rest))
unfolding assemble
assemble-numbered rest zero pre c s k end out hs hl hf e e' = absurd (omega arith)
assemble-numbered [] (suc fuel) pre c s k end out hs hl hf e e' =
    let last : (k == end) ≡ true = ground arith in
    rw (lookup-numbered pre c [] s k hs (omega arith) e, assemble)
      (rw last (ap (λ l. whole (out ++ l)) (sym (append-nil c))))
assemble-numbered (b ∷ rest) (suc fuel) pre c s k end out hs hl hf e e' =
    let more : (k == end) ≡ false = ground arith in
    rw (lookup-numbered pre c (b ∷ rest) s k hs (omega arith) e, assemble)
      (rw more (
        ap (λ l. assemble fuel (numbered s l) ((k + 1) % u16) end (out ++ c))
          (sym (append_assoc pre (c ∷ []) (b ∷ rest)))
        ∙ assemble-numbered rest fuel (pre ++ (c ∷ [])) b s ((k + 1) % u16) end (out ++ c) hs
            (omega (arith, length-append pre (c ∷ []))) (omega arith)
            (omega (arith, length-append pre (c ∷ []))) (omega (arith, length-append pre (c ∷ [])))
        ∙ ap whole (append_assoc out c (joined (b ∷ rest)))))

module _ (dtp : Dtp) (ext : Extensions dtp.E2ee) where
  abbrev pub in_order : ℕ → List (List ℕ) → PartialFrame dtp
  in_order s cs = record { start_sequence = s; extensions = ext; payloads = numbered s cs }

  -- A frame of which every packet came gives its payload.
  pub finalize-numbered :
      (frame_number s : ℕ) (c : List ℕ) (rest : List (List ℕ)) (end : ℕ)
      → s < u16
      → suc (length rest) < u16
      → end ≡ (s + length rest) % u16
      → finalize dtp frame_number (in_order s (c ∷ rest)) end ≡ record {
        frame = some (record { payload = joined (c ∷ rest); extensions = ext });
        dropped = none;
      }
  unfolding finalize
  finalize-numbered frame_number s c rest end hs hl e =
      let size : length (numbered s (c ∷ rest)) ≡ suc (length rest) =
        length-numbered s (c ∷ rest) in
      let all : (length (numbered s (c ∷ rest)) % u16 == (end + u16 - s + 1) % u16) ≡ true =
        ground arith in
      rw (all, finalize)
        (rw
          (assemble-numbered rest (suc (length (numbered s (c ∷ rest)))) [] c s s end [] hs
            (omega arith) (omega arith) (omega arith) (omega arith))
          refl)
