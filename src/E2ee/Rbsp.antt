-- ===== src/E2ee/Rbsp.antt =====
-- writeRBSP, parseRBSP and needsRBSPUnescaping of e2ee/codec_video.go.
use server_sdk_go.Prelude.{
  ℕ, ◌+◌, ◌≤◌, ◌≡◌, ◌≢◌, refl, ap, ◌∙◌, Bool, true, false, ◌&&◌, ◌||◌, List, [], ◌∷◌, leb, ◌==◌,
  if◌then◌else◌, length, arith,
}

-- The loop of `writeRBSP`, at `numConsecutiveZeros`.
unfoldable pub write_loop : ℕ → List ℕ → List ℕ
write_loop run [] = []
write_loop run (b ∷ rest) =
    let escape = leb b 3 && leb 2 run in
    let run' = if escape then 0 else run in
    let out = b ∷ write_loop (if b == 0 then run' + 1 else 0) rest in
    if escape then 3 ∷ out else out

unfoldable pub write_rbsp : List ℕ → List ℕ
unfolding write_loop
write_rbsp d = write_loop 0 d

abbrev is_escape : ℕ → ℕ → ℕ → Bool
is_escape a b c = (a == 0) && (b == 0) && (c == 3)

-- The list is `data[i:]`.
unfoldable pub parse_rbsp : List ℕ → List ℕ
parse_rbsp [] = []
parse_rbsp (a ∷ []) = a ∷ []
parse_rbsp (a ∷ b ∷ []) = a ∷ b ∷ []
parse_rbsp (a ∷ b ∷ c ∷ rest) = elim (is_escape a b c) [
  | true ↦ 0 ∷ 0 ∷ parse_rbsp rest
  | false ↦ a ∷ parse_rbsp (b ∷ c ∷ rest)
]

unfoldable pub needs_rbsp_unescaping : List ℕ → Bool
needs_rbsp_unescaping [] = false
needs_rbsp_unescaping (a ∷ []) = false
needs_rbsp_unescaping (a ∷ b ∷ []) = false
needs_rbsp_unescaping (a ∷ b ∷ c ∷ rest) = is_escape a b c || needs_rbsp_unescaping (b ∷ c ∷ rest)

-- Where there is nothing to unescape, `parseRBSP` changes nothing.
pub parse_rbsp-needs_rbsp_unescaping :
    (l : List ℕ) → needs_rbsp_unescaping l ≡ false → parse_rbsp l ≡ l
unfolding parse_rbsp needs_rbsp_unescaping
parse_rbsp-needs_rbsp_unescaping [] h = refl
parse_rbsp-needs_rbsp_unescaping (a ∷ []) h = refl
parse_rbsp-needs_rbsp_unescaping (a ∷ b ∷ []) h = refl
parse_rbsp-needs_rbsp_unescaping (a ∷ b ∷ c ∷ rest) h =
    ground (arith, parse_rbsp-needs_rbsp_unescaping (b ∷ c ∷ rest))

-- A byte that is not 0 is copied, and so is a 0 in front of such a byte.
parse_nonzero : (b : ℕ) (l : List ℕ) → b ≢ 0 → parse_rbsp (b ∷ l) ≡ b ∷ parse_rbsp l
unfolding parse_rbsp
parse_nonzero b [] h = refl
parse_nonzero b (c ∷ []) h = refl
parse_nonzero b (c ∷ e ∷ l) h = ground arith

parse_zero_nonzero : (b : ℕ) (l : List ℕ) → b ≢ 0 → parse_rbsp (0 ∷ b ∷ l) ≡ 0 ∷ b ∷ parse_rbsp l
parse_zero_nonzero b [] h = unfold parse_rbsp in refl
parse_zero_nonzero b (c ∷ l) h = step ∙ ap (λ k. 0 ∷ k) (parse_nonzero b (c ∷ l) h)
  where
    step : parse_rbsp (0 ∷ b ∷ c ∷ l) ≡ 0 ∷ parse_rbsp (b ∷ c ∷ l)
    step = unfold parse_rbsp in ground arith

parse_two_zeros :
    (b : ℕ) (l : List ℕ) → b ≢ 0 → b ≢ 3 → parse_rbsp (0 ∷ 0 ∷ b ∷ l) ≡ 0 ∷ 0 ∷ b ∷ parse_rbsp l
parse_two_zeros b l h h3 = step ∙ ap (λ k. 0 ∷ k) (parse_zero_nonzero b l h)
  where
    step : parse_rbsp (0 ∷ 0 ∷ b ∷ l) ≡ 0 ∷ parse_rbsp (0 ∷ b ∷ l)
    step = unfold parse_rbsp in ground arith

parse_escape : (l : List ℕ) → parse_rbsp (0 ∷ 0 ∷ 3 ∷ l) ≡ 0 ∷ 0 ∷ parse_rbsp l
unfolding parse_rbsp
parse_escape l = refl

parse-nil : parse_rbsp [] ≡ []
unfolding parse_rbsp
parse-nil = refl

parse_one_zero : parse_rbsp (0 ∷ []) ≡ 0 ∷ []
unfolding parse_rbsp
parse_one_zero = refl

parse_only_zeros : parse_rbsp (0 ∷ 0 ∷ []) ≡ 0 ∷ 0 ∷ []
unfolding parse_rbsp
parse_only_zeros = refl

-- The bytes behind no zero, one zero and two zeros that were already written.
mutual
  unfolding write_loop

  behind_none : (l : List ℕ) → parse_rbsp (write_loop 0 l) ≡ l
  behind_none [] = parse-nil
  behind_none (b ∷ l) =
      ground (arith, behind_one l, parse_nonzero b (write_loop 0 l), behind_none l)

  behind_one : (l : List ℕ) → parse_rbsp (0 ∷ write_loop 1 l) ≡ 0 ∷ l
  behind_one [] = parse_one_zero
  behind_one (b ∷ l) =
      ground (arith, behind_two l, parse_zero_nonzero b (write_loop 0 l), behind_none l)

  behind_two : (l : List ℕ) → parse_rbsp (0 ∷ 0 ∷ write_loop 2 l) ≡ 0 ∷ 0 ∷ l
  behind_two [] = parse_only_zeros
  behind_two (b ∷ l) = ground (
    arith,
    behind_one l,
    behind_none l,
    parse_two_zeros b (write_loop 0 l),
    parse_nonzero b (write_loop 0 l),
    parse_escape (b ∷ write_loop 0 l),
    parse_escape (b ∷ write_loop 1 l),
  )

-- `parseRBSP` undoes `writeRBSP` on every sequence of bytes.
pub parse_rbsp-write_rbsp : (l : List ℕ) → parse_rbsp (write_rbsp l) ≡ l
unfolding write_rbsp
parse_rbsp-write_rbsp l = behind_none l

-- Escaping never shortens.
write_loop_longer : (run : ℕ) (l : List ℕ) → length l ≤ length (write_loop run l)
unfolding write_loop
write_loop_longer run [] = omega arith
write_loop_longer run (b ∷ l) =
    ground
      (arith, write_loop_longer 0 l, write_loop_longer (0 + 1) l, write_loop_longer (run + 1) l)

pub write_rbsp_longer : (l : List ℕ) → length l ≤ length (write_rbsp l)
unfolding write_rbsp
write_rbsp_longer l = write_loop_longer 0 l
