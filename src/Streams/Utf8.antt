-- ===== src/Streams/Utf8.antt =====
-- The cutting of text in streams.go: `chunkUtf8String`.
use server_sdk_go.Prelude.{
  ℕ, zero, suc, ◌+◌, ◌≤◌, ◌<◌, ◌≡◌, ◌∙◌, ap, refl, Bool, true, false, ◌&&◌, List, [], ◌∷◌, ◌++◌,
  Option, none, some, leb, if◌then◌else◌, length, take, drop, get_or, joined, All, Bool-cases, inl,
  inr, arith, length-take, length-drop, take-append-drop, append-nil,
}
use server_sdk_go.Streams.{is_continuation, back_up, utf8_loop, chunk_utf8_string, last_chunk}

same_byte : (bs : List ℕ) (i j : ℕ) → i ≡ j → get_or bs i 0 ≡ get_or bs j 0
same_byte bs i j e = ap (λ k. get_or bs k 0) e

get_or-drop : (n i : ℕ) (bs : List ℕ) → get_or (drop n bs) i 0 ≡ get_or bs (n + i) 0
get_or-drop zero i bs = same_byte bs i (0 + i) (omega arith)
get_or-drop (suc n) i [] = ground arith
get_or-drop (suc n) i (b ∷ bs) =
    get_or-drop n i bs ∙ same_byte (b ∷ bs) (suc (n + i)) (suc n + i) (omega arith)

get_or-take : (n i : ℕ) (bs : List ℕ) → i < n → get_or (take n bs) i 0 ≡ get_or bs i 0
get_or-take zero i bs h = absurd (omega arith)
get_or-take (suc n) i [] h = refl
get_or-take (suc n) zero (b ∷ bs) h = refl
get_or-take (suc n) (suc i) (b ∷ bs) h = get_or-take n i bs (omega arith)

abbrev pub continues : List ℕ → ℕ → Bool
continues bs i = is_continuation (get_or bs i 0)

-- Of four bytes in a row one starts a character, as in every valid UTF-8.
abbrev pub IsSpaced : List ℕ → Type 0
IsSpaced bs =
    (i : ℕ)
    → i + 3 < length bs
    → (is_continuation (get_or bs i 0)
        && is_continuation (get_or bs (i + 1) 0)
        && is_continuation (get_or bs (i + 2) 0)
        && is_continuation (get_or bs (i + 3) 0))
      ≡ false

abbrev pub IsStart : List ℕ → Type 0
IsStart bs = is_continuation (get_or bs 0 0) ≡ false

drop-IsSpaced : (n : ℕ) (bs : List ℕ) → IsSpaced bs → IsSpaced (drop n bs)
drop-IsSpaced n bs spaced i h =
    rw
      (
        get_or-drop n i bs,
        get_or-drop n (i + 1) bs,
        get_or-drop n (i + 2) bs,
        get_or-drop n (i + 3) bs,
      )
      (ground (arith, spaced (n + i) (omega (arith, h, length-drop n bs))))

pub back_up-le : (bs : List ℕ) (k : ℕ) → back_up bs k ≤ k
unfolding back_up
back_up-le bs zero = omega arith
back_up-le bs (suc k) = ground (arith, back_up-le bs k)

pub back_up-starts : (bs : List ℕ) (k : ℕ) → 1 ≤ back_up bs k → continues bs (back_up bs k) ≡ false
unfolding back_up
back_up-starts bs zero h = absurd (omega arith)
back_up-starts bs (suc k) h = elim (Bool-cases (continues bs (suc k))) [
  | inl e ↦
      let same : back_up bs (suc k) ≡ back_up bs k = ground arith in
      rw same (back_up-starts bs k (ground arith))
  | inr e ↦ let same : back_up bs (suc k) ≡ suc k = ground arith in rw same e
]

-- One step of the search at a byte that continues a character.
back_up-suc :
    (bs : List ℕ) (k : ℕ)
    → back_up bs (suc k) ≡ (if continues bs (suc k) then back_up bs k else suc k)
unfolding back_up
back_up-suc bs k = refl

back_up-positive :
    (bs : List ℕ) (k : ℕ)
    → IsSpaced bs
    → suc (suc (suc (suc k))) < length bs
    → 1 ≤ back_up bs (suc (suc (suc (suc k))))
back_up-positive bs k spaced h = ground (
  arith,
  spaced (suc k) (omega (arith, h)),
  same_byte bs (suc k + 1) (suc (suc k)) (omega arith),
  same_byte bs (suc k + 2) (suc (suc (suc k))) (omega arith),
  same_byte bs (suc k + 3) (suc (suc (suc (suc k)))) (omega arith),
  back_up-suc bs (suc (suc (suc k))),
  back_up-suc bs (suc (suc k)),
  back_up-suc bs (suc k),
  back_up-suc bs k,
)

back_up-large :
    (bs : List ℕ) (size : ℕ) → IsSpaced bs → 4 ≤ size → size < length bs → 1 ≤ back_up bs size
back_up-large bs (suc (suc (suc (suc k)))) spaced h long = back_up-positive bs k spaced long
back_up-large bs zero spaced h long = absurd (omega arith)
back_up-large bs (suc zero) spaced h long = absurd (omega arith)
back_up-large bs (suc (suc zero)) spaced h long = absurd (omega arith)
back_up-large bs (suc (suc (suc zero))) spaced h long = absurd (omega arith)

back_up-zero :
    (bs : List ℕ) (k : ℕ)
    → k < length bs
    → ((i : ℕ) → i < length bs → is_continuation (get_or bs i 0) ≡ true)
    → back_up bs k ≡ 0
unfolding back_up
back_up-zero bs zero h all = refl
back_up-zero bs (suc k) h all =
    ground (arith, all (suc k) h, back_up-zero bs k (omega (arith, h)) all)

add_one : (n : ℕ) → n + 1 ≡ suc n
add_one n = omega arith

-- A chunk is not empty, is not too long, and does not begin inside a character.
abbrev pub IsChunk : ℕ → List ℕ → Type 0
IsChunk size c = (1 ≤ length c) × (length c ≤ size) × IsStart c

abbrev pub IsCut : ℕ → List ℕ → Option (List (List ℕ)) → Type 0
IsCut size bs found =
    (chunks : List (List ℕ)) × (found ≡ some chunks)
    × (joined chunks ≡ bs)
    × All (IsChunk size) chunks

last_chunk-IsCut :
    (size : ℕ) (bs : List ℕ) → IsStart bs → length bs ≤ size → IsCut size bs (some (last_chunk bs))
last_chunk-IsCut size [] start short = ([], refl, refl, tt)
last_chunk-IsCut size (b ∷ bs) start short =
    (last_chunk (b ∷ bs), refl, append-nil (b ∷ bs), ((omega arith, short, start), tt))

module _ (size : ℕ) (enough : 4 ≤ size) where
  longer-IsCut :
      (fuel : ℕ) (bs : List ℕ)
      → size < length bs
      → IsSpaced bs
      → IsStart bs
      → IsCut size (drop (back_up bs size) bs) (utf8_loop size fuel (drop (back_up bs size) bs))
      → IsCut size bs (utf8_loop size (suc fuel) bs)
  unfolding utf8_loop
  longer-IsCut fuel bs long spaced start (chunks, e, whole, good) =
      let k = back_up bs size in
      let positive = back_up-large bs size spaced enough long in
      let too_long : leb (length bs) size ≡ false = ground arith in
      (
        take k bs ∷ chunks,
        rw (too_long, e) refl,
        ap (λ l. take k bs ++ l) whole ∙ take-append-drop k bs,
        (
          (
            omega (arith, positive, long, back_up-le bs size, length-take k bs),
            omega (arith, back_up-le bs size, length-take k bs),
            ground (arith, get_or-take k 0 bs positive),
          ),
          good,
        ),
      )

  utf8_loop-IsCut :
      (fuel : ℕ) (bs : List ℕ)
      → length bs < fuel
      → IsSpaced bs
      → IsStart bs
      → IsCut size bs (utf8_loop size fuel bs)
  unfolding utf8_loop
  utf8_loop-IsCut zero bs h spaced start = absurd (omega arith)
  utf8_loop-IsCut (suc fuel) bs h spaced start = elim (Bool-cases (leb (length bs) size)) [
    | inl short ↦ rw short (last_chunk-IsCut size bs start (ground arith))
    | inr long ↦
        let k = back_up bs size in
        let over : size < length bs = ground arith in
        let positive = back_up-large bs size spaced enough over in
        longer-IsCut fuel bs over spaced start (
          utf8_loop-IsCut fuel (drop k bs) (omega (arith, h, positive, over, length-drop k bs))
            (drop-IsSpaced k bs spaced)
            (ground (
              arith,
              get_or-drop k 0 bs,
              same_byte bs (k + 0) k (omega arith),
              back_up-starts bs size positive,
            )))
  ]

  -- Text of which the first byte, and one of any four bytes in a row, starts a character is cut into
  -- chunks that join to it; the cutting ends, and each chunk is not empty, is at most as long as the
  -- size, which is four at least, and begins with the start of a character.
  pub chunk_utf8_string-IsCut :
      (bs : List ℕ) → IsSpaced bs → IsStart bs → IsCut size bs (chunk_utf8_string size bs)
  unfolding chunk_utf8_string
  chunk_utf8_string-IsCut bs spaced start =
      rw (add_one (length bs)) (utf8_loop-IsCut (suc (length bs)) bs (omega arith) spaced start)

-- Bytes that all continue a character, as no valid UTF-8 has them but a Go string may, are cut into
-- empty chunks for ever where they are more than the size: no number of rounds is enough.
pub utf8_loop-none :
    (size fuel : ℕ) (bs : List ℕ)
    → size < length bs
    → ((i : ℕ) → i < length bs → is_continuation (get_or bs i 0) ≡ true)
    → utf8_loop size fuel bs ≡ none
unfolding utf8_loop
utf8_loop-none size zero bs long all = refl
utf8_loop-none size (suc fuel) bs long all =
    let too_long : leb (length bs) size ≡ false = ground arith in
    rw (too_long, back_up-zero bs size long all, utf8_loop-none size fuel bs long all) refl
