-- ===== src/Datatrack/Clock.antt =====
-- internal/datatrack/clock.go: packet timestamps in ticks of 90 kHz, modulo 2 ^ 32.
use server_sdk_go.Prelude.{
  ℕ, ◌+◌, ◌-◌, ◌*◌, ◌/◌, ◌%◌, ◌^◌, ◌≤◌, ◌<◌, ◌≡◌, Bool, false, not, ltb, leb, ◌==◌, if◌then◌else◌,
  List, [], ◌∷◌, refl, ap, Bool-cases, inl, inr, ℤ, pos, negsuc, arith,
}

abbrev pub clock_rate : ℕ
clock_rate = 90_000

abbrev pub u32 : ℕ
u32 = 2 ^ 32

-- `t-other` on uint32.
abbrev pub sub_u32 : ℕ → ℕ → ℕ
sub_u32 t other = (t + u32 - other) % u32

-- `int32(d) < 0` holds of the upper half of the words.
unfoldable pub is_before : ℕ → ℕ → Bool
is_before t other =
    if sub_u32 t other == 2 ^ 31 then ltb t other else leb (2 ^ 31) (sub_u32 t other)

unfoldable pub wrapping_add : ℕ → ℕ → ℕ
wrapping_add t ticks = (t + ticks) % u32

-- `d.Nanoseconds()`, a signed number.
pub clamp_nanos : ℤ → ℕ
clamp_nanos (pos n) = n
clamp_nanos (negsuc n) = 0

unfoldable pub duration_to_ticks : ℤ → ℕ
unfolding clamp_nanos
duration_to_ticks d =
    let nanos = clamp_nanos d in
    let seconds = nanos / 1_000_000_000 in
    let remainder = nanos % 1_000_000_000 in
    (seconds * clock_rate + (remainder * clock_rate + 500_000_000) / 1_000_000_000) % u32

-- An instant is known by the time since the epoch, `instant.Sub(c.epoch)`.
pub record Clock : Type 0 where
  pub base : ℕ
  pub prev : ℕ

unfoldable pub new_clock : ℕ → Clock
new_clock base = record { base = base; prev = base }

unfoldable pub at : Clock → ℤ → Clock × ℕ
at c since =
    let ts = wrapping_add c.base (duration_to_ticks since) in
    let ts' = if is_before ts c.prev then c.prev else ts in (record c { prev = ts' }, ts')

-- Of two different timestamps exactly one is before the other, and none is before itself: also at
-- the distance of half the circle, where the signed difference alone would say both.
pub is_before_total :
    (t other : ℕ)
    → t < u32
    → other < u32
    → is_before t other ≡ (if t == other then false else not (is_before other t))
unfolding is_before
is_before_total t other ht ho = ground arith

-- The ticks of an instant before they go round, to the nearest one.
abbrev pub ticks_of : ℤ → ℕ
ticks_of (pos n) = (n * clock_rate + 500_000_000) / 1_000_000_000
ticks_of (negsuc n) = 0

duration_to_ticks_lem : (d : ℤ) → duration_to_ticks d ≡ ticks_of d % u32
unfolding duration_to_ticks clamp_nanos
duration_to_ticks_lem (pos n) = omega arith
duration_to_ticks_lem (negsuc n) = omega arith

-- The timestamps that a clock gives at the instants of a list, one call after the other.
unfoldable pub stamps : Clock → List ℤ → List ℕ
stamps c [] = []
stamps c (d ∷ ds) = (at c d).1 ∷ stamps (at c d).0 ds

abbrev pub higher : ℕ → ℕ → ℕ
higher m n = if ltb m n then n else m

-- Each instant is less than half the circle of 2 ^ 32 ticks ahead of the highest one before it or
-- behind it, the highest one being `m` at first.
abbrev pub IsPaced : ℕ → List ℤ → Type 0
IsPaced m [] = Unit
IsPaced m (d ∷ ds) =
    (ticks_of d < m + 2 ^ 31) × (m < ticks_of d + 2 ^ 31) × IsPaced (higher m (ticks_of d)) ds

-- The highest ticks so far, behind a base, modulo 2 ^ 32.
abbrev pub highest_ticks : ℕ → ℕ → List ℤ → List ℕ
highest_ticks base m [] = []
highest_ticks base m (d ∷ ds) =
    (base + higher m (ticks_of d)) % u32 ∷ highest_ticks base (higher m (ticks_of d)) ds

at-highest :
    (base m : ℕ) (d : ℤ)
    → ticks_of d < m + 2 ^ 31
    → m < ticks_of d + 2 ^ 31
    → let c : Clock = record { base = base; prev = (base + m) % u32 } in
      at c d ≡ (
        record { base = base; prev = (base + higher m (ticks_of d)) % u32 },
        (base + higher m (ticks_of d)) % u32,
      )
unfolding at wrapping_add is_before
at-highest base m d ahead behind =
    let t = ticks_of d in
    let same = duration_to_ticks_lem d in
    let c : Clock = record { base = base; prev = (base + m) % u32 } in
    elim (Bool-cases (ltb m t)) [
      | inl up ↦
          let ts : wrapping_add base (duration_to_ticks d) ≡ (base + t) % u32 =
            rw same (omega arith) in
          let go : is_before ((base + t) % u32) ((base + m) % u32) ≡ false = ground arith in
          rw (ts, go, up) refl
      | inr down ↦
          let ts : wrapping_add base (duration_to_ticks d) ≡ (base + t) % u32 =
            rw same (omega arith) in
          elim (Bool-cases (is_before ((base + t) % u32) ((base + m) % u32))) [
            | inl back ↦ rw (ts, back, down) refl
            | inr level ↦
                let eq : (base + t) % u32 ≡ (base + m) % u32 = ground arith in
                rw (ts, level, down, eq) refl
          ]
    ]

stamps_from :
    (base m : ℕ) (ds : List ℤ)
    → IsPaced m ds
    → stamps (record { base = base; prev = (base + m) % u32 }) ds ≡ highest_ticks base m ds
unfolding stamps
stamps_from base m [] h = refl
stamps_from base m (d ∷ ds) (ahead, behind, rest) = rw (at-highest base m d ahead behind) (
    ap (λ ts. (base + higher m (ticks_of d)) % u32 ∷ ts)
      (stamps_from base (higher m (ticks_of d)) ds rest))

-- The timestamps of a new clock are its base and the highest ticks that an instant has had so far,
-- modulo 2 ^ 32: they follow the instants, never go back and go round with the word, for instants
-- each of which is less than 2 ^ 31 ticks from the highest one before it.
pub stamps-highest_ticks :
    (base : ℕ) (ds : List ℤ)
    → base < u32
    → IsPaced 0 ds
    → stamps (new_clock base) ds ≡ highest_ticks base 0 ds
unfolding new_clock
stamps-highest_ticks base ds small h =
    let same : base ≡ (base + 0) % u32 = omega arith in
    let start : new_clock base ≡ record { base = base; prev = (base + 0) % u32 } =
      ap (λ prev. record { base = base; prev = prev }) same in
    rw start (stamps_from base 0 ds h)

-- The ticks of a duration of `n` nanoseconds are `n * 90000 / 10 ^ 9` to within half a tick, where
-- the nearest tick fits 32 bits, and a negative duration, whichever it is, has none.
pub duration_to_ticks_rounds :
    (n m : ℕ)
    → (n * clock_rate + 500_000_000) / 1_000_000_000 < u32
    → (2 * n * clock_rate ≤ 2 * duration_to_ticks (pos n) * 1_000_000_000 + 1_000_000_000)
      × (2 * duration_to_ticks (pos n) * 1_000_000_000 ≤ 2 * n * clock_rate + 1_000_000_000)
      × (duration_to_ticks (negsuc m) ≡ 0)
unfolding duration_to_ticks clamp_nanos
duration_to_ticks_rounds n m h = omega arith
