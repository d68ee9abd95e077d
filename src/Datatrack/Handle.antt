-- ===== src/Datatrack/Handle.antt =====
-- internal/datatrack/handle.go: the numbers that identify data tracks.
use server_sdk_go.Prelude.{ℕ, zero, suc, ◌+◌, ◌<◌, ◌≡◌, ltb, ◌==◌, if◌then◌else◌, min, arith, refl}

pub data HandleError : Type 0 where
  reserved too_large exhausted : HandleError

pub data HandleResult : Type 0 where
  handle : ℕ → HandleResult
  failed : HandleError → HandleResult

-- `math.MaxUint16`
abbrev pub max_uint16 : ℕ
max_uint16 = 65535

unfoldable pub handle_from_uint32 : ℕ → HandleResult
handle_from_uint32 value =
    if ltb max_uint16 value
    then failed too_large
    else if value == 0
    then failed reserved
    else handle value

pub record HandleAllocator : Type 0 where
  pub value : ℕ

unfoldable pub get : HandleAllocator → HandleAllocator × HandleResult
get a =
    if a.value == max_uint16
    then (a, failed exhausted)
    else (record { value = a.value + 1 }, handle (a.value + 1))

-- The allocator after `n` calls, from a new one.
pub after : ℕ → HandleAllocator
unfolding get
after zero = record { value = 0 }
after (suc n) = (get (after n)).0

value-after : (n : ℕ) → (after n).value ≡ min n max_uint16
unfolding after get
value-after zero = refl
value-after (suc n) = ground (arith, value-after n)

-- The call that follows `n` others hands out the handle `n + 1`, so no handle twice and never the
-- reserved 0, until all 65535 are given out; from then on every call fails.
pub get-after :
    (n : ℕ) → (get (after n)).1 ≡ (if ltb n max_uint16 then handle (n + 1) else failed exhausted)
unfolding get
get-after n = ground (arith, value-after n)

-- Every handle that is given out is one that the peer's `handleFromUint32` accepts.
pub handle_from_uint32-get :
    (n : ℕ) → n < max_uint16 → handle_from_uint32 (n + 1) ≡ (get (after n)).1
unfolding handle_from_uint32
handle_from_uint32-get n h = ground (arith, get-after n)
