-- ===== src/Prelude/Bits.antt =====
-- `|` of disjoint fields and `^` with a byte of ones, as arithmetic.
use Prim.Native.Nat.{
  ℕ, zero, suc, ◌+◌, ◌-◌, ◌*◌, ◌/◌, ◌≤◌, ◌<◌, max, bit_or, bit_xor, digits, bit_or-bitwise,
}
use mathlib.Core.Path.{◌≡◌, refl, ◌∙◌}
use mathlib.Core.Bool.{Bool, true, false}
use native.Mathlib.Omega.{arith}
use server_sdk_go.Prelude.Tests.{◌==◌, ==_iff, if◌then◌else◌}

-- The test holds for the numbers from 0 up to the bound.
passes : (ℕ → Bool) → ℕ → Bool
passes test zero = true
passes test (suc bound) = if passes test bound then test bound else false

passed : (test : ℕ → Bool) (bound i : ℕ) → i < bound → passes test bound ≡ true → test i ≡ true
unfolding passes
passed test zero i lt h = absurd (omega arith)
passed test (suc bound) i lt h = ground (arith, passed test bound i)

flipped_bytes : passes (λ byte. 255 - byte == bit_xor byte 0xff) 256 ≡ true
unfolding passes
flipped_bytes = refl

pub xor_ff : (x : ℕ) → x < 256 → bit_xor x 0xff ≡ 255 - x
xor_ff x h = omega (arith, (==_iff (255 - x) (bit_xor x 0xff)).0 (passed _ 256 x h flipped_bytes))

-- `t << k`
shifted : ℕ → ℕ → ℕ
shifted zero t = t
shifted (suc k) t = shifted k t * 2

-- Below a number that was shifted by `k` there is room for any number of `k` digits.
or_sum :
    (count k whole t low : ℕ)
    → whole ≤ count
    → whole ≡ shifted k t
    → low < shifted k 1
    → digits (λ rest. rest) max count whole low ≡ whole + low
unfolding shifted
or_sum zero k whole t low small e room = omega arith
or_sum (suc count) k zero t low small e room = omega arith
or_sum (suc count) zero (suc whole) t low small e room =
    let half = or_sum count zero (suc whole / 2) (suc whole / 2) (low / 2) in
    omega (arith, half (omega arith) refl (omega arith))
or_sum (suc count) (suc k) (suc whole) t low small e room =
    let half = or_sum count k (suc whole / 2) t (low / 2) in
    omega (arith, half (omega arith) (omega arith) (omega arith))

-- `(t << 8) | r` is a sum for a byte `r`.
pub or_byte : (t r : ℕ) → r < 256 → bit_or (t * 256) r ≡ t * 256 + r
unfolding shifted
or_byte t r h =
    bit_or-bitwise (t * 256) r ∙ or_sum (t * 256) 8 (t * 256) t r (omega arith) (omega arith) h
