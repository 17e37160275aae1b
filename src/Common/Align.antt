-- ===== src/Common/Align.antt =====
-- include/cutie/common/misc.h: what `align` computes at a power of two.
use cutie_rhi.Base.{ℕ, ◌+◌, ◌-◌, ◌%◌, ◌^◌, ◌≤◌, ◌<◌, ◌≡◌, arith}
use cutie_rhi.Base.Bits.{bit_and-low_ones, bit_and-complement}
use native.Mathlib.Nat.{one-le-pow}
use cutie_rhi.Resources.{u64}
use cutie_rhi.Common.{align}

pub align-eq :
    (size k : ℕ)
    → size + 2 ^ k ≤ 2 ^ 64
    → 0 < 2 ^ k
    → align size (2 ^ k) + (size + 2 ^ k - 1) % 2 ^ k ≡ size + 2 ^ k - 1
unfolding align
align-eq size k h p =
    let x : ℕ = size + 2 ^ k - 1 in
    let here : (size + 2 ^ k + (u64 - 1)) % u64 ≡ x = omega arith in
    let mask : (2 ^ k + (u64 - 1)) % u64 ≡ 2 ^ k - 1 = omega arith in
    rw (here, mask)
      (omega (
        arith,
        bit_and-low_ones k x,
        bit_and-complement 64 x (2 ^ k - 1) (omega arith) (omega arith),
      ))

-- What `align` returns at a power of two: a multiple, at or above the size and less than one
-- alignment above it.
pub align-bounds :
    (size k : ℕ)
    → size + 2 ^ k ≤ 2 ^ 64
    → (size ≤ align size (2 ^ k))
      × (align size (2 ^ k) < size + 2 ^ k)
      × (align size (2 ^ k) % 2 ^ k ≡ 0)
align-bounds size k h =
    let e = align-eq size k h (one-le-pow k 2 (omega arith)) in
    let p : 1 ≤ 2 ^ k = one-le-pow k 2 (omega arith) in grind arith
