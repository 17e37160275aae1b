-- ===== src/Base/Bits.antt =====
-- Laws of `&` and `|` at variables, from the digit recursion that the native operations stand for.
use Prim.Native.Nat.{
  ℕ, zero, suc, ◌+◌, ◌*◌, ◌/◌, ◌-◌, ◌%◌, ◌^◌, ◌≤◌, ◌<◌, min, max, bit_and, bit_or, digits,
  bit_and-bitwise, bit_or-bitwise,
}
use mathlib.Core.Path.{◌≡◌, refl, ap, ◌∙◌, sym}
use native.Mathlib.Nat.{pow-suc, one-le-pow, mul_comm, div-div-eq-div-mul}
use native.Mathlib.Omega.{arith}

-- The digit recursion gives one result for every fuel that covers its first operand.
module _ (alone : ℕ → ℕ) (joined : ℕ → ℕ → ℕ) where
  same_digits :
      (fuel more x y : ℕ)
      → x ≤ fuel
      → x ≤ more
      → digits alone joined more x y ≡ digits alone joined fuel x y
  same_digits (suc fuel) (suc more) (suc x) y low high =
      omega (arith, same_digits fuel more (suc x / 2) (y / 2) (omega arith) (omega arith))
  same_digits (suc fuel) (suc more) zero y low high = refl
  same_digits (suc fuel) zero zero y low high = refl
  same_digits zero (suc more) zero y low high = refl
  same_digits zero zero zero y low high = refl
  same_digits zero more (suc x) y low high = absurd (omega arith)
  same_digits (suc fuel) zero (suc x) y low high = absurd (omega arith)

-- The lowest digit of `x & y` and of `x | y`, and the digits above it.
pub bit_and_step : (x y : ℕ) → bit_and x y ≡ bit_and (x / 2) (y / 2) * 2 + min (x % 2) (y % 2)
bit_and_step (suc x) y =
    let upper =
      same_digits (λ _. 0) min (suc x / 2) x (suc x / 2) (y / 2) (omega arith) (omega arith) in
    omega (arith, upper, bit_and-bitwise (suc x / 2) (y / 2), bit_and-bitwise (suc x) y)
bit_and_step zero y = omega (arith, bit_and-bitwise 0 (y / 2), bit_and-bitwise 0 y)

pub bit_or_step : (x y : ℕ) → bit_or x y ≡ bit_or (x / 2) (y / 2) * 2 + max (x % 2) (y % 2)
bit_or_step (suc x) y =
    let upper =
      same_digits (λ d. d) max (suc x / 2) x (suc x / 2) (y / 2) (omega arith) (omega arith) in
    omega (arith, upper, bit_or-bitwise (suc x / 2) (y / 2), bit_or-bitwise (suc x) y)
bit_or_step zero y = omega (arith, bit_or-bitwise 0 (y / 2), bit_or-bitwise 0 y)

-- The laws below go by induction on a bound of both operands.
absorb_below : (n a b : ℕ) → a ≤ n → b ≤ n → bit_and (bit_or a b) b ≡ b
absorb_below zero zero zero p q = refl
absorb_below zero zero (suc b) p q = absurd (omega arith)
absorb_below zero (suc a) b p q = absurd (omega arith)
absorb_below (suc n) a b p q = ground (
  arith,
  bit_and_step (bit_or a b) b,
  bit_or_step a b,
  absorb_below n (a / 2) (b / 2) (omega arith) (omega arith),
)

-- What is joined in is contained.
pub bit_and-bit_or_right : (a b : ℕ) → bit_and (bit_or a b) b ≡ b
bit_and-bit_or_right a b = absorb_below (max a b) a b (omega arith) (omega arith)

comm_below : (n a b : ℕ) → a ≤ n → b ≤ n → bit_or a b ≡ bit_or b a
comm_below zero zero zero p q = refl
comm_below zero zero (suc b) p q = absurd (omega arith)
comm_below zero (suc a) b p q = absurd (omega arith)
comm_below (suc n) a b p q = ground (
  arith,
  bit_or_step a b,
  bit_or_step b a,
  comm_below n (a / 2) (b / 2) (omega arith) (omega arith),
)

pub bit_or_comm : (a b : ℕ) → bit_or a b ≡ bit_or b a
bit_or_comm a b = comm_below (max a b) a b (omega arith) (omega arith)

pub bit_and-bit_or_left : (a b : ℕ) → bit_and (bit_or a b) a ≡ a
bit_and-bit_or_left a b = ap (λ t. bit_and t a) (bit_or_comm a b) ∙ bit_and-bit_or_right b a

-- A union that is empty has empty parts.
or_zero_below : (n a b : ℕ) → a ≤ n → b ≤ n → bit_or a b ≡ 0 → (a ≡ 0) × (b ≡ 0)
or_zero_below zero a b p q h = omega arith
or_zero_below (suc n) a b p q h = omega (
  arith,
  bit_or_step a b,
  or_zero_below n (a / 2) (b / 2) (omega arith) (omega arith) (omega (arith, bit_or_step a b)),
)

pub bit_or-eq-zero : (a b : ℕ) → bit_or a b ≡ 0 → (a ≡ 0) × (b ≡ 0)
bit_or-eq-zero a b = or_zero_below (max a b) a b (omega arith) (omega arith)

-- Sets of bits are ordered by `(a & b) == b`: the union is the least upper bound.
lub_below :
    (n a b c : ℕ)
    → a ≤ n
    → b ≤ n
    → c ≤ n
    → bit_and c a ≡ a
    → bit_and c b ≡ b
    → bit_and c (bit_or a b) ≡ bit_or a b
lub_below zero zero zero zero p q r h k = refl
lub_below zero zero zero (suc c) p q r h k = absurd (omega arith)
lub_below zero zero (suc b) c p q r h k = absurd (omega arith)
lub_below zero (suc a) b c p q r h k = absurd (omega arith)
lub_below (suc n) a b c p q r h k = ground (
  arith,
  bit_and_step c (bit_or a b),
  bit_or_step a b,
  bit_and_step c a,
  bit_and_step c b,
  lub_below n (a / 2) (b / 2) (c / 2) (omega arith) (omega arith) (omega arith)
      (omega (arith, bit_and_step c a)) (omega (arith, bit_and_step c b)),
)

pub bit_and-bit_or_lub :
    (a b c : ℕ) → bit_and c a ≡ a → bit_and c b ≡ b → bit_and c (bit_or a b) ≡ bit_or a b
bit_and-bit_or_lub a b c = lub_below (a + b + c) a b c (omega arith) (omega arith) (omega arith)

-- A wider set has every subset of a narrower one.
wider_below : (n a b c : ℕ) → a ≤ n → b ≤ n → c ≤ n → bit_and a c ≡ c → bit_and (bit_or a b) c ≡ c
wider_below zero zero zero zero p q r h = refl
wider_below zero zero zero (suc c) p q r h = absurd (omega arith)
wider_below zero zero (suc b) c p q r h = absurd (omega arith)
wider_below zero (suc a) b c p q r h = absurd (omega arith)
wider_below (suc n) a b c p q r h = ground (
  arith,
  bit_and_step (bit_or a b) c,
  bit_or_step a b,
  bit_and_step a c,
  wider_below n (a / 2) (b / 2) (c / 2) (omega arith) (omega arith) (omega arith)
      (omega (arith, bit_and_step a c)),
)

pub bit_and-bit_or_wider : (a b c : ℕ) → bit_and a c ≡ c → bit_and (bit_or a b) c ≡ c
bit_and-bit_or_wider a b c = wider_below (a + b + c) a b c (omega arith) (omega arith) (omega arith)

-- A shift by one more digit.
mul-two-pow-suc : (factor k : ℕ) → factor * 2 ^ suc k ≡ 2 * (factor * 2 ^ k)
mul-two-pow-suc factor k =
    let e : factor * 2 ^ suc k ≡ factor * (2 ^ k * 2) = ap (λ (x : ℕ). factor * x) (pow-suc 2 k) in
    omega (arith, e)

and-zero_below : (n a : ℕ) → a ≤ n → bit_and a 0 ≡ 0
and-zero_below zero zero p = refl
and-zero_below zero (suc a) p = absurd (omega arith)
and-zero_below (suc n) a p = omega (arith, bit_and_step a 0, and-zero_below n (a / 2) (omega arith))

pub bit_and-zero : (a : ℕ) → bit_and a 0 ≡ 0
bit_and-zero a = and-zero_below a a (omega arith)

-- `& (2^k - 1)` keeps the `k` low digits.
and-low_ones_split : (k q r : ℕ) → r < 2 ^ k → bit_and (r + q * 2 ^ k) (2 ^ k - 1) ≡ r
and-low_ones_split zero q r h = bit_and-zero (r + q * 2 ^ 0) ∙ omega arith
and-low_ones_split (suc k) q r h = ground (
  arith,
  bit_and_step (r + q * 2 ^ suc k) (2 ^ suc k - 1),
  mul-two-pow-suc q k,
  pow-suc 2 k,
  one-le-pow k 2,
  and-low_ones_split k q (r / 2) (omega (arith, pow-suc 2 k)),
)

pub bit_and-low_ones : (k x : ℕ) → bit_and x (2 ^ k - 1) ≡ x % 2 ^ k
bit_and-low_ones k x = ground (arith, one-le-pow k 2, and-low_ones_split k (x / 2 ^ k) (x % 2 ^ k))

-- `a | (q << k)` is a sum when `a` fits `k` digits.
pub bit_or-shifted : (k a q : ℕ) → a < 2 ^ k → bit_or a (q * 2 ^ k) ≡ a + q * 2 ^ k
bit_or-shifted zero zero q h = bit_or-bitwise 0 (q * 2 ^ 0) ∙ omega arith
bit_or-shifted zero (suc a) q h = absurd (omega arith)
bit_or-shifted (suc k) a q h = ground (
  arith,
  bit_or_step a (q * 2 ^ suc k),
  mul-two-pow-suc q k,
  pow-suc 2 k,
  bit_or-shifted k (a / 2) q (omega (arith, pow-suc 2 k)),
)

-- `& 2^k` reads one digit.
div-two-pow-suc : (k x : ℕ) → x / 2 ^ suc k ≡ x / 2 / 2 ^ k
div-two-pow-suc k x =
    ap (λ (t : ℕ). x / t) (pow-suc 2 k ∙ mul_comm (2 ^ k) 2) ∙ sym (div-div-eq-div-mul x 2 (2 ^ k))

pub bit_and-power : (k x : ℕ) → bit_and x (2 ^ k) ≡ x / 2 ^ k % 2 * 2 ^ k
bit_and-power zero x = omega (arith, bit_and_step x 1, bit_and-zero (x / 2))
bit_and-power (suc k) x = ground (
  arith,
  bit_and_step x (2 ^ suc k),
  pow-suc 2 k,
  bit_and-power k (x / 2),
  div-two-pow-suc k x,
  mul-two-pow-suc (x / 2 / 2 ^ k % 2) k,
)

self_below : (n a : ℕ) → a ≤ n → bit_and a a ≡ a
self_below zero zero p = refl
self_below zero (suc a) p = absurd (omega arith)
self_below (suc n) a p = omega (arith, bit_and_step a a, self_below n (a / 2) (omega arith))

pub bit_and_self : (a : ℕ) → bit_and a a ≡ a
bit_and_self a = self_below a a (omega arith)

-- The two parts of a number that a mask of `n` digits and its complement select.
pub bit_and-complement :
    (n x mask : ℕ) → x < 2 ^ n → mask < 2 ^ n → bit_and x mask + bit_and x (2 ^ n - 1 - mask) ≡ x
bit_and-complement zero zero zero p q = refl
bit_and-complement zero zero (suc mask) p q = absurd (omega arith)
bit_and-complement zero (suc x) mask p q = absurd (omega arith)
bit_and-complement (suc n) x mask p q = ground (
  arith,
  pow-suc 2 n,
  bit_and_step x mask,
  bit_and_step x (2 ^ suc n - 1 - mask),
  bit_and-complement n (x / 2) (mask / 2) (omega (arith, pow-suc 2 n)) (omega (arith, pow-suc 2 n)),
)
