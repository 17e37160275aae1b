-- ===== src/Descriptors/Marks.antt =====
-- src/d3d12/d3d12-descriptor-heap.cpp: the loops that set the marks of a range, and the size of a
-- heap that grows.
use cutie_rhi.Base.{
  ℕ, zero, suc, ◌+◌, ◌-◌, ◌/◌, ◌%◌, ◌^◌, ◌≤◌, ◌<◌, ◌≡◌, refl, ◌∙◌, arith, bit_or, Bool, ◌&&◌, List,
  leb, ltb, if◌then◌else◌, length, get_or, set, length-set, get_or-set,
}
use native.Mathlib.Nat.{pow-suc, div-le_self}
use cutie_rhi.Base.Bits.{bit_or_step}
use cutie_rhi.Resources.{u32}
use cutie_rhi.Descriptors.{mark, next_power_of_2, or_shifted}

pub length-mark :
    (base count : ℕ) (value : Bool) (marks : List Bool)
    → length (mark base count value marks) ≡ length marks
unfolding mark
length-mark base zero value marks = refl
length-mark base (suc count) value marks =
    length-mark (suc base) count value (set marks base value) ∙ length-set marks base value

abbrev pub is_within : ℕ → ℕ → ℕ → Bool
is_within base count i = leb base i && ltb i (base + count)

-- What a range sets, inside the heap.
pub get_or-mark :
    (base count : ℕ) (value : Bool) (marks : List Bool) (i : ℕ) (d : Bool)
    → base + count ≤ length marks
    → get_or (mark base count value marks) i d
      ≡ (if is_within base count i then value else get_or marks i d)
unfolding mark
get_or-mark base zero value marks i d low = ground arith
get_or-mark base (suc count) value marks i d low =
    let rest =
      get_or-mark (suc base) count value (set marks base value) i d
        (omega (arith, length-set marks base value)) in
    ground (arith, rest, get_or-set marks base i value d (omega arith))

or_below : (n a b : ℕ) → a ≤ n → b ≤ n → a ≤ bit_or a b
or_below zero a b p q = omega arith
or_below (suc n) a b p q =
    omega (arith, bit_or_step a b, or_below n (a / 2) (b / 2) (omega arith) (omega arith))

pub bit_or-ge : (a b : ℕ) → a ≤ bit_or a b
bit_or-ge a b = or_below (a + b) a b (omega arith) (omega arith)

pub bit_or-lt : (k a b : ℕ) → a < 2 ^ k → b < 2 ^ k → bit_or a b < 2 ^ k
bit_or-lt zero zero zero p q = omega arith
bit_or-lt zero (suc a) b p q = absurd (omega arith)
bit_or-lt zero zero (suc b) p q = absurd (omega arith)
bit_or-lt (suc k) a b p q = omega (
  arith,
  pow-suc 2 k,
  bit_or_step a b,
  bit_or-lt k (a / 2) (b / 2) (omega (arith, pow-suc 2 k)) (omega (arith, pow-suc 2 k)),
)

-- One step of the smearing of bits stays in 31 bits and does not go down.
or_shifted-bounds : (v k : ℕ) → v < 2 ^ 31 → (v ≤ or_shifted v k) × (or_shifted v k < 2 ^ 31)
or_shifted-bounds v k low =
    (bit_or-ge v (v / 2 ^ k), bit_or-lt 31 v (v / 2 ^ k) low (omega (arith, div-le_self v (2 ^ k))))

-- The new size is enough.
pub next_power_of_2-ge :
    (v : ℕ) → 0 < v → v ≤ 2 ^ 31 → (v ≤ next_power_of_2 v) × (next_power_of_2 v ≤ 2 ^ 31)
unfolding next_power_of_2
next_power_of_2-ge v positive low =
    let a : ℕ = (v + (u32 - 1)) % u32 in
    let e : a ≡ v - 1 = omega arith in
    let s1 = or_shifted-bounds a 1 (omega (arith, e)) in
    let s2 = or_shifted-bounds (or_shifted a 1) 2 s1.1 in
    let s3 = or_shifted-bounds (or_shifted (or_shifted a 1) 2) 4 s2.1 in
    let s4 = or_shifted-bounds (or_shifted (or_shifted (or_shifted a 1) 2) 4) 8 s3.1 in
    let s5 =
      or_shifted-bounds (or_shifted (or_shifted (or_shifted (or_shifted a 1) 2) 4) 8) 16 s4.1 in
    (omega (arith, e), omega (arith, e))
