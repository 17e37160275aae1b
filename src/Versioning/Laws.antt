-- ===== src/Versioning/Laws.antt =====
-- src/common/versioning.h: a version word is a record of three fields.
use cutie_rhi.Base.{ℕ, ◌+◌, ◌*◌, ◌/◌, ◌%◌, ◌^◌, ◌<◌, ◌≡◌, ◌≢◌, Bool, true, false, arith}
use cutie_rhi.Base.Bits.{bit_and-low_ones, bit_or-shifted, bit_and-power}
use cutie_rhi.Versioning.{
  CommandQueue, graphics, queue_index, make_version, version_get_instance, version_get_queue,
  version_get_submitted,
}

pub queue_index-lt : (q : CommandQueue) → queue_index q < 3
queue_index-lt graphics = omega arith
queue_index-lt _ = omega arith

abbrev flag_value : Bool → ℕ
flag_value true = 2 ^ 63
flag_value false = 0

-- The word as a sum of its fields.
pub make_version-eq :
    (id : ℕ) (q : CommandQueue) (s : Bool)
    → make_version id q s ≡ id % 2 ^ 60 + queue_index q * 2 ^ 60 + flag_value s
unfolding make_version
make_version-eq id q true = ground (
  arith,
  bit_and-low_ones 60 id,
  bit_or-shifted 60 (id % 2 ^ 60) (queue_index q) (omega arith),
  queue_index-lt q,
  bit_or-shifted 63 (id % 2 ^ 60 + queue_index q * 2 ^ 60) 1 (omega (arith, queue_index-lt q)),
)
make_version-eq id q false =
    ground
      (arith, bit_and-low_ones 60 id, bit_or-shifted 60 (id % 2 ^ 60) (queue_index q) (omega arith))

fields :
    (id : ℕ) (q : CommandQueue) (s : Bool)
    → id < 2 ^ 60
    → let word = id % 2 ^ 60 + queue_index q * 2 ^ 60 + flag_value s in
      (version_get_instance word ≡ id)
      × (version_get_queue word ≡ queue_index q)
      × (version_get_submitted word ≡ s)
      × (word < 2 ^ 64)
unfolding version_get_instance version_get_queue version_get_submitted
fields id q true h =
    let word : ℕ = id % 2 ^ 60 + queue_index q * 2 ^ 60 + 2 ^ 63 in
    ground (
      arith,
      queue_index-lt q,
      bit_and-low_ones 60 word,
      bit_and-low_ones 3 (word / 2 ^ 60),
      bit_and-power 63 word,
    )
fields id q false h =
    let word : ℕ = id % 2 ^ 60 + queue_index q * 2 ^ 60 + 0 in
    ground (
      arith,
      queue_index-lt q,
      bit_and-low_ones 60 word,
      bit_and-low_ones 3 (word / 2 ^ 60),
      bit_and-power 63 word,
    )

-- Every field of a version word made from an instance number below 2^60 reads back, and the word
-- fits 64 bits.
pub make_version_roundtrip :
    (id : ℕ) (q : CommandQueue) (s : Bool)
    → id < 2 ^ 60
    → (version_get_instance (make_version id q s) ≡ id)
      × (version_get_queue (make_version id q s) ≡ queue_index q)
      × (version_get_submitted (make_version id q s) ≡ s)
      × (make_version id q s < 2 ^ 64)
unfolding version_get_instance version_get_queue version_get_submitted
make_version_roundtrip id q s h = rw (make_version-eq id q s) (fields id q s h)

-- A word with a nonzero instance number is never 0, the value that marks an object as available.
pub make_version-ne-zero :
    (id : ℕ) (q : CommandQueue) (s : Bool) → 0 < id → id < 2 ^ 60 → make_version id q s ≢ 0
make_version-ne-zero id q s p h e = absurd (omega (arith, make_version-eq id q s))
