-- ===== src/Common.antt =====
-- include/cutie/common/misc.h: alignment and the comparison of arrays.
pub mod Align
use cutie_rhi.Base.{ℕ, ◌+◌, ◌-◌, ◌%◌, bit_and}
use cutie_rhi.Resources.{u64}

-- The instance at `uint64_t`, `~` being the complement of 64 bits.
unfoldable pub align : ℕ → ℕ → ℕ
align size alignment =
    bit_and ((size + alignment + (u64 - 1)) % u64) (u64 - 1 - (alignment + (u64 - 1)) % u64)
