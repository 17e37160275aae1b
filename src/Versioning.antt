-- ===== src/Versioning.antt =====
-- src/common/versioning.h: the 64-bit version words that track upload chunks, scratch chunks and
-- versions of volatile buffers across command list instances, and the queue enumeration of
-- include/cutie/cutie.h whose value a word carries.
pub mod Laws
use cutie_rhi.Base.{ℕ, ◌*◌, ◌/◌, ◌^◌, Bool, not, bit_and, bit_or, ◌==◌, if◌then◌else◌}

-- `CommandQueue`; the last enumerator, `Count`, is only used as a number.
pub data CommandQueue : Type 0 where
  graphics compute copy : CommandQueue

abbrev pub queue_index : CommandQueue → ℕ
queue_index graphics = 0
queue_index compute = 1
queue_index copy = 2

abbrev pub queue_count : ℕ
queue_count = 3

abbrev pub version_submitted_flag : ℕ
version_submitted_flag = 0x8000000000000000

abbrev pub version_queue_shift : ℕ
version_queue_shift = 60

abbrev pub version_queue_mask : ℕ
version_queue_mask = 0x7

abbrev pub version_id_mask : ℕ
version_id_mask = 0x0FFFFFFFFFFFFFFF

-- The enumerators are below 8, so the shift of a queue loses no bit of the 64.
unfoldable pub make_version : ℕ → CommandQueue → Bool → ℕ
make_version id queue submitted =
    let result =
      bit_or (bit_and id version_id_mask) (queue_index queue * 2 ^ version_queue_shift) in
    if submitted then bit_or result version_submitted_flag else result

unfoldable pub version_get_instance : ℕ → ℕ
version_get_instance version = bit_and version version_id_mask

-- The value that the source casts to `CommandQueue`.
unfoldable pub version_get_queue : ℕ → ℕ
version_get_queue version = bit_and (version / 2 ^ version_queue_shift) version_queue_mask

unfoldable pub version_get_submitted : ℕ → Bool
version_get_submitted version = not (bit_and version version_submitted_flag == 0)
