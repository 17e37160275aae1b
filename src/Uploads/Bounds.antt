-- ===== src/Uploads/Bounds.antt =====
-- src/vulkan/vulkan-upload.cpp: where the piece that a call returns lies, and when a call succeeds.
use cutie_rhi.Base.{
  ℕ, ◌+◌, ◌%◌, ◌^◌, ◌≤◌, ◌<◌, ◌≡◌, refl, arith, max, Option, none, some, if_elim, OnSome, leb,
}
use native.Mathlib.Nat.{pow-le-pow_right}
use cutie_rhi.Versioning.{version_get_queue}
use cutie_rhi.Common.Align.{align-bounds}
use cutie_rhi.Uploads.{
  Chunk, UploadManager, Device, Allocation, find_chunk, create_chunk, start_chunk, size_to_allocate,
  is_over_limit, use_found, from_pool, from_current, end_of_data, retire, suballocate_buffer,
}
use cutie_rhi.Uploads.Pool.{IsFree, find_chunk-IsFree}

-- A piece at a multiple of the alignment, inside the current chunk, up to its write pointer.
abbrev pub IsInside : ℕ → ℕ → Allocation → Chunk → Type 0
IsInside size alignment a c =
    (a.buffer ≡ c.buffer)
    × (a.offset % alignment ≡ 0)
    × (a.offset + size ≡ c.write_pointer)
    × (a.offset + size ≤ c.buffer_size)

abbrev pub IsInCurrent : ℕ → ℕ → Allocation → Option Chunk → Type 0
IsInCurrent size alignment a none = ⊥
IsInCurrent size alignment a (some c) = IsInside size alignment a c

abbrev pub Fits : ℕ → ℕ → Option Allocation × UploadManager → Type 0
Fits size alignment r = OnSome (λ a. IsInCurrent size alignment a r.1.current_chunk) r.0

start_chunk-Fits :
    (size version k : ℕ) (c : Chunk) (m : UploadManager)
    → size ≤ c.buffer_size
    → Fits size (2 ^ k) (start_chunk size version c m)
unfolding start_chunk
start_chunk-Fits size version k c m fits = (refl, ground arith, omega arith, omega arith)

create_chunk-size :
    (d : Device) (m : UploadManager) (size : ℕ) → (create_chunk d m size).buffer_size ≡ size
unfolding create_chunk
create_chunk-size d m size = ground arith

use_found-Fits :
    (d : Device) (size version k : ℕ) (o : Option Chunk) (m : UploadManager)
    → OnSome (IsFree size) o
    → size ≤ 0x2000000000000000
    → m.default_chunk_size ≤ 0x2000000000000000
    → Fits size (2 ^ k) (use_found d size version o m)
use_found-Fits d size version k (some c) m free low default =
    start_chunk-Fits size version k c m free.1
use_found-Fits d size version k none m free low default =
    let c : Chunk = create_chunk d m (size_to_allocate m size) in
    let a = align-bounds (max size m.default_chunk_size) 12 (omega arith) in
    if_elim (Fits size (2 ^ k)) (is_over_limit m size) (none, record m { current_chunk = none })
      (start_chunk size version c m) (λ _. tt)
      (λ _.
        start_chunk-Fits size version k c m
          (omega (arith, a.0, create_chunk-size d m (size_to_allocate m size))))

from_pool-Fits :
    (d : Device) (size version k : ℕ) (retired : Option Chunk) (m : UploadManager)
    → size ≤ 0x2000000000000000
    → m.default_chunk_size ≤ 0x2000000000000000
    → Fits size (2 ^ k) (from_pool d size version retired m)
unfolding from_pool
from_pool-Fits d size version k retired m low default =
    let completed = d.queue_get_completed_instance (version_get_queue version) in
    let found = find_chunk completed size m.chunk_pool in
    use_found-Fits d size version k found.0 (record m { chunk_pool = retire retired found.1 })
      (find_chunk-IsFree completed size m.chunk_pool) low default

abbrev pub IsSmall : Chunk → Type 0
IsSmall c = (c.write_pointer ≤ c.buffer_size) × (c.buffer_size ≤ 0x4000000000000000)

from_current-Fits :
    (d : Device) (size version k : ℕ) (current : Option Chunk) (m : UploadManager)
    → OnSome IsSmall current
    → size ≤ 0x2000000000000000
    → k < 32
    → m.default_chunk_size ≤ 0x2000000000000000
    → Fits size (2 ^ k) (from_current d size version (2 ^ k) current m)
from_current-Fits d size version k none m small low bits default =
    from_pool-Fits d size version k none m low default
from_current-Fits d size version k (some c) m small low bits default =
    let power : 2 ^ k ≤ 2 ^ 32 = pow-le-pow_right {n = 2} (omega arith) {j = 32} (omega arith) in
    let a = align-bounds c.write_pointer k (omega (arith, small.0, small.1)) in
    if_elim (Fits size (2 ^ k)) (leb (end_of_data c size (2 ^ k)) c.buffer_size) _ _
      (λ h.
        (refl, a.2, omega (arith, small.0, small.1, a.1), ground (arith, small.0, small.1, a.1)))
      (λ _. from_pool-Fits d size version k (some c) m low default)

-- With sizes of at most 2^61 bytes and a current chunk of at most 2^62, at an alignment that is a
-- power of two of 32 bits: a piece that a call returns is aligned, lies in the buffer of the
-- chunk that is current afterwards, does not pass the end of that buffer, and ends at the write
-- pointer, where the next piece can start.
pub suballocate_buffer-bounds :
    (d : Device) (size version k : ℕ) (m : UploadManager)
    → OnSome IsSmall m.current_chunk
    → size ≤ 0x2000000000000000
    → k < 32
    → m.default_chunk_size ≤ 0x2000000000000000
    → Fits size (2 ^ k) (suballocate_buffer d size version (2 ^ k) m)
unfolding suballocate_buffer
suballocate_buffer-bounds d size version k m small low bits default =
    from_current-Fits d size version k m.current_chunk m small low bits default
