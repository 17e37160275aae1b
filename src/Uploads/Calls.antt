-- ===== src/Uploads/Calls.antt =====
-- src/vulkan/vulkan-upload.cpp: the part of `suballocateBuffer` that continues the current chunk, and
-- the whole of it.
use cutie_rhi.Base.{
  ℕ, ◌+◌, ◌^◌, ◌≤◌, ◌<◌, ◌≡◌, ◌⊎◌, inl, inr, sym, arith, Option, none, some, if_elim, All-map,
  All-zip, OnSome, leb,
}
use native.Mathlib.Decide.{dec_lt}
use native.Mathlib.Nat.{pow-le-pow_right}
use cutie_rhi.Common.{align}
use cutie_rhi.Common.Align.{align-bounds}
use cutie_rhi.Uploads.{
  Chunk, UploadManager, Device, Allocation, from_current, end_of_data, advance, suballocate_buffer,
}
use cutie_rhi.Uploads.Recording.{Lease, World, device_of}
use cutie_rhi.Uploads.Sound.{
  IsOpen, IsStale, IsGuarded, IsSound-other, IsHeld-more, pending_incomplete,
}
use cutie_rhi.Uploads.Start.{after_call, Beside, from_pool-IsGuarded}

-- The result of a call that continues the current chunk `c`, the pointer into mapped memory aside.
abbrev continued : Chunk → ℕ → ℕ → Option ℕ → UploadManager → Option Allocation × UploadManager
continued c size offset address m = (
  some (record { buffer = c.buffer; offset = offset; cpu_address = address }),
  record m { current_chunk = some (record c { write_pointer = offset + size }) },
)

-- The word of the current chunk is that of the recording or of an earlier one.
pending_word :
    (recording : ℕ) (c : Chunk)
    → IsOpen recording c
    → (c.version ≡ recording) ⊎ IsStale recording c.version
pending_word recording c (positive, low, unsubmitted) = elim (dec_lt c.version recording) [
  | yes less ↦ inr (positive, less, unsubmitted)
  | no other ↦ inl (omega arith)
]

-- The piece that a call cuts from the current chunk lies above all others in that buffer.
continued-IsGuarded :
    (w : World) (size offset : ℕ) (address : Option ℕ) (c : Chunk)
    → IsGuarded w
    → Beside w c
    → c.write_pointer ≤ offset
    → offset + size ≤ c.buffer_size
    → IsGuarded (after_call size (continued c size offset address w.manager) w)
continued-IsGuarded w size offset address c g (sound, pending, others) above fits =
    let a : Lease = record {
      buffer = c.buffer;
      offset = offset;
      size = size;
      version = w.recording;
    } in
    record {
      leases = (
        (
          omega (arith, sound.known),
          (λ e. omega (arith, e, g.recording.0)),
          pending_incomplete w.completed w.recording g.recording.1,
        ),
        All-map w.live (IsHeld-more w.next_buffer w.completed) g.leases,
      );
      apart = (All-map w.live (λ b h same. inr (omega (arith, (h same).0))) sound.guards, g.apart);
      pool =
          All-zip w.manager.chunk_pool
            (λ x d s. IsSound-other w.recording w.next_buffer w.live a x (λ e. d (sym e)) s) others
            g.pool;
      pool_apart = g.pool_apart;
      current = (
        record {
          known = omega (arith, sound.known);
          full = fits;
          small = sound.small;
          guards = (
            (λ _. (omega arith, pending_word w.recording c pending)),
            All-map w.live (λ b h same. (omega (arith, (h same).0), (h same).1)) sound.guards,
          );
        },
        pending,
        others,
      );
      recording = g.recording;
      chunk_size = g.chunk_size;
    }

from_current-IsGuarded :
    (d : Device) (w : World) (size k : ℕ) (current : Option Chunk)
    → IsGuarded w
    → OnSome (Beside w) current
    → size ≤ 0x2000000000000000
    → k < 32
    → IsGuarded (
        after_call size (from_current (device_of d w) size w.recording (2 ^ k) current w.manager) w)
from_current-IsGuarded d w size k none g held low bits = from_pool-IsGuarded d w size none g tt low
from_current-IsGuarded d w size k (some c) g (sound, pending, others) low bits =
    let offset = align c.write_pointer (2 ^ k) in
    let power : 2 ^ k ≤ 2 ^ 32 = pow-le-pow_right {n = 2} (omega arith) {j = 32} (omega arith) in
    let a = align-bounds c.write_pointer k (omega (arith, sound.full, sound.small)) in
    let whole : end_of_data c size (2 ^ k) ≡ offset + size =
      omega (arith, sound.full, sound.small) in
    if_elim (λ r. IsGuarded (after_call size r w)) (leb (end_of_data c size (2 ^ k)) c.buffer_size)
      _ _
      (λ h. rw whole (
        continued-IsGuarded w size offset (advance c.mapped_memory offset) c g
          (sound, pending, others) a.0 (ground arith)))
      (λ _. from_pool-IsGuarded d w size (some c) g (sound, pending, others) low)

-- A call keeps the rules between chunks and live pieces.
pub suballocate_buffer-IsGuarded :
    (d : Device) (w : World) (size k : ℕ)
    → IsGuarded w
    → size ≤ 0x2000000000000000
    → k < 32
    → IsGuarded
        (after_call size (suballocate_buffer (device_of d w) size w.recording (2 ^ k) w.manager) w)
unfolding suballocate_buffer
suballocate_buffer-IsGuarded d w size k g low bits =
    from_current-IsGuarded d w size k w.manager.current_chunk g g.current low bits
