-- ===== src/DeviceWrapper/Memory.antt =====
-- src/validation/validation-device.cpp: where memory is bound.
use cutie_rhi.Base.{ℕ, ◌+◌, ◌%◌, ◌≤◌, ◌<◌, ◌≡◌, ◌↔◌, ◌⊎◌, arith, Bool, true, some}
use cutie_rhi.Resources.{u64}
use cutie_rhi.DeviceWrapper.{MemoryObject, bind_checked, bind_memory, is_empty}

-- The object fits into the heap at the offset, which its alignment divides.
abbrev pub IsPlaced : MemoryObject → ℕ → ℕ → Type 0
IsPlaced o capacity offset =
    (o.is_virtual ≡ true)
    × (offset + o.requirements.size ≤ capacity)
    × ((o.requirements.alignment ≡ 0) ⊎ (offset % o.requirements.alignment ≡ 0))

-- When the end of the object does not pass 2^64: memory is bound without a message exactly for a
-- virtual object that fits into the heap at a multiple of its alignment, the answer is then that
-- of the device, and otherwise it is no.
pub bind_memory-IsPlaced :
    (bound : Bool) (o : MemoryObject) (capacity offset : ℕ)
    → offset + o.requirements.size < u64
    → let r = bind_memory bound (some o) (some capacity) offset in
      ((is_empty r.0 ≡ true) ↔ IsPlaced o capacity offset)
      × ((r.1 ≡ true) ↔ IsPlaced o capacity offset × (bound ≡ true))
unfolding bind_memory bind_checked
bind_memory-IsPlaced bound o capacity offset low = ground arith
