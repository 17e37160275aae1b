-- ===== src/Descriptors/Growth.antt =====
-- src/d3d12/d3d12-descriptor-heap.cpp: what `Grow` leaves of a heap.
use cutie_rhi.Base.{
  ℕ, ◌≤◌, ◌<◌, ◌≡◌, refl, arith, Bool, true, false, ◌&&◌, Option, none, some, ltb, if◌then◌else◌,
  if_elim, resize,
}
use cutie_rhi.Descriptors.{
  HeapType, Driver, DescriptorHeap, allocate_resources, with_heap, with_shader_visible, grow,
  new_size, is_some, copy_from,
}
use cutie_rhi.Descriptors.Marks.{next_power_of_2-ge}

-- The marks of a heap and their counts are as before.
abbrev pub Same : DescriptorHeap → DescriptorHeap → Type 0
Same h h' =
    (h'.allocated_descriptors ≡ h.allocated_descriptors)
    × (h'.num_descriptors ≡ h.num_descriptors)
    × (h'.num_allocated_descriptors ≡ h.num_allocated_descriptors)
    × (h'.search_start ≡ h.search_start)

-- The heap has `n` descriptors, the new ones free.
abbrev pub Resized : ℕ → DescriptorHeap → DescriptorHeap → Type 0
Resized n h h' =
    (h'.allocated_descriptors ≡ resize n false h.allocated_descriptors)
    × (h'.num_descriptors ≡ n)
    × (h'.num_allocated_descriptors ≡ h.num_allocated_descriptors)

abbrev Made : ℕ → DescriptorHeap → Bool × DescriptorHeap → Type 0
Made n h (true, h') = Resized n h h'
Made n h (false, h') = Same h h'

with_shader_visible-Made :
    (d : Driver) (type : HeapType) (n handle : ℕ) (visible : Option ℕ) (h : DescriptorHeap)
    → Made n h (with_shader_visible d type n handle visible h)
with_shader_visible-Made d type n handle none h = (refl, refl, refl, refl)
with_shader_visible-Made d type n handle (some visible) h = (refl, refl, refl)

with_heap-Made :
    (d : Driver) (type : HeapType) (n : ℕ) (visible : Bool) (made : Option ℕ) (h : DescriptorHeap)
    → Made n h (with_heap d type n visible made h)
with_heap-Made d type n visible none h = (refl, refl, refl, refl)
with_heap-Made d type n true (some handle) h =
    with_shader_visible-Made d type n handle (d.create_descriptor_heap type n true)
      (record h { heap = some handle })
with_heap-Made d type n false (some handle) h = (refl, refl, refl)

allocate_resources-Made :
    (d : Driver) (type : HeapType) (n : ℕ) (visible : Bool) (h : DescriptorHeap)
    → Made n h (allocate_resources d type n visible h)
unfolding allocate_resources
allocate_resources-Made d type n visible h =
    with_heap-Made d type n visible (d.create_descriptor_heap type n false)
      (record h { heap = none; shader_visible_heap = none })

-- A heap that grew has the room that was asked for.
abbrev pub Grown : ℕ → DescriptorHeap → Option (Bool × DescriptorHeap) → Type 0
Grown required h none = h.heap ≡ none
Grown required h (some (true, h')) = (n : ℕ) × (required ≤ n) × (n ≤ 0x80000000) × Resized n h h'
Grown required h (some (false, h')) = Same h h'

copied :
    (d : Driver) (required n : ℕ) (h : DescriptorHeap) (made : Bool × DescriptorHeap)
    → required ≤ n
    → n ≤ 0x80000000
    → Made n h made
    → Grown required h (if made.0 then copy_from d h.heap h.num_descriptors made.1 else some made)
copied d required n h (true, h') enough low m = copied_from h.heap refl
  where
    copied_from :
        (o : Option ℕ) → h.heap ≡ o → Grown required h (copy_from d o h.num_descriptors h')
    copied_from none e = e
    copied_from (some handle) e = (n, enough, low, m)
copied d required n h (false, h') enough low m = m

new_size-room :
    (d : Driver) (required : ℕ) (h : DescriptorHeap)
    → 0 < required
    → required ≤ 0x80000000
    → (is_some h.shader_visible_heap && ltb (new_size d required h) required) ≡ false
    → (required ≤ new_size d required h) × (new_size d required h ≤ 0x80000000)
unfolding new_size
new_size-room d required h positive low e = ground (arith, next_power_of_2-ge required positive low)

pub grow-Grown :
    (d : Driver) (required : ℕ) (h : DescriptorHeap)
    → 0 < required
    → required ≤ 0x80000000
    → Grown required h (grow d required h)
unfolding grow
grow-Grown d required h positive low =
    let size = new_size d required h in
    let visible = is_some h.shader_visible_heap in
    let made = allocate_resources d h.heap_type size visible h in
    if_elim (Grown required h) (visible && ltb size required) (some (false, h)) _
      (λ _. (refl, refl, refl, refl))
      (λ e.
        let room = new_size-room d required h positive low e in
        copied d required size h made room.0 room.1
          (allocate_resources-Made d h.heap_type size visible h))
