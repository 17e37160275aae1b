-- ===== src/Descriptors.antt =====
-- src/d3d12/d3d12-descriptor-heap.cpp, with the data of src/d3d12/d3d12-backend.h: the allocator of
-- contiguous ranges of descriptors in a heap that grows.
pub mod Search
pub mod Marks
pub mod Growth
pub mod Allocation
pub mod Clients
pub mod Reliable
pub mod Live
use cutie_rhi.Base.{
  ℕ, zero, suc, ◌+◌, ◌-◌, ◌*◌, ◌/◌, ◌%◌, ◌^◌, min, bit_or, Bool, true, false, not, ◌&&◌, List, [],
  ◌∷◌, Option, none, some, ltb, leb, ◌==◌, if◌then◌else◌, get_or, set, resize,
}
use cutie_rhi.Resources.{u32}

-- The heap types that the backend creates.
pub data HeapType : Type 0 where
  cbv_srv_uav sampler rtv dsv : HeapType

-- What the heap asks of the driver: a new heap, which may fail, where the handles of a heap start,
-- their distance, and the two limits of the API on shader visible heaps.
pub record Driver : Type 0 where
  pub create_descriptor_heap : HeapType → ℕ → Bool → Option ℕ
  pub cpu_start : ℕ → ℕ
  pub gpu_start : ℕ → ℕ
  pub increment_size : HeapType → ℕ
  pub max_shader_visible_descriptors : ℕ
  pub max_shader_visible_samplers : ℕ

-- One call of `CopyDescriptorsSimple`.
pub record DescriptorCopy : Type 0 where
  pub count : ℕ
  pub dest_start : ℕ
  pub source_start : ℕ

-- `StaticDescriptorHeap`; `copies` holds the copies that were made, the last first.
pub record DescriptorHeap : Type 0 where
  pub heap : Option ℕ
  pub shader_visible_heap : Option ℕ
  pub heap_type : HeapType
  pub start_cpu_handle : ℕ
  pub start_cpu_handle_shader_visible : ℕ
  pub start_gpu_handle_shader_visible : ℕ
  pub stride : ℕ
  pub num_descriptors : ℕ
  pub allocated_descriptors : List Bool
  pub search_start : ℕ
  pub num_allocated_descriptors : ℕ
  pub copies : List DescriptorCopy

-- The end of `allocateResources`, once the heaps exist.
abbrev pub set_size : Driver → HeapType → ℕ → ℕ → DescriptorHeap → DescriptorHeap
set_size d type handle n h = record h {
  num_descriptors = n;
  heap_type = type;
  start_cpu_handle = d.cpu_start handle;
  stride = d.increment_size type;
  allocated_descriptors = resize n false h.allocated_descriptors;
}

abbrev pub with_shader_visible :
    Driver → HeapType → ℕ → ℕ → Option ℕ → DescriptorHeap → Bool × DescriptorHeap
with_shader_visible d type n handle none h = (false, h)
with_shader_visible d type n handle (some visible) h = (
  true,
  set_size d type handle n (record h {
    shader_visible_heap = some visible;
    start_cpu_handle_shader_visible = d.cpu_start visible;
    start_gpu_handle_shader_visible = d.gpu_start visible;
  }),
)

abbrev pub with_heap :
    Driver → HeapType → ℕ → Bool → Option ℕ → DescriptorHeap → Bool × DescriptorHeap
with_heap d type n shader_visible none h = (false, h)
with_heap d type n shader_visible (some handle) h =
    if shader_visible
    then with_shader_visible d type n handle (d.create_descriptor_heap type n true)
        (record h { heap = some handle })
    else (true, set_size d type handle n (record h { heap = some handle }))

-- The Boolean says that the call succeeded.
unfoldable pub allocate_resources :
    Driver → HeapType → ℕ → Bool → DescriptorHeap → Bool × DescriptorHeap
allocate_resources d type n shader_visible h =
    with_heap d type n shader_visible (d.create_descriptor_heap type n false)
      (record h { heap = none; shader_visible_heap = none })

abbrev pub or_shifted : ℕ → ℕ → ℕ
or_shifted v k = bit_or v (v / 2 ^ k)

unfoldable pub next_power_of_2 : ℕ → ℕ
next_power_of_2 v =
    let a = (v + (u32 - 1)) % u32 in
    let b = or_shifted a 1 in
    let c = or_shifted b 2 in
    let e = or_shifted c 4 in let f = or_shifted e 8 in let g = or_shifted f 16 in (g + 1) % u32

abbrev pub is_some : Option ℕ → Bool
is_some none = false
is_some (some handle) = true

abbrev pub max_size : Driver → HeapType → ℕ
max_size d HeapType.cbv_srv_uav = d.max_shader_visible_descriptors
max_size d _ = d.max_shader_visible_samplers

-- The new size, for a shader visible heap at most that of the API.
unfoldable pub new_size : Driver → ℕ → DescriptorHeap → ℕ
new_size d required h =
    if is_some h.shader_visible_heap
    then min (next_power_of_2 required) (max_size d h.heap_type)
    else next_power_of_2 required

-- The copies of the descriptors of an old heap of `n` descriptors.
abbrev pub copy_descriptors : Driver → ℕ → ℕ → DescriptorHeap → DescriptorHeap
copy_descriptors d handle n h =
    let source = d.cpu_start handle in
    let first : DescriptorCopy = record {
      count = n;
      dest_start = h.start_cpu_handle;
      source_start = source;
    } in
    let second : DescriptorCopy = record {
      count = n;
      dest_start = h.start_cpu_handle_shader_visible;
      source_start = source;
    } in
    record h {
      copies =
          if is_some h.shader_visible_heap then second ∷ first ∷ h.copies else first ∷ h.copies;
    }

-- The end of `Grow`: without an old heap it calls a method of a null pointer, and there is no result.
abbrev pub copy_from : Driver → Option ℕ → ℕ → DescriptorHeap → Option (Bool × DescriptorHeap)
copy_from d none n h = none
copy_from d (some handle) n h = some (true, copy_descriptors d handle n h)

-- The outer `none` is the call of a null pointer.
unfoldable pub grow : Driver → ℕ → DescriptorHeap → Option (Bool × DescriptorHeap)
grow d required h =
    let size = new_size d required h in
    let visible = is_some h.shader_visible_heap in
    let made = allocate_resources d h.heap_type size visible h in
    if visible && ltb size required
    then some (false, h)
    else if made.0
    then copy_from d h.heap h.num_descriptors made.1
    else some made

-- The search for `count` free descriptors in a row from `index` on, `free_count` of which are
-- passed; `left` counts the indices up to the end.
unfoldable pub find_free : ℕ → List Bool → ℕ → ℕ → ℕ → Option ℕ
find_free zero marks count index free_count = none
find_free (suc left) marks count index free_count =
    let free_count = if get_or marks index true then 0 else free_count + 1 in
    let rest = find_free left marks count (suc index) free_count in
    if leb count free_count then some (index + 1 - count) else rest

-- The loops that set the marks of a range.
unfoldable pub mark : ℕ → ℕ → Bool → List Bool → List Bool
mark base zero value marks = marks
mark base (suc count) value marks = mark (suc base) count value (set marks base value)

abbrev pub take_range : ℕ → ℕ → DescriptorHeap → ℕ × DescriptorHeap
take_range base count h = (
  base,
  record h {
    allocated_descriptors = mark base count true h.allocated_descriptors;
    num_allocated_descriptors = (h.num_allocated_descriptors + count) % u32;
    search_start = base + count;
  },
)

abbrev pub use_grown : ℕ → ℕ → Option (Bool × DescriptorHeap) → Option (Option ℕ × DescriptorHeap)
use_grown base count none = none
use_grown base count (some (false, h)) = some (none, h)
use_grown base count (some (true, h)) = let r = take_range base count h in some (some r.0, r.1)

abbrev pub use_range : Driver → ℕ → Option ℕ → DescriptorHeap → Option (Option ℕ × DescriptorHeap)
use_range d count none h =
    use_grown h.num_descriptors count (grow d ((h.num_descriptors + count) % u32) h)
use_range d count (some base) h = let r = take_range base count h in some (some r.0, r.1)

-- The inner `none` is `c_InvalidDescriptorIndex`, the outer one the call of a null pointer in `Grow`.
unfoldable pub allocate_descriptors :
    Driver → ℕ → DescriptorHeap → Option (Option ℕ × DescriptorHeap)
allocate_descriptors d count h =
    use_range d count
      (find_free (h.num_descriptors - h.search_start) h.allocated_descriptors count h.search_start
        0)
      h

unfoldable pub release_descriptors : ℕ → ℕ → DescriptorHeap → DescriptorHeap
release_descriptors base count h = if count == 0 then h else record h {
  allocated_descriptors = mark base count false h.allocated_descriptors;
  num_allocated_descriptors = (h.num_allocated_descriptors + u32 - count) % u32;
  search_start = if ltb base h.search_start then base else h.search_start;
}
