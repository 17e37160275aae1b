-- ===== src/DeviceWrapper.antt =====
-- src/validation/validation-device.cpp: the checks that the wrapped device makes of heaps, textures and
-- buffers before it creates them or binds memory to them.
pub mod Textures
pub mod Buffers
pub mod Memory
use cutie_rhi.Base.{
  ℕ, ◌+◌, ◌%◌, Bool, true, false, not, ◌&&◌, ◌||◌, List, [], ◌∷◌, ◌++◌, Option, none, some, ltb,
  ◌==◌, if◌then◌else◌,
}
use cutie_rhi.Resources.{u64, TextureDimension, TextureDesc, CpuAccessMode, BufferDesc}

-- The messages.
pub data ObjectFault : Type 0 where
  zero_capacity unknown_dimension zero_extent height_not_1 depth_not_1 : ObjectFault
  array_size_not_1 array_size_not_6 array_size_not_multiple_of_6 : ObjectFault
  sample_count_not_1 sample_count_not_2_4_8 multisampled_uav : ObjectFault
  no_virtual_resources unknown_initial_state : ObjectFault
  volatile_not_constant volatile_no_versions volatile_usage volatile_cpu_access : ObjectFault
  null_object null_heap not_virtual does_not_fit misaligned zero_size : ObjectFault

-- What the wrapped device answers.
pub record Underlying : Type 0 where
  pub supports_virtual_resources : Bool
  pub make_heap : ℕ → Option ℕ
  pub make_texture : TextureDesc → Option ℕ
  pub make_buffer : BufferDesc → Option ℕ

-- A message when the test fails.
abbrev pub report : Bool → ObjectFault → List ObjectFault
report b fault = if b then fault ∷ [] else []

unfoldable pub create_heap : Underlying → ℕ → List ObjectFault × Option ℕ
create_heap u capacity =
    if capacity == 0 then (ObjectFault.zero_capacity ∷ [], none) else ([], u.make_heap capacity)

-- The `switch` statements of `createTexture`, one by one.
unfoldable pub height_faults : TextureDimension → TextureDesc → List ObjectFault
height_faults TextureDimension.texture_1d d = report (not (d.height == 1)) ObjectFault.height_not_1
height_faults TextureDimension.texture_1d_array d =
    report (not (d.height == 1)) ObjectFault.height_not_1
height_faults _ d = []

unfoldable pub depth_faults : TextureDimension → TextureDesc → List ObjectFault
depth_faults TextureDimension.texture_3d d = []
depth_faults TextureDimension.unknown_dimension d = []
depth_faults _ d = report (not (d.depth == 1)) ObjectFault.depth_not_1

unfoldable pub array_faults : TextureDimension → TextureDesc → List ObjectFault
array_faults TextureDimension.texture_1d d =
    report (not (d.array_size == 1)) ObjectFault.array_size_not_1
array_faults TextureDimension.texture_2d d =
    report (not (d.array_size == 1)) ObjectFault.array_size_not_1
array_faults TextureDimension.texture_2d_ms d =
    report (not (d.array_size == 1)) ObjectFault.array_size_not_1
array_faults TextureDimension.texture_3d d =
    report (not (d.array_size == 1)) ObjectFault.array_size_not_1
array_faults TextureDimension.texture_cube d =
    report (not (d.array_size == 6)) ObjectFault.array_size_not_6
array_faults TextureDimension.texture_cube_array d =
    report (not (d.array_size % 6 == 0)) ObjectFault.array_size_not_multiple_of_6
array_faults _ d = []

abbrev pub multisample_faults : TextureDesc → List ObjectFault
multisample_faults d =
    report (not (d.sample_count == 2) && not (d.sample_count == 4) && not (d.sample_count == 8))
      ObjectFault.sample_count_not_2_4_8
    ++ report d.is_uav ObjectFault.multisampled_uav

unfoldable pub sample_faults : TextureDimension → TextureDesc → List ObjectFault
sample_faults TextureDimension.texture_2d_ms d = multisample_faults d
sample_faults TextureDimension.texture_2d_ms_array d = multisample_faults d
sample_faults TextureDimension.unknown_dimension d = []
sample_faults _ d = report (not (d.sample_count == 1)) ObjectFault.sample_count_not_1

-- The messages below the two checks that return at once.
unfoldable pub texture_faults : Underlying → TextureDimension → TextureDesc → List ObjectFault
texture_faults u dimension d =
    height_faults dimension d
    ++ (depth_faults dimension d
        ++ (array_faults dimension d
            ++ (sample_faults dimension d
                ++ (report (d.is_virtual && not u.supports_virtual_resources)
                      ObjectFault.no_virtual_resources
                    ++ report (d.keep_initial_state && (d.initial_state == 0))
                        ObjectFault.unknown_initial_state))))

abbrev pub is_empty : List ObjectFault → Bool
is_empty [] = true
is_empty (fault ∷ faults) = false

abbrev pub is_unknown : TextureDimension → Bool
is_unknown TextureDimension.unknown_dimension = true
is_unknown _ = false

unfoldable pub create_texture : Underlying → TextureDesc → List ObjectFault × Option ℕ
create_texture u d =
    let faults = texture_faults u d.dimension d in
    if is_unknown d.dimension
    then (ObjectFault.unknown_dimension ∷ [], none)
    else if (d.width == 0)
        || (d.height == 0)
        || (d.depth == 0)
        || (d.array_size == 0)
        || (d.mip_levels == 0)
    then (ObjectFault.zero_extent ∷ [], none)
    else (faults, if is_empty faults then u.make_texture d else none)

abbrev pub is_no_access : CpuAccessMode → Bool
is_no_access CpuAccessMode.no_access = true
is_no_access _ = false

unfoldable pub create_buffer : Underlying → BufferDesc → List ObjectFault × Option ℕ
create_buffer u d =
    if d.is_volatile && not d.is_constant_buffer
    then (ObjectFault.volatile_not_constant ∷ [], none)
    else if d.is_volatile && (d.max_versions == 0)
    then (ObjectFault.volatile_no_versions ∷ [], none)
    else if d.is_volatile
        && (d.is_vertex_buffer || d.is_index_buffer || d.is_draw_indirect_args || d.can_have_uavs
            || d.is_accel_struct_build_input || d.is_accel_struct_storage
            || d.is_shader_binding_table || d.is_virtual)
    then (ObjectFault.volatile_usage ∷ [], none)
    else if d.is_volatile && not (is_no_access d.cpu_access)
    then (ObjectFault.volatile_cpu_access ∷ [], none)
    else if d.is_virtual && not u.supports_virtual_resources
    then (ObjectFault.no_virtual_resources ∷ [], none)
    else if d.keep_initial_state && (d.initial_state == 0)
    then (ObjectFault.unknown_initial_state ∷ [], none)
    else ([], u.make_buffer d)

pub record MemoryRequirements : Type 0 where
  pub size : ℕ
  pub alignment : ℕ

-- A texture, a buffer or an acceleration structure, with what the device says that it requires.
pub record MemoryObject : Type 0 where
  pub is_virtual : Bool
  pub requirements : MemoryRequirements

-- `getTextureMemoryRequirements` and `getBufferMemoryRequirements`.
unfoldable pub get_memory_requirements : Option MemoryObject → List ObjectFault × MemoryRequirements
get_memory_requirements none = (ObjectFault.null_object ∷ [], record { size = 0; alignment = 0 })
get_memory_requirements (some o) =
    (report (o.requirements.size == 0) ObjectFault.zero_size, o.requirements)

-- The three functions that bind memory share their checks; `bound` is the device's answer.
unfoldable pub bind_checked : Bool → MemoryObject → ℕ → ℕ → List ObjectFault × Bool
bind_checked bound o capacity offset =
    if not o.is_virtual
    then (ObjectFault.not_virtual ∷ [], false)
    else if ltb capacity ((offset + o.requirements.size) % u64)
    then (ObjectFault.does_not_fit ∷ [], false)
    else if not (o.requirements.alignment == 0) && not (offset % o.requirements.alignment == 0)
    then (ObjectFault.misaligned ∷ [], false)
    else ([], bound)

-- A heap is its capacity.
unfoldable pub bind_memory : Bool → Option MemoryObject → Option ℕ → ℕ → List ObjectFault × Bool
bind_memory bound none heap offset = (ObjectFault.null_object ∷ [], false)
bind_memory bound (some o) none offset = (ObjectFault.null_heap ∷ [], false)
bind_memory bound (some o) (some capacity) offset = bind_checked bound o capacity offset
