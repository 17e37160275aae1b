-- ===== src/Examples/Values.antt =====
-- Examples for src/common/versioning.h and src/common/misc.cpp.
use cutie_rhi.Base.{ℕ, zero, ◌+◌, ◌-◌, ◌^◌, ◌≤◌, ◌<◌, true, false, ◌≡◌, ◌↔◌, refl, arith}
use cutie_rhi.Resources.{u32, TextureDimension, TextureDesc, CpuAccessMode, BufferDesc}
use cutie_rhi.Versioning.{
  CommandQueue, make_version, version_get_instance, version_get_queue, version_get_submitted,
}
use cutie_rhi.Versioning.Laws.{make_version_roundtrip}
use cutie_rhi.Subresources.{
  SubresourceSet, all_subresources, resolve, is_entire_texture, resolve_range,
}
use cutie_rhi.Subresources.Resolve.{
  VisitsBoth, Selects, IsValid, IsWords, resolve_exact, resolve_idempotent, is_entire_texture_iff,
  resolve_range_bounds,
}
use cutie_rhi.Subresources.Wrap.{all_levels-from-base, resolve-all_subresources}

make_version_roundtrip_example :
    (version_get_instance (make_version 5 CommandQueue.compute true) ≡ 5)
    × (version_get_queue (make_version 5 CommandQueue.compute true) ≡ 1)
    × (version_get_submitted (make_version 5 CommandQueue.compute true) ≡ true)
    × (make_version 5 CommandQueue.compute true < 2 ^ 64)
make_version_roundtrip_example = make_version_roundtrip 5 CommandQueue.compute true (omega arith)

-- A texture of 4 mip levels and 3 slices.
abbrev pub array_texture : TextureDesc
array_texture = record {
  width = 64;
  height = 32;
  depth = 1;
  array_size = 3;
  mip_levels = 4;
  sample_count = 1;
  sample_quality = 0;
  format = 7;
  dimension = TextureDimension.texture_2d_array;
  is_render_target = true;
  is_uav = true;
  is_virtual = false;
  initial_state = 8;
  keep_initial_state = true;
}

pub array_texture-IsValid : IsValid array_texture
array_texture-IsValid = record {
  mips_pos = omega arith;
  slices_pos = omega arith;
  mips_word = omega arith;
  slices_word = omega arith;
  subresources_word = omega arith;
  one_slice = λ e. cc;
}

-- Mip levels 1 and 2 of all slices from 1 on.
abbrev pub some_subresources : SubresourceSet
some_subresources = record {
  base_mip_level = 1;
  num_mip_levels = 2;
  base_array_slice = 1;
  num_array_slices = 9;
}

pub some_subresources-IsWords : IsWords some_subresources
some_subresources-IsWords = record {
  base_mip_word = omega arith;
  num_mips_word = omega arith;
  base_slice_word = omega arith;
  num_slices_word = omega arith;
}

resolve_exact_example :
    VisitsBoth (resolve some_subresources array_texture false) 2 1
    ↔ (Selects some_subresources array_texture 2 1 × (2 < 4) × (1 < 3))
resolve_exact_example =
    resolve_exact some_subresources array_texture 2 1 array_texture-IsValid
      some_subresources-IsWords (omega arith) (omega arith)

resolve_idempotent_example :
    resolve (resolve some_subresources array_texture false) array_texture false
    ≡ resolve some_subresources array_texture false
resolve_idempotent_example =
    resolve_idempotent some_subresources array_texture array_texture-IsValid
      some_subresources-IsWords

is_entire_texture_iff_example :
    (is_entire_texture (resolve some_subresources array_texture false) array_texture ≡ true) ↔ (
      (mip slice : ℕ)
      → mip < 4
      → slice < 3
      → VisitsBoth (resolve some_subresources array_texture false) mip slice)
is_entire_texture_iff_example =
    is_entire_texture_iff some_subresources array_texture array_texture-IsValid

resolve-all_subresources_example :
    is_entire_texture (resolve all_subresources array_texture false) array_texture ≡ true
resolve-all_subresources_example = resolve-all_subresources array_texture array_texture-IsValid

-- All mip levels from the second on.
abbrev levels_from_one : SubresourceSet
levels_from_one = record {
  base_mip_level = 1;
  num_mip_levels = u32 - 1;
  base_array_slice = 0;
  num_array_slices = 3;
}

all_levels-from-base_example : ¬ VisitsBoth (resolve levels_from_one array_texture false) 1 0
all_levels-from-base_example =
    all_levels-from-base levels_from_one array_texture 1 0 (omega arith) (omega arith) (omega arith)
      refl

abbrev small_buffer : BufferDesc
small_buffer = record {
  byte_size = 100;
  max_versions = 0;
  is_vertex_buffer = false;
  is_index_buffer = false;
  is_draw_indirect_args = false;
  is_constant_buffer = false;
  can_have_uavs = false;
  is_accel_struct_build_input = false;
  is_accel_struct_storage = false;
  is_shader_binding_table = false;
  is_volatile = false;
  is_virtual = false;
  initial_state = 0;
  keep_initial_state = false;
  cpu_access = CpuAccessMode.no_access;
}

resolve_range_bounds_example :
    let q = resolve_range (record { byte_offset = 40; byte_size = 0 }) small_buffer in
    (q.byte_offset + q.byte_size ≤ 100)
    × (q.byte_offset ≤ 40)
    × (40 + 0 ≤ 100 → 0 < 0 → q ≡ record { byte_offset = 40; byte_size = 0 })
    × (zero ≡ 0 → 40 ≤ 100 → q.byte_offset + q.byte_size ≡ 100)
resolve_range_bounds_example =
    resolve_range_bounds (record { byte_offset = 40; byte_size = 0 }) small_buffer
