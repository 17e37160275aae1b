-- ===== src/Examples/DeviceWrapper.antt =====
-- Examples for src/validation/validation-device.cpp, on descriptions and memory.
use cutie_rhi.Base.{◌≡◌, ◌↔◌, refl, arith, true, false, ◌&&◌, [], none, some, if◌then◌else◌}
use cutie_rhi.Resources.{TextureDimension, TextureDesc, BufferDesc, CpuAccessMode}
use cutie_rhi.DeviceWrapper.{
  Underlying, MemoryObject, is_empty, create_texture, create_buffer, bind_memory, bind_checked,
}
use cutie_rhi.DeviceWrapper.Textures.{has_extent, has_shape, is_sound, create_texture-accepts}
use cutie_rhi.DeviceWrapper.Buffers.{is_acceptable, create_buffer-accepts}
use cutie_rhi.DeviceWrapper.Memory.{IsPlaced, bind_memory-IsPlaced}

abbrev a_device : Underlying
a_device = record {
  supports_virtual_resources = false;
  make_heap = λ capacity. some 1;
  make_texture = λ d. some 2;
  make_buffer = λ d. some 3;
}

abbrev a_cube : TextureDesc
a_cube = record {
  width = 64;
  height = 64;
  depth = 1;
  array_size = 6;
  mip_levels = 1;
  sample_count = 1;
  sample_quality = 0;
  format = 10;
  dimension = TextureDimension.texture_cube;
  is_render_target = false;
  is_uav = false;
  is_virtual = false;
  initial_state = 1;
  keep_initial_state = true;
}

create_texture-accepts_example :
    let accepted =
      has_extent a_cube && (has_shape a_cube.dimension a_cube && is_sound a_device a_cube) in
    (is_empty (create_texture a_device a_cube).0 ≡ accepted)
    × ((create_texture a_device a_cube).1 ≡ (if accepted then some 2 else none))
create_texture-accepts_example = create_texture-accepts a_device a_cube

abbrev a_constant_buffer : BufferDesc
a_constant_buffer = record {
  byte_size = 256;
  max_versions = 16;
  is_vertex_buffer = false;
  is_index_buffer = false;
  is_draw_indirect_args = false;
  is_constant_buffer = true;
  can_have_uavs = false;
  is_accel_struct_build_input = false;
  is_accel_struct_storage = false;
  is_shader_binding_table = false;
  is_volatile = true;
  is_virtual = false;
  initial_state = 1;
  keep_initial_state = false;
  cpu_access = CpuAccessMode.no_access;
}

create_buffer-accepts_example :
    (is_empty (create_buffer a_device a_constant_buffer).0
      ≡ is_acceptable a_device a_constant_buffer)
    × ((create_buffer a_device a_constant_buffer).1
        ≡ (if is_acceptable a_device a_constant_buffer then some 3 else none))
create_buffer-accepts_example = create_buffer-accepts a_device a_constant_buffer

abbrev an_object : MemoryObject
an_object = record { is_virtual = true; requirements = record { size = 4096; alignment = 256 } }

bind_memory-IsPlaced_example :
    let r = bind_memory true (some an_object) (some 65536) 512 in
    ((is_empty r.0 ≡ true) ↔ IsPlaced an_object 65536 512)
    × ((r.1 ≡ true) ↔ IsPlaced an_object 65536 512 × (true ≡ true))
bind_memory-IsPlaced_example = bind_memory-IsPlaced true an_object 65536 512 (omega arith)

-- An offset near 2^64 wraps around and passes the test.
end_wraps : bind_memory true (some an_object) (some 65536) 0xFFFFFFFFFFFFFF00 ≡ ([], true)
unfolding bind_memory bind_checked
end_wraps = refl
