-- ===== src/Resources.antt =====
-- include/cutie/cutie.h: the descriptions of textures and buffers, as far as the modelled code
-- reads them. A debug name, which only goes into messages, is
-- the number of the resource where a message needs one. A format is the value of its enumerator.
use cutie_rhi.Base.{ℕ, ◌^◌, Bool}

-- `uint32_t` and `uint64_t` count modulo these.
abbrev pub u32 : ℕ
u32 = 2 ^ 32

abbrev pub u64 : ℕ
u64 = 2 ^ 64

pub data TextureDimension : Type 0 where
  unknown_dimension texture_1d texture_1d_array texture_2d texture_2d_array : TextureDimension
  texture_cube texture_cube_array texture_2d_ms texture_2d_ms_array texture_3d : TextureDimension

pub record TextureDesc : Type 0 where
  pub width : ℕ
  pub height : ℕ
  pub depth : ℕ
  pub array_size : ℕ
  pub mip_levels : ℕ
  pub sample_count : ℕ
  pub sample_quality : ℕ
  pub format : ℕ
  pub dimension : TextureDimension
  pub is_render_target : Bool
  pub is_uav : Bool
  pub is_virtual : Bool
  pub initial_state : ℕ
  pub keep_initial_state : Bool

pub data CpuAccessMode : Type 0 where
  no_access read_access write_access : CpuAccessMode

pub record BufferDesc : Type 0 where
  pub byte_size : ℕ
  pub max_versions : ℕ
  pub is_vertex_buffer : Bool
  pub is_index_buffer : Bool
  pub is_draw_indirect_args : Bool
  pub is_constant_buffer : Bool
  pub can_have_uavs : Bool
  pub is_accel_struct_build_input : Bool
  pub is_accel_struct_storage : Bool
  pub is_shader_binding_table : Bool
  pub is_volatile : Bool
  pub is_virtual : Bool
  pub initial_state : ℕ
  pub keep_initial_state : Bool
  pub cpu_access : CpuAccessMode
