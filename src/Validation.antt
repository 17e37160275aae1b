-- ===== src/Validation.antt =====
-- src/validation/validation-backend.h and include/cutie/cutie.h: the data of `CommandListWrapper`,
-- which checks every call of a command list before it forwards it to the wrapped list.
--
-- Pointers that may be null are options. What the wrapper passes on unread is a number that names
-- it. The wrapped command list is not modelled: `calls` records what it is called with. Errors are
-- kept as values instead of texts, in the order in which they are reported.
pub mod Guards
pub mod Lifecycle
pub mod Resources
pub mod Bindings
pub mod Graphics
pub mod Compute
pub mod PassThrough
pub mod Commands
pub mod Protocol
pub mod Forwarding
pub mod Draws
pub mod ResourceCalls
pub mod StateCalls
pub mod Refinement
pub mod Unchanged
pub mod Immediate
pub mod Fleet
pub mod Execute
pub mod Submission
pub mod Refusal
pub mod Geometry
pub mod AccelStructs
pub mod GeometryBounds
pub mod Rebuilds
use cutie_rhi.Base.{ℕ, Bool, true, false, List, [], Option, none}
use cutie_rhi.Versioning.{CommandQueue}

pub data CommandListState : Type 0 where
  initial opened closed : CommandListState

pub record BufferInfo : Type 0 where
  pub byte_size : ℕ
  pub is_volatile : Bool
  pub is_vertex_buffer : Bool
  pub is_index_buffer : Bool
  pub is_draw_indirect_args : Bool
  pub is_accel_struct_build_input : Bool

-- An entry of a binding layout: is its type `PushConstants`, and its size.
pub record LayoutItem : Type 0 where
  pub is_push_constants : Bool
  pub size : ℕ

-- A binding layout, `getDesc` of it (null for a bindless one) and whether `getBindlessDesc` of it
-- is not null.
pub record Layout : Type 0 where
  pub layout : ℕ
  pub bindings : Option (List LayoutItem)
  pub is_bindless : Bool

-- A binding set: its layout, and whether `getDesc` of it is null.
pub record BindingSet : Type 0 where
  pub layout : ℕ
  pub is_bindless : Bool

pub record FramebufferInfo : Type 0 where
  pub color_formats : List ℕ
  pub depth_format : ℕ
  pub sample_count : ℕ
  pub sample_quality : ℕ

pub record Pipeline : Type 0 where
  pub binding_layouts : List Layout
  pub framebuffer_info : FramebufferInfo

pub record VertexBufferBinding : Type 0 where
  pub buffer : Option BufferInfo
  pub slot : ℕ

pub record GraphicsState : Type 0 where
  pub pipeline : Option Pipeline
  pub framebuffer : Option FramebufferInfo
  pub bindings : List (Option BindingSet)
  pub vertex_buffers : List VertexBufferBinding
  pub index_buffer : Option BufferInfo
  pub indirect_params : Option BufferInfo
  pub indirect_count_buffer : Option BufferInfo

-- `ComputeState` and `MeshletState`, in the fields that the wrapper reads.
pub record DispatchState : Type 0 where
  pub pipeline : Option Pipeline
  pub bindings : List (Option BindingSet)
  pub indirect_params : Option BufferInfo
  pub indirect_count_buffer : Option BufferInfo

-- The operations that are checked by type or forwarded with arguments that nothing reads.
pub data Operation : Type 0 where
  clear_texture_float clear_depth_stencil_texture clear_texture_uint : Operation
  copy_texture write_texture resolve_texture write_buffer clear_buffer_uint copy_buffer : Operation
  clear_sampler_feedback_texture decode_sampler_feedback_texture : Operation
  set_sampler_feedback_texture_state set_graphics_state set_compute_state : Operation
  set_meshlet_state set_ray_tracing_state : Operation
  draw draw_indexed draw_indirect draw_indexed_indirect draw_indexed_indirect_count : Operation
  dispatch dispatch_indirect dispatch_mesh dispatch_mesh_indirect : Operation
  dispatch_mesh_indirect_count dispatch_rays : Operation
  begin_timer_query end_timer_query begin_marker end_marker set_enable_automatic_barriers :
      Operation
  set_resource_states_for_binding_set set_enable_uav_barriers_for_texture : Operation
  set_enable_uav_barriers_for_buffer begin_tracking_texture_state : Operation
  begin_tracking_buffer_state set_texture_state set_buffer_state set_accel_struct_state : Operation
  set_permanent_texture_state set_permanent_buffer_state commit_barriers : Operation
  compact_bottom_level_accel_structs copy_raytracing_acceleration_structure : Operation
  build_opacity_micromap : Operation

-- What the wrapped command list is called with.
pub data Call : Type 0 where
  open_call close_call clear_state_call : Call
  graphics_call : GraphicsState → Call
  compute_call meshlet_call : DispatchState → Call
  ray_tracing_call : List Layout → Call
  push_constants_call : ℕ → Call
  operation_call : Operation → ℕ → Call

-- What is wrong with a pipeline state.
pub data StateFault : Type 0 where
  null_pipeline null_framebuffer not_index_buffer not_indirect_args framebuffer_mismatch :
      StateFault
  null_vertex_buffer not_vertex_buffer : ℕ → StateFault
  invalid_vertex_slot : ℕ → ℕ → StateFault

pub data Fault : Type 0 where
  not_open : CommandListState → Fault
  execute_before_open execute_before_close already_open abandoned_immediate : Fault
  reopened_unexecuted two_immediate_open close_before_open already_closed : Fault
  wrong_type : CommandQueue → Operation → Fault
  is_depth_stencil not_depth_stencil is_integer_texture not_integer_texture : Operation → Fault
  not_render_target : Operation → Fault
  row_pitch_zero null_dest null_src set_sizes_differ mip_sizes_differ : Fault
  dest_multi_sampled src_not_multi_sampled formats_differ : Fault
  buffer_too_small volatile_offset volatile_too_long : Fault
  binding_set_count : ℕ → ℕ → Fault
  null_binding_set wrong_layout regular_binding_set : ℕ → Fault
  no_state_for_push_constants : Fault
  push_constants_too_long : ℕ → Fault
  wrong_push_constants_size : ℕ → ℕ → Fault
  push_constants_missing : Operation → ℕ → Fault
  graphics_state_faults compute_state_faults : List StateFault → Fault
  null_meshlet_pipeline : Fault
  state_not_set index_buffer_not_set indirect_params_not_set : Operation → Fault
  indirect_count_not_set : Operation → Fault

pub record Wrapper : Type 0 where
  pub is_immediate : Bool
  pub queue_type : CommandQueue
  pub state : CommandListState
  pub graphics_state_set : Bool
  pub compute_state_set : Bool
  pub meshlet_state_set : Bool
  pub ray_tracing_state_set : Bool
  pub current_graphics_state : GraphicsState
  pub current_compute_state : DispatchState
  pub current_meshlet_state : DispatchState
  pub pipeline_push_constant_size : ℕ
  pub push_constants_set : Bool

-- One command list, the counter `m_NumOpenImmediateCommandLists` of its device, and what was
-- forwarded and reported.
pub record Session : Type 0 where
  pub wrapper : Wrapper
  pub num_open_immediate_command_lists : ℕ
  pub calls : List Call
  pub faults : List Fault

abbrev pub no_graphics_state : GraphicsState
no_graphics_state = record {
  pipeline = none;
  framebuffer = none;
  bindings = [];
  vertex_buffers = [];
  index_buffer = none;
  indirect_params = none;
  indirect_count_buffer = none;
}

abbrev pub no_dispatch_state : DispatchState
no_dispatch_state = record {
  pipeline = none;
  bindings = [];
  indirect_params = none;
  indirect_count_buffer = none;
}

-- A new wrapper.
abbrev pub new_wrapper : Bool → CommandQueue → Wrapper
new_wrapper immediate queue = record {
  is_immediate = immediate;
  queue_type = queue;
  state = CommandListState.initial;
  graphics_state_set = false;
  compute_state_set = false;
  meshlet_state_set = false;
  ray_tracing_state_set = false;
  current_graphics_state = no_graphics_state;
  current_compute_state = no_dispatch_state;
  current_meshlet_state = no_dispatch_state;
  pipeline_push_constant_size = 0;
  push_constants_set = false;
}
