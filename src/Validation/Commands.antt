-- ===== src/Validation/Commands.antt =====
-- src/validation/validation-commandlist.cpp: the calls of a command list, one after the other.
use cutie_rhi.Base.{ℕ, List, [], ◌∷◌, Option}
use cutie_rhi.Subresources.{SubresourceSet}
use cutie_rhi.Validation.{BufferInfo, Layout, GraphicsState, DispatchState, Operation, Session}
use cutie_rhi.Validation.Lifecycle.{
  open_command_list, close_command_list, require_execute_state, clear_state,
}
use cutie_rhi.Validation.Resources.{
  TextureInfo, clear_texture_float, clear_depth_stencil_texture, clear_texture_uint, write_texture,
  resolve_texture, write_buffer,
}
use cutie_rhi.Validation.Bindings.{set_push_constants}
use cutie_rhi.Validation.Graphics.{
  set_graphics_state, draw, draw_indexed, draw_indirect, draw_indexed_indirect,
  draw_indexed_indirect_count,
}
use cutie_rhi.Validation.Compute.{
  set_compute_state, dispatch, dispatch_indirect, set_meshlet_state, dispatch_mesh,
  dispatch_mesh_indirect, dispatch_mesh_indirect_count, set_ray_tracing_state, dispatch_rays,
}
use cutie_rhi.Validation.PassThrough.{
  sampler_feedback, copy_command, clear_buffer_uint, recorded_command, set_enable_uav_barriers,
  accel_struct_command,
}

-- The operations that each of the shared functions stands for.
pub data SamplerFeedback : Type 0 where
  clear decode set_state : SamplerFeedback

abbrev pub sampler_feedback_operation : SamplerFeedback → Operation
sampler_feedback_operation SamplerFeedback.clear = Operation.clear_sampler_feedback_texture
sampler_feedback_operation SamplerFeedback.decode = Operation.decode_sampler_feedback_texture
sampler_feedback_operation SamplerFeedback.set_state = Operation.set_sampler_feedback_texture_state

pub data Copy : Type 0 where
  texture buffer : Copy

abbrev pub copy_operation : Copy → Operation
copy_operation Copy.texture = Operation.copy_texture
copy_operation Copy.buffer = Operation.copy_buffer

pub data Recorded : Type 0 where
  begin_timer_query end_timer_query begin_marker end_marker automatic_barriers : Recorded
  binding_set_states begin_tracking_texture begin_tracking_buffer texture_state : Recorded
  buffer_state accel_struct_state permanent_texture permanent_buffer commit_barriers : Recorded

abbrev pub recorded_operation : Recorded → Operation
recorded_operation Recorded.begin_timer_query = Operation.begin_timer_query
recorded_operation Recorded.end_timer_query = Operation.end_timer_query
recorded_operation Recorded.begin_marker = Operation.begin_marker
recorded_operation Recorded.end_marker = Operation.end_marker
recorded_operation Recorded.automatic_barriers = Operation.set_enable_automatic_barriers
recorded_operation Recorded.binding_set_states = Operation.set_resource_states_for_binding_set
recorded_operation Recorded.begin_tracking_texture = Operation.begin_tracking_texture_state
recorded_operation Recorded.begin_tracking_buffer = Operation.begin_tracking_buffer_state
recorded_operation Recorded.texture_state = Operation.set_texture_state
recorded_operation Recorded.buffer_state = Operation.set_buffer_state
recorded_operation Recorded.accel_struct_state = Operation.set_accel_struct_state
recorded_operation Recorded.permanent_texture = Operation.set_permanent_texture_state
recorded_operation Recorded.permanent_buffer = Operation.set_permanent_buffer_state
recorded_operation Recorded.commit_barriers = Operation.commit_barriers

pub data UavBarriers : Type 0 where
  texture buffer : UavBarriers

abbrev pub uav_operation : UavBarriers → Operation
uav_operation UavBarriers.texture = Operation.set_enable_uav_barriers_for_texture
uav_operation UavBarriers.buffer = Operation.set_enable_uav_barriers_for_buffer

pub data AccelStructs : Type 0 where
  compact copy build_micromap : AccelStructs

abbrev pub accel_struct_operation : AccelStructs → Operation
accel_struct_operation AccelStructs.compact = Operation.compact_bottom_level_accel_structs
accel_struct_operation AccelStructs.copy = Operation.copy_raytracing_acceleration_structure
accel_struct_operation AccelStructs.build_micromap = Operation.build_opacity_micromap

pub data Command : Type 0 where
  open_command close_command execute_command clear_state_command : Command
  clear_buffer_uint_command : ℕ → Command
  clear_float clear_depth clear_uint : TextureInfo → ℕ → Command
  write_texture_command : TextureInfo → ℕ → ℕ → Command
  resolve_command :
      Option TextureInfo → SubresourceSet → Option TextureInfo → SubresourceSet → ℕ → Command
  write_buffer_command : BufferInfo → ℕ → ℕ → ℕ → Command
  push_constants_command : ℕ → Command
  graphics_command : GraphicsState → Command
  compute_command meshlet_command : DispatchState → Command
  ray_tracing_command : List Layout → Command
  draw_command draw_indexed_command draw_indirect_command : ℕ → Command
  draw_indexed_indirect_command draw_indexed_indirect_count_command : ℕ → Command
  dispatch_command dispatch_indirect_command dispatch_mesh_command : ℕ → Command
  dispatch_mesh_indirect_command dispatch_mesh_indirect_count_command : ℕ → Command
  dispatch_rays_command : ℕ → Command
  sampler_feedback_command : SamplerFeedback → ℕ → Command
  copy : Copy → ℕ → Command
  recorded : Recorded → ℕ → Command
  uav_barriers : UavBarriers → ℕ → Command
  accel_structs : AccelStructs → ℕ → Command

unfoldable pub run : Command → Session → Session
run Command.open_command = open_command_list
run Command.close_command = close_command_list
run Command.execute_command = λ s. (require_execute_state s).1
run Command.clear_state_command = clear_state
run (Command.clear_buffer_uint_command args) = clear_buffer_uint args
run (Command.clear_float t args) = clear_texture_float t args
run (Command.clear_depth t args) = clear_depth_stencil_texture t args
run (Command.clear_uint t args) = clear_texture_uint t args
run (Command.write_texture_command t pitch args) = write_texture t pitch args
run (Command.resolve_command dest ds src ss args) = resolve_texture dest ds src ss args
run (Command.write_buffer_command b size offset args) = write_buffer b size offset args
run (Command.push_constants_command size) = set_push_constants size
run (Command.graphics_command g) = set_graphics_state g
run (Command.compute_command c) = set_compute_state c
run (Command.meshlet_command m) = set_meshlet_state m
run (Command.ray_tracing_command layouts) = set_ray_tracing_state layouts
run (Command.draw_command args) = draw args
run (Command.draw_indexed_command args) = draw_indexed args
run (Command.draw_indirect_command args) = draw_indirect args
run (Command.draw_indexed_indirect_command args) = draw_indexed_indirect args
run (Command.draw_indexed_indirect_count_command args) = draw_indexed_indirect_count args
run (Command.dispatch_command args) = dispatch args
run (Command.dispatch_indirect_command args) = dispatch_indirect args
run (Command.dispatch_mesh_command args) = dispatch_mesh args
run (Command.dispatch_mesh_indirect_command args) = dispatch_mesh_indirect args
run (Command.dispatch_mesh_indirect_count_command args) = dispatch_mesh_indirect_count args
run (Command.dispatch_rays_command args) = dispatch_rays args
run (Command.sampler_feedback_command op args) =
    sampler_feedback (sampler_feedback_operation op) args
run (Command.copy op args) = copy_command (copy_operation op) args
run (Command.recorded op args) = recorded_command (recorded_operation op) args
run (Command.uav_barriers op args) = set_enable_uav_barriers (uav_operation op) args
run (Command.accel_structs op args) = accel_struct_command (accel_struct_operation op) args

unfoldable pub run_all : List Command → Session → Session
run_all [] s = s
run_all (c ∷ cs) s = run_all cs (run c s)
