-- ===== src/Validation/Refinement.antt =====
-- src/validation/validation-commandlist.cpp: whatever the application calls, the wrapped command
-- list sees calls in the order that the protocol allows.
use cutie_rhi.Base.{ℕ, Bool, List, [], ◌∷◌, some, ◌≡◌, refl}
use cutie_rhi.Versioning.{CommandQueue}
use cutie_rhi.Validation.{Session, new_wrapper}
use cutie_rhi.Validation.Commands.{Command, run, run_all}
use cutie_rhi.Validation.Protocol.{View, start_view, follow}
use cutie_rhi.Validation.Forwarding.{Matches, InStep}
use cutie_rhi.Validation.Draws
use cutie_rhi.Validation.ResourceCalls
use cutie_rhi.Validation.StateCalls

-- A wrapper at the start, on a device with `open` open immediate command lists.
unfoldable pub new_session : Bool → CommandQueue → ℕ → Session
new_session immediate queue open_lists = record {
  wrapper = new_wrapper immediate queue;
  num_open_immediate_command_lists = open_lists;
  calls = [];
  faults = [];
}

new_session-InStep :
    (immediate : Bool) (queue : CommandQueue) (n : ℕ) → InStep (new_session immediate queue n)
unfolding new_session follow
new_session-InStep immediate queue n = (
  start_view,
  refl,
  record {
    recording_eq = refl;
    graphics_eq = refl;
    compute_eq = refl;
    meshlet_eq = refl;
    rays_eq = refl;
    current_graphics_eq = refl;
    current_compute_eq = refl;
    current_meshlet_eq = refl;
    size_eq = refl;
    pushed_eq = refl;
  },
)

-- Every operation keeps the calls within the protocol.
pub run-InStep : (c : Command) (s : Session) → InStep s → InStep (run c s)
unfolding run
run-InStep Command.open_command s i = StateCalls.open_command_list-InStep s i
run-InStep Command.close_command s i = StateCalls.close_command_list-InStep s i
run-InStep Command.execute_command s i = StateCalls.require_execute_state-InStep s i
run-InStep Command.clear_state_command s i = StateCalls.clear_state-InStep s i
run-InStep (Command.clear_buffer_uint_command args) s i =
    ResourceCalls.clear_buffer_uint-InStep args s i
run-InStep (Command.clear_float t args) s i = ResourceCalls.clear_texture_float-InStep t args s i
run-InStep (Command.clear_depth t args) s i =
    ResourceCalls.clear_depth_stencil_texture-InStep t args s i
run-InStep (Command.clear_uint t args) s i = ResourceCalls.clear_texture_uint-InStep t args s i
run-InStep (Command.write_texture_command t pitch args) s i =
    ResourceCalls.write_texture-InStep t pitch args s i
run-InStep (Command.resolve_command dest ds src ss args) s i =
    ResourceCalls.resolve_texture-InStep dest ds src ss args s i
run-InStep (Command.write_buffer_command b size offset args) s i =
    ResourceCalls.write_buffer-InStep b size offset args s i
run-InStep (Command.push_constants_command size) s i = StateCalls.set_push_constants-InStep size s i
run-InStep (Command.graphics_command g) s i = StateCalls.set_graphics_state-InStep g s i
run-InStep (Command.compute_command g) s i = StateCalls.set_compute_state-InStep g s i
run-InStep (Command.meshlet_command g) s i = StateCalls.set_meshlet_state-InStep g s i
run-InStep (Command.ray_tracing_command g) s i = StateCalls.set_ray_tracing_state-InStep g s i
run-InStep (Command.draw_command args) s i = Draws.draw-InStep args s i
run-InStep (Command.draw_indexed_command args) s i = Draws.draw_indexed-InStep args s i
run-InStep (Command.draw_indirect_command args) s i = Draws.draw_indirect-InStep args s i
run-InStep (Command.draw_indexed_indirect_command args) s i =
    Draws.draw_indexed_indirect-InStep args s i
run-InStep (Command.draw_indexed_indirect_count_command args) s i =
    Draws.draw_indexed_indirect_count-InStep args s i
run-InStep (Command.dispatch_command args) s i = Draws.dispatch-InStep args s i
run-InStep (Command.dispatch_indirect_command args) s i = Draws.dispatch_indirect-InStep args s i
run-InStep (Command.dispatch_mesh_command args) s i = Draws.dispatch_mesh-InStep args s i
run-InStep (Command.dispatch_mesh_indirect_command args) s i =
    Draws.dispatch_mesh_indirect-InStep args s i
run-InStep (Command.dispatch_mesh_indirect_count_command args) s i =
    Draws.dispatch_mesh_indirect_count-InStep args s i
run-InStep (Command.dispatch_rays_command args) s i = Draws.dispatch_rays-InStep args s i
run-InStep (Command.sampler_feedback_command op args) s i =
    ResourceCalls.sampler_feedback-InStep op args s i
run-InStep (Command.copy op args) s i = ResourceCalls.copy_command-InStep op args s i
run-InStep (Command.recorded op args) s i = ResourceCalls.recorded_command-InStep op args s i
run-InStep (Command.uav_barriers op args) s i =
    ResourceCalls.set_enable_uav_barriers-InStep op args s i
run-InStep (Command.accel_structs op args) s i =
    ResourceCalls.accel_struct_command-InStep op args s i

run_all-InStep : (cs : List Command) (s : Session) → InStep s → InStep (run_all cs s)
unfolding run_all
run_all-InStep [] s i = i
run_all-InStep (c ∷ cs) s i = run_all-InStep cs (run c s) (run-InStep c s i)

-- Whatever operations of `Command` an application calls on a new command list, in whatever order and
-- with whatever arguments, the calls that reach the wrapped list follow the protocol: lists are opened
-- and closed in turn; every call but those on sampler feedback is made while the list records; a
-- draw or a dispatch finds the state of its kind set in this recording and not replaced or cleared
-- since, with the buffers that it needs and with its push constants set since, except that a ray
-- tracing state set in this recording will do for a mesh dispatch, and one of an earlier recording for
-- `dispatchRays`; and at every moment the flags and the current states of the wrapper are what these
-- calls amount to. `Command` has every operation of the wrapper but the builds of acceleration
-- structures that it checks, cluster operations and the conversion of cooperative vector matrices.
pub run_all-follows :
    (cs : List Command) (immediate : Bool) (queue : CommandQueue) (n : ℕ)
    → let s = run_all cs (new_session immediate queue n) in
      (v : View) × (follow start_view s.calls ≡ some v) × Matches v s.wrapper
run_all-follows cs immediate queue n =
    run_all-InStep cs (new_session immediate queue n) (new_session-InStep immediate queue n)
