-- ===== src/Validation/Immediate.antt =====
-- src/validation/validation-commandlist.cpp: the counter of open immediate command lists of a device
-- with any number of command lists.
use cutie_rhi.Base.{ℕ, ◌+◌, ◌≤◌, Bool, true, false, ◌&&◌, ◌≡◌, refl, arith, if◌then◌else◌, if_elim}
use cutie_rhi.Validation.{CommandListState, Wrapper, Session, Fault}
use cutie_rhi.Validation.Guards.{is_opened, error, forward}
use cutie_rhi.Validation.Lifecycle.{
  open_recording, open_from, open_command_list, close_recording, close_from, close_command_list,
  execute_from, require_execute_state,
}
use cutie_rhi.Validation.Commands.{
  Command, run, sampler_feedback_operation, copy_operation, recorded_operation, uav_operation,
  accel_struct_operation,
}
use cutie_rhi.Validation.Unchanged

-- Does the counter count this list?
abbrev pub is_counted : Wrapper → Bool
is_counted w = w.is_immediate && is_opened w.state

abbrev pub weight : Wrapper → ℕ
weight w = if is_counted w then 1 else 0

-- The counter moves with the list that the operation is called on, and stays at most 1.
abbrev pub Balanced : Session → Session → Type 0
Balanced s t =
    (t.num_open_immediate_command_lists + weight s.wrapper
      ≡ s.num_open_immediate_command_lists + weight t.wrapper)
    × (t.num_open_immediate_command_lists ≤ 1)

Keeps-Balanced :
    (s t : Session) → Unchanged.Keeps s t → s.num_open_immediate_command_lists ≤ 1 → Balanced s t
Keeps-Balanced s t k h = rw (k.state_kept, k.kind_kept, k.count_kept) (refl, h)

open_recording-Balanced :
    (s : Session)
    → is_opened s.wrapper.state ≡ false
    → s.num_open_immediate_command_lists ≤ 1
    → Balanced s (open_recording s)
unfolding open_recording error forward
open_recording-Balanced s e h = ground arith

close_recording-Balanced :
    (s : Session)
    → is_opened s.wrapper.state ≡ true
    → s.num_open_immediate_command_lists ≤ 1
    → weight s.wrapper ≤ s.num_open_immediate_command_lists
    → Balanced s (close_recording s)
unfolding close_recording error forward
close_recording-Balanced s e h c = ground arith

module _ (s : Session) (h : s.num_open_immediate_command_lists ≤ 1) where
  open_command_list-Balanced : Balanced s (open_command_list s)
  unfolding open_command_list error
  open_command_list-Balanced = by_state s.wrapper.state refl
    where
      by_state : (c : CommandListState) → s.wrapper.state ≡ c → Balanced s (open_from c s)
      by_state CommandListState.opened e = (refl, h)
      by_state CommandListState.closed e =
          if_elim (Balanced s) s.wrapper.is_immediate _ _ (λ _. (refl, h))
            (λ _. open_recording-Balanced (error Fault.reopened_unexecuted s) (rw e refl) h)
      by_state CommandListState.initial e = open_recording-Balanced s (rw e refl) h

  close_command_list-Balanced :
      weight s.wrapper ≤ s.num_open_immediate_command_lists → Balanced s (close_command_list s)
  unfolding close_command_list error
  close_command_list-Balanced c = by_state s.wrapper.state refl
    where
      by_state : (c : CommandListState) → s.wrapper.state ≡ c → Balanced s (close_from c s)
      by_state CommandListState.initial e = (refl, h)
      by_state CommandListState.closed e = (refl, h)
      by_state CommandListState.opened e = close_recording-Balanced s (rw e refl) h c

  require_execute_state-Balanced : Balanced s (require_execute_state s).1
  unfolding require_execute_state error
  require_execute_state-Balanced = by_state s.wrapper.state refl
    where
      by_state : (c : CommandListState) → s.wrapper.state ≡ c → Balanced s (execute_from c s).1
      by_state CommandListState.initial e = (refl, h)
      by_state CommandListState.opened e = (refl, h)
      by_state CommandListState.closed e = ground (arith, e, h)

-- Every operation keeps the counter in step with the list it is called on.
pub run-Balanced :
    (c : Command) (s : Session)
    → s.num_open_immediate_command_lists ≤ 1
    → weight s.wrapper ≤ s.num_open_immediate_command_lists
    → Balanced s (run c s)
unfolding run
run-Balanced Command.open_command s h k = open_command_list-Balanced s h
run-Balanced Command.close_command s h k = close_command_list-Balanced s h k
run-Balanced Command.execute_command s h k = require_execute_state-Balanced s h
run-Balanced Command.clear_state_command s h k =
    Keeps-Balanced s _ (Unchanged.clear_state-Keeps s) h
run-Balanced (Command.clear_buffer_uint_command args) s h k =
    Keeps-Balanced s _ (Unchanged.clear_buffer_uint-Keeps args s) h
run-Balanced (Command.clear_float t args) s h k =
    Keeps-Balanced s _ (Unchanged.clear_texture_float-Keeps t args s) h
run-Balanced (Command.clear_depth t args) s h k =
    Keeps-Balanced s _ (Unchanged.clear_depth_stencil_texture-Keeps t args s) h
run-Balanced (Command.clear_uint t args) s h k =
    Keeps-Balanced s _ (Unchanged.clear_texture_uint-Keeps t args s) h
run-Balanced (Command.write_texture_command t pitch args) s h k =
    Keeps-Balanced s _ (Unchanged.write_texture-Keeps t pitch args s) h
run-Balanced (Command.resolve_command dest ds src ss args) s h k =
    Keeps-Balanced s _ (Unchanged.resolve_texture-Keeps dest ds src ss args s) h
run-Balanced (Command.write_buffer_command b size offset args) s h k =
    Keeps-Balanced s _ (Unchanged.write_buffer-Keeps b size offset args s) h
run-Balanced (Command.push_constants_command size) s h k =
    Keeps-Balanced s _ (Unchanged.set_push_constants-Keeps size s) h
run-Balanced (Command.graphics_command g) s h k =
    Keeps-Balanced s _ (Unchanged.set_graphics_state-Keeps g s) h
run-Balanced (Command.compute_command g) s h k =
    Keeps-Balanced s _ (Unchanged.set_compute_state-Keeps g s) h
run-Balanced (Command.meshlet_command g) s h k =
    Keeps-Balanced s _ (Unchanged.set_meshlet_state-Keeps g s) h
run-Balanced (Command.ray_tracing_command g) s h k =
    Keeps-Balanced s _ (Unchanged.set_ray_tracing_state-Keeps g s) h
run-Balanced (Command.draw_command args) s h k = Keeps-Balanced s _ (Unchanged.draw-Keeps args s) h
run-Balanced (Command.draw_indexed_command args) s h k =
    Keeps-Balanced s _ (Unchanged.draw_indexed-Keeps args s) h
run-Balanced (Command.draw_indirect_command args) s h k =
    Keeps-Balanced s _ (Unchanged.draw_indirect-Keeps args s) h
run-Balanced (Command.draw_indexed_indirect_command args) s h k =
    Keeps-Balanced s _ (Unchanged.draw_indexed_indirect-Keeps args s) h
run-Balanced (Command.draw_indexed_indirect_count_command args) s h k =
    Keeps-Balanced s _ (Unchanged.draw_indexed_indirect_count-Keeps args s) h
run-Balanced (Command.dispatch_command args) s h k =
    Keeps-Balanced s _ (Unchanged.dispatch-Keeps args s) h
run-Balanced (Command.dispatch_indirect_command args) s h k =
    Keeps-Balanced s _ (Unchanged.dispatch_indirect-Keeps args s) h
run-Balanced (Command.dispatch_mesh_command args) s h k =
    Keeps-Balanced s _ (Unchanged.dispatch_mesh-Keeps args s) h
run-Balanced (Command.dispatch_mesh_indirect_command args) s h k =
    Keeps-Balanced s _ (Unchanged.dispatch_mesh_indirect-Keeps args s) h
run-Balanced (Command.dispatch_mesh_indirect_count_command args) s h k =
    Keeps-Balanced s _ (Unchanged.dispatch_mesh_indirect_count-Keeps args s) h
run-Balanced (Command.dispatch_rays_command args) s h k =
    Keeps-Balanced s _ (Unchanged.dispatch_rays-Keeps args s) h
run-Balanced (Command.sampler_feedback_command op args) s h k =
    Keeps-Balanced s _ (Unchanged.sampler_feedback-Keeps (sampler_feedback_operation op) args s) h
run-Balanced (Command.copy op args) s h k =
    Keeps-Balanced s _ (Unchanged.copy_command-Keeps (copy_operation op) args s) h
run-Balanced (Command.recorded op args) s h k =
    Keeps-Balanced s _ (Unchanged.recorded_command-Keeps (recorded_operation op) args s) h
run-Balanced (Command.uav_barriers op args) s h k =
    Keeps-Balanced s _ (Unchanged.set_enable_uav_barriers-Keeps (uav_operation op) args s) h
run-Balanced (Command.accel_structs op args) s h k =
    Keeps-Balanced s _ (Unchanged.accel_struct_command-Keeps (accel_struct_operation op) args s) h
