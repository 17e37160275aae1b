-- ===== src/Validation/Unchanged.antt =====
-- src/validation/validation-commandlist.cpp: the operations that leave the recording state of a
-- wrapper and the device's counter of open immediate command lists alone.
use cutie_rhi.Base.{ℕ, Bool, List, ◌≡◌, Option, refl}
use cutie_rhi.Subresources.{SubresourceSet}
use cutie_rhi.Validation.{
  BufferInfo, Layout, GraphicsState, DispatchState, Operation, Call, Fault, Session,
}
use cutie_rhi.Validation.Guards.{forward, error, guarded}
use cutie_rhi.Validation.Lifecycle.{clear_state}
use cutie_rhi.Validation.Resources.{
  TextureInfo, clear_texture_float, clear_depth_stencil_texture, clear_texture_uint, write_texture,
  resolve_texture, write_buffer,
}
use cutie_rhi.Validation.Bindings.{set_push_constants}
use cutie_rhi.Validation.Graphics.{
  set_graphics_state, draw, draw_indexed, draw_indirect, draw_indexed_indirect,
  draw_indexed_indirect_count,
}
use cutie_rhi.Validation.Compute.{
  set_compute_state, dispatch, dispatch_indirect, set_meshlet_state, dispatch_mesh,
  dispatch_mesh_indirect, dispatch_mesh_indirect_count, set_ray_tracing_state, dispatch_rays,
}
use cutie_rhi.Validation.PassThrough.{
  sampler_feedback, copy_command, clear_buffer_uint, recorded_command, set_enable_uav_barriers,
  accel_struct_command,
}
use cutie_rhi.Validation.Forwarding.{guarded_cases, report_inv, reported_cases}

-- The recording state, the kind of the list and the counter are those of `s`.
pub record Keeps (s t : Session) : Type 0 where
  pub state_kept : t.wrapper.state ≡ s.wrapper.state
  pub kind_kept : t.wrapper.is_immediate ≡ s.wrapper.is_immediate
  pub count_kept : t.num_open_immediate_command_lists ≡ s.num_open_immediate_command_lists

abbrev unchanged : (s : Session) → Keeps s s
unchanged s = record { state_kept = refl; kind_kept = refl; count_kept = refl }

pub error-Keeps : (s : Session) (f : Fault) (t : Session) → Keeps s t → Keeps s (error f t)
unfolding error
error-Keeps s f t k = record {
  state_kept = k.state_kept;
  kind_kept = k.kind_kept;
  count_kept = k.count_kept;
}

forward-Keeps : (s t : Session) (c : Call) → Keeps s t → Keeps s (forward c t)
unfolding forward
forward-Keeps s t c k = record {
  state_kept = k.state_kept;
  kind_kept = k.kind_kept;
  count_kept = k.count_kept;
}

guarded-Keeps :
    (checks : List (Bool × Fault)) (rest : Session → Session) (s : Session)
    → Keeps s (rest s)
    → Keeps s (guarded checks rest s)
guarded-Keeps checks rest s k =
    guarded_cases (Keeps s) checks rest s (λ f. error-Keeps s f s (unchanged s)) (λ _. k)

operation-Keeps :
    (checks : List (Bool × Fault)) (c : Call) (s : Session) → Keeps s (guarded checks (forward c) s)
operation-Keeps checks c s = guarded-Keeps checks (forward c) s (forward-Keeps s s c (unchanged s))

pub draw-Keeps : (args : ℕ) (s : Session) → Keeps s (draw args s)
unfolding draw
draw-Keeps args s = operation-Keeps _ _ s

pub draw_indexed-Keeps : (args : ℕ) (s : Session) → Keeps s (draw_indexed args s)
unfolding draw_indexed
draw_indexed-Keeps args s = operation-Keeps _ _ s

pub draw_indirect-Keeps : (args : ℕ) (s : Session) → Keeps s (draw_indirect args s)
unfolding draw_indirect
draw_indirect-Keeps args s = operation-Keeps _ _ s

pub draw_indexed_indirect-Keeps : (args : ℕ) (s : Session) → Keeps s (draw_indexed_indirect args s)
unfolding draw_indexed_indirect
draw_indexed_indirect-Keeps args s = operation-Keeps _ _ s

pub draw_indexed_indirect_count-Keeps :
    (args : ℕ) (s : Session) → Keeps s (draw_indexed_indirect_count args s)
unfolding draw_indexed_indirect_count
draw_indexed_indirect_count-Keeps args s = operation-Keeps _ _ s

pub dispatch-Keeps : (args : ℕ) (s : Session) → Keeps s (dispatch args s)
unfolding dispatch
dispatch-Keeps args s = operation-Keeps _ _ s

pub dispatch_indirect-Keeps : (args : ℕ) (s : Session) → Keeps s (dispatch_indirect args s)
unfolding dispatch_indirect
dispatch_indirect-Keeps args s = operation-Keeps _ _ s

pub dispatch_mesh-Keeps : (args : ℕ) (s : Session) → Keeps s (dispatch_mesh args s)
unfolding dispatch_mesh
dispatch_mesh-Keeps args s = operation-Keeps _ _ s

pub dispatch_mesh_indirect-Keeps :
    (args : ℕ) (s : Session) → Keeps s (dispatch_mesh_indirect args s)
unfolding dispatch_mesh_indirect
dispatch_mesh_indirect-Keeps args s = operation-Keeps _ _ s

pub dispatch_mesh_indirect_count-Keeps :
    (args : ℕ) (s : Session) → Keeps s (dispatch_mesh_indirect_count args s)
unfolding dispatch_mesh_indirect_count
dispatch_mesh_indirect_count-Keeps args s = operation-Keeps _ _ s

pub dispatch_rays-Keeps : (args : ℕ) (s : Session) → Keeps s (dispatch_rays args s)
unfolding dispatch_rays
dispatch_rays-Keeps args s = operation-Keeps _ _ s

pub clear_buffer_uint-Keeps : (args : ℕ) (s : Session) → Keeps s (clear_buffer_uint args s)
unfolding clear_buffer_uint
clear_buffer_uint-Keeps args s = operation-Keeps _ _ s

pub copy_command-Keeps :
    (op : Operation) (args : ℕ) (s : Session) → Keeps s (copy_command op args s)
unfolding copy_command
copy_command-Keeps op args s = operation-Keeps _ _ s

pub recorded_command-Keeps :
    (op : Operation) (args : ℕ) (s : Session) → Keeps s (recorded_command op args s)
unfolding recorded_command
recorded_command-Keeps op args s = operation-Keeps _ _ s

pub set_enable_uav_barriers-Keeps :
    (op : Operation) (args : ℕ) (s : Session) → Keeps s (set_enable_uav_barriers op args s)
unfolding set_enable_uav_barriers
set_enable_uav_barriers-Keeps op args s = operation-Keeps _ _ s

pub accel_struct_command-Keeps :
    (op : Operation) (args : ℕ) (s : Session) → Keeps s (accel_struct_command op args s)
unfolding accel_struct_command
accel_struct_command-Keeps op args s = operation-Keeps _ _ s

pub clear_texture_float-Keeps :
    (t : TextureInfo) (args : ℕ) (s : Session) → Keeps s (clear_texture_float t args s)
unfolding clear_texture_float
clear_texture_float-Keeps t args s = operation-Keeps _ _ s

pub clear_depth_stencil_texture-Keeps :
    (t : TextureInfo) (args : ℕ) (s : Session) → Keeps s (clear_depth_stencil_texture t args s)
unfolding clear_depth_stencil_texture
clear_depth_stencil_texture-Keeps t args s = operation-Keeps _ _ s

pub clear_texture_uint-Keeps :
    (t : TextureInfo) (args : ℕ) (s : Session) → Keeps s (clear_texture_uint t args s)
unfolding clear_texture_uint
clear_texture_uint-Keeps t args s = operation-Keeps _ _ s

pub write_buffer-Keeps :
    (b : BufferInfo) (size offset args : ℕ) (s : Session)
    → Keeps s (write_buffer b size offset args s)
unfolding write_buffer
write_buffer-Keeps b size offset args s = operation-Keeps _ _ s

pub set_graphics_state-Keeps : (g : GraphicsState) (s : Session) → Keeps s (set_graphics_state g s)
unfolding set_graphics_state
set_graphics_state-Keeps g s = guarded-Keeps _ _ s (
    reported_cases (Keeps s) _ _ s (error-Keeps s) (unchanged s) (
      reported_cases (Keeps s) _ _ s (error-Keeps s) (unchanged s)
        (forward-Keeps s _ _ (record { state_kept = refl; kind_kept = refl; count_kept = refl }))))

pub set_compute_state-Keeps : (g : DispatchState) (s : Session) → Keeps s (set_compute_state g s)
unfolding set_compute_state
set_compute_state-Keeps g s = guarded-Keeps _ _ s (
    reported_cases (Keeps s) _ _ s (error-Keeps s) (unchanged s) (
      reported_cases (Keeps s) _ _ s (error-Keeps s) (unchanged s)
        (forward-Keeps s _ _ (record { state_kept = refl; kind_kept = refl; count_kept = refl }))))

pub set_meshlet_state-Keeps : (g : DispatchState) (s : Session) → Keeps s (set_meshlet_state g s)
unfolding set_meshlet_state
set_meshlet_state-Keeps g s = guarded-Keeps _ _ s (
    reported_cases (Keeps s) _ _ s (error-Keeps s) (unchanged s)
      (forward-Keeps s _ _ (record { state_kept = refl; kind_kept = refl; count_kept = refl })))

pub set_ray_tracing_state-Keeps :
    (g : List Layout) (s : Session) → Keeps s (set_ray_tracing_state g s)
unfolding set_ray_tracing_state
set_ray_tracing_state-Keeps g s =
    guarded-Keeps _ _ s
      (forward-Keeps s _ _ (record { state_kept = refl; kind_kept = refl; count_kept = refl }))

pub set_push_constants-Keeps : (g : ℕ) (s : Session) → Keeps s (set_push_constants g s)
unfolding set_push_constants
set_push_constants-Keeps g s =
    guarded-Keeps _ _ s
      (forward-Keeps s _ _ (record { state_kept = refl; kind_kept = refl; count_kept = refl }))

pub clear_state-Keeps : (s : Session) → Keeps s (clear_state s)
unfolding clear_state
clear_state-Keeps s =
    guarded-Keeps _ _ s
      (forward-Keeps s _ _ (record { state_kept = refl; kind_kept = refl; count_kept = refl }))

pub resolve_texture-Keeps :
    (dest : Option TextureInfo) (ds : SubresourceSet) (src : Option TextureInfo)
    (ss : SubresourceSet) (args : ℕ) (s : Session)
    → Keeps s (resolve_texture dest ds src ss args s)
unfolding resolve_texture
resolve_texture-Keeps dest ds src ss args s = guarded-Keeps _ _ s (
    reported_cases (Keeps s) _ _ s (error-Keeps s) (unchanged s)
      (forward-Keeps s s _ (unchanged s)))

pub write_texture-Keeps :
    (t : TextureInfo) (pitch args : ℕ) (s : Session) → Keeps s (write_texture t pitch args s)
unfolding write_texture
write_texture-Keeps t pitch args s =
    guarded-Keeps _ _ s
      (forward-Keeps s _ _ (report_inv (Keeps s) _ s (error-Keeps s) (unchanged s)))

pub sampler_feedback-Keeps :
    (op : Operation) (args : ℕ) (s : Session) → Keeps s (sampler_feedback op args s)
unfolding sampler_feedback
sampler_feedback-Keeps op args s = forward-Keeps s s _ (unchanged s)
