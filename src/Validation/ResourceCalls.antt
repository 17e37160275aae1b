-- ===== src/Validation/ResourceCalls.antt =====
-- src/validation/validation-commandlist.cpp: the operations on resources, and those that are
-- forwarded as they are, are recorded only by an open list.
use cutie_rhi.Base.{ℕ, ltb, true, not, ◌&&◌, [], ◌∷◌, ◌==◌, ◌≡◌, Option, refl, ◌∙◌, arith}
use cutie_rhi.Subresources.{SubresourceSet}
use cutie_rhi.Validation.{BufferInfo, Operation, Call, Fault, Session}
use cutie_rhi.Validation.Guards.{
  is_opened, require_open_state, require_type, error, report, failing,
}
use cutie_rhi.Validation.Resources.{
  TextureInfo, clear_texture_float, clear_depth_stencil_texture, clear_texture_uint, write_texture,
  resolve_texture, write_buffer,
}
use cutie_rhi.Validation.PassThrough.{
  sampler_feedback, copy_command, clear_buffer_uint, recorded_command, set_enable_uav_barriers,
  accel_struct_command,
}
use cutie_rhi.Validation.Commands.{
  SamplerFeedback, sampler_feedback_operation, Copy, copy_operation, Recorded, recorded_operation,
  UavBarriers, uav_operation, AccelStructs, accel_struct_operation,
}
use cutie_rhi.Validation.Protocol.{View, allowed, allowed_operation, after_call}
use cutie_rhi.Validation.Forwarding.{
  InStep, operation-InStep, guarded-InStep, reported_cases, report_inv, forward-InStep,
  error-InStep,
}

pub clear_texture_float-InStep :
    (t : TextureInfo) (args : ℕ) (s : Session) → InStep s → InStep (clear_texture_float t args s)
unfolding clear_texture_float require_open_state require_type allowed_operation
clear_texture_float-InStep t args s i =
    operation-InStep _ Operation.clear_texture_float args s i (λ v m h. ground arith)

pub clear_depth_stencil_texture-InStep :
    (t : TextureInfo) (args : ℕ) (s : Session)
    → InStep s
    → InStep (clear_depth_stencil_texture t args s)
unfolding clear_depth_stencil_texture require_open_state require_type allowed_operation
clear_depth_stencil_texture-InStep t args s i =
    operation-InStep _ Operation.clear_depth_stencil_texture args s i (λ v m h. ground arith)

pub clear_texture_uint-InStep :
    (t : TextureInfo) (args : ℕ) (s : Session) → InStep s → InStep (clear_texture_uint t args s)
unfolding clear_texture_uint require_open_state require_type allowed_operation
clear_texture_uint-InStep t args s i =
    operation-InStep _ Operation.clear_texture_uint args s i (λ v m h. ground arith)

pub write_texture-InStep :
    (t : TextureInfo) (pitch args : ℕ) (s : Session)
    → InStep s
    → InStep (write_texture t pitch args s)
unfolding write_texture error require_open_state allowed allowed_operation after_call
write_texture-InStep t pitch args s i = guarded-InStep _ _ s i (λ h.
    let u : Session =
      report (failing ((not (ltb 1 t.desc.height && (pitch == 0)), Fault.row_pitch_zero) ∷ [])) s in
    let r : InStep u × (is_opened u.wrapper.state ≡ true) =
      report_inv (λ t. InStep t × (is_opened t.wrapper.state ≡ true)) _ s
        (λ f t p. (error-InStep f t p.0, p.1)) (i, h.0) in
    forward-InStep (Call.operation_call Operation.write_texture args) u u refl r.0
      (r.0.2.recording_eq ∙ r.1) r.0.2)

pub resolve_texture-InStep :
    (dest : Option TextureInfo) (ds : SubresourceSet) (src : Option TextureInfo)
    (ss : SubresourceSet) (args : ℕ) (s : Session)
    → InStep s
    → InStep (resolve_texture dest ds src ss args s)
unfolding resolve_texture require_open_state require_type allowed allowed_operation after_call
resolve_texture-InStep dest ds src ss args s i = guarded-InStep _ _ s i (λ h.
    reported_cases InStep _ _ s error-InStep i (
      forward-InStep (Call.operation_call Operation.resolve_texture args) s s refl i
        (i.2.recording_eq ∙ h.0) i.2))

pub write_buffer-InStep :
    (b : BufferInfo) (size offset args : ℕ) (s : Session)
    → InStep s
    → InStep (write_buffer b size offset args s)
unfolding write_buffer require_open_state allowed_operation
write_buffer-InStep b size offset args s i =
    operation-InStep _ Operation.write_buffer args s i (λ v m h. m.recording_eq ∙ h.0)

pub clear_buffer_uint-InStep :
    (args : ℕ) (s : Session) → InStep s → InStep (clear_buffer_uint args s)
unfolding clear_buffer_uint require_open_state require_type allowed_operation
clear_buffer_uint-InStep args s i =
    operation-InStep _ Operation.clear_buffer_uint args s i (λ v m h. m.recording_eq ∙ h.0)

-- The operations that the shared functions stand for.
abbrev NeedsOpen : Operation → Type 0
NeedsOpen op = (v : View) → allowed_operation op v ≡ v.recording

copy_operation-NeedsOpen : (c : Copy) → NeedsOpen (copy_operation c)
unfolding allowed_operation
copy_operation-NeedsOpen Copy.texture v = refl
copy_operation-NeedsOpen Copy.buffer v = refl

uav_operation-NeedsOpen : (u : UavBarriers) → NeedsOpen (uav_operation u)
unfolding allowed_operation
uav_operation-NeedsOpen UavBarriers.texture v = refl
uav_operation-NeedsOpen UavBarriers.buffer v = refl

accel_struct_operation-NeedsOpen : (a : AccelStructs) → NeedsOpen (accel_struct_operation a)
unfolding allowed_operation
accel_struct_operation-NeedsOpen AccelStructs.compact v = refl
accel_struct_operation-NeedsOpen AccelStructs.copy v = refl
accel_struct_operation-NeedsOpen AccelStructs.build_micromap v = refl

recorded_operation-NeedsOpen : (r : Recorded) → NeedsOpen (recorded_operation r)
unfolding allowed_operation
recorded_operation-NeedsOpen Recorded.begin_timer_query v = refl
recorded_operation-NeedsOpen Recorded.end_timer_query v = refl
recorded_operation-NeedsOpen Recorded.begin_marker v = refl
recorded_operation-NeedsOpen Recorded.end_marker v = refl
recorded_operation-NeedsOpen Recorded.automatic_barriers v = refl
recorded_operation-NeedsOpen Recorded.binding_set_states v = refl
recorded_operation-NeedsOpen Recorded.begin_tracking_texture v = refl
recorded_operation-NeedsOpen Recorded.begin_tracking_buffer v = refl
recorded_operation-NeedsOpen Recorded.texture_state v = refl
recorded_operation-NeedsOpen Recorded.buffer_state v = refl
recorded_operation-NeedsOpen Recorded.accel_struct_state v = refl
recorded_operation-NeedsOpen Recorded.permanent_texture v = refl
recorded_operation-NeedsOpen Recorded.permanent_buffer v = refl
recorded_operation-NeedsOpen Recorded.commit_barriers v = refl

pub copy_command-InStep :
    (c : Copy) (args : ℕ) (s : Session) → InStep s → InStep (copy_command (copy_operation c) args s)
unfolding copy_command require_open_state
copy_command-InStep c args s i =
    operation-InStep _ (copy_operation c) args s i
      (λ v m h. copy_operation-NeedsOpen c v ∙ m.recording_eq ∙ h.0)

pub recorded_command-InStep :
    (c : Recorded) (args : ℕ) (s : Session)
    → InStep s
    → InStep (recorded_command (recorded_operation c) args s)
unfolding recorded_command require_open_state
recorded_command-InStep c args s i =
    operation-InStep _ (recorded_operation c) args s i
      (λ v m h. recorded_operation-NeedsOpen c v ∙ m.recording_eq ∙ h.0)

pub set_enable_uav_barriers-InStep :
    (c : UavBarriers) (args : ℕ) (s : Session)
    → InStep s
    → InStep (set_enable_uav_barriers (uav_operation c) args s)
unfolding set_enable_uav_barriers require_open_state require_type
set_enable_uav_barriers-InStep c args s i =
    operation-InStep _ (uav_operation c) args s i
      (λ v m h. uav_operation-NeedsOpen c v ∙ m.recording_eq ∙ h.0)

pub accel_struct_command-InStep :
    (c : AccelStructs) (args : ℕ) (s : Session)
    → InStep s
    → InStep (accel_struct_command (accel_struct_operation c) args s)
unfolding accel_struct_command require_open_state require_type
accel_struct_command-InStep c args s i =
    operation-InStep _ (accel_struct_operation c) args s i
      (λ v m h. accel_struct_operation-NeedsOpen c v ∙ m.recording_eq ∙ h.0)

sampler_feedback_operation-allowed :
    (f : SamplerFeedback) (v : View) → allowed_operation (sampler_feedback_operation f) v ≡ true
unfolding allowed_operation
sampler_feedback_operation-allowed SamplerFeedback.clear v = refl
sampler_feedback_operation-allowed SamplerFeedback.decode v = refl
sampler_feedback_operation-allowed SamplerFeedback.set_state v = refl

pub sampler_feedback-InStep :
    (c : SamplerFeedback) (args : ℕ) (s : Session)
    → InStep s
    → InStep (sampler_feedback (sampler_feedback_operation c) args s)
unfolding sampler_feedback allowed after_call
sampler_feedback-InStep c args s i =
    forward-InStep (Call.operation_call (sampler_feedback_operation c) args) s s refl i
      (sampler_feedback_operation-allowed c i.0) i.2
