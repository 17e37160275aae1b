-- ===== src/Validation/StateCalls.antt =====
-- src/validation/validation-commandlist.cpp: the operations that change the state of the wrapper
-- keep its flags in step with the calls that it forwards.
use cutie_rhi.Base.{ℕ, ◌+◌, ◌%◌, true, false, ◌&&◌, List, ltb, ◌≡◌, refl, ◌∙◌, arith, if_elim}
use cutie_rhi.Resources.{u32}
use cutie_rhi.Validation.{
  CommandListState, Layout, GraphicsState, DispatchState, Call, Fault, Session,
}
use cutie_rhi.Validation.Guards.{is_opened, require_open_state, require_type, error}
use cutie_rhi.Validation.Lifecycle.{
  open_recording, open_from, open_command_list, close_recording, close_from, close_command_list,
  execute_from, require_execute_state, clear_state,
}
use cutie_rhi.Validation.Bindings.{set_push_constants}
use cutie_rhi.Validation.Graphics.{set_graphics_state}
use cutie_rhi.Validation.Compute.{set_compute_state, set_meshlet_state, set_ray_tracing_state}
use cutie_rhi.Validation.Protocol.{allowed, after_call}
use cutie_rhi.Validation.Forwarding.{
  Matches, InStep, guarded-InStep, reported_cases, forward-InStep, error-InStep,
}

pub set_graphics_state-InStep :
    (g : GraphicsState) (s : Session) → InStep s → InStep (set_graphics_state g s)
unfolding set_graphics_state require_open_state require_type allowed after_call
set_graphics_state-InStep g s i = guarded-InStep _ _ s i (λ h.
    reported_cases InStep _ _ s error-InStep i (
      reported_cases InStep _ _ s error-InStep i (
        forward-InStep (Call.graphics_call g) s _ refl i (i.2.recording_eq ∙ h.0) (record {
          recording_eq = i.2.recording_eq;
          graphics_eq = refl;
          compute_eq = refl;
          meshlet_eq = refl;
          rays_eq = refl;
          current_graphics_eq = refl;
          current_compute_eq = i.2.current_compute_eq;
          current_meshlet_eq = i.2.current_meshlet_eq;
          size_eq = refl;
          pushed_eq = refl;
        }))))

pub set_compute_state-InStep :
    (g : DispatchState) (s : Session) → InStep s → InStep (set_compute_state g s)
unfolding set_compute_state require_open_state require_type allowed after_call
set_compute_state-InStep g s i = guarded-InStep _ _ s i (λ h.
    reported_cases InStep _ _ s error-InStep i (
      reported_cases InStep _ _ s error-InStep i (
        forward-InStep (Call.compute_call g) s _ refl i (i.2.recording_eq ∙ h.0) (record {
          recording_eq = i.2.recording_eq;
          graphics_eq = refl;
          compute_eq = refl;
          meshlet_eq = refl;
          rays_eq = refl;
          current_graphics_eq = i.2.current_graphics_eq;
          current_compute_eq = refl;
          current_meshlet_eq = i.2.current_meshlet_eq;
          size_eq = refl;
          pushed_eq = refl;
        }))))

pub set_meshlet_state-InStep :
    (g : DispatchState) (s : Session) → InStep s → InStep (set_meshlet_state g s)
unfolding set_meshlet_state require_open_state require_type allowed after_call
set_meshlet_state-InStep g s i = guarded-InStep _ _ s i (λ h.
    reported_cases InStep _ _ s error-InStep i (
      forward-InStep (Call.meshlet_call g) s _ refl i (i.2.recording_eq ∙ h.0) (record {
        recording_eq = i.2.recording_eq;
        graphics_eq = refl;
        compute_eq = refl;
        meshlet_eq = refl;
        rays_eq = refl;
        current_graphics_eq = i.2.current_graphics_eq;
        current_compute_eq = i.2.current_compute_eq;
        current_meshlet_eq = refl;
        size_eq = refl;
        pushed_eq = refl;
      })))

pub set_ray_tracing_state-InStep :
    (g : List Layout) (s : Session) → InStep s → InStep (set_ray_tracing_state g s)
unfolding set_ray_tracing_state require_open_state require_type allowed after_call
set_ray_tracing_state-InStep g s i = guarded-InStep _ _ s i (λ h.
    forward-InStep (Call.ray_tracing_call g) s _ refl i (i.2.recording_eq ∙ h.0) (record {
      recording_eq = i.2.recording_eq;
      graphics_eq = refl;
      compute_eq = refl;
      meshlet_eq = refl;
      rays_eq = refl;
      current_graphics_eq = i.2.current_graphics_eq;
      current_compute_eq = i.2.current_compute_eq;
      current_meshlet_eq = i.2.current_meshlet_eq;
      size_eq = refl;
      pushed_eq = refl;
    }))

pub set_push_constants-InStep :
    (size : ℕ) (s : Session) → InStep s → InStep (set_push_constants size s)
unfolding set_push_constants require_open_state allowed after_call
set_push_constants-InStep size s i = guarded-InStep _ _ s i (λ h.
    let u : Session = record s { wrapper = record s.wrapper { push_constants_set = true } } in
    let m : Matches (record i.0 { pushed = true }) u.wrapper = record {
      recording_eq = i.2.recording_eq;
      graphics_eq = i.2.graphics_eq;
      compute_eq = i.2.compute_eq;
      meshlet_eq = i.2.meshlet_eq;
      rays_eq = i.2.rays_eq;
      current_graphics_eq = i.2.current_graphics_eq;
      current_compute_eq = i.2.current_compute_eq;
      current_meshlet_eq = i.2.current_meshlet_eq;
      size_eq = i.2.size_eq;
      pushed_eq = refl;
    } in
    forward-InStep (Call.push_constants_call size) s u refl i (ground arith) m)

pub clear_state-InStep : (s : Session) → InStep s → InStep (clear_state s)
unfolding clear_state require_open_state allowed after_call
clear_state-InStep s i = guarded-InStep _ _ s i (λ h.
    forward-InStep Call.clear_state_call s _ refl i (i.2.recording_eq ∙ h.0) (record {
      recording_eq = i.2.recording_eq;
      graphics_eq = refl;
      compute_eq = refl;
      meshlet_eq = refl;
      rays_eq = refl;
      current_graphics_eq = i.2.current_graphics_eq;
      current_compute_eq = i.2.current_compute_eq;
      current_meshlet_eq = i.2.current_meshlet_eq;
      size_eq = i.2.size_eq;
      pushed_eq = refl;
    }))

-- The list is not open when the part of `open` below the `switch` is reached.
open_recording-InStep :
    (s : Session) → is_opened s.wrapper.state ≡ false → InStep s → InStep (open_recording s)
unfolding open_recording allowed after_call
open_recording-InStep s e i =
    if_elim InStep
      (s.wrapper.is_immediate && ltb 1 ((s.num_open_immediate_command_lists + 1) % u32)) _ _
      (λ _. error-InStep Fault.two_immediate_open s i)
      (λ _. forward-InStep Call.open_call s _ refl i (rw (i.2.recording_eq, e) refl) (record {
        recording_eq = refl;
        graphics_eq = refl;
        compute_eq = refl;
        meshlet_eq = refl;
        rays_eq = i.2.rays_eq;
        current_graphics_eq = i.2.current_graphics_eq;
        current_compute_eq = i.2.current_compute_eq;
        current_meshlet_eq = i.2.current_meshlet_eq;
        size_eq = i.2.size_eq;
        pushed_eq = i.2.pushed_eq;
      }))

pub open_command_list-InStep : (s : Session) → InStep s → InStep (open_command_list s)
unfolding open_command_list error
open_command_list-InStep s i = by_state s.wrapper.state refl
  where
    by_state : (c : CommandListState) → s.wrapper.state ≡ c → InStep (open_from c s)
    by_state CommandListState.opened e = error-InStep Fault.already_open s i
    by_state CommandListState.closed e =
        if_elim InStep s.wrapper.is_immediate _ _ (λ _. error-InStep Fault.abandoned_immediate s i)
          (λ _.
            open_recording-InStep (error Fault.reopened_unexecuted s) (rw e refl)
              (error-InStep Fault.reopened_unexecuted s i))
    by_state CommandListState.initial e = open_recording-InStep s (rw e refl) i

close_recording-InStep :
    (s : Session) → is_opened s.wrapper.state ≡ true → InStep s → InStep (close_recording s)
unfolding close_recording allowed after_call
close_recording-InStep s e i =
    forward-InStep Call.close_call s _ refl i (i.2.recording_eq ∙ e) (record {
      recording_eq = refl;
      graphics_eq = refl;
      compute_eq = refl;
      meshlet_eq = refl;
      rays_eq = i.2.rays_eq;
      current_graphics_eq = i.2.current_graphics_eq;
      current_compute_eq = i.2.current_compute_eq;
      current_meshlet_eq = i.2.current_meshlet_eq;
      size_eq = i.2.size_eq;
      pushed_eq = i.2.pushed_eq;
    })

pub close_command_list-InStep : (s : Session) → InStep s → InStep (close_command_list s)
unfolding close_command_list
close_command_list-InStep s i = by_state s.wrapper.state refl
  where
    by_state : (c : CommandListState) → s.wrapper.state ≡ c → InStep (close_from c s)
    by_state CommandListState.initial e = error-InStep Fault.close_before_open s i
    by_state CommandListState.closed e = error-InStep Fault.already_closed s i
    by_state CommandListState.opened e = close_recording-InStep s (rw e refl) i

pub require_execute_state-InStep : (s : Session) → InStep s → InStep (require_execute_state s).1
unfolding require_execute_state
require_execute_state-InStep s i = by_state s.wrapper.state refl
  where
    by_state : (c : CommandListState) → s.wrapper.state ≡ c → InStep (execute_from c s).1
    by_state CommandListState.initial e = error-InStep Fault.execute_before_open s i
    by_state CommandListState.opened e = error-InStep Fault.execute_before_close s i
    by_state CommandListState.closed e = (
      i.0,
      i.1,
      record {
        recording_eq = i.2.recording_eq ∙ rw e refl;
        graphics_eq = i.2.graphics_eq;
        compute_eq = i.2.compute_eq;
        meshlet_eq = i.2.meshlet_eq;
        rays_eq = i.2.rays_eq;
        current_graphics_eq = i.2.current_graphics_eq;
        current_compute_eq = i.2.current_compute_eq;
        current_meshlet_eq = i.2.current_meshlet_eq;
        size_eq = i.2.size_eq;
        pushed_eq = i.2.pushed_eq;
      },
    )
