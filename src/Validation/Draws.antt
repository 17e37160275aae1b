-- ===== src/Validation/Draws.antt =====
-- src/validation/validation-commandlist.cpp: draws and dispatches are forwarded only after their
-- state.
use cutie_rhi.Base.{ℕ, arith}
use cutie_rhi.Validation.{Operation, Session}
use cutie_rhi.Validation.Guards.{require_open_state, require_type, validate_push_constants}
use cutie_rhi.Validation.Graphics.{
  draw, draw_indexed, draw_indirect, draw_indexed_indirect, draw_indexed_indirect_count,
}
use cutie_rhi.Validation.Compute.{
  dispatch, dispatch_indirect, dispatch_mesh, dispatch_mesh_indirect, dispatch_mesh_indirect_count,
  dispatch_rays,
}
use cutie_rhi.Validation.Protocol.{allowed_operation}
use cutie_rhi.Validation.Forwarding.{InStep, operation-InStep}

pub draw-InStep : (args : ℕ) (s : Session) → InStep s → InStep (draw args s)
unfolding draw require_open_state require_type validate_push_constants allowed_operation
draw-InStep args s i = operation-InStep _ Operation.draw args s i (λ v m h. ground arith)

pub draw_indexed-InStep : (args : ℕ) (s : Session) → InStep s → InStep (draw_indexed args s)
unfolding draw_indexed require_open_state require_type validate_push_constants allowed_operation
draw_indexed-InStep args s i =
    operation-InStep _ Operation.draw_indexed args s i (λ v m h. ground arith)

pub draw_indirect-InStep : (args : ℕ) (s : Session) → InStep s → InStep (draw_indirect args s)
unfolding draw_indirect require_open_state require_type validate_push_constants allowed_operation
draw_indirect-InStep args s i =
    operation-InStep _ Operation.draw_indirect args s i (λ v m h. ground arith)

pub draw_indexed_indirect-InStep :
    (args : ℕ) (s : Session) → InStep s → InStep (draw_indexed_indirect args s)
unfolding draw_indexed_indirect require_open_state require_type validate_push_constants
    allowed_operation
draw_indexed_indirect-InStep args s i =
    operation-InStep _ Operation.draw_indexed_indirect args s i (λ v m h. ground arith)

pub draw_indexed_indirect_count-InStep :
    (args : ℕ) (s : Session) → InStep s → InStep (draw_indexed_indirect_count args s)
unfolding draw_indexed_indirect_count require_open_state require_type validate_push_constants
    allowed_operation
draw_indexed_indirect_count-InStep args s i =
    operation-InStep _ Operation.draw_indexed_indirect_count args s i (λ v m h. ground arith)

pub dispatch-InStep : (args : ℕ) (s : Session) → InStep s → InStep (dispatch args s)
unfolding dispatch require_open_state require_type validate_push_constants allowed_operation
dispatch-InStep args s i = operation-InStep _ Operation.dispatch args s i (λ v m h. ground arith)

pub dispatch_indirect-InStep :
    (args : ℕ) (s : Session) → InStep s → InStep (dispatch_indirect args s)
unfolding dispatch_indirect require_open_state require_type validate_push_constants
    allowed_operation
dispatch_indirect-InStep args s i =
    operation-InStep _ Operation.dispatch_indirect args s i (λ v m h. ground arith)

pub dispatch_mesh-InStep : (args : ℕ) (s : Session) → InStep s → InStep (dispatch_mesh args s)
unfolding dispatch_mesh require_open_state require_type validate_push_constants allowed_operation
dispatch_mesh-InStep args s i =
    operation-InStep _ Operation.dispatch_mesh args s i (λ v m h. ground arith)

pub dispatch_mesh_indirect-InStep :
    (args : ℕ) (s : Session) → InStep s → InStep (dispatch_mesh_indirect args s)
unfolding dispatch_mesh_indirect require_open_state require_type validate_push_constants
    allowed_operation
dispatch_mesh_indirect-InStep args s i =
    operation-InStep _ Operation.dispatch_mesh_indirect args s i (λ v m h. ground arith)

pub dispatch_mesh_indirect_count-InStep :
    (args : ℕ) (s : Session) → InStep s → InStep (dispatch_mesh_indirect_count args s)
unfolding dispatch_mesh_indirect_count require_open_state require_type validate_push_constants
    allowed_operation
dispatch_mesh_indirect_count-InStep args s i =
    operation-InStep _ Operation.dispatch_mesh_indirect_count args s i (λ v m h. ground arith)

pub dispatch_rays-InStep : (args : ℕ) (s : Session) → InStep s → InStep (dispatch_rays args s)
unfolding dispatch_rays require_open_state require_type validate_push_constants allowed_operation
dispatch_rays-InStep args s i =
    operation-InStep _ Operation.dispatch_rays args s i (λ v m h. ground arith)
