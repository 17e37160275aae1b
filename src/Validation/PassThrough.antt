-- ===== src/Validation/PassThrough.antt =====
-- src/validation/validation-commandlist.cpp: the operations that are forwarded as they are, behind
-- at most the check of the state and that of the type.
use cutie_rhi.Base.{ℕ, [], ◌∷◌}
use cutie_rhi.Versioning.{CommandQueue}
use cutie_rhi.Validation.{Operation, Call, Session}
use cutie_rhi.Validation.Guards.{forward, guarded, require_open_state, require_type}

-- The three operations on sampler feedback textures have no check at all.
unfoldable pub sampler_feedback : Operation → ℕ → Session → Session
sampler_feedback op args s = forward (Call.operation_call op args) s

-- Copies.
unfoldable pub copy_command : Operation → ℕ → Session → Session
copy_command op args s =
    guarded (require_open_state s ∷ []) (forward (Call.operation_call op args)) s

unfoldable pub clear_buffer_uint : ℕ → Session → Session
clear_buffer_uint args s =
    guarded
      (require_open_state s ∷ require_type CommandQueue.compute Operation.clear_buffer_uint s ∷ [])
      (forward (Call.operation_call Operation.clear_buffer_uint args)) s

-- Queries, markers and resource states.
unfoldable pub recorded_command : Operation → ℕ → Session → Session
recorded_command op args s =
    guarded (require_open_state s ∷ []) (forward (Call.operation_call op args)) s

-- `setEnableUavBarriersForTexture` and `setEnableUavBarriersForBuffer`.
unfoldable pub set_enable_uav_barriers : Operation → ℕ → Session → Session
set_enable_uav_barriers op args s =
    guarded (require_open_state s ∷ require_type CommandQueue.compute op s ∷ [])
      (forward (Call.operation_call op args)) s

-- `compactBottomLevelAccelStructs`, `copyRaytracingAccelerationStructure`, `buildOpacityMicromap`.
unfoldable pub accel_struct_command : Operation → ℕ → Session → Session
accel_struct_command op args s =
    guarded (require_open_state s ∷ require_type CommandQueue.compute op s ∷ [])
      (forward (Call.operation_call op args)) s
