-- ===== src/Validation/Compute.antt =====
-- src/validation/validation-commandlist.cpp: compute, meshlet and ray tracing states and dispatches.
use cutie_rhi.Base.{ℕ, Bool, true, false, List, [], ◌∷◌, ◌++◌}
use cutie_rhi.Versioning.{CommandQueue}
use cutie_rhi.Validation.{Layout, DispatchState, Operation, Call, StateFault, Fault, Session}
use cutie_rhi.Validation.Guards.{
  forward, guarded, reported, failing, require_open_state, require_type, validate_push_constants,
  is_set,
}
use cutie_rhi.Validation.Bindings.{
  validate_binding_sets_against_layouts, evaluate_push_constant_size, layouts_of,
}
use cutie_rhi.Validation.Graphics.{if_set, in_one_message}

unfoldable pub set_compute_state : DispatchState → Session → Session
set_compute_state c s =
    guarded
      (require_open_state s ∷ require_type CommandQueue.compute Operation.set_compute_state s ∷ [])
      (reported
        (in_one_message Fault.compute_state_faults (
          failing (
            (is_set c.pipeline, StateFault.null_pipeline)
            ∷ (
              if_set (λ b. b.is_draw_indirect_args) c.indirect_params,
              StateFault.not_indirect_args,
            )
            ∷ [])))
        (reported (validate_binding_sets_against_layouts (layouts_of c.pipeline) c.bindings) (λ s.
          forward (Call.compute_call c) (record s {
            wrapper = record s.wrapper {
              pipeline_push_constant_size = evaluate_push_constant_size (layouts_of c.pipeline);
              graphics_state_set = false;
              compute_state_set = true;
              meshlet_state_set = false;
              ray_tracing_state_set = false;
              push_constants_set = false;
              current_compute_state = c;
            };
          }))))
      s

abbrev compute_checks : Operation → Session → List (Bool × Fault)
compute_checks op s =
    require_open_state s
    ∷ require_type CommandQueue.compute op s
    ∷ (s.wrapper.compute_state_set, Fault.state_not_set op)
    ∷ []

unfoldable pub dispatch : ℕ → Session → Session
dispatch args s =
    guarded
      (compute_checks Operation.dispatch s
        ++ (validate_push_constants Operation.set_compute_state s ∷ []))
      (forward (Call.operation_call Operation.dispatch args)) s

unfoldable pub dispatch_indirect : ℕ → Session → Session
dispatch_indirect args s =
    let op = Operation.dispatch_indirect in
    guarded
      (compute_checks op s
        ++ ((
          is_set s.wrapper.current_compute_state.indirect_params,
          Fault.indirect_params_not_set op,
        )
            ∷ validate_push_constants Operation.set_compute_state s
            ∷ []))
      (forward (Call.operation_call op args)) s

unfoldable pub set_meshlet_state : DispatchState → Session → Session
set_meshlet_state m s =
    guarded
      (require_open_state s
        ∷ require_type CommandQueue.graphics Operation.set_meshlet_state s
        ∷ (is_set m.pipeline, Fault.null_meshlet_pipeline)
        ∷ [])
      (reported (validate_binding_sets_against_layouts (layouts_of m.pipeline) m.bindings) (λ s.
        forward (Call.meshlet_call m) (record s {
          wrapper = record s.wrapper {
            pipeline_push_constant_size = evaluate_push_constant_size (layouts_of m.pipeline);
            graphics_state_set = false;
            compute_state_set = false;
            meshlet_state_set = true;
            ray_tracing_state_set = false;
            push_constants_set = false;
            current_meshlet_state = m;
          };
        })))
      s

-- All three dispatches of meshlets name themselves `dispatchMesh` in these messages.
abbrev pub mesh_checks : Session → List (Bool × Fault)
mesh_checks s =
    require_open_state s
    ∷ require_type CommandQueue.graphics Operation.dispatch_mesh s
    ∷ (s.wrapper.meshlet_state_set, Fault.state_not_set Operation.dispatch_mesh)
    ∷ validate_push_constants Operation.set_meshlet_state s
    ∷ []

unfoldable pub dispatch_mesh : ℕ → Session → Session
dispatch_mesh args s =
    guarded (mesh_checks s) (forward (Call.operation_call Operation.dispatch_mesh args)) s

unfoldable pub dispatch_mesh_indirect : ℕ → Session → Session
dispatch_mesh_indirect args s =
    let op = Operation.dispatch_mesh_indirect in
    guarded
      (mesh_checks s
        ++ ((
          is_set s.wrapper.current_meshlet_state.indirect_params,
          Fault.indirect_params_not_set op,
        )
            ∷ []))
      (forward (Call.operation_call op args)) s

unfoldable pub dispatch_mesh_indirect_count : ℕ → Session → Session
dispatch_mesh_indirect_count args s =
    let op = Operation.dispatch_mesh_indirect_count in
    guarded
      (mesh_checks s
        ++ ((
          is_set s.wrapper.current_meshlet_state.indirect_params,
          Fault.indirect_params_not_set op,
        )
            ∷ (
              is_set s.wrapper.current_meshlet_state.indirect_count_buffer,
              Fault.indirect_count_not_set op,
            )
            ∷ []))
      (forward (Call.operation_call op args)) s

-- The global binding layouts of the pipeline of the state's shader table.
unfoldable pub set_ray_tracing_state : List Layout → Session → Session
set_ray_tracing_state layouts s =
    guarded
      (require_open_state s
        ∷ require_type CommandQueue.compute Operation.set_ray_tracing_state s
        ∷ [])
      (λ s. forward (Call.ray_tracing_call layouts) (record s {
        wrapper = record s.wrapper {
          pipeline_push_constant_size = evaluate_push_constant_size layouts;
          graphics_state_set = false;
          compute_state_set = false;
          meshlet_state_set = true;
          ray_tracing_state_set = true;
          push_constants_set = false;
        };
      }))
      s

unfoldable pub dispatch_rays : ℕ → Session → Session
dispatch_rays args s =
    guarded
      (require_open_state s
        ∷ require_type CommandQueue.compute Operation.dispatch_rays s
        ∷ (s.wrapper.ray_tracing_state_set, Fault.state_not_set Operation.dispatch_rays)
        ∷ validate_push_constants Operation.set_ray_tracing_state s
        ∷ [])
      (forward (Call.operation_call Operation.dispatch_rays args)) s
