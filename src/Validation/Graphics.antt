-- ===== src/Validation/Graphics.antt =====
-- src/validation/validation-commandlist.cpp: the graphics state and the draw calls.
use cutie_rhi.Base.{
  ℕ, ◌+◌, Bool, true, false, ◌&&◌, List, [], ◌∷◌, ◌++◌, Option, none, some, ltb, ◌==◌,
}
use cutie_rhi.Versioning.{CommandQueue}
use cutie_rhi.Validation.{
  BufferInfo, Pipeline, FramebufferInfo, VertexBufferBinding, GraphicsState, Operation, Call,
  StateFault, Fault, Session,
}
use cutie_rhi.Validation.Guards.{
  forward, guarded, reported, failing, require_open_state, require_type, validate_push_constants,
  is_set,
}
use cutie_rhi.Validation.Bindings.{
  validate_binding_sets_against_layouts, evaluate_push_constant_size, layouts_of,
}

abbrev pub max_vertex_attributes : ℕ
max_vertex_attributes = 16

-- A buffer that may be null has a flag of its description, if it is there.
abbrev pub if_set : (BufferInfo → Bool) → Option BufferInfo → Bool
if_set flag none = true
if_set flag (some b) = flag b

abbrev pub buffer_faults : ℕ → Option BufferInfo → List StateFault
buffer_faults index none = StateFault.null_vertex_buffer index ∷ []
buffer_faults index (some b) =
    failing ((b.is_vertex_buffer, StateFault.not_vertex_buffer index) ∷ [])

unfoldable pub vertex_buffer_faults : ℕ → List VertexBufferBinding → List StateFault
vertex_buffer_faults index [] = []
vertex_buffer_faults index (vb ∷ vbs) =
    buffer_faults index vb.buffer
    ++ failing
        ((ltb vb.slot max_vertex_attributes, StateFault.invalid_vertex_slot index vb.slot) ∷ [])
    ++ vertex_buffer_faults (index + 1) vbs

-- `FramebufferInfo::operator==`.
unfoldable pub formats_equal : List ℕ → List ℕ → Bool
formats_equal [] [] = true
formats_equal (x ∷ xs) (y ∷ ys) = (x == y) && formats_equal xs ys
formats_equal _ _ = false

unfoldable pub framebuffer_info_equal : FramebufferInfo → FramebufferInfo → Bool
framebuffer_info_equal a b =
    formats_equal a.color_formats b.color_formats
    && (a.depth_format == b.depth_format)
    && (a.sample_count == b.sample_count)
    && (a.sample_quality == b.sample_quality)

-- Both pointers have been checked where this is read.
abbrev framebuffer_matches : Option FramebufferInfo → Option Pipeline → Bool
framebuffer_matches (some f) (some p) = framebuffer_info_equal f p.framebuffer_info
framebuffer_matches _ _ = true

-- One message that lists faults, if there is one.
abbrev pub in_one_message : (List StateFault → Fault) → List StateFault → List Fault
in_one_message message [] = []
in_one_message message (f ∷ fs) = message (f ∷ fs) ∷ []

-- The first part of the checks of `setGraphicsState`.
unfoldable pub graphics_state_faults : GraphicsState → List StateFault
graphics_state_faults g =
    failing (
      (is_set g.pipeline, StateFault.null_pipeline)
      ∷ (is_set g.framebuffer, StateFault.null_framebuffer)
      ∷ (if_set (λ b. b.is_index_buffer) g.index_buffer, StateFault.not_index_buffer)
      ∷ [])
    ++ vertex_buffer_faults 0 g.vertex_buffers
    ++ failing (
        (if_set (λ b. b.is_draw_indirect_args) g.indirect_params, StateFault.not_indirect_args)
        ∷ [])

-- The second part: binding sets and framebuffer. A faulty binding set also causes a last message,
-- which is empty if the framebuffer matches.
abbrev and_message : List Fault → List StateFault → List Fault
and_message [] [] = []
and_message fs gs = fs ++ (Fault.graphics_state_faults gs ∷ [])

unfoldable pub graphics_binding_faults : GraphicsState → List Fault
graphics_binding_faults g =
    and_message (validate_binding_sets_against_layouts (layouts_of g.pipeline) g.bindings) (
      failing
        ((framebuffer_matches g.framebuffer g.pipeline, StateFault.framebuffer_mismatch) ∷ []))

unfoldable pub set_graphics_state : GraphicsState → Session → Session
set_graphics_state g s =
    guarded
      (require_open_state s
        ∷ require_type CommandQueue.graphics Operation.set_graphics_state s
        ∷ [])
      (reported (in_one_message Fault.graphics_state_faults (graphics_state_faults g)) (
        reported (graphics_binding_faults g) (λ s. forward (Call.graphics_call g) (record s {
          wrapper = record s.wrapper {
            pipeline_push_constant_size = evaluate_push_constant_size (layouts_of g.pipeline);
            graphics_state_set = true;
            compute_state_set = false;
            meshlet_state_set = false;
            ray_tracing_state_set = false;
            push_constants_set = false;
            current_graphics_state = g;
          };
        }))))
      s

-- The checks of a draw call, with those between the state and the push constants.
abbrev pub draw_checks : Operation → List (Bool × Fault) → Session → List (Bool × Fault)
draw_checks op between s =
    require_open_state s
    ∷ require_type CommandQueue.graphics op s
    ∷ (s.wrapper.graphics_state_set, Fault.state_not_set op)
    ∷ (between ++ (validate_push_constants Operation.set_graphics_state s ∷ []))

unfoldable pub draw : ℕ → Session → Session
draw args s =
    guarded (draw_checks Operation.draw [] s) (forward (Call.operation_call Operation.draw args)) s

unfoldable pub draw_indexed : ℕ → Session → Session
draw_indexed args s =
    let op = Operation.draw_indexed in
    guarded
      (draw_checks op
        ((is_set s.wrapper.current_graphics_state.index_buffer, Fault.index_buffer_not_set op) ∷ [])
        s)
      (forward (Call.operation_call op args)) s

unfoldable pub draw_indirect : ℕ → Session → Session
draw_indirect args s =
    let op = Operation.draw_indirect in
    guarded
      (draw_checks op
        ((is_set s.wrapper.current_graphics_state.indirect_params, Fault.indirect_params_not_set op)
          ∷ [])
        s)
      (forward (Call.operation_call op args)) s

unfoldable pub draw_indexed_indirect : ℕ → Session → Session
draw_indexed_indirect args s =
    let op = Operation.draw_indexed_indirect in
    guarded
      (draw_checks op
        ((is_set s.wrapper.current_graphics_state.indirect_params, Fault.indirect_params_not_set op)
          ∷ [])
        s)
      (forward (Call.operation_call op args)) s

unfoldable pub draw_indexed_indirect_count : ℕ → Session → Session
draw_indexed_indirect_count args s =
    let op = Operation.draw_indexed_indirect_count in
    guarded
      (draw_checks op
        ((is_set s.wrapper.current_graphics_state.indirect_params, Fault.indirect_params_not_set op)
          ∷ (
            is_set s.wrapper.current_graphics_state.indirect_count_buffer,
            Fault.indirect_count_not_set op,
          )
          ∷ [])
        s)
      (forward (Call.operation_call op args)) s
