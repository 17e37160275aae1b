-- ===== src/Validation/Protocol.antt =====
-- The protocol of a command list, as the wrapped list sees it: an independent description of the
-- sequences of calls that the wrapper of src/validation/validation-commandlist.cpp lets through.
use cutie_rhi.Base.{
  ℕ, Bool, true, false, not, ◌&&◌, ◌||◌, List, [], ◌∷◌, ◌++◌, Option, none, some, leb, ◌==◌,
  if◌then◌else◌, ◌≡◌, arith,
}
use cutie_rhi.Validation.{
  GraphicsState, DispatchState, Operation, Call, no_graphics_state, no_dispatch_state,
}
use cutie_rhi.Validation.Guards.{is_set}
use cutie_rhi.Validation.Bindings.{layouts_of, evaluate_push_constant_size, max_push_constant_size}

-- The kind of the pipeline state that was set last, and not cleared.
pub data Bound : Type 0 where
  nothing graphics compute meshlet rays : Bound

-- What the calls so far amount to. `fresh`: the state was set in the current recording.
pub record View : Type 0 where
  pub recording : Bool
  pub bound : Bound
  pub fresh : Bool
  pub graphics : GraphicsState
  pub compute : DispatchState
  pub meshlet : DispatchState
  pub size : ℕ
  pub pushed : Bool

abbrev pub start_view : View
start_view = record {
  recording = false;
  bound = Bound.nothing;
  fresh = false;
  graphics = no_graphics_state;
  compute = no_dispatch_state;
  meshlet = no_dispatch_state;
  size = 0;
  pushed = false;
}

abbrev pub is_graphics : Bound → Bool
is_graphics Bound.graphics = true
is_graphics _ = false

abbrev pub is_compute : Bound → Bool
is_compute Bound.compute = true
is_compute _ = false

-- A ray tracing state also passes for a meshlet state.
abbrev pub is_meshlet : Bound → Bool
is_meshlet Bound.meshlet = true
is_meshlet Bound.rays = true
is_meshlet _ = false

abbrev pub is_rays : Bound → Bool
is_rays Bound.rays = true
is_rays _ = false

unfoldable pub after_call : Call → View → View
after_call Call.open_call v = record v { recording = true; fresh = false }
after_call Call.close_call v = record v { recording = false; fresh = false }
after_call Call.clear_state_call v = record v {
  bound = Bound.nothing;
  fresh = false;
  pushed = false;
}
after_call (Call.graphics_call g) v = record v {
  bound = Bound.graphics;
  fresh = true;
  graphics = g;
  size = evaluate_push_constant_size (layouts_of g.pipeline);
  pushed = false;
}
after_call (Call.compute_call c) v = record v {
  bound = Bound.compute;
  fresh = true;
  compute = c;
  size = evaluate_push_constant_size (layouts_of c.pipeline);
  pushed = false;
}
after_call (Call.meshlet_call m) v = record v {
  bound = Bound.meshlet;
  fresh = true;
  meshlet = m;
  size = evaluate_push_constant_size (layouts_of m.pipeline);
  pushed = false;
}
after_call (Call.ray_tracing_call layouts) v = record v {
  bound = Bound.rays;
  fresh = true;
  size = evaluate_push_constant_size layouts;
  pushed = false;
}
after_call (Call.push_constants_call size) v = record v { pushed = true }
after_call (Call.operation_call op args) v = v

-- The push constants of the state are there, if it has any.
abbrev pub constants_ready : View → Bool
constants_ready v = (v.size == 0) || v.pushed

abbrev pub draws : View → Bool
draws v = v.recording && (v.fresh && is_graphics v.bound) && constants_ready v

abbrev pub computes : View → Bool
computes v = v.recording && (v.fresh && is_compute v.bound) && constants_ready v

abbrev pub meshes : View → Bool
meshes v = v.recording && (v.fresh && is_meshlet v.bound) && constants_ready v

unfoldable pub allowed_operation : Operation → View → Bool
allowed_operation Operation.draw v = draws v
allowed_operation Operation.draw_indexed v = draws v && is_set v.graphics.index_buffer
allowed_operation Operation.draw_indirect v = draws v && is_set v.graphics.indirect_params
allowed_operation Operation.draw_indexed_indirect v = draws v && is_set v.graphics.indirect_params
allowed_operation Operation.draw_indexed_indirect_count v =
    draws v && is_set v.graphics.indirect_params && is_set v.graphics.indirect_count_buffer
allowed_operation Operation.dispatch v = computes v
allowed_operation Operation.dispatch_indirect v = computes v && is_set v.compute.indirect_params
allowed_operation Operation.dispatch_mesh v = meshes v
allowed_operation Operation.dispatch_mesh_indirect v = meshes v && is_set v.meshlet.indirect_params
allowed_operation Operation.dispatch_mesh_indirect_count v =
    meshes v && is_set v.meshlet.indirect_params && is_set v.meshlet.indirect_count_buffer
allowed_operation Operation.dispatch_rays v = v.recording && is_rays v.bound && constants_ready v
allowed_operation Operation.clear_sampler_feedback_texture v = true
allowed_operation Operation.decode_sampler_feedback_texture v = true
allowed_operation Operation.set_sampler_feedback_texture_state v = true
allowed_operation _ v = v.recording

unfoldable pub allowed : Call → View → Bool
allowed Call.open_call v = not v.recording
allowed (Call.push_constants_call size) v =
    v.recording
    && ((v.fresh && (is_graphics v.bound || is_compute v.bound || is_meshlet v.bound))
        || is_rays v.bound)
    && leb size max_push_constant_size
    && (size == v.size)
allowed (Call.operation_call op args) v = allowed_operation op v
allowed _ v = v.recording

-- The state after a sequence of calls, and `none` if one of them breaks the protocol.
unfoldable pub follow : View → List Call → Option View
follow v [] = some v
follow v (c ∷ cs) = if allowed c v then follow (after_call c v) cs else none

pub follow-append :
    (v u : View) (cs : List Call) (c : Call)
    → follow v cs ≡ some u
    → allowed c u ≡ true
    → follow v (cs ++ (c ∷ [])) ≡ some (after_call c u)
unfolding follow
follow-append v u [] c e a = ground arith
follow-append v u (d ∷ cs) c e a = ground (arith, follow-append (after_call d v) u cs c)
