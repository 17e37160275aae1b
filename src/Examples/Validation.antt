-- ===== src/Examples/Validation.antt =====
-- Examples for src/validation/validation-commandlist.cpp.
use cutie_rhi.Base.{
  Option, ◌++◌, ℕ, ◌/◌, ◌≤◌, true, false, List, [], ◌∷◌, none, some, ◌≡◌, refl, arith, All,
}
use cutie_rhi.Versioning.{CommandQueue}
use cutie_rhi.Validation.{
  CommandListState, Wrapper, BufferInfo, FramebufferInfo, GraphicsState, new_wrapper,
}
use cutie_rhi.Validation.Lifecycle.{require_execute_state}
use cutie_rhi.Validation.Execute.{ExecuteFault, execute_command_lists}
use cutie_rhi.Validation.Submission.{Ready, Reset}
use cutie_rhi.Validation.Refusal.{
  Distinct, execute_command_lists-accepts, execute_command_lists-refusal_resets,
}
use cutie_rhi.Validation.Commands.{Command, run_all}
use cutie_rhi.Validation.Protocol.{View, start_view, follow}
use cutie_rhi.Validation.Forwarding.{Matches}
use cutie_rhi.Validation.Refinement.{new_session, run_all-follows}
use cutie_rhi.Validation.Fleet.{Fleet, run_on_all, count_open, run_on_all-IsCounted}
use cutie_rhi.Validation.Geometry.{Format, GeometryTriangles, GeometryDesc, update_fault_of}
use cutie_rhi.Validation.AccelStructs.{
  BuildFlags, BuildFault, Store, Instance, build_top_level_accel_struct,
  build_top_level_accel_struct_from_buffer,
}
use cutie_rhi.Validation.GeometryBounds.{update_fault_of-vertex_count}
use cutie_rhi.Validation.Rebuilds.{BuildCall, after_builds, build_from_buffer-no_update}

abbrev a_framebuffer : FramebufferInfo
a_framebuffer = record {
  color_formats = 3 ∷ [];
  depth_format = 9;
  sample_count = 1;
  sample_quality = 0;
}

-- A pipeline with 16 bytes of push constants.
abbrev a_state : GraphicsState
a_state = record {
  pipeline = some (record {
    binding_layouts =
        record {
          layout = 1;
          bindings = some (record { is_push_constants = true; size = 16 } ∷ []);
          is_bindless = false;
        }
        ∷ [];
    framebuffer_info = a_framebuffer;
  });
  framebuffer = some a_framebuffer;
  bindings = some (record { layout = 1; is_bindless = false }) ∷ [];
  vertex_buffers = [];
  index_buffer = none;
  indirect_params = none;
  indirect_count_buffer = none;
}

-- The first draw has no state, the third no index buffer.
abbrev some_commands : List Command
some_commands =
    Command.draw_command 1
    ∷ Command.open_command
    ∷ Command.draw_command 2
    ∷ Command.graphics_command a_state
    ∷ Command.push_constants_command 16
    ∷ Command.draw_command 3
    ∷ Command.draw_indexed_command 4
    ∷ Command.close_command
    ∷ Command.execute_command
    ∷ []

run_all-follows_example :
    let s = run_all some_commands (new_session true CommandQueue.graphics 0) in
    (v : View) × (follow start_view s.calls ≡ some v) × Matches v s.wrapper
run_all-follows_example = run_all-follows some_commands true CommandQueue.graphics 0

-- Two immediate lists, and one that is not.
abbrev a_fleet : Fleet
a_fleet = record {
  lists =
      new_wrapper true CommandQueue.graphics
      ∷ new_wrapper true CommandQueue.compute
      ∷ new_wrapper false CommandQueue.copy
      ∷ [];
  num_open_immediate_command_lists = 0;
}

abbrev fleet_commands : List (ℕ × Command)
fleet_commands =
    (0, Command.open_command)
    ∷ (1, Command.open_command)
    ∷ (2, Command.open_command)
    ∷ (0, Command.close_command)
    ∷ (1, Command.open_command)
    ∷ []

run_on_all-IsCounted_example :
    let r = run_on_all fleet_commands a_fleet in
    (r.num_open_immediate_command_lists ≡ count_open r.lists) × (count_open r.lists ≤ 1)
unfolding count_open
run_on_all-IsCounted_example = run_on_all-IsCounted fleet_commands a_fleet refl (omega arith)

abbrev input_buffer : BufferInfo
input_buffer = record {
  byte_size = 1000;
  is_volatile = false;
  is_vertex_buffer = false;
  is_index_buffer = false;
  is_draw_indirect_args = false;
  is_accel_struct_build_input = true;
}

-- Two triangles with 16-bit indices.
abbrev two_triangles : GeometryTriangles
two_triangles = record {
  index_buffer = some input_buffer;
  vertex_buffer = some input_buffer;
  index_format = Format.r16_uint;
  vertex_format = Format.rgb32_float;
  index_offset = 900;
  vertex_offset = 0;
  index_count = 6;
  vertex_count = 4;
  vertex_stride = 12;
}

abbrev geometries : List GeometryDesc
geometries =
    GeometryDesc.triangles two_triangles
    ∷ GeometryDesc.aabbs
        (record { buffer = some input_buffer; offset = 40; count = 40; stride = 24 })
    ∷ []

abbrev two : ℕ
two = 6 / 3

update_fault_of-vertex_count_example :
    (update_fault_of (GeometryDesc.triangles two_triangles) (GeometryDesc.triangles two_triangles)
        ≡ none
      → two ≡ 2)
    × (two ≡ 2
        → (n : ℕ)
        → update_fault_of
            (GeometryDesc.triangles two_triangles)
            (GeometryDesc.triangles (record two_triangles { vertex_count = n }))
          ≡ none)
update_fault_of-vertex_count_example =
    update_fault_of-vertex_count two_triangles two_triangles refl refl

-- Structures that were created for top-level builds, and not built yet.
abbrev new_structures : Store
new_structures k = record {
  is_top_level = true;
  allow_compaction = false;
  allow_update = true;
  was_built = false;
  build_geometries = [];
  max_instances = 10;
  build_instances = 0;
}

abbrev build : BuildFlags
build = record { perform_update = false; allow_empty_instances = false }

abbrev update : BuildFlags
update = record { perform_update = true; allow_empty_instances = false }

abbrev some_builds : List BuildCall
some_builds =
    BuildCall.from_buffer 2 (some input_buffer) 0 5 build
    ∷ BuildCall.from_instances 3 (Instance.unwrapped ∷ []) build
    ∷ BuildCall.from_buffer 2 (some input_buffer) 0 5 update
    ∷ []

build_from_buffer-no_update_example :
    let after = after_builds some_builds new_structures in
    ((after 2).was_built ≡ false)
    × ((f : BuildFault) × ((build_top_level_accel_struct 2 (Instance.unwrapped ∷ []) update after).0
          ≡ some f))
    × ((f : BuildFault) × ((build_top_level_accel_struct_from_buffer 2
            (some input_buffer)
            0
            5
            update
            after).0
          ≡ some f))
build_from_buffer-no_update_example =
    build_from_buffer-no_update 2 0 5 some_builds (some input_buffer) update
      (Instance.unwrapped ∷ []) new_structures refl (tt, ((λ e. omega (arith, e)), (tt, tt))) refl

-- Two closed lists and an open one.
abbrev recorded_lists : List Wrapper
recorded_lists =
    record (new_wrapper false CommandQueue.compute) { state = CommandListState.closed }
    ∷ record (new_wrapper false CommandQueue.compute) { state = CommandListState.closed }
    ∷ record (new_wrapper false CommandQueue.compute) { state = CommandListState.opened }
    ∷ []

abbrev submitted : List (Option ℕ)
submitted = some 1 ∷ some 0 ∷ []

execute_command_lists-accepts_example :
    All (Ready CommandQueue.compute recorded_lists) submitted
    × Distinct submitted
    × All
        (Reset (execute_command_lists 0 CommandQueue.compute submitted recorded_lists).1)
        submitted
unfolding execute_command_lists require_execute_state
execute_command_lists-accepts_example =
    execute_command_lists-accepts CommandQueue.compute submitted recorded_lists refl

execute_command_lists-refusal_resets_example :
    let r =
      execute_command_lists 0 CommandQueue.compute
        (submitted ++ (none ∷ some 2 ∷ []))
        recorded_lists in
    (r.0 ≡ some (ExecuteFault.null_list 2)) × All (Reset r.1) submitted
unfolding execute_command_lists require_execute_state
execute_command_lists-refusal_resets_example =
    execute_command_lists-refusal_resets CommandQueue.compute submitted (some 2 ∷ []) recorded_lists
      refl
