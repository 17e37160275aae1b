-- ===== src/Examples/Buffers.antt =====
-- Examples for src/common/state-tracking.cpp, on buffers.
use cutie_rhi.Base.{ℕ, true, false, List, [], ◌∷◌, none, some, bit_and, ◌≡◌, ◌≢◌, refl, inl}
use cutie_rhi.Base.Maps.{lookup, insert}
use cutie_rhi.Resources.{CpuAccessMode, BufferDesc}
use cutie_rhi.Tracking.{World, Tracker, fresh_tracker, clear_barriers}
use cutie_rhi.Tracking.Buffers.{
  buffer_tracking, merge_barrier, require_buffer_state, require_tracked_buffer,
  place_buffer_barrier, begin_tracking_buffer_state, set_permanent_buffer_state,
  keep_buffer_initial_states,
}
use cutie_rhi.Tracking.BufferSound.{tracked}
use cutie_rhi.Tracking.BufferRequire.{IsManaged, require_buffer_state-covers}
use cutie_rhi.Tracking.BufferKeep.{keep_buffer_initial_states-restores}
use cutie_rhi.Tracking.BufferPermanent.{set_permanent_buffer_state-undone}
use cutie_rhi.Tracking.BufferCalls.{BufferCall, run_calls, execute, execute_sound}
use cutie_rhi.Examples.Values.{array_texture}

-- Every buffer starts in state 1 and goes back to it.
abbrev a_buffer : BufferDesc
a_buffer = record {
  byte_size = 256;
  max_versions = 0;
  is_vertex_buffer = true;
  is_index_buffer = false;
  is_draw_indirect_args = false;
  is_constant_buffer = false;
  can_have_uavs = false;
  is_accel_struct_build_input = false;
  is_accel_struct_storage = false;
  is_shader_binding_table = false;
  is_volatile = false;
  is_virtual = false;
  initial_state = 1;
  keep_initial_state = true;
  cpu_access = CpuAccessMode.no_access;
}

abbrev pub a_world : World
a_world = record {
  textures = λ k. record { desc = array_texture; permanent_state = 0; state_initialized = true };
  buffers = λ k. record { desc = a_buffer; permanent_state = 0 };
}

-- Buffer 3 is copied to, read as two kinds of buffer in one batch, and given back.
abbrev a_list : List BufferCall
a_list =
    BufferCall.requires 3 0x1000
    ∷ BufferCall.commits
    ∷ BufferCall.requires 3 4
    ∷ BufferCall.requires 5 4
    ∷ BufferCall.requires 3 2
    ∷ BufferCall.commits
    ∷ BufferCall.keeps
    ∷ []

execute_sound_example :
    execute a_world 3 a_list 1 fresh_tracker
    ≡ some (tracked a_world (run_calls a_world a_list fresh_tracker) 3)
unfolding buffer_tracking lookup
execute_sound_example = execute_sound a_world 3 a_list 1 refl

-- A barrier that orders unordered accesses keeps the state of its time when the first one is widened:
-- buffer 3 is in the state 132 where the second barrier names 128.
abbrev widened : Tracker
widened =
    require_buffer_state a_world 3 4
      (require_buffer_state a_world 3 128 (require_buffer_state a_world 3 128 fresh_tracker))

names_older_state :
    widened.buffer_barriers
    ≡ record { buffer = 3; state_before = 1; state_after = 132 }
      ∷ record { buffer = 3; state_before = 128; state_after = 128 }
      ∷ []
unfolding require_buffer_state require_tracked_buffer place_buffer_barrier merge_barrier insert
    buffer_tracking lookup
names_older_state = refl

managed : IsManaged a_world 3
managed = record { not_volatile = refl; not_permanent = refl; not_visible = refl }

require_buffer_state-covers_example :
    let r = require_buffer_state a_world 3 4 fresh_tracker in
    (bit_and (tracked a_world r 3) 4 ≡ 4)
    × (merge_barrier 3 4 [] ≡ none → tracked a_world r 3 ≡ 4)
    × ((j : ℕ) → 3 ≢ j → tracked a_world r j ≡ tracked a_world fresh_tracker j)
unfolding buffer_tracking lookup
require_buffer_state-covers_example = require_buffer_state-covers a_world 3 4 fresh_tracker managed

-- A tracker that has moved buffer 3 away from its initial state, with an empty batch.
abbrev moved : Tracker
moved = begin_tracking_buffer_state a_world 3 0x1000 fresh_tracker

keep_buffer_initial_states-restores_example :
    tracked a_world (keep_buffer_initial_states a_world moved) 3 ≡ 1
unfolding begin_tracking_buffer_state insert buffer_tracking lookup
keep_buffer_initial_states-restores_example =
    keep_buffer_initial_states-restores a_world 3 managed refl moved (inl refl) tt refl

set_permanent_buffer_state-undone_example :
    tracked a_world
      (keep_buffer_initial_states a_world
        (clear_barriers (set_permanent_buffer_state a_world 3 4 fresh_tracker)))
      3
    ≡ 1
unfolding buffer_tracking lookup
set_permanent_buffer_state-undone_example =
    set_permanent_buffer_state-undone a_world 3 4 fresh_tracker managed refl refl
