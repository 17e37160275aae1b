-- ===== src/Tracking/Submit.antt =====
-- src/common/state-tracking.cpp: `commandListSubmitted`, which makes the permanent transitions of
-- the command list known to the resources and forgets what was tracked.
use cutie_rhi.Base.{ℕ, Bool, true, not, ◌&&◌, List, [], ◌∷◌, ◌==◌, if◌then◌else◌}
use cutie_rhi.Base.Maps.{keys}
use cutie_rhi.Tracking.{World, TextureExt, BufferExt, Tracker, Message}

abbrev pub set_texture_ext : ℕ → TextureExt → World → World
set_texture_ext k ext w = record w { textures = λ j. if j == k then ext else w.textures j }

abbrev pub set_buffer_ext : ℕ → BufferExt → World → World
set_buffer_ext k ext w = record w { buffers = λ j. if j == k then ext else w.buffers j }

-- A permanent state can be set once, and again to the same value.
abbrev pub refuses_switch : ℕ → ℕ → Bool
refuses_switch permanent state = not (permanent == 0) && not (permanent == state)

unfoldable pub submit_textures : List (ℕ × ℕ) → World × List Message → World × List Message
submit_textures [] s = s
submit_textures ((k, state) ∷ rest) (w, ms) = submit_textures rest (
    if refuses_switch (w.textures k).permanent_state state
    then (w, Message.switched_permanent_texture k (w.textures k).permanent_state state ∷ ms)
    else (set_texture_ext k (record (w.textures k) { permanent_state = state }) w, ms))

unfoldable pub submit_buffers : List (ℕ × ℕ) → World × List Message → World × List Message
submit_buffers [] s = s
submit_buffers ((k, state) ∷ rest) (w, ms) = submit_buffers rest (
    if refuses_switch (w.buffers k).permanent_state state
    then (w, Message.switched_permanent_buffer k (w.buffers k).permanent_state state ∷ ms)
    else (set_buffer_ext k (record (w.buffers k) { permanent_state = state }) w, ms))

-- The textures that were used with `keepInitialState` are in their initial state from now on.
unfoldable pub initialize_textures : List ℕ → World → World
initialize_textures [] w = w
initialize_textures (k ∷ ks) w = initialize_textures ks (
    if (w.textures k).desc.keep_initial_state && not (w.textures k).state_initialized
    then set_texture_ext k (record (w.textures k) { state_initialized = true }) w
    else w)

unfoldable pub command_list_submitted : World → Tracker → World × Tracker
command_list_submitted w t =
    let after_textures = submit_textures t.permanent_texture_states (w, t.messages) in
    let after_buffers = submit_buffers t.permanent_buffer_states after_textures in
    (
      initialize_textures (keys t.texture_states) after_buffers.0,
      record t {
        permanent_texture_states = [];
        permanent_buffer_states = [];
        texture_states = [];
        buffer_states = [];
        messages = after_buffers.1;
      },
    )
