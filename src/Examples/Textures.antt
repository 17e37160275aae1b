-- ===== src/Examples/Textures.antt =====
-- Examples for src/common/state-tracking.cpp, on textures.
use cutie_rhi.Base.{ℕ, false, some, ◌≡◌, ◌≢◌, refl, arith, inl}
use cutie_rhi.Base.Maps.{lookup}
use cutie_rhi.Subresources.{resolve}
use cutie_rhi.Subresources.Resolve.{VisitsBoth}
use cutie_rhi.Tracking.{Tracker, fresh_tracker}
use cutie_rhi.Tracking.Textures.{
  texture_tracking, get_texture_subresource_state, require_texture_state,
}
use cutie_rhi.Tracking.TextureReplay.{replay_subresource}
use cutie_rhi.Tracking.TextureEffect.{require_texture_state-IsConsistent}
use cutie_rhi.Tracking.TextureStates.{require_texture_state-states}
use cutie_rhi.Examples.Values.{
  array_texture, array_texture-IsValid, some_subresources, some_subresources-IsWords,
}
use cutie_rhi.Examples.Buffers.{a_world}

-- Some subresources of texture 4 become unordered access views.
abbrev required : Tracker
required = require_texture_state a_world 4 some_subresources 0x80 fresh_tracker

require_texture_state-IsConsistent_example :
    replay_subresource 4 2 1 required.texture_barriers 8
    ≡ some (get_texture_subresource_state a_world required 4 1 2)
unfolding texture_tracking lookup replay_subresource get_texture_subresource_state
require_texture_state-IsConsistent_example =
    require_texture_state-IsConsistent a_world 4 0x80 4 2 1 8 some_subresources fresh_tracker
      array_texture-IsValid some_subresources-IsWords (inl refl) (omega arith, omega arith) refl

require_texture_state-states_example :
    (VisitsBoth (resolve some_subresources array_texture false) 2 1
      → get_texture_subresource_state a_world required 4 1 2 ≡ 0x80)
    × (¬ VisitsBoth (resolve some_subresources array_texture false) 2 1
        → get_texture_subresource_state a_world required 4 1 2
          ≡ get_texture_subresource_state a_world fresh_tracker 4 1 2)
    × ((j m n : ℕ)
        → 4 ≢ j
        → get_texture_subresource_state a_world required j n m
          ≡ get_texture_subresource_state a_world fresh_tracker j n m)
unfolding texture_tracking lookup
require_texture_state-states_example =
    require_texture_state-states a_world 4 0x80 2 1 some_subresources fresh_tracker refl
      array_texture-IsValid some_subresources-IsWords (inl refl) (omega arith, omega arith)
