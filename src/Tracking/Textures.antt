-- ===== src/Tracking/Textures.antt =====
-- src/common/state-tracking.cpp: the operations on textures.
use cutie_rhi.Base.{
  ℕ, ◌+◌, ◌*◌, ◌%◌, Bool, true, false, not, ◌&&◌, ◌||◌, List, [], ◌∷◌, ◌++◌, none, some, ◌==◌,
  if◌then◌else◌, bit_and, get_or, set, resize,
}
use cutie_rhi.Base.Maps.{lookup, insert, keys}
use cutie_rhi.Base.Ranges.{for_range}
use cutie_rhi.Resources.{u32, TextureDesc}
use cutie_rhi.ResourceStates
use cutie_rhi.Subresources.{SubresourceSet, all_subresources, resolve, is_entire_texture}
use cutie_rhi.Tracking.{
  World, TextureExt, TextureState, TextureBarrier, Tracker, Message, log_if, verify_permanent_state,
}

abbrev pub is_empty {ℓ} : {A : Type ℓ} → List A → Bool
is_empty [] = true
is_empty (x ∷ xs) = false

unfoldable pub calc_subresource : ℕ → ℕ → TextureDesc → ℕ
calc_subresource mip slice desc = (mip + slice * desc.mip_levels) % u32

-- The size of a vector of subresource states.
unfoldable pub subresource_count : TextureDesc → ℕ
subresource_count desc = (desc.mip_levels * desc.array_size) % u32

-- Where a texture with `keepInitialState` is when a command list starts.
abbrev pub start_state : TextureExt → ℕ
start_state ext =
    if ext.desc.keep_initial_state
    then (if ext.state_initialized then ext.desc.initial_state else ResourceStates.common)
    else ResourceStates.unknown

abbrev pub new_texture_state : TextureExt → TextureState
new_texture_state ext = record {
  subresource_states = [];
  state = start_state ext;
  enable_uav_barriers = true;
  first_uav_barrier_placed = false;
  permanent_transition = false;
}

-- The entry that `getTextureStateTracking(texture, true)` points at.
unfoldable pub texture_tracking : World → Tracker → ℕ → TextureState
texture_tracking w t k = elim (lookup k t.texture_states) [
  | some s ↦ s
  | none ↦ new_texture_state (w.textures k)
]

abbrev pub put_texture : ℕ → TextureState → Tracker → Tracker
put_texture k s t = record t { texture_states = insert k s t.texture_states }

unfoldable pub set_enable_uav_barriers_for_texture : World → ℕ → Bool → Tracker → Tracker
set_enable_uav_barriers_for_texture w k enable t =
    put_texture k
      (record (texture_tracking w t k) {
        enable_uav_barriers = enable;
        first_uav_barrier_placed = false;
      })
      t

-- The nested loops of `beginTrackingTextureState`, mip levels outside.
unfoldable pub fill_states : TextureDesc → SubresourceSet → ℕ → List ℕ → List ℕ
fill_states desc s bits =
    for_range
      (λ mip.
        for_range (λ slice states. set states (calc_subresource mip slice desc) bits)
          s.base_array_slice s.num_array_slices)
      s.base_mip_level s.num_mip_levels

unfoldable pub begin_tracking_texture_state : World → ℕ → SubresourceSet → ℕ → Tracker → Tracker
begin_tracking_texture_state w k subresources bits t =
    let desc = (w.textures k).desc in
    let tracking = texture_tracking w t k in
    let s = resolve subresources desc false in
    put_texture k
      (if is_entire_texture s desc
        then record tracking { state = bits; subresource_states = [] }
        else record tracking {
          subresource_states =
              fill_states desc s bits
                (resize (subresource_count desc) tracking.state tracking.subresource_states);
          state = ResourceStates.unknown;
        })
      t

unfoldable pub get_texture_subresource_state : World → Tracker → ℕ → ℕ → ℕ → ℕ
get_texture_subresource_state w t k slice mip = elim (lookup k t.texture_states) [
  | none ↦ start_state (w.textures k)
  | some s ↦
      if is_empty s.subresource_states
      then s.state
      else get_or s.subresource_states (calc_subresource mip slice (w.textures k).desc)
          ResourceStates.unknown
]

abbrev pub uav_needed : ℕ → Bool → Bool → Bool
uav_needed state enable placed =
    not (bit_and state ResourceStates.unordered_access == 0) && (enable || not placed)

-- What the loops of `requireTextureState` change.
pub record Walk : Type 0 where
  pub states : List ℕ
  pub first_uav_barrier_placed : Bool
  pub any_uav_barrier : Bool
  pub barriers : List TextureBarrier
  pub messages : List Message

-- The body of the loops: texture, required state, `enableUavBarriers`, `stateExpanded`.
unfoldable pub visit : ℕ → TextureDesc → ℕ → Bool → Bool → ℕ → ℕ → Walk → Walk
visit k desc state enable expanded slice mip walk =
    let index = calc_subresource mip slice desc in
    let prior = get_or walk.states index ResourceStates.unknown in
    let transition = not (prior == state) in
    let uav = not walk.any_uav_barrier && uav_needed state enable walk.first_uav_barrier_placed in
    record {
      states = set walk.states index state;
      first_uav_barrier_placed =
          if uav && not transition then true else walk.first_uav_barrier_placed;
      any_uav_barrier = if uav && not transition then true else walk.any_uav_barrier;
      barriers =
          if transition || uav
          then walk.barriers
            ++ (record {
              texture = k;
              mip_level = mip;
              array_slice = slice;
              entire_texture = false;
              state_before = prior;
              state_after = state;
            }
                ∷ [])
          else walk.barriers;
      messages =
          if (prior == ResourceStates.unknown) && not expanded
          then Message.unknown_subresource k mip slice ∷ walk.messages
          else walk.messages;
    }

-- Array slices outside.
unfoldable pub walk_subresources : ℕ → TextureDesc → ℕ → Bool → Bool → SubresourceSet → Walk → Walk
walk_subresources k desc state enable expanded s =
    for_range
      (λ slice.
        for_range (visit k desc state enable expanded slice) s.base_mip_level s.num_mip_levels)
      s.base_array_slice s.num_array_slices

-- The branch for a texture that is required and tracked as a whole.
unfoldable pub require_entire : ℕ → ℕ → TextureState → Tracker → Tracker
require_entire k state tracking t =
    let transition = not (tracking.state == state) in
    let uav = uav_needed state tracking.enable_uav_barriers tracking.first_uav_barrier_placed in
    put_texture k
      (record tracking {
        state = state;
        first_uav_barrier_placed =
            if uav && not transition then true else tracking.first_uav_barrier_placed;
      })
      (record t {
        texture_barriers =
            if transition || uav
            then t.texture_barriers
              ++ (record {
                texture = k;
                mip_level = 0;
                array_slice = 0;
                entire_texture = true;
                state_before = tracking.state;
                state_after = state;
              }
                  ∷ [])
            else t.texture_barriers;
      })

-- The branch that transitions individual subresources.
unfoldable pub require_subresources :
    ℕ → TextureDesc → SubresourceSet → ℕ → TextureState → Tracker → Tracker
require_subresources k desc s state tracking t =
    let expanded = is_empty tracking.subresource_states in
    let walk = walk_subresources k desc state tracking.enable_uav_barriers expanded s (record {
      states =
          if expanded
          then resize (subresource_count desc) tracking.state []
          else tracking.subresource_states;
      first_uav_barrier_placed = tracking.first_uav_barrier_placed;
      any_uav_barrier = false;
      barriers = t.texture_barriers;
      messages = t.messages;
    }) in
    put_texture k
      (record tracking {
        subresource_states = walk.states;
        state = if expanded then ResourceStates.unknown else tracking.state;
        first_uav_barrier_placed = walk.first_uav_barrier_placed;
      })
      (record t { texture_barriers = walk.barriers; messages = walk.messages })

unfoldable pub require_tracked_texture : World → ℕ → SubresourceSet → ℕ → Tracker → Tracker
require_tracked_texture w k subresources state t =
    let desc = (w.textures k).desc in
    let s = resolve subresources desc false in
    let tracking = texture_tracking w t k in
    let logged =
      log_if (is_empty tracking.subresource_states && (tracking.state == ResourceStates.unknown))
        (Message.unknown_texture k) t in
    if is_entire_texture s desc && is_empty tracking.subresource_states
    then require_entire k state tracking logged
    else require_subresources k desc s state tracking logged

unfoldable pub require_texture_state : World → ℕ → SubresourceSet → ℕ → Tracker → Tracker
require_texture_state w k subresources state t =
    let permanent = (w.textures k).permanent_state in
    if not (permanent == 0)
    then (verify_permanent_state permanent state (Message.wrong_permanent_texture k state permanent)
        t).1
    else require_tracked_texture w k subresources state t

unfoldable pub set_permanent_texture_state : World → ℕ → SubresourceSet → ℕ → Tracker → Tracker
set_permanent_texture_state w k subresources bits t =
    let desc = (w.textures k).desc in
    let s = resolve subresources desc false in
    let permanent = is_entire_texture s desc in
    let required =
      require_texture_state w k s bits (log_if (not permanent) (Message.permanent_subset k) t) in
    if permanent
    then put_texture k (record (texture_tracking w required k) { permanent_transition = true })
        (record required {
          permanent_texture_states = required.permanent_texture_states ++ ((k, bits) ∷ []);
        })
    else required

abbrev pub keeps_texture : World → Tracker → ℕ → Bool
keeps_texture w t k =
    let ext = w.textures k in
    ext.desc.keep_initial_state
    && (ext.permanent_state == 0)
    && not (texture_tracking w t k).permanent_transition

unfoldable pub keep_textures : World → List ℕ → Tracker → Tracker
keep_textures w [] t = t
keep_textures w (k ∷ ks) t = keep_textures w ks (
    if keeps_texture w t k
    then require_texture_state w k all_subresources (w.textures k).desc.initial_state t
    else t)

unfoldable pub keep_texture_initial_states : World → Tracker → Tracker
keep_texture_initial_states w t = keep_textures w (keys t.texture_states) t
