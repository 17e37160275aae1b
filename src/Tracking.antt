-- ===== src/Tracking.antt =====
-- src/common/state-tracking.h: the data of `CommandListResourceStateTracker`.
--
-- A resource is the number of its `TextureStateExtension` or `BufferStateExtension`, which the
-- source names by a pointer; `World` holds what the pointers lead to, shared by all command lists.
-- A tracker belongs to one command list. The maps of the source are unordered: here their order is
-- that of the first insertion, and no theorem depends on it. Messages are kept newest first.
pub mod Buffers
pub mod Textures
pub mod Submit
pub mod BufferBatch
pub mod BufferSound
pub mod BufferCalls
pub mod BufferRequire
pub mod BufferKeep
pub mod BufferPermanent
pub mod TextureReplay
pub mod TextureVisit
pub mod TextureWalk
pub mod TextureRequire
pub mod TextureSound
pub mod TextureEffect
pub mod TextureStates
use cutie_rhi.Base.{ℕ, Bool, true, false, List, [], ◌∷◌, ◌==◌, if◌then◌else◌, bit_and}
use cutie_rhi.Resources.{TextureDesc, BufferDesc}

pub record BufferExt : Type 0 where
  pub desc : BufferDesc
  pub permanent_state : ℕ

pub record TextureExt : Type 0 where
  pub desc : TextureDesc
  pub permanent_state : ℕ
  pub state_initialized : Bool

pub record World : Type 0 where
  pub textures : ℕ → TextureExt
  pub buffers : ℕ → BufferExt

-- An empty list stands for a texture that is tracked as a whole, by `state`.
pub record TextureState : Type 0 where
  pub subresource_states : List ℕ
  pub state : ℕ
  pub enable_uav_barriers : Bool
  pub first_uav_barrier_placed : Bool
  pub permanent_transition : Bool

pub record BufferState : Type 0 where
  pub state : ℕ
  pub enable_uav_barriers : Bool
  pub first_uav_barrier_placed : Bool
  pub permanent_transition : Bool

pub record TextureBarrier : Type 0 where
  pub texture : ℕ
  pub mip_level : ℕ
  pub array_slice : ℕ
  pub entire_texture : Bool
  pub state_before : ℕ
  pub state_after : ℕ

pub record BufferBarrier : Type 0 where
  pub buffer : ℕ
  pub state_before : ℕ
  pub state_after : ℕ

-- The error messages of state-tracking.cpp, with the values that they print.
pub data Message : Type 0 where
  wrong_permanent_texture wrong_permanent_buffer : ℕ → ℕ → ℕ → Message
  permanent_subset unknown_texture unknown_buffer : ℕ → Message
  unknown_subresource : ℕ → ℕ → ℕ → Message
  switched_permanent_texture switched_permanent_buffer : ℕ → ℕ → ℕ → Message

pub record Tracker : Type 0 where
  pub texture_states : List (ℕ × TextureState)
  pub buffer_states : List (ℕ × BufferState)
  pub permanent_texture_states : List (ℕ × ℕ)
  pub permanent_buffer_states : List (ℕ × ℕ)
  pub texture_barriers : List TextureBarrier
  pub buffer_barriers : List BufferBarrier
  pub messages : List Message

abbrev pub fresh_tracker : Tracker
fresh_tracker = record {
  texture_states = [];
  buffer_states = [];
  permanent_texture_states = [];
  permanent_buffer_states = [];
  texture_barriers = [];
  buffer_barriers = [];
  messages = [];
}

abbrev pub log_if : Bool → Message → Tracker → Tracker
log_if b m t = record t { messages = if b then m ∷ t.messages else t.messages }

-- `verifyPermanentResourceState`: the message is the caller's, for the kind of the resource.
unfoldable pub verify_permanent_state : ℕ → ℕ → Message → Tracker → Bool × Tracker
verify_permanent_state permanent required m t =
    if bit_and permanent required == required then (true, t) else (false, log_if true m t)

unfoldable pub clear_barriers : Tracker → Tracker
clear_barriers t = record t { texture_barriers = []; buffer_barriers = [] }
