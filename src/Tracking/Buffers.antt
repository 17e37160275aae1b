-- ===== src/Tracking/Buffers.antt =====
-- src/common/state-tracking.cpp: the operations on buffers.
use cutie_rhi.Base.{
  ℕ, Bool, true, false, not, ◌&&◌, ◌||◌, List, [], ◌∷◌, ◌++◌, Option, none, some, ◌==◌,
  if◌then◌else◌, bit_and, bit_or,
}
use cutie_rhi.Base.Maps.{lookup, insert, keys}
use cutie_rhi.Resources.{CpuAccessMode}
use cutie_rhi.ResourceStates
use cutie_rhi.Tracking.{
  World, BufferExt, BufferState, BufferBarrier, Tracker, Message, log_if, verify_permanent_state,
}

-- What `getBufferStateTracking` puts into a new entry.
abbrev pub new_buffer_state : BufferExt → BufferState
new_buffer_state ext = record {
  state = if ext.desc.keep_initial_state then ext.desc.initial_state else ResourceStates.unknown;
  enable_uav_barriers = true;
  first_uav_barrier_placed = false;
  permanent_transition = false;
}

-- The entry that `getBufferStateTracking(buffer, true)` points at.
unfoldable pub buffer_tracking : World → Tracker → ℕ → BufferState
buffer_tracking w t k = elim (lookup k t.buffer_states) [
  | some s ↦ s
  | none ↦ new_buffer_state (w.buffers k)
]

-- A write through that pointer. The first one creates the entry.
abbrev pub put_buffer : ℕ → BufferState → Tracker → Tracker
put_buffer k s t = record t { buffer_states = insert k s t.buffer_states }

unfoldable pub set_enable_uav_barriers_for_buffer : World → ℕ → Bool → Tracker → Tracker
set_enable_uav_barriers_for_buffer w k enable t =
    let tracking = buffer_tracking w t k in
    put_buffer k
      (record tracking { enable_uav_barriers = enable; first_uav_barrier_placed = false }) t

unfoldable pub begin_tracking_buffer_state : World → ℕ → ℕ → Tracker → Tracker
begin_tracking_buffer_state w k bits t =
    put_buffer k (record (buffer_tracking w t k) { state = bits }) t

unfoldable pub get_buffer_state : Tracker → ℕ → ℕ
get_buffer_state t k = elim (lookup k t.buffer_states) [
  | some s ↦ s.state
  | none ↦ ResourceStates.unknown
]

-- The loop over `m_BufferBarriers`: the first barrier of the buffer takes the new bits in.
unfoldable pub merge_barrier : ℕ → ℕ → List BufferBarrier → Option (ℕ × List BufferBarrier)
merge_barrier k state [] = none
merge_barrier k state (b ∷ bs) =
    if b.buffer == k
    then some
        (bit_or b.state_after state, record b { state_after = bit_or b.state_after state } ∷ bs)
    else (elim (merge_barrier k state bs) [
      | none ↦ none
      | some (after, rest) ↦ some (after, b ∷ rest)
    ])

abbrev pub cpu_visible : CpuAccessMode → Bool
cpu_visible CpuAccessMode.no_access = false
cpu_visible _ = true

abbrev pub uav_needed : ℕ → Bool → Bool → Bool
uav_needed state enable placed =
    not (bit_and state ResourceStates.unordered_access == 0) && (enable || not placed)

-- `requireBufferState` below its early returns, for one entry and the batch's barriers: whether a
-- transition is necessary, whether a UAV barrier is, and the outcome of the merge loop.
unfoldable pub place_buffer_barrier :
    Bool
    → Bool
    → Option (ℕ × List BufferBarrier)
    → ℕ
    → ℕ
    → BufferState
    → List BufferBarrier
    → BufferState × List BufferBarrier
place_buffer_barrier true uav (some (after, merged)) k state tracking barriers =
    (record tracking { state = after }, merged)
place_buffer_barrier true uav none k state tracking barriers = (
  record tracking { state = state },
  barriers ++ (record { buffer = k; state_before = tracking.state; state_after = state } ∷ []),
)
place_buffer_barrier false true merge k state tracking barriers = (
  record tracking { state = state; first_uav_barrier_placed = true },
  barriers ++ (record { buffer = k; state_before = tracking.state; state_after = state } ∷ []),
)
place_buffer_barrier false false merge k state tracking barriers =
    (record tracking { state = state }, barriers)

abbrev pub placed : World → ℕ → ℕ → Tracker → BufferState × List BufferBarrier
placed w k state t =
    let tracking = buffer_tracking w t k in
    place_buffer_barrier (not (tracking.state == state))
      (uav_needed state tracking.enable_uav_barriers tracking.first_uav_barrier_placed)
      (merge_barrier k state t.buffer_barriers) k state tracking t.buffer_barriers

unfoldable pub require_tracked_buffer : World → ℕ → ℕ → Tracker → Tracker
require_tracked_buffer w k state t =
    put_buffer k (placed w k state t).0
      (record (log_if ((buffer_tracking w t k).state == ResourceStates.unknown)
        (Message.unknown_buffer k) t) { buffer_barriers = (placed w k state t).1 })

unfoldable pub require_buffer_state : World → ℕ → ℕ → Tracker → Tracker
require_buffer_state w k state t =
    let ext = w.buffers k in
    if ext.desc.is_volatile
    then t
    else if not (ext.permanent_state == 0)
    then (verify_permanent_state ext.permanent_state state
        (Message.wrong_permanent_buffer k state ext.permanent_state) t).1
    else if cpu_visible ext.desc.cpu_access
    then t
    else require_tracked_buffer w k state t

unfoldable pub set_permanent_buffer_state : World → ℕ → ℕ → Tracker → Tracker
set_permanent_buffer_state w k bits t =
    let required = require_buffer_state w k bits t in
    record required {
      permanent_buffer_states = required.permanent_buffer_states ++ ((k, bits) ∷ []);
    }

-- The test of `keepBufferInitialStates`.
abbrev pub keeps_buffer : World → Tracker → ℕ → Bool
keeps_buffer w t k =
    let ext = w.buffers k in
    ext.desc.keep_initial_state
    && (ext.permanent_state == 0)
    && not ext.desc.is_volatile
    && not (buffer_tracking w t k).permanent_transition

-- The body of its loop.
unfoldable pub keep_buffer : World → ℕ → Tracker → Tracker
keep_buffer w k t =
    if keeps_buffer w t k then require_buffer_state w k (w.buffers k).desc.initial_state t else t

unfoldable pub keep_buffers : World → List ℕ → Tracker → Tracker
keep_buffers w [] t = t
keep_buffers w (k ∷ ks) t = keep_buffers w ks (keep_buffer w k t)

unfoldable pub keep_buffer_initial_states : World → Tracker → Tracker
keep_buffer_initial_states w t = keep_buffers w (keys t.buffer_states) t
