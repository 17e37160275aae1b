-- ===== src/Tracking/BufferPermanent.antt =====
-- src/common/state-tracking.cpp: `setPermanentBufferState` followed by `keepBufferInitialStates`.
use cutie_rhi.Base.{
  ℕ, Bool, true, false, List, [], ◌∷◌, Option, none, some, ◌==◌, ◌≡◌, refl, ap, ◌∙◌, inl, inr,
  if_elim,
}
use cutie_rhi.Base.Maps.{insert, keys}
use cutie_rhi.Tracking.{World, BufferState, BufferBarrier, Tracker, clear_barriers}
use cutie_rhi.Tracking.Buffers.{
  buffer_tracking, place_buffer_barrier, require_tracked_buffer, set_permanent_buffer_state,
  keep_buffer_initial_states,
}
use cutie_rhi.Tracking.BufferSound.{tracked, buffer_tracking-states}
use cutie_rhi.Tracking.BufferRequire.{IsManaged, require_buffer_state-managed, tracked-require_self}
use cutie_rhi.Tracking.BufferKeep.{Has, keep_buffer_initial_states-restores}

-- An insertion leaves its key among the keys.
insert-Has {ℓ} : {V : Type ℓ} (k : ℕ) (v : V) (m : List (ℕ × V)) → Has k (keys (insert k v m))
unfolding insert
insert-Has k v [] = inl refl
insert-Has k v ((j, w) ∷ m) =
    if_elim (λ x. Has k (keys x)) (j == k) ((k, v) ∷ m) ((j, w) ∷ insert k v m) (λ _. inl refl)
      (λ _. inr (insert-Has k v m))

place-permanent_transition :
    (transition uav : Bool) (m : Option (ℕ × List BufferBarrier)) (k state : ℕ) (s : BufferState)
    (bs : List BufferBarrier)
    → (place_buffer_barrier transition uav m k state s bs).0.permanent_transition
      ≡ s.permanent_transition
unfolding place_buffer_barrier
place-permanent_transition true uav (some (after, rest)) k state s bs = refl
place-permanent_transition true uav none k state s bs = refl
place-permanent_transition false true m k state s bs = refl
place-permanent_transition false false m k state s bs = refl

require_tracked_buffer-Has :
    (w : World) (k state : ℕ) (t : Tracker)
    → Has k (keys (require_tracked_buffer w k state t).buffer_states)
unfolding require_tracked_buffer
require_tracked_buffer-Has w k state t = insert-Has k _ t.buffer_states

-- A managed buffer with `keepInitialState` whose permanent state a command list sets, and whose
-- barriers it then commits, is moved back to its initial state by `keepBufferInitialStates`,
-- although the permanent state is recorded: the call does not mark the permanent transition,
-- by which textures are left out there.
pub set_permanent_buffer_state-undone :
    (w : World) (k bits : ℕ) (t : Tracker)
    → IsManaged w k
    → (w.buffers k).desc.keep_initial_state ≡ true
    → (buffer_tracking w t k).permanent_transition ≡ false
    → tracked w
        (keep_buffer_initial_states w (clear_barriers (set_permanent_buffer_state w k bits t)))
        k
      ≡ (w.buffers k).desc.initial_state
unfolding clear_barriers set_permanent_buffer_state
set_permanent_buffer_state-undone w k bits t m keep p =
    rw (require_buffer_state-managed w k bits t m) (
      keep_buffer_initial_states-restores w k m keep _ (require_tracked_buffer-Has w k bits t) tt (
        ap BufferState.permanent_transition (
          buffer_tracking-states w _ (require_tracked_buffer w k bits t) k refl
          ∙ tracked-require_self w k bits t)
        ∙ place-permanent_transition _ _ _ k bits (buffer_tracking w t k) t.buffer_barriers
        ∙ p))
