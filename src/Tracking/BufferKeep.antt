-- ===== src/Tracking/BufferKeep.antt =====
-- src/common/state-tracking.cpp: `keepBufferInitialStates` at the end of a command list.
use cutie_rhi.Base.{
  ℕ, Bool, true, false, not, List, [], ◌∷◌, Option, none, ◌==◌, ◌≡◌, ◌≢◌, ◌⊎◌, refl, sym, ap, subst,
  ◌∙◌, arith, inl, inr,
}
use native.Mathlib.Decide.{ℕ_discrete}
use cutie_rhi.Base.Maps.{keys}
use cutie_rhi.Tracking.{World, BufferState, Tracker, log_if, Message}
use cutie_rhi.Tracking.Buffers.{
  buffer_tracking, require_tracked_buffer, require_buffer_state, place_buffer_barrier, keep_buffer,
  keep_buffers, keep_buffer_initial_states,
}
use cutie_rhi.Tracking.BufferSound.{tracked, buffer_tracking-states, keep_buffer_cases}
use cutie_rhi.Tracking.BufferRequire.{
  IsManaged, require_buffer_state-managed, tracked-require_self, tracked-require_other, Unbatched,
  merge_barrier-Unbatched, place-Unbatched,
}

abbrev pub Has : ℕ → List ℕ → Type 0
Has k [] = ⊥
Has k (j ∷ js) = (j ≡ k) ⊎ Has k js

module _ (w : World) (k : ℕ) where
  -- The buffer's turn in the loop has come, and nothing later undoes it.
  abbrev Kept : Tracker → Type 0
  Kept t = tracked w t k ≡ (w.buffers k).desc.initial_state

  -- Its turn is yet to come.
  record Waits (t : Tracker) : Type 0 where
    unbatched : Unbatched k t.buffer_barriers
    no_permanent : (buffer_tracking w t k).permanent_transition ≡ false

  tracking-log :
      (t : Tracker) (m : Message) → buffer_tracking w (log_if true m t) k ≡ buffer_tracking w t k
  tracking-log t m = buffer_tracking-states w (log_if true m t) t k refl

  place_same :
      (uav : Bool) (m : Option _) (state : ℕ) (s : BufferState) (bs : List _)
      → s.state ≡ state
      → (place_buffer_barrier (not (s.state == state)) uav m k state s bs).0.state ≡ state
  unfolding place_buffer_barrier
  place_same uav m state s bs e = ground arith

  place_unmerged :
      (transition uav : Bool) (m : Option _) (state : ℕ) (s : BufferState) (bs : List _)
      → m ≡ none
      → (place_buffer_barrier transition uav m k state s bs).0.state ≡ state
  unfolding place_buffer_barrier
  place_unmerged transition uav m state s bs e = ground arith

  require-Kept :
      (j : ℕ) (t : Tracker)
      → Kept t
      → Kept (require_tracked_buffer w j (w.buffers j).desc.initial_state t)
  require-Kept j t h = elim (ℕ_discrete j k) [
    | yes e ↦
        subst (λ (x : ℕ). Kept (require_tracked_buffer w x (w.buffers x).desc.initial_state t))
          (sym e)
          (ap BufferState.state (tracked-require_self w k (w.buffers k).desc.initial_state t)
            ∙ place_same _ _ (w.buffers k).desc.initial_state (buffer_tracking w t k)
                t.buffer_barriers h)
    | no g ↦
        ap BufferState.state (tracked-require_other w j (w.buffers j).desc.initial_state k t g) ∙ h
  ]

  keep_buffer-Kept : (j : ℕ) (t : Tracker) → Kept t → Kept (keep_buffer w j t)
  keep_buffer-Kept j t h =
      keep_buffer_cases Kept w j t h (λ m. ap BufferState.state (tracking-log t m) ∙ h)
        (require-Kept j t h)

  keep_buffers-Kept : (js : List ℕ) (t : Tracker) → Kept t → Kept (keep_buffers w js t)
  unfolding keep_buffers
  keep_buffers-Kept [] t h = h
  keep_buffers-Kept (j ∷ js) t h = keep_buffers-Kept js _ (keep_buffer-Kept j t h)

  require-Waits :
      (j state : ℕ) (t : Tracker) → j ≢ k → Waits t → Waits (require_tracked_buffer w j state t)
  unfolding require_tracked_buffer
  require-Waits j state t h v = record {
    unbatched = place-Unbatched _ _ _ k j state _ t.buffer_barriers refl h v.unbatched;
    no_permanent =
        ap BufferState.permanent_transition (tracked-require_other w j state k t h)
        ∙ v.no_permanent;
  }

  keep_buffer-Waits : (j : ℕ) (t : Tracker) → j ≢ k → Waits t → Waits (keep_buffer w j t)
  keep_buffer-Waits j t h v =
      keep_buffer_cases Waits w j t v
        (λ m. record {
          unbatched = v.unbatched;
          no_permanent = ap BufferState.permanent_transition (tracking-log t m) ∙ v.no_permanent;
        })
        (require-Waits j (w.buffers j).desc.initial_state t h v)

  module _ (m : IsManaged w k) (keep : (w.buffers k).desc.keep_initial_state ≡ true) where
    require_initial :
        (t : Tracker) → Waits t → Kept (require_buffer_state w k (w.buffers k).desc.initial_state t)
    require_initial t v =
        let initial : ℕ = (w.buffers k).desc.initial_state in
        subst Kept (sym (require_buffer_state-managed w k initial t m)) (
          ap BufferState.state (tracked-require_self w k initial t)
          ∙ place_unmerged _ _ _ initial (buffer_tracking w t k) t.buffer_barriers
              (merge_barrier-Unbatched k initial t.buffer_barriers v.unbatched))

    keep_buffer-turn : (t : Tracker) → Waits t → Kept (keep_buffer w k t)
    unfolding keep_buffer
    keep_buffer-turn t v =
        rw (keep, m.not_permanent, m.not_volatile, v.no_permanent) (require_initial t v)

    keep_buffers-turn :
        (js : List ℕ) (t : Tracker) → Has k js → Waits t → Kept (keep_buffers w js t)
    unfolding keep_buffers
    keep_buffers-turn [] t i v = absurd i
    keep_buffers-turn (j ∷ js) t (inl e) v =
        keep_buffers-Kept js _
          (subst (λ (x : ℕ). Kept (keep_buffer w x t)) (sym e) (keep_buffer-turn t v))
    keep_buffers-turn (j ∷ js) t (inr i) v = elim (ℕ_discrete j k) [
      | yes e ↦
          keep_buffers-Kept js _
            (subst (λ (x : ℕ). Kept (keep_buffer w x t)) (sym e) (keep_buffer-turn t v))
      | no h ↦ keep_buffers-turn js _ i (keep_buffer-Waits j t h v)
    ]

    -- `keepBufferInitialStates` leaves every managed buffer with `keepInitialState` that the
    -- command list has used in its initial state, provided that the batch has no barrier of the
    -- buffer and that the buffer is not marked by a permanent transition.
    pub keep_buffer_initial_states-restores :
        (t : Tracker)
        → Has k (keys t.buffer_states)
        → Unbatched k t.buffer_barriers
        → (buffer_tracking w t k).permanent_transition ≡ false
        → tracked w (keep_buffer_initial_states w t) k ≡ (w.buffers k).desc.initial_state
    unfolding keep_buffer_initial_states
    keep_buffer_initial_states-restores t i u p =
        keep_buffers-turn (keys t.buffer_states) t i (record { unbatched = u; no_permanent = p })
