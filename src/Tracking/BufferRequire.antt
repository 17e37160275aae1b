-- ===== src/Tracking/BufferRequire.antt =====
-- src/common/state-tracking.cpp: what `requireBufferState` guarantees of the tracked state.
use cutie_rhi.Base.{
  ℕ, All, All-append, Bool, true, false, List, [], ◌∷◌, Option, none, some, ◌==◌, ◌≡◌, ◌≢◌, refl,
  ap, ◌∙◌, arith, bit_and,
}
use cutie_rhi.Base.Bits.{bit_and-bit_or_right, bit_and_self}
use cutie_rhi.Tracking.{World, BufferState, BufferBarrier, Tracker}
use cutie_rhi.Tracking.Buffers.{
  buffer_tracking, merge_barrier, place_buffer_barrier, placed, require_tracked_buffer,
  require_buffer_state, cpu_visible,
}
use cutie_rhi.Tracking.BufferBatch.{Merged, Merged-some, Merged-step}
use cutie_rhi.Tracking.BufferSound.{
  tracked, buffer_tracking-put_self, buffer_tracking-put_other, buffer_tracking-states,
}

-- The buffers whose states the tracker manages: none of the early returns applies.
pub record IsManaged (w : World) (k : ℕ) : Type 0 where
  pub not_volatile : (w.buffers k).desc.is_volatile ≡ false
  pub not_permanent : (w.buffers k).permanent_state ≡ 0
  pub not_visible : cpu_visible (w.buffers k).desc.cpu_access ≡ false

pub require_buffer_state-managed :
    (w : World) (k state : ℕ) (t : Tracker)
    → IsManaged w k
    → require_buffer_state w k state t ≡ require_tracked_buffer w k state t
unfolding require_buffer_state
require_buffer_state-managed w k state t m = rw (m.not_volatile, m.not_permanent, m.not_visible)

-- The merged barrier ends in a state with every required flag.
merge_barrier-covers :
    (k state : ℕ) (bs : List BufferBarrier)
    → Merged (λ after rest. bit_and after state ≡ state) (merge_barrier k state bs)
unfolding merge_barrier
merge_barrier-covers k state [] = tt
merge_barrier-covers k state (b ∷ bs) =
    Merged-step (λ after rest. bit_and after state ≡ state)
      (λ after rest. bit_and after state ≡ state) b (b.buffer == k) _ _ _
      (λ e. bit_and-bit_or_right b.state_after state) (λ e. merge_barrier-covers k state bs)
      (λ after rest e u. u)

place-covers :
    (transition uav : Bool) (m : Option (ℕ × List BufferBarrier)) (k state : ℕ) (s : BufferState)
    (bs : List BufferBarrier)
    → merge_barrier k state bs ≡ m
    → let r = place_buffer_barrier transition uav m k state s bs in
      (bit_and r.0.state state ≡ state) × (m ≡ none → r.0.state ≡ state)
unfolding place_buffer_barrier
place-covers true uav (some (after, rest)) k state s bs e = (
  Merged-some (λ a r. bit_and a state ≡ state) _ after rest (merge_barrier-covers k state bs) e,
  λ f. cc,
)
place-covers true uav none k state s bs e = (bit_and_self state, λ _. refl)
place-covers false true m k state s bs e = (bit_and_self state, λ _. refl)
place-covers false false m k state s bs e = (bit_and_self state, λ _. refl)

pub tracked-require_self :
    (w : World) (k state : ℕ) (t : Tracker)
    → buffer_tracking w (require_tracked_buffer w k state t) k ≡ (placed w k state t).0
unfolding require_tracked_buffer
tracked-require_self w k state t = buffer_tracking-put_self w _ k (placed w k state t).0

pub tracked-require_other :
    (w : World) (k state j : ℕ) (t : Tracker)
    → k ≢ j
    → buffer_tracking w (require_tracked_buffer w k state t) j ≡ buffer_tracking w t j
unfolding require_tracked_buffer
tracked-require_other w k state j t h =
    buffer_tracking-put_other w _ k j (placed w k state t).0 h ∙ buffer_tracking-states w _ t j refl

-- After `requireBufferState` on a buffer that is not volatile, has no permanent state and is not
-- visible to the processor, its tracked state has every required bit, it is the required state itself
-- if the batch had no barrier of the buffer, and no other buffer's tracked state changes.
pub require_buffer_state-covers :
    (w : World) (k state : ℕ) (t : Tracker)
    → IsManaged w k
    → let r = require_buffer_state w k state t in
      (bit_and (tracked w r k) state ≡ state)
      × (merge_barrier k state t.buffer_barriers ≡ none → tracked w r k ≡ state)
      × ((j : ℕ) → k ≢ j → tracked w r j ≡ tracked w t j)
require_buffer_state-covers w k state t m =
    let covers : (bit_and (placed w k state t).0.state state ≡ state)
        × (merge_barrier k state t.buffer_barriers ≡ none → (placed w k state t).0.state ≡ state) =
      place-covers _ _ _ k state (buffer_tracking w t k) t.buffer_barriers refl in
    let self : tracked w (require_tracked_buffer w k state t) k ≡ (placed w k state t).0.state =
      ap BufferState.state (tracked-require_self w k state t) in
    rw (require_buffer_state-managed w k state t m, self)
      (covers.0, covers.1, λ j h. ap BufferState.state (tracked-require_other w k state j t h))

-- No barrier of the list is for buffer `k`.
abbrev pub Unbatched : ℕ → List BufferBarrier → Type 0
Unbatched k = All (λ b. b.buffer ≢ k)

pub merge_barrier-Unbatched :
    (k state : ℕ) (bs : List BufferBarrier) → Unbatched k bs → merge_barrier k state bs ≡ none
unfolding merge_barrier
merge_barrier-Unbatched k state [] u = refl
merge_barrier-Unbatched k state (b ∷ bs) u = ground (arith, merge_barrier-Unbatched k state bs u.1)

merge_barrier-Unbatched_other :
    (k j state : ℕ) (bs : List BufferBarrier)
    → Unbatched k bs
    → Merged (λ after rest. Unbatched k rest) (merge_barrier j state bs)
unfolding merge_barrier
merge_barrier-Unbatched_other k j state [] u = tt
merge_barrier-Unbatched_other k j state (b ∷ bs) u =
    Merged-step (λ after rest. Unbatched k rest) (λ after rest. Unbatched k rest) b (b.buffer == j)
      _ _ _ (λ e. u) (λ e. merge_barrier-Unbatched_other k j state bs u.1)
      (λ after rest e v. (u.0, v))

pub place-Unbatched :
    (transition uav : Bool) (m : Option (ℕ × List BufferBarrier)) (k j state : ℕ) (s : BufferState)
    (bs : List BufferBarrier)
    → merge_barrier j state bs ≡ m
    → j ≢ k
    → Unbatched k bs
    → Unbatched k (place_buffer_barrier transition uav m j state s bs).1
unfolding place_buffer_barrier
place-Unbatched true uav (some (after, rest)) k j state s bs e h u =
    Merged-some (λ a r. Unbatched k r) _ after rest (merge_barrier-Unbatched_other k j state bs u) e
place-Unbatched true uav none k j state s bs e h u = All-append _ bs _ u (h, tt)
place-Unbatched false true m k j state s bs e h u = All-append _ bs _ u (h, tt)
place-Unbatched false false m k j state s bs e h u = u
