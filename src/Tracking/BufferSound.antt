-- ===== src/Tracking/BufferSound.antt =====
-- src/common/state-tracking.cpp: the buffer barriers that a command list collects are consistent
-- with the states that it tracks, whatever the order of the calls.
use cutie_rhi.Base.{
  ℕ, Bool, true, false, not, List, [], ◌∷◌, Option, none, some, ◌==◌, ◌≡◌, ◌≢◌, refl, sym, subst,
  ◌∙◌, if_elim, arith, if◌then◌else◌, bit_and,
}
use native.Mathlib.Decide.{ℕ_discrete}
use cutie_rhi.Base.Maps.{lookup-insert}
use cutie_rhi.Tracking.{
  World, BufferExt, BufferState, BufferBarrier, Tracker, verify_permanent_state, log_if, Message,
}
use cutie_rhi.Tracking.Buffers.{
  buffer_tracking, put_buffer, merge_barrier, place_buffer_barrier, require_tracked_buffer,
  require_buffer_state, cpu_visible, keeps_buffer, keep_buffer, keep_buffers,
}
use cutie_rhi.Tracking.BufferBatch.{
  Batch, Batch-append_uav, Batch-append_other, Batch-append_first, Batch-merge, Batch-merge_other,
}

-- The state that the tracker has for a buffer, from the start of the command list on.
abbrev pub tracked : World → Tracker → ℕ → ℕ
tracked w t k = (buffer_tracking w t k).state

pub buffer_tracking-put :
    (w : World) (t : Tracker) (k j : ℕ) (s : BufferState)
    → buffer_tracking w (put_buffer k s t) j ≡ (if k == j then s else buffer_tracking w t j)
unfolding buffer_tracking
buffer_tracking-put w t k j s = ground (arith, lookup-insert k j s t.buffer_states)

pub buffer_tracking-put_self :
    (w : World) (t : Tracker) (k : ℕ) (s : BufferState) → buffer_tracking w (put_buffer k s t) k ≡ s
buffer_tracking-put_self w t k s = ground (arith, buffer_tracking-put w t k k s)

pub buffer_tracking-put_other :
    (w : World) (t : Tracker) (k j : ℕ) (s : BufferState)
    → k ≢ j
    → buffer_tracking w (put_buffer k s t) j ≡ buffer_tracking w t j
buffer_tracking-put_other w t k j s h = ground (arith, buffer_tracking-put w t k j s)

-- The barriers of the batch lead buffer `j` from `before` to the tracked state.
abbrev pub IsSound : World → ℕ → ℕ → Tracker → Type 0
IsSound w j before t = Batch j before (tracked w t j) t.buffer_barriers

-- The outcome of `requireBufferState` below its early returns, for the buffer it is called on.
place_self :
    (transition uav : Bool) (m : Option (ℕ × List BufferBarrier)) (k state before : ℕ)
    (s : BufferState) (bs : List BufferBarrier)
    → merge_barrier k state bs ≡ m
    → (transition ≡ false → s.state ≡ state)
    → Batch k before s.state bs
    → let r = place_buffer_barrier transition uav m k state s bs in Batch k before r.0.state r.1
unfolding place_buffer_barrier
place_self true uav (some (after, rest)) k state before s bs e f q =
    (Batch-merge k before s.state state after bs rest e q).1
place_self true uav none k state before s bs e f q =
    Batch-append_first k before s.state state bs e q
place_self false true m k state before s bs e f q =
    rw (← f refl) (Batch-append_uav k before s.state k bs q)
place_self false false m k state before s bs e f q = rw (← f refl) q

-- For any other buffer.
place-other :
    (transition uav : Bool) (m : Option (ℕ × List BufferBarrier)) (k state j before now : ℕ)
    (s : BufferState) (bs : List BufferBarrier)
    → merge_barrier k state bs ≡ m
    → k ≢ j
    → Batch j before now bs
    → Batch j before now (place_buffer_barrier transition uav m k state s bs).1
unfolding place_buffer_barrier
place-other true uav (some (after, rest)) k state j before now s bs e h q =
    Batch-merge_other j k before now state after bs rest h e q
place-other true uav none k state j before now s bs e h q = Batch-append_other j before now _ bs h q
place-other false true m k state j before now s bs e h q = Batch-append_other j before now _ bs h q
place-other false false m k state j before now s bs e h q = q

-- The maps decide what is tracked.
pub buffer_tracking-states :
    (w : World) (t u : Tracker) (k : ℕ)
    → t.buffer_states ≡ u.buffer_states
    → buffer_tracking w t k ≡ buffer_tracking w u k
unfolding buffer_tracking
buffer_tracking-states w t u k e = rw e

-- A tracker whose entry of `k` is replaced, and whose barriers may be.
put-IsSound_self :
    (w : World) (t : Tracker) (k before : ℕ) (s : BufferState)
    → Batch k before s.state t.buffer_barriers
    → IsSound w k before (put_buffer k s t)
put-IsSound_self w t k before s q =
    subst (λ (x : BufferState). Batch k before x.state t.buffer_barriers)
      (sym (buffer_tracking-put_self w t k s)) q

put-IsSound_other :
    (w : World) (t u : Tracker) (k j before : ℕ) (s : BufferState)
    → t.buffer_states ≡ u.buffer_states
    → k ≢ j
    → Batch j before (tracked w u j) t.buffer_barriers
    → IsSound w j before (put_buffer k s t)
put-IsSound_other w t u k j before s e h q =
    subst (λ (x : BufferState). Batch j before x.state t.buffer_barriers)
      (sym (buffer_tracking-put_other w t k j s h ∙ buffer_tracking-states w t u j e)) q

-- What holds of every outcome of the early returns holds of the call.
pub require_buffer_state_cases {ℓ} :
    (P : Tracker → Type ℓ) (w : World) (k state : ℕ) (t : Tracker)
    → P t
    → ((m : Message) → P (log_if true m t))
    → P (require_tracked_buffer w k state t)
    → P (require_buffer_state w k state t)
unfolding require_buffer_state verify_permanent_state
require_buffer_state_cases P w k state t p f r =
    let ext : BufferExt = w.buffers k in
    let m : Message = Message.wrong_permanent_buffer k state ext.permanent_state in
    let verified : Tracker = (verify_permanent_state ext.permanent_state state m t).1 in
    let last : Tracker =
      if cpu_visible ext.desc.cpu_access then t else require_tracked_buffer w k state t in
    let fixed : Bool = not (ext.permanent_state == 0) in
    if_elim P ext.desc.is_volatile t (if fixed then verified else last) (λ _. p)
      (λ _.
        if_elim P fixed verified last
          (λ _.
            if_elim (λ (x : Bool × Tracker). P x.1) (bit_and ext.permanent_state state == state)
              (true, t) (false, log_if true m t) (λ _. p) (λ _. f m))
          (λ _.
            if_elim P (cpu_visible ext.desc.cpu_access) t (require_tracked_buffer w k state t)
              (λ _. p) (λ _. r)))

module _ (w : World) (k state before : ℕ) (t : Tracker) where
  require_tracked_buffer_self :
      IsSound w k before t → IsSound w k before (require_tracked_buffer w k state t)
  unfolding require_tracked_buffer
  require_tracked_buffer_self q =
      put-IsSound_self w _ k before _
        (place_self _ _ _ k state before _ _ refl (λ e. ground arith) q)

  require_tracked_buffer-other :
      (j : ℕ)
      → k ≢ j
      → IsSound w j before t
      → IsSound w j before (require_tracked_buffer w k state t)
  unfolding require_tracked_buffer
  require_tracked_buffer-other j h q =
      put-IsSound_other w _ t k j before _ refl h
        (place-other _ _ _ k state j before _ _ _ refl h q)

  require_tracked_buffer-IsSound :
      (j : ℕ) → IsSound w j before t → IsSound w j before (require_tracked_buffer w k state t)
  require_tracked_buffer-IsSound j q = elim (ℕ_discrete k j) [
    | yes e ↦
        subst (λ (x : ℕ). IsSound w x before (require_tracked_buffer w k state t)) e
          (require_tracked_buffer_self (subst (λ (x : ℕ). IsSound w x before t) (sym e) q))
    | no h ↦ require_tracked_buffer-other j h q
  ]

  log_if-IsSound :
      (j : ℕ) (b : Bool) (m : Message) → IsSound w j before t → IsSound w j before (log_if b m t)
  log_if-IsSound j b m q =
      subst (λ (x : BufferState). Batch j before x.state t.buffer_barriers)
        (buffer_tracking-states w t (log_if b m t) j refl) q

  -- Every call of `requireBufferState` keeps the batch sound for every buffer.
  pub require_buffer_state-IsSound :
      (j : ℕ) → IsSound w j before t → IsSound w j before (require_buffer_state w k state t)
  require_buffer_state-IsSound j q =
      require_buffer_state_cases (IsSound w j before) w k state t q (λ m. log_if-IsSound j true m q)
        (require_tracked_buffer-IsSound j q)

-- An update of an entry that leaves its state alone.
pub put-IsSound_same :
    (w : World) (t : Tracker) (k j before : ℕ) (s : BufferState)
    → s.state ≡ tracked w t k
    → IsSound w j before t
    → IsSound w j before (put_buffer k s t)
put-IsSound_same w t k j before s e q = elim (ℕ_discrete k j) [
  | yes f ↦
      subst (λ (x : ℕ). IsSound w x before (put_buffer k s t)) f
        (put-IsSound_self w t k before s (rw e (subst (λ (x : ℕ). IsSound w x before t) (sym f) q)))
  | no h ↦ put-IsSound_other w t t k j before s refl h q
]

pub keep_buffer_cases {ℓ} :
    (P : Tracker → Type ℓ) (w : World) (k : ℕ) (t : Tracker)
    → P t
    → ((m : Message) → P (log_if true m t))
    → P (require_tracked_buffer w k (w.buffers k).desc.initial_state t)
    → P (keep_buffer w k t)
unfolding keep_buffer
keep_buffer_cases P w k t p f r =
    let initial : ℕ = (w.buffers k).desc.initial_state in
    if_elim P (keeps_buffer w t k) (require_buffer_state w k initial t) t
      (λ _. require_buffer_state_cases P w k initial t p f r) (λ _. p)

keep_buffer-IsSound :
    (w : World) (k j before : ℕ) (t : Tracker)
    → IsSound w j before t
    → IsSound w j before (keep_buffer w k t)
keep_buffer-IsSound w k j before t q =
    let initial : ℕ = (w.buffers k).desc.initial_state in
    keep_buffer_cases (IsSound w j before) w k t q
      (λ m. log_if-IsSound w k initial before t j true m q)
      (require_tracked_buffer-IsSound w k initial before t j q)

pub keep_buffers-IsSound :
    (w : World) (ks : List ℕ) (j before : ℕ) (t : Tracker)
    → IsSound w j before t
    → IsSound w j before (keep_buffers w ks t)
unfolding keep_buffers
keep_buffers-IsSound w [] j before t q = q
keep_buffers-IsSound w (k ∷ ks) j before t q =
    keep_buffers-IsSound w ks j before _ (keep_buffer-IsSound w k j before t q)
