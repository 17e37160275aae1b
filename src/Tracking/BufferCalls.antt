-- ===== src/Tracking/BufferCalls.antt =====
-- src/common/state-tracking.cpp: a command list's calls on buffers, and the GPU that executes the
-- barriers they collect.
use cutie_rhi.Base.{ℕ, Bool, List, [], ◌∷◌, Option, none, some, ◌≡◌, refl, sym, ap, subst}
use cutie_rhi.Base.Maps.{keys}
use cutie_rhi.Tracking.{World, BufferState, Tracker, fresh_tracker, clear_barriers}
use cutie_rhi.Tracking.Buffers.{
  require_buffer_state, set_permanent_buffer_state, set_enable_uav_barriers_for_buffer,
  keep_buffer_initial_states,
}
use cutie_rhi.Tracking.BufferBatch.{Batch, replay_buffer, replay_buffer-Batch}
use cutie_rhi.Tracking.BufferSound.{
  tracked, IsSound, buffer_tracking-states, require_buffer_state-IsSound, put-IsSound_same,
  keep_buffers-IsSound,
}

-- The calls that a command list passes on to its tracker, and the commit of the batch, at which
-- the GPU receives the barriers. `beginTrackingBufferState`, by which the application states what
-- it knows from elsewhere, is not among them.
pub data BufferCall : Type 0 where
  requires makes_permanent : ℕ → ℕ → BufferCall
  enables_uav : ℕ → Bool → BufferCall
  keeps commits : BufferCall

pub after_call : World → BufferCall → Tracker → Tracker
after_call w (requires k state) t = require_buffer_state w k state t
after_call w (makes_permanent k bits) t = set_permanent_buffer_state w k bits t
after_call w (enables_uav k enable) t = set_enable_uav_barriers_for_buffer w k enable t
after_call w keeps t = keep_buffer_initial_states w t
after_call w commits t = clear_barriers t

pub run_calls : World → List BufferCall → Tracker → Tracker
run_calls w [] t = t
run_calls w (c ∷ cs) t = run_calls w cs (after_call w c t)

-- What the GPU has executed for buffer `j`, from the state `g`, when the last batch is committed.
pub execute : World → ℕ → List BufferCall → ℕ → Tracker → Option ℕ
execute w j [] g t = replay_buffer j t.buffer_barriers g
execute w j (commits ∷ cs) g t = elim (replay_buffer j t.buffer_barriers g) [
  | none ↦ none
  | some g' ↦ execute w j cs g' (clear_barriers t)
]
execute w j (c ∷ cs) g t = execute w j cs g (after_call w c t)

clear_barriers-IsSound :
    (w : World) (j : ℕ) (t : Tracker) → IsSound w j (tracked w t j) (clear_barriers t)
unfolding clear_barriers
clear_barriers-IsSound w j t =
    ap BufferState.state (buffer_tracking-states w t (clear_barriers t) j refl)

set_permanent-IsSound :
    (w : World) (k bits j g : ℕ) (t : Tracker)
    → IsSound w j g t
    → IsSound w j g (set_permanent_buffer_state w k bits t)
unfolding set_permanent_buffer_state
set_permanent-IsSound w k bits j g t q =
    let required : Tracker = require_buffer_state w k bits t in
    subst (λ (x : BufferState). Batch j g x.state required.buffer_barriers)
      (buffer_tracking-states w required (set_permanent_buffer_state w k bits t) j refl)
      (require_buffer_state-IsSound w k bits g t j q)

execute-IsSound :
    (w : World) (j : ℕ) (cs : List BufferCall) (g : ℕ) (t : Tracker)
    → IsSound w j g t
    → execute w j cs g t ≡ some (tracked w (run_calls w cs t) j)
unfolding execute run_calls after_call set_enable_uav_barriers_for_buffer keep_buffer_initial_states
execute-IsSound w j [] g t q = replay_buffer-Batch j g _ t.buffer_barriers q
execute-IsSound w j (commits ∷ cs) g t q =
    rw (replay_buffer-Batch j g _ t.buffer_barriers q, execute)
      (execute-IsSound w j cs (tracked w t j) (clear_barriers t) (clear_barriers-IsSound w j t))
execute-IsSound w j (requires k state ∷ cs) g t q =
    execute-IsSound w j cs g _ (require_buffer_state-IsSound w k state g t j q)
execute-IsSound w j (makes_permanent k bits ∷ cs) g t q =
    execute-IsSound w j cs g _ (set_permanent-IsSound w k bits j g t q)
execute-IsSound w j (enables_uav k enable ∷ cs) g t q =
    execute-IsSound w j cs g _ (put-IsSound_same w t k j g _ refl q)
execute-IsSound w j (keeps ∷ cs) g t q =
    execute-IsSound w j cs g _ (keep_buffers-IsSound w (keys t.buffer_states) j g t q)

-- Whatever calls a command list makes of requireBufferState, setPermanentBufferState,
-- setEnableUavBarriersForBuffer and keepBufferInitialStates, in whatever order and with whatever
-- commits between them, and provided that the buffer started in the state from which a new tracker
-- begins: each barrier of the buffer between different states names, when the GPU executes it, the
-- very state that the buffer is in; each barrier between equal states names flags of that state; and
-- at the end the buffer is in the state that the tracker has for it.
pub execute_sound :
    (w : World) (j : ℕ) (cs : List BufferCall) (g : ℕ)
    → tracked w fresh_tracker j ≡ g
    → execute w j cs g fresh_tracker ≡ some (tracked w (run_calls w cs fresh_tracker) j)
execute_sound w j cs g h = execute-IsSound w j cs g fresh_tracker (sym h)
