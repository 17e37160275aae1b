-- ===== src/Validation/Execute.antt =====
-- src/validation/validation-device.cpp: `DeviceWrapper::executeCommandLists`, on command lists that
-- the validation layer wraps. A pointer is the number of a list, or `none` if it is null.
use cutie_rhi.Base.{
  ℕ, ◌+◌, Bool, false, List, [], ◌∷◌, Option, none, some, ◌==◌, if◌then◌else◌, get_or, set,
}
use cutie_rhi.Versioning.{CommandQueue, queue_index}
use cutie_rhi.Validation.{Wrapper, Session, new_wrapper}
use cutie_rhi.Validation.Lifecycle.{require_execute_state}

pub data ExecuteFault : Type 0 where
  null_list wrong_queue not_executable : ℕ → ExecuteFault

-- The list that a number names.
abbrev pub list_at : List Wrapper → ℕ → Wrapper
list_at lists k = get_or lists k (new_wrapper false CommandQueue.graphics)

-- `requireExecuteState` of one list.
abbrev pub executed : Wrapper → Bool × Session
executed w =
    require_execute_state
      (record { wrapper = w; num_open_immediate_command_lists = 0; calls = []; faults = [] })

-- The loop over the pointers, at number `i`: the first fault, and the lists afterwards. Without a
-- fault the lists go on to the wrapped device.
unfoldable pub execute_command_lists :
    ℕ → CommandQueue → List (Option ℕ) → List Wrapper → Option ExecuteFault × List Wrapper
execute_command_lists i queue [] lists = (none, lists)
execute_command_lists i queue (none ∷ rest) lists = (some (ExecuteFault.null_list i), lists)
execute_command_lists i queue (some k ∷ rest) lists =
    let w = list_at lists k in
    let after = execute_command_lists (i + 1) queue rest (set lists k (executed w).1.wrapper) in
    if queue_index w.queue_type == queue_index queue
    then (if (executed w).0 then after else (some (ExecuteFault.not_executable i), lists))
    else (some (ExecuteFault.wrong_queue i), lists)
