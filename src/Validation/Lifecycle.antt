-- ===== src/Validation/Lifecycle.antt =====
-- src/validation/validation-commandlist.cpp: `open`, `close`, `requireExecuteState`, `clearState`.
use cutie_rhi.Base.{◌+◌, ◌-◌, ◌%◌, ◌&&◌, [], ◌∷◌, Bool, true, false, ltb, if◌then◌else◌}
use cutie_rhi.Resources.{u32}
use cutie_rhi.Validation.{CommandListState, Call, Fault, Session}
use cutie_rhi.Validation.Guards.{error, forward, guarded, require_open_state}

-- The part of `open` below the `switch`.
unfoldable pub open_recording : Session → Session
open_recording s =
    if s.wrapper.is_immediate && ltb 1 ((s.num_open_immediate_command_lists + 1) % u32)
    then error Fault.two_immediate_open s
    else forward Call.open_call (record s {
      num_open_immediate_command_lists =
          if s.wrapper.is_immediate
          then (s.num_open_immediate_command_lists + 1) % u32
          else s.num_open_immediate_command_lists;
      wrapper = record s.wrapper {
        state = CommandListState.opened;
        graphics_state_set = false;
        compute_state_set = false;
        meshlet_state_set = false;
      };
    })

abbrev pub open_from : CommandListState → Session → Session
open_from CommandListState.opened s = error Fault.already_open s
open_from CommandListState.closed s =
    if s.wrapper.is_immediate
    then error Fault.abandoned_immediate s
    else open_recording (error Fault.reopened_unexecuted s)
open_from CommandListState.initial s = open_recording s

unfoldable pub open_command_list : Session → Session
open_command_list s = open_from s.wrapper.state s

-- The part of `close` below the `switch`.
unfoldable pub close_recording : Session → Session
close_recording s = forward Call.close_call (record s {
  num_open_immediate_command_lists =
      if s.wrapper.is_immediate
      then (s.num_open_immediate_command_lists + u32 - 1) % u32
      else s.num_open_immediate_command_lists;
  wrapper = record s.wrapper {
    state = CommandListState.closed;
    graphics_state_set = false;
    compute_state_set = false;
    meshlet_state_set = false;
  };
})

abbrev pub close_from : CommandListState → Session → Session
close_from CommandListState.initial s = error Fault.close_before_open s
close_from CommandListState.closed s = error Fault.already_closed s
close_from CommandListState.opened s = close_recording s

unfoldable pub close_command_list : Session → Session
close_command_list s = close_from s.wrapper.state s

abbrev pub execute_from : CommandListState → Session → Bool × Session
execute_from CommandListState.initial s = (false, error Fault.execute_before_open s)
execute_from CommandListState.opened s = (false, error Fault.execute_before_close s)
execute_from CommandListState.closed s =
    (true, record s { wrapper = record s.wrapper { state = CommandListState.initial } })

unfoldable pub require_execute_state : Session → Bool × Session
require_execute_state s = execute_from s.wrapper.state s

unfoldable pub clear_state : Session → Session
clear_state s =
    guarded (require_open_state s ∷ [])
      (λ s. forward Call.clear_state_call (record s {
        wrapper = record s.wrapper {
          graphics_state_set = false;
          compute_state_set = false;
          meshlet_state_set = false;
          ray_tracing_state_set = false;
          push_constants_set = false;
        };
      }))
      s
