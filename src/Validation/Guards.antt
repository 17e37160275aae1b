-- ===== src/Validation/Guards.antt =====
-- src/validation/validation-commandlist.cpp: the checks that operations start with.
use cutie_rhi.Base.{
  Bool, true, false, ◌||◌, List, [], ◌∷◌, ◌++◌, Option, none, some, leb, ◌==◌, if◌then◌else◌,
}
use cutie_rhi.Versioning.{CommandQueue, queue_index}
use cutie_rhi.Validation.{CommandListState, Operation, Call, Fault, Session}

unfoldable pub error : Fault → Session → Session
error f s = record s { faults = s.faults ++ (f ∷ []) }

unfoldable pub forward : Call → Session → Session
forward c s = record s { calls = s.calls ++ (c ∷ []) }

-- A chain of `if (!test) { error(...); return; }` before the rest of an operation.
unfoldable pub guarded : List (Bool × Fault) → (Session → Session) → Session → Session
guarded [] rest s = rest s
guarded ((ok, f) ∷ checks) rest s = if ok then guarded checks rest s else error f s

-- Errors that are all reported before the operation gives up on any of them.
unfoldable pub report : List Fault → Session → Session
report [] s = s
report (f ∷ fs) s = report fs (error f s)

unfoldable pub reported : List Fault → (Session → Session) → Session → Session
reported [] rest s = rest s
reported (f ∷ fs) rest s = report (f ∷ fs) s

-- The errors whose tests fail.
unfoldable pub failing {ℓ} : {F : Type ℓ} → List (Bool × F) → List F
failing [] = []
failing ((ok, f) ∷ checks) = if ok then failing checks else f ∷ failing checks

abbrev pub is_opened : CommandListState → Bool
is_opened CommandListState.initial = false
is_opened CommandListState.opened = true
is_opened CommandListState.closed = false

unfoldable pub require_open_state : Session → Bool × Fault
require_open_state s = (is_opened s.wrapper.state, Fault.not_open s.wrapper.state)

unfoldable pub require_type : CommandQueue → Operation → Session → Bool × Fault
require_type queue op s =
    (leb (queue_index s.wrapper.queue_type) (queue_index queue), Fault.wrong_type queue op)

-- The operation names the pipeline kind and the function that sets it.
unfoldable pub validate_push_constants : Operation → Session → Bool × Fault
validate_push_constants setter s = (
  (s.wrapper.pipeline_push_constant_size == 0) || s.wrapper.push_constants_set,
  Fault.push_constants_missing setter s.wrapper.pipeline_push_constant_size,
)

abbrev pub is_set {ℓ} : {A : Type ℓ} → Option A → Bool
is_set none = false
is_set (some a) = true
