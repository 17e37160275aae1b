-- ===== src/Validation/Refusal.antt =====
-- src/validation/validation-device.cpp: which submissions `executeCommandLists` accepts, and the
-- lists of one that it refuses half-way.
use cutie_rhi.Base.{
  ℕ, ◌+◌, List, [], ◌∷◌, ◌++◌, Option, none, some, All, ◌==◌, ◌≡◌, ◌≢◌, ap, ◌∙◌, arith, length, set,
}
use cutie_rhi.Versioning.{CommandQueue, queue_index}
use cutie_rhi.Validation.{Wrapper}
use cutie_rhi.Validation.Execute.{ExecuteFault, list_at, executed, execute_command_lists}
use cutie_rhi.Validation.Submission.{
  Ready, Reset, All-map, round_cases, executed-accepts, put_back-Ready, Accepted, execute-Accepted,
}

-- No pointer occurs twice.
abbrev pub Distinct : List (Option ℕ) → Type 0
Distinct [] = Unit
Distinct (p ∷ ps) = All (λ q. q ≢ p) ps × Distinct ps

execute-Distinct :
    (i : ℕ) (queue : CommandQueue) (ps : List (Option ℕ)) (lists : List Wrapper)
    → (execute_command_lists i queue ps lists).0 ≡ none
    → Distinct ps
unfolding execute_command_lists
execute-Distinct i queue [] lists h = tt
execute-Distinct i queue (none ∷ ps) lists h = cc
execute-Distinct i queue (some k ∷ ps) lists h =
    let w : Wrapper = list_at lists k in
    let r =
      round_cases (queue_index w.queue_type == queue_index queue) (executed w).0 _ _ _ lists h in
    let e = executed-accepts w r.1 in
    let lists' : List Wrapper = set lists k (executed w).1.wrapper in
    (
      All-map (Ready queue lists') (λ q. q ≢ some k) ps
          (λ p q. (put_back-Ready queue k lists _ e.0 e.1 p q).1)
          (execute-Accepted (i + 1) queue ps lists' r.2).0,
      execute-Distinct (i + 1) queue ps lists' r.2,
    )

-- If `executeCommandLists` accepts its lists, then every one of them was closed before and has
-- the type of the queue, none is given twice, and every one is in its initial state afterwards.
pub execute_command_lists-accepts :
    (queue : CommandQueue) (ps : List (Option ℕ)) (lists : List Wrapper)
    → (execute_command_lists 0 queue ps lists).0 ≡ none
    → All (Ready queue lists) ps
      × Distinct ps
      × All (Reset (execute_command_lists 0 queue ps lists).1) ps
execute_command_lists-accepts queue ps lists h =
    let a : Accepted queue ps lists (execute_command_lists 0 queue ps lists).1 =
      execute-Accepted 0 queue ps lists h in
    (a.0, execute-Distinct 0 queue ps lists h, a.1)

refused_at_null :
    (i : ℕ) (queue : CommandQueue) (ps rest : List (Option ℕ)) (lists : List Wrapper)
    → (execute_command_lists i queue ps lists).0 ≡ none
    → execute_command_lists i queue (ps ++ (none ∷ rest)) lists
      ≡ (some (ExecuteFault.null_list (i + length ps)), (execute_command_lists i queue ps lists).1)
unfolding execute_command_lists
refused_at_null i queue [] rest lists h =
    ap (λ (n : ℕ). (some (ExecuteFault.null_list n), lists)) (omega arith)
refused_at_null i queue (none ∷ ps) rest lists h = cc
refused_at_null i queue (some k ∷ ps) rest lists h =
    let w : Wrapper = list_at lists k in
    let lists' : List Wrapper = set lists k (executed w).1.wrapper in
    let r =
      round_cases (queue_index w.queue_type == queue_index queue) (executed w).0 _ _ _ lists h in
    rw (r.0, r.1)
      (refused_at_null (i + 1) queue ps rest lists' r.2
        ∙ ap
            (λ (n : ℕ).
              (some (ExecuteFault.null_list n), (execute_command_lists (i + 1) queue ps lists').1))
            (omega arith))

-- A submission that would be accepted, with a null pointer after it, is refused at that
-- pointer, and none of its lists is executed, yet every list before the pointer has left the closed
-- state for the initial one.
pub execute_command_lists-refusal_resets :
    (queue : CommandQueue) (ps rest : List (Option ℕ)) (lists : List Wrapper)
    → (execute_command_lists 0 queue ps lists).0 ≡ none
    → let r = execute_command_lists 0 queue (ps ++ (none ∷ rest)) lists in
      (r.0 ≡ some (ExecuteFault.null_list (length ps))) × All (Reset r.1) ps
execute_command_lists-refusal_resets queue ps rest lists h =
    rw (refused_at_null 0 queue ps rest lists h) (
      ap (λ (n : ℕ). some (ExecuteFault.null_list n)) (omega arith),
      (execute-Accepted 0 queue ps lists h).1,
    )
