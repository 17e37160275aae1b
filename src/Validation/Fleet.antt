-- ===== src/Validation/Fleet.antt =====
-- src/validation/validation-commandlist.cpp: the command lists of one device, with the counter that
-- they share, and the operations called on them in any order.
use cutie_rhi.Base.{
  ℕ, ◌+◌, ◌≤◌, ◌<◌, false, ltb, List, [], ◌∷◌, zero, suc, ◌≡◌, arith, if◌then◌else◌, length, get_or,
  set, if_elim,
}
use cutie_rhi.Versioning.{CommandQueue}
use cutie_rhi.Validation.{Wrapper, Session, new_wrapper}
use cutie_rhi.Validation.Commands.{Command, run}
use cutie_rhi.Validation.Immediate.{weight, Balanced, run-Balanced}

pub record Fleet : Type 0 where
  pub lists : List Wrapper
  pub num_open_immediate_command_lists : ℕ

abbrev session_of : Fleet → ℕ → Session
session_of f i = record {
  wrapper = get_or f.lists i (new_wrapper false CommandQueue.graphics);
  num_open_immediate_command_lists = f.num_open_immediate_command_lists;
  calls = [];
  faults = [];
}

-- An operation on list number `i`: a number that names no list does nothing.
unfoldable pub run_on : ℕ → Command → Fleet → Fleet
run_on i c f =
    let s = run c (session_of f i) in
    if ltb i (length f.lists)
    then record {
      lists = set f.lists i s.wrapper;
      num_open_immediate_command_lists = s.num_open_immediate_command_lists;
    }
    else f

unfoldable pub run_on_all : List (ℕ × Command) → Fleet → Fleet
run_on_all [] f = f
run_on_all ((i, c) ∷ cs) f = run_on_all cs (run_on i c f)

-- The immediate lists that are open.
unfoldable pub count_open : List Wrapper → ℕ
count_open [] = 0
count_open (w ∷ ws) = weight w + count_open ws

count_open-set :
    (ws : List Wrapper) (i : ℕ) (v d : Wrapper)
    → i < length ws
    → count_open (set ws i v) + weight (get_or ws i d) ≡ count_open ws + weight v
unfolding count_open
count_open-set [] i v d h = absurd (omega arith)
count_open-set (w ∷ ws) zero v d h = omega arith
count_open-set (w ∷ ws) (suc i) v d h = omega (arith, count_open-set ws i v d (omega arith))

weight-get_or :
    (ws : List Wrapper) (i : ℕ) (d : Wrapper)
    → i < length ws
    → weight (get_or ws i d) ≤ count_open ws
unfolding count_open
weight-get_or [] i d h = absurd (omega arith)
weight-get_or (w ∷ ws) zero d h = omega arith
weight-get_or (w ∷ ws) (suc i) d h = omega (arith, weight-get_or ws i d (omega arith))

-- The counter counts the open immediate lists, of which there is at most one.
abbrev pub IsCounted : Fleet → Type 0
IsCounted f =
    (f.num_open_immediate_command_lists ≡ count_open f.lists)
    × (f.num_open_immediate_command_lists ≤ 1)

run_on-IsCounted : (i : ℕ) (c : Command) (f : Fleet) → IsCounted f → IsCounted (run_on i c f)
unfolding run_on
run_on-IsCounted i c f q =
    if_elim IsCounted (ltb i (length f.lists)) _ f
      (λ h.
        let d : Wrapper = new_wrapper false CommandQueue.graphics in
        let s : Session = session_of f i in
        let inside : i < length f.lists = ground arith in
        let b : Balanced s (run c s) =
          run-Balanced c s q.1 (omega (arith, weight-get_or f.lists i d inside, q.0)) in
        (omega (arith, b.0, count_open-set f.lists i (run c s).wrapper d inside, q.0), b.1))
      (λ _. q)

-- On a device whose counter counts its open immediate lists and is at most 1, as it is while no list
-- is open, the counter does so after every sequence of operations on the lists of the device: at
-- no moment are two immediate lists open, and a refused `open` leaves no trace in the counter.
pub run_on_all-IsCounted :
    (cs : List (ℕ × Command)) (f : Fleet)
    → f.num_open_immediate_command_lists ≡ count_open f.lists
    → f.num_open_immediate_command_lists ≤ 1
    → let r = run_on_all cs f in
      (r.num_open_immediate_command_lists ≡ count_open r.lists) × (count_open r.lists ≤ 1)
unfolding run_on_all
run_on_all-IsCounted [] f e h = (e, omega arith)
run_on_all-IsCounted ((i, c) ∷ cs) f e h =
    let q : IsCounted (run_on i c f) = run_on-IsCounted i c f (e, h) in
    run_on_all-IsCounted cs (run_on i c f) q.0 q.1
