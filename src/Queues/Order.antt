-- ===== src/Queues/Order.antt =====
-- src/vulkan/vulkan-queue.cpp: the lists of the trackers stay in the order of the submissions, so that
-- a collection misses nothing.
use cutie_rhi.Base.{
  ℕ, suc, ◌+◌, ◌%◌, ◌≤◌, ◌<◌, ◌≡◌, refl, sym, ap, ◌∙◌, subst, arith, List, [], ◌∷◌, ◌++◌, ltb,
  if_elim, length, get_or, map, keep, All, All-map, All-append, All-set, All-get_or,
  Pairwise-append_last, get_or-set_self,
}
use cutie_rhi.Resources.{u64}
use cutie_rhi.Queues.{
  CommandBuffer, Queue, get_or_create_command_buffer, first_of_pool, submit, submit_all, submit_one,
  run_garbage_collection, update_last_finished_id, collect, release,
}
use cutie_rhi.Queues.Collect.{
  Before, InFlight, IsReleased, is_finished, is_unfinished, collect-partition, collect-IsReleased,
  collect-InFlight,
}
use cutie_rhi.Queues.Poll.{poll_command_list-cases}
use cutie_rhi.Queues.Recording.{World, Step, step, run, take_all}

-- The pool holds released buffers only, and the trackers hold submitted ones in order.
abbrev pub IsOrdered : Queue → Type 0
IsOrdered q = All (InFlight q.last_submitted_id) q.trackers × All IsReleased q.command_buffers_pool

InFlight-later : (n m : ℕ) (cs : List CommandBuffer) → n ≤ m → InFlight n cs → InFlight m cs
InFlight-later n m cs low f = (f.0, All-map cs (λ c p. (p.0, omega (arith, p.1))) f.1)

submit_all-InFlight :
    (n : ℕ) (batch : List (ℕ × CommandBuffer)) (q : Queue)
    → 0 < n
    → All (InFlight n) q.trackers
    → All (InFlight n) (submit_all n batch q).trackers
unfolding submit_all submit_one
submit_all-InFlight n [] q positive all = all
submit_all-InFlight n ((t, c) ∷ batch) q positive all =
    let c' : CommandBuffer = record c { submission_id = n } in
    let old = get_or q.trackers t [] in
    let f : InFlight n old = All-get_or (InFlight n) q.trackers t [] (tt, tt) all in
    submit_all-InFlight n batch (submit_one n (t, c) q) positive (
      All-set (InFlight n) q.trackers t (old ++ (c' ∷ []))
        (
          Pairwise-append_last Before old c' f.0 (All-map old (λ e p. p.1) f.1),
          All-append _ old (c' ∷ []) f.1 ((positive, omega arith), tt),
        )
        all)

submit_all-rest :
    (n : ℕ) (batch : List (ℕ × CommandBuffer)) (q : Queue)
    → let q' = submit_all n batch q in
      (q'.command_buffers_pool ≡ q.command_buffers_pool)
      × (q'.last_submitted_id ≡ q.last_submitted_id)
unfolding submit_all submit_one
submit_all-rest n [] q = (refl, refl)
submit_all-rest n ((t, c) ∷ batch) q = submit_all-rest n batch (submit_one n (t, c) q)

submit-IsOrdered :
    (batch : List (ℕ × CommandBuffer)) (q : Queue)
    → suc q.last_submitted_id < u64
    → IsOrdered q
    → IsOrdered (submit batch q).1
      × ((submit batch q).1.last_submitted_id ≡ suc q.last_submitted_id)
unfolding submit
submit-IsOrdered batch q room o =
    let n = suc q.last_submitted_id % u64 in
    let e : n ≡ suc q.last_submitted_id = omega arith in
    let q' : Queue = record q { last_submitted_id = n } in
    let rest = submit_all-rest n batch q' in
    (
      (
        subst (λ m. All (InFlight m) (submit_all n batch q').trackers) (sym rest.1)
            (submit_all-InFlight n batch q' (omega arith) (
              All-map q.trackers (λ cs. InFlight-later q.last_submitted_id n cs (omega arith))
                o.0)),
        subst (All IsReleased) (sym rest.0) o.1,
      ),
      rest.1 ∙ e,
    )

first_of_pool-IsReleased :
    (handle : ℕ) (pool : List CommandBuffer)
    → All IsReleased pool
    → All IsReleased (first_of_pool handle pool).1
first_of_pool-IsReleased handle [] all = tt
first_of_pool-IsReleased handle (c ∷ pool) all = all.1

get_or_create_command_buffer-IsOrdered :
    (handle : ℕ) (q : Queue) → IsOrdered q → IsOrdered (get_or_create_command_buffer handle q).1
unfolding get_or_create_command_buffer
get_or_create_command_buffer-IsOrdered handle q o =
    (o.0, first_of_pool-IsReleased handle q.command_buffers_pool o.1)

collects-IsOrdered :
    (t value : ℕ) (q : Queue) → IsOrdered q → IsOrdered (run_garbage_collection t value q)
unfolding run_garbage_collection update_last_finished_id
collects-IsOrdered t value q o =
    let cs = get_or q.trackers t [] in
    let parts = collect value cs in
    (
      All-set (InFlight q.last_submitted_id) q.trackers t parts.1
          (collect-InFlight q.last_submitted_id value cs
            (All-get_or (InFlight q.last_submitted_id) q.trackers t [] (tt, tt) o.0))
          o.0,
      All-append IsReleased q.command_buffers_pool parts.0 o.1 (collect-IsReleased value cs),
    )

-- A step keeps the order, and submits at most once.
step-IsOrdered :
    (s : Step) (w : World)
    → suc w.queue.last_submitted_id < u64
    → IsOrdered w.queue
    → IsOrdered (step s w).queue
      × ((step s w).queue.last_submitted_id ≤ suc w.queue.last_submitted_id)
unfolding step get_or_create_command_buffer run_garbage_collection update_last_finished_id
step-IsOrdered Step.opens w room o =
    (get_or_create_command_buffer-IsOrdered w.next_handle w.queue o, omega arith)
step-IsOrdered (Step.submits wanted) w room o =
    let r =
      submit-IsOrdered (take_all (length w.queue.trackers) wanted w.recording).0 w.queue room o in
    (r.0, omega (arith, r.1))
step-IsOrdered (Step.collects t value) w room o =
    if_elim (λ v. IsOrdered v.queue × (v.queue.last_submitted_id ≤ suc w.queue.last_submitted_id))
      (ltb t (length w.queue.trackers))
      (record w { queue = run_garbage_collection t value w.queue }) w
      (λ _. (collects-IsOrdered t value w.queue o, omega arith)) (λ _. (o, omega arith))
step-IsOrdered (Step.polls value id) w room o =
    poll_command_list-cases
      (λ r. IsOrdered r.1 × (r.1.last_submitted_id ≤ suc w.queue.last_submitted_id)) value id
      w.queue (o, omega arith) (o, omega arith) (o, omega arith)
step-IsOrdered (Step.abandons handle) w room o = (o, omega arith)

run-IsOrdered :
    (ss : List Step) (w : World)
    → w.queue.last_submitted_id + length ss < u64
    → IsOrdered w.queue
    → IsOrdered (run ss w).queue
unfolding run
run-IsOrdered [] w room o = o
run-IsOrdered (s ∷ ss) w room o =
    let next = step-IsOrdered s w (omega arith) o in
    run-IsOrdered ss (step s w) (omega (arith, next.1)) next.0

-- Whatever was opened, submitted, collected, polled and given up on a new queue, with fewer than 2^64
-- steps: the collection of a tracker moves to the end of the pool all the buffers whose submission
-- is finished, their references dropped, and leaves in flight exactly those whose submission is
-- not finished, though its loop stops at the first of them.
pub run_garbage_collection-exact :
    (ss : List Step) (w : World) (tracker value : ℕ)
    → w.queue.command_buffers_pool ≡ []
    → All (λ cs. cs ≡ []) w.queue.trackers
    → w.queue.last_submitted_id + length ss < u64
    → tracker < length (run ss w).queue.trackers
    → let q = (run ss w).queue in
      let cs = get_or q.trackers tracker [] in
      let q' = run_garbage_collection tracker value q in
      (q'.command_buffers_pool
        ≡ q.command_buffers_pool ++ map release (keep (is_finished value) cs))
      × (get_or q'.trackers tracker [] ≡ keep (is_unfinished value) cs)
unfolding run_garbage_collection update_last_finished_id
run_garbage_collection-exact ss w tracker value no_pool no_flight room low =
    let q = (run ss w).queue in
    let cs = get_or q.trackers tracker [] in
    let start : IsOrdered w.queue = (
      All-map w.queue.trackers (λ cs e. subst (InFlight w.queue.last_submitted_id) (sym e) (tt, tt))
          no_flight,
      subst (All IsReleased) (sym no_pool) tt,
    ) in
    let o = run-IsOrdered ss w room start in
    let f : InFlight q.last_submitted_id cs =
      All-get_or (InFlight q.last_submitted_id) q.trackers tracker [] (tt, tt) o.0 in
    let parts = collect-partition value cs f.0 in
    (
      ap (λ released. q.command_buffers_pool ++ released) parts.0,
      get_or-set_self q.trackers tracker (collect value cs).1 [] low ∙ parts.1,
    )
