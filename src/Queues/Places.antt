-- ===== src/Queues/Places.antt =====
-- src/vulkan/vulkan-queue.cpp: where the command buffers of a queue are after any calls.
use cutie_rhi.Base.{
  ℕ, suc, ◌+◌, ◌≡◌, refl, arith, List, [], ◌∷◌, Option, none, some, ltb, if◌then◌else◌, if_elim,
  length, get_or, ap, ◌∙◌, ◌%◌,
}
use cutie_rhi.Resources.{u64}
use cutie_rhi.Queues.{
  first_of_pool, CommandBuffer, Queue, get_or_create_command_buffer, submit, run_garbage_collection,
  update_last_finished_id, poll_command_list, collect,
}
use cutie_rhi.Queues.Recording.{World, Step, step, run, take, take_all, dropped, handles_after}
use cutie_rhi.Queues.Counts.{
  count, count-append, count-collect, count-submit_all, count-take, count-take_all, count_flights,
  count_flights-set, count_option, take_all-HasTracker, weigh,
}

-- How many places hold the buffer: the pool, the trackers, the open command lists and those
-- that were dropped.
abbrev pub places : ℕ → World → ℕ
places h w =
    count h w.queue.command_buffers_pool
    + count_flights h w.queue.trackers
    + count h w.recording
    + count h w.destroyed

-- The handles below the next one.
abbrev pub known : ℕ → ℕ → ℕ
known h next = if ltb h next then 1 else 0

count-first_of_pool :
    (h next : ℕ) (pool : List CommandBuffer)
    → weigh h (first_of_pool next pool).0 + count h (first_of_pool next pool).1 + known h next
      ≡ count h pool + known h (handles_after pool next)
unfolding count
count-first_of_pool h next [] = ground arith
count-first_of_pool h next (c ∷ pool) = omega arith

opens-places :
    (h : ℕ) (w : World)
    → places h w ≡ known h w.next_handle
    → places h (step Step.opens w) ≡ known h (step Step.opens w).next_handle
unfolding step get_or_create_command_buffer count
opens-places h w e =
    omega (arith, e, count-first_of_pool h w.next_handle w.queue.command_buffers_pool)

submits-places :
    (h : ℕ) (wanted : List (ℕ × ℕ)) (w : World)
    → places h (step (Step.submits wanted) w) ≡ places h w
unfolding step submit
submits-places h wanted w =
    let n = length w.queue.trackers in
    let batch = take_all n wanted w.recording in
    let id = suc w.queue.last_submitted_id % u64 in
    let sent =
      count-submit_all h id batch.0 (record w.queue { last_submitted_id = id })
        (take_all-HasTracker n wanted w.recording) in
    omega (arith, sent.0, ap (count h) sent.1, count-take_all h n wanted w.recording)

collects-places :
    (h t value : ℕ) (w : World)
    → places h w ≡ known h w.next_handle
    → let w' = step (Step.collects t value) w in places h w' ≡ known h w'.next_handle
unfolding step run_garbage_collection update_last_finished_id
collects-places h t value w e =
    let cs = get_or w.queue.trackers t [] in
    let parts = collect value cs in
    if_elim (λ v. places h v ≡ known h v.next_handle) (ltb t (length w.queue.trackers))
      (record w { queue = run_garbage_collection t value w.queue }) w
      (λ low. omega (
        arith,
        e,
        count_flights-set h t w.queue.trackers parts.1 (ground arith),
        count-collect h value cs,
        count-append h w.queue.command_buffers_pool parts.0,
      ))
      (λ _. e)

poll_command_list-lists :
    (value id : ℕ) (q : Queue)
    → let q' = (poll_command_list value id q).1 in
      (q'.command_buffers_pool ≡ q.command_buffers_pool) × (q'.trackers ≡ q.trackers)
unfolding poll_command_list update_last_finished_id
poll_command_list-lists value id q = ground arith

count-dropped :
    (h : ℕ) (o : Option CommandBuffer) (cs : List CommandBuffer)
    → count h (dropped o cs) ≡ count_option h o + count h cs
unfolding count count_option
count-dropped h none cs = omega arith
count-dropped h (some c) cs = refl

step-places :
    (h : ℕ) (s : Step) (w : World)
    → places h w ≡ known h w.next_handle
    → places h (step s w) ≡ known h (step s w).next_handle
unfolding step
step-places h Step.opens w e = opens-places h w e
step-places h (Step.submits wanted) w e = submits-places h wanted w ∙ e
step-places h (Step.collects t value) w e = collects-places h t value w e
step-places h (Step.polls value id) w e =
    let same = poll_command_list-lists value id w.queue in
    omega (arith, e, ap (count h) same.0, ap (count_flights h) same.1)
step-places h (Step.abandons x) w e =
    omega (arith, e, count-take h x w.recording, count-dropped h (take x w.recording).0 w.destroyed)

-- Whatever happens to the command lists of a queue, in any order and from any state in which it is
-- so: every command buffer that the driver created is in exactly one place, the pool, one tracker,
-- one open command list, or among those that an abandoned command list dropped, and a handle
-- that was not created is nowhere.
pub run-places :
    (ss : List Step) (w : World)
    → ((h : ℕ) → places h w ≡ known h w.next_handle)
    → (h : ℕ) → places h (run ss w) ≡ known h (run ss w).next_handle
unfolding run
run-places [] w e h = e h
run-places (s ∷ ss) w e h = run-places ss (step s w) (λ h'. step-places h' s w (e h')) h
