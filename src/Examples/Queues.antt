-- ===== src/Examples/Queues.antt =====
-- Examples for src/vulkan/vulkan-queue.cpp.
use cutie_rhi.Base.{◌<◌, ◌≤◌, ◌↔◌, true, List, [], ◌∷◌, ◌++◌, refl, ◌≡◌, arith, map, keep, get_or}
use cutie_rhi.Queues.{
  Queue, release, run_garbage_collection, poll_command_list, submit, submit_all, submit_one,
  get_or_create_command_buffer, collect, update_last_finished_id,
}
use cutie_rhi.Queues.Recording.{World, Step, step, run, take, take_all}
use cutie_rhi.Queues.Counts.{count, count_flights}
use cutie_rhi.Queues.Places.{places, known, run-places}
use cutie_rhi.Queues.Collect.{is_finished, is_unfinished}
use cutie_rhi.Queues.Order.{run_garbage_collection-exact}
use cutie_rhi.Queues.Poll.{poll_command_list-exact}

abbrev a_queue : Queue
a_queue = record {
  tracking_semaphore = 9;
  wait_semaphores = [];
  wait_semaphore_values = [];
  signal_semaphores = [];
  signal_semaphore_values = [];
  last_recording_id = 0;
  last_submitted_id = 0;
  last_finished_id = 0;
  command_buffers_pool = [];
  trackers = [] ∷ [] ∷ [];
  staging_uses = [];
  sent = [];
}

abbrev a_world : World
a_world = record { queue = a_queue; recording = []; destroyed = []; next_handle = 0 }

-- Three command lists are opened; two are submitted at once, with different trackers, and the third
-- later; the first submission is collected, and its buffer is used again.
abbrev a_life : List Step
a_life =
    Step.opens
    ∷ Step.opens
    ∷ Step.opens
    ∷ Step.submits ((0, 0) ∷ (1, 2) ∷ [])
    ∷ Step.submits ((0, 1) ∷ [])
    ∷ Step.collects 0 1
    ∷ Step.opens
    ∷ Step.polls 1 2
    ∷ Step.abandons 1
    ∷ []

run-places_example : places 1 (run a_life a_world) ≡ known 1 (run a_life a_world).next_handle
unfolding count count_flights
run-places_example = run-places a_life a_world (λ h. ground arith) 1

run_garbage_collection-exact_example :
    let q = (run a_life a_world).queue in
    let cs = get_or q.trackers 0 [] in
    let q' = run_garbage_collection 0 2 q in
    (q'.command_buffers_pool ≡ q.command_buffers_pool ++ map release (keep (is_finished 2) cs))
    × (get_or q'.trackers 0 [] ≡ keep (is_unfinished 2) cs)
unfolding run step get_or_create_command_buffer submit submit_all submit_one run_garbage_collection
    update_last_finished_id poll_command_list take take_all collect
run_garbage_collection-exact_example =
    run_garbage_collection-exact a_life a_world 0 2 refl (refl, (refl, tt)) (omega arith)
      (omega arith)

poll_command_list-exact_example :
    let r = poll_command_list 3 2 (record a_queue { last_submitted_id = 4 }) in
    ((r.0 ≡ true) ↔ (0 < 2) × (2 ≤ 4) × (2 ≤ 3)) × (r.1.last_finished_id ≤ 3)
poll_command_list-exact_example =
    poll_command_list-exact 3 2 (record a_queue { last_submitted_id = 4 }) (omega arith)
