-- ===== src/Queues/Recording.antt =====
-- src/vulkan/vulkan-queue.cpp, src/vulkan/vulkan-commandlist.cpp: the command lists of one queue. They
-- are opened, submitted in batches, given up, and collected by a tracker, in any order.
use cutie_rhi.Base.{ℕ, suc, List, [], ◌∷◌, Option, none, some, ltb, ◌==◌, if◌then◌else◌, length}
use cutie_rhi.Queues.{
  CommandBuffer, Queue, get_or_create_command_buffer, submit, run_garbage_collection,
  poll_command_list,
}

-- The buffers of open command lists, those that were dropped, and the next handle of the driver.
pub record World : Type 0 where
  pub queue : Queue
  pub recording : List CommandBuffer
  pub destroyed : List CommandBuffer
  pub next_handle : ℕ

pub data Step : Type 0 where
  opens : Step
  submits : List (ℕ × ℕ) → Step
  collects polls : ℕ → ℕ → Step
  abandons : ℕ → Step

-- The open command list with this buffer, and the others.
unfoldable pub take : ℕ → List CommandBuffer → Option CommandBuffer × List CommandBuffer
take handle [] = (none, [])
take handle (c ∷ cs) =
    let rest = take handle cs in if c.handle == handle then (some c, cs) else (rest.0, c ∷ rest.1)

abbrev pub add_taken :
    ℕ → Option CommandBuffer → List (ℕ × CommandBuffer) → List (ℕ × CommandBuffer)
add_taken tracker none batch = batch
add_taken tracker (some c) batch = (tracker, c) ∷ batch

-- The batch of a submission: open command lists, each with a tracker that there is.
unfoldable pub take_all :
    ℕ → List (ℕ × ℕ) → List CommandBuffer → List (ℕ × CommandBuffer) × List CommandBuffer
take_all trackers [] open_lists = ([], open_lists)
take_all trackers ((tracker, handle) ∷ wanted) open_lists =
    let first = take handle open_lists in
    let rest = take_all trackers wanted first.1 in
    let skipped = take_all trackers wanted open_lists in
    if ltb tracker trackers then (add_taken tracker first.0 rest.0, rest.1) else skipped

abbrev pub dropped : Option CommandBuffer → List CommandBuffer → List CommandBuffer
dropped none cs = cs
dropped (some c) cs = c ∷ cs

abbrev pub handles_after : List CommandBuffer → ℕ → ℕ
handles_after [] next = suc next
handles_after (c ∷ pool) next = next

unfoldable pub step : Step → World → World
step Step.opens w =
    let r = get_or_create_command_buffer w.next_handle w.queue in
    record w {
      queue = r.1;
      recording = r.0 ∷ w.recording;
      next_handle = handles_after w.queue.command_buffers_pool w.next_handle;
    }
step (Step.submits wanted) w =
    let batch = take_all (length w.queue.trackers) wanted w.recording in
    record w { queue = (submit batch.0 w.queue).1; recording = batch.1 }
step (Step.collects tracker value) w =
    if ltb tracker (length w.queue.trackers)
    then record w { queue = run_garbage_collection tracker value w.queue }
    else w
step (Step.polls value id) w = record w { queue = (poll_command_list value id w.queue).1 }
step (Step.abandons handle) w =
    let first = take handle w.recording in
    record w { recording = first.1; destroyed = dropped first.0 w.destroyed }

unfoldable pub run : List Step → World → World
run [] w = w
run (s ∷ ss) w = run ss (step s w)
