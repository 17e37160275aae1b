-- ===== src/Queues.antt =====
-- src/vulkan/vulkan-queue.cpp, with the data of src/vulkan/vulkan-backend.h: a queue of the Vulkan
-- backend, its pool of command buffers, and the lifetime trackers that give them back.
pub mod Collect
pub mod Recording
pub mod Counts
pub mod Places
pub mod Order
pub mod Poll
use cutie_rhi.Base.{
  ℕ, suc, ◌+◌, ◌%◌, Bool, true, false, not, ◌||◌, List, [], ◌∷◌, ◌++◌, ltb, leb, ◌==◌,
  if◌then◌else◌, map, length, get_or, set,
}
use cutie_rhi.Base.Maps.{insert}
use cutie_rhi.Resources.{u64}

-- `TrackedCommandBuffer`; resources and staging buffers are named by numbers.
pub record CommandBuffer : Type 0 where
  pub handle : ℕ
  pub referenced_resources : List ℕ
  pub referenced_staging_buffers : List ℕ
  pub recording_id : ℕ
  pub submission_id : ℕ

-- What one submission tells the driver.
pub record SubmitInfo : Type 0 where
  pub command_buffers : List ℕ
  pub wait_semaphores : List ℕ
  pub wait_semaphore_values : List ℕ
  pub signal_semaphores : List ℕ
  pub signal_semaphore_values : List ℕ

-- `Queue`. Tracker 0 is its own `m_LifetimeTracker`, the others are those that command lists bring
-- along; `staging_uses` holds `lastUseCommandListID` of the staging buffers, and `sent` what was
-- submitted, the last first.
pub record Queue : Type 0 where
  pub tracking_semaphore : ℕ
  pub wait_semaphores : List ℕ
  pub wait_semaphore_values : List ℕ
  pub signal_semaphores : List ℕ
  pub signal_semaphore_values : List ℕ
  pub last_recording_id : ℕ
  pub last_submitted_id : ℕ
  pub last_finished_id : ℕ
  pub command_buffers_pool : List CommandBuffer
  pub trackers : List (List CommandBuffer)
  pub staging_uses : List (ℕ × ℕ)
  pub sent : List SubmitInfo

-- `createCommandBuffer`, given the handle that the driver allocates.
abbrev pub create_command_buffer : ℕ → CommandBuffer
create_command_buffer handle = record {
  handle = handle;
  referenced_resources = [];
  referenced_staging_buffers = [];
  recording_id = 0;
  submission_id = 0;
}

abbrev pub first_of_pool : ℕ → List CommandBuffer → CommandBuffer × List CommandBuffer
first_of_pool handle [] = (create_command_buffer handle, [])
first_of_pool handle (c ∷ cs) = (c, cs)

unfoldable pub get_or_create_command_buffer : ℕ → Queue → CommandBuffer × Queue
get_or_create_command_buffer handle q =
    let recording_id = suc q.last_recording_id % u64 in
    let first = first_of_pool handle q.command_buffers_pool in
    (
      record first.0 { recording_id = recording_id },
      record q { last_recording_id = recording_id; command_buffers_pool = first.1 },
    )

-- The null semaphore is 0.
unfoldable pub add_wait_semaphore : ℕ → ℕ → Queue → Queue
add_wait_semaphore semaphore value q = if semaphore == 0 then q else record q {
  wait_semaphores = q.wait_semaphores ++ (semaphore ∷ []);
  wait_semaphore_values = q.wait_semaphore_values ++ (value ∷ []);
}

unfoldable pub add_signal_semaphore : ℕ → ℕ → Queue → Queue
add_signal_semaphore semaphore value q = if semaphore == 0 then q else record q {
  signal_semaphores = q.signal_semaphores ++ (semaphore ∷ []);
  signal_semaphore_values = q.signal_semaphore_values ++ (value ∷ []);
}

-- `CommandListLifetimeTracker::push`.
abbrev pub push : ℕ → CommandBuffer → List (List CommandBuffer) → List (List CommandBuffer)
push tracker c trackers = set trackers tracker (get_or trackers tracker [] ++ (c ∷ []))

-- The staging buffers that a command list maps are in use until its submission is finished.
abbrev pub use_staging : ℕ → List ℕ → List (ℕ × ℕ) → List (ℕ × ℕ)
use_staging submission_id [] uses = uses
use_staging submission_id (b ∷ bs) uses = use_staging submission_id bs (insert b submission_id uses)

-- One command list of the loop of `submit`: its buffer, and the tracker of its description.
unfoldable pub submit_one : ℕ → ℕ × CommandBuffer → Queue → Queue
submit_one submission_id (tracker, c) q = record q {
  trackers = push tracker (record c { submission_id = submission_id }) q.trackers;
  staging_uses = use_staging submission_id c.referenced_staging_buffers q.staging_uses;
}

unfoldable pub submit_all : ℕ → List (ℕ × CommandBuffer) → Queue → Queue
submit_all submission_id [] q = q
submit_all submission_id (c ∷ cs) q = submit_all submission_id cs (submit_one submission_id c q)

unfoldable pub submit : List (ℕ × CommandBuffer) → Queue → ℕ × Queue
submit cs q =
    let submission_id = suc q.last_submitted_id % u64 in
    let pushed = submit_all submission_id cs (record q { last_submitted_id = submission_id }) in
    (
      submission_id,
      record pushed {
        wait_semaphores = [];
        wait_semaphore_values = [];
        signal_semaphores = [];
        signal_semaphore_values = [];
        sent =
            record {
              command_buffers = map (λ c. c.1.handle) cs;
              wait_semaphores = pushed.wait_semaphores;
              wait_semaphore_values = pushed.wait_semaphore_values;
              signal_semaphores = pushed.signal_semaphores ++ (pushed.tracking_semaphore ∷ []);
              signal_semaphore_values = pushed.signal_semaphore_values ++ (submission_id ∷ []);
            }
            ∷ pushed.sent;
      },
    )

-- `updateLastFinishedID`, given the value of the semaphore of the queue.
unfoldable pub update_last_finished_id : ℕ → Queue → ℕ × Queue
update_last_finished_id value q = (value, record q { last_finished_id = value })

abbrev pub release : CommandBuffer → CommandBuffer
release c = record c {
  referenced_resources = [];
  referenced_staging_buffers = [];
  submission_id = 0;
}

-- The loop of the collection: the buffers it releases, and those that stay in flight.
unfoldable pub collect : ℕ → List CommandBuffer → List CommandBuffer × List CommandBuffer
collect finished [] = ([], [])
collect finished (c ∷ cs) =
    let rest = collect finished cs in
    if leb c.submission_id finished then (release c ∷ rest.0, rest.1) else ([], c ∷ cs)

-- `CommandListLifetimeTracker::runGarbageCollection` of one tracker, with
-- `returnCommandBuffersToPool`.
unfoldable pub run_garbage_collection : ℕ → ℕ → Queue → Queue
run_garbage_collection tracker value q =
    let updated = update_last_finished_id value q in
    let parts = collect updated.0 (get_or q.trackers tracker []) in
    record updated.1 {
      trackers = set q.trackers tracker parts.1;
      command_buffers_pool = q.command_buffers_pool ++ parts.0;
    }

unfoldable pub poll_command_list : ℕ → ℕ → Queue → Bool × Queue
poll_command_list value id q =
    if ltb q.last_submitted_id id || (id == 0)
    then (false, q)
    else if leb id q.last_finished_id
    then (true, q)
    else let updated = update_last_finished_id value q in (leb id updated.0, updated.1)

-- The driver's answer to `waitSemaphores` is `waited`.
unfoldable pub wait_command_list : ℕ → Bool → ℕ → Queue → Bool × Queue
wait_command_list value waited id q =
    if ltb q.last_submitted_id id || (id == 0)
    then (false, q)
    else let polled = poll_command_list value id q in
      if polled.0 then (true, polled.1) else (waited, polled.1)
