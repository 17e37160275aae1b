-- ===== src/Queues/Poll.antt =====
-- src/vulkan/vulkan-queue.cpp: what polling and waiting for a submission report.
use cutie_rhi.Base.{ℕ, ◌≤◌, ◌<◌, ◌≡◌, ◌↔◌, arith, Bool, true, false, ◌||◌, leb, ltb, ◌==◌, if_elim}
use cutie_rhi.Queues.{Queue, update_last_finished_id, poll_command_list, wait_command_list}

-- The three ways in which a poll ends.
pub poll_command_list-cases {κ} :
    (P : Bool × Queue → Type κ) (value id : ℕ) (q : Queue)
    → P (false, q)
    → P (true, q)
    → P (leb id value, record q { last_finished_id = value })
    → P (poll_command_list value id q)
unfolding poll_command_list update_last_finished_id
poll_command_list-cases P value id q refused known asked =
    if_elim P (ltb q.last_submitted_id id || (id == 0)) (false, q) _ (λ _. refused)
      (λ _.
        if_elim P (leb id q.last_finished_id) (true, q)
          (leb id value, record q { last_finished_id = value }) (λ _. known) (λ _. asked))

-- When the semaphore of the queue never goes back, a poll answers `true` exactly for the
-- submissions, from 1 to the last one, that the semaphore has reached, and the value that the
-- queue remembers stays at or below the semaphore's.
pub poll_command_list-exact :
    (value id : ℕ) (q : Queue)
    → q.last_finished_id ≤ value
    → let r = poll_command_list value id q in
      ((r.0 ≡ true) ↔ (0 < id) × (id ≤ q.last_submitted_id) × (id ≤ value))
      × (r.1.last_finished_id ≤ value)
unfolding poll_command_list update_last_finished_id
poll_command_list-exact value id q low = ground arith

-- A wait that answers `true` waited for a submission there is, and the driver said that it is
-- finished or the semaphore had reached it; a wait for a submission that is finished does not
-- depend on the driver's answer.
pub wait_command_list-exact :
    (value : ℕ) (waited : Bool) (id : ℕ) (q : Queue)
    → q.last_finished_id ≤ value
    → let r = wait_command_list value waited id q in
      ((r.0 ≡ true) ↔ (0 < id) × (id ≤ q.last_submitted_id) × ((leb id value || waited) ≡ true))
unfolding wait_command_list poll_command_list update_last_finished_id
wait_command_list-exact value waited id q low = ground arith
