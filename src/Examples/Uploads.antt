-- ===== src/Examples/Uploads.antt =====
-- Examples for src/vulkan/vulkan-upload.cpp and src/d3d12/d3d12-upload.cpp.
use cutie_rhi.Base.{
  true, false, List, [], ◌∷◌, none, some, refl, inl, ◌≡◌, ◌+◌, Pairwise, Any, All, ◌⊎◌, ◌<◌, arith,
  ◌^◌,
}
use cutie_rhi.Versioning.{version_get_submitted, version_get_instance}
use cutie_rhi.Uploads.{
  UploadManager, Device, Chunk, Allocation, suballocate_buffer, submit_chunks, retire, find_chunk,
}
use cutie_rhi.Common.{align}
use cutie_rhi.Uploads.Scratch.{
  DxDevice, Outcome, is_better, best_chunk, create_dx_chunk, from_dx_pool, suballocate_dx_buffer,
}
use cutie_rhi.Uploads.Best.{IsLargeEntry, Unbeaten, best_chunk-best}
use cutie_rhi.Uploads.Recording.{World, Step, step, run, AreProper}
use cutie_rhi.Uploads.Sound.{Apart}
use cutie_rhi.Uploads.Exclusive.{run-exclusive}
use cutie_rhi.Uploads.Bounds.{Fits, suballocate_buffer-bounds}
use cutie_rhi.Uploads.Reuse.{submit_chunks-reusable}

abbrev a_manager : UploadManager
a_manager = record {
  default_chunk_size = 65536;
  memory_limit = 0;
  allocated_memory = 0;
  is_scratch_buffer = false;
  chunk_pool = [];
  current_chunk = none;
}

abbrev a_device : Device
a_device = record {
  make_buffer = λ _. 7;
  map_buffer = λ b. some (b + 1000);
  supports_ray_tracing = true;
  queue_get_completed_instance = λ _. 5;
}

abbrev a_world : World
a_world = record { manager = a_manager; next_buffer = 1; completed = 0; recording = 1; live = [] }

-- Two pieces of one chunk, a large one in a chunk of its own, a submission and its completion, and a
-- piece of the next recording.
abbrev a_life : List Step
a_life =
    Step.allocates 100 8
    ∷ Step.allocates 300 8
    ∷ Step.allocates 100000 8
    ∷ Step.submits 0x8000000000000001 2
    ∷ Step.allocates 50 4
    ∷ Step.completes 1
    ∷ Step.allocates 90000 4
    ∷ Step.abandons 3
    ∷ Step.allocates 60 4
    ∷ []

run-exclusive_example : Pairwise Apart (run a_device a_life a_world).live
unfolding AreProper step version_get_submitted
run-exclusive_example =
    run-exclusive a_device a_life a_world
      (record {
        no_chunks = refl;
        no_current = refl;
        no_lease = refl;
        positive = omega arith;
        unflagged = refl;
        chunk_size = omega arith;
      })
      (
        (omega arith, omega arith),
        (
          (omega arith, omega arith),
          (
            (omega arith, omega arith),
            (
              (refl, refl, omega arith),
              (
                (omega arith, omega arith),
                (
                  omega arith,
                  (
                    (omega arith, omega arith),
                    ((refl, omega arith), ((omega arith, omega arith), tt)),
                  ),
                ),
              ),
            ),
          ),
        ),
      )

abbrev a_chunk : Chunk
a_chunk = record {
  buffer = 3;
  version = 1;
  buffer_size = 65536;
  write_pointer = 400;
  mapped_memory = some 3000;
}

abbrev a_busy_manager : UploadManager
a_busy_manager = record a_manager { current_chunk = some a_chunk; memory_limit = 1 }

suballocate_buffer-bounds_example :
    Fits 100 (2 ^ 8) (suballocate_buffer a_device 100 1 (2 ^ 8) a_busy_manager)
suballocate_buffer-bounds_example =
    suballocate_buffer-bounds a_device 100 1 8 a_busy_manager (omega arith, omega arith)
      (omega arith) (omega arith) (omega arith)

submit_chunks-reusable_example :
    let r =
      suballocate_buffer a_device 5000 2 256 (submit_chunks 1 0x8000000000000002 a_busy_manager) in
    (a : Allocation) × (r.0 ≡ some a) × Any (λ c. a.buffer ≡ c.buffer) (retire (some a_chunk) [])
unfolding version_get_submitted version_get_instance
submit_chunks-reusable_example =
    submit_chunks-reusable a_device a_busy_manager 5000 256 1 0x8000000000000002 2 refl
      (omega arith) (inl (refl, omega arith))

abbrev an_old_chunk : Chunk
an_old_chunk = record a_chunk { buffer = 4; version = 0x8000000000000001 }

abbrev a_new_chunk : Chunk
a_new_chunk = record a_chunk { buffer = 5; version = 0x8000000000000002; buffer_size = 131072 }

-- Of three chunks in use, the one whose submission is older is taken over.
oldest_taken : best_chunk 60000 none (a_chunk ∷ a_new_chunk ∷ an_old_chunk ∷ []) ≡ some an_old_chunk
unfolding best_chunk is_better version_get_submitted version_get_instance
oldest_taken = refl

best_chunk-best_example :
    let cs = a_chunk ∷ a_new_chunk ∷ an_old_chunk ∷ [] in
    ((best_chunk 60000 none cs ≡ none) × All (λ c. c.buffer_size < 60000) cs)
    ⊎ ((best : Chunk) × (best_chunk 60000 none cs ≡ some best)
        × IsLargeEntry 60000 cs best
        × Unbeaten 60000 cs best)
best_chunk-best_example = best_chunk-best 60000 (a_chunk ∷ a_new_chunk ∷ an_old_chunk ∷ [])

-- A new chunk that the driver refuses is used all the same.
abbrev a_failing_device : DxDevice
a_failing_device = record {
  create_committed_resource = λ _. none;
  map_resource = λ _. none;
  last_completed_instance = 0;
}

null_chunk_used :
    suballocate_dx_buffer a_failing_device 100 1 256 a_manager ≡ Outcome.null_chunk a_manager
unfolding suballocate_dx_buffer from_dx_pool find_chunk create_dx_chunk align
null_chunk_used = refl
