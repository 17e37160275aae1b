-- ===== src/Examples/Descriptors.antt =====
-- Examples for src/d3d12/d3d12-descriptor-heap.cpp.
use cutie_rhi.Base.{
  ℕ, zero, suc, ◌+◌, get_or, ◌≤◌, true, false, List, [], ◌∷◌, none, some, refl, ◌≡◌, arith, resize,
  All, OnSome, ◌≢◌, Option,
}
use cutie_rhi.Descriptors.{
  HeapType, Driver, DescriptorHeap, find_free, allocate_descriptors, release_descriptors, grow,
  mark, new_size, next_power_of_2, allocate_resources,
}
use cutie_rhi.Descriptors.Allocation.{Answers, allocate_descriptors-Answers}
use cutie_rhi.Descriptors.Clients.{World, Step, step, run, pick, AreProper, Agrees, IsReliable}
use cutie_rhi.Descriptors.Live.{run-Agrees}

abbrev a_driver : Driver
a_driver = record {
  create_descriptor_heap = λ type n visible. some (n + 1);
  cpu_start = λ h. h + 1000;
  gpu_start = λ h. h + 2000;
  increment_size = λ type. 32;
  max_shader_visible_descriptors = 1000000;
  max_shader_visible_samplers = 2048;
}

abbrev a_heap : DescriptorHeap
a_heap = record {
  heap = some 5;
  shader_visible_heap = some 6;
  heap_type = HeapType.cbv_srv_uav;
  start_cpu_handle = 0;
  start_cpu_handle_shader_visible = 0;
  start_gpu_handle_shader_visible = 0;
  stride = 32;
  num_descriptors = 4;
  allocated_descriptors = false ∷ false ∷ false ∷ false ∷ [];
  search_start = 0;
  num_allocated_descriptors = 0;
  copies = [];
}

abbrev a_full_heap : DescriptorHeap
a_full_heap = record a_heap {
  allocated_descriptors = true ∷ true ∷ false ∷ true ∷ [];
  num_allocated_descriptors = 3;
}

abbrev allocated : Option (Option ℕ × DescriptorHeap) → Option ℕ
allocated none = none
allocated (some r) = r.0

-- After a growth that failed the heap is null, and the next growth calls it.
loses : allocate_descriptors a_driver 2 (record a_full_heap { heap = none }) ≡ none
unfolding allocate_descriptors find_free grow new_size next_power_of_2 allocate_resources
loses = refl

-- The heap has no two free descriptors in a row, so it grows to eight.
grows : allocated (allocate_descriptors a_driver 2 a_full_heap) ≡ some 4
unfolding allocate_descriptors find_free grow new_size next_power_of_2 allocate_resources
grows = refl

allocate_descriptors-Answers_example :
    Answers 2 a_full_heap (allocate_descriptors a_driver 2 a_full_heap)
allocate_descriptors-Answers_example =
    allocate_descriptors-Answers a_driver 2 a_full_heap (omega arith) (omega arith) (omega arith)
      (omega arith, omega arith)

abbrev a_life : List Step
a_life =
    Step.allocates 2 ∷ Step.allocates 1 ∷ Step.allocates 3 ∷ Step.releases 1 ∷ Step.allocates 1 ∷ []

abbrev a_world : World
a_world = record { heap = a_heap; live = [] }

no_mark : (i : ℕ) → get_or a_heap.allocated_descriptors i false ≡ false
no_mark zero = refl
no_mark (suc zero) = refl
no_mark (suc (suc zero)) = refl
no_mark (suc (suc (suc zero))) = refl
no_mark (suc (suc (suc (suc i)))) = refl

run-Agrees_example :
    OnSome
      (λ v. Agrees v × All (λ r. r.0 + r.1 ≤ v.heap.num_descriptors) v.live)
      (run a_driver a_life a_world)
    × (IsReliable a_driver → a_heap.heap ≢ none → run a_driver a_life a_world ≢ none)
unfolding AreProper step allocate_descriptors find_free grow new_size next_power_of_2
    allocate_resources mark pick release_descriptors resize
run-Agrees_example =
    run-Agrees a_driver a_life a_world
      (record {
        sized = (refl, omega arith);
        start = omega arith;
        unmarked = no_mark;
        uncounted = refl;
        nothing_live = refl;
      })
      (
        (omega arith, omega arith),
        (
          (omega arith, omega arith),
          ((omega arith, omega arith), (tt, ((omega arith, omega arith), tt))),
        ),
      )
