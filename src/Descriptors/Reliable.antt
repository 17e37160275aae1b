-- ===== src/Descriptors/Reliable.antt =====
-- src/d3d12/d3d12-descriptor-heap.cpp: a heap whose driver creates what it is asked for.
use cutie_rhi.Base.{
  ℕ, ◌+◌, ◌%◌, ◌≢◌, refl, arith, Bool, true, false, ◌&&◌, Option, none, some, ltb, List, [], ◌∷◌,
  ◌==◌, if_elim,
}
use cutie_rhi.Resources.{u32}
use cutie_rhi.Descriptors.{
  HeapType, Driver, DescriptorHeap, is_some, with_shader_visible, with_heap, allocate_resources,
  new_size, copy_from, grow, use_grown, use_range, allocate_descriptors, release_descriptors,
}
use cutie_rhi.Descriptors.Clients.{
  World, Step, pick, give_back, take_outcome, and_then, step, run, IsReliable,
}

-- There is a result, and the heap is there afterwards.
abbrev Keeps {ℓ} : {A : Type ℓ} → Option (A × DescriptorHeap) → Type 0
Keeps none = ⊥
Keeps (some r) = r.1.heap ≢ none

with_shader_visible-heap :
    (d : Driver) (type : HeapType) (n handle : ℕ) (visible : Option ℕ) (h : DescriptorHeap)
    → h.heap ≢ none
    → (with_shader_visible d type n handle visible h).1.heap ≢ none
with_shader_visible-heap d type n handle none h kept = kept
with_shader_visible-heap d type n handle (some v) h kept = kept

with_heap-heap :
    (d : Driver) (type : HeapType) (n : ℕ) (visible : Bool) (made : Option ℕ) (h : DescriptorHeap)
    → made ≢ none
    → (with_heap d type n visible made h).1.heap ≢ none
with_heap-heap d type n visible none h made = absurd (made refl)
with_heap-heap d type n true (some handle) h made =
    with_shader_visible-heap d type n handle (d.create_descriptor_heap type n true)
      (record h { heap = some handle }) (λ e. ground arith)
with_heap-heap d type n false (some handle) h made = λ e. ground arith

copy_from-Keeps :
    (d : Driver) (old : Option ℕ) (n : ℕ) (h : DescriptorHeap)
    → old ≢ none
    → h.heap ≢ none
    → Keeps (copy_from d old n h)
copy_from-Keeps d none n h here kept = here refl
copy_from-Keeps d (some handle) n h here kept = kept

grow-Keeps :
    (d : Driver) (required : ℕ) (h : DescriptorHeap)
    → IsReliable d
    → h.heap ≢ none
    → Keeps (grow d required h)
unfolding grow allocate_resources
grow-Keeps d required h reliable here =
    let size = new_size d required h in
    let visible = is_some h.shader_visible_heap in
    let made = allocate_resources d h.heap_type size visible h in
    let kept : made.1.heap ≢ none =
      with_heap-heap d h.heap_type size visible (d.create_descriptor_heap h.heap_type size false)
        (record h { heap = none; shader_visible_heap = none }) (reliable h.heap_type size false) in
    if_elim Keeps (visible && ltb size required) (some (false, h)) _ (λ _. here)
      (λ _.
        if_elim Keeps made.0 (copy_from d h.heap h.num_descriptors made.1) (some made)
          (λ _. copy_from-Keeps d h.heap h.num_descriptors made.1 here kept) (λ _. kept))

use_grown-Keeps :
    (base count : ℕ) (o : Option (Bool × DescriptorHeap)) → Keeps o → Keeps (use_grown base count o)
use_grown-Keeps base count none k = k
use_grown-Keeps base count (some (false, h)) k = k
use_grown-Keeps base count (some (true, h)) k = k

use_range-Keeps :
    (d : Driver) (count : ℕ) (o : Option ℕ) (h : DescriptorHeap)
    → IsReliable d
    → h.heap ≢ none
    → Keeps (use_range d count o h)
use_range-Keeps d count none h reliable here =
    use_grown-Keeps h.num_descriptors count _
      (grow-Keeps d ((h.num_descriptors + count) % u32) h reliable here)
use_range-Keeps d count (some base) h reliable here = here

-- A call gives a result, and the heap stays.
allocate_descriptors-Keeps :
    (d : Driver) (count : ℕ) (h : DescriptorHeap)
    → IsReliable d
    → h.heap ≢ none
    → Keeps (allocate_descriptors d count h)
unfolding allocate_descriptors
allocate_descriptors-Keeps d count h reliable here = use_range-Keeps d count _ h reliable here

-- There is a result, and its heap is there.
abbrev Lives : Option World → Type 0
Lives none = ⊥
Lives (some w) = w.heap.heap ≢ none

take_outcome-Lives :
    (count : ℕ) (live : List (ℕ × ℕ)) (o : Option (Option ℕ × DescriptorHeap))
    → Keeps o
    → Lives (take_outcome count live o)
take_outcome-Lives count live none k = k
take_outcome-Lives count live (some r) k = k

give_back-heap :
    (o : Option (ℕ × ℕ)) (h : DescriptorHeap) → h.heap ≢ none → (give_back o h).heap ≢ none
unfolding release_descriptors
give_back-heap none h here = here
give_back-heap (some (base, count)) h here =
    if_elim (λ (h' : DescriptorHeap). h'.heap ≢ none) (count == 0) h _ (λ _. here) (λ _. here)

step-Lives :
    (d : Driver) (s : Step) (w : World) → IsReliable d → w.heap.heap ≢ none → Lives (step d s w)
unfolding step
step-Lives d (Step.allocates count) w reliable here =
    take_outcome-Lives count w.live (allocate_descriptors d count w.heap)
      (allocate_descriptors-Keeps d count w.heap reliable here)
step-Lives d (Step.releases k) w reliable here = give_back-heap (pick k w.live).0 w.heap here

and_then-Lives :
    (o : Option World) (f : World → Option World)
    → Lives o
    → ((v : World) → v.heap.heap ≢ none → Lives (f v))
    → Lives (and_then o f)
and_then-Lives none f l next = l
and_then-Lives (some v) f l next = next v l

run-Lives :
    (d : Driver) (ss : List Step) (w : World)
    → IsReliable d
    → w.heap.heap ≢ none
    → Lives (run d ss w)
unfolding run
run-Lives d [] w reliable here = here
run-Lives d (s ∷ ss) w reliable here =
    and_then-Lives (step d s w) (run d ss) (step-Lives d s w reliable here)
      (λ v. run-Lives d ss v reliable)

Lives-some : (o : Option World) → Lives o → o ≢ none
Lives-some none l e = l
Lives-some (some w) l e = ground arith

-- No step calls a null pointer.
pub run-returns :
    (d : Driver) (ss : List Step) (w : World)
    → IsReliable d
    → w.heap.heap ≢ none
    → run d ss w ≢ none
run-returns d ss w reliable here = Lives-some (run d ss w) (run-Lives d ss w reliable here)
