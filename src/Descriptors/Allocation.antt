-- ===== src/Descriptors/Allocation.antt =====
-- src/d3d12/d3d12-descriptor-heap.cpp: what `allocateDescriptors` does on each of its ways.
use cutie_rhi.Base.{
  ℕ, zero, suc, ◌+◌, ◌-◌, ◌%◌, ◌≤◌, ◌<◌, ◌≡◌, refl, ap, ◌∙◌, subst, arith, Bool, true, false, List,
  [], ◌∷◌, Option, none, some, if◌then◌else◌, length, get_or, resize, length-resize, get_or-resize,
}
use cutie_rhi.Resources.{u32}
use cutie_rhi.Descriptors.{
  Driver, DescriptorHeap, grow, find_free, use_grown, use_range, allocate_descriptors,
}
use cutie_rhi.Descriptors.Marks.{is_within, length-mark, get_or-mark}
use cutie_rhi.Descriptors.Search.{Finds, find_free-Finds}
use cutie_rhi.Descriptors.Growth.{Same, Grown, grow-Grown}

-- A result of `allocateDescriptors`: a range that was free, and the marks that are set; or a
-- refusal, which sets none.
abbrev pub Allocates : ℕ → DescriptorHeap → Option ℕ × DescriptorHeap → Type 0
Allocates count h (none, h') = Same h h'
Allocates count h (some base, h') =
    ((i : ℕ) → base ≤ i → i < base + count → get_or h.allocated_descriptors i false ≡ false)
    × ((i : ℕ)
        → get_or h'.allocated_descriptors i false
          ≡ (if is_within base count i then true else get_or h.allocated_descriptors i false))
    × (base + count ≤ h'.num_descriptors)
    × (length h'.allocated_descriptors ≡ h'.num_descriptors)
    × (h'.num_descriptors ≤ 0x80000000)
    × (h'.num_allocated_descriptors ≡ (h.num_allocated_descriptors + count) % u32)
    × (h'.search_start ≤ h'.num_descriptors)
    × (h.num_descriptors ≤ h'.num_descriptors)

-- The outcome: a result, or, when the heap has been lost, the call of a null pointer.
abbrev pub Answers : ℕ → DescriptorHeap → Option (Option ℕ × DescriptorHeap) → Type 0
Answers count h none = h.heap ≡ none
Answers count h (some r) = Allocates count h r

-- A heap of at most 2^31 descriptors, each with a mark.
abbrev pub IsSized : DescriptorHeap → Type 0
IsSized h = (length h.allocated_descriptors ≡ h.num_descriptors) × (h.num_descriptors ≤ 0x80000000)

-- Beyond the end a mark reads as the default.
get_or-inside :
    (marks : List Bool) (i : ℕ) → get_or marks i true ≡ false → get_or marks i false ≡ false
get_or-inside [] i e = refl
get_or-inside (x ∷ marks) zero e = e
get_or-inside (x ∷ marks) (suc i) e = get_or-inside marks i e

get_or-beyond : (marks : List Bool) (i : ℕ) → length marks ≤ i → get_or marks i false ≡ false
get_or-beyond [] i h = refl
get_or-beyond (x ∷ marks) zero h = absurd (omega arith)
get_or-beyond (x ∷ marks) (suc i) h = get_or-beyond marks i (omega arith)

use_grown-Answers :
    (count : ℕ) (h : DescriptorHeap) (r : Option (Bool × DescriptorHeap))
    → IsSized h
    → Grown (h.num_descriptors + count) h r
    → Answers count h (use_grown h.num_descriptors count r)
use_grown-Answers count h none sized lost = lost
use_grown-Answers count h (some (false, h')) sized same = same
use_grown-Answers count h (some (true, h')) sized (n, enough, low, (marks, size, counted)) =
    let base = h.num_descriptors in
    let old = h.allocated_descriptors in
    let long : length (resize n false old) ≡ n = length-resize n false old in
    let room : base + count ≤ length h'.allocated_descriptors =
      omega (arith, enough, long, ap length marks) in
    (
      (λ i above below. get_or-beyond old i (omega (arith, sized.0))),
      (λ i.
          get_or-mark base count true h'.allocated_descriptors i false room
          ∙ ap (λ t. if is_within base count i then true else t)
              (ap (λ m. get_or m i false) marks
                ∙ get_or-resize n false old i (omega (arith, sized.0)))),
      omega (arith, size),
      omega (
        arith,
        length-mark base count true h'.allocated_descriptors,
        long,
        ap length marks,
        size,
      ),
      omega (arith, size),
      omega (arith, counted),
      omega (arith, size),
      omega (arith, size),
    )

use_found-Answers :
    (d : Driver) (count base : ℕ) (h : DescriptorHeap)
    → IsSized h
    → Finds h.allocated_descriptors count h.num_descriptors (some base)
    → Answers count h (use_range d count (some base) h)
use_found-Answers d count base h sized (free, low) = (
  (λ i above below. get_or-inside h.allocated_descriptors i (free i above below)),
  (λ i. get_or-mark base count true h.allocated_descriptors i false (omega (arith, sized.0))),
  low,
  length-mark base count true h.allocated_descriptors ∙ sized.0,
  sized.1,
  refl,
  low,
  omega arith,
)

use_range-Answers :
    (d : Driver) (count : ℕ) (found : Option ℕ) (h : DescriptorHeap)
    → 0 < count
    → h.num_descriptors + count ≤ 0x80000000
    → IsSized h
    → Finds h.allocated_descriptors count h.num_descriptors found
    → Answers count h (use_range d count found h)
use_range-Answers d count (some base) h positive low sized f =
    use_found-Answers d count base h sized f
use_range-Answers d count none h positive low sized f =
    let whole : (h.num_descriptors + count) % u32 ≡ h.num_descriptors + count = omega arith in
    use_grown-Answers count h (grow d ((h.num_descriptors + count) % u32) h) sized (
      subst (λ (n : ℕ). Grown n h (grow d ((h.num_descriptors + count) % u32) h)) whole
        (grow-Grown d ((h.num_descriptors + count) % u32) h (omega (arith, whole))
          (omega (arith, whole))))

-- In a heap with a mark per descriptor, whose search starts inside it, a call that asks for at
-- least one descriptor and stays below 2^31 in all either returns a range of descriptors that
-- were all free, which it marks and counts and nothing else, all of them inside the heap after
-- it has grown when it had to; or it fails, and no mark and no count is changed; or, when the heap
-- is null, it calls a method of a null pointer.
pub allocate_descriptors-Answers :
    (d : Driver) (count : ℕ) (h : DescriptorHeap)
    → 0 < count
    → h.num_descriptors + count ≤ 0x80000000
    → h.search_start ≤ h.num_descriptors
    → IsSized h
    → Answers count h (allocate_descriptors d count h)
unfolding allocate_descriptors
allocate_descriptors-Answers d count h positive low start sized =
    let left : ℕ = h.num_descriptors - h.search_start in
    let marks = h.allocated_descriptors in
    let found = find_free left marks count h.search_start 0 in
    let f =
      find_free-Finds left marks count h.search_start 0 (omega arith) positive
        (λ i above below. absurd (omega arith)) in
    use_range-Answers d count found h positive low sized
      (subst (λ (e : ℕ). Finds marks count e found) (omega arith) f)
