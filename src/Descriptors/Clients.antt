-- ===== src/Descriptors/Clients.antt =====
-- src/d3d12/d3d12-descriptor-heap.cpp: the clients of a heap, who allocate and release ranges
-- in any order.
use cutie_rhi.Base.{
  ℕ, zero, suc, ◌+◌, ◌%◌, ◌≤◌, ◌<◌, ◌≡◌, Bool, false, List, [], ◌∷◌, Option, none, some,
  if◌then◌else◌, get_or, ◌≢◌, OnSome,
}
use cutie_rhi.Resources.{u32}
use cutie_rhi.Descriptors.{
  Driver, HeapType, DescriptorHeap, allocate_descriptors, release_descriptors,
}
use cutie_rhi.Descriptors.Marks.{is_within}
use cutie_rhi.Descriptors.Allocation.{IsSized}

-- The ranges that were allocated and not released, each with its first descriptor and its length.
pub record World : Type 0 where
  pub heap : DescriptorHeap
  pub live : List (ℕ × ℕ)

pub data Step : Type 0 where
  allocates releases : ℕ → Step

abbrev pub hold : Option ℕ → ℕ → List (ℕ × ℕ) → List (ℕ × ℕ)
hold none count live = live
hold (some base) count live = (base, count) ∷ live

-- The range that a client gives back, and the others; a number that names none gives none.
unfoldable pub pick : ℕ → List (ℕ × ℕ) → Option (ℕ × ℕ) × List (ℕ × ℕ)
pick k [] = (none, [])
pick zero (r ∷ live) = (some r, live)
pick (suc k) (r ∷ live) = let rest = pick k live in (rest.0, r ∷ rest.1)

abbrev pub give_back : Option (ℕ × ℕ) → DescriptorHeap → DescriptorHeap
give_back none h = h
give_back (some r) h = release_descriptors r.0 r.1 h

-- What a client does with the outcome of an allocation.
abbrev pub take_outcome : ℕ → List (ℕ × ℕ) → Option (Option ℕ × DescriptorHeap) → Option World
take_outcome count live none = none
take_outcome count live (some (r, h)) = some (record { heap = h; live = hold r count live })

-- There is no result after the call of a null pointer.
unfoldable pub step : Driver → Step → World → Option World
step d (Step.allocates count) w = take_outcome count w.live (allocate_descriptors d count w.heap)
step d (Step.releases k) w =
    let r = pick k w.live in some (record { heap = give_back r.0 w.heap; live = r.1 })

abbrev pub and_then : Option World → (World → Option World) → Option World
and_then none f = none
and_then (some w) f = f w

unfoldable pub run : Driver → List Step → World → Option World
run d [] w = some w
run d (s ∷ ss) w = and_then (step d s w) (run d ss)

-- A request is for at least one descriptor, and keeps the heap below 2^31.
abbrev pub IsProper : Step → World → Type 0
IsProper (Step.allocates count) w = (0 < count) × (w.heap.num_descriptors + count ≤ 0x80000000)
IsProper (Step.releases k) w = Unit

unfoldable pub AreProper : Driver → List Step → World → Type 0
AreProper d [] w = Unit
AreProper d (s ∷ ss) w = IsProper s w × OnSome (AreProper d ss) (step d s w)

abbrev pub one_if : Bool → ℕ
one_if b = if b then 1 else 0

-- How many of the ranges hold a descriptor, and how many descriptors they hold together.
unfoldable pub holders : ℕ → List (ℕ × ℕ) → ℕ
holders i [] = 0
holders i (r ∷ live) = one_if (is_within r.0 r.1 i) + holders i live

unfoldable pub total : List (ℕ × ℕ) → ℕ
total [] = 0
total (r ∷ live) = r.1 + total live

-- A descriptor is marked when one range holds it, and never held by two; the count counts the
-- descriptors of all ranges.
abbrev pub Agrees : World → Type 0
Agrees w =
    ((i : ℕ) → holders i w.live ≡ one_if (get_or w.heap.allocated_descriptors i false))
    × (w.heap.num_allocated_descriptors ≡ total w.live % u32)

-- A driver that always creates the heap it is asked for.
abbrev pub IsReliable : Driver → Type 0
IsReliable d =
    (type : HeapType) (n : ℕ) (visible : Bool) → d.create_descriptor_heap type n visible ≢ none

-- A heap in which nothing is allocated.
pub record IsNew (w : World) : Type 0 where
  pub sized : IsSized w.heap
  pub start : w.heap.search_start ≤ w.heap.num_descriptors
  pub unmarked : (i : ℕ) → get_or w.heap.allocated_descriptors i false ≡ false
  pub uncounted : w.heap.num_allocated_descriptors ≡ 0
  pub nothing_live : w.live ≡ []
