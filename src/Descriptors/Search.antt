-- ===== src/Descriptors/Search.antt =====
-- src/d3d12/d3d12-descriptor-heap.cpp: the search for free descriptors in a row.
use cutie_rhi.Base.{
  ℕ, zero, suc, ◌+◌, ◌-◌, ◌≤◌, ◌<◌, ◌≡◌, subst, arith, Bool, true, false, List, Option, none, some,
  leb, if◌then◌else◌, if_elim, get_or,
}
use native.Mathlib.Decide.{dec_lt}
use cutie_rhi.Descriptors.{find_free}

-- The descriptors from `low` up to `high` are in the heap and free.
abbrev pub Free : List Bool → ℕ → ℕ → Type 0
Free marks low high = (i : ℕ) → low ≤ i → i < high → get_or marks i true ≡ false

abbrev pub Finds : List Bool → ℕ → ℕ → Option ℕ → Type 0
Finds marks count end_index none = Unit
Finds marks count end_index (some base) =
    Free marks base (base + count) × (base + count ≤ end_index)

Free-none : (marks : List Bool) (low high : ℕ) → high ≤ low → Free marks low high
Free-none marks low high h i above below = absurd (omega arith)

Free-suc :
    (marks : List Bool) (low high : ℕ)
    → Free marks low high
    → get_or marks high true ≡ false
    → Free marks low (suc high)
Free-suc marks low high free here i above below = elim (dec_lt i high) [
  | yes less ↦ free i above less
  | no other ↦
      let same : high ≡ i = omega arith in subst (λ (j : ℕ). get_or marks j true ≡ false) same here
]

-- The counter of the loop after one more descriptor.
next_count : List Bool → ℕ → ℕ → ℕ
next_count marks index free_count = if get_or marks index true then 0 else free_count + 1

next_count-Free :
    (marks : List Bool) (count index free_count : ℕ)
    → free_count ≤ index
    → free_count < count
    → Free marks (index - free_count) index
    → let n = next_count marks index free_count in
      (n ≤ suc index) × (n ≤ count) × Free marks (suc index - n) (suc index)
unfolding next_count
next_count-Free marks count index free_count low small free =
    if_elim (λ n. (n ≤ suc index) × (n ≤ count) × Free marks (suc index - n) (suc index))
      (get_or marks index true) 0 (free_count + 1)
      (λ _. (omega arith, omega arith, Free-none marks (suc index - 0) (suc index) (omega arith)))
      (λ e. (
        omega arith,
        omega arith,
        subst (λ (l : ℕ). Free marks l (suc index)) (omega arith)
            (Free-suc marks (index - free_count) index free e),
      ))

pub find_free-Finds :
    (left : ℕ) (marks : List Bool) (count index free_count : ℕ)
    → free_count ≤ index
    → free_count < count
    → Free marks (index - free_count) index
    → Finds marks count (index + left) (find_free left marks count index free_count)
unfolding find_free next_count
find_free-Finds zero marks count index free_count low small free = tt
find_free-Finds (suc left) marks count index free_count low small free =
    let n = next_count marks index free_count in
    let next = next_count-Free marks count index free_count low small free in
    if_elim (Finds marks count (index + suc left)) (leb count n) (some (index + 1 - count))
      (find_free left marks count (suc index) n)
      (λ h.
        let same : n ≡ count = ground arith in
        (
          λ i above below. next.2 i (omega (arith, same)) (omega (arith, same, next.0)),
          omega arith,
        ))
      (λ h.
        subst (λ (e : ℕ). Finds marks count e (find_free left marks count (suc index) n))
          (omega arith)
          (find_free-Finds left marks count (suc index) n next.0 (ground arith) next.2))
