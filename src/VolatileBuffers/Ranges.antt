-- ===== src/VolatileBuffers/Ranges.antt =====
-- src/vulkan/vulkan-buffer.cpp: the range of versions that a command list keeps, which it flushes and
-- submits.
use cutie_rhi.Base.{
  ℕ, zero, suc, ◌+◌, ◌-◌, ◌≤◌, ◌<◌, ◌≡◌, refl, arith, List, Option, none, some, ltb, ◌==◌,
  if◌then◌else◌, if_elim, length, length-set, get_or, set, get_or-set, OnSome,
}
use native.Mathlib.Decide.{ℕ_discrete}
use cutie_rhi.VolatileBuffers.{replace_words, replace_range}

-- The version lies in the range of the command list.
abbrev pub InRange : ℕ → Option ℕ → ℕ → Type 0
InRange low none version = ⊥
InRange low (some high) version = (low ≤ version) × (version ≤ high)

-- A replacement writes the words of the range that are equal to the one it looks for.
unfoldable pub replaced : ℕ → ℕ → ℕ → ℕ
replaced find replace word = if word == find then replace else word

replace_one : ℕ → ℕ → ℕ → List ℕ → List ℕ
replace_one version find replace words =
    if get_or words version 0 == find then set words version replace else words

replace_one-at :
    (version find replace : ℕ) (words : List ℕ) (i : ℕ)
    → version < length words
    → (length (replace_one version find replace words) ≡ length words)
      × (get_or (replace_one version find replace words) i 0
          ≡ (if version == i then replaced find replace (get_or words i 0) else get_or words i 0))
unfolding replace_one replaced
replace_one-at version find replace words i low =
    if_elim
      (λ r.
        (length r ≡ length words)
        × (get_or r i 0 ≡ (
            if version == i then replaced find replace (get_or words i 0) else get_or words i 0)))
      (get_or words version 0 == find) (set words version replace) words
      (λ h. (
        length-set words version replace,
        ground (arith, get_or-set words version i replace 0 low),
      ))
      (λ h. (refl, ground arith))

replace_words-at :
    (left version find replace : ℕ) (words : List ℕ) (i : ℕ)
    → version + left ≤ length words
    → get_or (replace_words left version find replace words) i 0 ≡ (
        if ltb i version
        then get_or words i 0
        else if ltb i (version + left)
        then replaced find replace (get_or words i 0)
        else get_or words i 0)
unfolding replace_words replace_one
replace_words-at zero version find replace words i low = ground arith
replace_words-at (suc left) version find replace words i low =
    let one = replace_one-at version find replace words i (omega arith) in
    let rest =
      replace_words-at left (suc version) find replace (replace_one version find replace words) i
        (omega (arith, one.0)) in
    ground (arith, rest, one.1)

-- The loop over a range that has all the words it looks for replaces each of them in the buffer.
pub replace_range-all :
    (low : ℕ) (high : Option ℕ) (find replace : ℕ) (words : List ℕ) (i : ℕ)
    → OnSome (λ h. (h < length words) × (low ≤ suc h)) high
    → (get_or words i 0 ≡ find → InRange low high i)
    → get_or (replace_range low high find replace words) i 0
      ≡ replaced find replace (get_or words i 0)
unfolding replaced
replace_range-all low none find replace words i inside covered = ground (arith, covered)
replace_range-all low (some high) find replace words i inside covered =
    let at_i = replace_words-at (high + 1 - low) low find replace words i (omega (arith, inside)) in
    elim (ℕ_discrete (get_or words i 0) find) [
      | yes same ↦ ground (arith, at_i, covered same)
      | no other ↦ ground (arith, at_i)
    ]
