-- ===== src/VolatileBuffers/Search.antt =====
-- src/vulkan/vulkan-buffer.cpp: the search for a version finds one whenever there is one.
use cutie_rhi.Base.{
  ℕ, zero, suc, ◌+◌, ◌-◌, ◌%◌, ◌<◌, ◌≡◌, refl, subst, arith, true, false, List, Option, none, some,
  if_elim, get_or,
}
use native.Mathlib.Decide.{dec_lt}
use cutie_rhi.Resources.{u32}
use cutie_rhi.VolatileBuffers.{is_available, wrapped_version, search_versions}

-- The version that is found is one of the buffer, and the word that was seen is available.
abbrev pub Found : ℕ → List ℕ → List ℕ → Option (ℕ × ℕ) → Type 0
Found max_versions completed words none =
    (version : ℕ) → version < max_versions → is_available completed (get_or words version 0) ≡ false
Found max_versions completed words (some (version, word)) =
    (version < max_versions)
    × (word ≡ get_or words version 0)
    × (is_available completed word ≡ true)

module _ (max_versions start : ℕ) (completed words : List ℕ) (inside : start < max_versions)
    (few : max_versions < 0x80000000) where
  -- None of the versions that the search has passed is available.
  Passed : ℕ → Type 0
  Passed index =
      (i : ℕ)
      → i < index
      → is_available completed (get_or words (wrapped_version ((i + start) % u32) max_versions) 0)
        ≡ false

  -- Every version is passed by a search of all of them.
  Passed-all :
      Passed max_versions
      → (version : ℕ) → version < max_versions
      → is_available completed (get_or words version 0) ≡ false
  unfolding Passed
  Passed-all passed version low = elim (dec_lt version start) [
    | yes before ↦
        subst (λ (v : ℕ). is_available completed (get_or words v 0) ≡ false) (ground arith)
          (passed (version + max_versions - start) (omega arith))
    | no after ↦
        subst (λ (v : ℕ). is_available completed (get_or words v 0) ≡ false) (ground arith)
          (passed (version - start) (omega arith))
  ]

  search-Found :
      (left index : ℕ)
      → index + left ≡ max_versions
      → Passed index
      → Found max_versions completed words
          (search_versions left index start max_versions completed words)
  unfolding search_versions Passed
  search-Found zero index whole passed = Passed-all (subst Passed (omega arith) passed)
  search-Found (suc left) index whole passed =
      let version = wrapped_version ((index + start) % u32) max_versions in
      let rest = search_versions left (suc index) start max_versions completed words in
      if_elim (Found max_versions completed words) (is_available completed (get_or words version 0))
        (some (version, get_or words version 0)) rest (λ h. (ground arith, refl, h))
        (λ h. search-Found left (suc index) (omega arith) (λ i low. elim (dec_lt i index) [
          | yes less ↦ passed i less
          | no other ↦
              let same : index ≡ i = omega arith in
              subst
                (λ (j : ℕ).
                  is_available completed
                    (get_or words (wrapped_version ((j + start) % u32) max_versions) 0)
                  ≡ false)
                same h
        ]))

-- The search, which starts anywhere in the buffer and wraps around, finds an available version when
-- there is one, with the word that it saw there, and reports none only when no version of the
-- buffer is available.
pub search_versions-Found :
    (max_versions start : ℕ) (completed words : List ℕ)
    → start < max_versions
    → max_versions < 0x80000000
    → Found max_versions completed words
        (search_versions max_versions 0 start max_versions completed words)
unfolding Passed
search_versions-Found max_versions start completed words inside few =
    search-Found max_versions start completed words inside few max_versions 0 (omega arith)
      (λ i low. absurd (omega arith))
