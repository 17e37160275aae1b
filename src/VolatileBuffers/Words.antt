-- ===== src/VolatileBuffers/Words.antt =====
-- src/vulkan/vulkan-buffer.cpp: which words of a volatile buffer can be claimed, by the recording or the
-- submission that wrote them.
use cutie_rhi.Base.{
  ℕ, ◌*◌, ◌^◌, ◌≤◌, ◌<◌, ◌≡◌, ◌≢◌, sym, ap, ◌∙◌, arith, true, false, List, leb, get_or, bit_or,
  bit_and,
}
use cutie_rhi.Base.Bits.{bit_or_comm, bit_and-low_ones}
use cutie_rhi.Versioning.{CommandQueue, queue_index, make_version, version_id_mask}
use cutie_rhi.Versioning.Laws.{
  queue_index-lt, make_version-eq, make_version_roundtrip, make_version-ne-zero,
}
use cutie_rhi.VolatileBuffers.{is_available, pending_info}

-- The word of a recording below 2^60 is a version word that is not submitted.
pub pending_info-eq :
    (queue : CommandQueue) (id : ℕ)
    → id < 2 ^ 60
    → pending_info queue id ≡ make_version id queue false
unfolding pending_info make_version
pending_info-eq queue id low =
    let whole : bit_and id version_id_mask ≡ id = omega (arith, bit_and-low_ones 60 id) in
    bit_or_comm (queue_index queue * 2 ^ 60) id
    ∙ ap (λ (n : ℕ). bit_or n (queue_index queue * 2 ^ 60)) (sym whole)

-- The word is neither one that a recording has claimed nor one of a submission that its queue has
-- not finished.
abbrev pub IsUnclaimed : List ℕ → ℕ → Type 0
IsUnclaimed completed word =
    ((queue : CommandQueue) (id : ℕ) → 0 < id → id < 2 ^ 60 → word ≢ pending_info queue id)
    × ((queue : CommandQueue) (id : ℕ)
        → id < 2 ^ 60
        → get_or completed (queue_index queue) 0 < id
        → word ≢ make_version id queue true)

-- The word is neither the unused one nor one of a submission that its queue has finished.
abbrev pub IsInUse : List ℕ → ℕ → Type 0
IsInUse completed word =
    (word ≢ 0)
    × ((queue : CommandQueue) (id : ℕ)
        → id < 2 ^ 60
        → id ≤ get_or completed (queue_index queue) 0
        → word ≢ make_version id queue true)

is_available-pending :
    (completed : List ℕ) (queue : CommandQueue) (id : ℕ)
    → 0 < id
    → id < 2 ^ 60
    → is_available completed (pending_info queue id) ≡ false
unfolding is_available
is_available-pending completed queue id positive low =
    let fields = make_version_roundtrip id queue false low in
    let other = make_version-ne-zero id queue false positive low in
    rw (pending_info-eq queue id low) (ground (arith, fields.2, other))

make_version-submitted-ne-zero : (id : ℕ) (queue : CommandQueue) → make_version id queue true ≢ 0
make_version-submitted-ne-zero id queue e = absurd (omega (arith, make_version-eq id queue true))

is_available-submitted :
    (completed : List ℕ) (queue : CommandQueue) (id : ℕ)
    → id < 2 ^ 60
    → is_available completed (make_version id queue true)
      ≡ leb id (get_or completed (queue_index queue) 0)
unfolding is_available
is_available-submitted completed queue id low =
    let fields = make_version_roundtrip id queue true low in
    let bound = queue_index-lt queue in
    let other : make_version id queue true ≢ 0 = make_version-submitted-ne-zero id queue in
    rw (fields.0, fields.1, fields.2) (ground (arith, bound, other))

pub available-IsUnclaimed :
    (completed : List ℕ) (word : ℕ)
    → is_available completed word ≡ true
    → IsUnclaimed completed word
available-IsUnclaimed completed word h = (
  (λ queue id positive low e.
      let taken = is_available-pending completed queue id positive low in
      ground (arith, ap (is_available completed) e)),
  (λ queue id low later e.
      let shown = is_available-submitted completed queue id low in
      ground (arith, ap (is_available completed) e)),
)

pub unavailable-IsInUse :
    (completed : List ℕ) (word : ℕ) → is_available completed word ≡ false → IsInUse completed word
unfolding is_available
unavailable-IsInUse completed word h = (
  (λ e. ground arith),
  (λ queue id low done e.
      let shown = is_available-submitted completed queue id low in
      ground (arith, ap (is_available completed) e)),
)
