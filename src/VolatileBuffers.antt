-- ===== src/VolatileBuffers.antt =====
-- src/vulkan/vulkan-buffer.cpp, with the data of src/vulkan/vulkan-backend.h: the versions of a
-- volatile buffer, which command lists of several threads claim, flush and submit.
pub mod Words
pub mod Search
pub mod Claims
pub mod Ranges
pub mod Lifecycle
pub mod Submission
use cutie_rhi.Base.{
  ℕ, zero, suc, ◌+◌, ◌-◌, ◌*◌, ◌/◌, ◌%◌, ◌^◌, min, max, bit_and, bit_or, Bool, true, false, not,
  ◌&&◌, ◌||◌, List, [], ◌∷◌, Option, none, some, ltb, leb, ◌==◌, if◌then◌else◌, get_or, set,
}
use cutie_rhi.Resources.{u32, u64}
use cutie_rhi.Versioning.{
  CommandQueue, queue_index, queue_count, version_submitted_flag, version_queue_shift,
  version_id_mask, version_get_instance, version_get_queue, version_get_submitted,
}

-- The fields of `Buffer` that the versions use; `tracking` has one word per version.
pub record VolatileBuffer : Type 0 where
  pub byte_size : ℕ
  pub max_versions : ℕ
  pub version_search_start : ℕ
  pub tracking : List ℕ

-- `VolatileBufferState`, which a command list keeps per buffer; `none` is the version -1.
pub record VolatileBufferState : Type 0 where
  pub latest_version : ℕ
  pub min_version : ℕ
  pub max_version : Option ℕ
  pub initialized : Bool

-- A version that nothing uses: unused, or submitted and complete on its queue, `completed` being the
-- last finished submissions of the queues. A word with an invalid queue counts as complete.
unfoldable pub is_available : List ℕ → ℕ → Bool
is_available completed word =
    (word == 0)
    || (version_get_submitted word
        && (leb queue_count (version_get_queue word)
            || leb (version_get_instance word) (get_or completed (version_get_queue word) 0)))

abbrev pub wrapped_version : ℕ → ℕ → ℕ
wrapped_version version max_versions =
    if leb max_versions version then version - max_versions else version

-- The search through the versions, from `index` on; `left` versions are still to be looked at. It
-- gives the version and the word that it saw.
unfoldable pub search_versions : ℕ → ℕ → ℕ → ℕ → List ℕ → List ℕ → Option (ℕ × ℕ)
search_versions zero index start max_versions completed words = none
search_versions (suc left) index start max_versions completed words =
    let version = wrapped_version ((index + start) % u32) max_versions in
    let rest = search_versions left (suc index) start max_versions completed words in
    if is_available completed (get_or words version 0)
    then some (version, get_or words version 0)
    else rest

-- The word of a version that a recording has claimed.
unfoldable pub pending_info : CommandQueue → ℕ → ℕ
pending_info queue recording_id = bit_or (queue_index queue * 2 ^ version_queue_shift) recording_id

-- One round of the loop: what its reads saw, the words at the moment of its exchange, and whether the
-- exchange, which is a weak one, fails without a reason.
pub record Attempt : Type 0 where
  pub seen : List ℕ
  pub present : List ℕ
  pub spurious : Bool

pub data Claim : Type 0 where
  insufficient unfinished : Claim
  claimed : ℕ → List ℕ → Claim

abbrev pub exchange : ℕ → Attempt → Claim → Option (ℕ × ℕ) → Claim
exchange word a again none = Claim.insufficient
exchange word a again (some (version, original)) =
    if (get_or a.present version 0 == original) && not a.spurious
    then Claim.claimed version (set a.present version word)
    else again

-- The loop that claims a version; `unfinished` when all the given rounds lost their exchange.
unfoldable pub claim_version : List Attempt → List ℕ → ℕ → VolatileBuffer → Claim
claim_version [] completed word b = Claim.unfinished
claim_version (a ∷ attempts) completed word b =
    exchange word a (claim_version attempts completed word b)
      (search_versions b.max_versions 0 b.version_search_start b.max_versions completed a.seen)

unfoldable pub initialize_state : VolatileBuffer → VolatileBufferState → VolatileBufferState
initialize_state b s =
    if s.initialized
    then s
    else record s { min_version = b.max_versions; max_version = none; initialized = true }

abbrev pub later_version : ℕ → Option ℕ → ℕ
later_version version none = version
later_version version (some high) = max version high

abbrev pub record_claim :
    VolatileBuffer → VolatileBufferState → Claim → Option ℕ × VolatileBuffer × VolatileBufferState
record_claim b s Claim.insufficient = (none, b, s)
record_claim b s Claim.unfinished = (none, b, s)
record_claim b s (Claim.claimed version words) = (
  some version,
  record b {
    version_search_start = if ltb (version + 1) b.max_versions then version + 1 else 0;
    tracking = words;
  },
  record s {
    latest_version = version;
    min_version = min version s.min_version;
    max_version = some (later_version version s.max_version);
  },
)

-- `writeVolatileBuffer`, the copy into the mapped memory of the version aside.
unfoldable pub write_volatile_buffer :
    List Attempt
    → List ℕ
    → CommandQueue
    → ℕ
    → VolatileBuffer
    → VolatileBufferState
    → Option ℕ × VolatileBuffer × VolatileBufferState
write_volatile_buffer attempts completed queue recording_id b s =
    record_claim b (initialize_state b s)
      (claim_version attempts completed (pending_info queue recording_id) b)

-- The offset and the size of the memory that is flushed for one buffer.
abbrev pub flush_from : VolatileBuffer → ℕ → Option ℕ → Option (ℕ × ℕ)
flush_from b low none = none
flush_from b low (some high) =
    if ltb high low
    then none
    else some (low * b.byte_size % u64, (high + 1 - low) * b.byte_size % u64)

unfoldable pub flush_range : VolatileBuffer → VolatileBufferState → Option (ℕ × ℕ)
flush_range b s = if s.initialized then flush_from b s.min_version s.max_version else none

-- The loop over the versions of a command list, each with one strong exchange.
unfoldable pub replace_words : ℕ → ℕ → ℕ → ℕ → List ℕ → List ℕ
replace_words zero version find replace words = words
replace_words (suc left) version find replace words =
    replace_words left (suc version) find replace
      (if get_or words version 0 == find then set words version replace else words)

abbrev pub replace_range : ℕ → Option ℕ → ℕ → ℕ → List ℕ → List ℕ
replace_range low none find replace words = words
replace_range low (some high) find replace words =
    replace_words (high + 1 - low) low find replace words

abbrev pub state_to_find : CommandQueue → ℕ → ℕ
state_to_find queue id =
    bit_or (queue_index queue * 2 ^ version_queue_shift) (bit_and id version_id_mask)

unfoldable pub submit_volatile_buffer :
    CommandQueue → ℕ → ℕ → VolatileBuffer → VolatileBufferState → VolatileBuffer
submit_volatile_buffer queue recording_id submitted_id b s =
    if s.initialized
    then record b {
      tracking =
          replace_range s.min_version s.max_version (state_to_find queue recording_id)
            (bit_or (state_to_find queue submitted_id) version_submitted_flag) b.tracking;
    }
    else b
