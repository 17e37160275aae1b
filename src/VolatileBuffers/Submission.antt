-- ===== src/VolatileBuffers/Submission.antt =====
-- src/vulkan/vulkan-buffer.cpp: what is flushed and submitted after the writes of one recording.
use cutie_rhi.Base.{
  ℕ, ◌+◌, ◌-◌, ◌*◌, ◌^◌, ◌≤◌, ◌<◌, ◌≡◌, ◌≢◌, refl, sym, ap, ◌∙◌, arith, true, false, List, Option,
  none, some, ltb, ◌==◌, if◌then◌else◌, if_elim, length, get_or, OnSome, OnSome-zip, bit_or,
  bit_and,
}
use native.Mathlib.Nat.{add-mul, mul-le-mul_right}
use cutie_rhi.Base.Bits.{bit_or_comm}
use cutie_rhi.Resources.{u64}
use cutie_rhi.Versioning.{
  CommandQueue, queue_index, make_version, version_id_mask, version_submitted_flag,
}
use cutie_rhi.VolatileBuffers.{
  VolatileBuffer, VolatileBufferState, Attempt, pending_info, state_to_find, initialize_state,
  flush_range, flush_from, submit_volatile_buffer,
}
use cutie_rhi.VolatileBuffers.Words.{pending_info-eq}
use cutie_rhi.VolatileBuffers.Ranges.{InRange, replaced, replace_range-all}
use cutie_rhi.VolatileBuffers.Lifecycle.{
  IsRanged, run_writes, AreFaithful, run_writes-IsRanged, run_writes-sizes,
}

state_to_find-eq :
    (queue : CommandQueue) (id : ℕ) → state_to_find queue id ≡ make_version id queue false
unfolding make_version
state_to_find-eq queue id = bit_or_comm (queue_index queue * 2 ^ 60) (bit_and id version_id_mask)

submitted_info-eq :
    (queue : CommandQueue) (id : ℕ)
    → bit_or (state_to_find queue id) version_submitted_flag ≡ make_version id queue true
unfolding make_version
submitted_info-eq queue id =
    ap (λ (n : ℕ). bit_or n version_submitted_flag)
      (bit_or_comm (queue_index queue * 2 ^ 60) (bit_and id version_id_mask))

-- The tracking after a submission from a state whose range is kept.
submit-at :
    (queue : CommandQueue) (id submitted_id : ℕ) (b : VolatileBuffer) (s : VolatileBufferState)
    (v : ℕ)
    → id < 2 ^ 60
    → IsRanged (pending_info queue id) b s
    → get_or (submit_volatile_buffer queue id submitted_id b s).tracking v 0
      ≡ replaced
          (make_version id queue false)
          (make_version submitted_id queue true)
          (get_or b.tracking v 0)
unfolding submit_volatile_buffer
submit-at queue id submitted_id b s v low g =
    let find = state_to_find queue id in
    let replace = bit_or (state_to_find queue submitted_id) version_submitted_flag in
    let same : find ≡ pending_info queue id =
      state_to_find-eq queue id ∙ sym (pending_info-eq queue id low) in
    let all =
      replace_range-all s.min_version s.max_version find replace b.tracking v
        (OnSome-zip s.max_version (λ h p _. (p.0, omega (arith, p.1))) g.inside g.inside)
        (λ e. g.covered v (e ∙ same)) in
    rw (g.ready, sym (state_to_find-eq queue id), sym (submitted_info-eq queue submitted_id)) all

-- A buffer at the first write of a recording: it has no word of the recording yet.
pub record IsFresh (queue : CommandQueue) (id : ℕ) (b : VolatileBuffer) (s : VolatileBufferState)
    : Type 0 where
  pub unused : s.initialized ≡ false
  pub sized : length b.tracking ≡ b.max_versions
  pub start : b.version_search_start < b.max_versions
  pub few : b.max_versions < 0x80000000
  pub unclaimed : (v : ℕ) → get_or b.tracking v 0 ≢ pending_info queue id

fresh-IsRanged :
    (queue : CommandQueue) (id : ℕ) (b : VolatileBuffer) (s : VolatileBufferState)
    → IsFresh queue id b s
    → IsRanged (pending_info queue id) b (initialize_state b s)
unfolding initialize_state
fresh-IsRanged queue id b s f =
    if_elim (IsRanged (pending_info queue id) b) s.initialized s _
      (λ h. absurd (ground (arith, f.unused)))
      (λ _. record {
        ready = refl;
        sized = f.sized;
        start = f.start;
        few = f.few;
        inside = tt;
        covered = λ v e. f.unclaimed v e;
      })

-- After the writes of a recording with an id below 2^60 into a buffer of fewer than 2^31 versions that
-- has no word of it, however the exchanges of other threads came between them, as long as these
-- neither write the word of the recording nor resize the buffer, its submission turns every word of the recording in the whole buffer into
-- that of the submission, and no other word: the loop over the kept range misses none.
pub submit_volatile_buffer-exact :
    (writes : List (List Attempt × List ℕ)) (queue : CommandQueue) (id submitted_id : ℕ)
    (b : VolatileBuffer) (s : VolatileBufferState) (v : ℕ)
    → id < 2 ^ 60
    → IsFresh queue id b s
    → AreFaithful writes queue id b (initialize_state b s)
    → let r = run_writes writes queue id b (initialize_state b s) in
      get_or (submit_volatile_buffer queue id submitted_id r.0 r.1).tracking v 0 ≡ (
        if get_or r.0.tracking v 0 == make_version id queue false
        then make_version submitted_id queue true
        else get_or r.0.tracking v 0)
unfolding replaced
submit_volatile_buffer-exact writes queue id submitted_id b s v low fresh faithful =
    let r = run_writes writes queue id b (initialize_state b s) in
    let g =
      run_writes-IsRanged writes queue id b (initialize_state b s)
        (fresh-IsRanged queue id b s fresh) faithful in
    submit-at queue id submitted_id r.0 r.1 v low g

-- The bytes of the version are flushed, and the flush stays inside the memory of the versions.
abbrev pub Flushes : VolatileBuffer → ℕ → Option (ℕ × ℕ) → Type 0
Flushes b v none = ⊥
Flushes b v (some (offset, size)) =
    (offset ≤ v * b.byte_size)
    × ((v + 1) * b.byte_size ≤ offset + size)
    × (offset + size ≤ b.max_versions * b.byte_size)

flush_from-Flushes :
    (b : VolatileBuffer) (low v : ℕ) (high : Option ℕ)
    → b.max_versions * b.byte_size < u64
    → OnSome (λ h. (h < b.max_versions) × (low ≤ h)) high
    → InRange low high v
    → Flushes b v (flush_from b low high)
flush_from-Flushes b low v none small inside covered = covered
flush_from-Flushes b low v (some high) small inside covered =
    let n : ℕ = b.byte_size in
    let sum : (high + 1) * n ≡ low * n + (high + 1 - low) * n =
      ap (λ (x : ℕ). x * n) (omega (arith, inside)) ∙ add-mul low (high + 1 - low) n in
    let first : low * n ≤ v * n = mul-le-mul_right n covered.0 in
    let last : (v + 1) * n ≤ (high + 1) * n = mul-le-mul_right n (omega (arith, covered)) in
    let whole : (high + 1) * n ≤ b.max_versions * n = mul-le-mul_right n (omega (arith, inside)) in
    if_elim (Flushes b v) (ltb high low) none _ (λ h. absurd (ground (arith, inside)))
      (λ _. (
        omega (arith, first, sum, whole, small),
        omega (arith, sum, last, whole, small),
        omega (arith, sum, whole, small),
      ))

-- In a buffer of fewer than 2^31 versions that together have fewer than 2^64 bytes, and when the other
-- threads neither write the word of the recording nor resize the buffer: every version that the
-- recording has claimed is inside the memory that it flushes, whole, and the flushed memory ends
-- inside the versions of the buffer.
pub flush_range-Flushes :
    (writes : List (List Attempt × List ℕ)) (queue : CommandQueue) (id : ℕ) (b : VolatileBuffer)
    (s : VolatileBufferState) (v : ℕ)
    → b.max_versions * b.byte_size < u64
    → IsFresh queue id b s
    → AreFaithful writes queue id b (initialize_state b s)
    → get_or (run_writes writes queue id b (initialize_state b s)).0.tracking v 0
      ≡ pending_info queue id
    → let r = run_writes writes queue id b (initialize_state b s) in
      Flushes r.0 v (flush_range r.0 r.1)
unfolding flush_range
flush_range-Flushes writes queue id b s v small fresh faithful claimed =
    let r = run_writes writes queue id b (initialize_state b s) in
    let g =
      run_writes-IsRanged writes queue id b (initialize_state b s)
        (fresh-IsRanged queue id b s fresh) faithful in
    let sizes = run_writes-sizes writes queue id b (initialize_state b s) in
    let whole : r.0.max_versions * r.0.byte_size < u64 = rw (sizes.0, sizes.1) small in
    rw g.ready (
      flush_from-Flushes r.0 r.1.min_version v r.1.max_version whole
        (OnSome-zip r.1.max_version (λ h p _. (omega (arith, p.0, g.sized), p.1)) g.inside g.inside)
        (g.covered v claimed))
