-- ===== src/Examples/VolatileBuffers.antt =====
-- Examples for src/vulkan/vulkan-buffer.cpp.
use cutie_rhi.Base.{
  ℕ, zero, suc, ◌≢◌, true, false, List, [], ◌∷◌, none, refl, ◌≡◌, arith, inl, inr, get_or,
  if◌then◌else◌, ◌==◌,
}
use cutie_rhi.Versioning.{
  graphics, make_version, version_get_instance, version_get_queue, version_get_submitted,
}
use cutie_rhi.VolatileBuffers.{
  VolatileBuffer, VolatileBufferState, Attempt, Claim, claim_version, is_available, search_versions,
  pending_info, initialize_state, write_volatile_buffer, submit_volatile_buffer, flush_range,
}
use cutie_rhi.VolatileBuffers.Claims.{
  Explained, IsOver, claim_version-Explained, claim_version-IsOver,
}
use cutie_rhi.VolatileBuffers.Lifecycle.{run_writes, AreFaithful}
use cutie_rhi.VolatileBuffers.Submission.{
  Flushes, submit_volatile_buffer-exact, flush_range-Flushes,
}

-- Three versions: one used by a finished submission, one by a submission that is not, one by a
-- recording.
abbrev some_words : List ℕ
some_words = 0x8000000000000001 ∷ 0x8000000000000007 ∷ 12 ∷ []

abbrev a_buffer : VolatileBuffer
a_buffer = record {
  byte_size = 256;
  max_versions = 3;
  version_search_start = 1;
  tracking = some_words;
}

abbrev a_state : VolatileBufferState
a_state = record { latest_version = 0; min_version = 0; max_version = none; initialized = false }

abbrev a_quiet_attempt : Attempt
a_quiet_attempt = record { seen = some_words; present = some_words; spurious = false }

-- Another thread claims the version first, then there is none.
abbrev a_lost_attempt : Attempt
a_lost_attempt = record {
  seen = some_words;
  present = 13 ∷ 0x8000000000000007 ∷ 12 ∷ [];
  spurious = false;
}

abbrev finished : List ℕ
finished = 5 ∷ 0 ∷ 0 ∷ []

-- The search starts at version 1 and wraps around to version 0.
wraps :
    claim_version (a_quiet_attempt ∷ []) finished 20 a_buffer
    ≡ Claim.claimed 0 (20 ∷ 0x8000000000000007 ∷ 12 ∷ [])
unfolding claim_version search_versions is_available version_get_submitted version_get_queue
    version_get_instance
wraps = refl

claim_version-Explained_example :
    Explained
      (a_lost_attempt ∷ a_quiet_attempt ∷ [])
      finished
      20
      a_buffer
      (claim_version (a_lost_attempt ∷ a_quiet_attempt ∷ []) finished 20 a_buffer)
claim_version-Explained_example =
    claim_version-Explained (a_lost_attempt ∷ a_quiet_attempt ∷ []) finished 20 a_buffer
      (omega arith) (omega arith)

claim_version-IsOver_example :
    IsOver (claim_version (a_lost_attempt ∷ a_quiet_attempt ∷ []) finished 20 a_buffer)
claim_version-IsOver_example =
    claim_version-IsOver (a_lost_attempt ∷ a_quiet_attempt ∷ []) finished 20 a_buffer (omega arith)
      (omega arith) (inr (inl (refl, refl)))

abbrev some_writes : List (List Attempt × List ℕ)
some_writes = (a_quiet_attempt ∷ [], finished) ∷ []

not_claimed : (v : ℕ) → get_or a_buffer.tracking v 0 ≢ pending_info graphics 20
unfolding pending_info
not_claimed zero e = omega (arith, e)
not_claimed (suc zero) e = omega (arith, e)
not_claimed (suc (suc zero)) e = omega (arith, e)
not_claimed (suc (suc (suc v))) e = omega (arith, e)

submit_volatile_buffer-exact_example :
    let r = run_writes some_writes graphics 20 a_buffer (initialize_state a_buffer a_state) in
    get_or (submit_volatile_buffer graphics 20 9 r.0 r.1).tracking 0 0 ≡ (
      if get_or r.0.tracking 0 0 == make_version 20 graphics false
      then make_version 9 graphics true
      else get_or r.0.tracking 0 0)
unfolding AreFaithful pending_info
submit_volatile_buffer-exact_example =
    submit_volatile_buffer-exact some_writes graphics 20 9 a_buffer a_state 0 (omega arith)
      (record {
        unused = refl;
        sized = refl;
        start = omega arith;
        few = omega arith;
        unclaimed = not_claimed;
      })
      (((refl, λ v e. e), tt), tt)

flush_range-Flushes_example :
    let r = run_writes some_writes graphics 20 a_buffer (initialize_state a_buffer a_state) in
    Flushes r.0 0 (flush_range r.0 r.1)
unfolding AreFaithful run_writes write_volatile_buffer initialize_state claim_version
    search_versions is_available version_get_submitted version_get_queue version_get_instance
    pending_info
flush_range-Flushes_example =
    flush_range-Flushes some_writes graphics 20 a_buffer a_state 0 (omega arith)
      (record {
        unused = refl;
        sized = refl;
        start = omega arith;
        few = omega arith;
        unclaimed = not_claimed;
      })
      (((refl, λ v e. e), tt), tt) refl
