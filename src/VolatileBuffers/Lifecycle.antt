-- ===== src/VolatileBuffers/Lifecycle.antt =====
-- src/vulkan/vulkan-buffer.cpp: one recording that writes a volatile buffer, among other threads, and
-- is flushed and submitted.
use cutie_rhi.Base.{
  ℕ, ◌≤◌, ◌<◌, ◌≡◌, refl, sym, ap, ◌∙◌, subst, arith, min, true, List, [], ◌∷◌, Option, none, some,
  length, length-set, get_or, get_or-set, OnSome, All, Any, ◌⊎◌, inl, inr,
}
use native.Mathlib.Decide.{ℕ_discrete}
use cutie_rhi.Versioning.{CommandQueue}
use cutie_rhi.VolatileBuffers.{
  VolatileBuffer, VolatileBufferState, Attempt, Claim, claim_version, pending_info,
  initialize_state, later_version, record_claim, write_volatile_buffer,
}
use cutie_rhi.VolatileBuffers.Claims.{Takes, Explained, claim_version-Explained}
use cutie_rhi.VolatileBuffers.Ranges.{InRange}

-- The range is inside the buffer, and has every version that the recording has claimed.
pub record IsRanged (word : ℕ) (b : VolatileBuffer) (s : VolatileBufferState) : Type 0 where
  pub ready : s.initialized ≡ true
  pub sized : length b.tracking ≡ b.max_versions
  pub start : b.version_search_start < b.max_versions
  pub few : b.max_versions < 0x80000000
  pub inside : OnSome (λ h. (h < length b.tracking) × (s.min_version ≤ h)) s.max_version
  pub covered : (v : ℕ) → get_or b.tracking v 0 ≡ word → InRange s.min_version s.max_version v

-- The other threads neither write the word of the recording nor resize the buffer.
abbrev pub IsFaithful : ℕ → VolatileBuffer → Attempt → Type 0
IsFaithful word b a =
    (length a.present ≡ length b.tracking)
    × ((v : ℕ) → get_or a.present v 0 ≡ word → get_or b.tracking v 0 ≡ word)

InRange-claim :
    (version low v : ℕ) (high : Option ℕ)
    → (version ≡ v) ⊎ InRange low high v
    → InRange (min version low) (some (later_version version high)) v
InRange-claim version low v none (inl e) = (omega arith, omega arith)
InRange-claim version low v none (inr h) = absurd h
InRange-claim version low v (some high) (inl e) = (omega arith, omega arith)
InRange-claim version low v (some high) (inr h) = (omega arith, omega arith)

inside-claim :
    (version low n : ℕ) (high : Option ℕ)
    → version < n
    → OnSome (λ h. (h < n) × (low ≤ h)) high
    → (later_version version high < n) × (min version low ≤ later_version version high)
inside-claim version low n none p inside = (p, omega arith)
inside-claim version low n (some high) p inside = (omega arith, omega arith)

-- Another version is claimed over the words that are there.
Takes-IsRanged :
    (word : ℕ) (b : VolatileBuffer) (s : VolatileBufferState) (completed : List ℕ) (version : ℕ)
    (words : List ℕ) (attempts : List Attempt)
    → IsRanged word b s
    → version < b.max_versions
    → All (IsFaithful word b) attempts
    → Any (Takes completed word b version words) attempts
    → let r = record_claim b s (Claim.claimed version words) in IsRanged word r.1 r.2
Takes-IsRanged word b s completed version words [] g low faithful takes = absurd takes
Takes-IsRanged word b s completed version words (a ∷ attempts) g low (here, there) (inr later) =
    Takes-IsRanged word b s completed version words attempts g low there later
Takes-IsRanged word b s completed version words (a ∷ attempts) g low (here, there) (inl takes) =
    let same : length words ≡ length b.tracking =
      ap length takes.1 ∙ length-set a.present version word ∙ here.0 in
    let bounds =
      inside-claim version s.min_version (length b.tracking) s.max_version (omega (arith, g.sized))
        g.inside in
    record {
      ready = g.ready;
      sized = same ∙ g.sized;
      start = ground (arith, g.start);
      few = g.few;
      inside = (omega (arith, same, bounds.0), bounds.1);
      covered = λ v e. elim (ℕ_discrete version v) [
        | yes here_it_is ↦ InRange-claim version s.min_version v s.max_version (inl here_it_is)
        | no other ↦
            let written = get_or-set a.present version v word 0 (omega (arith, here.0, g.sized)) in
            let before : get_or a.present v 0 ≡ word =
              ground (arith, written, ap (λ l. get_or l v 0) takes.1) in
            InRange-claim version s.min_version v s.max_version
              (inr (g.covered v (here.1 v before)))
      ];
    }

record_claim-IsRanged :
    (word : ℕ) (b : VolatileBuffer) (s : VolatileBufferState) (completed : List ℕ)
    (attempts : List Attempt) (c : Claim)
    → IsRanged word b s
    → All (IsFaithful word b) attempts
    → Explained attempts completed word b c
    → let r = record_claim b s c in IsRanged word r.1 r.2
record_claim-IsRanged word b s completed attempts Claim.insufficient g faithful e = g
record_claim-IsRanged word b s completed attempts Claim.unfinished g faithful e = g
record_claim-IsRanged word b s completed attempts (Claim.claimed version words) g faithful e =
    Takes-IsRanged word b s completed version words attempts g e.0 faithful e.1

initialize_state-ready :
    (b : VolatileBuffer) (s : VolatileBufferState) → s.initialized ≡ true → initialize_state b s ≡ s
unfolding initialize_state
initialize_state-ready b s h = rw h refl

-- A write keeps the range.
write_volatile_buffer-IsRanged :
    (attempts : List Attempt) (completed : List ℕ) (queue : CommandQueue) (id : ℕ)
    (b : VolatileBuffer) (s : VolatileBufferState)
    → IsRanged (pending_info queue id) b s
    → All (IsFaithful (pending_info queue id) b) attempts
    → let r = write_volatile_buffer attempts completed queue id b s in
      IsRanged (pending_info queue id) r.1 r.2
unfolding write_volatile_buffer
write_volatile_buffer-IsRanged attempts completed queue id b s g faithful =
    let word = pending_info queue id in
    let c = claim_version attempts completed word b in
    subst (λ (t : VolatileBufferState). let r = record_claim b t c in IsRanged word r.1 r.2)
      (sym (initialize_state-ready b s g.ready))
      (record_claim-IsRanged word b s completed attempts c g faithful
        (claim_version-Explained attempts completed word b g.start g.few))

-- The writes of one recording: for each, the rounds of its loop and the finished submissions.
unfoldable pub run_writes :
    List (List Attempt × List ℕ)
    → CommandQueue
    → ℕ
    → VolatileBuffer
    → VolatileBufferState
    → VolatileBuffer × VolatileBufferState
run_writes [] queue id b s = (b, s)
run_writes ((attempts, completed) ∷ writes) queue id b s =
    let r = write_volatile_buffer attempts completed queue id b s in
    run_writes writes queue id r.1 r.2

unfoldable pub AreFaithful :
    List (List Attempt × List ℕ) → CommandQueue → ℕ → VolatileBuffer → VolatileBufferState → Type 0
AreFaithful [] queue id b s = Unit
AreFaithful ((attempts, completed) ∷ writes) queue id b s =
    All (IsFaithful (pending_info queue id) b) attempts
    × (let r = write_volatile_buffer attempts completed queue id b s in
        AreFaithful writes queue id r.1 r.2)

record_claim-sizes :
    (b : VolatileBuffer) (s : VolatileBufferState) (c : Claim)
    → ((record_claim b s c).1.byte_size ≡ b.byte_size)
      × ((record_claim b s c).1.max_versions ≡ b.max_versions)
record_claim-sizes b s Claim.insufficient = (refl, refl)
record_claim-sizes b s Claim.unfinished = (refl, refl)
record_claim-sizes b s (Claim.claimed version words) = (refl, refl)

-- The writes leave the sizes of the buffer alone.
pub run_writes-sizes :
    (writes : List (List Attempt × List ℕ)) (queue : CommandQueue) (id : ℕ) (b : VolatileBuffer)
    (s : VolatileBufferState)
    → ((run_writes writes queue id b s).0.byte_size ≡ b.byte_size)
      × ((run_writes writes queue id b s).0.max_versions ≡ b.max_versions)
unfolding run_writes write_volatile_buffer
run_writes-sizes [] queue id b s = (refl, refl)
run_writes-sizes ((attempts, completed) ∷ writes) queue id b s =
    let r = write_volatile_buffer attempts completed queue id b s in
    let one =
      record_claim-sizes b (initialize_state b s)
        (claim_version attempts completed (pending_info queue id) b) in
    let rest = run_writes-sizes writes queue id r.1 r.2 in (rest.0 ∙ one.0, rest.1 ∙ one.1)

pub run_writes-IsRanged :
    (writes : List (List Attempt × List ℕ)) (queue : CommandQueue) (id : ℕ) (b : VolatileBuffer)
    (s : VolatileBufferState)
    → IsRanged (pending_info queue id) b s
    → AreFaithful writes queue id b s
    → let r = run_writes writes queue id b s in IsRanged (pending_info queue id) r.0 r.1
unfolding run_writes AreFaithful
run_writes-IsRanged [] queue id b s g faithful = g
run_writes-IsRanged ((attempts, completed) ∷ writes) queue id b s g (now, later) =
    let r = write_volatile_buffer attempts completed queue id b s in
    run_writes-IsRanged writes queue id r.1 r.2
      (write_volatile_buffer-IsRanged attempts completed queue id b s g now) later
