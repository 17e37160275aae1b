-- ===== src/Queues/Collect.antt =====
-- src/vulkan/vulkan-queue.cpp: the collection of a tracker whose buffers are in the order of their
-- submissions.
use cutie_rhi.Base.{
  ℕ, ◌≤◌, ◌<◌, ◌≡◌, refl, ap, arith, Bool, not, List, [], ◌∷◌, leb, if_elim, map, keep, keep-here,
  keep-skip, keep-none, keep-All, All, All-map, Pairwise,
}
use cutie_rhi.Queues.{CommandBuffer, collect, release}

abbrev pub Before : CommandBuffer → CommandBuffer → Type 0
Before c e = c.submission_id ≤ e.submission_id

-- The buffers of a tracker: submitted, up to the last submission, and in order.
abbrev pub InFlight : ℕ → List CommandBuffer → Type 0
InFlight last cs =
    Pairwise Before cs × All (λ c. (0 < c.submission_id) × (c.submission_id ≤ last)) cs

-- What a collected buffer is like.
abbrev pub IsReleased : CommandBuffer → Type 0
IsReleased c =
    (c.submission_id ≡ 0) × (c.referenced_resources ≡ []) × (c.referenced_staging_buffers ≡ [])

abbrev pub is_finished : ℕ → CommandBuffer → Bool
is_finished finished c = leb c.submission_id finished

abbrev pub is_unfinished : ℕ → CommandBuffer → Bool
is_unfinished finished c = not (leb c.submission_id finished)

-- The loop, which stops at the first unfinished buffer, is a partition of the whole list.
pub collect-partition :
    (finished : ℕ) (cs : List CommandBuffer)
    → Pairwise Before cs
    → ((collect finished cs).0 ≡ map release (keep (is_finished finished) cs))
      × ((collect finished cs).1 ≡ keep (is_unfinished finished) cs)
unfolding collect
collect-partition finished [] sorted = (refl, refl)
collect-partition finished (c ∷ cs) (first, sorted) =
    let rest = collect finished cs in
    let later = collect-partition finished cs sorted in
    let done = is_finished finished in
    let open_yet = is_unfinished finished in
    let Splits : List CommandBuffer × List CommandBuffer → Type 0 =
      λ r. ((r.0 ≡ map release (keep done (c ∷ cs))) × (r.1 ≡ keep open_yet (c ∷ cs))) in
    if_elim Splits (leb c.submission_id finished) (release c ∷ rest.0, rest.1) ([], c ∷ cs)
      (λ h. (
        rw (keep-here done c cs h, later.0) refl,
        rw (keep-skip open_yet c cs (ap not h), later.1) refl,
      ))
      (λ h.
        let none_done = All-map cs (λ e p. ground arith) first in
        let all_open = All-map cs (λ e p. ground arith) first in
        (
          rw (keep-skip done c cs h, keep-none done cs none_done) refl,
          rw (keep-here open_yet c cs (ap not h), keep-All open_yet cs all_open) refl,
        ))

pub collect-IsReleased :
    (finished : ℕ) (cs : List CommandBuffer) → All IsReleased (collect finished cs).0
unfolding collect
collect-IsReleased finished [] = tt
collect-IsReleased finished (c ∷ cs) =
    let rest = collect finished cs in
    if_elim (λ (r : List CommandBuffer × List CommandBuffer). All IsReleased r.0)
      (leb c.submission_id finished) (release c ∷ rest.0, rest.1) ([], c ∷ cs)
      (λ _. ((refl, refl, refl), collect-IsReleased finished cs)) (λ _. tt)

pub collect-InFlight :
    (last finished : ℕ) (cs : List CommandBuffer)
    → InFlight last cs
    → InFlight last (collect finished cs).1
unfolding collect
collect-InFlight last finished [] f = f
collect-InFlight last finished (c ∷ cs) f =
    let rest = collect finished cs in
    if_elim (λ (r : List CommandBuffer × List CommandBuffer). InFlight last r.1)
      (leb c.submission_id finished) (release c ∷ rest.0, rest.1) ([], c ∷ cs)
      (λ _. collect-InFlight last finished cs (f.0.1, f.1.1)) (λ _. f)
