-- ===== src/Queues/Counts.antt =====
-- src/vulkan/vulkan-queue.cpp: how often the lists of a queue hold a command buffer.
use cutie_rhi.Base.{
  ℕ, zero, suc, ◌+◌, ◌<◌, ◌≡◌, refl, arith, List, [], ◌∷◌, ◌++◌, Option, none, some, ltb, ◌==◌,
  if◌then◌else◌, if_elim, length, get_or, set, length-set, All, subst, sym,
}
use cutie_rhi.Queues.{CommandBuffer, Queue, submit_all, submit_one, collect}
use cutie_rhi.Queues.Recording.{take, take_all, add_taken}

abbrev pub weigh : ℕ → CommandBuffer → ℕ
weigh h c = if c.handle == h then 1 else 0

-- How often a list holds the buffer.
unfoldable pub count : ℕ → List CommandBuffer → ℕ
count h [] = 0
count h (c ∷ cs) = weigh h c + count h cs

unfoldable pub count_flights : ℕ → List (List CommandBuffer) → ℕ
count_flights h [] = 0
count_flights h (cs ∷ css) = count h cs + count_flights h css

pub count-append :
    (h : ℕ) (xs ys : List CommandBuffer) → count h (xs ++ ys) ≡ count h xs + count h ys
unfolding count
count-append h [] ys = omega arith
count-append h (x ∷ xs) ys = omega (arith, count-append h xs ys)

pub count_flights-set :
    (h t : ℕ) (css : List (List CommandBuffer)) (cs : List CommandBuffer)
    → t < length css
    → count_flights h (set css t cs) + count h (get_or css t []) ≡ count_flights h css + count h cs
unfolding count_flights
count_flights-set h t [] cs low = absurd (omega arith)
count_flights-set h zero (x ∷ css) cs low = omega arith
count_flights-set h (suc t) (x ∷ css) cs low =
    omega (arith, count_flights-set h t css cs (omega arith))

pub count-collect :
    (h finished : ℕ) (cs : List CommandBuffer)
    → count h (collect finished cs).0 + count h (collect finished cs).1 ≡ count h cs
unfolding count collect
count-collect h finished [] = omega arith
count-collect h finished (c ∷ cs) = ground (arith, count-collect h finished cs)

unfoldable pub count_option : ℕ → Option CommandBuffer → ℕ
count_option h none = 0
count_option h (some c) = weigh h c

unfoldable pub count_batch : ℕ → List (ℕ × CommandBuffer) → ℕ
count_batch h [] = 0
count_batch h ((t, c) ∷ batch) = weigh h c + count_batch h batch

pub count-take :
    (h x : ℕ) (cs : List CommandBuffer)
    → count_option h (take x cs).0 + count h (take x cs).1 ≡ count h cs
unfolding count take count_option
count-take h x [] = omega arith
count-take h x (c ∷ cs) = ground (arith, count-take h x cs)

abbrev pub HasTracker : ℕ → ℕ × CommandBuffer → Type 0
HasTracker n entry = entry.0 < n

pub count-add_taken :
    (h t : ℕ) (o : Option CommandBuffer) (batch : List (ℕ × CommandBuffer))
    → count_batch h (add_taken t o batch) ≡ count_option h o + count_batch h batch
unfolding count_batch count_option
count-add_taken h t none batch = omega arith
count-add_taken h t (some c) batch = refl

pub count-take_all :
    (h n : ℕ) (wanted : List (ℕ × ℕ)) (cs : List CommandBuffer)
    → count_batch h (take_all n wanted cs).0 + count h (take_all n wanted cs).1 ≡ count h cs
unfolding take_all count_batch
count-take_all h n [] cs = omega arith
count-take_all h n ((t, x) ∷ wanted) cs =
    let first = take x cs in
    let rest = take_all n wanted first.1 in
    if_elim (λ r. count_batch h r.0 + count h r.1 ≡ count h cs) (ltb t n)
      (add_taken t first.0 rest.0, rest.1) (take_all n wanted cs)
      (λ _. omega (
        arith,
        count-add_taken h t first.0 rest.0,
        count-take h x cs,
        count-take_all h n wanted first.1,
      ))
      (λ _. count-take_all h n wanted cs)

add_taken-HasTracker :
    (n t : ℕ) (o : Option CommandBuffer) (batch : List (ℕ × CommandBuffer))
    → t < n
    → All (HasTracker n) batch
    → All (HasTracker n) (add_taken t o batch)
add_taken-HasTracker n t none batch low all = all
add_taken-HasTracker n t (some c) batch low all = (low, all)

pub take_all-HasTracker :
    (n : ℕ) (wanted : List (ℕ × ℕ)) (cs : List CommandBuffer)
    → All (HasTracker n) (take_all n wanted cs).0
unfolding take_all
take_all-HasTracker n [] cs = tt
take_all-HasTracker n ((t, x) ∷ wanted) cs =
    let first = take x cs in
    let rest = take_all n wanted first.1 in
    if_elim (λ r. All (HasTracker n) r.0) (ltb t n) (add_taken t first.0 rest.0, rest.1)
      (take_all n wanted cs)
      (λ h.
        add_taken-HasTracker n t first.0 rest.0 (ground arith)
          (take_all-HasTracker n wanted first.1))
      (λ _. take_all-HasTracker n wanted cs)

pub count-submit_all :
    (h id : ℕ) (batch : List (ℕ × CommandBuffer)) (q : Queue)
    → All (HasTracker (length q.trackers)) batch
    → let q' = submit_all id batch q in
      (count_flights h q'.trackers ≡ count_flights h q.trackers + count_batch h batch)
      × (q'.command_buffers_pool ≡ q.command_buffers_pool)
unfolding submit_all submit_one count_batch count
count-submit_all h id [] q all = (omega arith, refl)
count-submit_all h id ((t, c) ∷ batch) q (low, all) =
    let c' : CommandBuffer = record c { submission_id = id } in
    let old = get_or q.trackers t [] in
    let q' : Queue = submit_one id (t, c) q in
    let same = length-set q.trackers t (old ++ (c' ∷ [])) in
    let later =
      count-submit_all h id batch q' (subst (λ n. All (HasTracker n) batch) (sym same) all) in
    (
      omega (
        arith,
        later.0,
        count_flights-set h t q.trackers (old ++ (c' ∷ [])) low,
        count-append h old (c' ∷ []),
      ),
      later.1,
    )
