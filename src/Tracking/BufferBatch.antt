-- ===== src/Tracking/BufferBatch.antt =====
-- The buffer barriers of one batch, between two calls of `clearBarriers`: how the merge of
-- `requireBufferState` and its appended barriers act on one buffer, and what a GPU that executes
-- them makes of it.
use cutie_rhi.Base.{
  ℕ, Bool, true, false, List, [], ◌∷◌, ◌++◌, Option, none, some, ◌==◌, if◌then◌else◌, bit_and,
  bit_or, ◌≡◌, ◌≢◌, refl, ap, subst, arith,
}
use cutie_rhi.Base.Bits.{bit_and_self, bit_and-bit_or_wider}
use cutie_rhi.Tracking.{BufferBarrier}
use cutie_rhi.Tracking.Buffers.{merge_barrier}

-- The GPU's side: what one barrier does to the state of buffer `k`, and `none` if it names a state
-- that the buffer is not in. A barrier between different states has to name the very state of the
-- buffer. One between equal states orders UAV accesses and does not move the buffer, and has to name
-- flags of its state.
unfoldable pub move_buffer : ℕ → BufferBarrier → ℕ → Option ℕ
move_buffer k b s =
    if b.buffer == k
    then (if b.state_before == b.state_after
        then (if bit_and s b.state_before == b.state_before then some s else none)
        else if b.state_before == s
        then some b.state_after
        else none)
    else some s

unfoldable pub replay_buffer : ℕ → List BufferBarrier → ℕ → Option ℕ
replay_buffer k [] s = some s
replay_buffer k (b ∷ bs) s = elim (move_buffer k b s) [
  | none ↦ none
  | some s' ↦ replay_buffer k bs s'
]

abbrev Choice : Bool → Type 0 → Type 0 → Type 0
Choice true P Q = P
Choice false P Q = Q

-- No barrier of the list moves buffer `k`, and those of `k` name flags of the state `now`.
abbrev pub Quiet : ℕ → ℕ → List BufferBarrier → Type 0
Quiet k now [] = Unit {0}
Quiet k now (b ∷ bs) =
    Choice (b.buffer == k)
      ((b.state_before ≡ b.state_after)
        × (bit_and now b.state_before ≡ b.state_before)
        × Quiet k now bs)
      (Quiet k now bs)

-- A state with more flags.
Quiet-union : (k now s : ℕ) (bs : List BufferBarrier) → Quiet k now bs → Quiet k (bit_or now s) bs
Quiet-union k now s [] q = tt
Quiet-union k now s (b ∷ bs) q =
    ground (arith, Quiet-union k now s bs, bit_and-bit_or_wider now s b.state_before)

-- The first barrier of `k` leads from `before` to `now`, and the later ones do not move it.
abbrev pub Batch : ℕ → ℕ → ℕ → List BufferBarrier → Type 0
Batch k before now [] = before ≡ now
Batch k before now (b ∷ bs) =
    Choice (b.buffer == k) ((b.state_before ≡ before) × (b.state_after ≡ now) × Quiet k now bs)
      (Batch k before now bs)

Quiet-append :
    (k j s : ℕ) (bs : List BufferBarrier)
    → Quiet k s bs
    → Quiet k s (bs ++ (record { buffer = j; state_before = s; state_after = s } ∷ []))
Quiet-append k j s [] q = ground (arith, bit_and_self s)
Quiet-append k j s (b ∷ bs) q = ground (arith, Quiet-append k j s bs)

-- A barrier appended after the first, from the state that the buffer is in, at equal states.
pub Batch-append_uav :
    (k before now j : ℕ) (bs : List BufferBarrier)
    → Batch k before now bs
    → Batch k before now (bs ++ (record { buffer = j; state_before = now; state_after = now } ∷ []))
Batch-append_uav k before now j [] q = ground arith
Batch-append_uav k before now j (b ∷ bs) q =
    ground (arith, Batch-append_uav k before now j bs, Quiet-append k j now bs)

-- A barrier of another buffer.
Quiet-append_other :
    (k now : ℕ) (x : BufferBarrier) (bs : List BufferBarrier)
    → x.buffer ≢ k
    → Quiet k now bs
    → Quiet k now (bs ++ (x ∷ []))
Quiet-append_other k now x [] h q = ground arith
Quiet-append_other k now x (b ∷ bs) h q = ground (arith, Quiet-append_other k now x bs h)

pub Batch-append_other :
    (k before now : ℕ) (x : BufferBarrier) (bs : List BufferBarrier)
    → x.buffer ≢ k
    → Batch k before now bs
    → Batch k before now (bs ++ (x ∷ []))
Batch-append_other k before now x [] h q = ground arith
Batch-append_other k before now x (b ∷ bs) h q =
    ground (arith, Batch-append_other k before now x bs h, Quiet-append_other k now x bs h)

-- Where there is no barrier of `k` to merge into, a new one moves it from where it was.
pub Batch-append_first :
    (k before now s : ℕ) (bs : List BufferBarrier)
    → merge_barrier k s bs ≡ none
    → Batch k before now bs
    → Batch k before s (bs ++ (record { buffer = k; state_before = now; state_after = s } ∷ []))
unfolding merge_barrier
Batch-append_first k before now s [] e q = ground arith
Batch-append_first k before now s (b ∷ bs) e q =
    ground (arith, Batch-append_first k before now s bs)

-- What holds of the outcome of a merge, if there was a barrier to merge into.
abbrev pub Merged : (ℕ → List BufferBarrier → Type 0) → Option (ℕ × List BufferBarrier) → Type 0
Merged P none = Unit {0}
Merged P (some (after, rest)) = P after rest

pub Merged-some :
    (P : ℕ → List BufferBarrier → Type 0) (r : Option (ℕ × List BufferBarrier)) (after : ℕ)
    (rest : List BufferBarrier)
    → Merged P r
    → r ≡ some (after, rest)
    → P after rest
Merged-some P r after rest h e = subst (Merged P) e h

pub Merged-step :
    (P Q : ℕ → List BufferBarrier → Type 0) (b : BufferBarrier) (hit : Bool) (n : ℕ)
    (xs : List BufferBarrier) (r : Option (ℕ × List BufferBarrier))
    → (hit ≡ true → P n xs)
    → (hit ≡ false → Merged Q r)
    → ((after : ℕ) (rest : List BufferBarrier) → hit ≡ false → Q after rest → P after (b ∷ rest))
    → Merged P (
        if hit
        then some (n, xs)
        else (elim r [ none ↦ none | some (after, rest) ↦ some (after, b ∷ rest) ]))
Merged-step P Q b true n xs r p q f = p refl
Merged-step P Q b false n xs none p q f = tt
Merged-step P Q b false n xs (some (after, rest)) p q f = f after rest refl (q refl)

-- A merge moves the buffer to the union of the states.
abbrev IsUnion : ℕ → ℕ → ℕ → ℕ → ℕ → List BufferBarrier → Type 0
IsUnion k before now s after rest = (after ≡ bit_or now s) × Batch k before after rest

merge_barrier-IsUnion :
    (k before now s : ℕ) (bs : List BufferBarrier)
    → Batch k before now bs
    → Merged (IsUnion k before now s) (merge_barrier k s bs)
unfolding merge_barrier
merge_barrier-IsUnion k before now s [] q = tt
merge_barrier-IsUnion k before now s (b ∷ bs) q =
    Merged-step (IsUnion k before now s) (IsUnion k before now s) b (b.buffer == k) _ _ _
      (λ e. ground (arith, Quiet-union k now s bs))
      (λ e. merge_barrier-IsUnion k before now s bs (ground arith)) (λ after rest e u. ground arith)

-- A merge for another buffer changes nothing for this one.
abbrev Kept : ℕ → ℕ → ℕ → List BufferBarrier → ℕ → List BufferBarrier → Type 0
Kept k before now bs after rest =
    (Quiet k now bs → Quiet k now rest) × (Batch k before now bs → Batch k before now rest)

merge_barrier-Kept :
    (k j before now s : ℕ) (bs : List BufferBarrier)
    → j ≢ k
    → Merged (Kept k before now bs) (merge_barrier j s bs)
unfolding merge_barrier
merge_barrier-Kept k j before now s [] h = tt
merge_barrier-Kept k j before now s (b ∷ bs) h =
    Merged-step (Kept k before now (b ∷ bs)) (Kept k before now bs) b (b.buffer == j) _ _ _
      (λ e. ((λ q. ground arith), (λ q. ground arith)))
      (λ e. merge_barrier-Kept k j before now s bs h)
      (λ after rest e u. ((λ q. ground (arith, u.0)), (λ q. ground (arith, u.0, u.1))))

pub Batch-merge :
    (k before now s after : ℕ) (bs rest : List BufferBarrier)
    → merge_barrier k s bs ≡ some (after, rest)
    → Batch k before now bs
    → (after ≡ bit_or now s) × Batch k before after rest
Batch-merge k before now s after bs rest e q =
    Merged-some (IsUnion k before now s) _ after rest (merge_barrier-IsUnion k before now s bs q) e

pub Batch-merge_other :
    (k j before now s after : ℕ) (bs rest : List BufferBarrier)
    → j ≢ k
    → merge_barrier j s bs ≡ some (after, rest)
    → Batch k before now bs
    → Batch k before now rest
Batch-merge_other k j before now s after bs rest h e q =
    (Merged-some (Kept k before now bs) _ after rest (merge_barrier-Kept k j before now s bs h) e).1
      q

-- A GPU that executes the barriers finds every state that they name, and ends where the batch does.
replay_buffer-Quiet :
    (k s : ℕ) (bs : List BufferBarrier) → Quiet k s bs → replay_buffer k bs s ≡ some s
unfolding replay_buffer move_buffer
replay_buffer-Quiet k s [] q = refl
replay_buffer-Quiet k s (b ∷ bs) q = ground (arith, replay_buffer-Quiet k s bs)

pub replay_buffer-Batch :
    (k before now : ℕ) (bs : List BufferBarrier)
    → Batch k before now bs
    → replay_buffer k bs before ≡ some now
unfolding replay_buffer move_buffer
replay_buffer-Batch k before now [] q = ap some q
replay_buffer-Batch k before now (b ∷ bs) q =
    ground (
      arith,
      replay_buffer-Batch k before now bs,
      replay_buffer-Quiet k now bs,
      bit_and_self before,
    )
