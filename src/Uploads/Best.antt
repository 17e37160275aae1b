-- ===== src/Uploads/Best.antt =====
-- src/d3d12/d3d12-upload.cpp: the chunk that scratch memory takes over is the best of those that are
-- large enough.
use cutie_rhi.Base.{
  ℕ, ◌≤◌, ◌<◌, ◌≡◌, refl, arith, true, false, List, [], ◌∷◌, Option, none, some, if_elim, ◌⊎◌, inl,
  inr, Any, All, leb, if◌then◌else◌,
}
use cutie_rhi.Uploads.{Chunk}
use cutie_rhi.Uploads.Scratch.{is_better, best_chunk}

-- The order of the source is a strict weak order.
better_irreflexive : (c : Chunk) → is_better c c ≡ false
unfolding is_better
better_irreflexive c = ground arith

worse_lem :
    (c b best : Chunk) → is_better c b ≡ true → is_better c best ≡ false → is_better b best ≡ false
unfolding is_better
worse_lem c b best p q = ground arith

not_better_trans :
    (c b best : Chunk) → is_better c b ≡ false → is_better b best ≡ false → is_better c best ≡ false
unfolding is_better
not_better_trans c b best p q = ground arith

-- No chunk of the list that is large enough beats it.
abbrev pub Unbeaten : ℕ → List Chunk → Chunk → Type 0
Unbeaten size cs best = All (λ c. size ≤ c.buffer_size → is_better c best ≡ false) cs

abbrev pub IsLargeEntry : ℕ → List Chunk → Chunk → Type 0
IsLargeEntry size cs best = Any (λ c. (c ≡ best) × (size ≤ c.buffer_size)) cs

-- What the loop makes of a best chunk so far.
abbrev Improves : ℕ → List Chunk → Chunk → Type 0
Improves size cs b =
    (best : Chunk) × (best_chunk size (some b) cs ≡ some best)
    × ((b ≡ best) ⊎ IsLargeEntry size cs best)
    × (is_better b best ≡ false)
    × Unbeaten size cs best

best_chunk-Improves : (size : ℕ) (cs : List Chunk) (b : Chunk) → Improves size cs b
unfolding best_chunk
best_chunk-Improves size [] b = (b, refl, inl refl, better_irreflexive b, tt)
best_chunk-Improves size (c ∷ cs) b =
    let Goes : Option Chunk → Type 0 = λ o.
      (best : Chunk) × (best_chunk size o cs ≡ some best)
      × ((b ≡ best) ⊎ IsLargeEntry size (c ∷ cs) best)
      × (is_better b best ≡ false)
      × Unbeaten size (c ∷ cs) best in
    let (best, e, from, beats, others) = best_chunk-Improves size cs b in
    let kept : (b ≡ best) ⊎ IsLargeEntry size (c ∷ cs) best = elim from [
      | inl same ↦ inl same
      | inr m ↦ inr (inr m)
    ] in
    let (best', e', from', beats', others') = best_chunk-Improves size cs c in
    if_elim Goes (leb size c.buffer_size) (some (if is_better c b then c else b)) (some b)
      (λ large.
        if_elim (λ x. Goes (some x)) (is_better c b) c b
          (λ h. (
            best',
            e',
            inr (elim from' [ inl same ↦ inl (same, ground arith) | inr m ↦ inr m ]),
            worse_lem c b best' h beats',
            ((λ _. beats'), others'),
          ))
          (λ h. (best, e, kept, beats, ((λ _. not_better_trans c b best h beats), others))))
      (λ h. (best, e, kept, beats, ((λ l. absurd (ground arith)), others)))

-- The chunk that is taken over is an entry of the pool that is large enough, and no entry that is
-- large enough comes before it in the order of the source; there is none only when every
-- entry is too small.
pub best_chunk-best :
    (size : ℕ) (cs : List Chunk)
    → ((best_chunk size none cs ≡ none) × All (λ c. c.buffer_size < size) cs)
      ⊎ ((best : Chunk) × (best_chunk size none cs ≡ some best)
          × IsLargeEntry size cs best
          × Unbeaten size cs best)
unfolding best_chunk
best_chunk-best size [] = inl (refl, tt)
best_chunk-best size (c ∷ cs) =
    let Ends : Option Chunk → Type 0 = λ o.
      ((best_chunk size o cs ≡ none) × All (λ e. e.buffer_size < size) (c ∷ cs))
      ⊎ ((best : Chunk) × (best_chunk size o cs ≡ some best)
          × IsLargeEntry size (c ∷ cs) best
          × Unbeaten size (c ∷ cs) best) in
    let (best, e, from, beats, others) = best_chunk-Improves size cs c in
    if_elim Ends (leb size c.buffer_size) (some c) none
      (λ large. inr (
        best,
        e,
        elim from [ inl same ↦ inl (same, ground arith) | inr m ↦ inr m ],
        ((λ _. beats), others),
      ))
      (λ h. elim (best_chunk-best size cs) [
        | inl empty ↦ inl (empty.0, (ground arith, empty.1))
        | inr found ↦ inr (found.0, found.1, inr found.2, ((λ l. absurd (ground arith)), found.3))
      ])
