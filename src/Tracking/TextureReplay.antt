-- ===== src/Tracking/TextureReplay.antt =====
-- The texture barriers of a batch, as a GPU that executes them sees one subresource.
use cutie_rhi.Base.{
  ℕ, Bool, true, false, ◌&&◌, ◌||◌, List, [], ◌∷◌, ◌++◌, Option, none, some, ◌==◌, if◌then◌else◌,
  ◌≡◌, ◌≢◌, ◌∙◌, refl, ap, arith,
}
use cutie_rhi.Tracking.{TextureBarrier}

-- What one barrier does to the state of subresource (`mip`, `slice`) of texture `k`, and `none` if
-- it names a state that the subresource is not in.
unfoldable pub move_subresource : ℕ → ℕ → ℕ → TextureBarrier → ℕ → Option ℕ
move_subresource k mip slice b s =
    if b.texture == k && (b.entire_texture || ((b.mip_level == mip) && (b.array_slice == slice)))
    then (if b.state_before == s then some b.state_after else none)
    else some s

unfoldable pub replay_subresource : ℕ → ℕ → ℕ → List TextureBarrier → ℕ → Option ℕ
replay_subresource k mip slice [] s = some s
replay_subresource k mip slice (b ∷ bs) s = elim (move_subresource k mip slice b s) [
  | none ↦ none
  | some s' ↦ replay_subresource k mip slice bs s'
]

-- One more barrier at the end of the batch.
pub replay_subresource-append :
    (k mip slice : ℕ) (bs : List TextureBarrier) (b : TextureBarrier) (g s : ℕ)
    → replay_subresource k mip slice bs g ≡ some s
    → replay_subresource k mip slice (bs ++ (b ∷ [])) g ≡ move_subresource k mip slice b s
unfolding replay_subresource
replay_subresource-append k mip slice [] b g s h = ground arith
replay_subresource-append k mip slice (c ∷ bs) b g s h =
    step (move_subresource k mip slice c g) (replay_subresource-append k mip slice bs b) h
  where
    step :
        (m : Option ℕ)
        → ((g' s' : ℕ)
            → replay_subresource k mip slice bs g' ≡ some s'
            → replay_subresource k mip slice (bs ++ (b ∷ [])) g'
              ≡ move_subresource k mip slice b s')
        → (elim m [ none ↦ none | some s' ↦ replay_subresource k mip slice bs s' ]) ≡ some s
        → (elim m [ none ↦ none | some s' ↦ replay_subresource k mip slice (bs ++ (b ∷ [])) s' ])
          ≡ move_subresource k mip slice b s
    step none ih h = cc
    step (some s') ih h = ih s' s h

-- A barrier that is placed on a condition.
pub replay_subresource-append_if :
    (k mip slice : ℕ) (c : Bool) (bs : List TextureBarrier) (b : TextureBarrier) (g s s' : ℕ)
    → replay_subresource k mip slice bs g ≡ some s
    → (c ≡ true → move_subresource k mip slice b s ≡ some s')
    → (c ≡ false → s ≡ s')
    → replay_subresource k mip slice (if c then bs ++ (b ∷ []) else bs) g ≡ some s'
replay_subresource-append_if k mip slice true bs b g s s' h p q =
    replay_subresource-append k mip slice bs b g s h ∙ p refl
replay_subresource-append_if k mip slice false bs b g s s' h p q = h ∙ ap some (q refl)

-- A barrier of the subresource, one of the whole texture, one of another subresource, and one of
-- another texture.
pub move_subresource_self :
    (k mip slice s s' : ℕ)
    → move_subresource k mip slice
        (record {
          texture = k;
          mip_level = mip;
          array_slice = slice;
          entire_texture = false;
          state_before = s;
          state_after = s';
        })
        s
      ≡ some s'
unfolding move_subresource
move_subresource_self k mip slice s s' = ground arith

pub move_subresource_entire :
    (k mip slice s : ℕ) (b : TextureBarrier)
    → b.texture ≡ k
    → b.entire_texture ≡ true
    → b.state_before ≡ s
    → move_subresource k mip slice b s ≡ some b.state_after
unfolding move_subresource
move_subresource_entire k mip slice s b e f h = ground arith

pub move_subresource_other :
    (k mip slice s : ℕ) (b : TextureBarrier)
    → b.entire_texture ≡ false
    → ¬ ((b.mip_level ≡ mip) × (b.array_slice ≡ slice))
    → move_subresource k mip slice b s ≡ some s
unfolding move_subresource
move_subresource_other k mip slice s b e h = ground arith

pub move_subresource_other_texture :
    (k mip slice s : ℕ) (b : TextureBarrier)
    → b.texture ≢ k
    → move_subresource k mip slice b s ≡ some s
unfolding move_subresource
move_subresource_other_texture k mip slice s b h = ground arith
