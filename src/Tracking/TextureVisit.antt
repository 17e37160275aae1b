-- ===== src/Tracking/TextureVisit.antt =====
-- src/common/state-tracking.cpp: one round of the loops of `requireTextureState`, seen from one
-- subresource of the texture.
use cutie_rhi.Base.{
  ℕ, ◌+◌, ◌*◌, ◌<◌, ◌≤◌, Bool, some, ◌≡◌, ◌≢◌, refl, sym, ap, ◌∙◌, arith, get_or, length,
  length-set, get_or-set_self, get_or-set_ne,
}
use native.Mathlib.Decide.{dec_lt}
use native.Mathlib.Nat.{mul_comm}
use cutie_rhi.Resources.{TextureDesc}
use cutie_rhi.Subresources.Resolve.{IsValid}
use cutie_rhi.Tracking.Textures.{calc_subresource, subresource_count, Walk, visit}
use cutie_rhi.Tracking.TextureReplay.{
  replay_subresource, replay_subresource-append_if, move_subresource_self, move_subresource_other,
  move_subresource_other_texture,
}

-- A subresource of the texture.
abbrev pub In : TextureDesc → ℕ → ℕ → Type 0
In desc mip slice = (mip < desc.mip_levels) × (slice < desc.array_size)

row_lt : (a b c : ℕ) → a < b → a * c + c ≤ b * c
row_lt a b c h = grind arith

rows_eq : (m s m' s' ml : ℕ) → m < ml → m' < ml → m + s * ml ≡ m' + s' * ml → (m ≡ m') × (s ≡ s')
rows_eq m s m' s' ml h h' e = elim (dec_lt s s') [
  | yes l ↦ absurd (omega (arith, row_lt s s' ml l))
  | no l ↦ elim (dec_lt s' s) [
    | yes k ↦ absurd (omega (arith, row_lt s' s ml k))
    | no k ↦ let q : s ≡ s' = omega arith in (omega (arith, ap (λ (t : ℕ). t * ml) q), q)
  ]
]

module _ (desc : TextureDesc) (v : IsValid desc) where
  -- Its index is computed without a wrap and lies in the vector.
  pub calc_subresource-lt :
      (mip slice : ℕ)
      → In desc mip slice
      → (calc_subresource mip slice desc ≡ mip + slice * desc.mip_levels)
        × (calc_subresource mip slice desc < subresource_count desc)
  unfolding calc_subresource subresource_count
  calc_subresource-lt mip slice h = omega (
    arith,
    v.subresources_word,
    row_lt slice desc.array_size desc.mip_levels h.1,
    mul_comm desc.mip_levels desc.array_size,
  )

  -- Different subresources have different indices.
  pub calc_subresource-injective :
      (mip slice mip' slice' : ℕ)
      → In desc mip slice
      → In desc mip' slice'
      → calc_subresource mip slice desc ≡ calc_subresource mip' slice' desc
      → (mip ≡ mip') × (slice ≡ slice')
  calc_subresource-injective mip slice mip' slice' h h' e =
      rows_eq mip slice mip' slice' desc.mip_levels h.0 h'.0
        (sym (calc_subresource-lt mip slice h).0 ∙ e ∙ (calc_subresource-lt mip' slice' h').0)

-- The vector has an entry for every subresource.
abbrev pub Sized : TextureDesc → Walk → Type 0
Sized desc walk = length walk.states ≡ subresource_count desc

abbrev pub entry : TextureDesc → ℕ → ℕ → Walk → ℕ
entry desc mip slice walk = get_or walk.states (calc_subresource mip slice desc) 0

-- The barriers so far lead subresource (`mip`, `slice`) of texture `k` from `g` to its entry.
abbrev pub Agrees : TextureDesc → ℕ → ℕ → ℕ → ℕ → Walk → Type 0
Agrees desc k g mip slice walk =
    replay_subresource k mip slice walk.barriers g ≡ some (entry desc mip slice walk)

module _ (desc : TextureDesc) (k state : ℕ) (enable expanded : Bool) where
  pub visit-Sized :
      (mip slice : ℕ) (walk : Walk)
      → Sized desc walk
      → Sized desc (visit k desc state enable expanded slice mip walk)
  unfolding visit
  visit-Sized mip slice walk h = length-set walk.states (calc_subresource mip slice desc) state ∙ h

  -- The round of the subresource itself.
  pub entry-visit_self :
      (v : IsValid desc) (mip slice : ℕ) (walk : Walk)
      → In desc mip slice
      → Sized desc walk
      → entry desc mip slice (visit k desc state enable expanded slice mip walk) ≡ state
  unfolding visit
  entry-visit_self v mip slice walk i h =
      get_or-set_self walk.states (calc_subresource mip slice desc) state 0
        (omega (arith, (calc_subresource-lt desc v mip slice i).1))

  pub visit-Agrees_self :
      (v : IsValid desc) (g mip slice : ℕ) (walk : Walk)
      → In desc mip slice
      → Sized desc walk
      → Agrees desc k g mip slice walk
      → Agrees desc k g mip slice (visit k desc state enable expanded slice mip walk)
  unfolding visit
  visit-Agrees_self v g mip slice walk i h a =
      replay_subresource-append_if k mip slice _ walk.barriers _ g (entry desc mip slice walk) state
        a (λ _. move_subresource_self k mip slice (entry desc mip slice walk) state)
        (λ e. ground arith)
      ∙ ap some (sym (entry-visit_self v mip slice walk i h))

  -- The round of another subresource.
  pub entry-visit_other :
      (v : IsValid desc) (m s mip slice : ℕ) (walk : Walk)
      → In desc m s
      → In desc mip slice
      → ¬ ((m ≡ mip) × (s ≡ slice))
      → entry desc mip slice (visit k desc state enable expanded s m walk)
        ≡ entry desc mip slice walk
  unfolding visit
  entry-visit_other v m s mip slice walk j i h =
      get_or-set_ne walk.states (calc_subresource m s desc) (calc_subresource mip slice desc) state
        0 (λ e. h (calc_subresource-injective desc v m s mip slice j i e))

  pub visit-Agrees_other :
      (v : IsValid desc) (g m s mip slice : ℕ) (walk : Walk)
      → In desc m s
      → In desc mip slice
      → ¬ ((m ≡ mip) × (s ≡ slice))
      → Agrees desc k g mip slice walk
      → Agrees desc k g mip slice (visit k desc state enable expanded s m walk)
  unfolding visit
  visit-Agrees_other v g m s mip slice walk j i h a =
      replay_subresource-append_if k mip slice _ walk.barriers _ g (entry desc mip slice walk)
        (entry desc mip slice walk) a
        (λ _. move_subresource_other k mip slice (entry desc mip slice walk) _ refl h) (λ _. refl)
      ∙ ap some (sym (entry-visit_other v m s mip slice walk j i h))

  -- The barriers of one texture move no other.
  pub visit-other_texture :
      (k' mip slice m s g x : ℕ) (walk : Walk)
      → k ≢ k'
      → replay_subresource k' mip slice walk.barriers g ≡ some x
      → replay_subresource k' mip slice (visit k desc state enable expanded s m walk).barriers g
        ≡ some x
  unfolding visit
  visit-other_texture k' mip slice m s g x walk h a =
      replay_subresource-append_if k' mip slice _ walk.barriers _ g x x a
        (λ _. move_subresource_other_texture k' mip slice x _ h) (λ _. refl)
