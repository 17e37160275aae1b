-- ===== src/Tracking/TextureWalk.antt =====
-- src/common/state-tracking.cpp: the nested loops of `requireTextureState` over a set of
-- subresources, seen from one subresource of the texture.
use cutie_rhi.Base.{ℕ, ◌+◌, ◌%◌, ◌≤◌, Bool, some, ◌≡◌, ◌≢◌, refl, sym, ◌∙◌, arith}
use mathlib.Core.Path.{subst₂}
use native.Mathlib.Decide.{ℕ_discrete}
use cutie_rhi.Base.Ranges.{for_range, for_range_inv, for_range_done}
use cutie_rhi.Resources.{u32, TextureDesc}
use cutie_rhi.Subresources.{SubresourceSet}
use cutie_rhi.Subresources.Resolve.{IsValid, VisitsBoth}
use cutie_rhi.Tracking.Textures.{Walk, visit, walk_subresources}
use cutie_rhi.Tracking.TextureReplay.{replay_subresource}
use cutie_rhi.Tracking.TextureVisit.{
  In, Sized, entry, Agrees, visit-Sized, entry-visit_self, visit-Agrees_self, entry-visit_other,
  visit-Agrees_other, visit-other_texture,
}

-- The loops over the set stay inside the texture.
pub record IsWithin (s : SubresourceSet) (desc : TextureDesc) : Type 0 where
  pub mips_end : (s.base_mip_level + s.num_mip_levels) % u32 ≤ desc.mip_levels
  pub slices_end : (s.base_array_slice + s.num_array_slices) % u32 ≤ desc.array_size

inside :
    (s : SubresourceSet) (desc : TextureDesc)
    → IsWithin s desc
    → (mip slice : ℕ) → VisitsBoth s mip slice
    → In desc mip slice
inside s desc within mip slice h = omega arith

module _ (desc : TextureDesc) (k state : ℕ) (enable expanded : Bool) (s : SubresourceSet) where
  abbrev round : ℕ → ℕ → Walk → Walk
  round slice mip = visit k desc state enable expanded slice mip

  abbrev walk_all : Walk → Walk
  walk_all = walk_subresources k desc state enable expanded s

  -- What every round keeps, the loops keep.
  walk_inv {ℓ} :
      (P : Walk → Type ℓ)
      → IsWithin s desc
      → ((mip slice : ℕ) (walk : Walk)
          → VisitsBoth s mip slice
          → In desc mip slice
          → Sized desc walk
          → P walk
          → P (round slice mip walk))
      → (walk : Walk) → Sized desc walk
      → P walk
      → Sized desc (walk_all walk) × P (walk_all walk)
  unfolding walk_subresources
  walk_inv P within keep walk z p =
      for_range_inv _ (λ (x : Walk). Sized desc x × P x) s.base_array_slice s.num_array_slices
        (λ slice a l u h.
          for_range_inv (round slice) (λ (x : Walk). Sized desc x × P x) s.base_mip_level
            s.num_mip_levels
            (λ mip b m v h. (
              visit-Sized desc k state enable expanded mip slice b h.0,
              keep mip slice b ((m, v), (l, u)) (inside s desc within mip slice ((m, v), (l, u)))
                  h.0 h.1,
            ))
            a h)
        walk (z, p)

  pub walk-Sized : (walk : Walk) → IsWithin s desc → Sized desc walk → Sized desc (walk_all walk)
  walk-Sized walk within z = (walk_inv (λ _. Unit {0}) within (λ _ _ _ _ _ _ _. tt) walk z tt).0

  module _ (v : IsValid desc) (within : IsWithin s desc) (mip slice : ℕ)
      (i : In desc mip slice) where
    -- The barriers that the loops place agree with the entries that they write.
    pub walk-Agrees :
        (g : ℕ) (walk : Walk)
        → Sized desc walk
        → Agrees desc k g mip slice walk
        → Agrees desc k g mip slice (walk_all walk)
    walk-Agrees g walk z a = (walk_inv (Agrees desc k g mip slice) within one_round walk z a).1
      where
        one_round :
            (m n : ℕ) (x : Walk)
            → VisitsBoth s m n
            → In desc m n
            → Sized desc x
            → Agrees desc k g mip slice x
            → Agrees desc k g mip slice (round n m x)
        one_round m n x _ j y b = elim (ℕ_discrete m mip) [
          | no h ↦
              visit-Agrees_other desc k state enable expanded v g m n mip slice x j i (λ e. h e.0) b
          | yes e ↦ elim (ℕ_discrete n slice) [
            | no h ↦
                visit-Agrees_other desc k state enable expanded v g m n mip slice x j i (λ f. h f.1)
                  b
            | yes f ↦
                subst₂ (λ (p q : ℕ). Agrees desc k g mip slice (round q p x)) (sym e) (sym f)
                  (visit-Agrees_self desc k state enable expanded v g mip slice x i y b)
          ]
        ]

    -- A subresource outside the set keeps its entry.
    pub entry-walk_outside :
        (walk : Walk)
        → ¬ VisitsBoth s mip slice
        → Sized desc walk
        → entry desc mip slice (walk_all walk) ≡ entry desc mip slice walk
    entry-walk_outside walk out z =
        (walk_inv (λ (x : Walk). entry desc mip slice x ≡ entry desc mip slice walk) within
          (λ m n x h j y e.
            entry-visit_other desc k state enable expanded v m n mip slice x j i
              (λ f. out (subst₂ (VisitsBoth s) f.0 f.1 h))
            ∙ e)
          walk z refl).1

    entry-round :
        (m n : ℕ) (x : Walk)
        → In desc m n
        → Sized desc x
        → entry desc mip slice x ≡ state
        → entry desc mip slice (round n m x) ≡ state
    entry-round m n x j y b = elim (ℕ_discrete m mip) [
      | no h ↦ entry-visit_other desc k state enable expanded v m n mip slice x j i (λ e. h e.0) ∙ b
      | yes e ↦ elim (ℕ_discrete n slice) [
        | no h ↦
            entry-visit_other desc k state enable expanded v m n mip slice x j i (λ f. h f.1) ∙ b
        | yes f ↦
            subst₂ (λ (p q : ℕ). entry desc mip slice (round q p x) ≡ state) (sym e) (sym f)
              (entry-visit_self desc k state enable expanded v mip slice x i y)
      ]
    ]

    row-Sized :
        (n : ℕ) (a : Walk)
        → Sized desc a
        → Sized desc (for_range (round n) s.base_mip_level s.num_mip_levels a)
    row-Sized n a h =
        for_range_inv (round n) (Sized desc) s.base_mip_level s.num_mip_levels
          (λ m b _ _ y. visit-Sized desc k state enable expanded m n b y) a h

    -- A subresource of the set ends in the required state.
    pub entry-walk_inside :
        (walk : Walk)
        → VisitsBoth s mip slice
        → Sized desc walk
        → entry desc mip slice (walk_all walk) ≡ state
    unfolding walk_subresources
    entry-walk_inside walk h z =
        for_range_done _ (Sized desc) (λ (x : Walk). entry desc mip slice x ≡ state)
          s.base_array_slice s.num_array_slices slice h.1.0 h.1.1 (λ n a _ _ y. row-Sized n a y)
          (λ a y.
            for_range_done (round slice) (Sized desc) (λ (x : Walk). entry desc mip slice x ≡ state)
              s.base_mip_level s.num_mip_levels mip h.0.0 h.0.1
              (λ m b _ _ w. visit-Sized desc k state enable expanded m slice b w)
              (λ b w. entry-visit_self desc k state enable expanded v mip slice b i w)
              (λ m b l u w e. entry-round m slice b (omega (arith, within.mips_end), i.1) w e) a y)
          (λ n a l u y e.
            (for_range_inv (round n) (λ (x : Walk). Sized desc x × (entry desc mip slice x ≡ state))
              s.base_mip_level s.num_mip_levels
              (λ m b p q w. (
                visit-Sized desc k state enable expanded m n b w.0,
                entry-round m n b (omega (arith, within.mips_end), omega (arith, within.slices_end))
                    w.0 w.1,
              ))
              a (y, e)).1)
          walk z

  -- The barriers that the loops place move no other texture.
  pub walk-other_texture :
      (k' mip slice g x : ℕ) (walk : Walk)
      → IsWithin s desc
      → k ≢ k'
      → Sized desc walk
      → replay_subresource k' mip slice walk.barriers g ≡ some x
      → replay_subresource k' mip slice (walk_all walk).barriers g ≡ some x
  walk-other_texture k' mip slice g x walk within h z a =
      (walk_inv (λ (y : Walk). replay_subresource k' mip slice y.barriers g ≡ some x) within
        (λ m n y _ _ _ b.
          visit-other_texture desc k state enable expanded k' mip slice m n g x y h b)
        walk z a).1
