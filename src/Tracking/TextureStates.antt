-- ===== src/Tracking/TextureStates.antt =====
-- src/common/state-tracking.cpp: the states that `getTextureSubresourceState` reports after a call
-- of `requireTextureState`.
use cutie_rhi.Base.{ℕ, false, ◌≡◌, ◌≢◌, refl, sym, ap, ◌∙◌}
use cutie_rhi.Resources.{TextureDesc}
use cutie_rhi.Subresources.{SubresourceSet, resolve}
use cutie_rhi.Subresources.Resolve.{IsValid, IsWords, VisitsBoth, is_entire_texture_iff}
use cutie_rhi.Tracking.{World, TextureState, Tracker}
use cutie_rhi.Tracking.Textures.{
  texture_tracking, get_texture_subresource_state, require_entire, require_subresources,
  require_tracked_texture, require_texture_state,
}
use cutie_rhi.Tracking.TextureVisit.{In}
use cutie_rhi.Tracking.TextureRequire.{resolve-IsWithin, state_in}
use cutie_rhi.Tracking.TextureSound.{
  texture_tracking-put_other, texture_tracking-states, IsTracked, get_texture_subresource_state-eq,
  require_entire-state, require_subresources-inside, require_subresources-outside,
}
use cutie_rhi.Tracking.TextureEffect.{require_tracked_texture_cases, IsTracked-same}

require_texture_state-tracked :
    (w : World) (k : ℕ) (s : SubresourceSet) (state : ℕ) (t : Tracker)
    → (w.textures k).permanent_state ≡ 0
    → require_texture_state w k s state t ≡ require_tracked_texture w k s state t
unfolding require_texture_state
require_texture_state-tracked w k s state t e = rw e refl

require_entire-tracking_other :
    (w : World) (k j state : ℕ) (ts : TextureState) (t : Tracker)
    → k ≢ j
    → texture_tracking w (require_entire k state ts t) j ≡ texture_tracking w t j
unfolding require_entire
require_entire-tracking_other w k j state ts t h =
    texture_tracking-put_other w _ k j _ h ∙ texture_tracking-states w _ t j refl

require_subresources-tracking_other :
    (w : World) (k j state : ℕ) (desc : TextureDesc) (s : SubresourceSet) (ts : TextureState)
    (t : Tracker)
    → k ≢ j
    → texture_tracking w (require_subresources k desc s state ts t) j ≡ texture_tracking w t j
unfolding require_subresources
require_subresources-tracking_other w k j state desc s ts t h =
    texture_tracking-put_other w _ k j _ h ∙ texture_tracking-states w _ t j refl

-- The state that the tracker has for one subresource.
abbrev state_of : World → ℕ → ℕ → ℕ → Tracker → ℕ
state_of w k mip slice t = state_in (w.textures k).desc (texture_tracking w t k) mip slice

-- The outcome for one subresource of the texture and for the other textures.
abbrev Outcome : World → ℕ → ℕ → SubresourceSet → ℕ → ℕ → Tracker → Tracker → Type 0
Outcome w k state s mip slice t r =
    (VisitsBoth (resolve s (w.textures k).desc false) mip slice → state_of w k mip slice r ≡ state)
    × (¬ VisitsBoth (resolve s (w.textures k).desc false) mip slice
        → state_of w k mip slice r ≡ state_of w k mip slice t)
    × ((j m n : ℕ) → k ≢ j → state_of w j m n r ≡ state_of w j m n t)

require_tracked_texture-Outcome :
    (w : World) (k state mip slice : ℕ) (s : SubresourceSet) (t : Tracker)
    → IsValid (w.textures k).desc
    → IsWords s
    → IsTracked w k t
    → In (w.textures k).desc mip slice
    → Outcome w k state s mip slice t (require_tracked_texture w k s state t)
require_tracked_texture-Outcome w k state mip slice s t v words shaped i =
    require_tracked_texture_cases (Outcome w k state s mip slice t) w k s state t (λ u e b.
      let ts : TextureState = texture_tracking w u k in
      let within = resolve-IsWithin s (w.textures k).desc v words in
      let same : (j : ℕ) → texture_tracking w u j ≡ texture_tracking w t j =
        λ j. texture_tracking-states w u t j e in
      (
        (λ x whole. (
          (λ _. require_entire-state w k mip slice state u x),
          (λ out.
              absurd
                (out ((is_entire_texture_iff s (w.textures k).desc v).0 whole mip slice i.0 i.1))),
          (λ j m n h.
              ap (λ y. state_in (w.textures j).desc y m n)
                (require_entire-tracking_other w k j state ts u h ∙ same j)),
        )),
        (
          require_subresources-inside w k mip slice _ state u v within
              (IsTracked-same w k t u e shaped) i,
          (λ out.
              require_subresources-outside w k mip slice _ state u v within
                (IsTracked-same w k t u e shaped) i out
              ∙ ap (λ y. state_in (w.textures k).desc y mip slice) (same k)),
          (λ j m n h.
              ap (λ y. state_in (w.textures j).desc y m n)
                (require_subresources-tracking_other w k j state _ _ ts u h ∙ same j)),
        ),
      ))

-- After `requireTextureState` on a texture with no permanent state the tracker reports the required
-- state for every subresource that the loops over the resolved set visit, and what it reported
-- before for the texture's other subresources and for every subresource of every other texture. The
-- description of the texture is valid and its tracking entry is well-formed.
pub require_texture_state-states :
    (w : World) (k state mip slice : ℕ) (s : SubresourceSet) (t : Tracker)
    → (w.textures k).permanent_state ≡ 0
    → IsValid (w.textures k).desc
    → IsWords s
    → IsTracked w k t
    → In (w.textures k).desc mip slice
    → let r = require_texture_state w k s state t in
      (VisitsBoth (resolve s (w.textures k).desc false) mip slice
        → get_texture_subresource_state w r k slice mip ≡ state)
      × (¬ VisitsBoth (resolve s (w.textures k).desc false) mip slice
          → get_texture_subresource_state w r k slice mip
            ≡ get_texture_subresource_state w t k slice mip)
      × ((j m n : ℕ)
          → k ≢ j
          → get_texture_subresource_state w r j n m ≡ get_texture_subresource_state w t j n m)
require_texture_state-states w k state mip slice s t p v words shaped i =
    let o : Outcome w k state s mip slice t (require_tracked_texture w k s state t) =
      require_tracked_texture-Outcome w k state mip slice s t v words shaped i in
    rw (require_texture_state-tracked w k s state t p) (
      (λ h. get_texture_subresource_state-eq w _ k slice mip ∙ o.0 h),
      (λ h.
          get_texture_subresource_state-eq w _ k slice mip
          ∙ o.1 h
          ∙ sym (get_texture_subresource_state-eq w t k slice mip)),
      (λ j m n h.
          get_texture_subresource_state-eq w _ j n m
          ∙ o.2 j m n h
          ∙ sym (get_texture_subresource_state-eq w t j n m)),
    )
