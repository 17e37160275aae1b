-- ===== src/Tracking/TextureEffect.antt =====
-- src/common/state-tracking.cpp: the effect of one call of `requireTextureState` on the state of
-- every subresource, and on the batch of barriers.
use cutie_rhi.Base.{
  ℕ, Bool, true, false, not, ◌&&◌, some, ◌==◌, ◌≡◌, ◌≢◌, refl, sym, ap, subst, ◌∙◌, arith, if_elim,
  bit_and,
}
use native.Mathlib.Decide.{ℕ_discrete}
use cutie_rhi.Resources.{TextureDesc}
use cutie_rhi.ResourceStates
use cutie_rhi.Subresources.{SubresourceSet, resolve, is_entire_texture}
use cutie_rhi.Subresources.Resolve.{IsValid, IsWords}
use cutie_rhi.Tracking.{World, TextureState, Tracker, Message, log_if, verify_permanent_state}
use cutie_rhi.Tracking.Textures.{
  is_empty, texture_tracking, get_texture_subresource_state, require_entire, require_subresources,
  require_tracked_texture, require_texture_state,
}
use cutie_rhi.Tracking.TextureReplay.{
  replay_subresource, replay_subresource-append_if, move_subresource_other_texture,
}
use cutie_rhi.Tracking.TextureVisit.{In}
use cutie_rhi.Tracking.TextureWalk.{walk-other_texture}
use cutie_rhi.Tracking.TextureRequire.{resolve-IsWithin, state_in, start-Sized}
use cutie_rhi.Tracking.TextureSound.{
  texture_tracking-put_other, texture_tracking-states, IsTracked, IsConsistent,
  get_texture_subresource_state-eq, require_entire_self, require_subresources_self,
}

-- Every case of the branch that `requireTextureState` takes below its early return.
pub require_tracked_texture_cases {ℓ} :
    (P : Tracker → Type ℓ) (w : World) (k : ℕ) (s : SubresourceSet) (state : ℕ) (t : Tracker)
    → ((u : Tracker)
        → u.texture_states ≡ t.texture_states
        → u.texture_barriers ≡ t.texture_barriers
        → let ts = texture_tracking w u k in
          (is_empty ts.subresource_states ≡ true
            → is_entire_texture (resolve s (w.textures k).desc false) (w.textures k).desc ≡ true
            → P (require_entire k state ts u))
          × P (
              require_subresources k
                (w.textures k).desc
                (resolve s (w.textures k).desc false)
                state
                ts
                u))
    → P (require_tracked_texture w k s state t)
unfolding require_tracked_texture texture_tracking
require_tracked_texture_cases P w k s state t f =
    let ts : TextureState = texture_tracking w t k in
    let e : Bool = is_empty ts.subresource_states in
    let whole : Bool =
      is_entire_texture (resolve s (w.textures k).desc false) (w.textures k).desc in
    let u : Tracker =
      log_if (e && (ts.state == ResourceStates.unknown)) (Message.unknown_texture k) t in
    if_elim P (whole && e) (require_entire k state ts u)
      (require_subresources k (w.textures k).desc (resolve s (w.textures k).desc false) state ts u)
      (λ h. (f u refl refl).0 (ground arith) (ground arith)) (λ _. (f u refl refl).1)

require_texture_state_cases {ℓ} :
    (P : Tracker → Type ℓ) (w : World) (k : ℕ) (s : SubresourceSet) (state : ℕ) (t : Tracker)
    → P t
    → ((m : Message) → P (log_if true m t))
    → P (require_tracked_texture w k s state t)
    → P (require_texture_state w k s state t)
unfolding require_texture_state verify_permanent_state
require_texture_state_cases P w k s state t p f r =
    let permanent : ℕ = (w.textures k).permanent_state in
    let m : Message = Message.wrong_permanent_texture k state permanent in
    let verified : Tracker = (verify_permanent_state permanent state m t).1 in
    if_elim P (not (permanent == 0)) verified (require_tracked_texture w k s state t)
      (λ _.
        if_elim (λ (x : Bool × Tracker). P x.1) (bit_and permanent state == state) (true, t)
          (false, log_if true m t) (λ _. p) (λ _. f m))
      (λ _. r)

-- The maps and the batch decide what is consistent.
IsConsistent-same :
    (w : World) (j mip slice g : ℕ) (t u : Tracker)
    → u.texture_states ≡ t.texture_states
    → u.texture_barriers ≡ t.texture_barriers
    → IsConsistent w j mip slice g t
    → IsConsistent w j mip slice g u
IsConsistent-same w j mip slice g t u e b c =
    ap (λ bs. replay_subresource j mip slice bs g) b
    ∙ c
    ∙ ap (λ x. some (state_in (w.textures j).desc x mip slice))
        (sym (texture_tracking-states w u t j e))

pub IsTracked-same :
    (w : World) (j : ℕ) (t u : Tracker)
    → u.texture_states ≡ t.texture_states
    → IsTracked w j t
    → IsTracked w j u
IsTracked-same w j t u e c = rw (texture_tracking-states w u t j e) c

module _ (w : World) (k state j mip slice g : ℕ) (t : Tracker) (h : k ≢ j) where
  -- What the branches do to another texture.
  require_entire-other :
      (ts : TextureState)
      → IsConsistent w j mip slice g t
      → IsConsistent w j mip slice g (require_entire k state ts t)
  unfolding require_entire
  require_entire-other ts c =
      let now : ℕ = state_in (w.textures j).desc (texture_tracking w t j) mip slice in
      replay_subresource-append_if j mip slice _ t.texture_barriers _ g now now c
        (λ _. move_subresource_other_texture j mip slice now _ h) (λ _. refl)
      ∙ ap some (
          ap (λ (x : TextureState). state_in (w.textures j).desc x mip slice)
            (sym (texture_tracking-put_other w _ k j _ h ∙ texture_tracking-states w _ t j refl)))

  require_subresources-other :
      (s : SubresourceSet) (v : IsValid (w.textures k).desc)
      → IsWords s
      → IsTracked w k t
      → IsConsistent w j mip slice g t
      → IsConsistent w j mip slice g (
          require_subresources k
            (w.textures k).desc
            (resolve s (w.textures k).desc false)
            state
            (texture_tracking w t k)
            t)
  unfolding require_subresources
  require_subresources-other s v words shaped c =
      let desc : TextureDesc = (w.textures k).desc in
      walk-other_texture desc k state _ _ (resolve s desc false) j mip slice g _ _
        (resolve-IsWithin s desc v words) h (start-Sized desc (texture_tracking w t k) t shaped) c
      ∙ ap some (
          ap (λ (x : TextureState). state_in (w.textures j).desc x mip slice)
            (sym (texture_tracking-put_other w _ k j _ h ∙ texture_tracking-states w _ t j refl)))

-- Every call of `requireTextureState` keeps the barriers of the batch in step with the tracked
-- state of every subresource of every texture, whether the two describe the texture as a whole or
-- each subresource, and whatever set of subresources the call names: executed in their order they
-- lead the subresource from the state `g` it started in to the state the tracker reports. The
-- texture of the call has a well-formed tracking entry and a valid description.
pub require_texture_state-IsConsistent :
    (w : World) (k state j mip slice g : ℕ) (s : SubresourceSet) (t : Tracker)
    → IsValid (w.textures k).desc
    → IsWords s
    → IsTracked w k t
    → In (w.textures j).desc mip slice
    → replay_subresource j mip slice t.texture_barriers g
      ≡ some (get_texture_subresource_state w t j slice mip)
    → let r = require_texture_state w k s state t in
      replay_subresource j mip slice r.texture_barriers g
      ≡ some (get_texture_subresource_state w r j slice mip)
require_texture_state-IsConsistent w k state j mip slice g s t v words shaped i c =
    require_texture_state_cases (IsConsistent w j mip slice g) w k s state t consistent
      (λ m. IsConsistent-same w j mip slice g t _ refl refl consistent)
      (require_tracked_texture_cases (IsConsistent w j mip slice g) w k s state t (λ u e b.
        elim (ℕ_discrete k j) [
          | no h ↦ (
            (λ _ _.
                require_entire-other w k state j mip slice g u h _
                  (IsConsistent-same w j mip slice g t u e b consistent)),
            require_subresources-other w k state j mip slice g u h s v words
                (IsTracked-same w k t u e shaped)
                (IsConsistent-same w j mip slice g t u e b consistent),
          )
          | yes h ↦ same u e b h
        ]))
    ∙ ap some (sym (get_texture_subresource_state-eq w _ j slice mip))
  where
    consistent : IsConsistent w j mip slice g t
    consistent = c ∙ ap some (get_texture_subresource_state-eq w t j slice mip)

    same :
        (u : Tracker)
        → u.texture_states ≡ t.texture_states
        → u.texture_barriers ≡ t.texture_barriers
        → k ≡ j
        → (is_empty (texture_tracking w u k).subresource_states ≡ true
            → is_entire_texture (resolve s (w.textures k).desc false) (w.textures k).desc ≡ true
            → IsConsistent w j mip slice g (require_entire k state (texture_tracking w u k) u))
          × IsConsistent w j mip slice g (
              require_subresources k
                (w.textures k).desc
                (resolve s (w.textures k).desc false)
                state
                (texture_tracking w u k)
                u)
    same u e b h =
        let here : IsConsistent w k mip slice g u =
          subst (λ x. IsConsistent w x mip slice g u) (sym h)
            (IsConsistent-same w j mip slice g t u e b consistent) in
        (
          (λ x _.
              subst
                (λ y.
                  IsConsistent w y mip slice g (require_entire k state (texture_tracking w u k) u))
                h (require_entire_self w k mip slice state g u x here)),
          subst
              (λ y. IsConsistent w y mip slice g (
                require_subresources k (w.textures k).desc (resolve s (w.textures k).desc false)
                  state (texture_tracking w u k) u))
              h
              (require_subresources_self w k mip slice (resolve s (w.textures k).desc false) state u
                v (resolve-IsWithin s (w.textures k).desc v words) (IsTracked-same w k t u e shaped)
                (subst (λ x. In (w.textures x).desc mip slice) (sym h) i) g here),
        )
