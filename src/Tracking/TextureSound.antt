-- ===== src/Tracking/TextureSound.antt =====
-- src/common/state-tracking.cpp: the texture barriers that a command list collects are consistent
-- with the states that it tracks for each subresource.
use cutie_rhi.Base.{
  ℕ, true, Option, none, some, ◌==◌, get_or, ◌≡◌, ◌≢◌, refl, sym, ap, ◌∙◌, arith, if◌then◌else◌,
}
use cutie_rhi.Base.Maps.{lookup, lookup-insert}
use cutie_rhi.Resources.{TextureDesc}
use cutie_rhi.ResourceStates
use cutie_rhi.Subresources.{SubresourceSet}
use cutie_rhi.Subresources.Resolve.{IsValid, VisitsBoth}
use cutie_rhi.Tracking.{World, TextureState, Tracker}
use cutie_rhi.Tracking.Textures.{
  is_empty, texture_tracking, put_texture, start_state, calc_subresource, new_texture_state,
  get_texture_subresource_state, require_entire, require_subresources, walk_subresources, Walk,
}
use cutie_rhi.Tracking.TextureReplay.{
  replay_subresource, replay_subresource-append_if, move_subresource_entire,
}
use cutie_rhi.Tracking.TextureVisit.{In, Sized, entry, calc_subresource-lt}
use cutie_rhi.Tracking.TextureWalk.{
  IsWithin, walk-Sized, walk-Agrees, entry-walk_inside, entry-walk_outside,
}
use cutie_rhi.Tracking.TextureRequire.{
  state_in, IsShaped, start_walk, start-Sized, entry-start, is_empty-nonempty,
}

pub texture_tracking-put :
    (w : World) (t : Tracker) (k j : ℕ) (s : TextureState)
    → texture_tracking w (put_texture k s t) j ≡ (if k == j then s else texture_tracking w t j)
unfolding texture_tracking
texture_tracking-put w t k j s = ground (arith, lookup-insert k j s t.texture_states)

pub texture_tracking-put_self :
    (w : World) (t : Tracker) (k : ℕ) (s : TextureState)
    → texture_tracking w (put_texture k s t) k ≡ s
texture_tracking-put_self w t k s = ground (arith, texture_tracking-put w t k k s)

pub texture_tracking-put_other :
    (w : World) (t : Tracker) (k j : ℕ) (s : TextureState)
    → k ≢ j
    → texture_tracking w (put_texture k s t) j ≡ texture_tracking w t j
texture_tracking-put_other w t k j s h = ground (arith, texture_tracking-put w t k j s)

pub texture_tracking-states :
    (w : World) (t u : Tracker) (k : ℕ)
    → t.texture_states ≡ u.texture_states
    → texture_tracking w t k ≡ texture_tracking w u k
unfolding texture_tracking
texture_tracking-states w t u k e = rw e

-- What `getTextureSubresourceState` reads is the entry that `getTextureStateTracking` would create.
pub get_texture_subresource_state-eq :
    (w : World) (t : Tracker) (k slice mip : ℕ)
    → get_texture_subresource_state w t k slice mip
      ≡ state_in (w.textures k).desc (texture_tracking w t k) mip slice
unfolding get_texture_subresource_state texture_tracking
get_texture_subresource_state-eq w t k slice mip = read (lookup k t.texture_states)
  where
    desc : TextureDesc
    desc = (w.textures k).desc

    read :
        (o : Option TextureState)
        → (elim o [
          | none ↦ start_state (w.textures k)
          | some s ↦
              if is_empty s.subresource_states
              then s.state
              else get_or s.subresource_states
                  (calc_subresource mip slice desc)
                  ResourceStates.unknown
        ])
          ≡ state_in desc
              (elim o [ some s ↦ s | none ↦ new_texture_state (w.textures k) ])
              mip
              slice
    read none = refl
    read (some s) = refl

-- The tracker has a well-formed entry for the texture.
abbrev pub IsTracked : World → ℕ → Tracker → Type 0
IsTracked w k t = IsShaped (w.textures k).desc (texture_tracking w t k)

-- The barriers of the batch lead a subresource from `g` to the state that the tracker has for it.
abbrev pub IsConsistent : World → ℕ → ℕ → ℕ → ℕ → Tracker → Type 0
IsConsistent w k mip slice g t =
    replay_subresource k mip slice t.texture_barriers g
    ≡ some (state_in (w.textures k).desc (texture_tracking w t k) mip slice)

module _ (w : World) (k : ℕ) (mip slice : ℕ) where
  abbrev desc : TextureDesc
  desc = (w.textures k).desc

  -- The branch for the whole texture.
  pub require_entire_self :
      (state g : ℕ) (t : Tracker)
      → is_empty (texture_tracking w t k).subresource_states ≡ true
      → IsConsistent w k mip slice g t
      → IsConsistent w k mip slice g (require_entire k state (texture_tracking w t k) t)
  unfolding require_entire
  require_entire_self state g t e c =
      let ts : TextureState = texture_tracking w t k in
      replay_subresource-append_if k mip slice _ t.texture_barriers _ g ts.state state
        (c ∙ ap some (rw e refl))
        (λ _. move_subresource_entire k mip slice ts.state _ refl refl refl) (λ h. ground arith)
      ∙ ap some (sym (rw (texture_tracking-put_self w _ k _, e) refl))

  pub require_entire-state :
      (state : ℕ) (t : Tracker)
      → is_empty (texture_tracking w t k).subresource_states ≡ true
      → state_in desc
          (texture_tracking w (require_entire k state (texture_tracking w t k) t) k)
          mip
          slice
        ≡ state
  unfolding require_entire
  require_entire-state state t e = rw (texture_tracking-put_self w _ k _, e) refl

  -- The branch for individual subresources.
  module _ (s : SubresourceSet) (state : ℕ) (t : Tracker) (v : IsValid desc)
      (within : IsWithin s desc) (shaped : IsTracked w k t) (i : In desc mip slice) where
    abbrev ts : TextureState
    ts = texture_tracking w t k

    abbrev walked : Walk
    walked =
        walk_subresources k desc state ts.enable_uav_barriers (is_empty ts.subresource_states) s
          (start_walk desc ts t)

    walked-Sized : Sized desc walked
    walked-Sized = walk-Sized desc k state _ _ s _ within (start-Sized desc ts t shaped)

    -- The tracker reads the entries that the loops wrote.
    require_subresources-entry :
        state_in desc (texture_tracking w (require_subresources k desc s state ts t) k) mip slice
        ≡ entry desc mip slice walked
    unfolding require_subresources
    require_subresources-entry =
        rw
          (
            texture_tracking-put_self w _ k _,
            is_empty-nonempty walked.states (calc_subresource mip slice desc)
                (rw walked-Sized (calc_subresource-lt desc v mip slice i).1),
          )
          refl

    pub require_subresources_self :
        (g : ℕ)
        → IsConsistent w k mip slice g t
        → IsConsistent w k mip slice g (require_subresources k desc s state ts t)
    unfolding require_subresources
    require_subresources_self g c =
        walk-Agrees desc k state _ _ s v within mip slice i g _ (start-Sized desc ts t shaped) (
          c
          ∙ ap some
              (sym (entry-start desc ts t mip slice (calc_subresource-lt desc v mip slice i).1)))
        ∙ ap some (sym require_subresources-entry)

    pub require_subresources-inside :
        VisitsBoth s mip slice
        → state_in desc (texture_tracking w (require_subresources k desc s state ts t) k) mip slice
          ≡ state
    require_subresources-inside h =
        require_subresources-entry
        ∙ entry-walk_inside desc k state _ _ s v within mip slice i _ h
            (start-Sized desc ts t shaped)

    pub require_subresources-outside :
        ¬ VisitsBoth s mip slice
        → state_in desc (texture_tracking w (require_subresources k desc s state ts t) k) mip slice
          ≡ state_in desc ts mip slice
    require_subresources-outside h =
        require_subresources-entry
        ∙ entry-walk_outside desc k state _ _ s v within mip slice i _ h
            (start-Sized desc ts t shaped)
        ∙ entry-start desc ts t mip slice (calc_subresource-lt desc v mip slice i).1
