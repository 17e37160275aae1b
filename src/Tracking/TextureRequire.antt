-- ===== src/Tracking/TextureRequire.antt =====
-- src/common/state-tracking.cpp: `requireTextureState` for one tracking entry, seen from one
-- subresource of the texture.
use cutie_rhi.Base.{
  ℕ, ◌<◌, false, List, [], ◌∷◌, ◌≡◌, ◌⊎◌, inl, inr, refl, ap, ◌∙◌, arith, if◌then◌else◌, length,
  get_or, resize, length-resize, resize-nil, get_or-replicate, Bool-cases,
}
use cutie_rhi.Resources.{TextureDesc}
use cutie_rhi.ResourceStates
use cutie_rhi.Subresources.{SubresourceSet, has_slices, resolve}
use cutie_rhi.Subresources.Resolve.{IsValid, IsWords, clip_count_end}
use cutie_rhi.Tracking.{TextureState, Tracker}
use cutie_rhi.Tracking.Textures.{Walk, is_empty, calc_subresource, subresource_count}
use cutie_rhi.Tracking.TextureVisit.{Sized, entry}
use cutie_rhi.Tracking.TextureWalk.{IsWithin}

-- A resolved set lies within its texture.
pub resolve-IsWithin :
    (s : SubresourceSet) (desc : TextureDesc)
    → IsValid desc
    → IsWords s
    → IsWithin (resolve s desc false) desc
unfolding resolve
resolve-IsWithin s desc v w = elim (Bool-cases (has_slices desc.dimension)) [
  | inl e ↦ rw e (record {
    mips_end = omega (
      arith,
      clip_count_end s.base_mip_level s.num_mip_levels desc.mip_levels w.base_mip_word v.mips_word,
    );
    slices_end = omega (
      arith,
      clip_count_end s.base_array_slice s.num_array_slices desc.array_size w.base_slice_word
          v.slices_word,
    );
  })
  | inr e ↦ rw e (record {
    mips_end = omega (
      arith,
      clip_count_end s.base_mip_level s.num_mip_levels desc.mip_levels w.base_mip_word v.mips_word,
    );
    slices_end = v.slices_pos;
  })
]

-- The state that a tracking entry gives a subresource.
abbrev pub state_in : TextureDesc → TextureState → ℕ → ℕ → ℕ
state_in desc ts mip slice =
    if is_empty ts.subresource_states
    then ts.state
    else get_or ts.subresource_states (calc_subresource mip slice desc) ResourceStates.unknown

-- An entry is tracked as a whole, or for each subresource.
abbrev pub IsShaped : TextureDesc → TextureState → Type 0
IsShaped desc ts =
    (ts.subresource_states ≡ []) ⊎ (length ts.subresource_states ≡ subresource_count desc)

-- Where the loops of `requireTextureState` start.
abbrev pub start_walk : TextureDesc → TextureState → Tracker → Walk
start_walk desc tracking t = record {
  states =
      if is_empty tracking.subresource_states
      then resize (subresource_count desc) tracking.state []
      else tracking.subresource_states;
  first_uav_barrier_placed = tracking.first_uav_barrier_placed;
  any_uav_barrier = false;
  barriers = t.texture_barriers;
  messages = t.messages;
}

pub is_empty-nonempty : (xs : List ℕ) (n : ℕ) → n < length xs → is_empty xs ≡ false
is_empty-nonempty [] n h = absurd (omega arith)
is_empty-nonempty (x ∷ xs) n h = refl

pub start-Sized :
    (desc : TextureDesc) (ts : TextureState) (t : Tracker)
    → IsShaped desc ts
    → Sized desc (start_walk desc ts t)
start-Sized desc ts t h = shaped ts.subresource_states h
  where
    shaped :
        (xs : List ℕ)
        → (xs ≡ []) ⊎ (length xs ≡ subresource_count desc)
        → length (if is_empty xs then resize (subresource_count desc) ts.state [] else xs)
          ≡ subresource_count desc
    shaped [] h = length-resize (subresource_count desc) ts.state []
    shaped (x ∷ xs) (inl e) = cc
    shaped (x ∷ xs) (inr e) = e

pub entry-start :
    (desc : TextureDesc) (ts : TextureState) (t : Tracker) (mip slice : ℕ)
    → calc_subresource mip slice desc < subresource_count desc
    → entry desc mip slice (start_walk desc ts t) ≡ state_in desc ts mip slice
entry-start desc ts t mip slice h = by_shape ts.subresource_states
  where
    n : ℕ
    n = subresource_count desc

    i : ℕ
    i = calc_subresource mip slice desc

    by_shape :
        (xs : List ℕ)
        → get_or (if is_empty xs then resize n ts.state [] else xs) i 0
          ≡ (if is_empty xs then ts.state else get_or xs i 0)
    by_shape [] =
        ap (λ (ys : List ℕ). get_or ys i 0) (resize-nil n ts.state)
        ∙ get_or-replicate n i ts.state 0 h
    by_shape (x ∷ xs) = refl
