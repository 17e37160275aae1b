-- ===== src/Subresources/Resolve.antt =====
-- src/common/misc.cpp: what `TextureSubresourceSet::resolve`, `isEntireTexture` and
-- `BufferRange::resolve` select.
use cutie_rhi.Base.{
  ℕ, ◌+◌, ◌-◌, ◌*◌, ◌%◌, ◌≤◌, ◌<◌, min, true, false, ltb, ◌≡◌, ◌↔◌, refl, arith, Bool-cases, ◌||◌,
  inl, inr,
}
use mathlib.Core.Bool.{false≢true}
use cutie_rhi.Resources.{u32, TextureDesc, BufferDesc}
use cutie_rhi.Subresources.{
  SubresourceSet, has_slices, clip_count, resolve, is_entire_texture, BufferRange, resolve_range,
}

-- The indices that a loop `for (i = base; i < base + num; i++)` on `uint32_t` visits.
abbrev pub Visits : ℕ → ℕ → ℕ → Type 0
Visits base num i = (base ≤ i) × (i < (base + num) % u32)

pub clip_count_end :
    (base num limit : ℕ)
    → base < u32
    → limit < u32
    → (base + clip_count base num limit) % u32 ≡ min ((base + num) % u32) limit
unfolding clip_count
clip_count_end base num limit b l = omega arith

pub clip_count_again :
    (base num limit : ℕ)
    → base < u32
    → limit < u32
    → clip_count base (clip_count base num limit) limit ≡ clip_count base num limit
unfolding clip_count
clip_count_again base num limit b l = omega arith

pub Visits-clip_count :
    (base num limit i : ℕ)
    → base < u32
    → limit < u32
    → Visits base (clip_count base num limit) i ↔ (Visits base num i × (i < limit))
unfolding clip_count
Visits-clip_count base num limit i b l = omega arith

clip_exact :
    (base num limit i : ℕ)
    → base + num < u32
    → limit < u32
    → Visits base (clip_count base num limit) i ↔ ((base ≤ i) × (i < base + num) × (i < limit))
unfolding clip_count
clip_exact base num limit i b l = omega arith

-- What the numbers of a description of a real texture satisfy.
pub record IsValid (desc : TextureDesc) : Type 0 where
  pub mips_pos : 0 < desc.mip_levels
  pub slices_pos : 0 < desc.array_size
  pub mips_word : desc.mip_levels < u32
  pub slices_word : desc.array_size < u32
  pub subresources_word : desc.mip_levels * desc.array_size < u32
  pub one_slice : has_slices desc.dimension ≡ false → desc.array_size ≡ 1

pub record IsWords (s : SubresourceSet) : Type 0 where
  pub base_mip_word : s.base_mip_level < u32
  pub num_mips_word : s.num_mip_levels < u32
  pub base_slice_word : s.base_array_slice < u32
  pub num_slices_word : s.num_array_slices < u32

-- The subresources that a set stands for, counted without a wrap: on a texture with one slice the
-- range of slices means nothing.
abbrev pub Selects : SubresourceSet → TextureDesc → ℕ → ℕ → Type 0
Selects s desc mip slice =
    (s.base_mip_level ≤ mip)
    × (mip < s.base_mip_level + s.num_mip_levels)
    × (has_slices desc.dimension ≡ true
        → (s.base_array_slice ≤ slice) × (slice < s.base_array_slice + s.num_array_slices))

-- The subresources that the two nested loops over a set visit.
abbrev pub VisitsBoth : SubresourceSet → ℕ → ℕ → Type 0
VisitsBoth s mip slice =
    Visits s.base_mip_level s.num_mip_levels mip
    × Visits s.base_array_slice s.num_array_slices slice

-- `resolve` followed by the loops over its result visits exactly the existing subresources that
-- the set stands for, provided that neither `base + num` exceeds the 32 bits.
pub resolve_exact :
    (s : SubresourceSet) (desc : TextureDesc) (mip slice : ℕ)
    → IsValid desc
    → IsWords s
    → s.base_mip_level + s.num_mip_levels < u32
    → s.base_array_slice + s.num_array_slices < u32
    → VisitsBoth (resolve s desc false) mip slice
      ↔ (Selects s desc mip slice × (mip < desc.mip_levels) × (slice < desc.array_size))
unfolding resolve
resolve_exact s desc mip slice v w hm hs =
    let mips = clip_exact s.base_mip_level s.num_mip_levels desc.mip_levels mip hm v.mips_word in
    let slices =
      clip_exact s.base_array_slice s.num_array_slices desc.array_size slice hs v.slices_word in
    elim (Bool-cases (has_slices desc.dimension)) [
      | inl e ↦ rw e (
        (λ h. (
          ((mips.0 h.0).0, (mips.0 h.0).1, λ _. ((slices.0 h.1).0, (slices.0 h.1).1)),
          (mips.0 h.0).2,
          (slices.0 h.1).2,
        )),
        (λ h. (mips.1 (h.0.0, h.0.1, h.1), slices.1 ((h.0.2 refl).0, (h.0.2 refl).1, h.2))),
      )
      | inr e ↦ rw e (
        (λ h. (
          ((mips.0 h.0).0, (mips.0 h.0).1, λ f. absurd (false≢true f)),
          (mips.0 h.0).2,
          omega (arith, v.one_slice e),
        )),
        (λ h. (mips.1 (h.0.0, h.0.1, h.1), omega (arith, v.one_slice e))),
      )
    ]

-- Resolving twice is resolving once.
pub resolve_idempotent :
    (s : SubresourceSet) (desc : TextureDesc)
    → IsValid desc
    → IsWords s
    → resolve (resolve s desc false) desc false ≡ resolve s desc false
unfolding resolve
resolve_idempotent s desc v w = ground (
  arith,
  clip_count_again s.base_mip_level s.num_mip_levels desc.mip_levels,
  clip_count_again s.base_array_slice s.num_array_slices desc.array_size,
)

-- The test that `isEntireTexture` makes on one of the two ranges.
abbrev Covers : ℕ → ℕ → ℕ → Type 0
Covers base num limit = (i : ℕ) → i < limit → Visits base num i

Covers-of_test :
    (base num limit : ℕ)
    → (ltb 0 base || ltb ((base + num) % u32) limit) ≡ false
    → Covers base num limit
Covers-of_test base num limit h i hi = ground arith

test_of_Covers :
    (base num limit : ℕ)
    → 0 < limit
    → Covers base num limit
    → (ltb 0 base || ltb ((base + num) % u32) limit) ≡ false
test_of_Covers base num limit p c = ground (arith, c 0 (omega arith), c (limit - 1) (omega arith))

module _ (r : SubresourceSet) (desc : TextureDesc) (v : IsValid desc) where
  -- Both ranges of the set reach over the whole texture.
  abbrev Entire : Type 0
  Entire =
      Covers r.base_mip_level r.num_mip_levels desc.mip_levels
      × Covers r.base_array_slice r.num_array_slices desc.array_size

  entire_of_test :
      (has_slices desc.dimension ≡ false → (r.base_array_slice ≡ 0) × (r.num_array_slices ≡ 1))
      → is_entire_texture r desc ≡ true
      → Entire
  unfolding is_entire_texture
  entire_of_test one h = elim (Bool-cases (has_slices desc.dimension)) [
    | inl e ↦ (
      Covers-of_test r.base_mip_level r.num_mip_levels desc.mip_levels (ground arith),
      Covers-of_test r.base_array_slice r.num_array_slices desc.array_size (ground arith),
    )
    | inr e ↦ (
      Covers-of_test r.base_mip_level r.num_mip_levels desc.mip_levels (ground arith),
      λ i hi. omega (arith, one e, v.one_slice e),
    )
  ]

  test_of_entire : Entire → is_entire_texture r desc ≡ true
  unfolding is_entire_texture
  test_of_entire c = ground (
    arith,
    test_of_Covers r.base_mip_level r.num_mip_levels desc.mip_levels v.mips_pos c.0,
    test_of_Covers r.base_array_slice r.num_array_slices desc.array_size v.slices_pos c.1,
  )

pub resolve-one_slice :
    (s : SubresourceSet) (desc : TextureDesc)
    → has_slices desc.dimension ≡ false
    → ((resolve s desc false).base_array_slice ≡ 0) × ((resolve s desc false).num_array_slices ≡ 1)
unfolding resolve
resolve-one_slice s desc e = rw e (refl, refl)

-- `isEntireTexture` of a resolved set holds exactly when the loops over the set visit every
-- subresource of the texture.
pub is_entire_texture_iff :
    (s : SubresourceSet) (desc : TextureDesc)
    → IsValid desc
    → (is_entire_texture (resolve s desc false) desc ≡ true) ↔ (
        (mip slice : ℕ)
        → mip < desc.mip_levels
        → slice < desc.array_size
        → VisitsBoth (resolve s desc false) mip slice)
is_entire_texture_iff s desc v = (
  (λ h mip slice hm hs.
      let c = entire_of_test (resolve s desc false) desc v (resolve-one_slice s desc) h in
      (c.0 mip hm, c.1 slice hs)),
  (λ h.
      test_of_entire (resolve s desc false) desc v
        ((λ i hi. (h i 0 hi v.slices_pos).0), (λ i hi. (h 0 i v.mips_pos hi).1))),
)

-- A range of bytes is clipped into the buffer.
pub resolve_range_bounds :
    (r : BufferRange) (desc : BufferDesc)
    → let q = resolve_range r desc in
      (q.byte_offset + q.byte_size ≤ desc.byte_size)
      × (q.byte_offset ≤ r.byte_offset)
      × (r.byte_offset + r.byte_size ≤ desc.byte_size → 0 < r.byte_size → q ≡ r)
      × (r.byte_size ≡ 0
          → r.byte_offset ≤ desc.byte_size
          → q.byte_offset + q.byte_size ≡ desc.byte_size)
unfolding resolve_range
resolve_range_bounds r desc = ground arith
