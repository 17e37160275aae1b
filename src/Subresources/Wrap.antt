-- ===== src/Subresources/Wrap.antt =====
-- src/common/misc.cpp: where `resolve` does not do what the constants of
-- `TextureSubresourceSet` promise, and the case of `AllSubresources`, where it does.
use cutie_rhi.Base.{ℕ, ◌-◌, ◌<◌, true, false, ◌≡◌, inl, inr, arith, Bool-cases}
use cutie_rhi.Resources.{u32, TextureDesc}
use cutie_rhi.Subresources.{
  SubresourceSet, all_subresources, has_slices, clip_count, resolve, is_entire_texture,
}
use cutie_rhi.Subresources.Resolve.{Visits, VisitsBoth, IsValid, is_entire_texture_iff}

-- `AllMipLevels` counted from a base other than 0 resolves to a set over which the loops visit
-- nothing, on every texture: the end of the range wraps below its base.
pub all_levels-from-base :
    (s : SubresourceSet) (desc : TextureDesc) (mip slice : ℕ)
    → 0 < s.base_mip_level
    → s.base_mip_level < u32
    → desc.mip_levels < u32
    → s.num_mip_levels ≡ u32 - 1
    → ¬ VisitsBoth (resolve s desc false) mip slice
unfolding resolve clip_count
all_levels-from-base s desc mip slice p b w e h = omega arith

clip_count-all : (limit i : ℕ) → limit < u32 → i < limit → Visits 0 (clip_count 0 (u32 - 1) limit) i
unfolding clip_count
clip_count-all limit i w h = omega arith

visits-all_subresources :
    (desc : TextureDesc) (mip slice : ℕ)
    → IsValid desc
    → mip < desc.mip_levels
    → slice < desc.array_size
    → VisitsBoth (resolve all_subresources desc false) mip slice
unfolding resolve
visits-all_subresources desc mip slice v hm hs = elim (Bool-cases (has_slices desc.dimension)) [
  | inl e ↦ rw e (
    clip_count-all desc.mip_levels mip v.mips_word hm,
    clip_count-all desc.array_size slice v.slices_word hs,
  )
  | inr e ↦ rw e (clip_count-all desc.mip_levels mip v.mips_word hm, omega (arith, v.one_slice e))
]

-- `AllSubresources` resolves to the entire texture.
pub resolve-all_subresources :
    (desc : TextureDesc)
    → IsValid desc
    → is_entire_texture (resolve all_subresources desc false) desc ≡ true
resolve-all_subresources desc v =
    (is_entire_texture_iff all_subresources desc v).1
      (λ mip slice. visits-all_subresources desc mip slice v)
