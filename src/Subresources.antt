-- ===== src/Subresources.antt =====
-- src/common/misc.cpp and include/cutie/cutie.h: sets of texture subresources, texture slices and
-- buffer ranges, and how `resolve` clips them to a resource. Arithmetic on `uint32_t` and
-- `uint64_t` keeps its wrap-around.
pub mod Resolve
pub mod Wrap
use cutie_rhi.Base.{
  ℕ, suc, ◌+◌, ◌-◌, ◌/◌, ◌%◌, ◌^◌, min, max, Bool, true, false, ◌&&◌, ◌||◌, ltb, ◌==◌,
  if◌then◌else◌,
}
use cutie_rhi.Resources.{u32, TextureDimension, TextureDesc, BufferDesc}

pub record SubresourceSet : Type 0 where
  pub base_mip_level : ℕ
  pub num_mip_levels : ℕ
  pub base_array_slice : ℕ
  pub num_array_slices : ℕ

-- `AllSubresources`; -1 is the largest `uint32_t`.
abbrev pub all_subresources : SubresourceSet
all_subresources = record {
  base_mip_level = 0;
  num_mip_levels = u32 - 1;
  base_array_slice = 0;
  num_array_slices = u32 - 1;
}

-- The cases of the `switch` of `resolve` and of `isEntireTexture`.
abbrev pub has_slices : TextureDimension → Bool
has_slices TextureDimension.texture_1d_array = true
has_slices TextureDimension.texture_2d_array = true
has_slices TextureDimension.texture_cube = true
has_slices TextureDimension.texture_cube_array = true
has_slices TextureDimension.texture_2d_ms_array = true
has_slices _ = false

-- `int last = min(base + num, limit); max(0u, last - base)`: the difference is computed in
-- `uint32_t`, so that the maximum with 0 changes nothing and a negative difference wraps.
unfoldable pub clip_count : ℕ → ℕ → ℕ → ℕ
clip_count base num limit = max 0 ((min ((base + num) % u32) limit + u32 - base) % u32)

unfoldable pub resolve : SubresourceSet → TextureDesc → Bool → SubresourceSet
resolve s desc single_mip_level = record {
  base_mip_level = s.base_mip_level;
  num_mip_levels =
      if single_mip_level then 1 else clip_count s.base_mip_level s.num_mip_levels desc.mip_levels;
  base_array_slice = if has_slices desc.dimension then s.base_array_slice else 0;
  num_array_slices =
      if has_slices desc.dimension
      then clip_count s.base_array_slice s.num_array_slices desc.array_size
      else 1;
}

unfoldable pub is_entire_texture : SubresourceSet → TextureDesc → Bool
is_entire_texture s desc =
    if ltb 0 s.base_mip_level || ltb ((s.base_mip_level + s.num_mip_levels) % u32) desc.mip_levels
    then false
    else if has_slices desc.dimension
        && (ltb 0 s.base_array_slice
            || ltb ((s.base_array_slice + s.num_array_slices) % u32) desc.array_size)
    then false
    else true

pub record TextureSlice : Type 0 where
  pub x : ℕ
  pub y : ℕ
  pub z : ℕ
  pub width : ℕ
  pub height : ℕ
  pub depth : ℕ
  pub mip_level : ℕ
  pub array_slice : ℕ

-- One side of a mip level.
unfoldable pub mip_extent : ℕ → ℕ → ℕ
mip_extent size mip_level = max (size / 2 ^ mip_level) 1

abbrev is_texture_3d : TextureDimension → Bool
is_texture_3d TextureDimension.texture_3d = true
is_texture_3d _ = false

-- `TextureSlice::resolve`; its assertion `mipLevel < desc.mipLevels` is a premise of the theorems.
unfoldable pub resolve_slice : TextureSlice → TextureDesc → TextureSlice
resolve_slice s desc = record s {
  width = if s.width == u32 - 1 then mip_extent desc.width s.mip_level else s.width;
  height = if s.height == u32 - 1 then mip_extent desc.height s.mip_level else s.height;
  depth =
      if s.depth == u32 - 1
      then (if is_texture_3d desc.dimension then mip_extent desc.depth s.mip_level else 1)
      else s.depth;
}

pub record BufferRange : Type 0 where
  pub byte_offset : ℕ
  pub byte_size : ℕ

-- `BufferRange::resolve`; the subtraction does not wrap, since the offset is clipped first.
unfoldable pub resolve_range : BufferRange → BufferDesc → BufferRange
resolve_range r desc =
    let offset = min r.byte_offset desc.byte_size in
    record {
      byte_offset = offset;
      byte_size =
          if r.byte_size == 0
          then desc.byte_size - offset
          else min r.byte_size (desc.byte_size - offset);
    }
