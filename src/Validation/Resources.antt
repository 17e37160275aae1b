-- ===== src/Validation/Resources.antt =====
-- src/validation/validation-commandlist.cpp: the operations on textures and buffers.
use cutie_rhi.Base.{
  ℕ, ◌+◌, ◌%◌, Bool, false, not, ◌&&◌, ◌||◌, List, [], ◌∷◌, ◌++◌, Option, some, ltb, leb, ◌==◌,
}
use cutie_rhi.Versioning.{CommandQueue}
use cutie_rhi.Resources.{u64, TextureDesc}
use cutie_rhi.Subresources.{SubresourceSet, resolve, mip_extent}
use cutie_rhi.Validation.{Operation, Call, Fault, Session, BufferInfo}
use cutie_rhi.Validation.Guards.{
  forward, guarded, report, reported, failing, require_open_state, require_type, is_set,
}

-- A texture: what the checks read of its description, and of `getFormatInfo` of its format.
pub record TextureInfo : Type 0 where
  pub desc : TextureDesc
  pub has_depth : Bool
  pub has_stencil : Bool
  pub is_integer : Bool

abbrev opened_with : CommandQueue → Operation → Session → List (Bool × Fault)
opened_with queue op s = require_open_state s ∷ require_type queue op s ∷ []

unfoldable pub clear_texture_float : TextureInfo → ℕ → Session → Session
clear_texture_float t args s =
    let op = Operation.clear_texture_float in
    guarded
      (opened_with CommandQueue.compute op s
        ++ ((not (t.has_depth || t.has_stencil), Fault.is_depth_stencil op)
            ∷ (not t.is_integer, Fault.is_integer_texture op)
            ∷ (t.desc.is_render_target || t.desc.is_uav, Fault.not_render_target op)
            ∷ []))
      (forward (Call.operation_call op args)) s

unfoldable pub clear_depth_stencil_texture : TextureInfo → ℕ → Session → Session
clear_depth_stencil_texture t args s =
    let op = Operation.clear_depth_stencil_texture in
    guarded
      (opened_with CommandQueue.graphics op s
        ++ ((t.has_depth || t.has_stencil, Fault.not_depth_stencil op)
            ∷ (t.desc.is_render_target, Fault.not_render_target op)
            ∷ []))
      (forward (Call.operation_call op args)) s

unfoldable pub clear_texture_uint : TextureInfo → ℕ → Session → Session
clear_texture_uint t args s =
    let op = Operation.clear_texture_uint in
    guarded
      (opened_with CommandQueue.compute op s
        ++ ((not (t.has_depth || t.has_stencil), Fault.is_depth_stencil op)
            ∷ (t.is_integer, Fault.not_integer_texture op)
            ∷ (t.desc.is_render_target || t.desc.is_uav, Fault.not_render_target op)
            ∷ []))
      (forward (Call.operation_call op args)) s

-- The row pitch is an error that does not stop the call.
unfoldable pub write_texture : TextureInfo → ℕ → ℕ → Session → Session
write_texture dest row_pitch args s =
    guarded (require_open_state s ∷ [])
      (λ s. forward (Call.operation_call Operation.write_texture args) (
        report
          (failing ((not (ltb 1 dest.desc.height && (row_pitch == 0)), Fault.row_pitch_zero) ∷ []))
          s))
      s

-- The checks of `resolveTexture` on two textures that are not null.
unfoldable pub resolve_faults :
    TextureInfo → SubresourceSet → TextureInfo → SubresourceSet → List Fault
resolve_faults dest dest_set src src_set =
    let dst_sr = resolve dest_set dest.desc false in
    let src_sr = resolve src_set src.desc false in
    failing (
      (
        (dst_sr.num_array_slices == src_sr.num_array_slices)
            && (dst_sr.num_mip_levels == src_sr.num_mip_levels),
        Fault.set_sizes_differ,
      )
      ∷ (
        (mip_extent src.desc.width src_sr.base_mip_level
              == mip_extent dest.desc.width dst_sr.base_mip_level)
            && (mip_extent src.desc.height src_sr.base_mip_level
                == mip_extent dest.desc.height dst_sr.base_mip_level),
        Fault.mip_sizes_differ,
      )
      ∷ (dest.desc.sample_count == 1, Fault.dest_multi_sampled)
      ∷ (ltb 1 src.desc.sample_count, Fault.src_not_multi_sampled)
      ∷ (src.desc.format == dest.desc.format, Fault.formats_differ)
      ∷ [])

abbrev resolve_two :
    Option TextureInfo → SubresourceSet → Option TextureInfo → SubresourceSet → List Fault
resolve_two (some dest) dest_set (some src) src_set = resolve_faults dest dest_set src src_set
resolve_two dest dest_set src src_set =
    failing ((is_set dest, Fault.null_dest) ∷ (is_set src, Fault.null_src) ∷ [])

unfoldable pub resolve_texture :
    Option TextureInfo
    → SubresourceSet
    → Option TextureInfo
    → SubresourceSet
    → ℕ
    → Session
    → Session
resolve_texture dest dest_set src src_set args s =
    let op = Operation.resolve_texture in
    guarded (opened_with CommandQueue.graphics op s)
      (reported (resolve_two dest dest_set src src_set) (forward (Call.operation_call op args))) s

unfoldable pub write_buffer : BufferInfo → ℕ → ℕ → ℕ → Session → Session
write_buffer b data_size dest_offset_bytes args s =
    guarded
      (require_open_state s
        ∷ (leb ((data_size + dest_offset_bytes) % u64) b.byte_size, Fault.buffer_too_small)
        ∷ (not (ltb 0 dest_offset_bytes && b.is_volatile), Fault.volatile_offset)
        ∷ (not (ltb 65536 data_size && b.is_volatile), Fault.volatile_too_long)
        ∷ [])
      (forward (Call.operation_call Operation.write_buffer args)) s
