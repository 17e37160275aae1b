-- ===== src/DeviceWrapper/Buffers.antt =====
-- src/validation/validation-device.cpp: the buffers that are accepted.
use cutie_rhi.Base.{◌≡◌, arith, Bool, not, ◌&&◌, ◌||◌, none, ◌==◌, if◌then◌else◌}
use cutie_rhi.Resources.{BufferDesc}
use cutie_rhi.DeviceWrapper.{Underlying, is_empty, is_no_access, create_buffer}

-- A volatile buffer is a constant buffer with versions and no other use.
abbrev pub is_sound_volatile : BufferDesc → Bool
is_sound_volatile d =
    d.is_constant_buffer
    && not (d.max_versions == 0)
    && is_no_access d.cpu_access
    && not d.is_virtual
    && not (
        d.is_vertex_buffer || d.is_index_buffer || d.is_draw_indirect_args || d.can_have_uavs
        || d.is_accel_struct_build_input || d.is_accel_struct_storage || d.is_shader_binding_table)

abbrev pub is_acceptable : Underlying → BufferDesc → Bool
is_acceptable u d =
    (not d.is_volatile || is_sound_volatile d)
    && (not d.is_virtual || u.supports_virtual_resources)
    && (not d.keep_initial_state || not (d.initial_state == 0))

-- A description of a buffer is accepted without a message exactly when it is acceptable: if it is
-- volatile, it is a constant buffer with versions, without another use and without access by the
-- processor; it is virtual only on a device that supports this; and it does not keep an unknown
-- state. Then the wrapped device is asked, and otherwise nothing is created.
pub create_buffer-accepts :
    (u : Underlying) (d : BufferDesc)
    → (is_empty (create_buffer u d).0 ≡ is_acceptable u d)
      × ((create_buffer u d).1 ≡ (if is_acceptable u d then u.make_buffer d else none))
unfolding create_buffer
create_buffer-accepts u d = ground arith
