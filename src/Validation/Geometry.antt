-- ===== src/Validation/Geometry.antt =====
-- src/validation/validation-commandlist.cpp: the geometries of a bottom-level acceleration structure,
-- as `buildBottomLevelAccelStruct` checks them.
use cutie_rhi.Base.{
  ℕ, ◌+◌, ◌*◌, ◌/◌, ◌%◌, Bool, true, false, not, ◌&&◌, ◌||◌, List, [], ◌∷◌, ◌++◌, Option, none,
  some, ltb, leb, ◌==◌, if◌then◌else◌,
}
use cutie_rhi.Resources.{u32, u64}
use cutie_rhi.Validation.{BufferInfo}
use cutie_rhi.Validation.Guards.{is_set}

-- The formats that the checks tell apart.
pub data Format : Type 0 where
  unknown r8_uint r16_uint r32_uint : Format
  rg32_float rgb32_float rgba32_float rg16_float rgba16_float rg16_snorm rgba16_snorm : Format
  rgba16_unorm rg16_unorm r10g10b10a2_unorm rgba8_unorm rg8_unorm rgba8_snorm rg8_snorm : Format
  other_format : ℕ → Format

pub record GeometryTriangles : Type 0 where
  pub index_buffer : Option BufferInfo
  pub vertex_buffer : Option BufferInfo
  pub index_format : Format
  pub vertex_format : Format
  pub index_offset : ℕ
  pub vertex_offset : ℕ
  pub index_count : ℕ
  pub vertex_count : ℕ
  pub vertex_stride : ℕ

pub record GeometryAabbs : Type 0 where
  pub buffer : Option BufferInfo
  pub offset : ℕ
  pub count : ℕ
  pub stride : ℕ

-- Spheres and swept spheres. The geometry is a union: `count_bits` is what its `aabbs.count` reads.
pub record GeometryCurves : Type 0 where
  pub vertex_buffer : Option BufferInfo
  pub count_bits : ℕ

pub data GeometryDesc : Type 0 where
  triangles : GeometryTriangles → GeometryDesc
  aabbs : GeometryAabbs → GeometryDesc
  spheres lss : GeometryCurves → GeometryDesc

pub data GeometryFault : Type 0 where
  index_format_only_on_vulkan bad_index_format null_index_buffer index_buffer_flag : GeometryFault
  index_overrun index_count_not_triangles index_count_unexpected : GeometryFault
  bad_vertex_format null_vertex_buffer zero_stride vertex_count_not_triangles : GeometryFault
  vertex_buffer_flag vertex_overrun null_aabb_buffer aabb_buffer_flag short_stride : GeometryFault
  aabb_overrun types_differ triangle_counts_differ aabb_counts_differ : GeometryFault

abbrev pub is_unknown : Format → Bool
is_unknown Format.unknown = true
is_unknown _ = false

abbrev pub is_r8_uint : Format → Bool
is_r8_uint Format.r8_uint = true
is_r8_uint _ = false

abbrev pub is_index_format : Format → Bool
is_index_format Format.r8_uint = true
is_index_format Format.r16_uint = true
is_index_format Format.r32_uint = true
is_index_format _ = false

-- `bytesPerBlock` of the index formats.
abbrev pub bytes_per_index : Format → ℕ
bytes_per_index Format.r8_uint = 1
bytes_per_index Format.r16_uint = 2
bytes_per_index Format.r32_uint = 4
bytes_per_index _ = 0

abbrev pub is_vertex_format : Format → Bool
is_vertex_format Format.unknown = false
is_vertex_format Format.r8_uint = false
is_vertex_format Format.r16_uint = false
is_vertex_format Format.r32_uint = false
is_vertex_format (Format.other_format n) = false
is_vertex_format _ = true

abbrev pub build_input : Option BufferInfo → Bool
build_input none = false
build_input (some b) = b.is_accel_struct_build_input

abbrev pub size_of : Option BufferInfo → ℕ
size_of none = 0
size_of (some b) = b.byte_size

-- The first check that fails.
unfoldable pub first_failing {ℓ} : {F : Type ℓ} → List (Bool × F) → Option F
first_failing [] = none
first_failing ((ok, f) ∷ checks) = if ok then first_failing checks else some f

-- `indexCount * bytesPerBlock` and `vertexCount * vertexStride` are products of 32-bit numbers.
unfoldable pub index_size : GeometryTriangles → ℕ
index_size t = (t.index_count * bytes_per_index t.index_format) % u32

unfoldable pub vertex_data_size : GeometryTriangles → ℕ
vertex_data_size t = (t.vertex_count * t.vertex_stride) % u32

unfoldable pub index_checks : Bool → GeometryTriangles → List (Bool × GeometryFault)
index_checks vulkan t =
    if is_unknown t.index_format
    then ((
      (t.index_count == 0) && not (is_set t.index_buffer),
      GeometryFault.index_count_unexpected,
    )
        ∷ [])
    else ((vulkan || not (is_r8_uint t.index_format), GeometryFault.index_format_only_on_vulkan)
        ∷ (is_index_format t.index_format, GeometryFault.bad_index_format)
        ∷ (is_set t.index_buffer, GeometryFault.null_index_buffer)
        ∷ (build_input t.index_buffer, GeometryFault.index_buffer_flag)
        ∷ (
          leb ((t.index_offset + index_size t) % u64) (size_of t.index_buffer),
          GeometryFault.index_overrun,
        )
        ∷ (t.index_count % 3 == 0, GeometryFault.index_count_not_triangles)
        ∷ [])

unfoldable pub vertex_checks : GeometryTriangles → List (Bool × GeometryFault)
vertex_checks t =
    (is_vertex_format t.vertex_format, GeometryFault.bad_vertex_format)
    ∷ (is_set t.vertex_buffer, GeometryFault.null_vertex_buffer)
    ∷ (not (t.vertex_stride == 0), GeometryFault.zero_stride)
    ∷ (
      not (is_unknown t.index_format && not (t.vertex_count % 3 == 0)),
      GeometryFault.vertex_count_not_triangles,
    )
    ∷ (build_input t.vertex_buffer, GeometryFault.vertex_buffer_flag)
    ∷ (
      leb ((t.vertex_offset + vertex_data_size t) % u64) (size_of t.vertex_buffer),
      GeometryFault.vertex_overrun,
    )
    ∷ []

-- The size of one box is 24 bytes.
unfoldable pub aabb_checks : GeometryAabbs → List (Bool × GeometryFault)
aabb_checks a =
    (is_set a.buffer, GeometryFault.null_aabb_buffer)
    ∷ (build_input a.buffer, GeometryFault.aabb_buffer_flag)
    ∷ (not (ltb 1 a.count && ltb a.stride 24), GeometryFault.short_stride)
    ∷ (
      leb ((a.offset + (a.count * a.stride) % u32) % u64) (size_of a.buffer),
      GeometryFault.aabb_overrun,
    )
    ∷ []

unfoldable pub geometry_checks : Bool → GeometryDesc → List (Bool × GeometryFault)
geometry_checks vulkan (GeometryDesc.triangles t) = index_checks vulkan t ++ vertex_checks t
geometry_checks vulkan (GeometryDesc.aabbs a) = aabb_checks a
geometry_checks vulkan (GeometryDesc.spheres c) =
    (is_set c.vertex_buffer, GeometryFault.null_vertex_buffer) ∷ []
geometry_checks vulkan (GeometryDesc.lss c) =
    (is_set c.vertex_buffer, GeometryFault.null_vertex_buffer) ∷ []

-- The first faulty geometry, with its number.
unfoldable pub geometry_fault : Bool → ℕ → List GeometryDesc → Option (ℕ × GeometryFault)
geometry_fault vulkan i [] = none
geometry_fault vulkan i (g ∷ gs) = elim (first_failing (geometry_checks vulkan g)) [
  | some f ↦ some (i, f)
  | none ↦ geometry_fault vulkan (i + 1) gs
]

-- The number of triangles that an update compares.
unfoldable pub primitives : GeometryTriangles → ℕ
primitives t = (if is_unknown t.vertex_format then t.vertex_count else t.index_count) / 3

-- What an update reads as the number of boxes of a geometry that is not of triangles.
abbrev count_of : GeometryDesc → ℕ
count_of (GeometryDesc.triangles t) = 0
count_of (GeometryDesc.aabbs a) = a.count
count_of (GeometryDesc.spheres c) = c.count_bits
count_of (GeometryDesc.lss c) = c.count_bits

abbrev kind_of : GeometryDesc → ℕ
kind_of (GeometryDesc.triangles t) = 0
kind_of (GeometryDesc.aabbs a) = 1
kind_of (GeometryDesc.spheres c) = 2
kind_of (GeometryDesc.lss c) = 3

unfoldable pub update_fault_of : GeometryDesc → GeometryDesc → Option GeometryFault
update_fault_of (GeometryDesc.triangles before) (GeometryDesc.triangles after) =
    first_failing
      ((primitives before == primitives after, GeometryFault.triangle_counts_differ) ∷ [])
update_fault_of before after = first_failing (
    (kind_of before == kind_of after, GeometryFault.types_differ)
    ∷ (count_of before == count_of after, GeometryFault.aabb_counts_differ)
    ∷ [])

-- The geometries of an update against those of the build: the lists have the same length.
unfoldable pub update_fault : ℕ → List GeometryDesc → List GeometryDesc → Option (ℕ × GeometryFault)
update_fault i (before ∷ bs) (after ∷ afters) = elim (update_fault_of before after) [
  | some f ↦ some (i, f)
  | none ↦ update_fault (i + 1) bs afters
]
update_fault i _ _ = none
