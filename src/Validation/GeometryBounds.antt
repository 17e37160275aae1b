-- ===== src/Validation/GeometryBounds.antt =====
-- src/validation/validation-commandlist.cpp: the data that the geometries of a forwarded build refer
-- to lie within their buffers.
use cutie_rhi.Base.{
  ℕ, ◌+◌, ◌*◌, ◌/◌, ◌%◌, ◌<◌, ◌≤◌, Bool, true, false, List, [], ◌∷◌, none, All, ◌≡◌, refl, arith,
}
use cutie_rhi.Resources.{u32, u64}
use cutie_rhi.Validation.Geometry.{
  GeometryTriangles, GeometryAabbs, GeometryDesc, is_unknown, bytes_per_index, size_of,
  first_failing, primitives, update_fault_of,
}

-- No check of a list without a failure fails.
pub first_failing-none {ℓ} :
    {F : Type ℓ} (checks : List (Bool × F))
    → first_failing checks ≡ none
    → All (λ c. c.0 ≡ true) checks
unfolding first_failing
first_failing-none [] e = tt
first_failing-none ((true, f) ∷ checks) e = (refl, first_failing-none checks e)
first_failing-none ((false, f) ∷ checks) e = cc

-- The triangles and the boxes of a list of geometries. The code has no such checks of spheres.
abbrev pub triangles_of : List GeometryDesc → List GeometryTriangles
triangles_of [] = []
triangles_of (GeometryDesc.triangles t ∷ gs) = t ∷ triangles_of gs
triangles_of (g ∷ gs) = triangles_of gs

abbrev pub aabbs_of : List GeometryDesc → List GeometryAabbs
aabbs_of [] = []
aabbs_of (GeometryDesc.aabbs a ∷ gs) = a ∷ aabbs_of gs
aabbs_of (g ∷ gs) = aabbs_of gs

-- The products and sums fit their machine words.
abbrev pub TrianglesNoWrap : GeometryTriangles → Type 0
TrianglesNoWrap t =
    (t.index_count * bytes_per_index t.index_format < u32)
    × (t.vertex_count * t.vertex_stride < u32)
    × (t.index_offset + t.index_count * bytes_per_index t.index_format < u64)
    × (t.vertex_offset + t.vertex_count * t.vertex_stride < u64)

abbrev pub AabbsNoWrap : GeometryAabbs → Type 0
AabbsNoWrap a = (a.count * a.stride < u32) × (a.offset + a.count * a.stride < u64)

-- The data lie within the buffers.
abbrev pub TrianglesInBounds : GeometryTriangles → Type 0
TrianglesInBounds t =
    (is_unknown t.index_format ≡ false
      → (t.index_offset + t.index_count * bytes_per_index t.index_format ≤ size_of t.index_buffer)
        × (t.index_count % 3 ≡ 0))
    × (t.vertex_offset + t.vertex_count * t.vertex_stride ≤ size_of t.vertex_buffer)
    × (is_unknown t.index_format ≡ true → (t.index_count ≡ 0) × (t.vertex_count % 3 ≡ 0))

abbrev pub AabbsInBounds : GeometryAabbs → Type 0
AabbsInBounds a = a.offset + a.count * a.stride ≤ size_of a.buffer

abbrev pub AreBounded : List GeometryDesc → Type 0
AreBounded gs = All TrianglesInBounds (triangles_of gs) × All AabbsInBounds (aabbs_of gs)

-- In an update of triangles whose vertex formats are known, as those of every accepted build
-- are, the number of vertices is not compared: any two numbers pass, even if neither geometry has indices,
-- as long as the numbers of index triples agree.
pub update_fault_of-vertex_count :
    (before after : GeometryTriangles)
    → is_unknown before.vertex_format ≡ false
    → is_unknown after.vertex_format ≡ false
    → (update_fault_of (GeometryDesc.triangles before) (GeometryDesc.triangles after) ≡ none
        → before.index_count / 3 ≡ after.index_count / 3)
      × (before.index_count / 3 ≡ after.index_count / 3
          → (n : ℕ)
          → update_fault_of
              (GeometryDesc.triangles before)
              (GeometryDesc.triangles (record after { vertex_count = n }))
            ≡ none)
unfolding update_fault_of first_failing primitives
update_fault_of-vertex_count before after e f = ground arith
