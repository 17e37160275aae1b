-- ===== src/Validation/AccelStructs.antt =====
-- src/validation/validation-commandlist.cpp: the builds of acceleration structures, behind
-- `requireOpenState` and `requireType`.
--
-- An acceleration structure is the number of its `AccelStructWrapper`; one that is not wrapped is
-- `none` here, and the checks pass it by. A build answers whether it was forwarded.
use cutie_rhi.Base.{
  ℕ, ◌+◌, ◌*◌, ◌%◌, Bool, true, not, ◌&&◌, List, [], ◌∷◌, Option, none, some, length, leb, ◌==◌,
  if◌then◌else◌,
}
use cutie_rhi.Resources.{u64}
use cutie_rhi.Validation.{BufferInfo}
use cutie_rhi.Validation.Geometry.{
  GeometryDesc, GeometryFault, first_failing, geometry_fault, update_fault,
}

pub record AccelStructWrapper : Type 0 where
  pub is_top_level : Bool
  pub allow_compaction : Bool
  pub allow_update : Bool
  pub was_built : Bool
  pub build_geometries : List GeometryDesc
  pub max_instances : ℕ
  pub build_instances : ℕ

-- The flags that the checks read.
pub record BuildFlags : Type 0 where
  pub perform_update : Bool
  pub allow_empty_instances : Bool

pub data BuildFault : Type 0 where
  bottom_build_of_top top_build_of_bottom too_many_instances : BuildFault
  update_not_allowed update_before_build update_count_differs rebuild_of_compacted : BuildFault
  geometry_wrong : ℕ → GeometryFault → BuildFault
  null_instance instance_of_top instance_not_built : ℕ → BuildFault
  null_instance_buffer instance_buffer_flag instance_buffer_small : BuildFault

-- The wrappers, by their numbers.
abbrev pub Store : Type 0
Store = ℕ → AccelStructWrapper

abbrev pub put : ℕ → AccelStructWrapper → Store → Store
put k w store = λ j. if k == j then w else store j

abbrev at_geometry : Option (ℕ × GeometryFault) → Option BuildFault
at_geometry none = none
at_geometry (some (i, f)) = some (BuildFault.geometry_wrong i f)

-- The first of two faults.
abbrev pub or_fault : Option BuildFault → Option BuildFault → Option BuildFault
or_fault none g = g
or_fault (some f) g = some f

unfoldable pub update_checks : AccelStructWrapper → ℕ → ℕ → List (Bool × BuildFault)
update_checks w built now =
    (w.allow_update, BuildFault.update_not_allowed)
    ∷ (w.was_built, BuildFault.update_before_build)
    ∷ (built == now, BuildFault.update_count_differs)
    ∷ []

-- The checks of `buildBottomLevelAccelStruct` on a wrapper.
unfoldable pub bottom_fault :
    Bool → AccelStructWrapper → List GeometryDesc → BuildFlags → Option BuildFault
bottom_fault vulkan w geometries flags =
    or_fault (first_failing ((not w.is_top_level, BuildFault.bottom_build_of_top) ∷ [])) (
      or_fault (at_geometry (geometry_fault vulkan 0 geometries)) (
        or_fault
          (if flags.perform_update
            then or_fault
                (first_failing (update_checks w (length w.build_geometries) (length geometries)))
                (at_geometry (update_fault 0 w.build_geometries geometries))
            else none)
          (first_failing
            ((not (w.allow_compaction && w.was_built), BuildFault.rebuild_of_compacted) ∷ []))))

unfoldable pub build_bottom_level_accel_struct :
    Bool → ℕ → List GeometryDesc → BuildFlags → Store → Option BuildFault × Store
build_bottom_level_accel_struct vulkan k geometries flags store =
    let w = store k in
    elim (bottom_fault vulkan w geometries flags) [
      | some f ↦ (some f, store)
      | none ↦ (none, put k (record w { was_built = true; build_geometries = geometries }) store)
    ]

unfoldable pub validate_build_top_level_accel_struct :
    AccelStructWrapper → ℕ → BuildFlags → Option BuildFault
validate_build_top_level_accel_struct w num_instances flags = first_failing (
    (w.is_top_level, BuildFault.top_build_of_bottom)
    ∷ (leb num_instances w.max_instances, BuildFault.too_many_instances)
    ∷ (if flags.perform_update then update_checks w w.build_instances num_instances else []))

-- An instance: no structure, one that is not wrapped, or the number of a wrapper.
pub data Instance : Type 0 where
  empty unwrapped : Instance
  wrapped : ℕ → Instance

unfoldable pub instance_fault : Store → Bool → ℕ → Instance → Option BuildFault
instance_fault store allow_empty i Instance.empty =
    first_failing ((allow_empty, BuildFault.null_instance i) ∷ [])
instance_fault store allow_empty i Instance.unwrapped = none
instance_fault store allow_empty i (Instance.wrapped k) = first_failing (
    (not (store k).is_top_level, BuildFault.instance_of_top i)
    ∷ ((store k).was_built, BuildFault.instance_not_built i)
    ∷ [])

unfoldable pub instances_fault : Store → Bool → ℕ → List Instance → Option BuildFault
instances_fault store allow_empty i [] = none
instances_fault store allow_empty i (x ∷ xs) =
    or_fault (instance_fault store allow_empty i x) (instances_fault store allow_empty (i + 1) xs)

unfoldable pub build_top_level_accel_struct :
    ℕ → List Instance → BuildFlags → Store → Option BuildFault × Store
build_top_level_accel_struct k instances flags store =
    let w = store k in
    elim (or_fault (validate_build_top_level_accel_struct w (length instances) flags)
      (instances_fault store flags.allow_empty_instances 0 instances)) [
        | some f ↦ (some f, store)
        | none ↦
            (none, put k (record w { was_built = true; build_instances = length instances }) store)
      ]

-- The size of one instance is 64 bytes. Nothing in the wrapper is changed.
unfoldable pub build_top_level_accel_struct_from_buffer :
    ℕ → Option BufferInfo → ℕ → ℕ → BuildFlags → Store → Option BuildFault × Store
build_top_level_accel_struct_from_buffer k none offset num_instances flags store =
    (some BuildFault.null_instance_buffer, store)
build_top_level_accel_struct_from_buffer k (some b) offset num_instances flags store = (
  or_fault (validate_build_top_level_accel_struct (store k) num_instances flags) (
      first_failing (
        (b.is_accel_struct_build_input, BuildFault.instance_buffer_flag)
        ∷ (
          leb ((offset + (num_instances * 64) % u64) % u64) b.byte_size,
          BuildFault.instance_buffer_small,
        )
        ∷ [])),
  store,
)
