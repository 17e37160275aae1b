-- ===== src/Validation/Rebuilds.antt =====
-- src/validation/validation-commandlist.cpp: builds of an acceleration structure one after the other.
use cutie_rhi.Base.{
  ℕ, Bool, true, false, List, [], ◌∷◌, Option, none, some, length, ◌≡◌, ◌≢◌, refl, arith, sym, ap,
  ◌∙◌, All,
}
use mathlib.Core.Bool.{false≢true}
use cutie_rhi.Validation.{BufferInfo}
use cutie_rhi.Validation.Geometry.{first_failing, GeometryDesc}
use cutie_rhi.Validation.AccelStructs.{
  AccelStructWrapper, BuildFlags, BuildFault, Store, Instance, put, or_fault, update_checks,
  instances_fault, bottom_fault, build_bottom_level_accel_struct,
  validate_build_top_level_accel_struct, build_top_level_accel_struct,
  build_top_level_accel_struct_from_buffer,
}

-- A list of checks, not all of which hold, has a first failing one.
first_failing-some {ℓ} :
    {F : Type ℓ} (checks : List (Bool × F))
    → ¬ All (λ c. c.0 ≡ true) checks
    → (f : F) × (first_failing checks ≡ some f)
unfolding first_failing
first_failing-some [] h = absurd (h tt)
first_failing-some ((true, f) ∷ checks) h = first_failing-some checks (λ a. h (refl, a))
first_failing-some ((false, f) ∷ checks) h = (f, refl)

-- A top-level structure that is not known to be built is not updated.
validate-no_update :
    (w : AccelStructWrapper) (n : ℕ) (flags : BuildFlags)
    → w.was_built ≡ false
    → flags.perform_update ≡ true
    → (f : BuildFault) × (validate_build_top_level_accel_struct w n flags ≡ some f)
unfolding validate_build_top_level_accel_struct update_checks
validate-no_update w n flags e p = rw p (first_failing-some _ (λ a. false≢true (sym e ∙ a.1.1.1.0)))

from_buffer-store :
    (k : ℕ) (b : Option BufferInfo) (offset num : ℕ) (flags : BuildFlags) (store : Store)
    → (build_top_level_accel_struct_from_buffer k b offset num flags store).1 ≡ store
unfolding build_top_level_accel_struct_from_buffer
from_buffer-store k none offset num flags store = refl
from_buffer-store k (some b) offset num flags store = refl

build_top-no_update :
    (k : ℕ) (instances : List Instance) (flags : BuildFlags) (store : Store)
    → (store k).was_built ≡ false
    → flags.perform_update ≡ true
    → (f : BuildFault) × ((build_top_level_accel_struct k instances flags store).0 ≡ some f)
unfolding build_top_level_accel_struct
build_top-no_update k instances flags store e p = (
  v.0,
  refused _
      (ap (λ o. or_fault o (instances_fault store flags.allow_empty_instances 0 instances)) v.1),
)
  where
    v :
        (f : BuildFault) × (validate_build_top_level_accel_struct (store k) (length instances) flags
          ≡ some f)
    v = validate-no_update (store k) (length instances) flags e p

    refused :
        (o : Option BuildFault)
        → o ≡ some v.0
        → (elim o as (λ _. Option BuildFault × Store) [
          | some f ↦ (some f, store)
          | none ↦ (
            none,
            put k (record (store k) { was_built = true; build_instances = length instances }) store,
          )
        ]).0
          ≡ some v.0
    refused (some f) q = q
    refused none q = q

from_buffer-no_update :
    (k : ℕ) (b : Option BufferInfo) (offset num : ℕ) (flags : BuildFlags) (store : Store)
    → (store k).was_built ≡ false
    → flags.perform_update ≡ true
    → (f : BuildFault) × ((build_top_level_accel_struct_from_buffer k b offset num flags store).0
        ≡ some f)
unfolding build_top_level_accel_struct_from_buffer
from_buffer-no_update k none offset num flags store e p = (BuildFault.null_instance_buffer, refl)
from_buffer-no_update k (some b) offset num flags store e p =
    let v = validate-no_update (store k) num flags e p in (v.0, rw v.1 refl)

-- The builds and updates of acceleration structures, by the number of the structure.
pub data BuildCall : Type 0 where
  bottom_level : Bool → ℕ → List GeometryDesc → BuildFlags → BuildCall
  from_instances : ℕ → List Instance → BuildFlags → BuildCall
  from_buffer : ℕ → Option BufferInfo → ℕ → ℕ → BuildFlags → BuildCall

abbrev pub after_build : BuildCall → Store → Store
after_build (BuildCall.bottom_level vulkan k geometries flags) store =
    (build_bottom_level_accel_struct vulkan k geometries flags store).1
after_build (BuildCall.from_instances k instances flags) store =
    (build_top_level_accel_struct k instances flags store).1
after_build (BuildCall.from_buffer k b offset num flags) store =
    (build_top_level_accel_struct_from_buffer k b offset num flags store).1

abbrev pub after_builds : List BuildCall → Store → Store
after_builds [] store = store
after_builds (c ∷ cs) store = after_builds cs (after_build c store)

-- The call is for another structure than `k`, or builds from a buffer.
abbrev pub IsFromBuffer : ℕ → BuildCall → Type 0
IsFromBuffer k (BuildCall.bottom_level vulkan j geometries flags) = j ≢ k
IsFromBuffer k (BuildCall.from_instances j instances flags) = j ≢ k
IsFromBuffer k (BuildCall.from_buffer j b offset num flags) = Unit

-- The outcome of a build of another structure leaves this one alone.
outcome-other :
    (j k : ℕ) (w : AccelStructWrapper) (store : Store) (o : Option BuildFault)
    → j ≢ k
    → (elim o as (λ _. Option BuildFault × Store) [
      | some f ↦ (some f, store)
      | none ↦ (none, put j w store)
    ]).1
        k
      ≡ store k
outcome-other j k w store (some f) other = refl
outcome-other j k w store none other = ground arith

after_build-same :
    (k : ℕ) (c : BuildCall) (store : Store) → IsFromBuffer k c → after_build c store k ≡ store k
unfolding build_bottom_level_accel_struct build_top_level_accel_struct
after_build-same k (BuildCall.bottom_level vulkan j geometries flags) store other =
    outcome-other j k _ store (bottom_fault vulkan (store j) geometries flags) other
after_build-same k (BuildCall.from_instances j instances flags) store other =
    outcome-other j k _ store
      (or_fault (validate_build_top_level_accel_struct (store j) (length instances) flags)
        (instances_fault store flags.allow_empty_instances 0 instances))
      other
after_build-same k (BuildCall.from_buffer j b offset num flags) store other =
    ap (λ (s : Store). s k) (from_buffer-store j b offset num flags store)

after_builds-same :
    (k : ℕ) (cs : List BuildCall) (store : Store)
    → All (IsFromBuffer k) cs
    → after_builds cs store k ≡ store k
after_builds-same k [] store all = refl
after_builds-same k (c ∷ cs) store (here, there) =
    after_builds-same k cs (after_build c store) there ∙ after_build-same k c store here

-- After any sequence of builds and updates in which those of the structure `k` itself are from a
-- buffer, with whatever arguments and whether or not they were forwarded, a top-level structure whose
-- wrapper did not say at first that it was built still does not say so, and every update of it, from
-- a list of instances or from a buffer, is refused.
pub build_from_buffer-no_update :
    (k offset num : ℕ) (cs : List BuildCall) (b : Option BufferInfo) (flags : BuildFlags)
    (instances : List Instance) (store : Store)
    → (store k).was_built ≡ false
    → All (IsFromBuffer k) cs
    → flags.perform_update ≡ true
    → let after = after_builds cs store in
      ((after k).was_built ≡ false)
      × ((f : BuildFault) × ((build_top_level_accel_struct k instances flags after).0 ≡ some f))
      × ((f : BuildFault) × ((build_top_level_accel_struct_from_buffer k b offset num flags after).0
            ≡ some f))
build_from_buffer-no_update k offset num cs b flags instances store e all p =
    let after = after_builds cs store in
    let unbuilt : (after k).was_built ≡ false =
      ap AccelStructWrapper.was_built (after_builds-same k cs store all) ∙ e in
    (
      unbuilt,
      build_top-no_update k instances flags after unbuilt p,
      from_buffer-no_update k b offset num flags after unbuilt p,
    )
