-- ===== src/Validation/Bindings.antt =====
-- src/validation/validation-commandlist.cpp: binding sets and push constants.
use cutie_rhi.Base.{
  ℕ, ◌+◌, true, not, ◌||◌, List, [], ◌∷◌, ◌++◌, Option, none, some, leb, ◌==◌, if◌then◌else◌,
  length,
}
use cutie_rhi.Validation.{LayoutItem, Layout, BindingSet, Pipeline, Call, Fault, Session}
use cutie_rhi.Validation.Guards.{forward, guarded, failing, require_open_state}

abbrev pub max_push_constant_size : ℕ
max_push_constant_size = 128

-- The checks on the binding set of slot `index`.
unfoldable pub binding_set_faults : ℕ → Layout → Option BindingSet → List Fault
binding_set_faults index expected none = Fault.null_binding_set index ∷ []
binding_set_faults index expected (some set) = failing (
    (expected.is_bindless || (set.layout == expected.layout), Fault.wrong_layout index)
    ∷ (not expected.is_bindless || set.is_bindless, Fault.regular_binding_set index)
    ∷ [])

-- The loop over the slots: the two vectors have the same length.
unfoldable pub slot_faults : ℕ → List Layout → List (Option BindingSet) → List Fault
slot_faults index (layout ∷ layouts) (set ∷ sets) =
    binding_set_faults index layout set ++ slot_faults (index + 1) layouts sets
slot_faults index _ _ = []

-- The errors of `validateBindingSetsAgainstLayouts`, which returns true if there are none.
unfoldable pub validate_binding_sets_against_layouts :
    List Layout → List (Option BindingSet) → List Fault
validate_binding_sets_against_layouts layouts sets =
    if length layouts == length sets
    then slot_faults 0 layouts sets
    else Fault.binding_set_count (length sets) (length layouts) ∷ []

unfoldable pub first_push_constants : List LayoutItem → Option ℕ
first_push_constants [] = none
first_push_constants (item ∷ items) =
    if item.is_push_constants then some item.size else first_push_constants items

unfoldable pub push_constants_of : Option (List LayoutItem) → Option ℕ
push_constants_of none = none
push_constants_of (some items) = first_push_constants items

-- The size that `evaluatePushConstantSize` computes.
unfoldable pub evaluate_push_constant_size : List Layout → ℕ
evaluate_push_constant_size [] = 0
evaluate_push_constant_size (layout ∷ layouts) = elim (push_constants_of layout.bindings) [
  | some size ↦ size
  | none ↦ evaluate_push_constant_size layouts
]

unfoldable pub set_push_constants : ℕ → Session → Session
set_push_constants byte_size s =
    let w = s.wrapper in
    guarded
      (require_open_state s
        ∷ (
          w.graphics_state_set || w.compute_state_set || w.meshlet_state_set
              || w.ray_tracing_state_set,
          Fault.no_state_for_push_constants,
        )
        ∷ (leb byte_size max_push_constant_size, Fault.push_constants_too_long byte_size)
        ∷ (
          byte_size == w.pipeline_push_constant_size,
          Fault.wrong_push_constants_size byte_size w.pipeline_push_constant_size,
        )
        ∷ [])
      (λ s.
        forward (Call.push_constants_call byte_size)
          (record s { wrapper = record s.wrapper { push_constants_set = true } }))
      s

-- `pipeline->getDesc().bindingLayouts`, read after the check that the pipeline is not null.
abbrev pub layouts_of : Option Pipeline → List Layout
layouts_of none = []
layouts_of (some p) = p.binding_layouts
