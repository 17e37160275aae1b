-- ===== src/Examples/Bindings.antt =====
-- Examples for src/validation/validation-device.cpp, on the items of binding layouts.
use cutie_rhi.Base.{
  ℕ, ◌≡◌, ◌↔◌, refl, arith, true, false, List, [], ◌∷◌, Option, none, some, All, Pairwise,
}
use cutie_rhi.Bindings.{
  ResourceType, BindingLayoutItem, fill_binding_layout_summary,
  update_binding_summary_with_location, fill_elements, enter, insert_location, same_location, add,
  add_to_range, get_array_size, empty_filling,
}
use cutie_rhi.Bindings.Duplicates.{places, AreApart, IsKnown, fill_binding_layout_summary-exact}
use cutie_rhi.Bindings.Checks.{IsAcceptable, create_binding_layout-accepts}
use cutie_rhi.Bindings.Layouts.{
  GraphicsApi, BindingLayoutDesc, LayoutFault, create_binding_layout, layout_faults, item_faults,
  items_faults, count_items, has_fault,
}

-- Two textures from slot 0, a texture that may be the second of them, and push constants.
abbrev some_items : ℕ → List BindingLayoutItem
some_items slot =
    record { slot = 0; type = ResourceType.texture_srv; size = 2 }
    ∷ record { slot = slot; type = ResourceType.texture_srv; size = 1 }
    ∷ record { slot = 0; type = ResourceType.push_constants; size = 16 }
    ∷ []

abbrev a_layout : ℕ → BindingLayoutDesc
a_layout slot = record {
  visibility = 1;
  register_space = 0;
  register_space_is_descriptor_set = false;
  items = some_items slot;
}

abbrev make_layout_7 : BindingLayoutDesc → Option ℕ
make_layout_7 d = some 7

accepted : create_binding_layout make_layout_7 GraphicsApi.vulkan (a_layout 1) ≡ (0, [], some 7)
unfolding create_binding_layout layout_faults item_faults items_faults count_items
    fill_binding_layout_summary fill_elements update_binding_summary_with_location enter
    insert_location same_location add add_to_range get_array_size
accepted = refl

rejected :
    create_binding_layout make_layout_7 GraphicsApi.vulkan (a_layout 0)
    ≡ (0, LayoutFault.duplicate_bindings ∷ [], none)
unfolding create_binding_layout layout_faults item_faults items_faults count_items
    fill_binding_layout_summary fill_elements update_binding_summary_with_location enter
    insert_location same_location add add_to_range get_array_size
rejected = refl

-- An item of the type `Count` is forwarded after a message.
forwarded :
    create_binding_layout make_layout_7 GraphicsApi.vulkan (record (a_layout 1) {
      items = record { slot = 0; type = ResourceType.count_of_types; size = 1 } ∷ [];
    })
    ≡ (1, [], some 7)
unfolding create_binding_layout layout_faults item_faults items_faults count_items
    fill_binding_layout_summary fill_elements update_binding_summary_with_location enter
    insert_location same_location add add_to_range get_array_size
forwarded = refl

fill_binding_layout_summary-exact_example :
    ((fill_binding_layout_summary (some_items 1) true 3 empty_filling).duplicates ≡ [])
    ↔ Pairwise AreApart (places (some_items 1) 0)
fill_binding_layout_summary-exact_example = fill_binding_layout_summary-exact (some_items 1) true 3

create_binding_layout-accepts_example :
    let r = create_binding_layout make_layout_7 GraphicsApi.vulkan (a_layout 1) in
    ((has_fault r.1 ≡ false) ↔ IsAcceptable GraphicsApi.vulkan (a_layout 1))
    × (IsAcceptable GraphicsApi.vulkan (a_layout 1) → r.2 ≡ make_layout_7 (a_layout 1))
    × (¬ IsAcceptable GraphicsApi.vulkan (a_layout 1) → r.2 ≡ none)
    × (IsAcceptable GraphicsApi.vulkan (a_layout 1) → (r.0 ≡ 0) ↔ All IsKnown (some_items 1))
create_binding_layout-accepts_example =
    create_binding_layout-accepts make_layout_7 GraphicsApi.vulkan (a_layout 1) (omega arith)
