-- ===== src/Bindings/Layouts.antt =====
-- src/validation/validation-device.cpp: the checks of `createBindingLayout`.
use cutie_rhi.Base.{
  ℕ, suc, ◌%◌, Bool, true, false, not, ◌&&◌, List, [], ◌∷◌, ◌++◌, Option, none, ltb, ◌==◌,
  if◌then◌else◌,
}
use cutie_rhi.Resources.{u32}
use cutie_rhi.Bindings.{
  ResourceType, BindingLocation, is_volatile_cb, is_push_type, BindingLayoutItem,
  fill_binding_layout_summary, empty_filling,
}

pub data GraphicsApi : Type 0 where
  d3d11 d3d12 vulkan opengl : GraphicsApi

-- `visibility` is a set of stages as the number of its flags, and 0 is `None`.
pub record BindingLayoutDesc : Type 0 where
  pub visibility : ℕ
  pub register_space : ℕ
  pub register_space_is_descriptor_set : Bool
  pub items : List BindingLayoutItem

-- The messages of `createBindingLayout`.
pub data LayoutFault : Type 0 where
  no_visibility duplicate_bindings too_many_volatile_cbs : LayoutFault
  zero_push_size push_size_too_large push_size_not_multiple_of_4 : LayoutFault
  volatile_array no_item_type zero_item_size several_push_blocks : LayoutFault
  register_space_on_vulkan : LayoutFault

abbrev pub fault_if : Bool → LayoutFault → List LayoutFault
fault_if b fault = if b then fault ∷ [] else []

abbrev pub is_none_type : ResourceType → Bool
is_none_type ResourceType.no_type = true
is_none_type _ = false

abbrev pub is_d3d11 : GraphicsApi → Bool
is_d3d11 GraphicsApi.d3d11 = true
is_d3d11 _ = false

abbrev pub is_vulkan : GraphicsApi → Bool
is_vulkan GraphicsApi.vulkan = true
is_vulkan _ = false

-- `!duplicates.empty()`.
abbrev pub has_any : List BindingLocation → Bool
has_any [] = false
has_any (x ∷ xs) = true

-- `anyErrors`.
abbrev pub has_fault : List LayoutFault → Bool
has_fault [] = false
has_fault (x ∷ xs) = true

-- The messages of one round of the loop.
unfoldable pub item_faults : BindingLayoutItem → List LayoutFault
item_faults item =
    if is_push_type item.type
    then fault_if (item.size == 0) LayoutFault.zero_push_size
      ++ (fault_if (ltb 128 item.size) LayoutFault.push_size_too_large
          ++ fault_if (not (item.size % 4 == 0)) LayoutFault.push_size_not_multiple_of_4)
    else fault_if (ltb 1 item.size && is_volatile_cb item.type) LayoutFault.volatile_array

unfoldable pub items_faults : List BindingLayoutItem → List LayoutFault
items_faults [] = []
items_faults (item ∷ items) = item_faults item ++ items_faults items

-- A counter of the loop, before it is cut to 32 bits.
unfoldable pub count_items : (BindingLayoutItem → Bool) → List BindingLayoutItem → ℕ
count_items test [] = 0
count_items test (item ∷ items) =
    if test item then suc (count_items test items) else count_items test items

abbrev pub is_none_item : BindingLayoutItem → Bool
is_none_item item = is_none_type item.type

abbrev pub is_push_item : BindingLayoutItem → Bool
is_push_item item = is_push_type item.type

abbrev pub is_zero_item : BindingLayoutItem → Bool
is_zero_item item = not (is_push_type item.type) && (item.size == 0)

unfoldable pub layout_faults : GraphicsApi → BindingLayoutDesc → List LayoutFault
layout_faults api d =
    let filled =
      fill_binding_layout_summary d.items (is_d3d11 api) d.register_space empty_filling in
    fault_if (d.visibility == 0) LayoutFault.no_visibility
    ++ (fault_if (has_any filled.duplicates) LayoutFault.duplicate_bindings
        ++ (fault_if (ltb 6 filled.bindings.num_volatile_cbs) LayoutFault.too_many_volatile_cbs
            ++ (items_faults d.items
                ++ (fault_if (not (count_items is_none_item d.items % u32 == 0))
                      LayoutFault.no_item_type
                    ++ (fault_if (not (count_items is_zero_item d.items % u32 == 0))
                          LayoutFault.zero_item_size
                        ++ (fault_if (ltb 1 (count_items is_push_item d.items % u32))
                              LayoutFault.several_push_blocks
                            ++ fault_if
                                (not (d.register_space == 0)
                                  && is_vulkan api
                                  && not d.register_space_is_descriptor_set)
                                LayoutFault.register_space_on_vulkan))))))

-- The messages of `FillBindingLayoutSummary` are counted first.
unfoldable pub create_binding_layout :
    (BindingLayoutDesc → Option ℕ)
    → GraphicsApi
    → BindingLayoutDesc
    → ℕ × List LayoutFault × Option ℕ
create_binding_layout make_layout api d =
    let filled =
      fill_binding_layout_summary d.items (is_d3d11 api) d.register_space empty_filling in
    let faults = layout_faults api d in
    (filled.invalid_items, faults, if has_fault faults then none else make_layout d)
