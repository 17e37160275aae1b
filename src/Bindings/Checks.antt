-- ===== src/Bindings/Checks.antt =====
-- src/validation/validation-device.cpp: which binding layouts `createBindingLayout` accepts.
use cutie_rhi.Base.{
  ℕ, ◌%◌, ◌≤◌, ◌<◌, ◌≡◌, ◌↔◌, ◌⊎◌, refl, ap, ◌∙◌, arith, Bool, true, false, not, ◌&&◌, ◌||◌, List,
  [], ◌∷◌, ◌++◌, Option, none, ltb, ◌==◌, if◌then◌else◌, length, All, All-map, Pairwise,
}
use cutie_rhi.Resources.{u32}
use cutie_rhi.Bindings.{
  BindingLocation, is_volatile_cb, is_push_type, BindingLayoutItem, get_array_size,
  fill_binding_layout_summary, empty_filling,
}
use cutie_rhi.Bindings.Duplicates.{
  places, AreApart, fill_binding_layout_summary-exact, IsKnown, invalid_items-exact,
}
use cutie_rhi.Bindings.Layouts.{
  GraphicsApi, BindingLayoutDesc, LayoutFault, fault_if, is_none_type, is_d3d11, is_vulkan, has_any,
  has_fault, item_faults, items_faults, count_items, is_none_item, is_push_item, is_zero_item,
  layout_faults, create_binding_layout,
}

-- The size of an item: push constants have 1 to 128 bytes, in words of 4; every other item has an
-- array size, which is 1 for a volatile constant buffer.
abbrev pub IsSized : BindingLayoutItem → Type 0
IsSized item =
    ((is_push_type item.type ≡ true) × (0 < item.size) × (item.size ≤ 128) × (item.size % 4 ≡ 0))
    ⊎ ((is_push_type item.type ≡ false)
        × (0 < item.size)
        × ((is_volatile_cb item.type ≡ true) → item.size ≤ 1))

-- What a layout has to be.
abbrev pub IsAcceptable : GraphicsApi → BindingLayoutDesc → Type 0
IsAcceptable api d =
    let space = if is_d3d11 api then 0 else d.register_space in
    let filled =
      fill_binding_layout_summary d.items (is_d3d11 api) d.register_space empty_filling in
    (¬ (d.visibility ≡ 0))
    × Pairwise AreApart (places d.items space)
    × (filled.bindings.num_volatile_cbs ≤ 6)
    × All (λ item. (is_none_type item.type ≡ false) × IsSized item) d.items
    × (count_items is_push_item d.items ≤ 1)
    × ((d.register_space ≡ 0)
        ⊎ (is_vulkan api ≡ false)
        ⊎ (d.register_space_is_descriptor_set ≡ true))

fault_if-none : (b : Bool) (fault : LayoutFault) → has_fault (fault_if b fault) ≡ b
fault_if-none b fault = ground arith

has_fault-append :
    (xs ys : List LayoutFault) → has_fault (xs ++ ys) ≡ (has_fault xs || has_fault ys)
has_fault-append [] ys = refl
has_fault-append (x ∷ xs) ys = refl

has_any-false : (xs : List BindingLocation) → (has_any xs ≡ false) ↔ (xs ≡ [])
has_any-false xs = ground arith

count_items-le :
    (test : BindingLayoutItem → Bool) (items : List BindingLayoutItem)
    → count_items test items ≤ length items
unfolding count_items
count_items-le test [] = omega arith
count_items-le test (item ∷ items) = let rest = count_items-le test items in ground arith

push-faults :
    (size : ℕ)
    → has_fault (
        fault_if (size == 0) LayoutFault.zero_push_size
        ++ (fault_if (ltb 128 size) LayoutFault.push_size_too_large
            ++ fault_if (not (size % 4 == 0)) LayoutFault.push_size_not_multiple_of_4))
      ≡ ((size == 0) || (ltb 128 size || not (size % 4 == 0)))
push-faults size = ground arith

item-proper :
    (item : BindingLayoutItem)
    → ((has_fault (item_faults item) ≡ false)
        × (is_none_item item ≡ false)
        × (is_zero_item item ≡ false))
      ↔ (is_none_type item.type ≡ false) × IsSized item
unfolding item_faults
item-proper item = let pushed = push-faults item.size in ground arith

-- What the loop over the items finds nothing wrong with.
items-proper :
    (items : List BindingLayoutItem)
    → ((has_fault (items_faults items) ≡ false)
        × (count_items is_none_item items ≡ 0)
        × (count_items is_zero_item items ≡ 0))
      ↔ All (λ item. (is_none_type item.type ≡ false) × IsSized item) items
unfolding items_faults item_faults count_items
items-proper [] = ((λ _. tt), (λ _. (refl, refl, refl)))
items-proper (item ∷ items) =
    let rest = items-proper items in
    let joined = has_fault-append (item_faults item) (items_faults items) in
    let here = item-proper item in ground arith

-- The messages below the loop, and all of them.
later-faults :
    (e f g h : Bool)
    → has_fault (
        fault_if e LayoutFault.no_item_type
        ++ (fault_if f LayoutFault.zero_item_size
            ++ (fault_if g LayoutFault.several_push_blocks
                ++ fault_if h LayoutFault.register_space_on_vulkan)))
      ≡ (e || (f || (g || h)))
later-faults e f g h = ground arith

all-faults :
    (a b c : Bool) (inner : List LayoutFault) (e f g h : Bool)
    → has_fault (
        fault_if a LayoutFault.no_visibility
        ++ (fault_if b LayoutFault.duplicate_bindings
            ++ (fault_if c LayoutFault.too_many_volatile_cbs
                ++ (inner
                    ++ (fault_if e LayoutFault.no_item_type
                        ++ (fault_if f LayoutFault.zero_item_size
                            ++ (fault_if g LayoutFault.several_push_blocks
                                ++ fault_if h LayoutFault.register_space_on_vulkan)))))))
      ≡ (a || (b || (c || (has_fault inner || (e || (f || (g || h)))))))
all-faults true b c inner e f g h = refl
all-faults false true c inner e f g h = refl
all-faults false false true inner e f g h = refl
all-faults false false false inner e f g h =
    has_fault-append inner _ ∙ ap (λ r. has_fault inner || r) (later-faults e f g h)

sized-item :
    (item : BindingLayoutItem)
    → (is_none_type item.type ≡ false) × IsSized item
    → 0 < get_array_size item
unfolding get_array_size
sized-item item h = ground arith

-- When a layout has fewer than 2^32 items: `createBindingLayout` finds nothing wrong exactly when the
-- layout is visible to a stage, its items take pairwise different places, its summary counts at most
-- 6 volatile constant buffers, every item has a type other than None and a size that the type allows,
-- at most one is of push constants, and it has a register space on Vulkan only as a descriptor set; then
-- the wrapped device is asked, and otherwise nothing is created. Even then the filling of the summary
-- has said that a type is invalid, unless every type is one that it knows.
pub create_binding_layout-accepts :
    (make_layout : BindingLayoutDesc → Option ℕ) (api : GraphicsApi) (d : BindingLayoutDesc)
    → length d.items < u32
    → let r = create_binding_layout make_layout api d in
      ((has_fault r.1 ≡ false) ↔ IsAcceptable api d)
      × (IsAcceptable api d → r.2 ≡ make_layout d)
      × (¬ IsAcceptable api d → r.2 ≡ none)
      × (IsAcceptable api d → (r.0 ≡ 0) ↔ All IsKnown d.items)
unfolding create_binding_layout layout_faults
create_binding_layout-accepts make_layout api d few =
    let space = if is_d3d11 api then 0 else d.register_space in
    let filled =
      fill_binding_layout_summary d.items (is_d3d11 api) d.register_space empty_filling in
    let distinct = fill_binding_layout_summary-exact d.items (is_d3d11 api) d.register_space in
    let emptied = has_any-false filled.duplicates in
    let nones = count_items-le is_none_item d.items in
    let zeros = count_items-le is_zero_item d.items in
    let pushes = count_items-le is_push_item d.items in
    let proper = items-proper d.items in
    let all =
      all-faults (d.visibility == 0) (has_any filled.duplicates)
        (ltb 6 filled.bindings.num_volatile_cbs) (items_faults d.items)
        (not (count_items is_none_item d.items % u32 == 0))
        (not (count_items is_zero_item d.items % u32 == 0))
        (ltb 1 (count_items is_push_item d.items % u32))
        (not (d.register_space == 0) && is_vulkan api && not d.register_space_is_descriptor_set) in
    let accepts : (has_fault (layout_faults api d) ≡ false) ↔ IsAcceptable api d = ground arith in
    (
      accepts,
      (λ good. ground (arith, accepts.1 good)),
      (λ bad. ground arith),
      (λ good.
          let known =
            invalid_items-exact d.items (is_d3d11 api) d.register_space empty_filling
              (All-map d.items sized-item good.3) in
          ground (arith, known)),
    )
