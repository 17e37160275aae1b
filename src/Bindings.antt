-- ===== src/Bindings.antt =====
-- src/validation/validation-device.cpp, with the data of src/validation/validation-backend.h: the
-- summary of the places that the items of a binding layout or a binding set take.
pub mod Duplicates
pub mod Layouts
pub mod Checks
use cutie_rhi.Base.{
  ℕ, zero, suc, ◌+◌, ◌%◌, Bool, true, false, not, ◌&&◌, ◌||◌, List, [], ◌∷◌, Option, none, some,
  ltb, leb, ◌==◌, if◌then◌else◌,
}
use cutie_rhi.Resources.{u32}

-- `ResourceType`; `count_of_types` is its last enumerator, `Count`.
pub data ResourceType : Type 0 where
  no_type texture_srv texture_uav typed_buffer_srv typed_buffer_uav : ResourceType
  structured_buffer_srv structured_buffer_uav raw_buffer_srv raw_buffer_uav : ResourceType
  constant_buffer volatile_constant_buffer sampler ray_tracing_accel_struct : ResourceType
  push_constants sampler_feedback_texture_uav count_of_types : ResourceType

pub data GraphicsResourceType : Type 0 where
  srv sampler_type uav cb : GraphicsResourceType

pub record BindingLocation : Type 0 where
  pub type : GraphicsResourceType
  pub register_space : ℕ
  pub slot : ℕ
  pub array_element : ℕ

-- The enumerators are compared by their numbers.
abbrev pub type_number : GraphicsResourceType → ℕ
type_number GraphicsResourceType.srv = 0
type_number GraphicsResourceType.sampler_type = 1
type_number GraphicsResourceType.uav = 2
type_number GraphicsResourceType.cb = 3

unfoldable pub same_location : BindingLocation → BindingLocation → Bool
same_location a b =
    (type_number a.type == type_number b.type)
    && (a.register_space == b.register_space)
    && (a.slot == b.slot)
    && (a.array_element == b.array_element)

-- `find` of a set of locations.
abbrev pub has_location : BindingLocation → List BindingLocation → Bool
has_location x [] = false
has_location x (y ∷ ys) = same_location x y || has_location x ys

-- `insert` of a set of locations.
unfoldable pub insert_location : BindingLocation → List BindingLocation → List BindingLocation
insert_location x ys = if has_location x ys then ys else x ∷ ys

pub record Range : Type 0 where
  pub min : ℕ
  pub max : ℕ

abbrev pub empty_range : Range
empty_range = record { min = 4294967295; max = 0 }

unfoldable pub add : ℕ → Range → Range
add item r = record {
  min = if ltb item r.min then item else r.min;
  max = if ltb r.max item then item else r.max;
}

abbrev pub is_empty_range : Range → Bool
is_empty_range r = ltb r.max r.min

unfoldable pub overlaps_with : Range → Range → Bool
overlaps_with r other =
    not (is_empty_range r)
    && not (is_empty_range other)
    && leb other.min r.max
    && leb r.min other.max

-- `BindingSummary`.
pub record BindingSummary : Type 0 where
  pub locations : List BindingLocation
  pub num_volatile_cbs : ℕ
  pub range_srv : Range
  pub range_sampler : Range
  pub range_uav : Range
  pub range_cb : Range

-- The summary and the duplicates that the functions fill, and how often they say that the type of an
-- item is invalid.
pub record Filling : Type 0 where
  pub bindings : BindingSummary
  pub duplicates : List BindingLocation
  pub invalid_items : ℕ

-- The `switch` of `UpdateBindingSummaryWithLocation`: the type that it gives to the location.
abbrev pub type_of : ResourceType → Option GraphicsResourceType
type_of ResourceType.texture_srv = some GraphicsResourceType.srv
type_of ResourceType.typed_buffer_srv = some GraphicsResourceType.srv
type_of ResourceType.structured_buffer_srv = some GraphicsResourceType.srv
type_of ResourceType.raw_buffer_srv = some GraphicsResourceType.srv
type_of ResourceType.ray_tracing_accel_struct = some GraphicsResourceType.srv
type_of ResourceType.texture_uav = some GraphicsResourceType.uav
type_of ResourceType.typed_buffer_uav = some GraphicsResourceType.uav
type_of ResourceType.structured_buffer_uav = some GraphicsResourceType.uav
type_of ResourceType.raw_buffer_uav = some GraphicsResourceType.uav
type_of ResourceType.sampler_feedback_texture_uav = some GraphicsResourceType.uav
type_of ResourceType.constant_buffer = some GraphicsResourceType.cb
type_of ResourceType.volatile_constant_buffer = some GraphicsResourceType.cb
type_of ResourceType.push_constants = some GraphicsResourceType.cb
type_of ResourceType.sampler = some GraphicsResourceType.sampler_type
type_of ResourceType.no_type = none
type_of ResourceType.count_of_types = none

abbrev pub is_volatile_cb : ResourceType → Bool
is_volatile_cb ResourceType.volatile_constant_buffer = true
is_volatile_cb _ = false

abbrev pub retype : Option GraphicsResourceType → BindingLocation → BindingLocation
retype none location = location
retype (some type) location = record location { type = type }

-- What the `switch` does to the summary.
unfoldable pub add_to_range : Option GraphicsResourceType → ℕ → BindingSummary → BindingSummary
add_to_range none slot s = s
add_to_range (some GraphicsResourceType.srv) slot s = record s { range_srv = add slot s.range_srv }
add_to_range (some GraphicsResourceType.sampler_type) slot s = record s {
  range_sampler = add slot s.range_sampler;
}
add_to_range (some GraphicsResourceType.uav) slot s = record s { range_uav = add slot s.range_uav }
add_to_range (some GraphicsResourceType.cb) slot s = record s { range_cb = add slot s.range_cb }

abbrev pub is_invalid : Option GraphicsResourceType → Bool
is_invalid none = true
is_invalid (some type) = false

-- The locations and the duplicates after the search at the end.
unfoldable pub enter :
    BindingLocation
    → List BindingLocation × List BindingLocation
    → List BindingLocation × List BindingLocation
enter location (locations, duplicates) =
    if has_location location locations
    then (locations, insert_location location duplicates)
    else (location ∷ locations, duplicates)

unfoldable pub update_binding_summary_with_location :
    ResourceType → BindingLocation → Filling → Filling
update_binding_summary_with_location type location f =
    let ranged = add_to_range (type_of type) location.slot f.bindings in
    let entered = enter (retype (type_of type) location) (f.bindings.locations, f.duplicates) in
    record {
      bindings = record ranged {
        locations = entered.0;
        num_volatile_cbs =
            if is_volatile_cb type
            then suc f.bindings.num_volatile_cbs % u32
            else f.bindings.num_volatile_cbs;
      };
      duplicates = entered.1;
      invalid_items = if is_invalid (type_of type) then suc f.invalid_items else f.invalid_items;
    }

pub record BindingLayoutItem : Type 0 where
  pub slot : ℕ
  pub type : ResourceType
  pub size : ℕ

abbrev pub is_push_type : ResourceType → Bool
is_push_type ResourceType.push_constants = true
is_push_type _ = false

unfoldable pub get_array_size : BindingLayoutItem → ℕ
get_array_size item = if is_push_type item.type then 1 else item.size

-- The inner loop of `FillBindingLayoutSummary`, from an element, for a number of elements.
unfoldable pub fill_elements : ℕ → ℕ → BindingLayoutItem → ℕ → Filling → Filling
fill_elements zero first item register_space f = f
fill_elements (suc n) first item register_space f =
    fill_elements n (suc first) item register_space (
      update_binding_summary_with_location item.type
        (record {
          type = GraphicsResourceType.srv;
          register_space = register_space;
          slot = item.slot;
          array_element = first;
        })
        f)

-- The outer loop; the register space is 0 where register spaces are ignored.
unfoldable pub fill_binding_layout_summary : List BindingLayoutItem → Bool → ℕ → Filling → Filling
fill_binding_layout_summary [] ignore_register_spaces register_space f = f
fill_binding_layout_summary (item ∷ items) ignore_register_spaces register_space f =
    fill_binding_layout_summary items ignore_register_spaces register_space (
      fill_elements (get_array_size item) 0 item
        (if ignore_register_spaces then 0 else register_space) f)

abbrev pub empty_filling : Filling
empty_filling = record {
  bindings = record {
    locations = [];
    num_volatile_cbs = 0;
    range_srv = empty_range;
    range_sampler = empty_range;
    range_uav = empty_range;
    range_cb = empty_range;
  };
  duplicates = [];
  invalid_items = 0;
}
