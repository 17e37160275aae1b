-- ===== src/Bindings/Duplicates.antt =====
-- src/validation/validation-device.cpp: the duplicates that `FillBindingLayoutSummary` reports.
use cutie_rhi.Base.{
  ℕ, zero, suc, ◌+◌, ◌<◌, ◌≡◌, ◌↔◌, refl, sym, ap, ◌∙◌, arith, Bool, true, false, List, [], ◌∷◌,
  ◌++◌, if◌then◌else◌, if_elim, All, All-map, All-zip, Pairwise,
}
use cutie_rhi.Bindings.{
  GraphicsResourceType, BindingLocation, same_location, type_number, has_location, insert_location,
  Filling, type_of, is_invalid, retype, enter, update_binding_summary_with_location,
  BindingLayoutItem, get_array_size, fill_elements, fill_binding_layout_summary, empty_filling,
}

-- The places of one item, and those of all items, in order.
abbrev element_places : ℕ → ℕ → BindingLayoutItem → ℕ → List BindingLocation
element_places zero first item register_space = []
element_places (suc n) first item register_space =
    retype (type_of item.type) (record {
      type = GraphicsResourceType.srv;
      register_space = register_space;
      slot = item.slot;
      array_element = first;
    })
    ∷ element_places n (suc first) item register_space

abbrev pub places : List BindingLayoutItem → ℕ → List BindingLocation
places [] register_space = []
places (item ∷ items) register_space =
    element_places (get_array_size item) 0 item register_space ++ places items register_space

abbrev enter_all :
    List BindingLocation
    → List BindingLocation × List BindingLocation
    → List BindingLocation × List BindingLocation
enter_all [] s = s
enter_all (p ∷ ps) s = enter_all ps (enter p s)

enter_all-append :
    (front back : List BindingLocation) (s : List BindingLocation × List BindingLocation)
    → enter_all (front ++ back) s ≡ enter_all back (enter_all front s)
enter_all-append [] back s = refl
enter_all-append (p ∷ front) back s = enter_all-append front back (enter p s)

abbrev core : Filling → List BindingLocation × List BindingLocation
core f = (f.bindings.locations, f.duplicates)

core-fill_elements :
    (n first : ℕ) (item : BindingLayoutItem) (register_space : ℕ) (f : Filling)
    → core (fill_elements n first item register_space f)
      ≡ enter_all (element_places n first item register_space) (core f)
unfolding fill_elements update_binding_summary_with_location
core-fill_elements zero first item register_space f = refl
core-fill_elements (suc n) first item register_space f =
    core-fill_elements n (suc first) item register_space _

core-fill :
    (items : List BindingLayoutItem) (ignored : Bool) (register_space : ℕ) (f : Filling)
    → core (fill_binding_layout_summary items ignored register_space f)
      ≡ enter_all (places items (if ignored then 0 else register_space)) (core f)
unfolding fill_binding_layout_summary
core-fill [] ignored register_space f = refl
core-fill (item ∷ items) ignored register_space f =
    let space = if ignored then 0 else register_space in
    core-fill items ignored register_space _
    ∙ ap (enter_all (places items space)) (core-fill_elements (get_array_size item) 0 item space f)
    ∙ sym (
        enter_all-append (element_places (get_array_size item) 0 item space) (places items space)
          (core f))

-- The comparison of the code is equality.
type_number-injective : (t u : GraphicsResourceType) → type_number t ≡ type_number u → t ≡ u
type_number-injective t u h = ground arith

same_location-exact : (a b : BindingLocation) → (same_location a b ≡ true) ↔ (a ≡ b)
unfolding same_location
same_location-exact a b = let types = type_number-injective a.type b.type in ground arith

-- A later place is not an earlier one.
abbrev pub AreApart : BindingLocation → BindingLocation → Type 0
AreApart earlier later = ¬ (later ≡ earlier)

abbrev IsNew : List BindingLocation → BindingLocation → Type 0
IsNew seen p = has_location p seen ≡ false

insert_location-ne-nil :
    (p : BindingLocation) (ps : List BindingLocation) → ¬ (insert_location p ps ≡ [])
unfolding insert_location
insert_location-ne-nil p ps = ground arith

both-IsNew :
    (p : BindingLocation) (seen : List BindingLocation) (q : BindingLocation)
    → IsNew (p ∷ seen) q
    → AreApart p q × IsNew seen q
both-IsNew p seen q h = let same = same_location-exact q p in ground arith

cons-IsNew :
    (p : BindingLocation) (seen : List BindingLocation) (q : BindingLocation)
    → AreApart p q
    → IsNew seen q
    → IsNew (p ∷ seen) q
cons-IsNew p seen q apart new = let same = same_location-exact q p in ground arith

known-new : {b : Bool} → b ≡ true → b ≡ false → ⊥
known-new known new = ground arith

enter_all-clean :
    (ps seen duplicates : List BindingLocation)
    → ((enter_all ps (seen, duplicates)).1 ≡ [])
      ↔ (duplicates ≡ []) × Pairwise AreApart ps × All (IsNew seen) ps
unfolding enter
enter_all-clean [] seen duplicates = ((λ h. (h, tt, tt)), (λ h. h.0))
enter_all-clean (p ∷ ps) seen duplicates =
    if_elim
      (λ s.
        ((enter_all ps s).1 ≡ [])
        ↔ (duplicates ≡ []) × Pairwise AreApart (p ∷ ps) × All (IsNew seen) (p ∷ ps))
      (has_location p seen) (seen, insert_location p duplicates) (p ∷ seen, duplicates)
      (λ known.
        let rest = enter_all-clean ps seen (insert_location p duplicates) in
        (
          (λ h. absurd (insert_location-ne-nil p duplicates (rest.0 h).0)),
          (λ h. absurd (known-new known h.2.0)),
        ))
      (λ new.
        let rest = enter_all-clean ps (p ∷ seen) duplicates in
        (
          (λ h.
              let r = rest.0 h in
              (
                r.0,
                (All-map ps (λ q f. (both-IsNew p seen q f).0) r.2, r.1),
                (new, All-map ps (λ q f. (both-IsNew p seen q f).1) r.2),
              )),
          (λ h. rest.1 (h.0, h.1.1, All-zip ps (cons-IsNew p seen) h.1.0 h.2.1)),
        ))

All-IsNew-nil : (ps : List BindingLocation) → All (IsNew []) ps
All-IsNew-nil [] = tt
All-IsNew-nil (p ∷ ps) = (refl, All-IsNew-nil ps)

-- The summary of a layout has no duplicates exactly when the places of its items, one for each
-- array element of each item, are pairwise different.
pub fill_binding_layout_summary-exact :
    (items : List BindingLayoutItem) (ignored : Bool) (register_space : ℕ)
    → ((fill_binding_layout_summary items ignored register_space empty_filling).duplicates ≡ [])
      ↔ Pairwise AreApart (places items (if ignored then 0 else register_space))
fill_binding_layout_summary-exact items ignored register_space =
    let all = places items (if ignored then 0 else register_space) in
    let filled = ap (λ c. c.1) (core-fill items ignored register_space empty_filling) in
    (
      (λ h. ((enter_all-clean all [] []).0 (sym filled ∙ h)).1),
      (λ h. filled ∙ (enter_all-clean all [] []).1 (refl, h, All-IsNew-nil all)),
    )

-- The type is one that `UpdateBindingSummaryWithLocation` knows.
abbrev pub IsKnown : BindingLayoutItem → Type 0
IsKnown item = is_invalid (type_of item.type) ≡ false

fill_elements-invalid :
    (n first : ℕ) (item : BindingLayoutItem) (register_space : ℕ) (f : Filling)
    → (fill_elements n first item register_space f).invalid_items
      ≡ (if is_invalid (type_of item.type) then n + f.invalid_items else f.invalid_items)
unfolding fill_elements update_binding_summary_with_location
fill_elements-invalid zero first item register_space f = ground arith
fill_elements-invalid (suc n) first item register_space f =
    let rest = fill_elements-invalid n (suc first) item register_space (
      update_binding_summary_with_location item.type
        (record {
          type = GraphicsResourceType.srv;
          register_space = register_space;
          slot = item.slot;
          array_element = first;
        })
        f) in
    ground (arith, rest)

-- No message says that a type is invalid, in a layout whose items all have a size, exactly when all
-- their types are known.
pub invalid_items-exact :
    (items : List BindingLayoutItem) (ignored : Bool) (register_space : ℕ) (f : Filling)
    → All (λ item. 0 < get_array_size item) items
    → ((fill_binding_layout_summary items ignored register_space f).invalid_items ≡ 0)
      ↔ (f.invalid_items ≡ 0) × All IsKnown items
unfolding fill_binding_layout_summary
invalid_items-exact [] ignored register_space f sized = ((λ e. (e, tt)), (λ e. e.0))
invalid_items-exact (item ∷ items) ignored register_space f (here, there) =
    let space = if ignored then 0 else register_space in
    let one = fill_elements-invalid (get_array_size item) 0 item space f in
    let rest =
      invalid_items-exact items ignored register_space
        (fill_elements (get_array_size item) 0 item space f) there in
    ground (arith, one, rest)
