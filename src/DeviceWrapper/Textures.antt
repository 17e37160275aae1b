-- ===== src/DeviceWrapper/Textures.antt =====
-- src/validation/validation-device.cpp: the textures and buffers that are accepted.
use cutie_rhi.Base.{
  ℕ, ◌%◌, ◌≡◌, refl, sym, ap, ap₂, ◌∙◌, arith, Bool, true, false, not, ◌&&◌, ◌||◌, List, [], ◌∷◌,
  ◌++◌, Option, none, ◌==◌, if◌then◌else◌, if_elim,
}
use cutie_rhi.Resources.{TextureDimension, TextureDesc}
use cutie_rhi.DeviceWrapper.{
  ObjectFault, Underlying, report, height_faults, depth_faults, array_faults, sample_faults,
  texture_faults, is_empty, is_unknown, create_texture,
}

abbrev pub is_multisampled : TextureDesc → Bool
is_multisampled d =
    ((d.sample_count == 2) || (d.sample_count == 4) || (d.sample_count == 8)) && not d.is_uav

-- What a texture of each dimension is like.
abbrev pub has_shape : TextureDimension → TextureDesc → Bool
has_shape TextureDimension.unknown_dimension d = false
has_shape TextureDimension.texture_1d d =
    (d.height == 1) && (d.depth == 1) && (d.array_size == 1) && (d.sample_count == 1)
has_shape TextureDimension.texture_1d_array d =
    (d.height == 1) && (d.depth == 1) && (d.sample_count == 1)
has_shape TextureDimension.texture_2d d =
    (d.depth == 1) && (d.array_size == 1) && (d.sample_count == 1)
has_shape TextureDimension.texture_2d_array d = (d.depth == 1) && (d.sample_count == 1)
has_shape TextureDimension.texture_cube d =
    (d.depth == 1) && (d.array_size == 6) && (d.sample_count == 1)
has_shape TextureDimension.texture_cube_array d =
    (d.depth == 1) && (d.array_size % 6 == 0) && (d.sample_count == 1)
has_shape TextureDimension.texture_2d_ms d =
    (d.depth == 1) && (d.array_size == 1) && is_multisampled d
has_shape TextureDimension.texture_2d_ms_array d = (d.depth == 1) && is_multisampled d
has_shape TextureDimension.texture_3d d = (d.array_size == 1) && (d.sample_count == 1)

-- What all textures are like.
abbrev pub is_sound : Underlying → TextureDesc → Bool
is_sound u d =
    (not d.is_virtual || u.supports_virtual_resources)
    && (not d.keep_initial_state || not (d.initial_state == 0))

abbrev pub has_extent : TextureDesc → Bool
has_extent d =
    not (d.width == 0)
    && not (d.height == 0)
    && not (d.depth == 0)
    && not (d.array_size == 0)
    && not (d.mip_levels == 0)

is_empty-append : (xs ys : List ObjectFault) → is_empty (xs ++ ys) ≡ (is_empty xs && is_empty ys)
is_empty-append [] ys = refl
is_empty-append (x ∷ xs) ys = refl

is_empty-report : (b : Bool) (fault : ObjectFault) → is_empty (report b fault) ≡ not b
is_empty-report true fault = refl
is_empty-report false fault = refl

shape_faults : TextureDimension → TextureDesc → Bool
shape_faults dimension d =
    is_empty (height_faults dimension d)
    && (is_empty (depth_faults dimension d)
        && (is_empty (array_faults dimension d) && is_empty (sample_faults dimension d)))

shape_faults-eq :
    (dimension : TextureDimension) (d : TextureDesc)
    → is_unknown dimension ≡ false
    → shape_faults dimension d ≡ has_shape dimension d
unfolding shape_faults height_faults depth_faults array_faults sample_faults
shape_faults-eq TextureDimension.unknown_dimension d h = ground arith
shape_faults-eq TextureDimension.texture_1d d h = ground arith
shape_faults-eq TextureDimension.texture_1d_array d h = ground arith
shape_faults-eq TextureDimension.texture_2d d h = ground arith
shape_faults-eq TextureDimension.texture_2d_array d h = ground arith
shape_faults-eq TextureDimension.texture_cube d h = ground arith
shape_faults-eq TextureDimension.texture_cube_array d h = ground arith
shape_faults-eq TextureDimension.texture_2d_ms d h = ground arith
shape_faults-eq TextureDimension.texture_2d_ms_array d h = ground arith
shape_faults-eq TextureDimension.texture_3d d h = ground arith

shape_split :
    (dimension : TextureDimension) (d : TextureDesc)
    → is_unknown dimension ≡ false
    → (is_empty (height_faults dimension d)
        && (is_empty (depth_faults dimension d)
            && (is_empty (array_faults dimension d) && is_empty (sample_faults dimension d))))
      ≡ has_shape dimension d
unfolding shape_faults
shape_split dimension d known = shape_faults-eq dimension d known

texture_faults-empty :
    (u : Underlying) (dimension : TextureDimension) (d : TextureDesc)
    → is_unknown dimension ≡ false
    → is_empty (texture_faults u dimension d) ≡ (has_shape dimension d && is_sound u d)
unfolding texture_faults
texture_faults-empty u dimension d known =
    let heights = height_faults dimension d in
    let depths = depth_faults dimension d in
    let arrays = array_faults dimension d in
    let samples = sample_faults dimension d in
    let v = d.is_virtual && not u.supports_virtual_resources in
    let k = d.keep_initial_state && (d.initial_state == 0) in
    let virtuals = report v ObjectFault.no_virtual_resources in
    let states = report k ObjectFault.unknown_initial_state in
    let tail =
      is_empty-append virtuals states
      ∙ ap₂ ◌&&◌ (is_empty-report v ObjectFault.no_virtual_resources)
          (is_empty-report k ObjectFault.unknown_initial_state) in
    let joined : is_empty (heights ++ (depths ++ (arrays ++ (samples ++ (virtuals ++ states))))) ≡ (
        is_empty heights
        && (is_empty depths && (is_empty arrays && (is_empty samples && (not v && not k))))) =
      is_empty-append heights _
      ∙ ap (◌&&◌ (is_empty heights)) (
          is_empty-append depths _
          ∙ ap (◌&&◌ (is_empty depths)) (
              is_empty-append arrays _
              ∙ ap (◌&&◌ (is_empty arrays))
                  (is_empty-append samples _ ∙ ap (◌&&◌ (is_empty samples)) tail))) in
    ground (arith, joined, shape_split dimension d known)

unknown_lem :
    (dimension : TextureDimension) (d : TextureDesc) (extent sound : Bool)
    → is_unknown dimension ≡ true
    → (extent && (has_shape dimension d && sound)) ≡ false
unknown_lem TextureDimension.unknown_dimension d true sound h = refl
unknown_lem TextureDimension.unknown_dimension d false sound h = refl
unknown_lem _ d extent sound h = absurd (ground arith)

abbrev lacks_extent : TextureDesc → Bool
lacks_extent d =
    (d.width == 0)
    || (d.height == 0)
    || (d.depth == 0)
    || (d.array_size == 0)
    || (d.mip_levels == 0)

extent_lem :
    (d : TextureDesc) (rest : Bool) → lacks_extent d ≡ true → (has_extent d && rest) ≡ false
extent_lem d rest h = ground arith

inside_lem :
    (d : TextureDesc) (rest : Bool) → lacks_extent d ≡ false → rest ≡ (has_extent d && rest)
inside_lem d rest h = ground arith

refused_lem :
    (u : Underlying) (d : TextureDesc) (accepted : Bool) (fault : ObjectFault)
    → accepted ≡ false
    → (false ≡ accepted) × (none ≡ (if accepted then u.make_texture d else none))
refused_lem u d accepted fault h = (sym h, rw h refl)

-- A description of a texture is accepted without a message exactly when none of its extents is 0, its
-- shape is the one of its dimension, it is virtual only on a device that supports this, and it
-- does not keep an unknown state; then the wrapped device is asked, and otherwise nothing
-- is created. The code's six tests by dimension amount to one description per dimension.
pub create_texture-accepts :
    (u : Underlying) (d : TextureDesc)
    → let accepted = has_extent d && (has_shape d.dimension d && is_sound u d) in
      (is_empty (create_texture u d).0 ≡ accepted)
      × ((create_texture u d).1 ≡ (if accepted then u.make_texture d else none))
unfolding create_texture
create_texture-accepts u d =
    let faults = texture_faults u d.dimension d in
    let accepted = has_extent d && (has_shape d.dimension d && is_sound u d) in
    let Accepts : List ObjectFault × Option ℕ → Type 0 =
      λ r. (is_empty r.0 ≡ accepted) × (r.1 ≡ (if accepted then u.make_texture d else none)) in
    if_elim Accepts (is_unknown d.dimension) (ObjectFault.unknown_dimension ∷ [], none) _
      (λ h.
        refused_lem u d accepted ObjectFault.unknown_dimension
          (unknown_lem d.dimension d (has_extent d) (is_sound u d) h))
      (λ h.
        if_elim Accepts
          ((d.width == 0)
            || (d.height == 0)
            || (d.depth == 0)
            || (d.array_size == 0)
            || (d.mip_levels == 0))
          (ObjectFault.zero_extent ∷ [], none)
          (faults, if is_empty faults then u.make_texture d else none)
          (λ z.
            refused_lem u d accepted ObjectFault.zero_extent
              (extent_lem d (has_shape d.dimension d && is_sound u d) z))
          (λ z.
            let e : is_empty faults ≡ accepted =
              texture_faults-empty u d.dimension d h
              ∙ inside_lem d (has_shape d.dimension d && is_sound u d) z in
            (e, ap (λ (b : Bool). if b then u.make_texture d else none) e)))
