-- ===== src/ResourceStates.antt =====
-- include/cutie/cutie.h: the flags of `ResourceStates` that the modelled code names. A set of flags
-- is kept as the number that the enumeration gives it.
use cutie_rhi.Base.{ℕ}

abbrev pub unknown : ℕ
unknown = 0

abbrev pub common : ℕ
common = 0x00000001

abbrev pub pixel_shader_resource : ℕ
pixel_shader_resource = 0x00000020

abbrev pub non_pixel_shader_resource : ℕ
non_pixel_shader_resource = 0x00000040

abbrev pub shader_resource : ℕ
shader_resource = 0x00000060

abbrev pub unordered_access : ℕ
unordered_access = 0x00000080

abbrev pub render_target : ℕ
render_target = 0x00000100

abbrev pub copy_dest : ℕ
copy_dest = 0x00001000

abbrev pub copy_source : ℕ
copy_source = 0x00002000
