-- ===== src/Uploads.antt =====
-- src/vulkan/vulkan-upload.cpp, with the data of src/vulkan/vulkan-backend.h: the managers of upload
-- and scratch memory of a command list, which hand out parts of chunks and use a chunk again when
-- the work that reads it is complete.
pub mod Pool
pub mod Recording
pub mod Sound
pub mod Start
pub mod Calls
pub mod Renewal
pub mod Exclusive
pub mod Bounds
pub mod Reuse
pub mod Scratch
pub mod Best
use cutie_rhi.Base.{
  ℕ, ◌+◌, ◌%◌, max, Bool, true, false, ◌&&◌, List, [], ◌∷◌, ◌++◌, Option, none, some, ltb, leb,
  ◌==◌, if◌then◌else◌, map,
}
use cutie_rhi.Resources.{u64, CpuAccessMode}
use cutie_rhi.Versioning.{version_get_instance, version_get_queue, version_get_submitted}
use cutie_rhi.Common.{align}

-- `BufferChunk`; a buffer is named by its handle, and `none` is a null pointer.
pub record Chunk : Type 0 where
  pub buffer : ℕ
  pub version : ℕ
  pub buffer_size : ℕ
  pub write_pointer : ℕ
  pub mapped_memory : Option ℕ

-- `BufferChunk::c_sizeAlignment`.
abbrev pub size_alignment : ℕ
size_alignment = 4096

pub record UploadManager : Type 0 where
  pub default_chunk_size : ℕ
  pub memory_limit : ℕ
  pub allocated_memory : ℕ
  pub is_scratch_buffer : Bool
  pub chunk_pool : List Chunk
  pub current_chunk : Option Chunk

-- The fields of a `BufferDesc` that the creation of a chunk sets.
pub record ChunkDesc : Type 0 where
  pub byte_size : ℕ
  pub cpu_access : CpuAccessMode
  pub can_have_uavs : Bool
  pub is_accel_struct_build_input : Bool
  pub is_shader_binding_table : Bool

-- What the managers ask of the device: the driver's buffers and mappings, its support of ray
-- tracing, and the last submission that a queue has completed.
pub record Device : Type 0 where
  pub make_buffer : ChunkDesc → ℕ
  pub map_buffer : ℕ → Option ℕ
  pub supports_ray_tracing : Bool
  pub queue_get_completed_instance : ℕ → ℕ

unfoldable pub create_chunk : Device → UploadManager → ℕ → Chunk
create_chunk d m size =
    if m.is_scratch_buffer
    then record {
      buffer = d.make_buffer (record {
        byte_size = size;
        cpu_access = CpuAccessMode.no_access;
        can_have_uavs = true;
        is_accel_struct_build_input = false;
        is_shader_binding_table = false;
      });
      version = 0;
      buffer_size = size;
      write_pointer = 0;
      mapped_memory = none;
    }
    else let handle = d.make_buffer (record {
      byte_size = size;
      cpu_access = CpuAccessMode.write_access;
      can_have_uavs = false;
      is_accel_struct_build_input = d.supports_ray_tracing;
      is_shader_binding_table = d.supports_ray_tracing;
    }) in
      record {
        buffer = handle;
        version = 0;
        buffer_size = size;
        write_pointer = 0;
        mapped_memory = d.map_buffer handle;
      }

-- The out parameters of a call that returns `true`; `none` is a pointer that is null or not written.
pub record Allocation : Type 0 where
  pub buffer : ℕ
  pub offset : ℕ
  pub cpu_address : Option ℕ

abbrev pub advance : Option ℕ → ℕ → Option ℕ
advance none offset = none
advance (some address) offset = some (address + offset)

-- The end of the data in a chunk after one more piece.
abbrev pub end_of_data : Chunk → ℕ → ℕ → ℕ
end_of_data c size alignment = (align c.write_pointer alignment + size) % u64

-- A chunk whose submission is complete is free: the first test of the loop over the pool.
unfoldable pub refresh : ℕ → Chunk → Chunk
refresh completed c =
    if version_get_submitted c.version && leb (version_get_instance c.version) completed
    then record c { version = 0 }
    else c

-- The loop over the pool: the chunk it takes, and the pool without it.
unfoldable pub find_chunk : ℕ → ℕ → List Chunk → Option Chunk × List Chunk
find_chunk completed size [] = (none, [])
find_chunk completed size (c ∷ cs) =
    let c = refresh completed c in
    let rest = find_chunk completed size cs in
    if c.version == 0 && leb size c.buffer_size then (some c, cs) else (rest.0, c ∷ rest.1)

abbrev pub retire : Option Chunk → List Chunk → List Chunk
retire none pool = pool
retire (some c) pool = pool ++ (c ∷ [])

abbrev pub size_to_allocate : UploadManager → ℕ → ℕ
size_to_allocate m size = align (max size m.default_chunk_size) size_alignment

-- The test before a new chunk is created.
abbrev pub is_over_limit : UploadManager → ℕ → Bool
is_over_limit m size =
    ltb 0 m.memory_limit
    && ltb m.memory_limit ((m.allocated_memory + size_to_allocate m size) % u64)

-- The end of a call that does not use the current chunk: `c` becomes the current chunk.
unfoldable pub start_chunk : ℕ → ℕ → Chunk → UploadManager → Option Allocation × UploadManager
start_chunk size version c m = (
  some (record { buffer = c.buffer; offset = 0; cpu_address = c.mapped_memory }),
  record m { current_chunk = some (record c { version = version; write_pointer = size }) },
)

abbrev pub use_found :
    Device → ℕ → ℕ → Option Chunk → UploadManager → Option Allocation × UploadManager
use_found d size version (some c) m = start_chunk size version c m
use_found d size version none m =
    if is_over_limit m size
    then (none, record m { current_chunk = none })
    else start_chunk size version (create_chunk d m (size_to_allocate m size)) m

-- The part of `suballocateBuffer` below the current chunk, which is put into the pool.
unfoldable pub from_pool :
    Device → ℕ → ℕ → Option Chunk → UploadManager → Option Allocation × UploadManager
from_pool d size version retired m =
    let completed = d.queue_get_completed_instance (version_get_queue version) in
    let found = find_chunk completed size m.chunk_pool in
    use_found d size version found.0 (record m { chunk_pool = retire retired found.1 })

abbrev pub from_current :
    Device → ℕ → ℕ → ℕ → Option Chunk → UploadManager → Option Allocation × UploadManager
from_current d size version alignment none m = from_pool d size version none m
from_current d size version alignment (some c) m =
    if leb (end_of_data c size alignment) c.buffer_size
    then (
      some (record {
        buffer = c.buffer;
        offset = align c.write_pointer alignment;
        cpu_address = advance c.mapped_memory (align c.write_pointer alignment);
      }),
      record m { current_chunk = some (record c { write_pointer = end_of_data c size alignment }) },
    )
    else from_pool d size version (some c) m

unfoldable pub suballocate_buffer :
    Device → ℕ → ℕ → ℕ → UploadManager → Option Allocation × UploadManager
suballocate_buffer d size version alignment m =
    from_current d size version alignment m.current_chunk m

-- One chunk of the loop of `submitChunks`.
unfoldable pub submit_chunk : ℕ → ℕ → Chunk → Chunk
submit_chunk current submitted c =
    if c.version == current then record c { version = submitted } else c

unfoldable pub submit_chunks : ℕ → ℕ → UploadManager → UploadManager
submit_chunks current submitted m = record m {
  chunk_pool = map (submit_chunk current submitted) (retire m.current_chunk m.chunk_pool);
  current_chunk = none;
}
