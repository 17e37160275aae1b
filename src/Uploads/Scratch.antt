-- ===== src/Uploads/Scratch.antt =====
-- src/d3d12/d3d12-upload.cpp: the managers of the Direct3D 12 backend. They differ from those of
-- Vulkan when the limit is reached, where scratch memory takes over a chunk that is still in use,
-- behind a barrier, and when the driver refuses a new chunk.
use cutie_rhi.Base.{
  ℕ, Bool, not, ◌&&◌, ◌||◌, List, [], ◌∷◌, Option, none, some, ltb, leb, ◌==◌, if◌then◌else◌,
}
use cutie_rhi.Versioning.{version_get_submitted, version_get_instance}
use cutie_rhi.Common.{align}
use cutie_rhi.Uploads.{
  Chunk, UploadManager, Allocation, size_alignment, advance, end_of_data, find_chunk, retire,
  size_to_allocate, is_over_limit,
}

-- What these managers ask of the driver: a committed buffer of a size, which may fail, its mapping,
-- which may fail too, and the last submission that the queue has completed.
pub record DxDevice : Type 0 where
  pub create_committed_resource : ℕ → Option ℕ
  pub map_resource : ℕ → Option ℕ
  pub last_completed_instance : ℕ

abbrev pub mapped_chunk : ℕ → ℕ → Option ℕ → Option Chunk
mapped_chunk size handle none = none
mapped_chunk size handle (some address) = some (record {
  buffer = handle;
  version = 0;
  buffer_size = size;
  write_pointer = 0;
  mapped_memory = some address;
})

abbrev pub committed_chunk : DxDevice → Bool → ℕ → Option ℕ → Option Chunk
committed_chunk d scratch size none = none
committed_chunk d scratch size (some handle) =
    if scratch
    then some (record {
      buffer = handle;
      version = 0;
      buffer_size = size;
      write_pointer = 0;
      mapped_memory = none;
    })
    else mapped_chunk size handle (d.map_resource handle)

-- `createChunk`; `none` is the null pointer of a failed call.
unfoldable pub create_dx_chunk : DxDevice → UploadManager → ℕ → Option Chunk
create_dx_chunk d m size =
    let aligned = align size size_alignment in
    committed_chunk d m.is_scratch_buffer aligned (d.create_committed_resource aligned)

-- Submitted is better than current, old is better than new, large is better than small.
unfoldable pub is_better : Chunk → Chunk → Bool
is_better candidate best =
    let candidate_submitted = version_get_submitted candidate.version in
    let best_submitted = version_get_submitted best.version in
    let candidate_instance = version_get_instance candidate.version in
    let best_instance = version_get_instance best.version in
    let same = if candidate_submitted then best_submitted else not best_submitted in
    (candidate_submitted && not best_submitted)
    || (same && ltb candidate_instance best_instance)
    || (same && (candidate_instance == best_instance) && ltb best.buffer_size candidate.buffer_size)

abbrev pub better_of : Chunk → Option Chunk → Chunk
better_of candidate none = candidate
better_of candidate (some best) = if is_better candidate best then candidate else best

-- The loop over the pool for the chunk to take over.
unfoldable pub best_chunk : ℕ → Option Chunk → List Chunk → Option Chunk
best_chunk size best [] = best
best_chunk size best (c ∷ cs) =
    best_chunk size (if leb size c.buffer_size then some (better_of c best) else best) cs

-- `erase` of the first entry that is the chunk.
unfoldable pub erase_chunk : ℕ → List Chunk → List Chunk
erase_chunk buffer [] = []
erase_chunk buffer (c ∷ cs) =
    let rest = erase_chunk buffer cs in if c.buffer == buffer then cs else c ∷ rest

-- What a call ends with. `null_chunk` is the use of the null pointer that a failed `createChunk`
-- returns; the list holds the buffers for which a barrier is recorded.
pub data Outcome : Type 0 where
  refused null_chunk : UploadManager → Outcome
  granted : Allocation → List ℕ → UploadManager → Outcome

abbrev pub start_dx : ℕ → ℕ → List ℕ → Chunk → UploadManager → Outcome
start_dx size version barriers c m =
    Outcome.granted (record { buffer = c.buffer; offset = 0; cpu_address = c.mapped_memory })
      barriers
      (record m { current_chunk = some (record c { version = version; write_pointer = size }) })

abbrev pub take_over : ℕ → ℕ → Option Chunk → UploadManager → Outcome
take_over size version none m = Outcome.refused (record m { current_chunk = none })
take_over size version (some c) m =
    start_dx size version (c.buffer ∷ []) c
      (record m { chunk_pool = erase_chunk c.buffer m.chunk_pool })

abbrev pub start_created : ℕ → ℕ → Option Chunk → UploadManager → Outcome
start_created size version none m = Outcome.null_chunk (record m { current_chunk = none })
start_created size version (some c) m = start_dx size version [] c m

abbrev pub use_dx_found : DxDevice → ℕ → ℕ → Option Chunk → UploadManager → Outcome
use_dx_found d size version (some c) m = start_dx size version [] c m
use_dx_found d size version none m =
    if is_over_limit m size
    then if m.is_scratch_buffer
      then take_over size version (best_chunk (size_to_allocate m size) none m.chunk_pool) m
      else Outcome.refused (record m { current_chunk = none })
    else start_created size version (create_dx_chunk d m (size_to_allocate m size)) m

unfoldable pub from_dx_pool : DxDevice → ℕ → ℕ → Option Chunk → UploadManager → Outcome
from_dx_pool d size version retired m =
    let found = find_chunk d.last_completed_instance size m.chunk_pool in
    use_dx_found d size version found.0 (record m { chunk_pool = retire retired found.1 })

abbrev pub from_dx_current : DxDevice → ℕ → ℕ → ℕ → Option Chunk → UploadManager → Outcome
from_dx_current d size version alignment none m = from_dx_pool d size version none m
from_dx_current d size version alignment (some c) m =
    if leb (end_of_data c size alignment) c.buffer_size
    then Outcome.granted
        (record {
          buffer = c.buffer;
          offset = align c.write_pointer alignment;
          cpu_address = advance c.mapped_memory (align c.write_pointer alignment);
        })
        []
        (record m {
          current_chunk = some (record c { write_pointer = end_of_data c size alignment });
        })
    else from_dx_pool d size version (some c) m

unfoldable pub suballocate_dx_buffer : DxDevice → ℕ → ℕ → ℕ → UploadManager → Outcome
suballocate_dx_buffer d size version alignment m =
    from_dx_current d size version alignment m.current_chunk m
