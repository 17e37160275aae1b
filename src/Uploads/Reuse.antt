-- ===== src/Uploads/Reuse.antt =====
-- src/vulkan/vulkan-upload.cpp: memory comes back once the work that uses it is complete.
use cutie_rhi.Base.{
  ℕ, ◌≤◌, ◌≡◌, refl, ◌∙◌, arith, true, ◌&&◌, List, [], ◌∷◌, Option, some, if_elim, inl, inr, Any,
  Any-map, Any-to_map, Any-of_map, leb, ◌==◌, map,
}
use cutie_rhi.Versioning.{version_get_queue, version_get_submitted, version_get_instance}
use cutie_rhi.Uploads.{
  Chunk, UploadManager, Device, Allocation, refresh, find_chunk, retire, use_found, start_chunk,
  from_pool, suballocate_buffer, submit_chunk, submit_chunks,
}
use cutie_rhi.Uploads.Pool.{IsFree, refresh-buffer}

-- The loop takes a chunk when there is a free one that is large enough, and takes it from the pool.
find_chunk-finds :
    (completed size : ℕ) (cs : List Chunk)
    → Any (λ c. IsFree size (refresh completed c)) cs
    → (c : Chunk) × ((find_chunk completed size cs).0 ≡ some c) × Any (λ e. c.buffer ≡ e.buffer) cs
unfolding find_chunk
find_chunk-finds completed size [] free = absurd free
find_chunk-finds completed size (c ∷ cs) free =
    let c' : Chunk = refresh completed c in
    let rest : Option Chunk × List Chunk = find_chunk completed size cs in
    let Found : Option Chunk × List Chunk → Type 0 =
      λ r. (b : Chunk) × (r.0 ≡ some b) × Any (λ e. b.buffer ≡ e.buffer) (c ∷ cs) in
    if_elim Found (c'.version == 0 && leb size c'.buffer_size) (some c', cs) (rest.0, c' ∷ rest.1)
      (λ h. (c', refl, inl (refresh-buffer completed c)))
      (λ h. elim free [
        | inl f ↦ absurd (ground arith)
        | inr later ↦ let (b, e, m) = find_chunk-finds completed size cs later in (b, e, inr m)
      ])

submitted-IsFree :
    (completed size current submitted : ℕ) (c : Chunk)
    → version_get_submitted submitted ≡ true
    → version_get_instance submitted ≤ completed
    → (c.version ≡ current) × (size ≤ c.buffer_size)
    → IsFree size (refresh completed (submit_chunk current submitted c))
unfolding refresh submit_chunk
submitted-IsFree completed size current submitted c flag done (same, large) = ground arith

submit_chunk-buffer :
    (current submitted : ℕ) (c : Chunk) → (submit_chunk current submitted c).buffer ≡ c.buffer
unfolding submit_chunk
submit_chunk-buffer current submitted c = ground arith

use_found-some :
    (d : Device) (size version : ℕ) (o : Option Chunk) (c : Chunk) (m : UploadManager)
    → o ≡ some c
    → (a : Allocation) × ((use_found d size version o m).0 ≡ some a) × (a.buffer ≡ c.buffer)
unfolding start_chunk
use_found-some d size version o c m e =
    rw e (record { buffer = c.buffer; offset = 0; cpu_address = c.mapped_memory }, refl, refl)

-- Once the submission of a recording is complete on the queue of the next one, every request that
-- fits one of the chunks of that recording succeeds, in a buffer that the manager has already:
-- neither the limit nor the driver is asked.
pub submit_chunks-reusable :
    (d : Device) (m : UploadManager) (size alignment current submitted version : ℕ)
    → version_get_submitted submitted ≡ true
    → version_get_instance submitted ≤ d.queue_get_completed_instance (version_get_queue version)
    → Any
        (λ c. (c.version ≡ current) × (size ≤ c.buffer_size))
        (retire m.current_chunk m.chunk_pool)
    → let r = suballocate_buffer d size version alignment (submit_chunks current submitted m) in
      (a : Allocation) × (r.0 ≡ some a)
      × Any (λ c. a.buffer ≡ c.buffer) (retire m.current_chunk m.chunk_pool)
unfolding suballocate_buffer submit_chunks from_pool
submit_chunks-reusable d m size alignment current submitted version flag done fitting =
    let completed = d.queue_get_completed_instance (version_get_queue version) in
    let chunks = retire m.current_chunk m.chunk_pool in
    let pool = map (submit_chunk current submitted) chunks in
    let free : Any (λ c. IsFree size (refresh completed c)) pool =
      Any-to_map (λ c. IsFree size (refresh completed c)) (submit_chunk current submitted) chunks
        (Any-map chunks (λ c. submitted-IsFree completed size current submitted c flag done)
          fitting) in
    let (c, e, from) = find_chunk-finds completed size pool free in
    let (a, taken, here) = use_found-some d size version (find_chunk completed size pool).0 c _ e in
    (
      a,
      taken,
      Any-map chunks (λ x p. here ∙ p ∙ submit_chunk-buffer current submitted x)
          (Any-of_map (λ x. c.buffer ≡ x.buffer) (submit_chunk current submitted) chunks from),
    )
