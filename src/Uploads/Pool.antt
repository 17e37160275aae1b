-- ===== src/Uploads/Pool.antt =====
-- src/vulkan/vulkan-upload.cpp: the loop of `suballocateBuffer` over the pool.
use cutie_rhi.Base.{
  ℕ, ◌≤◌, ◌≡◌, ◌≢◌, arith, Bool, ◌&&◌, List, [], ◌∷◌, Option, none, some, leb, ◌==◌, if_elim, All,
  All-map, Pairwise, OnSome, sym, ◌∙◌,
}
use cutie_rhi.Versioning.{version_get_instance, version_get_submitted}
use cutie_rhi.Uploads.{Chunk, refresh, find_chunk}

-- The work of a version word is complete when a submission not above `completed` carried it.
abbrev pub is_complete : ℕ → ℕ → Bool
is_complete completed version =
    version_get_submitted version && leb (version_get_instance version) completed

abbrev pub IsFree : ℕ → Chunk → Type 0
IsFree size c = (c.version ≡ 0) × (size ≤ c.buffer_size)

-- The two ways in which the loop goes on.
pub find_chunk-cons {κ} :
    (P : Option Chunk × List Chunk → Type κ) (completed size : ℕ) (c : Chunk) (cs : List Chunk)
    → (IsFree size (refresh completed c) → P (some (refresh completed c), cs))
    → (let found = find_chunk completed size cs in P (found.0, refresh completed c ∷ found.1))
    → P (find_chunk completed size (c ∷ cs))
unfolding find_chunk
find_chunk-cons P completed size c cs taken passed =
    let c' : Chunk = refresh completed c in
    let rest : Option Chunk × List Chunk = find_chunk completed size cs in
    if_elim P (c'.version == 0 && leb size c'.buffer_size) (some c', cs) (rest.0, c' ∷ rest.1)
      (λ h. taken (ground arith)) (λ _. passed)

-- Every fact about chunks that `refresh` keeps holds of the chunk that is taken and of the rest.
pub find_chunk-All {κ} :
    (Holds : Chunk → Type κ) (completed size : ℕ) (cs : List Chunk)
    → ((c : Chunk) → Holds c → Holds (refresh completed c))
    → All Holds cs
    → let found = find_chunk completed size cs in OnSome Holds found.0 × All Holds found.1
unfolding find_chunk
find_chunk-All Holds completed size [] keeps all = (tt, tt)
find_chunk-All Holds completed size (c ∷ cs) keeps (here, there) =
    let later = find_chunk-All Holds completed size cs keeps there in
    find_chunk-cons (λ r. OnSome Holds r.0 × All Holds r.1) completed size c cs
      (λ _. (keeps c here, there)) (later.0, (keeps c here, later.1))

pub refresh-buffer : (completed : ℕ) (c : Chunk) → (refresh completed c).buffer ≡ c.buffer
unfolding refresh
refresh-buffer completed c = ground arith

abbrev pub Differ : Chunk → Chunk → Type 0
Differ c e = c.buffer ≢ e.buffer

OnSome-Differ :
    (o : Option Chunk) (c : Chunk) (xs : List Chunk)
    → OnSome (Differ c) o
    → OnSome (λ e. All (Differ e) xs) o
    → OnSome (λ e. All (Differ e) (c ∷ xs)) o
OnSome-Differ none c xs other apart = tt
OnSome-Differ (some e) c xs other apart = (λ h. other (sym h), apart)

-- The chunks that are left have buffers of their own, which the chunk that is taken does not share.
pub find_chunk-Differ :
    (completed size : ℕ) (cs : List Chunk)
    → Pairwise Differ cs
    → let found = find_chunk completed size cs in
      OnSome (λ c. All (Differ c) found.1) found.0 × Pairwise Differ found.1
unfolding find_chunk
find_chunk-Differ completed size [] apart = (tt, tt)
find_chunk-Differ completed size (c ∷ cs) (here, there) =
    let c' : Chunk = refresh completed c in
    let found = find_chunk completed size cs in
    let later = find_chunk-Differ completed size cs there in
    let here' : All (Differ c') cs =
      All-map cs (λ e p. λ h. p (sym (refresh-buffer completed c) ∙ h)) here in
    let others =
      find_chunk-All (Differ c') completed size cs (λ e p. λ h. p (h ∙ refresh-buffer completed e))
        here' in
    find_chunk-cons (λ r. OnSome (λ e. All (Differ e) r.1) r.0 × Pairwise Differ r.1) completed size
      c cs (λ _. (here', there))
      (OnSome-Differ found.0 c' found.1 others.0 later.0, (others.1, later.1))

-- The chunk that is taken is free and large enough.
pub find_chunk-IsFree :
    (completed size : ℕ) (cs : List Chunk) → OnSome (IsFree size) (find_chunk completed size cs).0
unfolding find_chunk
find_chunk-IsFree completed size [] = tt
find_chunk-IsFree completed size (c ∷ cs) =
    find_chunk-cons (λ r. OnSome (IsFree size) r.0) completed size c cs (λ h. h)
      (find_chunk-IsFree completed size cs)
