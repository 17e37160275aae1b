-- ===== src/Uploads/Sound.antt =====
-- src/vulkan/vulkan-upload.cpp: what holds between the chunks of a manager and the pieces that some
-- work may still read, and why the chunk that a call starts again holds none of them.
use cutie_rhi.Base.{
  ℕ, suc, ◌+◌, ◌≤◌, ◌<◌, ◌≡◌, ◌≢◌, ◌⊎◌, inl, inr, sym, ap, ◌∙◌, arith, true, false, List, ◌∷◌,
  if_elim, All, All-zip, Pairwise, OnSome,
}
use cutie_rhi.Versioning.{version_get_submitted}
use cutie_rhi.Uploads.{Chunk, refresh}
use cutie_rhi.Uploads.Pool.{is_complete, Differ}
use cutie_rhi.Uploads.Recording.{Lease, World}

-- A word of an earlier recording of the command list, which was not submitted.
abbrev pub IsStale : ℕ → ℕ → Type 0
IsStale recording version =
    (0 < version) × (version < recording) × (version_get_submitted version ≡ false)

-- A piece lies below the write pointer of its chunk, whose word keeps the chunk out of use for as
-- long as the piece is.
abbrev pub Guards : ℕ → Chunk → Lease → Type 0
Guards recording c a =
    c.buffer ≡ a.buffer
    → (a.offset + a.size ≤ c.write_pointer)
      × ((c.version ≡ a.version) ⊎ IsStale recording c.version)

pub record IsSound (recording next : ℕ) (live : List Lease) (c : Chunk) : Type 0 where
  pub known : c.buffer < next
  pub full : c.write_pointer ≤ c.buffer_size
  pub small : c.buffer_size ≤ 0x4000000000000000
  pub guards : All (Guards recording c) live

abbrev pub IsHeld : ℕ → ℕ → Lease → Type 0
IsHeld next completed a =
    (a.buffer < next) × (a.version ≢ 0) × (is_complete completed a.version ≡ false)

-- Pieces of one buffer do not overlap.
abbrev pub Apart : Lease → Lease → Type 0
Apart a b = a.buffer ≡ b.buffer → (a.offset + a.size ≤ b.offset) ⊎ (b.offset + b.size ≤ a.offset)

abbrev pub IsOpen : ℕ → Chunk → Type 0
IsOpen recording c =
    (0 < c.version) × (c.version ≤ recording) × (version_get_submitted c.version ≡ false)

pub record IsGuarded (w : World) : Type 0 where
  pub leases : All (IsHeld w.next_buffer w.completed) w.live
  pub apart : Pairwise Apart w.live
  pub pool : All (IsSound w.recording w.next_buffer w.live) w.manager.chunk_pool
  pub pool_apart : Pairwise Differ w.manager.chunk_pool
  pub current :
      OnSome
        (λ c.
          IsSound w.recording w.next_buffer w.live c
          × IsOpen w.recording c
          × All (Differ c) w.manager.chunk_pool)
        w.manager.current_chunk
  pub recording : (0 < w.recording) × (version_get_submitted w.recording ≡ false)
  pub chunk_size : w.manager.default_chunk_size ≤ 0x2000000000000000

-- A word that keeps a live piece is not complete, and not 0.
word_incomplete :
    (rec next completed version : ℕ) (a : Lease)
    → IsHeld next completed a
    → (version ≡ a.version) ⊎ IsStale rec version
    → is_complete completed version ≡ true
    → ⊥
word_incomplete rec next completed version a held (inl e) h =
    ground (arith, ap (is_complete completed) e)
word_incomplete rec next completed version a held (inr stale) h = ground arith

word_nonzero :
    (rec next completed version : ℕ) (a : Lease)
    → IsHeld next completed a
    → (version ≡ a.version) ⊎ IsStale rec version
    → version ≢ 0
word_nonzero rec next completed version a held (inl e) h = held.1 (sym e ∙ h)
word_nonzero rec next completed version a held (inr stale) h = omega (arith, stale.0)

Guards-refresh :
    (rec next completed : ℕ) (c : Chunk) (a : Lease)
    → IsHeld next completed a
    → Guards rec c a
    → is_complete completed c.version ≡ true
    → Guards rec (record c { version = 0 }) a
Guards-refresh rec next completed c a held g h =
    λ same. absurd (word_incomplete rec next completed c.version a held (g same).1 h)

pub refresh-IsSound :
    (rec next completed : ℕ) (live : List Lease) (c : Chunk)
    → All (IsHeld next completed) live
    → IsSound rec next live c
    → IsSound rec next live (refresh completed c)
unfolding refresh
refresh-IsSound rec next completed live c held s =
    if_elim (IsSound rec next live) (is_complete completed c.version) (record c { version = 0 }) c
      (λ h. record {
        known = s.known;
        full = s.full;
        small = s.small;
        guards = All-zip live (λ a x g. Guards-refresh rec next completed c a x g h) held s.guards;
      })
      (λ _. s)

-- No live piece lies in a free chunk.
pub free_unleased :
    (rec next completed : ℕ) (live : List Lease) (c : Chunk)
    → c.version ≡ 0
    → All (IsHeld next completed) live
    → IsSound rec next live c
    → All (λ a. c.buffer ≢ a.buffer) live
free_unleased rec next completed live c free held s =
    All-zip live (λ a h g. λ same. word_nonzero rec next completed c.version a h (g same).1 free)
      held s.guards

-- A chunk is as sound with one more piece in another buffer, and under a larger count of buffers.
pub IsSound-other :
    (rec next : ℕ) (live : List Lease) (a : Lease) (c : Chunk)
    → c.buffer ≢ a.buffer
    → IsSound rec next live c
    → IsSound rec (suc next) (a ∷ live) c
IsSound-other rec next live a c other s = record {
  known = omega (arith, s.known);
  full = s.full;
  small = s.small;
  guards = (λ same. absurd (other same), s.guards);
}

pub IsSound-more :
    (rec next : ℕ) (live : List Lease) (c : Chunk)
    → IsSound rec next live c
    → IsSound rec (suc next) live c
IsSound-more rec next live c s = record {
  known = omega (arith, s.known);
  full = s.full;
  small = s.small;
  guards = s.guards;
}

pub IsHeld-more :
    (next completed : ℕ) (a : Lease) → IsHeld next completed a → IsHeld (suc next) completed a
IsHeld-more next completed a h = (omega (arith, h.0), h.1, h.2)

pub pending_incomplete :
    (completed version : ℕ)
    → version_get_submitted version ≡ false
    → is_complete completed version ≡ false
pending_incomplete completed version h = ground arith
