-- ===== src/Uploads/Start.antt =====
-- src/vulkan/vulkan-upload.cpp: the part of `suballocateBuffer` that starts a chunk of the pool or a
-- new one.
use cutie_rhi.Base.{
  ℕ, suc, ◌≤◌, ◌<◌, ◌≡◌, ◌≢◌, inl, refl, sym, ◌∙◌, arith, List, [], ◌∷◌, Option, none, some,
  if_elim, max, All, All-map, All-zip, All-append, Pairwise, Pairwise-append_last, OnSome,
  OnSome-zip,
}
use cutie_rhi.Common.Align.{align-bounds}
use cutie_rhi.Uploads.{
  Chunk, UploadManager, Device, Allocation, find_chunk, retire, start_chunk, create_chunk,
  from_pool, use_found, size_to_allocate, is_over_limit,
}
use cutie_rhi.Uploads.Pool.{
  Differ, IsFree, find_chunk-All, find_chunk-Differ, find_chunk-IsFree, refresh-buffer,
}
use cutie_rhi.Uploads.Recording.{Lease, World, lease_of, device_of}
use cutie_rhi.Uploads.Sound.{
  IsSound, IsOpen, IsGuarded, refresh-IsSound, free_unleased, IsSound-other, IsSound-more,
  IsHeld-more, pending_incomplete,
}

-- The world after a call of `suballocateBuffer`.
abbrev pub after_call : ℕ → Option Allocation × UploadManager → World → World
after_call size r w = record w {
  manager = r.1;
  next_buffer = suc w.next_buffer;
  live = lease_of size w.recording r.0 w.live;
}

-- The chunks in the pool of a manager, when the call is about to start the chunk `c`.
pub record IsReady (w : World) (pool : List Chunk) : Type 0 where
  pub sound : All (IsSound w.recording w.next_buffer w.live) pool
  pub differ : Pairwise Differ pool

start_chunk-IsGuarded :
    (w : World) (m : UploadManager) (size : ℕ) (c : Chunk)
    → IsGuarded w
    → IsReady w m.chunk_pool
    → All (Differ c) m.chunk_pool
    → All (λ a. c.buffer ≢ a.buffer) w.live
    → c.buffer < suc w.next_buffer
    → size ≤ c.buffer_size
    → c.buffer_size ≤ 0x4000000000000000
    → m.default_chunk_size ≤ 0x2000000000000000
    → IsGuarded (after_call size (start_chunk size w.recording c m) w)
unfolding start_chunk
start_chunk-IsGuarded w m size c g ready others unleased known fits small default =
    let a : Lease = record { buffer = c.buffer; offset = 0; size = size; version = w.recording } in
    record {
      leases = (
        (
          known,
          (λ e. omega (arith, e, g.recording.0)),
          pending_incomplete w.completed w.recording g.recording.1,
        ),
        All-map w.live (IsHeld-more w.next_buffer w.completed) g.leases,
      );
      apart = (All-map w.live (λ b h same. absurd (h same)) unleased, g.apart);
      pool =
          All-zip m.chunk_pool
            (λ x d s. IsSound-other w.recording w.next_buffer w.live a x (λ e. d (sym e)) s) others
            ready.sound;
      pool_apart = ready.differ;
      current = (
        record {
          known = known;
          full = fits;
          small = small;
          guards = (
            (λ _. (omega arith, inl refl)),
            All-map w.live (λ b h same. absurd (h same)) unleased,
          );
        },
        (g.recording.0, omega arith, g.recording.1),
        others,
      );
      recording = g.recording;
      chunk_size = default;
    }

abbrev Startable : World → ℕ → List Chunk → Chunk → Type 0
Startable w size pool c =
    IsSound w.recording w.next_buffer w.live c × IsFree size c × All (Differ c) pool

create_chunk-buffer :
    (d : Device) (w : World) (m : UploadManager) (size : ℕ)
    → let c = create_chunk (device_of d w) m size in
      (c.buffer ≡ w.next_buffer) × (c.buffer_size ≡ size)
unfolding create_chunk
create_chunk-buffer d w m size = ground arith

-- A call that is refused leaves the manager without a current chunk.
refused-IsGuarded :
    (w : World) (m : UploadManager) (size : ℕ)
    → IsGuarded w
    → IsReady w m.chunk_pool
    → m.default_chunk_size ≤ 0x2000000000000000
    → IsGuarded (after_call size (none, record m { current_chunk = none }) w)
refused-IsGuarded w m size g ready default = record {
  leases = All-map w.live (IsHeld-more w.next_buffer w.completed) g.leases;
  apart = g.apart;
  pool = All-map m.chunk_pool (IsSound-more w.recording w.next_buffer w.live) ready.sound;
  pool_apart = ready.differ;
  current = tt;
  recording = g.recording;
  chunk_size = default;
}

use_found-IsGuarded :
    (d : Device) (w : World) (m : UploadManager) (size : ℕ) (o : Option Chunk)
    → IsGuarded w
    → IsReady w m.chunk_pool
    → OnSome (Startable w size m.chunk_pool) o
    → size ≤ 0x2000000000000000
    → m.default_chunk_size ≤ 0x2000000000000000
    → IsGuarded (after_call size (use_found (device_of d w) size w.recording o m) w)
use_found-IsGuarded d w m size (some c) g ready (sound, free, others) low default =
    start_chunk-IsGuarded w m size c g ready others
      (free_unleased w.recording w.next_buffer w.completed w.live c free.0 g.leases sound)
      (omega (arith, sound.known)) free.1 sound.small default
use_found-IsGuarded d w m size none g ready tt low default =
    let c : Chunk = create_chunk (device_of d w) m (size_to_allocate m size) in
    let b = create_chunk-buffer d w m (size_to_allocate m size) in
    let a = align-bounds (max size m.default_chunk_size) 12 (omega arith) in
    if_elim (λ r. IsGuarded (after_call size r w)) (is_over_limit m size)
      (none, record m { current_chunk = none }) (start_chunk size w.recording c m)
      (λ _. refused-IsGuarded w m size g ready default)
      (λ _.
        start_chunk-IsGuarded w m size c g ready
          (All-map m.chunk_pool (λ x s e. omega (arith, s.known, e, b.0)) ready.sound)
          (All-map w.live (λ x h e. omega (arith, h.0, e, b.0)) g.leases) (omega (arith, b.0))
          (omega (arith, b.1, a.0)) (omega (arith, b.1, a.1)) default)

-- What holds of the current chunk beside those of the pool.
abbrev pub Beside : World → Chunk → Type 0
Beside w c =
    IsSound w.recording w.next_buffer w.live c
    × IsOpen w.recording c
    × All (Differ c) w.manager.chunk_pool

pub retire-IsReady :
    (w : World) (current : Option Chunk) (pool : List Chunk)
    → IsReady w pool
    → OnSome (λ c. IsSound w.recording w.next_buffer w.live c × All (Differ c) pool) current
    → IsReady w (retire current pool)
retire-IsReady w none pool ready held = ready
retire-IsReady w (some c) pool ready (sound, others) = record {
  sound =
      All-append (IsSound w.recording w.next_buffer w.live) pool (c ∷ []) ready.sound (sound, tt);
  differ =
      Pairwise-append_last Differ pool c ready.differ (All-map pool (λ x d e. d (sym e)) others);
}

-- The chunk that the loop takes is not the one that is put into the pool.
retire-Startable :
    (w : World) (size : ℕ) (current : Option Chunk) (pool : List Chunk) (c : Chunk)
    → OnSome (λ e. Differ e c) current
    → Startable w size pool c
    → Startable w size (retire current pool) c
retire-Startable w size none pool c other s = s
retire-Startable w size (some e) pool c other (sound, free, others) =
    (sound, free, All-append (Differ c) pool (e ∷ []) others ((λ h. other (sym h)), tt))

OnSome-swap :
    (o : Option Chunk) (current : Option Chunk)
    → OnSome (λ e. OnSome (Differ e) o) current
    → OnSome (λ c. OnSome (λ e. Differ e c) current) o
OnSome-swap none current other = tt
OnSome-swap (some c) none other = tt
OnSome-swap (some c) (some e) other = other

pub from_pool-IsGuarded :
    (d : Device) (w : World) (size : ℕ) (current : Option Chunk)
    → IsGuarded w
    → OnSome (Beside w) current
    → size ≤ 0x2000000000000000
    → IsGuarded (after_call size (from_pool (device_of d w) size w.recording current w.manager) w)
unfolding from_pool
from_pool-IsGuarded d w size current g held low =
    let pool = w.manager.chunk_pool in
    let found = find_chunk w.completed size pool in
    let sound =
      find_chunk-All (IsSound w.recording w.next_buffer w.live) w.completed size pool
        (λ c. refresh-IsSound w.recording w.next_buffer w.completed w.live c g.leases) g.pool in
    let differ = find_chunk-Differ w.completed size pool g.pool_apart in
    let apart =
      OnSome-zip {Gets = λ e. OnSome (Differ e) found.0 × All (Differ e) found.1} current
        (λ e b _.
          find_chunk-All (Differ e) w.completed size pool
            (λ c p h. p (h ∙ refresh-buffer w.completed c)) b.2)
        held held in
    let start : OnSome (Startable w size found.1) found.0 =
      OnSome-zip found.0 (λ c s (p : IsFree size c × All (Differ c) found.1). (s, p.0, p.1)) sound.0
        (OnSome-zip found.0 (λ c f o. (f, o)) (find_chunk-IsFree w.completed size pool) differ.0) in
    let other = OnSome-swap found.0 current (OnSome-zip current (λ e a _. a.0) apart apart) in
    use_found-IsGuarded d w (record w.manager { chunk_pool = retire current found.1 }) size found.0
      g
      (retire-IsReady w current found.1 (record { sound = sound.1; differ = differ.1 })
        (OnSome-zip current (λ e b a. (b.0, a.1)) held apart))
      (OnSome-zip found.0 (λ c. retire-Startable w size current found.1 c) other start) low
      g.chunk_size
