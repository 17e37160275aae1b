-- ===== src/Uploads/Exclusive.antt =====
-- src/vulkan/vulkan-upload.cpp: a manager never hands out memory that some work may still read.
use cutie_rhi.Base.{
  ℕ, ◌≤◌, ◌<◌, ◌≡◌, ◌≢◌, sym, ap, subst, ◌∙◌, arith, true, false, List, [], ◌∷◌, Option, none,
  if_elim, max, map, All, All-map, All-of_map, Pairwise, Pairwise-map, Pairwise-of_map,
  Pairwise-keep, OnSome, OnSome-zip, ◌==◌,
}
use mathlib.Core.Bool.{false≢true}
use cutie_rhi.Versioning.{version_get_submitted}
use cutie_rhi.Uploads.{Chunk, Device, retire, submit_chunk, submit_chunks}
use cutie_rhi.Uploads.Pool.{Differ}
use cutie_rhi.Uploads.Recording.{
  Lease, World, Step, step, run, IsProper, AreProper, is_live, submit_lease,
}
use cutie_rhi.Uploads.Sound.{IsSound, IsHeld, Apart, IsGuarded}
use cutie_rhi.Uploads.Start.{Beside, retire-IsReady}
use cutie_rhi.Uploads.Calls.{suballocate_buffer-IsGuarded}
use cutie_rhi.Uploads.Renewal.{
  IsSound-keep, IsHeld-keep, submit_lease-fields, submit_chunk-fields, submit-IsSound,
  later-IsSound,
}

-- The names that a submission gives to the words do not change where the pieces are.
submit_lease-Apart :
    (rec sub : ℕ) (a b : Lease)
    → Apart a b
    → Apart (submit_lease rec sub a) (submit_lease rec sub b)
submit_lease-Apart rec sub a b apart same =
    let (buffer, version, offset, size) = submit_lease-fields rec sub a in
    let (buffer', version', offset', size') = submit_lease-fields rec sub b in
    rw (offset, size, offset', size') (apart (sym buffer ∙ same ∙ buffer'))

submitted_word : (word : ℕ) → version_get_submitted word ≡ true → word ≢ 0
unfolding version_get_submitted
submitted_word word h e = absurd (false≢true (sym (ap version_get_submitted e) ∙ h))

submit_lease-IsHeld :
    (rec sub next completed : ℕ) (a : Lease)
    → version_get_submitted sub ≡ true
    → IsHeld next completed a
    → let a' = submit_lease rec sub a in (a'.buffer < next) × (a'.version ≢ 0)
submit_lease-IsHeld rec sub next completed a flag held =
    let (buffer, version, offset, size) = submit_lease-fields rec sub a in
    (
      omega (arith, held.0),
      if_elim (λ v. (submit_lease rec sub a).version ≡ v → (submit_lease rec sub a).version ≢ 0)
          (a.version == rec) sub a.version (λ _ e z. submitted_word sub flag (sym e ∙ z))
          (λ _ e z. held.1 (sym e ∙ z)) version,
    )

submits-IsGuarded :
    (d : Device) (w : World) (sub next : ℕ)
    → IsGuarded w
    → IsProper (Step.submits sub next) w
    → IsGuarded (step d (Step.submits sub next) w)
unfolding step submit_chunks
submits-IsGuarded d w sub next g (flag, unflagged, later) =
    let live = map (submit_lease w.recording sub) w.live in
    let ready =
      retire-IsReady w w.manager.current_chunk w.manager.chunk_pool
        (record { sound = g.pool; differ = g.pool_apart })
        (OnSome-zip w.manager.current_chunk (λ c b _. (b.0, b.2)) g.current g.current) in
    let chunks = retire w.manager.current_chunk w.manager.chunk_pool in
    record {
      leases = IsHeld-keep w.next_buffer w.completed w.completed live (
          All-of_map _ (submit_lease w.recording sub) w.live (
            All-map w.live
              (λ a h. submit_lease-IsHeld w.recording sub w.next_buffer w.completed a flag h)
              g.leases));
      apart = Pairwise-keep Apart (is_live w.completed) live (
          Pairwise-of_map Apart (submit_lease w.recording sub) w.live
            (Pairwise-map w.live (submit_lease-Apart w.recording sub) g.apart));
      pool = All-of_map _ (submit_chunk w.recording sub) chunks (
          All-map chunks
            (λ c s.
              IsSound-keep next w.next_buffer (is_live w.completed) live
                (submit_chunk w.recording sub c)
                (submit-IsSound w.recording sub next w.next_buffer w.live c later s))
            ready.sound);
      pool_apart = Pairwise-of_map Differ (submit_chunk w.recording sub) chunks (
          Pairwise-map chunks
            (λ c e d h. d (
              sym (submit_chunk-fields w.recording sub c).0
              ∙ h
              ∙ (submit_chunk-fields w.recording sub e).0))
            ready.differ);
      current = tt;
      recording = (omega arith, unflagged);
      chunk_size = g.chunk_size;
    }

abandons-IsGuarded :
    (d : Device) (w : World) (next : ℕ)
    → IsGuarded w
    → IsProper (Step.abandons next) w
    → IsGuarded (step d (Step.abandons next) w)
unfolding step
abandons-IsGuarded d w next g (unflagged, later) = record {
  leases = g.leases;
  apart = g.apart;
  pool =
      All-map w.manager.chunk_pool
        (λ c. later-IsSound w.recording next w.next_buffer w.live c later) g.pool;
  pool_apart = g.pool_apart;
  current =
      OnSome-zip w.manager.current_chunk
        (λ c b _. (
          later-IsSound w.recording next w.next_buffer w.live c later b.0,
          (b.1.0, omega (arith, b.1.1), b.1.2),
          b.2,
        ))
        g.current g.current;
  recording = (omega arith, unflagged);
  chunk_size = g.chunk_size;
}

completes-IsGuarded :
    (d : Device) (w : World) (n : ℕ) → IsGuarded w → IsGuarded (step d (Step.completes n) w)
unfolding step
completes-IsGuarded d w n g =
    let completed = max w.completed n in
    let test = is_live completed in
    record {
      leases =
          IsHeld-keep w.next_buffer w.completed completed w.live
            (All-map w.live (λ a h. (h.0, h.1)) g.leases);
      apart = Pairwise-keep Apart test w.live g.apart;
      pool =
          All-map w.manager.chunk_pool (λ c. IsSound-keep w.recording w.next_buffer test w.live c)
            g.pool;
      pool_apart = g.pool_apart;
      current =
          OnSome-zip w.manager.current_chunk
            (λ c b _. (IsSound-keep w.recording w.next_buffer test w.live c b.0, b.1, b.2))
            g.current g.current;
      recording = g.recording;
      chunk_size = g.chunk_size;
    }

step-IsGuarded :
    (d : Device) (s : Step) (w : World) → IsGuarded w → IsProper s w → IsGuarded (step d s w)
unfolding step
step-IsGuarded d (Step.allocates size k) w g (low, bits) =
    suballocate_buffer-IsGuarded d w size k g low bits
step-IsGuarded d (Step.submits sub next) w g p = submits-IsGuarded d w sub next g p
step-IsGuarded d (Step.abandons next) w g p = abandons-IsGuarded d w next g p
step-IsGuarded d (Step.completes n) w g p = completes-IsGuarded d w n g

run-IsGuarded :
    (d : Device) (ss : List Step) (w : World)
    → IsGuarded w
    → AreProper d ss w
    → IsGuarded (run d ss w)
unfolding run AreProper
run-IsGuarded d [] w g proper = g
run-IsGuarded d (s ∷ ss) w g (now, later) =
    run-IsGuarded d ss (step d s w) (step-IsGuarded d s w g now) later

-- A manager with no chunks, at the start of a recording.
pub record IsNew (w : World) : Type 0 where
  pub no_chunks : w.manager.chunk_pool ≡ []
  pub no_current : w.manager.current_chunk ≡ none
  pub no_lease : w.live ≡ []
  pub positive : 0 < w.recording
  pub unflagged : version_get_submitted w.recording ≡ false
  pub chunk_size : w.manager.default_chunk_size ≤ 0x2000000000000000

OnSome-absent : (P : Chunk → Type 0) (o : Option Chunk) → o ≡ none → OnSome P o
OnSome-absent P o e = subst (OnSome P) (sym e) tt

new-IsGuarded : (w : World) → IsNew w → IsGuarded w
new-IsGuarded w n = record {
  leases = subst (λ l. All (IsHeld w.next_buffer w.completed) l) (sym n.no_lease) tt;
  apart = subst (λ l. Pairwise Apart l) (sym n.no_lease) tt;
  pool = subst (λ l. All (IsSound w.recording w.next_buffer w.live) l) (sym n.no_chunks) tt;
  pool_apart = subst (λ l. Pairwise Differ l) (sym n.no_chunks) tt;
  current = OnSome-absent (Beside w) w.manager.current_chunk n.no_current;
  recording = (n.positive, n.unflagged);
  chunk_size = n.chunk_size;
}

-- From a new manager on, whatever is asked of it, submitted, given up and completed in any order, no
-- two pieces of memory that unfinished work may still use overlap: a chunk is used again only
-- when the submissions that read it are complete. The requests are for at most 2^61 bytes at an
-- alignment that is a power of two, submitted words carry the flag, and recordings are numbered
-- upwards.
pub run-exclusive :
    (d : Device) (ss : List Step) (w : World)
    → IsNew w
    → AreProper d ss w
    → Pairwise Apart (run d ss w).live
run-exclusive d ss w fresh proper = (run-IsGuarded d ss w (new-IsGuarded w fresh) proper).apart
