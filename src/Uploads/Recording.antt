-- ===== src/Uploads/Recording.antt =====
-- src/vulkan/vulkan-upload.cpp, src/vulkan/vulkan-commandlist.cpp: the life of one manager. Its
-- command list asks for memory, is submitted or recorded again under a new version, and the queue
-- completes submissions; beside the code's state stand the pieces that some work may still read.
use cutie_rhi.Base.{
  ℕ, suc, ◌^◌, ◌≤◌, ◌<◌, ◌≡◌, max, Bool, true, false, not, List, [], ◌∷◌, Option, none, some, ◌==◌,
  if◌then◌else◌, map, keep,
}
use cutie_rhi.Versioning.{version_get_submitted}
use cutie_rhi.Uploads.{UploadManager, Device, Allocation, suballocate_buffer, submit_chunks}
use cutie_rhi.Uploads.Pool.{is_complete}

-- A piece of a buffer, and the version of the work that uses it.
pub record Lease : Type 0 where
  pub buffer : ℕ
  pub offset : ℕ
  pub size : ℕ
  pub version : ℕ

pub record World : Type 0 where
  pub manager : UploadManager
  pub next_buffer : ℕ
  pub completed : ℕ
  pub recording : ℕ
  pub live : List Lease

pub data Step : Type 0 where
  allocates submits : ℕ → ℕ → Step
  abandons completes : ℕ → Step

-- The driver gives every buffer a handle of its own.
abbrev pub device_of : Device → World → Device
device_of d w = record {
  make_buffer = λ _. w.next_buffer;
  map_buffer = d.map_buffer;
  supports_ray_tracing = d.supports_ray_tracing;
  queue_get_completed_instance = λ _. w.completed;
}

abbrev pub lease_of : ℕ → ℕ → Option Allocation → List Lease → List Lease
lease_of size version none live = live
lease_of size version (some a) live =
    record { buffer = a.buffer; offset = a.offset; size = size; version = version } ∷ live

abbrev pub submit_lease : ℕ → ℕ → Lease → Lease
submit_lease current submitted a =
    if a.version == current then record a { version = submitted } else a

abbrev pub is_live : ℕ → Lease → Bool
is_live completed a = not (is_complete completed a.version)

unfoldable pub step : Device → Step → World → World
step d (Step.allocates size alignment_bits) w =
    let r = suballocate_buffer (device_of d w) size w.recording (2 ^ alignment_bits) w.manager in
    record w {
      manager = r.1;
      next_buffer = suc w.next_buffer;
      live = lease_of size w.recording r.0 w.live;
    }
step d (Step.submits submitted next) w = record w {
  manager = submit_chunks w.recording submitted w.manager;
  recording = next;
  live = keep (is_live w.completed) (map (submit_lease w.recording submitted) w.live);
}
step d (Step.abandons next) w = record w { recording = next }
step d (Step.completes instance_id) w =
    let completed = max w.completed instance_id in
    record w { completed = completed; live = keep (is_live completed) w.live }

unfoldable pub run : Device → List Step → World → World
run d [] w = w
run d (s ∷ ss) w = run d ss (step d s w)

-- What the callers of the managers do: the sizes leave room in 64 bits, the alignment is a power of
-- two of 32 bits, a submitted word carries the flag, and recordings are numbered upwards.
abbrev pub IsProper : Step → World → Type 0
IsProper (Step.allocates size alignment_bits) w = (size ≤ 2 ^ 61) × (alignment_bits < 32)
IsProper (Step.submits submitted next) w =
    (version_get_submitted submitted ≡ true)
    × (version_get_submitted next ≡ false)
    × (w.recording < next)
IsProper (Step.abandons next) w = (version_get_submitted next ≡ false) × (w.recording < next)
IsProper (Step.completes instance_id) w = (0 ≤ instance_id)

unfoldable pub AreProper : Device → List Step → World → Type 0
AreProper d [] w = Unit
AreProper d (s ∷ ss) w = IsProper s w × AreProper d ss (step d s w)
