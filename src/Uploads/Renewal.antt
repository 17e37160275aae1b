-- ===== src/Uploads/Renewal.antt =====
-- src/vulkan/vulkan-upload.cpp: chunks and live pieces when a command list is submitted, recorded
-- again, or complete.
use cutie_rhi.Base.{
  ℕ, ◌<◌, ◌≡◌, ◌≢◌, ◌⊎◌, inl, inr, sym, ap, ◌∙◌, arith, Bool, List, map, keep, All, All-map,
  All-keep, All-of_map, ◌==◌, if◌then◌else◌,
}
use cutie_rhi.Uploads.{Chunk, submit_chunk}
use cutie_rhi.Uploads.Recording.{Lease, is_live, submit_lease}
use cutie_rhi.Uploads.Sound.{Guards, IsSound, IsHeld, IsStale}

later-word :
    (rec next version held : ℕ)
    → rec < next
    → (version ≡ held) ⊎ IsStale rec version
    → (version ≡ held) ⊎ IsStale next version
later-word rec next version held later (inl e) = inl e
later-word rec next version held later (inr stale) = inr (stale.0, omega (arith, stale.1), stale.2)

-- The pieces that are left after some work is complete.
pub IsSound-keep :
    (rec next : ℕ) (test : Lease → Bool) (live : List Lease) (c : Chunk)
    → IsSound rec next live c
    → IsSound rec next (keep test live) c
IsSound-keep rec next test live c s = record {
  known = s.known;
  full = s.full;
  small = s.small;
  guards = All-map (keep test live) (λ _ p. p.1) (All-keep (Guards rec c) test live s.guards);
}

pub IsHeld-keep :
    (next completed completed' : ℕ) (live : List Lease)
    → All (λ a. (a.buffer < next) × (a.version ≢ 0)) live
    → All (IsHeld next completed') (keep (is_live completed') live)
IsHeld-keep next completed completed' live held =
    All-map (keep (is_live completed') live) (λ a p. (p.1.0, p.1.1, ground arith))
      (All-keep (λ a. (a.buffer < next) × (a.version ≢ 0)) (is_live completed') live held)

-- What `submitChunks` makes of a word.
abbrev renamed : ℕ → ℕ → ℕ → ℕ
renamed rec sub version = if version == rec then sub else version

pub submit_chunk-fields :
    (rec sub : ℕ) (c : Chunk)
    → let c' = submit_chunk rec sub c in
      (c'.buffer ≡ c.buffer)
      × (c'.version ≡ renamed rec sub c.version)
      × (c'.write_pointer ≡ c.write_pointer)
      × (c'.buffer_size ≡ c.buffer_size)
unfolding submit_chunk
submit_chunk-fields rec sub c = ground arith

pub submit_lease-fields :
    (rec sub : ℕ) (a : Lease)
    → let a' = submit_lease rec sub a in
      (a'.buffer ≡ a.buffer)
      × (a'.version ≡ renamed rec sub a.version)
      × (a'.offset ≡ a.offset)
      × (a'.size ≡ a.size)
submit_lease-fields rec sub a = ground arith

renamed-word :
    (rec sub next version held : ℕ)
    → rec < next
    → (version ≡ held) ⊎ IsStale rec version
    → (renamed rec sub version ≡ renamed rec sub held) ⊎ IsStale next (renamed rec sub version)
renamed-word rec sub next version held later (inl e) = inl (ap (renamed rec sub) e)
renamed-word rec sub next version held later (inr stale) =
    let same : renamed rec sub version ≡ version = ground arith in
    rw same (inr (stale.0, omega arith, stale.2))

submit-Guards :
    (rec sub next : ℕ) (c : Chunk) (a : Lease)
    → rec < next
    → Guards rec c a
    → Guards next (submit_chunk rec sub c) (submit_lease rec sub a)
submit-Guards rec sub next c a later g = λ same.
    let (buffer, version, pointer, size) = submit_chunk-fields rec sub c in
    let (buffer', version', offset', size') = submit_lease-fields rec sub a in
    let p = g (sym buffer ∙ same ∙ buffer') in
    (
      omega (arith, p.0),
      rw (version, version') (renamed-word rec sub next c.version a.version later p.1),
    )

pub submit-IsSound :
    (rec sub next_word next : ℕ) (live : List Lease) (c : Chunk)
    → rec < next_word
    → IsSound rec next live c
    → IsSound next_word next (map (submit_lease rec sub) live) (submit_chunk rec sub c)
submit-IsSound rec sub next_word next live c later s =
    let (buffer, version, pointer, size) = submit_chunk-fields rec sub c in
    record {
      known = omega (arith, s.known);
      full = omega (arith, s.full);
      small = omega (arith, s.small);
      guards =
          All-of_map (Guards next_word (submit_chunk rec sub c)) (submit_lease rec sub) live
            (All-map live (λ a. submit-Guards rec sub next_word c a later) s.guards);
    }

-- A recording that is given up leaves its words stale.
pub later-IsSound :
    (rec next_word next : ℕ) (live : List Lease) (c : Chunk)
    → rec < next_word
    → IsSound rec next live c
    → IsSound next_word next live c
later-IsSound rec next_word next live c later s = record {
  known = s.known;
  full = s.full;
  small = s.small;
  guards =
      All-map live
        (λ a g same. ((g same).0, later-word rec next_word c.version a.version later (g same).1))
        s.guards;
}
