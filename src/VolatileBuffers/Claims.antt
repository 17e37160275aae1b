-- ===== src/VolatileBuffers/Claims.antt =====
-- src/vulkan/vulkan-buffer.cpp: what the loop of `writeVolatileBuffer` claims while other threads claim
-- versions as well.
use cutie_rhi.Base.{
  ℕ, ◌<◌, ◌≡◌, refl, ap, subst, arith, true, false, not, ◌&&◌, List, [], ◌∷◌, Option, none, some,
  ◌==◌, if_elim, get_or, set, inl, inr, Any,
}
use cutie_rhi.VolatileBuffers.{
  VolatileBuffer, is_available, search_versions, Attempt, Claim, exchange, claim_version,
}
use cutie_rhi.VolatileBuffers.Words.{
  IsUnclaimed, IsInUse, available-IsUnclaimed, unavailable-IsInUse,
}
use cutie_rhi.VolatileBuffers.Search.{Found, search_versions-Found}

-- In some round the version was unclaimed at the exchange; no word but its own is written.
abbrev pub Takes : List ℕ → ℕ → VolatileBuffer → ℕ → List ℕ → Attempt → Type 0
Takes completed word b version words a =
    IsUnclaimed completed (get_or a.present version 0) × (words ≡ set a.present version word)

-- In some round all versions were seen in use.
abbrev pub Lacks : List ℕ → VolatileBuffer → Attempt → Type 0
Lacks completed b a =
    (version : ℕ) → version < b.max_versions → IsInUse completed (get_or a.seen version 0)

abbrev pub Explained : List Attempt → List ℕ → ℕ → VolatileBuffer → Claim → Type 0
Explained attempts completed word b Claim.unfinished = Unit
Explained attempts completed word b Claim.insufficient = Any (Lacks completed b) attempts
Explained attempts completed word b (Claim.claimed version words) =
    (version < b.max_versions) × Any (Takes completed word b version words) attempts

Explained-later :
    (a : Attempt) (attempts : List Attempt) (completed : List ℕ) (word : ℕ) (b : VolatileBuffer)
    (c : Claim)
    → Explained attempts completed word b c
    → Explained (a ∷ attempts) completed word b c
Explained-later a attempts completed word b Claim.unfinished e = tt
Explained-later a attempts completed word b Claim.insufficient e = inr e
Explained-later a attempts completed word b (Claim.claimed version words) e = (e.0, inr e.1)

exchange-Explained :
    (a : Attempt) (attempts : List Attempt) (completed : List ℕ) (word : ℕ) (b : VolatileBuffer)
    (c : Claim) (o : Option (ℕ × ℕ))
    → Explained attempts completed word b c
    → Found b.max_versions completed a.seen o
    → Explained (a ∷ attempts) completed word b (exchange word a c o)
exchange-Explained a attempts completed word b c none e f =
    inl (λ version low. unavailable-IsInUse completed (get_or a.seen version 0) (f version low))
exchange-Explained a attempts completed word b c (some (version, original)) e (low, saw, free) =
    if_elim (Explained (a ∷ attempts) completed word b)
      ((get_or a.present version 0 == original) && not a.spurious)
      (Claim.claimed version (set a.present version word)) c
      (λ h.
        let same : original ≡ get_or a.present version 0 = ground arith in
        (
          low,
          inl (
            available-IsUnclaimed completed _
                (subst (λ (x : ℕ). is_available completed x ≡ true) same free),
            refl,
          ),
        ))
      (λ _. Explained-later a attempts completed word b c e)

-- Whatever the other threads do between the reads and the exchange of each round, in a buffer of fewer
-- than 2^31 versions whose search starts inside it: the word over which a version is claimed is,
-- at the moment of the exchange, neither one that a recording with an id from 1 to 2^60 - 1 has
-- claimed nor that of a submission, with an id below 2^60, that the call knows to be unfinished; no
-- other version is touched; and the call reports too few versions only when in one of its rounds it saw
-- no unused word and none of a submission that it knows to be finished.
pub claim_version-Explained :
    (attempts : List Attempt) (completed : List ℕ) (word : ℕ) (b : VolatileBuffer)
    → b.version_search_start < b.max_versions
    → b.max_versions < 0x80000000
    → Explained attempts completed word b (claim_version attempts completed word b)
unfolding claim_version
claim_version-Explained [] completed word b inside few = tt
claim_version-Explained (a ∷ attempts) completed word b inside few =
    exchange-Explained a attempts completed word b (claim_version attempts completed word b)
      (search_versions b.max_versions 0 b.version_search_start b.max_versions completed a.seen)
      (claim_version-Explained attempts completed word b inside few)
      (search_versions-Found b.max_versions b.version_search_start completed a.seen inside few)

-- A round that no other thread disturbs.
abbrev pub IsQuiet : Attempt → Type 0
IsQuiet a = (a.present ≡ a.seen) × (a.spurious ≡ false)

-- The call has returned.
abbrev pub IsOver : Claim → Type 0
IsOver Claim.unfinished = ⊥
IsOver Claim.insufficient = Unit
IsOver (Claim.claimed version words) = Unit

exchange-quiet :
    (a : Attempt) (completed : List ℕ) (word : ℕ) (b : VolatileBuffer) (c : Claim)
    (o : Option (ℕ × ℕ))
    → IsQuiet a
    → Found b.max_versions completed a.seen o
    → IsOver (exchange word a c o)
exchange-quiet a completed word b c none quiet f = tt
exchange-quiet a completed word b c (some (version, original)) (calm, exact) (low, saw, free) =
    let same : (get_or a.present version 0 == original) ≡ true =
      ground (arith, ap (λ l. get_or l version 0) calm) in
    if_elim IsOver ((get_or a.present version 0 == original) && not a.spurious)
      (Claim.claimed version (set a.present version word)) c (λ _. tt)
      (λ h. absurd (ground (arith, same, exact)))

exchange-IsOver :
    (a : Attempt) (word : ℕ) (c : Claim) (o : Option (ℕ × ℕ))
    → IsOver c
    → IsOver (exchange word a c o)
exchange-IsOver a word c none over = tt
exchange-IsOver a word c (some (version, original)) over =
    if_elim IsOver ((get_or a.present version 0 == original) && not a.spurious)
      (Claim.claimed version (set a.present version word)) c (λ _. tt) (λ _. over)

-- In a buffer of fewer than 2^31 versions whose search starts inside it the call returns at the
-- latest in the first round that is not disturbed: one in which the words do
-- not change between the reads and the exchange, which does not fail without a reason.
pub claim_version-IsOver :
    (attempts : List Attempt) (completed : List ℕ) (word : ℕ) (b : VolatileBuffer)
    → b.version_search_start < b.max_versions
    → b.max_versions < 0x80000000
    → Any IsQuiet attempts
    → IsOver (claim_version attempts completed word b)
unfolding claim_version
claim_version-IsOver [] completed word b inside few quiet = absurd quiet
claim_version-IsOver (a ∷ attempts) completed word b inside few (inl quiet) =
    exchange-quiet a completed word b (claim_version attempts completed word b)
      (search_versions b.max_versions 0 b.version_search_start b.max_versions completed a.seen)
      quiet
      (search_versions-Found b.max_versions b.version_search_start completed a.seen inside few)
claim_version-IsOver (a ∷ attempts) completed word b inside few (inr later) =
    exchange-IsOver a word (claim_version attempts completed word b)
      (search_versions b.max_versions 0 b.version_search_start b.max_versions completed a.seen)
      (claim_version-IsOver attempts completed word b inside few later)
