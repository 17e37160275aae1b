-- ===== src/Descriptors/Live.antt =====
-- src/d3d12/d3d12-descriptor-heap.cpp: a heap and the ranges that its clients hold.
use cutie_rhi.Base.{
  ℕ, zero, suc, ◌+◌, ◌%◌, ◌≤◌, ◌≡◌, ◌≢◌, refl, sym, ap, ◌∙◌, subst, arith, Bool, true, false, List,
  [], ◌∷◌, Option, none, some, ◌==◌, if◌then◌else◌, if_elim, length, get_or, All, All-map, OnSome,
  OnSome-zip,
}
use cutie_rhi.Resources.{u32}
use cutie_rhi.Descriptors.{Driver, DescriptorHeap, allocate_descriptors, release_descriptors}
use cutie_rhi.Descriptors.Marks.{is_within, length-mark, get_or-mark}
use cutie_rhi.Descriptors.Allocation.{Allocates, Answers, IsSized, allocate_descriptors-Answers}
use cutie_rhi.Descriptors.Reliable.{run-returns}
use cutie_rhi.Descriptors.Clients.{
  World, Step, hold, pick, give_back, take_outcome, and_then, IsReliable, step, run, IsProper,
  AreProper, one_if, holders, total, Agrees, IsNew,
}

pub record IsTracked (w : World) : Type 0 where
  pub sized : IsSized w.heap
  pub start : w.heap.search_start ≤ w.heap.num_descriptors
  pub inside : All (λ r. r.0 + r.1 ≤ w.heap.num_descriptors) w.live
  pub agrees : Agrees w

add_mark :
    (within old new : Bool) (n : ℕ)
    → (within ≡ true → old ≡ false)
    → new ≡ (if within then true else old)
    → n ≡ one_if old
    → one_if within + n ≡ one_if new
add_mark true old new n free e h = ground (arith, free refl)
add_mark false old new n free e h = ground arith

remove_mark :
    (within old new : Bool) (n : ℕ)
    → new ≡ (if within then false else old)
    → one_if within + n ≡ one_if old
    → n ≡ one_if new
remove_mark true old new n e h = ground arith
remove_mark false old new n e h = ground arith

hold-IsTracked :
    (w : World) (count : ℕ) (r : Option ℕ × DescriptorHeap)
    → IsTracked w
    → Allocates count w.heap r
    → IsTracked (record { heap = r.1; live = hold r.0 count w.live })
unfolding holders total
hold-IsTracked w count (none, h') t (marks, size, counted, start) = record {
  sized = (ap length marks ∙ t.sized.0 ∙ sym size, omega (arith, size, t.sized.1));
  start = omega (arith, start, size, t.start);
  inside = All-map w.live (λ r p. omega (arith, p)) t.inside;
  agrees =
      ((λ i. t.agrees.0 i ∙ ap (λ m. one_if (get_or m i false)) (sym marks)), counted ∙ t.agrees.1);
}
hold-IsTracked w count (some base, h') t (free, marks, low, long, small, counted, start, larger) =
    record {
      sized = (long, small);
      start = start;
      inside = (low, All-map w.live (λ r p. omega (arith, p)) t.inside);
      agrees = (
        (λ i.
            add_mark (is_within base count i) (get_or w.heap.allocated_descriptors i false)
              (get_or h'.allocated_descriptors i false) (holders i w.live)
              (λ e. free i (ground arith) (ground arith)) (marks i) (t.agrees.0 i)),
        omega (arith, counted, t.agrees.1),
      );
    }

-- What the range that is picked takes from the counts.
abbrev Picks : List (ℕ × ℕ) → Option (ℕ × ℕ) × List (ℕ × ℕ) → Type 0
Picks live (none, rest) = rest ≡ live
Picks live (some r, rest) =
    ((i : ℕ) → one_if (is_within r.0 r.1 i) + holders i rest ≡ holders i live)
    × (r.1 + total rest ≡ total live)

Picks-later :
    (r : ℕ × ℕ) (live : List (ℕ × ℕ)) (p : Option (ℕ × ℕ) × List (ℕ × ℕ))
    → Picks live p
    → Picks (r ∷ live) (p.0, r ∷ p.1)
unfolding holders total
Picks-later r live (none, rest) e = ap (◌∷◌ r) e
Picks-later r live (some r', rest) (h, t) = ((λ i. omega (arith, h i)), omega (arith, t))

pick-Picks : (k : ℕ) (live : List (ℕ × ℕ)) → Picks live (pick k live)
unfolding pick holders total
pick-Picks k [] = refl
pick-Picks zero (r ∷ live) = ((λ i. refl), refl)
pick-Picks (suc k) (r ∷ live) = Picks-later r live (pick k live) (pick-Picks k live)

pick-inside :
    (n k : ℕ) (live : List (ℕ × ℕ))
    → All (λ r. r.0 + r.1 ≤ n) live
    → OnSome (λ r. r.0 + r.1 ≤ n) (pick k live).0 × All (λ r. r.0 + r.1 ≤ n) (pick k live).1
unfolding pick
pick-inside n k [] all = (tt, tt)
pick-inside n zero (r ∷ live) (here, there) = (here, there)
pick-inside n (suc k) (r ∷ live) (here, there) =
    let later = pick-inside n k live there in (later.0, (here, later.1))

give_back-IsTracked :
    (w : World) (o : Option (ℕ × ℕ)) (rest : List (ℕ × ℕ))
    → IsTracked w
    → Picks w.live (o, rest)
    → OnSome (λ r. r.0 + r.1 ≤ w.heap.num_descriptors) o
    → All (λ r. r.0 + r.1 ≤ w.heap.num_descriptors) rest
    → IsTracked (record { heap = give_back o w.heap; live = rest })
unfolding release_descriptors
give_back-IsTracked w none rest t e within inside = record {
  sized = t.sized;
  start = t.start;
  inside = inside;
  agrees = ((λ i. ap (holders i) e ∙ t.agrees.0 i), t.agrees.1 ∙ ap (λ l. total l % u32) (sym e));
}
give_back-IsTracked w (some (base, count)) rest t (held, sum) within inside =
    let h = w.heap in
    let marks = h.allocated_descriptors in
    if_elim (λ h'. IsTracked (record { heap = h'; live = rest })) (count == 0) h _
      (λ e. record {
        sized = t.sized;
        start = t.start;
        inside = inside;
        agrees = ((λ i. ground (arith, held i, t.agrees.0 i)), ground (arith, sum, t.agrees.1));
      })
      (λ e. record {
        sized = (length-mark base count false marks ∙ t.sized.0, t.sized.1);
        start = ground (arith, within, t.start);
        inside = inside;
        agrees = (
          (λ i.
              remove_mark (is_within base count i) (get_or marks i false) _ (holders i rest)
                (get_or-mark base count false marks i false (omega (arith, t.sized.0)))
                (held i ∙ t.agrees.0 i)),
          omega (arith, t.agrees.1, sum),
        );
      })

take_outcome-IsTracked :
    (w : World) (count : ℕ) (o : Option (Option ℕ × DescriptorHeap))
    → IsTracked w
    → Answers count w.heap o
    → OnSome IsTracked (take_outcome count w.live o)
take_outcome-IsTracked w count none t a = tt
take_outcome-IsTracked w count (some r) t a = hold-IsTracked w count r t a

step-IsTracked :
    (d : Driver) (s : Step) (w : World) → IsTracked w → IsProper s w → OnSome IsTracked (step d s w)
unfolding step
step-IsTracked d (Step.allocates count) w t (positive, room) =
    take_outcome-IsTracked w count (allocate_descriptors d count w.heap) t
      (allocate_descriptors-Answers d count w.heap positive room t.start t.sized)
step-IsTracked d (Step.releases k) w t p =
    let r = pick k w.live in
    let inside = pick-inside w.heap.num_descriptors k w.live t.inside in
    give_back-IsTracked w r.0 r.1 t (pick-Picks k w.live) inside.0 inside.1

and_then-IsTracked :
    (Proper : World → Type 0) (o : Option World) (f : World → Option World)
    → OnSome IsTracked o
    → OnSome Proper o
    → ((v : World) → IsTracked v → Proper v → OnSome IsTracked (f v))
    → OnSome IsTracked (and_then o f)
and_then-IsTracked Proper none f t proper next = tt
and_then-IsTracked Proper (some v) f t proper next = next v t proper

run-IsTracked :
    (d : Driver) (ss : List Step) (w : World)
    → IsTracked w
    → AreProper d ss w
    → OnSome IsTracked (run d ss w)
unfolding run AreProper
run-IsTracked d [] w t proper = t
run-IsTracked d (s ∷ ss) w t (now, later) =
    and_then-IsTracked (AreProper d ss) (step d s w) (run d ss) (step-IsTracked d s w t now) later
      (λ v. run-IsTracked d ss v)

new-IsTracked : (w : World) → IsNew w → IsTracked w
unfolding holders total
new-IsTracked w n = record {
  sized = n.sized;
  start = n.start;
  inside = subst (λ l. All (λ r. r.0 + r.1 ≤ w.heap.num_descriptors) l) (sym n.nothing_live) tt;
  agrees = (
    (λ i. ap (holders i) n.nothing_live ∙ sym (ap one_if (n.unmarked i))),
    n.uncounted ∙ ap (λ l. total l % u32) (sym n.nothing_live),
  );
}

-- Whatever is allocated and released, in any order, in a heap of at most 2^31 descriptors in which
-- nothing was allocated, with requests for at least one descriptor that stay below 2^31 in all: as
-- long as no null pointer is called, a descriptor is marked exactly when one of the ranges that are
-- held has it, no descriptor is in two of them, all of them lie inside the heap, and the count of
-- the heap is that of their descriptors, also when growing the heap fails; and no null pointer is
-- called when the heap is there at first and the driver creates every heap it is asked for.
pub run-Agrees :
    (d : Driver) (ss : List Step) (w : World)
    → IsNew w
    → AreProper d ss w
    → OnSome (λ v. Agrees v × All (λ r. r.0 + r.1 ≤ v.heap.num_descriptors) v.live) (run d ss w)
      × (IsReliable d → w.heap.heap ≢ none → run d ss w ≢ none)
run-Agrees d ss w n proper =
    let t = run-IsTracked d ss w (new-IsTracked w n) proper in
    (
      OnSome-zip (run d ss w) (λ v t _. (t.agrees, t.inside)) t t,
      (λ reliable here. run-returns d ss w reliable here),
    )
