-- ===== src/Base/Predicates.antt =====
-- Predicates of the entries of lists and of optional values, and the entries that a test keeps.
use Prim.Native.Nat.{ℕ, zero, suc}
use mathlib.Core.Path.{◌≡◌, refl, ap}
use mathlib.Core.Logic.{◌⊎◌, inl, inr}
use mathlib.Core.Bool.{Bool, true, false}
use mathlib.Core.Option.{Option, none, some}
use mathlib.Core.List.{List, [], ◌∷◌, ◌++◌, map}
use cutie_rhi.Base.Tests.{if◌then◌else◌, if_elim}
use cutie_rhi.Base.Lists.{All, All-append, get_or, set}

module _ {ℓ} {A : Type ℓ} where
  pub All-set {κ} :
      (Holds : A → Type κ) (xs : List A) (i : ℕ) (v : A)
      → Holds v
      → All Holds xs
      → All Holds (set xs i v)
  All-set Holds [] i v new all = tt
  All-set Holds (x ∷ xs) zero v new (here, there) = (new, there)
  All-set Holds (x ∷ xs) (suc i) v new (here, there) = (here, All-set Holds xs i v new there)

  pub All-get_or {κ} :
      (Holds : A → Type κ) (xs : List A) (i : ℕ) (d : A)
      → Holds d
      → All Holds xs
      → Holds (get_or xs i d)
  All-get_or Holds [] i d other all = other
  All-get_or Holds (x ∷ xs) zero d other (here, there) = here
  All-get_or Holds (x ∷ xs) (suc i) d other (here, there) = All-get_or Holds xs i d other there

  pub All-map {κ κ'} :
      {Holds : A → Type κ} {Gets : A → Type κ'} (xs : List A)
      → ((x : A) → Holds x → Gets x)
      → All Holds xs
      → All Gets xs
  All-map [] f all = tt
  All-map (x ∷ xs) f (here, there) = (f x here, All-map xs f there)

  pub All-zip {κ κ' κ''} :
      {Holds : A → Type κ} {Also : A → Type κ'} {Gets : A → Type κ''} (xs : List A)
      → ((x : A) → Holds x → Also x → Gets x)
      → All Holds xs
      → All Also xs
      → All Gets xs
  All-zip [] f all also = tt
  All-zip (x ∷ xs) f (here, there) (here', there') = (f x here here', All-zip xs f there there')

  -- The relation holds from every entry to the later ones.
  abbrev pub Pairwise {κ} : (A → A → Type κ) → List A → Type κ
  Pairwise R [] = Unit
  Pairwise R (x ∷ xs) = All (R x) xs × Pairwise R xs

  pub Pairwise-append_last {κ} :
      (R : A → A → Type κ) (xs : List A) (last : A)
      → Pairwise R xs
      → All (λ x. R x last) xs
      → Pairwise R (xs ++ (last ∷ []))
  Pairwise-append_last R [] last related below = (tt, tt)
  Pairwise-append_last R (x ∷ xs) last (first, later) (here, there) =
      (All-append (R x) xs (last ∷ []) first (here, tt), Pairwise-append_last R xs last later there)

  pub Pairwise-map {κ κ'} :
      {R : A → A → Type κ} {S : A → A → Type κ'} (xs : List A)
      → ((x y : A) → R x y → S x y)
      → Pairwise R xs
      → Pairwise S xs
  Pairwise-map [] f all = tt
  Pairwise-map (x ∷ xs) f (here, there) = (All-map xs (f x) here, Pairwise-map xs f there)

  -- The predicate holds of some entry.
  abbrev pub Any : (A → Type 0) → List A → Type 0
  Any P [] = ⊥
  Any P (x ∷ xs) = P x ⊎ Any P xs

  pub Any-map :
      {Holds Gets : A → Type 0} (xs : List A)
      → ((x : A) → Holds x → Gets x)
      → Any Holds xs
      → Any Gets xs
  Any-map [] f h = absurd h
  Any-map (x ∷ xs) f (inl here) = inl (f x here)
  Any-map (x ∷ xs) f (inr there) = inr (Any-map xs f there)

  -- The predicate holds of the value, if there is one.
  abbrev pub OnSome {κ} : (A → Type κ) → Option A → Type κ
  OnSome P none = Unit
  OnSome P (some x) = P x

  pub OnSome-zip {κ κ' κ''} :
      {Holds : A → Type κ} {Also : A → Type κ'} {Gets : A → Type κ''} (o : Option A)
      → ((x : A) → Holds x → Also x → Gets x)
      → OnSome Holds o
      → OnSome Also o
      → OnSome Gets o
  OnSome-zip none f here also = tt
  OnSome-zip (some x) f here also = f x here also

  -- The entries that a test keeps.
  abbrev pub keep : (A → Bool) → List A → List A
  keep test [] = []
  keep test (x ∷ xs) = if test x then x ∷ keep test xs else keep test xs

  pub keep-here :
      (test : A → Bool) (x : A) (xs : List A)
      → test x ≡ true
      → keep test (x ∷ xs) ≡ x ∷ keep test xs
  keep-here test x xs h = rw h refl

  pub keep-skip :
      (test : A → Bool) (x : A) (xs : List A) → test x ≡ false → keep test (x ∷ xs) ≡ keep test xs
  keep-skip test x xs h = rw h refl

  pub keep-none : (test : A → Bool) (xs : List A) → All (λ x. test x ≡ false) xs → keep test xs ≡ []
  keep-none test [] none_kept = refl
  keep-none test (x ∷ xs) (here, there) = rw here (keep-none test xs there)

  pub keep-All : (test : A → Bool) (xs : List A) → All (λ x. test x ≡ true) xs → keep test xs ≡ xs
  keep-All test [] kept = refl
  keep-All test (x ∷ xs) (here, there) = rw here (ap (◌∷◌ x) (keep-All test xs there))

  pub All-keep {κ} :
      (Holds : A → Type κ) (test : A → Bool) (xs : List A)
      → All Holds xs
      → All (λ x. (test x ≡ true) × Holds x) (keep test xs)
  All-keep Holds test [] all = tt
  All-keep Holds test (x ∷ xs) (here, there) =
      let later = All-keep Holds test xs there in
      if_elim (All (λ x. (test x ≡ true) × Holds x)) (test x) (x ∷ keep test xs) (keep test xs)
        (λ h. ((h, here), later)) (λ _. later)

  pub Pairwise-keep {κ} :
      (R : A → A → Type κ) (test : A → Bool) (xs : List A)
      → Pairwise R xs
      → Pairwise R (keep test xs)
  Pairwise-keep R test [] all = tt
  Pairwise-keep R test (x ∷ xs) (here, there) =
      let later = Pairwise-keep R test xs there in
      if_elim (Pairwise R) (test x) (x ∷ keep test xs) (keep test xs)
        (λ _. (All-map (keep test xs) (λ _ p. p.1) (All-keep (R x) test xs here), later))
        (λ _. later)

-- A predicate of the images is a predicate of the entries.
module _ {ℓ ℓ'} {A : Type ℓ} {B : Type ℓ'} where
  pub All-of_map {κ} :
      (Holds : B → Type κ) (f : A → B) (xs : List A)
      → All (λ x. Holds (f x)) xs
      → All Holds (map f xs)
  All-of_map Holds f [] all = tt
  All-of_map Holds f (x ∷ xs) (here, there) = (here, All-of_map Holds f xs there)

  pub Pairwise-of_map {κ} :
      (R : B → B → Type κ) (f : A → B) (xs : List A)
      → Pairwise (λ x y. R (f x) (f y)) xs
      → Pairwise R (map f xs)
  Pairwise-of_map R f [] all = tt
  Pairwise-of_map R f (x ∷ xs) (here, there) =
      (All-of_map (R (f x)) f xs here, Pairwise-of_map R f xs there)

  pub Any-to_map :
      (Holds : B → Type 0) (f : A → B) (xs : List A)
      → Any (λ x. Holds (f x)) xs
      → Any Holds (map f xs)
  Any-to_map Holds f [] h = absurd h
  Any-to_map Holds f (x ∷ xs) (inl here) = inl here
  Any-to_map Holds f (x ∷ xs) (inr there) = inr (Any-to_map Holds f xs there)

  pub Any-of_map :
      (Holds : B → Type 0) (f : A → B) (xs : List A)
      → Any Holds (map f xs)
      → Any (λ x. Holds (f x)) xs
  Any-of_map Holds f [] h = absurd h
  Any-of_map Holds f (x ∷ xs) (inl here) = inl here
  Any-of_map Holds f (x ∷ xs) (inr there) = inr (Any-of_map Holds f xs there)
