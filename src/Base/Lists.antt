-- ===== src/Base/Lists.antt =====
-- Lists measured and indexed by native numbers, under the library's names, and the pointwise
-- predicate.
use Prim.Native.Nat.{ℕ, zero, suc, ◌+◌, ◌<◌, ◌≤◌}
use mathlib.Core.Path.{◌≡◌, refl, ap}
use mathlib.Core.Logic.{◌≢◌}
use mathlib.Core.List.{List, [], ◌∷◌, ◌++◌}
use native.Mathlib.Omega.{arith}
use cutie_rhi.Base.Tests.{◌==◌, if◌then◌else◌}

module _ {ℓ} {A : Type ℓ} where
  abbrev pub length : List A → ℕ
  length [] = 0
  length (x ∷ xs) = suc (length xs)

  -- A read out of bounds gives the default.
  abbrev pub get_or : List A → ℕ → A → A
  get_or [] i d = d
  get_or (x ∷ xs) zero d = x
  get_or (x ∷ xs) (suc i) d = get_or xs i d

  -- A write out of bounds changes nothing.
  abbrev pub set : List A → ℕ → A → List A
  set [] i v = []
  set (x ∷ xs) zero v = v ∷ xs
  set (x ∷ xs) (suc i) v = x ∷ set xs i v

  abbrev pub replicate : ℕ → A → List A
  replicate zero a = []
  replicate (suc n) a = a ∷ replicate n a

  pub length-append : (xs ys : List A) → length (xs ++ ys) ≡ length xs + length ys
  length-append [] ys = omega arith
  length-append (x ∷ xs) ys = omega (arith, length-append xs ys)

  pub length-set : (xs : List A) (i : ℕ) (v : A) → length (set xs i v) ≡ length xs
  length-set [] i v = refl
  length-set (x ∷ xs) zero v = refl
  length-set (x ∷ xs) (suc i) v = ap suc (length-set xs i v)

  pub length-replicate : (n : ℕ) (a : A) → length (replicate n a) ≡ n
  length-replicate zero a = refl
  length-replicate (suc n) a = ap suc (length-replicate n a)

  pub get_or-set_self :
      (xs : List A) (i : ℕ) (v d : A) → i < length xs → get_or (set xs i v) i d ≡ v
  get_or-set_self [] i v d h = absurd (omega arith)
  get_or-set_self (x ∷ xs) zero v d h = refl
  get_or-set_self (x ∷ xs) (suc i) v d h = get_or-set_self xs i v d (omega arith)

  pub get_or-set_ne :
      (xs : List A) (i j : ℕ) (v d : A) → i ≢ j → get_or (set xs i v) j d ≡ get_or xs j d
  get_or-set_ne [] i j v d h = refl
  get_or-set_ne (x ∷ xs) zero zero v d h = absurd (h refl)
  get_or-set_ne (x ∷ xs) zero (suc j) v d h = refl
  get_or-set_ne (x ∷ xs) (suc i) zero v d h = refl
  get_or-set_ne (x ∷ xs) (suc i) (suc j) v d h = get_or-set_ne xs i j v d (λ e. h (ap suc e))

  pub get_or-replicate : (n i : ℕ) (a d : A) → i < n → get_or (replicate n a) i d ≡ a
  get_or-replicate zero i a d h = absurd (omega arith)
  get_or-replicate (suc n) zero a d h = refl
  get_or-replicate (suc n) (suc i) a d h = get_or-replicate n i a d (omega arith)

  abbrev pub All {κ} : (A → Type κ) → List A → Type κ
  All P [] = Unit
  All P (x ∷ xs) = P x × All P xs

  pub All-append {κ} :
      (Holds : A → Type κ) (front back : List A)
      → All Holds front
      → All Holds back
      → All Holds (front ++ back)
  All-append Holds (x ∷ front) back (here, there) last =
      (here, All-append Holds front back there last)
  All-append Holds [] back first last = last

  -- `std::vector::resize`.
  unfoldable pub resize : ℕ → A → List A → List A
  resize zero v xs = []
  resize (suc n) v [] = v ∷ resize n v []
  resize (suc n) v (x ∷ xs) = x ∷ resize n v xs

  pub resize-nil : (n : ℕ) (v : A) → resize n v [] ≡ replicate n v
  unfolding resize
  resize-nil zero v = refl
  resize-nil (suc n) v = ap (◌∷◌ v) (resize-nil n v)

  pub length-resize : (n : ℕ) (v : A) (xs : List A) → length (resize n v xs) ≡ n
  unfolding resize
  length-resize zero v xs = refl
  length-resize (suc n) v [] = ap suc (length-resize n v [])
  length-resize (suc n) v (x ∷ xs) = ap suc (length-resize n v xs)

  pub resize_self : (n : ℕ) (v : A) (xs : List A) → length xs ≡ n → resize n v xs ≡ xs
  unfolding resize
  resize_self zero v [] h = refl
  resize_self zero v (x ∷ xs) h = absurd (omega arith)
  resize_self (suc n) v [] h = absurd (omega arith)
  resize_self (suc n) v (x ∷ xs) h = ap (◌∷◌ x) (resize_self n v xs (omega arith))

  pub get_or-resize :
      (n : ℕ) (v : A) (xs : List A) (i : ℕ)
      → length xs ≤ n
      → get_or (resize n v xs) i v ≡ get_or xs i v
  unfolding resize
  get_or-resize zero v [] i low = refl
  get_or-resize zero v (x ∷ xs) i low = absurd (omega arith)
  get_or-resize (suc n) v [] zero low = refl
  get_or-resize (suc n) v [] (suc i) low = get_or-resize n v [] i (omega arith)
  get_or-resize (suc n) v (x ∷ xs) zero low = refl
  get_or-resize (suc n) v (x ∷ xs) (suc i) low = get_or-resize n v xs i (omega arith)

  pub get_or-set :
      (xs : List A) (i j : ℕ) (v d : A)
      → i < length xs
      → get_or (set xs i v) j d ≡ (if i == j then v else get_or xs j d)
  get_or-set [] i j v d low = absurd (omega arith)
  get_or-set (x ∷ xs) zero zero v d low = ground arith
  get_or-set (x ∷ xs) zero (suc j) v d low = ground arith
  get_or-set (x ∷ xs) (suc i) zero v d low = ground arith
  get_or-set (x ∷ xs) (suc i) (suc j) v d low = ground (arith, get_or-set xs i j v d (omega arith))
