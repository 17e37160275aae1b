-- ===== src/Base/Ranges.antt =====
-- The loop `for (uint32_t i = base; i < base + num; i++)`, whose bound is computed modulo 2^32, as a
-- recursion on the rounds that are left.
use Prim.Native.Nat.{ℕ, zero, suc, ◌+◌, ◌-◌, ◌%◌, ◌^◌, ◌≤◌, ◌<◌}
use mathlib.Core.Path.{sym, subst}
use native.Mathlib.Omega.{arith}
use native.Mathlib.Decide.{ℕ_discrete}

module _ {ℓ} {A : Type ℓ} (body : ℕ → A → A) where
  unfoldable pub rounds : ℕ → ℕ → A → A
  rounds zero i a = a
  rounds (suc n) i a = rounds n (suc i) (body i a)

  unfoldable pub for_range : ℕ → ℕ → A → A
  for_range base num a = rounds ((base + num) % 2 ^ 32 - base) base a

  rounds_inv {κ} :
      (P : A → Type κ) (n i : ℕ)
      → ((j : ℕ) (a : A) → i ≤ j → j < i + n → P a → P (body j a))
      → (a : A) → P a
      → P (rounds n i a)
  unfolding rounds
  rounds_inv P zero i keep a p = p
  rounds_inv P (suc n) i keep a p =
      rounds_inv P n (suc i) (λ j b l u. keep j b (omega arith) (omega arith)) (body i a)
        (keep i a (omega arith) (omega arith) p)

  -- What every round keeps, the loop keeps.
  pub for_range_inv {κ} :
      (P : A → Type κ) (base num : ℕ)
      → ((j : ℕ) (a : A) → base ≤ j → j < (base + num) % 2 ^ 32 → P a → P (body j a))
      → (a : A) → P a
      → P (for_range base num a)
  unfolding for_range
  for_range_inv P base num keep =
      rounds_inv P ((base + num) % 2 ^ 32 - base) base (λ j a l u. keep j a l (omega arith))

  rounds_done {κ μ} :
      (Q : A → Type κ) (P : A → Type μ) (n i k : ℕ)
      → i ≤ k
      → k < i + n
      → ((j : ℕ) (a : A) → i ≤ j → j < i + n → Q a → Q (body j a))
      → ((a : A) → Q a → P (body k a))
      → ((j : ℕ) (a : A) → i ≤ j → j < i + n → Q a → P a → P (body j a))
      → (a : A) → Q a
      → P (rounds n i a)
  unfolding rounds
  rounds_done Q P zero i k l u inv now later a q = absurd (omega arith)
  rounds_done Q P (suc n) i k l u inv now later a q = elim (ℕ_discrete i k) [
    | yes e ↦
        (rounds_inv (λ b. Q b × P b) n (suc i)
          (λ j b m v h. (
            inv j b (omega arith) (omega arith) h.0,
            later j b (omega arith) (omega arith) h.0 h.1,
          ))
          (body i a)
          (
            inv i a (omega arith) (omega arith) q,
            subst (λ (x : ℕ). P (body x a)) (sym e) (now a q),
          )).1
    | no h ↦
        rounds_done Q P n (suc i) k (omega arith) (omega arith)
          (λ j b m v. inv j b (omega arith) (omega arith)) now
          (λ j b m v. later j b (omega arith) (omega arith)) (body i a)
          (inv i a (omega arith) (omega arith) q)
  ]

  -- What one round of the loop establishes and the others keep holds at its end.
  pub for_range_done {κ μ} :
      (Q : A → Type κ) (P : A → Type μ) (base num k : ℕ)
      → base ≤ k
      → k < (base + num) % 2 ^ 32
      → ((j : ℕ) (a : A) → base ≤ j → j < (base + num) % 2 ^ 32 → Q a → Q (body j a))
      → ((a : A) → Q a → P (body k a))
      → ((j : ℕ) (a : A) → base ≤ j → j < (base + num) % 2 ^ 32 → Q a → P a → P (body j a))
      → (a : A) → Q a
      → P (for_range base num a)
  unfolding for_range
  for_range_done Q P base num k l u inv now later =
      rounds_done Q P ((base + num) % 2 ^ 32 - base) base k l (omega arith)
        (λ j a m v. inv j a m (omega arith)) now (λ j a m v. later j a m (omega arith))
