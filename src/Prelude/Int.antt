-- ===== src/Prelude/Int.antt =====
-- Signed integers over the native numbers, under the library's names (its ℤ stands on the unary ℕ).
-- Python's integers are unbounded, so nothing wraps.
use Prim.Native.Nat.{ℕ, zero, suc, ◌+◌, ◌≤◌}
use mathlib.Core.Path.{◌≡◌, refl}
use mathlib.Core.Bool.{Bool, true, false}
use native.Mathlib.Omega.{arith}
use agent_relay_auto.Prelude.Tests.{leb, nat_eq}

-- `negsuc n` is -(n + 1).
pub data ℤ : Type 0 where
  pos : ℕ → ℤ
  negsuc : ℕ → ℤ

abbrev pub pos_part : ℤ → ℕ
pos_part (pos n) = n
pos_part (negsuc n) = 0

abbrev pub neg_part : ℤ → ℕ
neg_part (pos n) = 0
neg_part (negsuc n) = suc n

-- `i + 1`, the only sum that the program makes of a value that it reads.
unfoldable pub succ_ℤ : ℤ → ℤ
succ_ℤ (pos n) = pos (n + 1)
succ_ℤ (negsuc zero) = pos 0
succ_ℤ (negsuc (suc n)) = negsuc n

infix 50 ◌≤ℤ◌ ◌<ℤ◌
abbrev pub ◌≤ℤ◌ : ℤ → ℤ → Type 0
a ≤ℤ b = pos_part a + neg_part b ≤ pos_part b + neg_part a

abbrev pub ◌<ℤ◌ : ℤ → ℤ → Type 0
a <ℤ b = pos_part a + neg_part b + 1 ≤ pos_part b + neg_part a

abbrev pub leb_ℤ : ℤ → ℤ → Bool
leb_ℤ a b = leb (pos_part a + neg_part b) (pos_part b + neg_part a)

abbrev pub eq_ℤ : ℤ → ℤ → Bool
eq_ℤ (pos a) (pos b) = nat_eq a b
eq_ℤ (negsuc a) (negsuc b) = nat_eq a b
eq_ℤ _ _ = false

pub eq_ℤ-eq : (a b : ℤ) → eq_ℤ a b ≡ true → a ≡ b
eq_ℤ-eq (pos a) (pos b) h = ground arith
eq_ℤ-eq (pos a) (negsuc b) h = ground arith
eq_ℤ-eq (negsuc a) (pos b) h = ground arith
eq_ℤ-eq (negsuc a) (negsuc b) h = ground arith

pub eq_ℤ_refl : (a : ℤ) → eq_ℤ a a ≡ true
eq_ℤ_refl (pos a) = ground arith
eq_ℤ_refl (negsuc a) = ground arith

-- One lemma lets the tactics work with `succ_ℤ` shut.
pub succ_ℤ_parts : (a : ℤ) → pos_part (succ_ℤ a) + neg_part a ≡ pos_part a + 1 + neg_part (succ_ℤ a)
unfolding succ_ℤ
succ_ℤ_parts (pos n) = omega arith
succ_ℤ_parts (negsuc zero) = omega arith
succ_ℤ_parts (negsuc (suc n)) = omega arith

pub lt-succ_ℤ : (a : ℤ) → a <ℤ succ_ℤ a
lt-succ_ℤ a = omega (arith, succ_ℤ_parts a)

pub eq_ℤ-succ : (a : ℤ) → eq_ℤ (succ_ℤ a) a ≡ false
unfolding succ_ℤ
eq_ℤ-succ (pos n) = ground arith
eq_ℤ-succ (negsuc zero) = refl
eq_ℤ-succ (negsuc (suc n)) = ground arith
