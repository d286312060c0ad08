-- ===== src/Prelude/Int.antt =====
-- Signed integers over the native numbers, as far as times and their zones need them.
use Prim.Native.Nat.{ℕ, zero, suc, ◌+◌, ◌-◌, ◌*◌, compare, Ordering}
use mathlib.Core.Bool.{Bool, true, false}
use nntp_tools.Prelude.Tests.{ltb}
use mathlib.Core.Path.{◌≡◌}
use native.Mathlib.Omega.{arith}

-- `negsuc n` is -(n + 1).
pub data ℤ : Type 0 where
  pos negsuc : ℕ → ℤ

-- The difference of two numbers.
abbrev pub sub_ℕ : ℕ → ℕ → ℤ
sub_ℕ a b = elim (compare a b) [ Ordering.lt ↦ negsuc (b - suc a) | _ ↦ pos (a - b) ]

abbrev pub negate : ℕ → ℤ
negate zero = pos 0
negate (suc n) = negsuc n

infixl 65 ◌+ℤ◌ ◌-ℤ◌
unfoldable pub ◌-ℤ◌ : ℤ → ℤ → ℤ
pos a -ℤ pos b = sub_ℕ a b
pos a -ℤ negsuc b = pos (a + suc b)
negsuc a -ℤ pos b = negsuc (a + b)
negsuc a -ℤ negsuc b = sub_ℕ b a

unfoldable pub ◌+ℤ◌ : ℤ → ℤ → ℤ
pos a +ℤ pos b = pos (a + b)
pos a +ℤ negsuc b = sub_ℕ a (suc b)
negsuc a +ℤ pos b = sub_ℕ b (suc a)
negsuc a +ℤ negsuc b = negsuc (a + suc b)

-- `<`.
abbrev pub is_less : ℤ → ℤ → Bool
is_less (pos m) (pos n) = ltb m n
is_less (negsuc m) (negsuc n) = ltb n m
is_less (negsuc m) (pos n) = true
is_less (pos m) (negsuc n) = false

-- A multiple.
abbrev pub times : ℕ → ℤ → ℤ
times k (pos n) = pos (k * n)
times k (negsuc n) = negate (k * suc n)

-- Adding what is left of a subtraction gives the first number back.
pub sub-add : (a b : ℤ) → a -ℤ b +ℤ b ≡ a
unfolding ◌-ℤ◌ ◌+ℤ◌
sub-add (pos a) (pos b) = ground arith
sub-add (pos a) (negsuc b) = ground arith
sub-add (negsuc a) (pos b) = ground arith
sub-add (negsuc a) (negsuc b) = ground arith

-- Two subtrahends whose difference is known.
pub sub-sub : (a b c : ℤ) → (a -ℤ b) -ℤ (a -ℤ c) ≡ c -ℤ b
unfolding ◌-ℤ◌
sub-sub (pos a) (pos b) (pos c) = ground arith
sub-sub (pos a) (pos b) (negsuc c) = ground arith
sub-sub (pos a) (negsuc b) (pos c) = ground arith
sub-sub (pos a) (negsuc b) (negsuc c) = ground arith
sub-sub (negsuc a) (pos b) (pos c) = ground arith
sub-sub (negsuc a) (pos b) (negsuc c) = ground arith
sub-sub (negsuc a) (negsuc b) (pos c) = ground arith
sub-sub (negsuc a) (negsuc b) (negsuc c) = ground arith
