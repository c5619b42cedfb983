-- ===== src/Prelude/Int.antt =====
-- Go's `int` and `int64`: 64-bit two's complement. A value is an integer, and each operation wraps
-- its exact result into the range.
use Prim.Native.Nat.{ℕ, suc, ◌+◌, ◌-◌, ◌*◌, ◌/◌, ◌%◌, ◌^◌, ◌≤◌, ◌<◌}
use mathlib.Core.Path.{◌≡◌, ap}
use mathlib.Core.Bool.{Bool, true, false}
use native.Mathlib.Omega.{arith}
use msa_core.Prelude.Tests.{ltb, leb, nat_beq, if◌then◌else◌}
use msa_core.Prelude.Run.{Run, ret, panic, divide_by_zero}

-- `negsuc n` is -(n + 1).
pub data ℤ : Type 0 where
  pos : ℕ → ℤ
  negsuc : ℕ → ℤ

abbrev pub pos_part : ℤ → ℕ
pos_part (pos n) = n
pos_part (negsuc n) = 0

abbrev pub neg_part : ℤ → ℕ
neg_part (pos n) = 0
neg_part (negsuc n) = suc n

-- a - b, as an integer
abbrev pub sub_ℕ : ℕ → ℕ → ℤ
sub_ℕ a b = if leb b a then pos (a - b) else negsuc (b - a - 1)

abbrev pub int64_mod : ℕ
int64_mod = 2 ^ 64

abbrev pub int64_half : ℕ
int64_half = 2 ^ 63

-- the integer that a 64-bit pattern stands for
abbrev pub of_word : ℕ → ℤ
of_word w = if ltb w int64_half then pos w else negsuc (int64_mod - w - 1)

-- the exact integer a - b, wrapped
abbrev pub wrap_sub : ℕ → ℕ → ℤ
wrap_sub a b = of_word ((a % int64_mod + (int64_mod - b % int64_mod)) % int64_mod)

infixl 65 ◌+ℤ◌ ◌-ℤ◌
infixl 70 ◌*ℤ◌
unfoldable pub ◌+ℤ◌ : ℤ → ℤ → ℤ
a +ℤ b = wrap_sub (pos_part a + pos_part b) (neg_part a + neg_part b)

unfoldable pub ◌-ℤ◌ : ℤ → ℤ → ℤ
a -ℤ b = wrap_sub (pos_part a + neg_part b) (neg_part a + pos_part b)

unfoldable pub ◌*ℤ◌ : ℤ → ℤ → ℤ
a *ℤ b =
    wrap_sub (pos_part a * pos_part b + neg_part a * neg_part b)
      (pos_part a * neg_part b + neg_part a * pos_part b)

-- `a < b`
abbrev pub ltb_ℤ : ℤ → ℤ → Bool
ltb_ℤ a b = ltb (pos_part a + neg_part b) (pos_part b + neg_part a)

-- `a <= b`
abbrev pub leb_ℤ : ℤ → ℤ → Bool
leb_ℤ a b = leb (pos_part a + neg_part b) (pos_part b + neg_part a)

-- `a == b`
abbrev pub beq_ℤ : ℤ → ℤ → Bool
beq_ℤ (pos a) (pos b) = nat_beq a b
beq_ℤ (pos a) (negsuc b) = false
beq_ℤ (negsuc a) (pos b) = false
beq_ℤ (negsuc a) (negsuc b) = nat_beq a b

-- `a / b`: rounds towards zero, and panics at a zero divisor
unfoldable pub div_ℤ : ℤ → ℤ → Run ℤ
div_ℤ (pos a) (pos b) = if nat_beq b 0 then panic divide_by_zero else ret (pos (a / b))
div_ℤ (pos a) (negsuc b) = ret (wrap_sub 0 (a / suc b))
div_ℤ (negsuc a) (pos b) =
    if nat_beq b 0 then panic divide_by_zero else ret (wrap_sub 0 (suc a / b))
div_ℤ (negsuc a) (negsuc b) = ret (wrap_sub (suc a / suc b) 0)

-- In range the operations on non-negative values are those of the numbers.
pub add_pos : (a b : ℕ) → a + b < int64_half → pos a +ℤ pos b ≡ pos (a + b)
unfolding ◌+ℤ◌
add_pos a b h = ground arith

pub sub_pos : (a b : ℕ) → b ≤ a → a < int64_half → pos a -ℤ pos b ≡ pos (a - b)
unfolding ◌-ℤ◌
sub_pos a b h k = ground arith

pub mul_pos : (a b : ℕ) → a * b < int64_half → pos a *ℤ pos b ≡ pos (a * b)
unfolding ◌*ℤ◌
mul_pos a b h = ground arith

-- A product whose lower 64 bits begin with a one is negative.
pub mul_pos_overflow :
    (a b : ℕ)
    → int64_half ≤ a * b % int64_mod
    → pos a *ℤ pos b ≡ negsuc (int64_mod - a * b % int64_mod - 1)
unfolding ◌*ℤ◌
mul_pos_overflow a b h = ground arith

pub div_pos : (a b : ℕ) → 0 < b → div_ℤ (pos a) (pos b) ≡ ret (pos (a / b))
unfolding div_ℤ
div_pos a b h = ground arith

pub beq_ℤ-eq : (a b : ℤ) → beq_ℤ a b ≡ true → a ≡ b
beq_ℤ-eq (pos a) (pos b) h = ap pos (ground arith)
beq_ℤ-eq (pos a) (negsuc b) h = cc
beq_ℤ-eq (negsuc a) (pos b) h = cc
beq_ℤ-eq (negsuc a) (negsuc b) h = ap negsuc (ground arith)
