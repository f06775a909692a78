-- ===== src/Prelude/Int.antt =====
-- Signed integers over the native numbers, under the library's names (its ℤ stands on the unary
-- ℕ), and the `i64` operations of the program: an `i64` is an integer that `IsI64` bounds.
use Prim.Native.Nat.{ℕ, suc, ◌+◌, ◌-◌, ◌/◌, ◌%◌, ◌≤◌}
use mathlib.Core.Path.{◌≡◌}
use mathlib.Core.Logic.{◌↔◌}
use mathlib.Core.Bool.{Bool, true, ◌&&◌}
use mathlib.Core.Option.{Option, none, some}
use native.Mathlib.Omega.{arith}
use ros2_rust.Prelude.Tests.{ltb, leb, if◌then◌else◌, ◌==◌ as nat_beq}

-- `negsuc n` is -(n + 1).
pub data ℤ : Type 0 where
  pos : ℕ → ℤ
  negsuc : ℕ → ℤ

abbrev pub pos_part : ℤ → ℕ
pos_part (pos n) = n
pos_part (negsuc n) = 0

abbrev pub neg_part : ℤ → ℕ
neg_part (pos n) = 0
neg_part (negsuc n) = suc n

-- a - b, as an integer.
abbrev pub sub_ℕ : ℕ → ℕ → ℤ
sub_ℕ a b = if leb b a then pos (a - b) else negsuc (b - a - 1)

infixl 65 ◌+ℤ◌ ◌-ℤ◌
infix 50 ◌≤ℤ◌
unfoldable pub ◌+ℤ◌ : ℤ → ℤ → ℤ
a +ℤ b = sub_ℕ (pos_part a + pos_part b) (neg_part a + neg_part b)

unfoldable pub ◌-ℤ◌ : ℤ → ℤ → ℤ
a -ℤ b = sub_ℕ (pos_part a + neg_part b) (neg_part a + pos_part b)

abbrev pub ◌≤ℤ◌ : ℤ → ℤ → Type 0
a ≤ℤ b = pos_part a + neg_part b ≤ pos_part b + neg_part a

-- `a < b` and `a == b` on `i64`.
abbrev pub ltb_ℤ : ℤ → ℤ → Bool
ltb_ℤ a b = ltb (pos_part a + neg_part b) (pos_part b + neg_part a)

abbrev pub beq_ℤ : ℤ → ℤ → Bool
beq_ℤ a b = nat_beq (pos_part a) (pos_part b) && nat_beq (neg_part a) (neg_part b)

-- Rust's `%` truncates toward zero: the remainder has the sign of the dividend.
abbrev pub rem : ℤ → ℤ → ℤ
rem a b = sub_ℕ (pos_part a % (pos_part b + neg_part b)) (neg_part a % (pos_part b + neg_part b))

-- Rust's `/` by a positive number, truncated toward zero.
abbrev pub quot_pos : ℤ → ℕ → ℤ
quot_pos a b = sub_ℕ (pos_part a / b) (neg_part a / b)

abbrev pub i64_max : ℕ
i64_max = 9223372036854775807

-- i64::MIN ≤ a ≤ i64::MAX.
abbrev pub IsI64 : ℤ → Type 0
IsI64 a = (pos_part a ≤ 9223372036854775807) × (neg_part a ≤ 9223372036854775808)

abbrev pub fits_i64 : ℤ → Bool
fits_i64 a = leb (pos_part a) 9223372036854775807 && leb (neg_part a) 9223372036854775808

-- `checked_add` and `checked_sub` on `i64`; the plain operators panic where these give `None`.
abbrev pub checked_add : ℤ → ℤ → Option ℤ
checked_add a b = if fits_i64 (a +ℤ b) then some (a +ℤ b) else none

abbrev pub checked_sub : ℤ → ℤ → Option ℤ
checked_sub a b = if fits_i64 (a -ℤ b) then some (a -ℤ b) else none

pub +ℤ_cancel : (a b : ℤ) → a +ℤ b -ℤ b ≡ a
unfolding ◌+ℤ◌ ◌-ℤ◌
+ℤ_cancel a b = ground arith

pub beq_ℤ_iff : (a b : ℤ) → (beq_ℤ a b ≡ true) ↔ (a ≡ b)
beq_ℤ_iff a b = ground arith
