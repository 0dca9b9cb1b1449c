-- ===== src/Prelude/Int.antt =====
-- Go's signed 64-bit integers: ℤ over the native numbers, and the wrap-around of int64 arithmetic.
use Prim.Native.Nat.{ℕ, suc, ◌+◌, ◌-◌, ◌%◌, ◌^◌, ◌≤◌, ◌<◌}
use mathlib.Core.Path.{◌≡◌}
use mathlib.Core.Bool.{Bool}
use native.Mathlib.Omega.{arith}
use osde2e.Prelude.Tests.{ltb, leb, ◌==◌, if◌then◌else◌}

-- `negsuc n` is -(n + 1).
pub data ℤ : Type 0 where
  pos : ℕ → ℤ
  negsuc : ℕ → ℤ

abbrev pub pos_part : ℤ → ℕ
pos_part (pos n) = n
pos_part (negsuc n) = 0

abbrev pub neg_part : ℤ → ℕ
neg_part (pos n) = 0
neg_part (negsuc n) = suc n

-- a - b, as an integer.
abbrev pub sub_ℕ : ℕ → ℕ → ℤ
sub_ℕ a b = if leb b a then pos (a - b) else negsuc (b - a - 1)

abbrev pub ltb_ℤ : ℤ → ℤ → Bool
ltb_ℤ a b = ltb (pos_part a + neg_part b) (pos_part b + neg_part a)

abbrev pub eqb_ℤ : ℤ → ℤ → Bool
eqb_ℤ a b = (pos_part a + neg_part b) == (pos_part b + neg_part a)

abbrev pub word_size : ℕ
word_size = 2 ^ 64

-- The 64-bit pattern of an integer: the value of a `uint64(...)` conversion.
abbrev pub word : ℤ → ℕ
word (pos n) = n % word_size
word (negsuc n) = word_size - 1 - n % word_size

-- A pattern read as an int64.
abbrev pub signed : ℕ → ℤ
signed w = if ltb w (2 ^ 63) then pos w else negsuc (word_size - 1 - w)

-- int64 addition.
abbrev pub add_int : ℤ → ℤ → ℤ
add_int a b = signed ((word a + word b) % word_size)

-- Without overflow the sum of a number and a number is the sum.
pub add_int_pos : (a b : ℕ) → a + b < 2 ^ 63 → add_int (pos a) (pos b) ≡ pos (a + b)
add_int_pos a b h = ground arith

infix 50 ◌≤ℤ◌
abbrev pub ◌≤ℤ◌ : ℤ → ℤ → Type 0
a ≤ℤ b = pos_part a + neg_part b ≤ pos_part b + neg_part a
