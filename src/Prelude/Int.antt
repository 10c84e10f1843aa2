-- ===== src/Prelude/Int.antt =====
-- Signed integers over the native numbers. Python's `timedelta` is one, and may be negative; a
-- `datetime` is a number, counted in microseconds from the first instant that Python can write.
use Prim.Native.Nat.{ℕ, suc, ◌+◌, ◌-◌}
use mathlib.Core.Bool.{Bool}
use coengram.Prelude.Tests.{ltb, leb, if◌then◌else◌}

-- `negsuc n` is -(n + 1).
pub data ℤ : Type 0 where
  pos : ℕ → ℤ
  negsuc : ℕ → ℤ

abbrev pub pos_part : ℤ → ℕ
pos_part (pos n) = n
pos_part (negsuc n) = 0

abbrev pub neg_part : ℤ → ℕ
neg_part (pos n) = 0
neg_part (negsuc n) = suc n

abbrev pub ltb_ℤ : ℤ → ℤ → Bool
ltb_ℤ a b = ltb (pos_part a + neg_part b) (pos_part b + neg_part a)

abbrev pub leb_ℤ : ℤ → ℤ → Bool
leb_ℤ a b = leb (pos_part a + neg_part b) (pos_part b + neg_part a)

abbrev pub min_ℤ : ℤ → ℤ → ℤ
min_ℤ a b = if ltb_ℤ b a then b else a

-- A `datetime` and a `timedelta`; below the first instant Python raises `OverflowError`, and the sum
-- stops at 0 instead.
abbrev pub shift : ℕ → ℤ → ℕ
shift t d = t + pos_part d - neg_part d

-- `min` of two `datetime`s
abbrev pub min_time : ℕ → ℕ → ℕ
min_time a b = if ltb b a then b else a
